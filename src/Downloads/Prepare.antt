-- ===== src/Downloads/Prepare.antt =====
-- `prepare` of partition-downloads.ts: a request is made once for a key, from the partitions that its
-- requester may read, within the limits and the quotas.
-- The scope is given in its canonical form, and the ids that the database generates are arguments.
use sme_data_center.Common.{
  ℕ, zero, suc, ◌+◌, ◌*◌, Bool, true, false, not, ◌&&◌, ◌||◌, if◌then◌else◌, Option, none, some,
  List, [], ◌∷◌, ◌==◌, ltb, leb, Text, text_eq, trim, find, find_many, count, any, map, length,
  is_empty,
}
use sme_data_center.Downloads.Schema.{
  queued, succeeded, run_queued, structured_partition_bundle, forbidden, limit_exceeded,
  active_limit_exceeded, idempotency_conflict, invalid_idempotency_key, key_taken, row_missing,
  Limits, Scope, Entry, Partition, Request, Run, Employee, Db, Env, Result, ok, err, ◌>>=◌, is_live,
  holds, lock_request,
}
use sme_data_center.Downloads.Requests.{
  Times, row_due, quota_read, created_at, effective_order_scope, expire_row,
}
use sme_data_center.Downloads.Workers.{PublicStatus, public_status, Actor}

-- `authority`: the employee of the actor, unless disabled.
unfoldable pub authority : ℕ → ℕ → Db → Result Employee
authority id org_id db =
    elim (find (λ (e : Employee). e.id == id && e.org_id == org_id) db.employees) [
      | none ↦ err forbidden
      | some e ↦ if e.disabled then err forbidden else ok e
    ]

module _ {A : Type 0} (before : A → A → Bool) where
  -- `ORDER BY`, by insertion.
  unfoldable pub insert : A → List A → List A
  insert x [] = x ∷ []
  insert x (y ∷ ys) = let rest = insert x ys in if before y x then y ∷ rest else x ∷ y ∷ ys

  unfoldable pub sort : List A → List A
  sort [] = []
  sort (x ∷ xs) = insert x (sort xs)

-- `LIMIT` and `take`.
unfoldable pub take {ℓ} : {A : Type ℓ} → ℕ → List A → List A
take zero xs = []
take (suc n) [] = []
take (suc n) (x ∷ xs) = x ∷ take n xs

-- By business date, then by store key, then by id.
unfoldable pub comes_first : Entry → Entry → Bool
comes_first a b =
    ltb a.business_date b.business_date
    || (a.business_date == b.business_date
        && (ltb a.store_key b.store_key || (a.store_key == b.store_key && ltb a.id b.id)))

-- A column that is not null and is among the values.
unfoldable pub is_among : Option ℕ → List ℕ → Bool
is_among none ids = false
is_among (some id) ids = any (λ x. x == id) ids

unfoldable pub is_in_scope : Env → Db → Employee → Scope → Option (List ℕ) → Partition → Bool
is_in_scope env db employee scope captured p =
    env.readable db employee scope p
    && elim captured [ none ↦ true | some ids ↦ is_among (some p.entry.id) ids ]
    && leb scope.start_date p.entry.business_date
    && leb p.entry.business_date scope.end_date
    && elim scope.store_ids [ none ↦ true | some ids ↦ is_among p.entry.merchant_id ids ]

unfoldable pub entry_of : Env → Partition → Entry
entry_of env p = record p.entry {
  order_scope = effective_order_scope env p.dataset p.entry.order_scope;
}

-- `manifest`.
unfoldable pub manifest : Env → Employee → Scope → ℕ → Option (List ℕ) → Db → List Entry
manifest env employee scope maximum captured db = take (suc maximum) (
    sort comes_first
      (map (entry_of env) (find_many (is_in_scope env db employee scope captured) db.partitions)))

abbrev pub sum : List ℕ → ℕ
sum [] = 0
sum (n ∷ ns) = n + sum ns

-- `assertPartitionDownloadSize` refuses.
unfoldable pub is_oversized : ℕ → ℕ → Limits → Bool
is_oversized n bytes limits = ltb limits.max_partitions n || ltb limits.max_bytes bytes

-- A request that counts against the quota of its organization, and of its requester.
abbrev pub counts_for : ℕ → ℕ → Request → Bool
counts_for org_id now row = row.org_id == org_id && is_live row.status && ltb now row.expires_at

abbrev pub counts_for_requester : ℕ → ℕ → ℕ → Request → Bool
counts_for_requester org_id requester_id now row =
    counts_for org_id now row && row.requester_id == requester_id

unfoldable pub is_over_quota : Limits → Employee → ℕ → Db → Bool
is_over_quota limits e now db =
    leb limits.max_active_per_org (count (counts_for e.org_id now) db.requests)
    || leb limits.max_active_per_requester
        (count (counts_for_requester e.org_id e.id now) db.requests)

abbrev pub is_keyed : ℕ → ℕ → Text → Request → Bool
is_keyed org_id requester_id key row =
    row.org_id == org_id && row.requester_id == requester_id && text_eq row.idempotency_key key

pub record PrepareInput : Type 0 where
  pub actor : Actor
  pub scope : Scope
  pub key : Text
  pub limits : Limits
  pub new_request_id : ℕ
  pub new_run_id : ℕ

unfoldable pub is_key : Text → Bool
is_key key = not (is_empty (trim key)) && not (ltb 128 (length key)) && text_eq key (trim key)

unfoldable pub new_request : Env → PrepareInput → Employee → List Entry → Times → Request
new_request env input e entries at = record {
  id = input.new_request_id;
  org_id = e.org_id;
  requester_id = e.id;
  idempotency_key = input.key;
  fingerprint = env.fingerprint input.scope;
  scope = input.scope;
  manifest = some entries;
  limits = input.limits;
  status = if is_empty entries then succeeded else queued;
  partition_count = length entries;
  completed = 0;
  total_rows = sum (map (λ (x : Entry). x.row_count) entries);
  total_bytes = sum (map (λ (x : Entry). x.byte_size) entries);
  object_key = none;
  byte_size = none;
  checksum = none;
  error_code = none;
  expires_at = at created_at + input.limits.retention_seconds * 1000;
}

abbrev pub new_run : PrepareInput → Employee → Run
new_run input e = record {
  id = input.new_run_id;
  org_id = e.org_id;
  request_id = some input.new_request_id;
  job_type = structured_partition_bundle;
  other_owner = none;
  status = run_queued;
  attempt_number = 0;
  locked_by = none;
  locked_until = none;
  error_code = none;
  finished_at = none;
}

-- The creations, with the unique keys of the tables.
unfoldable pub create_request : Request → Db → Result Db
create_request r db =
    if any
      (λ (row : Request). row.id == r.id || is_keyed r.org_id r.requester_id r.idempotency_key row)
      db.requests
    then err key_taken
    else ok (record db { requests = r ∷ db.requests })

unfoldable pub create_run : Run → ℕ → Db → Result Db
create_run r request_id db =
    if any
      (λ (row : Run). row.id == r.id || (row.org_id == r.org_id && holds row.request_id request_id))
      db.runs
    then err key_taken
    else ok (record db { runs = r ∷ db.runs })

unfoldable pub queue_run : PrepareInput → Employee → List Entry → Db → Result Db
queue_run input e entries db =
    if is_empty entries then ok db else create_run (new_run input e) input.new_request_id db

-- The end of `prepare`, from the manifest.
unfoldable pub create_checked :
    Env → PrepareInput → Employee → List Entry → Times → Db → Result (PublicStatus × Db)
create_checked env input e entries at db =
    if is_oversized (length entries) (sum (map (λ (x : Entry). x.byte_size) entries)) input.limits
    then err limit_exceeded
    else if not (is_empty entries) && is_over_quota input.limits e (at quota_read) db
    then err active_limit_exceeded
    else (do
      created ← create_request (new_request env input e entries at) db
      later ← queue_run input e entries created
      ok (public_status (new_request env input e entries at), later))

-- A request that has the key already.
unfoldable pub answer_existing :
    Env → PrepareInput → Request → Times → Db → Result (PublicStatus × Db)
answer_existing env input row at db =
    if not (row.fingerprint == env.fingerprint input.scope)
    then err idempotency_conflict
    else elim (lock_request row.id row.org_id db) [
      | none ↦ err row_missing
      | some locked ↦ do
        shown ← expire_row env locked (at row_due) at db
        ok (public_status shown.0, shown.1)
    ]

unfoldable pub prepare_by : Env → PrepareInput → Times → Db → Employee → Result (PublicStatus × Db)
prepare_by env input at db e = elim (find (is_keyed e.org_id e.id input.key) db.requests) [
  | some row ↦ answer_existing env input row at db
  | none ↦
      create_checked env input e (manifest env e input.scope input.limits.max_partitions none db) at
        db
]

unfoldable pub prepare : Env → PrepareInput → Times → Db → Result (PublicStatus × Db)
prepare env input at db = if not (is_key input.key) then err invalid_idempotency_key else do
  employee ← authority input.actor.id input.actor.org_id db
  prepare_by env input at db employee
