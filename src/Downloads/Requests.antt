-- ===== src/Downloads/Requests.antt =====
-- What the operations share: the end of a request, its expiry, the check that its partitions are
-- what it captured, and the fence around the operations of a worker.
use sme_data_center.Common.{
  ℕ, Bool, false, not, ◌&&◌, if◌then◌else◌, Option, none, some, [], ◌∷◌, ◌==◌, leb, Text, find,
  update_many, all,
}
use sme_data_center.Downloads.Schema.{
  RequestStatus, failed, expired, run_failed, Code, stale, expired_code, Scope, Entry, Partition,
  Request, Run, ended, Db, Env, Result, ok, err, ◌>>=◌, is_live, is_expired, is_running,
  is_unfinished, same, holds, is_after, enqueue_garbage, update_request, lock_request, is_owned,
  entries_of,
}

-- The places where the code reads the clock. Each reading may give any time.
pub data Moment : Type 0 where
  lease_found row_due row_expired content_due stale_at ended_at : Moment
  garbage_queued checked run_matched run_finished lease_ended quota_read created_at : Moment

abbrev pub Times : Type 0
Times = Moment → ℕ

-- The times of a loop's turns, each about the request with the id.
abbrev pub Rounds : Type 0
Rounds = ℕ → Times

-- How `terminate` ends a request.
pub data Ending : Type 0 where
  as_failed as_expired : Ending

abbrev pub ending_status : Ending → RequestStatus
ending_status as_failed = failed
ending_status as_expired = expired

-- `row.objectKey` where it is truthy.
abbrev pub key_of : Request → Option Text
key_of row = elim row.object_key [ none ↦ none | some [] ↦ none | some (c ∷ key) ↦ some (c ∷ key) ]

abbrev pub fail_run : Code → ℕ → Run → Run
fail_run code clock run = record run {
  status = run_failed;
  error_code = some code;
  locked_by = none;
  locked_until = none;
  finished_at = some clock;
}

abbrev pub is_taken_along : ℕ → ℕ → Run → Bool
is_taken_along org_id id run = is_owned org_id id run && is_unfinished run.status

unfoldable pub fail_runs : ℕ → ℕ → Code → ℕ → Db → Db
fail_runs org_id id code clock db = record db {
  runs = update_many (is_taken_along org_id id) (fail_run code clock) db.runs;
}

abbrev pub end_request : Ending → Code → Request → Request
end_request ending code row = record row {
  status = ending_status ending;
  error_code = some code;
  object_key = none;
  byte_size = none;
  checksum = none;
}

-- The first write of `terminate`: an artifact that the request has is left to the collector.
unfoldable pub drop_artifact : Env → Request → Code → ℕ → Db → Result Db
drop_artifact env row code now db = elim (key_of row) [
  | none ↦ ok db
  | some key ↦ enqueue_garbage env key (ended code) now none db
]

unfoldable pub terminate : Env → Request → Ending → Code → ℕ → Times → Db → Result (Request × Db)
terminate env row ending code clock at db = do
  queued ← drop_artifact env row code (at garbage_queued) db
  update_request row.id (end_request ending code) (fail_runs row.org_id row.id code clock queued)

unfoldable pub expire_row : Env → Request → ℕ → Times → Db → Result (Request × Db)
expire_row env row clock at db =
    if not (is_expired row.status) && leb row.expires_at clock
    then terminate env row as_expired expired_code (at ended_at) at db
    else ok (row, db)

-- `effectiveOrderScope`.
unfoldable pub effective_order_scope : Env → ℕ → Option ℕ → Option ℕ
effective_order_scope env dataset scope =
    if dataset == env.in_store_orders
    then elim scope [ none ↦ some env.legacy_unknown | some s ↦ some s ]
    else none

-- A partition is what the entry captured.
unfoldable pub is_unchanged : Env → Scope → Entry → Partition → Bool
is_unchanged env scope e p =
    p.dataset == scope.dataset
    && same (effective_order_scope env p.dataset p.entry.order_scope)
        (effective_order_scope env scope.dataset e.order_scope)
    && p.enterprise_key == scope.enterprise_key
    && p.entry.store_key == e.store_key
    && p.entry.store_name == e.store_name
    && same p.entry.merchant_id e.merchant_id
    && p.entry.enterprise_name == e.enterprise_name
    && p.entry.business_date == e.business_date
    && p.entry.object_key == e.object_key
    && p.entry.checksum == e.checksum
    && p.entry.byte_size == e.byte_size
    && p.entry.row_count == e.row_count

-- The partition of the organization with an entry's id; ids are unique.
abbrev pub partition_of : ℕ → Entry → Db → Option Partition
partition_of org_id e db =
    find (λ (p : Partition). p.org_id == org_id && p.entry.id == e.id) db.partitions

unfoldable pub is_current : Env → Request → Db → Entry → Bool
is_current env row db e = elim (partition_of row.org_id e db) [
  | none ↦ false
  | some p ↦ is_unchanged env row.scope e p
]

unfoldable pub content_current : Env → Request → Db → Result Bool
content_current env row db = do entries ← entries_of row; ok (all (is_current env row db) entries)

-- The second half of `checkContent`, on the row that `expireRow` returned.
unfoldable pub check_found : Env → Times → Request × Db → Result (Request × Db)
check_found env at (row, db) = if not (is_live row.status) then ok (row, db) else do
  unchanged ← content_current env row db
  if unchanged then ok (row, db) else terminate env row as_failed stale (at stale_at) at db

unfoldable pub check_content : Env → Request → Times → Db → Result (Request × Db)
check_content env row at db = do
  found ← expire_row env row (at content_due) at db
  check_found env at found

pub record Lease : Type 0 where
  pub run_id : ℕ
  pub org_id : ℕ
  pub request_id : ℕ
  pub worker_id : ℕ
  pub attempt_number : ℕ

-- The run is still in the hands of the worker, at its attempt and in its time.
abbrev pub is_held : Lease → ℕ → Run → Bool
is_held lease now run =
    run.id == lease.run_id
    && is_running run.status
    && holds run.locked_by lease.worker_id
    && run.attempt_number == lease.attempt_number
    && is_after run.locked_until now

abbrev pub find_lease : Lease → ℕ → Db → Option Run
find_lease lease now db =
    find (λ (run : Run). is_held lease now run && is_owned lease.org_id lease.request_id run)
      db.runs

module _ {A : Type 0} (refused : A) where
  -- The end of the fence: `LeaseLost` rolls back what the operation did, which then answers `false`.
  unfoldable pub keep_leased : Run → ℕ → Db → Result (A × Db) → Result (A × Db)
  keep_leased run now db (err e) = err e
  keep_leased run now db (ok (a, later)) =
      if is_after run.locked_until now then ok (a, later) else ok (refused, db)

  unfoldable pub fenced_found :
      Env → Times → (Request → Db → Result (A × Db)) → Request → Run → Db → Result (A × Db)
  fenced_found env at body row run db =
      if not (is_live row.status)
      then ok (refused, db)
      else if leb row.expires_at (at row_due)
      then (do expired_row ← expire_row env row (at row_expired) at db; ok (refused, expired_row.1))
      else keep_leased run (at lease_ended) db (body row db)

  -- `fenced`; `refused` is its `false`.
  unfoldable pub fenced :
      Env → Lease → Times → (Request → Db → Result (A × Db)) → Db → Result (A × Db)
  fenced env lease at body db = elim (lock_request lease.request_id lease.org_id db) [
    | none ↦ ok (refused, db)
    | some row ↦ elim (find_lease lease (at lease_found) db) [
      | none ↦ ok (refused, db)
      | some run ↦ fenced_found env at body row run db
    ]
  ]
