-- ===== src/Downloads/Evolution.antt =====
-- The life of one request under the steps of Downloads/Transitions, and so in any history.
pub mod Ended
use sme_data_center.Common.{
  ℕ, ◌≤◌, Bool, true, false, not, ◌&&◌, Option, none, some, List, [], ◌∷◌, ◌==◌, ◌≡◌, refl, sym, ap,
  ◌∙◌, inl, inr, Option-cases, Bool-cases, arith, subst, if◌then◌else◌, Text, find, find_holds,
  find-any, find-none_passes, find-update_many, update_many, any, ==_iff,
}
use sme_data_center.Downloads.Schema.{
  RequestStatus, Code, queued, running, succeeded, failed, expired, Entry, Request, Db, Env, Result,
  ok, err, ◌>>=◌, is_live, lock_request,
}
use sme_data_center.Downloads.Requests.{Ending, as_failed, as_expired, ending_status, end_request}
use sme_data_center.Downloads.Workers.{Artifact, start, progress, hold_artifact}
use sme_data_center.Downloads.History.{
  Work, starts, progresses, fails, registers, publishes, Call, work, run,
}
use sme_data_center.Downloads.Transitions.{
  has_id, row_at, ◌⇒◌, ◌⇒*◌, here, next, creates, begins, advances, finishes, ends,
}
use sme_data_center.Downloads.Transitions.Rules.{Unique, lock-row_at, step-Unique, ⇒*_inv}
use sme_data_center.Downloads.Refinement.Histories.{run-⇒*}

-- The diagram of a request's status. Only a live request is begun or finished; any request may be
-- ended, also one that has ended.
infix 40 ◌⟶◌ ◌⟶*◌
pub data ◌⟶◌ : RequestStatus → RequestStatus → Type 0 where
  begin : {s : RequestStatus} → is_live s ≡ true → s ⟶ running
  finish : {s : RequestStatus} → is_live s ≡ true → s ⟶ succeeded
  fail_with : {s : RequestStatus} → s ⟶ failed
  expire_at : {s : RequestStatus} → s ⟶ expired

pub data ◌⟶*◌ : RequestStatus → RequestStatus → Type 0 where
  stay : {s : RequestStatus} → s ⟶* s
  move : {s t u : RequestStatus} → s ⟶ t → t ⟶* u → s ⟶* u

follow : {s t u : RequestStatus} → s ⟶* t → t ⟶* u → s ⟶* u
follow stay later = later
follow (move m rest) later = move m (follow rest later)

-- The owner stays, what was asked for (key, fingerprint, scope and limits) and what was captured
-- (manifest, counts and totals) stay, the status follows the diagram, and the time is never put off.
pub record Evolves (before later : Request) : Type 0 where
  pub moves : before.status ⟶* later.status
  pub same_id : later.id ≡ before.id
  pub same_org : later.org_id ≡ before.org_id
  pub same_requester : later.requester_id ≡ before.requester_id
  pub same_key : later.idempotency_key ≡ before.idempotency_key
  pub same_fingerprint : later.fingerprint ≡ before.fingerprint
  pub same_scope : later.scope ≡ before.scope
  pub same_limits : later.limits ≡ before.limits
  pub same_manifest : later.manifest ≡ before.manifest
  pub same_count : later.partition_count ≡ before.partition_count
  pub same_rows : later.total_rows ≡ before.total_rows
  pub same_bytes : later.total_bytes ≡ before.total_bytes
  pub not_put_off : later.expires_at ≤ before.expires_at

Evolves-refl : (r : Request) → Evolves r r
Evolves-refl r = record {
  moves = stay;
  same_id = refl;
  same_scope = refl;
  same_limits = refl;
  same_rows = refl;
  same_bytes = refl;
  same_org = refl;
  same_requester = refl;
  same_key = refl;
  same_fingerprint = refl;
  same_manifest = refl;
  same_count = refl;
  not_put_off = omega arith;
}

Evolves-trans : (a b c : Request) → Evolves a b → Evolves b c → Evolves a c
Evolves-trans a b c h k = record {
  moves = follow h.moves k.moves;
  same_id = k.same_id ∙ h.same_id;
  same_scope = k.same_scope ∙ h.same_scope;
  same_limits = k.same_limits ∙ h.same_limits;
  same_rows = k.same_rows ∙ h.same_rows;
  same_bytes = k.same_bytes ∙ h.same_bytes;
  same_org = k.same_org ∙ h.same_org;
  same_requester = k.same_requester ∙ h.same_requester;
  same_key = k.same_key ∙ h.same_key;
  same_fingerprint = k.same_fingerprint ∙ h.same_fingerprint;
  same_manifest = k.same_manifest ∙ h.same_manifest;
  same_count = k.same_count ∙ h.same_count;
  not_put_off = omega (arith, h.not_put_off, k.not_put_off);
}

-- The row that the table has later under the id of a row.
pub record Later (id : ℕ) (before : Request) (rows : List Request) : Type 0 where
  pub row : Request
  pub found : row_at id rows ≡ some row
  pub evolves : Evolves before row

updated :
    (id other : ℕ) (f : Request → Request) (rows : List Request) (row : Request)
    → ((r : Request) → (f r).id ≡ r.id)
    → row_at id rows ≡ some row
    → (has_id other row ≡ true → Evolves row (f row))
    → Later id row (update_many (has_id other) f rows)
updated id other f rows row same e h = record {
  row = if has_id other row then f row else row;
  found =
      find-update_many (has_id id) (has_id other) f rows row (λ r. ap (λ k. k == id) (same r)) e;
  evolves = by_test (has_id other row) h;
}
  where
    by_test : (b : Bool) → (b ≡ true → Evolves row (f row)) → Evolves row (if b then f row else row)
    by_test true h = h refl
    by_test false h = Evolves-refl row

-- A row that is found under two ids that agree is one row.
same_row :
    (id other : ℕ) (rows : List Request) (row second : Request)
    → row_at id rows ≡ some row
    → row_at other rows ≡ some second
    → has_id other row ≡ true
    → row ≡ second
same_row id other rows row second e d h =
    some_injective row second (sym e ∙ ap (λ k. row_at k rows) agree ∙ d)
  where
    agree : id ≡ other
    agree =
        sym ((==_iff row.id id).0 (find_holds (has_id id) rows row e)) ∙ (==_iff row.id other).0 h

    some_injective : (a b : Request) → ◌≡◌ {A = Option Request} (some a) (some b) → a ≡ b
    some_injective a b h = ground arith

evolved :
    (row later : Request)
    → row.status ⟶* later.status
    → later.expires_at ≤ row.expires_at
    → later ≡ record row {
      status = later.status;
      completed = later.completed;
      object_key = later.object_key;
      byte_size = later.byte_size;
      checksum = later.checksum;
      error_code = later.error_code;
      expires_at = later.expires_at;
    }
    → Evolves row later
evolved row later moves sooner e = record {
  moves = moves;
  same_id = ap (λ (r : Request). r.id) e;
  same_scope = ap (λ (r : Request). r.scope) e;
  same_limits = ap (λ (r : Request). r.limits) e;
  same_rows = ap (λ (r : Request). r.total_rows) e;
  same_bytes = ap (λ (r : Request). r.total_bytes) e;
  same_org = ap (λ (r : Request). r.org_id) e;
  same_requester = ap (λ (r : Request). r.requester_id) e;
  same_key = ap (λ (r : Request). r.idempotency_key) e;
  same_fingerprint = ap (λ (r : Request). r.fingerprint) e;
  same_manifest = ap (λ (r : Request). r.manifest) e;
  same_count = ap (λ (r : Request). r.partition_count) e;
  not_put_off = sooner;
}

ended_moves : (ending : Ending) (s : RequestStatus) → s ⟶* ending_status ending
ended_moves as_failed s = move fail_with stay
ended_moves as_expired s = move expire_at stay

step-Later :
    {xs ys : List Request} (id : ℕ) (row : Request)
    → xs ⇒ ys
    → row_at id xs ≡ some row
    → Later id row ys
step-Later id row (creates {rows} r free unkeyed new) e = record {
  row = row;
  found = ground (arith, found_apart, find_holds (has_id id) rows row e);
  evolves = Evolves-refl row;
}
  where
    found_apart : has_id r.id row ≡ false
    found_apart = find-none_passes (has_id id) (has_id r.id) rows row free e
step-Later id row (begins {rows} other r d live) e =
    updated id other start rows row (λ x. refl) e
      (λ h.
        let same = same_row id other rows row r e d h in
        evolved row (start row)
          (move (begin (ap (λ (x : Request). is_live x.status) same ∙ live)) stay) (omega arith)
          refl)
step-Later id row (advances {rows} other r n d live low high) e =
    updated id other (progress n) rows row (λ x. refl) e
      (λ h. evolved row (progress n row) stay (omega arith) refl)
step-Later id row (finishes {rows} other r artifact d live short) e =
    updated id other (hold_artifact artifact) rows row (λ x. refl) e
      (λ h.
        let same = same_row id other rows row r e d h in
        evolved row (hold_artifact artifact row)
          (move (finish (ap (λ (x : Request). is_live x.status) same ∙ live)) stay)
          (subst (λ (x : Request). artifact.expires_at ≤ x.expires_at) (sym same) short) refl)
step-Later id row (ends {rows} other ending code) e =
    updated id other (end_request ending code) rows row (λ x. refl) e
      (λ h.
        evolved row (end_request ending code row) (ended_moves ending row.status) (omega arith)
          refl)

steps-Later :
    {xs ys : List Request} (id : ℕ) (row : Request)
    → xs ⇒* ys
    → row_at id xs ≡ some row
    → Later id row ys
steps-Later id row here e = record { row = row; found = e; evolves = Evolves-refl row }
steps-Later id row (next s rest) e =
    let mid = step-Later id row s e in
    let last = steps-Later id mid.row rest mid.found in
    record {
      row = last.row;
      found = last.found;
      evolves = Evolves-trans row mid.row last.row mid.evolves last.evolves;
    }

-- Whatever calls are made, where the ids of the requests are unique, a request stays in the table;
-- its owner, key, fingerprint, scope, limits, manifest, counts and totals stay what they were; its time is never put off, and its status follows
-- the diagram: only a live request begins or finishes. (How many partitions are completed, the
-- artifact and the error code may change.)
pub run-Later :
    (env : Env) (calls : List Call) (db : Db) (id : ℕ) (row : Request)
    → Unique db.requests
    → row_at id db.requests ≡ some row
    → Later id row (run env db calls).requests
run-Later env calls db id row unique e = steps-Later id row (run-⇒* env calls db unique) e
