-- ===== src/Downloads/Access.antt =====
-- What a requester does with a request: `read`, and `issueCurrent` with `validateCurrent`.
-- An answer inside the outer result is committed: an error that is returned, and not thrown, leaves
-- the expiry of the row behind.
pub mod Guards
pub mod Conditions
pub mod Decided
pub mod Counted
pub mod Granted
use sme_data_center.Common.{
  ℕ, Bool, false, not, ◌||◌, if◌then◌else◌, none, some, List, ◌==◌, map, length, find, is_empty,
}
use sme_data_center.Downloads.Schema.{
  Code, forbidden, not_found, stale, failed_code, rebuild_required, Entry, Request, Employee,
  AuthorizationState, Db, Env, Result, ok, err, ◌>>=◌, is_expired, is_failed, lock_request,
  entries_of,
}
use sme_data_center.Downloads.Requests.{Times, row_due, expire_row, content_current}
use sme_data_center.Downloads.Workers.{PublicStatus, public_status, Actor, Current, internal}
use sme_data_center.Downloads.Prepare.{authority, manifest}

-- The row of the requester.
unfoldable pub own_request : Actor → ℕ → Db → Result Request
own_request actor id db = elim (lock_request id actor.org_id db) [
  | none ↦ err not_found
  | some row ↦ if not (row.requester_id == actor.id) then err not_found else ok row
]

unfoldable pub read : Env → Actor → ℕ → Times → Db → Result (PublicStatus × Db)
read env actor id at db = do
  row ← own_request actor id db
  employee ← authority actor.id actor.org_id db
  shown ← expire_row env row (at row_due) at db
  ok (public_status shown.0, shown.1)

unfoldable pub is_suspended : ℕ → Db → Bool
is_suspended org_id db = elim (find (λ (s : AuthorizationState). s.org_id == org_id) db.states) [
  | none ↦ false
  | some s ↦ s.suspended
]

abbrev pub actor_of : Employee → Actor
actor_of e = record { id = e.id; org_id = e.org_id; clearance = e.clearance; disabled = e.disabled }

-- Every entry of the manifest is among the partitions that the employee may read now.
unfoldable pub is_readable : Env → Employee → Current → Db → Bool
is_readable env e current db =
    is_empty current.entries
    || length (
        manifest env e current.scope current.limits.max_partitions
          (some (map (λ (x : Entry). x.id) current.entries)) db)
      == length current.entries

-- `row.errorCode ?? "PARTITION_DOWNLOAD_FAILED"`.
abbrev pub code_of : Request → Code
code_of row = elim row.error_code [ none ↦ failed_code | some code ↦ code ]

module _ {A : Type 0} (issue : Current → Result A) where
  -- From the row that is not due, with its view and whether its partitions are what it captured.
  unfoldable pub issue_view : Env → Employee → Current → Bool → Db → Result (Result A × Db)
  issue_view env e current unchanged db =
      if not unchanged
      then ok (err stale, db)
      else if not (is_readable env e current db)
      then ok (err forbidden, db)
      else (do issued ← issue current; ok (ok issued, db))

  unfoldable pub issue_live : Env → Employee → Request → Current → Db → Result (Result A × Db)
  issue_live env e row current db = do
    unchanged ← content_current env row db
    issue_view env e current unchanged db

  unfoldable pub issue_shown : Env → Employee → Request × Db → Result (Result A × Db)
  issue_shown env e (row, db) = do
    current ← internal row (actor_of e)
    (if is_failed row.status || is_expired row.status
        then ok (err (code_of row), db)
        else issue_live env e row current db)

  unfoldable pub issue_counted :
      Env → Employee → Request → List Entry → Times → Db → Result (Result A × Db)
  issue_counted env e row entries at db =
      if not (length entries == row.partition_count)
      then ok (err rebuild_required, db)
      else (do shown ← expire_row env row (at row_due) at db; issue_shown env e shown)

  unfoldable pub issue_found : Env → Employee → Request → Times → Db → Result (Result A × Db)
  issue_found env e row at db =
      if is_suspended row.org_id db
      then ok (err forbidden, db)
      else do entries ← entries_of row; issue_counted env e row entries at db

  unfoldable pub issue_current : Env → Actor → ℕ → Times → Db → Result (Result A × Db)
  issue_current env actor id at db = do
    row ← own_request actor id db
    employee ← authority actor.id actor.org_id db
    issue_found env employee row at db

-- `validateCurrent`.
unfoldable pub validate_current : Env → Actor → ℕ → Times → Db → Result (Result Current × Db)
validate_current = issue_current (λ current. ok current)
