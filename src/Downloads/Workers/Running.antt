-- ===== src/Downloads/Workers/Running.antt =====
-- `markRunning`, `recordProgress` and `fail` of partition-downloads.ts.
use sme_data_center.Common.{ℕ, Bool, true, false, not, ◌&&◌, if◌then◌else◌, Option, none, some, leb}
use sme_data_center.Downloads.Schema.{
  ℤ, pos, negsuc, running, Code, stale, forbidden, limit_exceeded, source_invalid, failed_code,
  invalid_progress, Request, Db, Env, Result, ok, err, ◌>>=◌, is_live, update_request,
}
use sme_data_center.Downloads.Requests.{
  Times, ended_at, as_failed, terminate, check_content, Lease, fenced,
}
use sme_data_center.Downloads.Workers.Views.{Actor, Current, internal}

abbrev pub start : Request → Request
start row = record row { status = running }

abbrev pub worker_view : Request → Actor
worker_view row = record {
  id = row.requester_id;
  org_id = row.org_id;
  clearance = 0;
  disabled = false;
}

unfoldable pub start_checked : Request × Db → Result (Option Current × Db)
start_checked (row, db) = if not (is_live row.status) then ok (none, db) else do
  updated ← update_request row.id start db
  view ← internal updated.0 (worker_view updated.0)
  ok (some view, updated.1)

unfoldable pub start_found : Env → Times → Request → Db → Result (Option Current × Db)
start_found env at row db = do found ← check_content env row at db; start_checked found

unfoldable pub mark_running : Env → Lease → Times → Db → Result (Option Current × Db)
mark_running env lease at db = fenced none env lease at (start_found env at) db

-- A count that is a safe integer, not below the last one and not above the number of partitions.
unfoldable pub is_progress : ℤ → Request → Bool
is_progress (negsuc n) row = false
is_progress (pos n) row = leb n 9007199254740991 && leb row.completed n && leb n row.partition_count

unfoldable pub completed_of : ℤ → ℕ
completed_of (pos n) = n
completed_of (negsuc n) = 0

abbrev pub progress : ℕ → Request → Request
progress n row = record row { completed = n }

unfoldable pub progress_found : ℤ → Request → Db → Result (Bool × Db)
progress_found n row db =
    if not (is_progress n row)
    then err invalid_progress
    else do updated ← update_request row.id (progress (completed_of n)) db; ok (true, updated.1)

unfoldable pub record_progress : Env → Lease → ℤ → Times → Db → Result (Bool × Db)
record_progress env lease n at db = fenced false env lease at (progress_found n) db

-- The codes that a worker may leave on a request.
unfoldable pub safe_code : Code → Code
safe_code stale = stale
safe_code forbidden = forbidden
safe_code limit_exceeded = limit_exceeded
safe_code source_invalid = source_invalid
safe_code _ = failed_code

unfoldable pub fail_found : Env → Code → Times → Request → Db → Result (Bool × Db)
fail_found env code at row db = do
  ended ← terminate env row as_failed (safe_code code) (at ended_at) at db
  ok (true, ended.1)

unfoldable pub fail : Env → Lease → Code → Times → Db → Result (Bool × Db)
fail env lease code at db = fenced false env lease at (fail_found env code at) db
