-- ===== src/Downloads/Sweep.antt =====
-- What happens to requests without their requester: `expire`, which the worker runs again and again,
-- and `invalidatePartitionDownloadsForPartitions`, which follows a change of partitions.
pub mod Rows
pub mod Ends
pub mod Progress
use sme_data_center.Common.{
  ℕ, ◌+◌, Bool, not, ◌&&◌, ◌||◌, if◌then◌else◌, none, some, List, [], ◌∷◌, ◌==◌, ltb, leb,
  find_many, update_many, any,
}
use sme_data_center.Downloads.Schema.{
  stale, Entry, Request, Run, Garbage, Db, Env, Result, ok, err, ◌>>=◌, is_expired, holds,
  lock_request, is_owned, entries_of,
}
use sme_data_center.Downloads.Requests.{
  Times, Rounds, stale_at, garbage_queued, as_failed, terminate, expire_row,
}
use sme_data_center.Downloads.Prepare.{sort, take}

-- A request that a sweep at a time is to expire.
abbrev pub is_due : ℕ → Request → Bool
is_due clock row = not (is_expired row.status) && leb row.expires_at clock

abbrev pub expires_first : Request → Request → Bool
expires_first a b = ltb a.expires_at b.expires_at

-- The rows of one sweep.
unfoldable pub due_requests : ℕ → Db → List Request
due_requests clock db = take 100 (sort expires_first (find_many (is_due clock) db.requests))

-- One transaction of the sweep.
unfoldable pub expire_one : Env → ℕ → Times → Request → Db → Result (ℕ × Db)
expire_one env clock at found db = elim (lock_request found.id found.org_id db) [
  | none ↦ ok (0, db)
  | some row ↦
      if is_expired row.status || ltb clock row.expires_at
      then ok (0, db)
      else do swept ← expire_row env row clock at db; ok (1, swept.1)
]

-- A transaction that throws ends the sweep and keeps what came before it.
unfoldable pub go_on : (ℕ → Db → Result ℕ × Db) → Db → Result (ℕ × Db) → Result ℕ × Db
go_on rest db (err code) = (err code, db)
go_on rest db (ok (m, later)) = rest m later

-- Each row has its own transaction.
unfoldable pub expire_each : Env → ℕ → Rounds → List Request → ℕ → Db → Result ℕ × Db
expire_each env clock at [] n db = (ok n, db)
expire_each env clock at (found ∷ rows) n db =
    go_on (λ m later. expire_each env clock at rows (n + m) later) db
      (expire_one env clock (at found.id) found db)

unfoldable pub expire : Env → ℕ → Rounds → Db → Result ℕ × Db
expire env clock at db = expire_each env clock at (due_requests clock db) 0 db

-- A request whose manifest has one of the partitions.
abbrev pub meets : List ℕ → List Entry → Bool
meets ids entries = any (λ (e : Entry). any (λ id. id == e.id) ids) entries

-- The candidates of the runs of a request.
abbrev pub is_run_of : ℕ → ℕ → Db → Garbage → Bool
is_run_of org_id id db g =
    any (λ (run : Run). is_owned org_id id run && holds g.run_id run.id) db.runs

abbrev pub bring_forward : ℕ → Garbage → Garbage
bring_forward now g = record g { available_at = now; last_error = none }

unfoldable pub bring_forward_garbage : ℕ → Request → Times → Db → Db
bring_forward_garbage org_id row at db = record db {
  garbage = update_many (is_run_of org_id row.id db) (bring_forward (at garbage_queued)) db.garbage;
}

-- One turn of the loop: whether the request is invalidated, and the database.
unfoldable pub invalidate_row : Env → ℕ → List ℕ → Times → Request → Db → Result (ℕ × Db)
invalidate_row env org_id ids at found db = do
  entries ← entries_of found
  if not (meets ids entries) then ok (0, db) else elim (lock_request found.id org_id db) [
    | none ↦ ok (0, db)
    | some row ↦ do
      ended ←
          terminate env row as_failed stale (at stale_at) at
            (bring_forward_garbage org_id row at db)
      ok (1, ended.1)
  ]

unfoldable pub invalidate_rows : Env → ℕ → List ℕ → Rounds → List Request → ℕ → Db → Result (ℕ × Db)
invalidate_rows env org_id ids at [] n db = ok (n, db)
invalidate_rows env org_id ids at (found ∷ rows) n db = do
  turn ← invalidate_row env org_id ids (at found.id) found db
  invalidate_rows env org_id ids at rows (n + turn.0) turn.1

abbrev pub has_lower_id : Request → Request → Bool
has_lower_id a b = ltb a.id b.id

-- The whole runs in one transaction of its caller.
unfoldable pub invalidate : Env → ℕ → List ℕ → Rounds → Db → Result (ℕ × Db)
invalidate env org_id ids at db =
    invalidate_rows env org_id ids at
      (sort has_lower_id (find_many (λ (r : Request). r.org_id == org_id) db.requests)) 0 db
