-- ===== src/Downloads/History.antt =====
-- Histories: any sequence of the operations of the repository of partition downloads.
use sme_data_center.Common.{ℕ, Bool, true, false, none, some, List, [], ◌∷◌, Text}
use sme_data_center.Downloads.Schema.{ℤ, Code, Db, Env, Result, ok, err, ◌>>=◌}
use sme_data_center.Downloads.Requests.{Times, Rounds, Lease}
use sme_data_center.Downloads.Workers.{
  Actor, Artifact, Current, mark_running, record_progress, fail, register_candidate, publish,
}
use sme_data_center.Downloads.Prepare.{PrepareInput, prepare}
use sme_data_center.Downloads.Access.{read, issue_current}
use sme_data_center.Downloads.Sweep.{expire, invalidate}

-- The operations of a worker.
pub data Work : Type 0 where
  starts : Work
  progresses : ℤ → Work
  fails : Code → Work
  registers : Text → Work
  publishes : Artifact → Work

pub data Call : Type 0 where
  prepares : PrepareInput → Times → Call
  reads : Actor → ℕ → Times → Call
  issues : Actor → ℕ → (Current → Result ℕ) → Times → Call
  works : Lease → Work → Times → Call
  sweeps : ℕ → Rounds → Call
  invalidates : ℕ → List ℕ → Rounds → Call

-- A transaction that throws leaves the database as it was.
abbrev pub after : {A : Type 0} → Db → Result (A × Db) → Db
after db (ok (a, later)) = later
after db (err e) = db

-- Whether the worker was answered with anything but `false`, and the database.
unfoldable pub work : Env → Lease → Work → Times → Db → Result (Bool × Db)
work env lease starts at db = do
  started ← mark_running env lease at db
  ok (elim started.0 [ none ↦ false | some current ↦ true ], started.1)
work env lease (progresses n) at db = record_progress env lease n at db
work env lease (fails code) at db = fail env lease code at db
work env lease (registers key) at db = register_candidate env lease key at db
work env lease (publishes artifact) at db = publish env lease artifact at db

unfoldable pub step : Env → Db → Call → Db
step env db (prepares input at) = after db (prepare env input at db)
step env db (reads actor id at) = after db (read env actor id at db)
step env db (issues actor id issue at) = after db (issue_current issue env actor id at db)
step env db (works lease w at) = after db (work env lease w at db)
step env db (sweeps clock at) = (expire env clock at db).1
step env db (invalidates org_id ids at) = after db (invalidate env org_id ids at db)

unfoldable pub run : Env → Db → List Call → Db
run env db [] = db
run env db (c ∷ calls) = run env (step env db c) calls
