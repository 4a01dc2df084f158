-- ===== src/Downloads/Evolution/Ended.antt =====
-- Workers and a request that is no longer live.
use sme_data_center.Common.{false, none, some, List, ◌≡◌, refl, inl, inr, Option-cases, arith}
use sme_data_center.Downloads.Schema.{
  RequestStatus, Request, Db, Env, Result, ok, is_live, lock_request,
}
use sme_data_center.Downloads.Requests.{Times, Lease, find_lease, lease_found, fenced_found, fenced}
use sme_data_center.Downloads.Workers.{
  start_found, mark_running, record_progress, fail, register_candidate, publish,
}
use sme_data_center.Downloads.History.{
  Work, starts, progresses, fails, registers, publishes, Call, work, run,
}
use sme_data_center.Downloads.Transitions.{row_at}
use sme_data_center.Downloads.Transitions.Rules.{Unique, lock-row_at, step-Unique, ⇒*_inv}
use sme_data_center.Downloads.Refinement.Histories.{run-⇒*}
use sme_data_center.Downloads.Evolution.{
  ◌⟶◌, ◌⟶*◌, begin, finish, fail_with, expire_at, stay, move, Later, run-Later,
}

move-dead : {s t : RequestStatus} → s ⟶ t → is_live s ≡ false → is_live t ≡ false
move-dead (begin live) dead = cc
move-dead (finish live) dead = cc
move-dead fail_with dead = refl
move-dead expire_at dead = refl

moves-dead : {s t : RequestStatus} → s ⟶* t → is_live s ≡ false → is_live t ≡ false
moves-dead stay dead = dead
moves-dead (move m rest) dead = moves-dead rest (move-dead m dead)

fenced_dead :
    {A : Type 0} (refused : A) (env : Env) (lease : Lease) (at : Times)
    (body : Request → Db → Result (A × Db)) (db : Db)
    → ((row : Request)
        → lock_request lease.request_id lease.org_id db ≡ some row
        → is_live row.status ≡ false)
    → fenced refused env lease at body db ≡ ok (refused, db)
unfolding fenced fenced_found
fenced_dead refused env lease at body db dead =
    elim (Option-cases (lock_request lease.request_id lease.org_id db)) [
      | inl m ↦ rw (m, fenced) refl
      | inr (row, m) ↦
          let ended = dead row m in
          elim (Option-cases (find_lease lease (at lease_found) db)) [
            | inl n ↦ rw (m, n, fenced) refl
            | inr (leased, n) ↦ rw (m, n, fenced, fenced_found, ended) refl
          ]
    ]

work_dead :
    (env : Env) (lease : Lease) (w : Work) (at : Times) (db : Db)
    → ((row : Request)
        → lock_request lease.request_id lease.org_id db ≡ some row
        → is_live row.status ≡ false)
    → work env lease w at db ≡ ok (false, db)
unfolding work mark_running record_progress fail register_candidate publish
work_dead env lease starts at db dead =
    rw (fenced_dead none env lease at (start_found env at) db dead, work, mark_running) refl
work_dead env lease (progresses n) at db dead = fenced_dead false env lease at _ db dead
work_dead env lease (fails code) at db dead = fenced_dead false env lease at _ db dead
work_dead env lease (registers key) at db dead = fenced_dead false env lease at _ db dead
work_dead env lease (publishes artifact) at db dead = fenced_dead false env lease at _ db dead

-- Once a request is no longer live, published or ended, then after any calls every operation of every
-- worker on it answers `false` and changes nothing, whatever lease it holds: an artifact is published
-- once at most, and never after the request has ended.
pub run-work_dead :
    (env : Env) (calls : List Call) (db : Db) (row : Request) (lease : Lease) (w : Work)
    (at : Times)
    → Unique db.requests
    → row_at lease.request_id db.requests ≡ some row
    → is_live row.status ≡ false
    → work env lease w at (run env db calls) ≡ ok (false, run env db calls)
run-work_dead env calls db row lease w at unique e dead =
    work_dead env lease w at (run env db calls) (λ r m. still r m)
  where
    later : Later lease.request_id row (run env db calls).requests
    later = run-Later env calls db lease.request_id row unique e

    locked :
        (r : Request)
        → lock_request lease.request_id lease.org_id (run env db calls) ≡ some r
        → row_at lease.request_id (run env db calls).requests ≡ some r
    locked r m =
        lock-row_at _ _ (run env db calls).requests r
          (⇒*_inv Unique (λ xs ys. step-Unique) (run-⇒* env calls db unique) unique) m

    still :
        (r : Request)
        → lock_request lease.request_id lease.org_id (run env db calls) ≡ some r
        → is_live r.status ≡ false
    still r m = ground (arith, locked r m, later.found, moves-dead later.evolves.moves dead)
