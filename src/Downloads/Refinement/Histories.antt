-- ===== src/Downloads/Refinement/Histories.antt =====
-- The histories of Downloads/History against the steps of Downloads/Transitions.
use sme_data_center.Common.{List, [], ◌∷◌, refl}
use sme_data_center.Downloads.Schema.{Db, Env, Result, ok, err}
use sme_data_center.Downloads.Requests.{Times, Lease}
use sme_data_center.Downloads.Workers.{mark_running}
use sme_data_center.Downloads.History.{
  Work, starts, progresses, fails, registers, publishes, Call, prepares, reads, issues, works,
  sweeps, invalidates, after, work, step, run,
}
use sme_data_center.Downloads.Transitions.{◌⇒*◌, here}
use sme_data_center.Downloads.Transitions.Rules.{compose, Unique, step-Unique, ⇒*_inv}
use sme_data_center.Downloads.Transitions.Transactions.{
  Refines, Refines-use, Refines-bind, Refines-ok,
}
use sme_data_center.Downloads.Refinement.Workers.{
  mark_running-⇒, record_progress-⇒, fail-⇒, register-⇒, publish-⇒,
}
use sme_data_center.Downloads.Refinement.Requesters.{prepare-⇒, read-⇒, issue-⇒}
use sme_data_center.Downloads.Refinement.Sweep.{sweep-⇒, invalidate-⇒}

after-⇒ :
    {A : Type 0} (db : Db) (r : Result (A × Db))
    → Refines db.requests r
    → db.requests ⇒* (after db r).requests
after-⇒ db (ok (a, later)) s = Refines-use _ (ok (a, later)) s refl
after-⇒ db (err code) s = here

work-⇒ :
    (env : Env) (lease : Lease) (w : Work) (at : Times) (db : Db)
    → Unique db.requests
    → Refines db.requests (work env lease w at db)
unfolding work
work-⇒ env lease starts at db unique = Refines-bind _ (mark_running env lease at db) _ (λ started e.
    Refines-ok _ _ started.1 (Refines-use _ _ (mark_running-⇒ env at lease db unique) e))
work-⇒ env lease (progresses n) at db unique = record_progress-⇒ env at lease db unique n
work-⇒ env lease (fails code) at db unique = fail-⇒ env at lease db unique code
work-⇒ env lease (registers key) at db unique = register-⇒ env at lease db unique key
work-⇒ env lease (publishes artifact) at db unique = publish-⇒ env at lease db unique artifact

-- What a call does to the requests is a sequence of steps of the abstract view, where the ids of
-- the requests are unique.
pub step-⇒* :
    (env : Env) (db : Db) (c : Call) → Unique db.requests → db.requests ⇒* (step env db c).requests
unfolding step
step-⇒* env db (prepares input at) u = after-⇒ db _ (prepare-⇒ env at db input)
step-⇒* env db (reads actor id at) u = after-⇒ db _ (read-⇒ env at db actor id)
step-⇒* env db (issues actor id issue at) u = after-⇒ db _ (issue-⇒ issue env actor id at db)
step-⇒* env db (works lease w at) u = after-⇒ db _ (work-⇒ env lease w at db u)
step-⇒* env db (sweeps clock at) u = sweep-⇒ env at clock db
step-⇒* env db (invalidates org_id ids at) u = after-⇒ db _ (invalidate-⇒ env at org_id ids db)

-- Whatever calls are made, from requests with unique ids, what they do to the requests is a sequence
-- of steps of the abstract view.
pub run-⇒* :
    (env : Env) (calls : List Call) (db : Db)
    → Unique db.requests
    → db.requests ⇒* (run env db calls).requests
unfolding run
run-⇒* env [] db unique = here
run-⇒* env (c ∷ calls) db unique =
    let first = step-⇒* env db c unique in
    compose first
      (run-⇒* env calls (step env db c) (⇒*_inv Unique (λ xs ys. step-Unique) first unique))
