-- ===== src/Downloads/Refinement/Sweep.antt =====
-- `expire` and `invalidatePartitionDownloadsForPartitions` are steps of the abstract view.
use sme_data_center.Common.{ℕ, ◌+◌, not, ◌||◌, List, [], ◌∷◌, inl, inr, Option-cases, refl, ltb}
use sme_data_center.Downloads.Schema.{
  stale, Request, Db, Env, Result, ok, err, is_expired, lock_request, entries_of,
}
use sme_data_center.Downloads.Requests.{Times, Rounds, stale_at, as_failed}
use sme_data_center.Downloads.Sweep.{
  due_requests, expire_one, go_on, expire_each, expire, meets, bring_forward_garbage,
  invalidate_row, invalidate_rows, invalidate,
}
use sme_data_center.Downloads.Transitions.{◌⇒*◌, here}
use sme_data_center.Downloads.Transitions.Rules.{compose}
use sme_data_center.Downloads.Transitions.Transactions.{
  Refines, Refines-ok, Refines-use, Refines-bind, Refines-if, Refines-done, Refines-after,
  terminate-⇒,
}
use sme_data_center.Downloads.Refinement.{expire-⇒}

go_on-⇒ :
    (rest : ℕ → Db → Result ℕ × Db) (db : Db) (r : Result (ℕ × Db))
    → Refines db.requests r
    → ((m : ℕ) (later : Db) → later.requests ⇒* (rest m later).1.requests)
    → db.requests ⇒* (go_on rest db r).1.requests
unfolding go_on
go_on-⇒ rest db (err code) s each = here
go_on-⇒ rest db (ok (m, later)) s each = compose (Refines-use _ _ s refl) (each m later)

module _ (env : Env) where
  pub expire_one-⇒ :
      (at : Times) (clock : ℕ) (found : Request) (db : Db)
      → Refines db.requests (expire_one env clock at found db)
  unfolding expire_one
  expire_one-⇒ at clock found db = elim (Option-cases (lock_request found.id found.org_id db)) [
    | inl m ↦ rw (m, expire_one) (Refines-ok _ 0 db here)
    | inr (row, m) ↦
        rw (m, expire_one)
          (Refines-if _ (is_expired row.status || ltb clock row.expires_at) _ _
            (λ h. Refines-ok _ 0 db here) (λ h. Refines-done _ 1 _ (expire-⇒ env at row clock db)))
  ]

  expire_each-⇒ :
      (at : Rounds) (clock : ℕ) (rows : List Request) (n : ℕ) (db : Db)
      → db.requests ⇒* (expire_each env clock at rows n db).1.requests
  unfolding expire_each
  expire_each-⇒ at clock [] n db = here
  expire_each-⇒ at clock (found ∷ rows) n db =
      go_on-⇒ (λ m later. expire_each env clock at rows (n + m) later) db _
        (expire_one-⇒ (at found.id) clock found db)
        (λ m later. expire_each-⇒ at clock rows (n + m) later)

  pub sweep-⇒ :
      (at : Rounds) (clock : ℕ) (db : Db) → db.requests ⇒* (expire env clock at db).1.requests
  unfolding expire
  sweep-⇒ at clock db = expire_each-⇒ at clock (due_requests clock db) 0 db

  invalidate_row-⇒ :
      (at : Times) (org_id : ℕ) (ids : List ℕ) (found : Request) (db : Db)
      → Refines db.requests (invalidate_row env org_id ids at found db)
  unfolding invalidate_row bring_forward_garbage
  invalidate_row-⇒ at org_id ids found db = Refines-bind _ (entries_of found) _ (λ entries e.
      Refines-if _ (not (meets ids entries)) _ _ (λ h. Refines-ok _ 0 db here)
        (λ h. elim (Option-cases (lock_request found.id org_id db)) [
          | inl m ↦ rw m (Refines-ok _ 0 db here)
          | inr (row, m) ↦ rw m (
              Refines-done _ 1 _ (
                terminate-⇒ env row as_failed stale (at stale_at) at
                  (bring_forward_garbage org_id row at db)))
        ]))

  pub invalidate_rows-⇒ :
      (at : Rounds) (org_id : ℕ) (ids : List ℕ) (rows : List Request) (n : ℕ) (db : Db)
      → Refines db.requests (invalidate_rows env org_id ids at rows n db)
  unfolding invalidate_rows
  invalidate_rows-⇒ at org_id ids [] n db = Refines-ok _ n db here
  invalidate_rows-⇒ at org_id ids (found ∷ rows) n db =
      Refines-bind _ (invalidate_row env org_id ids (at found.id) found db) _ (λ (turn : ℕ × Db) e.
        Refines-after (invalidate_rows env org_id ids at rows (n + turn.0) turn.1)
          (Refines-use _ _ (invalidate_row-⇒ (at found.id) org_id ids found db) e)
          (invalidate_rows-⇒ at org_id ids rows (n + turn.0) turn.1))

  pub invalidate-⇒ :
      (at : Rounds) (org_id : ℕ) (ids : List ℕ) (db : Db)
      → Refines db.requests (invalidate env org_id ids at db)
  unfolding invalidate
  invalidate-⇒ at org_id ids db = invalidate_rows-⇒ at org_id ids _ 0 db
