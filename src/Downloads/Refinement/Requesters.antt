-- ===== src/Downloads/Refinement/Requesters.antt =====
-- `prepare`, `read` and `issueCurrent` are steps of the abstract view.
use sme_data_center.Common.{
  ℕ, Bool, false, not, ◌&&◌, ◌||◌, none, List, [], ◌∷◌, inl, inr, Option-cases, ◌≡◌, refl, sym,
  arith, subst, any, find, is_empty, length, map, ◌==◌,
}
use sme_data_center.Downloads.Schema.{
  forbidden, stale, limit_exceeded, active_limit_exceeded, idempotency_conflict,
  invalid_idempotency_key, row_missing, rebuild_required, Entry, Request, Employee, Db, Env, Result,
  ok, err, is_failed, is_expired, lock_request, entries_of,
}
use sme_data_center.Downloads.Requests.{Times, row_due, quota_read, expire_row, content_current}
use sme_data_center.Downloads.Workers.{Actor, Current, PublicStatus, internal}
use sme_data_center.Downloads.Prepare.{
  authority, PrepareInput, is_key, is_keyed, is_oversized, is_over_quota, sum, manifest,
  new_request, create_request, create_run, queue_run, create_checked, answer_existing, prepare_by,
  prepare,
}
use sme_data_center.Downloads.Access.{
  own_request, read, is_suspended, actor_of, code_of, is_readable, issue_view, issue_live,
  issue_shown, issue_counted, issue_found, issue_current,
}
use sme_data_center.Downloads.Transitions.{has_id, IsNew, ◌⇒*◌, here, creates}
use sme_data_center.Downloads.Transitions.Rules.{one}
use sme_data_center.Downloads.Transitions.Transactions.{
  Refines, Refines-ok, Refines-err, Refines-use, Refines-bind, Refines-if, Refines-after,
}
use sme_data_center.Downloads.Refinement.{expire-⇒}

new_request-IsNew :
    (env : Env) (input : PrepareInput) (e : Employee) (entries : List Entry) (at : Times)
    → IsNew (new_request env input e entries at)
unfolding new_request
new_request-IsNew env input e [] at = record {
  status = inr (refl, refl);
  nothing_done = refl;
  no_artifact = refl;
}
new_request-IsNew env input e (x ∷ entries) at = record {
  status = inl refl;
  nothing_done = refl;
  no_artifact = refl;
}

either_free :
    (p q : Request → Bool) (rows : List Request)
    → any (λ (row : Request). p row || q row) rows ≡ false
    → (any p rows ≡ false) × (any q rows ≡ false)
either_free p q [] h = (refl, refl)
either_free p q (row ∷ rows) h = ground (arith, either_free p q rows)

pub create_request-eq-ok :
    (r : Request) (db : Db) {later : Db}
    → create_request r db ≡ ok later
    → (any
          (λ (row : Request).
            row.id == r.id || is_keyed r.org_id r.requester_id r.idempotency_key row)
          db.requests
        ≡ false)
      × (later.requests ≡ r ∷ db.requests)
unfolding create_request
create_request-eq-ok r db e = ground arith

create_request-⇒ :
    (r : Request) (db : Db) {later : Db}
    → IsNew r
    → create_request r db ≡ ok later
    → db.requests ⇒* later.requests
create_request-⇒ r db new e =
    let (free, added) = create_request-eq-ok r db e in
    let (new_id, new_key) =
      either_free (has_id r.id) (is_keyed r.org_id r.requester_id r.idempotency_key) db.requests
        free in
    subst (λ rows. db.requests ⇒* rows) (sym added) (one (creates r new_id new_key new))

pub queue_run-requests :
    (input : PrepareInput) (e : Employee) (entries : List Entry) (db : Db) {later : Db}
    → queue_run input e entries db ≡ ok later
    → later.requests ≡ db.requests
unfolding queue_run create_run
queue_run-requests input e entries db h = ground arith

module _ (env : Env) (at : Times) (db : Db) where
  create_checked-⇒ :
      (input : PrepareInput) (e : Employee) (entries : List Entry)
      → Refines db.requests (create_checked env input e entries at db)
  unfolding create_checked
  create_checked-⇒ input e entries =
      Refines-if _
        (is_oversized (length entries) (sum (map (λ (x : Entry). x.byte_size) entries))
          input.limits)
        _ _ (λ h. Refines-err _ (PublicStatus) limit_exceeded)
        (λ h.
          Refines-if _ (not (is_empty entries) && is_over_quota input.limits e (at quota_read) db) _
            _ (λ k. Refines-err _ PublicStatus active_limit_exceeded)
            (λ k.
              Refines-bind _ (create_request (new_request env input e entries at) db) _
                (λ created c. Refines-bind _ (queue_run input e entries created) _ (λ later q.
                  Refines-ok _ _ later (
                    subst (λ rows. db.requests ⇒* rows)
                      (sym (queue_run-requests input e entries created q))
                      (create_request-⇒ (new_request env input e entries at) db
                        (new_request-IsNew env input e entries at) c))))))

  answer_existing-⇒ :
      (input : PrepareInput) (row : Request)
      → Refines db.requests (answer_existing env input row at db)
  unfolding answer_existing
  answer_existing-⇒ input row =
      Refines-if _ (not (row.fingerprint == env.fingerprint input.scope)) _ _
        (λ h. Refines-err _ PublicStatus idempotency_conflict)
        (λ h. elim (Option-cases (lock_request row.id row.org_id db)) [
          | inl m ↦ rw m (Refines-err _ PublicStatus row_missing)
          | inr (locked, m) ↦ rw m (
              Refines-bind _ (expire_row env locked (at row_due) at db) _
                (λ (shown : Request × Db) x.
                  Refines-ok _ _ shown.1
                    (Refines-use _ _ (expire-⇒ env at locked (at row_due) db) x)))
        ])

  prepare_by-⇒ :
      (input : PrepareInput) (e : Employee) → Refines db.requests (prepare_by env input at db e)
  unfolding prepare_by
  prepare_by-⇒ input e = elim (Option-cases (find (is_keyed e.org_id e.id input.key) db.requests)) [
    | inl m ↦
        rw (m, prepare_by)
          (create_checked-⇒ input e
            (manifest env e input.scope input.limits.max_partitions none db))
    | inr (row, m) ↦ rw (m, prepare_by) (answer_existing-⇒ input row)
  ]

  pub prepare-⇒ : (input : PrepareInput) → Refines db.requests (prepare env input at db)
  unfolding prepare
  prepare-⇒ input =
      Refines-if _ (not (is_key input.key)) _ _
        (λ h. Refines-err _ PublicStatus invalid_idempotency_key)
        (λ h.
          Refines-bind _ (authority input.actor.id input.actor.org_id db) _
            (λ e x. prepare_by-⇒ input e))

  pub read-⇒ : (actor : Actor) (id : ℕ) → Refines db.requests (read env actor id at db)
  unfolding read
  read-⇒ actor id = Refines-bind _ (own_request actor id db) _ (λ row x.
      Refines-bind _ (authority actor.id actor.org_id db) _ (λ e y.
        Refines-bind _ (expire_row env row (at row_due) at db) _ (λ (shown : Request × Db) z.
          Refines-ok _ _ shown.1 (Refines-use _ _ (expire-⇒ env at row (at row_due) db) z))))

-- Once the row has been expired where it is due, no request changes.
module _ {A : Type 0} (issue : Current → Result A) (env : Env) (e : Employee) where
  issue_shown-⇒ :
      (row : Request) (db : Db) → Refines db.requests (issue_shown issue env e (row, db))
  unfolding issue_shown issue_live issue_view
  issue_shown-⇒ row db = Refines-bind _ (internal row (actor_of e)) _ (λ current c.
      Refines-if _ (is_failed row.status || is_expired row.status) _ _
        (λ h. Refines-ok _ (err (code_of row)) db here)
        (λ h.
          Refines-bind _ (content_current env row db) _ (λ unchanged u. viewed current unchanged)))
    where
      viewed :
          (current : Current) (unchanged : Bool)
          → Refines db.requests (issue_view issue env e current unchanged db)
      viewed current unchanged =
          Refines-if _ (not unchanged) _ _ (λ h. Refines-ok _ (err stale) db here)
            (λ h.
              Refines-if _ (not (is_readable env e current db)) _ _
                (λ k. Refines-ok _ (err forbidden) db here)
                (λ k.
                  Refines-bind _ (issue current) _ (λ issued x. Refines-ok _ (ok issued) db here)))

  issue_found-⇒ :
      (row : Request) (at : Times) (db : Db)
      → Refines db.requests (issue_found issue env e row at db)
  unfolding issue_found issue_counted
  issue_found-⇒ row at db =
      Refines-if _ (is_suspended row.org_id db) _ _ (λ h. Refines-ok _ (err forbidden) db here)
        (λ h. Refines-bind _ (entries_of row) _ (λ entries x.
          Refines-if _ (not (length entries == row.partition_count)) _ _
            (λ k. Refines-ok _ (err rebuild_required) db here)
            (λ k.
              Refines-bind _ (expire_row env row (at row_due) at db) (issue_shown issue env e)
                (λ (shown : Request × Db) z.
                  Refines-after (issue_shown issue env e shown)
                    (Refines-use _ _ (expire-⇒ env at row (at row_due) db) z)
                    (issue_shown-⇒ shown.0 shown.1)))))

pub issue-⇒ :
    {A : Type 0} (issue : Current → Result A) (env : Env) (actor : Actor) (id : ℕ) (at : Times)
    (db : Db)
    → Refines db.requests (issue_current issue env actor id at db)
unfolding issue_current
issue-⇒ issue env actor id at db = Refines-bind _ (own_request actor id db) _ (λ row x.
    Refines-bind _ (authority actor.id actor.org_id db) _
      (λ e y. issue_found-⇒ issue env e row at db))
