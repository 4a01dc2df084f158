-- ===== src/Downloads/Keys/Prepared.antt =====
-- `prepare` and its key: what it leaves under the key, and what a later `prepare` answers.
use sme_data_center.Common.{
  ℕ, true, ◌&&◌, some, List, ◌∷◌, ◌==◌, ◌≡◌, refl, sym, ap, ◌∙◌, inl, inr, Option-cases, arith,
  subst, subst₂, text_eq_refl, find, find_holds, ==_iff,
}
use sme_data_center.Downloads.Schema.{
  expired_code, Entry, Request, Employee, Db, Env, Result, ok, err, ◌>>=◌, lock_request,
}
use sme_data_center.Downloads.Requests.{Times, row_due, ended_at, as_expired, expire_row}
use sme_data_center.Downloads.Workers.{PublicStatus, public_status}
use sme_data_center.Downloads.Prepare.{
  is_keyed, PrepareInput, new_request, create_checked, answer_existing, prepare_by, prepare,
  authority, is_key, create_request, queue_run, create_run,
}
use sme_data_center.Downloads.History.{Call, run}
use sme_data_center.Downloads.Transitions.{◌⇒*◌}
use sme_data_center.Downloads.Transitions.Rules.{Unique, step-Unique, ⇒*_inv}
use sme_data_center.Downloads.Transitions.Transactions.{terminate-id, bind-eq-ok, Refines-use}
use sme_data_center.Downloads.Refinement.{expire-⇒}
use sme_data_center.Downloads.Refinement.Requesters.{prepare-⇒}
use sme_data_center.Downloads.Refinement.Histories.{run-⇒*}
use sme_data_center.Downloads.Keys.{Keyed, steps-Keyed, Keyed-one}

expire-id :
    (env : Env) (row : Request) (clock : ℕ) (at : Times) (db : Db) (shown : Request) (later : Db)
    → expire_row env row clock at db ≡ ok (shown, later)
    → shown.id ≡ row.id
unfolding expire_row
expire-id env row clock at db shown later e =
    ground (arith, terminate-id env row as_expired expired_code (at ended_at) at db shown later)

pub authority-ids :
    (id org_id : ℕ) (db : Db) (e : Employee)
    → authority id org_id db ≡ ok e
    → (e.id ≡ id) × (e.org_id ≡ org_id)
unfolding authority
authority-ids id org_id db e h =
    ground (arith, find_holds (λ (x : Employee). x.id == id && x.org_id == org_id) db.employees e)

-- An answer that shows the row of a last write.
shown-eq-ok :
    (r : Result (Request × Db)) (shown : PublicStatus) (later : Db)
    → (◌>>=◌ {B = PublicStatus × Db} r (λ x. ok (public_status x.0, x.1))) ≡ ok (shown, later)
    → (row : Request) × (r ≡ ok (row, later)) × (public_status row ≡ shown)
shown-eq-ok (ok (row, db)) shown later h = (row, ground arith, ground arith)
shown-eq-ok (err code) shown later h = cc

module _ (env : Env) (input : PrepareInput) (e : Employee) (at : Times) (db : Db) where
  pub created_row :
      (entries : List Entry) (shown : PublicStatus) (later : Db)
      → create_checked env input e entries at db ≡ ok (shown, later)
      → (later.requests ≡ new_request env input e entries at ∷ db.requests)
        × (public_status (new_request env input e entries at) ≡ shown)
  unfolding create_checked create_request queue_run create_run
  created_row entries shown later h = ground arith

  create-Keyed :
      (entries : List Entry) (shown : PublicStatus) (later : Db)
      → create_checked env input e entries at db ≡ ok (shown, later)
      → Keyed e.org_id e.id input.key shown.request_id (env.fingerprint input.scope) later.requests
  unfolding new_request public_status
  create-Keyed entries shown later h =
      let (added, same) = created_row entries shown later h in
      subst
        (λ rows. Keyed e.org_id e.id input.key shown.request_id (env.fingerprint input.scope) rows)
        (sym added)
        (record {
          row = new_request env input e entries at;
          found = ground (arith, text_eq_refl input.key);
          same_id = ap (λ (x : PublicStatus). x.request_id) same;
          same_fingerprint = refl;
        })

  same_scope :
      (row : Request) (shown : PublicStatus) (later : Db)
      → answer_existing env input row at db ≡ ok (shown, later)
      → (row.fingerprint == env.fingerprint input.scope) ≡ true
  unfolding answer_existing
  same_scope row shown later h = ground arith

  pub existing_row :
      (row : Request) (shown : PublicStatus) (later : Db)
      → answer_existing env input row at db ≡ ok (shown, later)
      → (locked : Request) × (swept : Request) × (lock_request row.id row.org_id db ≡ some locked)
        × (expire_row env locked (at row_due) at db ≡ ok (swept, later))
        × (public_status swept ≡ shown)
  unfolding answer_existing
  existing_row row shown later h =
      let same = same_scope row shown later h in
      elim (Option-cases (lock_request row.id row.org_id db)) [
        | inl m ↦ let lost = rw (same, m) at h in cc
        | inr (locked, m) ↦
            let rest = rw (same, m) at h in
            let (swept, x, y) = shown-eq-ok _ shown later rest in (locked, swept, m, x, y)
      ]

  answer-Keyed :
      (row : Request) (shown : PublicStatus) (later : Db)
      → find (is_keyed e.org_id e.id input.key) db.requests ≡ some row
      → answer_existing env input row at db ≡ ok (shown, later)
      → Keyed e.org_id e.id input.key shown.request_id (env.fingerprint input.scope) later.requests
  unfolding public_status
  answer-Keyed row shown later found h =
      let (locked, swept, m, x, y) = existing_row row shown later h in
      let its_id : locked.id ≡ row.id = ground (
        arith,
        find_holds (λ (r : Request). r.id == row.id && r.org_id == row.org_id) db.requests locked m,
      ) in
      let shown_id : row.id ≡ shown.request_id =
        sym (expire-id env locked (at row_due) at db swept later x ∙ its_id)
        ∙ ap (λ (s : PublicStatus). s.request_id) y in
      steps-Keyed e.org_id e.id input.key shown.request_id (env.fingerprint input.scope)
        (Refines-use _ _ (expire-⇒ env at locked (at row_due) db) x)
        (record {
          row = row;
          found = found;
          same_id = shown_id;
          same_fingerprint = (==_iff _ _).0 (same_scope row shown later h);
        })

  prepare_by-Keyed :
      (shown : PublicStatus) (later : Db)
      → prepare_by env input at db e ≡ ok (shown, later)
      → Keyed e.org_id e.id input.key shown.request_id (env.fingerprint input.scope) later.requests
  unfolding prepare_by
  prepare_by-Keyed shown later h =
      elim (Option-cases (find (is_keyed e.org_id e.id input.key) db.requests)) [
        | inl m ↦ create-Keyed _ shown later (rw (m, prepare_by) at h)
        | inr (row, m) ↦ answer-Keyed row shown later m (rw (m, prepare_by) at h)
      ]

pub prepare-Keyed :
    (env : Env) (input : PrepareInput) (at : Times) (db : Db) (shown : PublicStatus) (later : Db)
    → prepare env input at db ≡ ok (shown, later)
    → Keyed input.actor.org_id input.actor.id input.key shown.request_id
        (env.fingerprint input.scope)
        later.requests
unfolding prepare
prepare-Keyed env input at db shown later h =
    let valid : is_key input.key ≡ true = ground arith in
    let (e, known, rest) =
      bind-eq-ok (authority input.actor.id input.actor.org_id db) (prepare_by env input at db) _
        (rw valid at h) in
    let (same_id, same_org) = authority-ids input.actor.id input.actor.org_id db e known in
    subst₂
      (λ org id.
        Keyed org id input.key shown.request_id (env.fingerprint input.scope) later.requests)
      same_org same_id (prepare_by-Keyed env input e at db shown later rest)

-- A key of a requester stands for one request and one scope, whatever calls are made between two
-- `prepare`s that answer: the second shows the request of the first, and its scope has the
-- fingerprint of the first.
pub prepare-again :
    (env : Env) (first again : PrepareInput) (at at_again : Times) (calls : List Call)
    (db later last : Db) (shown shown_again : PublicStatus)
    → Unique db.requests
    → prepare env first at db ≡ ok (shown, later)
    → again.actor.id ≡ first.actor.id
    → again.actor.org_id ≡ first.actor.org_id
    → again.key ≡ first.key
    → prepare env again at_again (run env later calls) ≡ ok (shown_again, last)
    → (shown_again.request_id ≡ shown.request_id)
      × (env.fingerprint again.scope ≡ env.fingerprint first.scope)
prepare-again env first again at at_again calls db later last shown shown_again unique h id org key
      k =
    let (ids, fingerprints) = Keyed-one last.requests (steps-Keyed _ _ _ _ _ second mid) renewed in
    (sym ids, sym fingerprints)
  where
    made : db.requests ⇒* later.requests
    made = Refines-use _ _ (prepare-⇒ env at db first) h

    mid :
        Keyed first.actor.org_id first.actor.id first.key shown.request_id
          (env.fingerprint first.scope)
          (run env later calls).requests
    mid =
        steps-Keyed _ _ _ _ _
          (run-⇒* env calls later (⇒*_inv Unique (λ xs ys. step-Unique) made unique))
          (prepare-Keyed env first at db shown later h)

    second : (run env later calls).requests ⇒* last.requests
    second = Refines-use _ _ (prepare-⇒ env at_again (run env later calls) again) k

    renewed :
        Keyed first.actor.org_id first.actor.id first.key shown_again.request_id
          (env.fingerprint again.scope)
          last.requests
    renewed =
        subst
          (λ text.
            Keyed first.actor.org_id first.actor.id text shown_again.request_id
              (env.fingerprint again.scope) last.requests)
          key
          (subst₂
            (λ o i.
              Keyed o i again.key shown_again.request_id (env.fingerprint again.scope)
                last.requests)
            org id (prepare-Keyed env again at_again (run env later calls) shown_again last k))
