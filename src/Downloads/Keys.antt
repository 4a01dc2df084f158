-- ===== src/Downloads/Keys.antt =====
-- The idempotency key of a requester in the histories of Downloads/History.
pub mod Prepared
use sme_data_center.Common.{
  ℕ, ◌≤◌, Bool, true, false, not, ◌&&◌, ◌||◌, Option, none, some, List, [], ◌∷◌, ◌==◌, ◌≡◌, refl,
  sym, ap, ◌∙◌, inl, inr, Option-cases, Bool-cases, arith, subst, subst₂, if◌then◌else◌, Text,
  text_eq, text_eq_iff, text_eq_refl, find, find_holds, find-any, find-none_passes,
  find-update_many, update_many, any, ==_iff, ◌↔◌, and_iff, is_empty, length, map,
}
use sme_data_center.Downloads.Schema.{
  Code, expired_code, Entry, Request, Employee, Db, Env, Result, ok, err, ◌>>=◌, lock_request,
}
use sme_data_center.Downloads.Requests.{
  Times, row_due, ended_at, as_expired, end_request, expire_row,
}
use sme_data_center.Downloads.Workers.{PublicStatus, start, progress, hold_artifact, public_status}
use sme_data_center.Downloads.Prepare.{
  is_keyed, PrepareInput, new_request, create_checked, answer_existing, prepare_by, prepare,
  authority, is_key, create_request, queue_run, create_run,
}
use sme_data_center.Downloads.History.{Call, run}
use sme_data_center.Downloads.Transitions.{
  has_id, row_at, ◌⇒◌, ◌⇒*◌, here, next, creates, begins, advances, finishes, ends,
}
use sme_data_center.Downloads.Transitions.Rules.{Unique, step-Unique, ⇒*_inv}
use sme_data_center.Downloads.Transitions.Transactions.{terminate-id, bind-eq-ok, Refines-use}
use sme_data_center.Downloads.Refinement.{expire-⇒}
use sme_data_center.Downloads.Refinement.Requesters.{prepare-⇒}
use sme_data_center.Downloads.Refinement.Histories.{run-⇒*}

-- The request that the table has under a key.
pub record Keyed (org requester : ℕ) (key : Text) (id fingerprint : ℕ) (rows : List Request)
    : Type 0 where
  pub row : Request
  pub found : find (is_keyed org requester key) rows ≡ some row
  pub same_id : row.id ≡ id
  pub same_fingerprint : row.fingerprint ≡ fingerprint

is_keyed_iff :
    (org requester : ℕ) (key : Text) (row : Request)
    → (is_keyed org requester key row ≡ true)
      ↔ ((row.org_id ≡ org) × (row.requester_id ≡ requester) × (row.idempotency_key ≡ key))
is_keyed_iff org requester key row =
    let both =
      and_iff (and_iff (==_iff row.org_id org) (==_iff row.requester_id requester))
        (text_eq_iff row.idempotency_key key) in
    (
      λ h.
          let ((same_org, same_requester), same_key) = both.0 h in
          (same_org, same_requester, same_key),
      λ h. both.1 ((h.0, h.1), h.2),
    )

module _ (org requester : ℕ) (key : Text) (id fingerprint : ℕ) where
  updated :
      (other : ℕ) (f : Request → Request) (rows : List Request)
      → ((r : Request)
          → (is_keyed org requester key (f r) ≡ is_keyed org requester key r)
            × ((f r).id ≡ r.id)
            × ((f r).fingerprint ≡ r.fingerprint))
      → Keyed org requester key id fingerprint rows
      → Keyed org requester key id fingerprint (update_many (has_id other) f rows)
  updated other f rows same k = record {
    row = if has_id other k.row then f k.row else k.row;
    found =
        find-update_many (is_keyed org requester key) (has_id other) f rows k.row (λ r. (same r).0)
          k.found;
    same_id = by_test (has_id other k.row) ∙ k.same_id;
    same_fingerprint = by_test_fingerprint (has_id other k.row) ∙ k.same_fingerprint;
  }
    where
      by_test : (b : Bool) → (if b then f k.row else k.row).id ≡ k.row.id
      by_test true = (same k.row).1
      by_test false = refl

      by_test_fingerprint :
          (b : Bool) → (if b then f k.row else k.row).fingerprint ≡ k.row.fingerprint
      by_test_fingerprint true = (same k.row).2
      by_test_fingerprint false = refl

  -- A row that holds a key keeps a new row from having it.
  other_key :
      (row new : Request)
      → is_keyed org requester key row ≡ true
      → is_keyed new.org_id new.requester_id new.idempotency_key row ≡ false
      → is_keyed org requester key new ≡ false
  other_key row new h free = elim (Bool-cases (is_keyed org requester key new)) [
    | inr apart ↦ apart
    | inl clash ↦
        let (same_org, same_requester, same_key) = (is_keyed_iff org requester key row).0 h in
        let (new_org, new_requester, new_key) = (is_keyed_iff org requester key new).0 clash in
        let taken : is_keyed new.org_id new.requester_id new.idempotency_key row ≡ true =
          (is_keyed_iff new.org_id new.requester_id new.idempotency_key row).1
            (same_org ∙ sym new_org, same_requester ∙ sym new_requester, same_key ∙ sym new_key) in
        cc
  ]

  step-Keyed :
      {xs ys : List Request}
      → xs ⇒ ys
      → Keyed org requester key id fingerprint xs
      → Keyed org requester key id fingerprint ys
  step-Keyed (creates {rows} new free unkeyed fresh) k = record {
    row = k.row;
    found = ground (
      arith,
      other_key k.row new (find_holds (is_keyed org requester key) rows k.row k.found) (
          find-none_passes (is_keyed org requester key)
            (is_keyed new.org_id new.requester_id new.idempotency_key) rows k.row unkeyed k.found),
      k.found,
    );
    same_id = k.same_id;
    same_fingerprint = k.same_fingerprint;
  }
  step-Keyed (begins {rows} other row e live) k =
      updated other start rows (λ r. (refl, refl, refl)) k
  step-Keyed (advances {rows} other row n e live low high) k =
      updated other (progress n) rows (λ r. (refl, refl, refl)) k
  step-Keyed (finishes {rows} other row artifact e live short) k =
      updated other (hold_artifact artifact) rows (λ r. (refl, refl, refl)) k
  step-Keyed (ends {rows} other ending code) k =
      updated other (end_request ending code) rows (λ r. (refl, refl, refl)) k

  pub steps-Keyed :
      {xs ys : List Request}
      → xs ⇒* ys
      → Keyed org requester key id fingerprint xs
      → Keyed org requester key id fingerprint ys
  steps-Keyed s = ⇒*_inv (Keyed org requester key id fingerprint) (λ xs ys. step-Keyed) s

-- A key has one request, so what is known of it agrees.
pub Keyed-one :
    {org requester : ℕ} {key : Text} {id other fingerprint second : ℕ} (rows : List Request)
    → Keyed org requester key id fingerprint rows
    → Keyed org requester key other second rows
    → (id ≡ other) × (fingerprint ≡ second)
Keyed-one rows a b =
    let same = some-injective a.row b.row (sym a.found ∙ b.found) in
    (
      sym a.same_id ∙ ap (λ (r : Request). r.id) same ∙ b.same_id,
      sym a.same_fingerprint ∙ ap (λ (r : Request). r.fingerprint) same ∙ b.same_fingerprint,
    )
  where
    some-injective : (x y : Request) → ◌≡◌ {A = Option Request} (some x) (some y) → x ≡ y
    some-injective x y e = ground arith
