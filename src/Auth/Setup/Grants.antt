-- ===== src/Auth/Setup/Grants.antt =====
-- Setup grants that can be exchanged no longer: used, or revoked.
use sme_data_center.Common.{
  ℕ, Bool, true, ◌||◌, Option, none, some, List, ◌==◌, ◌≡◌, refl, arith, ◌∙◌, sym, ap, find,
  find-update_many, update_many, is_some, if◌then◌else◌, Option-cases, inl, inr, ==_refl,
}
use sme_data_center.Auth.Schema.{Purpose, SetupGrant, Db, ok, or_missing, create_setup_session}
use sme_data_center.Auth.Schema.Creation.{bind-eq-ok, ok-injective, create_setup_session-eq-ok}
use sme_data_center.Auth.Sessions.{find_identity}
use sme_data_center.Auth.Setup.{
  ExchangeInput, is_claimable, use_grant, new_setup_session, open_setup_session, exchange_found,
  exchange_password_setup_grant,
}

abbrev pub find_grant : ℕ → List SetupGrant → Option SetupGrant
find_grant hash grants = find (λ (g : SetupGrant). g.token_hash == hash) grants

-- A grant that was used or revoked.
abbrev pub is_over : SetupGrant → Bool
is_over g = is_some g.used_at || is_some g.revoked_at

-- The grant of the secret was used or revoked.
pub record IsOver (hash : ℕ) (grants : List SetupGrant) : Type 0 where
  pub row : SetupGrant
  pub found : find_grant hash grants ≡ some row
  pub over : is_over row ≡ true

over-found :
    (input : ExchangeInput) (g : SetupGrant) (db : Db)
    → is_over g ≡ true
    → exchange_found input g db ≡ ok (none, db)
unfolding exchange_found
over-found input g db h = ground arith

-- Such a secret opens nothing, and changes nothing.
pub IsOver-refused :
    (input : ExchangeInput) (db : Db)
    → IsOver input.grant_token_hash db.grants
    → exchange_password_setup_grant input db ≡ ok (none, db)
unfolding exchange_password_setup_grant
IsOver-refused input db h =
    rw (h.found, exchange_password_setup_grant) (over-found input h.row db h.over)

-- An update that keeps the secrets, and a grant that is over, keeps a secret over.
pub update-IsOver :
    (hash : ℕ) (p : SetupGrant → Bool) (f : SetupGrant → SetupGrant) (xs : List SetupGrant)
    → ((g : SetupGrant) → (f g).token_hash ≡ g.token_hash)
    → ((g : SetupGrant) → is_over g ≡ true → is_over (f g) ≡ true)
    → IsOver hash xs
    → IsOver hash (update_many p f xs)
update-IsOver hash p f xs same keep h = record {
  row = if p h.row then f h.row else h.row;
  found =
      find-update_many (λ (g : SetupGrant). g.token_hash == hash) p f xs h.row
        (λ g. ap (λ k. k == hash) (same g)) h.found;
  over = ground (arith, keep h.row, h.over);
}

-- An exchange that succeeds has marked the grant that it has found.
exchanged-found :
    (input : ExchangeInput) (g : SetupGrant) (db later : Db) (r : ℕ × Purpose)
    → exchange_found input g db ≡ ok (some r, later)
    → (is_claimable g.id input.now g ≡ true)
      × (open_setup_session input g (record db {
        grants = update_many (is_claimable g.id input.now) (use_grant input.now) db.grants;
      })
          ≡ ok (some r, later))
unfolding exchange_found
exchanged-found input g db later r e = (ground (arith, ==_refl g.id), ground arith)

open-grants :
    (input : ExchangeInput) (g : SetupGrant) (db later : Db) (r : Option (ℕ × Purpose))
    → open_setup_session input g db ≡ ok (r, later)
    → later.grants ≡ db.grants
unfolding open_setup_session
open-grants input g db later r e =
    let (db1, e1, r1) = bind-eq-ok (create_setup_session (new_setup_session input g) db) _ _ e in
    let (i, _, r2) = bind-eq-ok (or_missing (find_identity g.identity_id db1)) _ _ r1 in
    let (_, same) = create_setup_session-eq-ok (new_setup_session input g) db e1 in
    let last = ap (λ (r : Option (ℕ × Purpose) × Db). r.1) (ok-injective _ _ r2) in
    rw (sym last, same) refl

-- An exchange that succeeds leaves its grant used.
pub exchange-marks :
    (input : ExchangeInput) (db later : Db) (r : ℕ × Purpose)
    → exchange_password_setup_grant input db ≡ ok (some r, later)
    → IsOver input.grant_token_hash later.grants
unfolding exchange_password_setup_grant
exchange-marks input db later r e =
    elim (Option-cases (find_grant input.grant_token_hash db.grants)) [
      | inl missing ↦ cc (rw (missing, exchange_password_setup_grant) at e)
      | inr (g, found) ↦
          let (could, opened) =
            exchanged-found input g db later r (rw (found, exchange_password_setup_grant) at e) in
          record {
            row = use_grant input.now g;
            found =
                ap (find_grant input.grant_token_hash) (open-grants input g _ later (some r) opened)
                ∙ find-update_many _ (is_claimable g.id input.now) (use_grant input.now) db.grants g
                    (λ _. refl) found
                ∙ ap some (hit g could);
            over = refl;
          }
    ]
  where
    hit :
        (g : SetupGrant)
        → is_claimable g.id input.now g ≡ true
        → (if is_claimable g.id input.now g then use_grant input.now g else g)
          ≡ use_grant input.now g
    hit g could = ground arith
