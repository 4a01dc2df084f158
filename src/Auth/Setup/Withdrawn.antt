-- ===== src/Auth/Setup/Withdrawn.antt =====
-- Setup grants that can be exchanged no longer, under the operations on setup grants.
use sme_data_center.Common.{
  ℕ, true, false, ◌||◌, none, some, List, ◌∷◌, ◌==◌, ◌≡◌, refl, arith, ◌∙◌, sym, ap, find_holds,
  find-update_many, find-none_passes, update_many, if◌then◌else◌, ==_refl,
}
use sme_data_center.Auth.Schema.{
  SetupGrant, Db, Result, ok, err, or_missing, create_grant, create_setup_session,
}
use sme_data_center.Auth.Schema.Creation.{bind-eq-ok, ok-injective, create_grant-eq-ok}
use sme_data_center.Auth.Sessions.{find_identity}
use sme_data_center.Auth.History.{after, Lands-ok, Lands-any, Lands-option, of-Lands}
use sme_data_center.Auth.Setup.{
  GrantInput, new_grant, close_setup, is_open_grant, close_grant, replace_password_setup_grant,
  ExchangeInput, is_claimable, use_grant, open_setup_session, exchange_found,
  exchange_password_setup_grant,
}
use sme_data_center.Auth.Setup.Grants.{find_grant, is_over, IsOver, update-IsOver}

replaced-grants :
    (input : GrantInput) (db later : Db) (id : ℕ) (hash : ℕ) (g : SetupGrant)
    → replace_password_setup_grant input db ≡ ok (id, later)
    → find_grant hash (close_setup input.identity_id input.now db).grants ≡ some g
    → find_grant hash later.grants ≡ some g
unfolding replace_password_setup_grant
replaced-grants input db later id hash g e found =
    let closed = close_setup input.identity_id input.now db in
    let (i, _, r1) = bind-eq-ok (or_missing (find_identity input.identity_id db)) _ _ e in
    let (db1, e1, r2) = bind-eq-ok (create_grant (new_grant input) closed) _ _ r1 in
    let (free, same) = create_grant-eq-ok (new_grant input) closed e1 in
    let last = ap (λ (r : ℕ × Db). r.1) (ok-injective _ _ r2) in
    rw (sym last, same)
      (skipped (new_grant input) closed.grants (
          differs (new_grant input) g (find-none_passes _ _ closed.grants g free found)
            (find_holds _ closed.grants g found))
        ∙ found)
  where
    differs :
        (n g : SetupGrant)
        → (g.id == n.id || g.token_hash == n.token_hash) ≡ false
        → (g.token_hash == hash) ≡ true
        → (n.token_hash == hash) ≡ false
    differs n g free same = ground arith

    skipped :
        (n : SetupGrant) (xs : List SetupGrant)
        → (n.token_hash == hash) ≡ false
        → find_grant hash (n ∷ xs) ≡ find_grant hash xs
    skipped n xs other = ground arith

close-ends :
    (id now hash : ℕ) (db : Db) (g : SetupGrant)
    → find_grant hash db.grants ≡ some g
    → g.identity_id ≡ id
    → IsOver hash (close_setup id now db).grants
unfolding close_setup
close-ends id now hash db g found owner = record {
  row = if is_open_grant id g then close_grant now g else g;
  found = find-update_many _ (is_open_grant id) (close_grant now) db.grants g (λ _. refl) found;
  over = over g owner;
}
  where
    over :
        (g : SetupGrant)
        → g.identity_id ≡ id
        → is_over (if is_open_grant id g then close_grant now g else g) ≡ true
    over g owner = ground (arith, ==_refl id)

-- A new grant leaves each earlier grant of its identity over.
pub replace-ends :
    (input : GrantInput) (hash : ℕ) (db later : Db) (id : ℕ) (g : SetupGrant)
    → replace_password_setup_grant input db ≡ ok (id, later)
    → find_grant hash db.grants ≡ some g
    → g.identity_id ≡ input.identity_id
    → IsOver hash later.grants
replace-ends input hash db later id g e found owner =
    let closed = close-ends input.identity_id input.now hash db g found owner in
    record {
      row = closed.row;
      found = replaced-grants input db later id hash closed.row e closed.found;
      over = closed.over;
    }

close-IsOver :
    (hash id now : ℕ) (db : Db) → IsOver hash db.grants → IsOver hash (close_setup id now db).grants
unfolding close_setup
close-IsOver hash id now db h =
    update-IsOver hash (is_open_grant id) (close_grant now) db.grants (λ _. refl)
      (λ _ k. ground (arith, k)) h

pub replace-IsOver :
    (hash : ℕ) (input : GrantInput) (db : Db)
    → IsOver hash db.grants
    → IsOver hash (after db (replace_password_setup_grant input db)).grants
replace-IsOver hash input db h = go (replace_password_setup_grant input db) refl
  where
    go :
        (r : Result (ℕ × Db))
        → replace_password_setup_grant input db ≡ r
        → IsOver hash (after db r).grants
    go (err x) e = h
    go (ok (id, later)) e =
        let closed = close-IsOver hash input.identity_id input.now db h in
        record {
          row = closed.row;
          found = replaced-grants input db later id hash closed.row e closed.found;
          over = closed.over;
        }

exchange_cases :
    (P : List SetupGrant → Type 0) (input : ExchangeInput) (g : SetupGrant) (db : Db)
    → P db.grants
    → P (update_many (is_claimable g.id input.now) (use_grant input.now) db.grants)
    → P (after db (exchange_found input g db)).grants
unfolding exchange_found open_setup_session create_setup_session
exchange_cases P input g db a b = ground arith

pub exchange-IsOver :
    (hash : ℕ) (input : ExchangeInput) (db : Db)
    → IsOver hash db.grants
    → IsOver hash (after db (exchange_password_setup_grant input db)).grants
unfolding exchange_password_setup_grant
exchange-IsOver hash input db h = of-Lands P db (exchange_password_setup_grant input db) (
    Lands-option P db (find_grant input.grant_token_hash db.grants) _ _
      (λ _. Lands-ok P db none db h)
      (λ g _. Lands-any P db _ (
        exchange_cases (IsOver hash) input g db h (
          update-IsOver hash (is_claimable g.id input.now) (use_grant input.now) db.grants
            (λ _. refl) (λ _ k. refl) h))))
  where
    P : Db → Type 0
    P d = IsOver hash d.grants
