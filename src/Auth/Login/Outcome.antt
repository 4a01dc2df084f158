-- ===== src/Auth/Login/Outcome.antt =====
-- What a login answers.
use sme_data_center.Common.{
  ℕ, true, false, Option, none, some, ◌==◌, ◌≡◌, ◌↔◌, refl, arith, find, Option-cases, inl, inr, ap,
}
use sme_data_center.Auth.Schema.{LoginIdentity, Employee, Audit, Db, Result, ok}
use sme_data_center.Auth.Login.{
  Crypto, LoggedIn, Login, rejected, logged_in, verify_found, verify_login, accept_password,
  reject_password, refuse_login, is_cooling,
}

-- An enabled account whose password is set and verifies, and that no cooldown holds back.
pub record CanLogIn (crypto : Crypto) (email password now : ℕ) (db : Db) (a : LoggedIn)
    : Type 0 where
  pub identity : LoginIdentity
  pub owner : Employee
  pub hash : ℕ
  pub found :
      find (λ (r : LoginIdentity). r.normalized_email == email) db.identities ≡ some identity
  pub known : find (λ (r : Employee). r.id == identity.employee_id) db.employees ≡ some owner
  pub identity_enabled : identity.disabled ≡ false
  pub employee_enabled : owner.disabled ≡ false
  pub has_password : identity.password_hash ≡ some hash
  pub cooled : is_cooling now identity.cooldown_until ≡ false
  pub verified : crypto.verify password hash ≡ true
  pub account : a ≡ record {
    identity_id = identity.id;
    employee_id = identity.employee_id;
    org_id = identity.org_id;
    credential_fingerprint = crypto.fingerprint hash;
  }

abbrev LetIn : Crypto → ℕ → ℕ → LoginIdentity → Employee → LoggedIn → ℕ → Type 0
LetIn crypto password now i e a hash =
    (i.disabled ≡ false)
    × (e.disabled ≡ false)
    × (i.password_hash ≡ some hash)
    × (is_cooling now i.cooldown_until ≡ false)
    × (crypto.verify password hash ≡ true)
    × (a ≡ record {
      identity_id = i.id;
      employee_id = i.employee_id;
      org_id = i.org_id;
      credential_fingerprint = crypto.fingerprint hash;
    })

found_lets_in :
    (crypto : Crypto) (password now : ℕ) (audit : Option Audit) (i : LoginIdentity) (e : Employee)
    (db later : Db) (a : LoggedIn)
    → verify_found crypto password now audit i e db ≡ (logged_in a, later)
    → (hash : ℕ) × LetIn crypto password now i e a hash
unfolding verify_found accept_password reject_password refuse_login
found_lets_in crypto password now audit i e db later a h = go i.password_hash refl
  where
    go : (o : Option ℕ) → i.password_hash ≡ o → (hash : ℕ) × LetIn crypto password now i e a hash
    go none p = ground arith
    go (some hash) p =
        (hash, (ground arith, ground arith, p, ground arith, ground arith, ground arith))

found-LetIn :
    (crypto : Crypto) (password now : ℕ) (audit : Option Audit) (i : LoginIdentity) (e : Employee)
    (db : Db) (a : LoggedIn) (hash : ℕ)
    → LetIn crypto password now i e a hash
    → verify_found crypto password now audit i e db
      ≡ (logged_in a, (accept_password crypto i hash now audit db).1)
unfolding verify_found accept_password
found-LetIn crypto password now audit i e db a hash (p, q, r, s, t, same) = rw same (ground arith)

-- A login succeeds, as an account, exactly if the identity and its employee are there and enabled,
-- a password is set, no cooldown runs, and the presented password verifies against the stored hash;
-- the account is that identity's, with the fingerprint of the hash.
pub verify_login_iff :
    (crypto : Crypto) (email password now : ℕ) (audit : Option Audit) (db : Db) (a : LoggedIn)
    → ((later : Db) × (verify_login crypto email password now audit db ≡ ok (logged_in a, later)))
      ↔ CanLogIn crypto email password now db a
unfolding verify_login
verify_login_iff crypto email password now audit db a = (to, from)
  where
    ok_found :
        (r : Login × Db) (later : Db)
        → ◌≡◌ {A = Result (Login × Db)} (ok r) (ok (logged_in a, later))
        → r ≡ (logged_in a, later)
    ok_found r later e = ground arith

    to :
        (later : Db) × (verify_login crypto email password now audit db ≡ ok (logged_in a, later))
        → CanLogIn crypto email password now db a
    to (later, e) =
        elim (Option-cases
          (find (λ (r : LoginIdentity). r.normalized_email == email) db.identities)) [
            | inl missing ↦ cc (rw (missing, verify_login) at e)
            | inr (i, found) ↦
                elim (Option-cases (find (λ (r : Employee). r.id == i.employee_id) db.employees)) [
                  | inl missing ↦ cc (rw missing at (rw (found, verify_login) at e))
                  | inr (o, known) ↦
                      let (hash, (p, q, r, s, t, same)) =
                        found_lets_in crypto password now audit i o db later a
                          (ok_found _ later (rw known at (rw (found, verify_login) at e))) in
                      record {
                        identity = i;
                        owner = o;
                        hash = hash;
                        found = found;
                        known = known;
                        identity_enabled = p;
                        employee_enabled = q;
                        has_password = r;
                        cooled = s;
                        verified = t;
                        account = same;
                      }
                ]
          ]

    from :
        CanLogIn crypto email password now db a
        → (later : Db) × (verify_login crypto email password now audit db ≡ ok (logged_in a, later))
    from c = (
      (accept_password crypto c.identity c.hash now audit db).1,
      rw (c.found, verify_login, c.known)
          (ap ok (
            found-LetIn crypto password now audit c.identity c.owner db a c.hash (
              c.identity_enabled, c.employee_enabled, c.has_password, c.cooled, c.verified,
              c.account,
            ))),
    )

cooling-found :
    (crypto : Crypto) (password now : ℕ) (audit : Option Audit) (i : LoginIdentity) (e : Employee)
    (db : Db)
    → is_cooling now i.cooldown_until ≡ true
    → (verify_found crypto password now audit i e db).0 ≡ rejected
      × (verify_found crypto password now audit i e db).1.identities ≡ db.identities
unfolding verify_found refuse_login
cooling-found crypto password now audit i e db h = (ground arith, ground arith)

-- While a cooldown runs for the identity of an email, whose employee is there, a login is rejected,
-- even with the right password, and no identity changes: the attempt is not counted.
pub verify_login-cooling :
    (crypto : Crypto) (email password now : ℕ) (audit : Option Audit) (db : Db) (i : LoginIdentity)
    (o : Employee)
    → find (λ (r : LoginIdentity). r.normalized_email == email) db.identities ≡ some i
    → find (λ (r : Employee). r.id == i.employee_id) db.employees ≡ some o
    → is_cooling now i.cooldown_until ≡ true
    → (later : Db) × (verify_login crypto email password now audit db ≡ ok (rejected, later))
      × (later.identities ≡ db.identities)
unfolding verify_login
verify_login-cooling crypto email password now audit db i o found known cooling =
    let (p, q) = cooling-found crypto password now audit i o db cooling in
    let later = (verify_found crypto password now audit i o db).1 in
    (later, rw (found, verify_login, known) (ap (λ (r : Login). ok (r, later)) p), q)
