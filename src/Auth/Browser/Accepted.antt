-- ===== src/Auth/Browser/Accepted.antt =====
-- Which browser sessions authenticate, by the hash of their secret.
use sme_data_center.Common.{
  ℕ, ◌<◌, false, Option, none, some, ◌==◌, ◌≡◌, ◌≢◌, ◌↔◌, refl, arith, ◌∙◌, sym, ap, find,
  Option-cases, inl, inr, ==_refl,
}
use sme_data_center.Auth.Schema.{
  BrowserSession, LoginIdentity, Employee, Db, Result, ok, or_missing,
}
use sme_data_center.Auth.Schema.Creation.{bind-eq-ok, or_missing-eq-ok, ok-injective}
use sme_data_center.Auth.Sessions.{find_identity, find_employee}
use sme_data_center.Auth.Browser.{
  Principal, principal_of, find_row, find_browser, accept_found, authenticate_hashed,
}

abbrev browser_row : ℕ → Db → Option BrowserSession
browser_row secret_hash db =
    find (λ (b : BrowserSession). b.secret_hash == secret_hash) db.browser_sessions

-- An unrevoked, unexpired browser session of an enabled account whose password is still the one
-- that the session was opened with.
pub record IsSignedIn (hash : ℕ → ℕ) (secret_hash now : ℕ) (db : Db) (p : Principal) : Type 0 where
  pub row : BrowserSession
  pub identity : LoginIdentity
  pub owner : Employee
  pub password_hash : ℕ
  pub found : browser_row secret_hash db ≡ some row
  pub of_identity : find_identity row.identity_id db ≡ some identity
  pub of_employee : find_employee identity.employee_id db ≡ some owner
  pub identity_enabled : identity.disabled ≡ false
  pub employee_enabled : owner.disabled ≡ false
  pub same_identity : row.identity_id ≡ identity.id
  pub same_employee : row.employee_id ≡ identity.employee_id
  pub same_org : row.org_id ≡ identity.org_id
  pub same_owner_org : row.org_id ≡ owner.org_id
  pub has_password : identity.password_hash ≡ some password_hash
  pub same_password : row.credential_fingerprint ≡ hash password_hash
  pub unrevoked : row.revoked_at ≡ none
  pub unexpired : now < row.expires_at
  pub principal : p ≡ principal_of row owner

abbrev SignedIn : (ℕ → ℕ) → ℕ → BrowserSession → LoginIdentity → Employee → Principal → ℕ → Type 0
SignedIn hash now b i e p password_hash =
    (i.disabled ≡ false)
    × (e.disabled ≡ false)
    × (b.identity_id ≡ i.id)
    × (b.employee_id ≡ i.employee_id)
    × (b.org_id ≡ i.org_id)
    × (b.org_id ≡ e.org_id)
    × (i.password_hash ≡ some password_hash)
    × (b.credential_fingerprint ≡ hash password_hash)
    × (b.revoked_at ≡ none)
    × (now < b.expires_at)
    × (p ≡ principal_of b e)

row-SignedIn :
    (hash : ℕ → ℕ) (now : ℕ) (b : BrowserSession) (i : LoginIdentity) (e : Employee) (p : Principal)
    → accept_found now (find_row hash b i e) ≡ some p
    → (password_hash : ℕ) × (SignedIn hash now b i e p password_hash)
unfolding accept_found find_row
row-SignedIn hash now b i e p h = by_password i.password_hash refl
  where
    by_password :
        (o : Option ℕ)
        → i.password_hash ≡ o
        → (password_hash : ℕ) × (SignedIn hash now b i e p password_hash)
    by_password none q = ground arith
    by_password (some x) q = (
      x,
      (
        ground arith,
        ground arith,
        ground arith,
        ground arith,
        ground arith,
        ground arith,
        q,
        ground arith,
        ground arith,
        ground arith,
        ground arith,
      ),
    )

SignedIn-row :
    (hash : ℕ → ℕ) (now : ℕ) (b : BrowserSession) (i : LoginIdentity) (e : Employee) (p : Principal)
    (password_hash : ℕ)
    → SignedIn hash now b i e p password_hash
    → accept_found now (find_row hash b i e) ≡ some p
unfolding accept_found find_row
SignedIn-row hash now b i e p x (h1, h2, h3, h4, h5, h6, h7, h8, h9, h10, h11) =
    ground (arith, ==_refl i.id, ==_refl i.employee_id, ==_refl i.org_id, ==_refl (hash x))

found_row :
    (hash : ℕ → ℕ) (secret_hash now : ℕ) (db : Db) (b : BrowserSession) (i : LoginIdentity)
    (e : Employee)
    → browser_row secret_hash db ≡ some b
    → find_identity b.identity_id db ≡ some i
    → find_employee i.employee_id db ≡ some e
    → authenticate_hashed hash secret_hash now db ≡ ok (accept_found now (find_row hash b i e))
unfolding authenticate_hashed find_browser
found_row hash secret_hash now db b i e eb ei ee =
    rw (eb, authenticate_hashed, find_browser, ei, ee) refl

no_row :
    (hash : ℕ → ℕ) (secret_hash now : ℕ) (db : Db)
    → browser_row secret_hash db ≡ none
    → authenticate_hashed hash secret_hash now db ≡ ok none
unfolding authenticate_hashed find_browser accept_found
no_row hash secret_hash now db missing = rw (missing, authenticate_hashed, find_browser) refl

rows-found :
    (hash : ℕ → ℕ) (secret_hash now : ℕ) (db : Db) (b : BrowserSession) (r : Option Principal)
    → browser_row secret_hash db ≡ some b
    → authenticate_hashed hash secret_hash now db ≡ ok r
    → (i : LoginIdentity) × (e : Employee) × (find_identity b.identity_id db ≡ some i)
      × (find_employee i.employee_id db ≡ some e)
unfolding authenticate_hashed find_browser
rows-found hash secret_hash now db b r found h =
    let (o, h1, _) = bind-eq-ok (find_browser hash secret_hash db) _ _ h in
    let h2 = rw (found, find_browser) at h1 in
    let (i, ei, h3) = bind-eq-ok (or_missing (find_identity b.identity_id db)) _ _ h2 in
    let (e, ee, _) = bind-eq-ok (or_missing (find_employee i.employee_id db)) _ _ h3 in
    (i, e, or_missing-eq-ok _ i ei, or_missing-eq-ok _ e ee)

-- A hash authenticates exactly if it is that of a browser session that is signed in.
pub authenticate_hashed_iff :
    (hash : ℕ → ℕ) (secret_hash now : ℕ) (db : Db) (p : Principal)
    → (authenticate_hashed hash secret_hash now db ≡ ok (some p))
      ↔ IsSignedIn hash secret_hash now db p
authenticate_hashed_iff hash secret_hash now db p = (to, from)
  where
    to :
        authenticate_hashed hash secret_hash now db ≡ ok (some p)
        → IsSignedIn hash secret_hash now db p
    to h = elim (Option-cases (browser_row secret_hash db)) [
      | inl missing ↦ absurd (differ (sym (no_row hash secret_hash now db missing) ∙ h))
      | inr (b, found) ↦
          let (i, e, ei, ee) = rows-found hash secret_hash now db b (some p) found h in
          let (x, (h1, h2, h3, h4, h5, h6, h7, h8, h9, h10, h11)) =
            row-SignedIn hash now b i e p
              (ok-injective _ _ (sym (found_row hash secret_hash now db b i e found ei ee) ∙ h)) in
          record {
            row = b;
            identity = i;
            owner = e;
            password_hash = x;
            found = found;
            of_identity = ei;
            of_employee = ee;
            identity_enabled = h1;
            employee_enabled = h2;
            same_identity = h3;
            same_employee = h4;
            same_org = h5;
            same_owner_org = h6;
            has_password = h7;
            same_password = h8;
            unrevoked = h9;
            unexpired = h10;
            principal = h11;
          }
    ]
      where
        differ : ◌≢◌ {A = Result (Option Principal)} (ok none) (ok (some p))
        differ e = cc

    from :
        IsSignedIn hash secret_hash now db p
        → authenticate_hashed hash secret_hash now db ≡ ok (some p)
    from s =
        found_row hash secret_hash now db s.row s.identity s.owner s.found s.of_identity
          s.of_employee
        ∙ ap ok (
            SignedIn-row hash now s.row s.identity s.owner p s.password_hash (
              s.identity_enabled, s.employee_enabled, s.same_identity, s.same_employee, s.same_org,
              s.same_owner_org, s.has_password, s.same_password, s.unrevoked, s.unexpired,
              s.principal,
            ))
