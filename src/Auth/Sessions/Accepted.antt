-- ===== src/Auth/Sessions/Accepted.antt =====
-- Which access tokens authenticate.
use sme_data_center.Common.{
  ℕ, true, ◌<◌, Option, none, some, ◌≡◌, ◌↔◌, refl, arith, inl, inr, Option-cases, ap, sym, ◌∙◌,
  ◌⊎◌, ◌≢◌,
}
use sme_data_center.Auth.Schema.{
  Audit, AuthSession, AccessToken, LoginIdentity, Employee, Db, Result, ok, or_missing, ◌>>=◌,
  is_active,
}
use sme_data_center.Auth.Schema.Creation.{bind-eq-ok, or_missing-eq-ok, ok-injective}
use sme_data_center.Auth.Sessions.{
  Authenticated, authenticated, authenticate_found, authenticate_access_token, find_token,
  find_session, find_identity, find_employee, touch_token,
}

-- A token that is known, not revoked and not past its time, of a session that is active and not
-- past its absolute lifetime.
pub record IsAccepted (hash now : ℕ) (db : Db) (a : Authenticated) : Type 0 where
  pub token : AccessToken
  pub session : AuthSession
  pub identity : LoginIdentity
  pub owner : Employee
  pub found : find_token hash db ≡ some token
  pub of_session : find_session token.session_id db ≡ some session
  pub of_identity : find_identity token.identity_id db ≡ some identity
  pub of_employee : find_employee token.employee_id db ≡ some owner
  pub unrevoked : token.revoked_at ≡ none
  pub unexpired : now < token.expires_at
  pub is_alive : is_active session.status ≡ true
  pub lasting : now < session.absolute_expires_at
  pub account : a ≡ authenticated token identity owner

abbrev Accepts : ℕ → AccessToken → AuthSession → LoginIdentity → Employee → Authenticated → Type 0
Accepts now t s i e a =
    (t.revoked_at ≡ none)
    × (now < t.expires_at)
    × (is_active s.status ≡ true)
    × (now < s.absolute_expires_at)
    × (a ≡ authenticated t i e)

found-Accepts :
    (now : ℕ) (audit : Option Audit) (t : AccessToken) (s : AuthSession) (i : LoginIdentity)
    (e : Employee) (db later : Db) (a : Authenticated)
    → authenticate_found now audit t s i e db ≡ (some a, later)
    → Accepts now t s i e a
unfolding authenticate_found
found-Accepts now audit t s i e db later a h =
    (ground arith, ground arith, ground arith, ground arith, ground arith)

found_accepted :
    (now : ℕ) (audit : Option Audit) (t : AccessToken) (s : AuthSession) (i : LoginIdentity)
    (e : Employee) (db : Db) (a : Authenticated)
    → Accepts now t s i e a
    → authenticate_found now audit t s i e db ≡ (some a, touch_token t.id now db)
unfolding authenticate_found
found_accepted now audit t s i e db a (p, q, r, l, same) = rw same (ground arith)

rows-IsAccepted :
    (hash now : ℕ) (audit : Option Audit) (db later : Db) (a : Authenticated) (t : AccessToken)
    → find_token hash db ≡ some t
    → (do
      s ← or_missing (find_session t.session_id db)
      i ← or_missing (find_identity t.identity_id db)
      e ← or_missing (find_employee t.employee_id db)
      ok (authenticate_found now audit t s i e db))
      ≡ ok (some a, later)
    → IsAccepted hash now db a
rows-IsAccepted hash now audit db later a t found h =
    let (s, es, h1) = bind-eq-ok (or_missing (find_session t.session_id db)) _ _ h in
    let (i, ei, h2) = bind-eq-ok (or_missing (find_identity t.identity_id db)) _ _ h1 in
    let (e, ee, h3) = bind-eq-ok (or_missing (find_employee t.employee_id db)) _ _ h2 in
    let (p, q, r, l, same) = found-Accepts now audit t s i e db later a (ok-injective _ _ h3) in
    record {
      token = t;
      session = s;
      identity = i;
      owner = e;
      found = found;
      of_session = or_missing-eq-ok _ s es;
      of_identity = or_missing-eq-ok _ i ei;
      of_employee = or_missing-eq-ok _ e ee;
      unrevoked = p;
      unexpired = q;
      is_alive = r;
      lasting = l;
      account = same;
    }

no_token :
    (hash now : ℕ) (audit : Option Audit) (db : Db)
    → find_token hash db ≡ none
    → authenticate_access_token hash now audit db ≡ ok (none, db)
unfolding authenticate_access_token
no_token hash now audit db missing = rw (missing, authenticate_access_token) refl

found_token :
    (hash now : ℕ) (audit : Option Audit) (db : Db) (t : AccessToken)
    → find_token hash db ≡ some t
    → authenticate_access_token hash now audit db ≡ (do
      s ← or_missing (find_session t.session_id db)
      i ← or_missing (find_identity t.identity_id db)
      e ← or_missing (find_employee t.employee_id db)
      ok (authenticate_found now audit t s i e db))
unfolding authenticate_access_token
found_token hash now audit db t found = rw (found, authenticate_access_token) refl

ne-some :
    (db later : Db) (a : Authenticated)
    → ◌≢◌ {A = Result (Option Authenticated × Db)} (ok (none, db)) (ok (some a, later))
ne-some db later a e = cc

to_accepted :
    (hash now : ℕ) (audit : Option Audit) (db later : Db) (a : Authenticated)
    → authenticate_access_token hash now audit db ≡ ok (some a, later)
    → IsAccepted hash now db a
to_accepted hash now audit db later a h = by_cases (Option-cases (find_token hash db))
  where
    by_cases :
        (find_token hash db ≡ none) ⊎ ((t : AccessToken) × (find_token hash db ≡ some t))
        → IsAccepted hash now db a
    by_cases (inl missing) =
        absurd (ne-some db later a (sym (no_token hash now audit db missing) ∙ h))
    by_cases (inr (t, found)) =
        rows-IsAccepted hash now audit db later a t found
          (sym (found_token hash now audit db t found) ∙ h)

of_accepted :
    (hash now : ℕ) (audit : Option Audit) (db : Db) (a : Authenticated)
    → (c : IsAccepted hash now db a)
    → authenticate_access_token hash now audit db ≡ ok (some a, touch_token c.token.id now db)
unfolding authenticate_access_token
of_accepted hash now audit db a c =
    rw (c.found, authenticate_access_token, c.of_session, c.of_identity, c.of_employee)
      (ap ok (
        found_accepted now audit c.token c.session c.identity c.owner db a
          (c.unrevoked, c.unexpired, c.is_alive, c.lasting, c.account)))

-- An access token authenticates, as an account, exactly if it is known, unrevoked and unexpired, its
-- session is active and within its absolute lifetime, and the rows it refers to are there; the
-- account is the token's, with the present state of its identity and employee.
pub authenticate_iff :
    (hash now : ℕ) (audit : Option Audit) (db : Db) (a : Authenticated)
    → ((later : Db) × (authenticate_access_token hash now audit db ≡ ok (some a, later)))
      ↔ IsAccepted hash now db a
authenticate_iff hash now audit db a = (
  λ (later, h). to_accepted hash now audit db later a h,
  λ c. (touch_token c.token.id now db, of_accepted hash now audit db a c),
)
