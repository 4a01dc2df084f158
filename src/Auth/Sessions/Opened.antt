-- ===== src/Auth/Sessions/Opened.antt =====
-- What is found once a session is opened.
use sme_data_center.Common.{
  ℕ, Bool, true, false, some, List, ◌∷◌, ◌==◌, ◌≡◌, refl, ◌∙◌, ap, find, if◌then◌else◌, ==_refl,
  Option-cases, inl, inr, sym,
}
use sme_data_center.Auth.Schema.{
  AuthSession, AccessToken, LoginIdentity, Employee, Db, Result, ok, err, identity_not_active,
  or_missing, create_session, create_credential, create_token,
}
use sme_data_center.Auth.Schema.Creation.{
  bind-eq-ok, ok-injective, or_missing-eq-ok, create_session-eq-ok, create_credential-eq-ok,
  create_token-eq-ok,
}
use sme_data_center.Auth.Sessions.{
  SessionInput, new_session, new_credential, new_token, usable_identity, is_usable,
  store_session_bundle, create_session_bundle, find_identity, find_employee, find_session,
  find_token,
}

abbrev issued_token : SessionInput → AccessToken
issued_token input =
    new_token input.new_token_id input.access_token_hash input.access_token_expires_at
      (new_session input)

-- The tables after the creation.
pub record IsOpened (input : SessionInput) (db later : Db) : Type 0 where
  pub identity : LoginIdentity
  pub owner : Employee
  pub of_identity : find_identity input.identity_id later ≡ some identity
  pub of_employee : find_employee identity.employee_id later ≡ some owner
  pub usable : is_usable input.employee_id input.org_id identity owner ≡ true
  pub of_token :
      find_token input.access_token_hash later
      ≡ some (
          new_token input.new_token_id input.access_token_hash input.access_token_expires_at
            (new_session input))
  pub of_session : find_session input.new_session_id later ≡ some (new_session input)

abbrev Stored : SessionInput → Db → Db → Type 0
Stored input db later =
    (later.identities ≡ db.identities)
    × (later.employees ≡ db.employees)
    × (later.tokens ≡ issued_token input ∷ db.tokens)
    × (later.sessions ≡ new_session input ∷ db.sessions)

stored :
    (input : SessionInput) (db later : Db) (id : ℕ)
    → store_session_bundle input db ≡ ok (id, later)
    → Stored input db later
unfolding store_session_bundle
stored input db later id e =
    let s = new_session input in
    let c = new_credential input.new_credential_id s.id input.credential_hash 1 in
    let (db1, e1, r1) = bind-eq-ok (create_session s db) _ _ e in
    let (db2, e2, r2) = bind-eq-ok (create_credential c db1) _ _ r1 in
    let (db3, e3, r3) = bind-eq-ok (create_token (issued_token input) db2) _ _ r2 in
    let (_, same1) = create_session-eq-ok s db e1 in
    let (_, same2) = create_credential-eq-ok c db1 e2 in
    let (_, same3) = create_token-eq-ok (issued_token input) db2 e3 in
    let last = ap (λ (r : ℕ × Db). r.1) (ok-injective _ _ r3) in
    rw (sym last, same3, same2, same1) (refl, refl, refl, refl)

found_identity :
    (input : SessionInput) (db : Db)
    → usable_identity input.identity_id input.employee_id input.org_id db ≡ ok true
    → (i : LoginIdentity) × (e : Employee) × (find_identity input.identity_id db ≡ some i)
      × (find_employee i.employee_id db ≡ some e)
      × (is_usable input.employee_id input.org_id i e ≡ true)
unfolding usable_identity
found_identity input db h = elim (Option-cases (find_identity input.identity_id db)) [
  | inl missing ↦ cc (rw (missing, usable_identity) at h)
  | inr (i, found) ↦
      let (e, ee, u) =
        bind-eq-ok (or_missing (find_employee i.employee_id db)) _ _
          (rw (found, usable_identity) at h) in
      (i, e, found, or_missing-eq-ok _ e ee, ok-injective _ _ u)
]

checked :
    (usable : Bool) (r : Result (ℕ × Db)) (id : ℕ) (later : Db)
    → (if usable then r else err identity_not_active) ≡ ok (id, later)
    → (usable ≡ true) × (r ≡ ok (id, later))
checked true r id later e = (refl, e)
checked false r id later e = cc

pub bundle-IsOpened :
    (input : SessionInput) (db later : Db) (id : ℕ)
    → create_session_bundle input db ≡ ok (id, later)
    → IsOpened input db later
unfolding create_session_bundle
bundle-IsOpened input db later id h =
    let (usable, eu, r) =
      bind-eq-ok (usable_identity input.identity_id input.employee_id input.org_id db) _ _ h in
    let (enabled, done) = checked usable (store_session_bundle input db) id later r in
    let (i, e, ei, ee, u) = found_identity input db (eu ∙ ap ok enabled) in
    let (si, se, st, ss) = stored input db later id done in
    record {
      identity = i;
      owner = e;
      of_identity = ap (find _) si ∙ ei;
      of_employee = ap (find _) se ∙ ee;
      usable = u;
      of_token =
          ap (find _) st
          ∙ head (λ (t : AccessToken). t.token_hash == input.access_token_hash) (issued_token input)
              db.tokens (==_refl input.access_token_hash);
      of_session =
          ap (find _) ss
          ∙ head (λ (s : AuthSession). s.id == input.new_session_id) (new_session input) db.sessions
              (==_refl input.new_session_id);
    }
  where
    head : {A : Type 0} (p : A → Bool) (x : A) (xs : List A) → p x ≡ true → find p (x ∷ xs) ≡ some x
    head p x xs e = rw (e, if◌then◌else◌) refl
