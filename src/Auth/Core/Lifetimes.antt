-- ===== src/Auth/Core/Lifetimes.antt =====
-- How long what AuthCore issues is good for.
use sme_data_center.Common.{
  ℕ, ◌+◌, ◌<◌, true, false, Option, none, some, ◌≡◌, ◌↔◌, refl, arith, ap, ◌∙◌, sym, subst,
}
use sme_data_center.Auth.Schema.{Audit, LoginIdentity, Employee, Db, ok}
use sme_data_center.Auth.Schema.Creation.{bind-eq-ok, ok-injective}
use sme_data_center.Auth.Sessions.{
  SessionInput, new_session, new_token, create_session_bundle, Authenticated, authenticated,
  authenticate_access_token, is_usable, find_token, find_identity, find_employee, find_session,
}
use sme_data_center.Auth.Sessions.Opened.{IsOpened, bundle-IsOpened}
use sme_data_center.Auth.Sessions.Accepted.{IsAccepted, authenticate_iff}
use sme_data_center.Auth.Core.{
  Account, NewIds, IssuedSession, Caller, caller_of, open_session, authenticate, access_token_ms,
  durable_session_ms,
}

abbrev pub session_input : (ℕ → ℕ) → Account → ℕ → ℕ → NewIds → Option Audit → ℕ → SessionInput
session_input hash account credential access_token ids audit now = record {
  identity_id = account.identity_id;
  employee_id = account.employee_id;
  org_id = account.org_id;
  credential_hash = hash credential;
  access_token_hash = hash access_token;
  absolute_expires_at = now + durable_session_ms;
  access_token_expires_at = now + access_token_ms;
  now = now;
  audit = audit;
  new_session_id = ids.session_id;
  new_credential_id = ids.credential_id;
  new_token_id = ids.token_id;
}

opened :
    (hash : ℕ → ℕ) (account : Account) (credential access_token : ℕ) (ids : NewIds)
    (audit : Option Audit) (now : ℕ) (db later : Db) (issued : IssuedSession)
    → open_session hash account credential access_token ids audit now db ≡ ok (issued, later)
    → IsOpened (session_input hash account credential access_token ids audit now) db later
unfolding open_session
opened hash account credential access_token ids audit now db later issued h =
    let input = session_input hash account credential access_token ids audit now in
    let ((id, after), e, r) = bind-eq-ok (create_session_bundle input db) _ _ h in
    subst (IsOpened input db) (ap (λ (r : IssuedSession × Db). r.1) (ok-injective _ _ r))
      (bundle-IsOpened input db after id e)

-- A token is accepted only before its end.
accepted_before :
    (hash now : ℕ) (db : Db) (a : Authenticated) (input : SessionInput)
    → find_token hash db
      ≡ some (
          new_token input.new_token_id input.access_token_hash input.access_token_expires_at
            (new_session input))
    → IsAccepted hash now db a
    → now < input.access_token_expires_at
accepted_before hash now db a input found c = ground (arith, sym found ∙ c.found, c.unexpired)

-- An identity and an employee that are usable are enabled, and the identity is the employee's.
usable_parts :
    (employee_id org_id : ℕ) (i : LoginIdentity) (e : Employee)
    → is_usable employee_id org_id i e ≡ true
    → (i.employee_id ≡ employee_id) × (i.disabled ≡ false) × (e.disabled ≡ false)
unfolding sme_data_center.Auth.Sessions.is_usable
usable_parts employee_id org_id i e h = (ground arith, ground arith, ground arith)

IsAccepted-while :
    (input : SessionInput) (db later : Db) (t : ℕ)
    → (o : IsOpened input db later) → t < input.access_token_expires_at
    → t < input.absolute_expires_at
    → IsAccepted input.access_token_hash t later (
        authenticated
          (new_token input.new_token_id input.access_token_hash input.access_token_expires_at
            (new_session input))
          o.identity
          o.owner)
IsAccepted-while input db later t o early within =
    let (same, _, _) = usable_parts input.employee_id input.org_id o.identity o.owner o.usable in
    record {
      token =
          new_token input.new_token_id input.access_token_hash input.access_token_expires_at
            (new_session input);
      session = new_session input;
      identity = o.identity;
      owner = o.owner;
      found = o.of_token;
      of_session = o.of_session;
      of_identity = o.of_identity;
      of_employee = subst (λ k. find_employee k later ≡ some o.owner) same o.of_employee;
      unrevoked = refl;
      unexpired = early;
      is_alive = refl;
      lasting = within;
      account = refl;
    }

enabled_caller :
    (r : Authenticated)
    → r.identity_disabled ≡ false
    → r.employee_disabled ≡ false
    → (c : Caller) × (caller_of (some r) ≡ some c) × (c.id ≡ r.employee_id) × (c.org_id ≡ r.org_id)
unfolding caller_of
enabled_caller r p q = (
  record {
    id = r.employee_id;
    org_id = r.org_id;
    organization_name = r.organization_name;
    display_name = r.display_name;
    email = r.email;
    role = r.role;
    clearance = r.clearance;
  },
  ground arith,
  refl,
  refl,
)

caller_found :
    (o : Option Authenticated) (c : Caller)
    → caller_of o ≡ some c
    → (a : Authenticated) × (o ≡ some a)
unfolding caller_of
caller_found none c e = cc
caller_found (some a) c e = (a, refl)

authenticated_at :
    (hash : ℕ → ℕ) (access_token t : ℕ) (about : Option Audit) (db last : Db) (a : Authenticated)
    → authenticate_access_token (hash access_token) t about db ≡ ok (some a, last)
    → authenticate hash access_token about t db ≡ ok (caller_of (some a), last)
unfolding authenticate
authenticated_at hash access_token t about db last a e = rw (e, authenticate) refl

authenticated_from :
    (hash : ℕ → ℕ) (access_token t : ℕ) (about : Option Audit) (db last : Db) (c : Caller)
    → authenticate hash access_token about t db ≡ ok (some c, last)
    → (a : Authenticated) × (later : Db) × (authenticate_access_token (hash access_token) t about db
        ≡ ok (some a, later))
unfolding authenticate
authenticated_from hash access_token t about db last c h =
    let ((o, later), e, r) =
      bind-eq-ok (authenticate_access_token (hash access_token) t about db) _ _ h in
    let (a, same) = caller_found o c (ap (λ (r : Option Caller × Db). r.0) (ok-injective _ _ r)) in
    (a, later, e ∙ ap (λ (o : Option Authenticated). ok (o, later)) same)

-- The access token of a session that AuthCore has just opened authenticates exactly for the ten
-- minutes of its lifetime, and then as the employee and in the organization that the session was
-- opened for.
pub open_session-authenticate :
    (hash : ℕ → ℕ) (account : Account) (credential access_token : ℕ) (ids : NewIds)
    (audit : Option Audit) (now : ℕ) (db later : Db) (issued : IssuedSession)
    → open_session hash account credential access_token ids audit now db ≡ ok (issued, later)
    → (t : ℕ) (about : Option Audit)
    → ((c : Caller) × (last : Db) × (authenticate hash access_token about t later
          ≡ ok (some c, last))
        × (c.id ≡ account.employee_id)
        × (c.org_id ≡ account.org_id))
      ↔ (t < now + 600000)
open_session-authenticate hash account credential access_token ids audit now db later issued h t
      about =
    (to, from)
  where
    input : SessionInput
    input = session_input hash account credential access_token ids audit now

    o : IsOpened input db later
    o = opened hash account credential access_token ids audit now db later issued h

    to :
        (c : Caller) × (last : Db) × (authenticate hash access_token about t later
            ≡ ok (some c, last))
          × (c.id ≡ account.employee_id)
          × (c.org_id ≡ account.org_id)
        → t < now + 600000
    to (c, last, e, _, _) =
        let (a, after, e') = authenticated_from hash access_token t about later last c e in
        accepted_before (hash access_token) t later a input o.of_token
          ((authenticate_iff (hash access_token) t about later a).0 (after, e'))

    from :
        t < now + 600000
        → (c : Caller) × (last : Db) × (authenticate hash access_token about t later
            ≡ ok (some c, last))
          × (c.id ≡ account.employee_id)
          × (c.org_id ≡ account.org_id)
    from early =
        let (_, p, q) = usable_parts input.employee_id input.org_id o.identity o.owner o.usable in
        let accepted = IsAccepted-while input db later t o early (omega arith) in
        let (last, e) = (authenticate_iff (hash access_token) t about later _).1 accepted in
        let (c, same, i, g) = enabled_caller _ p q in
        (
          c,
          last,
          authenticated_at hash access_token t about later last _ e
              ∙ ap (λ (o : Option Caller). ok (o, last)) same,
          i,
          g,
        )
