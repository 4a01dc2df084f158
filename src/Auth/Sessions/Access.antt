-- ===== src/Auth/Sessions/Access.antt =====
-- Access tokens: their authentication, and the ends of sessions by a credential or an identity.
use sme_data_center.Common.{
  ℕ, Bool, true, false, not, ◌&&◌, ◌||◌, if◌then◌else◌, Option, none, some, List, [], ◌∷◌, ◌==◌,
  leb, find_many, update_many, is_none, is_some, length,
}
use sme_data_center.Auth.Schema.{
  Employee, LoginIdentity, BrowserSession, Reason, AuthSession, AccessToken, Role, Audit, succeeded,
  session_revoked, logout, Db, Result, ok, ◌>>=◌, or_missing, is_active, log,
}
use sme_data_center.Auth.Sessions.Rows.{
  revoke_session_family, session_event, find_identity, find_employee, find_session, find_credential,
  find_token,
}
use sme_data_center.Auth.Sessions.Rotating.{expire_session}

pub record Authenticated : Type 0 where
  pub identity_id : ℕ
  pub employee_id : ℕ
  pub org_id : ℕ
  pub organization_name : ℕ
  pub display_name : ℕ
  pub email : ℕ
  pub role : Role
  pub clearance : ℕ
  pub identity_disabled : Bool
  pub employee_disabled : Bool

abbrev pub authenticated : AccessToken → LoginIdentity → Employee → Authenticated
authenticated t i e = record {
  identity_id = t.identity_id;
  employee_id = t.employee_id;
  org_id = t.org_id;
  organization_name = e.organization_name;
  display_name = e.display_name;
  email = e.email;
  role = e.role;
  clearance = e.clearance;
  identity_disabled = i.disabled;
  employee_disabled = e.disabled;
}

abbrev pub is_unrevoked_token : ℕ → AccessToken → Bool
is_unrevoked_token id t = t.id == id && is_none t.revoked_at

abbrev pub mark_used : ℕ → AccessToken → AccessToken
mark_used now t = record t { last_used_at = some now }

unfoldable pub touch_token : ℕ → ℕ → Db → Db
touch_token id now db = record db {
  tokens = update_many (is_unrevoked_token id) (mark_used now) db.tokens;
}

-- The event carries the ids of the token, not of the session.
abbrev pub token_owner : AccessToken → AuthSession → AuthSession
token_owner t s = record s {
  identity_id = t.identity_id;
  employee_id = t.employee_id;
  org_id = t.org_id;
}

unfoldable pub authenticate_found :
    ℕ
    → Option Audit
    → AccessToken
    → AuthSession
    → LoginIdentity
    → Employee
    → Db
    → Option Authenticated × Db
authenticate_found now audit t s i e db =
    if is_some t.revoked_at || leb t.expires_at now || not (is_active s.status)
    then (none, db)
    else if leb s.absolute_expires_at now
    then (none, expire_session (token_owner t s) audit now db)
    else (some (authenticated t i e), touch_token t.id now db)

unfoldable pub authenticate_access_token :
    ℕ → ℕ → Option Audit → Db → Result (Option Authenticated × Db)
authenticate_access_token token_hash now audit db = elim (find_token token_hash db) [
  | none ↦ ok (none, db)
  | some t ↦ do
    s ← or_missing (find_session t.session_id db)
    i ← or_missing (find_identity t.identity_id db)
    e ← or_missing (find_employee t.employee_id db)
    ok (authenticate_found now audit t s i e db)
]

-- `revokeSessionByDurableCredential`.
unfoldable pub revoke_by_credential : ℕ → Reason → ℕ → Option Audit → Db → Result (Bool × Db)
revoke_by_credential credential_hash reason now audit db =
    elim (find_credential credential_hash db) [
      | none ↦ ok (false, db)
      | some c ↦ do
        s ← or_missing (find_session c.session_id db)
        ok (
          true,
          log (session_event session_revoked succeeded (some reason) s audit now) (
              log (session_event logout succeeded (some reason) s audit now)
                (revoke_session_family c.session_id reason now db)),
        )
    ]

-- The loop that ends each of an identity's active sessions, with an event for each; `owner` gives
-- the account that the event names.
unfoldable pub revoke_sessions :
    (AuthSession → AuthSession) → List AuthSession → Reason → Option Audit → ℕ → Db → Db
revoke_sessions owner [] reason audit now db = db
revoke_sessions owner (s ∷ rest) reason audit now db = revoke_sessions owner rest reason audit now (
    log (session_event session_revoked succeeded (some reason) (owner s) audit now)
      (revoke_session_family s.id reason now db))

unfoldable pub revoke_browser_sessions : ℕ → ℕ → Db → Db
revoke_browser_sessions identity_id now db = record db {
  browser_sessions =
      update_many (λ (b : BrowserSession). b.identity_id == identity_id && is_none b.revoked_at)
        (λ b. record b { revoked_at = some now }) db.browser_sessions;
}

abbrev pub active_sessions_of : ℕ → Db → List AuthSession
active_sessions_of identity_id db =
    find_many (λ (s : AuthSession). s.identity_id == identity_id && is_active s.status) db.sessions

unfoldable pub revoke_identity_sessions : ℕ → Reason → ℕ → Db → ℕ × Db
revoke_identity_sessions identity_id reason now db =
    let kept = revoke_browser_sessions identity_id now db in
    let sessions = active_sessions_of identity_id kept in
    (length sessions, revoke_sessions (λ s. s) sessions reason none now kept)
