-- ===== src/Auth/Sessions/Rows.antt =====
-- The rows of a session and its family in prisma-auth-repository.ts, and how a session ends.
use sme_data_center.Common.{
  ℕ, Bool, false, not, ◌&&◌, if◌then◌else◌, Option, none, some, ◌==◌, find, update_many, is_none,
}
use sme_data_center.Auth.Schema.{
  Employee, LoginIdentity, Reason, revoked, expired, AuthSession, withdrawn, DurableCredential,
  AccessToken, Audit, SecurityEvent, EventType, EventOutcome, Db, Result, ok, ◌>>=◌, or_missing,
  is_active, is_withdrawn, is_session_expired,
}

abbrev pub is_active_session : ℕ → AuthSession → Bool
is_active_session id s = s.id == id && is_active s.status

abbrev pub end_session : Reason → ℕ → AuthSession → AuthSession
end_session reason now s = record s {
  status = if is_session_expired reason then expired else revoked;
  revoked_at = some now;
  revocation_reason = some reason;
}

abbrev pub is_live_credential : ℕ → DurableCredential → Bool
is_live_credential session_id c = c.session_id == session_id && not (is_withdrawn c.status)

abbrev pub withdraw_credential : ℕ → DurableCredential → DurableCredential
withdraw_credential now c = record c { status = withdrawn; revoked_at = some now }

abbrev pub is_live_token : ℕ → AccessToken → Bool
is_live_token session_id t = t.session_id == session_id && is_none t.revoked_at

abbrev pub revoke_token : ℕ → AccessToken → AccessToken
revoke_token now t = record t { revoked_at = some now }

-- `revokeSessionFamily`.
unfoldable pub revoke_session_family : ℕ → Reason → ℕ → Db → Db
revoke_session_family session_id reason now db = record db {
  sessions = update_many (is_active_session session_id) (end_session reason now) db.sessions;
  credentials =
      update_many (is_live_credential session_id) (withdraw_credential now) db.credentials;
  tokens = update_many (is_live_token session_id) (revoke_token now) db.tokens;
}

-- An event about a session of an account.
abbrev pub session_event :
    EventType → EventOutcome → Option Reason → AuthSession → Option Audit → ℕ → SecurityEvent
session_event event_type outcome reason s audit now = record {
  event_type = event_type;
  outcome = outcome;
  reason = reason;
  org_id = some s.org_id;
  identity_id = some s.identity_id;
  employee_id = some s.employee_id;
  session_id = some s.id;
  audit = audit;
  created_at = now;
}

abbrev pub find_identity : ℕ → Db → Option LoginIdentity
find_identity id db = find (λ (i : LoginIdentity). i.id == id) db.identities

abbrev pub find_employee : ℕ → Db → Option Employee
find_employee id db = find (λ (e : Employee). e.id == id) db.employees

abbrev pub find_session : ℕ → Db → Option AuthSession
find_session id db = find (λ (s : AuthSession). s.id == id) db.sessions

abbrev pub find_credential : ℕ → Db → Option DurableCredential
find_credential hash db = find (λ (c : DurableCredential). c.credential_hash == hash) db.credentials

abbrev pub find_token : ℕ → Db → Option AccessToken
find_token hash db = find (λ (t : AccessToken). t.token_hash == hash) db.tokens

-- The check of `createSessionBundle` and `completeDeviceAuthorization`: the identity and its
-- employee are enabled and belong to the account that the input names.
unfoldable pub is_usable : ℕ → ℕ → LoginIdentity → Employee → Bool
is_usable employee_id org_id i e =
    not i.disabled
    && not e.disabled
    && i.employee_id == employee_id
    && i.org_id == org_id
    && e.org_id == org_id

-- The identity with its employee, if both are there and usable.
unfoldable pub usable_identity : ℕ → ℕ → ℕ → Db → Result Bool
usable_identity identity_id employee_id org_id db = elim (find_identity identity_id db) [
  | none ↦ ok false
  | some i ↦ do
    e ← or_missing (find_employee i.employee_id db)
    ok (is_usable employee_id org_id i e)
]
