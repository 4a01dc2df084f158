-- ===== src/Auth/Schema/Writes.antt =====
-- Transactions on the tables: their result, and the creations with the unique keys of each table.
use sme_data_center.Common.{
  ℕ, Bool, true, false, ◌&&◌, ◌||◌, if◌then◌else◌, Option, none, some, ◌∷◌, ◌==◌, any, count,
  find_many, ltb, leb,
}
use sme_data_center.Auth.Schema.Tables.{
  SetupGrant, SetupSession, BrowserSession, Reason, SessionStatus, AuthSession, CredentialStatus,
  DurableCredential, AccessToken, DeviceStatus, DeviceAuthorization, SecurityEvent, Db,
  session_expired, active, current, withdrawn, pending, completed,
}

-- How a transaction fails: a unique key is taken, a row that must exist is missing, or the code
-- throws because the login identity is not active.
pub data Failure : Type 0 where
  key_taken row_missing identity_not_active : Failure

pub data Result (A : Type 0) : Type 0 where
  ok : A → Result A
  err : Failure → Result A

infixl 5 ◌>>=◌
abbrev pub ◌>>=◌ : {A B : Type 0} → Result A → (A → Result B) → Result B
ok a >>= f = f a
err e >>= f = err e

-- A row that a relation includes, or that `findUniqueOrThrow` reads.
abbrev pub or_missing : {A : Type 0} → Option A → Result A
or_missing none = err row_missing
or_missing (some a) = ok a

abbrev pub is_active : SessionStatus → Bool
is_active active = true
is_active _ = false

abbrev pub is_current : CredentialStatus → Bool
is_current current = true
is_current _ = false

abbrev pub is_withdrawn : CredentialStatus → Bool
is_withdrawn withdrawn = true
is_withdrawn _ = false

abbrev pub is_pending : DeviceStatus → Bool
is_pending pending = true
is_pending _ = false

abbrev pub is_completed : DeviceStatus → Bool
is_completed completed = true
is_completed _ = false

abbrev pub is_session_expired : Reason → Bool
is_session_expired session_expired = true
is_session_expired _ = false

-- `authSecurityEvent.create`.
abbrev pub log : SecurityEvent → Db → Db
log e db = record db { events = e ∷ db.events }

-- `pruneSecurityEvents`: the events before a time are deleted.
unfoldable pub prune_security_events : ℕ → Db → ℕ × Db
prune_security_events before db = (
  count (λ (e : SecurityEvent). ltb e.created_at before) db.events,
  record db { events = find_many (λ (e : SecurityEvent). leb before e.created_at) db.events },
)

-- The creations, with the unique keys of each table.
unfoldable pub create_session : AuthSession → Db → Result Db
create_session s db =
    if any (λ (r : AuthSession). r.id == s.id) db.sessions
    then err key_taken
    else ok (record db { sessions = s ∷ db.sessions })

unfoldable pub create_credential : DurableCredential → Db → Result Db
create_credential c db =
    if any
      (λ (r : DurableCredential).
        r.id == c.id
        || r.credential_hash == c.credential_hash
        || (r.session_id == c.session_id && r.generation == c.generation))
      db.credentials
    then err key_taken
    else ok (record db { credentials = c ∷ db.credentials })

unfoldable pub create_token : AccessToken → Db → Result Db
create_token t db =
    if any (λ (r : AccessToken). r.id == t.id || r.token_hash == t.token_hash) db.tokens
    then err key_taken
    else ok (record db { tokens = t ∷ db.tokens })

unfoldable pub create_device : DeviceAuthorization → Db → Result Db
create_device d db =
    if any
      (λ (r : DeviceAuthorization).
        r.id == d.id
        || r.device_code_hash == d.device_code_hash
        || r.user_code_hash == d.user_code_hash)
      db.devices
    then err key_taken
    else ok (record db { devices = d ∷ db.devices })

unfoldable pub create_grant : SetupGrant → Db → Result Db
create_grant g db =
    if any (λ (r : SetupGrant). r.id == g.id || r.token_hash == g.token_hash) db.grants
    then err key_taken
    else ok (record db { grants = g ∷ db.grants })

unfoldable pub create_setup_session : SetupSession → Db → Result Db
create_setup_session s db =
    if any (λ (r : SetupSession). r.id == s.id || r.session_hash == s.session_hash)
      db.setup_sessions
    then err key_taken
    else ok (record db { setup_sessions = s ∷ db.setup_sessions })

unfoldable pub create_browser_session : BrowserSession → Db → Result Db
create_browser_session s db =
    if any (λ (r : BrowserSession). r.id == s.id || r.secret_hash == s.secret_hash)
      db.browser_sessions
    then err key_taken
    else ok (record db { browser_sessions = s ∷ db.browser_sessions })
