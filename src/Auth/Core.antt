-- ===== src/Auth/Core.antt =====
-- AuthCore of apps/api/src/auth/auth-core.ts on the repository, with the lifetimes of primitives.ts.
-- SHA-256 is a library's: `hash` is `hashOpaqueSecret`. The secrets that `generateOpaqueSecret` draws
-- are arguments, and so is the time that the clock shows.
pub mod Lifetimes
mod Tests
use sme_data_center.Common.{
  ℕ, ◌+◌, ◌-◌, ◌*◌, Bool, true, false, ◌||◌, if◌then◌else◌, Option, none, some,
}
use sme_data_center.Auth.Schema.{
  Purpose, DeviceStatus, Role, Reason, logged_out, given, invalid_or_expired_credential,
  renewal_failed, failed, Audit, AuthSession, Db, Result, ok, err, ◌>>=◌, log,
  prune_security_events,
}
use sme_data_center.Auth.Sessions.{
  create_session_bundle, Rotation, rotated, replayed, invalid, rotate_durable_credential,
  Authenticated, authenticate_access_token, revoke_by_credential, revoke_identity_sessions,
}
use sme_data_center.Auth.Login.{anonymous_event}
use sme_data_center.Auth.Devices.{
  create_device_authorization, find_device_by_user_code, complete_device_authorization, Redemption,
  redeem_device_authorization,
}
use sme_data_center.Auth.Setup.{
  replace_password_setup_grant, exchange_password_setup_grant, SetupAccount,
  find_password_setup_account,
}

-- `AUTH_LIFETIMES_MS`.
abbrev pub access_token_ms : ℕ
access_token_ms = 10 * 60000

abbrev pub device_authorization_ms : ℕ
device_authorization_ms = 10 * 60000

abbrev pub password_setup_session_ms : ℕ
password_setup_session_ms = 10 * 60000

abbrev pub password_setup_grant_ms : ℕ
password_setup_grant_ms = 24 * 60 * 60000

abbrev pub durable_session_ms : ℕ
durable_session_ms = 30 * 24 * 60 * 60000

abbrev pub security_event_retention_ms : ℕ
security_event_retention_ms = 90 * 24 * 60 * 60000

-- The ids that the database generates for a session and its rows.
pub record NewIds : Type 0 where
  pub session_id : ℕ
  pub credential_id : ℕ
  pub token_id : ℕ

pub record Account : Type 0 where
  pub identity_id : ℕ
  pub employee_id : ℕ
  pub org_id : ℕ

pub record IssuedSession : Type 0 where
  pub session_id : ℕ
  pub durable_credential : ℕ
  pub access_token : ℕ
  pub absolute_expires_at : ℕ
  pub access_token_expires_at : ℕ

pub data Renewal : Type 0 where
  renewed : ℕ → ℕ → ℕ → Renewal
  renewal_invalid renewal_replayed : Renewal

-- What a request is authenticated as; `disabled` is false of each.
pub record Caller : Type 0 where
  pub id : ℕ
  pub org_id : ℕ
  pub organization_name : ℕ
  pub display_name : ℕ
  pub email : ℕ
  pub role : Role
  pub clearance : ℕ

-- What a rotation answers to the client; one that is invalid writes an event of its own.
pub answer_rotation : ℕ → ℕ → Option Audit → ℕ → Rotation → Db → Renewal × Db
answer_rotation credential access_token audit now (rotated s) db =
    (renewed credential access_token (now + access_token_ms), db)
answer_rotation credential access_token audit now (replayed id) db = (renewal_replayed, db)
answer_rotation credential access_token audit now invalid db = (
  renewal_invalid,
  log (anonymous_event renewal_failed failed invalid_or_expired_credential audit now) db,
)

-- An account that is disabled is not authenticated.
pub caller_of : Option Authenticated → Option Caller
caller_of none = none
caller_of (some r) =
    if r.identity_disabled || r.employee_disabled
    then none
    else some (record {
      id = r.employee_id;
      org_id = r.org_id;
      organization_name = r.organization_name;
      display_name = r.display_name;
      email = r.email;
      role = r.role;
      clearance = r.clearance;
    })

module _ (hash : ℕ → ℕ) where
  pub issue_password_setup_grant : ℕ → Purpose → ℕ → ℕ → ℕ → Db → Result ((ℕ × ℕ) × Db)
  issue_password_setup_grant identity_id purpose secret new_id now db = do
    (id, later) ←
        replace_password_setup_grant
          (record {
            identity_id = identity_id;
            purpose = purpose;
            token_hash = hash secret;
            expires_at = now + password_setup_grant_ms;
            now = now;
            new_grant_id = new_id;
          })
          db
    ok ((id, now + password_setup_grant_ms), later)

  pub exchange_grant : ℕ → ℕ → ℕ → Option Audit → ℕ → Db → Result (Option (ℕ × Purpose) × Db)
  exchange_grant grant_secret session_secret new_id audit now db =
      exchange_password_setup_grant
        (record {
          grant_token_hash = hash grant_secret;
          session_hash = hash session_secret;
          expires_at = now + password_setup_session_ms;
          now = now;
          audit = audit;
          new_setup_session_id = new_id;
        })
        db

  pub find_setup_account : ℕ → ℕ → Db → Result (Option SetupAccount)
  find_setup_account session_secret now db =
      find_password_setup_account (hash session_secret) now db

  pub issue_device_authorization : ℕ → ℕ → ℕ → ℕ → ℕ → ℕ → Option Audit → ℕ → Db → Result (ℕ × Db)
  issue_device_authorization client_id instance_name instance_hostname device_code user_code new_id
        audit now db =
      do
        later ←
            create_device_authorization
              (record {
                device_code_hash = hash device_code;
                user_code_hash = hash user_code;
                client_id = client_id;
                instance_name = instance_name;
                instance_hostname = instance_hostname;
                expires_at = now + device_authorization_ms;
                now = now;
                audit = audit;
                new_device_id = new_id;
              })
              db
        ok (now + device_authorization_ms, later)

  pub find_device : ℕ → ℕ → Db → Option (DeviceStatus × ℕ × ℕ)
  find_device user_code now db = find_device_by_user_code (hash user_code) now db

  pub complete_device : ℕ → Account → Option Audit → ℕ → Db → Result (Bool × Db)
  complete_device user_code account audit now db =
      complete_device_authorization
        (record {
          user_code_hash = hash user_code;
          identity_id = account.identity_id;
          employee_id = account.employee_id;
          org_id = account.org_id;
          now = now;
          audit = audit;
        })
        db

  pub redeem_device : ℕ → ℕ → Option Audit → ℕ → Db → Redemption × Db
  redeem_device device_code client_id audit now db =
      redeem_device_authorization
        (record {
          device_code_hash = hash device_code;
          client_id = client_id;
          now = now;
          audit = audit;
        })
        db

  -- `createSession`.
  pub open_session : Account → ℕ → ℕ → NewIds → Option Audit → ℕ → Db → Result (IssuedSession × Db)
  open_session account credential access_token ids audit now db = do
    (id, later) ←
        create_session_bundle
          (record {
            identity_id = account.identity_id;
            employee_id = account.employee_id;
            org_id = account.org_id;
            credential_hash = hash credential;
            access_token_hash = hash access_token;
            absolute_expires_at = now + durable_session_ms;
            access_token_expires_at = now + access_token_ms;
            now = now;
            audit = audit;
            new_session_id = ids.session_id;
            new_credential_id = ids.credential_id;
            new_token_id = ids.token_id;
          })
          db
    ok (
      record {
        session_id = id;
        durable_credential = credential;
        access_token = access_token;
        absolute_expires_at = now + durable_session_ms;
        access_token_expires_at = now + access_token_ms;
      },
      later,
    )

  pub renew : ℕ → ℕ → ℕ → NewIds → Option Audit → ℕ → Db → Result (Renewal × Db)
  renew presented credential access_token ids audit now db = do
    (result, later) ←
        rotate_durable_credential
          (record {
            presented_credential_hash = hash presented;
            replacement_credential_hash = hash credential;
            access_token_hash = hash access_token;
            access_token_expires_at = now + access_token_ms;
            now = now;
            audit = audit;
            new_credential_id = ids.credential_id;
            new_token_id = ids.token_id;
          })
          db
    ok (answer_rotation credential access_token audit now result later)

  pub authenticate : ℕ → Option Audit → ℕ → Db → Result (Option Caller × Db)
  authenticate access_token audit now db = do
    (found, later) ← authenticate_access_token (hash access_token) now audit db
    ok (caller_of found, later)

  pub log_out : ℕ → Option Audit → ℕ → Db → Result (Bool × Db)
  log_out credential audit now db = revoke_by_credential (hash credential) logged_out now audit db

pub revoke_identity : ℕ → ℕ → ℕ → Db → ℕ × Db
revoke_identity identity_id reason now db =
    revoke_identity_sessions identity_id (given reason) now db

-- Where the subtraction stops at 0, no event is older, nor is one older than a time before 1970.
pub prune : ℕ → Db → ℕ × Db
prune now db = prune_security_events (now - security_event_retention_ms) db
