-- ===== src/Auth/Schema/Tables.antt =====
-- The rows of the tables that apps/api/src/auth reads and writes (packages/db/prisma/schema.prisma).
use sme_data_center.Common.{ℕ, Bool, Option, List}

pub data Role : Type 0 where
  admin employee : Role

pub record Employee : Type 0 where
  pub id : ℕ
  pub org_id : ℕ
  pub organization_name : ℕ
  pub display_name : ℕ
  pub email : ℕ
  pub role : Role
  pub clearance : ℕ
  pub disabled : Bool

pub record LoginIdentity : Type 0 where
  pub id : ℕ
  pub org_id : ℕ
  pub employee_id : ℕ
  pub normalized_email : ℕ
  pub password_hash : Option ℕ
  pub disabled : Bool
  pub failed_attempt_count : ℕ
  pub cooldown_level : ℕ
  pub cooldown_until : Option ℕ

pub data Purpose : Type 0 where
  initial_setup password_reset : Purpose

pub record SetupGrant : Type 0 where
  pub id : ℕ
  pub identity_id : ℕ
  pub purpose : Purpose
  pub token_hash : ℕ
  pub expires_at : ℕ
  pub used_at : Option ℕ
  pub revoked_at : Option ℕ

pub record SetupSession : Type 0 where
  pub id : ℕ
  pub identity_id : ℕ
  pub grant_id : ℕ
  pub session_hash : ℕ
  pub expires_at : ℕ
  pub consumed_at : Option ℕ
  pub revoked_at : Option ℕ

pub record BrowserSession : Type 0 where
  pub id : ℕ
  pub identity_id : ℕ
  pub employee_id : ℕ
  pub org_id : ℕ
  pub secret_hash : ℕ
  pub credential_fingerprint : ℕ
  pub expires_at : ℕ
  pub revoked_at : Option ℕ

-- Why a row was revoked or an event written; `given` is a caller's own text.
pub data Reason : Type 0 where
  credential_replay session_expired password_reset_done logged_out reset : Reason
  consumed_generation_reused concurrent_generation_reuse absolute_lifetime_elapsed : Reason
  invalid_credentials cooldown_active identity_or_employee_disabled : Reason
  progressive_cooldown pending_expired invalid_or_expired_credential : Reason
  browser_sign_in browser_logout : Reason
  for_purpose : Purpose → Reason
  superseded on_instance : ℕ → ℕ → Reason
  given : ℕ → Reason

pub data SessionStatus : Type 0 where
  active revoked expired : SessionStatus

pub record AuthSession : Type 0 where
  pub id : ℕ
  pub identity_id : ℕ
  pub employee_id : ℕ
  pub org_id : ℕ
  pub status : SessionStatus
  pub absolute_expires_at : ℕ
  pub revoked_at : Option ℕ
  pub revocation_reason : Option Reason

pub data CredentialStatus : Type 0 where
  current consumed withdrawn : CredentialStatus

-- The statuses "active", "consumed" and "revoked" of a credential are `current`, `consumed` and
-- `withdrawn`.
pub record DurableCredential : Type 0 where
  pub id : ℕ
  pub session_id : ℕ
  pub credential_hash : ℕ
  pub generation : ℕ
  pub status : CredentialStatus
  pub consumed_at : Option ℕ
  pub revoked_at : Option ℕ

pub record AccessToken : Type 0 where
  pub id : ℕ
  pub session_id : ℕ
  pub identity_id : ℕ
  pub employee_id : ℕ
  pub org_id : ℕ
  pub token_hash : ℕ
  pub expires_at : ℕ
  pub revoked_at : Option ℕ
  pub last_used_at : Option ℕ

pub data DeviceStatus : Type 0 where
  pending completed lapsed cancelled : DeviceStatus

-- The statuses "expired" and "revoked" of a device authorization are `lapsed` and `cancelled`.
pub record DeviceAuthorization : Type 0 where
  pub id : ℕ
  pub client_id : ℕ
  pub device_code_hash : ℕ
  pub user_code_hash : ℕ
  pub status : DeviceStatus
  pub instance_name : ℕ
  pub instance_hostname : ℕ
  pub identity_id : Option ℕ
  pub employee_id : Option ℕ
  pub org_id : Option ℕ
  pub expires_at : ℕ
  pub completed_at : Option ℕ
  pub redeemed_at : Option ℕ
  pub revoked_at : Option ℕ

pub data EventType : Type 0 where
  setup_grant_issued setup_grant_consumed password_setup_completed : EventType
  password_login_succeeded password_login_failed password_cooldown_entered : EventType
  device_authorization_issued device_authorization_completed : EventType
  device_authorization_expired device_authorization_revoked : EventType
  session_created session_revoked session_expired_event credential_replay_detected : EventType
  renewal_failed logout : EventType

-- The outcome "denied" is `refused`.
pub data EventOutcome : Type 0 where
  succeeded failed refused : EventOutcome

pub record Audit : Type 0 where
  pub request_id : ℕ
  pub source_ip : ℕ
  pub launcher_version : Option ℕ

pub record SecurityEvent : Type 0 where
  pub event_type : EventType
  pub outcome : EventOutcome
  pub reason : Option Reason
  pub org_id : Option ℕ
  pub identity_id : Option ℕ
  pub employee_id : Option ℕ
  pub session_id : Option ℕ
  pub audit : Option Audit
  pub created_at : ℕ

pub record Db : Type 0 where
  pub employees : List Employee
  pub identities : List LoginIdentity
  pub grants : List SetupGrant
  pub setup_sessions : List SetupSession
  pub browser_sessions : List BrowserSession
  pub sessions : List AuthSession
  pub credentials : List DurableCredential
  pub tokens : List AccessToken
  pub devices : List DeviceAuthorization
  pub events : List SecurityEvent
