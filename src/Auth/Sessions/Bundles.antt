-- ===== src/Auth/Sessions/Bundles.antt =====
-- A new session with its first credential and token.
use sme_data_center.Common.{ℕ, if◌then◌else◌, Option, none}
use sme_data_center.Auth.Schema.{
  active, AuthSession, current, DurableCredential, AccessToken, Audit, succeeded, session_created,
  Db, Result, ok, err, identity_not_active, ◌>>=◌, log, create_session, create_credential,
  create_token,
}
use sme_data_center.Auth.Sessions.Rows.{session_event, usable_identity}

pub record SessionInput : Type 0 where
  pub identity_id : ℕ
  pub employee_id : ℕ
  pub org_id : ℕ
  pub credential_hash : ℕ
  pub access_token_hash : ℕ
  pub absolute_expires_at : ℕ
  pub access_token_expires_at : ℕ
  pub now : ℕ
  pub audit : Option Audit
  -- The ids that the database generates.
  pub new_session_id : ℕ
  pub new_credential_id : ℕ
  pub new_token_id : ℕ

abbrev pub new_session : SessionInput → AuthSession
new_session input = record {
  id = input.new_session_id;
  identity_id = input.identity_id;
  employee_id = input.employee_id;
  org_id = input.org_id;
  status = active;
  absolute_expires_at = input.absolute_expires_at;
  revoked_at = none;
  revocation_reason = none;
}

abbrev pub new_credential : ℕ → ℕ → ℕ → ℕ → DurableCredential
new_credential id session_id hash generation = record {
  id = id;
  session_id = session_id;
  credential_hash = hash;
  generation = generation;
  status = current;
  consumed_at = none;
  revoked_at = none;
}

abbrev pub new_token : ℕ → ℕ → ℕ → AuthSession → AccessToken
new_token id hash expires_at s = record {
  id = id;
  session_id = s.id;
  identity_id = s.identity_id;
  employee_id = s.employee_id;
  org_id = s.org_id;
  token_hash = hash;
  expires_at = expires_at;
  revoked_at = none;
  last_used_at = none;
}

-- The writes of `createSessionBundle`.
unfoldable pub store_session_bundle : SessionInput → Db → Result (ℕ × Db)
store_session_bundle input db = do
  let s = new_session input
  with_session ← create_session s db
  with_credential ←
      create_credential (new_credential input.new_credential_id s.id input.credential_hash 1)
        with_session
  with_token ←
      create_token
        (new_token input.new_token_id input.access_token_hash input.access_token_expires_at s)
        with_credential
  ok (s.id, log (session_event session_created succeeded none s input.audit input.now) with_token)

unfoldable pub create_session_bundle : SessionInput → Db → Result (ℕ × Db)
create_session_bundle input db = do
  usable ← usable_identity input.identity_id input.employee_id input.org_id db
  if usable then store_session_bundle input db else err identity_not_active
