-- ===== src/Auth/Sessions/Rotating.antt =====
-- The rotation of a durable credential.
use sme_data_center.Common.{
  ℕ, ◌+◌, Bool, not, ◌&&◌, if◌then◌else◌, Option, none, some, ◌==◌, leb, update_many, count,
}
use sme_data_center.Auth.Schema.{
  Reason, credential_replay, session_expired, consumed_generation_reused,
  concurrent_generation_reuse, absolute_lifetime_elapsed, AuthSession, consumed, DurableCredential,
  Audit, succeeded, refused, session_revoked, session_expired_event, credential_replay_detected, Db,
  Result, ok, ◌>>=◌, or_missing, is_active, is_current, log, create_credential, create_token,
}
use sme_data_center.Auth.Sessions.Rows.{
  revoke_session_family, session_event, find_session, find_credential,
}
use sme_data_center.Auth.Sessions.Bundles.{new_credential, new_token}

pub record RotateInput : Type 0 where
  pub presented_credential_hash : ℕ
  pub replacement_credential_hash : ℕ
  pub access_token_hash : ℕ
  pub access_token_expires_at : ℕ
  pub now : ℕ
  pub audit : Option Audit
  pub new_credential_id : ℕ
  pub new_token_id : ℕ

pub data Rotation : Type 0 where
  rotated : AuthSession → Rotation
  replayed : ℕ → Rotation
  invalid : Rotation

-- A reused credential ends its session, with two events.
unfoldable pub detect_replay : Reason → RotateInput → AuthSession → Db → Db
detect_replay reason input s db =
    log (session_event session_revoked succeeded (some credential_replay) s input.audit input.now) (
      log (session_event credential_replay_detected refused (some reason) s input.audit input.now)
        (revoke_session_family s.id credential_replay input.now db))

-- A session past its absolute lifetime ends.
unfoldable pub expire_session : AuthSession → Option Audit → ℕ → Db → Db
expire_session s audit now db =
    log (session_event session_expired_event refused (some absolute_lifetime_elapsed) s audit now)
      (revoke_session_family s.id session_expired now db)

abbrev pub is_current_credential : ℕ → DurableCredential → Bool
is_current_credential id c = c.id == id && is_current c.status

abbrev pub mark_consumed : ℕ → DurableCredential → DurableCredential
mark_consumed now c = record c { status = consumed; consumed_at = some now }

-- The presented credential is consumed, if it is still current.
unfoldable pub consume_credential : ℕ → ℕ → Db → Db
consume_credential id now db = record db {
  credentials = update_many (is_current_credential id) (mark_consumed now) db.credentials;
}

unfoldable pub issue_generation :
    RotateInput → DurableCredential → AuthSession → Db → Result (Rotation × Db)
issue_generation input c s db = do
  with_credential ←
      create_credential
        (new_credential input.new_credential_id s.id input.replacement_credential_hash
          (c.generation + 1))
        db
  with_token ←
      create_token
        (new_token input.new_token_id input.access_token_hash input.access_token_expires_at s)
        with_credential
  ok (rotated s, with_token)

-- `rotateDurableCredential` once it has read the credential and its session.
unfoldable pub rotate_found :
    RotateInput → DurableCredential → AuthSession → Db → Result (Rotation × Db)
rotate_found input c s db =
    if not (is_current c.status)
    then ok (replayed s.id, detect_replay consumed_generation_reused input s db)
    else if not (is_active s.status)
    then ok (invalid, db)
    else if leb s.absolute_expires_at input.now
    then ok (invalid, expire_session s input.audit input.now db)
    else if not (count (is_current_credential c.id) db.credentials == 1)
    then ok (
      replayed s.id,
      detect_replay concurrent_generation_reuse input s (consume_credential c.id input.now db),
    )
    else issue_generation input c s (consume_credential c.id input.now db)

unfoldable pub rotate_durable_credential : RotateInput → Db → Result (Rotation × Db)
rotate_durable_credential input db = elim (find_credential input.presented_credential_hash db) [
  | none ↦ ok (invalid, db)
  | some c ↦ do s ← or_missing (find_session c.session_id db); rotate_found input c s db
]
