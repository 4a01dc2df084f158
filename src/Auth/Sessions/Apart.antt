-- ===== src/Auth/Sessions/Apart.antt =====
-- The operations on sessions leave the device authorizations and the setup grants as they are.
use sme_data_center.Common.{ℕ, Option, List, [], ◌∷◌, ◌≡◌, refl, arith}
use sme_data_center.Auth.Schema.{
  Reason, Audit, AuthSession, Db, create_session, create_credential, create_token,
}
use sme_data_center.Auth.Sessions.{
  SessionInput, create_session_bundle, store_session_bundle, RotateInput, rotate_durable_credential,
  rotate_found, detect_replay, expire_session, consume_credential, issue_generation,
  authenticate_access_token, authenticate_found, touch_token, revoke_by_credential,
  revoke_identity_sessions, revoke_sessions, revoke_session_family, revoke_browser_sessions,
}
use sme_data_center.Auth.History.{after}

-- The device authorizations and the setup grants are the same.
pub record IsApart (before later : Db) : Type 0 where
  pub devices : later.devices ≡ before.devices
  pub grants : later.grants ≡ before.grants

pub bundle-IsApart :
    (input : SessionInput) (db : Db) → IsApart db (after db (create_session_bundle input db))
unfolding create_session_bundle store_session_bundle create_session create_credential create_token
bundle-IsApart input db = ground arith

pub rotate-IsApart :
    (input : RotateInput) (db : Db) → IsApart db (after db (rotate_durable_credential input db))
unfolding rotate_durable_credential rotate_found detect_replay expire_session consume_credential
    issue_generation revoke_session_family create_credential create_token
rotate-IsApart input db = ground arith

pub authenticate-IsApart :
    (hash now : ℕ) (audit : Option Audit) (db : Db)
    → IsApart db (after db (authenticate_access_token hash now audit db))
unfolding authenticate_access_token authenticate_found expire_session touch_token
    revoke_session_family
authenticate-IsApart hash now audit db = ground arith

pub logout-IsApart :
    (hash : ℕ) (reason : Reason) (now : ℕ) (audit : Option Audit) (db : Db)
    → IsApart db (after db (revoke_by_credential hash reason now audit db))
unfolding revoke_by_credential revoke_session_family
logout-IsApart hash reason now audit db = ground arith

pub revoke_sessions-IsApart :
    (owner : AuthSession → AuthSession) (xs : List AuthSession) (reason : Reason)
    (audit : Option Audit) (now : ℕ) (db : Db)
    → IsApart db (revoke_sessions owner xs reason audit now db)
unfolding revoke_sessions revoke_session_family
revoke_sessions-IsApart owner [] reason audit now db = record { devices = refl; grants = refl }
revoke_sessions-IsApart owner (s ∷ xs) reason audit now db =
    let rest = revoke_sessions-IsApart owner xs reason audit now _ in
    record { devices = rest.devices; grants = rest.grants }

pub revoke_identity-IsApart :
    (id : ℕ) (reason : Reason) (now : ℕ) (db : Db)
    → IsApart db (revoke_identity_sessions id reason now db).1
unfolding revoke_identity_sessions revoke_browser_sessions
revoke_identity-IsApart id reason now db =
    let rest = revoke_sessions-IsApart _ _ reason _ now _ in
    record { devices = rest.devices; grants = rest.grants }

pub revoke_browser-IsApart : (id now : ℕ) (db : Db) → IsApart db (revoke_browser_sessions id now db)
unfolding revoke_browser_sessions
revoke_browser-IsApart id now db = record { devices = refl; grants = refl }
