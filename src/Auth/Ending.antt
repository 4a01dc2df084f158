-- ===== src/Auth/Ending.antt =====
-- What follows, for every later history, once a replay is detected or a session is logged out.
use sme_data_center.Common.{ℕ, true, Option, some, List, ◌≡◌, ◌≢◌, sym, subst}
use sme_data_center.Auth.Schema.{Reason, Audit, AuthSession, DurableCredential, AccessToken, Db, ok}
use sme_data_center.Auth.Sessions.{
  RotateInput, rotated, replayed, rotate_durable_credential, Authenticated,
  authenticate_access_token, revoke_by_credential, find_credential, find_token,
}
use sme_data_center.Auth.Sessions.Family.{IsDead}
use sme_data_center.Auth.Sessions.Replay.{
  rotate-replayed, logout-IsDead, authenticate-ne-some, rotate-ne-rotated,
}
use sme_data_center.Auth.Login.{Crypto}
use sme_data_center.Auth.History.{Call, run}
use sme_data_center.Auth.Forever.{run-IsDead}

-- Once a rotation has reported a replay of a session, no access token of that session authenticates
-- any more, whatever calls are made in between, at whatever time.
pub replayed-never_authenticates :
    (crypto : Crypto) (input : RotateInput) (id : ℕ) (db later : Db)
    → rotate_durable_credential input db ≡ ok (replayed id, later)
    → (calls : List Call) (hash now : ℕ) (audit : Option Audit) (t : AccessToken)
    → find_token hash (run crypto later calls) ≡ some t
    → t.session_id ≡ id
    → (a : Authenticated) (last : Db)
    → authenticate_access_token hash now audit (run crypto later calls) ≢ ok (some a, last)
replayed-never_authenticates crypto input id db later e calls hash now audit t found same a last =
    authenticate-ne-some id hash now audit _ t a last
      (run-IsDead crypto id calls later (rotate-replayed input db id later e)) found same

-- Once a rotation has reported a replay of a session, no credential rotates that session any more,
-- whatever calls are made in between.
pub replayed-never_rotates :
    (crypto : Crypto) (input : RotateInput) (id : ℕ) (db later : Db)
    → rotate_durable_credential input db ≡ ok (replayed id, later)
    → (calls : List Call) (again : RotateInput) (s : AuthSession) (last : Db) → s.id ≡ id
    → rotate_durable_credential again (run crypto later calls) ≢ ok (rotated s, last)
replayed-never_rotates crypto input id db later e calls again s last same =
    rotate-ne-rotated again _ s last (
      subst (λ i. IsDead i (run crypto later calls)) (sym same)
        (run-IsDead crypto id calls later (rotate-replayed input db id later e)))

-- Once a logout has found the credential of a session, no access token of that session
-- authenticates any more, whatever calls are made in between, at whatever time.
pub logged_out-never_authenticates :
    (crypto : Crypto) (hash : ℕ) (reason : Reason) (now : ℕ) (audit : Option Audit) (db later : Db)
    (c : DurableCredential)
    → find_credential hash db ≡ some c
    → revoke_by_credential hash reason now audit db ≡ ok (true, later)
    → (calls : List Call) (token_hash time : ℕ) (about : Option Audit) (t : AccessToken)
    → find_token token_hash (run crypto later calls) ≡ some t
    → t.session_id ≡ c.session_id
    → (a : Authenticated) (last : Db)
    → authenticate_access_token token_hash time about (run crypto later calls) ≢ ok (some a, last)
logged_out-never_authenticates crypto hash reason now audit db later c found e calls token_hash time
      about t known same a last =
    authenticate-ne-some c.session_id token_hash time about _ t a last
      (run-IsDead crypto c.session_id calls later
        (logout-IsDead hash reason now audit db later c found e))
      known same

-- Once a logout has found the credential of a session, no credential rotates that session any more,
-- whatever calls are made in between.
pub logged_out-never_rotates :
    (crypto : Crypto) (hash : ℕ) (reason : Reason) (now : ℕ) (audit : Option Audit) (db later : Db)
    (c : DurableCredential)
    → find_credential hash db ≡ some c
    → revoke_by_credential hash reason now audit db ≡ ok (true, later)
    → (calls : List Call) (again : RotateInput) (s : AuthSession) (last : Db) → s.id ≡ c.session_id
    → rotate_durable_credential again (run crypto later calls) ≢ ok (rotated s, last)
logged_out-never_rotates crypto hash reason now audit db later c found e calls again s last same =
    rotate-ne-rotated again _ s last (
      subst (λ i. IsDead i (run crypto later calls)) (sym same)
        (run-IsDead crypto c.session_id calls later
          (logout-IsDead hash reason now audit db later c found e)))
