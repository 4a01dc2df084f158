-- ===== src/Auth/Setup/Reset.antt =====
-- The sessions of an identity after `consumePasswordSetupSession`.
use sme_data_center.Common.{
  ℕ, true, Option, some, List, ◌==◌, ◌≡◌, ◌≢◌, arith, ◌∙◌, find, find_holds, sym, subst, ap,
}
use sme_data_center.Auth.Schema.{
  Audit, AuthSession, AccessToken, LoginIdentity, Purpose, SetupGrant, SetupSession, Db, ok,
  or_missing, ◌>>=◌, is_active, password_reset_done,
}
use sme_data_center.Auth.Schema.Creation.{bind-eq-ok, or_missing-eq-ok, ok-injective}
use sme_data_center.Auth.Sessions.{
  Authenticated, authenticate_access_token, find_token, find_session, find_identity, RotateInput,
  rotated, rotate_durable_credential,
}
use sme_data_center.Auth.Sessions.Family.{IsDead, log-IsDead, revoke_browser_sessions-Untouched}
use sme_data_center.Auth.Sessions.Everywhere.{revoke_sessions-everywhere}
use sme_data_center.Auth.Sessions.Replay.{authenticate-ne-some, rotate-ne-rotated}
use sme_data_center.Auth.Login.{Crypto}
use sme_data_center.Auth.History.{Call, run}
use sme_data_center.Auth.Forever.{run-IsDead}
use sme_data_center.Auth.Setup.{
  ConsumeInput, reset_password, consumed_db, consume_found, consume_password_setup_session,
}

reset-ends :
    (input : ConsumeInput) (purpose : Purpose) (i : LoginIdentity) (db : Db) (r : AuthSession)
    (id : ℕ)
    → find_session id db ≡ some r
    → r.identity_id ≡ i.id
    → is_active r.status ≡ true
    → IsDead id (reset_password input purpose i db)
unfolding reset_password
reset-ends input purpose i db r id found same act = log-IsDead id _ _ (
    revoke_sessions-everywhere i.id id _ password_reset_done input.audit input.now _ r
      (ap (find _) (revoke_browser_sessions-Untouched i.id input.now _).sessions ∙ found) same act)

consumed_true :
    (input : ConsumeInput) (s : SetupSession) (purpose : Purpose) (i : LoginIdentity)
    (db later : Db)
    → consume_found input s purpose i db ≡ (true, later)
    → reset_password input purpose i (consumed_db input s db) ≡ later
unfolding consume_found
consumed_true input s purpose i db later e = ground arith

-- A consumption that succeeds ends each active session of the identity of the setup session.
pub consume-ends :
    (input : ConsumeInput) (db later : Db) (s : SetupSession) (r : AuthSession) (id : ℕ)
    → consume_password_setup_session input db ≡ ok (true, later)
    → find (λ (s : SetupSession). s.session_hash == input.session_hash) db.setup_sessions ≡ some s
    → find_session id db ≡ some r
    → r.identity_id ≡ s.identity_id
    → is_active r.status ≡ true
    → IsDead id later
unfolding consume_password_setup_session
consume-ends input db later s r id e here found same act =
    go (rw (here, consume_password_setup_session) at e)
  where
    go :
        (do
          g ← or_missing (find (λ (g : SetupGrant). g.id == s.grant_id) db.grants)
          i ← or_missing (find_identity s.identity_id db)
          ok (consume_found input s g.purpose i db))
          ≡ ok (true, later)
        → IsDead id later
    go e =
        let (g, eg, e1) =
          bind-eq-ok (or_missing (find (λ (g : SetupGrant). g.id == s.grant_id) db.grants)) _ _ e in
        let (i, ei, e2) = bind-eq-ok (or_missing (find_identity s.identity_id db)) _ _ e1 in
        let owner : i.id ≡ s.identity_id = identity_of s.identity_id i (or_missing-eq-ok _ i ei) in
        subst (IsDead id) (consumed_true input s g.purpose i db later (ok-injective _ _ e2))
          (reset-ends input g.purpose i (consumed_db input s db) r id found (same ∙ sym owner) act)
      where
        identity_of : (k : ℕ) (i : LoginIdentity) → find_identity k db ≡ some i → i.id ≡ k
        identity_of k i e =
            ground (arith, find_holds (λ (r : LoginIdentity). r.id == k) db.identities i)

-- Once a setup session has set a new password, no access token of a session that its identity had
-- active authenticates any more, whatever calls are made in between, at whatever time.
pub consumed-never_authenticates :
    (crypto : Crypto) (input : ConsumeInput) (db later : Db) (s : SetupSession) (r : AuthSession)
    (id : ℕ)
    → consume_password_setup_session input db ≡ ok (true, later)
    → find (λ (s : SetupSession). s.session_hash == input.session_hash) db.setup_sessions ≡ some s
    → find_session id db ≡ some r
    → r.identity_id ≡ s.identity_id
    → is_active r.status ≡ true
    → (calls : List Call) (hash now : ℕ) (audit : Option Audit) (t : AccessToken)
    → find_token hash (run crypto later calls) ≡ some t
    → t.session_id ≡ id
    → (a : Authenticated) (last : Db)
    → authenticate_access_token hash now audit (run crypto later calls) ≢ ok (some a, last)
consumed-never_authenticates crypto input db later s r id e here found same act calls hash now audit
      t known of_session a last =
    authenticate-ne-some id hash now audit _ t a last
      (run-IsDead crypto id calls later (consume-ends input db later s r id e here found same act))
      known of_session

-- Once a setup session has set a new password, no credential rotates a session that its identity had
-- active, whatever calls are made in between.
pub consumed-never_rotates :
    (crypto : Crypto) (input : ConsumeInput) (db later : Db) (s : SetupSession) (r : AuthSession)
    (id : ℕ)
    → consume_password_setup_session input db ≡ ok (true, later)
    → find (λ (s : SetupSession). s.session_hash == input.session_hash) db.setup_sessions ≡ some s
    → find_session id db ≡ some r
    → r.identity_id ≡ s.identity_id
    → is_active r.status ≡ true
    → (calls : List Call) (again : RotateInput) (x : AuthSession) (last : Db) → x.id ≡ id
    → rotate_durable_credential again (run crypto later calls) ≢ ok (rotated x, last)
consumed-never_rotates crypto input db later s r id e here found same act calls again x last eq =
    rotate-ne-rotated again _ x last (
      subst (λ k. IsDead k (run crypto later calls)) (sym eq)
        (run-IsDead crypto id calls later
          (consume-ends input db later s r id e here found same act)))
