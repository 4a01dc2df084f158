-- ===== src/Auth/Sessions/Ended.antt =====
-- An ended session family under the operations on sessions.
use sme_data_center.Common.{ℕ, ◌+◌, true, Option, ◌==◌, ◌≡◌, ◌≢◌, arith, find_holds, All-find}
use sme_data_center.Auth.Schema.{
  Reason, Audit, AuthSession, DurableCredential, AccessToken, LoginIdentity, Employee, Db, Result,
  ok, or_missing, create_session, create_credential, create_token, is_current,
  consumed_generation_reused, concurrent_generation_reuse,
}
use sme_data_center.Auth.Sessions.Family.{
  IsDead, CredentialDead, revoke-keeps-IsDead, log-IsDead, consume-IsDead, touch-IsDead,
  create_session-IsDead, create_credential-IsDead, create_token-IsDead, Untouched-IsDead,
  revoke_sessions-IsDead, revoke_browser_sessions-Untouched,
}
use sme_data_center.Auth.Sessions.{
  SessionInput, new_session, new_credential, new_token, usable_identity, find_identity,
  find_employee, store_session_bundle, create_session_bundle, RotateInput, Rotation, replayed,
  invalid, detect_replay, expire_session, consume_credential, issue_generation, rotate_found,
  rotate_durable_credential, authenticate_found, authenticate_access_token, token_owner,
  revoke_by_credential, revoke_identity_sessions, find_credential, find_session, find_token,
  touch_token,
}
use sme_data_center.Auth.History.{
  Lands, Lands-ok, Lands-pair, Lands-err, Lands-bind, Lands-if, Lands-option,
}

-- `rotate_found` by its ways.
pub rotate_found_cases :
    (Q : Result (Rotation × Db) → Type 0) (input : RotateInput) (c : DurableCredential)
    (s : AuthSession) (db : Db)
    → Q (ok (replayed s.id, detect_replay consumed_generation_reused input s db))
    → Q (ok (invalid, db))
    → Q (ok (invalid, expire_session s input.audit input.now db))
    → Q (
        ok (
          replayed s.id,
          detect_replay concurrent_generation_reuse input s (consume_credential c.id input.now db),
        ))
    → (is_current c.status ≡ true
        → Q (issue_generation input c s (consume_credential c.id input.now db)))
    → Q (rotate_found input c s db)
unfolding rotate_found
rotate_found_cases Q input c s db h1 h2 h3 h4 h5 = ground arith

pub authenticate_found_cases :
    (P : Db → Type 0) (now : ℕ) (audit : Option Audit) (t : AccessToken) (s : AuthSession)
    (i : LoginIdentity) (e : Employee) (db : Db)
    → P db
    → P (expire_session (token_owner t s) audit now db)
    → P (touch_token t.id now db)
    → P (authenticate_found now audit t s i e db).1
unfolding authenticate_found
authenticate_found_cases P now audit t s i e db h1 h2 h3 = ground arith

pub session_of :
    (id : ℕ) (s : AuthSession) (db : Db) → or_missing (find_session id db) ≡ ok s → s.id ≡ id
session_of id s db e = ground (arith, find_holds (λ (r : AuthSession). r.id == id) db.sessions s)

module _ (id : ℕ) where
  store-IsDead :
      (input : SessionInput) (before : Db)
      → IsDead id before
      → Lands (IsDead id) before (store_session_bundle input before)
  unfolding store_session_bundle
  store-IsDead input db d =
      let s = new_session input in
      Lands-bind (IsDead id) db (create_session s db) _ d λ db1 e1.
        let (ne, d1) = create_session-IsDead id s db db1 e1 d in
        let c = new_credential input.new_credential_id s.id input.credential_hash 1 in
        Lands-bind (IsDead id) db (create_credential c db1) _ d λ db2 e2.
          let d2 = create_credential-IsDead id c db1 db2 e2 ne d1 in
          let t =
            new_token input.new_token_id input.access_token_hash input.access_token_expires_at s in
          Lands-bind (IsDead id) db (create_token t db2) _ d λ db3 e3.
            Lands-ok (IsDead id) db _ _
              (log-IsDead id _ db3 (create_token-IsDead id t db2 db3 e3 ne d2))

  pub bundle-IsDead :
      (input : SessionInput) (db : Db)
      → IsDead id db
      → Lands (IsDead id) db (create_session_bundle input db)
  unfolding create_session_bundle
  bundle-IsDead input db d =
      Lands-bind (IsDead id) db
        (usable_identity input.identity_id input.employee_id input.org_id db) _ d
        λ usable _.
          Lands-if (IsDead id) db usable _ _ (λ _. store-IsDead input db d)
            (λ _. Lands-err (IsDead id) db _ _ d)

  detect-IsDead :
      (reason : Reason) (input : RotateInput) (s : AuthSession) (db : Db)
      → IsDead id db
      → IsDead id (detect_replay reason input s db)
  unfolding detect_replay
  detect-IsDead reason input s db d =
      log-IsDead id _ _ (log-IsDead id _ _ (revoke-keeps-IsDead s.id _ input.now id db d))

  expire-IsDead :
      (s : AuthSession) (audit : Option Audit) (now : ℕ) (db : Db)
      → IsDead id db
      → IsDead id (expire_session s audit now db)
  unfolding expire_session
  expire-IsDead s audit now db d = log-IsDead id _ _ (revoke-keeps-IsDead s.id _ now id db d)

  issue-IsDead :
      (input : RotateInput) (c : DurableCredential) (s : AuthSession) (db before : Db)
      → s.id ≢ id
      → IsDead id before
      → IsDead id db
      → Lands (IsDead id) before (issue_generation input c s db)
  unfolding issue_generation
  issue-IsDead input c s db before ne d0 d =
      let n =
        new_credential input.new_credential_id s.id input.replacement_credential_hash
          (c.generation + 1) in
      Lands-bind (IsDead id) before (create_credential n db) _ d0 λ db1 e1.
        let t =
          new_token input.new_token_id input.access_token_hash input.access_token_expires_at s in
        Lands-bind (IsDead id) before (create_token t db1) _ d0 λ db2 e2.
          Lands-ok (IsDead id) before _ _
            (create_token-IsDead id t db1 db2 e2 ne (create_credential-IsDead id n db db1 e1 ne d))

  -- A current credential is no credential of an ended family.
  current-ne :
      (c : DurableCredential) → CredentialDead id c → is_current c.status ≡ true → c.session_id ≢ id
  current-ne c h e same = ground arith

  rotate_found-IsDead :
      (input : RotateInput) (c : DurableCredential) (s : AuthSession) (db : Db)
      → CredentialDead id c
      → s.id ≡ c.session_id
      → IsDead id db
      → Lands (IsDead id) db (rotate_found input c s db)
  rotate_found-IsDead input c s db dead same d =
      let d' = consume-IsDead id c.id input.now db d in
      rotate_found_cases (Lands (IsDead id) db) input c s db
        (Lands-ok _ db _ _ (detect-IsDead consumed_generation_reused input s db d))
        (Lands-ok _ db _ _ d) (Lands-ok _ db _ _ (expire-IsDead s input.audit input.now db d))
        (Lands-ok _ db _ _ (detect-IsDead concurrent_generation_reuse input s _ d'))
        (λ current.
          issue-IsDead input c s _ db (λ e. current-ne c dead current (cc (same, e))) d d')

  pub rotate-IsDead :
      (input : RotateInput) (db : Db)
      → IsDead id db
      → Lands (IsDead id) db (rotate_durable_credential input db)
  unfolding rotate_durable_credential
  rotate-IsDead input db d =
      Lands-option (IsDead id) db (find_credential input.presented_credential_hash db) _ _
        (λ _. Lands-ok _ db _ _ d)
        λ c found. Lands-bind (IsDead id) db (or_missing (find_session c.session_id db)) _ d λ s e.
          rotate_found-IsDead input c s db (All-find (CredentialDead id) _ _ c d.credentials found)
            (session_of c.session_id s db e) d

  pub authenticate-IsDead :
      (hash now : ℕ) (audit : Option Audit) (db : Db)
      → IsDead id db
      → Lands (IsDead id) db (authenticate_access_token hash now audit db)
  unfolding authenticate_access_token
  authenticate-IsDead hash now audit db d =
      Lands-option (IsDead id) db (find_token hash db) _ _ (λ _. Lands-ok _ db _ _ d)
        λ t _. Lands-bind (IsDead id) db (or_missing (find_session t.session_id db)) _ d λ s _.
          Lands-bind (IsDead id) db (or_missing (find_identity t.identity_id db)) _ d λ i _.
            Lands-bind (IsDead id) db (or_missing (find_employee t.employee_id db)) _ d λ e _.
              Lands-pair (IsDead id) db _ (
                authenticate_found_cases (IsDead id) now audit t s i e db d
                  (expire-IsDead (token_owner t s) audit now db d) (touch-IsDead id t.id now db d))

  pub logout-IsDead :
      (hash : ℕ) (reason : Reason) (now : ℕ) (audit : Option Audit) (db : Db)
      → IsDead id db
      → Lands (IsDead id) db (revoke_by_credential hash reason now audit db)
  unfolding revoke_by_credential
  logout-IsDead hash reason now audit db d =
      Lands-option (IsDead id) db (find_credential hash db) _ _ (λ _. Lands-ok _ db _ _ d)
        λ c _. Lands-bind (IsDead id) db (or_missing (find_session c.session_id db)) _ d λ s _.
          Lands-ok (IsDead id) db _ _ (
            log-IsDead id _ _
              (log-IsDead id _ _ (revoke-keeps-IsDead c.session_id reason now id db d)))

  pub revoke_identity-IsDead :
      (identity_id : ℕ) (reason : Reason) (now : ℕ) (db : Db)
      → IsDead id db
      → IsDead id (revoke_identity_sessions identity_id reason now db).1
  unfolding revoke_identity_sessions
  revoke_identity-IsDead identity_id reason now db d =
      revoke_sessions-IsDead id _ _ _ _ _ _
        (Untouched-IsDead id db _ (revoke_browser_sessions-Untouched identity_id now db) d)
