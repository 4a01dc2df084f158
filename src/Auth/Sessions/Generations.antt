-- ===== src/Auth/Sessions/Generations.antt =====
-- The number of current credentials of a session, under the operations on sessions.
use sme_data_center.Common.{ℕ, ◌+◌, true, Option, some, ◌≡◌, arith, sym, subst, find-any, count}
use sme_data_center.Auth.Schema.{
  Reason, Audit, AuthSession, DurableCredential, Db, or_missing, is_current,
  consumed_generation_reused, concurrent_generation_reuse, create_session, create_credential,
  create_token,
}
use sme_data_center.Auth.Schema.Creation.{or_missing-eq-ok}
use sme_data_center.Auth.Sessions.{
  SessionInput, new_session, new_credential, new_token, usable_identity, store_session_bundle,
  create_session_bundle, RotateInput, detect_replay, expire_session, consume_credential,
  issue_generation, rotate_found, rotate_durable_credential, authenticate_access_token, token_owner,
  revoke_by_credential, revoke_identity_sessions, find_credential, find_session, find_token,
  find_identity, find_employee,
}
use sme_data_center.Auth.Sessions.Family.{revoke_browser_sessions-Untouched}
use sme_data_center.Auth.Sessions.Ended.{session_of, rotate_found_cases, authenticate_found_cases}
use sme_data_center.Auth.Sessions.Single.{
  IsSingle, is_current_of, is_known, count-consume, log-IsSingle, Untouched-IsSingle,
  revoke-IsSingle, consume-IsSingle, touch-IsSingle, create_session-IsSingle,
  create_credential-IsSingle, create_token-IsSingle, revoke_sessions-IsSingle,
}
use sme_data_center.Auth.History.{
  Lands, Lands-ok, Lands-pair, Lands-err, Lands-bind, Lands-if, Lands-option,
}

store-IsSingle :
    (input : SessionInput) (db : Db)
    → IsSingle db
    → Lands IsSingle db (store_session_bundle input db)
unfolding store_session_bundle
store-IsSingle input db h =
    let s = new_session input in
    Lands-bind IsSingle db (create_session s db) _ h λ db1 e1.
      let (h1, known, free) = create_session-IsSingle s db db1 e1 h in
      let c = new_credential input.new_credential_id s.id input.credential_hash 1 in
      Lands-bind IsSingle db (create_credential c db1) _ h λ db2 e2.
        let h2 = create_credential-IsSingle c db1 db2 e2 known free h1 in
        let t =
          new_token input.new_token_id input.access_token_hash input.access_token_expires_at s in
        Lands-bind IsSingle db (create_token t db2) _ h λ db3 e3.
          Lands-ok IsSingle db _ _ (log-IsSingle _ db3 (create_token-IsSingle t db2 db3 e3 h2))

pub bundle-IsSingle :
    (input : SessionInput) (db : Db)
    → IsSingle db
    → Lands IsSingle db (create_session_bundle input db)
unfolding create_session_bundle
bundle-IsSingle input db h =
    Lands-bind IsSingle db (usable_identity input.identity_id input.employee_id input.org_id db) _ h
      λ usable _.
        Lands-if IsSingle db usable _ _ (λ _. store-IsSingle input db h)
          (λ _. Lands-err IsSingle db _ _ h)

detect-IsSingle :
    (reason : Reason) (input : RotateInput) (s : AuthSession) (db : Db)
    → IsSingle db
    → IsSingle (detect_replay reason input s db)
unfolding detect_replay
detect-IsSingle reason input s db h =
    log-IsSingle _ _ (log-IsSingle _ _ (revoke-IsSingle s.id _ input.now db h))

expire-IsSingle :
    (s : AuthSession) (audit : Option Audit) (now : ℕ) (db : Db)
    → IsSingle db
    → IsSingle (expire_session s audit now db)
unfolding expire_session
expire-IsSingle s audit now db h = log-IsSingle _ _ (revoke-IsSingle s.id _ now db h)

issue-IsSingle :
    (input : RotateInput) (c : DurableCredential) (s : AuthSession) (db before : Db)
    → is_known s.id db.sessions ≡ true
    → count (is_current_of s.id) db.credentials ≡ 0
    → IsSingle before
    → IsSingle db
    → Lands IsSingle before (issue_generation input c s db)
unfolding issue_generation
issue-IsSingle input c s db before known free h0 h =
    let n =
      new_credential input.new_credential_id s.id input.replacement_credential_hash
        (c.generation + 1) in
    Lands-bind IsSingle before (create_credential n db) _ h0 λ db1 e1.
      let t =
        new_token input.new_token_id input.access_token_hash input.access_token_expires_at s in
      Lands-bind IsSingle before (create_token t db1) _ h0 λ db2 e2.
        Lands-ok IsSingle before _ _
          (create_token-IsSingle t db1 db2 e2 (create_credential-IsSingle n db db1 e1 known free h))

-- Once its current credential is consumed, a session has none.
consumed-free :
    (hash now : ℕ) (c : DurableCredential) (s : AuthSession) (db : Db)
    → find_credential hash db ≡ some c
    → s.id ≡ c.session_id
    → is_current c.status ≡ true
    → IsSingle db
    → count (is_current_of s.id) (consume_credential c.id now db).credentials ≡ 0
unfolding consume_credential
consumed-free hash now c s db found same cur h =
    let fewer = count-consume hash now c db.credentials found cur in
    let one = h.single c.session_id in
    subst (λ k. count (is_current_of k) (consume_credential c.id now db).credentials ≡ 0) (sym same)
      (omega (arith, fewer, one))

rotate_found-IsSingle :
    (input : RotateInput) (c : DurableCredential) (s : AuthSession) (db : Db)
    → find_credential input.presented_credential_hash db ≡ some c
    → s.id ≡ c.session_id
    → is_known s.id db.sessions ≡ true
    → IsSingle db
    → Lands IsSingle db (rotate_found input c s db)
unfolding consume_credential
rotate_found-IsSingle input c s db found same known h =
    let h' = consume-IsSingle c.id input.now db h in
    rotate_found_cases (Lands IsSingle db) input c s db
      (Lands-ok _ db _ _ (detect-IsSingle consumed_generation_reused input s db h))
      (Lands-ok _ db _ _ h) (Lands-ok _ db _ _ (expire-IsSingle s input.audit input.now db h))
      (Lands-ok _ db _ _ (detect-IsSingle concurrent_generation_reuse input s _ h'))
      (λ current.
        issue-IsSingle input c s _ db (kept c.id input.now db known)
          (consumed-free input.presented_credential_hash input.now c s db found same current h) h
          h')
  where
    kept :
        (id now : ℕ) (db : Db)
        → is_known s.id db.sessions ≡ true
        → is_known s.id (consume_credential id now db).sessions ≡ true
    kept id now db k = k

pub rotate-IsSingle :
    (input : RotateInput) (db : Db)
    → IsSingle db
    → Lands IsSingle db (rotate_durable_credential input db)
unfolding rotate_durable_credential
rotate-IsSingle input db h =
    Lands-option IsSingle db (find_credential input.presented_credential_hash db) _ _
      (λ _. Lands-ok _ db _ _ h)
      λ c found. Lands-bind IsSingle db (or_missing (find_session c.session_id db)) _ h λ s e.
        let same = session_of c.session_id s db e in
        rotate_found-IsSingle input c s db found same
          (subst (λ k. is_known k db.sessions ≡ true) (sym same)
            (find-any _ db.sessions s (or_missing-eq-ok _ s e)))
          h

pub authenticate-IsSingle :
    (hash now : ℕ) (audit : Option Audit) (db : Db)
    → IsSingle db
    → Lands IsSingle db (authenticate_access_token hash now audit db)
unfolding authenticate_access_token
authenticate-IsSingle hash now audit db h =
    Lands-option IsSingle db (find_token hash db) _ _ (λ _. Lands-ok _ db _ _ h)
      λ t _. Lands-bind IsSingle db (or_missing (find_session t.session_id db)) _ h λ s _.
        Lands-bind IsSingle db (or_missing (find_identity t.identity_id db)) _ h λ i _.
          Lands-bind IsSingle db (or_missing (find_employee t.employee_id db)) _ h λ e _.
            Lands-pair IsSingle db _ (
              authenticate_found_cases IsSingle now audit t s i e db h
                (expire-IsSingle (token_owner t s) audit now db h) (touch-IsSingle t.id now db h))

pub logout-IsSingle :
    (hash : ℕ) (reason : Reason) (now : ℕ) (audit : Option Audit) (db : Db)
    → IsSingle db
    → Lands IsSingle db (revoke_by_credential hash reason now audit db)
unfolding revoke_by_credential
logout-IsSingle hash reason now audit db h =
    Lands-option IsSingle db (find_credential hash db) _ _ (λ _. Lands-ok _ db _ _ h)
      λ c _. Lands-bind IsSingle db (or_missing (find_session c.session_id db)) _ h λ s _.
        Lands-ok IsSingle db _ _
          (log-IsSingle _ _ (log-IsSingle _ _ (revoke-IsSingle c.session_id reason now db h)))

pub revoke_identity-IsSingle :
    (identity_id : ℕ) (reason : Reason) (now : ℕ) (db : Db)
    → IsSingle db
    → IsSingle (revoke_identity_sessions identity_id reason now db).1
unfolding revoke_identity_sessions
revoke_identity-IsSingle identity_id reason now db h =
    revoke_sessions-IsSingle _ _ _ _ _ _
      (Untouched-IsSingle db _ (revoke_browser_sessions-Untouched identity_id now db) h)
