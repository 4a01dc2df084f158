-- ===== src/Auth/Sessions/Replay.antt =====
-- Which calls end a session family, and what an ended one refuses.
use sme_data_center.Common.{
  ℕ, Bool, true, Option, some, ◌==◌, ◌≡◌, ◌≢◌, ap, sym, ◌∙◌, ◌<◌, count, subst, subst₂, arith,
  find-any, All-find, any, Option-cases, inl, inr,
}
use sme_data_center.Auth.Schema.{
  Reason, Audit, AuthSession, AccessToken, DurableCredential, Db, Result, ok, or_missing, is_active,
  is_current, log, session_revoked, succeeded, logout, consumed_generation_reused,
  concurrent_generation_reuse, create_credential, create_token,
}
use sme_data_center.Auth.Sessions.Family.{
  IsDead, CredentialDead, TokenDead, revoke-IsDead, log-IsDead,
}
use sme_data_center.Auth.Sessions.Ended.{session_of, rotate_found_cases}
use sme_data_center.Auth.Sessions.{
  RotateInput, Rotation, rotated, replayed, detect_replay, consume_credential, issue_generation,
  rotate_found, rotate_durable_credential, Authenticated, authenticate_found,
  authenticate_access_token, revoke_by_credential, find_credential, find_session, find_token,
  session_event, is_current_credential, revoke_session_family,
}

detect-IsDead :
    (reason : Reason) (input : RotateInput) (s : AuthSession) (db : Db)
    → any (λ (r : AuthSession). r.id == s.id) db.sessions ≡ true
    → IsDead s.id (detect_replay reason input s db)
unfolding detect_replay
detect-IsDead reason input s db h =
    log-IsDead s.id _ _ (log-IsDead s.id _ _ (revoke-IsDead s.id _ input.now db h))

known_session :
    (id : ℕ) (s : AuthSession) (db : Db)
    → or_missing (find_session id db) ≡ ok s
    → any (λ (r : AuthSession). r.id == s.id) db.sessions ≡ true
known_session id s db e =
    ground (arith, session_of id s db e, find-any (λ (r : AuthSession). r.id == s.id) db.sessions s)

issue-ne-replayed :
    (input : RotateInput) (c : DurableCredential) (s : AuthSession) (db : Db) (id : ℕ) (later : Db)
    → issue_generation input c s db ≢ ok (replayed id, later)
unfolding issue_generation create_credential create_token
issue-ne-replayed input c s db id later = ground arith

replayed-same :
    (id id' : ℕ) (a b : Db)
    → ◌≡◌ {A = Result (Rotation × Db)} (ok (replayed id, a)) (ok (replayed id', b))
    → (id ≡ id') × (a ≡ b)
replayed-same id id' a b e = (ground arith, ground arith)

moved-IsDead : (id id' : ℕ) (a b : Db) → (id ≡ id') × (a ≡ b) → IsDead id a → IsDead id' b
moved-IsDead id id' a b (p, q) d = subst₂ IsDead p q d

-- A rotation that reports a replay has ended the family.
pub rotate_found-replayed :
    (input : RotateInput) (c : DurableCredential) (s : AuthSession) (db : Db) (id : ℕ) (later : Db)
    → any (λ (r : AuthSession). r.id == s.id) db.sessions ≡ true
    → rotate_found input c s db ≡ ok (replayed id, later)
    → IsDead id later
unfolding consume_credential
rotate_found-replayed input c s db id later known =
    rotate_found_cases (λ r. r ≡ ok (replayed id, later) → IsDead id later) input c s db
      (λ e.
        moved-IsDead _ _ _ _ (replayed-same _ _ _ _ e)
          (detect-IsDead consumed_generation_reused input s db known))
      (λ e. cc) (λ e. cc)
      (λ e.
        moved-IsDead _ _ _ _ (replayed-same _ _ _ _ e)
          (detect-IsDead concurrent_generation_reuse input s _ known))
      (λ _ e. absurd (issue-ne-replayed input c s _ id later e))

pub rotate-replayed :
    (input : RotateInput) (db : Db) (id : ℕ) (later : Db)
    → rotate_durable_credential input db ≡ ok (replayed id, later)
    → IsDead id later
unfolding rotate_durable_credential
rotate-replayed input db id later e =
    elim (Option-cases (find_credential input.presented_credential_hash db)) [
      | inl missing ↦ cc (rw (missing, rotate_durable_credential) at e)
      | inr (c, found) ↦ elim (Option-cases (find_session c.session_id db)) [
        | inl missing ↦ cc (rw missing at (rw (found, rotate_durable_credential) at e))
        | inr (s, here) ↦
            rotate_found-replayed input c s db id later
              (known_session c.session_id s db (ap or_missing here))
              (rw here at (rw (found, rotate_durable_credential) at e))
      ]
    ]

abbrev pub logged_out_db : AuthSession → DurableCredential → Reason → ℕ → Option Audit → Db → Db
logged_out_db s c reason now audit db =
    log (session_event session_revoked succeeded (some reason) s audit now) (
      log (session_event logout succeeded (some reason) s audit now)
        (revoke_session_family c.session_id reason now db))

-- A logout ends the family of the credential.
pub logout-IsDead :
    (hash : ℕ) (reason : Reason) (now : ℕ) (audit : Option Audit) (db later : Db)
    (c : DurableCredential)
    → find_credential hash db ≡ some c
    → revoke_by_credential hash reason now audit db ≡ ok (true, later)
    → IsDead c.session_id later
unfolding revoke_by_credential
logout-IsDead hash reason now audit db later c found e =
    elim (Option-cases (find_session c.session_id db)) [
      | inl missing ↦ cc (rw missing at (rw (found, revoke_by_credential) at e))
      | inr (s, here) ↦
          let dead : IsDead c.session_id (revoke_session_family c.session_id reason now db) =
            revoke-IsDead c.session_id reason now db (
              subst (λ k. any (λ (r : AuthSession). r.id == k) db.sessions ≡ true)
                (session_of c.session_id s db (ap or_missing here))
                (known_session c.session_id s db (ap or_missing here))) in
          logged_out s (rw here at (rw (found, revoke_by_credential) at e))
            (log-IsDead c.session_id _ _ (log-IsDead c.session_id _ _ dead))
    ]
  where
    logged_out :
        (s : AuthSession)
        → ◌≡◌ {A = Result (Bool × Db)}
            (ok (true, logged_out_db s c reason now audit db))
            (ok (true, later))
        → IsDead c.session_id (logged_out_db s c reason now audit db)
        → IsDead c.session_id later
    logged_out s e d = subst (IsDead c.session_id) (ground arith) d

-- An ended family authenticates no token.
pub authenticate-ne-some :
    (id hash now : ℕ) (audit : Option Audit) (db : Db) (t : AccessToken) (a : Authenticated)
    (later : Db)
    → IsDead id db
    → find_token hash db ≡ some t
    → t.session_id ≡ id
    → authenticate_access_token hash now audit db ≢ ok (some a, later)
unfolding authenticate_access_token authenticate_found
authenticate-ne-some id hash now audit db t a later d found same e =
    let dead : TokenDead id t = All-find (TokenDead id) _ db.tokens t d.tokens found in ground arith

issue-rotated :
    (input : RotateInput) (c : DurableCredential) (s s' : AuthSession) (db later : Db)
    → issue_generation input c s db ≡ ok (rotated s', later)
    → s' ≡ s
unfolding issue_generation create_credential create_token
issue-rotated input c s s' db later = ground arith

-- What a rotation that succeeds has found.
pub record CanRotate (input : RotateInput) (c : DurableCredential) (s : AuthSession) (db : Db)
    : Type 0 where
  pub found : find_credential input.presented_credential_hash db ≡ some c
  pub session : find_session c.session_id db ≡ some s
  pub current : is_current c.status ≡ true
  pub active : is_active s.status ≡ true
  pub unexpired : input.now < s.absolute_expires_at
  pub single : count (is_current_credential c.id) db.credentials ≡ 1

rotate_found-rotated :
    (input : RotateInput) (c : DurableCredential) (s s' : AuthSession) (db later : Db)
    → rotate_found input c s db ≡ ok (rotated s', later)
    → (is_current c.status ≡ true)
      × (is_active s.status ≡ true)
      × (input.now < s.absolute_expires_at)
      × (count (is_current_credential c.id) db.credentials ≡ 1)
      × (issue_generation input c s (consume_credential c.id input.now db) ≡ ok (rotated s', later))
unfolding rotate_found
rotate_found-rotated input c s s' db later e =
    (ground arith, ground arith, ground arith, ground arith, ground arith)

pub rotate-CanRotate :
    (input : RotateInput) (db : Db) (s : AuthSession) (later : Db)
    → rotate_durable_credential input db ≡ ok (rotated s, later)
    → (c : DurableCredential) × CanRotate input c s db
      × (issue_generation input c s (consume_credential c.id input.now db) ≡ ok (rotated s, later))
unfolding rotate_durable_credential
rotate-CanRotate input db s later e =
    elim (Option-cases (find_credential input.presented_credential_hash db)) [
      | inl missing ↦ cc (rw (missing, rotate_durable_credential) at e)
      | inr (c, found) ↦ elim (Option-cases (find_session c.session_id db)) [
        | inl missing ↦ cc (rw missing at (rw (found, rotate_durable_credential) at e))
        | inr (s', here) ↦
            let (cur, act, time, one, issued) =
              rotate_found-rotated input c s' s db later
                (rw here at (rw (found, rotate_durable_credential) at e)) in
            let same : s ≡ s' = issue-rotated input c s' s _ later issued in
            (
              c,
              record {
                found = found;
                session = here ∙ ap some (sym same);
                current = cur;
                active = rw same act;
                unexpired = rw same time;
                single = one;
              },
              rw same (rw same at issued),
            )
      ]
    ]

-- An ended family rotates no credential.
pub rotate-ne-rotated :
    (input : RotateInput) (db : Db) (s : AuthSession) (later : Db)
    → IsDead s.id db
    → rotate_durable_credential input db ≢ ok (rotated s, later)
rotate-ne-rotated input db s later d e =
    let (c, can, _) = rotate-CanRotate input db s later e in
    let dead : CredentialDead s.id c =
      All-find (CredentialDead s.id) _ db.credentials c d.credentials can.found in
    let same : s.id ≡ c.session_id = session_of c.session_id s db (ap or_missing can.session) in
    absurd (refuted c s dead can.current same)
  where
    refuted :
        (c : DurableCredential) (s : AuthSession)
        → CredentialDead s.id c
        → is_current c.status ≡ true
        → s.id ≡ c.session_id
        → ⊥
    refuted c s dead cur same = ground arith
