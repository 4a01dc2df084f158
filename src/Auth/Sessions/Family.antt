-- ===== src/Auth/Sessions/Family.antt =====
-- A session family that has ended: the session, its credentials and its tokens.
use sme_data_center.Common.{
  ℕ, Bool, true, false, not, ◌||◌, Option, List, [], ◌∷◌, ◌==◌, ◌≡◌, ◌≢◌, refl, ◌∙◌, inl, inr,
  Bool-cases, arith, is_some, any, All, All-update_many, update_many,
}
use sme_data_center.Auth.Schema.{
  Reason, Audit, AuthSession, DurableCredential, AccessToken, Db, ok, is_active, is_withdrawn,
  SecurityEvent, log, create_session, create_credential, create_token,
}
use sme_data_center.Auth.Schema.Creation.{
  create_session-eq-ok, create_credential-eq-ok, create_token-eq-ok,
}
use sme_data_center.Auth.Sessions.{
  revoke_session_family, consume_credential, touch_token, is_active_session, end_session,
  is_live_credential, withdraw_credential, is_live_token, revoke_token, is_current_credential,
  mark_consumed, is_unrevoked_token, mark_used, revoke_sessions, revoke_browser_sessions,
}

abbrev pub SessionDead : ℕ → AuthSession → Type 0
SessionDead id s = (not (s.id == id) || not (is_active s.status)) ≡ true

abbrev pub CredentialDead : ℕ → DurableCredential → Type 0
CredentialDead id c = (not (c.session_id == id) || is_withdrawn c.status) ≡ true

abbrev pub TokenDead : ℕ → AccessToken → Type 0
TokenDead id t = (not (t.session_id == id) || is_some t.revoked_at) ≡ true

-- The session is known and not active, each of its credentials is revoked, and so is each token.
pub record IsDead (id : ℕ) (db : Db) : Type 0 where
  pub known : any (λ (s : AuthSession). s.id == id) db.sessions ≡ true
  pub sessions : All (SessionDead id) db.sessions
  pub credentials : All (CredentialDead id) db.credentials
  pub tokens : All (TokenDead id) db.tokens

-- An update that keeps the ids keeps a session known.
pub known-update_many :
    (id : ℕ) (p : AuthSession → Bool) (f : AuthSession → AuthSession) (xs : List AuthSession)
    → ((s : AuthSession) → (f s).id ≡ s.id)
    → any (λ (s : AuthSession). s.id == id) (update_many p f xs)
      ≡ any (λ (s : AuthSession). s.id == id) xs
known-update_many id p f [] same = refl
known-update_many id p f (s ∷ xs) same = ground (arith, same s, known-update_many id p f xs same)

module _ (id : ℕ) (reason : Reason) (now : ℕ) where
  ended_sessions :
      (xs : List AuthSession)
      → All (SessionDead id) (update_many (is_active_session id) (end_session reason now) xs)
  ended_sessions [] = tt
  ended_sessions (s ∷ xs) = (ground arith, ended_sessions xs)

  ended_credentials :
      (xs : List DurableCredential)
      → All (CredentialDead id) (update_many (is_live_credential id) (withdraw_credential now) xs)
  ended_credentials [] = tt
  ended_credentials (c ∷ xs) = (ground arith, ended_credentials xs)

  ended_tokens :
      (xs : List AccessToken)
      → All (TokenDead id) (update_many (is_live_token id) (revoke_token now) xs)
  ended_tokens [] = tt
  ended_tokens (t ∷ xs) = (ground arith, ended_tokens xs)

  -- `revokeSessionFamily` ends the family.
  pub revoke-IsDead :
      (db : Db)
      → any (λ (s : AuthSession). s.id == id) db.sessions ≡ true
      → IsDead id (revoke_session_family id reason now db)
  unfolding revoke_session_family
  revoke-IsDead db h = record {
    known = known-update_many id _ _ db.sessions (λ s. refl) ∙ h;
    sessions = ended_sessions db.sessions;
    credentials = ended_credentials db.credentials;
    tokens = ended_tokens db.tokens;
  }

  -- It leaves ended any other family that has ended.
  pub revoke-keeps-IsDead :
      (other : ℕ) (db : Db)
      → IsDead other db
      → IsDead other (revoke_session_family id reason now db)
  unfolding revoke_session_family
  revoke-keeps-IsDead other db d = record {
    known = known-update_many other _ _ db.sessions (λ s. refl) ∙ d.known;
    sessions =
        All-update_many (SessionDead other) (is_active_session id) (end_session reason now)
          db.sessions (λ s e h. ground arith) d.sessions;
    credentials =
        All-update_many (CredentialDead other) (is_live_credential id) (withdraw_credential now)
          db.credentials (λ c e h. ground arith) d.credentials;
    tokens =
        All-update_many (TokenDead other) (is_live_token id) (revoke_token now) db.tokens
          (λ t e h. ground arith) d.tokens;
  }

module _ (id : ℕ) where
  pub log-IsDead : (e : SecurityEvent) (db : Db) → IsDead id db → IsDead id (log e db)
  log-IsDead e db d = record {
    known = d.known;
    sessions = d.sessions;
    credentials = d.credentials;
    tokens = d.tokens;
  }

  pub consume-IsDead :
      (cid now : ℕ) (db : Db) → IsDead id db → IsDead id (consume_credential cid now db)
  unfolding consume_credential
  consume-IsDead cid now db d = record {
    known = d.known;
    sessions = d.sessions;
    credentials =
        All-update_many (CredentialDead id) (is_current_credential cid) (mark_consumed now)
          db.credentials (λ c e h. ground arith) d.credentials;
    tokens = d.tokens;
  }

  pub touch-IsDead : (tid now : ℕ) (db : Db) → IsDead id db → IsDead id (touch_token tid now db)
  unfolding touch_token
  touch-IsDead tid now db d = record {
    known = d.known;
    sessions = d.sessions;
    credentials = d.credentials;
    tokens =
        All-update_many (TokenDead id) (is_unrevoked_token tid) (mark_used now) db.tokens
          (λ t e h. ground arith) d.tokens;
  }

  -- A new session has an id that no known session has.
  pub create_session-IsDead :
      (s : AuthSession) (db later : Db)
      → create_session s db ≡ ok later
      → IsDead id db
      → (s.id ≢ id) × IsDead id later
  create_session-IsDead s db later e d =
      let (free, same) = create_session-eq-ok s db e in
      let other : (s.id == id) ≡ false = differs s db free d.known in
      (
        λ eq. ground arith,
        rw same (record {
          known = ground (arith, d.known);
          sessions = (ground arith, d.sessions);
          credentials = d.credentials;
          tokens = d.tokens;
        }),
      )
    where
      differs :
          (s : AuthSession) (db : Db)
          → any (λ (r : AuthSession). r.id == s.id) db.sessions ≡ false
          → any (λ (r : AuthSession). r.id == id) db.sessions ≡ true
          → (s.id == id) ≡ false
      differs s db free known = elim (Bool-cases (s.id == id)) [
        | inr e ↦ e
        | inl e ↦ let e' : s.id ≡ id = ground arith in cc (rw e' at free)
      ]

  pub create_credential-IsDead :
      (c : DurableCredential) (db later : Db)
      → create_credential c db ≡ ok later
      → c.session_id ≢ id
      → IsDead id db
      → IsDead id later
  create_credential-IsDead c db later e ne d = rw (create_credential-eq-ok c db e).1 (record {
    known = d.known;
    sessions = d.sessions;
    credentials = (ground arith, d.credentials);
    tokens = d.tokens;
  })

  pub create_token-IsDead :
      (t : AccessToken) (db later : Db)
      → create_token t db ≡ ok later
      → t.session_id ≢ id
      → IsDead id db
      → IsDead id later
  create_token-IsDead t db later e ne d = rw (create_token-eq-ok t db e).1 (record {
    known = d.known;
    sessions = d.sessions;
    credentials = d.credentials;
    tokens = (ground arith, d.tokens);
  })

-- The session tables are as they were.
pub record Untouched (db later : Db) : Type 0 where
  pub sessions : later.sessions ≡ db.sessions
  pub credentials : later.credentials ≡ db.credentials
  pub tokens : later.tokens ≡ db.tokens

pub Untouched-refl : (db : Db) → Untouched db db
Untouched-refl db = record { sessions = refl; credentials = refl; tokens = refl }

pub Untouched-IsDead :
    (id : ℕ) (db later : Db) → Untouched db later → IsDead id db → IsDead id later
Untouched-IsDead id db later u d = record {
  known = rw u.sessions d.known;
  sessions = rw u.sessions d.sessions;
  credentials = rw u.credentials d.credentials;
  tokens = rw u.tokens d.tokens;
}

-- Ending more sessions leaves ended what has ended.
pub revoke_sessions-IsDead :
    (id : ℕ) (owner : AuthSession → AuthSession) (xs : List AuthSession) (reason : Reason)
    (audit : Option Audit) (now : ℕ) (db : Db)
    → IsDead id db
    → IsDead id (revoke_sessions owner xs reason audit now db)
unfolding revoke_sessions
revoke_sessions-IsDead id owner [] reason audit now db d = d
revoke_sessions-IsDead id owner (s ∷ xs) reason audit now db d =
    revoke_sessions-IsDead id owner xs reason audit now _
      (log-IsDead id _ _ (revoke-keeps-IsDead s.id reason now id db d))

pub revoke_browser_sessions-Untouched :
    (identity_id now : ℕ) (db : Db) → Untouched db (revoke_browser_sessions identity_id now db)
unfolding revoke_browser_sessions
revoke_browser_sessions-Untouched identity_id now db = record {
  sessions = refl;
  credentials = refl;
  tokens = refl;
}
