-- ===== src/Auth/Sessions/Single.antt =====
-- The number of current credentials of a session, under the writes of prisma-auth-repository.ts.
use sme_data_center.Common.{
  ℕ, ◌+◌, ◌≤◌, Bool, true, false, ◌&&◌, Option, some, List, [], ◌∷◌, ◌==◌, ◌≡◌, refl, arith, ◌∙◌,
  find, count, any, All, All-map, All-update_many, update_many, Bool-cases, inl, inr, ==_refl,
}
use sme_data_center.Auth.Schema.{
  Reason, Audit, AuthSession, DurableCredential, AccessToken, Db, ok, is_current, SecurityEvent,
  log, create_session, create_credential, create_token,
}
use sme_data_center.Auth.Schema.Creation.{
  create_session-eq-ok, create_credential-eq-ok, create_token-eq-ok,
}
use sme_data_center.Auth.Sessions.{
  revoke_session_family, consume_credential, touch_token, is_active_session, end_session,
  is_live_credential, withdraw_credential, is_current_credential, mark_consumed, revoke_sessions,
}
use sme_data_center.Auth.Sessions.Family.{known-update_many, Untouched}

abbrev pub is_current_of : ℕ → DurableCredential → Bool
is_current_of id c = c.session_id == id && is_current c.status

abbrev pub is_known : ℕ → List AuthSession → Bool
is_known id sessions = any (λ (s : AuthSession). s.id == id) sessions

-- At most one credential of each session is current, and each credential's session is known.
pub record IsSingle (db : Db) : Type 0 where
  pub single : (id : ℕ) → count (is_current_of id) db.credentials ≤ 1
  pub known :
      All (λ (c : DurableCredential). is_known c.session_id db.sessions ≡ true) db.credentials

-- An update that makes no row pass the test counts no more rows.
count-update_many :
    {A : Type 0} (q p : A → Bool) (f : A → A) (xs : List A)
    → ((x : A) → q (f x) ≡ true → q x ≡ true)
    → count q (update_many p f xs) ≤ count q xs
count-update_many q p f [] keep = omega arith
count-update_many q p f (x ∷ xs) keep = ground (arith, keep x, count-update_many q p f xs keep)

-- Consuming a current credential that is found leaves one fewer.
pub count-consume :
    (hash now : ℕ) (c : DurableCredential) (xs : List DurableCredential)
    → find (λ (r : DurableCredential). r.credential_hash == hash) xs ≡ some c
    → is_current c.status ≡ true
    → count
          (is_current_of c.session_id)
          (update_many (is_current_credential c.id) (mark_consumed now) xs)
        + 1
      ≤ count (is_current_of c.session_id) xs
count-consume hash now c [] e cur = cc
count-consume hash now c (x ∷ xs) e cur =
    let rest =
      count-update_many (is_current_of c.session_id) (is_current_credential c.id)
        (mark_consumed now) xs (λ r k. ground arith) in
    elim (Bool-cases (x.credential_hash == hash)) [
      | inl hit ↦ let same : x ≡ c = ground arith in rw same (first c xs cur (omega (arith, rest)))
      | inr miss ↦
          let later = count-consume hash now c xs (ground arith) cur in
          step_over c x (omega (arith, later))
    ]
  where
    first :
        (c : DurableCredential) (xs : List DurableCredential)
        → is_current c.status ≡ true
        → count
            (is_current_of c.session_id)
            (update_many (is_current_credential c.id) (mark_consumed now) xs)
          ≤ count (is_current_of c.session_id) xs
        → count
              (is_current_of c.session_id)
              (update_many (is_current_credential c.id) (mark_consumed now) (c ∷ xs))
            + 1
          ≤ count (is_current_of c.session_id) (c ∷ xs)
    first c xs cur h = ground (arith, ==_refl c.id, ==_refl c.session_id)

    step_over :
        (c x : DurableCredential)
        → count
              (is_current_of c.session_id)
              (update_many (is_current_credential c.id) (mark_consumed now) xs)
            + 1
          ≤ count (is_current_of c.session_id) xs
        → count
              (is_current_of c.session_id)
              (update_many (is_current_credential c.id) (mark_consumed now) (x ∷ xs))
            + 1
          ≤ count (is_current_of c.session_id) (x ∷ xs)
    step_over c x h = ground arith

pub log-IsSingle : (e : SecurityEvent) (db : Db) → IsSingle db → IsSingle (log e db)
log-IsSingle e db h = record { single = h.single; known = h.known }

pub Untouched-IsSingle : (db later : Db) → Untouched db later → IsSingle db → IsSingle later
Untouched-IsSingle db later u h = record {
  single = rw u.credentials h.single;
  known = rw (u.sessions, u.credentials) h.known;
}

pub revoke-IsSingle :
    (id : ℕ) (reason : Reason) (now : ℕ) (db : Db)
    → IsSingle db
    → IsSingle (revoke_session_family id reason now db)
unfolding revoke_session_family
revoke-IsSingle id reason now db h = record {
  single = λ k.
      let fewer =
        count-update_many (is_current_of k) (is_live_credential id) (withdraw_credential now)
          db.credentials (λ c e. ground arith) in
      let one = h.single k in omega arith;
  known =
      All-update_many
        (λ (c : DurableCredential).
          is_known c.session_id
            (update_many (is_active_session id) (end_session reason now) db.sessions)
          ≡ true)
        (is_live_credential id) (withdraw_credential now) db.credentials (λ c e k. k)
        (All-map _ _ (λ c k. known-update_many c.session_id _ _ db.sessions (λ s. refl) ∙ k)
          db.credentials h.known);
}

pub consume-IsSingle :
    (id now : ℕ) (db : Db) → IsSingle db → IsSingle (consume_credential id now db)
unfolding consume_credential
consume-IsSingle id now db h = record {
  single = λ k.
      let fewer =
        count-update_many (is_current_of k) (is_current_credential id) (mark_consumed now)
          db.credentials (λ c e. ground arith) in
      let one = h.single k in omega arith;
  known =
      All-update_many (λ (c : DurableCredential). is_known c.session_id db.sessions ≡ true)
        (is_current_credential id) (mark_consumed now) db.credentials (λ c e k. k) h.known;
}

pub touch-IsSingle : (id now : ℕ) (db : Db) → IsSingle db → IsSingle (touch_token id now db)
unfolding touch_token
touch-IsSingle id now db h = record { single = h.single; known = h.known }

pub create_token-IsSingle :
    (t : AccessToken) (db later : Db) → create_token t db ≡ ok later → IsSingle db → IsSingle later
create_token-IsSingle t db later e h =
    rw (create_token-eq-ok t db e).1 (record { single = h.single; known = h.known })

-- A new credential of a known session without a current one.
pub create_credential-IsSingle :
    (c : DurableCredential) (db later : Db)
    → create_credential c db ≡ ok later
    → is_known c.session_id db.sessions ≡ true
    → count (is_current_of c.session_id) db.credentials ≡ 0
    → IsSingle db
    → IsSingle later
create_credential-IsSingle c db later e k zero_now h =
    rw (create_credential-eq-ok c db e).1 (record { single = single; known = (k, h.known) })
  where
    single : (id : ℕ) → count (is_current_of id) (c ∷ db.credentials) ≤ 1
    single id = elim (Bool-cases (c.session_id == id)) [
      | inl same ↦
          let eq : c.session_id ≡ id = ground arith in
          let none_left : count (is_current_of id) db.credentials ≡ 0 = rw eq at zero_now in
          ground arith
      | inr other ↦ ground (arith, h.single id)
    ]

-- A session that no credential can name has none.
no_credential :
    (id : ℕ) (sessions : List AuthSession) (xs : List DurableCredential)
    → is_known id sessions ≡ false
    → All (λ (c : DurableCredential). is_known c.session_id sessions ≡ true) xs
    → count (is_current_of id) xs ≡ 0
no_credential id sessions [] free h = refl
no_credential id sessions (c ∷ xs) free (k, h) = elim (Bool-cases (c.session_id == id)) [
  | inl same ↦ let eq : c.session_id ≡ id = ground arith in cc (eq, k, free)
  | inr other ↦ ground (arith, no_credential id sessions xs free h)
]

pub create_session-IsSingle :
    (s : AuthSession) (db later : Db)
    → create_session s db ≡ ok later
    → IsSingle db
    → (IsSingle later)
      × (is_known s.id later.sessions ≡ true)
      × (count (is_current_of s.id) later.credentials ≡ 0)
create_session-IsSingle s db later e h =
    let (free, same) = create_session-eq-ok s db e in
    rw same (
      record {
        single = h.single;
        known = All-map _ _ (λ c k. ground (arith, k)) db.credentials h.known;
      },
      ground (arith, ==_refl s.id),
      no_credential s.id db.sessions db.credentials free h.known,
    )

pub revoke_sessions-IsSingle :
    (owner : AuthSession → AuthSession) (xs : List AuthSession) (reason : Reason)
    (audit : Option Audit) (now : ℕ) (db : Db)
    → IsSingle db
    → IsSingle (revoke_sessions owner xs reason audit now db)
unfolding revoke_sessions
revoke_sessions-IsSingle owner [] reason audit now db h = h
revoke_sessions-IsSingle owner (s ∷ xs) reason audit now db h =
    revoke_sessions-IsSingle owner xs reason audit now _
      (log-IsSingle _ _ (revoke-IsSingle s.id reason now db h))
