-- ===== src/Auth/Sessions/Everywhere.antt =====
-- Ending all the sessions of an identity.
use sme_data_center.Common.{
  ℕ, Bool, true, ◌&&◌, Option, some, List, [], ◌∷◌, ◌==◌, ◌≡◌, refl, arith, ◌∙◌, find, find_many,
  find-any, any, Bool-cases, inl, inr, subst, sym,
}
use sme_data_center.Auth.Schema.{Reason, Audit, AuthSession, Db, is_active}
use sme_data_center.Auth.Sessions.{
  revoke_sessions, revoke_session_family, find_session, active_sessions_of,
}
use sme_data_center.Auth.Sessions.Family.{
  IsDead, revoke-IsDead, log-IsDead, revoke_sessions-IsDead, known-update_many,
}

abbrev has_id : ℕ → AuthSession → Bool
has_id id s = s.id == id

revoke-known :
    (id other : ℕ) (reason : Reason) (now : ℕ) (db : Db)
    → any (has_id id) (revoke_session_family other reason now db).sessions
      ≡ any (has_id id) db.sessions
unfolding revoke_session_family
revoke-known id other reason now db = known-update_many id _ _ db.sessions (λ s. refl)

-- Each listed session that is known ends.
pub revoke_sessions-ends :
    (id : ℕ) (owner : AuthSession → AuthSession) (xs : List AuthSession) (reason : Reason)
    (audit : Option Audit) (now : ℕ) (db : Db)
    → any (has_id id) xs ≡ true
    → any (has_id id) db.sessions ≡ true
    → IsDead id (revoke_sessions owner xs reason audit now db)
unfolding revoke_sessions
revoke_sessions-ends id owner [] reason audit now db listed known = cc
revoke_sessions-ends id owner (s ∷ xs) reason audit now db listed known =
    elim (Bool-cases (s.id == id)) [
      | inl e ↦
          let same : s.id ≡ id = ground arith in
          revoke_sessions-IsDead id owner xs reason audit now _ (
            log-IsDead id _ _ (
              subst (λ k. IsDead id (revoke_session_family k reason now db)) (sym same)
                (revoke-IsDead id reason now db known)))
      | inr e ↦
          revoke_sessions-ends id owner xs reason audit now _ (ground arith)
            (revoke-known id s.id reason now db ∙ known)
    ]

-- A session that is found, active and of the identity is listed.
active-listed :
    (identity_id id : ℕ) (db : Db) (r : AuthSession)
    → find_session id db ≡ some r
    → r.identity_id ≡ identity_id
    → is_active r.status ≡ true
    → any (has_id id) (active_sessions_of identity_id db) ≡ true
active-listed identity_id id db r found same act = go db.sessions found
  where
    go :
        (xs : List AuthSession)
        → find (λ (s : AuthSession). s.id == id) xs ≡ some r
        → any
            (has_id id)
            (find_many (λ (s : AuthSession). s.identity_id == identity_id && is_active s.status) xs)
          ≡ true
    go [] e = cc
    go (s ∷ xs) e = ground (arith, go xs)

-- The sessions of an identity end, each that is active.
pub revoke_sessions-everywhere :
    (identity_id id : ℕ) (owner : AuthSession → AuthSession) (reason : Reason)
    (audit : Option Audit) (now : ℕ) (db : Db) (r : AuthSession)
    → find_session id db ≡ some r
    → r.identity_id ≡ identity_id
    → is_active r.status ≡ true
    → IsDead id (revoke_sessions owner (active_sessions_of identity_id db) reason audit now db)
revoke_sessions-everywhere identity_id id owner reason audit now db r found same act =
    revoke_sessions-ends id owner _ reason audit now db
      (active-listed identity_id id db r found same act) (find-any (has_id id) db.sessions r found)
