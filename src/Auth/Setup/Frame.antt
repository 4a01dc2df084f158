-- ===== src/Auth/Setup/Frame.antt =====
-- Setup grants leave the session tables alone; a new password only ends sessions.
use sme_data_center.Common.{ℕ, List, arith, find, ◌==◌}
use sme_data_center.Auth.Schema.{
  LoginIdentity, SetupSession, SetupGrant, or_missing, Purpose, Db, create_grant,
  create_setup_session,
}
use sme_data_center.Auth.Sessions.{find_identity}
use sme_data_center.Auth.Sessions.Family.{
  IsDead, Untouched, Untouched-IsDead, revoke_sessions-IsDead, log-IsDead,
  revoke_browser_sessions-Untouched,
}
use sme_data_center.Auth.History.{
  after, Lands, Lands-ok, Lands-pair, Lands-bind, Lands-option, of-Lands,
}
use sme_data_center.Auth.Setup.{
  GrantInput, close_setup, replace_password_setup_grant, ExchangeInput, open_setup_session,
  exchange_found, exchange_password_setup_grant, ConsumeInput, reset_password, consume_found,
  consumed_db, consume_password_setup_session,
}

pub replace-Untouched :
    (input : GrantInput) (db : Db) → Untouched db (after db (replace_password_setup_grant input db))
unfolding replace_password_setup_grant close_setup create_grant
replace-Untouched input db = ground arith

pub exchange-Untouched :
    (input : ExchangeInput) (db : Db)
    → Untouched db (after db (exchange_password_setup_grant input db))
unfolding exchange_password_setup_grant exchange_found open_setup_session create_setup_session
exchange-Untouched input db = ground arith

-- The identities and the setup sessions may differ.
moved-IsDead :
    (id : ℕ) (db : Db) (identities : List LoginIdentity) (setup_sessions : List SetupSession)
    → IsDead id db
    → IsDead id (record db { identities = identities; setup_sessions = setup_sessions })
moved-IsDead id db identities setup_sessions d = record {
  known = d.known;
  sessions = d.sessions;
  credentials = d.credentials;
  tokens = d.tokens;
}

reset-IsDead :
    (id : ℕ) (input : ConsumeInput) (purpose : Purpose) (i : LoginIdentity) (db : Db)
    → IsDead id db
    → IsDead id (reset_password input purpose i db)
unfolding reset_password
reset-IsDead id input purpose i db d = log-IsDead id _ _ (
    revoke_sessions-IsDead id _ _ _ _ _ _ (
      Untouched-IsDead id _ _ (revoke_browser_sessions-Untouched i.id input.now _)
        (moved-IsDead id db _ db.setup_sessions d)))

consume_found_cases :
    (P : Db → Type 0) (input : ConsumeInput) (s : SetupSession) (purpose : Purpose)
    (i : LoginIdentity) (db : Db)
    → P db
    → P (consumed_db input s db)
    → P (reset_password input purpose i (consumed_db input s db))
    → P (consume_found input s purpose i db).1
unfolding consume_found
consume_found_cases P input s purpose i db p q r = ground arith

-- What holds before, once a setup session is consumed, and once its password is set, holds after.
pub consume_cases :
    (P : Db → Type 0) (input : ConsumeInput) (db : Db)
    → P db
    → ((s : SetupSession) → P (consumed_db input s db))
    → ((s : SetupSession) (purpose : Purpose) (i : LoginIdentity)
        → P (reset_password input purpose i (consumed_db input s db)))
    → P (after db (consume_password_setup_session input db))
unfolding consume_password_setup_session
consume_cases P input db d once set = of-Lands P db _ (lands d)
  where
    lands : P db → Lands P db (consume_password_setup_session input db)
    lands d =
        Lands-option P db
          (find (λ (s : SetupSession). s.session_hash == input.session_hash) db.setup_sessions) _ _
          (λ _. Lands-ok _ db _ _ d)
          λ s _.
            Lands-bind P db (or_missing (find (λ (g : SetupGrant). g.id == s.grant_id) db.grants)) _
              d
              λ g _. Lands-bind P db (or_missing (find_identity s.identity_id db)) _ d λ i _.
                Lands-pair P db _
                  (consume_found_cases P input s g.purpose i db d (once s) (set s g.purpose i))

pub consume-IsDead :
    (id : ℕ) (input : ConsumeInput) (db : Db)
    → IsDead id db
    → IsDead id (after db (consume_password_setup_session input db))
consume-IsDead id input db d =
    consume_cases (IsDead id) input db d (λ s. moved-IsDead id db db.identities _ d)
      λ s purpose i. reset-IsDead id input purpose i _ (moved-IsDead id db db.identities _ d)
