-- ===== src/Auth/Setup.antt =====
-- Password setup of prisma-auth-repository.ts: grants, setup sessions and the new password.
-- `exchange_found` and `consume_found` start from the row that the transaction has read.
pub mod Frame
pub mod Apart
pub mod Reset
pub mod Grants
pub mod Withdrawn
pub mod Once
pub mod Generations
mod Tests
use sme_data_center.Common.{
  ℕ, Bool, true, false, not, ◌&&◌, ◌||◌, if◌then◌else◌, Option, none, some, List, [], ◌∷◌, ◌==◌,
  ltb, leb, find, update_many, count, is_none, is_some,
}
use sme_data_center.Auth.Schema.{
  LoginIdentity, Employee, Purpose, SetupGrant, SetupSession, AuthSession, for_purpose,
  password_reset_done, Role, EventType, setup_grant_issued, setup_grant_consumed,
  password_setup_completed, succeeded, Audit, SecurityEvent, Db, Result, ok, err, ◌>>=◌, or_missing,
  log, create_grant, create_setup_session,
}
use sme_data_center.Auth.Sessions.{
  find_identity, find_employee, revoke_browser_sessions, active_sessions_of, revoke_sessions,
}

abbrev pub setup_event : EventType → Purpose → LoginIdentity → Option Audit → ℕ → SecurityEvent
setup_event event_type purpose i audit now = record {
  event_type = event_type;
  outcome = succeeded;
  reason = some (for_purpose purpose);
  org_id = some i.org_id;
  identity_id = some i.id;
  employee_id = some i.employee_id;
  session_id = none;
  audit = audit;
  created_at = now;
}

pub record GrantInput : Type 0 where
  pub identity_id : ℕ
  pub purpose : Purpose
  pub token_hash : ℕ
  pub expires_at : ℕ
  pub now : ℕ
  pub new_grant_id : ℕ

abbrev pub is_open_session : ℕ → SetupSession → Bool
is_open_session identity_id s =
    s.identity_id == identity_id && is_none s.consumed_at && is_none s.revoked_at

abbrev pub close_session : ℕ → SetupSession → SetupSession
close_session now s = record s { revoked_at = some now }

abbrev pub is_open_grant : ℕ → SetupGrant → Bool
is_open_grant identity_id g =
    g.identity_id == identity_id && is_none g.used_at && is_none g.revoked_at

abbrev pub close_grant : ℕ → SetupGrant → SetupGrant
close_grant now g = record g { revoked_at = some now }

abbrev pub new_grant : GrantInput → SetupGrant
new_grant input = record {
  id = input.new_grant_id;
  identity_id = input.identity_id;
  purpose = input.purpose;
  token_hash = input.token_hash;
  expires_at = input.expires_at;
  used_at = none;
  revoked_at = none;
}

-- What an earlier grant of the identity has opened is closed.
pub close_setup : ℕ → ℕ → Db → Db
close_setup identity_id now db = record db {
  setup_sessions = update_many (is_open_session identity_id) (close_session now) db.setup_sessions;
  grants = update_many (is_open_grant identity_id) (close_grant now) db.grants;
}

pub replace_password_setup_grant : GrantInput → Db → Result (ℕ × Db)
replace_password_setup_grant input db = do
  i ← or_missing (find_identity input.identity_id db)
  created ← create_grant (new_grant input) (close_setup input.identity_id input.now db)
  ok (
    input.new_grant_id,
    log (setup_event setup_grant_issued input.purpose i none input.now) created,
  )

pub record ExchangeInput : Type 0 where
  pub grant_token_hash : ℕ
  pub session_hash : ℕ
  pub expires_at : ℕ
  pub now : ℕ
  pub audit : Option Audit
  pub new_setup_session_id : ℕ

abbrev pub is_claimable : ℕ → ℕ → SetupGrant → Bool
is_claimable id now g =
    g.id == id && is_none g.used_at && is_none g.revoked_at && ltb now g.expires_at

abbrev pub use_grant : ℕ → SetupGrant → SetupGrant
use_grant now g = record g { used_at = some now }

abbrev pub new_setup_session : ExchangeInput → SetupGrant → SetupSession
new_setup_session input g = record {
  id = input.new_setup_session_id;
  identity_id = g.identity_id;
  grant_id = g.id;
  session_hash = input.session_hash;
  expires_at = input.expires_at;
  consumed_at = none;
  revoked_at = none;
}

-- The writes of the exchange after the claim.
pub open_setup_session : ExchangeInput → SetupGrant → Db → Result (Option (ℕ × Purpose) × Db)
open_setup_session input g db = do
  created ← create_setup_session (new_setup_session input g) db
  i ← or_missing (find_identity g.identity_id created)
  ok (
    some (g.identity_id, g.purpose),
    log (setup_event setup_grant_consumed g.purpose i input.audit input.now) created,
  )

pub exchange_found : ExchangeInput → SetupGrant → Db → Result (Option (ℕ × Purpose) × Db)
exchange_found input g db =
    let after = record db {
      grants = update_many (is_claimable g.id input.now) (use_grant input.now) db.grants;
    } in
    if is_some g.used_at || is_some g.revoked_at || leb g.expires_at input.now
    then ok (none, db)
    else if count (is_claimable g.id input.now) db.grants == 1
    then open_setup_session input g after
    else ok (none, after)

pub exchange_password_setup_grant : ExchangeInput → Db → Result (Option (ℕ × Purpose) × Db)
exchange_password_setup_grant input db =
    elim (find (λ (g : SetupGrant). g.token_hash == input.grant_token_hash) db.grants) [
      | none ↦ ok (none, db)
      | some g ↦ exchange_found input g db
    ]

abbrev pub is_usable_setup : ℕ → ℕ → SetupSession → Bool
is_usable_setup session_hash now s =
    s.session_hash == session_hash
    && is_none s.consumed_at
    && is_none s.revoked_at
    && ltb now s.expires_at

pub record SetupAccount : Type 0 where
  pub display_name : ℕ
  pub email : ℕ
  pub organization_name : ℕ
  pub role : Role

pub find_password_setup_account : ℕ → ℕ → Db → Result (Option SetupAccount)
find_password_setup_account session_hash now db =
    elim (find (is_usable_setup session_hash now) db.setup_sessions) [
      | none ↦ ok none
      | some s ↦ do
        i ← or_missing (find_identity s.identity_id db)
        e ← or_missing (find_employee i.employee_id db)
        ok (
            some (record {
              display_name = e.display_name;
              email = i.normalized_email;
              organization_name = e.organization_name;
              role = e.role;
            }))
    ]

pub record ConsumeInput : Type 0 where
  pub session_hash : ℕ
  pub password_hash : ℕ
  pub now : ℕ
  pub audit : Option Audit

abbrev pub is_consumable : ℕ → ℕ → SetupSession → Bool
is_consumable id now s =
    s.id == id && is_none s.consumed_at && is_none s.revoked_at && ltb now s.expires_at

abbrev pub consume_setup : ℕ → SetupSession → SetupSession
consume_setup now s = record s { consumed_at = some now }

abbrev pub set_password : ℕ → LoginIdentity → LoginIdentity
set_password password_hash i = record i {
  password_hash = some password_hash;
  failed_attempt_count = 0;
  cooldown_level = 0;
  cooldown_until = none;
}

-- The session as an event of a password reset names it: by the identity's account.
abbrev pub reset_owner : LoginIdentity → AuthSession → AuthSession
reset_owner i s = record s { org_id = i.org_id; identity_id = i.id; employee_id = i.employee_id }

-- The new password ends each session of the identity.
pub reset_password : ConsumeInput → Purpose → LoginIdentity → Db → Db
reset_password input purpose i db =
    let with_password = record db {
      identities =
          update_many (λ (r : LoginIdentity). r.id == i.id) (set_password input.password_hash)
            db.identities;
    } in
    let signed_out = revoke_browser_sessions i.id input.now with_password in
    log (setup_event password_setup_completed purpose i input.audit input.now) (
      revoke_sessions (reset_owner i) (active_sessions_of i.id signed_out) password_reset_done
        input.audit input.now signed_out)

-- The setup session is consumed, if it still can be.
abbrev pub consumed_db : ConsumeInput → SetupSession → Db → Db
consumed_db input s db = record db {
  setup_sessions =
      update_many (is_consumable s.id input.now) (consume_setup input.now) db.setup_sessions;
}

pub consume_found : ConsumeInput → SetupSession → Purpose → LoginIdentity → Db → Bool × Db
consume_found input s purpose i db =
    if is_some s.consumed_at || is_some s.revoked_at || leb s.expires_at input.now
    then (false, db)
    else if count (is_consumable s.id input.now) db.setup_sessions == 1
    then (true, reset_password input purpose i (consumed_db input s db))
    else (false, consumed_db input s db)

pub consume_password_setup_session : ConsumeInput → Db → Result (Bool × Db)
consume_password_setup_session input db =
    elim (find (λ (s : SetupSession). s.session_hash == input.session_hash) db.setup_sessions) [
      | none ↦ ok (false, db)
      | some s ↦ do
        g ← or_missing (find (λ (g : SetupGrant). g.id == s.grant_id) db.grants)
        i ← or_missing (find_identity s.identity_id db)
        ok (consume_found input s g.purpose i db)
    ]
