-- ===== src/Auth/Login.antt =====
-- Password login: the cooldown of primitives.ts, `recordLoginFailure` and `resetLoginFailures` of
-- prisma-auth-repository.ts, and `verifyLogin` of auth-core.ts.
pub mod Frame
pub mod Apart
pub mod Failures
pub mod Outcome
mod Tests
use sme_data_center.Common.{
  ℕ, ◌+◌, ◌*◌, min, Bool, true, false, not, ◌&&◌, ◌||◌, if◌then◌else◌, Option, none, some, List, [],
  ◌∷◌, ◌==◌, ltb, leb, find, update_many, is_none, is_some,
}
use sme_data_center.Auth.Schema.{
  LoginIdentity, Employee, Reason, invalid_credentials, cooldown_active,
  identity_or_employee_disabled, progressive_cooldown, EventType, password_login_failed,
  password_login_succeeded, password_cooldown_entered, EventOutcome, succeeded, failed, refused,
  Audit, SecurityEvent, Db, Result, ok, err, ◌>>=◌, or_missing, log,
}

pub record Cooldown : Type 0 where
  pub failed_attempt_count : ℕ
  pub cooldown_level : ℕ
  pub cooldown_ms : Option ℕ

-- `[5, 10, 20, 40, 60][level - 1] ?? 60`, at a level from 1 on.
pub cooldown_minutes : ℕ → ℕ
cooldown_minutes level =
    if level == 1
    then 5
    else if level == 2
    then 10
    else if level == 3
    then 20
    else if level == 4
    then 40
    else 60

-- `cooldownAfterFailure`.
pub cooldown_after_failure : ℕ → ℕ → Cooldown
cooldown_after_failure failed_attempt_count cooldown_level =
    let next = failed_attempt_count + 1 in
    if ltb next 5
    then record { failed_attempt_count = next; cooldown_level = cooldown_level; cooldown_ms = none }
    else record {
      failed_attempt_count = next;
      cooldown_level = min (cooldown_level + 1) 5;
      cooldown_ms = some (cooldown_minutes (min (cooldown_level + 1) 5) * 60000);
    }

-- `CASE LEAST(cooldown_level + 1, 5) WHEN 1 THEN 5 ... ELSE 60 END`, in minutes.
pub sql_minutes : ℕ → ℕ
sql_minutes cooldown_level =
    let level = min (cooldown_level + 1) 5 in
    if level == 1
    then 5
    else if level == 2
    then 10
    else if level == 3
    then 20
    else if level == 4
    then 40
    else 60

-- The three assignments of the UPDATE, which MySQL makes from left to right, each from the row as
-- the ones before have left it.
pub set_cooldown_until : ℕ → LoginIdentity → LoginIdentity
set_cooldown_until now i = record i {
  cooldown_until =
      if ltb (i.failed_attempt_count + 1) 5
      then none
      else some (now + sql_minutes i.cooldown_level * 60000);
}

pub set_cooldown_level : LoginIdentity → LoginIdentity
set_cooldown_level i = record i {
  cooldown_level =
      if leb 5 (i.failed_attempt_count + 1) then min (i.cooldown_level + 1) 5 else i.cooldown_level;
}

pub count_failure : LoginIdentity → LoginIdentity
count_failure i = record i { failed_attempt_count = i.failed_attempt_count + 1 }

pub fail_identity : ℕ → LoginIdentity → LoginIdentity
unfolding set_cooldown_until set_cooldown_level count_failure
fail_identity now i = count_failure (set_cooldown_level (set_cooldown_until now i))

-- `cooldown_until IS NULL OR cooldown_until <= now`.
abbrev pub cooled_down : ℕ → Option ℕ → Bool
cooled_down now none = true
cooled_down now (some until) = leb until now

abbrev pub is_failing : ℕ → ℕ → LoginIdentity → Bool
is_failing identity_id now i = i.id == identity_id && cooled_down now i.cooldown_until

-- `identity?.cooldownUntil ?? null`.
abbrev pub cooldown_of : Option LoginIdentity → Option ℕ
cooldown_of none = none
cooldown_of (some i) = i.cooldown_until

abbrev pub with_id : ℕ → LoginIdentity → Bool
with_id id i = i.id == id

pub record_login_failure : ℕ → ℕ → Db → Option ℕ × Db
record_login_failure identity_id now db =
    let identities = update_many (is_failing identity_id now) (fail_identity now) db.identities in
    (cooldown_of (find (with_id identity_id) identities), record db { identities = identities })

abbrev pub clear_failures : LoginIdentity → LoginIdentity
clear_failures i = record i { failed_attempt_count = 0; cooldown_level = 0; cooldown_until = none }

pub reset_login_failures : ℕ → Db → Db
reset_login_failures identity_id db = record db {
  identities = update_many (with_id identity_id) clear_failures db.identities;
}

abbrev pub anonymous_event : EventType → EventOutcome → Reason → Option Audit → ℕ → SecurityEvent
anonymous_event event_type outcome reason audit now = record {
  event_type = event_type;
  outcome = outcome;
  reason = some reason;
  org_id = none;
  identity_id = none;
  employee_id = none;
  session_id = none;
  audit = audit;
  created_at = now;
}

abbrev pub login_event :
    EventType → EventOutcome → Option Reason → LoginIdentity → Option Audit → ℕ → SecurityEvent
login_event event_type outcome reason i audit now = record {
  event_type = event_type;
  outcome = outcome;
  reason = reason;
  org_id = some i.org_id;
  identity_id = some i.id;
  employee_id = some i.employee_id;
  session_id = none;
  audit = audit;
  created_at = now;
}

-- `identity.cooldownUntil !== null && identity.cooldownUntil > now`.
abbrev pub is_cooling : ℕ → Option ℕ → Bool
is_cooling now none = false
is_cooling now (some until) = ltb now until

pub record LoggedIn : Type 0 where
  pub identity_id : ℕ
  pub employee_id : ℕ
  pub org_id : ℕ
  pub credential_fingerprint : ℕ

-- `{ ok: false, reason: "invalid_credentials" }`, or the account.
pub data Login : Type 0 where
  rejected : Login
  logged_in : LoggedIn → Login

-- argon2 and SHA-256 are libraries': `verify` is `verifyPassword` and `fingerprint` is
-- `hashOpaqueSecret`.
pub record Crypto : Type 0 where
  pub verify : ℕ → ℕ → Bool
  pub fingerprint : ℕ → ℕ

-- A wrong password is counted, with one event, and a second one where a cooldown runs then.
pub reject_password : LoginIdentity → ℕ → Option Audit → Db → Login × Db
reject_password i now audit db =
    let (cooldown, counted) = record_login_failure i.id now db in
    let told =
      log (login_event password_login_failed failed (some invalid_credentials) i audit now)
        counted in
    (
      rejected,
      if is_some cooldown
          then log
              (login_event password_cooldown_entered refused (some progressive_cooldown) i audit
                now)
              told
          else told,
    )

pub accept_password : Crypto → LoginIdentity → ℕ → ℕ → Option Audit → Db → Login × Db
accept_password crypto i password_hash now audit db = (
  logged_in (record {
    identity_id = i.id;
    employee_id = i.employee_id;
    org_id = i.org_id;
    credential_fingerprint = crypto.fingerprint password_hash;
  }),
  log (login_event password_login_succeeded succeeded none i audit now)
      (reset_login_failures i.id db),
)

pub refuse_login : LoginIdentity → ℕ → Option Audit → Db → Login × Db
refuse_login i now audit db = (
  rejected,
  log
      (login_event password_login_failed refused
        (some (
          if is_cooling now i.cooldown_until
          then cooldown_active
          else identity_or_employee_disabled))
        i audit now)
      db,
)

-- `verifyLogin` once the identity and its employee are found.
pub verify_found : Crypto → ℕ → ℕ → Option Audit → LoginIdentity → Employee → Db → Login × Db
verify_found crypto password now audit i e db =
    if i.disabled || e.disabled || is_none i.password_hash || is_cooling now i.cooldown_until
    then refuse_login i now audit db
    else elim i.password_hash [
      | none ↦ refuse_login i now audit db
      | some hash ↦
          if crypto.verify password hash
          then accept_password crypto i hash now audit db
          else reject_password i now audit db
    ]

-- `email` is the normalized one.
pub verify_login : Crypto → ℕ → ℕ → ℕ → Option Audit → Db → Result (Login × Db)
verify_login crypto email password now audit db =
    elim (find (λ (i : LoginIdentity). i.normalized_email == email) db.identities) [
      | none ↦ ok (
        rejected,
        log (anonymous_event password_login_failed failed invalid_credentials audit now) db,
      )
      | some i ↦ do
        e ← or_missing (find (λ (e : Employee). e.id == i.employee_id) db.employees)
        ok (verify_found crypto password now audit i e db)
    ]
