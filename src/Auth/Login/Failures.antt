-- ===== src/Auth/Login/Failures.antt =====
-- The cooldown after wrong passwords: the UPDATE of `recordLoginFailure` and the function
-- `cooldownAfterFailure` of primitives.ts compute the same.
use sme_data_center.Common.{
  ℕ, ◌+◌, true, Option, none, some, ◌≡◌, refl, arith, find, if◌then◌else◌, find_holds,
  find-update_many, ap, ◌∙◌,
}
use sme_data_center.Auth.Schema.{LoginIdentity, Db}
use sme_data_center.Auth.Login.{
  Cooldown, cooldown_minutes, cooldown_after_failure, sql_minutes, set_cooldown_until,
  set_cooldown_level, count_failure, fail_identity, record_login_failure, is_failing, with_id,
  cooldown_of, cooled_down,
}

-- `now.getTime() + cooldownMs`, where there is a cooldown.
abbrev pub until_after : ℕ → Option ℕ → Option ℕ
until_after now none = none
until_after now (some ms) = some (now + ms)

-- A row that has failed once more.
abbrev pub failed_row : ℕ → LoginIdentity → Cooldown → LoginIdentity
failed_row now i c = record i {
  failed_attempt_count = c.failed_attempt_count;
  cooldown_level = c.cooldown_level;
  cooldown_until = until_after now c.cooldown_ms;
}

-- The three assignments of the UPDATE, made from left to right, leave the row with the count, the
-- level and the end of the cooldown that `cooldownAfterFailure` computes from the row before.
pub fail_identity-eq :
    (now : ℕ) (i : LoginIdentity)
    → fail_identity now i
      ≡ failed_row now i (cooldown_after_failure i.failed_attempt_count i.cooldown_level)
unfolding fail_identity set_cooldown_until set_cooldown_level count_failure cooldown_after_failure
    sql_minutes cooldown_minutes
fail_identity-eq now i = ground arith

kept_id : (id now : ℕ) (y : LoginIdentity) → with_id id (fail_identity now y) ≡ with_id id y
unfolding fail_identity set_cooldown_until set_cooldown_level count_failure
kept_id id now y = refl

-- What the database reports after a failure is the cooldown of the row that has failed, where none
-- ran: the row is found, it is counted once, and the reported end is the one that
-- `cooldownAfterFailure` gives. Where a cooldown runs, the row stays as it was.
pub record_failure-found :
    (id now : ℕ) (db : Db) (i : LoginIdentity)
    → find (with_id id) db.identities ≡ some i
    → (find (with_id id) (record_login_failure id now db).1.identities
        ≡ some (
            if cooled_down now i.cooldown_until
            then failed_row now i (cooldown_after_failure i.failed_attempt_count i.cooldown_level)
            else i))
      × ((record_login_failure id now db).0 ≡ (
          if cooled_down now i.cooldown_until
          then until_after now
              (cooldown_after_failure i.failed_attempt_count i.cooldown_level).cooldown_ms
          else i.cooldown_until))
unfolding record_login_failure
record_failure-found id now db i found =
    let e =
      find-update_many (with_id id) (is_failing id now) (fail_identity now) db.identities i
        (kept_id id now) found
      ∙ ap some (counted i (find_holds (with_id id) db.identities i found)) in
    (e, ap cooldown_of e ∙ shown i)
  where
    counted :
        (i : LoginIdentity)
        → with_id id i ≡ true
        → (if is_failing id now i then fail_identity now i else i) ≡ (
            if cooled_down now i.cooldown_until
            then failed_row now i (cooldown_after_failure i.failed_attempt_count i.cooldown_level)
            else i)
    counted i same = rw (fail_identity-eq now i) (ground arith)

    shown :
        (i : LoginIdentity)
        → cooldown_of (
            some (
              if cooled_down now i.cooldown_until
              then failed_row now i (cooldown_after_failure i.failed_attempt_count i.cooldown_level)
              else i))
          ≡ (if cooled_down now i.cooldown_until
              then until_after now
                  (cooldown_after_failure i.failed_attempt_count i.cooldown_level).cooldown_ms
              else i.cooldown_until)
    shown i = ground arith
