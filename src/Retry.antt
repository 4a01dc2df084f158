-- ===== src/Retry.antt =====
-- `retryIdempotentDatabaseOperation` of packages/db/src/retry.ts, the loop around the transactions of
-- packages/db.
-- An operation is a function of the world that it reads and leaves; a code "P<n>" is the number n,
-- and what `databaseErrorDetails` reads from an error is what an error is. A delay is an event's.
pub mod Bounds
mod Tests
use sme_data_center.Common.{
  ℕ, zero, suc, ◌+◌, Bool, true, false, ◌||◌, if◌then◌else◌, Option, none, some, List, [], ◌∷◌,
  ◌==◌,
}

pub record Details : Type 0 where
  pub code : Option ℕ
  pub mysql_code : Option ℕ

pub data EventOutcome : Type 0 where
  retrying recovered exhausted : EventOutcome

pub record RetryEvent : Type 0 where
  pub outcome : EventOutcome
  pub attempt : ℕ
  pub max_attempts : ℕ
  pub delay_ms : Option ℕ
  pub details : Option Details

-- What one call of the operation does.
pub data Outcome (A : Type 0) : Type 0 where
  returned : A → Outcome A
  thrown : Details → Outcome A

abbrev pub max_attempts : ℕ
max_attempts = 3

-- The value of a column is one of the codes.
abbrev pub is_one_of : List ℕ → Option ℕ → Bool
is_one_of [] code = false
is_one_of (c ∷ codes) none = false
is_one_of (c ∷ codes) (some n) = n == c || is_one_of codes (some n)

pub is_transient : Details → Bool
is_transient details =
    is_one_of (1001 ∷ 1017 ∷ 2034 ∷ []) details.code
    || is_one_of (1205 ∷ 1213 ∷ 1835 ∷ 2006 ∷ 2013 ∷ []) details.mysql_code

abbrev pub recovered_event : ℕ → RetryEvent
recovered_event attempt = record {
  outcome = recovered;
  attempt = attempt;
  max_attempts = max_attempts;
  delay_ms = none;
  details = none;
}

abbrev pub exhausted_event : ℕ → Details → RetryEvent
exhausted_event attempt details = record {
  outcome = exhausted;
  attempt = attempt;
  max_attempts = max_attempts;
  delay_ms = none;
  details = some details;
}

abbrev pub retrying_event : ℕ → Details → RetryEvent
retrying_event attempt details = record {
  outcome = retrying;
  attempt = attempt;
  max_attempts = max_attempts;
  delay_ms = some (if attempt == 1 then 100 else 300);
  details = some details;
}

module _ {A W : Type 0} (operation : W → Outcome A × W) where
  -- After a call of the operation: the loop is left, or goes on from the next attempt.
  pub settle :
      (ℕ → List RetryEvent → W → Option (Outcome A × List RetryEvent × W))
      → ℕ
      → List RetryEvent
      → Outcome A × W
      → Option (Outcome A × List RetryEvent × W)
  settle loop attempt events (returned a, world) =
      some (returned a, if attempt == 1 then events else recovered_event attempt ∷ events, world)
  settle loop attempt events (thrown details, world) =
      if is_transient details
      then (if attempt == max_attempts
          then some (thrown details, exhausted_event attempt details ∷ events, world)
          else loop (suc attempt) (retrying_event attempt details ∷ events) world)
      else some (thrown details, events, world)

  -- The loop from an attempt, with the events so far, the last one first; `none` is out of fuel.
  pub attempts : ℕ → ℕ → List RetryEvent → W → Option (Outcome A × List RetryEvent × W)
  attempts zero attempt events world = none
  attempts (suc fuel) attempt events world = settle (attempts fuel) attempt events (operation world)

  pub retry : ℕ → W → Option (Outcome A × List RetryEvent × W)
  retry fuel world = attempts fuel 1 [] world
