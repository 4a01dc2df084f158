-- ===== src/Retry/Bounds.antt =====
-- How often the operation is called, and what the loop answers.
use sme_data_center.Common.{
  ℕ, zero, suc, ◌+◌, ◌≤◌, Bool, true, false, not, Option, some, List, [], ◌==◌, ◌≡◌, ◌⊎◌, inl, inr,
  refl, ap, arith, Bool-cases,
}
use sme_data_center.Retry.{
  Details, RetryEvent, Outcome, returned, thrown, is_transient, settle, attempts, retry,
}

abbrev pub is_settled : {A : Type 0} → Outcome A → Bool
is_settled (returned a) = true
is_settled (thrown details) = not (is_transient details)

-- The n-th call of the operation is reached, each one before it having thrown a transient error.
module _ {A W : Type 0} (operation : W → Outcome A × W) where
  pub data Reaches : ℕ → W → Outcome A → W → Type 0 where
    first :
        {world after : W} {outcome : Outcome A}
        → operation world ≡ (outcome, after)
        → Reaches 1 world outcome after
    again :
        {n : ℕ} {world mid after : W} {failed outcome : Outcome A}
        → operation world ≡ (failed, mid)
        → is_settled failed ≡ false
        → Reaches n mid outcome after
        → Reaches (suc n) world outcome after

  -- What the loop answers with some calls left: the outcome of one of them, which is the last one or
  -- is no transient error.
  pub record Answer (left : ℕ) (world : W) (answer : Option (Outcome A × List RetryEvent × W))
      : Type 0 where
    pub calls : ℕ
    pub outcome : Outcome A
    pub events : List RetryEvent
    pub after : W
    pub answered : answer ≡ some (outcome, events, after)
    pub reached : Reaches calls world outcome after
    pub bounded : calls ≤ left
    pub last : (calls ≡ left) ⊎ (is_settled outcome ≡ true)

  settled :
      (left : ℕ) (world : W) (outcome : Outcome A) (events : List RetryEvent) (after : W)
      → 1 ≤ left
      → operation world ≡ (outcome, after)
      → (1 ≡ left) ⊎ (is_settled outcome ≡ true)
      → Answer left world (some (outcome, events, after))
  settled left world outcome events after some_left e last = record {
    calls = 1;
    outcome = outcome;
    events = events;
    after = after;
    answered = refl;
    reached = first e;
    bounded = some_left;
    last = last;
  }

  -- One more call before an answer.
  postponed :
      (left : ℕ) (world : W) (details : Details) (mid : W)
      (answer : Option (Outcome A × List RetryEvent × W))
      → operation world ≡ (thrown details, mid)
      → is_transient details ≡ true
      → Answer left mid answer
      → Answer (suc left) world answer
  postponed left world details mid answer e transient later = record {
    calls = suc later.calls;
    outcome = later.outcome;
    events = later.events;
    after = later.after;
    answered = later.answered;
    reached = again e (rw transient refl) later.reached;
    bounded = omega (arith, later.bounded);
    last = one_more later.last;
  }
    where
      one_more : {k n : ℕ} {P : Type 0} → (k ≡ n) ⊎ P → (suc k ≡ suc n) ⊎ P
      one_more (inl h) = inl (ap suc h)
      one_more (inr p) = inr p

  called :
      (left : ℕ) (loop : ℕ → List RetryEvent → W → Option (Outcome A × List RetryEvent × W))
      (attempt : ℕ) (events : List RetryEvent) (world : W) (call : Outcome A × W)
      → operation world ≡ call
      → attempt + left ≡ 3
      → ((later : List RetryEvent) (mid : W)
          → 1 ≤ left
          → Answer left mid (loop (suc attempt) later mid))
      → Answer (suc left) world (settle operation loop attempt events call)
  unfolding settle
  called left loop attempt events world (returned a, mid) e sum rest =
      settled (suc left) world (returned a) _ mid (omega arith) e (inr refl)
  called left loop attempt events world (thrown details, mid) e sum rest =
      elim (Bool-cases (is_transient details)) [
        | inr other ↦ rw other (
            settled (suc left) world (thrown details) events mid (omega arith) e
              (inr (rw other refl)))
        | inl transient ↦ elim (Bool-cases (attempt == 3)) [
          | inl third ↦
              rw (transient, third)
                (settled (suc left) world (thrown details) _ mid (omega arith) e
                  (inl (ground arith)))
          | inr before ↦
              rw (transient, before)
                (postponed left world details mid _ e transient (rest _ mid (ground arith)))
        ]
      ]

  attempts-Answer :
      (fuel left attempt : ℕ) (events : List RetryEvent) (world : W)
      → attempt + left ≡ 3
      → suc left ≤ fuel
      → Answer (suc left) world (attempts operation fuel attempt events world)
  unfolding attempts
  attempts-Answer zero left attempt events world sum enough = absurd (omega (arith, enough))
  attempts-Answer (suc fuel) zero attempt events world sum enough =
      called zero (attempts operation fuel) attempt events world (operation world) refl sum
        (λ later mid some_left. absurd (omega (arith, some_left)))
  attempts-Answer (suc fuel) (suc left) attempt events world sum enough =
      called (suc left) (attempts operation fuel) attempt events world (operation world) refl sum
        (λ later mid some_left.
          attempts-Answer fuel left (suc attempt) later mid (omega arith) (omega arith))

  -- With fuel for three calls or more, the loop ends: it calls the operation three times at most, and
  -- answers what the last call did, which is the third call or one that did not throw a transient
  -- error; every call before it threw one.
  pub retry-Answer : (fuel : ℕ) (world : W) → 3 ≤ fuel → Answer 3 world (retry operation fuel world)
  unfolding retry
  retry-Answer fuel world enough = attempts-Answer fuel 2 1 [] world refl enough
