-- ===== src/Downloads/Soundness.antt =====
-- What holds of every request in any history.
use sme_data_center.Common.{
  ℕ, ◌≤◌, true, false, ◌||◌, none, List, ◌≡◌, ◌⊎◌, arith, All, All-update_many, is_some,
}
use sme_data_center.Downloads.Schema.{
  Code, succeeded, Request, Db, Env, is_live, is_failed, is_expired,
}
use sme_data_center.Downloads.Requests.{Ending, as_failed, as_expired, end_request}
use sme_data_center.Downloads.Workers.{Artifact, start, progress, hold_artifact}
use sme_data_center.Downloads.History.{Call, run}
use sme_data_center.Downloads.Transitions.{
  has_id, IsNew, ◌⇒◌, creates, begins, advances, finishes, ends,
}
use sme_data_center.Downloads.Transitions.Rules.{Unique, step-Unique, ⇒*_inv}
use sme_data_center.Downloads.Transitions.Updates.{All-update_one}
use sme_data_center.Downloads.Refinement.Histories.{run-⇒*}

-- The progress is within bounds, only a published request has an artifact and its progress is
-- complete, and a request that has ended says why.
pub record IsSound (row : Request) : Type 0 where
  pub in_bounds : row.completed ≤ row.partition_count
  pub artifact : (row.object_key ≡ none) ⊎ (row.status ≡ succeeded)
  pub complete :
      (is_live row.status ≡ true)
      ⊎ (is_failed row.status ≡ true)
      ⊎ (is_expired row.status ≡ true)
      ⊎ (row.completed ≡ row.partition_count)
  pub explained :
      ((is_failed row.status || is_expired row.status) ≡ false) ⊎ (is_some row.error_code ≡ true)

new-IsSound : (row : Request) → IsNew row → IsSound row
new-IsSound row new = ground (arith, new.status, new.nothing_done, new.no_artifact)

started-IsSound : (row : Request) → is_live row.status ≡ true → IsSound row → IsSound (start row)
started-IsSound row live h = ground (arith, h.in_bounds, h.artifact, h.complete, h.explained)

advanced-IsSound :
    (row : Request) (n : ℕ)
    → is_live row.status ≡ true
    → n ≤ row.partition_count
    → IsSound row
    → IsSound (progress n row)
advanced-IsSound row n live high h =
    ground (arith, h.in_bounds, h.artifact, h.complete, h.explained)

finished-IsSound : (artifact : Artifact) (row : Request) → IsSound (hold_artifact artifact row)
finished-IsSound artifact row = ground arith

ended-IsSound :
    (ending : Ending) (code : Code) (row : Request)
    → IsSound row
    → IsSound (end_request ending code row)
ended-IsSound as_failed code row h = ground (arith, h.in_bounds)
ended-IsSound as_expired code row h = ground (arith, h.in_bounds)

-- Every step keeps the requests sound.
step-IsSound :
    {xs ys : List Request} → xs ⇒ ys → Unique xs × All IsSound xs → Unique ys × All IsSound ys
step-IsSound s (unique, h) = (step-Unique s unique, sound s unique h)
  where
    sound : {xs ys : List Request} → xs ⇒ ys → Unique xs → All IsSound xs → All IsSound ys
    sound (creates row free unkeyed new) u h = (new-IsSound row new, h)
    sound (begins {rows} id row e live) u h =
        All-update_one id start IsSound rows row u e (started-IsSound row live) h
    sound (advances {rows} id row n e live low high) u h =
        All-update_one id (progress n) IsSound rows row u e (advanced-IsSound row n live high) h
    sound (finishes {rows} id row artifact e live short) u h =
        All-update_one id (hold_artifact artifact) IsSound rows row u e
          (λ p. finished-IsSound artifact row) h
    sound (ends {rows} id ending code) u h =
        All-update_many IsSound (has_id id) (end_request ending code) rows
          (λ r t p. ended-IsSound ending code r p) h

-- Whatever calls are made, the requests stay sound: the progress is within the number of partitions,
-- only a published request has an artifact and its progress is complete, and a request that has
-- failed or expired has an error code.
pub run-IsSound :
    (env : Env) (calls : List Call) (db : Db)
    → Unique db.requests
    → All IsSound db.requests
    → All IsSound (run env db calls).requests
run-IsSound env calls db unique h =
    (⇒*_inv (λ rows. Unique rows × All IsSound rows) (λ xs ys. step-IsSound)
      (run-⇒* env calls db unique) (unique, h)).1
