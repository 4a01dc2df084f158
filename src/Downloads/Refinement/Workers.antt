-- ===== src/Downloads/Refinement/Workers.antt =====
-- The operations of a worker are steps of the abstract view.
use sme_data_center.Common.{
  ◌≤◌, Bool, true, false, not, ◌||◌, if◌then◌else◌, none, some, ◌≡◌, sym, arith, subst, Text, ltb,
  ◌==◌, count, length,
}
use sme_data_center.Downloads.Schema.{
  ℤ, pos, negsuc, Code, candidate, artifact_expired, Request, Db, Env, Result, ok, err, ◌>>=◌,
  is_live, enqueue_garbage, update_request, invalid_progress, invalid_object_key,
  candidate_required, invalid_artifact,
}
use sme_data_center.Downloads.Requests.{
  Times, checked, run_matched, ended_at, garbage_queued, as_failed, Lease, is_held,
}
use sme_data_center.Downloads.Workers.{
  Artifact, start, internal, worker_view, start_checked, start_found, mark_running, is_progress,
  completed_of, progress, progress_found, record_progress, safe_code, fail_found, fail, key_prefix,
  starts_with, register_found, register_candidate, is_candidate, is_publishable, hold_artifact,
  settle_garbage, finish_runs, publish_live, publish_checked, publish_found, publish,
}
use sme_data_center.Downloads.Transitions.{row_at, ◌⇒*◌, here, begins, advances, finishes}
use sme_data_center.Downloads.Transitions.Rules.{Unique}
use sme_data_center.Downloads.Transitions.Transactions.{
  Refines, Refines-ok, Refines-err, Refines-use, Refines-bind, Refines-if, Refines-done,
  terminate-⇒, update-⇒, enqueue-requests,
}
use sme_data_center.Downloads.Refinement.{checked-⇒, fenced-⇒}

progress_bounds :
    (n : ℤ) (row : Request)
    → is_progress n row ≡ true
    → row.completed ≤ completed_of n × completed_of n ≤ row.partition_count
unfolding is_progress completed_of
progress_bounds (negsuc n) row h = cc
progress_bounds (pos n) row h = ground arith

module _ (env : Env) (at : Times) (lease : Lease) (db : Db) (unique : Unique db.requests) where
  pub mark_running-⇒ : Refines db.requests (mark_running env lease at db)
  unfolding mark_running start_found start_checked
  mark_running-⇒ = fenced-⇒ none env at lease _ db unique (λ row e live.
      checked-⇒ none env at db row start_checked (started row e live)
        (λ shown later ended. rw ended (Refines-ok _ none later here)))
    where
      started :
          (row : Request)
          → row_at row.id db.requests ≡ some row
          → is_live row.status ≡ true
          → Refines db.requests (start_checked (row, db))
      started row e live = rw live (
          Refines-bind _ (update_request row.id start db) _ (λ (updated : Request × Db) u.
            Refines-bind _ (internal updated.0 (worker_view updated.0)) _ (λ view v.
              Refines-ok _ (some view) updated.1
                (Refines-use _ _ (update-⇒ row.id start db (begins row.id row e live)) u))))

  pub record_progress-⇒ : (n : ℤ) → Refines db.requests (record_progress env lease n at db)
  unfolding record_progress progress_found
  record_progress-⇒ n = fenced-⇒ false env at lease (progress_found n) db unique (λ row e live.
      Refines-if _ (not (is_progress n row)) _ _ (λ h. Refines-err _ Bool invalid_progress)
        (λ h.
          Refines-done _ true (update_request row.id (progress (completed_of n)) db)
            (advanced row e live (progress_bounds n row (ground arith)))))
    where
      advanced :
          (row : Request)
          → row_at row.id db.requests ≡ some row
          → is_live row.status ≡ true
          → row.completed ≤ completed_of n × completed_of n ≤ row.partition_count
          → Refines db.requests (update_request row.id (progress (completed_of n)) db)
      advanced row e live (low, high) =
          update-⇒ row.id (progress (completed_of n)) db
            (advances row.id row (completed_of n) e live low high)

  pub fail-⇒ : (code : Code) → Refines db.requests (fail env lease code at db)
  unfolding fail fail_found
  fail-⇒ code = fenced-⇒ false env at lease (fail_found env code at) db unique (λ row e live.
      Refines-done _ true _ (terminate-⇒ env row as_failed (safe_code code) (at ended_at) at db))

  pub register-⇒ : (key : Text) → Refines db.requests (register_candidate env lease key at db)
  unfolding register_candidate register_found
  register-⇒ key =
      fenced-⇒ false env at lease (register_found env lease key at) db unique (λ row e live.
        Refines-if _ (not (starts_with (key_prefix env lease) key) || ltb 1024 (length key)) _ _
          (λ h. Refines-err _ Bool invalid_object_key)
          (λ h.
            Refines-bind _
              (enqueue_garbage env key candidate (at garbage_queued) (some lease.run_id) db) _
              (λ later x. Refines-ok _ true later (
                subst (λ rows. db.requests ⇒* rows)
                  (sym (enqueue-requests env key candidate _ _ db x)) here))))

  settled :
      (artifact : Artifact) (m : Result (Request × Db))
      → Refines db.requests m
      → Refines db.requests
          (do updated ← m; later ← settle_garbage env artifact updated.1; ok (true, later))
  unfolding settle_garbage
  settled artifact m s = Refines-bind _ m _ (λ (updated : Request × Db) u.
      Refines-bind _ (settle_garbage env artifact updated.1) _ (λ later x. Refines-ok _ true later (
        subst (λ rows. db.requests ⇒* rows)
          (sym (enqueue-requests env artifact.object_key artifact_expired _ _ _ x))
          (Refines-use _ m s u))))

  published :
      (artifact : Artifact) (row : Request)
      → row_at row.id db.requests ≡ some row
      → is_live row.status ≡ true
      → is_publishable artifact (at checked) row ≡ true
      → Refines db.requests (publish_live env lease artifact at row db)
  unfolding publish_live is_publishable finish_runs
  published artifact row e live fit =
      Refines-if _ (not (count (is_held lease (at run_matched)) db.runs == 1)) _ _
        (λ h. Refines-ok _ false _ here)
        (λ h. settled artifact _ (
          update-⇒ row.id (hold_artifact artifact) (finish_runs lease at db)
            (finishes row.id row artifact e live (ground arith))))

  pub publish-⇒ : (artifact : Artifact) → Refines db.requests (publish env lease artifact at db)
  unfolding publish publish_found publish_checked
  publish-⇒ artifact = fenced-⇒ false env at lease _ db unique (λ row e live.
      checked-⇒ false env at db row (publish_checked env lease artifact at)
        (rw live (guarded row e live))
        (λ shown later ended. rw ended (Refines-ok _ false later here)))
    where
      guarded :
          (row : Request)
          → row_at row.id db.requests ≡ some row
          → is_live row.status ≡ true
          → Refines db.requests (
              if not (starts_with (key_prefix env lease) artifact.object_key)
              then err invalid_object_key
              else if not (is_candidate env lease artifact.object_key db)
              then err candidate_required
              else if not (is_publishable artifact (at checked) row)
              then err invalid_artifact
              else publish_live env lease artifact at row db)
      guarded row e live =
          Refines-if _ (not (starts_with (key_prefix env lease) artifact.object_key)) _ _
            (λ h. Refines-err _ Bool invalid_object_key)
            (λ h.
              Refines-if _ (not (is_candidate env lease artifact.object_key db)) _ _
                (λ k. Refines-err _ Bool candidate_required)
                (λ k.
                  Refines-if _ (not (is_publishable artifact (at checked) row)) _ _
                    (λ l. Refines-err _ Bool invalid_artifact)
                    (λ l. published artifact row e live (ground arith))))
