-- ===== src/Downloads/Tests.antt =====
-- The repository of partition downloads on a small organization.
use sme_data_center.Common.{
  ℕ, true, false, none, some, List, [], ◌∷◌, ◌≡◌, ◌↔◌, refl, arith, inl, All, count, is_space, trim,
  trim_start,
}
use sme_data_center.Downloads.Schema.{
  pos, RequestStatus, queued, failed, run_running, structured_partition_bundle, Limits, Scope,
  Entry, Partition, Request, Run, Db, Env, Result, ok, err, stale,
}
use sme_data_center.Downloads.Requests.{Times, Lease, effective_order_scope, expire_row}
use sme_data_center.Downloads.Workers.{PublicStatus, public_status, Actor, Current}
use sme_data_center.Downloads.Prepare.{
  authority, insert, sort, take, comes_first, is_among, is_in_scope, entry_of, manifest,
  is_oversized, is_over_quota, counts_for, counts_for_requester, PrepareInput, is_key, new_request,
  create_request, create_run, queue_run, create_checked, answer_existing, prepare_by, prepare,
}
use sme_data_center.Downloads.History.{starts, progresses, Call, works, sweeps, work, run, step}
use sme_data_center.Downloads.Sweep.{is_due, expire, due_requests, expire_each}
use sme_data_center.Downloads.Access.{issue_current}
use sme_data_center.Downloads.Access.Granted.{Granted, issue_current_iff}
use sme_data_center.Downloads.Sweep.Progress.{sweep_times, sweep_times-none_due}
use sme_data_center.Downloads.Transitions.{◌⇒*◌}
use sme_data_center.Downloads.Refinement.Histories.{run-⇒*}
use sme_data_center.Downloads.Evolution.{Later, run-Later}
use sme_data_center.Downloads.Evolution.Ended.{run-work_dead}
use sme_data_center.Downloads.Soundness.{IsSound, run-IsSound}
use sme_data_center.Downloads.Keys.Prepared.{prepare-again}
use sme_data_center.Downloads.Quota.{IsWithin, prepare-IsWithin}

abbrev the_env : Env
the_env = record {
  id_text = λ n. n ∷ [];
  key_hash = λ key. key;
  fingerprint = λ scope. scope.dataset;
  in_store_orders = 7;
  legacy_unknown = 1;
  readable = λ db e scope p. true;
}

abbrev the_limits : Limits
the_limits = record {
  max_partitions = 500;
  max_bytes = 1000;
  max_active_per_org = 16;
  max_active_per_requester = 4;
  retention_seconds = 60;
}

abbrev the_scope : Scope
the_scope = record {
  dataset = 7;
  enterprise_key = 2;
  enterprise_name = 3;
  start_date = 10;
  end_date = 20;
  store_name_contains = none;
  store_ids = none;
}

abbrev the_entry : Entry
the_entry = record {
  order_scope = some 1;
  id = 30;
  store_key = 4;
  store_name = 5;
  merchant_id = none;
  enterprise_name = 3;
  business_date = 15;
  object_key = 6;
  checksum = 8;
  byte_size = 100;
  row_count = 12;
  confidentiality_level = 0;
}

abbrev the_partition : Partition
the_partition = record { org_id = 1; dataset = 7; enterprise_key = 2; entry = the_entry }

abbrev request_in : ℕ → RequestStatus → Request
request_in id status = record {
  id = id;
  org_id = 1;
  requester_id = 5;
  idempotency_key = 107 ∷ [];
  fingerprint = 7;
  scope = the_scope;
  manifest = some (the_entry ∷ []);
  limits = the_limits;
  status = status;
  partition_count = 1;
  completed = 0;
  total_rows = 12;
  total_bytes = 100;
  object_key = none;
  byte_size = none;
  checksum = none;
  error_code = some stale;
  expires_at = 1000;
}

abbrev the_run : Run
the_run = record {
  id = 3;
  org_id = 1;
  request_id = some 40;
  job_type = structured_partition_bundle;
  other_owner = none;
  status = run_running;
  attempt_number = 1;
  locked_by = some 9;
  locked_until = some 100;
  error_code = none;
  finished_at = none;
}

abbrev db_with : List Request → Db
db_with requests = record {
  requests = requests;
  runs = the_run ∷ [];
  garbage = [];
  partitions = the_partition ∷ [];
  employees = record { id = 5; org_id = 1; clearance = 0; disabled = false } ∷ [];
  states = [];
}

abbrev new_db : Db
new_db = record (db_with []) { runs = [] }

abbrev the_lease : Lease
the_lease = record { run_id = 3; org_id = 1; request_id = 40; worker_id = 9; attempt_number = 1 }

abbrev at_fifty : Times
at_fifty m = 50

abbrev some_calls : List Call
some_calls =
    works the_lease starts at_fifty
    ∷ works the_lease (progresses (pos 1)) at_fifty
    ∷ sweeps 2000 (λ id. at_fifty)
    ∷ []

abbrev the_actor : Actor
the_actor = record { id = 5; org_id = 1; clearance = 0; disabled = false }

abbrev the_input : ℕ → PrepareInput
the_input id = record {
  actor = the_actor;
  scope = the_scope;
  key = 107 ∷ [];
  limits = the_limits;
  new_request_id = id;
  new_run_id = id;
}

-- The status and the database of a `prepare` that answers.
shown_of : Result (PublicStatus × Db) → PublicStatus
shown_of (ok (shown, later)) = shown
shown_of (err code) = public_status (request_in 0 failed)

left_of : Result (PublicStatus × Db) → Db
left_of (ok (shown, later)) = later
left_of (err code) = db_with []

abbrev first_result : Result (PublicStatus × Db)
first_result = prepare the_env (the_input 40) at_fifty new_db

abbrev between : List Call
between = sweeps 100 (λ id. at_fifty) ∷ []

abbrev second_result : Result (PublicStatus × Db)
second_result = prepare the_env (the_input 41) at_fifty (run the_env (left_of first_result) between)

first_answers : first_result ≡ ok (shown_of first_result, left_of first_result)
unfolding shown_of left_of prepare authority is_key trim trim_start is_space prepare_by
    create_checked manifest is_in_scope is_among entry_of effective_order_scope comes_first sort
    insert take is_oversized is_over_quota new_request create_request queue_run create_run
    public_status
first_answers = refl

run-⇒*_example :
    (request_in 40 queued ∷ [])
    ⇒* (run the_env (db_with (request_in 40 queued ∷ [])) some_calls).requests
run-⇒*_example = run-⇒* the_env some_calls (db_with (request_in 40 queued ∷ [])) (refl, tt)

run-Later_example :
    Later 40
      (request_in 40 queued)
      (run the_env (db_with (request_in 40 queued ∷ [])) some_calls).requests
run-Later_example =
    run-Later the_env some_calls (db_with (request_in 40 queued ∷ [])) 40 (request_in 40 queued)
      (refl, tt) refl

run-work_dead_example :
    work the_env the_lease starts at_fifty
      (run the_env (db_with (request_in 40 failed ∷ [])) some_calls)
    ≡ ok (false, run the_env (db_with (request_in 40 failed ∷ [])) some_calls)
run-work_dead_example =
    run-work_dead the_env some_calls (db_with (request_in 40 failed ∷ [])) (request_in 40 failed)
      the_lease starts at_fifty (refl, tt) refl refl

run-IsSound_example :
    All IsSound (run the_env (db_with (request_in 40 queued ∷ [])) some_calls).requests
run-IsSound_example =
    run-IsSound the_env some_calls (db_with (request_in 40 queued ∷ [])) (refl, tt)
      (
        record {
          in_bounds = omega arith;
          artifact = inl refl;
          complete = inl refl;
          explained = inl refl;
        },
        tt,
      )

second_answers : second_result ≡ ok (shown_of second_result, left_of second_result)
unfolding shown_of left_of prepare authority is_key trim trim_start is_space prepare_by
    create_checked manifest is_in_scope is_among entry_of effective_order_scope comes_first sort
    insert take is_oversized is_over_quota new_request create_request queue_run create_run
    public_status run step expire due_requests expire_each answer_existing expire_row
second_answers = refl

prepare-again_example :
    ((shown_of second_result).request_id ≡ (shown_of first_result).request_id)
    × (the_env.fingerprint the_scope ≡ the_env.fingerprint the_scope)
prepare-again_example =
    prepare-again the_env (the_input 40) (the_input 41) at_fifty at_fifty between new_db
      (left_of first_result) (left_of second_result) (shown_of first_result)
      (shown_of second_result) tt first_answers refl refl refl second_answers

prepare-IsWithin_example :
    IsWithin 16 (counts_for 1 50) new_db (left_of first_result)
    × IsWithin 4 (counts_for_requester 1 5 50) new_db (left_of first_result)
prepare-IsWithin_example =
    prepare-IsWithin the_env (the_input 40) at_fifty new_db (shown_of first_result)
      (left_of first_result) first_answers

sweep_times-none_due_example :
    count
      (is_due 2000)
      (sweep_times the_env 2000 (λ k id. at_fifty) 1 (db_with (request_in 40 failed ∷ []))).requests
    ≡ 0
sweep_times-none_due_example =
    sweep_times-none_due the_env 2000 (λ k id. at_fifty) 1 (db_with (request_in 40 failed ∷ []))
      (record { unique = (refl, tt); filed = tt; apart = λ a b e. e }) (omega arith)

the_issue : Current → Result ℕ
the_issue current = ok 7

issue_current_iff_example :
    (issue_current the_issue the_env the_actor 40 at_fifty (db_with (request_in 40 queued ∷ []))
      ≡ ok (ok 7, db_with (request_in 40 queued ∷ [])))
    ↔ (Granted the_issue the_env the_actor 40 at_fifty (db_with (request_in 40 queued ∷ [])) 7
        × (db_with (request_in 40 queued ∷ []) ≡ db_with (request_in 40 queued ∷ [])))
issue_current_iff_example =
    issue_current_iff the_issue the_env at_fifty the_actor 40 (db_with (request_in 40 queued ∷ []))
      7 (db_with (request_in 40 queued ∷ []))
