-- ===== src/Downloads/Workers/Publishing.antt =====
-- `registerCandidate` and `publish` of partition-downloads.ts.
use sme_data_center.Common.{
  ℕ, zero, suc, ◌+◌, Bool, true, false, not, ◌&&◌, ◌||◌, if◌then◌else◌, none, some, [], ◌∷◌, ◌++◌,
  ◌==◌, ltb, leb, Text, text_eq, find_many, update_many, count, all, length,
}
use sme_data_center.Downloads.Schema.{
  ℤ, pos, negsuc, succeeded, run_succeeded, candidate_required, invalid_object_key,
  invalid_artifact, Request, Run, Garbage, candidate, artifact_expired, Db, Env, Result, ok, err,
  ◌>>=◌, is_live, holds, find_garbage, enqueue_garbage, update_request,
}
use sme_data_center.Downloads.Requests.{
  Times, checked, run_matched, run_finished, garbage_queued, check_content, Lease, is_held, fenced,
}
use Prim.Native.Nat.{◌/◌, ◌%◌}
use sme_data_center.Downloads.Workers.Views.{Artifact}

-- A number as `${n}` writes it; a number has at most as many digits as it counts, and one more.
digits : ℕ → ℕ → Text → Text
digits zero n text = text
digits (suc fuel) n text =
    let rest = digits fuel (n / 10) ((48 + n % 10) ∷ text) in
    if ltb n 10 then (48 + n % 10) ∷ text else rest

pub decimal : ℕ → Text
decimal n = digits (suc n) n []

-- "partition-downloads/".
abbrev pub folder : Text
folder =
    112 ∷ 97 ∷ 114 ∷ 116 ∷ 105 ∷ 116 ∷ 105 ∷ 111 ∷ 110 ∷ 45 ∷ 100 ∷ 111 ∷ 119 ∷ 110 ∷ 108 ∷ 111 ∷ 97
    ∷ 100 ∷ 115 ∷ 47 ∷ []

pub key_prefix : Env → Lease → Text
key_prefix env lease =
    folder
    ++ env.id_text lease.org_id
    ++ 47 ∷ env.id_text lease.request_id
    ++ 47 ∷ decimal lease.attempt_number
    ++ 47 ∷ []

-- `startsWith`, the prefix first.
pub starts_with : Text → Text → Bool
starts_with [] key = true
starts_with (a ∷ prefix) [] = false
starts_with (a ∷ prefix) (b ∷ key) = a == b && starts_with prefix key

unfoldable pub register_found : Env → Lease → Text → Times → Request → Db → Result (Bool × Db)
register_found env lease key at row db =
    if not (starts_with (key_prefix env lease) key) || ltb 1024 (length key)
    then err invalid_object_key
    else (do
      queued_db ← enqueue_garbage env key candidate (at garbage_queued) (some lease.run_id) db
      ok (true, queued_db))

unfoldable pub register_candidate : Env → Lease → Text → Times → Db → Result (Bool × Db)
register_candidate env lease key at db =
    fenced false env lease at (register_found env lease key at) db

-- `/^[a-f0-9]{64}$/`.
pub is_hex : ℕ → Bool
is_hex c = (leb 48 c && leb c 57) || (leb 97 c && leb c 102)

pub is_checksum : Text → Bool
is_checksum text = length text == 64 && all is_hex text

unfoldable pub is_size : ℤ → Bool
is_size (pos n) = true
is_size (negsuc n) = false

unfoldable pub is_publishable : Artifact → ℕ → Request → Bool
is_publishable artifact now row =
    is_size artifact.byte_size
    && is_checksum artifact.checksum
    && ltb now artifact.expires_at
    && leb artifact.expires_at row.expires_at

-- The candidate that the run has registered under the key.
abbrev pub is_candidate : Env → Lease → Text → Db → Bool
is_candidate env lease key db = elim (find_garbage (env.key_hash key) db) [
  | none ↦ false
  | some g ↦ text_eq g.object_key key && holds g.run_id lease.run_id
]

abbrev pub finish_run : ℕ → Run → Run
finish_run now run = record run {
  status = run_succeeded;
  locked_by = none;
  locked_until = none;
  finished_at = some now;
  error_code = none;
}

abbrev pub hold_artifact : Artifact → Request → Request
hold_artifact artifact row = record row {
  status = succeeded;
  completed = row.partition_count;
  object_key = some artifact.object_key;
  byte_size = some artifact.byte_size;
  checksum = some artifact.checksum;
  expires_at = artifact.expires_at;
  error_code = none;
}

abbrev pub is_other_garbage : Text → Garbage → Bool
is_other_garbage hash g = not (text_eq g.hash hash)

-- The candidate is taken off the queue and queued again for the end of the artifact.
unfoldable pub settle_garbage : Env → Artifact → Db → Result Db
settle_garbage env artifact db =
    let hash = env.key_hash artifact.object_key in
    enqueue_garbage env artifact.object_key artifact_expired artifact.expires_at none
      (record db { garbage = find_many (is_other_garbage hash) db.garbage })

unfoldable pub finish_runs : Lease → Times → Db → Db
finish_runs lease at db = record db {
  runs = update_many (is_held lease (at run_matched)) (finish_run (at run_finished)) db.runs;
}

unfoldable pub publish_live : Env → Lease → Artifact → Times → Request → Db → Result (Bool × Db)
publish_live env lease artifact at row db =
    if not (count (is_held lease (at run_matched)) db.runs == 1)
    then ok (false, finish_runs lease at db)
    else (do
      updated ← update_request row.id (hold_artifact artifact) (finish_runs lease at db)
      settled ← settle_garbage env artifact updated.1
      ok (true, settled))

unfoldable pub publish_checked : Env → Lease → Artifact → Times → Request × Db → Result (Bool × Db)
publish_checked env lease artifact at (row, db) =
    if not (is_live row.status)
    then ok (false, db)
    else if not (starts_with (key_prefix env lease) artifact.object_key)
    then err invalid_object_key
    else if not (is_candidate env lease artifact.object_key db)
    then err candidate_required
    else if not (is_publishable artifact (at checked) row)
    then err invalid_artifact
    else publish_live env lease artifact at row db

unfoldable pub publish_found : Env → Lease → Artifact → Times → Request → Db → Result (Bool × Db)
publish_found env lease artifact at row db = do
  found ← check_content env row at db
  publish_checked env lease artifact at found

unfoldable pub publish : Env → Lease → Artifact → Times → Db → Result (Bool × Db)
publish env lease artifact at db =
    fenced false env lease at (publish_found env lease artifact at) db
