-- ===== src/Downloads/Schema/Writes.antt =====
-- Transactions on the tables: their result, the tests of their conditions, and the writes.
-- `enqueue_garbage` is `enqueueStorageGarbage` of packages/db/src/storage-garbage.ts.
use sme_data_center.Common.{
  ℕ, Bool, true, false, ◌&&◌, if◌then◌else◌, Option, none, some, List, ◌∷◌, ◌==◌, ltb, Text,
  text_eq, find, update_many,
}
use sme_data_center.Downloads.Schema.Tables.{
  RequestStatus, RunStatus, JobType, Code, Entry, Request, Run, GarbageReason, Garbage, Db, Env,
  queued, running, failed, expired, run_queued, run_running, run_retry_scheduled,
  structured_partition_bundle, other_job, rebuild_required, hash_collision, row_missing,
}

-- A transaction that throws leaves the database as it was.
pub data Result (A : Type 0) : Type 0 where
  ok : A → Result A
  err : Code → Result A

infixl 5 ◌>>=◌
abbrev pub ◌>>=◌ : {A B : Type 0} → Result A → (A → Result B) → Result B
ok a >>= f = f a
err e >>= f = err e

-- `active.includes(row.status)`.
abbrev pub is_live : RequestStatus → Bool
is_live queued = true
is_live running = true
is_live _ = false

abbrev pub is_expired : RequestStatus → Bool
is_expired expired = true
is_expired _ = false

abbrev pub is_failed : RequestStatus → Bool
is_failed failed = true
is_failed _ = false

abbrev pub is_running : RunStatus → Bool
is_running run_running = true
is_running _ = false

-- The runs that an ending request takes with it.
abbrev pub is_unfinished : RunStatus → Bool
is_unfinished run_queued = true
is_unfinished run_running = true
is_unfinished run_retry_scheduled = true
is_unfinished _ = false

abbrev pub is_bundle : JobType → Bool
is_bundle structured_partition_bundle = true
is_bundle other_job = false

-- `===` on columns that may be null.
abbrev pub same : Option ℕ → Option ℕ → Bool
same none none = true
same (some a) (some b) = a == b
same _ _ = false

-- A column that is not null and has the value, as a `where` clause tests it.
abbrev pub holds : Option ℕ → ℕ → Bool
holds none b = false
holds (some a) b = a == b

-- A column that is not null and later than a time.
abbrev pub is_after : Option ℕ → ℕ → Bool
is_after none now = false
is_after (some t) now = ltb now t

-- `enqueueStorageGarbage`; the run, where one is given, is the garbage's owner.
abbrev pub requeue : Text → GarbageReason → ℕ → Option ℕ → Garbage → Garbage
requeue key reason available_at run g = record g {
  reason = reason;
  available_at = available_at;
  run_id = run;
  repeat_deletion = elim run [ none ↦ false | some r ↦ true ];
  last_error = none;
}

abbrev pub new_garbage : Text → Text → GarbageReason → ℕ → Option ℕ → Garbage
new_garbage hash key reason available_at run = record {
  hash = hash;
  object_key = key;
  reason = reason;
  available_at = available_at;
  run_id = run;
  repeat_deletion = elim run [ none ↦ false | some r ↦ true ];
  last_error = none;
}

abbrev pub find_garbage : Text → Db → Option Garbage
find_garbage hash db = find (λ (g : Garbage). text_eq g.hash hash) db.garbage

unfoldable pub enqueue_garbage : Env → Text → GarbageReason → ℕ → Option ℕ → Db → Result Db
enqueue_garbage env key reason available_at run db =
    let hash = env.key_hash key in
    elim (find_garbage hash db) [
      | none ↦
          ok (record db { garbage = new_garbage hash key reason available_at run ∷ db.garbage })
      | some g ↦
          if text_eq g.object_key key
          then ok (record db {
            garbage =
                update_many (λ (x : Garbage). text_eq x.hash hash)
                  (requeue key reason available_at run) db.garbage;
          })
          else err hash_collision
    ]

-- `partitionDownloadRequest.update` by the id.
unfoldable pub update_request : ℕ → (Request → Request) → Db → Result (Request × Db)
update_request id f db = elim (find (λ (r : Request). r.id == id) db.requests) [
  | none ↦ err row_missing
  | some row ↦
      ok (f row, record db { requests = update_many (λ (r : Request). r.id == id) f db.requests })
]

-- `lockRequest`.
abbrev pub lock_request : ℕ → ℕ → Db → Option Request
lock_request id org_id db = find (λ (r : Request). r.id == id && r.org_id == org_id) db.requests

-- `downloadOwner`.
abbrev pub is_owned : ℕ → ℕ → Run → Bool
is_owned org_id id run =
    run.org_id == org_id
    && holds run.request_id id
    && is_bundle run.job_type
    && same run.other_owner none

-- `parsePartitionDownloadManifest` of the column.
abbrev pub entries_of : Request → Result (List Entry)
entries_of row = elim row.manifest [ none ↦ err rebuild_required | some entries ↦ ok entries ]
