-- ===== src/Downloads/Schema/Tables.antt =====
-- The rows of the tables that packages/db/src/partition-downloads.ts reads and writes, as far as it
-- does (packages/db/prisma/schema.prisma), and what its code takes from elsewhere.
use sme_data_center.Common.{ℕ, Bool, Option, List, Text}

pub data ℤ : Type 0 where
  pos negsuc : ℕ → ℤ

pub data RequestStatus : Type 0 where
  queued running succeeded failed expired : RequestStatus

-- The statuses of a processing run, with `run_` before each.
pub data RunStatus : Type 0 where
  run_queued run_running run_succeeded run_failed run_retry_scheduled : RunStatus

pub data JobType : Type 0 where
  structured_partition_bundle other_job : JobType

-- The error codes, less the prefix PARTITION_DOWNLOAD_; `given` is any other text.
pub data Code : Type 0 where
  forbidden not_found stale expired_code failed_code limit_exceeded source_invalid : Code
  active_limit_exceeded rebuild_required candidate_required : Code
  idempotency_conflict invalid_idempotency_key invalid_progress invalid_object_key : Code
  invalid_artifact hash_collision row_missing key_taken : Code
  given : ℕ → Code

pub record Limits : Type 0 where
  pub max_partitions : ℕ
  pub max_bytes : ℕ
  pub max_active_per_org : ℕ
  pub max_active_per_requester : ℕ
  pub retention_seconds : ℕ

pub record Scope : Type 0 where
  pub dataset : ℕ
  pub enterprise_key : ℕ
  pub enterprise_name : ℕ
  pub start_date : ℕ
  pub end_date : ℕ
  pub store_name_contains : Option (List ℕ)
  pub store_ids : Option (List ℕ)

pub record Entry : Type 0 where
  pub order_scope : Option ℕ
  pub id : ℕ
  pub store_key : ℕ
  pub store_name : ℕ
  pub merchant_id : Option ℕ
  pub enterprise_name : ℕ
  pub business_date : ℕ
  pub object_key : ℕ
  pub checksum : ℕ
  pub byte_size : ℕ
  pub row_count : ℕ
  pub confidentiality_level : ℕ

pub record Partition : Type 0 where
  pub org_id : ℕ
  pub dataset : ℕ
  pub enterprise_key : ℕ
  pub entry : Entry

-- A `manifest` that `parsePartitionDownloadManifest` refuses is `none`.
pub record Request : Type 0 where
  pub id : ℕ
  pub org_id : ℕ
  pub requester_id : ℕ
  pub idempotency_key : Text
  pub fingerprint : ℕ
  pub scope : Scope
  pub manifest : Option (List Entry)
  pub limits : Limits
  pub status : RequestStatus
  pub partition_count : ℕ
  pub completed : ℕ
  pub total_rows : ℕ
  pub total_bytes : ℕ
  pub object_key : Option Text
  pub byte_size : Option ℤ
  pub checksum : Option Text
  pub error_code : Option Code
  pub expires_at : ℕ

-- `other_owner` is `none` where the owner columns of the other kinds of job are all null.
pub record Run : Type 0 where
  pub id : ℕ
  pub org_id : ℕ
  pub request_id : Option ℕ
  pub job_type : JobType
  pub other_owner : Option ℕ
  pub status : RunStatus
  pub attempt_number : ℕ
  pub locked_by : Option ℕ
  pub locked_until : Option ℕ
  pub error_code : Option Code
  pub finished_at : Option ℕ

pub data GarbageReason : Type 0 where
  candidate artifact_expired : GarbageReason
  ended : Code → GarbageReason

-- The generated id of a row stands for nothing but the row, which its unique hash finds as well.
pub record Garbage : Type 0 where
  pub hash : Text
  pub object_key : Text
  pub reason : GarbageReason
  pub available_at : ℕ
  pub run_id : Option ℕ
  pub repeat_deletion : Bool
  pub last_error : Option ℕ

pub record Employee : Type 0 where
  pub id : ℕ
  pub org_id : ℕ
  pub clearance : ℕ
  pub disabled : Bool

-- The authorization mode of an organization, as far as it is read here.
pub record AuthorizationState : Type 0 where
  pub org_id : ℕ
  pub suspended : Bool

pub record Db : Type 0 where
  pub requests : List Request
  pub runs : List Run
  pub garbage : List Garbage
  pub partitions : List Partition
  pub employees : List Employee
  pub states : List AuthorizationState

-- What this code takes from elsewhere: the texts of ids, SHA-256 on object keys and on canonical
-- scopes, the value of the order scope that stands for none with the data set that has one, and the
-- SQL of `readablePartitionScope` and `literalStoreNameScope` as a test on a partition.
pub record Env : Type 0 where
  pub id_text : ℕ → Text
  pub key_hash : Text → Text
  pub fingerprint : Scope → ℕ
  pub in_store_orders : ℕ
  pub legacy_unknown : ℕ
  pub readable : Db → Employee → Scope → Partition → Bool
