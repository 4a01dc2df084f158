-- ===== src/Downloads/Workers/Views.antt =====
-- What partition-downloads.ts shows of a request: `publicStatus` and `internal`.
use sme_data_center.Common.{ℕ, Bool, if◌then◌else◌, Option, none, some, List, [], ◌∷◌, Text}
use sme_data_center.Downloads.Schema.{
  ℤ, RequestStatus, Code, Limits, Scope, Entry, Request, Result, ok, ◌>>=◌, is_live, entries_of,
}

pub record PublicStatus : Type 0 where
  pub request_id : ℕ
  pub status : RequestStatus
  pub partition_count : ℕ
  pub completed : ℕ
  pub total_rows : ℕ
  pub total_bytes : ℕ
  pub retry_after_seconds : ℕ
  pub error_code : Option Code
  pub expires_at : ℕ

-- `publicStatus`.
unfoldable pub public_status : Request → PublicStatus
public_status row = record {
  request_id = row.id;
  status = row.status;
  partition_count = row.partition_count;
  completed = row.completed;
  total_rows = row.total_rows;
  total_bytes = row.total_bytes;
  retry_after_seconds = if is_live row.status then 2 else 0;
  error_code = row.error_code;
  expires_at = row.expires_at;
}

pub record Actor : Type 0 where
  pub id : ℕ
  pub org_id : ℕ
  pub clearance : ℕ
  pub disabled : Bool

pub record Artifact : Type 0 where
  pub object_key : Text
  pub byte_size : ℤ
  pub checksum : Text
  pub expires_at : ℕ

pub record Current : Type 0 where
  pub request : PublicStatus
  pub requester : Actor
  pub scope : Scope
  pub entries : List Entry
  pub limits : Limits
  pub artifact : Option Artifact

-- The artifact of `internal`, with its key and its checksum truthy and its size not null.
unfoldable pub artifact_of : Request → Option Artifact
artifact_of row = elim row.object_key [
  | none ↦ none
  | some [] ↦ none
  | some (c ∷ key) ↦ elim row.byte_size [
    | none ↦ none
    | some size ↦ elim row.checksum [
      | none ↦ none
      | some [] ↦ none
      | some (d ∷ digest) ↦ some (record {
        object_key = c ∷ key;
        byte_size = size;
        checksum = d ∷ digest;
        expires_at = row.expires_at;
      })
    ]
  ]
]

-- `internal`.
unfoldable pub internal : Request → Actor → Result Current
internal row requester = do
  entries ← entries_of row
  ok (record {
    request = public_status row;
    requester = requester;
    scope = row.scope;
    entries = entries;
    limits = row.limits;
    artifact = artifact_of row;
  })
