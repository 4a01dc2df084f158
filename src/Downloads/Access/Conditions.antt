-- ===== src/Downloads/Access/Conditions.antt =====
-- What a request must meet for `issueCurrent` to issue on it, said of the tables and not by the tests of
-- the code, and that those tests decide it.
use sme_data_center.Common.{
  ℕ, suc, ◌≤◌, min, true, false, ◌&&◌, Option, none, some, List, [], ◌∷◌, ◌==◌, ◌≡◌, ◌≢◌, find,
  length, Any, if◌then◌else◌,
}
use sme_data_center.Downloads.Schema.{
  Scope, Entry, Partition, Request, Employee, AuthorizationState, Db, Env, is_live,
}
use sme_data_center.Downloads.Workers.{Actor, Artifact, Current}

-- The actor is an employee of the organization who is not disabled.
pub record IsEmployee (actor : Actor) (db : Db) (e : Employee) : Type 0 where
  pub found :
      find (λ (x : Employee). x.id == actor.id && x.org_id == actor.org_id) db.employees ≡ some e
  pub enabled : e.disabled ≡ false

-- The organization is not suspended; one without a state is not.
abbrev pub IsAllowed : ℕ → Db → Type 0
IsAllowed org_id db =
    (s : AuthorizationState)
    → find (λ (x : AuthorizationState). x.org_id == org_id) db.states ≡ some s
    → s.suspended ≡ false

-- An order scope, where none counts as the legacy one.
abbrev pub or_legacy : Env → Option ℕ → ℕ
or_legacy env none = env.legacy_unknown
or_legacy env (some s) = s

-- The partition is what the entry captured, its order scope as far as its data set has one. (Only
-- its confidentiality may differ.)
pub record AsCaptured (env : Env) (scope : Scope) (e : Entry) (p : Partition) : Type 0 where
  pub dataset : p.dataset ≡ scope.dataset
  pub order_scope :
      p.dataset ≡ env.in_store_orders
      → or_legacy env p.entry.order_scope ≡ or_legacy env e.order_scope
  pub enterprise_key : p.enterprise_key ≡ scope.enterprise_key
  pub store_key : p.entry.store_key ≡ e.store_key
  pub store_name : p.entry.store_name ≡ e.store_name
  pub merchant_id : p.entry.merchant_id ≡ e.merchant_id
  pub enterprise_name : p.entry.enterprise_name ≡ e.enterprise_name
  pub business_date : p.entry.business_date ≡ e.business_date
  pub object_key : p.entry.object_key ≡ e.object_key
  pub checksum : p.entry.checksum ≡ e.checksum
  pub byte_size : p.entry.byte_size ≡ e.byte_size
  pub row_count : p.entry.row_count ≡ e.row_count

-- The organization still has the partition of an entry, as it was captured.
pub record IsKept (env : Env) (row : Request) (db : Db) (e : Entry) : Type 0 where
  pub partition : Partition
  pub found :
      find (λ (p : Partition). p.org_id == row.org_id && p.entry.id == e.id) db.partitions
      ≡ some partition
  pub kept : AsCaptured env row.scope e partition

-- A captured partition that the employee may read now, within the dates and the stores of the scope.
pub record IsReadable (env : Env) (db : Db) (employee : Employee) (scope : Scope)
    (entries : List Entry) (p : Partition) : Type 0 where
  pub readable : env.readable db employee scope p ≡ true
  pub captured : Any (λ (e : Entry). e.id ≡ p.entry.id) entries
  pub from_start : scope.start_date ≤ p.entry.business_date
  pub to_end : p.entry.business_date ≤ scope.end_date
  pub of_store :
      (ids : List ℕ)
      → scope.store_ids ≡ some ids
      → (id : ℕ) × (p.entry.merchant_id ≡ some id) × Any (λ x. x ≡ id) ids

-- The number of elements that have the property.
pub data Counts {A : Type 0} (P : A → Type 0) : List A → ℕ → Type 0 where
  no_more : Counts P [] 0
  one_more : {x : A} {xs : List A} {n : ℕ} → P x → Counts P xs n → Counts P (x ∷ xs) (suc n)
  skipped : {x : A} {xs : List A} {n : ℕ} → ¬ P x → Counts P xs n → Counts P (x ∷ xs) n

-- As many of the captured partitions can be read as there are entries; they are counted up to one more
-- than the limit of the request.
pub record AreReadable (env : Env) (db : Db) (employee : Employee) (row : Request)
    (entries : List Entry) : Type 0 where
  pub number : ℕ
  pub counted : Counts (IsReadable env db employee row.scope entries) db.partitions number
  pub enough : min (suc row.limits.max_partitions) number ≡ length entries

-- The request has an artifact: its key and its checksum are not empty, and it has a size.
pub record HasArtifact (row : Request) (a : Artifact) : Type 0 where
  pub object_key : row.object_key ≡ some a.object_key
  pub some_key : a.object_key ≢ []
  pub byte_size : row.byte_size ≡ some a.byte_size
  pub checksum : row.checksum ≡ some a.checksum
  pub some_checksum : a.checksum ≢ []
  pub expires_at : a.expires_at ≡ row.expires_at

-- What is issued on: the request with its entries and the actor's present clearance.
abbrev pub view_of : Request → Employee → List Entry → Option Artifact → Current
view_of row e entries artifact = record {
  request = record {
    request_id = row.id;
    status = row.status;
    partition_count = row.partition_count;
    completed = row.completed;
    total_rows = row.total_rows;
    total_bytes = row.total_bytes;
    retry_after_seconds = if is_live row.status then 2 else 0;
    error_code = row.error_code;
    expires_at = row.expires_at;
  };
  requester = record {
    id = e.id;
    org_id = e.org_id;
    clearance = e.clearance;
    disabled = e.disabled;
  };
  scope = row.scope;
  entries = entries;
  limits = row.limits;
  artifact = artifact;
}
