-- ===== src/Downloads/Limits.antt =====
-- The limits of partition downloads: `loadPartitionDownloadLimits` of
-- packages/domain/src/partition-downloads.ts on `parsePositiveSafeInteger` of
-- packages/domain/src/runtime-limits.ts.
-- An environment gives a text or nothing for each key. What `Number` makes of a text is a parameter:
-- an integer, or anything else (`none`).
pub mod Bounds
mod Tests
use sme_data_center.Common.{
  ℕ, ◌*◌, Bool, true, false, not, ◌&&◌, ◌||◌, if◌then◌else◌, Option, none, some, List, [], ◌∷◌, leb,
  ltb, Text, trim,
}
use sme_data_center.Downloads.Schema.{ℤ, pos, negsuc, Limits}

pub data Key : Type 0 where
  max_partitions_key max_bytes_key max_active_per_org_key max_active_per_requester_key : Key
  retention_seconds_key url_ttl_seconds_key : Key

-- The error names its key.
pub data Loaded (A : Type 0) : Type 0 where
  loaded : A → Loaded A
  refused : Key → Loaded A

infixl 5 ◌>>=◌
abbrev pub ◌>>=◌ : {A B : Type 0} → Loaded A → (A → Loaded B) → Loaded B
loaded a >>= f = f a
refused key >>= f = refused key

-- The limits with the lifetime of a link, which no operation of the repository reads.
pub record AllLimits : Type 0 where
  pub limits : Limits
  pub url_ttl_seconds : ℕ

-- `Number.isSafeInteger(parsed) && parsed >= 1`.
pub positive_safe : Option ℤ → Option ℕ
positive_safe none = none
positive_safe (some (negsuc n)) = none
positive_safe (some (pos n)) = if leb n 9007199254740991 && leb 1 n then some n else none

module _ (number : Text → Option ℤ) (env : Key → Option Text) where
  -- The text of a key, trimmed; nothing where none is left.
  pub raw_value : Key → Option Text
  raw_value key = elim (env key) [
    | none ↦ none
    | some text ↦ elim (trim text) [ [] ↦ none | c ∷ rest ↦ some (c ∷ rest) ]
  ]

  pub parse_positive_safe_integer : Key → ℕ → Loaded ℕ
  parse_positive_safe_integer key default_value = elim (raw_value key) [
    | none ↦ loaded default_value
    | some text ↦ elim (positive_safe (number text)) [ none ↦ refused key | some n ↦ loaded n ]
  ]

  pub bounded : Key → ℕ → ℕ → Loaded ℕ
  bounded key default_value maximum = do
    value ← parse_positive_safe_integer key default_value
    if ltb maximum value then refused key else loaded value

  pub load_limits : Loaded AllLimits
  load_limits = do
    partitions ← bounded max_partitions_key 500 2000
    bytes ← bounded max_bytes_key 268435456 1073741824
    per_org ← bounded max_active_per_org_key 16 64
    per_requester ← bounded max_active_per_requester_key 4 16
    retention ← bounded retention_seconds_key 86400 86400
    url_ttl ← bounded url_ttl_seconds_key 900 900
    loaded (record {
      limits = record {
        max_partitions = partitions;
        max_bytes = bytes;
        max_active_per_org = per_org;
        max_active_per_requester = per_requester;
        retention_seconds = retention;
      };
      url_ttl_seconds = url_ttl;
    })
