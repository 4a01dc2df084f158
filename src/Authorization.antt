-- ===== src/Authorization.antt =====
-- packages/domain/src/business-authorization.ts: the organization's grants and the decision that
-- every read of a business resource goes through.
-- Identifiers and names are strings (`Text`). An object used as a dictionary is the list of its
-- entries, so `Object.keys(o).length` is the list's length.
pub mod Selections
pub mod Grants
pub mod Reading
pub mod Sql
pub mod Monotone
pub mod Denial
mod Tests
use sme_data_center.Common.{
  ℕ, Bool, true, false, not, ◌&&◌, ◌||◌, if◌then◌else◌, Option, none, some, List, [], ◌∷◌, ◌++◌,
  leb, ltb, ◌==◌, is_none, is_empty, length, all, any, find, find_many, Text, text_eq, trim,
}

pub data Ownership : Type 0 where
  group store : Ownership

abbrev pub ownership_eq : Ownership → Ownership → Bool
ownership_eq group group = true
ownership_eq store store = true
ownership_eq _ _ = false

pub data Selection : Type 0 where
  everything : Selection
  fixed : List Text → Selection

-- A confidentiality level as it arrives: a natural number, or any other value (null, undefined, a
-- negative number, a fraction).
pub data Level : Type 0 where
  whole : ℕ → Level
  other : Level

pub record ScopeItem : Type 0 where
  pub enterprise_key : Text
  pub ownership : Ownership
  pub store_name : Option Text
  pub dimensions : List (Text × Text)

pub data CategoryKind : Type 0 where
  fixed_category evidence : CategoryKind

pub record CategoryRule : Type 0 where
  pub id : Text
  pub kind : CategoryKind
  pub confidentiality_level : Level
  pub ownerships : List Ownership
  pub required_dimension_ids : List Text

pub record Grant : Type 0 where
  pub id : Text
  pub org_id : Text
  pub enterprise_key : Text
  pub category_ids : List Text
  pub ownership : Ownership
  pub stores : Option Selection
  pub dimensions : List (Text × Selection)

pub record Requirement : Type 0 where
  pub org_id : Text
  pub category_id : Text
  pub valid : Bool
  pub file_confidentiality_level : Level
  pub scopes : List ScopeItem

pub data Mode : Type 0 where
  legacy preparing enabled suspended : Mode

pub data Role : Type 0 where
  admin employee : Role

pub record Snapshot : Type 0 where
  pub org_id : Text
  pub employee_id : Text
  pub role : Role
  pub disabled : Bool
  pub clearance : Level
  pub mode : Mode
  pub categories : List CategoryRule
  pub grants : List Grant

pub data DenialReason : Type 0 where
  account_disabled organization_mismatch authorization_not_enabled resource_invalid
        attributes_not_ready clearance_insufficient grant_missing :
      DenialReason

pub data Decision : Type 0 where
  allowed : Decision
  denied : DenialReason → Decision

pub data GrantError : Type 0 where
  grant_identity_required invalid_store_selection category_ownership_mismatch
        dimension_selection_mismatch :
      GrantError

-- `o[key]`.
pub lookup {ℓ} : {A : Type ℓ} → Text → List (Text × A) → Option A
lookup key [] = none
lookup key ((k, v) ∷ o) = let rest = lookup key o in if text_eq k key then some v else rest

pub includes : List Text → Text → Bool
includes xs x = any (λ y. text_eq y x) xs

pub is_business_clearance : Level → Bool
is_business_clearance (whole n) = leb n 3
is_business_clearance other = false

pub is_blank : Text → Bool
is_blank s = is_empty (trim s)

pub valid_selection : Option Selection → Bool
valid_selection none = false
valid_selection (some everything) = true
valid_selection (some (fixed values)) = not (is_empty values) && all (λ v. not (is_blank v)) values

-- `grant.ownership === "store" ? !validSelection(grant.stores) : grant.stores !== undefined`.
pub bad_stores : Grant → Bool
bad_stores g = elim g.ownership [
  | store ↦ not (valid_selection g.stores)
  | group ↦ not (is_none g.stores)
]

pub bad_dimensions : Grant → CategoryRule → Bool
bad_dimensions g rule =
    not (length g.dimensions == length rule.required_dimension_ids)
    || any (λ d. not (valid_selection (lookup d g.dimensions))) rule.required_dimension_ids

-- One round of the loop over `grant.categoryIds`.
pub category_errors : Grant → List CategoryRule → Text → List GrantError
category_errors g categories id = elim (find (λ (c : CategoryRule). text_eq c.id id) categories) [
  | none ↦ category_ownership_mismatch ∷ []
  | some rule ↦
      if not (any (λ o. ownership_eq o g.ownership) rule.ownerships)
      then category_ownership_mismatch ∷ []
      else if bad_dimensions g rule
      then dimension_selection_mismatch ∷ []
      else []
]

pub all_category_errors : Grant → List CategoryRule → List Text → List GrantError
all_category_errors g categories [] = []
all_category_errors g categories (id ∷ ids) =
    category_errors g categories id ++ all_category_errors g categories ids

pub validate_business_grant : Grant → List CategoryRule → List GrantError
validate_business_grant g categories =
    (if is_empty g.org_id || is_empty g.enterprise_key || is_empty g.category_ids
      then grant_identity_required ∷ []
      else [])
    ++ ((if bad_stores g then invalid_store_selection ∷ [] else [])
        ++ all_category_errors g categories g.category_ids)

-- `scope.ownership === "store" ? a non-blank storeName : storeName === undefined`.
pub good_store_name : Ownership → Option Text → Bool
good_store_name store none = false
good_store_name store (some name) = not (is_blank name)
good_store_name group name = is_none name

pub has_value : Option Text → Bool
has_value none = false
has_value (some v) = not (is_empty v)

pub validate_business_scope : ScopeItem → CategoryRule → Bool
validate_business_scope s category =
    not (is_empty s.enterprise_key)
    && (any (λ o. ownership_eq o s.ownership) category.ownerships
        && (good_store_name s.ownership s.store_name
            && (length s.dimensions == length category.required_dimension_ids
                && all (λ id. has_value (lookup id s.dimensions)) category.required_dimension_ids)))

-- `selected`; no fixed list includes an undefined value.
pub selected : Option Selection → Option Text → Bool
selected none value = false
selected (some everything) value = true
selected (some (fixed values)) none = false
selected (some (fixed values)) (some v) = includes values v

-- The inner test of `canReadResource`: this grant covers this scope.
pub covers : CategoryRule → ScopeItem → Grant → Bool
covers category s g =
    text_eq g.enterprise_key s.enterprise_key
    && (includes g.category_ids category.id
        && (ownership_eq g.ownership s.ownership
            && ((ownership_eq s.ownership group || selected g.stores s.store_name)
                && all (λ id. selected (lookup id g.dimensions) (lookup id s.dimensions))
                    category.required_dimension_ids)))

pub usable_grants : Snapshot → List Grant
usable_grants s =
    find_many
      (λ (g : Grant).
        text_eq g.org_id s.org_id && is_empty (validate_business_grant g s.categories))
      s.grants

pub required_level : CategoryRule → Requirement → Level
required_level category r = elim category.kind [
  | evidence ↦ r.file_confidentiality_level
  | fixed_category ↦ category.confidentiality_level
]

pub is_enabled : Mode → Bool
is_enabled enabled = true
is_enabled _ = false

-- `snapshot.clearance < level`, of levels that passed `isBusinessClearance`.
pub level_ltb : Level → Level → Bool
level_ltb (whole a) (whole b) = ltb a b
level_ltb _ _ = false

pub decide_category : Snapshot → Requirement → CategoryRule → Decision
decide_category s r category =
    if is_empty r.scopes || any (λ x. not (validate_business_scope x category)) r.scopes
    then denied attributes_not_ready
    else if not (is_business_clearance (required_level category r))
        || not (is_business_clearance s.clearance)
    then denied attributes_not_ready
    else if level_ltb s.clearance (required_level category r)
    then denied clearance_insufficient
    else if all (λ x. any (covers category x) (usable_grants s)) r.scopes
    then allowed
    else denied grant_missing

pub can_read_resource : Snapshot → Requirement → Decision
unfolding decide_category
can_read_resource s r =
    if s.disabled
    then denied account_disabled
    else if not (text_eq s.org_id r.org_id)
    then denied organization_mismatch
    else if not (is_enabled s.mode)
    then denied authorization_not_enabled
    else if not r.valid
    then denied resource_invalid
    else elim (find (λ (c : CategoryRule). text_eq c.id r.category_id) s.categories) [
      | none ↦ denied attributes_not_ready
      | some category ↦ decide_category s r category
    ]
