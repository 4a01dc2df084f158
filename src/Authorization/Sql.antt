-- ===== src/Authorization/Sql.antt =====
-- packages/db/src/business-authorization-sql.ts: `compileAuthorizedScope`, which turns a snapshot into
-- a condition on the rows of business_resources.
-- The condition is modelled as what it says of a resource with its scopes and their dimensions, the
-- rows that `EXISTS` and `COUNT` range over. The regular expression of the database is a parameter.
-- A comparison with a name that is null is false here: where it is null in the condition, another part
-- of the condition is false.
pub mod Dimensions
pub mod Scopes
pub mod Agreement
use sme_data_center.Common.{
  ℕ, Bool, true, false, not, ◌&&◌, ◌||◌, if◌then◌else◌, Option, none, some, List, [], ◌∷◌, leb, ltb,
  ◌==◌, is_none, is_empty, length, all, any, find_many, Text, text_eq,
}
use sme_data_center.Authorization.{
  Ownership, group, store, ownership_eq, Selection, everything, fixed, Level, whole, other,
  ScopeItem, CategoryRule, fixed_category, evidence, Grant, Requirement, Snapshot, lookup, includes,
  is_business_clearance, usable_grants, is_enabled, level_ltb,
}

-- A row of the scope's dimensions with the id, whose value passes a test.
unfoldable pub has_dimension : Text → (Text → Bool) → ScopeItem → Bool
has_dimension id test s = any (λ d. text_eq d.0 id && test d.1) s.dimensions

-- The condition of a grant on the value of a dimension. A grant that passed `validateBusinessGrant`
-- has a selection for each dimension; on another one the code would throw.
unfoldable pub value_sql : Option Selection → Text → Bool
value_sql none v = false
value_sql (some everything) v = true
value_sql (some (fixed values)) v = includes values v

-- The condition of a grant on the store's name.
unfoldable pub store_sql : Ownership → Option Selection → Option Text → Bool
store_sql store (some (fixed values)) none = false
store_sql store (some (fixed values)) (some name) = includes values name
store_sql _ _ _ = true

unfoldable pub grant_sql : Grant → CategoryRule → ScopeItem → Bool
grant_sql g category s =
    text_eq g.enterprise_key s.enterprise_key
    && (ownership_eq g.ownership s.ownership
        && (store_sql g.ownership g.stores s.store_name
            && all (λ id. has_dimension id (value_sql (lookup id g.dimensions)) s)
                category.required_dimension_ids))

-- `r.file_confidentiality_level BETWEEN 0 AND ?`.
unfoldable pub level_sql : Level → Level → Bool
level_sql (whole level) (whole clearance) = leb level clearance
level_sql _ _ = false

unfoldable pub clearance_sql : Snapshot → Requirement → CategoryRule → Bool
clearance_sql s r category = elim category.kind [
  | evidence ↦ level_sql r.file_confidentiality_level s.clearance
  | fixed_category ↦ true
]

-- A category that no resource of it is readable under: its own level is too high.
unfoldable pub is_left_out : Snapshot → CategoryRule → Bool
is_left_out s category = elim category.kind [
  | evidence ↦ false
  | fixed_category ↦
      not (is_business_clearance category.confidentiality_level)
      || level_ltb s.clearance category.confidentiality_level
]

unfoldable pub relevant_grants : Snapshot → CategoryRule → List Grant
relevant_grants s category =
    find_many (λ (g : Grant). includes g.category_ids category.id) (usable_grants s)

module _ (has_ink : Text → Bool) where
  unfoldable pub name_sql : Ownership → Option Text → Bool
  name_sql group name = is_none name
  name_sql store none = false
  name_sql store (some name) = has_ink name

  -- The scope has the shape that its category asks for.
  unfoldable pub shape_sql : CategoryRule → ScopeItem → Bool
  shape_sql category s =
      any (λ o. ownership_eq o s.ownership) category.ownerships
      && (name_sql s.ownership s.store_name
          && (not (is_empty s.enterprise_key)
              && (length s.dimensions == length category.required_dimension_ids
                  && all (λ id. has_dimension id (λ v. not (is_empty v)) s)
                      category.required_dimension_ids)))

  unfoldable pub scope_sql : Snapshot → CategoryRule → ScopeItem → Bool
  scope_sql s category x =
      shape_sql category x
      && any (λ (g : Grant). grant_sql g category x) (relevant_grants s category)

  unfoldable pub category_sql : Snapshot → Requirement → CategoryRule → Bool
  category_sql s r category =
      not (is_left_out s category)
      && (not (is_empty (relevant_grants s category))
          && (text_eq category.id r.category_id
              && (clearance_sql s r category && all (scope_sql s category) r.scopes)))

  unfoldable pub authorized_scope : Snapshot → Requirement → Bool
  authorized_scope s r =
      if s.disabled || (not (is_enabled s.mode) || not (is_business_clearance s.clearance))
      then false
      else text_eq s.org_id r.org_id
        && (r.valid && (not (is_empty r.scopes) && any (category_sql s r) s.categories))
