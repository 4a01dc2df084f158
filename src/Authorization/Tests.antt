-- ===== src/Authorization/Tests.antt =====
-- Runs of the read decision, and its theorems at inputs that meet their hypotheses.
use sme_data_center.Common.{
  Bool, true, false, not, some, List, [], ◌∷◌, ◌++◌, ◌≡◌, ◌↔◌, inl, inr, refl, arith, is_space,
  trim_start, trim, Text,
}
use sme_data_center.Authorization.{
  store, everything, fixed, whole, other, ScopeItem, fixed_category, CategoryRule, Grant,
  Requirement, enabled, employee, Snapshot, allowed, denied, grant_missing, lookup, includes,
  is_blank, is_business_clearance, valid_selection, bad_stores, bad_dimensions, category_errors,
  all_category_errors, validate_business_grant, good_store_name, has_value, validate_business_scope,
  selected, covers, usable_grants, required_level, is_enabled, level_ltb, can_read_resource,
}
use sme_data_center.Authorization.Grants.{GrantIsValid, validate_business_grant_iff}
use sme_data_center.Authorization.Reading.{CanRead, can_read_resource_iff}
use sme_data_center.Authorization.Monotone.{
  can_read-more_grants, can_read-more_clearance, can_read-scopes_iff,
}
use sme_data_center.Authorization.Sql.{authorized_scope}
use sme_data_center.Authorization.Sql.Agreement.{authorized_scope_iff}
use sme_data_center.Authorization.Denial.{Denied, can_read-Denied}

abbrev sales : CategoryRule
sales = record {
  id = b's' ∷ [];
  kind = fixed_category;
  confidentiality_level = whole 2;
  ownerships = store ∷ [];
  required_dimension_ids = (b'p' ∷ []) ∷ [];
}

abbrev store_grant : Text → Grant
store_grant name = record {
  id = b'g' ∷ [];
  org_id = b'o' ∷ [];
  enterprise_key = b'e' ∷ [];
  category_ids = (b's' ∷ []) ∷ [];
  ownership = store;
  stores = some (fixed (name ∷ []));
  dimensions = (b'p' ∷ [], everything) ∷ [];
}

abbrev store_scope : Text → ScopeItem
store_scope name = record {
  enterprise_key = b'e' ∷ [];
  ownership = store;
  store_name = some name;
  dimensions = (b'p' ∷ [], b'X' ∷ []) ∷ [];
}

abbrev account : List Grant → Snapshot
account grants = record {
  org_id = b'o' ∷ [];
  employee_id = b'u' ∷ [];
  role = employee;
  disabled = false;
  clearance = whole 2;
  mode = enabled;
  categories = sales ∷ [];
  grants = grants;
}

abbrev report : List ScopeItem → Requirement
report scopes = record {
  org_id = b'o' ∷ [];
  category_id = b's' ∷ [];
  valid = true;
  file_confidentiality_level = other;
  scopes = scopes;
}

abbrev a_name : Text
a_name = b'A' ∷ []

abbrev b_name : Text
b_name = b'B' ∷ []

abbrev grant_a : Grant
grant_a = store_grant a_name

abbrev grant_b : Grant
grant_b = store_grant b_name

abbrev scope_a : ScopeItem
scope_a = store_scope a_name

abbrev scope_b : ScopeItem
scope_b = store_scope b_name

reads_own_store : can_read_resource (account (grant_a ∷ [])) (report (scope_a ∷ [])) ≡ allowed
unfolding can_read_resource lookup includes is_blank trim trim_start is_space is_business_clearance
    valid_selection bad_stores bad_dimensions category_errors all_category_errors
    validate_business_grant good_store_name has_value validate_business_scope selected covers
    usable_grants required_level is_enabled level_ltb
reads_own_store = refl

not_another_store :
    can_read_resource (account (grant_a ∷ [])) (report (scope_a ∷ scope_b ∷ []))
    ≡ denied grant_missing
unfolding can_read_resource lookup includes is_blank trim trim_start is_space is_business_clearance
    valid_selection bad_stores bad_dimensions category_errors all_category_errors
    validate_business_grant good_store_name has_value validate_business_scope selected covers
    usable_grants required_level is_enabled level_ltb
not_another_store = refl

validate_business_grant_iff_example :
    (validate_business_grant grant_a (sales ∷ []) ≡ []) ↔ GrantIsValid grant_a (sales ∷ [])
validate_business_grant_iff_example = validate_business_grant_iff grant_a (sales ∷ [])

can_read_resource_iff_example :
    (can_read_resource (account (grant_a ∷ [])) (report (scope_a ∷ [])) ≡ allowed)
    ↔ CanRead (account (grant_a ∷ [])) (report (scope_a ∷ []))
can_read_resource_iff_example =
    can_read_resource_iff (account (grant_a ∷ [])) (report (scope_a ∷ []))

can_read-more_grants_example :
    can_read_resource (account (grant_b ∷ grant_a ∷ [])) (report (scope_a ∷ [])) ≡ allowed
can_read-more_grants_example =
    can_read-more_grants (account (grant_a ∷ [])) (report (scope_a ∷ [])) (grant_b ∷ grant_a ∷ [])
      (inr (inl refl), tt) reads_own_store

can_read-more_clearance_example :
    can_read_resource
      (record (account (grant_a ∷ [])) { clearance = whole 3 })
      (report (scope_a ∷ []))
    ≡ allowed
can_read-more_clearance_example =
    can_read-more_clearance (account (grant_a ∷ [])) (report (scope_a ∷ [])) 2 3 (omega arith)
      (omega arith) reads_own_store

can_read-scopes_iff_example :
    (can_read_resource
        (account (grant_a ∷ []))
        (record (report []) { scopes = (scope_a ∷ []) ++ (scope_b ∷ []) })
      ≡ allowed)
    ↔ ((can_read_resource (account (grant_a ∷ [])) (record (report []) { scopes = scope_a ∷ [] })
          ≡ allowed)
        × (can_read_resource (account (grant_a ∷ [])) (record (report []) { scopes = scope_b ∷ [] })
            ≡ allowed))
can_read-scopes_iff_example =
    can_read-scopes_iff (account (grant_a ∷ [])) (report []) (scope_a ∷ []) (scope_b ∷ []) (λ e. cc)
      (λ e. cc)

can_read-Denied_example :
    Denied (account (grant_a ∷ [])) (report (scope_a ∷ scope_b ∷ [])) grant_missing
can_read-Denied_example =
    can_read-Denied (account (grant_a ∷ [])) (report (scope_a ∷ scope_b ∷ [])) grant_missing
      not_another_store

-- A database whose \S agrees with `trim`.
abbrev inked : Text → Bool
inked name = not (is_blank name)

authorized_scope_iff_example :
    (authorized_scope inked (account (grant_a ∷ [])) (report (scope_a ∷ [])) ≡ true)
    ↔ (can_read_resource (account (grant_a ∷ [])) (report (scope_a ∷ [])) ≡ allowed)
authorized_scope_iff_example =
    authorized_scope_iff inked (account (grant_a ∷ [])) (report (scope_a ∷ [])) (refl, tt)
      (record { keys = (refl, tt); name = refl }, tt)
