-- ===== src/Authorization/Grants.antt =====
-- What `validateBusinessGrant` and `validateBusinessScope` accept.
use sme_data_center.Common.{
  Bool, true, false, not, ◌&&◌, ◌||◌, if◌then◌else◌, Option, none, some, List, [], ◌∷◌, ◌≡◌, ◌≢◌,
  ◌↔◌, inl, inr, refl, arith, is_empty, any, All, Any, all_iff, Text, length, find, ◌==◌, ==_iff,
  and_iff, filled_iff, is_empty_iff, is_empty-append, not-any-not, Option-cases, is_none, text_eq,
  sym, ◌∙◌,
}
use sme_data_center.Authorization.{
  Ownership, group, store, ownership_eq, Selection, ScopeItem, CategoryRule, Grant, GrantError,
  category_ownership_mismatch, dimension_selection_mismatch, lookup, valid_selection, bad_stores,
  bad_dimensions, category_errors, all_category_errors, validate_business_grant,
  validate_business_scope, has_value,
}
use sme_data_center.Authorization.Selections.{
  IsProper, valid_selection_iff, ownerships_iff, HasStoreName, good_store_name_iff, HasText,
  has_value_iff,
}

-- The rule that a category id stands for: the first of that id.
abbrev pub IsRule : List CategoryRule → Text → CategoryRule → Type 0
IsRule categories id rule = find (λ (c : CategoryRule). text_eq c.id id) categories ≡ some rule

-- A grant of a category: its ownership is one of the rule's, and it selects in each dimension that
-- the rule requires, and in no other number of them.
abbrev pub FitsRule : Grant → CategoryRule → Type 0
FitsRule g rule =
    Any (λ o. o ≡ g.ownership) rule.ownerships
    × (length g.dimensions ≡ length rule.required_dimension_ids)
    × All (λ d. IsProper (lookup d g.dimensions)) rule.required_dimension_ids

abbrev pub HasStores : Ownership → Option Selection → Type 0
HasStores store stores = IsProper stores
HasStores group stores = stores ≡ none

pub record GrantIsValid (g : Grant) (categories : List CategoryRule) : Type 0 where
  pub org : g.org_id ≢ []
  pub enterprise : g.enterprise_key ≢ []
  pub some_category : g.category_ids ≢ []
  pub has_stores : HasStores g.ownership g.stores
  pub each :
      All (λ id. (rule : CategoryRule) × IsRule categories id rule × FitsRule g rule) g.category_ids

pub record ScopeIsValid (s : ScopeItem) (rule : CategoryRule) : Type 0 where
  pub enterprise : s.enterprise_key ≢ []
  pub ownership : Any (λ o. o ≡ s.ownership) rule.ownerships
  pub named : HasStoreName s.ownership s.store_name
  pub arity : length s.dimensions ≡ length rule.required_dimension_ids
  pub valued : All (λ id. HasText (lookup id s.dimensions)) rule.required_dimension_ids

pub validate_business_scope_iff :
    (s : ScopeItem) (rule : CategoryRule)
    → (validate_business_scope s rule ≡ true) ↔ ScopeIsValid s rule
unfolding validate_business_scope
validate_business_scope_iff s rule =
    let parts = and_iff (filled_iff s.enterprise_key) (
      and_iff (ownerships_iff rule.ownerships s.ownership) (
        and_iff (good_store_name_iff s.ownership s.store_name) (
          and_iff (==_iff (length s.dimensions) (length rule.required_dimension_ids)) (
            all_iff (λ id. has_value (lookup id s.dimensions))
              (λ id. HasText (lookup id s.dimensions))
              (λ id. has_value_iff (lookup id s.dimensions)) rule.required_dimension_ids)))) in
    (
      λ h.
          let (a, (b, (c, (d, e)))) = parts.0 h in
          record { enterprise = a; ownership = b; named = c; arity = d; valued = e },
      λ v. parts.1 (v.enterprise, (v.ownership, (v.named, (v.arity, v.valued)))),
    )

is_none_iff {ℓ} : {A : Type ℓ} (o : Option A) → (is_none o ≡ true) ↔ (o ≡ none)
is_none_iff none = ground arith
is_none_iff (some a) = ground arith

not-not : (b : Bool) → not (not b) ≡ b
not-not true = refl
not-not false = refl

pub stores_iff : (g : Grant) → (not (bad_stores g) ≡ true) ↔ HasStores g.ownership g.stores
unfolding bad_stores
stores_iff g = go g.ownership
  where
    go :
        (o : Ownership)
        → (not (elim o [ store ↦ not (valid_selection g.stores) | group ↦ not (is_none g.stores) ])
            ≡ true)
          ↔ HasStores o g.stores
    go store = rw not-not (valid_selection_iff g.stores)
    go group = rw not-not (is_none_iff g.stores)

not-or_not : (a b : Bool) → not (not a || b) ≡ (a && not b)
not-or_not true b = refl
not-or_not false b = refl

dimensions_iff :
    (g : Grant) (rule : CategoryRule)
    → (not (bad_dimensions g rule) ≡ true) ↔ (
        (length g.dimensions ≡ length rule.required_dimension_ids)
        × All (λ d. IsProper (lookup d g.dimensions)) rule.required_dimension_ids)
unfolding bad_dimensions
dimensions_iff g rule =
    rw (not-or_not (length g.dimensions == length rule.required_dimension_ids) _) (
      rw (not-any-not (λ d. valid_selection (lookup d g.dimensions)) rule.required_dimension_ids) (
        and_iff (==_iff (length g.dimensions) (length rule.required_dimension_ids)) (
          all_iff (λ d. valid_selection (lookup d g.dimensions))
            (λ d. IsProper (lookup d g.dimensions))
            (λ d. valid_selection_iff (lookup d g.dimensions)) rule.required_dimension_ids)))

-- No error for a rule that was found means that the grant fits it.
rule_errors-empty :
    (a bad : Bool)
    → is_empty (
        if not a
        then category_ownership_mismatch ∷ []
        else if bad
        then dimension_selection_mismatch ∷ []
        else [])
      ≡ (a && not bad)
rule_errors-empty true true = refl
rule_errors-empty true false = refl
rule_errors-empty false bad = refl

category_errors_iff :
    (g : Grant) (categories : List CategoryRule) (id : Text)
    → (is_empty (category_errors g categories id) ≡ true)
      ↔ ((rule : CategoryRule) × IsRule categories id rule × FitsRule g rule)
unfolding category_errors
category_errors_iff g categories id = (to, from)
  where
    fits :
        (rule : CategoryRule)
        → ((any (λ o. ownership_eq o g.ownership) rule.ownerships && not (bad_dimensions g rule))
            ≡ true)
          ↔ (Any (λ o. o ≡ g.ownership) rule.ownerships
              × ((length g.dimensions ≡ length rule.required_dimension_ids)
                  × All (λ d. IsProper (lookup d g.dimensions)) rule.required_dimension_ids))
    fits rule = and_iff (ownerships_iff rule.ownerships g.ownership) (dimensions_iff g rule)

    to :
        is_empty (category_errors g categories id) ≡ true
        → (rule : CategoryRule) × IsRule categories id rule × FitsRule g rule
    to h = elim (Option-cases (find (λ (c : CategoryRule). text_eq c.id id) categories)) [
      | inl e ↦ cc (rw (e, category_errors) at h)
      | inr (rule, e) ↦
          let h' = rw (e, category_errors) at h in
          let (a, (b, c)) = (fits rule).0 (
            sym (
              rule_errors-empty (any (λ o. ownership_eq o g.ownership) rule.ownerships)
                (bad_dimensions g rule))
            ∙ h') in
          (rule, e, (a, b, c))
    ]

    from :
        (rule : CategoryRule) × IsRule categories id rule × FitsRule g rule
        → is_empty (category_errors g categories id) ≡ true
    from (rule, e, fit) =
        rw (e, category_errors)
          (rule_errors-empty (any (λ o. ownership_eq o g.ownership) rule.ownerships)
              (bad_dimensions g rule)
            ∙ (fits rule).1 (fit.0, (fit.1, fit.2)))

all_category_errors_iff :
    (g : Grant) (categories : List CategoryRule) (ids : List Text)
    → (is_empty (all_category_errors g categories ids) ≡ true)
      ↔ All (λ id. (rule : CategoryRule) × IsRule categories id rule × FitsRule g rule) ids
unfolding all_category_errors
all_category_errors_iff g categories [] = (λ h. tt, λ h. refl)
all_category_errors_iff g categories (id ∷ ids) =
    rw is_empty-append
      (and_iff (category_errors_iff g categories id) (all_category_errors_iff g categories ids))

is_empty-if : (b : Bool) (e : GrantError) → is_empty (if b then e ∷ [] else []) ≡ not b
is_empty-if true e = refl
is_empty-if false e = refl

identity_iff :
    (g : Grant)
    → (not (is_empty g.org_id || is_empty g.enterprise_key || is_empty g.category_ids) ≡ true)
      ↔ ((g.org_id ≢ []) × ((g.enterprise_key ≢ []) × (g.category_ids ≢ [])))
identity_iff g =
    rw (split (is_empty g.org_id) (is_empty g.enterprise_key) (is_empty g.category_ids)) (
      and_iff (filled_iff g.org_id)
        (and_iff (filled_iff g.enterprise_key) (filled_iff g.category_ids)))
  where
    split : (a b c : Bool) → not (a || b || c) ≡ (not a && (not b && not c))
    split true b c = refl
    split false true c = refl
    split false false c = refl

-- A grant passes without an error exactly when it is valid.
pub is_empty-validate_iff :
    (g : Grant) (categories : List CategoryRule)
    → (is_empty (validate_business_grant g categories) ≡ true) ↔ GrantIsValid g categories
unfolding validate_business_grant
is_empty-validate_iff g categories = rw is_empty-append (
    rw (is_empty-if _ _) (
      rw is_empty-append (
        rw (is_empty-if (bad_stores g) _) (
          λ h.
              let ((o, (e, c)), (s, k)) = parts.0 h in
              record { org = o; enterprise = e; some_category = c; has_stores = s; each = k },
          λ v. parts.1 ((v.org, (v.enterprise, v.some_category)), (v.has_stores, v.each)),
        ))))
  where
    parts :
        ((not (is_empty g.org_id || is_empty g.enterprise_key || is_empty g.category_ids)
            && (not (bad_stores g) && is_empty (all_category_errors g categories g.category_ids)))
          ≡ true)
        ↔ (((g.org_id ≢ []) × ((g.enterprise_key ≢ []) × (g.category_ids ≢ [])))
            × (HasStores g.ownership g.stores
                × All
                    (λ id. (rule : CategoryRule) × IsRule categories id rule × FitsRule g rule)
                    g.category_ids))
    parts =
        and_iff (identity_iff g)
          (and_iff (stores_iff g) (all_category_errors_iff g categories g.category_ids))

-- Grant validation reports no error exactly for a valid grant: it names an organization, an
-- enterprise and some category; it selects stores properly if it is a store grant and none if it
-- is a group grant; and each of its categories is known, admits its ownership, and requires as
-- many dimensions as the grant has, each selected properly.
pub validate_business_grant_iff :
    (g : Grant) (categories : List CategoryRule)
    → (validate_business_grant g categories ≡ []) ↔ GrantIsValid g categories
validate_business_grant_iff g categories =
    let (a, b) = is_empty_iff (validate_business_grant g categories) in
    let (c, d) = is_empty-validate_iff g categories in (λ h. c (b h), λ v. a (d v))
