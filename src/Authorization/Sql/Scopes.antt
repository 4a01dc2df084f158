-- ===== src/Authorization/Sql/Scopes.antt =====
-- The conditions on one scope of a resource: its shape, and the grants that cover it.
use sme_data_center.Common.{
  Bool, true, false, not, ◌&&◌, ◌||◌, Option, none, some, List, [], ◌∷◌, ◌≡◌, refl, arith, any, all,
  sym, ◌∙◌, Bool-cases, inl, inr, Text, text_eq, is_empty, any-find_many,
}
use sme_data_center.Authorization.{
  Ownership, group, store, ownership_eq, Selection, everything, fixed, ScopeItem, CategoryRule,
  Grant, Snapshot, lookup, includes, valid_selection, bad_stores, validate_business_grant,
  good_store_name, has_value, validate_business_scope, selected, covers, usable_grants,
}
use sme_data_center.Authorization.Grants.{stores_iff, is_empty-validate_iff}
use sme_data_center.Authorization.Sql.{
  has_dimension, value_sql, store_sql, grant_sql, name_sql, shape_sql, relevant_grants, scope_sql,
}
use sme_data_center.Authorization.Sql.Dimensions.{
  HasKeys, ReadsAlike, IsRegular, has_dimension-value, has_dimension-selected,
}

all-same : {A : Type 0} (p q : A → Bool) (xs : List A) → ((x : A) → p x ≡ q x) → all p xs ≡ all q xs
all-same p q [] same = refl
all-same p q (x ∷ xs) same = ground (arith, same x, all-same p q xs same)

all-same_where :
    {A : Type 0} (p q given : A → Bool) (xs : List A)
    → ((x : A) → given x ≡ true → p x ≡ q x)
    → all given xs ≡ true
    → all p xs ≡ all q xs
all-same_where p q given [] same h = refl
all-same_where p q given (x ∷ xs) same h = ground (arith, same x, all-same_where p q given xs same)

pub any-same :
    {A : Type 0} (p q : A → Bool) (xs : List A) → ((x : A) → p x ≡ q x) → any p xs ≡ any q xs
any-same p q [] same = refl
any-same p q (x ∷ xs) same = ground (arith, same x, any-same p q xs same)

module _ (has_ink : Text → Bool) where
  name-same :
      (o : Ownership) (name : Option Text)
      → ReadsAlike has_ink name
      → name_sql has_ink o name ≡ good_store_name o name
  unfolding name_sql good_store_name
  name-same group name ink = refl
  name-same store none ink = refl
  name-same store (some name) ink = ink

  shape-same :
      (category : CategoryRule) (s : ScopeItem)
      → IsRegular has_ink s
      → shape_sql has_ink category s ≡ validate_business_scope s category
  unfolding shape_sql validate_business_scope
  shape-same category s regular =
      let names = name-same s.ownership s.store_name regular.name in
      let values =
        all-same (λ id. has_dimension id (λ v. not (is_empty v)) s)
          (λ id. has_value (lookup id s.dimensions)) category.required_dimension_ids
          (λ id. has_dimension-value id s regular.keys) in
      ground arith

-- On the same ownership, a grant whose stores are proper admits the same names.
store-same :
    (g : Grant) (own : Ownership) (name : Option Text)
    → bad_stores g ≡ false
    → ownership_eq g.ownership own ≡ true
    → store_sql g.ownership g.stores name ≡ (ownership_eq own group || selected g.stores name)
unfolding bad_stores store_sql selected valid_selection
store-same g own name good same = by_parts g.ownership own g.stores name (ground arith) same
  where
    by_parts :
        (grant_own own : Ownership) (stores : Option Selection) (name : Option Text)
        → (ownership_eq grant_own group || valid_selection stores) ≡ true
        → ownership_eq grant_own own ≡ true
        → store_sql grant_own stores name ≡ (ownership_eq own group || selected stores name)
    by_parts group group stores name good same = refl
    by_parts store store none name good same = cc
    by_parts store store (some everything) name good same = refl
    by_parts store store (some (fixed values)) none good same = refl
    by_parts store store (some (fixed values)) (some n) good same = refl
    by_parts group store stores name good same = cc
    by_parts store group stores name good same = cc

-- The conditions of a proper grant of the category, on a scope with a value in each dimension that the
-- category asks for, are that it covers the scope.
grant-same :
    (g : Grant) (category : CategoryRule) (s : ScopeItem)
    → HasKeys s.dimensions
    → bad_stores g ≡ false
    → all (λ id. has_value (lookup id s.dimensions)) category.required_dimension_ids ≡ true
    → (includes g.category_ids category.id && grant_sql g category s) ≡ covers category s g
unfolding grant_sql covers
grant-same g category s keys good given =
    let stores = store-same g s.ownership s.store_name good in
    let values =
      all-same_where (λ id. has_dimension id (value_sql (lookup id g.dimensions)) s)
        (λ id. selected (lookup id g.dimensions) (lookup id s.dimensions))
        (λ id. has_value (lookup id s.dimensions)) category.required_dimension_ids
        (λ id h. has_dimension-selected (lookup id g.dimensions) id s keys h) given in
    ground arith

valid-stores :
    (g : Grant) (categories : List CategoryRule)
    → is_empty (validate_business_grant g categories) ≡ true
    → bad_stores g ≡ false
valid-stores g categories h =
    let stores = (stores_iff g).1 ((is_empty-validate_iff g categories).0 h).has_stores in
    ground arith

-- Some relevant grant of the snapshot has its conditions met where some usable one covers the scope.
grants-same :
    (s : Snapshot) (category : CategoryRule) (x : ScopeItem)
    → HasKeys x.dimensions
    → all (λ id. has_value (lookup id x.dimensions)) category.required_dimension_ids ≡ true
    → any (λ g. grant_sql g category x) (relevant_grants s category)
      ≡ any (covers category x) (usable_grants s)
unfolding relevant_grants usable_grants
grants-same s category x keys given =
    any-find_many _ _ (usable_grants s)
    ∙ any-find_many _ _ s.grants
    ∙ any-same _ _ s.grants same
    ∙ sym (any-find_many _ _ s.grants)
  where
    same :
        (g : Grant)
        → ((text_eq g.org_id s.org_id && is_empty (validate_business_grant g s.categories))
            && (includes g.category_ids category.id && grant_sql g category x))
          ≡ ((text_eq g.org_id s.org_id && is_empty (validate_business_grant g s.categories))
              && covers category x g)
    same g = elim (Bool-cases (is_empty (validate_business_grant g s.categories))) [
      | inl proper ↦
          let covered = grant-same g category x keys (valid-stores g s.categories proper) given in
          ground arith
      | inr improper ↦ ground arith
    ]

required-values :
    (category : CategoryRule) (x : ScopeItem)
    → validate_business_scope x category ≡ true
    → all (λ id. has_value (lookup id x.dimensions)) category.required_dimension_ids ≡ true
unfolding validate_business_scope
required-values category x h = ground arith

-- The conditions on a scope are that it is valid and that some usable grant covers it.
pub scope-same :
    (has_ink : Text → Bool) (s : Snapshot) (category : CategoryRule) (x : ScopeItem)
    → IsRegular has_ink x
    → scope_sql has_ink s category x
      ≡ (validate_business_scope x category && any (covers category x) (usable_grants s))
unfolding scope_sql
scope-same has_ink s category x regular =
    let shape = shape-same has_ink category x regular in
    elim (Bool-cases (validate_business_scope x category)) [
      | inl valid ↦
          let granted = grants-same s category x regular.keys (required-values category x valid) in
          ground arith
      | inr invalid ↦ ground arith
    ]
