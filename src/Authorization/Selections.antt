-- ===== src/Authorization/Selections.antt =====
-- What the tests of business-authorization.ts on texts, selections and dictionaries mean.
use sme_data_center.Common.{
  true, false, not, Option, none, some, List, [], ◌∷◌, ◌≡◌, ◌≢◌, ◌↔◌, refl, arith, any, All, Any,
  all_iff, any_iff, Text, text_eq, text_eq_iff, and_iff, not_iff, filled_iff,
}
use sme_data_center.Authorization.{
  Ownership, group, store, ownership_eq, Selection, everything, fixed, includes, is_blank,
  valid_selection, selected, good_store_name, has_value,
}

pub ownership_eq_iff : (a b : Ownership) → (ownership_eq a b ≡ true) ↔ (a ≡ b)
ownership_eq_iff group group = ground arith
ownership_eq_iff group store = ground arith
ownership_eq_iff store group = ground arith
ownership_eq_iff store store = ground arith

abbrev pub Listed : Text → List Text → Type 0
Listed x = Any (λ y. y ≡ x)

pub includes_iff : (xs : List Text) (x : Text) → (includes xs x ≡ true) ↔ Listed x xs
unfolding includes
includes_iff xs x = any_iff (λ y. text_eq y x) (λ y. y ≡ x) (λ y. text_eq_iff y x) xs

pub ownerships_iff :
    (os : List Ownership) (o : Ownership)
    → (any (λ x. ownership_eq x o) os ≡ true) ↔ Any (λ x. x ≡ o) os
ownerships_iff os o = any_iff (λ x. ownership_eq x o) (λ x. x ≡ o) (λ x. ownership_eq_iff x o) os

-- A selection that may be stored: everything, or a non-empty list of texts that are not blank.
abbrev pub IsProper : Option Selection → Type 0
IsProper none = ⊥
IsProper (some everything) = Unit
IsProper (some (fixed values)) = (values ≢ []) × All (λ v. is_blank v ≡ false) values

-- The selection admits the value.
abbrev pub Admits : Option Selection → Option Text → Type 0
Admits none value = ⊥
Admits (some everything) value = Unit
Admits (some (fixed values)) none = ⊥
Admits (some (fixed values)) (some v) = Listed v values

pub valid_selection_iff : (s : Option Selection) → (valid_selection s ≡ true) ↔ IsProper s
unfolding valid_selection
valid_selection_iff none = (λ h. cc, λ h. absurd h)
valid_selection_iff (some everything) = (λ h. tt, λ h. refl)
valid_selection_iff (some (fixed vs)) =
    and_iff (filled_iff vs)
      (all_iff (λ v. not (is_blank v)) (λ v. is_blank v ≡ false) (λ v. not_iff (is_blank v)) vs)

pub selected_iff : (s : Option Selection) (v : Option Text) → (selected s v ≡ true) ↔ Admits s v
unfolding selected
selected_iff none v = (λ h. cc, λ h. absurd h)
selected_iff (some everything) v = (λ h. tt, λ h. refl)
selected_iff (some (fixed vs)) none = (λ h. cc, λ h. absurd h)
selected_iff (some (fixed vs)) (some v) = includes_iff vs v

-- A store's scope names a store that is not blank, a group's names none.
abbrev pub HasStoreName : Ownership → Option Text → Type 0
HasStoreName store none = ⊥
HasStoreName store (some name) = is_blank name ≡ false
HasStoreName group name = name ≡ none

pub good_store_name_iff :
    (o : Ownership) (name : Option Text) → (good_store_name o name ≡ true) ↔ HasStoreName o name
unfolding good_store_name
good_store_name_iff store none = (λ h. cc, λ h. absurd h)
good_store_name_iff store (some name) = not_iff (is_blank name)
good_store_name_iff group none = ground arith
good_store_name_iff group (some name) = ground arith

abbrev pub HasText : Option Text → Type 0
HasText none = ⊥
HasText (some v) = v ≢ []

pub has_value_iff : (v : Option Text) → (has_value v ≡ true) ↔ HasText v
unfolding has_value
has_value_iff none = (λ h. cc, λ h. absurd h)
has_value_iff (some []) = (λ h. cc, λ h. absurd (h refl))
has_value_iff (some (c ∷ v)) = (λ h e. cc, λ h. refl)
