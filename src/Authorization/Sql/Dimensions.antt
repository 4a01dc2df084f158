-- ===== src/Authorization/Sql/Dimensions.antt =====
-- The rows of a dictionary against its lookups.
use sme_data_center.Common.{
  Bool, true, false, not, ◌&&◌, Option, none, some, List, [], ◌∷◌, ◌≡◌, refl, arith, any, Text,
  text_eq, text_eq_iff, is_empty, ap, sym, ◌∙◌, Bool-cases, inl, inr,
}
use sme_data_center.Authorization.{
  Selection, everything, fixed, ScopeItem, is_blank, lookup, selected, has_value,
}
use sme_data_center.Authorization.Sql.{has_dimension, value_sql}

-- No key stands twice: (org, resource, scope, dimension) is the key of the table.
abbrev pub HasKeys : List (Text × Text) → Type 0
HasKeys [] = Unit
HasKeys (d ∷ ds) = (any (λ e. text_eq e.0 d.0) ds ≡ false) × HasKeys ds

-- The database finds a unit that is no space in the name where the name is not blank.
abbrev pub ReadsAlike : (Text → Bool) → Option Text → Type 0
ReadsAlike has_ink none = Unit
ReadsAlike has_ink (some name) = has_ink name ≡ not (is_blank name)

-- What the tables and the database give for a scope.
pub record IsRegular (has_ink : Text → Bool) (s : ScopeItem) : Type 0 where
  pub keys : HasKeys s.dimensions
  pub name : ReadsAlike has_ink s.store_name

abbrev pub passes : (Text → Bool) → Option Text → Bool
passes test none = false
passes test (some v) = test v

any-absent :
    (id : Text) (test : Text → Bool) (ds : List (Text × Text))
    → any (λ e. text_eq e.0 id) ds ≡ false
    → any (λ e. text_eq e.0 id && test e.1) ds ≡ false
any-absent id test [] h = refl
any-absent id test ((k, v) ∷ ds) h = ground (arith, any-absent id test ds)

any-lookup :
    (id : Text) (test : Text → Bool) (ds : List (Text × Text))
    → HasKeys ds
    → any (λ e. text_eq e.0 id && test e.1) ds ≡ passes test (lookup id ds)
unfolding lookup
any-lookup id test [] h = refl
any-lookup id test ((k, v) ∷ ds) (new, h) = elim (Bool-cases (text_eq k id)) [
  | inl hit ↦ by_test hit (test v) refl
  | inr miss ↦ rw miss (any-lookup id test ds h)
]
  where
    absent : text_eq k id ≡ true → any (λ e. text_eq e.0 id && test e.1) ds ≡ false
    absent hit = any-absent id test ds (
        ap (λ key. any (λ (e : Text × Text). text_eq e.0 key) ds) (sym ((text_eq_iff k id).0 hit))
        ∙ new)

    by_test :
        text_eq k id ≡ true
        → (b : Bool) → test v ≡ b
        → any (λ e. text_eq e.0 id && test e.1) ((k, v) ∷ ds)
          ≡ passes test (lookup id ((k, v) ∷ ds))
    by_test hit b e = rw (hit, lookup) (ground (arith, absent hit, e))

pub has_dimension-lookup :
    (id : Text) (test : Text → Bool) (s : ScopeItem)
    → HasKeys s.dimensions
    → has_dimension id test s ≡ passes test (lookup id s.dimensions)
unfolding has_dimension
has_dimension-lookup id test s keys = any-lookup id test s.dimensions keys

-- A row with a value is a value that is looked up.
pub has_dimension-value :
    (id : Text) (s : ScopeItem)
    → HasKeys s.dimensions
    → has_dimension id (λ v. not (is_empty v)) s ≡ has_value (lookup id s.dimensions)
unfolding has_value
has_dimension-value id s keys =
    has_dimension-lookup id (λ v. not (is_empty v)) s keys ∙ by_value (lookup id s.dimensions)
  where
    by_value : (o : Option Text) → passes (λ v. not (is_empty v)) o ≡ has_value o
    by_value none = refl
    by_value (some v) = refl

-- The condition on the value, where there is one.
pub has_dimension-selected :
    (selection : Option Selection) (id : Text) (s : ScopeItem)
    → HasKeys s.dimensions
    → has_value (lookup id s.dimensions) ≡ true
    → has_dimension id (value_sql selection) s ≡ selected selection (lookup id s.dimensions)
unfolding has_value value_sql selected
has_dimension-selected selection id s keys given =
    has_dimension-lookup id (value_sql selection) s keys
    ∙ by_value selection (lookup id s.dimensions) given
  where
    by_value :
        (selection : Option Selection) (o : Option Text)
        → has_value o ≡ true
        → passes (value_sql selection) o ≡ selected selection o
    by_value selection none h = cc
    by_value none (some v) h = refl
    by_value (some everything) (some v) h = refl
    by_value (some (fixed values)) (some v) h = refl
