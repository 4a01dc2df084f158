-- ===== src/Authorization/Sql/Agreement.antt =====
-- The condition of `compileAuthorizedScope` against `canReadResource`.
use sme_data_center.Common.{
  Bool, true, false, not, ◌&&◌, Option, none, some, List, [], ◌∷◌, ◌≡◌, ◌↔◌, refl, arith, any, all,
  All, ap, sym, ◌∙◌, Bool-cases, Option-cases, inl, inr, Text, text_eq, text_eq_iff, is_empty,
  is_empty_iff, find, if◌then◌else◌,
}
use sme_data_center.Authorization.{
  ScopeItem, CategoryRule, Requirement, Snapshot, Decision, allowed, denied, account_disabled,
  organization_mismatch, authorization_not_enabled, resource_invalid, attributes_not_ready,
  is_business_clearance, level_ltb, required_level, is_enabled, covers, usable_grants,
  validate_business_scope, decide_category, can_read_resource,
}
use sme_data_center.Authorization.Reading.{decision-allowed_iff}
use sme_data_center.Authorization.Sql.{
  level_sql, clearance_sql, is_left_out, relevant_grants, scope_sql, category_sql, authorized_scope,
}
use sme_data_center.Authorization.Sql.Dimensions.{IsRegular}
use sme_data_center.Authorization.Sql.Scopes.{any-same, scope-same}

-- No two categories of an organization have one id.
abbrev pub HasIds : List CategoryRule → Type 0
HasIds [] = Unit
HasIds (c ∷ cs) = (any (λ (d : CategoryRule). text_eq d.id c.id) cs ≡ false) × HasIds cs

abbrev tests : (CategoryRule → Bool) → Option CategoryRule → Bool
tests p none = false
tests p (some c) = p c

none-other :
    (p : CategoryRule → Bool) (id : Text) (cs : List CategoryRule)
    → any (λ (d : CategoryRule). text_eq d.id id) cs ≡ false
    → any (λ (d : CategoryRule). text_eq d.id id && p d) cs ≡ false
none-other p id [] h = refl
none-other p id (c ∷ cs) h = ground (arith, none-other p id cs)

any-find :
    (p : CategoryRule → Bool) (id : Text) (cs : List CategoryRule)
    → HasIds cs
    → any (λ (c : CategoryRule). text_eq c.id id && p c) cs
      ≡ tests p (find (λ (c : CategoryRule). text_eq c.id id) cs)
any-find p id [] h = refl
any-find p id (c ∷ cs) (new, h) = elim (Bool-cases (text_eq c.id id)) [
  | inl hit ↦ by_test hit (p c) refl
  | inr miss ↦ rw miss (any-find p id cs h)
]
  where
    absent : text_eq c.id id ≡ true → any (λ (d : CategoryRule). text_eq d.id id && p d) cs ≡ false
    absent hit = none-other p id cs (
        ap (λ key. any (λ (d : CategoryRule). text_eq d.id key) cs)
          (sym ((text_eq_iff c.id id).0 hit))
        ∙ new)

    by_test :
        text_eq c.id id ≡ true
        → (b : Bool) → p c ≡ b
        → any (λ (d : CategoryRule). text_eq d.id id && p d) (c ∷ cs)
          ≡ tests p (find (λ (d : CategoryRule). text_eq d.id id) (c ∷ cs))
    by_test hit b e = rw hit (ground (arith, absent hit, e))

-- The levels agree, for a clearance that is one.
levels-same :
    (s : Snapshot) (r : Requirement) (category : CategoryRule)
    → is_business_clearance s.clearance ≡ true
    → (not (is_left_out s category) && clearance_sql s r category) ≡ (
        is_business_clearance (required_level category r)
        && (is_business_clearance s.clearance
            && not (level_ltb s.clearance (required_level category r))))
unfolding is_left_out clearance_sql level_sql required_level is_business_clearance level_ltb
levels-same s r category h = ground arith

module _ (has_ink : Text → Bool) where
  scopes-same :
      (s : Snapshot) (category : CategoryRule) (scopes : List ScopeItem)
      → All (IsRegular has_ink) scopes
      → all (scope_sql has_ink s category) scopes ≡ (
          not (any (λ x. not (validate_business_scope x category)) scopes)
          && all (λ x. any (covers category x) (usable_grants s)) scopes)
  scopes-same s category [] keys = refl
  scopes-same s category (x ∷ scopes) (here, keys) =
      ground (arith, scope-same has_ink s category x here, scopes-same s category scopes keys)

  -- Without a relevant grant no scope has its conditions met.
  none-relevant :
      (s : Snapshot) (category : CategoryRule) (scopes : List ScopeItem)
      → is_empty (relevant_grants s category) ≡ true
      → is_empty scopes ≡ false
      → all (scope_sql has_ink s category) scopes ≡ false
  unfolding scope_sql
  none-relevant s category [] h e = cc
  none-relevant s category (x ∷ scopes) h e =
      rw ((is_empty_iff (relevant_grants s category)).0 h, scope_sql) (ground arith)

-- The tests of `canReadResource` on a category, as one test.
abbrev decided : Snapshot → Requirement → CategoryRule → Bool
decided s r category =
    not (is_empty r.scopes)
    && (not (any (λ x. not (validate_business_scope x category)) r.scopes)
        && ((is_business_clearance (required_level category r)
              && (is_business_clearance s.clearance
                  && not (level_ltb s.clearance (required_level category r))))
            && all (λ x. any (covers category x) (usable_grants s)) r.scopes))

decide-decided :
    (s : Snapshot) (r : Requirement) (category : CategoryRule)
    → (decide_category s r category ≡ allowed) ↔ (decided s r category ≡ true)
unfolding decide_category
decide-decided s r category =
    decision-allowed_iff (is_empty r.scopes)
      (any (λ x. not (validate_business_scope x category)) r.scopes)
      (is_business_clearance (required_level category r)) (is_business_clearance s.clearance)
      (level_ltb s.clearance (required_level category r))
      (all (λ x. any (covers category x) (usable_grants s)) r.scopes)

-- The first tests of `canReadResource`, before the category is looked at.
guarded :
    (off elsewhere on valid : Bool) (d : Decision) (b : Bool)
    → (d ≡ allowed) ↔ (b ≡ true)
    → ((if off
          then denied account_disabled
          else if not elsewhere
          then denied organization_mismatch
          else if not on
          then denied authorization_not_enabled
          else if not valid
          then denied resource_invalid
          else d)
        ≡ allowed)
      ↔ ((not off && (elsewhere && (on && (valid && b)))) ≡ true)
guarded true elsewhere on valid d b h = (λ e. cc, λ e. cc)
guarded false false on valid d b h = (λ e. cc, λ e. cc)
guarded false true false valid d b h = (λ e. cc, λ e. cc)
guarded false true true false d b h = (λ e. cc, λ e. cc)
guarded false true true true d b h = h

can_read-decided :
    (s : Snapshot) (r : Requirement)
    → (can_read_resource s r ≡ allowed) ↔ (
        (not s.disabled
          && (text_eq s.org_id r.org_id
              && (is_enabled s.mode
                  && (r.valid
                      && tests
                          (decided s r)
                          (find (λ (c : CategoryRule). text_eq c.id r.category_id) s.categories)))))
        ≡ true)
unfolding can_read_resource
can_read-decided s r = guarded _ _ _ _ _ _ (by_category _)
  where
    by_category :
        (o : Option CategoryRule)
        → ((elim o [ none ↦ denied attributes_not_ready | some c ↦ decide_category s r c ])
            ≡ allowed)
          ↔ (tests (decided s r) o ≡ true)
    by_category none = (λ e. cc, λ e. cc)
    by_category (some c) = decide-decided s r c

module _ (has_ink : Text → Bool) where
  -- The conditions of a category, less the comparison of its id.
  category-same :
      (s : Snapshot) (r : Requirement) (category : CategoryRule)
      → is_business_clearance s.clearance ≡ true
      → All (IsRegular has_ink) r.scopes
      → (not (is_empty r.scopes)
          && (not (is_left_out s category)
              && (not (is_empty (relevant_grants s category))
                  && (clearance_sql s r category && all (scope_sql has_ink s category) r.scopes))))
        ≡ decided s r category
  category-same s r category clearance keys =
      let levels = levels-same s r category clearance in
      let scopes = scopes-same has_ink s category r.scopes keys in
      elim (Bool-cases (is_empty r.scopes)) [
        | inl empty ↦ ground arith
        | inr filled ↦ elim (Bool-cases (is_empty (relevant_grants s category))) [
          | inl no_grant ↦
              let none = none-relevant has_ink s category r.scopes no_grant filled in ground arith
          | inr some_grant ↦ ground arith
        ]
      ]

  categories-same :
      (s : Snapshot) (r : Requirement)
      → is_business_clearance s.clearance ≡ true
      → HasIds s.categories
      → All (IsRegular has_ink) r.scopes
      → (not (is_empty r.scopes) && any (category_sql has_ink s r) s.categories)
        ≡ tests (decided s r) (find (λ (c : CategoryRule). text_eq c.id r.category_id) s.categories)
  unfolding category_sql
  categories-same s r clearance ids keys =
      let rest = λ (c : CategoryRule).
        not (is_left_out s c)
        && (not (is_empty (relevant_grants s c))
            && (clearance_sql s r c && all (scope_sql has_ink s c) r.scopes)) in
      let reordered =
        any-same (category_sql has_ink s r) (λ c. text_eq c.id r.category_id && rest c) s.categories
          (λ c. ground arith) in
      let found = any-find rest r.category_id s.categories ids in
      elim (Option-cases (find (λ (c : CategoryRule). text_eq c.id r.category_id) s.categories)) [
        | inl m ↦ rw (reordered, found, m) (ground arith)
        | inr (c, m) ↦ rw (reordered, found, m) (category-same s r c clearance keys)
      ]

  -- A clearance that is none is not enough for any category.
  unclear :
      (s : Snapshot) (r : Requirement) (o : Option CategoryRule)
      → is_business_clearance s.clearance ≡ false
      → tests (decided s r) o ≡ false
  unclear s r none h = refl
  unclear s r (some c) h = ground arith

  -- The condition holds of a resource exactly where `canReadResource` allows its reading, where no two
  -- categories have one id, and each scope of the resource has one row for a dimension and a name
  -- in which the database finds a unit that is no space just when it is not blank.
  pub authorized_scope_iff :
      (s : Snapshot) (r : Requirement)
      → HasIds s.categories
      → All (IsRegular has_ink) r.scopes
      → (authorized_scope has_ink s r ≡ true) ↔ (can_read_resource s r ≡ allowed)
  unfolding authorized_scope
  authorized_scope_iff s r ids keys =
      let (to, from) = can_read-decided s r in
      elim (Bool-cases (is_business_clearance s.clearance)) [
        | inl clearance ↦
            let same = categories-same s r clearance ids keys in
            (λ h. from (ground arith), λ h. let facts = to h in ground arith)
        | inr low ↦
            let none_fits =
              unclear s r (find (λ (c : CategoryRule). text_eq c.id r.category_id) s.categories)
                low in
            (λ h. ground arith, λ h. let facts = to h in ground arith)
      ]
