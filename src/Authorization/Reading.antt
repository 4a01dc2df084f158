-- ===== src/Authorization/Reading.antt =====
-- What `canReadResource` allows, and why it denies.
use sme_data_center.Common.{
  Bool, true, false, not, ◌&&◌, ◌||◌, if◌then◌else◌, Option, none, some, [], ◌≡◌, ◌≢◌, ◌↔◌, ◌⊎◌,
  refl, arith, is_empty, all, any, All, Any, all_iff, find, find_many_iff, and_iff, or_iff,
  filled_iff, not-any-not, text_eq, text_eq_iff, ◌≤◌,
}
use sme_data_center.Authorization.{
  group, ScopeItem, CategoryRule, Grant, Level, whole, other, Requirement, Snapshot, Mode, legacy,
  preparing, enabled, suspended, Decision, allowed, denied, account_disabled, organization_mismatch,
  authorization_not_enabled, resource_invalid, attributes_not_ready, clearance_insufficient,
  grant_missing, lookup, is_business_clearance, validate_business_grant, validate_business_scope,
  selected, covers, usable_grants, required_level, is_enabled, level_ltb, decide_category,
  can_read_resource,
}
use sme_data_center.Authorization.Selections.{
  ownership_eq_iff, Listed, includes_iff, Admits, selected_iff,
}
use sme_data_center.Authorization.Grants.{
  IsRule, GrantIsValid, ScopeIsValid, validate_business_scope_iff, is_empty-validate_iff,
}

-- A grant covers a scope of a resource of the category.
pub record Covers (category : CategoryRule) (s : ScopeItem) (g : Grant) : Type 0 where
  pub enterprise : g.enterprise_key ≡ s.enterprise_key
  pub listed : Listed category.id g.category_ids
  pub ownership : g.ownership ≡ s.ownership
  pub stores : (s.ownership ≡ group) ⊎ Admits g.stores s.store_name
  pub dimensions :
      All
        (λ id. Admits (lookup id g.dimensions) (lookup id s.dimensions))
        category.required_dimension_ids

pub covers_iff :
    (category : CategoryRule) (s : ScopeItem) (g : Grant)
    → (covers category s g ≡ true) ↔ Covers category s g
unfolding covers
covers_iff category s g =
    let parts = and_iff (text_eq_iff g.enterprise_key s.enterprise_key) (
      and_iff (includes_iff g.category_ids category.id) (
        and_iff (ownership_eq_iff g.ownership s.ownership) (
          and_iff (or_iff (ownership_eq_iff s.ownership group) (selected_iff g.stores s.store_name))
            (all_iff (λ id. selected (lookup id g.dimensions) (lookup id s.dimensions))
              (λ id. Admits (lookup id g.dimensions) (lookup id s.dimensions))
              (λ id. selected_iff (lookup id g.dimensions) (lookup id s.dimensions))
              category.required_dimension_ids)))) in
    (
      λ h.
          let (a, (b, (c, (d, e)))) = parts.0 h in
          record { enterprise = a; listed = b; ownership = c; stores = d; dimensions = e },
      λ v. parts.1 (v.enterprise, (v.listed, (v.ownership, (v.stores, v.dimensions)))),
    )

-- A grant of the snapshot's organization that is valid and covers the scope.
abbrev pub Permits : Snapshot → CategoryRule → ScopeItem → Grant → Type 0
Permits s category x g = (g.org_id ≡ s.org_id) × GrantIsValid g s.categories × Covers category x g

-- Both levels are levels, and the clearance reaches the required one.
abbrev pub Clears : Level → Level → Type 0
Clears (whole clearance) (whole level) = (clearance ≤ 3) × (level ≤ clearance)
Clears _ _ = ⊥

-- The account may read the resource.
pub record CanRead (s : Snapshot) (r : Requirement) : Type 0 where
  pub not_disabled : s.disabled ≡ false
  pub same_org : s.org_id ≡ r.org_id
  pub is_on : s.mode ≡ enabled
  pub valid : r.valid ≡ true
  pub category : CategoryRule
  pub is_rule : IsRule s.categories r.category_id category
  pub scoped : r.scopes ≢ []
  pub scopes : All (λ x. ScopeIsValid x category) r.scopes
  pub cleared : Clears s.clearance (required_level category r)
  pub granted : All (λ x. Any (Permits s category x) s.grants) r.scopes

-- Some usable grant covers a scope exactly when some listed grant permits it.
usable_iff :
    (s : Snapshot) (category : CategoryRule) (x : ScopeItem)
    → (any (covers category x) (usable_grants s) ≡ true) ↔ Any (Permits s category x) s.grants
unfolding usable_grants
usable_iff s category x =
    find_many_iff
      (λ (g : Grant).
        text_eq g.org_id s.org_id && is_empty (validate_business_grant g s.categories))
      (covers category x) (Permits s category x)
      (λ g.
        let parts =
          and_iff (and_iff (text_eq_iff g.org_id s.org_id) (is_empty-validate_iff g s.categories))
            (covers_iff category x g) in
        (λ h. let ((a, b), c) = parts.0 h in (a, b, c), λ p. parts.1 ((p.0, p.1), p.2)))
      s.grants

pub is_enabled_iff : (m : Mode) → (is_enabled m ≡ true) ↔ (m ≡ enabled)
unfolding is_enabled
is_enabled_iff legacy = ground arith
is_enabled_iff preparing = ground arith
is_enabled_iff enabled = ground arith
is_enabled_iff suspended = ground arith

Clears-iff :
    (c l : Level)
    → ((is_business_clearance l && (is_business_clearance c && not (level_ltb c l))) ≡ true)
      ↔ Clears c l
unfolding is_business_clearance level_ltb
Clears-iff (whole c) (whole l) = (λ h. (ground arith, ground arith), λ h. ground arith)
Clears-iff (whole c) other = (λ h. cc, λ h. absurd h)
Clears-iff other (whole l) = (λ h. ground arith, λ h. absurd h)
Clears-iff other other = (λ h. cc, λ h. absurd h)

-- The last four steps of the decision, over the results of their tests.
pub decision-allowed_iff :
    (empty invalid level clearance low granted_all : Bool)
    → ((if empty || invalid
          then denied attributes_not_ready
          else if not level || not clearance
          then denied attributes_not_ready
          else if low
          then denied clearance_insufficient
          else if granted_all
          then allowed
          else denied grant_missing)
        ≡ allowed)
      ↔ ((not empty && (not invalid && ((level && (clearance && not low)) && granted_all))) ≡ true)
decision-allowed_iff empty invalid level clearance low granted_all = ground arith

pub record Fits (s : Snapshot) (r : Requirement) (category : CategoryRule) : Type 0 where
  pub scoped : r.scopes ≢ []
  pub scopes : All (λ x. ScopeIsValid x category) r.scopes
  pub cleared : Clears s.clearance (required_level category r)
  pub granted : All (λ x. Any (Permits s category x) s.grants) r.scopes

pub valid_scopes_iff :
    (r : Requirement) (category : CategoryRule)
    → (not (any (λ x. not (validate_business_scope x category)) r.scopes) ≡ true)
      ↔ All (λ x. ScopeIsValid x category) r.scopes
valid_scopes_iff r category = rw (not-any-not (λ x. validate_business_scope x category) r.scopes) (
    all_iff (λ x. validate_business_scope x category) (λ x. ScopeIsValid x category)
      (λ x. validate_business_scope_iff x category) r.scopes)

pub granted_iff :
    (s : Snapshot) (r : Requirement) (category : CategoryRule)
    → (all (λ x. any (covers category x) (usable_grants s)) r.scopes ≡ true)
      ↔ All (λ x. Any (Permits s category x) s.grants) r.scopes
granted_iff s r category =
    all_iff (λ x. any (covers category x) (usable_grants s))
      (λ x. Any (Permits s category x) s.grants) (usable_iff s category) r.scopes

pub decide_category_iff :
    (s : Snapshot) (r : Requirement) (category : CategoryRule)
    → (decide_category s r category ≡ allowed) ↔ Fits s r category
unfolding decide_category
decide_category_iff s r category =
    let (to, from) =
      decision-allowed_iff (is_empty r.scopes)
        (any (λ x. not (validate_business_scope x category)) r.scopes)
        (is_business_clearance (required_level category r)) (is_business_clearance s.clearance)
        (level_ltb s.clearance (required_level category r))
        (all (λ x. any (covers category x) (usable_grants s)) r.scopes) in
    (
      λ h.
          let (a, (b, (c, d))) = parts.0 (to h) in
          record { scoped = a; scopes = b; cleared = c; granted = d },
      λ f. from (parts.1 (f.scoped, (f.scopes, (f.cleared, f.granted)))),
    )
  where
    parts :
        ((not (is_empty r.scopes)
            && (not (any (λ x. not (validate_business_scope x category)) r.scopes)
                && ((is_business_clearance (required_level category r)
                      && (is_business_clearance s.clearance
                          && not (level_ltb s.clearance (required_level category r))))
                    && all (λ x. any (covers category x) (usable_grants s)) r.scopes)))
          ≡ true)
        ↔ ((r.scopes ≢ [])
            × (All (λ x. ScopeIsValid x category) r.scopes
                × (Clears s.clearance (required_level category r)
                    × All (λ x. Any (Permits s category x) s.grants) r.scopes)))
    parts = and_iff (filled_iff r.scopes) (
        and_iff (valid_scopes_iff r category)
          (and_iff (Clears-iff s.clearance (required_level category r)) (granted_iff s r category)))

-- The four checks before the category is looked up.
guarded_iff :
    (off same on good : Bool) (d : Decision)
    → ((if off
          then denied account_disabled
          else if not same
          then denied organization_mismatch
          else if not on
          then denied authorization_not_enabled
          else if not good
          then denied resource_invalid
          else d)
        ≡ allowed)
      ↔ ((off ≡ false) × (same ≡ true) × (on ≡ true) × (good ≡ true) × (d ≡ allowed))
guarded_iff off same on good d = ground arith

-- A business resource is readable exactly when the account is enabled and of the resource's
-- organization, authorization is switched on, the resource is valid, its category is known, it has
-- scopes and each is valid for the category, the clearance (0 to 3) reaches the level of the
-- category (of the file, for evidence), and each scope is covered by one valid grant of the
-- organization.
pub can_read_resource_iff :
    (s : Snapshot) (r : Requirement) → (can_read_resource s r ≡ allowed) ↔ CanRead s r
unfolding can_read_resource
can_read_resource_iff s r = (to, from)
  where
    decide : Option CategoryRule → Decision
    decide o = elim o [
      | none ↦ denied attributes_not_ready
      | some category ↦ decide_category s r category
    ]

    found :
        (o : Option CategoryRule)
        → decide o ≡ allowed
        → (c : CategoryRule) × (o ≡ some c) × Fits s r c
    found none h = cc
    found (some c) h = (c, refl, (decide_category_iff s r c).0 h)

    steps : (can_read_resource s r ≡ allowed) ↔ (
        (s.disabled ≡ false)
        × (text_eq s.org_id r.org_id ≡ true)
        × (is_enabled s.mode ≡ true)
        × (r.valid ≡ true)
        × (decide (find (λ (c : CategoryRule). text_eq c.id r.category_id) s.categories) ≡ allowed))
    steps = guarded_iff s.disabled (text_eq s.org_id r.org_id) (is_enabled s.mode) r.valid _

    to : can_read_resource s r ≡ allowed → CanRead s r
    to h =
        let (a, b, c, d, e) = steps.0 h in
        let (rule, is_rule, fits) = found _ e in
        record {
          not_disabled = a;
          same_org = (text_eq_iff s.org_id r.org_id).0 b;
          is_on = (is_enabled_iff s.mode).0 c;
          valid = d;
          category = rule;
          is_rule = is_rule;
          scoped = fits.scoped;
          scopes = fits.scopes;
          cleared = fits.cleared;
          granted = fits.granted;
        }

    from : CanRead s r → can_read_resource s r ≡ allowed
    from v = steps.1 (
      v.not_disabled,
      (text_eq_iff s.org_id r.org_id).1 v.same_org,
      (is_enabled_iff s.mode).1 v.is_on,
      v.valid,
      rw v.is_rule (
          (decide_category_iff s r v.category).1 (record {
            scoped = v.scoped;
            scopes = v.scopes;
            cleared = v.cleared;
            granted = v.granted;
          })),
    )
