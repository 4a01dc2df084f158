-- ===== src/Authorization/Denial.antt =====
-- Why `canReadResource` denies: each reason, with what was checked before it.
use sme_data_center.Common.{
  ◌<◌, ◌≤◌, Bool, true, false, not, ◌||◌, if◌then◌else◌, none, List, [], ◌∷◌, ◌≡◌, ◌≢◌, ◌↔◌, ◌⊎◌,
  inl, inr, refl, arith, is_empty, all, any, All, Any, find, Option-cases, Bool-cases, text_eq,
  text_eq_iff, is_empty_iff,
}
use sme_data_center.Authorization.{
  CategoryRule, Level, whole, other, Requirement, Snapshot, enabled, allowed, denied, DenialReason,
  account_disabled, organization_mismatch, authorization_not_enabled, resource_invalid,
  attributes_not_ready, clearance_insufficient, grant_missing, required_level, is_enabled,
  is_business_clearance, validate_business_scope, usable_grants, covers, level_ltb, decide_category,
  can_read_resource,
}
use sme_data_center.Authorization.Grants.{IsRule, ScopeIsValid}
use sme_data_center.Authorization.Reading.{
  Permits, Clears, is_enabled_iff, valid_scopes_iff, granted_iff,
}

-- Both are levels, and the clearance is below the required one.
abbrev pub FallsShort : Level → Level → Type 0
FallsShort (whole clearance) (whole level) = (clearance < level) × (level ≤ 3)
FallsShort _ _ = ⊥

abbrev pub IsLevel : Level → Type 0
IsLevel (whole n) = n ≤ 3
IsLevel other = ⊥

-- The checks of the account, the organization, the mode and the resource are passed.
pub record Passed (s : Snapshot) (r : Requirement) : Type 0 where
  pub not_disabled : s.disabled ≡ false
  pub same_org : s.org_id ≡ r.org_id
  pub is_on : s.mode ≡ enabled
  pub valid : r.valid ≡ true

-- The category is known and the scopes are valid for it.
pub record Scoped (s : Snapshot) (r : Requirement) (category : CategoryRule) : Type 0 where
  pub passed : Passed s r
  pub is_rule : IsRule s.categories r.category_id category
  pub some_scope : r.scopes ≢ []
  pub scopes : All (λ x. ScopeIsValid x category) r.scopes

-- What each reason tells.
pub data Denied (s : Snapshot) (r : Requirement) : DenialReason → Type 0 where
  is_disabled : s.disabled ≡ true → Denied s r account_disabled
  other_org : s.disabled ≡ false → s.org_id ≢ r.org_id → Denied s r organization_mismatch
  not_on :
      s.disabled ≡ false
      → s.org_id ≡ r.org_id
      → s.mode ≢ enabled
      → Denied s r authorization_not_enabled
  not_valid :
      s.disabled ≡ false
      → s.org_id ≡ r.org_id
      → s.mode ≡ enabled
      → r.valid ≡ false
      → Denied s r resource_invalid
  no_category :
      Passed s r
      → find (λ (c : CategoryRule). text_eq c.id r.category_id) s.categories ≡ none
      → Denied s r attributes_not_ready
  bad_scopes :
      Passed s r
      → (category : CategoryRule) → IsRule s.categories r.category_id category
      → ((r.scopes ≡ []) ⊎ (¬ All (λ x. ScopeIsValid x category) r.scopes))
      → Denied s r attributes_not_ready
  bad_levels :
      (category : CategoryRule)
      → Scoped s r category
      → ((¬ IsLevel (required_level category r)) ⊎ (¬ IsLevel s.clearance))
      → Denied s r attributes_not_ready
  too_low :
      (category : CategoryRule)
      → Scoped s r category
      → FallsShort s.clearance (required_level category r)
      → Denied s r clearance_insufficient
  not_granted :
      (category : CategoryRule)
      → Scoped s r category
      → Clears s.clearance (required_level category r)
      → (¬ All (λ x. Any (Permits s category x) s.grants) r.scopes)
      → Denied s r grant_missing

IsLevel-iff : (l : Level) → (is_business_clearance l ≡ true) ↔ IsLevel l
unfolding is_business_clearance
IsLevel-iff (whole n) = (λ h. ground arith, λ h. ground arith)
IsLevel-iff other = (λ h. cc, λ h. absurd h)

falls_short : (c l : Level) → IsLevel c → IsLevel l → level_ltb c l ≡ true → FallsShort c l
unfolding level_ltb
falls_short (whole c) (whole l) h k e = (ground arith, k)
falls_short (whole c) other h k e = k
falls_short other l h k e = absurd h

Clears-of : (c l : Level) → IsLevel c → IsLevel l → level_ltb c l ≡ false → Clears c l
unfolding level_ltb
Clears-of (whole c) (whole l) h k e = (h, ground arith)
Clears-of (whole c) other h k e = k
Clears-of other l h k e = absurd h

-- A test that fails refutes what it decides.
refute : {P : Type 0} (b : Bool) → (b ≡ true) ↔ P → b ≡ false → ¬ P
refute b same e p = cc (same.1 p)

-- The outcomes of the last four steps of the decision.
late_cases :
    (empty invalid level clearance low given : Bool) (reason : DenialReason)
    → (if empty || invalid
        then denied attributes_not_ready
        else if not level || not clearance
        then denied attributes_not_ready
        else if low
        then denied clearance_insufficient
        else if given
        then allowed
        else denied grant_missing)
      ≡ denied reason
    → ((reason ≡ attributes_not_ready) × ((empty ≡ true) ⊎ (not invalid ≡ false)))
      ⊎ ((reason ≡ attributes_not_ready)
          × (empty ≡ false)
          × (not invalid ≡ true)
          × ((level ≡ false) ⊎ (clearance ≡ false)))
      ⊎ ((reason ≡ clearance_insufficient)
          × (empty ≡ false)
          × (not invalid ≡ true)
          × (level ≡ true)
          × (clearance ≡ true)
          × (low ≡ true))
      ⊎ ((reason ≡ grant_missing)
          × (empty ≡ false)
          × (not invalid ≡ true)
          × (level ≡ true)
          × (clearance ≡ true)
          × (low ≡ false)
          × (given ≡ false))
late_cases true invalid level clearance low given reason h = inl (ground arith, inl refl)
late_cases false true level clearance low given reason h = inl (ground arith, inr refl)
late_cases false false false clearance low given reason h =
    inr (inl (ground arith, refl, refl, inl refl))
late_cases false false true false low given reason h =
    inr (inl (ground arith, refl, refl, inr refl))
late_cases false false true true true given reason h =
    inr (inr (inl (ground arith, refl, refl, refl, refl, refl)))
late_cases false false true true false true reason h = cc
late_cases false false true true false false reason h =
    inr (inr (inr (ground arith, refl, refl, refl, refl, refl, refl)))

not-nil : {A : Type 0} (xs : List A) → is_empty xs ≡ false → xs ≢ []
not-nil [] h = cc
not-nil (x ∷ xs) h = λ e. cc

category-Denied :
    (s : Snapshot) (r : Requirement) (category : CategoryRule) (reason : DenialReason)
    → Passed s r
    → IsRule s.categories r.category_id category
    → decide_category s r category ≡ denied reason
    → Denied s r reason
unfolding decide_category
category-Denied s r category reason passed is_rule h = go (late_cases _ _ _ _ _ _ reason h)
  where
    low : Level
    low = s.clearance

    high : Level
    high = required_level category r

    scoped :
        is_empty r.scopes ≡ false
        → not (any (λ x. not (validate_business_scope x category)) r.scopes) ≡ true
        → Scoped s r category
    scoped e v = record {
      passed = passed;
      is_rule = is_rule;
      some_scope = not-nil r.scopes e;
      scopes = (valid_scopes_iff r category).0 v;
    }

    go :
        ((reason ≡ attributes_not_ready)
            × ((is_empty r.scopes ≡ true)
                ⊎ (not (any (λ x. not (validate_business_scope x category)) r.scopes) ≡ false)))
          ⊎ ((reason ≡ attributes_not_ready)
              × (is_empty r.scopes ≡ false)
              × (not (any (λ x. not (validate_business_scope x category)) r.scopes) ≡ true)
              × ((is_business_clearance high ≡ false) ⊎ (is_business_clearance low ≡ false)))
          ⊎ ((reason ≡ clearance_insufficient)
              × (is_empty r.scopes ≡ false)
              × (not (any (λ x. not (validate_business_scope x category)) r.scopes) ≡ true)
              × (is_business_clearance high ≡ true)
              × (is_business_clearance low ≡ true)
              × (level_ltb low high ≡ true))
          ⊎ ((reason ≡ grant_missing)
              × (is_empty r.scopes ≡ false)
              × (not (any (λ x. not (validate_business_scope x category)) r.scopes) ≡ true)
              × (is_business_clearance high ≡ true)
              × (is_business_clearance low ≡ true)
              × (level_ltb low high ≡ false)
              × (all (λ x. any (covers category x) (usable_grants s)) r.scopes ≡ false))
        → Denied s r reason
    go (inl (e, inl none_listed)) =
        rw e (bad_scopes passed category is_rule (inl ((is_empty_iff r.scopes).0 none_listed)))
    go (inl (e, inr invalid)) =
        rw e (
          bad_scopes passed category is_rule (inr (refute _ (valid_scopes_iff r category) invalid)))
    go (inr (inl (e, f, v, inl b))) =
        rw e (bad_levels category (scoped f v) (inl (refute _ (IsLevel-iff high) b)))
    go (inr (inl (e, f, v, inr b))) =
        rw e (bad_levels category (scoped f v) (inr (refute _ (IsLevel-iff low) b)))
    go (inr (inr (inl (e, f, v, b, c, l)))) = rw e (
        too_low category (scoped f v)
          (falls_short low high ((IsLevel-iff low).0 c) ((IsLevel-iff high).0 b) l))
    go (inr (inr (inr (e, f, v, b, c, l, g)))) = rw e (
        not_granted category (scoped f v)
          (Clears-of low high ((IsLevel-iff low).0 c) ((IsLevel-iff high).0 b) l)
          (refute _ (granted_iff s r category) g))

-- Every denial tells the truth, and tells of the first check that fails: a disabled account; else
-- another organization; else authorization that is not switched on; else an invalid resource; else
-- an unknown category, scopes or levels that are not ready; else a clearance below the required
-- level; else, at a sufficient clearance only, a scope that no grant of the account covers.
pub can_read-Denied :
    (s : Snapshot) (r : Requirement) (reason : DenialReason)
    → can_read_resource s r ≡ denied reason
    → Denied s r reason
unfolding can_read_resource
can_read-Denied s r reason h = elim (Bool-cases s.disabled) [
  | inl off ↦ let e : account_disabled ≡ reason = ground arith in rw (← e) (is_disabled off)
  | inr on ↦ elim (Bool-cases (text_eq s.org_id r.org_id)) [
    | inr away ↦
        let e : organization_mismatch ≡ reason = ground arith in
        rw (← e) (other_org on (refute _ (text_eq_iff s.org_id r.org_id) away))
    | inl home ↦ elim (Bool-cases (is_enabled s.mode)) [
      | inr not_enabled ↦
          let e : authorization_not_enabled ≡ reason = ground arith in
          rw (← e) (
            not_on on ((text_eq_iff s.org_id r.org_id).0 home)
              (refute _ (is_enabled_iff s.mode) not_enabled))
      | inl is_on ↦ elim (Bool-cases r.valid) [
        | inr bad ↦
            let e : resource_invalid ≡ reason = ground arith in
            rw (← e) (
              not_valid on ((text_eq_iff s.org_id r.org_id).0 home)
                ((is_enabled_iff s.mode).0 is_on) bad)
        | inl good ↦
            let passed : Passed s r = record {
              not_disabled = on;
              same_org = (text_eq_iff s.org_id r.org_id).0 home;
              is_on = (is_enabled_iff s.mode).0 is_on;
              valid = good;
            } in
            elim (Option-cases
              (find (λ (c : CategoryRule). text_eq c.id r.category_id) s.categories)) [
                | inl missing ↦
                    let e : attributes_not_ready ≡ reason = ground arith in
                    rw (← e) (no_category passed missing)
                | inr (category, found) ↦
                    category-Denied s r category reason passed found (ground arith)
              ]
      ]
    ]
  ]
]
