-- ===== src/Authorization/Monotone.antt =====
-- How the read decision depends on grants, clearance and scopes.
use sme_data_center.Common.{
  ℕ, ◌≤◌, List, [], ◌∷◌, ◌++◌, ◌≡◌, ◌≢◌, ◌↔◌, inl, inr, refl, arith, All, Any, All-map, All-append,
  subst, sym,
}
use sme_data_center.Authorization.{
  ScopeItem, CategoryRule, Grant, Level, whole, other, Requirement, Snapshot, allowed,
  required_level, can_read_resource,
}
use sme_data_center.Authorization.Grants.{ScopeIsValid}
use sme_data_center.Authorization.Reading.{CanRead, Permits, Clears, can_read_resource_iff}

-- Each grant of the first list stands in the second.
abbrev pub Within : List Grant → List Grant → Type 0
Within gs hs = All (λ g. Any (λ h. h ≡ g) hs) gs

Any-equal :
    (P : Grant → Type 0) (g : Grant) (hs : List Grant) → P g → Any (λ h. h ≡ g) hs → Any P hs
Any-equal P g [] p h = absurd h
Any-equal P g (x ∷ hs) p (inl e) = inl (subst P (sym e) p)
Any-equal P g (x ∷ hs) p (inr h) = inr (Any-equal P g hs p h)

Any-Within : (P : Grant → Type 0) (gs hs : List Grant) → Within gs hs → Any P gs → Any P hs
Any-Within P [] hs w a = absurd a
Any-Within P (g ∷ gs) hs (h, w) (inl p) = Any-equal P g hs p h
Any-Within P (g ∷ gs) hs (h, w) (inr a) = Any-Within P gs hs w a

-- What is readable stays readable when grants are added, in any order and beside any others.
pub can_read-more_grants :
    (s : Snapshot) (r : Requirement) (more : List Grant)
    → Within s.grants more
    → can_read_resource s r ≡ allowed
    → can_read_resource (record s { grants = more }) r ≡ allowed
can_read-more_grants s r more w h =
    let v = (can_read_resource_iff s r).0 h in
    (can_read_resource_iff (record s { grants = more }) r).1 (record {
      not_disabled = v.not_disabled;
      same_org = v.same_org;
      is_on = v.is_on;
      valid = v.valid;
      category = v.category;
      is_rule = v.is_rule;
      scoped = v.scoped;
      scopes = v.scopes;
      cleared = v.cleared;
      granted =
          All-map (λ x. Any (Permits s v.category x) s.grants)
            (λ x. Any (Permits s v.category x) more)
            (λ x. Any-Within (Permits s v.category x) s.grants more w) r.scopes v.granted;
    })

Clears-mono : (c d : ℕ) (l : Level) → c ≤ d → d ≤ 3 → Clears (whole c) l → Clears (whole d) l
Clears-mono c d (whole l) h k q = omega arith
Clears-mono c d other h k q = q

-- What is readable at a clearance stays readable at a higher one, up to the highest level 3.
pub can_read-more_clearance :
    (s : Snapshot) (r : Requirement) (c d : ℕ)
    → c ≤ d
    → d ≤ 3
    → can_read_resource (record s { clearance = whole c }) r ≡ allowed
    → can_read_resource (record s { clearance = whole d }) r ≡ allowed
can_read-more_clearance s r c d low high h =
    let v = (can_read_resource_iff (record s { clearance = whole c }) r).0 h in
    (can_read_resource_iff (record s { clearance = whole d }) r).1 (record {
      not_disabled = v.not_disabled;
      same_org = v.same_org;
      is_on = v.is_on;
      valid = v.valid;
      category = v.category;
      is_rule = v.is_rule;
      scoped = v.scoped;
      scopes = v.scopes;
      cleared = Clears-mono c d (required_level v.category r) low high v.cleared;
      granted = v.granted;
    })

All-split :
    (P : ScopeItem → Type 0) (xs ys : List ScopeItem) → All P (xs ++ ys) → All P xs × All P ys
All-split P [] ys h = (tt, h)
All-split P (x ∷ xs) ys (p, h) = let (a, b) = All-split P xs ys h in ((p, a), b)

not-append-nil : (xs ys : List ScopeItem) → xs ≢ [] → (xs ++ ys) ≢ []
not-append-nil [] ys h = absurd (h refl)
not-append-nil (x ∷ xs) ys h = λ e. cc

-- A resource with two groups of scopes is readable exactly when it would be readable with either
-- group alone: no scope makes up for another.
pub can_read-scopes_iff :
    (s : Snapshot) (r : Requirement) (xs ys : List ScopeItem)
    → xs ≢ []
    → ys ≢ []
    → (can_read_resource s (record r { scopes = xs ++ ys }) ≡ allowed) ↔ (
        (can_read_resource s (record r { scopes = xs }) ≡ allowed)
        × (can_read_resource s (record r { scopes = ys }) ≡ allowed))
unfolding required_level
can_read-scopes_iff s r xs ys some_xs some_ys = (to, from)
  where
    part :
        (zs : List ScopeItem)
        → zs ≢ []
        → (v : CanRead s (record r { scopes = xs ++ ys })) → All (λ x. ScopeIsValid x v.category) zs
        → All (λ x. Any (Permits s v.category x) s.grants) zs
        → can_read_resource s (record r { scopes = zs }) ≡ allowed
    part zs ne v good granted = (can_read_resource_iff s (record r { scopes = zs })).1 (record {
      not_disabled = v.not_disabled;
      same_org = v.same_org;
      is_on = v.is_on;
      valid = v.valid;
      category = v.category;
      is_rule = v.is_rule;
      scoped = ne;
      scopes = good;
      cleared = v.cleared;
      granted = granted;
    })

    to :
        can_read_resource s (record r { scopes = xs ++ ys }) ≡ allowed
        → (can_read_resource s (record r { scopes = xs }) ≡ allowed)
          × (can_read_resource s (record r { scopes = ys }) ≡ allowed)
    to h =
        let v = (can_read_resource_iff s (record r { scopes = xs ++ ys })).0 h in
        let (good_xs, good_ys) = All-split (λ x. ScopeIsValid x v.category) xs ys v.scopes in
        let (may_xs, may_ys) =
          All-split (λ x. Any (Permits s v.category x) s.grants) xs ys v.granted in
        (part xs some_xs v good_xs may_xs, part ys some_ys v good_ys may_ys)

    joined :
        (v : CanRead s (record r { scopes = xs })) (c : CategoryRule)
        → c ≡ v.category
        → All (λ x. ScopeIsValid x c) ys
        → All (λ x. Any (Permits s c x) s.grants) ys
        → can_read_resource s (record r { scopes = xs ++ ys }) ≡ allowed
    joined v c e good granted =
        (can_read_resource_iff s (record r { scopes = xs ++ ys })).1 (record {
          not_disabled = v.not_disabled;
          same_org = v.same_org;
          is_on = v.is_on;
          valid = v.valid;
          category = v.category;
          is_rule = v.is_rule;
          scoped = not-append-nil xs ys some_xs;
          scopes =
              All-append (λ x. ScopeIsValid x v.category) xs ys v.scopes
                (subst (λ k. All (λ x. ScopeIsValid x k) ys) e good);
          cleared = v.cleared;
          granted =
              All-append (λ x. Any (Permits s v.category x) s.grants) xs ys v.granted
                (subst (λ k. All (λ x. Any (Permits s k x) s.grants) ys) e granted);
        })

    from :
        (can_read_resource s (record r { scopes = xs }) ≡ allowed)
          × (can_read_resource s (record r { scopes = ys }) ≡ allowed)
        → can_read_resource s (record r { scopes = xs ++ ys }) ≡ allowed
    from (h, k) =
        let v = (can_read_resource_iff s (record r { scopes = xs })).0 h in
        let w = (can_read_resource_iff s (record r { scopes = ys })).0 k in
        joined v w.category (cc (v.is_rule, w.is_rule)) w.scopes w.granted
