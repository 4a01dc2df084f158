-- ===== src/Common/Lists.antt =====
-- Lists measured by native numbers; `every` and `some` as tests and as predicates.
use Prim.Native.Nat.{ℕ, suc, ◌+◌}
use mathlib.Core.Path.{◌≡◌, refl}
use mathlib.Core.Logic.{◌↔◌, ◌≢◌, ◌⊎◌, inl, inr}
use mathlib.Core.Bool.{Bool, true, false, not, ◌&&◌, ◌||◌}
use mathlib.Core.List.{List, [], ◌∷◌, ◌++◌}
use native.Mathlib.Omega.{arith}
use sme_data_center.Common.Tests.{Bool-cases, and_left, and_right, and_intro}

module _ {ℓ} {A : Type ℓ} where
  abbrev pub length : List A → ℕ
  length [] = 0
  length (x ∷ xs) = suc (length xs)

  pub length-append : (xs ys : List A) → length (xs ++ ys) ≡ length xs + length ys
  length-append [] ys = omega arith
  length-append (x ∷ xs) ys = omega (arith, length-append xs ys)

  abbrev pub is_empty : List A → Bool
  is_empty [] = true
  is_empty (x ∷ xs) = false

  abbrev pub all : (A → Bool) → List A → Bool
  all p [] = true
  all p (x ∷ xs) = p x && all p xs

  abbrev pub any : (A → Bool) → List A → Bool
  any p [] = false
  any p (x ∷ xs) = p x || any p xs

module _ {ℓ} {A : Type ℓ} (P : A → Type 0) where
  abbrev pub All : List A → Type 0
  All [] = Unit
  All (x ∷ xs) = P x × All xs

  abbrev pub Any : List A → Type 0
  Any [] = ⊥
  Any (x ∷ xs) = P x ⊎ Any xs

  pub All-append : (xs ys : List A) → All xs → All ys → All (xs ++ ys)
  All-append [] ys h k = k
  All-append (x ∷ xs) ys (p, h) k = (p, All-append xs ys h k)

module _ {ℓ} {A : Type ℓ} (P Q : A → Type 0) where
  pub All-map : ((x : A) → P x → Q x) → (xs : List A) → All P xs → All Q xs
  All-map f [] h = tt
  All-map f (x ∷ xs) (p, h) = (f x p, All-map f xs h)

  pub Any-map : ((x : A) → P x → Q x) → (xs : List A) → Any P xs → Any Q xs
  Any-map f [] h = absurd h
  Any-map f (x ∷ xs) (inl p) = inl (f x p)
  Any-map f (x ∷ xs) (inr h) = inr (Any-map f xs h)

-- The test and the predicate agree where they agree at each element.
module _ {ℓ} {A : Type ℓ} (p : A → Bool) (P : A → Type 0)
    (same : (x : A) → (p x ≡ true) ↔ P x) where
  pub all_iff : (xs : List A) → (all p xs ≡ true) ↔ All P xs
  all_iff [] = (λ h. tt, λ h. refl)
  all_iff (x ∷ xs) =
      let ih : (all p xs ≡ true) ↔ All P xs = all_iff xs in
      (
        λ h. ((same x).0 (and_left _ _ h), ih.0 (and_right (p x) _ h)),
        λ h. and_intro _ _ ((same x).1 h.0) (ih.1 h.1),
      )

  any_forth : (xs : List A) → any p xs ≡ true → Any P xs
  any_forth [] h = cc
  any_forth (x ∷ xs) h = elim (Bool-cases (p x)) [
    | inl e ↦ inl ((same x).0 e)
    | inr e ↦ inr (any_forth xs (rw e at h))
  ]

  any_back : (xs : List A) → Any P xs → any p xs ≡ true
  any_back [] h = absurd h
  any_back (x ∷ xs) (inl q) = ground (arith, (same x).1 q)
  any_back (x ∷ xs) (inr q) = ground (arith, any_back xs q)

  pub any_iff : (xs : List A) → (any p xs ≡ true) ↔ Any P xs
  any_iff xs = (any_forth xs, any_back xs)

module _ {ℓ} {A : Type ℓ} where
  pub is_empty_iff : (xs : List A) → (is_empty xs ≡ true) ↔ (xs ≡ [])
  is_empty_iff [] = ground arith
  is_empty_iff (x ∷ xs) = ground arith

  pub filled_iff : (xs : List A) → (not (is_empty xs) ≡ true) ↔ (xs ≢ [])
  filled_iff [] = (λ h. cc, λ h. absurd (h refl))
  filled_iff (x ∷ xs) = (λ h e. cc, λ h. refl)

  pub is_empty-append : (xs ys : List A) → is_empty (xs ++ ys) ≡ (is_empty xs && is_empty ys)
  is_empty-append [] ys = refl
  is_empty-append (x ∷ xs) ys = refl

  -- `!xs.some((x) => !p(x))` is `xs.every(p)`.
  pub not-any-not : (p : A → Bool) (xs : List A) → not (any (λ x. not (p x)) xs) ≡ all p xs
  not-any-not p [] = refl
  not-any-not p (x ∷ xs) = ground (arith, not-any-not p xs)
