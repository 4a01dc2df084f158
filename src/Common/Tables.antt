-- ===== src/Common/Tables.antt =====
-- A database table as the list of its rows: find, update and count by a test on the row.
use Prim.Native.Nat.{ℕ, ◌+◌}
use mathlib.Core.Path.{◌≡◌, refl, subst}
use mathlib.Core.Logic.{inl, inr, ◌↔◌}
use mathlib.Core.Bool.{Bool, true, false, ◌&&◌}
use mathlib.Core.Option.{Option, none, some}
use mathlib.Core.List.{List, [], ◌∷◌}
use native.Mathlib.Omega.{arith}
use sme_data_center.Common.Tests.{if◌then◌else◌, Bool-cases}
use sme_data_center.Common.Lists.{All, Any, any, any_iff}

module _ {ℓ} {A : Type ℓ} where
  -- `findFirst` and `findUnique`.
  abbrev pub find : (A → Bool) → List A → Option A
  find p [] = none
  find p (x ∷ xs) = let rest = find p xs in if p x then some x else rest

  -- `updateMany`.
  abbrev pub update_many : (A → Bool) → (A → A) → List A → List A
  update_many p f [] = []
  update_many p f (x ∷ xs) = (if p x then f x else x) ∷ update_many p f xs

  -- `count`, also of the rows that an `updateMany` meets.
  abbrev pub count : (A → Bool) → List A → ℕ
  count p [] = 0
  count p (x ∷ xs) = (if p x then 1 else 0) + count p xs

  -- `findMany`.
  abbrev pub find_many : (A → Bool) → List A → List A
  find_many p [] = []
  find_many p (x ∷ xs) = let rest = find_many p xs in if p x then x ∷ rest else rest

  pub find_holds : (p : A → Bool) (xs : List A) (x : A) → find p xs ≡ some x → p x ≡ true
  find_holds p [] x e = cc
  find_holds p (y ∷ xs) x e = ground (arith, find_holds p xs x)

module _ {ℓ} {A : Type ℓ} (P : A → Type 0) where
  pub All-update_many :
      (p : A → Bool) (f : A → A) (xs : List A)
      → ((x : A) → p x ≡ true → P x → P (f x))
      → All P xs
      → All P (update_many p f xs)
  All-update_many p f [] keep h = tt
  All-update_many p f (x ∷ xs) keep (q, h) = (here (p x) refl, All-update_many p f xs keep h)
    where
      here : (b : Bool) → p x ≡ b → P (if b then f x else x)
      here true e = keep x e q
      here false e = q

  pub All-find : (p : A → Bool) (xs : List A) (x : A) → All P xs → find p xs ≡ some x → P x
  All-find p [] x h e = cc
  All-find p (y ∷ xs) x (q, h) e = elim (Bool-cases (p y)) [
    | inl hit ↦ subst P (ground arith) q
    | inr miss ↦ All-find p xs x h (ground arith)
  ]

pub any-find_many {ℓ} :
    {A : Type ℓ} (p q : A → Bool) (xs : List A) → any q (find_many p xs) ≡ any (λ x. p x && q x) xs
any-find_many p q [] = refl
any-find_many p q (x ∷ xs) = ground (arith, any-find_many p q xs)

-- A test on some row that `findMany` returns, as a predicate on the rows of the table.
pub find_many_iff {ℓ} :
    {A : Type ℓ} (p q : A → Bool) (P : A → Type 0)
    → ((x : A) → ((p x && q x) ≡ true) ↔ P x)
    → (xs : List A) → (any q (find_many p xs) ≡ true) ↔ Any P xs
find_many_iff p q P same xs = rw (any-find_many p q xs) (any_iff (λ x. p x && q x) P same xs)

pub find-any {ℓ} :
    {A : Type ℓ} (p : A → Bool) (xs : List A) (x : A) → find p xs ≡ some x → any p xs ≡ true
find-any p [] x e = cc
find-any p (y ∷ xs) x e = ground (arith, find-any p xs x)

-- An update that keeps what the search tests changes what is found, and not which row is.
pub find-update_many {ℓ} :
    {A : Type ℓ} (p q : A → Bool) (f : A → A) (xs : List A) (x : A)
    → ((y : A) → p (f y) ≡ p y)
    → find p xs ≡ some x
    → find p (update_many q f xs) ≡ some (if q x then f x else x)
find-update_many p q f [] x same e = cc
find-update_many p q f (y ∷ xs) x same e = ground (arith, find-update_many p q f xs x same, same y)

-- A row that is found passes no test that no row passes.
pub find-none_passes {ℓ} :
    {A : Type ℓ} (p q : A → Bool) (xs : List A) (x : A)
    → any q xs ≡ false
    → find p xs ≡ some x
    → q x ≡ false
find-none_passes p q [] x free e = cc
find-none_passes p q (y ∷ xs) x free e = ground (arith, find-none_passes p q xs x)
