-- ===== src/Downloads/Sweep/Rows.antt =====
-- The rows of one sweep: due, found by their ids, each once, and as many as there are, up to 100.
use sme_data_center.Common.{
  ℕ, zero, suc, min, Bool, true, false, ◌||◌, some, List, [], ◌∷◌, ◌==◌, ◌≡◌, refl, ap, ◌∙◌, arith,
  All, All-map, any, count, find_many, find-any, if◌then◌else◌, length, ==_iff, Bool-cases, inl,
  inr,
}
use sme_data_center.Downloads.Schema.{Request, Db}
use sme_data_center.Downloads.Prepare.{insert, sort, take}
use sme_data_center.Downloads.Sweep.{is_due, expires_first, due_requests}
use sme_data_center.Downloads.Transitions.{has_id, row_at}
use sme_data_center.Downloads.Transitions.Rules.{Unique}

module _ {A : Type 0} (before : A → A → Bool) where
  length-insert : (x : A) (ys : List A) → length (insert before x ys) ≡ suc (length ys)
  unfolding insert
  length-insert x [] = refl
  length-insert x (y ∷ ys) = ground (arith, length-insert x ys)

  pub length-sort : (xs : List A) → length (sort before xs) ≡ length xs
  unfolding sort
  length-sort [] = refl
  length-sort (x ∷ xs) = length-insert x (sort before xs) ∙ ap suc (length-sort xs)

  module _ (P : A → Type 0) where
    All-insert : (x : A) (ys : List A) → P x → All P ys → All P (insert before x ys)
    unfolding insert
    All-insert x [] p h = (p, tt)
    All-insert x (y ∷ ys) p (q, h) = by_test (All-insert x ys p h) (before y x)
      where
        by_test :
            All P (insert before x ys)
            → (b : Bool) → All P (if b then y ∷ insert before x ys else x ∷ y ∷ ys)
        by_test rest true = (q, rest)
        by_test rest false = (p, (q, h))

    pub All-sort : (xs : List A) → All P xs → All P (sort before xs)
    unfolding sort
    All-sort [] h = tt
    All-sort (x ∷ xs) (p, h) = All-insert x (sort before xs) p (All-sort xs h)

  any-insert : (p : A → Bool) (x : A) (ys : List A) → any p (insert before x ys) ≡ any p (x ∷ ys)
  unfolding insert
  any-insert p x [] = refl
  any-insert p x (y ∷ ys) = ground (arith, any-insert p x ys)

  any-sort : (p : A → Bool) (xs : List A) → any p (sort before xs) ≡ any p xs
  unfolding sort
  any-sort p [] = refl
  any-sort p (x ∷ xs) = any-insert p x (sort before xs) ∙ ap (λ b. p x || b) (any-sort p xs)

module _ {A : Type 0} where
  length-take : (n : ℕ) (xs : List A) → length (take n xs) ≡ min n (length xs)
  unfolding take
  length-take zero xs = ground arith
  length-take (suc n) [] = ground arith
  length-take (suc n) (x ∷ xs) = ground (arith, length-take n xs)

  All-take : (P : A → Type 0) (n : ℕ) (xs : List A) → All P xs → All P (take n xs)
  unfolding take
  All-take P zero xs h = tt
  All-take P (suc n) [] h = tt
  All-take P (suc n) (x ∷ xs) (p, h) = (p, All-take P n xs h)

  any-take : (p : A → Bool) (n : ℕ) (xs : List A) → any p xs ≡ false → any p (take n xs) ≡ false
  unfolding take
  any-take p zero xs h = refl
  any-take p (suc n) [] h = refl
  any-take p (suc n) (x ∷ xs) h = ground (arith, any-take p n xs)

  length-find_many : (p : A → Bool) (xs : List A) → length (find_many p xs) ≡ count p xs
  length-find_many p [] = refl
  length-find_many p (x ∷ xs) = ground (arith, length-find_many p xs)

  any-none : (p q : A → Bool) (xs : List A) → any q xs ≡ false → any q (find_many p xs) ≡ false
  any-none p q [] h = refl
  any-none p q (x ∷ xs) h = ground (arith, any-none p q xs)

  All-find_many :
      (P : A → Type 0) (p : A → Bool) (xs : List A)
      → All P xs
      → All (λ x. P x × (p x ≡ true)) (find_many p xs)
  All-find_many P p [] h = tt
  All-find_many P p (x ∷ xs) (q, h) = by_test (All-find_many P p xs h) (p x) refl
    where
      by_test :
          All (λ y. P y × (p y ≡ true)) (find_many p xs)
          → (b : Bool) → p x ≡ b
          → All (λ y. P y × (p y ≡ true)) (if b then x ∷ find_many p xs else find_many p xs)
      by_test rest true e = ((q, e), rest)
      by_test rest false e = rest

find_many-Unique :
    (p : Request → Bool) (rows : List Request) → Unique rows → Unique (find_many p rows)
find_many-Unique p [] u = tt
find_many-Unique p (r ∷ rows) (new, u) = by_test (find_many-Unique p rows u) (p r)
  where
    by_test :
        Unique (find_many p rows)
        → (b : Bool) → Unique (if b then r ∷ find_many p rows else find_many p rows)
    by_test rest true = (any-none p (has_id r.id) rows new, rest)
    by_test rest false = rest

module _ (before : Request → Request → Bool) where
  insert-Unique :
      (r : Request) (rows : List Request)
      → any (has_id r.id) rows ≡ false
      → Unique rows
      → Unique (insert before r rows)
  unfolding insert
  insert-Unique r [] new u = (new, tt)
  insert-Unique r (y ∷ rows) new (first, u) =
      by_test (insert-Unique r rows (ground arith) u) (before y r)
    where
      apart : any (has_id y.id) (insert before r rows) ≡ false
      apart = any-insert before (has_id y.id) r rows ∙ ground arith

      by_test :
          Unique (insert before r rows)
          → (b : Bool) → Unique (if b then y ∷ insert before r rows else r ∷ y ∷ rows)
      by_test rest true = (apart, rest)
      by_test rest false = (new, (first, u))

  sort-Unique : (rows : List Request) → Unique rows → Unique (sort before rows)
  unfolding sort
  sort-Unique [] u = tt
  sort-Unique (r ∷ rows) (new, u) =
      insert-Unique r (sort before rows) (any-sort before (has_id r.id) rows ∙ new)
        (sort-Unique rows u)

take-Unique : (n : ℕ) (rows : List Request) → Unique rows → Unique (take n rows)
unfolding take
take-Unique zero rows u = tt
take-Unique (suc n) [] u = tt
take-Unique (suc n) (r ∷ rows) (new, u) = (any-take (has_id r.id) n rows new, take-Unique n rows u)

-- In a table with unique ids, each row is the one that is found under its id.
rows-found : (rows : List Request) → Unique rows → All (λ r. row_at r.id rows ≡ some r) rows
rows-found [] u = tt
rows-found (x ∷ rows) (new, u) = (ground arith, All-map _ _ further rows (rows-found rows u))
  where
    further : (r : Request) → row_at r.id rows ≡ some r → row_at r.id (x ∷ rows) ≡ some r
    further r e = elim (Bool-cases (x.id == r.id)) [
      | inl hit ↦
          let found = find-any (has_id r.id) rows r e in
          let same = ap (λ k. any (has_id k) rows) ((==_iff x.id r.id).0 hit) in cc
      | inr miss ↦ ground arith
    ]

-- A row of a table that is due.
abbrev pub IsPending : ℕ → List Request → Request → Type 0
IsPending clock rows r = (row_at r.id rows ≡ some r) × (is_due clock r ≡ true)

pub due_requests-IsPending :
    (clock : ℕ) (db : Db)
    → Unique db.requests
    → Unique (due_requests clock db) × All (IsPending clock db.requests) (due_requests clock db)
unfolding due_requests
due_requests-IsPending clock db u =
    let due = find_many (is_due clock) db.requests in
    (
      take-Unique 100 _
          (sort-Unique expires_first due (find_many-Unique (is_due clock) db.requests u)),
      All-take _ 100 _ (
          All-sort expires_first _ due
            (All-find_many _ (is_due clock) db.requests (rows-found db.requests u))),
    )

pub length-due_requests :
    (clock : ℕ) (db : Db)
    → length (due_requests clock db) ≡ min 100 (count (is_due clock) db.requests)
unfolding due_requests
length-due_requests clock db =
    length-take 100 _
    ∙ ap (min 100) (length-sort expires_first _ ∙ length-find_many (is_due clock) db.requests)
