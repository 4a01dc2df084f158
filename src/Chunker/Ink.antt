-- ===== src/Chunker/Ink.antt =====
-- The units of a text that are no spaces: what the splitter keeps, in order.
use mathlib.Core.List.{reverse, reverse-cons, reverse-reverse, append_assoc, append-nil}
use sme_data_center.Common.{
  ℕ, zero, suc, ◌⊎◌, ◌≤◌, ◌<◌, Bool, true, false, List, [], ◌∷◌, ◌++◌, ◌≡◌, refl, sym, ap, ◌∙◌,
  arith, if◌then◌else◌, length, is_empty, ltb, Bool-cases, inl, inr, Text, is_space, trim_start,
  trim,
}
use sme_data_center.Chunker.{
  take, drop, add_unit, words, slices, is_full, split_words, split_pathological_long_block,
}

abbrev pub ink : Text → Text
ink [] = []
ink (x ∷ xs) = let rest = ink xs in if is_space x then rest else x ∷ rest

abbrev pub concat : List Text → Text
concat [] = []
concat (x ∷ xs) = x ++ concat xs

pub ink-append : (s t : Text) → ink (s ++ t) ≡ ink s ++ ink t
ink-append [] t = refl
ink-append (x ∷ s) t = elim (Bool-cases (is_space x)) [
  | inl e ↦ rw (e, if◌then◌else◌) (ink-append s t)
  | inr e ↦ rw (e, if◌then◌else◌) (ap (λ r. x ∷ r) (ink-append s t))
]

pub ink-reverse : (s : Text) → ink (reverse s) ≡ reverse (ink s)
ink-reverse [] = refl
ink-reverse (x ∷ s) =
    ap ink (reverse-cons x s)
    ∙ ink-append (reverse s) (x ∷ [])
    ∙ ap (λ r. r ++ ink (x ∷ [])) (ink-reverse s)
    ∙ last (Bool-cases (is_space x))
  where
    last :
        (is_space x ≡ true) ⊎ (is_space x ≡ false)
        → reverse (ink s) ++ ink (x ∷ []) ≡ reverse (ink (x ∷ s))
    last (inl e) = rw (e, if◌then◌else◌) (append-nil (reverse (ink s)))
    last (inr e) = rw (e, if◌then◌else◌) (sym (reverse-cons x (ink s)))

pub ink-trim_start : (s : Text) → ink (trim_start s) ≡ ink s
unfolding trim_start
ink-trim_start [] = refl
ink-trim_start (x ∷ s) = elim (Bool-cases (is_space x)) [
  | inl e ↦ rw (e, if◌then◌else◌) (ink-trim_start s)
  | inr e ↦ plain e
]
  where
    plain : is_space x ≡ false → ink (trim_start (x ∷ s)) ≡ ink (x ∷ s)
    plain e = ground arith

-- Trimming loses no ink.
pub ink-trim : (s : Text) → ink (trim s) ≡ ink s
unfolding trim
ink-trim s =
    ink-reverse (trim_start (reverse (trim_start s)))
    ∙ ap reverse (ink-trim_start (reverse (trim_start s)) ∙ ink-reverse (trim_start s))
    ∙ reverse-reverse (ink (trim_start s))
    ∙ ink-trim_start s

pub concat-append : (xs ys : List Text) → concat (xs ++ ys) ≡ concat xs ++ concat ys
concat-append [] ys = refl
concat-append (x ∷ xs) ys =
    ap (λ r. x ++ r) (concat-append xs ys) ∙ sym (append_assoc x (concat xs) (concat ys))

-- The words make up the text.
add_unit-concat : (x : ℕ) (runs : List Text) → concat (add_unit x runs) ≡ x ∷ concat runs
unfolding add_unit
add_unit-concat x [] = refl
add_unit-concat x ([] ∷ runs) = refl
add_unit-concat x ((y ∷ run) ∷ runs) = ground arith

pub words-concat : (s : Text) → concat (words s) ≡ s
unfolding words
words-concat [] = refl
words-concat (x ∷ s) = add_unit-concat x (words s) ∙ ap (λ r. x ∷ r) (words-concat s)

take-drop : (n : ℕ) (xs : Text) → take n xs ++ drop n xs ≡ xs
unfolding take drop
take-drop zero xs = refl
take-drop (suc n) [] = refl
take-drop (suc n) (x ∷ xs) = ap (λ r. x ∷ r) (take-drop n xs)

length-drop : (n : ℕ) (xs : Text) → length (drop n xs) ≤ length xs
unfolding drop
length-drop zero xs = omega arith
length-drop (suc n) [] = omega arith
length-drop (suc n) (x ∷ xs) = omega (arith, length-drop n xs)

-- The slices of a word make up the word, with at least as much fuel as the word has units.
pub slices-concat :
    (fuel max : ℕ) (word : Text)
    → 0 < max
    → length word ≤ fuel
    → concat (slices fuel max word) ≡ word
unfolding slices drop
slices-concat zero max [] positive enough = refl
slices-concat zero max (x ∷ word) positive enough = absurd (omega arith)
slices-concat (suc fuel) max [] positive enough = refl
slices-concat (suc fuel) max (x ∷ word) positive enough =
    ap (λ r. take max (x ∷ word) ++ r)
      (slices-concat fuel max (drop max (x ∷ word)) positive (shorter max positive))
    ∙ take-drop max (x ∷ word)
  where
    shorter : (max : ℕ) → 0 < max → length (drop max (x ∷ word)) ≤ fuel
    shorter zero p = absurd (omega arith)
    shorter (suc m) p = omega (arith, length-drop m word)

-- A word past the bound is never split off while text is kept.
kept_empty :
    (max : ℕ) (current word : Text)
    → ltb max (length word) ≡ true
    → (if is_full max current word then [] else current) ≡ []
unfolding is_full
kept_empty max [] word long = ground arith
kept_empty max (x ∷ current) word long = ground arith

-- The step of the loop keeps the ink, where the calls that follow it do.
step-ink :
    (max : ℕ) (word : Text) (rest : List Text) (kept : Text) (b : Bool) (long short : List Text)
    → 0 < max
    → (b ≡ true → kept ≡ [])
    → ink (concat long) ≡ ink (kept ++ concat rest)
    → ink (concat short) ≡ ink ((kept ++ word) ++ concat rest)
    → ink (concat (if b then slices (length word) max word ++ long else short))
      ≡ ink kept ++ ink (word ++ concat rest)
step-ink max word rest kept false long short positive free l s =
    s ∙ ap ink (append_assoc kept word (concat rest)) ∙ ink-append kept (word ++ concat rest)
step-ink max word rest kept true long short positive free l s =
    ap ink (
      concat-append (slices (length word) max word) long
      ∙ ap (λ w. w ++ concat long) (slices-concat (length word) max word positive (omega arith)))
    ∙ ink-append word (concat long)
    ∙ ap (λ r. ink word ++ r) (l ∙ ap (λ k. ink (k ++ concat rest)) (free refl))
    ∙ sym (ink-append word (concat rest))
    ∙ ap (λ k. ink k ++ ink (word ++ concat rest)) (sym (free refl))

flushed-ink :
    (b : Bool) (current : Text)
    → ink (concat (if b then trim current ∷ [] else [])) ++ ink (if b then [] else current)
      ≡ ink current
flushed-ink true current =
    append-nil (ink (trim current ++ []))
    ∙ ink-append (trim current) []
    ∙ append-nil (ink (trim current))
    ∙ ink-trim current
flushed-ink false current = refl

last-ink :
    (current : Text)
    → ink (concat (if is_empty (trim current) then [] else trim current ∷ [])) ≡ ink (current ++ [])
last-ink current =
    by_end (trim current)
    ∙ ink-trim current
    ∙ sym (append-nil (ink current))
    ∙ sym (ink-append current [])
  where
    by_end : (t : Text) → ink (concat (if is_empty t then [] else t ∷ [])) ≡ ink t
    by_end [] = refl
    by_end (x ∷ t) = ap ink (append-nil (x ∷ t))

pub split_words-ink :
    (max : ℕ) (ws : List Text) (current : Text)
    → 0 < max
    → ink (concat (split_words max ws current)) ≡ ink (current ++ concat ws)
unfolding split_words
split_words-ink max [] current positive = last-ink current
split_words-ink max (word ∷ rest) current positive =
    let flushed = if is_full max current word then trim current ∷ [] else [] in
    let kept = if is_full max current word then [] else current in
    ap ink (concat-append flushed _)
    ∙ ink-append (concat flushed) _
    ∙ ap (λ r. ink (concat flushed) ++ r)
        (step-ink max word rest kept (ltb max (length word)) (split_words max rest kept)
          (split_words max rest (kept ++ word)) positive (kept_empty max current word)
          (split_words-ink max rest kept positive)
          (split_words-ink max rest (kept ++ word) positive))
    ∙ sym (append_assoc (ink (concat flushed)) (ink kept) (ink (word ++ concat rest)))
    ∙ ap (λ r. r ++ ink (word ++ concat rest)) (flushed-ink (is_full max current word) current)
    ∙ sym (ink-append current (word ++ concat rest))

-- Splitting a long block loses no unit but spaces, repeats none and keeps their order: the texts of
-- the chunks, one after the other, have the same units as the block, spaces aside.
pub split-ink :
    (max : ℕ) (text : Text)
    → 0 < max
    → ink (concat (split_pathological_long_block max text)) ≡ ink text
unfolding split_pathological_long_block
split-ink max text positive =
    split_words-ink max (words text) [] positive ∙ ap ink (words-concat text)
