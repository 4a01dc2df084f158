-- ===== src/Chunker/Bounds.antt =====
-- The bound of a chunk.
use mathlib.Core.List.{reverse, reverse-cons}
use sme_data_center.Common.{
  ℕ, zero, suc, ◌+◌, ◌≤◌, ◌<◌, Bool, true, false, List, [], ◌∷◌, ◌++◌, ◌≡◌, refl, ap, ◌∙◌, arith,
  if◌then◌else◌, length, length-append, is_empty, ltb, All, All-append, Text, trim_start, trim,
}
use sme_data_center.Chunker.{
  take, words, slices, is_full, split_words, split_pathological_long_block,
}

length-reverse : (s : Text) → length (reverse s) ≡ length s
length-reverse [] = refl
length-reverse (x ∷ s) =
    ap length (reverse-cons x s)
    ∙ length-append (reverse s) (x ∷ [])
    ∙ ap (λ n. n + 1) (length-reverse s)
    ∙ omega arith

length-trim_start : (s : Text) → length (trim_start s) ≤ length s
unfolding trim_start
length-trim_start [] = omega arith
length-trim_start (x ∷ s) = ground (arith, length-trim_start s)

pub length-trim : (s : Text) → length (trim s) ≤ length s
unfolding trim
length-trim s = omega (
  arith,
  length-reverse (trim_start (reverse (trim_start s))),
  length-trim_start (reverse (trim_start s)),
  length-reverse (trim_start s),
  length-trim_start s,
)

length-take : (n : ℕ) (s : Text) → length (take n s) ≤ n
unfolding take
length-take zero s = omega arith
length-take (suc n) [] = omega arith
length-take (suc n) (x ∷ s) = omega (arith, length-take n s)

abbrev pub Bounded : ℕ → Text → Type 0
Bounded max t = length t ≤ max

slices-Bounded : (fuel max : ℕ) (word : Text) → All (Bounded max) (slices fuel max word)
unfolding slices
slices-Bounded zero max word = tt
slices-Bounded (suc fuel) max [] = tt
slices-Bounded (suc fuel) max (x ∷ word) = (length-take max (x ∷ word), slices-Bounded fuel max _)

trimmed-Bounded :
    (max : ℕ) (b : Bool) (current : Text)
    → length current ≤ max
    → All (Bounded max) (if b then trim current ∷ [] else [])
trimmed-Bounded max true current h = (omega (arith, length-trim current), tt)
trimmed-Bounded max false current h = tt

last-Bounded :
    (max : ℕ) (b : Bool) (current : Text)
    → length current ≤ max
    → All (Bounded max) (if b then [] else trim current ∷ [])
last-Bounded max true current h = tt
last-Bounded max false current h = (omega (arith, length-trim current), tt)

kept-Bounded :
    (max : ℕ) (b : Bool) (current : Text)
    → length current ≤ max
    → Bounded max (if b then [] else current)
kept-Bounded max true current h = omega arith
kept-Bounded max false current h = h

-- What is kept and a word within the bound stay within it.
short-Bounded :
    (max : ℕ) (current word : Text)
    → ltb max (length word) ≡ false
    → Bounded max ((if is_full max current word then [] else current) ++ word)
unfolding is_full
short-Bounded max [] word e = ground arith
short-Bounded max (x ∷ current) word e = ground (arith, length-append (x ∷ current) word)

split_words-Bounded :
    (max : ℕ) (ws : List Text) (current : Text)
    → length current ≤ max
    → All (Bounded max) (split_words max ws current)
unfolding split_words
split_words-Bounded max [] current h = last-Bounded max (is_empty (trim current)) current h
split_words-Bounded max (word ∷ rest) current h =
    All-append (Bounded max) _ _ (trimmed-Bounded max (is_full max current word) current h) (
      by_length _ _ (ltb max (length word)) refl
        (split_words-Bounded max rest _ (kept-Bounded max (is_full max current word) current h))
        (λ e. split_words-Bounded max rest _ (short-Bounded max current word e)))
  where
    by_length :
        (long short : List Text) (b : Bool)
        → ltb max (length word) ≡ b
        → All (Bounded max) long
        → (ltb max (length word) ≡ false → All (Bounded max) short)
        → All (Bounded max) (if b then slices (length word) max word ++ long else short)
    by_length long short true e l s =
        All-append (Bounded max) _ _ (slices-Bounded (length word) max word) l
    by_length long short false e l s = s e

-- No chunk of a long block is longer than the bound.
pub split-Bounded :
    (max : ℕ) (text : Text) → 0 < max → All (Bounded max) (split_pathological_long_block max text)
unfolding split_pathological_long_block
split-Bounded max text positive = split_words-Bounded max (words text) [] (omega arith)
