-- ===== src/Chunker.antt =====
-- The evidence chunker of apps/worker/src/chunking/evidence-chunker.ts: `renderBlocks` and
-- `splitPathologicalLongBlock`.
-- A text is the list of its UTF-16 units; `\s` and `trim` agree on what a space is.
pub mod Ink
pub mod Bounds
pub mod Evidence
mod Tests
use sme_data_center.Common.{
  ℕ, zero, suc, ◌+◌, Bool, true, false, not, ◌&&◌, if◌then◌else◌, List, [], ◌∷◌, ◌++◌, map, length,
  is_empty, ltb, find_many, Text, is_space, trim,
}

-- `slice(index, index + count)`, from the start, and what is left.
pub take : ℕ → Text → Text
take zero xs = []
take (suc n) [] = []
take (suc n) (x ∷ xs) = x ∷ take n xs

pub drop : ℕ → Text → Text
drop zero xs = xs
drop (suc n) [] = []
drop (suc n) (x ∷ xs) = drop n xs

-- `text.split(/(\s+)/)`, less the empty pieces, which the loop skips: the runs of spaces and of
-- other units.
pub add_unit : ℕ → List Text → List Text
add_unit x [] = (x ∷ []) ∷ []
add_unit x ([] ∷ runs) = (x ∷ []) ∷ runs
add_unit x ((y ∷ run) ∷ runs) =
    if is_space x && is_space y
    then (x ∷ y ∷ run) ∷ runs
    else if not (is_space x) && not (is_space y)
    then (x ∷ y ∷ run) ∷ runs
    else (x ∷ []) ∷ (y ∷ run) ∷ runs

pub words : Text → List Text
words [] = []
words (x ∷ xs) = add_unit x (words xs)

-- The inner loop, which steps by the bound; a word has at most as many slices as units.
pub slices : ℕ → ℕ → Text → List Text
slices zero max word = []
slices (suc fuel) max word =
    let rest = slices fuel max (drop max word) in if is_empty word then [] else take max word ∷ rest

-- The current text is full: with the word it would pass the bound.
pub is_full : ℕ → Text → Text → Bool
is_full max current word = ltb 0 (length current) && ltb max (length current + length word)

pub split_words : ℕ → List Text → Text → List Text
split_words max [] current = if is_empty (trim current) then [] else trim current ∷ []
split_words max (word ∷ rest) current =
    let flushed = if is_full max current word then trim current ∷ [] else [] in
    let kept = if is_full max current word then [] else current in
    let long = split_words max rest kept in
    let short = split_words max rest (kept ++ word) in
    flushed ++ (if ltb max (length word) then slices (length word) max word ++ long else short)

pub split_pathological_long_block : ℕ → Text → List Text
split_pathological_long_block max text = split_words max (words text) []

abbrev pub separator : Text
separator = 10 ∷ 10 ∷ []

pub join : List Text → Text
join [] = []
join (x ∷ []) = x
join (x ∷ y ∷ rest) = x ++ separator ++ join (y ∷ rest)

-- `renderBlocks`, of the texts of the blocks.
pub render_blocks : List Text → Text
render_blocks texts = join (find_many (λ t. not (is_empty t)) (map trim texts))
