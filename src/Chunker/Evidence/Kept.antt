-- ===== src/Chunker/Evidence/Kept.antt =====
-- The text of the blocks and the text of the chunks of `createEvidenceChunks`.
use mathlib.Core.List.{append_assoc, append-nil}
use sme_data_center.Common.{
  ℕ, ◌+◌, ◌≤◌, ◌<◌, Bool, true, false, not, ◌&&◌, if◌then◌else◌, Option, none, some, List, [], ◌∷◌,
  ◌++◌, ◌≡◌, refl, sym, ap, ◌∙◌, arith, map, length, is_empty, ltb, Text, is_space, trim, find_many,
  Bool-cases, inl, inr,
}
use sme_data_center.Chunker.{split_pathological_long_block, render_blocks, join, separator}
use sme_data_center.Chunker.Ink.{ink, concat, ink-append, ink-trim, split-ink}
use sme_data_center.Chunker.Evidence.Laws.{flushed-empty}
use sme_data_center.Chunker.Evidence.{
  Block, Chunk, State, render, pending_chunk, flush_pending, piece_chunk, add_pieces,
  add_long_block, turn_heading, make_room, hold_block, add_block, add_blocks, start, has_text,
  create_evidence_chunks,
}

-- The ink of the blocks, one after the other, and that of the chunks.
abbrev pub ink_of_blocks : List Block → Text
ink_of_blocks [] = []
ink_of_blocks (b ∷ rest) = ink b.text ++ ink_of_blocks rest

abbrev pub ink_of_chunks : List Chunk → Text
ink_of_chunks [] = []
ink_of_chunks (c ∷ rest) = ink c.text ++ ink_of_chunks rest

chunks-append :
    (xs : List Chunk) (c : Chunk) → ink_of_chunks (xs ++ (c ∷ [])) ≡ ink_of_chunks xs ++ ink c.text
chunks-append [] c = append-nil (ink c.text)
chunks-append (x ∷ xs) c =
    ap (λ r. ink x.text ++ r) (chunks-append xs c)
    ∙ sym (append_assoc (ink x.text) (ink_of_chunks xs) (ink c.text))

blocks-append :
    (xs : List Block) (b : Block) → ink_of_blocks (xs ++ (b ∷ [])) ≡ ink_of_blocks xs ++ ink b.text
blocks-append [] b = append-nil (ink b.text)
blocks-append (x ∷ xs) b =
    ap (λ r. ink x.text ++ r) (blocks-append xs b)
    ∙ sym (append_assoc (ink x.text) (ink_of_blocks xs) (ink b.text))

separator-ink : ink separator ≡ []
unfolding sme_data_center.Common.is_space
separator-ink = refl

join-ink : (xs : List Text) → ink (join xs) ≡ ink (concat xs)
unfolding join
join-ink [] = refl
join-ink (x ∷ []) = ap ink (sym (append-nil x))
join-ink (x ∷ y ∷ rest) =
    ap ink (append_assoc x separator (join (y ∷ rest)))
    ∙ ink-append x (separator ++ join (y ∷ rest))
    ∙ ap (λ r. ink x ++ r)
        (ink-append separator (join (y ∷ rest))
          ∙ ap (λ r. r ++ ink (join (y ∷ rest))) separator-ink
          ∙ join-ink (y ∷ rest))
    ∙ sym (ink-append x (concat (y ∷ rest)))

-- Empty texts, which are left out, have no ink.
nonempty-ink :
    (xs : List Text) → ink (concat (find_many (λ t. not (is_empty t)) xs)) ≡ ink (concat xs)
nonempty-ink [] = refl
nonempty-ink ([] ∷ xs) = nonempty-ink xs
nonempty-ink ((x ∷ t) ∷ xs) =
    ink-append (x ∷ t) (concat (find_many (λ t. not (is_empty t)) xs))
    ∙ ap (λ r. ink (x ∷ t) ++ r) (nonempty-ink xs)
    ∙ sym (ink-append (x ∷ t) (concat xs))

trimmed-ink :
    (blocks : List Block)
    → ink (concat (map trim (map (λ (b : Block). b.text) blocks))) ≡ ink_of_blocks blocks
trimmed-ink [] = refl
trimmed-ink (b ∷ rest) =
    let later = concat (map trim (map (λ (b : Block). b.text) rest)) in
    ink-append (trim b.text) later
    ∙ ap (λ r. r ++ ink later) (ink-trim b.text)
    ∙ ap (λ r. ink b.text ++ r) (trimmed-ink rest)

render-ink : (blocks : List Block) → ink (render blocks) ≡ ink_of_blocks blocks
unfolding render_blocks
render-ink blocks =
    let texts = map trim (map (λ (b : Block). b.text) blocks) in
    join-ink (find_many (λ t. not (is_empty t)) texts) ∙ nonempty-ink texts ∙ trimmed-ink blocks

-- What the state holds: the chunks and then what is pending.
abbrev ink_of : State → Text
ink_of st = ink_of_chunks st.chunks ++ ink_of_blocks st.pending

flush-ink : (st : State) → ink_of (flush_pending st) ≡ ink_of st
unfolding flush_pending
flush-ink st = elim (Bool-cases (is_empty st.pending)) [
  | inl e ↦ rw (e, if◌then◌else◌) refl
  | inr e ↦
      rw (e, if◌then◌else◌)
        (append-nil (ink_of_chunks (st.chunks ++ (pending_chunk st ∷ [])))
          ∙ chunks-append st.chunks (pending_chunk st)
          ∙ ap (λ r. ink_of_chunks st.chunks ++ r) (render-ink st.pending))
]

turn-ink : (b : Block) (st : State) → ink_of (turn_heading b st) ≡ ink_of st
unfolding turn_heading
turn-ink b st = by_test _
  where
    by_test : (t : Bool) → ink_of (if t then flush_pending st else st) ≡ ink_of st
    by_test true = flush-ink st
    by_test false = refl

room-ink : (max : ℕ) (b : Block) (st : State) → ink_of (make_room max b st) ≡ ink_of st
unfolding make_room
room-ink max b st = by_test _
  where
    by_test : (t : Bool) → ink_of (if t then flush_pending st else st) ≡ ink_of st
    by_test true = flush-ink st
    by_test false = refl

hold-ink : (b : Block) (st : State) → ink_of (hold_block b st) ≡ ink_of st ++ ink b.text
unfolding hold_block
hold-ink b st =
    ap (λ r. ink_of_chunks st.chunks ++ r) (blocks-append st.pending b)
    ∙ sym (append_assoc (ink_of_chunks st.chunks) (ink_of_blocks st.pending) (ink b.text))

pieces-ink :
    (b : Block) (index : ℕ) (pieces : List Text) (chunks : List Chunk)
    → ink_of_chunks (add_pieces b index pieces chunks) ≡ ink_of_chunks chunks ++ ink (concat pieces)
unfolding add_pieces
pieces-ink b index [] chunks = sym (append-nil (ink_of_chunks chunks))
pieces-ink b index (piece ∷ rest) chunks =
    let c = piece_chunk b (length chunks) index piece in
    pieces-ink b (index + 1) rest (chunks ++ (c ∷ []))
    ∙ ap (λ r. r ++ ink (concat rest)) (chunks-append chunks c)
    ∙ append_assoc (ink_of_chunks chunks) (ink piece) (ink (concat rest))
    ∙ ap (λ r. ink_of_chunks chunks ++ r) (sym (ink-append piece (concat rest)))

-- A long block goes after everything that was pending.
long-ink :
    (max : ℕ) (b : Block) (st : State)
    → 0 < max
    → is_empty st.pending ≡ true
    → ink_of (add_long_block max b st) ≡ ink_of st ++ ink b.text
unfolding add_long_block
long-ink max b st positive e =
    by_pending (add_pieces b 0 (split_pathological_long_block max b.text) st.chunks) st.pending e (
      pieces-ink b 0 (split_pathological_long_block max b.text) st.chunks
      ∙ ap (λ r. ink_of_chunks st.chunks ++ r) (split-ink max b.text positive))
  where
    by_pending :
        (chunks : List Chunk) (xs : List Block)
        → is_empty xs ≡ true
        → ink_of_chunks chunks ≡ ink_of_chunks st.chunks ++ ink b.text
        → ink_of_chunks chunks ++ ink_of_blocks xs
          ≡ (ink_of_chunks st.chunks ++ ink_of_blocks xs) ++ ink b.text
    by_pending chunks [] e h =
        append-nil (ink_of_chunks chunks)
        ∙ h
        ∙ ap (λ r. r ++ ink b.text) (sym (append-nil (ink_of_chunks st.chunks)))
    by_pending chunks (x ∷ xs) e h = cc

add_block-ink :
    (max : ℕ) (b : Block) (st : State)
    → 0 < max
    → ink_of (add_block max b st) ≡ ink_of st ++ ink b.text
unfolding add_block
add_block-ink max b st positive = by_length (ltb max (length b.text))
  where
    by_length :
        (t : Bool)
        → ink_of (
            if t
            then add_long_block max b (flush_pending st)
            else hold_block b (make_room max b (turn_heading b st)))
          ≡ ink_of st ++ ink b.text
    by_length true =
        long-ink max b (flush_pending st) positive (flushed-empty st)
        ∙ ap (λ r. r ++ ink b.text) (flush-ink st)
    by_length false =
        hold-ink b (make_room max b (turn_heading b st))
        ∙ ap (λ r. r ++ ink b.text) (room-ink max b (turn_heading b st) ∙ turn-ink b st)

add_blocks-ink :
    (max : ℕ) (blocks : List Block) (st : State)
    → 0 < max
    → ink_of (add_blocks max blocks st) ≡ ink_of st ++ ink_of_blocks blocks
unfolding add_blocks
add_blocks-ink max [] st positive = sym (append-nil (ink_of st))
add_blocks-ink max (b ∷ rest) st positive =
    add_blocks-ink max rest (add_block max b st) positive
    ∙ ap (λ r. r ++ ink_of_blocks rest) (add_block-ink max b st positive)
    ∙ append_assoc (ink_of st) (ink b.text) (ink_of_blocks rest)

-- The blocks that are filtered out have no ink.
filtered-ink :
    (blocks : List Block) → ink_of_blocks (find_many has_text blocks) ≡ ink_of_blocks blocks
filtered-ink [] = refl
filtered-ink (b ∷ rest) = elim (Bool-cases (is_empty (trim b.text))) [
  | inl e ↦
      rw (e, if◌then◌else◌)
        (filtered-ink rest
          ∙ ap (λ r. r ++ ink_of_blocks rest) (sym (no_ink (trim b.text) e) ∙ ink-trim b.text))
  | inr e ↦ rw (e, if◌then◌else◌) (ap (λ r. ink b.text ++ r) (filtered-ink rest))
]
  where
    no_ink : (t : Text) → is_empty t ≡ true → ink t ≡ []
    no_ink [] e = refl
    no_ink (x ∷ t) e = cc

none_pending : (xs : List Block) → is_empty xs ≡ true → ink_of_blocks xs ≡ []
none_pending [] e = refl
none_pending (x ∷ xs) e = cc

-- Chunking loses no unit of any block but spaces, repeats none and keeps their order, where the
-- bound is positive: the chunks, one after the other, have the same units as the blocks, spaces
-- aside.
pub create_evidence_chunks-ink :
    (max : ℕ) (blocks : List Block)
    → 0 < max
    → ink_of_chunks (create_evidence_chunks (some max) blocks).chunks ≡ ink_of_blocks blocks
unfolding create_evidence_chunks
create_evidence_chunks-ink max blocks positive =
    let last = add_blocks max (find_many has_text blocks) start in
    flushed-chunks last (flushed-empty last)
    ∙ flush-ink last
    ∙ add_blocks-ink max (find_many has_text blocks) start positive
    ∙ filtered-ink blocks
  where
    flushed-chunks :
        (st : State)
        → is_empty (flush_pending st).pending ≡ true
        → ink_of_chunks (flush_pending st).chunks ≡ ink_of (flush_pending st)
    flushed-chunks st e =
        sym (append-nil (ink_of_chunks (flush_pending st).chunks))
        ∙ ap (λ r. ink_of_chunks (flush_pending st).chunks ++ r)
            (sym (none_pending (flush_pending st).pending e))
