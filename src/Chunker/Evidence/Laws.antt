-- ===== src/Chunker/Evidence/Laws.antt =====
-- The bound and the numbering of the chunks.
use sme_data_center.Common.{
  ℕ, ◌+◌, ◌≤◌, ◌<◌, Bool, true, false, not, ◌&&◌, if◌then◌else◌, none, some, List, [], ◌∷◌, ◌++◌,
  ◌≡◌, refl, arith, length, is_empty, ltb, All, Text, trim, find_many, Bool-cases, inl, inr, subst,
}
use sme_data_center.Chunker.{render_blocks, join}
use sme_data_center.Chunker.Bounds.{Bounded, split-Bounded, length-trim}
use sme_data_center.Chunker.Evidence.{
  Block, Chunk, State, render, pending_chunk, flush_pending, piece_chunk, add_pieces,
  add_long_block, turn_heading, make_room, hold_block, add_block, add_blocks, start, has_text,
  create_evidence_chunks,
}

abbrev pub ChunkFits : ℕ → ℕ → Chunk → Type 0
ChunkFits max n c = (length c.text ≤ max) × (c.chunk_ordinal ≡ n)

-- Each chunk is within the bound and numbered by its place, from `n` on.
abbrev pub AreFit : ℕ → ℕ → List Chunk → Type 0
AreFit max n [] = Unit
AreFit max n (c ∷ rest) = ChunkFits max n c × AreFit max (n + 1) rest

AreFit-append :
    (max n : ℕ) (xs : List Chunk) (c : Chunk)
    → AreFit max n xs
    → ChunkFits max (n + length xs) c
    → AreFit max n (xs ++ (c ∷ []))
AreFit-append max n [] c h k = (subst (λ m. ChunkFits max m c) (omega arith) k, tt)
AreFit-append max n (x ∷ xs) c (p, h) k =
    (p, AreFit-append max (n + 1) xs c h (subst (λ m. ChunkFits max m c) (omega arith) k))

-- The chunks fit, and so does what is pending.
record IsFit (max : ℕ) (st : State) : Type 0 where
  pub chunks : AreFit max 0 st.chunks
  pub pending : length (render st.pending) ≤ max

render-nil : (max : ℕ) → length (render []) ≤ max
unfolding render_blocks join
render-nil max = omega arith

render-single : (b : Block) → length (render (b ∷ [])) ≤ length b.text
unfolding render_blocks join
render-single b = by_end (is_empty (trim b.text))
  where
    by_end :
        (e : Bool)
        → length (join (let rest = [] in if not e then trim b.text ∷ rest else rest))
          ≤ length b.text
    by_end true = omega arith
    by_end false = length-trim b.text

flush-IsFit : (max : ℕ) (st : State) → IsFit max st → IsFit max (flush_pending st)
unfolding flush_pending
flush-IsFit max st h = by_pending (is_empty st.pending)
  where
    by_pending :
        (b : Bool)
        → IsFit max (
            if b then st else record st {
              chunks = st.chunks ++ (pending_chunk st ∷ []);
              pending = [];
              pending_heading_key = none;
            })
    by_pending true = h
    by_pending false = record {
      chunks = AreFit-append max 0 st.chunks (pending_chunk st) h.chunks (h.pending, omega arith);
      pending = render-nil max;
    }

pub flushed-empty : (st : State) → is_empty (flush_pending st).pending ≡ true
unfolding flush_pending
flushed-empty st = elim (Bool-cases (is_empty st.pending)) [
  | inl e ↦ rw (e, if◌then◌else◌) e
  | inr e ↦ rw (e, if◌then◌else◌) refl
]

pieces-AreFit :
    (max : ℕ) (b : Block) (index : ℕ) (pieces : List Text) (chunks : List Chunk)
    → All (Bounded max) pieces
    → AreFit max 0 chunks
    → AreFit max 0 (add_pieces b index pieces chunks)
unfolding add_pieces
pieces-AreFit max b index [] chunks p h = h
pieces-AreFit max b index (piece ∷ rest) chunks (p, ps) h =
    pieces-AreFit max b (index + 1) rest _ ps
      (AreFit-append max 0 chunks (piece_chunk b (length chunks) index piece) h (p, omega arith))

long-IsFit :
    (max : ℕ) (b : Block) (st : State)
    → 0 < max
    → IsFit max st
    → IsFit max (add_long_block max b st)
unfolding add_long_block
long-IsFit max b st positive h = record {
  chunks = pieces-AreFit max b 0 _ st.chunks (split-Bounded max b.text positive) h.chunks;
  pending = h.pending;
}

turn-IsFit : (max : ℕ) (b : Block) (st : State) → IsFit max st → IsFit max (turn_heading b st)
unfolding turn_heading
turn-IsFit max b st h = by_test _
  where
    by_test : (t : Bool) → IsFit max (if t then flush_pending st else st)
    by_test true = flush-IsFit max st h
    by_test false = h

-- Where a flush has made room, the block is pending alone; else it fits beside the others.
room-IsFit :
    (max : ℕ) (b : Block) (st : State)
    → length b.text ≤ max
    → IsFit max st
    → (IsFit max (make_room max b st))
      × (length (render ((make_room max b st).pending ++ (b ∷ []))) ≤ max)
unfolding make_room
room-IsFit max b st short h =
    elim (Bool-cases
      (not (is_empty st.pending) && ltb max (length (render (st.pending ++ (b ∷ [])))))) [
        | inl e ↦
            rw (e, if◌then◌else◌)
              (flush-IsFit max st h, alone (flush_pending st).pending (flushed-empty st))
        | inr e ↦ rw (e, if◌then◌else◌) (h, beside st.pending e)
      ]
  where
    within : (n : ℕ) → ltb max n ≡ false → n ≤ max
    within n e = ground arith

    alone : (xs : List Block) → is_empty xs ≡ true → length (render (xs ++ (b ∷ []))) ≤ max
    alone [] e = omega (arith, render-single b)
    alone (x ∷ xs) e = cc

    beside :
        (xs : List Block)
        → (not (is_empty xs) && ltb max (length (render (xs ++ (b ∷ []))))) ≡ false
        → length (render (xs ++ (b ∷ []))) ≤ max
    beside [] e = omega (arith, render-single b)
    beside (x ∷ xs) e = within _ e

add_block-IsFit :
    (max : ℕ) (b : Block) (st : State) → 0 < max → IsFit max st → IsFit max (add_block max b st)
unfolding add_block hold_block
add_block-IsFit max b st positive h = by_length (ltb max (length b.text)) refl
  where
    by_length :
        (t : Bool)
        → ltb max (length b.text) ≡ t
        → IsFit max (
            if t
            then add_long_block max b (flush_pending st)
            else hold_block b (make_room max b (turn_heading b st)))
    by_length true e = long-IsFit max b _ positive (flush-IsFit max st h)
    by_length false e =
        let (fits, beside) =
          room-IsFit max b (turn_heading b st) (ground arith) (turn-IsFit max b st h) in
        record { chunks = fits.chunks; pending = beside }

add_blocks-IsFit :
    (max : ℕ) (blocks : List Block) (st : State)
    → 0 < max
    → IsFit max st
    → IsFit max (add_blocks max blocks st)
unfolding add_blocks
add_blocks-IsFit max [] st positive h = h
add_blocks-IsFit max (b ∷ rest) st positive h =
    add_blocks-IsFit max rest (add_block max b st) positive (add_block-IsFit max b st positive h)

-- Whatever the blocks are, each chunk that is made has at most as many units as a positive bound
-- says, and the chunks are numbered from 0 on by their places.
pub create_evidence_chunks-AreFit :
    (max : ℕ) (blocks : List Block)
    → 0 < max
    → AreFit max 0 (create_evidence_chunks (some max) blocks).chunks
unfolding create_evidence_chunks
create_evidence_chunks-AreFit max blocks positive =
    let done =
      add_blocks-IsFit max (find_many has_text blocks) start positive
        (record { chunks = tt; pending = render-nil max }) in
    let fits = flush-IsFit max (add_blocks max (find_many has_text blocks) start) done in
    fits.chunks
