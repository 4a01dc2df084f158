-- ===== src/Chunker/Evidence.antt =====
-- `createEvidenceChunks`: blocks gathered under a heading up to the bound, long ones split.
-- A chunk's ids, SHA-256 digests of its ordinal and the document's, are left out.
pub mod Laws
pub mod Kept
use sme_data_center.Common.{
  ℕ, ◌+◌, zero, suc, Bool, true, false, not, ◌&&◌, ◌||◌, if◌then◌else◌, Option, none, some, List,
  [], ◌∷◌, ◌++◌, ◌==◌, map, length, is_empty, any, ltb, find_many, Text, text_eq, trim,
}
use sme_data_center.Chunker.{split_pathological_long_block, render_blocks}

pub record Block : Type 0 where
  pub block_type : ℕ
  pub heading_path : List Text
  pub text : Text
  pub source_location : ℕ

-- `fallback_chunk_index` is there for a piece of a long block, whose strategy is marked with it.
pub record Chunk : Type 0 where
  pub chunk_ordinal : ℕ
  pub text : Text
  pub heading_path : List Text
  pub block_types : List ℕ
  pub source_locations : List ℕ
  pub fallback_chunk_index : Option ℕ

-- The variables of `createEvidenceChunks`; a warning is the location it names.
pub record State : Type 0 where
  pub chunks : List Chunk
  pub warnings : List ℕ
  pub pending : List Block
  pub pending_heading_key : Option Text

-- `headingPath.join("\u001f")`.
pub heading_key : List Text → Text
heading_key [] = []
heading_key (x ∷ []) = x
heading_key (x ∷ y ∷ rest) = x ++ 31 ∷ heading_key (y ∷ rest)

pub same_key : Text → Option Text → Bool
same_key key none = false
same_key key (some other) = text_eq key other

-- `[...new Set(types)]`: each once, where it comes first.
pub unique_types : List ℕ → List ℕ → List ℕ
unique_types seen [] = []
unique_types seen (t ∷ rest) =
    let with = unique_types (t ∷ seen) rest in
    let without = unique_types seen rest in if any (λ s. s == t) seen then without else t ∷ with

pub last_heading : List Block → List Text
last_heading [] = []
last_heading (b ∷ []) = b.heading_path
last_heading (b ∷ c ∷ rest) = last_heading (c ∷ rest)

abbrev pub render : List Block → Text
render blocks = render_blocks (map (λ (b : Block). b.text) blocks)

abbrev pub pending_chunk : State → Chunk
pending_chunk st = record {
  chunk_ordinal = length st.chunks;
  text = render st.pending;
  heading_path = last_heading st.pending;
  block_types = unique_types [] (map (λ (b : Block). b.block_type) st.pending);
  source_locations = map (λ (b : Block). b.source_location) st.pending;
  fallback_chunk_index = none;
}

pub flush_pending : State → State
flush_pending st = if is_empty st.pending then st else record st {
  chunks = st.chunks ++ (pending_chunk st ∷ []);
  pending = [];
  pending_heading_key = none;
}

abbrev pub piece_chunk : Block → ℕ → ℕ → Text → Chunk
piece_chunk b ordinal index piece = record {
  chunk_ordinal = ordinal;
  text = piece;
  heading_path = b.heading_path;
  block_types = b.block_type ∷ [];
  source_locations = b.source_location ∷ [];
  fallback_chunk_index = some index;
}

pub add_pieces : Block → ℕ → List Text → List Chunk → List Chunk
add_pieces b index [] chunks = chunks
add_pieces b index (piece ∷ rest) chunks =
    add_pieces b (index + 1) rest (chunks ++ (piece_chunk b (length chunks) index piece ∷ []))

pub add_long_block : ℕ → Block → State → State
add_long_block max b st = record st {
  chunks = add_pieces b 0 (split_pathological_long_block max b.text) st.chunks;
  warnings = st.warnings ++ (b.source_location ∷ []);
}

-- The flush before a block under another heading.
pub turn_heading : Block → State → State
turn_heading b st =
    if not (is_empty st.pending)
      && not (same_key (heading_key b.heading_path) st.pending_heading_key)
    then flush_pending st
    else st

-- The flush before a block that would pass the bound.
pub make_room : ℕ → Block → State → State
make_room max b st =
    if not (is_empty st.pending) && ltb max (length (render (st.pending ++ (b ∷ []))))
    then flush_pending st
    else st

pub hold_block : Block → State → State
hold_block b st = record st {
  pending = st.pending ++ (b ∷ []);
  pending_heading_key = some (heading_key b.heading_path);
}

pub add_block : ℕ → Block → State → State
add_block max b st =
    if ltb max (length b.text)
    then add_long_block max b (flush_pending st)
    else hold_block b (make_room max b (turn_heading b st))

pub add_blocks : ℕ → List Block → State → State
add_blocks max [] st = st
add_blocks max (b ∷ rest) st = add_blocks max rest (add_block max b st)

abbrev pub start : State
start = record { chunks = []; warnings = []; pending = []; pending_heading_key = none }

abbrev pub has_text : Block → Bool
has_text b = not (is_empty (trim b.text))

-- The bound is `input.maxChunkChars ?? 1600`.
pub create_evidence_chunks : Option ℕ → List Block → State
create_evidence_chunks none blocks =
    flush_pending (add_blocks 1600 (find_many has_text blocks) start)
create_evidence_chunks (some max) blocks =
    flush_pending (add_blocks max (find_many has_text blocks) start)
