-- ===== src/Chunker/Tests.antt =====
-- The chunker's theorems at small inputs, and a run that makes an empty chunk.
use sme_data_center.Common.{ℕ, some, [], ◌∷◌, ◌≡◌, refl, arith, Text, is_space, trim_start, trim}
use sme_data_center.Chunker.{
  take, drop, add_unit, words, slices, is_full, split_words, split_pathological_long_block,
}
use sme_data_center.Chunker.Ink.{ink, concat, split-ink}
use sme_data_center.Chunker.Evidence.{Block, create_evidence_chunks}
use sme_data_center.Chunker.Evidence.Kept.{ink_of_blocks, ink_of_chunks, create_evidence_chunks-ink}
use sme_data_center.Chunker.Evidence.Laws.{AreFit, create_evidence_chunks-AreFit}

-- Two words past the bound with a space between them.
abbrev two_words : Text
two_words = b'a' ∷ b'b' ∷ b'c' ∷ b' ' ∷ b'd' ∷ b'e' ∷ b'f' ∷ []

-- The space between them is flushed, trimmed, as an empty chunk.
empty_chunk :
    split_pathological_long_block 2 two_words
    ≡ (b'a' ∷ b'b' ∷ []) ∷ (b'c' ∷ []) ∷ [] ∷ (b'd' ∷ b'e' ∷ []) ∷ (b'f' ∷ []) ∷ []
unfolding split_pathological_long_block split_words words add_unit is_full slices take drop is_space
    trim trim_start
empty_chunk = refl

split-ink_example : ink (concat (split_pathological_long_block 2 two_words)) ≡ ink two_words
split-ink_example = split-ink 2 two_words (omega arith)

abbrev block : Text → ℕ → Block
block text location = record {
  block_type = 1;
  heading_path = [];
  text = text;
  source_location = location;
}

create_evidence_chunks-AreFit_example :
    AreFit 4 0
      (create_evidence_chunks (some 4) (block two_words 1 ∷ block (b'x' ∷ []) 2 ∷ [])).chunks
create_evidence_chunks-AreFit_example =
    create_evidence_chunks-AreFit 4 (block two_words 1 ∷ block (b'x' ∷ []) 2 ∷ []) (omega arith)

create_evidence_chunks-ink_example :
    ink_of_chunks
      (create_evidence_chunks (some 4) (block two_words 1 ∷ block (b'x' ∷ []) 2 ∷ [])).chunks
    ≡ ink_of_blocks (block two_words 1 ∷ block (b'x' ∷ []) 2 ∷ [])
create_evidence_chunks-ink_example =
    create_evidence_chunks-ink 4 (block two_words 1 ∷ block (b'x' ∷ []) 2 ∷ []) (omega arith)
