-- ===== src/Retrieval/Tests.antt =====
-- The packing of three pieces of evidence.
use ai_tgs.Common.{All, List, Text, [], map, refl, true, ℕ, ◌≡◌, ◌∷◌}
use ai_tgs.Retrieval.Packing.{RankedEvidence, pack, pack_from, overlaps}
use ai_tgs.Retrieval.Packed.{
  evidence_of, IsSublist, IsWithin, IsRanked, is_covered, pack-IsPacked, hash_of,
}

abbrev piece : ℕ → Text → RankedEvidence
piece order content = record {
  content_chunk_id = order;
  document_version_id = 1;
  document_id = 1;
  chunk_order = order;
  content = content;
  content_hash = order;
  estimated_tokens = 40;
  locator = [];
  vector_score = 0;
  keyword_score = 0;
  hybrid_score = 0;
}

-- The second repeats the first, and the last has no room.
abbrev pieces : List RankedEvidence
pieces =
    piece 3 (65 ∷ 32 ∷ 66 ∷ [])
    ∷ piece 4 (65 ∷ 10 ∷ 66 ∷ [])
    ∷ piece 9 (67 ∷ [])
    ∷ piece 20 (68 ∷ [])
    ∷ []

pack-IsPacked_example :
    IsSublist (evidence_of (pack (λ t. t) pieces 100 5)) pieces
    × (IsWithin 100 5 (evidence_of (pack (λ t. t) pieces 100 5))
        × (IsRanked 0 (pack (λ t. t) pieces 100 5)
            × All
                (λ c. is_covered (λ t. t) 100 5 (evidence_of (pack (λ t. t) pieces 100 5)) c ≡ true)
                pieces))
pack-IsPacked_example = pack-IsPacked (λ t. t) pieces 100 5

packed_pieces : map hash_of (evidence_of (pack (λ t. t) pieces 100 5)) ≡ 3 ∷ 9 ∷ []
unfolding pack pack_from overlaps
packed_pieces = refl
