-- ===== src/Retrieval/Packing.antt =====
-- ContextPackingService (modules/retrieval/context-packing.service.ts).  Ids, hashes and scores are
-- numbers; `lower` is `toLowerCase`.
use ai_tgs.Common.{
  Bool, List, Text, [], any, false, includes, is_one_of, is_space, leb, length, min, not, select,
  suc, sum_by, true, ℕ, ◌+◌, ◌*◌, ◌==◌, ◌&&◌, ◌||◌, ◌++◌, ◌∷◌, if◌then◌else◌,
}

pub record RankedEvidence : Type 0 where
  pub content_chunk_id : ℕ
  pub document_version_id : ℕ
  pub document_id : ℕ
  pub chunk_order : ℕ
  pub content : Text
  pub content_hash : ℕ
  pub estimated_tokens : ℕ
  pub locator : Text
  pub vector_score : ℕ
  pub keyword_score : ℕ
  pub hybrid_score : ℕ

-- The label `SRC_n`.
pub data Label : Type 0 where
  src : ℕ → Label

pub record PackedEvidence : Type 0 where
  pub evidence : RankedEvidence
  pub label : Label
  pub rank : ℕ

abbrev pub add_first : ℕ → List Text → List Text
add_first c [] = (c ∷ []) ∷ []
add_first c (w ∷ ws) = (c ∷ w) ∷ ws

-- `split(/\s+/)`: the flag is set inside a run of white space.
abbrev pub split_from : Bool → Text → List Text
split_from inside [] = [] ∷ []
split_from inside (c ∷ s) =
    let after_space = split_from true s in
    let after_other = split_from false s in
    if is_space c
    then (if inside then after_space else [] ∷ after_space)
    else add_first c after_other

-- The members of `new Set(words)`.
abbrev pub members : List Text → List Text
members [] = []
members (w ∷ ws) = let rest = members ws in if includes rest w then rest else w ∷ rest

-- `Math.abs(item.chunkOrder - candidate.chunkOrder) <= 1`
abbrev pub is_neighbour : ℕ → ℕ → Bool
is_neighbour a b = leb a (suc b) && leb b (suc a)

abbrev pub tokens : RankedEvidence → ℕ
tokens e = e.estimated_tokens

module _ (lower : Text → Text) where
  abbrev pub word_set : Text → List Text
  word_set t = members (split_from false (lower t))

  -- `overlap(a, b) >= 0.8`: at least four fifths of the smaller set are common; the quotient of the
  -- code, which is rounded, compares alike for sets of fewer than 2^50 words.
  unfoldable pub overlaps : Text → Text → Bool
  overlaps a b =
      let aa = word_set a in
      let bb = word_set b in
      let common = length (select (includes bb) aa) in
      not (length aa == 0 || length bb == 0) && leb (4 * min (length aa) (length bb)) (5 * common)

  abbrev pub is_redundant : RankedEvidence → RankedEvidence → Bool
  is_redundant candidate item =
      item.document_version_id == candidate.document_version_id
      && (is_neighbour item.chunk_order candidate.chunk_order
          && overlaps item.content candidate.content)

  abbrev pub fits : ℕ → List RankedEvidence → List ℕ → RankedEvidence → Bool
  fits budget selected hashes c =
      not (is_one_of hashes c.content_hash)
      && (not (any (is_redundant c) selected)
          && leb (sum_by tokens selected + c.estimated_tokens) budget)

  -- The loop, from what is selected so far and the hashes of it.
  unfoldable pub pack_from :
      ℕ → ℕ → List RankedEvidence → List ℕ → List RankedEvidence → List RankedEvidence
  pack_from budget top selected hashes [] = selected
  pack_from budget top selected hashes (c ∷ cs) =
      let taken = fits budget selected hashes c in
      let rest =
        pack_from budget top (if taken then selected ++ c ∷ [] else selected)
          (if taken then c.content_hash ∷ hashes else hashes) cs in
      if leb top (length selected) then selected else rest

abbrev pub labelled : ℕ → List RankedEvidence → List PackedEvidence
labelled n [] = []
labelled n (e ∷ es) =
    record { evidence = e; label = Label.src (suc n); rank = suc n } ∷ labelled (suc n) es

unfoldable pub pack : (Text → Text) → List RankedEvidence → ℕ → ℕ → List PackedEvidence
unfolding pack_from
pack lower candidates budget top = labelled 0 (pack_from lower budget top [] [] candidates)
