-- ===== src/Retrieval/Packed.antt =====
-- What a packed context is: within its limits, without repetition, and full.
use ai_tgs.Common.{
  Bool, List, Text, [], any, false, has_duplicates, leb, length, ltb, map, suc, sum_by, ℕ, ◌≤◌, ◌≡◌,
  ◌+◌, ◌==◌, ◌||◌, ◌∷◌, ◌⊎◌, ◌++◌, is_one_of, ◌<◌, true, if◌then◌else◌, ap, arith, All, refl, ◌∙◌,
  sym, Bool-cases, sum_by-append, inl, inr, All-every, subst,
}
use ai_tgs.Retrieval.Packing.{
  RankedEvidence, PackedEvidence, Label, is_redundant, tokens, pack_from, fits, labelled, pack,
}

abbrev pub hash_of : RankedEvidence → ℕ
hash_of e = e.content_hash

abbrev pub has_hash : RankedEvidence → RankedEvidence → Bool
has_hash c e = hash_of e == hash_of c

-- The evidence behind the labels.
abbrev pub evidence_of : List PackedEvidence → List RankedEvidence
evidence_of [] = []
evidence_of (x ∷ xs) = x.evidence ∷ evidence_of xs

-- The ranks and the numbers of the labels count on from a number.
abbrev pub IsRanked : ℕ → List PackedEvidence → Type 0
IsRanked n [] = Unit
IsRanked n (x ∷ xs) = ((x.rank ≡ suc n) × (x.label ≡ Label.src (suc n))) × IsRanked (suc n) xs

-- The rows of the first list are some of the second, in its order.
abbrev pub IsSublist : List RankedEvidence → List RankedEvidence → Type 0
IsSublist [] cs = Unit
IsSublist (x ∷ xs) [] = ⊥
IsSublist (x ∷ xs) (c ∷ cs) = ((x ≡ c) × IsSublist xs cs) ⊎ IsSublist (x ∷ xs) cs

abbrev pub IsWithin : ℕ → ℕ → List RankedEvidence → Type 0
IsWithin budget top selected =
    (length selected ≤ top)
    × ((sum_by tokens selected ≤ budget) × (has_duplicates (map hash_of selected) ≡ false))

length-append_one :
    (c : RankedEvidence) (es : List RankedEvidence) → length (es ++ c ∷ []) ≡ suc (length es)
length-append_one c [] = refl
length-append_one c (e ∷ es) = ap (λ n. suc n) (length-append_one c es)

any-append_one :
    (p : RankedEvidence → Bool) (c : RankedEvidence) (es : List RankedEvidence)
    → any p (es ++ c ∷ []) ≡ (if p c then true else any p es)
any-append_one p c [] = refl
any-append_one p c (e ∷ es) = ground (arith, any-append_one p c es)

is_one_of-append_one :
    (i : ℕ) (c : RankedEvidence) (es : List RankedEvidence)
    → is_one_of (map hash_of (es ++ c ∷ [])) i
      ≡ (if hash_of c == i then true else is_one_of (map hash_of es) i)
is_one_of-append_one i c [] = refl
is_one_of-append_one i c (e ∷ es) = ground (arith, is_one_of-append_one i c es)

has_duplicates-append_one :
    (c : RankedEvidence) (es : List RankedEvidence)
    → has_duplicates (map hash_of es) ≡ false
    → is_one_of (map hash_of es) (hash_of c) ≡ false
    → has_duplicates (map hash_of (es ++ c ∷ [])) ≡ false
has_duplicates-append_one c [] h g = refl
has_duplicates-append_one c (e ∷ es) h g =
    ground (arith, h, g, has_duplicates-append_one c es, is_one_of-append_one (hash_of e) c es)

any-has_hash :
    (c : RankedEvidence) (es : List RankedEvidence)
    → any (has_hash c) es ≡ is_one_of (map hash_of es) (hash_of c)
any-has_hash c [] = refl
any-has_hash c (e ∷ es) = ap (λ b. if hash_of e == hash_of c then true else b) (any-has_hash c es)

-- The set of hashes is that of the selected evidence.
abbrev HasHashes : List ℕ → List RankedEvidence → Type 0
HasHashes hashes selected = (i : ℕ) → is_one_of hashes i ≡ is_one_of (map hash_of selected) i

HasHashes-append_one :
    (c : RankedEvidence) (hashes : List ℕ) (selected : List RankedEvidence)
    → HasHashes hashes selected
    → HasHashes (c.content_hash ∷ hashes) (selected ++ c ∷ [])
HasHashes-append_one c hashes selected h i =
    ap (λ b. if hash_of c == i then true else b) (h i) ∙ sym (is_one_of-append_one i c selected)

append_nil : (es : List RankedEvidence) → es ≡ es ++ []
append_nil [] = refl
append_nil (e ∷ es) = ap (◌∷◌ e) (append_nil es)

append_assoc :
    (es : List RankedEvidence) (c : RankedEvidence) (rest : List RankedEvidence)
    → (es ++ c ∷ []) ++ rest ≡ es ++ c ∷ rest
append_assoc [] c rest = refl
append_assoc (e ∷ es) c rest = ap (◌∷◌ e) (append_assoc es c rest)

skipped :
    (rest : List RankedEvidence) (c : RankedEvidence) (cs : List RankedEvidence)
    → IsSublist rest cs
    → IsSublist rest (c ∷ cs)
skipped [] c cs h = tt
skipped (e ∷ rest) c cs h = inr h

evidence_of-labelled : (n : ℕ) (es : List RankedEvidence) → evidence_of (labelled n es) ≡ es
evidence_of-labelled n [] = refl
evidence_of-labelled n (e ∷ es) = ap (◌∷◌ e) (evidence_of-labelled (suc n) es)

labelled-IsRanked : (n : ℕ) (es : List RankedEvidence) → IsRanked n (labelled n es)
labelled-IsRanked n [] = tt
labelled-IsRanked n (e ∷ es) = ((refl, refl), labelled-IsRanked (suc n) es)

module _ (lower : Text → Text) (budget top : ℕ) where
  -- A candidate is in the context by its hash, repeats a neighbour in it, or has no room.
  abbrev pub is_covered : List RankedEvidence → RankedEvidence → Bool
  is_covered selected c =
      any (has_hash c) selected
      || (any (is_redundant lower c) selected
          || (ltb budget (sum_by tokens selected + c.estimated_tokens)
              || leb top (length selected)))

  fits-IsWithin :
      (selected : List RankedEvidence) (hashes : List ℕ) (c : RankedEvidence)
      → HasHashes hashes selected
      → length selected < top
      → fits lower budget selected hashes c ≡ true
      → IsWithin budget top selected
      → IsWithin budget top (selected ++ c ∷ [])
  fits-IsWithin selected hashes c same room fit h =
      let new : is_one_of hashes (hash_of c) ≡ false = ground (arith, fit) in
      let free : is_one_of (map hash_of selected) (hash_of c) ≡ false =
        sym (same (hash_of c)) ∙ new in
      (
        omega (arith, length-append_one c selected, room),
        (
          ground (arith, fit, sum_by-append tokens selected (c ∷ [])),
          has_duplicates-append_one c selected h.1.1 free,
        ),
      )

  -- A condition of the selected evidence and its hashes that each step of the loop keeps.
  module _ (P : List RankedEvidence → List ℕ → Type 0)
      (step : (selected : List RankedEvidence) (hashes : List ℕ) (c : RankedEvidence)
        → length selected < top
        → fits lower budget selected hashes c ≡ true
        → P selected hashes
        → P (selected ++ c ∷ []) (c.content_hash ∷ hashes)) where
    pack_from-keeps :
        (cs selected : List RankedEvidence) (hashes : List ℕ)
        → P selected hashes
        → (hs : List ℕ) × P (pack_from lower budget top selected hashes cs) hs
    unfolding pack_from
    pack_from-keeps [] selected hashes h = (hashes, h)
    pack_from-keeps (c ∷ cs) selected hashes h = elim (Bool-cases (leb top (length selected))) [
      | inl full ↦ rw full (hashes, h)
      | inr room ↦ elim (Bool-cases (fits lower budget selected hashes c)) [
        | inl fit ↦
            rw (room, fit)
              (pack_from-keeps cs (selected ++ c ∷ []) (c.content_hash ∷ hashes)
                (step selected hashes c (ground (arith, room)) fit h))
        | inr unfit ↦ rw (room, unfit) (pack_from-keeps cs selected hashes h)
      ]
    ]

  pack_from-IsWithin :
      (cs : List RankedEvidence) → IsWithin budget top (pack_from lower budget top [] [] cs)
  pack_from-IsWithin cs =
      (pack_from-keeps (λ selected hashes. HasHashes hashes selected × IsWithin budget top selected)
        (λ selected hashes c room fit h. (
          HasHashes-append_one c hashes selected h.0,
          fits-IsWithin selected hashes c h.0 room fit h.1,
        ))
        cs [] [] ((λ i. refl), (omega arith, (omega arith, refl)))).1.1

  -- What is covered stays covered.
  is_covered-append_one :
      (selected : List RankedEvidence) (c d : RankedEvidence)
      → is_covered selected c ≡ true
      → is_covered (selected ++ d ∷ []) c ≡ true
  is_covered-append_one selected c d h = ground (
    arith,
    h,
    any-append_one (has_hash c) d selected,
    any-append_one (is_redundant lower c) d selected,
    sum_by-append tokens selected (d ∷ []),
    length-append_one d selected,
  )

  pack_from-is_covered :
      (cs selected : List RankedEvidence) (hashes : List ℕ) (c : RankedEvidence)
      → is_covered selected c ≡ true
      → is_covered (pack_from lower budget top selected hashes cs) c ≡ true
  pack_from-is_covered cs selected hashes c h =
      (pack_from-keeps (λ selected _. is_covered selected c ≡ true)
        (λ selected hashes d _ _ k. is_covered-append_one selected c d k) cs selected hashes h).1

  -- After its turn a candidate is covered.
  turn-is_covered :
      (selected : List RankedEvidence) (hashes : List ℕ) (c : RankedEvidence)
      → HasHashes hashes selected
      → is_covered (if fits lower budget selected hashes c then selected ++ c ∷ [] else selected) c
        ≡ true
  turn-is_covered selected hashes c same = elim (Bool-cases (fits lower budget selected hashes c)) [
    | inl fit ↦
        let self : has_hash c c ≡ true = ground arith in
        rw fit (ground (arith, self, any-append_one (has_hash c) c selected))
    | inr unfit ↦ rw unfit (ground (arith, unfit, same (hash_of c), any-has_hash c selected))
  ]

  pack_from-full :
      (c : RankedEvidence) (cs selected : List RankedEvidence) (hashes : List ℕ)
      → leb top (length selected) ≡ true
      → pack_from lower budget top selected hashes (c ∷ cs) ≡ selected
  unfolding pack_from
  pack_from-full c cs selected hashes full = rw full refl

  pack_from-fit :
      (c : RankedEvidence) (cs selected : List RankedEvidence) (hashes : List ℕ)
      → leb top (length selected) ≡ false
      → fits lower budget selected hashes c ≡ true
      → pack_from lower budget top selected hashes (c ∷ cs)
        ≡ pack_from lower budget top (selected ++ c ∷ []) (c.content_hash ∷ hashes) cs
  unfolding pack_from
  pack_from-fit c cs selected hashes room fit = rw (room, fit) refl

  pack_from-unfit :
      (c : RankedEvidence) (cs selected : List RankedEvidence) (hashes : List ℕ)
      → leb top (length selected) ≡ false
      → fits lower budget selected hashes c ≡ false
      → pack_from lower budget top selected hashes (c ∷ cs)
        ≡ pack_from lower budget top selected hashes cs
  unfolding pack_from
  pack_from-unfit c cs selected hashes room unfit = rw (room, unfit) refl

  abbrev AllCovered : List RankedEvidence → List RankedEvidence → Type 0
  AllCovered cs selected = All (λ c. is_covered selected c ≡ true) cs

  All-is_covered :
      (cs selected : List RankedEvidence) (hashes : List ℕ)
      → HasHashes hashes selected
      → AllCovered cs (pack_from lower budget top selected hashes cs)
  All-is_covered [] selected hashes same = tt
  All-is_covered (c ∷ cs) selected hashes same = elim (Bool-cases (leb top (length selected))) [
    | inl full ↦
        subst (AllCovered (c ∷ cs)) (sym (pack_from-full c cs selected hashes full))
          (All-every (λ d. is_covered selected d ≡ true) (c ∷ cs) (λ d. ground (arith, full)))
    | inr room ↦
        let turn = turn-is_covered selected hashes c same in
        elim (Bool-cases (fits lower budget selected hashes c)) [
          | inl fit ↦
              let turned : is_covered (selected ++ c ∷ []) c ≡ true = rw fit at turn in
              subst (AllCovered (c ∷ cs)) (sym (pack_from-fit c cs selected hashes room fit)) (
                pack_from-is_covered cs (selected ++ c ∷ []) (c.content_hash ∷ hashes) c turned,
                All-is_covered cs (selected ++ c ∷ []) (c.content_hash ∷ hashes)
                    (HasHashes-append_one c hashes selected same),
              )
          | inr unfit ↦
              let turned : is_covered selected c ≡ true = rw unfit at turn in
              subst (AllCovered (c ∷ cs)) (sym (pack_from-unfit c cs selected hashes room unfit)) (
                pack_from-is_covered cs selected hashes c turned,
                All-is_covered cs selected hashes same,
              )
        ]
  ]

  pack_from-IsSublist :
      (cs selected : List RankedEvidence) (hashes : List ℕ)
      → (rest : List RankedEvidence) × ((pack_from lower budget top selected hashes cs
            ≡ selected ++ rest)
          × IsSublist rest cs)
  unfolding pack_from
  pack_from-IsSublist [] selected hashes = ([], (append_nil selected, tt))
  pack_from-IsSublist (c ∷ cs) selected hashes = elim (Bool-cases (leb top (length selected))) [
    | inl full ↦ rw full ([], (append_nil selected, tt))
    | inr room ↦ elim (Bool-cases (fits lower budget selected hashes c)) [
      | inl fit ↦
          let (rest, (split, sub)) =
            pack_from-IsSublist cs (selected ++ c ∷ []) (c.content_hash ∷ hashes) in
          rw (room, fit) (c ∷ rest, (split ∙ append_assoc selected c rest, inl (refl, sub)))
      | inr unfit ↦
          let (rest, (split, sub)) = pack_from-IsSublist cs selected hashes in
          rw (room, unfit) (rest, (split, skipped rest c cs sub))
    ]
  ]

-- The packed context keeps the order of the candidates, holds at most `top` of them with at most
-- the budget of tokens together and no content hash twice, and labels and ranks them from 1 on; and
-- every candidate has its hash in it, or is redundant with a neighbour in it, or has no room beside
-- it in the budget, or the context has `top` members.
pub pack-IsPacked :
    (lower : Text → Text) (candidates : List RankedEvidence) (budget top : ℕ)
    → IsSublist (evidence_of (pack lower candidates budget top)) candidates
      × (IsWithin budget top (evidence_of (pack lower candidates budget top))
          × (IsRanked 0 (pack lower candidates budget top)
              × All
                  (λ c.
                    is_covered lower budget top (evidence_of (pack lower candidates budget top)) c
                    ≡ true)
                  candidates))
unfolding pack
pack-IsPacked lower candidates budget top =
    let selected : List RankedEvidence = pack_from lower budget top [] [] candidates in
    let same : evidence_of (labelled 0 selected) ≡ selected = evidence_of-labelled 0 selected in
    let (rest, (split, sub)) = pack_from-IsSublist lower budget top candidates [] [] in
    (
      subst (λ xs. IsSublist xs candidates) (sym (same ∙ split)) sub,
      (
        subst (IsWithin budget top) (sym same) (pack_from-IsWithin lower budget top candidates),
        (
          labelled-IsRanked 0 selected,
          subst (λ xs. All (λ c. is_covered lower budget top xs c ≡ true) candidates) (sym same)
              (All-is_covered lower budget top candidates [] [] (λ i. refl)),
        ),
      ),
    )
