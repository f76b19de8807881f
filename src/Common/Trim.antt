-- ===== src/Common/Trim.antt =====
-- Trimming twice is trimming once.
use ai_tgs.Common.Tests.{
  suc, ◌≤◌, ◌≡◌, refl, ap, sym, ◌∙◌, [], ◌∷◌, ◌++◌, arith, if◌then◌else◌, Bool-cases, inl, inr,
}
use ai_tgs.Common.Table.{length}
use ai_tgs.Common.Texts.{Text, is_space, trim, trim_start}
use mathlib.Core.List.{reverse, reverse-append, reverse-reverse}

length-trim_start : (s : Text) → length (trim_start s) ≤ length s
unfolding trim_start
length-trim_start [] = omega arith
length-trim_start (c ∷ s) = ground (arith, length-trim_start s)

trim_start-trim_start : (s : Text) → trim_start (trim_start s) ≡ trim_start s
unfolding trim_start
trim_start-trim_start [] = refl
trim_start-trim_start (c ∷ s) = elim (Bool-cases (is_space c)) [
  | inl space ↦ rw space (trim_start-trim_start s)
  | inr other ↦ rw (other, other) refl
]

-- What is trimmed is in front.
abbrev prefix : Text → Text
prefix [] = []
prefix (c ∷ s) = let rest = prefix s in if is_space c then c ∷ rest else []

prefix-append : (s : Text) → prefix s ++ trim_start s ≡ s
unfolding trim_start
prefix-append [] = refl
prefix-append (c ∷ s) = elim (Bool-cases (is_space c)) [
  | inl space ↦ rw space (ap (◌∷◌ c) (prefix-append s))
  | inr other ↦ rw other refl
]

-- A text that starts with no space, cut behind, starts with none.
trim_start-of_append : (v r : Text) → trim_start (v ++ r) ≡ v ++ r → trim_start v ≡ v
unfolding trim_start
trim_start-of_append [] r h = refl
trim_start-of_append (c ∷ v) r h = elim (Bool-cases (is_space c)) [
  | inl space ↦
      let h' : trim_start (v ++ r) ≡ c ∷ (v ++ r) = rw space at h in
      let longer : length (trim_start (v ++ r)) ≡ suc (length (v ++ r)) = ap length h' in
      absurd (omega (arith, longer, length-trim_start (v ++ r)))
  | inr other ↦ rw other refl
]

pub trim-trim : (s : Text) → trim (trim s) ≡ trim s
unfolding trim
trim-trim s =
    let u = trim_start s in
    let w = trim_start (reverse u) in
    let cut : reverse w ++ reverse (prefix (reverse u)) ≡ u =
      sym (reverse-append (prefix (reverse u)) w)
      ∙ ap reverse (prefix-append (reverse u))
      ∙ reverse-reverse u in
    let whole : trim_start (reverse w ++ reverse (prefix (reverse u)))
        ≡ reverse w ++ reverse (prefix (reverse u)) =
      rw cut (trim_start-trim_start s) in
    let front : trim_start (reverse w) ≡ reverse w =
      trim_start-of_append (reverse w) (reverse (prefix (reverse u))) whole in
    ap (λ x. reverse (trim_start (reverse x))) front
    ∙ ap (λ x. reverse (trim_start x)) (reverse-reverse w)
    ∙ ap reverse (trim_start-trim_start (reverse u))
