-- ===== src/Generation/Sorted.antt =====
-- What `sort_units` of Expander.antt does.
use ai_tgs.Exam.Rows.{}
use ai_tgs.Common.{
  List, [], ℕ, ◌∷◌, sum_by, All, ◌≡◌, Bool-cases, true, false, inl, ◌+◌, arith, inr, refl,
}
use ai_tgs.Questions.Store.{}
use ai_tgs.Generation.Rows.{GenerationUnit}
use ai_tgs.Generation.Expander.{is_before, insert_unit, sort_units}

abbrev pub IsSorted : List GenerationUnit → Type 0
IsSorted [] = Unit
IsSorted (x ∷ []) = Unit
IsSorted (x ∷ y ∷ ys) = (is_before x y ≡ true) × IsSorted (y ∷ ys)

is_before-total : (a b : GenerationUnit) → is_before a b ≡ false → is_before b a ≡ true
is_before-total a b h = ground (arith, h)

insert_unit-IsSorted :
    (x : GenerationUnit) (xs : List GenerationUnit) → IsSorted xs → IsSorted (insert_unit x xs)
insert_unit-IsSorted x [] h = tt
insert_unit-IsSorted x (y ∷ []) h = elim (Bool-cases (is_before x y)) [
  | inl before ↦ rw before (before, tt)
  | inr after ↦ rw after (is_before-total x y after, tt)
]
insert_unit-IsSorted x (y ∷ z ∷ zs) h = elim (Bool-cases (is_before x y)) [
  | inl before ↦ rw before (before, h)
  | inr after ↦
      let later = insert_unit-IsSorted x (z ∷ zs) h.1 in
      elim (Bool-cases (is_before x z)) [
        | inl first ↦ rw (after, first) (is_before-total x y after, (first, h.1))
        | inr second ↦
            let later' : IsSorted (z ∷ insert_unit x zs) = rw second at later in
            rw (after, second) (h.0, later')
      ]
]

pub sort_units-IsSorted : (xs : List GenerationUnit) → IsSorted (sort_units xs)
sort_units-IsSorted [] = tt
sort_units-IsSorted (x ∷ xs) = insert_unit-IsSorted x (sort_units xs) (sort_units-IsSorted xs)

sum_by-insert_unit :
    (w : GenerationUnit → ℕ) (x : GenerationUnit) (xs : List GenerationUnit)
    → sum_by w (insert_unit x xs) ≡ w x + sum_by w xs
sum_by-insert_unit w x [] = refl
sum_by-insert_unit w x (y ∷ ys) = elim (Bool-cases (is_before x y)) [
  | inl before ↦ rw before refl
  | inr after ↦ rw after (omega (arith, sum_by-insert_unit w x ys))
]

pub sum_by-sort_units :
    (w : GenerationUnit → ℕ) (xs : List GenerationUnit) → sum_by w (sort_units xs) ≡ sum_by w xs
sum_by-sort_units w [] = refl
sum_by-sort_units w (x ∷ xs) =
    omega (arith, sum_by-insert_unit w x (sort_units xs), sum_by-sort_units w xs)

module _ (P : GenerationUnit → Type 0) where
  All-insert_unit :
      (x : GenerationUnit) (xs : List GenerationUnit) → P x → All P xs → All P (insert_unit x xs)
  All-insert_unit x [] h k = (h, tt)
  All-insert_unit x (y ∷ ys) h k = elim (Bool-cases (is_before x y)) [
    | inl before ↦ rw before (h, k)
    | inr after ↦ rw after (k.0, All-insert_unit x ys h k.1)
  ]

  pub All-sort_units : (xs : List GenerationUnit) → All P xs → All P (sort_units xs)
  All-sort_units [] h = tt
  All-sort_units (x ∷ xs) h = All-insert_unit x (sort_units xs) h.0 (All-sort_units xs h.1)
