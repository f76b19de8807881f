-- ===== src/Generation/Expansion.antt =====
-- The expansion of a request as a whole.
use ai_tgs.Common.{
  All, All-append, Bool-cases, List, Option, Result, [], any, arith, err, false, inl, inr, ltb,
  none, ok, refl, some, subst, sum_by, sum_by-append, sym, ℕ, ◌≤◌, ◌<◌, ◌≡◌, ◌+◌, ◌*◌, ◌==◌, ◌++◌,
  ◌∷◌, ◌∙◌, if◌then◌else◌,
}
use ai_tgs.Exam.Rows.{QuestionType, QuestionDifficulty}
use ai_tgs.Questions.Keeps.Change.{same_type-≡}
use ai_tgs.Generation.Rows.{
  QuestionMixDto, GenerationUnitDto, CreateGenerationDto, GenerationUnit, GenerationError, Fraction,
}
use ai_tgs.Generation.Expander.{
  parts, same_key, expand_units, count_of, marks_of, is_off, checked, expand,
}
use ai_tgs.Generation.Asked.{
  IfOk, IfOk-mono, if_expanded-IfOk, amount, one, asked_in_mix, asked_in_unit,
}
use ai_tgs.Generation.Sorted.{IsSorted, sort_units-IsSorted, sum_by-sort_units, All-sort_units}
use ai_tgs.Generation.Loops.{weight_of, expand_units-sum, expand_units-keeps}
use ai_tgs.Generation.Parts.{parts-positive, amount-parts, one-parts}

-- A total within a thousandth of the target, where there is one.
abbrev pub IsNear : Option Fraction → ℕ → Type 0
IsNear none total = Unit
IsNear (some target) total =
    (1000 * target.numerator ≤ 1000 * (total * target.denominator) + target.denominator)
    × (1000 * (total * target.denominator) ≤ 1000 * target.numerator + target.denominator)

pub record IsExpansion (maximum : ℕ) (dto : CreateGenerationDto) (units : List GenerationUnit)
    : Type 0 where
  pub amounts :
      (t : ℕ) (type : QuestionType) (d : QuestionDifficulty)
      → sum_by (amount t type d) units ≡ sum_by (asked_in_unit t type d) dto.units
  pub once :
      (t : ℕ) (type : QuestionType) (d : QuestionDifficulty) → sum_by (one t type d) units ≤ 1
  pub positive : All (λ (u : GenerationUnit). 0 < u.count) units
  pub total : (1 ≤ sum_by count_of units) × (sum_by count_of units ≤ maximum)
  pub marks : IsNear dto.target_marks (sum_by marks_of units)
  pub sorted : IsSorted units

weights-asked :
    (t : ℕ) (type : QuestionType) (d : QuestionDifficulty) (topic : Option ℕ) (chapter : ℕ)
    (mixes : List QuestionMixDto)
    → sum_by (weight_of (amount t type d) topic chapter) mixes ≡ (elim topic [
      | none ↦ 0
      | some i ↦ if i == t then sum_by (asked_in_mix type d) mixes else 0
    ])
weights-asked t type d none chapter [] = refl
weights-asked t type d none chapter (mix ∷ mixes) =
    omega (arith, weights-asked t type d none chapter mixes)
weights-asked t type d (some i) chapter [] = ground arith
weights-asked t type d (some i) chapter (mix ∷ mixes) =
    ground
      (arith, amount-parts t type d i chapter mix, weights-asked t type d (some i) chapter mixes)

units-asked :
    (t : ℕ) (type : QuestionType) (d : QuestionDifficulty) (units : List GenerationUnitDto)
    → sum_by
        (λ (u : GenerationUnitDto).
          sum_by (weight_of (amount t type d) u.topic_id u.chapter_id) u.question_mix)
        units
      ≡ sum_by (asked_in_unit t type d) units
units-asked t type d [] = refl
units-asked t type d (u ∷ units) = omega (
  arith,
  weights-asked t type d u.topic_id u.chapter_id u.question_mix,
  units-asked t type d units,
)

-- At most one unit of a topic, type and difficulty, and none before its key is seen.
abbrev IsOnce : List (ℕ × QuestionType) → List GenerationUnit → Type 0
IsOnce seen result =
    (t : ℕ) (type : QuestionType) (d : QuestionDifficulty)
    → sum_by (one t type d) result ≤ (if any (same_key t type) seen then 1 else 0)

parts-IsOnce :
    (topic chapter : ℕ) (mix : QuestionMixDto) (seen : List (ℕ × QuestionType))
    (result : List GenerationUnit)
    → any (same_key topic mix.type) seen ≡ false
    → IsOnce seen result
    → IsOnce ((topic, mix.type) ∷ seen) (result ++ parts topic chapter mix)
parts-IsOnce topic chapter mix seen result new h t type d =
    elim (Bool-cases (same_key t type (topic, mix.type))) [
      | inl hit ↦
          let same_topic : topic ≡ t = ground (arith, hit) in
          let same_types : mix.type ≡ type = same_type-≡ mix.type type (ground (arith, hit)) in
          let unseen : any (same_key t type) seen ≡ false =
            subst (λ i. any (same_key i type) seen ≡ false) same_topic
              (subst (λ y. any (same_key topic y) seen ≡ false) same_types new) in
          let before : sum_by (one t type d) result
              ≤ (if any (same_key t type) seen then 1 else 0) =
            h t type d in
          let none_yet : sum_by (one t type d) result ≤ 0 = ground (arith, before, unseen) in
          let few : sum_by (one t type d) (parts topic chapter mix) ≤ 1 =
            ground (arith, one-parts t type d topic chapter mix) in
          let joined = sum_by-append (one t type d) result (parts topic chapter mix) in
          rw hit (omega (arith, none_yet, few, joined))
      | inr miss ↦
          let before : sum_by (one t type d) result
              ≤ (if any (same_key t type) seen then 1 else 0) =
            h t type d in
          let few : sum_by (one t type d) (parts topic chapter mix) ≤ 0 =
            ground (arith, miss, one-parts t type d topic chapter mix) in
          let joined = sum_by-append (one t type d) result (parts topic chapter mix) in
          rw miss (omega (arith, before, few, joined))
    ]

is_off-IsNear :
    (target : Option Fraction) (total : ℕ) → is_off target total ≡ false → IsNear target total
is_off-IsNear none total h = tt
is_off-IsNear (some target) total h = (ground (arith, h), ground (arith, h))

-- What the loops leave.
abbrev IsCollected : CreateGenerationDto → List GenerationUnit → Type 0
IsCollected dto result =
    ((t : ℕ) (type : QuestionType) (d : QuestionDifficulty)
      → sum_by (amount t type d) result ≡ sum_by (asked_in_unit t type d) dto.units)
    × (((t : ℕ) (type : QuestionType) (d : QuestionDifficulty) → sum_by (one t type d) result ≤ 1)
        × All (λ (u : GenerationUnit). 0 < u.count) result)

checked-IsExpansion :
    (maximum : ℕ) (dto : CreateGenerationDto) (result : List GenerationUnit)
    → IsCollected dto result
    → IfOk (IsExpansion maximum dto) (checked maximum dto.target_marks result)
checked-IsExpansion maximum dto result (amounts, (once, positive)) =
    elim (Bool-cases (sum_by count_of result == 0)) [
      | inl empty ↦ rw empty tt
      | inr full ↦ elim (Bool-cases (ltb maximum (sum_by count_of result))) [
        | inl over ↦ rw (full, over) tt
        | inr within ↦ elim (Bool-cases (is_off dto.target_marks (sum_by marks_of result))) [
          | inl off ↦ rw (full, within, off) tt
          | inr near ↦
              rw (full, within, near)
                (record {
                  amounts =
                      λ t type d. sum_by-sort_units (amount t type d) result ∙ amounts t type d;
                  once = λ t type d.
                      omega (arith, sum_by-sort_units (one t type d) result, once t type d);
                  positive = All-sort_units (λ (u : GenerationUnit). 0 < u.count) result positive;
                  total =
                      (let same = sum_by-sort_units count_of result in
                        (ground (arith, same, full), ground (arith, same, within)));
                  marks =
                      subst (IsNear dto.target_marks) (sym (sum_by-sort_units marks_of result))
                        (is_off-IsNear dto.target_marks (sum_by marks_of result) near);
                  sorted = sort_units-IsSorted result;
                })
        ]
      ]
    ]

IfOk-both :
    {A : Type 0} (P Q : A → Type 0) (r : Result GenerationError A)
    → IfOk P r
    → IfOk Q r
    → IfOk (λ a. P a × Q a) r
IfOk-both P Q (ok a) h k = (h, k)
IfOk-both P Q (err e) h k = tt

IfOk-every :
    {A : Type 0} {I : Type 0} (P : I → A → Type 0) (r : Result GenerationError A)
    → ((i : I) → IfOk (P i) r)
    → IfOk (λ a. (i : I) → P i a) r
IfOk-every P (ok a) h = h
IfOk-every P (err e) h = tt

abbrev HasAmount :
    CreateGenerationDto
    → ℕ × (QuestionType × QuestionDifficulty)
    → List (ℕ × QuestionType) × List GenerationUnit
    → Type 0
HasAmount dto i r =
    sum_by (amount i.0 i.1.0 i.1.1) r.1 ≡ sum_by (asked_in_unit i.0 i.1.0 i.1.1) dto.units

expand_units-HasAmount :
    (dto : CreateGenerationDto) (i : ℕ × (QuestionType × QuestionDifficulty))
    → IfOk (HasAmount dto i) (expand_units [] [] dto.units)
expand_units-HasAmount dto i =
    IfOk-mono _ (HasAmount dto i) (expand_units [] [] dto.units)
      (λ r h. omega (arith, h, units-asked i.0 i.1.0 i.1.1 dto.units))
      (expand_units-sum (amount i.0 i.1.0 i.1.1) [] [] dto.units)

abbrev IsTidy : List (ℕ × QuestionType) → List GenerationUnit → Type 0
IsTidy seen result = IsOnce seen result × All (λ (u : GenerationUnit). 0 < u.count) result

parts-IsTidy :
    (topic chapter : ℕ) (mix : QuestionMixDto) (seen : List (ℕ × QuestionType))
    (result : List GenerationUnit)
    → any (same_key topic mix.type) seen ≡ false
    → IsTidy seen result
    → IsTidy ((topic, mix.type) ∷ seen) (result ++ parts topic chapter mix)
parts-IsTidy topic chapter mix seen result new h = (
  parts-IsOnce topic chapter mix seen result new h.0,
  All-append (λ (u : GenerationUnit). 0 < u.count) result (parts topic chapter mix) h.1
      (parts-positive topic chapter mix),
)

once-of_IsOnce :
    (seen : List (ℕ × QuestionType)) (result : List GenerationUnit)
    → IsOnce seen result
    → (t : ℕ) (type : QuestionType) (d : QuestionDifficulty) → sum_by (one t type d) result ≤ 1
once-of_IsOnce seen result h t type d =
    let before : sum_by (one t type d) result ≤ (if any (same_key t type) seen then 1 else 0) =
      h t type d in
    ground (arith, before)

expand_units-IsCollected :
    (dto : CreateGenerationDto) → IfOk (λ r. IsCollected dto r.1) (expand_units [] [] dto.units)
expand_units-IsCollected dto =
    IfOk-mono _ (λ r. IsCollected dto r.1) (expand_units [] [] dto.units)
      (λ r h. ((λ t type d. h.0 (t, (type, d))), (once-of_IsOnce r.0 r.1 h.1.0, h.1.1)))
      (IfOk-both _ _ (expand_units [] [] dto.units)
        (IfOk-every (HasAmount dto) (expand_units [] [] dto.units) (expand_units-HasAmount dto))
        (expand_units-keeps IsTidy parts-IsTidy [] [] dto.units ((λ t type d. omega arith), tt)))

-- When the expansion of a request succeeds, with at most `maximum` questions, the units hold for
-- each topic, type and difficulty as many questions as the request asks for, in at most one unit;
-- no unit is empty, the total is between one and the maximum, the marks are within a thousandth of
-- the target where there is one, and the units are sorted by topic, type and difficulty.
pub expand-IsExpansion :
    (maximum : ℕ) (dto : CreateGenerationDto) → IfOk (IsExpansion maximum dto) (expand maximum dto)
unfolding expand
expand-IsExpansion maximum dto =
    if_expanded-IfOk (λ r. IsCollected dto r.1) (IsExpansion maximum dto)
      (λ r. checked maximum dto.target_marks r.1) (expand_units [] [] dto.units)
      (expand_units-IsCollected dto) (λ r h. checked-IsExpansion maximum dto r.1 h)
