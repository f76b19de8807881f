-- ===== src/Generation/Loops.antt =====
-- What the loops of Expander.antt leave.
use ai_tgs.Exam.Rows.{QuestionType}
use ai_tgs.Common.{
  List, Option, [], none, some, ℕ, ◌++◌, ◌∷◌, sum_by, ◌≡◌, Bool-cases, false, inl, ◌+◌, arith, inr,
  any, sum_by-append,
}
use ai_tgs.Questions.Store.{}
use ai_tgs.Generation.Rows.{QuestionMixDto, GenerationUnit, GenerationUnitDto}
use ai_tgs.Generation.Expander.{parts, expand_mixes, expand_units, counts_differ, same_key}
use ai_tgs.Generation.Asked.{IfOk, IfOk-mono, if_expanded-IfOk}

-- The sums of a weight over the units that the loops add.
module _ (w : GenerationUnit → ℕ) where
  abbrev pub weight_of : Option ℕ → ℕ → QuestionMixDto → ℕ
  weight_of none chapter mix = 0
  weight_of (some topic) chapter mix = sum_by w (parts topic chapter mix)

  expand_mixes-sum :
      (topic : Option ℕ) (chapter : ℕ) (seen : List (ℕ × QuestionType))
      (result : List GenerationUnit) (mixes : List QuestionMixDto)
      → IfOk
          (λ r. sum_by w r.1 ≡ sum_by w result + sum_by (weight_of topic chapter) mixes)
          (expand_mixes topic chapter seen result mixes)
  unfolding expand_mixes
  expand_mixes-sum topic chapter seen result [] = omega arith
  expand_mixes-sum none chapter seen result (mix ∷ mixes) = elim (Bool-cases (counts_differ mix)) [
    | inl differ ↦ rw differ tt
    | inr agree ↦ rw agree tt
  ]
  expand_mixes-sum (some topic) chapter seen result (mix ∷ mixes) =
      elim (Bool-cases (counts_differ mix)) [
        | inl differ ↦ rw differ tt
        | inr agree ↦ elim (Bool-cases (any (same_key topic mix.type) seen)) [
          | inl repeated ↦ rw (agree, repeated) tt
          | inr new ↦
              rw (agree, new)
                (IfOk-mono _ _
                  (expand_mixes (some topic) chapter ((topic, mix.type) ∷ seen)
                    (result ++ parts topic chapter mix) mixes)
                  (λ r h. omega (arith, h, sum_by-append w result (parts topic chapter mix)))
                  (expand_mixes-sum (some topic) chapter ((topic, mix.type) ∷ seen)
                    (result ++ parts topic chapter mix) mixes))
        ]
      ]

  pub expand_units-sum :
      (seen : List (ℕ × QuestionType)) (result : List GenerationUnit)
      (units : List GenerationUnitDto)
      → IfOk
          (λ r.
            sum_by w r.1
            ≡ sum_by w result
              + sum_by
                  (λ (u : GenerationUnitDto).
                    sum_by (weight_of u.topic_id u.chapter_id) u.question_mix)
                  units)
          (expand_units seen result units)
  unfolding expand_units
  expand_units-sum seen result [] = omega arith
  expand_units-sum seen result (unit ∷ units) =
      if_expanded-IfOk
        (λ r.
          sum_by w r.1
          ≡ sum_by w result + sum_by (weight_of unit.topic_id unit.chapter_id) unit.question_mix)
        (λ r.
          sum_by w r.1
          ≡ sum_by w result
            + sum_by
                (λ (u : GenerationUnitDto).
                  sum_by (weight_of u.topic_id u.chapter_id) u.question_mix)
                (unit ∷ units))
        (λ r. expand_units r.0 r.1 units)
        (expand_mixes unit.topic_id unit.chapter_id seen result unit.question_mix)
        (expand_mixes-sum unit.topic_id unit.chapter_id seen result unit.question_mix)
        (λ r h.
          IfOk-mono _ _ (expand_units r.0 r.1 units) (λ q k. omega (arith, h, k))
            (expand_units-sum r.0 r.1 units))

-- What each step of the loops keeps.
module _ (P : List (ℕ × QuestionType) → List GenerationUnit → Type 0)
    (step : (topic chapter : ℕ) (mix : QuestionMixDto) (seen : List (ℕ × QuestionType))
        (result : List GenerationUnit)
      → any (same_key topic mix.type) seen ≡ false
      → P seen result
      → P ((topic, mix.type) ∷ seen) (result ++ parts topic chapter mix)) where
  expand_mixes-keeps :
      (topic : Option ℕ) (chapter : ℕ) (seen : List (ℕ × QuestionType))
      (result : List GenerationUnit) (mixes : List QuestionMixDto)
      → P seen result
      → IfOk (λ r. P r.0 r.1) (expand_mixes topic chapter seen result mixes)
  unfolding expand_mixes
  expand_mixes-keeps topic chapter seen result [] h = h
  expand_mixes-keeps none chapter seen result (mix ∷ mixes) h =
      elim (Bool-cases (counts_differ mix)) [ inl differ ↦ rw differ tt | inr agree ↦ rw agree tt ]
  expand_mixes-keeps (some topic) chapter seen result (mix ∷ mixes) h =
      elim (Bool-cases (counts_differ mix)) [
        | inl differ ↦ rw differ tt
        | inr agree ↦ elim (Bool-cases (any (same_key topic mix.type) seen)) [
          | inl repeated ↦ rw (agree, repeated) tt
          | inr new ↦
              rw (agree, new)
                (expand_mixes-keeps (some topic) chapter ((topic, mix.type) ∷ seen)
                  (result ++ parts topic chapter mix) mixes
                  (step topic chapter mix seen result new h))
        ]
      ]

  pub expand_units-keeps :
      (seen : List (ℕ × QuestionType)) (result : List GenerationUnit)
      (units : List GenerationUnitDto)
      → P seen result
      → IfOk (λ r. P r.0 r.1) (expand_units seen result units)
  unfolding expand_units
  expand_units-keeps seen result [] h = h
  expand_units-keeps seen result (unit ∷ units) h =
      if_expanded-IfOk (λ r. P r.0 r.1) (λ r. P r.0 r.1) (λ r. expand_units r.0 r.1 units)
        (expand_mixes unit.topic_id unit.chapter_id seen result unit.question_mix)
        (expand_mixes-keeps unit.topic_id unit.chapter_id seen result unit.question_mix h)
        (λ r k. expand_units-keeps r.0 r.1 units k)
