-- ===== src/Questions/Answers.antt =====
-- What the options of a question are that QuestionValidatorService accepts.
use ai_tgs.Common.{
  Bool, List, Option, Text, [], all, any, ap, arith, count, false, has_duplicates, has_equal_texts,
  in_range, includes, is_blank, length, none, occurs, occurs-once, refl, some, suc, true, ℕ, ◌≡◌,
  ◌∷◌, ◌∙◌,
}
use ai_tgs.Exam.Rows.{QuestionType}
use ai_tgs.Questions.Rows.{QuestionOptionDto}
use ai_tgs.Questions.Validator.{
  validate, validate_objective, listed_fault, orders_of, is_correct, normalized, true_text,
  false_text, has_any,
}

module _ (lower : Text → Text) where
  -- So many options, one at each place from 1 on, one of them correct, with different texts that
  -- are not blank; for a statement, the texts are `true` and `false`.
  abbrev pub IsObjective : ℕ → Bool → List QuestionOptionDto → Type 0
  IsObjective number true_false os =
      (length os ≡ number)
      × (((p : ℕ) → in_range number p ≡ true → occurs p (orders_of os) ≡ 1)
          × ((count is_correct os ≡ 1)
              × ((has_equal_texts (normalized lower os) ≡ false)
                  × ((any is_blank (normalized lower os) ≡ false)
                      × (true_false ≡ true
                          → (includes (normalized lower os) true_text ≡ true)
                            × (includes (normalized lower os) false_text ≡ true))))))

  abbrev pub IsObjectiveOf : ℕ → Bool → Option (List QuestionOptionDto) → Type 0
  IsObjectiveOf number true_false none = ⊥
  IsObjectiveOf number true_false (some os) = IsObjective number true_false os

  abbrev pub IsAnswerable : QuestionType → Option (List QuestionOptionDto) → Type 0
  IsAnswerable QuestionType.mcq options = IsObjectiveOf 4 false options
  IsAnswerable QuestionType.true_false options = IsObjectiveOf 2 true options
  IsAnswerable _ options = has_any options ≡ false

  length-orders_of : (os : List QuestionOptionDto) → length (orders_of os) ≡ length os
  length-orders_of [] = refl
  length-orders_of (o ∷ os) = ap (λ n. suc n) (length-orders_of os)

  validate_objective-IsObjectiveOf :
      (number : ℕ) (true_false : Bool) (options : Option (List QuestionOptionDto))
      → validate_objective lower options number true_false ≡ none
      → IsObjectiveOf number true_false options
  unfolding validate_objective listed_fault
  validate_objective-IsObjectiveOf number true_false none h = cc
  validate_objective-IsObjectiveOf number true_false (some os) h =
      let size : length os ≡ number = ground (arith, h) in
      let distinct : has_duplicates (orders_of os) ≡ false = ground (arith, h) in
      let ranged : all (in_range number) (orders_of os) ≡ true = ground (arith, h) in
      (
        size,
        (
          (λ p i.
              occurs-once number p (orders_of os) (length-orders_of os ∙ size) distinct ranged i),
          (
            ground (arith, h),
            (ground (arith, h), (ground (arith, h), λ e. (ground (arith, h), ground (arith, h)))),
          ),
        ),
      )

  -- Options that the validator accepts for a type, whatever the case mapping: for MCQ four and for
  -- TRUE_FALSE two, exactly one at each place from 1 on, exactly one correct, with different
  -- normalized texts that are not blank, which for TRUE_FALSE contain `true` and `false`; for the
  -- other types none.
  pub validate-IsAnswerable :
      (type : QuestionType) (options : Option (List QuestionOptionDto))
      → validate lower type options ≡ none
      → IsAnswerable type options
  unfolding validate
  validate-IsAnswerable QuestionType.mcq options h =
      validate_objective-IsObjectiveOf 4 false options h
  validate-IsAnswerable QuestionType.true_false options h =
      validate_objective-IsObjectiveOf 2 true options h
  validate-IsAnswerable QuestionType.short options h = ground (arith, h)
  validate-IsAnswerable QuestionType.long options h = ground (arith, h)
  validate-IsAnswerable QuestionType.fill_blank options h = ground (arith, h)
