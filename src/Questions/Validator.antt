-- ===== src/Questions/Validator.antt =====
-- QuestionValidatorService (modules/questions/question-validator.service.ts).  The case mapping of
-- `toLocaleLowerCase` is the parameter `lower`.
use ai_tgs.Common.{
  Bool, List, Option, Text, [], all, any, collapse, count, false, has_equal_texts, includes,
  is_blank, length, map, none, not, some, trim, true, ℕ, ◌==◌, ◌&&◌, ◌||◌, ◌∷◌, if◌then◌else◌,
  has_duplicates, in_range,
}
use ai_tgs.Exam.Rows.{QuestionType}
use ai_tgs.Questions.Rows.{QuestionOptionDto, Fault}

-- 'true' and 'false'
abbrev pub true_text : Text
true_text = 116 ∷ 114 ∷ 117 ∷ 101 ∷ []

abbrev pub false_text : Text
false_text = 102 ∷ 97 ∷ 108 ∷ 115 ∷ 101 ∷ []

abbrev pub orders_of : List QuestionOptionDto → List ℕ
orders_of os = map (λ (o : QuestionOptionDto). o.option_order) os

abbrev pub is_correct : QuestionOptionDto → Bool
is_correct o = o.is_correct

-- `options?.length`
abbrev pub has_any : Option (List QuestionOptionDto) → Bool
has_any none = false
has_any (some []) = false
has_any (some (o ∷ os)) = true

module _ (lower : Text → Text) where
  -- `o.optionText.trim().replace(/\s+/g, ' ').toLocaleLowerCase()`
  abbrev pub normalized : List QuestionOptionDto → List Text
  normalized os = map (λ (o : QuestionOptionDto). lower (collapse (trim o.option_text))) os

  -- The tests after that of the number of options, in the order of the code.  The number of orders
  -- and of texts is `number` there, so a smaller set means equal members.
  unfoldable pub listed_fault : ℕ → Bool → List QuestionOptionDto → Option Fault
  listed_fault number true_false os =
      if has_duplicates (orders_of os) || not (all (in_range number) (orders_of os))
      then some Fault.wrong_order
      else if not (count is_correct os == 1)
      then some Fault.not_one_correct
      else if has_equal_texts (normalized os)
      then some Fault.equal_texts
      else if any is_blank (normalized os)
      then some Fault.blank_text
      else if true_false
          && not (includes (normalized os) true_text && includes (normalized os) false_text)
      then some Fault.not_true_false
      else none

  unfoldable pub validate_objective : Option (List QuestionOptionDto) → ℕ → Bool → Option Fault
  unfolding listed_fault
  validate_objective none number true_false = some Fault.wrong_count
  validate_objective (some os) number true_false =
      if not (length os == number)
      then some Fault.wrong_count
      else listed_fault number true_false os

  -- `none` where the code returns, and the exception where it throws.
  unfoldable pub validate : QuestionType → Option (List QuestionOptionDto) → Option Fault
  unfolding validate_objective
  validate QuestionType.mcq options = validate_objective options 4 false
  validate QuestionType.true_false options = validate_objective options 2 true
  validate _ options = if has_any options then some Fault.has_options else none
