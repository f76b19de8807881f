-- ===== src/Generation/Tests.antt =====
-- The expansion of a request for two topics.
use ai_tgs.Common.{◌+◌, List, [], ok, refl, some, ℕ, ◌≡◌, ◌∷◌, err}
use ai_tgs.Exam.Rows.{QuestionType, QuestionDifficulty}
use ai_tgs.Generation.Rows.{
  QuestionMixDto, GenerationUnitDto, CreateGenerationDto, GenerationUnit, GenerationError,
}
use ai_tgs.Generation.Expander.{expand, expand_units, expand_mixes}
use ai_tgs.Generation.Asked.{IfOk}
use ai_tgs.Generation.Expansion.{IsExpansion, expand-IsExpansion}

abbrev mix : QuestionType → ℕ → ℕ → QuestionMixDto
mix type easy hard = record {
  type = type;
  count = easy + hard;
  difficulty = record { easy = easy; medium = 0; hard = hard };
}

abbrev unit : ℕ → List QuestionMixDto → GenerationUnitDto
unit topic mixes = record { chapter_id = 1; topic_id = some topic; question_mix = mixes }

abbrev request : CreateGenerationDto
request = record {
  units =
      unit 8 (mix QuestionType.mcq 2 1 ∷ mix QuestionType.long 0 1 ∷ [])
      ∷ unit 7 (mix QuestionType.mcq 1 0 ∷ [])
      ∷ [];
  target_marks = some (record { numerator = 18; denominator = 2 });
}

abbrev unit_of : ℕ → QuestionType → QuestionDifficulty → ℕ → GenerationUnit
unit_of topic type difficulty count = record {
  topic_id = topic;
  chapter_id = 1;
  type = type;
  difficulty = difficulty;
  count = count;
}

abbrev request_units : List GenerationUnit
request_units =
    unit_of 7 QuestionType.mcq QuestionDifficulty.easy 1
    ∷ unit_of 8 QuestionType.long QuestionDifficulty.hard 1
    ∷ unit_of 8 QuestionType.mcq QuestionDifficulty.easy 2
    ∷ unit_of 8 QuestionType.mcq QuestionDifficulty.hard 1
    ∷ []

expand-request : expand 10 request ≡ ok request_units
unfolding expand expand_units expand_mixes
expand-request = refl

expand-within_four : expand 4 request ≡ err GenerationError.exceeds_maximum
unfolding expand expand_units expand_mixes
expand-within_four = refl

expand-IsExpansion_example : IfOk (IsExpansion 10 request) (expand 10 request)
expand-IsExpansion_example = expand-IsExpansion 10 request
