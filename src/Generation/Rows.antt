-- ===== src/Generation/Rows.antt =====
-- The request of a generation and its units (dto/generation.dto.ts, generation.contracts.ts).
use ai_tgs.Common.{List, Option, ℕ}
use ai_tgs.Exam.Rows.{QuestionType, QuestionDifficulty}

pub record DifficultyCountsDto : Type 0 where
  pub easy : ℕ
  pub medium : ℕ
  pub hard : ℕ

pub record QuestionMixDto : Type 0 where
  pub type : QuestionType
  pub count : ℕ
  pub difficulty : DifficultyCountsDto

-- A unit after `resolveAllTopics`, which reads and clears `allTopics`.
pub record GenerationUnitDto : Type 0 where
  pub chapter_id : ℕ
  pub topic_id : Option ℕ
  pub question_mix : List QuestionMixDto

-- A number with decimals as a fraction, the second part positive.
pub record Fraction : Type 0 where
  pub numerator : ℕ
  pub denominator : ℕ

-- What the expansion reads of CreateGenerationDto.
pub record CreateGenerationDto : Type 0 where
  pub units : List GenerationUnitDto
  pub target_marks : Option Fraction

pub record GenerationUnit : Type 0 where
  pub topic_id : ℕ
  pub chapter_id : ℕ
  pub type : QuestionType
  pub difficulty : QuestionDifficulty
  pub count : ℕ

pub data GenerationError : Type 0 where
  difficulty_counts topic_not_resolved repeated_topic_and_type no_question : GenerationError
  exceeds_maximum target_marks_differ : GenerationError
