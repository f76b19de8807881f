-- ===== src/Questions/Rows.antt =====
-- The database as QuestionsService sees it, its requests and its exceptions.
use ai_tgs.Common.{Action, Bool, List, Option, Text, ℕ}
use ai_tgs.Exam.Rows.{
  Question, QuestionOption, QuestionCitation, QuestionType, QuestionDifficulty, User,
}

-- A row of `topics` joined with its chapter, subject, class and board, and whether each is ACTIVE.
pub record TopicPath : Type 0 where
  pub id : ℕ
  pub chapter_id : ℕ
  pub subject_id : ℕ
  pub class_id : ℕ
  pub topic_is_active : Bool
  pub chapter_is_active : Bool
  pub subject_is_active : Bool
  pub class_is_active : Bool
  pub board_is_active : Bool

pub data AuditAction : Type 0 where
  question_create question_ai_create question_update question_archive : AuditAction
  question_approve question_publish question_unpublish : AuditAction

pub record Audit : Type 0 where
  pub actor_id : ℕ
  pub action : AuditAction
  pub entity_id : ℕ

pub record Bank : Type 0 where
  pub topics : List TopicPath
  pub users : List User
  pub questions : List Question
  pub options : List QuestionOption
  pub citations : List QuestionCitation
  pub audits : List Audit
  pub next_id : ℕ

-- What QuestionValidatorService refuses, by its message.
pub data Fault : Type 0 where
  has_options wrong_count wrong_order not_one_correct equal_texts blank_text not_true_false : Fault

pub data BankError : Type 0 where
  hierarchy_missing topic_not_in_chapter chapter_not_in_subject subject_not_in_class : BankError
  matching_question no_access question_not_found : BankError
  may_not_update may_not_archive may_not_approve : BankError
  school_required not_shareable shared_not_found : BankError
  invalid : Fault → BankError

abbrev pub BankAction : Type 0 → Type 0
BankAction A = Action BankError Bank A

pub record QuestionOptionDto : Type 0 where
  pub option_text : Text
  pub option_order : ℕ
  pub is_correct : Bool

-- Where a question stands in the curriculum.
pub record CurriculumPath : Type 0 where
  pub topic_id : ℕ
  pub chapter_id : ℕ
  pub subject_id : ℕ
  pub class_id : ℕ

pub record CreateQuestionDto : Type 0 where
  pub path : CurriculumPath
  pub type : QuestionType
  pub question_text : Text
  pub difficulty : QuestionDifficulty
  pub marks : ℕ
  pub explanation : Option Text
  pub options : Option (List QuestionOptionDto)

-- `none` is a field that the request leaves out.
pub record UpdateQuestionDto : Type 0 where
  pub topic_id : Option ℕ
  pub chapter_id : Option ℕ
  pub subject_id : Option ℕ
  pub class_id : Option ℕ
  pub type : Option QuestionType
  pub question_text : Option Text
  pub difficulty : Option QuestionDifficulty
  pub marks : Option ℕ
  pub explanation : Option Text
  pub options : Option (List QuestionOptionDto)

pub record GeneratedCitation : Type 0 where
  pub content_chunk_id : ℕ
  pub document_version_id : ℕ
  pub locator : Text
  pub content_hash : Text
  pub score : ℕ

-- The input of `createGenerated`.
pub record GeneratedQuestion : Type 0 where
  pub path : CurriculumPath
  pub type : QuestionType
  pub question_text : Text
  pub difficulty : QuestionDifficulty
  pub marks : ℕ
  pub explanation : Option Text
  pub options : List QuestionOptionDto
  pub generation_job_id : ℕ
  pub generation_job_item_id : ℕ
  pub retrieval_event_id : ℕ
  pub citations : List GeneratedCitation
