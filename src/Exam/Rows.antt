-- ===== src/Exam/Rows.antt =====
-- The rows that the test builder reads and writes (modules/tests/entities, test.enums.ts,
-- questions/enums/question.enums.ts).  Marks are hundredths, as the columns numeric(5,2) hold them.
use ai_tgs.Common.{Bool, List, Option, Text, false, true, ℕ}

pub data UserRole : Type 0 where
  teacher school_admin system_admin student : UserRole

pub record User : Type 0 where
  pub id : ℕ
  pub role : UserRole
  pub school_id : Option ℕ

abbrev pub is_system_admin : UserRole → Bool
is_system_admin UserRole.system_admin = true
is_system_admin _ = false

pub data TestStatus : Type 0 where
  draft finalized archived : TestStatus

abbrev pub is_draft : TestStatus → Bool
is_draft TestStatus.draft = true
is_draft _ = false

abbrev pub is_finalized : TestStatus → Bool
is_finalized TestStatus.finalized = true
is_finalized _ = false

abbrev pub is_archived : TestStatus → Bool
is_archived TestStatus.archived = true
is_archived _ = false

pub data QuestionType : Type 0 where
  mcq short long true_false fill_blank : QuestionType

pub data QuestionDifficulty : Type 0 where
  easy medium hard : QuestionDifficulty

pub data QuestionSource : Type 0 where
  manual ai_generated : QuestionSource

pub data QuestionReviewStatus : Type 0 where
  pending approved : QuestionReviewStatus

pub data QuestionStatus : Type 0 where
  active archived : QuestionStatus

pub data QuestionVisibility : Type 0 where
  private school global : QuestionVisibility

pub data GroundingStatus : Type 0 where
  not_applicable grounded ungrounded insufficient_evidence : GroundingStatus

abbrev pub is_approved : QuestionReviewStatus → Bool
is_approved QuestionReviewStatus.approved = true
is_approved QuestionReviewStatus.pending = false

abbrev pub is_ai : QuestionSource → Bool
is_ai QuestionSource.ai_generated = true
is_ai QuestionSource.manual = false

abbrev pub is_active_question : QuestionStatus → Bool
is_active_question QuestionStatus.active = true
is_active_question QuestionStatus.archived = false

abbrev pub is_shared_in_school : QuestionVisibility → Bool
is_shared_in_school QuestionVisibility.school = true
is_shared_in_school _ = false

pub record Question : Type 0 where
  pub id : ℕ
  pub created_by : ℕ
  pub class_id : ℕ
  pub subject_id : ℕ
  pub chapter_id : ℕ
  pub topic_id : ℕ
  pub type : QuestionType
  pub question_text : Text
  pub difficulty : QuestionDifficulty
  pub marks : ℕ
  pub explanation : Option Text
  pub source : QuestionSource
  pub review_status : QuestionReviewStatus
  pub status : QuestionStatus
  pub grounding_status : GroundingStatus
  pub generation_job_id : Option ℕ
  pub generation_job_item_id : Option ℕ
  pub retrieval_event_id : Option ℕ
  pub visibility : QuestionVisibility
  pub shared_school_id : Option ℕ
  pub published_at : Option ℕ

pub record QuestionOption : Type 0 where
  pub question_id : ℕ
  pub option_text : Text
  pub option_order : ℕ
  pub is_correct : Bool

pub record OptionSnapshot : Type 0 where
  pub option_text : Text
  pub option_order : ℕ
  pub is_correct : Bool

-- `locator` and `retrieval_score` are only copied.
pub record QuestionCitation : Type 0 where
  pub question_id : ℕ
  pub retrieval_event_id : ℕ
  pub document_version_id : ℕ
  pub content_chunk_id : ℕ
  pub locator : Text
  pub excerpt_hash : Text
  pub retrieval_score : Option ℕ
  pub citation_order : ℕ

pub record CitationSnapshot : Type 0 where
  pub document_version_id : ℕ
  pub content_chunk_id : ℕ
  pub locator : Text
  pub excerpt_hash : Text
  pub retrieval_score : Option ℕ
  pub citation_order : ℕ

pub data Answer : Type 0 where
  correct_option_orders : List ℕ → Answer
  model_answer : Text → Answer

-- What a question of a test keeps of its source question, but for its marks.
pub record Snapshot : Type 0 where
  pub type : QuestionType
  pub question_text : Text
  pub difficulty : QuestionDifficulty
  pub language : Text
  pub options : Option (List OptionSnapshot)
  pub answer : Option Answer
  pub explanation : Option Text
  pub source : QuestionSource
  pub grounding_status : GroundingStatus
  pub review_status : QuestionReviewStatus
  pub citations : Option (List CitationSnapshot)
  pub chapter_id : ℕ
  pub topic_id : ℕ

pub record TestQuestion : Type 0 where
  pub id : ℕ
  pub test_id : ℕ
  pub test_section_id : ℕ
  pub source_question_id : ℕ
  pub position : ℕ
  pub marks : ℕ
  pub snapshot : Snapshot
  pub created_at : ℕ

pub record TestSection : Type 0 where
  pub id : ℕ
  pub test_id : ℕ
  pub title : Text
  pub instructions : Option Text
  pub position : ℕ
  pub created_at : ℕ

pub record Branding : Type 0 where
  pub name : Option Text
  pub logo_storage_key : Option Text
  pub address : Option Text
  pub phone : Option Text
  pub email : Option Text
  pub website : Option Text
  pub footer : Option Text

pub record School : Type 0 where
  pub id : ℕ
  pub name : Text
  pub logo_url : Option Text
  pub address : Option Text
  pub phone : Option Text
  pub email : Option Text
  pub website : Option Text
  pub footer : Option Text

pub record ExamTest : Type 0 where
  pub id : ℕ
  pub created_by : ℕ
  pub school_id : Option ℕ
  pub class_id : ℕ
  pub section_id : Option ℕ
  pub subject_id : ℕ
  pub title : Text
  pub description : Option Text
  pub instructions : Option Text
  pub language : Text
  pub status : TestStatus
  pub duration_minutes : Option ℕ
  pub total_marks : ℕ
  pub total_questions : ℕ
  pub cloned_from_test_id : Option ℕ
  pub finalized_at : Option ℕ
  pub archived_at : Option ℕ
  pub branding_snapshot : Option Branding

-- A subject or a curriculum section, with the class that it belongs to.
pub record InClass : Type 0 where
  pub id : ℕ
  pub class_id : ℕ
