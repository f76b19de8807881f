-- ===== src/Exam/View.antt =====
-- What the test builder shows: the detail of a test (`detail`, `read`), the paper (`preview`) and
-- the answer key (`answerKey`).
use ai_tgs.Exam.Access.{lock}
use ai_tgs.Common.{
  Bool, List, Option, Text, false, gets, map, none, pure, select, some, sum_by, true, ℕ, ◌>>=◌,
  if◌then◌else◌, count, ◌>>◌, modify,
}
use ai_tgs.Exam.Rows.{
  TestStatus, QuestionSource, QuestionType, ExamTest, OptionSnapshot, Snapshot, TestQuestion, User,
  GroundingStatus, QuestionDifficulty, TestSection, QuestionReviewStatus, CitationSnapshot, Answer,
}
use ai_tgs.Exam.State.{
  ExamAction, marks_of, in_section, sort_questions, questions_of, sort_sections, sections_of,
  write_audit, AuditAction,
}

-- An option as it is shown: `is_correct` is absent on the paper.
pub record OptionView : Type 0 where
  pub option_text : Text
  pub option_order : ℕ
  pub is_correct : Option Bool

-- The fields that the paper leaves out.
pub record Provenance : Type 0 where
  pub source : QuestionSource
  pub grounding_status : GroundingStatus
  pub review_status : QuestionReviewStatus
  pub citations : Option (List CitationSnapshot)

pub record QuestionView : Type 0 where
  pub id : ℕ
  pub source_question_id : ℕ
  pub position : ℕ
  pub type : QuestionType
  pub question_text : Text
  pub marks : ℕ
  pub difficulty : QuestionDifficulty
  pub options : Option (List OptionView)
  pub provenance : Option Provenance

pub record SectionView : Type 0 where
  pub id : ℕ
  pub title : Text
  pub instructions : Option Text
  pub position : ℕ
  pub marks : ℕ
  pub questions : List QuestionView

-- `meta`; `version`, `created_at` and `updated_at` are not modelled.
pub record Meta : Type 0 where
  pub id : ℕ
  pub title : Text
  pub class_id : ℕ
  pub section_id : Option ℕ
  pub subject_id : ℕ
  pub status : TestStatus
  pub duration_minutes : Option ℕ
  pub total_marks : ℕ
  pub total_questions : ℕ
  pub finalized_at : Option ℕ

abbrev pub meta : ExamTest → Meta
meta t = record {
  id = t.id;
  title = t.title;
  class_id = t.class_id;
  section_id = t.section_id;
  subject_id = t.subject_id;
  status = t.status;
  duration_minutes = t.duration_minutes;
  total_marks = t.total_marks;
  total_questions = t.total_questions;
  finalized_at = t.finalized_at;
}

pub record Detail : Type 0 where
  pub test : Meta
  pub description : Option Text
  pub instructions : Option Text
  pub language : Text
  pub cloned_from_test_id : Option ℕ
  -- A type that no question has is absent from the code's summary, and 0 here.
  pub type_summary : QuestionType → ℕ
  pub questions : List QuestionView
  pub sections : List SectionView

abbrev pub same_type : QuestionType → QuestionType → Bool
same_type QuestionType.mcq QuestionType.mcq = true
same_type QuestionType.short QuestionType.short = true
same_type QuestionType.long QuestionType.long = true
same_type QuestionType.true_false QuestionType.true_false = true
same_type QuestionType.fill_blank QuestionType.fill_blank = true
same_type _ _ = false

abbrev pub option_view : Bool → OptionSnapshot → OptionView
option_view paper o = record {
  option_text = o.option_text;
  option_order = o.option_order;
  is_correct = if paper then none else some o.is_correct;
}

abbrev pub provenance_of : Bool → Snapshot → Option Provenance
provenance_of true x = none
provenance_of false x = some (record {
  source = x.source;
  grounding_status = x.grounding_status;
  review_status = x.review_status;
  citations = x.citations;
})

abbrev pub options_view : Bool → Option (List OptionSnapshot) → Option (List OptionView)
options_view paper none = none
options_view paper (some os) = some (map (option_view paper) os)

unfoldable pub question_view : Bool → TestQuestion → QuestionView
question_view paper q = record {
  id = q.id;
  source_question_id = q.source_question_id;
  position = q.position;
  type = q.snapshot.type;
  question_text = q.snapshot.question_text;
  marks = q.marks;
  difficulty = q.snapshot.difficulty;
  options = options_view paper q.snapshot.options;
  provenance = provenance_of paper q.snapshot;
}

unfoldable pub section_view : Bool → List TestQuestion → TestSection → SectionView
section_view paper qs x = record {
  id = x.id;
  title = x.title;
  instructions = x.instructions;
  position = x.position;
  marks = sum_by marks_of (select (in_section x.id) qs);
  questions = map (question_view paper) (select (in_section x.id) qs);
}

unfoldable pub detail : ExamTest → List TestQuestion → Bool → List TestSection → Detail
unfolding question_view section_view
detail t qs paper sections = record {
  test = meta t;
  description = t.description;
  instructions = t.instructions;
  language = t.language;
  cloned_from_test_id = t.cloned_from_test_id;
  type_summary = λ type. count (λ (q : TestQuestion). same_type q.snapshot.type type) qs;
  questions = map (question_view paper) qs;
  sections = map (section_view paper qs) sections;
}

-- `scoped`, and the two reads that `get` and `preview` share.
unfoldable pub show : Bool → ℕ → User → ExamAction Detail
show paper id user = do
  t ← lock id user
  qs ← gets (λ s. sort_questions (questions_of id s))
  sections ← gets (λ s. sort_sections (sections_of id s))
  pure (detail t qs paper sections)

unfoldable pub get : ℕ → User → ExamAction Detail
get id user = show false id user

unfoldable pub preview : ℕ → User → ExamAction Detail
preview id user = show true id user

-- A line of the answer key.
pub record AnswerView : Type 0 where
  pub position : ℕ
  pub type : QuestionType
  pub answer : Option Answer
  pub marks : ℕ
  pub explanation : Option Text

pub record SectionKey : Type 0 where
  pub section : TestSection
  pub marks : ℕ
  pub questions : List AnswerView

pub record AnswerKey : Type 0 where
  pub id : ℕ
  pub title : Text
  pub questions : List AnswerView
  pub sections : List SectionKey

abbrev pub answer_view : TestQuestion → AnswerView
answer_view q = record {
  position = q.position;
  type = q.snapshot.type;
  answer = q.snapshot.answer;
  marks = q.marks;
  explanation = q.snapshot.explanation;
}

abbrev pub section_key : List TestQuestion → TestSection → SectionKey
section_key qs x = record {
  section = x;
  marks = sum_by marks_of (select (in_section x.id) qs);
  questions = map answer_view (select (in_section x.id) qs);
}

unfoldable pub answer_key : ℕ → User → ExamAction AnswerKey
answer_key id user = do
  t ← lock id user
  qs ← gets (λ s. sort_questions (questions_of id s))
  modify (write_audit user.id AuditAction.answer_key_view id)
  sections ← gets (λ s. sort_sections (sections_of id s))
  pure (record {
    id = t.id;
    title = t.title;
    questions = map answer_view qs;
    sections = map (section_key qs) sections;
  })
