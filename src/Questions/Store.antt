-- ===== src/Questions/Store.antt =====
-- The statements and the reads of QuestionsService.
use ai_tgs.Common.{
  Bool, List, Option, [], false, find, gets, map, none, not, or_throw, pure, select, some, suc,
  throw, throw_if, trim, true, update, ℕ, ◌==◌, ◌&&◌, ◌||◌, ◌++◌, ◌∷◌, ◌>>=◌, ◌>>◌, if◌then◌else◌,
  trimmed_or_null,
}
use ai_tgs.Exam.Rows.{
  Question, QuestionOption, QuestionCitation, QuestionType, QuestionSource, QuestionReviewStatus,
  QuestionStatus, QuestionVisibility, GroundingStatus, User, is_system_admin, is_active_question,
}
use ai_tgs.Exam.Access.{shared_with}
use ai_tgs.Exam.Snapshots.{sort_options}
use ai_tgs.Exam.Edit.{or_else, or_old_trimmed}
use ai_tgs.Questions.Rows.{
  Bank, BankAction, BankError, TopicPath, CurriculumPath, Fault, QuestionOptionDto,
  CreateQuestionDto, UpdateQuestionDto, GeneratedQuestion, GeneratedCitation, AuditAction,
}

abbrev pub is_id : ℕ → Question → Bool
is_id id q = q.id == id

abbrev pub option_of : ℕ → QuestionOption → Bool
option_of id o = o.question_id == id

unfoldable pub write_audit : ℕ → AuditAction → ℕ → Bank → Bank
write_audit actor action id s = record s {
  audits = s.audits ++ (record { actor_id = actor; action = action; entity_id = id }) ∷ [];
}

-- The row that the joined query finds.
abbrev pub is_active_path : ℕ → TopicPath → Bool
is_active_path topic t =
    t.id == topic
    && (t.topic_is_active
        && (t.chapter_is_active
            && (t.subject_is_active && (t.class_is_active && t.board_is_active))))

unfoldable pub validate_path : CurriculumPath → BankAction (Unit {0})
validate_path path = do
  topic ←
      or_throw (← gets (λ s. find (is_active_path path.topic_id) s.topics))
        BankError.hierarchy_missing
  throw_if (not (topic.chapter_id == path.chapter_id)) BankError.topic_not_in_chapter
  throw_if (not (topic.subject_id == path.subject_id)) BankError.chapter_not_in_subject
  throw_if (not (topic.class_id == path.class_id)) BankError.subject_not_in_class

abbrev pub or_throw_fault : Option Fault → BankAction (Unit {0})
or_throw_fault none = pure tt
or_throw_fault (some f) = throw (BankError.invalid f)

-- `scope`: what a user sees of the bank.
abbrev pub is_visible : User → Question → Bool
is_visible user q =
    is_system_admin user.role || (q.created_by == user.id || shared_with q user.school_id)

-- The question of `scoped`, or the exception of its second look-up.
abbrev pub refusal : User → Option Question → BankError
refusal user none = BankError.question_not_found
refusal user (some q) =
    if not (is_system_admin user.role) && not (q.created_by == user.id)
    then BankError.no_access
    else BankError.question_not_found

unfoldable pub scoped : ℕ → User → Bool → BankAction Question
scoped id user active_only = do
  existing ← gets (λ s. find (is_id id) s.questions)
  or_throw
      (← gets (λ s.
        find
          (λ q.
            is_id id q && (is_visible user q && (not active_only || is_active_question q.status)))
          s.questions))
      (refusal user existing)

-- The options of a question by their order.
abbrev pub options_of : ℕ → Bank → List QuestionOption
options_of id s = sort_options (select (option_of id) s.options)

-- What `response` gives of a question.
pub record QuestionResponse : Type 0 where
  pub question : Question
  pub options : List QuestionOption

unfoldable pub find_question : ℕ → User → BankAction QuestionResponse
find_question id user = do
  q ← scoped id user true
  options ← gets (options_of id)
  pure (record { question = q; options = options })

abbrev pub option_row : ℕ → QuestionOptionDto → QuestionOption
option_row id o = record {
  question_id = id;
  option_text = trim o.option_text;
  option_order = o.option_order;
  is_correct = o.is_correct;
}

unfoldable pub replace_options : ℕ → List QuestionOptionDto → Bank → Bank
replace_options id options s = record s {
  options = select (λ o. not (option_of id o)) s.options ++ map (option_row id) options;
}

abbrev pub option_dto : QuestionOption → QuestionOptionDto
option_dto o = record {
  option_text = o.option_text;
  option_order = o.option_order;
  is_correct = o.is_correct;
}

abbrev pub created_question : CreateQuestionDto → User → ℕ → Question
created_question dto user id = record {
  id = id;
  created_by = user.id;
  class_id = dto.path.class_id;
  subject_id = dto.path.subject_id;
  chapter_id = dto.path.chapter_id;
  topic_id = dto.path.topic_id;
  type = dto.type;
  question_text = trim dto.question_text;
  difficulty = dto.difficulty;
  marks = dto.marks;
  explanation = trimmed_or_null dto.explanation;
  source = QuestionSource.manual;
  review_status = QuestionReviewStatus.approved;
  status = QuestionStatus.active;
  grounding_status = GroundingStatus.not_applicable;
  generation_job_id = none;
  generation_job_item_id = none;
  retrieval_event_id = none;
  visibility = QuestionVisibility.private;
  shared_school_id = none;
  published_at = none;
}

abbrev pub generated_question : GeneratedQuestion → User → ℕ → Question
generated_question input user id = record {
  id = id;
  created_by = user.id;
  class_id = input.path.class_id;
  subject_id = input.path.subject_id;
  chapter_id = input.path.chapter_id;
  topic_id = input.path.topic_id;
  type = input.type;
  question_text = trim input.question_text;
  difficulty = input.difficulty;
  marks = input.marks;
  explanation = input.explanation;
  source = QuestionSource.ai_generated;
  review_status = QuestionReviewStatus.pending;
  status = QuestionStatus.active;
  grounding_status = GroundingStatus.grounded;
  generation_job_id = some input.generation_job_id;
  generation_job_item_id = some input.generation_job_item_id;
  retrieval_event_id = some input.retrieval_event_id;
  visibility = QuestionVisibility.private;
  shared_school_id = none;
  published_at = none;
}

-- The citations in their order, from a number on.
abbrev pub citation_rows : ℕ → ℕ → ℕ → List GeneratedCitation → List QuestionCitation
citation_rows id event order [] = []
citation_rows id event order (c ∷ cs) =
    record {
      question_id = id;
      retrieval_event_id = event;
      document_version_id = c.document_version_id;
      content_chunk_id = c.content_chunk_id;
      locator = c.locator;
      excerpt_hash = c.content_hash;
      retrieval_score = some c.score;
      citation_order = order;
    }
    ∷ citation_rows id event (suc order) cs

-- INSERT INTO questions, with the next id.
unfoldable pub insert_question : Question → Bank → Bank
insert_question q s = record s { questions = s.questions ++ q ∷ []; next_id = suc s.next_id }

unfoldable pub set_question : ℕ → (Question → Question) → Bank → Bank
set_question id f s = record s { questions = update (is_id id) f s.questions }

abbrev pub path_of : UpdateQuestionDto → Question → CurriculumPath
path_of dto q = record {
  topic_id = or_else dto.topic_id q.topic_id;
  chapter_id = or_else dto.chapter_id q.chapter_id;
  subject_id = or_else dto.subject_id q.subject_id;
  class_id = or_else dto.class_id q.class_id;
}

abbrev pub same_type : QuestionType → QuestionType → Bool
same_type QuestionType.mcq QuestionType.mcq = true
same_type QuestionType.short QuestionType.short = true
same_type QuestionType.long QuestionType.long = true
same_type QuestionType.true_false QuestionType.true_false = true
same_type QuestionType.fill_blank QuestionType.fill_blank = true
same_type _ _ = false

-- `dto.type !== undefined && dto.type !== current.type`
abbrev pub changes_type : UpdateQuestionDto → Question → Bool
changes_type dto q = not (same_type (or_else dto.type q.type) q.type)

abbrev pub next_options :
    UpdateQuestionDto → Question → List QuestionOption → List QuestionOptionDto
next_options dto q current = elim dto.options [
  | some os ↦ os
  | none ↦ if changes_type dto q then [] else map option_dto current
]

abbrev pub updated_question : UpdateQuestionDto → Question → Question → Question
updated_question dto current q = record q {
  topic_id = (path_of dto current).topic_id;
  chapter_id = (path_of dto current).chapter_id;
  subject_id = (path_of dto current).subject_id;
  class_id = (path_of dto current).class_id;
  type = or_else dto.type q.type;
  question_text = trim (or_else dto.question_text current.question_text);
  difficulty = or_else dto.difficulty q.difficulty;
  marks = or_else dto.marks q.marks;
  explanation = or_old_trimmed dto.explanation current.explanation;
}

-- `options !== undefined || typeChanged`
abbrev pub replaces_options : UpdateQuestionDto → Question → Bool
replaces_options dto q = elim dto.options [ some os ↦ true | none ↦ changes_type dto q ]
