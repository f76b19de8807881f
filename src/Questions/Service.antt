-- ===== src/Questions/Service.antt =====
-- The methods of QuestionsService that change the bank.  The database's normal form of a
-- question's text (`lower(regexp_replace(btrim(text), '\s+', ' ', 'g'))`) is the parameter
-- `db_text`, the case mapping of the validator the parameter `lower`.
use ai_tgs.Questions.Store.{
  scoped, QuestionResponse, validate_path, set_question, is_id, or_throw_fault, path_of,
  write_audit, insert_question, options_of, find_question, created_question, generated_question,
  next_options, replace_options, updated_question, citation_rows, replaces_options,
}
use ai_tgs.Common.{
  Bool, Option, Text, [], any, find, gets, modify, none, not, or_throw, pure, same_text, some,
  throw_if, true, ℕ, ◌==◌, ◌&&◌, ◌++◌, ◌>>=◌, ◌>>◌, if◌then◌else◌,
}
use ai_tgs.Exam.Rows.{
  Question, QuestionReviewStatus, QuestionStatus, QuestionVisibility, User, is_system_admin,
  is_approved, is_active_question, is_shared_in_school, is_ai,
}
use ai_tgs.Exam.Access.{same_id}
use ai_tgs.Exam.Edit.{or_else}
use ai_tgs.Questions.Rows.{
  BankAction, BankError, CreateQuestionDto, UpdateQuestionDto, GeneratedQuestion, AuditAction,
}
use ai_tgs.Questions.Validator.{validate}

unfoldable pub archive : ℕ → User → BankAction (Unit {0})
archive id user = do
  q ← scoped id user true
  throw_if (not (is_system_admin user.role) && is_ai q.source) BankError.may_not_archive
  modify (set_question id (λ x. record x { status = QuestionStatus.archived }))
  modify (write_audit user.id AuditAction.question_archive id)

unfoldable pub approve : ℕ → User → BankAction (Unit {0})
approve id user = do
  q ← scoped id user true
  throw_if (not (is_system_admin user.role) && not (q.created_by == user.id))
      BankError.may_not_approve
  if is_approved q.review_status then pure tt else do
    modify (set_question id (λ x. record x { review_status = QuestionReviewStatus.approved }))
    modify (write_audit user.id AuditAction.question_approve id)

-- The creator is of the school.
abbrev pub is_colleague : ℕ → ℕ → User → Bool
is_colleague school creator u = u.id == creator && same_id u.school_id school

unfoldable pub publish_to_school : ℕ → ℕ → User → BankAction QuestionResponse
publish_to_school now id user = do
  school ← or_throw user.school_id BankError.school_required
  users ← gets (λ s. s.users)
  q ←
      or_throw
        (← gets
          (λ s. find (λ q. is_id id q && any (is_colleague school q.created_by) users) s.questions))
        BankError.question_not_found
  throw_if (not (is_active_question q.status && is_approved q.review_status))
      BankError.not_shareable
  modify (
      set_question id (λ x. record x {
        visibility = QuestionVisibility.school;
        shared_school_id = some school;
        published_at = some now;
      }))
  modify (write_audit user.id AuditAction.question_publish id)
  find_question id user

unfoldable pub unpublish_from_school : ℕ → User → BankAction (Unit {0})
unpublish_from_school id user = do
  school ← or_throw user.school_id BankError.school_required
  q ←
      or_throw
        (← gets (λ s.
          find
            (λ q.
              is_id id q && (same_id q.shared_school_id school && is_shared_in_school q.visibility))
            s.questions))
        BankError.shared_not_found
  modify (
      set_question id (λ x. record x {
        visibility = QuestionVisibility.private;
        shared_school_id = none;
        published_at = none;
      }))
  modify (write_audit user.id AuditAction.question_unpublish id)

-- `excludeId`
abbrev pub is_other : Option ℕ → Question → Bool
is_other none q = true
is_other (some id) q = not (q.id == id)

module _ (db_text : Text → Text) where
  abbrev pub matches : ℕ → ℕ → Text → Question → Bool
  matches owner topic text q =
      q.created_by == owner
      && (q.topic_id == topic
          && (is_active_question q.status && same_text (db_text q.question_text) (db_text text)))

  unfoldable pub ensure_no_duplicate : ℕ → ℕ → Text → Option ℕ → BankAction (Unit {0})
  ensure_no_duplicate owner topic text exclude = do
    found ← gets (λ s. any (λ q. matches owner topic text q && is_other exclude q) s.questions)
    throw_if found BankError.matching_question

module _ (lower db_text : Text → Text) where
  unfoldable pub create : CreateQuestionDto → User → BankAction (Unit {0})
  create dto user = do
    validate_path dto.path
    or_throw_fault (validate lower dto.type dto.options)
    ensure_no_duplicate db_text user.id dto.path.topic_id dto.question_text none
    id ← gets (λ s. s.next_id)
    modify (insert_question (created_question dto user id))
    modify (replace_options id (or_else dto.options []))
    modify (write_audit user.id AuditAction.question_create id)

  unfoldable pub create_generated : GeneratedQuestion → User → BankAction (Unit {0})
  create_generated input user = do
    validate_path input.path
    or_throw_fault (validate lower input.type (some input.options))
    ensure_no_duplicate db_text user.id input.path.topic_id input.question_text none
    id ← gets (λ s. s.next_id)
    modify (insert_question (generated_question input user id))
    modify (replace_options id input.options)
    modify (λ s. record s {
      citations = s.citations ++ citation_rows id input.retrieval_event_id 1 input.citations;
    })
    modify (write_audit user.id AuditAction.question_ai_create id)

  unfoldable pub update_question : ℕ → UpdateQuestionDto → User → BankAction (Unit {0})
  update_question id dto user = do
    current ← scoped id user true
    throw_if (not (is_system_admin user.role) && is_ai current.source) BankError.may_not_update
    let path = path_of dto current
    validate_path path
    options ← gets (options_of id)
    let next = next_options dto current options
    or_throw_fault (validate lower (or_else dto.type current.type) (some next))
    let text = or_else dto.question_text current.question_text
    ensure_no_duplicate db_text current.created_by path.topic_id text (some id)
    modify (set_question id (updated_question dto current))
    modify (if replaces_options dto current then replace_options id next else (λ s. s))
    modify (write_audit user.id AuditAction.question_update id)
