-- ===== src/Exam/Edit.antt =====
-- TestsService.create, update, add, bulk, remove, refresh and archive.  Each returns nothing here;
-- the response of the code is read from the state that it leaves.
use ai_tgs.Exam.Snapshots.{from_question}
use ai_tgs.Exam.Access.{validate_scope, lock, draft, eligible}
use ai_tgs.Common.{
  Bool, List, Option, Text, [], any, false, find, gets, length, map, modify, none, not, or_null,
  or_throw, pure, select, some, suc, throw_if, trim, trimmed_or_null, true, update, ℕ, ◌+◌, ◌==◌,
  ◌&&◌, ◌||◌, ◌++◌, ◌∷◌, ◌>>=◌, ◌>>◌, if◌then◌else◌, has_duplicates, is_one_of,
}
use ai_tgs.Exam.Rows.{
  Question, User, TestSection, ExamTest, TestQuestion, Snapshot, TestStatus, is_archived,
}
use ai_tgs.Exam.State.{
  State, ExamAction, sort_sections, sections_of, unique_violation, question_not_found, write_audit,
  is_section_of, AuditAction, set_test, duplicate_question_ids, test_question_not_found,
  test_section_not_found, in_test, normalize, source_question_not_found, in_section,
  question_already_in_test, is_question, totals,
}

pub record CreateTestDto : Type 0 where
  pub title : Text
  pub class_id : ℕ
  pub section_id : Option ℕ
  pub subject_id : ℕ
  pub language : Text
  pub duration_minutes : Option ℕ
  pub instructions : Option Text
  pub description : Option Text

-- `none` is a field that the request leaves out.
pub record UpdateTestDto : Type 0 where
  pub title : Option Text
  pub instructions : Option Text
  pub description : Option Text
  pub duration_minutes : Option ℕ
  pub language : Option Text
  pub section_id : Option ℕ

pub record AddQuestionDto : Type 0 where
  pub question_id : ℕ
  pub position : Option ℕ
  pub marks : Option ℕ
  pub test_section_id : Option ℕ

abbrev pub or_else {ℓ} : {A : Type ℓ} → Option A → A → A
or_else none a = a
or_else (some b) a = b

abbrev pub or_old {ℓ} : {A : Type ℓ} → Option A → Option A → Option A
or_old none old = old
or_old (some a) old = some a

-- `dto.x === undefined ? t.x : dto.x.trim() || null`
abbrev pub or_old_trimmed : Option Text → Option Text → Option Text
or_old_trimmed none old = old
or_old_trimmed (some s) old = or_null (trim s)

abbrev pub new_test : CreateTestDto → User → ℕ → ExamTest
new_test dto user id = record {
  id = id;
  created_by = user.id;
  school_id = user.school_id;
  class_id = dto.class_id;
  section_id = dto.section_id;
  subject_id = dto.subject_id;
  title = dto.title;
  description = trimmed_or_null dto.description;
  instructions = trimmed_or_null dto.instructions;
  language = dto.language;
  status = TestStatus.draft;
  duration_minutes = dto.duration_minutes;
  total_marks = 0;
  total_questions = 0;
  cloned_from_test_id = none;
  finalized_at = none;
  archived_at = none;
  branding_snapshot = none;
}

-- 'Questions'
abbrev pub first_title : Text
first_title = 81 ∷ 117 ∷ 101 ∷ 115 ∷ 116 ∷ 105 ∷ 111 ∷ 110 ∷ 115 ∷ []

-- The unique keys (test_section_id, position) and (test_id, source_question_id).
abbrev pub collides : TestQuestion → TestQuestion → Bool
collides q x =
    x.test_section_id == q.test_section_id && x.position == q.position
    || (x.test_id == q.test_id && x.source_question_id == q.source_question_id)

abbrev pub plain : ℕ → AddQuestionDto
plain q = record { question_id = q; position = none; marks = none; test_section_id = none }

abbrev pub is_member : ℕ → ℕ → TestQuestion → Bool
is_member id test q = q.id == id && q.test_id == test

-- `Object.assign(tq, snapshot)`, which keeps the marks.
abbrev pub with_snapshot : Question → Snapshot → TestQuestion → TestQuestion
with_snapshot q snapshot x = record x { source_question_id = q.id; snapshot = snapshot }

unfoldable pub insert_row : (ℕ → TestQuestion) → ExamAction (Unit {0})
insert_row row = do
  id ← gets (λ s. s.next_id)
  rows ← gets (λ s. s.test_questions)
  throw_if (any (collides (row id)) rows) unique_violation
  modify
      (λ s. record s { test_questions = s.test_questions ++ row id ∷ []; next_id = suc s.next_id })

-- A field of the DTO that is absent is `none`; an explicit null is not represented.
abbrev pub with_dto : UpdateTestDto → ExamTest → ExamTest
with_dto dto t = record t {
  title = or_else dto.title t.title;
  instructions = or_old_trimmed dto.instructions t.instructions;
  description = or_old_trimmed dto.description t.description;
  duration_minutes = or_old dto.duration_minutes t.duration_minutes;
  language = or_else dto.language t.language;
  section_id = or_old dto.section_id t.section_id;
}

-- `if (dto.sectionId !== undefined) await this.validateScope(…)`
abbrev pub validate_section : ExamTest → Option ℕ → ExamAction (Unit {0})
validate_section t none = pure tt
validate_section t (some section) = validate_scope t.class_id (some section) t.subject_id

-- The section of a new question: the one that is named, if it is the test's, or the first.
abbrev pub target_section : ℕ → Option ℕ → State → Option TestSection
target_section test none s = find (λ _. true) (sort_sections (sections_of test s))
target_section test (some section) s = find (is_section_of section test) s.sections

unfoldable pub update_test : ℕ → UpdateTestDto → User → ExamAction (Unit {0})
update_test id dto user = do
  t ← lock id user
  draft t
  validate_section t dto.section_id
  modify (set_test id (with_dto dto))
  modify (write_audit user.id AuditAction.test_update id)

unfoldable pub remove : ℕ → ℕ → User → ExamAction (Unit {0})
remove id question user = do
  t ← lock id user
  draft t
  rows ← gets (λ s. s.test_questions)
  throw_if (not (any (is_member question id) rows)) test_question_not_found
  modify (λ s. record s {
    test_questions = select (λ q. not (is_member question id q)) s.test_questions;
  })
  modify (normalize id)
  modify (write_audit user.id AuditAction.question_remove id)

unfoldable pub refresh : ℕ → ℕ → User → ExamAction (Unit {0})
refresh id question user = do
  t ← lock id user
  draft t
  tq ←
      or_throw (← gets (λ s. find (is_member question id) s.test_questions)) test_question_not_found
  q ←
      or_throw (← gets (λ s. find (λ (x : Question). x.id == tq.source_question_id) s.questions))
        source_question_not_found
  eligible q t user false
  snapshot ← gets (from_question q t.language)
  modify (λ s. record s {
    test_questions = update (is_question tq.id) (with_snapshot q snapshot) s.test_questions;
  })
  modify (totals id)

module _ (now : ℕ) where
  abbrev pub new_section : ℕ → Text → Option Text → ℕ → ℕ → TestSection
  new_section test title instructions position id = record {
    id = id;
    test_id = test;
    title = title;
    instructions = instructions;
    position = position;
    created_at = now;
  }

  -- INSERT INTO tests, and its first section.
  unfoldable pub insert_test : CreateTestDto → User → State → State
  insert_test dto user s = record s {
    tests = s.tests ++ new_test dto user s.next_id ∷ [];
    sections = s.sections ++ new_section s.next_id first_title none 1 (s.next_id + 1) ∷ [];
    next_id = s.next_id + 2;
  }

  unfoldable pub create : CreateTestDto → User → ExamAction (Unit {0})
  create dto user = do
    validate_scope dto.class_id dto.section_id dto.subject_id
    id ← gets (λ s. s.next_id)
    modify (insert_test dto user)
    modify (write_audit user.id AuditAction.test_create id)

  abbrev pub new_question :
      ExamTest → AddQuestionDto → Question → Snapshot → ℕ → ℕ → ℕ → TestQuestion
  new_question t input q snapshot section position id = record {
    id = id;
    test_id = t.id;
    test_section_id = section;
    source_question_id = q.id;
    position = position;
    marks = or_else input.marks q.marks;
    snapshot = snapshot;
    created_at = now;
  }

  -- The body of the loop of `addMany`; `found` are the questions that were read before it.
  unfoldable pub add_one : ExamTest → User → List Question → AddQuestionDto → ExamAction (Unit {0})
  add_one t user found input = do
    q ← or_throw (find (λ x. x.id == input.question_id) found) question_not_found
    eligible q t user false
    snapshot ← gets (from_question q t.language)
    section ← or_throw (← gets (target_section t.id input.test_section_id)) test_section_not_found
    filled ← gets (λ s. length (select (in_section section.id) s.test_questions))
    insert_row (new_question t input q snapshot section.id (or_else input.position (filled + 1)))

  unfoldable pub add_all :
      ExamTest → User → List Question → List AddQuestionDto → ExamAction (Unit {0})
  add_all t user found [] = pure tt
  add_all t user found (input ∷ inputs) = add_one t user found input >> add_all t user found inputs

  unfoldable pub add_many : ℕ → List AddQuestionDto → User → ExamAction (Unit {0})
  add_many id items user = do
    t ← lock id user
    draft t
    let ids = map (λ (x : AddQuestionDto). x.question_id) items
    throw_if (has_duplicates ids) duplicate_question_ids
    found ← gets (λ s. select (λ (q : Question). is_one_of ids q.id) s.questions)
    throw_if (not (length found == length ids)) question_not_found
    rows ← gets (λ s. s.test_questions)
    throw_if (any (λ x. in_test id x && is_one_of ids x.source_question_id) rows)
        question_already_in_test
    add_all t user found items
    modify (normalize id)
    modify (write_audit user.id AuditAction.question_add id)

  unfoldable pub add : ℕ → AddQuestionDto → User → ExamAction (Unit {0})
  add id dto user = add_many id (dto ∷ []) user

  unfoldable pub bulk : ℕ → List ℕ → User → ExamAction (Unit {0})
  bulk id ids user = add_many id (map plain ids) user

  unfoldable pub archive : ℕ → User → ExamAction (Unit {0})
  archive id user = do
    t ← lock id user
    if is_archived t.status then pure tt else do
      modify (set_test id (λ x. record x { status = TestStatus.archived; archived_at = some now }))
      modify (write_audit user.id AuditAction.test_archive id)
