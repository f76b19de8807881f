-- ===== src/Exam/State.antt =====
-- The database as the test builder sees it, and its statements.
use ai_tgs.Common.{
  Action, Bool, List, [], leb, length, ltb, select, sum_by, update, ℕ, ◌+◌, ◌==◌, ◌&&◌, ◌||◌, ◌++◌,
  ◌∷◌, if◌then◌else◌,
}
use ai_tgs.Exam.Rows.{
  Question, ExamTest, TestQuestion, TestSection, QuestionOption, QuestionCitation, School, InClass,
}
use ai_tgs.Entitlement.{SubscriptionRow, EntitlementError}
use ai_tgs.Usage.Rows.{UsageError}
use ai_tgs.Usage.Rows

pub data AuditAction : Type 0 where
  test_create test_update question_add question_reorder question_remove : AuditAction
  test_finalize test_clone test_archive answer_key_view : AuditAction
  section_create section_update section_delete section_reorder section_assign : AuditAction

pub record Audit : Type 0 where
  pub actor_id : ℕ
  pub action : AuditAction
  pub entity_id : ℕ

pub record State : Type 0 where
  pub tests : List ExamTest
  pub sections : List TestSection
  pub test_questions : List TestQuestion
  pub questions : List Question
  pub options : List QuestionOption
  pub citations : List QuestionCitation
  pub schools : List School
  pub classes : List ℕ
  pub subjects : List InClass
  pub class_sections : List InClass
  pub audits : List Audit
  pub usage : Rows.Db
  pub subscriptions : List SubscriptionRow
  pub next_id : ℕ

-- The exceptions of the two services, by their message, and the database's refusals.
pub data ExamError : Type 0 where
  test_not_found not_permitted only_draft_is_mutable : ExamError
  subject_not_in_class section_not_in_class : ExamError
  duplicate_question_ids question_not_found question_already_in_test : ExamError
  test_section_not_found full_unique_reorder_required : ExamError
  test_question_not_found source_question_not_found : ExamError
  belongs_to_another_teacher question_not_active incompatible_curriculum : ExamError
  approval_required needs_a_question sections_not_contiguous questions_not_contiguous : ExamError
  source_unavailable : ExamError
  test_of_another_teacher only_draft_may_change : ExamError
  section_position_out_of_range section_not_empty needs_a_section : ExamError
  full_unique_section_reorder_required section_not_of_test : ExamError
  question_position_out_of_range : ExamError
  entitlement : EntitlementError → ExamError
  usage : UsageError → ExamError
  unique_violation not_null_violation value_too_long : ExamError

abbrev pub ExamAction : Type 0 → Type 0
ExamAction A = Action ExamError State A

abbrev pub is_test : ℕ → ExamTest → Bool
is_test id t = t.id == id

abbrev pub in_test : ℕ → TestQuestion → Bool
in_test id q = q.test_id == id

abbrev pub is_question : ℕ → TestQuestion → Bool
is_question id q = q.id == id

abbrev pub in_section : ℕ → TestQuestion → Bool
in_section id q = q.test_section_id == id

abbrev pub section_in_test : ℕ → TestSection → Bool
section_in_test id s = s.test_id == id

abbrev pub is_section_of : ℕ → ℕ → TestSection → Bool
is_section_of id test s = s.id == id && s.test_id == test

-- A row is saved by its id.
unfoldable pub set_test : ℕ → (ExamTest → ExamTest) → State → State
set_test id f s = record s { tests = update (is_test id) f s.tests }

unfoldable pub write_audit : ℕ → AuditAction → ℕ → State → State
write_audit actor action id s = record s {
  audits = s.audits ++ (record { actor_id = actor; action = action; entity_id = id }) ∷ [];
}

-- ORDER BY position, created_at.
abbrev pub question_first : TestQuestion → TestQuestion → Bool
question_first a b =
    ltb a.position b.position || (a.position == b.position && leb a.created_at b.created_at)

unfoldable pub insert_question : TestQuestion → List TestQuestion → List TestQuestion
insert_question q [] = q ∷ []
insert_question q (x ∷ xs) = if question_first q x then q ∷ x ∷ xs else x ∷ insert_question q xs

unfoldable pub sort_questions : List TestQuestion → List TestQuestion
unfolding insert_question
sort_questions [] = []
sort_questions (q ∷ qs) = insert_question q (sort_questions qs)

abbrev pub section_first : TestSection → TestSection → Bool
section_first a b =
    ltb a.position b.position || (a.position == b.position && leb a.created_at b.created_at)

unfoldable pub insert_section : TestSection → List TestSection → List TestSection
insert_section q [] = q ∷ []
insert_section q (x ∷ xs) = if section_first q x then q ∷ x ∷ xs else x ∷ insert_section q xs

unfoldable pub sort_sections : List TestSection → List TestSection
unfolding insert_section
sort_sections [] = []
sort_sections (q ∷ qs) = insert_section q (sort_sections qs)

abbrev pub questions_of : ℕ → State → List TestQuestion
questions_of id s = select (in_test id) s.test_questions

abbrev pub sections_of : ℕ → State → List TestSection
sections_of id s = select (section_in_test id) s.sections

-- UPDATE test_questions SET position=position+1000000 WHERE test_id=$1
abbrev pub shift : ℕ
shift = 1000000

abbrev pub set_position : ℕ → TestQuestion → TestQuestion
set_position p q = record q { position = p }

abbrev pub shifted : TestQuestion → TestQuestion
shifted q = record q { position = q.position + shift }

-- The `Map` of counters: none at a section that was not met yet.
abbrev pub bump : ℕ → (ℕ → ℕ) → ℕ → ℕ
bump section counters k = if k == section then counters section + 1 else counters k

-- The loop of `normalize` over the sorted questions.
unfoldable pub renumber : List TestQuestion → (ℕ → ℕ) → List TestQuestion → List TestQuestion
renumber [] counters rows = rows
renumber (q ∷ qs) counters rows =
    renumber qs (bump q.test_section_id counters)
      (update (is_question q.id) (set_position (counters q.test_section_id + 1)) rows)

-- `calculate`
abbrev pub marks_of : TestQuestion → ℕ
marks_of q = q.marks

abbrev pub with_totals : List TestQuestion → ExamTest → ExamTest
with_totals qs t = record t { total_questions = length qs; total_marks = sum_by marks_of qs }

-- `totals`
unfoldable pub totals : ℕ → State → State
unfolding set_test
totals id s = set_test id (with_totals (questions_of id s)) s

-- `normalize`
unfoldable pub normalize : ℕ → State → State
unfolding sort_questions renumber totals
normalize id s =
    let qs = sort_questions (questions_of id s) in
    let rows = update (in_test id) shifted s.test_questions in
    totals id (record s { test_questions = renumber qs (λ _. 0) rows })
