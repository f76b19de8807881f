-- ===== src/Exam/Access.antt =====
-- Who may change a test, and which questions may stand in it (the private methods `lock`,
-- `authorize`, `draft`, `eligible` and `validateScope` of tests.service.ts).
use ai_tgs.Common.{
  Bool, List, Option, any, false, find, gets, none, not, or_throw, pure, some, throw_if, true, ℕ,
  ◌==◌, ◌&&◌, ◌>>=◌, ◌>>◌,
}
use ai_tgs.Exam.Rows.{
  Question, ExamTest, User, is_shared_in_school, InClass, is_system_admin, is_draft, is_approved,
  is_active_question, is_ai,
}
use ai_tgs.Exam.State.{
  ExamAction, is_test, subject_not_in_class, not_permitted, test_not_found, only_draft_is_mutable,
  belongs_to_another_teacher, section_not_in_class, question_not_active, incompatible_curriculum,
  approval_required,
}

abbrev pub same_id : Option ℕ → ℕ → Bool
same_id none i = false
same_id (some j) i = j == i

unfoldable pub authorize : ExamTest → User → ExamAction (Unit {0})
authorize t user =
    throw_if (not (is_system_admin user.role) && not (t.created_by == user.id)) not_permitted

unfoldable pub lock : ℕ → User → ExamAction ExamTest
lock id user = do
  t ← or_throw (← gets (λ s. find (is_test id) s.tests)) test_not_found
  authorize t user
  pure t

unfoldable pub draft : ExamTest → ExamAction (Unit {0})
draft t = throw_if (not (is_draft t.status)) only_draft_is_mutable

-- `user.schoolId && q.visibility === SCHOOL && q.sharedSchoolId === user.schoolId && …`
abbrev pub shared_with : Question → Option ℕ → Bool
shared_with q none = false
shared_with q (some school) =
    is_shared_in_school q.visibility
    && (same_id q.shared_school_id school && is_approved q.review_status)

unfoldable pub eligible : Question → ExamTest → User → Bool → ExamAction (Unit {0})
eligible q t user finalizing = do
  throw_if
      (not (is_system_admin user.role)
        && (not (q.created_by == user.id) && not (shared_with q user.school_id)))
      belongs_to_another_teacher
  throw_if (not (is_active_question q.status)) question_not_active
  throw_if (not (q.class_id == t.class_id && q.subject_id == t.subject_id)) incompatible_curriculum
  throw_if (finalizing && (is_ai q.source && not (is_approved q.review_status))) approval_required

abbrev pub is_row : ℕ → InClass → Bool
is_row id r = r.id == id

abbrev pub belongs_to_class : ℕ → Option InClass → Bool
belongs_to_class class none = false
belongs_to_class class (some r) = r.class_id == class

abbrev pub section_in_class : ℕ → Option ℕ → List InClass → Bool
section_in_class class none rows = true
section_in_class class (some section) rows = belongs_to_class class (find (is_row section) rows)

unfoldable pub validate_scope : ℕ → Option ℕ → ℕ → ExamAction (Unit {0})
validate_scope class section subject = do
  classes ← gets (λ s. s.classes)
  subjects ← gets (λ s. s.subjects)
  sections ← gets (λ s. s.class_sections)
  throw_if
      (not
        (any (λ c. c == class) classes && belongs_to_class class (find (is_row subject) subjects)))
      subject_not_in_class
  throw_if (not (section_in_class class section sections)) section_not_in_class
