-- ===== src/Exam/Sections.antt =====
-- TestSectionsService (modules/tests/test-sections.service.ts).
use ai_tgs.Common.{
  Bool, List, Option, Text, [], all, any, find, gets, leb, length, ltb, map, modify, none, not,
  or_throw, pure, select, some, suc, throw_if, trim, trimmed_or_null, update, ℕ, ◌+◌, ◌-◌, ◌==◌,
  ◌&&◌, ◌++◌, ◌∷◌, ◌>>=◌, ◌>>◌, if◌then◌else◌, has_duplicates,
}
use ai_tgs.Exam.Rows.{User, ExamTest, TestQuestion, TestSection, is_system_admin, is_draft}
use ai_tgs.Exam.State.{
  State, ExamAction, ExamError, is_test, is_question, in_section, section_in_test, is_section_of,
  sections_of, shift, shifted, set_position, sort_questions, sort_sections, write_audit,
  AuditAction,
}
use ai_tgs.Exam.Edit.{is_member, or_else, or_old_trimmed, new_section}

pub record CreateTestSectionDto : Type 0 where
  pub title : Text
  pub instructions : Option Text
  pub position : Option ℕ

pub record UpdateTestSectionDto : Type 0 where
  pub title : Option Text
  pub instructions : Option Text

pub record TestSectionOrderItemDto : Type 0 where
  pub section_id : ℕ
  pub position : ℕ

pub record AssignQuestionSectionDto : Type 0 where
  pub test_section_id : ℕ
  pub position : Option ℕ

-- The private method `test`: unlike `lock` of TestsService it takes no lock.
unfoldable pub draft_of : ℕ → User → ExamAction ExamTest
draft_of id user = do
  t ← or_throw (← gets (λ s. find (is_test id) s.tests)) ExamError.test_not_found
  throw_if (not (is_system_admin user.role) && not (t.created_by == user.id))
      ExamError.test_of_another_teacher
  throw_if (not (is_draft t.status)) ExamError.only_draft_may_change
  pure t

abbrev pub is_section : ℕ → TestSection → Bool
is_section id x = x.id == id

abbrev pub set_section_position : ℕ → TestSection → TestSection
set_section_position p x = record x { position = p }

abbrev pub shifted_section : TestSection → TestSection
shifted_section x = record x { position = x.position + shift }

-- `position-999999`
abbrev pub unshift : ℕ
unshift = 999999

-- The two UPDATEs that make room at a position: of the sections of a test …
unfoldable pub make_room : ℕ → ℕ → List TestSection → List TestSection
make_room test position rows =
    update (λ x. section_in_test test x && leb (position + shift) x.position)
      (λ x. record x { position = x.position - unshift })
      (update (λ x. section_in_test test x && leb position x.position) shifted_section rows)

-- … and of the questions of a section, but for one.
unfoldable pub make_question_room : ℕ → ℕ → ℕ → List TestQuestion → List TestQuestion
make_question_room section question position rows =
    update
      (λ q. in_section section q && (not (q.id == question) && leb (position + shift) q.position))
      (λ q. record q { position = q.position - unshift })
      (update (λ q. in_section section q && (not (q.id == question) && leb position q.position))
        shifted rows)

-- The loop of `normalize` from a position on, and the method.
unfoldable pub number_sections : ℕ → List TestSection → List TestSection → List TestSection
number_sections i [] rows = rows
number_sections i (x ∷ xs) rows =
    number_sections (suc i) xs (update (is_section x.id) (set_section_position i) rows)

unfoldable pub normalize_sections : ℕ → State → State
unfolding sort_sections number_sections
normalize_sections test s = record s {
  sections =
      number_sections 1 (sort_sections (sections_of test s))
        (update (section_in_test test) shifted_section s.sections);
}

-- The same for the questions of a section.
unfoldable pub number_questions : ℕ → List TestQuestion → List TestQuestion → List TestQuestion
number_questions i [] rows = rows
number_questions i (q ∷ qs) rows =
    number_questions (suc i) qs (update (is_question q.id) (set_position i) rows)

unfoldable pub normalize_questions : ℕ → State → State
unfolding sort_questions number_questions
normalize_questions section s = record s {
  test_questions =
      number_questions 1 (sort_questions (select (in_section section) s.test_questions))
        (update (in_section section) shifted s.test_questions);
}

unfoldable pub list : ℕ → User → ExamAction (List TestSection)
list test user = do draft_of test user; gets (λ s. sort_sections (sections_of test s))

-- Positions of the sections of a test are unique in the database.
abbrev pub is_taken : ℕ → ℕ → List TestSection → Bool
is_taken test position rows = any (λ x. section_in_test test x && x.position == position) rows

unfoldable pub create : ℕ → ℕ → CreateTestSectionDto → User → ExamAction (Unit {0})
create now test dto user = do
  draft_of test user
  filled ← gets (λ s. length (sections_of test s))
  let position = or_else dto.position (filled + 1)
  throw_if (ltb (filled + 1) position) ExamError.section_position_out_of_range
  modify (λ s. record s { sections = make_room test position s.sections })
  taken ← gets (λ s. is_taken test position s.sections)
  throw_if taken ExamError.unique_violation
  id ← gets (λ s. s.next_id)
  modify (λ s. record s {
    sections =
        s.sections
        ++ new_section now test (trim dto.title) (trimmed_or_null dto.instructions) position id
          ∷ [];
    next_id = suc id;
  })
  modify (write_audit user.id AuditAction.section_create id)

abbrev pub or_trimmed : Option Text → Text → Text
or_trimmed none old = old
or_trimmed (some s) old = trim s

unfoldable pub update_section : ℕ → ℕ → UpdateTestSectionDto → User → ExamAction (Unit {0})
update_section test section dto user = do
  draft_of test user
  x ←
      or_throw (← gets (λ s. find (is_section_of section test) s.sections))
        ExamError.test_section_not_found
  modify (λ s. record s {
    sections =
        update (is_section x.id)
          (λ y. record y {
            title = or_trimmed dto.title y.title;
            instructions = or_old_trimmed dto.instructions y.instructions;
          })
          s.sections;
  })
  modify (write_audit user.id AuditAction.section_update section)

unfoldable pub remove : ℕ → ℕ → User → ExamAction (Unit {0})
remove test section user = do
  draft_of test user
  x ←
      or_throw (← gets (λ s. find (is_section_of section test) s.sections))
        ExamError.test_section_not_found
  members ← gets (λ s. length (select (in_section section) s.test_questions))
  throw_if (not (members == 0)) ExamError.section_not_empty
  others ← gets (λ s. length (sections_of test s))
  throw_if (others == 1) ExamError.needs_a_section
  modify (λ s. record s { sections = select (λ y. not (is_section x.id y)) s.sections })
  modify (normalize_sections test)
  modify (write_audit user.id AuditAction.section_delete section)

-- The negation of the condition under which the code refuses.
unfoldable pub is_section_reorder : List TestSection → List TestSectionOrderItemDto → Bool
is_section_reorder rows items =
    length rows == length items
    && (not (has_duplicates (map (λ (i : TestSectionOrderItemDto). i.section_id) items))
        && (not (has_duplicates (map (λ (i : TestSectionOrderItemDto). i.position) items))
            && all (λ (i : TestSectionOrderItemDto). any (is_section i.section_id) rows) items))

unfoldable pub place_sections :
    ℕ → List TestSectionOrderItemDto → List TestSection → List TestSection
place_sections test [] rows = rows
place_sections test (i ∷ items) rows =
    place_sections test items
      (update (is_section_of i.section_id test) (set_section_position i.position) rows)

unfoldable pub reorder : ℕ → List TestSectionOrderItemDto → User → ExamAction (Unit {0})
reorder test items user = do
  draft_of test user
  rows ← gets (sections_of test)
  throw_if (not (is_section_reorder rows items)) ExamError.full_unique_section_reorder_required
  modify (λ s. record s {
    sections = place_sections test items (update (section_in_test test) shifted_section s.sections);
  })
  modify (write_audit user.id AuditAction.section_reorder test)

-- The question leaves its place, room is made in the section, and it is saved there.
abbrev pub moved_question : TestQuestion → TestSection → ℕ → State → State
moved_question q section position s =
    let away = update (is_question q.id) shifted s.test_questions in
    record s {
      test_questions =
          update (is_question q.id)
            (λ x. record x { test_section_id = section.id; position = position })
            (make_question_room section.id q.id position away);
    }

unfoldable pub assign : ℕ → ℕ → AssignQuestionSectionDto → User → ExamAction (Unit {0})
assign test question dto user = do
  draft_of test user
  section ←
      or_throw (← gets (λ s. find (is_section_of dto.test_section_id test) s.sections))
        ExamError.section_not_of_test
  q ←
      or_throw (← gets (λ s. find (is_member question test) s.test_questions))
        ExamError.test_question_not_found
  filled ← gets (λ s. length (select (in_section section.id) s.test_questions))
  let position = or_else dto.position (filled + 1)
  throw_if (ltb (filled + 1) position) ExamError.question_position_out_of_range
  modify (moved_question q section position)
  modify
      (if q.test_section_id == section.id then (λ s. s) else normalize_questions q.test_section_id)
  modify (normalize_questions section.id)
  modify (write_audit user.id AuditAction.section_assign q.id)
