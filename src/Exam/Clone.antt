-- ===== src/Exam/Clone.antt =====
-- TestsService.clone.
use ai_tgs.Exam.Access.{lock}
use ai_tgs.Common.{
  Bool, false, leb, ◌&&◌, List, Option, Text, [], gets, length, ltb, modify, none, or_throw, some,
  suc, throw_if, ℕ, ◌+◌, ◌==◌, ◌++◌, ◌∷◌, ◌>>=◌, ◌>>◌, if◌then◌else◌,
}
use ai_tgs.Exam.Rows.{ExamTest, TestSection, TestQuestion, User, TestStatus}
use ai_tgs.Exam.State.{
  State, ExamAction, value_too_long, sort_sections, sections_of, questions_of, not_null_violation,
  write_audit, AuditAction,
}

-- ' (Copy)'
abbrev pub copy_suffix : Text
copy_suffix = 32 ∷ 40 ∷ 67 ∷ 111 ∷ 112 ∷ 121 ∷ 41 ∷ []

-- The first and the second half of a character that takes two code units.
abbrev pub is_high : ℕ → Bool
is_high c = leb 55296 c && leb c 56319

abbrev pub is_low : ℕ → Bool
is_low c = leb 56320 c && leb c 57343

-- The characters of a text, which the database counts; the flag tells that a first half precedes.
abbrev pub characters_from : Bool → Text → ℕ
characters_from high [] = 0
characters_from high (c ∷ s) =
    let after_half = characters_from false s in
    let after_unit = characters_from (is_high c) s in
    if high && is_low c then after_half else suc after_unit

abbrev pub characters : Text → ℕ
characters s = characters_from false s

-- The column `title` is varchar(160).
abbrev pub max_title : ℕ
max_title = 160

abbrev pub copy_of : ExamTest → User → ℕ → ExamTest
copy_of source user id = record {
  id = id;
  created_by = user.id;
  school_id = user.school_id;
  class_id = source.class_id;
  section_id = source.section_id;
  subject_id = source.subject_id;
  title = source.title ++ copy_suffix;
  description = source.description;
  instructions = source.instructions;
  language = source.language;
  status = TestStatus.draft;
  duration_minutes = source.duration_minutes;
  total_marks = source.total_marks;
  total_questions = source.total_questions;
  cloned_from_test_id = some source.id;
  finalized_at = none;
  archived_at = none;
  branding_snapshot = none;
}

-- The `Map` from the source's sections to the copy's.
abbrev pub lookup_id : ℕ → List (ℕ × ℕ) → Option ℕ
lookup_id i [] = none
lookup_id i ((a, b) ∷ m) = if a == i then some b else lookup_id i m

-- The inserts: the copy, then its sections, then its questions.
abbrev pub insert_copy : ExamTest → User → ℕ → List TestSection → List TestQuestion → State → State
insert_copy source user copy sections questions s = record s {
  tests = s.tests ++ copy_of source user copy ∷ [];
  sections = s.sections ++ sections;
  test_questions = s.test_questions ++ questions;
  next_id = suc copy + length sections + length questions;
}

module _ (now : ℕ) where
  abbrev pub copied_section : ℕ → TestSection → ℕ → TestSection
  copied_section copy x id = record x { id = id; test_id = copy; created_at = now }

  -- The loop over the sections: the rows to insert and the map, from the first free id on.
  unfoldable pub copy_sections : ℕ → ℕ → List TestSection → List TestSection × List (ℕ × ℕ)
  copy_sections copy id [] = ([], [])
  copy_sections copy id (x ∷ xs) =
      let (rows, ids) = copy_sections copy (suc id) xs in
      (copied_section copy x id ∷ rows, (x.id, id) ∷ ids)

  abbrev pub copied_question : ℕ → ℕ → ℕ → TestQuestion → TestQuestion
  copied_question copy section id q = record q {
    id = id;
    test_id = copy;
    test_section_id = section;
    created_at = now;
  }

  -- The questions to insert; a section that the map lacks would be a NULL in a NOT NULL column.
  unfoldable pub copy_questions :
      ℕ → List (ℕ × ℕ) → ℕ → List TestQuestion → Option (List TestQuestion)
  copy_questions copy ids id [] = some []
  copy_questions copy ids id (q ∷ qs) = elim (lookup_id q.test_section_id ids) [
    | none ↦ none
    | some section ↦ elim (copy_questions copy ids (suc id) qs) [
      | none ↦ none
      | some rows ↦ some (copied_question copy section id q ∷ rows)
    ]
  ]

  unfoldable pub clone : ℕ → User → ExamAction (Unit {0})
  clone id user = do
    source ← lock id user
    copy ← gets (λ s. s.next_id)
    throw_if (ltb max_title (characters (source.title ++ copy_suffix))) value_too_long
    old_sections ← gets (λ s. sort_sections (sections_of id s))
    let (sections, ids) = copy_sections copy (suc copy) old_sections
    qs ← gets (questions_of id)
    questions ←
        or_throw (copy_questions copy ids (suc copy + length sections) qs) not_null_violation
    modify (insert_copy source user copy sections questions)
    modify (write_audit user.id AuditAction.test_clone copy)
