-- ===== src/Exam/Reorder.antt =====
-- TestsService.reorder: a full reorder of a test's questions over its sections.

use ai_tgs.Exam.Access.{same_id, lock, draft}
use ai_tgs.Common.{
  Bool, List, Option, [], all, any, false, find, gets, leb, length, map, modify, none, not, select,
  some, suc, throw_if, true, update, ℕ, ◌==◌, ◌&&◌, ◌∷◌, ◌>>=◌, ◌>>◌, if◌then◌else◌, has_duplicates,
}
use ai_tgs.Exam.Rows.{TestQuestion, TestSection, User}
use ai_tgs.Exam.State.{
  State, in_test, is_question, shifted, ExamAction, questions_of, sections_of,
  full_unique_reorder_required, totals, write_audit, AuditAction,
}

pub record OrderItemDto : Type 0 where
  pub test_question_id : ℕ
  pub position : ℕ
  pub test_section_id : Option ℕ

-- An item with its section: the one it names, else the question's present one, else undefined.
pub record Target : Type 0 where
  pub test_question_id : ℕ
  pub position : ℕ
  pub section : Option ℕ

abbrev pub present_section : Option TestQuestion → Option ℕ
present_section none = none
present_section (some q) = some q.test_section_id

abbrev pub chosen_section : Option ℕ → Option ℕ → Option ℕ
chosen_section none old = old
chosen_section (some s) old = some s

abbrev pub target_of : List TestQuestion → OrderItemDto → Target
target_of current item = record {
  test_question_id = item.test_question_id;
  position = item.position;
  section =
      chosen_section item.test_section_id
        (present_section (find (is_question item.test_question_id) current));
}

-- The positions of one key of the `Map` of groups.
abbrev pub goes_to : ℕ → Target → Bool
goes_to section t = same_id t.section section

abbrev pub group : ℕ → List Target → List ℕ
group section targets = map (λ (t : Target). t.position) (select (goes_to section) targets)

abbrev pub insert_number : ℕ → List ℕ → List ℕ
insert_number a [] = a ∷ []
insert_number a (b ∷ bs) = if leb a b then a ∷ b ∷ bs else b ∷ insert_number a bs

unfoldable pub sort_numbers : List ℕ → List ℕ
sort_numbers [] = []
sort_numbers (a ∷ ns) = insert_number a (sort_numbers ns)

-- `sorted[index] === index + 1` from an index on.
abbrev pub counts_from : ℕ → List ℕ → Bool
counts_from i [] = true
counts_from i (n ∷ ns) = n == i && counts_from (suc i) ns

unfoldable pub is_contiguous : List ℕ → Bool
unfolding sort_numbers
is_contiguous ns = not (has_duplicates ns) && counts_from 1 (sort_numbers ns)

abbrev pub group_is_contiguous : List Target → Target → Bool
group_is_contiguous targets t = elim t.section [
  | none ↦ true
  | some section ↦ is_contiguous (group section targets)
]

abbrev pub names_a_section : List TestSection → Target → Bool
names_a_section sections t = elim t.section [
  | none ↦ false
  | some section ↦ any (λ (s : TestSection). s.id == section) sections
]

abbrev pub names_a_question : List TestQuestion → Target → Bool
names_a_question current t = any (is_question t.test_question_id) current

-- The negation of the condition under which the code refuses.
unfoldable pub is_full_reorder : List TestQuestion → List TestSection → List OrderItemDto → Bool
is_full_reorder current sections items =
    let targets = map (target_of current) items in
    length current == length items
    && (not (has_duplicates (map (λ (i : OrderItemDto). i.test_question_id) items))
        && (all (λ t. names_a_question current t && names_a_section sections t) targets
            && all (group_is_contiguous targets) targets))

-- UPDATE test_questions SET position=$2,test_section_id=$4 WHERE id=$1 AND test_id=$3
abbrev pub place : ℕ → ℕ → TestQuestion → TestQuestion
place position section q = record q { position = position; test_section_id = section }

abbrev pub place_one : ℕ → Target → List TestQuestion → List TestQuestion
place_one test t rows = elim t.section [
  | none ↦ rows
  | some section ↦
      update (λ q. is_question t.test_question_id q && in_test test q) (place t.position section)
        rows
]

unfoldable pub place_all : ℕ → List Target → List TestQuestion → List TestQuestion
place_all test [] rows = rows
place_all test (t ∷ ts) rows = place_all test ts (place_one test t rows)

abbrev pub reordered : ℕ → List Target → State → State
reordered id targets s = record s {
  test_questions = place_all id targets (update (in_test id) shifted s.test_questions);
}

unfoldable pub reorder : ℕ → List OrderItemDto → User → ExamAction (Unit {0})
reorder id items user = do
  t ← lock id user
  draft t
  current ← gets (questions_of id)
  sections ← gets (sections_of id)
  throw_if (not (is_full_reorder current sections items)) full_unique_reorder_required
  modify (reordered id (map (target_of current) items))
  modify (totals id)
  modify (write_audit user.id AuditAction.question_reorder id)
