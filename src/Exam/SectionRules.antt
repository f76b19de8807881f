-- ===== src/Exam/SectionRules.antt =====
-- What every request of TestSectionsService that changes sections does and leaves alone.
use ai_tgs.Exam.Edit.{or_else, is_member}
use ai_tgs.Common.{
  Bool, Bool-cases, Ensures, List, Option-cases, [], ap, arith, find, inl, inr, map, not, or_throw,
  refl, select, some, suc, true, update, ℕ, ◌≡◌, ◌-◌, ◌==◌, ◌&&◌, ◌∷◌, ◌∙◌, ◌>>=◌, ◌>>◌, length,
  Ensures-or_throw, Ensures-throw_if, if◌then◌else◌, ◌+◌, ltb, ◌≤◌,
}
use ai_tgs.Exam.Rows.{User, ExamTest, TestQuestion, TestSection, is_draft, is_system_admin}
use ai_tgs.Exam.State.{
  State, ExamAction, is_test, is_question, in_section, set_position, shifted, sort_questions,
  write_audit, ExamError, sections_of, is_section_of,
}
use ai_tgs.Exam.Sections
use ai_tgs.Exam.Sections.{
  CreateTestSectionDto, UpdateTestSectionDto, TestSectionOrderItemDto, AssignQuestionSectionDto,
  draft_of,
}
use ai_tgs.Exam.Keeps.{MayChange}

pub data SectionOp : Type 0 where
  create : CreateTestSectionDto → SectionOp
  update_section : ℕ → UpdateTestSectionDto → SectionOp
  remove : ℕ → SectionOp
  reorder : List TestSectionOrderItemDto → SectionOp
  assign : ℕ → AssignQuestionSectionDto → SectionOp

unfoldable pub perform : SectionOp → ℕ → ℕ → User → ExamAction (Unit {0})
perform (SectionOp.create dto) now test user = Sections.create now test dto user
perform (SectionOp.update_section section dto) now test user =
    Sections.update_section test section dto user
perform (SectionOp.remove section) now test user = Sections.remove test section user
perform (SectionOp.reorder items) now test user = Sections.reorder test items user
perform (SectionOp.assign question dto) now test user = Sections.assign test question dto user

-- A question without its place.
abbrev pub unplaced : TestQuestion → TestQuestion
unplaced q = record q { test_section_id = 0; position = 0 }

-- The rows of the tests are the same, and so are those of the questions but for their places; ids
-- are not given out again.
abbrev pub KeepsContent : State → State → Type 0
KeepsContent s u =
    (u.tests ≡ s.tests)
    × ((map unplaced u.test_questions ≡ map unplaced s.test_questions) × (s.next_id ≤ u.next_id))

map-update :
    (p : TestQuestion → Bool) (f : TestQuestion → TestQuestion) (rows : List TestQuestion)
    → ((q : TestQuestion) → unplaced (f q) ≡ unplaced q)
    → map unplaced (update p f rows) ≡ map unplaced rows
map-update p f [] same = refl
map-update p f (q ∷ rows) same = elim (Bool-cases (p q)) [
  | inl hit ↦ rw (hit, same q) (ap (◌∷◌ (unplaced q)) (map-update p f rows same))
  | inr miss ↦ rw miss (ap (◌∷◌ (unplaced q)) (map-update p f rows same))
]

map-number_questions :
    (i : ℕ) (qs rows : List TestQuestion)
    → map unplaced (Sections.number_questions i qs rows) ≡ map unplaced rows
unfolding Sections.number_questions
map-number_questions i [] rows = refl
map-number_questions i (q ∷ qs) rows =
    map-number_questions (suc i) qs (update (is_question q.id) (set_position i) rows)
    ∙ map-update (is_question q.id) (set_position i) rows (λ r. refl)

normalize_questions-KeepsContent :
    (section : ℕ) (s : State) → KeepsContent s (Sections.normalize_questions section s)
unfolding Sections.normalize_questions
normalize_questions-KeepsContent section s = (
  refl,
  (
    map-number_questions 1 (sort_questions (select (in_section section) s.test_questions))
          (update (in_section section) shifted s.test_questions)
        ∙ map-update (in_section section) shifted s.test_questions (λ r. refl),
    omega arith,
  ),
)

map-make_question_room :
    (section question position : ℕ) (rows : List TestQuestion)
    → map unplaced (Sections.make_question_room section question position rows) ≡ map unplaced rows
unfolding Sections.make_question_room
map-make_question_room section question position rows =
    map-update _ (λ q. record q { position = q.position - Sections.unshift }) _ (λ r. refl)
    ∙ map-update _ shifted rows (λ r. refl)

moved_question-KeepsContent :
    (q : TestQuestion) (section : TestSection) (position : ℕ) (s : State)
    → KeepsContent s (Sections.moved_question q section position s)
moved_question-KeepsContent q section position s = (
  refl,
  (
    map-update (is_question q.id)
          (λ x. record x { test_section_id = section.id; position = position }) _ (λ r. refl)
        ∙ map-make_question_room section.id q.id position
            (update (is_question q.id) shifted s.test_questions)
        ∙ map-update (is_question q.id) shifted s.test_questions (λ r. refl),
    omega arith,
  ),
)

KeepsContent-trans : (s t u : State) → KeepsContent s t → KeepsContent t u → KeepsContent s u
KeepsContent-trans s t u h g = (g.0 ∙ h.0, (g.1.0 ∙ h.1.0, omega (arith, h.1.1, g.1.1)))

-- The test is there, it is a draft, and the actor may change it.
abbrev pub MayArrange : ℕ → User → State → Type 0
MayArrange test user s =
    (t : ExamTest) × ((find (is_test test) s.tests ≡ some t)
      × ((is_draft t.status ≡ true) × MayChange user t))

Ensures-draft_of :
    {B : Type 0} (Q : B → State → Type 0) (test : ℕ) (user : User) (k : ExamAction B) (s : State)
    → (MayArrange test user s → Ensures Q (k s))
    → Ensures Q ((draft_of test user >> k) s)
unfolding draft_of
Ensures-draft_of Q test user k s h = elim (Option-cases (find (is_test test) s.tests)) [
  | inl gone ↦ rw (gone, or_throw, ◌>>=◌) tt
  | inr (t, e) ↦ elim (Bool-cases (is_draft t.status)) [
    | inl mutable ↦ elim (Bool-cases (is_system_admin user.role)) [
      | inl admin ↦ rw (e, or_throw, ◌>>=◌, admin, mutable) (h (t, (e, (mutable, inl admin))))
      | inr other ↦ elim (Bool-cases (t.created_by == user.id)) [
        | inl own ↦
            rw (e, or_throw, ◌>>=◌, other, own, mutable) (h (t, (e, (mutable, inr (ground arith)))))
        | inr foreign ↦ rw (e, or_throw, ◌>>=◌, other, foreign) tt
      ]
    ]
    | inr closed ↦
        elim (Bool-cases (not (is_system_admin user.role) && not (t.created_by == user.id))) [
          | inl foreign ↦ rw (e, or_throw, ◌>>=◌, foreign) tt
          | inr allowed ↦ rw (e, or_throw, ◌>>=◌, allowed, closed) tt
        ]
  ]
]

-- What each request ensures.
abbrev pub IsArranged : ℕ → User → State → Unit {0} → State → Type 0
IsArranged test user s _ u = MayArrange test user s × KeepsContent s u

create-IsArranged :
    (now test : ℕ) (dto : CreateTestSectionDto) (user : User) (s : State)
    → Ensures {E = ExamError} (IsArranged test user s) (Sections.create now test dto user s)
unfolding Sections.create write_audit
create-IsArranged now test dto user s =
    let filled = length (sections_of test s) in
    let position = or_else dto.position (filled + 1) in
    Ensures-draft_of (IsArranged test user s) test user _ s (λ may.
      Ensures-throw_if (IsArranged test user s) (ltb (filled + 1) position)
        ExamError.section_position_out_of_range _ s
        (λ fits.
          let roomy = record s { sections = Sections.make_room test position s.sections } in
          Ensures-throw_if (IsArranged test user s) (Sections.is_taken test position roomy.sections)
            ExamError.unique_violation _ roomy (λ free. (may, (refl, (refl, omega arith))))))

update_section-IsArranged :
    (test section : ℕ) (dto : UpdateTestSectionDto) (user : User) (s : State)
    → Ensures {E = ExamError}
        (IsArranged test user s)
        (Sections.update_section test section dto user s)
unfolding Sections.update_section write_audit
update_section-IsArranged test section dto user s =
    Ensures-draft_of (IsArranged test user s) test user _ s (λ may.
      Ensures-or_throw (IsArranged test user s) (find (is_section_of section test) s.sections)
        ExamError.test_section_not_found _ s (λ x here. (may, (refl, (refl, omega arith)))))

remove-IsArranged :
    (test section : ℕ) (user : User) (s : State)
    → Ensures {E = ExamError} (IsArranged test user s) (Sections.remove test section user s)
unfolding Sections.remove Sections.normalize_sections write_audit
remove-IsArranged test section user s =
    Ensures-draft_of (IsArranged test user s) test user _ s (λ may.
      Ensures-or_throw (IsArranged test user s) (find (is_section_of section test) s.sections)
        ExamError.test_section_not_found _ s
        (λ x here.
          Ensures-throw_if (IsArranged test user s)
            (not (length (select (in_section section) s.test_questions) == 0))
            ExamError.section_not_empty _ s
            (λ empty.
              Ensures-throw_if (IsArranged test user s) (length (sections_of test s) == 1)
                ExamError.needs_a_section _ s (λ more. (may, (refl, (refl, omega arith)))))))

reorder-IsArranged :
    (test : ℕ) (items : List TestSectionOrderItemDto) (user : User) (s : State)
    → Ensures {E = ExamError} (IsArranged test user s) (Sections.reorder test items user s)
unfolding Sections.reorder write_audit
reorder-IsArranged test items user s =
    Ensures-draft_of (IsArranged test user s) test user _ s (λ may.
      Ensures-throw_if (IsArranged test user s)
        (not (Sections.is_section_reorder (sections_of test s) items))
        ExamError.full_unique_section_reorder_required _ s
        (λ full. (may, (refl, (refl, omega arith)))))

-- The state after both sections of a moved question are numbered again.
abbrev rearranged : TestQuestion → TestSection → State → State
rearranged q section moved = Sections.normalize_questions section.id (
    (if q.test_section_id == section.id
        then (λ t. t)
        else Sections.normalize_questions q.test_section_id)
      moved)

assign-IsArranged :
    (test question : ℕ) (dto : AssignQuestionSectionDto) (user : User) (s : State)
    → Ensures {E = ExamError} (IsArranged test user s) (Sections.assign test question dto user s)
unfolding Sections.assign write_audit
assign-IsArranged test question dto user s =
    Ensures-draft_of (IsArranged test user s) test user _ s (λ may.
      Ensures-or_throw (IsArranged test user s)
        (find (is_section_of dto.test_section_id test) s.sections) ExamError.section_not_of_test _ s
        (λ section there.
          Ensures-or_throw (IsArranged test user s)
            (find (is_member question test) s.test_questions) ExamError.test_question_not_found _ s
            (λ q here.
              let filled = length (select (in_section section.id) s.test_questions) in
              let position = or_else dto.position (filled + 1) in
              Ensures-throw_if (IsArranged test user s) (ltb (filled + 1) position)
                ExamError.question_position_out_of_range _ s
                (λ fits.
                  let moved = Sections.moved_question q section position s in
                  (
                    may,
                    KeepsContent-trans s moved (rearranged q section moved)
                        (moved_question-KeepsContent q section position s)
                        (settled q section moved),
                  )))))
  where
    settled :
        (q : TestQuestion) (section : TestSection) (moved : State)
        → KeepsContent moved (rearranged q section moved)
    settled q section moved = elim (Bool-cases (q.test_section_id == section.id)) [
      | inl same ↦ rw same (normalize_questions-KeepsContent section.id moved)
      | inr other ↦ rw other (
          KeepsContent-trans moved (Sections.normalize_questions q.test_section_id moved)
            (Sections.normalize_questions section.id
              (Sections.normalize_questions q.test_section_id moved))
            (normalize_questions-KeepsContent q.test_section_id moved)
            (normalize_questions-KeepsContent section.id
              (Sections.normalize_questions q.test_section_id moved)))
    ]

-- A request that changes the sections of a test, when it does not throw: the test was a draft and
-- the actor a system administrator or its creator; no row of a test changes; the questions of all
-- tests, in their order, keep everything but their section and position; and the next id does not
-- go back.
pub perform-IsArranged :
    (op : SectionOp) (now test : ℕ) (user : User) (s : State)
    → Ensures {E = ExamError} (IsArranged test user s) (perform op now test user s)
unfolding perform
perform-IsArranged (SectionOp.create dto) now test user s = create-IsArranged now test dto user s
perform-IsArranged (SectionOp.update_section section dto) now test user s =
    update_section-IsArranged test section dto user s
perform-IsArranged (SectionOp.remove section) now test user s =
    remove-IsArranged test section user s
perform-IsArranged (SectionOp.reorder items) now test user s = reorder-IsArranged test items user s
perform-IsArranged (SectionOp.assign question dto) now test user s =
    assign-IsArranged test question dto user s
