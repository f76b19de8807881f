-- ===== src/Exam/Copies.antt =====
-- What TestsService.clone copies.
use ai_tgs.Common.{
  All, Option, none, Bool, Bool-cases, ◌==◌, All-map, Ensures-or_throw, Ensures-throw_if, List,
  Option-cases, Text, [], ap, arith, false, find, find-append, find-append_miss, find-fresh, inl,
  inr, length, ltb, map, refl, select-append_passing, select-append_none, some, suc, true, ℕ, ◌≤◌,
  ◌<◌, ◌≡◌, ◌≢◌, ◌+◌, ◌++◌, ◌∷◌, ◌∙◌,
}
use ai_tgs.Exam.Rows.{TestStatus, TestSection, User, ExamTest, TestQuestion, Snapshot}
use ai_tgs.Exam.State.{
  section_in_test, State, is_test, in_test, questions_of, sections_of, sort_sections, write_audit,
  value_too_long, not_null_violation,
}
use ai_tgs.Exam.Clone
use ai_tgs.Exam.Keeps.{IsTidy, Leaves, Ensures-lock, test_key}
use ai_tgs.Exam.Keeps.Clone.{copy_questions-AreCopies}

-- A section of a test without its ids.
pub record Heading : Type 0 where
  pub title : Text
  pub instructions : Option Text
  pub position : ℕ

abbrev pub heading : TestSection → Heading
heading x = record { title = x.title; instructions = x.instructions; position = x.position }

abbrev pub is_section : ℕ → TestSection → Bool
is_section id x = x.id == id

abbrev pub heading_of : Option TestSection → Option Heading
heading_of none = none
heading_of (some x) = some (heading x)

-- A question of a test without its ids, with the section that it stands in.
pub record Content : Type 0 where
  pub section : Option Heading
  pub source_question_id : ℕ
  pub position : ℕ
  pub marks : ℕ
  pub snapshot : Snapshot

abbrev pub content : List TestSection → TestQuestion → Content
content sections q = record {
  section = heading_of (find (is_section q.test_section_id) sections);
  source_question_id = q.source_question_id;
  position = q.position;
  marks = q.marks;
  snapshot = q.snapshot;
}

copy_sections-heading :
    (now copy id : ℕ) (xs : List TestSection)
    → map heading (Clone.copy_sections now copy id xs).0 ≡ map heading xs
unfolding Clone.copy_sections
copy_sections-heading now copy id [] = refl
copy_sections-heading now copy id (x ∷ xs) =
    ap (◌∷◌ (heading x)) (copy_sections-heading now copy (suc id) xs)

copy_sections-in :
    (now copy id : ℕ) (xs : List TestSection)
    → All (λ (x : TestSection). x.test_id ≡ copy) (Clone.copy_sections now copy id xs).0
unfolding Clone.copy_sections
copy_sections-in now copy id [] = tt
copy_sections-in now copy id (x ∷ xs) = (refl, copy_sections-in now copy (suc id) xs)

-- The map gives ids from the first free one on.
lookup_id-le :
    (now copy id i b : ℕ) (xs : List TestSection)
    → Clone.lookup_id i (Clone.copy_sections now copy id xs).1 ≡ some b
    → id ≤ b
unfolding Clone.copy_sections
lookup_id-le now copy id i b [] h = cc
lookup_id-le now copy id i b (x ∷ xs) h = elim (Bool-cases (x.id == i)) [
  | inl hit ↦ ground (arith, h, hit)
  | inr miss ↦
      let later = lookup_id-le now copy (suc id) i b xs (ground (arith, h, miss)) in
      omega (arith, later)
]

-- The section that a section is mapped to has its heading.
lookup_id-heading :
    (now copy id i b : ℕ) (xs : List TestSection)
    → Clone.lookup_id i (Clone.copy_sections now copy id xs).1 ≡ some b
    → heading_of (find (is_section b) (Clone.copy_sections now copy id xs).0)
      ≡ heading_of (find (is_section i) xs)
unfolding Clone.copy_sections
lookup_id-heading now copy id i b [] h = cc
lookup_id-heading now copy id i b (x ∷ xs) h = elim (Bool-cases (x.id == i)) [
  | inl hit ↦ let same : (id == b) ≡ true = ground (arith, h, hit) in rw (hit, same) refl
  | inr miss ↦
      let h' : Clone.lookup_id i (Clone.copy_sections now copy (suc id) xs).1 ≡ some b =
        ground (arith, h, miss) in
      let later = lookup_id-le now copy (suc id) i b xs h' in
      let other : (id == b) ≡ false = ground (arith, later) in
      rw (miss, other) (lookup_id-heading now copy (suc id) i b xs h')
]

copy_questions-content :
    (now copy n : ℕ) (ids : List (ℕ × ℕ)) (old new : List TestSection) (qs rows : List TestQuestion)
    → ((i b : ℕ)
        → Clone.lookup_id i ids ≡ some b
        → heading_of (find (is_section b) new) ≡ heading_of (find (is_section i) old))
    → Clone.copy_questions now copy ids n qs ≡ some rows
    → map (content new) rows ≡ map (content old) qs
unfolding Clone.copy_questions
copy_questions-content now copy n ids old new [] rows mapped e =
    let empty : [] ≡ rows = cc in rw (← empty) refl
copy_questions-content now copy n ids old new (q ∷ qs) rows mapped e =
    elim (Option-cases (Clone.lookup_id q.test_section_id ids)) [
      | inl gone ↦
          let e' = rw (gone, Clone.copy_questions) at e in
          let impossible : ⊥ = cc in absurd impossible
      | inr (section, there) ↦ elim (Option-cases (Clone.copy_questions now copy ids (suc n) qs)) [
        | inl gone ↦
            let e' = rw (there, gone, Clone.copy_questions) at e in
            let impossible : ⊥ = cc in absurd impossible
        | inr (rest, more) ↦
            let e' = rw (there, more, Clone.copy_questions) at e in
            let same : Clone.copied_question now copy section n q ∷ rest ≡ rows = cc in
            let here = mapped q.test_section_id section there in
            rw (← same) (
              ap2_cons _ _ _ _
                (ap
                  (λ h. record {
                    section = h;
                    source_question_id = q.source_question_id;
                    position = q.position;
                    marks = q.marks;
                    snapshot = q.snapshot;
                  })
                  here)
                (copy_questions-content now copy (suc n) ids old new qs rest mapped more))
      ]
    ]
  where
    ap2_cons : (a b : Content) (cs ds : List Content) → a ≡ b → cs ≡ ds → (a ∷ cs) ≡ (b ∷ ds)
    ap2_cons a b cs ds h k = cc

-- What a clone leaves: the new test is a draft of the actor and the actor's school, that was never
-- finalized, archived or branded, names its original, has the title with the suffix, and else the
-- original's data.
abbrev pub HasClone : ℕ → User → ExamTest → State → State → Type 0
HasClone id user t s u =
    (find (is_test s.next_id) u.tests
      ≡ some (record t {
        id = s.next_id;
        created_by = user.id;
        school_id = user.school_id;
        title = t.title ++ Clone.copy_suffix;
        status = TestStatus.draft;
        cloned_from_test_id = some t.id;
        finalized_at = none;
        archived_at = none;
        branding_snapshot = none;
      }))
    × ((map heading (sections_of s.next_id u) ≡ map heading (sort_sections (sections_of id s)))
        × ((map (content (sections_of s.next_id u)) (questions_of s.next_id u)
              ≡ map (content (sort_sections (sections_of id s))) (questions_of id s))
            × ((find (is_test id) u.tests ≡ some t)
                × ((questions_of id u ≡ questions_of id s)
                    × (sections_of id u ≡ sections_of id s)))))

-- clone, when it does not throw, from a state in which the ids of questions are unique, the ids of
-- questions and tests are below the next id and sections belong to tests with such ids: the new
-- test is a draft of the actor with the original's data; its sections are those of the original in
-- their order, with the same titles, instructions and positions; its questions are those of the
-- original in their order, in the same sections, with the same source questions, positions, marks
-- and snapshots; the original's row, questions and sections stay.
pub clone-KeepsContent :
    (now id : ℕ) (user : User) (s : State) (t : ExamTest)
    → IsTidy s
    → All (λ (x : TestSection). x.test_id < s.next_id) s.sections
    → find (is_test id) s.tests ≡ some t
    → Leaves (HasClone id user t s) (Clone.clone now id user s)
unfolding Clone.clone write_audit
clone-KeepsContent now id user s t h placed row =
    let copied =
      Clone.copy_sections now s.next_id (suc s.next_id) (sort_sections (sections_of id s)) in
    Ensures-lock Post id user _ s (λ x e m.
      let same : x ≡ t = cc in
      rw same (
        Ensures-throw_if Post
          (ltb Clone.max_title (Clone.characters (t.title ++ Clone.copy_suffix))) value_too_long _ s
          (λ fits.
            Ensures-or_throw Post
              (Clone.copy_questions now s.next_id copied.1 (suc s.next_id + length copied.0)
                (questions_of id s))
              not_null_violation _ s
              (λ rows made.
                let n = suc s.next_id + length copied.0 in
                let copies =
                  copy_questions-AreCopies now s.next_id n copied.1 (questions_of id s) rows made in
                let away : id ≢ s.next_id = λ e.
                  let gone = find-fresh test_key s.next_id s.tests h.1.1 in
                  let row' : find (is_test s.next_id) s.tests ≡ some t = rw (← e) row in
                  let impossible : ⊥ = cc in impossible in
                let copied_sections : sections_of s.next_id
                      (Clone.insert_copy t user s.next_id copied.0 rows s)
                    ≡ copied.0 =
                  select-append_passing (section_in_test s.next_id) s.sections copied.0
                    (All-map (λ (x : TestSection). x.test_id < s.next_id)
                      (λ x. section_in_test s.next_id x ≡ false) s.sections
                      (λ x p. ground (arith, p)) placed)
                    (All-map (λ (x : TestSection). x.test_id ≡ s.next_id)
                      (λ x. section_in_test s.next_id x ≡ true) copied.0 (λ x p. ground (arith, p))
                      (copy_sections-in now s.next_id (suc s.next_id)
                        (sort_sections (sections_of id s)))) in
                let copied_questions : questions_of s.next_id
                      (Clone.insert_copy t user s.next_id copied.0 rows s)
                    ≡ rows =
                  select-append_passing (in_test s.next_id) s.test_questions rows
                    (All-map (λ (q : TestQuestion). (q.id < s.next_id) × (q.test_id < s.next_id))
                      (λ q. in_test s.next_id q ≡ false) s.test_questions
                      (λ q p. ground (arith, p.1)) h.1.0)
                    (All-map
                      (λ (r : TestQuestion).
                        (r.test_id ≡ s.next_id) × ((n ≤ r.id) × (r.id < n + length rows)))
                      (λ r. in_test s.next_id r ≡ true) rows (λ r p. ground (arith, p.0))
                      copies.1.1.0) in
                (
                  find-append (is_test s.next_id) s.tests (Clone.copy_of t user s.next_id ∷ [])
                      (some (Clone.copy_of t user s.next_id))
                      (find-fresh test_key s.next_id s.tests h.1.1) (ground arith),
                  (
                    rw copied_sections (
                        copy_sections-heading now s.next_id (suc s.next_id)
                          (sort_sections (sections_of id s))),
                    (
                      rw (copied_sections, copied_questions)
                          (copy_questions-content now s.next_id n copied.1
                            (sort_sections (sections_of id s)) copied.0 (questions_of id s) rows
                            (λ i b.
                              lookup_id-heading now s.next_id (suc s.next_id) i b
                                (sort_sections (sections_of id s)))
                            made),
                      (
                        find-append_miss (is_test id) s.tests (Clone.copy_of t user s.next_id)
                              (ground (arith, away))
                            ∙ row,
                        (
                          select-append_none (in_test id) s.test_questions rows (
                              All-map
                                (λ (r : TestQuestion).
                                  (r.test_id ≡ s.next_id) × ((n ≤ r.id) × (r.id < n + length rows)))
                                (λ r. in_test id r ≡ false) rows (λ r p. ground (arith, away, p.0))
                                copies.1.1.0),
                          select-append_none (section_in_test id) s.sections copied.0 (
                              All-map (λ (x : TestSection). x.test_id ≡ s.next_id)
                                (λ x. section_in_test id x ≡ false) copied.0
                                (λ x p. ground (arith, away, p))
                                (copy_sections-in now s.next_id (suc s.next_id)
                                  (sort_sections (sections_of id s)))),
                        ),
                      ),
                    ),
                  ),
                )))))
  where
    Post : Unit {0} → State → Type 0
    Post _ u = HasClone id user t s u
