-- ===== src/Exam/Numbered.antt =====
-- The numbers that `normalize` of TestsService leaves.
use ai_tgs.Exam.Keeps.Renumber.{sort_questions-All, renumber-others}
use ai_tgs.Common.{
  length, sum_by, select, find-passes, All, All-found, All-map, All-ne_of_none, All-select, All-zip,
  Bool-cases, IsUnique, IsUnique-select, List, [], arith, count, false, find, find-update_hit,
  find-update_ne, inl, inr, is_key, none, refl, some, sym, true, update, ℕ, ◌≡◌, ◌≢◌, ◌+◌, ◌∷◌, ◌∙◌,
}
use ai_tgs.Exam.Rows.{TestQuestion, ExamTest}
use ai_tgs.Exam.State.{
  is_test, marks_of, with_totals, State, in_test, in_section, is_question, questions_of,
  set_position, shifted, sort_questions, insert_question, question_first, renumber, bump, normalize,
  totals, set_test,
}
use ai_tgs.Exam.Keeps.{question_key, test_key}

-- After `before`, each question of a list stands in the table as it was, but for its position: one
-- more than the number of the questions of its section that come before it.
abbrev pub IsNumbered : List TestQuestion → List TestQuestion → List TestQuestion → Type 0
IsNumbered rows before [] = Unit
IsNumbered rows before (q ∷ qs) =
    (find (is_question q.id) rows
      ≡ some (set_position (count (in_section q.test_section_id) before + 1) q))
    × IsNumbered rows (q ∷ before) qs

renumber-keeps :
    (qs : List TestQuestion) (counters : ℕ → ℕ) (rows : List TestQuestion) (i : ℕ)
    → All (λ q. question_key q ≢ i) qs
    → find (is_question i) (renumber qs counters rows) ≡ find (is_question i) rows
unfolding renumber
renumber-keeps [] counters rows i h = refl
renumber-keeps (q ∷ qs) counters rows i h =
    renumber-keeps qs (bump q.test_section_id counters)
      (update (is_question q.id) (set_position (counters q.test_section_id + 1)) rows) i h.1
    ∙ find-update_ne question_key q.id i (set_position (counters q.test_section_id + 1)) rows
        (λ r. refl) h.0

renumber-IsNumbered :
    (qs : List TestQuestion) (counters : ℕ → ℕ) (rows before : List TestQuestion)
    → ((k : ℕ) → counters k ≡ count (in_section k) before)
    → IsUnique question_key qs
    → All (λ q. find (is_question q.id) rows ≡ some (shifted q)) qs
    → IsNumbered (renumber qs counters rows) before qs
unfolding renumber
renumber-IsNumbered [] counters rows before agree u h = tt
renumber-IsNumbered (q ∷ qs) counters rows before agree u h =
    let f = set_position (counters q.test_section_id + 1) in
    let next = update (is_question q.id) f rows in
    let away = All-ne_of_none question_key q.id qs u.0 in
    let hit =
      find-update_hit question_key q.id (is_question q.id) f rows (shifted q) (λ r. refl) h.0
        (ground arith) in
    let first = renumber-keeps qs (bump q.test_section_id counters) next q.id away ∙ hit in
    (
      rw first (rw (agree q.test_section_id) refl),
      renumber-IsNumbered qs (bump q.test_section_id counters) next (q ∷ before)
          (λ k. ground (arith, agree k, agree q.test_section_id)) u.1 (rest f (λ r. refl) away),
    )
  where
    rest :
        (f : TestQuestion → TestQuestion)
        → ((r : TestQuestion) → question_key (f r) ≡ question_key r)
        → All (λ r. question_key r ≢ q.id) qs
        → All
            (λ r. find (is_question r.id) (update (is_question q.id) f rows) ≡ some (shifted r))
            qs
    rest f same away =
        All-map (λ r. (question_key r ≢ q.id) × (find (is_question r.id) rows ≡ some (shifted r)))
          (λ r. find (is_question r.id) (update (is_question q.id) f rows) ≡ some (shifted r)) qs
          (λ r k. find-update_ne question_key q.id r.id f rows same (λ e. k.0 (sym e)) ∙ k.1)
          (All-zip (λ r. question_key r ≢ q.id)
            (λ r. find (is_question r.id) rows ≡ some (shifted r)) qs away h.1)

find-insert_question-none :
    (j : ℕ) (q : TestQuestion) (xs : List TestQuestion)
    → is_question j q ≡ false
    → find (is_question j) xs ≡ none
    → find (is_question j) (insert_question q xs) ≡ none
unfolding insert_question
find-insert_question-none j q [] e h = rw e refl
find-insert_question-none j q (x ∷ xs) e h = elim (Bool-cases (question_first q x)) [
  | inl before ↦ rw (before, e) h
  | inr after ↦ elim (Bool-cases (is_question j x)) [
    | inl hit ↦ let h' : some x ≡ none = rw hit at h in let impossible : ⊥ = cc in absurd impossible
    | inr miss ↦
        let h' : find (is_question j) xs ≡ none = rw miss at h in
        rw (after, miss) (find-insert_question-none j q xs e h')
  ]
]

find-sort_questions-none :
    (j : ℕ) (xs : List TestQuestion)
    → find (is_question j) xs ≡ none
    → find (is_question j) (sort_questions xs) ≡ none
unfolding sort_questions
find-sort_questions-none j [] h = refl
find-sort_questions-none j (x ∷ xs) h = elim (Bool-cases (is_question j x)) [
  | inl hit ↦ let h' : some x ≡ none = rw hit at h in let impossible : ⊥ = cc in absurd impossible
  | inr miss ↦
      let h' : find (is_question j) xs ≡ none = rw miss at h in
      find-insert_question-none j x (sort_questions xs) miss (find-sort_questions-none j xs h')
]

IsUnique-insert_question :
    (q : TestQuestion) (xs : List TestQuestion)
    → find (is_question q.id) xs ≡ none
    → IsUnique question_key xs
    → IsUnique question_key (insert_question q xs)
unfolding insert_question
IsUnique-insert_question q [] h u = (refl, tt)
IsUnique-insert_question q (x ∷ xs) h u = elim (Bool-cases (question_first q x)) [
  | inl before ↦ rw before (h, u)
  | inr after ↦ rw after (
    find-insert_question-none x.id q xs (ground (arith, h)) u.0,
    IsUnique-insert_question q xs (ground (arith, h)) u.1,
  )
]

IsUnique-sort_questions :
    (xs : List TestQuestion) → IsUnique question_key xs → IsUnique question_key (sort_questions xs)
unfolding sort_questions
IsUnique-sort_questions [] u = tt
IsUnique-sort_questions (x ∷ xs) u =
    IsUnique-insert_question x (sort_questions xs) (find-sort_questions-none x.id xs u.0)
      (IsUnique-sort_questions xs u.1)

normalize-positions :
    (id : ℕ) (s : State)
    → IsUnique question_key s.test_questions
    → IsNumbered (normalize id s).test_questions [] (sort_questions (questions_of id s))
unfolding normalize totals set_test
normalize-positions id s u =
    let rows = update (in_test id) shifted s.test_questions in
    renumber-IsNumbered (sort_questions (questions_of id s)) (λ _. 0) rows [] (λ k. refl)
      (IsUnique-sort_questions (questions_of id s)
        (IsUnique-select question_key (in_test id) s.test_questions u))
      (sort_questions-All (λ q. find (is_question q.id) rows ≡ some (shifted q)) (questions_of id s)
        (All-map
          (λ q. (in_test id q ≡ true) × (find (is_key question_key q.id) s.test_questions ≡ some q))
          (λ q. find (is_question q.id) rows ≡ some (shifted q)) (questions_of id s)
          (λ q h.
            find-update_hit question_key q.id (in_test id) shifted s.test_questions q (λ r. refl)
              h.1 h.0)
          (All-select (λ q. find (is_key question_key q.id) s.test_questions ≡ some q) (in_test id)
            s.test_questions (All-found question_key s.test_questions u))))

-- The state after `normalize` of the test `id`.
pub record IsNormalized (id : ℕ) (s s' : State) : Type 0 where
  pub numbered : IsNumbered s'.test_questions [] (sort_questions (questions_of id s))
  pub total :
      (t : ExamTest)
      → find (is_test id) s.tests ≡ some t
      → find (is_test id) s'.tests
        ≡ some (record t {
          total_questions = length (questions_of id s');
          total_marks = sum_by marks_of (questions_of id s');
        })
  pub others :
      (k : ℕ)
      → k ≢ id
      → (questions_of k s' ≡ questions_of k s)
        × (find (is_test k) s'.tests ≡ find (is_test k) s.tests)
  pub same : s' ≡ record s { tests = s'.tests; test_questions = s'.test_questions }

-- normalize of a test, in a table of questions with unique ids: every question of the test stays as
-- it was, but for its position, which is one more than the number of the questions of its section
-- that come before it in the order of position and time of creation; the row of the test stays as
-- it was, but for its totals, which are those of its questions; the questions and the row of every
-- other test and all other tables stay as they were.
pub normalize-IsNumbered :
    (id : ℕ) (s : State)
    → IsUnique question_key s.test_questions
    → IsNormalized id s (normalize id s)
unfolding normalize totals set_test
normalize-IsNumbered id s u =
    let qs = sort_questions (questions_of id s) in
    let moved = update (in_test id) shifted s.test_questions in
    let rows = renumber qs (λ _. 0) moved in
    let f = with_totals (select (in_test id) rows) in
    record {
      numbered = normalize-positions id s u;
      total = λ t here.
          find-update_hit test_key id (is_test id) f s.tests t (λ r. refl) here
            (find-passes (is_test id) s.tests t here);
      others = λ k n. (
        renumber-others id k s u n,
        find-update_ne test_key id k f s.tests (λ r. refl) (λ e. n (sym e)),
      );
      same = refl;
    }
