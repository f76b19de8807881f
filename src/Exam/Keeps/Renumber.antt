-- ===== src/Exam/Keeps/Renumber.antt =====
-- The private methods `totals` and `normalize` of TestsService.
use ai_tgs.Common.{
  All, All-every, All-found, All-map, All-same, All-select, All-update, Bool, Bool-cases, IsUnique,
  IsUnique-update, List, Option-cases, [], arith, false, find, find-passes, find-update_hit, inl,
  inr, is_key, refl, select, select-update, some, true, update, ℕ, ◌<◌, ◌≡◌, ◌≢◌, ◌+◌, ◌∷◌, ◌∙◌,
  find-update-none, IsUnique-update_by,
}
use ai_tgs.Exam.Rows.{TestQuestion}
use ai_tgs.Exam.State.{
  State, is_test, in_test, is_question, questions_of, with_totals, set_test, totals, normalize,
  renumber, sort_questions, insert_question, question_first, set_position, shifted, bump,
}
use ai_tgs.Exam.Keeps.{
  question_key, test_key, IsTidy, Touches, HasTotals, Touches-trans, set_test-Touches,
  with_questions, with_questions-Touches,
}

pub totals-Touches : (id : ℕ) (s : State) → IsTidy s → Touches id s (totals id s)
unfolding totals
totals-Touches id s h = set_test-Touches id (with_totals (questions_of id s)) s (λ t. refl) h

pub totals-HasTotals : (id : ℕ) (s : State) → HasTotals id (totals id s)
unfolding totals set_test
totals-HasTotals id s t e = elim (Option-cases (find (is_test id) s.tests)) [
  | inl gone ↦
      let still =
        find-update-none test_key id id (with_totals (questions_of id s)) s.tests (λ x. refl)
          gone in
      let impossible : ⊥ = cc in absurd impossible
  | inr (old, was) ↦
      let now =
        find-update_hit test_key id (is_test id) (with_totals (questions_of id s)) s.tests old
          (λ x. refl) was (find-passes (is_test id) s.tests old was) in
      let same : with_totals (questions_of id s) old ≡ t = cc in rw (← same) (refl, refl)
]

insert_question-All {κ} :
    (P : TestQuestion → Type κ) (q : TestQuestion) (xs : List TestQuestion)
    → P q
    → All P xs
    → All P (insert_question q xs)
unfolding insert_question
insert_question-All P q [] h k = (h, tt)
insert_question-All P q (x ∷ xs) h k = elim (Bool-cases (question_first q x)) [
  | inl hit ↦ rw hit (h, k)
  | inr miss ↦ rw miss (k.0, insert_question-All P q xs h k.1)
]

pub sort_questions-All {κ} :
    (P : TestQuestion → Type κ) (xs : List TestQuestion) → All P xs → All P (sort_questions xs)
unfolding sort_questions
sort_questions-All P [] h = tt
sort_questions-All P (x ∷ xs) h =
    insert_question-All P x (sort_questions xs) h.0 (sort_questions-All P xs h.1)

-- Every row with the id of the question is of the test.
abbrev pub Owns : ℕ → List TestQuestion → TestQuestion → Type 0
Owns id rows q = All (λ r. is_question q.id r ≡ true → in_test id r ≡ true) rows

-- An UPDATE that keeps the ids and the tests of the rows.
abbrev pub KeepsIds : (TestQuestion → TestQuestion) → Type 0
KeepsIds f =
    (r : TestQuestion) → (question_key (f r) ≡ question_key r) × ((f r).test_id ≡ r.test_id)

pub Owns-update :
    (id : ℕ) (u : TestQuestion → Bool) (f : TestQuestion → TestQuestion) (rows : List TestQuestion)
    (q : TestQuestion)
    → KeepsIds f
    → Owns id rows q
    → Owns id (update u f rows) q
Owns-update id u f rows q keeps h =
    All-update (λ r. is_question q.id r ≡ true → in_test id r ≡ true) u f rows
      (λ r g e. rw (keeps r).1 (g (rw (keeps r).0 at e))) h

pub in_test-other :
    (id k : ℕ) (r : TestQuestion) → k ≢ id → in_test id r ≡ true → in_test k r ≡ false
in_test-other id k r n e = ground (arith, n)

pub select-update_owned :
    (id k : ℕ) (u : TestQuestion → Bool) (f : TestQuestion → TestQuestion)
    (rows : List TestQuestion)
    → k ≢ id
    → KeepsIds f
    → All (λ r. u r ≡ true → in_test id r ≡ true) rows
    → select (in_test k) (update u f rows) ≡ select (in_test k) rows
select-update_owned id k u f rows n keeps h = select-update (in_test k) u f rows (
    All-map (λ r. u r ≡ true → in_test id r ≡ true)
      (λ r. u r ≡ true → (in_test k r ≡ false) × (in_test k (f r) ≡ false)) rows
      (λ r g e. let away = in_test-other id k r n (g e) in (away, rw (keeps r).1 away)) h)

-- A question of a test owns its row, and so do all questions of the test.
pub row-Owns :
    (id : ℕ) (q : TestQuestion) (s : State)
    → IsUnique question_key s.test_questions
    → in_test id q ≡ true
    → find (is_key question_key q.id) s.test_questions ≡ some q
    → Owns id s.test_questions q
row-Owns id q s u mine row =
    All-map (λ r. is_question q.id r ≡ true → r ≡ q)
      (λ r. is_question q.id r ≡ true → in_test id r ≡ true) s.test_questions
      (λ r g e. rw (g e) mine) (All-same question_key q.id q s.test_questions u row)

pub questions_of-Owns :
    (id : ℕ) (s : State)
    → IsUnique question_key s.test_questions
    → All (Owns id s.test_questions) (questions_of id s)
questions_of-Owns id s u =
    All-map
      (λ q. (in_test id q ≡ true) × (find (is_key question_key q.id) s.test_questions ≡ some q))
      (Owns id s.test_questions) (questions_of id s) (λ q h. row-Owns id q s u h.0 h.1)
      (All-select (λ q. find (is_key question_key q.id) s.test_questions ≡ some q) (in_test id)
        s.test_questions (All-found question_key s.test_questions u))

renumber-IsUnique :
    (qs : List TestQuestion) (counters : ℕ → ℕ) (rows : List TestQuestion)
    → IsUnique question_key rows
    → IsUnique question_key (renumber qs counters rows)
unfolding renumber
renumber-IsUnique [] counters rows u = u
renumber-IsUnique (q ∷ qs) counters rows u =
    renumber-IsUnique qs (bump q.test_section_id counters)
      (update (is_question q.id) (set_position (counters q.test_section_id + 1)) rows)
      (IsUnique-update question_key q.id (set_position (counters q.test_section_id + 1)) rows
        (λ r. refl) u)

renumber-All :
    (P : TestQuestion → Type 0) (qs : List TestQuestion) (counters : ℕ → ℕ)
    (rows : List TestQuestion)
    → ((p : ℕ) (r : TestQuestion) → P r → P (set_position p r))
    → All P rows
    → All P (renumber qs counters rows)
unfolding renumber
renumber-All P [] counters rows k h = h
renumber-All P (q ∷ qs) counters rows k h =
    renumber-All P qs (bump q.test_section_id counters)
      (update (is_question q.id) (set_position (counters q.test_section_id + 1)) rows) k
      (All-update P (is_question q.id) (set_position (counters q.test_section_id + 1)) rows
        (k (counters q.test_section_id + 1)) h)

renumber-select :
    (id k : ℕ) (qs : List TestQuestion) (counters : ℕ → ℕ) (rows : List TestQuestion)
    → k ≢ id
    → All (Owns id rows) qs
    → select (in_test k) (renumber qs counters rows) ≡ select (in_test k) rows
unfolding renumber
renumber-select id k [] counters rows n h = refl
renumber-select id k (q ∷ qs) counters rows n h =
    let f = set_position (counters q.test_section_id + 1) in
    let owned =
      All-map (Owns id rows) (Owns id (update (is_question q.id) f rows)) qs
        (λ x. Owns-update id (is_question q.id) f rows x (λ r. (refl, refl))) h.1 in
    renumber-select id k qs (bump q.test_section_id counters) (update (is_question q.id) f rows) n
      owned
    ∙ select-update_owned id k (is_question q.id) f rows n (λ r. (refl, refl)) h.0

pub normalize-HasTotals : (id : ℕ) (s : State) → HasTotals id (normalize id s)
unfolding normalize
normalize-HasTotals id s = totals-HasTotals id (
    with_questions
      (renumber (sort_questions (questions_of id s)) (λ _. 0)
        (update (in_test id) shifted s.test_questions))
      s)

All-own :
    (id : ℕ) (rows : List TestQuestion) → All (λ r. in_test id r ≡ true → in_test id r ≡ true) rows
All-own id rows = All-every (λ r. in_test id r ≡ true → in_test id r ≡ true) rows (λ r e. e)

-- The questions of the other tests stay as they are.
pub renumber-others :
    (id k : ℕ) (s : State)
    → IsUnique question_key s.test_questions
    → k ≢ id
    → select (in_test k) (
        renumber
          (sort_questions (questions_of id s))
          (λ _. 0)
          (update (in_test id) shifted s.test_questions))
      ≡ questions_of k s
renumber-others id k s u n =
    let moved = update (in_test id) shifted s.test_questions in
    let owned = sort_questions-All (Owns id moved) (questions_of id s) (
      All-map (Owns id s.test_questions) (Owns id moved) (questions_of id s)
        (λ q. Owns-update id (in_test id) shifted s.test_questions q (λ r. (refl, refl)))
        (questions_of-Owns id s u)) in
    renumber-select id k (sort_questions (questions_of id s)) (λ _. 0) moved n owned
    ∙ select-update_owned id k (in_test id) shifted s.test_questions n (λ r. (refl, refl))
        (All-own id s.test_questions)

pub normalize-Touches : (id : ℕ) (s : State) → IsTidy s → Touches id s (normalize id s)
unfolding normalize
normalize-Touches id s h =
    let moved = update (in_test id) shifted s.test_questions in
    let qs = sort_questions (questions_of id s) in
    let rows = renumber qs (λ _. 0) moved in
    let unique =
      renumber-IsUnique qs (λ _. 0) moved
        (IsUnique-update_by question_key (in_test id) shifted (λ r. refl) s.test_questions h.0) in
    let fresh =
      renumber-All (λ (q : TestQuestion). (q.id < s.next_id) × (q.test_id < s.next_id)) qs (λ _. 0)
        moved (λ p r k. k)
        (All-update (λ (q : TestQuestion). (q.id < s.next_id) × (q.test_id < s.next_id))
          (in_test id) shifted s.test_questions (λ r k. k) h.1.0) in
    let first =
      with_questions-Touches id rows s h unique fresh (λ k n. renumber-others id k s h.0 n) in
    Touches-trans id s (with_questions rows s) (normalize id s) first
      (totals-Touches id (with_questions rows s) first.0)
