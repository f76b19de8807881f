-- ===== src/Exam/SectionRuns.antt =====
-- The requests of TestSectionsService keep the totals of the tests.
use ai_tgs.Common.{
  All, All-map, Bool-cases, Ensures-mono, IsUnique, List, [], ap, arith, find, inl, inr, is_key,
  length, map, none, refl, select, suc, sum_by, sym, ℕ, ◌≤◌, ◌<◌, ◌≡◌, ◌+◌, ◌∷◌, ◌∙◌,
}
use ai_tgs.Exam.Rows.{User, TestQuestion, ExamTest}
use ai_tgs.Exam.State.{State, ExamError, in_test, marks_of, questions_of}
use ai_tgs.Exam.Keeps.{question_key, IsTidy, HasTotals, Leaves}
use ai_tgs.Exam.Runs.{IsSound}
use ai_tgs.Exam.SectionRules.{
  SectionOp, perform, unplaced, KeepsContent, IsArranged, perform-IsArranged,
}

length-unplaced :
    (k : ℕ) (xs : List TestQuestion)
    → length (select (in_test k) (map unplaced xs)) ≡ length (select (in_test k) xs)
length-unplaced k [] = refl
length-unplaced k (x ∷ xs) = elim (Bool-cases (in_test k x)) [
  | inl hit ↦ rw hit (ap (λ n. suc n) (length-unplaced k xs))
  | inr miss ↦ rw miss (length-unplaced k xs)
]

sum_by-unplaced :
    (k : ℕ) (xs : List TestQuestion)
    → sum_by marks_of (select (in_test k) (map unplaced xs))
      ≡ sum_by marks_of (select (in_test k) xs)
sum_by-unplaced k [] = refl
sum_by-unplaced k (x ∷ xs) = elim (Bool-cases (in_test k x)) [
  | inl hit ↦ rw hit (ap (λ n. x.marks + n) (sum_by-unplaced k xs))
  | inr miss ↦ rw miss (sum_by-unplaced k xs)
]

-- The ids of the questions and of their tests are below a bound.
abbrev AreBelow : ℕ → List TestQuestion → Type 0
AreBelow n = All (λ (q : TestQuestion). (q.id < n) × (q.test_id < n))

AreBelow-unplaced :
    (n m : ℕ) (xs : List TestQuestion) → n ≤ m → AreBelow n xs → AreBelow m (map unplaced xs)
AreBelow-unplaced n m [] b h = tt
AreBelow-unplaced n m (x ∷ xs) b h =
    ((omega (arith, b, h.0.0), omega (arith, b, h.0.1)), AreBelow-unplaced n m xs b h.1)

AreBelow-of_unplaced :
    (n : ℕ) (xs : List TestQuestion) → AreBelow n (map unplaced xs) → AreBelow n xs
AreBelow-of_unplaced n [] h = tt
AreBelow-of_unplaced n (x ∷ xs) h = (h.0, AreBelow-of_unplaced n xs h.1)

find-unplaced :
    (i : ℕ) (xs : List TestQuestion)
    → find (is_key question_key i) xs ≡ none
    → find (is_key question_key i) (map unplaced xs) ≡ none
find-unplaced i [] h = refl
find-unplaced i (x ∷ xs) h = ground (arith, find-unplaced i xs)

find-of_unplaced :
    (i : ℕ) (xs : List TestQuestion)
    → find (is_key question_key i) (map unplaced xs) ≡ none
    → find (is_key question_key i) xs ≡ none
find-of_unplaced i [] h = refl
find-of_unplaced i (x ∷ xs) h = ground (arith, find-of_unplaced i xs)

IsUnique-unplaced :
    (xs : List TestQuestion) → IsUnique question_key xs → IsUnique question_key (map unplaced xs)
IsUnique-unplaced [] u = tt
IsUnique-unplaced (x ∷ xs) u = (find-unplaced x.id xs u.0, IsUnique-unplaced xs u.1)

IsUnique-of_unplaced :
    (xs : List TestQuestion) → IsUnique question_key (map unplaced xs) → IsUnique question_key xs
IsUnique-of_unplaced [] u = tt
IsUnique-of_unplaced (x ∷ xs) u = (find-of_unplaced x.id xs u.0, IsUnique-of_unplaced xs u.1)

IsTidy-KeepsContent : (s u : State) → KeepsContent s u → IsTidy s → IsTidy u
IsTidy-KeepsContent s u same h = (
  IsUnique-of_unplaced u.test_questions (rw same.1.0 (IsUnique-unplaced s.test_questions h.0)),
  (
    AreBelow-of_unplaced u.next_id u.test_questions
        (rw same.1.0 (AreBelow-unplaced s.next_id u.next_id s.test_questions same.1.1 h.1.0)),
    rw same.0 (
        All-map (λ (t : ExamTest). t.id < s.next_id) (λ (t : ExamTest). t.id < u.next_id) s.tests
          (λ t k. omega (arith, k, same.1.1)) h.1.1),
  ),
)

HasTotals-KeepsContent : (k : ℕ) (s u : State) → KeepsContent s u → HasTotals k s → HasTotals k u
HasTotals-KeepsContent k s u same h t e =
    let (number, sum) = h t (rw (← same.0) e) in
    let lengths : length (questions_of k s) ≡ length (questions_of k u) =
      sym (length-unplaced k s.test_questions)
      ∙ ap (λ xs. length (select (in_test k) xs)) (sym same.1.0)
      ∙ length-unplaced k u.test_questions in
    let sums : sum_by marks_of (questions_of k s) ≡ sum_by marks_of (questions_of k u) =
      sym (sum_by-unplaced k s.test_questions)
      ∙ ap (λ xs. sum_by marks_of (select (in_test k) xs)) (sym same.1.0)
      ∙ sum_by-unplaced k u.test_questions in
    (number ∙ lengths, sum ∙ sums)

-- A request that changes sections, from a state in which the ids of questions are unique, the ids
-- of questions and tests are below the next id, and every test's stored totals are those of its
-- questions, leaves such a state if it does not throw.
pub perform-IsSound :
    (op : SectionOp) (now test : ℕ) (user : User) (s : State)
    → IsSound s
    → Leaves IsSound (perform op now test user s)
perform-IsSound op now test user s h =
    Ensures-mono {E = ExamError} (IsArranged test user s) (λ _. IsSound)
      (λ _ u done.
        (IsTidy-KeepsContent s u done.1 h.0, λ k. HasTotals-KeepsContent k s u done.1 (h.1 k)))
      (perform op now test user s) (perform-IsArranged op now test user s)
