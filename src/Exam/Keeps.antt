-- ===== src/Exam/Keeps.antt =====
-- What a request for one test leaves alone: the other tests and their questions.
pub mod Renumber
pub mod Edit
pub mod Add
pub mod Reorder
pub mod Finalize
pub mod Clone
use ai_tgs.Common.{
  All, All-update, Bool-cases, Ensures, IsUnique, List, Option-cases, arith, find, find-update_ne,
  inl, inr, length, or_throw, refl, select, some, sum_by, sym, true, ℕ, ◌<◌, ◌≡◌, ◌≢◌, ◌==◌, ◌⊎◌,
  ◌∙◌, ◌>>=◌, Result, ◌>>◌, Ensures-throw_if, not, ok,
}
use ai_tgs.Exam.Rows.{User, ExamTest, TestQuestion, is_system_admin, is_draft}
use ai_tgs.Exam.State.{
  State, ExamAction, is_test, in_test, questions_of, marks_of, set_test, write_audit, AuditAction,
  ExamError, only_draft_is_mutable,
}
use ai_tgs.Exam.Access.{lock, authorize, draft}

abbrev pub question_key : TestQuestion → ℕ
question_key q = q.id

abbrev pub test_key : ExamTest → ℕ
test_key t = t.id

-- The ids of the rows are below the next one, and no two questions share theirs.
abbrev pub IsTidy : State → Type 0
IsTidy s =
    IsUnique question_key s.test_questions
    × (All (λ (q : TestQuestion). (q.id < s.next_id) × (q.test_id < s.next_id)) s.test_questions
        × All (λ (t : ExamTest). t.id < s.next_id) s.tests)

-- From `s` to `t`, only the test `id` and its questions differ.
abbrev pub SameOthers : ℕ → State → State → Type 0
SameOthers id s t =
    (k : ℕ)
    → k ≢ id
    → (questions_of k t ≡ questions_of k s) × (find (is_test k) t.tests ≡ find (is_test k) s.tests)

abbrev pub Touches : ℕ → State → State → Type 0
Touches id s t = IsTidy t × SameOthers id s t

-- The totals of a test are those of its questions.
abbrev pub HasTotals : ℕ → State → Type 0
HasTotals k s =
    (t : ExamTest)
    → find (is_test k) s.tests ≡ some t
    → (t.total_questions ≡ length (questions_of k s))
      × (t.total_marks ≡ sum_by marks_of (questions_of k s))

pub Touches-refl : (id : ℕ) (s : State) → IsTidy s → Touches id s s
Touches-refl id s h = (h, λ k n. (refl, refl))

pub SameOthers-trans :
    (id : ℕ) (s t u : State) → SameOthers id s t → SameOthers id t u → SameOthers id s u
SameOthers-trans id s t u h g k n = ((g k n).0 ∙ (h k n).0, (g k n).1 ∙ (h k n).1)

pub Touches-trans : (id : ℕ) (s t u : State) → Touches id s t → Touches id t u → Touches id s u
Touches-trans id s t u h g = (g.0, SameOthers-trans id s t u h.1 g.1)

pub set_test-Touches :
    (id : ℕ) (f : ExamTest → ExamTest) (s : State)
    → ((t : ExamTest) → test_key (f t) ≡ test_key t)
    → IsTidy s
    → Touches id s (set_test id f s)
unfolding set_test
set_test-Touches id f s same (u, (fresh, tests)) = (
  (
    u,
    (
      fresh,
      All-update (λ (t : ExamTest). t.id < s.next_id) (is_test id) f s.tests (λ t h. rw (same t) h)
          tests,
    ),
  ),
  (λ k n. (refl, find-update_ne test_key id k f s.tests same (λ e. n (sym e)))),
)

abbrev pub with_questions : List TestQuestion → State → State
with_questions rows s = record s { test_questions = rows }

pub with_questions-Touches :
    (id : ℕ) (rows : List TestQuestion) (s : State)
    → IsTidy s
    → IsUnique question_key rows
    → All (λ (q : TestQuestion). (q.id < s.next_id) × (q.test_id < s.next_id)) rows
    → ((k : ℕ) → k ≢ id → select (in_test k) rows ≡ questions_of k s)
    → Touches id s (with_questions rows s)
with_questions-Touches id rows s h u fresh same = ((u, (fresh, h.1.1)), λ k n. (same k n, refl))

pub write_audit-Touches :
    (id user : ℕ) (action : AuditAction) (entity : ℕ) (s : State)
    → IsTidy s
    → Touches id s (write_audit user action entity s)
unfolding write_audit
write_audit-Touches id user action entity s h = (h, λ k n. (refl, refl))

pub write_audit-HasTotals :
    (k user : ℕ) (action : AuditAction) (entity : ℕ) (s : State)
    → HasTotals k s
    → HasTotals k (write_audit user action entity s)
unfolding write_audit
write_audit-HasTotals k user action entity s h = h

-- The actor may change the test: a system administrator or the test's creator.
abbrev pub MayChange : User → ExamTest → Type 0
MayChange user t = (is_system_admin user.role ≡ true) ⊎ (t.created_by ≡ user.id)

-- The state that a request leaves, if it does not throw.
abbrev pub Leaves : {A : Type 0} → (State → Type 0) → Result ExamError (A × State) → Type 0
Leaves P r = Ensures {E = ExamError} (λ _. P) r

-- The guard of a change: a test in draft.
pub Ensures-draft :
    {B : Type 0} (Q : B → State → Type 0) (t : ExamTest) (k : ExamAction B) (s : State)
    → (is_draft t.status ≡ true → Ensures Q (k s))
    → Ensures Q ((draft t >> k) s)
unfolding draft
Ensures-draft Q t k s h =
    Ensures-throw_if Q (not (is_draft t.status)) only_draft_is_mutable k s (λ e. h (ground arith))

pub Ensures-lock :
    {B : Type 0} (Q : B → State → Type 0) (id : ℕ) (user : User) (f : ExamTest → ExamAction B)
    (s : State)
    → ((t : ExamTest) → find (is_test id) s.tests ≡ some t → MayChange user t → Ensures Q (f t s))
    → Ensures Q ((lock id user >>= f) s)
unfolding lock authorize
Ensures-lock Q id user f s k = elim (Option-cases (find (is_test id) s.tests)) [
  | inl gone ↦ rw (gone, or_throw, ◌>>=◌) tt
  | inr (t, e) ↦ elim (Bool-cases (is_system_admin user.role)) [
    | inl admin ↦ rw (e, or_throw, ◌>>=◌, admin) (k t e (inl admin))
    | inr other ↦ elim (Bool-cases (t.created_by == user.id)) [
      | inl own ↦ rw (e, or_throw, ◌>>=◌, other, own) (k t e (inr (ground arith)))
      | inr foreign ↦ rw (e, or_throw, ◌>>=◌, other, foreign) tt
    ]
  ]
]

-- The lock of one who may change the test.
pub lock-MayChange :
    (id : ℕ) (user : User) (s : State) (t : ExamTest)
    → find (is_test id) s.tests ≡ some t
    → MayChange user t
    → lock id user s ≡ ok (t, s)
unfolding lock authorize
lock-MayChange id user s t row (inl admin) = rw (row, or_throw, ◌>>=◌, admin) refl
lock-MayChange id user s t row (inr own) =
    let mine : (t.created_by == user.id) ≡ true = ground arith in
    elim (Bool-cases (is_system_admin user.role)) [
      | inl admin ↦ rw (row, or_throw, ◌>>=◌, admin) refl
      | inr other ↦ rw (row, or_throw, ◌>>=◌, other, mine) refl
    ]
