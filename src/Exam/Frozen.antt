-- ===== src/Exam/Frozen.antt =====
-- Tests that are no longer drafts, and who may change a test.
use ai_tgs.Common.{
  Bool-cases, Ensures, Ensures-mono, List, Result, [], ap, arith, err, false, find, find-fresh,
  find-passes, find-update_hit, inl, inr, ok, refl, some, ℕ, ◌≡◌, ◌≢◌, ◌==◌, ◌∷◌, ◌⊎◌, ◌∙◌, ◌>>=◌,
  ◌>>◌,
}
use ai_tgs.Exam.Rows.{User, ExamTest, TestStatus, is_draft, is_archived, is_finalized}
use ai_tgs.Exam.State.{State, ExamError, ExamAction, is_test, questions_of, set_test, write_audit}
use ai_tgs.Exam.Access.{lock, draft}
use ai_tgs.Exam.Edit
use ai_tgs.Exam.Reorder
use ai_tgs.Exam.Finalize
use ai_tgs.Exam.Clone
use ai_tgs.Exam.Service.{Op, Request, perform, run, state_after, named_test}
use ai_tgs.Exam.Keeps.{Leaves, Ensures-lock, Ensures-draft, MayChange, test_key}
use ai_tgs.Exam.Keeps.Edit.{Finished}
use ai_tgs.Exam.Runs.{IsSound, target, perform-Finished, state_after-IsSound}

-- The row is as it was, or it was only archived.
abbrev pub OnlyArchived : ExamTest → ExamTest → Type 0
OnlyArchived old new =
    (new ≡ old)
    ⊎ ((at : ℕ) × (new ≡ record old { status = TestStatus.archived; archived_at = some at }))

-- The test `k` with the row `old` has the same questions, with their snapshots, marks and
-- positions, and its row is kept but for archiving.
abbrev pub KeepsTest : ℕ → ExamTest → State → State → Type 0
KeepsTest k old s t =
    (questions_of k t ≡ questions_of k s)
    × ((new : ExamTest) × ((find (is_test k) t.tests ≡ some new) × OnlyArchived old new))

-- A request that needs a draft throws on another test.
Ensures-not_draft :
    {B : Type 0} (Q : B → State → Type 0) (id : ℕ) (user : User) (f : ExamTest → ExamAction B)
    (s : State) (old : ExamTest)
    → find (is_test id) s.tests ≡ some old
    → is_draft old.status ≡ false
    → Ensures Q ((lock id user >>= λ t. draft t >> f t) s)
Ensures-not_draft Q id user f s old row closed = Ensures-lock Q id user _ s (λ t e m.
    let same : old ≡ t = cc in
    Ensures-draft Q t (f t) s (λ d.
      let closed' : is_draft t.status ≡ false = rw (← same) closed in
      let impossible : ⊥ = cc in absurd impossible))

other-KeepsTest :
    (id k : ℕ) (old : ExamTest) (s t : State)
    → k ≢ id
    → find (is_test k) s.tests ≡ some old
    → Finished id s t
    → KeepsTest k old s t
other-KeepsTest id k old s t away row done =
    let (rows, same) = done.0.1 k away in (rows, (old, (same ∙ row, inl refl)))

archive-KeepsTest :
    (now id : ℕ) (user : User) (s : State) (old : ExamTest)
    → find (is_test id) s.tests ≡ some old
    → Leaves (KeepsTest id old s) (Edit.archive now id user s)
unfolding Edit.archive set_test write_audit
archive-KeepsTest now id user s old row =
    Ensures-lock (λ _. KeepsTest id old s) id user _ s
      (λ t e m. elim (Bool-cases (is_archived t.status)) [
        | inl gone ↦ rw gone (refl, (old, (row, inl refl)))
        | inr live ↦
            let f =
              λ (x : ExamTest). record x { status = TestStatus.archived; archived_at = some now } in
            rw live (
              refl,
              (
                f old,
                (
                  find-update_hit test_key id (is_test id) f s.tests old (λ x. refl) row
                      (find-passes (is_test id) s.tests old row),
                  inr (now, refl),
                ),
              ),
            )
      ])

finalize-KeepsTest :
    (now id : ℕ) (user : User) (s : State) (old : ExamTest)
    → find (is_test id) s.tests ≡ some old
    → is_draft old.status ≡ false
    → Leaves (KeepsTest id old s) (Finalize.finalize now id user s)
unfolding Finalize.finalize
finalize-KeepsTest now id user s old row closed =
    Ensures-lock (λ _. KeepsTest id old s) id user _ s
      (λ t e m. elim (Bool-cases (is_finalized t.status)) [
        | inl done ↦ rw done (refl, (old, (row, inl refl)))
        | inr pending ↦ rw pending (
            Ensures-draft (λ _. KeepsTest id old s) t _ s
              (λ d.
                let same : old ≡ t = cc in
                let closed' : is_draft t.status ≡ false = rw (← same) closed in
                let impossible : ⊥ = cc in absurd impossible))
      ])

own-KeepsTest :
    (op : Op) (now : ℕ) (user : User) (s : State) (old : ExamTest)
    → IsSound s
    → find (is_test (target op s)) s.tests ≡ some old
    → is_draft old.status ≡ false
    → Leaves (KeepsTest (target op s) old s) (perform op now user s)
unfolding perform Edit.update_test Edit.add Edit.bulk Edit.add_many Edit.remove Edit.refresh
    Reorder.reorder
own-KeepsTest (Op.create dto) now user s old h row closed =
    let gone = find-fresh test_key s.next_id s.tests h.0.1.1 in
    let impossible : ⊥ = cc in absurd impossible
own-KeepsTest (Op.clone id) now user s old h row closed =
    let gone = find-fresh test_key s.next_id s.tests h.0.1.1 in
    let impossible : ⊥ = cc in absurd impossible
own-KeepsTest (Op.update id dto) now user s old h row closed =
    Ensures-not_draft (λ _. KeepsTest id old s) id user _ s old row closed
own-KeepsTest (Op.add id dto) now user s old h row closed =
    Ensures-not_draft (λ _. KeepsTest id old s) id user _ s old row closed
own-KeepsTest (Op.bulk id ids) now user s old h row closed =
    Ensures-not_draft (λ _. KeepsTest id old s) id user _ s old row closed
own-KeepsTest (Op.reorder id items) now user s old h row closed =
    Ensures-not_draft (λ _. KeepsTest id old s) id user _ s old row closed
own-KeepsTest (Op.remove id question) now user s old h row closed =
    Ensures-not_draft (λ _. KeepsTest id old s) id user _ s old row closed
own-KeepsTest (Op.refresh id question) now user s old h row closed =
    Ensures-not_draft (λ _. KeepsTest id old s) id user _ s old row closed
own-KeepsTest (Op.finalize id) now user s old h row closed =
    finalize-KeepsTest now id user s old row closed
own-KeepsTest (Op.archive id) now user s old h row closed = archive-KeepsTest now id user s old row

pub perform-KeepsTest :
    (op : Op) (now : ℕ) (user : User) (s : State) (k : ℕ) (old : ExamTest)
    → IsSound s
    → find (is_test k) s.tests ≡ some old
    → is_draft old.status ≡ false
    → Leaves (KeepsTest k old s) (perform op now user s)
perform-KeepsTest op now user s k old h row closed = elim (Bool-cases (k == target op s)) [
  | inl hit ↦
      let same : k ≡ target op s = ground arith in
      rw same (own-KeepsTest op now user s old h (rw (← same) row) closed)
  | inr miss ↦
      Ensures-mono {E = ExamError} (λ _. Finished (target op s) s) (λ _. KeepsTest k old s)
        (λ _ t. other-KeepsTest (target op s) k old s t (ground arith) row) (perform op now user s)
        (perform-Finished op now user s h)
]

OnlyArchived-trans : (a b c : ExamTest) → OnlyArchived a b → OnlyArchived b c → OnlyArchived a c
OnlyArchived-trans a b c (inl e) g = rw (← e) g
OnlyArchived-trans a b c (inr (at, e)) (inl g) = inr (at, g ∙ e)
OnlyArchived-trans a b c (inr (at, e)) (inr (later, g)) =
    let again : ExamTest → ExamTest =
      λ x. record x { status = TestStatus.archived; archived_at = some later } in
    inr (later, g ∙ ap again e)

not_draft-OnlyArchived :
    (a b : ExamTest) → OnlyArchived a b → is_draft a.status ≡ false → is_draft b.status ≡ false
not_draft-OnlyArchived a b (inl e) closed = rw e closed
not_draft-OnlyArchived a b (inr (at, e)) closed = rw e refl

-- Along every run of requests from a state in which the ids of questions are unique, the ids of
-- questions and tests are below the next id, and the stored totals of tests are right: a test that
-- is not a draft keeps its questions (their snapshots, marks, sections and positions), and its row
-- changes in nothing but the status and the time of archiving.
pub run-KeepsTest :
    (rs : List Request) (s : State) (k : ℕ) (old : ExamTest)
    → IsSound s
    → find (is_test k) s.tests ≡ some old
    → is_draft old.status ≡ false
    → KeepsTest k old s (run rs s)
unfolding run
run-KeepsTest [] s k old h row closed = (refl, (old, (row, inl refl)))
run-KeepsTest (r ∷ rs) s k old h row closed =
    let t = state_after s (perform r.op r.now r.user s) in
    let (rows, mid) =
      go (perform r.op r.now r.user s) (perform-KeepsTest r.op r.now r.user s k old h row closed) in
    let (rows', end) =
      run-KeepsTest rs t k mid.0 (state_after-IsSound r s h) mid.1.0
        (not_draft-OnlyArchived old mid.0 mid.1.1 closed) in
    (rows' ∙ rows, (end.0, (end.1.0, OnlyArchived-trans old mid.0 end.0 mid.1.1 end.1.1)))
  where
    go :
        (o : Result ExamError (Unit {0} × State))
        → Leaves (KeepsTest k old s) o
        → KeepsTest k old s (state_after s o)
    go (ok p) kept = kept
    go (err e) kept = (refl, (old, (row, inl refl)))

-- The test that a request names is there, and its actor may change it.
abbrev pub IsAllowed : ℕ → User → State → Type 0
IsAllowed id user s = (t : ExamTest) × ((find (is_test id) s.tests ≡ some t) × MayChange user t)

Ensures-constant :
    {B : Type 0} (P : Type 0) → P → (r : Result ExamError (B × State)) → Ensures (λ _ _. P) r
Ensures-constant P p (ok r) = p
Ensures-constant P p (err e) = tt

lock-IsAllowed :
    {B : Type 0} (id : ℕ) (user : User) (f : ExamTest → ExamAction B) (s : State)
    → Leaves (λ _. IsAllowed id user s) ((lock id user >>= f) s)
lock-IsAllowed id user f s =
    Ensures-lock (λ _ _. IsAllowed id user s) id user f s
      (λ t e m. Ensures-constant (IsAllowed id user s) (t, (e, m)) (f t s))

-- A request that names a test and does not throw: the test exists, and the actor is a system
-- administrator or the test's creator.
pub perform-IsAllowed :
    (op : Op) (now : ℕ) (user : User) (s : State) (id : ℕ)
    → named_test op ≡ some id
    → Leaves (λ _. IsAllowed id user s) (perform op now user s)
unfolding perform Edit.update_test Edit.add Edit.bulk Edit.add_many Edit.remove Edit.refresh
    Edit.archive Reorder.reorder Finalize.finalize Clone.clone
perform-IsAllowed (Op.create dto) now user s id named = cc
perform-IsAllowed (Op.update i dto) now user s id named =
    let same : i ≡ id = cc in rw (← same) (lock-IsAllowed i user _ s)
perform-IsAllowed (Op.add i dto) now user s id named =
    let same : i ≡ id = cc in rw (← same) (lock-IsAllowed i user _ s)
perform-IsAllowed (Op.bulk i ids) now user s id named =
    let same : i ≡ id = cc in rw (← same) (lock-IsAllowed i user _ s)
perform-IsAllowed (Op.reorder i items) now user s id named =
    let same : i ≡ id = cc in rw (← same) (lock-IsAllowed i user _ s)
perform-IsAllowed (Op.remove i question) now user s id named =
    let same : i ≡ id = cc in rw (← same) (lock-IsAllowed i user _ s)
perform-IsAllowed (Op.refresh i question) now user s id named =
    let same : i ≡ id = cc in rw (← same) (lock-IsAllowed i user _ s)
perform-IsAllowed (Op.finalize i) now user s id named =
    let same : i ≡ id = cc in rw (← same) (lock-IsAllowed i user _ s)
perform-IsAllowed (Op.clone i) now user s id named =
    let same : i ≡ id = cc in rw (← same) (lock-IsAllowed i user _ s)
perform-IsAllowed (Op.archive i) now user s id named =
    let same : i ≡ id = cc in rw (← same) (lock-IsAllowed i user _ s)
