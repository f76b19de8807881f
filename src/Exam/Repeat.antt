-- ===== src/Exam/Repeat.antt =====
-- A second call of TestsService.finalize.
use ai_tgs.Common.{
  Bool-cases, Ensures-mono, false, find, inl, inr, ok, refl, some, true, ℕ, ◌≡◌, ◌>>=◌,
}
use ai_tgs.Exam.Rows.{User, ExamTest, is_finalized, is_draft}
use ai_tgs.Exam.State.{State, ExamError, is_test, questions_of, sort_questions}
use ai_tgs.Exam.Finalize
use ai_tgs.Exam.Keeps.{Leaves, Ensures-lock, Ensures-draft, MayChange, lock-MayChange}
use ai_tgs.Exam.Ready.{IsReady, IsFinalized, IsBilled, finalize-IsReady}

finalize-IsFinalized :
    (now id : ℕ) (user : User) (s : State) (t : ExamTest)
    → find (is_test id) s.tests ≡ some t
    → MayChange user t
    → is_finalized t.status ≡ true
    → Finalize.finalize now id user s ≡ ok (tt, s)
unfolding Finalize.finalize
finalize-IsFinalized now id user s t row may done =
    let locked = lock-MayChange id user s t row may in rw (locked, ◌>>=◌, done) refl

finalize-finalize_closed :
    (now later id : ℕ) (user : User) (s : State) (t : ExamTest)
    → find (is_test id) s.tests ≡ some t
    → is_draft t.status ≡ false
    → Leaves (λ u. Finalize.finalize later id user u ≡ ok (tt, u)) (Finalize.finalize now id user s)
unfolding Finalize.finalize
finalize-finalize_closed now later id user s t row closed =
    Ensures-lock (λ _ u. Finalize.finalize later id user u ≡ ok (tt, u)) id user _ s
      (λ x e m. elim (Bool-cases (is_finalized x.status)) [
        | inl done ↦ rw done (finalize-IsFinalized later id user s x e m done)
        | inr pending ↦ rw pending (
            Ensures-draft (λ _ u. Finalize.finalize later id user u ≡ ok (tt, u)) x _ s
              (λ d.
                let same : t ≡ x = cc in
                let closed' : is_draft x.status ≡ false = rw (← same) closed in
                let impossible : ⊥ = cc in absurd impossible))
      ])

-- A call of finalize that did not throw can be repeated at any later time by the same actor: the
-- repeated call does not throw and changes nothing, so that it charges nothing either.
pub finalize-finalize :
    (now later id : ℕ) (user : User) (s : State) (t : ExamTest)
    → find (is_test id) s.tests ≡ some t
    → Leaves (λ u. Finalize.finalize later id user u ≡ ok (tt, u)) (Finalize.finalize now id user s)
finalize-finalize now later id user s t row = elim (Bool-cases (is_draft t.status)) [
  | inl mutable ↦
      Ensures-mono {E = ExamError}
        (λ _ u.
          IsReady id t s
          × (MayChange user t × (IsFinalized now id t s u × IsBilled now id user s u)))
        (λ _ u. Finalize.finalize later id user u ≡ ok (tt, u))
        (λ _ u h.
          finalize-IsFinalized later id user u
            (Finalize.finalized_test now h.1.1.0.0 (sort_questions (questions_of id s)) t) h.1.1.0.1
            h.1.0 refl)
        (Finalize.finalize now id user s) (finalize-IsReady now id user s t row mutable)
  | inr closed ↦ finalize-finalize_closed now later id user s t row closed
]
