-- ===== src/Exam/Keeps/Reorder.antt =====
-- TestsService.reorder.
use ai_tgs.Common.{
  All-every, Ensures-throw_if, List, Option-cases, [], arith, inl, inr, map, not, refl, true,
  update, ℕ, ◌≡◌, ◌&&◌, ◌∷◌,
}
use ai_tgs.Exam.Rows.{User}
use ai_tgs.Exam.State.{
  State, in_test, is_question, questions_of, sections_of, totals, shifted, AuditAction,
  full_unique_reorder_required,
}
use ai_tgs.Exam.Reorder
use ai_tgs.Exam.Reorder.{Target, OrderItemDto}
use ai_tgs.Exam.Keeps.{
  IsTidy, Touches, Leaves, Touches-trans, Touches-refl, Ensures-lock, Ensures-draft, with_questions,
}
use ai_tgs.Exam.Keeps.Edit.{Finished, Finished-audit, Finished-totals, update_owned-Touches}

place_one-Touches :
    (id : ℕ) (t : Target) (s : State)
    → IsTidy s
    → Touches id s (with_questions (Reorder.place_one id t s.test_questions) s)
place_one-Touches id t s h = elim (Option-cases t.section) [
  | inl nowhere ↦ rw nowhere (Touches-refl id s h)
  | inr (section, e) ↦ rw e (
      update_owned-Touches id (λ q. is_question t.test_question_id q && in_test id q)
        (Reorder.place t.position section) s h (λ r. (refl, refl))
        (All-every
          (λ q. (is_question t.test_question_id q && in_test id q) ≡ true → in_test id q ≡ true)
          s.test_questions (λ q g. ground arith)))
]

place_all-Touches :
    (id : ℕ) (ts : List Target) (s : State)
    → IsTidy s
    → Touches id s (with_questions (Reorder.place_all id ts s.test_questions) s)
unfolding Reorder.place_all
place_all-Touches id [] s h = Touches-refl id s h
place_all-Touches id (t ∷ ts) s h =
    let next = with_questions (Reorder.place_one id t s.test_questions) s in
    let first = place_one-Touches id t s h in
    Touches-trans id s next (with_questions (Reorder.place_all id ts next.test_questions) next)
      first (place_all-Touches id ts next first.0)

pub reorder-Finished :
    (id : ℕ) (items : List OrderItemDto) (user : User) (s : State)
    → IsTidy s
    → Leaves (Finished id s) (Reorder.reorder id items user s)
unfolding Reorder.reorder
reorder-Finished id items user s h =
    let targets = map (Reorder.target_of (questions_of id s)) items in
    let moved = with_questions (update (in_test id) shifted s.test_questions) s in
    let first =
      update_owned-Touches id (in_test id) shifted s h (λ r. (refl, refl))
        (All-every (λ q. in_test id q ≡ true → in_test id q ≡ true) s.test_questions (λ q g. g)) in
    let touched =
      Touches-trans id s moved (Reorder.reordered id targets s) first
        (place_all-Touches id targets moved first.0) in
    Ensures-lock (λ _. Finished id s) id user _ s
      (λ t e m.
        Ensures-draft (λ _. Finished id s) t _ s
          (λ d.
            Ensures-throw_if (λ _. Finished id s)
              (not (Reorder.is_full_reorder (questions_of id s) (sections_of id s) items))
              full_unique_reorder_required _ s
              (λ full.
                Finished-audit id user.id AuditAction.question_reorder id s
                  (totals id (Reorder.reordered id targets s))
                  (Finished-totals id s (Reorder.reordered id targets s) touched))))
