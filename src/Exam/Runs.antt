-- ===== src/Exam/Runs.antt =====
-- Runs of requests of the test builder, and the totals of the tests along them.
use ai_tgs.Common.{
  Bool-cases, List, Result, [], arith, err, inl, inr, map, ok, sym, ℕ, ◌≡◌, ◌==◌, ◌∷◌, ◌∙◌,
}
use ai_tgs.Exam.Rows.{User}
use ai_tgs.Exam.State.{State, ExamError}
use ai_tgs.Exam.Service.{Op, Request, perform, run, state_after}
use ai_tgs.Exam.Keeps.{IsTidy, HasTotals, Leaves}
use ai_tgs.Exam.Keeps.Edit.{Finished}
use ai_tgs.Exam.Keeps.Edit
use ai_tgs.Exam.Keeps.Add
use ai_tgs.Exam.Keeps.Reorder
use ai_tgs.Exam.Keeps.Finalize
use ai_tgs.Exam.Keeps.Clone
use ai_tgs.Exam.Edit.{plain, add, bulk}

abbrev pub IsSound : State → Type 0
IsSound s = IsTidy s × ((k : ℕ) → HasTotals k s)

-- The test that a request changes: the one it names, or a new one.
abbrev pub target : Op → State → ℕ
target (Op.create dto) s = s.next_id
target (Op.update id dto) s = id
target (Op.add id dto) s = id
target (Op.bulk id ids) s = id
target (Op.reorder id items) s = id
target (Op.remove id question) s = id
target (Op.refresh id question) s = id
target (Op.finalize id) s = id
target (Op.clone id) s = s.next_id
target (Op.archive id) s = id

pub perform-Finished :
    (op : Op) (now : ℕ) (user : User) (s : State)
    → IsSound s
    → Leaves (Finished (target op s) s) (perform op now user s)
unfolding perform add bulk
perform-Finished (Op.create dto) now user s h = Clone.create-Finished now dto user s h.0
perform-Finished (Op.update id dto) now user s h =
    Edit.update_test-Finished id dto user s h.0 (h.1 id)
perform-Finished (Op.add id dto) now user s h = Add.add_many-Finished now id (dto ∷ []) user s h.0
perform-Finished (Op.bulk id ids) now user s h =
    Add.add_many-Finished now id (map plain ids) user s h.0
perform-Finished (Op.reorder id items) now user s h = Reorder.reorder-Finished id items user s h.0
perform-Finished (Op.remove id question) now user s h = Edit.remove-Finished id question user s h.0
perform-Finished (Op.refresh id question) now user s h =
    Edit.refresh-Finished id question user s h.0
perform-Finished (Op.finalize id) now user s h =
    Finalize.finalize-Finished now id user s h.0 (h.1 id)
perform-Finished (Op.clone id) now user s h = Clone.clone-Finished now id user s h.0 (h.1 id)
perform-Finished (Op.archive id) now user s h = Edit.archive-Finished now id user s h.0 (h.1 id)

IsSound-Finished : (id : ℕ) (s t : State) → IsSound s → Finished id s t → IsSound t
IsSound-Finished id s t h done = (
  done.0.0,
  λ k. elim (Bool-cases (k == id)) [
    | inl hit ↦ let same : k ≡ id = ground arith in rw same done.1
    | inr miss ↦
        let (rows, row) = done.0.1 k (ground arith) in λ x e. rw rows (h.1 k x (sym row ∙ e))
  ],
)

pub state_after-IsSound :
    (r : Request) (s : State) → IsSound s → IsSound (state_after s (perform r.op r.now r.user s))
state_after-IsSound r s h =
    go (perform r.op r.now r.user s) (perform-Finished r.op r.now r.user s h)
  where
    go :
        (o : Result ExamError (Unit {0} × State))
        → Leaves (Finished (target r.op s) s) o
        → IsSound (state_after s o)
    go (ok p) done = IsSound-Finished (target r.op s) s p.1 h done
    go (err e) done = h

-- Along every run of requests, thrown or not, by any users and at any times: from a state in which
-- the ids of questions are unique, the ids of questions and tests are below the next id, and every
-- test's stored totals are the number and the sum of the marks of its questions, the state after
-- the run is again such a state.
pub run-IsSound : (rs : List Request) (s : State) → IsSound s → IsSound (run rs s)
unfolding run
run-IsSound [] s h = h
run-IsSound (r ∷ rs) s h =
    run-IsSound rs (state_after s (perform r.op r.now r.user s)) (state_after-IsSound r s h)
