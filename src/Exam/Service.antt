-- ===== src/Exam/Service.antt =====
-- The operations of TestsService that change a test, as requests, and runs of them.
use ai_tgs.Common.{List, [], ◌∷◌, Option, none, some, ℕ, Result, ok, err}
use ai_tgs.Exam.Rows.{User}
use ai_tgs.Exam.State.{State, ExamAction, ExamError}
use ai_tgs.Exam.Edit.{CreateTestDto, UpdateTestDto, AddQuestionDto}
use ai_tgs.Exam.Edit
use ai_tgs.Exam.Reorder.{OrderItemDto}
use ai_tgs.Exam.Reorder
use ai_tgs.Exam.Finalize
use ai_tgs.Exam.Clone

pub data Op : Type 0 where
  create : CreateTestDto → Op
  update : ℕ → UpdateTestDto → Op
  add : ℕ → AddQuestionDto → Op
  bulk : ℕ → List ℕ → Op
  reorder : ℕ → List OrderItemDto → Op
  remove : ℕ → ℕ → Op
  refresh : ℕ → ℕ → Op
  finalize : ℕ → Op
  clone : ℕ → Op
  archive : ℕ → Op

-- A request: who makes it, when, and what it asks for.
pub record Request : Type 0 where
  pub user : User
  pub now : ℕ
  pub op : Op

unfoldable pub perform : Op → ℕ → User → ExamAction (Unit {0})
perform (Op.create dto) now user = Edit.create now dto user
perform (Op.update id dto) now user = Edit.update_test id dto user
perform (Op.add id dto) now user = Edit.add now id dto user
perform (Op.bulk id ids) now user = Edit.bulk now id ids user
perform (Op.reorder id items) now user = Reorder.reorder id items user
perform (Op.remove id question) now user = Edit.remove id question user
perform (Op.refresh id question) now user = Edit.refresh id question user
perform (Op.finalize id) now user = Finalize.finalize now id user
perform (Op.clone id) now user = Clone.clone now id user
perform (Op.archive id) now user = Edit.archive now id user

-- A request that throws is rolled back.
abbrev pub state_after : State → Result ExamError (Unit {0} × State) → State
state_after s (ok r) = r.1
state_after s (err e) = s

unfoldable pub run : List Request → State → State
run [] s = s
run (r ∷ rs) s = run rs (state_after s (perform r.op r.now r.user s))

-- The test that a request names.
abbrev pub named_test : Op → Option ℕ
named_test (Op.create dto) = none
named_test (Op.update id dto) = some id
named_test (Op.add id dto) = some id
named_test (Op.bulk id ids) = some id
named_test (Op.reorder id items) = some id
named_test (Op.remove id question) = some id
named_test (Op.refresh id question) = some id
named_test (Op.finalize id) = some id
named_test (Op.clone id) = some id
named_test (Op.archive id) = some id
