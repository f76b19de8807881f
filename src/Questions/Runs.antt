-- ===== src/Questions/Runs.antt =====
-- The requests to QuestionsService that change the bank, and runs of them.
use ai_tgs.Common.{List, [], ◌∷◌, ℕ, Text, ok, err, pure, ◌>>◌, Result}
use ai_tgs.Exam.Rows.{User}
use ai_tgs.Questions.Rows.{
  Bank, BankAction, BankError, CreateQuestionDto, UpdateQuestionDto, GeneratedQuestion,
}
use ai_tgs.Questions.Service

pub data Op : Type 0 where
  create : CreateQuestionDto → Op
  create_generated : GeneratedQuestion → Op
  update_question : ℕ → UpdateQuestionDto → Op
  archive : ℕ → Op
  approve : ℕ → Op
  publish : ℕ → Op
  unpublish : ℕ → Op

pub record Request : Type 0 where
  pub user : User
  pub now : ℕ
  pub op : Op

-- A request that throws is rolled back.
abbrev pub state_after : Bank → Result BankError (Unit {0} × Bank) → Bank
state_after s (ok r) = r.1
state_after s (err e) = s

module _ (lower db_text : Text → Text) where
  unfoldable pub perform : Op → ℕ → User → BankAction (Unit {0})
  perform (Op.create dto) now user = Service.create lower db_text dto user
  perform (Op.create_generated input) now user = Service.create_generated lower db_text input user
  perform (Op.update_question id dto) now user = Service.update_question lower db_text id dto user
  perform (Op.archive id) now user = Service.archive id user
  perform (Op.approve id) now user = Service.approve id user
  perform (Op.publish id) now user = Service.publish_to_school now id user >> pure tt
  perform (Op.unpublish id) now user = Service.unpublish_from_school id user

  unfoldable pub run : List Request → Bank → Bank
  run [] s = s
  run (r ∷ rs) s = run rs (state_after s (perform r.op r.now r.user s))
