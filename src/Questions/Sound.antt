-- ===== src/Questions/Sound.antt =====
-- The invariant of the bank along runs of requests.
use ai_tgs.Common.{
  All, Ensures, Ensures->>=, List, Result, Text, [], err, ok, pure, trim, ℕ, ◌≡◌, ◌∷◌,
}
use ai_tgs.Exam.Rows.{User}
use ai_tgs.Questions.Rows.{Bank, BankError}
use ai_tgs.Questions.Runs.{Op, Request, perform, run, state_after}
use ai_tgs.Questions.Service
use ai_tgs.Questions.Keeps.{IsConsistent}
use ai_tgs.Questions.Keeps.Create.{create-IsConsistent, create_generated-IsConsistent}
use ai_tgs.Questions.Keeps.Change.{
  IsTrimmed, update_question-IsConsistent, archive-IsConsistent, approve-IsConsistent,
  publish-IsConsistent, unpublish-IsConsistent,
}

-- The question text of a request has no white space around it: the DTOs and the parser of the
-- model's output trim it before the service is called.
abbrev pub IsTrimmedOp : Op → Type 0
IsTrimmedOp (Op.create dto) = trim dto.question_text ≡ dto.question_text
IsTrimmedOp (Op.create_generated input) = trim input.question_text ≡ input.question_text
IsTrimmedOp (Op.update_question id dto) = IsTrimmed dto.question_text
IsTrimmedOp _ = Unit

module _ (lower db_text : Text → Text) where
  perform-IsConsistent :
      (op : Op) (now : ℕ) (user : User) (s : Bank)
      → IsTrimmedOp op
      → IsConsistent lower db_text s
      → Ensures {E = BankError}
          (λ _. IsConsistent lower db_text)
          (perform lower db_text op now user s)
  unfolding perform
  perform-IsConsistent (Op.create dto) now user s text h =
      create-IsConsistent lower db_text dto user s text h
  perform-IsConsistent (Op.create_generated input) now user s text h =
      create_generated-IsConsistent lower db_text input user s text h
  perform-IsConsistent (Op.update_question id dto) now user s text h =
      update_question-IsConsistent lower db_text id dto user s text h
  perform-IsConsistent (Op.archive id) now user s text h =
      archive-IsConsistent lower db_text id user s h
  perform-IsConsistent (Op.approve id) now user s text h =
      approve-IsConsistent lower db_text id user s h
  perform-IsConsistent (Op.publish id) now user s text h =
      Ensures->>= (λ _. IsConsistent lower db_text) (λ _. IsConsistent lower db_text)
        (Service.publish_to_school now id user) (λ _. pure tt) s
        (publish-IsConsistent lower db_text now id user s h) (λ _ _ k. k)
  perform-IsConsistent (Op.unpublish id) now user s text h =
      unpublish-IsConsistent lower db_text id user s h

  state_after-IsConsistent :
      (s : Bank) (r : Result BankError (Unit {0} × Bank))
      → IsConsistent lower db_text s
      → Ensures {E = BankError} (λ _. IsConsistent lower db_text) r
      → IsConsistent lower db_text (state_after s r)
  state_after-IsConsistent s (ok r) h k = k
  state_after-IsConsistent s (err e) h k = h

  -- A consistent bank stays consistent along every run of requests whose question texts are
  -- trimmed: the ids of questions stay unique and below the next one, no two different active
  -- questions of one owner and topic have the same normalized text, the stored options of every
  -- question are accepted by the validator for its type, and stored texts are trimmed.
  pub run-IsConsistent :
      (rs : List Request) (s : Bank)
      → All (λ (r : Request). IsTrimmedOp r.op) rs
      → IsConsistent lower db_text s
      → IsConsistent lower db_text (run lower db_text rs s)
  unfolding run
  run-IsConsistent [] s text h = h
  run-IsConsistent (r ∷ rs) s text h =
      let t = state_after s (perform lower db_text r.op r.now r.user s) in
      run-IsConsistent rs t text.1 (
        state_after-IsConsistent s (perform lower db_text r.op r.now r.user s) h
          (perform-IsConsistent r.op r.now r.user s text.0 h))
