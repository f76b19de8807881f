-- ===== src/Questions/Tests.antt =====
-- The theorems of the bank of questions on a small school.
use ai_tgs.Common.{
  Ensures, List, Option, [], err, false, find, map, none, ok, refl, some, trim, trim_start, true, ℕ,
  ◌≡◌, ◌≢◌, ◌∷◌,
}
use ai_tgs.Exam.Rows.{
  User, UserRole, Question, QuestionType, QuestionDifficulty, QuestionSource, QuestionStatus,
  QuestionReviewStatus, QuestionVisibility, GroundingStatus, is_system_admin,
}
use ai_tgs.Questions.Rows.{
  Bank, BankError, AuditAction, CurriculumPath, QuestionOptionDto, CreateQuestionDto,
  UpdateQuestionDto,
}
use ai_tgs.Questions.Validator.{validate, validate_objective, listed_fault}
use ai_tgs.Questions.Answers.{IsAnswerable, validate-IsAnswerable}
use ai_tgs.Questions.Store.{
  is_id, set_question, write_audit, scoped, insert_question, replace_options, validate_path,
  find_question,
}
use ai_tgs.Questions.Service
use ai_tgs.Questions.Runs.{Op, Request, perform, run}
use ai_tgs.Questions.Keeps.{IsConsistent}
use ai_tgs.Questions.Sound.{run-IsConsistent}
use ai_tgs.Questions.Access.{KeepsRows, IsPermitted, perform-IsPermitted}
use ai_tgs.Questions.Sharing.{
  IsSharedWith, publish-IsSharedWith, unpublish-IsHidden, archive-by_colleague,
}

abbrev teacher_of : ℕ → User
teacher_of id = record { id = id; role = UserRole.teacher; school_id = some 5 }

abbrev path : CurriculumPath
path = record { topic_id = 4; chapter_id = 3; subject_id = 2; class_id = 1 }

abbrev no_questions : Bank
no_questions = record {
  topics =
      record {
        id = 4;
        chapter_id = 3;
        subject_id = 2;
        class_id = 1;
        topic_is_active = true;
        chapter_is_active = true;
        subject_is_active = true;
        class_is_active = true;
        board_is_active = true;
      }
      ∷ [];
  users = teacher_of 10 ∷ teacher_of 11 ∷ [];
  questions = [];
  options = [];
  citations = [];
  audits = [];
  next_id = 20;
}

no_questions-IsConsistent : IsConsistent (λ t. t) trim no_questions
no_questions-IsConsistent = record {
  unique = tt;
  fresh = tt;
  fresh_options = tt;
  trimmed = tt;
  answerable = λ k q e. cc;
  distinct = λ i j a b e g active m. cc;
}

abbrev statement_options : List QuestionOptionDto
statement_options =
    record { option_text = 116 ∷ 114 ∷ 117 ∷ 101 ∷ []; option_order = 1; is_correct = true }
    ∷ record {
      option_text = 32 ∷ 102 ∷ 97 ∷ 108 ∷ 115 ∷ 101 ∷ [];
      option_order = 2;
      is_correct = false;
    }
    ∷ []

abbrev statement : CreateQuestionDto
statement = record {
  path = path;
  type = QuestionType.true_false;
  question_text = 65 ∷ [];
  difficulty = QuestionDifficulty.easy;
  marks = 100;
  explanation = none;
  options = some statement_options;
}

abbrev shortened : UpdateQuestionDto
shortened = record {
  topic_id = none;
  chapter_id = none;
  subject_id = none;
  class_id = none;
  type = some QuestionType.short;
  question_text = some (66 ∷ []);
  difficulty = none;
  marks = none;
  explanation = none;
  options = none;
}

abbrev requests : List Request
requests =
    record { user = teacher_of 10; now = 1; op = Op.create statement }
    ∷ record { user = teacher_of 10; now = 2; op = Op.create statement }
    ∷ record { user = teacher_of 10; now = 3; op = Op.publish 20 }
    ∷ record { user = teacher_of 11; now = 4; op = Op.update_question 20 shortened }
    ∷ record { user = teacher_of 11; now = 5; op = Op.archive 20 }
    ∷ []

run-IsConsistent_example : IsConsistent (λ t. t) trim (run (λ t. t) trim requests no_questions)
unfolding trim trim_start
run-IsConsistent_example =
    run-IsConsistent (λ t. t) trim requests no_questions (refl, (refl, (tt, (refl, (tt, tt)))))
      no_questions-IsConsistent

abbrev manual_question : ℕ → ℕ → QuestionVisibility → Option ℕ → Question
manual_question id creator visibility school = record {
  id = id;
  created_by = creator;
  class_id = 1;
  subject_id = 2;
  chapter_id = 3;
  topic_id = 4;
  type = QuestionType.short;
  question_text = 65 ∷ [];
  difficulty = QuestionDifficulty.easy;
  marks = 100;
  explanation = none;
  source = QuestionSource.manual;
  review_status = QuestionReviewStatus.approved;
  status = QuestionStatus.active;
  grounding_status = GroundingStatus.not_applicable;
  generation_job_id = none;
  generation_job_item_id = none;
  retrieval_event_id = none;
  visibility = visibility;
  shared_school_id = school;
  published_at = school;
}

abbrev two_questions : Bank
two_questions = record no_questions {
  questions =
      manual_question 12 10 QuestionVisibility.school (some 5)
      ∷ manual_question 13 10 QuestionVisibility.private none
      ∷ [];
}

perform-IsPermitted_example :
    Ensures {E = BankError}
      (λ _ t.
        KeepsRows
          (IsPermitted two_questions.users (teacher_of 11) (Op.archive 12))
          two_questions.questions
          t.questions)
      (perform (λ t. t) trim (Op.archive 12) 9 (teacher_of 11) two_questions)
perform-IsPermitted_example =
    perform-IsPermitted (λ t. t) trim (Op.archive 12) 9 (teacher_of 11) two_questions
      (refl, (refl, tt))

publish-IsSharedWith_example :
    Ensures {E = BankError}
      (λ _ t. IsSharedWith (some 5) 13 t)
      (Service.publish_to_school 9 13 (teacher_of 10) two_questions)
publish-IsSharedWith_example =
    publish-IsSharedWith 9 13 (teacher_of 10) two_questions (refl, (refl, tt))

unpublish-IsHidden_example :
    Ensures {E = BankError}
      (λ _ t.
        (v : User) (q : Question)
        → find (is_id 12) t.questions ≡ some q
        → is_system_admin v.role ≡ false
        → q.created_by ≢ v.id
        → scoped 12 v true t ≡ err BankError.no_access)
      (Service.unpublish_from_school 12 (teacher_of 11) two_questions)
unpublish-IsHidden_example = unpublish-IsHidden 12 (teacher_of 11) two_questions (refl, (refl, tt))

archive-by_colleague_example :
    Service.archive 12 (teacher_of 11) two_questions
    ≡ ok (
      tt,
      write_audit 11 AuditAction.question_archive 12
          (set_question 12 (λ x. record x { status = QuestionStatus.archived }) two_questions),
    )
archive-by_colleague_example =
    archive-by_colleague 12 5 (teacher_of 11) two_questions
      (manual_question 12 10 QuestionVisibility.school (some 5)) refl refl refl refl refl

validate-IsAnswerable_example :
    IsAnswerable (λ t. t) QuestionType.true_false (some statement_options)
unfolding validate validate_objective listed_fault trim trim_start
validate-IsAnswerable_example =
    validate-IsAnswerable (λ t. t) QuestionType.true_false (some statement_options) refl

-- The question of the run above was created once, shared, changed to a short question and archived.
run_result :
    map (λ (q : Question). q.status) (run (λ t. t) trim requests no_questions).questions
    ≡ QuestionStatus.archived ∷ []
unfolding run perform Service.create Service.update_question Service.archive
    Service.publish_to_school scoped validate validate_objective listed_fault
    Service.ensure_no_duplicate validate_path insert_question replace_options write_audit
    set_question find_question trim trim_start
run_result = refl
