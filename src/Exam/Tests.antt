-- ===== src/Exam/Tests.antt =====
-- The theorems of the test builder on a small school.
use ai_tgs.Usage.Store.{
  add_used, ensure_counter, insert_reservation, ledger, record_audit, with_counter,
}
use ai_tgs.Exam.Snapshots.{from_question, sort_options, sort_citations, answer_of}
use ai_tgs.Usage.Reserve.{consume, consume_new, exceeds, safe_positive}
use ai_tgs.Common.{
  Succeeds, All, Bool-cases, Ensures, List, Text, [], arith, err, false, find, inl, inr, length,
  map, none, ok, refl, some, suc, sum_by, true, zero, ℕ, ◌≡◌, ◌==◌, ◌∷◌, select,
}
use ai_tgs.Exam.Rows.{
  User, UserRole, ExamTest, TestQuestion, TestSection, Question, Snapshot, TestStatus, QuestionType,
  QuestionDifficulty, QuestionSource, QuestionReviewStatus, QuestionStatus, QuestionVisibility,
  GroundingStatus, Answer,
}
use ai_tgs.Exam.State.{
  State, ExamError, is_test, questions_of, marks_of, set_test, write_audit, sort_questions,
  sort_sections, insert_question, insert_section, totals, normalize, renumber, value_too_long,
  sections_of,
}
use ai_tgs.Exam.Access.{lock, draft, authorize, eligible}
use ai_tgs.Exam.Edit
use ai_tgs.Exam.Sections
use ai_tgs.Exam.SectionRules
use ai_tgs.Exam.SectionRules.{SectionOp, IsArranged, perform-IsArranged}
use ai_tgs.Exam.Sections.{AssignQuestionSectionDto, draft_of, make_room}
use ai_tgs.Exam.SectionRuns.{perform-IsSound}
use ai_tgs.Exam.Finalizes.{IsPublished, MayUse, finalize-Succeeds}
use ai_tgs.Exam.Numbered.{IsNormalized, normalize-IsNumbered}
use ai_tgs.Exam.Clone
use ai_tgs.Exam.Finalize
use ai_tgs.Exam.View.{Detail, preview}
use ai_tgs.Exam.Service.{Op, Request, perform, run}
use ai_tgs.Exam.Keeps.{Leaves, MayChange, IsTidy}
use ai_tgs.Exam.Runs.{IsSound, run-IsSound}
use ai_tgs.Exam.Frozen.{KeepsTest, run-KeepsTest, IsAllowed, perform-IsAllowed}
use ai_tgs.Exam.Ready.{IsReady, IsFinalized, IsBilled, finalize-IsReady}
use ai_tgs.Exam.Repeat.{finalize-finalize}
use ai_tgs.Exam.Paper.{IsPaper, preview-HidesAnswer}
use ai_tgs.Exam.Copies.{HasClone, clone-KeepsContent}
use ai_tgs.Entitlement.{
  SubscriptionRow, SubscriptionStatus, LimitValue, resolve, choose_row, sort_rows, insert_row,
  check_row, with_limit, granted,
}
use ai_tgs.Usage.Rows
use ai_tgs.Usage.Rows.{Db}

abbrev owner : User
owner = record { id = 7; role = UserRole.teacher; school_id = none }

abbrev bank : ℕ → QuestionSource → Question
bank id source = record {
  id = id;
  created_by = 7;
  class_id = 1;
  subject_id = 2;
  chapter_id = 3;
  topic_id = 4;
  type = QuestionType.short;
  question_text = 65 ∷ [];
  difficulty = QuestionDifficulty.easy;
  marks = 200;
  explanation = some (66 ∷ []);
  source = source;
  review_status = QuestionReviewStatus.approved;
  status = QuestionStatus.active;
  grounding_status = GroundingStatus.not_applicable;
  generation_job_id = none;
  generation_job_item_id = none;
  retrieval_event_id = none;
  visibility = QuestionVisibility.private;
  shared_school_id = none;
  published_at = none;
}

abbrev snapshot : Snapshot
snapshot = record {
  type = QuestionType.mcq;
  question_text = 65 ∷ [];
  difficulty = QuestionDifficulty.easy;
  language = 101 ∷ 110 ∷ [];
  options = some (
      record { option_text = 67 ∷ []; option_order = 1; is_correct = true }
      ∷ record { option_text = 68 ∷ []; option_order = 2; is_correct = false }
      ∷ []);
  answer = some (Answer.correct_option_orders (1 ∷ []));
  explanation = none;
  source = QuestionSource.manual;
  grounding_status = GroundingStatus.not_applicable;
  review_status = QuestionReviewStatus.approved;
  citations = none;
  chapter_id = 3;
  topic_id = 4;
}

abbrev question : ℕ → ℕ → ℕ → ℕ → TestQuestion
question id test section source = record {
  id = id;
  test_id = test;
  test_section_id = section;
  source_question_id = source;
  position = 1;
  marks = 150;
  snapshot = snapshot;
  created_at = 5;
}

abbrev test : ℕ → TestStatus → Text → ExamTest
test id status title = record {
  id = id;
  created_by = 7;
  school_id = none;
  class_id = 1;
  section_id = none;
  subject_id = 2;
  title = title;
  description = none;
  instructions = none;
  language = 101 ∷ 110 ∷ [];
  status = status;
  duration_minutes = some 40;
  total_marks = 150;
  total_questions = 1;
  cloned_from_test_id = none;
  finalized_at = none;
  archived_at = none;
  branding_snapshot = none;
}

abbrev section : ℕ → ℕ → TestSection
section id test = record {
  id = id;
  test_id = test;
  title = 81 ∷ [];
  instructions = none;
  position = 1;
  created_at = 5;
}

abbrev plan : SubscriptionRow
plan = record {
  subscription_id = 1;
  plan_id = 4;
  user_id = some 7;
  school_id = none;
  status = SubscriptionStatus.active;
  current_period_start = 0;
  current_period_end = 1000;
  created_at = 1;
  is_active = true;
  limits = record {
    ai_questions_per_period = LimitValue.safe_integer 20;
    tests_per_period = LimitValue.safe_integer 3;
    pdf_exports_per_period = LimitValue.undefined;
    storage_bytes = LimitValue.undefined;
  };
}

abbrev no_usage : Db
no_usage = record {
  counters = [];
  reservations = [];
  ledger = [];
  audits = [];
  questions = [];
  jobs = [];
  next_id = 1;
}

-- A draft, 10, and a finalized test, 20, of one teacher.
abbrev start : State
start = record {
  tests = test 10 TestStatus.draft (84 ∷ []) ∷ test 20 TestStatus.finalized (85 ∷ []) ∷ [];
  sections = section 11 10 ∷ section 21 20 ∷ [];
  test_questions = question 12 10 11 30 ∷ question 22 20 21 30 ∷ [];
  questions = bank 30 QuestionSource.manual ∷ bank 31 QuestionSource.ai_generated ∷ [];
  options = [];
  citations = [];
  schools = [];
  classes = 1 ∷ [];
  subjects = (record { id = 2; class_id = 1 }) ∷ [];
  class_sections = [];
  audits = [];
  usage = no_usage;
  subscriptions = plan ∷ [];
  next_id = 100;
}

start-IsTidy : IsTidy start
start-IsTidy = (
  (refl, (refl, tt)),
  (
    ((omega arith, omega arith), ((omega arith, omega arith), tt)),
    (omega arith, (omega arith, tt)),
  ),
)

start-HasTotals :
    (k : ℕ) (t : ExamTest)
    → find (is_test k) start.tests ≡ some t
    → (t.total_questions ≡ length (questions_of k start))
      × (t.total_marks ≡ sum_by marks_of (questions_of k start))
start-HasTotals k t e = elim (Bool-cases (10 == k)) [
  | inl hit ↦
      let is : 10 ≡ k = ground arith in
      let e' : some (test 10 TestStatus.draft (84 ∷ [])) ≡ some t = rw (← is) at e in
      let same : test 10 TestStatus.draft (84 ∷ []) ≡ t = cc in rw (← is, ← same) (refl, refl)
  | inr miss ↦ elim (Bool-cases (20 == k)) [
    | inl hit ↦
        let is : 20 ≡ k = ground arith in
        let e' : some (test 20 TestStatus.finalized (85 ∷ [])) ≡ some t = rw (← is) at e in
        let same : test 20 TestStatus.finalized (85 ∷ []) ≡ t = cc in rw (← is, ← same) (refl, refl)
    | inr other ↦
        let e' : none ≡ some t = rw (miss, other) at e in
        let impossible : ⊥ = cc in absurd impossible
  ]
]

start-IsSound : IsSound start
start-IsSound = (start-IsTidy, start-HasTotals)

abbrev request : Op → Request
request op = record { user = owner; now = 50; op = op }

-- The bank's second question is added and the test is finalized; the other test is cloned and
-- archived; an attempt to change it throws.
abbrev requests : List Request
requests =
    request (Op.bulk 10 (31 ∷ []))
    ∷ request (Op.finalize 10)
    ∷ request (Op.clone 20)
    ∷ request (Op.remove 20 22)
    ∷ request (Op.archive 20)
    ∷ []

run-IsSound_example : IsSound (run requests start)
run-IsSound_example = run-IsSound requests start start-IsSound

run-KeepsTest_example :
    KeepsTest 20 (test 20 TestStatus.finalized (85 ∷ [])) start (run requests start)
run-KeepsTest_example =
    run-KeepsTest requests start 20 (test 20 TestStatus.finalized (85 ∷ [])) start-IsSound refl refl

perform-IsAllowed_example :
    Leaves (λ _. IsAllowed 20 owner start) (perform (Op.archive 20) 50 owner start)
perform-IsAllowed_example = perform-IsAllowed (Op.archive 20) 50 owner start 20 refl

finalize-IsReady_example :
    Leaves
      (λ u.
        IsReady 10 (test 10 TestStatus.draft (84 ∷ [])) start
        × (MayChange owner (test 10 TestStatus.draft (84 ∷ []))
            × (IsFinalized 50 10 (test 10 TestStatus.draft (84 ∷ [])) start u
                × IsBilled 50 10 owner start u)))
      (Finalize.finalize 50 10 owner start)
finalize-IsReady_example =
    finalize-IsReady 50 10 owner start (test 10 TestStatus.draft (84 ∷ [])) refl refl

finalize-finalize_example :
    Leaves (λ u. Finalize.finalize 60 10 owner u ≡ ok (tt, u)) (Finalize.finalize 50 10 owner start)
finalize-finalize_example =
    finalize-finalize 50 60 10 owner start (test 10 TestStatus.draft (84 ∷ [])) refl

preview-HidesAnswer_example :
    Ensures {E = ExamError}
      (λ (d : Detail) u. (u ≡ start) × IsPaper 10 start d)
      (preview 10 owner start)
preview-HidesAnswer_example = preview-HidesAnswer 10 owner start

clone-KeepsContent_example :
    Leaves
      (HasClone 20 owner (test 20 TestStatus.finalized (85 ∷ [])) start)
      (Clone.clone 50 20 owner start)
clone-KeepsContent_example =
    clone-KeepsContent 50 20 owner start (test 20 TestStatus.finalized (85 ∷ [])) start-IsTidy
      (omega arith, (omega arith, tt)) refl

-- A pair of code units is one character.
paired_characters : Clone.characters (55357 ∷ 56832 ∷ 65 ∷ 55357 ∷ 56832 ∷ []) ≡ 3
paired_characters = refl

start_granted :
    resolve 50 (Finalize.requester owner) Rows.UsageMetric.tests start.subscriptions
    ≡ inr (granted plan Rows.UsageMetric.tests (some 3))
unfolding resolve choose_row sort_rows insert_row check_row with_limit
start_granted = refl

start-IsReady : IsReady 10 (test 10 TestStatus.draft (84 ∷ [])) start
unfolding sort_questions sort_sections insert_question insert_section Finalize.members
start-IsReady = (refl, (refl, (refl, (((refl, ((refl, refl), λ _. refl)), tt), refl))))

start_sources :
    All
      (MayUse owner)
      (select (Finalize.is_source (sort_questions (questions_of 10 start))) start.questions)
unfolding sort_questions insert_question
start_sources = (inr (inl refl), tt)

start_sections : (length (sort_sections (sections_of 10 start)) == 0) ≡ false
unfolding sort_sections insert_section
start_sections = refl

finalize-Succeeds_example :
    Succeeds {E = ExamError}
      (λ _.
        IsPublished 50 10
          (test 10 TestStatus.draft (84 ∷ []))
          (granted plan Rows.UsageMetric.tests (some 3))
          start)
      (Finalize.finalize 50 10 owner start)
finalize-Succeeds_example =
    finalize-Succeeds 50 10 owner start (test 10 TestStatus.draft (84 ∷ []))
      (granted plan Rows.UsageMetric.tests (some 3)) refl refl (inr refl) start-IsReady
      start_sources start_sections start_granted (omega arith) (omega arith) refl

normalize-IsNumbered_example : IsNormalized 10 start (normalize 10 start)
normalize-IsNumbered_example = normalize-IsNumbered 10 start start-IsTidy.0

abbrev to_end : AssignQuestionSectionDto
to_end = record { test_section_id = 11; position = none }

perform-IsArranged_example :
    Ensures {E = ExamError}
      (IsArranged 10 owner start)
      (SectionRules.perform (SectionOp.assign 12 to_end) 50 10 owner start)
perform-IsArranged_example = perform-IsArranged (SectionOp.assign 12 to_end) 50 10 owner start

perform-IsSound_example :
    Leaves IsSound (SectionRules.perform (SectionOp.assign 12 to_end) 50 10 owner start)
perform-IsSound_example =
    perform-IsSound (SectionOp.assign 12 to_end) 50 10 owner start start-IsSound

-- A section is put first: the other one moves to position 2.
create_section_test :
    (elim (SectionRules.perform
        (SectionOp.create (record { title = 65 ∷ []; instructions = none; position = some 1 }))
        50
        10
        owner
        start)
      as (λ _. List (ℕ × ℕ)) [
        | ok r ↦ map (λ (x : TestSection). (x.id, x.position)) r.1.sections
        | err e ↦ []
      ])
    ≡ (11, 2) ∷ (21, 1) ∷ (100, 1) ∷ []
unfolding SectionRules.perform Sections.create draft_of make_room write_audit
create_section_test = refl

abbrev repeat_letter : ℕ → Text
repeat_letter zero = []
repeat_letter (suc n) = 65 ∷ repeat_letter n

abbrev long_title : State
long_title = record start { tests = test 10 TestStatus.draft (repeat_letter 154) ∷ [] }

-- A title of 154 letters is too long for a clone.
clone-long_title : Clone.clone 50 10 owner long_title ≡ err value_too_long
unfolding Clone.clone lock authorize
clone-long_title = refl

-- The run finalizes the first test with two questions and charges one test.
run_test :
    map
      (λ (c : Rows.Counter). c.used)
      (run (request (Op.finalize 10) ∷ request (Op.finalize 10) ∷ []) start).usage.counters
    ≡ 1 ∷ []
unfolding run perform Finalize.finalize lock authorize draft Finalize.check_content sort_questions
    sort_sections Finalize.members Finalize.eligible_all eligible Finalize.charge_test resolve
    choose_row sort_rows insert_row check_row with_limit insert_question insert_section set_test
    write_audit consume consume_new exceeds safe_positive add_used ensure_counter insert_reservation
    ledger record_audit with_counter
run_test = refl

-- The second question goes after the first, and the totals follow.
bulk_test :
    map {B = ℕ × ℕ}
      (λ (t : ExamTest). (t.total_questions, t.total_marks))
      (run (request (Op.bulk 10 (31 ∷ [])) ∷ []) start).tests
    ≡ (2, 350) ∷ (1, 150) ∷ []
unfolding run perform Edit.bulk Edit.add_many Edit.add_all Edit.add_one Edit.insert_row lock
    authorize draft eligible sort_questions sort_sections insert_question insert_section normalize
    renumber totals set_test write_audit from_question sort_options sort_citations answer_of
bulk_test = refl
