-- ===== src/Generation/Asked.antt =====
-- The questions of a request and of its units by topic, type and difficulty.
use ai_tgs.Exam.Rows.{QuestionDifficulty, QuestionType}
use ai_tgs.Common.{
  List, Result, err, none, ok, some, ℕ, sum_by, Bool, if◌then◌else◌, true, ◌==◌, false, ◌&&◌,
}
use ai_tgs.Questions.Store.{same_type}
use ai_tgs.Generation.Rows.{
  QuestionMixDto, GenerationUnit, GenerationError, DifficultyCountsDto, GenerationUnitDto,
}
use ai_tgs.Generation.Expander.{Progress, if_expanded}

abbrev pub IfOk : {A : Type 0} → (A → Type 0) → Result GenerationError A → Type 0
IfOk P (ok a) = P a
IfOk P (err e) = Unit

pub IfOk-mono :
    {A : Type 0} (P Q : A → Type 0) (r : Result GenerationError A)
    → ((a : A) → P a → Q a)
    → IfOk P r
    → IfOk Q r
IfOk-mono P Q (ok a) weaken h = weaken a h
IfOk-mono P Q (err e) weaken h = tt

pub if_expanded-IfOk :
    {A : Type 0} (P : List (ℕ × QuestionType) × List GenerationUnit → Type 0) (Q : A → Type 0)
    (f : List (ℕ × QuestionType) × List GenerationUnit → Result GenerationError A) (r : Progress)
    → IfOk P r
    → ((q : List (ℕ × QuestionType) × List GenerationUnit) → P q → IfOk Q (f q))
    → IfOk Q (if_expanded f r)
if_expanded-IfOk P Q f (ok q) h k = k q h
if_expanded-IfOk P Q f (err e) h k = tt

abbrev pub same_difficulty : QuestionDifficulty → QuestionDifficulty → Bool
same_difficulty QuestionDifficulty.easy QuestionDifficulty.easy = true
same_difficulty QuestionDifficulty.medium QuestionDifficulty.medium = true
same_difficulty QuestionDifficulty.hard QuestionDifficulty.hard = true
same_difficulty _ _ = false

abbrev pub is_unit : ℕ → QuestionType → QuestionDifficulty → GenerationUnit → Bool
is_unit t type d u = u.topic_id == t && (same_type u.type type && same_difficulty u.difficulty d)

-- The questions of a topic, type and difficulty, and the units of them.
abbrev pub amount : ℕ → QuestionType → QuestionDifficulty → GenerationUnit → ℕ
amount t type d u = if is_unit t type d u then u.count else 0

abbrev pub one : ℕ → QuestionType → QuestionDifficulty → GenerationUnit → ℕ
one t type d u = if is_unit t type d u then 1 else 0

abbrev pub count_in : DifficultyCountsDto → QuestionDifficulty → ℕ
count_in c QuestionDifficulty.easy = c.easy
count_in c QuestionDifficulty.medium = c.medium
count_in c QuestionDifficulty.hard = c.hard

-- What the request asks for of a topic, type and difficulty.
abbrev pub asked_in_mix : QuestionType → QuestionDifficulty → QuestionMixDto → ℕ
asked_in_mix type d mix = if same_type mix.type type then count_in mix.difficulty d else 0

abbrev pub asked_in_unit : ℕ → QuestionType → QuestionDifficulty → GenerationUnitDto → ℕ
asked_in_unit t type d unit = elim unit.topic_id [
  | none ↦ 0
  | some topic ↦ if topic == t then sum_by (asked_in_mix type d) unit.question_mix else 0
]
