-- ===== src/Generation/Expander.antt =====
-- GenerationUnitExpander (modules/ai-generation/generation-unit-expander.service.ts) and marksFor
-- (question-marks.ts).  Ids are numbers in the order of their texts.
use ai_tgs.Common.{
  Bool, List, Option, Result, [], any, count, err, false, leb, ltb, none, not, ok, some, sum_by, ℕ,
  ◌+◌, ◌-◌, ◌*◌, ◌==◌, ◌&&◌, ◌||◌, ◌++◌, ◌∷◌, if◌then◌else◌,
}
use ai_tgs.Exam.Rows.{QuestionType, QuestionDifficulty}
use ai_tgs.Questions.Store.{same_type}
use ai_tgs.Generation.Rows.{
  QuestionMixDto, GenerationUnitDto, CreateGenerationDto, GenerationUnit, GenerationError, Fraction,
}

abbrev pub marks_for : QuestionType → ℕ
marks_for QuestionType.mcq = 1
marks_for QuestionType.true_false = 1
marks_for QuestionType.fill_blank = 1
marks_for QuestionType.short = 2
marks_for QuestionType.long = 5

-- The units of one difficulty of a mix.
abbrev pub part : ℕ → ℕ → QuestionType → QuestionDifficulty → ℕ → List GenerationUnit
part topic chapter type difficulty count =
    if ltb 0 count
    then record {
      topic_id = topic;
      chapter_id = chapter;
      type = type;
      difficulty = difficulty;
      count = count;
    }
      ∷ []
    else []

abbrev pub parts : ℕ → ℕ → QuestionMixDto → List GenerationUnit
parts topic chapter mix =
    part topic chapter mix.type QuestionDifficulty.easy mix.difficulty.easy
    ++ (part topic chapter mix.type QuestionDifficulty.medium mix.difficulty.medium
        ++ part topic chapter mix.type QuestionDifficulty.hard mix.difficulty.hard)

-- The key `${topicId}:${type}`.
abbrev pub same_key : ℕ → QuestionType → ℕ × QuestionType → Bool
same_key topic type key = key.0 == topic && same_type key.1 type

abbrev pub Progress : Type 0
Progress = Result GenerationError (List (ℕ × QuestionType) × List GenerationUnit)

abbrev pub if_expanded :
    {A : Type 0}
    → (List (ℕ × QuestionType) × List GenerationUnit → Result GenerationError A)
    → Progress
    → Result GenerationError A
if_expanded f (ok r) = f r
if_expanded f (err e) = err e

abbrev pub counts_differ : QuestionMixDto → Bool
counts_differ mix =
    not (mix.difficulty.easy + mix.difficulty.medium + mix.difficulty.hard == mix.count)

-- The inner loop, with the keys seen and the units so far.
unfoldable pub expand_mixes :
    Option ℕ → ℕ → List (ℕ × QuestionType) → List GenerationUnit → List QuestionMixDto → Progress
expand_mixes topic chapter seen result [] = ok (seen, result)
expand_mixes none chapter seen result (mix ∷ mixes) =
    if counts_differ mix
    then err GenerationError.difficulty_counts
    else err GenerationError.topic_not_resolved
expand_mixes (some topic) chapter seen result (mix ∷ mixes) =
    let rest =
      expand_mixes (some topic) chapter ((topic, mix.type) ∷ seen)
        (result ++ parts topic chapter mix) mixes in
    if counts_differ mix
    then err GenerationError.difficulty_counts
    else if any (same_key topic mix.type) seen
    then err GenerationError.repeated_topic_and_type
    else rest

unfoldable pub expand_units :
    List (ℕ × QuestionType) → List GenerationUnit → List GenerationUnitDto → Progress
expand_units seen result [] = ok (seen, result)
expand_units seen result (unit ∷ units) =
    if_expanded (λ r. expand_units r.0 r.1 units)
      (expand_mixes unit.topic_id unit.chapter_id seen result unit.question_mix)

abbrev pub count_of : GenerationUnit → ℕ
count_of u = u.count

abbrev pub marks_of : GenerationUnit → ℕ
marks_of u = marks_for u.type * u.count

-- `Math.abs(targetMarks - totalMarks) > 0.001`
abbrev pub is_off : Option Fraction → ℕ → Bool
is_off none total = false
is_off (some target) total = ltb target.denominator (
    1000
    * (target.numerator
        - total * target.denominator
        + (total * target.denominator - target.numerator)))

-- The places of the names of the types and difficulties in the order of `localeCompare`.
abbrev pub type_place : QuestionType → ℕ
type_place QuestionType.fill_blank = 0
type_place QuestionType.long = 1
type_place QuestionType.mcq = 2
type_place QuestionType.short = 3
type_place QuestionType.true_false = 4

abbrev pub difficulty_place : QuestionDifficulty → ℕ
difficulty_place QuestionDifficulty.easy = 0
difficulty_place QuestionDifficulty.hard = 1
difficulty_place QuestionDifficulty.medium = 2

abbrev pub is_before : GenerationUnit → GenerationUnit → Bool
is_before a b =
    ltb a.topic_id b.topic_id
    || (a.topic_id == b.topic_id
        && (ltb (type_place a.type) (type_place b.type)
            || (type_place a.type == type_place b.type
                && leb (difficulty_place a.difficulty) (difficulty_place b.difficulty))))

abbrev pub insert_unit : GenerationUnit → List GenerationUnit → List GenerationUnit
insert_unit x [] = x ∷ []
insert_unit x (y ∷ ys) =
    let rest = insert_unit x ys in if is_before x y then x ∷ (y ∷ ys) else y ∷ rest

abbrev pub sort_units : List GenerationUnit → List GenerationUnit
sort_units [] = []
sort_units (x ∷ xs) = insert_unit x (sort_units xs)

abbrev pub checked :
    ℕ → Option Fraction → List GenerationUnit → Result GenerationError (List GenerationUnit)
checked maximum target result =
    if sum_by count_of result == 0
    then err GenerationError.no_question
    else if ltb maximum (sum_by count_of result)
    then err GenerationError.exceeds_maximum
    else if is_off target (sum_by marks_of result)
    then err GenerationError.target_marks_differ
    else ok (sort_units result)

-- `maximum` is the setting `aiGeneration.maxQuestionsPerRequest`.
unfoldable pub expand : ℕ → CreateGenerationDto → Result GenerationError (List GenerationUnit)
expand maximum dto =
    if_expanded (λ r. checked maximum dto.target_marks r.1) (expand_units [] [] dto.units)
