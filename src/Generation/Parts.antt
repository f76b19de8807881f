-- ===== src/Generation/Parts.antt =====
-- The units of one mix of a request (Expander.antt).
use ai_tgs.Exam.Rows.{QuestionDifficulty, QuestionType}
use ai_tgs.Common.{
  ℕ, ◌++◌, sum_by, All, if◌then◌else◌, ◌≡◌, Bool-cases, ◌==◌, inl, ◌+◌, arith, ◌&&◌, inr, refl,
  sum_by-append, ◌<◌, All-append, ltb, ◌≤◌,
}
use ai_tgs.Questions.Store.{same_type}
use ai_tgs.Generation.Rows.{QuestionMixDto, GenerationUnit}
use ai_tgs.Generation.Expander.{parts, part}
use ai_tgs.Generation.Asked.{amount, asked_in_mix, one, same_difficulty}

part-positive :
    (topic chapter : ℕ) (type : QuestionType) (d : QuestionDifficulty) (count : ℕ)
    → All (λ (u : GenerationUnit). 0 < u.count) (part topic chapter type d count)
part-positive topic chapter type d count = elim (Bool-cases (ltb 0 count)) [
  | inl some_of_it ↦ rw some_of_it (ground (arith, some_of_it), tt)
  | inr no_such ↦ rw no_such tt
]

pub parts-positive :
    (topic chapter : ℕ) (mix : QuestionMixDto)
    → All (λ (u : GenerationUnit). 0 < u.count) (parts topic chapter mix)
parts-positive topic chapter mix =
    let P : GenerationUnit → Type 0 = λ u. 0 < u.count in
    let easy = part topic chapter mix.type QuestionDifficulty.easy mix.difficulty.easy in
    let medium = part topic chapter mix.type QuestionDifficulty.medium mix.difficulty.medium in
    let hard = part topic chapter mix.type QuestionDifficulty.hard mix.difficulty.hard in
    All-append P easy (medium ++ hard)
      (part-positive topic chapter mix.type QuestionDifficulty.easy mix.difficulty.easy)
      (All-append P medium hard
        (part-positive topic chapter mix.type QuestionDifficulty.medium mix.difficulty.medium)
        (part-positive topic chapter mix.type QuestionDifficulty.hard mix.difficulty.hard))

sum_by-part :
    (w : GenerationUnit → ℕ) (topic chapter : ℕ) (type : QuestionType) (d : QuestionDifficulty)
    (count : ℕ)
    → sum_by w (part topic chapter type d count) ≡ (
        if ltb 0 count
        then w (record {
          topic_id = topic;
          chapter_id = chapter;
          type = type;
          difficulty = d;
          count = count;
        })
        else 0)
sum_by-part w topic chapter type d count = elim (Bool-cases (ltb 0 count)) [
  | inl some_of_it ↦ rw some_of_it (omega arith)
  | inr no_such ↦ rw no_such refl
]

sum_by-parts :
    (w : GenerationUnit → ℕ) (topic chapter : ℕ) (mix : QuestionMixDto)
    → sum_by w (parts topic chapter mix)
      ≡ sum_by w (part topic chapter mix.type QuestionDifficulty.easy mix.difficulty.easy)
        + (sum_by w (part topic chapter mix.type QuestionDifficulty.medium mix.difficulty.medium)
            + sum_by w (part topic chapter mix.type QuestionDifficulty.hard mix.difficulty.hard))
sum_by-parts w topic chapter mix =
    let easy = part topic chapter mix.type QuestionDifficulty.easy mix.difficulty.easy in
    let medium = part topic chapter mix.type QuestionDifficulty.medium mix.difficulty.medium in
    let hard = part topic chapter mix.type QuestionDifficulty.hard mix.difficulty.hard in
    omega (arith, sum_by-append w easy (medium ++ hard), sum_by-append w medium hard)

amount-part :
    (t : ℕ) (type : QuestionType) (d : QuestionDifficulty) (topic chapter : ℕ)
    (type' : QuestionType) (d' : QuestionDifficulty) (count : ℕ)
    → sum_by (amount t type d) (part topic chapter type' d' count)
      ≡ (if topic == t && (same_type type' type && same_difficulty d' d) then count else 0)
amount-part t type d topic chapter type' d' count =
    ground (arith, sum_by-part (amount t type d) topic chapter type' d' count)

one-part :
    (t : ℕ) (type : QuestionType) (d : QuestionDifficulty) (topic chapter : ℕ)
    (type' : QuestionType) (d' : QuestionDifficulty) (count : ℕ)
    → sum_by (one t type d) (part topic chapter type' d' count)
      ≤ (if topic == t && (same_type type' type && same_difficulty d' d) then 1 else 0)
one-part t type d topic chapter type' d' count =
    ground (arith, sum_by-part (one t type d) topic chapter type' d' count)

pub amount-parts :
    (t : ℕ) (type : QuestionType) (d : QuestionDifficulty) (topic chapter : ℕ)
    (mix : QuestionMixDto)
    → sum_by (amount t type d) (parts topic chapter mix)
      ≡ (if topic == t then asked_in_mix type d mix else 0)
amount-parts t type QuestionDifficulty.easy topic chapter mix = ground (
  arith,
  sum_by-parts (amount t type QuestionDifficulty.easy) topic chapter mix,
  amount-part t type QuestionDifficulty.easy topic chapter mix.type QuestionDifficulty.easy
      mix.difficulty.easy,
  amount-part t type QuestionDifficulty.easy topic chapter mix.type QuestionDifficulty.medium
      mix.difficulty.medium,
  amount-part t type QuestionDifficulty.easy topic chapter mix.type QuestionDifficulty.hard
      mix.difficulty.hard,
)
amount-parts t type QuestionDifficulty.medium topic chapter mix = ground (
  arith,
  sum_by-parts (amount t type QuestionDifficulty.medium) topic chapter mix,
  amount-part t type QuestionDifficulty.medium topic chapter mix.type QuestionDifficulty.easy
      mix.difficulty.easy,
  amount-part t type QuestionDifficulty.medium topic chapter mix.type QuestionDifficulty.medium
      mix.difficulty.medium,
  amount-part t type QuestionDifficulty.medium topic chapter mix.type QuestionDifficulty.hard
      mix.difficulty.hard,
)
amount-parts t type QuestionDifficulty.hard topic chapter mix = ground (
  arith,
  sum_by-parts (amount t type QuestionDifficulty.hard) topic chapter mix,
  amount-part t type QuestionDifficulty.hard topic chapter mix.type QuestionDifficulty.easy
      mix.difficulty.easy,
  amount-part t type QuestionDifficulty.hard topic chapter mix.type QuestionDifficulty.medium
      mix.difficulty.medium,
  amount-part t type QuestionDifficulty.hard topic chapter mix.type QuestionDifficulty.hard
      mix.difficulty.hard,
)

-- The weight of a mix's parts, for one topic, is at most one unit of each difficulty.
pub one-parts :
    (t : ℕ) (type : QuestionType) (d : QuestionDifficulty) (topic chapter : ℕ)
    (mix : QuestionMixDto)
    → sum_by (one t type d) (parts topic chapter mix)
      ≤ (if topic == t && same_type mix.type type then 1 else 0)
one-parts t type QuestionDifficulty.easy topic chapter mix = ground (
  arith,
  sum_by-parts (one t type QuestionDifficulty.easy) topic chapter mix,
  one-part t type QuestionDifficulty.easy topic chapter mix.type QuestionDifficulty.easy
      mix.difficulty.easy,
  one-part t type QuestionDifficulty.easy topic chapter mix.type QuestionDifficulty.medium
      mix.difficulty.medium,
  one-part t type QuestionDifficulty.easy topic chapter mix.type QuestionDifficulty.hard
      mix.difficulty.hard,
)
one-parts t type QuestionDifficulty.medium topic chapter mix = ground (
  arith,
  sum_by-parts (one t type QuestionDifficulty.medium) topic chapter mix,
  one-part t type QuestionDifficulty.medium topic chapter mix.type QuestionDifficulty.easy
      mix.difficulty.easy,
  one-part t type QuestionDifficulty.medium topic chapter mix.type QuestionDifficulty.medium
      mix.difficulty.medium,
  one-part t type QuestionDifficulty.medium topic chapter mix.type QuestionDifficulty.hard
      mix.difficulty.hard,
)
one-parts t type QuestionDifficulty.hard topic chapter mix = ground (
  arith,
  sum_by-parts (one t type QuestionDifficulty.hard) topic chapter mix,
  one-part t type QuestionDifficulty.hard topic chapter mix.type QuestionDifficulty.easy
      mix.difficulty.easy,
  one-part t type QuestionDifficulty.hard topic chapter mix.type QuestionDifficulty.medium
      mix.difficulty.medium,
  one-part t type QuestionDifficulty.hard topic chapter mix.type QuestionDifficulty.hard
      mix.difficulty.hard,
)
