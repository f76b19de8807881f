-- ===== src/Questions/Keeps/Steps.antt =====
-- The statements on options and the guards of QuestionsService, as the invariant sees them.
use ai_tgs.Questions.Service.{ensure_no_duplicate, matches, is_other}
use ai_tgs.Common.{
  All, All-append, All-kept, Bool-cases, Ensures, Ensures->>=, Ensures-last_guard, Ensures-or_throw,
  Ensures-throw_if, List, Option, [], arith, false, find, inl, inr, map, none, not, refl, select,
  select-append_none, select-append_passing, select-select, some, true, ℕ, ◌<◌, ◌≡◌, ◌≢◌, ◌==◌, ◌∷◌,
  ◌∙◌, ◌>>◌, Text, any, IsUnique, ◌&&◌, ◌>>=◌, Bool, ◌||◌, find-passes, find-key_of_find,
}
use ai_tgs.Exam.Rows.{QuestionOption, User, Question, is_active_question}
use ai_tgs.Questions.Rows.{Bank, BankAction, BankError, CurriculumPath, Fault, QuestionOptionDto}
use ai_tgs.Questions.Keeps.{question_key, is_id}
use ai_tgs.Questions.Store.{
  option_of, option_row, replace_options, validate_path, or_throw_fault, is_active_path, scoped,
  is_visible, refusal,
}

rows-of_question :
    (id : ℕ) (os : List QuestionOptionDto)
    → All (λ r. option_of id r ≡ true) (map (option_row id) os)
rows-of_question id [] = tt
rows-of_question id (o ∷ os) = (ground arith, rows-of_question id os)

rows-of_other :
    (id k : ℕ) (os : List QuestionOptionDto)
    → k ≢ id
    → All (λ r. option_of k r ≡ false) (map (option_row id) os)
rows-of_other id k [] n = tt
rows-of_other id k (o ∷ os) n = (ground (arith, n), rows-of_other id k os n)

cleared :
    (id : ℕ) (rows : List QuestionOption)
    → All (λ r. option_of id r ≡ false) (select (λ r. not (option_of id r)) rows)
cleared id [] = tt
cleared id (r ∷ rows) = elim (Bool-cases (option_of id r)) [
  | inl hit ↦ rw hit (cleared id rows)
  | inr miss ↦ rw miss (miss, cleared id rows)
]

kept_for_other :
    (id k : ℕ) (rows : List QuestionOption)
    → k ≢ id
    → All (λ r. option_of k r ≡ true → not (option_of id r) ≡ true) rows
kept_for_other id k [] n = tt
kept_for_other id k (r ∷ rows) n = ((λ e. ground (arith, n, e)), kept_for_other id k rows n)

-- DELETE and INSERT replace the options of one question.
pub replace_options-stored :
    (id : ℕ) (os : List QuestionOptionDto) (s : Bank)
    → select (option_of id) (replace_options id os s).options ≡ map (option_row id) os
unfolding replace_options
replace_options-stored id os s =
    select-append_passing (option_of id) (select (λ r. not (option_of id r)) s.options)
      (map (option_row id) os) (cleared id s.options) (rows-of_question id os)

pub replace_options-others :
    (id k : ℕ) (os : List QuestionOptionDto) (s : Bank)
    → k ≢ id
    → select (option_of k) (replace_options id os s).options ≡ select (option_of k) s.options
unfolding replace_options
replace_options-others id k os s n =
    select-append_none (option_of k) (select (λ r. not (option_of id r)) s.options)
      (map (option_row id) os) (rows-of_other id k os n)
    ∙ select-select (option_of k) (λ r. not (option_of id r)) s.options
        (kept_for_other id k s.options n)

rows-below :
    (id n : ℕ) (os : List QuestionOptionDto)
    → id < n
    → All (λ (r : QuestionOption). r.question_id < n) (map (option_row id) os)
rows-below id n [] h = tt
rows-below id n (o ∷ os) h = (h, rows-below id n os h)

pub replace_options-below :
    (id n : ℕ) (os : List QuestionOptionDto) (s : Bank)
    → id < n
    → All (λ (r : QuestionOption). r.question_id < n) s.options
    → All (λ (r : QuestionOption). r.question_id < n) (replace_options id os s).options
unfolding replace_options
replace_options-below id n os s h old =
    All-append (λ (r : QuestionOption). r.question_id < n)
      (select (λ r. not (option_of id r)) s.options) (map (option_row id) os)
      (All-kept (λ (r : QuestionOption). r.question_id < n) (λ r. not (option_of id r)) s.options
        old)
      (rows-below id n os h)

validate_path-same :
    (path : CurriculumPath) (s : Bank)
    → Ensures {E = BankError} (λ _ u. u ≡ s) (validate_path path s)
unfolding validate_path
validate_path-same path s =
    Ensures-or_throw (λ _ u. u ≡ s) (find (is_active_path path.topic_id) s.topics)
      BankError.hierarchy_missing _ s
      (λ topic _.
        Ensures-throw_if (λ _ u. u ≡ s) (not (topic.chapter_id == path.chapter_id))
          BankError.topic_not_in_chapter _ s
          (λ _.
            Ensures-throw_if (λ _ u. u ≡ s) (not (topic.subject_id == path.subject_id))
              BankError.chapter_not_in_subject _ s
              (λ _.
                Ensures-last_guard (λ _ u. u ≡ s) (not (topic.class_id == path.class_id))
                  BankError.subject_not_in_class s (λ _. refl))))

-- The guards that leave the bank as it is.
module _ {B : Type 0} (Q : B → Bank → Type 0) where
  pub Ensures-validate_path :
      (path : CurriculumPath) (k : BankAction B) (s : Bank)
      → Ensures {E = BankError} Q (k s)
      → Ensures {E = BankError} Q ((validate_path path >> k) s)
  Ensures-validate_path path k s h =
      Ensures->>= (λ _ u. u ≡ s) Q (validate_path path) (λ _. k) s (validate_path-same path s)
        (λ _ u e. rw e h)

  pub Ensures-or_throw_fault :
      (o : Option Fault) (k : BankAction B) (s : Bank)
      → (o ≡ none → Ensures {E = BankError} Q (k s))
      → Ensures {E = BankError} Q ((or_throw_fault o >> k) s)
  Ensures-or_throw_fault none k s h = h refl
  Ensures-or_throw_fault (some f) k s h = tt

  pub Ensures-ensure_no_duplicate :
      (db_text : Text → Text) (owner topic : ℕ) (text : Text) (exclude : Option ℕ)
      (k : BankAction B) (s : Bank)
      → (any (λ q. matches db_text owner topic text q && is_other exclude q) s.questions ≡ false
          → Ensures {E = BankError} Q (k s))
      → Ensures {E = BankError} Q ((ensure_no_duplicate db_text owner topic text exclude >> k) s)
  unfolding ensure_no_duplicate
  Ensures-ensure_no_duplicate db_text owner topic text exclude k s h =
      Ensures-throw_if Q
        (any (λ q. matches db_text owner topic text q && is_other exclude q) s.questions)
        BankError.matching_question k s h

  -- `scoped` gives the row of the id, which the user sees and which is not archived.
  pub Ensures-scoped :
      (id : ℕ) (user : User) (f : Question → BankAction B) (s : Bank)
      → IsUnique question_key s.questions
      → ((q : Question)
          → find (is_id id) s.questions ≡ some q
          → is_visible user q ≡ true
          → is_active_question q.status ≡ true
          → Ensures {E = BankError} Q (f q s))
      → Ensures {E = BankError} Q ((scoped id user true >>= f) s)
  unfolding scoped
  Ensures-scoped id user f s unique h =
      let p : Question → Bool =
        λ q. is_id id q && (is_visible user q && (not true || is_active_question q.status)) in
      Ensures-or_throw Q (find p s.questions) (refusal user (find (is_id id) s.questions)) f s
        (λ q e.
          let passes : p q ≡ true = find-passes p s.questions q e in
          let key : question_key q ≡ id = ground (arith, passes) in
          let row : find (is_id (question_key q)) s.questions ≡ some q =
            find-key_of_find question_key p s.questions q unique e in
          h q (rw (← key) row) (ground (arith, passes)) (ground (arith, passes)))
