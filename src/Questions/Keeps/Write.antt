-- ===== src/Questions/Keeps/Write.antt =====
-- What a bank must look like after a request wrote one question, so that the invariant still holds.
use ai_tgs.Common.{
  All, Bool-cases, IsUnique, List, Option, Text, [], ap, arith, collapse, count, false, find, inl,
  inr, length, map, none, refl, same_text, select, some, suc, sym, trim, trim-trim, true, ℕ, ◌<◌,
  ◌≡◌, ◌≢◌, ◌+◌, ◌==◌, ◌∷◌, ◌∙◌, if◌then◌else◌,
}
use ai_tgs.Exam.Rows.{QuestionType, Question, QuestionOption, is_active_question}
use ai_tgs.Exam.Edit.{or_else}
use ai_tgs.Questions.Rows.{Bank, QuestionOptionDto}
use ai_tgs.Questions.Validator.{
  validate, normalized, orders_of, is_correct, validate_objective, listed_fault,
}
use ai_tgs.Questions.Store.{is_id, option_of, option_row, option_dto}
use ai_tgs.Questions.Service.{matches}
use ai_tgs.Questions.Keeps.{question_key, stored_options, IsConsistent}

same_text-sym : (s t : Text) → same_text s t ≡ true → same_text t s ≡ true
same_text-sym [] [] h = refl
same_text-sym [] (b ∷ t) h = cc
same_text-sym (a ∷ s) [] h = cc
same_text-sym (a ∷ s) (b ∷ t) h = ground (arith, same_text-sym s t)

module _ (db_text : Text → Text) where
  -- Two active questions that match do so both ways.
  matches-sym :
      (a b : Question)
      → is_active_question a.status ≡ true
      → matches db_text a.created_by a.topic_id a.question_text b ≡ true
      → matches db_text b.created_by b.topic_id b.question_text a ≡ true
  matches-sym a b active h =
      let texts : same_text (db_text b.question_text) (db_text a.question_text) ≡ true =
        ground (arith, h) in
      ground
        (arith, h, active, same_text-sym (db_text b.question_text) (db_text a.question_text) texts)

module _ (lower db_text : Text → Text) where
  -- From `s` to `t` the question `n` was written under `id`, after the checks of the service.
  pub record IsWrite (id : ℕ) (n : Question) (s t : Bank) : Type 0 where
    pub unique : IsUnique question_key t.questions
    pub fresh : All (λ (q : Question). q.id < t.next_id) t.questions
    pub fresh_options : All (λ (o : QuestionOption). o.question_id < t.next_id) t.options
    pub trimmed : All (λ (q : Question). trim q.question_text ≡ q.question_text) t.questions
    pub found : find (is_id id) t.questions ≡ some n
    pub others : (k : ℕ) → k ≢ id → find (is_id k) t.questions ≡ find (is_id k) s.questions
    pub other_options :
        (k : ℕ) → k ≢ id → select (option_of k) t.options ≡ select (option_of k) s.options
    pub accepted : validate lower n.type (some (stored_options id t)) ≡ none
    pub single :
        (j : ℕ) (b : Question)
        → j ≢ id
        → find (is_id j) s.questions ≡ some b
        → matches db_text n.created_by n.topic_id n.question_text b ≡ false

  pub IsWrite-IsConsistent :
      (id : ℕ) (n : Question) (s t : Bank)
      → IsConsistent lower db_text s
      → IsWrite id n s t
      → IsConsistent lower db_text t
  IsWrite-IsConsistent id n s t h w = record {
    unique = w.unique;
    fresh = w.fresh;
    fresh_options = w.fresh_options;
    trimmed = w.trimmed;
    answerable = answerable;
    distinct = distinct;
  }
    where
      answerable :
          (k : ℕ) (q : Question)
          → find (is_id k) t.questions ≡ some q
          → validate lower q.type (some (stored_options k t)) ≡ none
      answerable k q e = elim (Bool-cases (k == id)) [
        | inl same ↦
            let k_id : k ≡ id = ground arith in
            let e' : find (is_id id) t.questions ≡ some q = rw (← k_id) e in
            let n_q : n ≡ q = cc in rw (k_id, ← n_q) w.accepted
        | inr other ↦
            let k_id : k ≢ id = ground arith in
            let e' : find (is_id k) s.questions ≡ some q = sym (w.others k k_id) ∙ e in
            rw (w.other_options k k_id) (h.answerable k q e')
      ]

      distinct :
          (i j : ℕ) (a b : Question)
          → find (is_id i) t.questions ≡ some a
          → find (is_id j) t.questions ≡ some b
          → is_active_question a.status ≡ true
          → matches db_text a.created_by a.topic_id a.question_text b ≡ true
          → i ≡ j
      distinct i j a b e g active m = elim (Bool-cases (i == id)) [
        | inl i_same ↦ elim (Bool-cases (j == id)) [
          | inl j_same ↦ ground arith
          | inr j_other ↦
              let i_id : i ≡ id = ground arith in
              let j_id : j ≢ id = ground arith in
              let e' : find (is_id id) t.questions ≡ some a = rw (← i_id) e in
              let n_a : n ≡ a = cc in
              let g' : find (is_id j) s.questions ≡ some b = sym (w.others j j_id) ∙ g in
              let free : matches db_text a.created_by a.topic_id a.question_text b ≡ false =
                rw (← n_a) (w.single j b j_id g') in
              let impossible : ⊥ = cc in absurd impossible
        ]
        | inr i_other ↦ elim (Bool-cases (j == id)) [
          | inl j_same ↦
              let j_id : j ≡ id = ground arith in
              let i_id : i ≢ id = ground arith in
              let g' : find (is_id id) t.questions ≡ some b = rw (← j_id) g in
              let n_b : n ≡ b = cc in
              let e' : find (is_id i) s.questions ≡ some a = sym (w.others i i_id) ∙ e in
              let free : matches db_text b.created_by b.topic_id b.question_text a ≡ false =
                rw (← n_b) (w.single i a i_id e') in
              let back : matches db_text b.created_by b.topic_id b.question_text a ≡ true =
                matches-sym db_text a b active m in
              let impossible : ⊥ = cc in absurd impossible
          | inr j_other ↦
              let e' : find (is_id i) s.questions ≡ some a = sym (w.others i (ground arith)) ∙ e in
              let g' : find (is_id j) s.questions ≡ some b = sym (w.others j (ground arith)) ∙ g in
              h.distinct i j a b e' g' active m
        ]
      ]

-- The options that a request sends are accepted as they are stored.
normalized-option_row :
    (lower : Text → Text) (id : ℕ) (os : List QuestionOptionDto)
    → normalized lower (map option_dto (map (option_row id) os)) ≡ normalized lower os
normalized-option_row lower id [] = refl
normalized-option_row lower id (o ∷ os) =
    rw (trim-trim o.option_text)
      (ap (◌∷◌ (lower (collapse (trim o.option_text)))) (normalized-option_row lower id os))

orders_of-option_row :
    (id : ℕ) (os : List QuestionOptionDto)
    → orders_of (map option_dto (map (option_row id) os)) ≡ orders_of os
orders_of-option_row id [] = refl
orders_of-option_row id (o ∷ os) = ap (◌∷◌ o.option_order) (orders_of-option_row id os)

count-option_row :
    (id : ℕ) (os : List QuestionOptionDto)
    → count is_correct (map option_dto (map (option_row id) os)) ≡ count is_correct os
count-option_row id [] = refl
count-option_row id (o ∷ os) =
    ap (λ n. (if o.is_correct then 1 else 0) + n) (count-option_row id os)

length-option_row :
    (id : ℕ) (os : List QuestionOptionDto)
    → length (map option_dto (map (option_row id) os)) ≡ length os
length-option_row id [] = refl
length-option_row id (o ∷ os) = ap (λ n. suc n) (length-option_row id os)

pub validate-option_row :
    (lower : Text → Text) (id : ℕ) (type : QuestionType) (os : List QuestionOptionDto)
    → validate lower type (some (map option_dto (map (option_row id) os)))
      ≡ validate lower type (some os)
unfolding validate validate_objective listed_fault
validate-option_row lower id QuestionType.mcq os =
    rw
      (
        normalized-option_row lower id os,
        orders_of-option_row id os,
        count-option_row id os,
        length-option_row id os,
      )
      refl
validate-option_row lower id QuestionType.true_false os =
    rw
      (
        normalized-option_row lower id os,
        orders_of-option_row id os,
        count-option_row id os,
        length-option_row id os,
      )
      refl
validate-option_row lower id QuestionType.short [] = refl
validate-option_row lower id QuestionType.short (o ∷ os) = refl
validate-option_row lower id QuestionType.long [] = refl
validate-option_row lower id QuestionType.long (o ∷ os) = refl
validate-option_row lower id QuestionType.fill_blank [] = refl
validate-option_row lower id QuestionType.fill_blank (o ∷ os) = refl

-- A request without options is one with an empty list of them.
pub validate-empty :
    (lower : Text → Text) (type : QuestionType) (options : Option (List QuestionOptionDto))
    → validate lower type options ≡ none
    → validate lower type (some (or_else options [])) ≡ none
unfolding validate validate_objective
validate-empty lower type (some os) h = h
validate-empty lower QuestionType.mcq none h = cc
validate-empty lower QuestionType.true_false none h = cc
validate-empty lower QuestionType.short none h = refl
validate-empty lower QuestionType.long none h = refl
validate-empty lower QuestionType.fill_blank none h = refl
