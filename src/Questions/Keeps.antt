-- ===== src/Questions/Keeps.antt =====
-- What every request keeps of the bank: options that fit their questions, and no two matching
-- active questions of one owner and topic.
pub mod Write
pub mod Steps
pub mod Create
pub mod Change
use ai_tgs.Common.{
  All, All-update, IsUnique, IsUnique-update, List, Text, arith, find, find-update_inv, inl, inr,
  map, none, refl, same_text, select, some, trim, true, update, ℕ, ◌<◌, ◌≡◌, ◌==◌, ◌&&◌,
}
use ai_tgs.Exam.Rows.{Question, QuestionOption, is_active_question}
use ai_tgs.Questions.Rows.{Bank, QuestionOptionDto}
use ai_tgs.Questions.Validator.{validate}
use ai_tgs.Questions.Store.{is_id, option_of, option_dto, set_question}
use ai_tgs.Questions.Service.{matches}

abbrev pub question_key : Question → ℕ
question_key q = q.id

-- The stored options of a question, as the validator reads them.
abbrev pub stored_options : ℕ → Bank → List QuestionOptionDto
stored_options id s = map option_dto (select (option_of id) s.options)

-- What the invariant reads of a row is as in an older row, but the row may have left activity.
abbrev pub IsSameFor : Question → Question → Type 0
IsSameFor a b =
    (b.type ≡ a.type)
    × ((b.question_text ≡ a.question_text)
        × ((b.created_by ≡ a.created_by)
            × ((b.topic_id ≡ a.topic_id)
                × (is_active_question b.status ≡ true → is_active_question a.status ≡ true))))

module _ (lower db_text : Text → Text) where
  pub record IsConsistent (s : Bank) : Type 0 where
    pub unique : IsUnique question_key s.questions
    pub fresh : All (λ (q : Question). q.id < s.next_id) s.questions
    pub fresh_options : All (λ (o : QuestionOption). o.question_id < s.next_id) s.options
    pub trimmed : All (λ (q : Question). trim q.question_text ≡ q.question_text) s.questions
    pub answerable :
        (k : ℕ) (q : Question)
        → find (is_id k) s.questions ≡ some q
        → validate lower q.type (some (stored_options k s)) ≡ none
    pub distinct :
        (i j : ℕ) (a b : Question)
        → find (is_id i) s.questions ≡ some a
        → find (is_id j) s.questions ≡ some b
        → is_active_question a.status ≡ true
        → matches db_text a.created_by a.topic_id a.question_text b ≡ true
        → i ≡ j

  matches-IsSameFor :
      (owner topic : ℕ) (text : Text) (a b : Question)
      → IsSameFor a b
      → matches db_text owner topic text b ≡ true
      → matches db_text owner topic text a ≡ true
  matches-IsSameFor owner topic text a b same h =
      let active : is_active_question b.status ≡ true = ground (arith, h) in
      let h' : (b.created_by == owner
            && (b.topic_id == topic && same_text (db_text b.question_text) (db_text text)))
          ≡ true =
        ground (arith, h) in
      let h'' : (a.created_by == owner
            && (a.topic_id == topic && same_text (db_text a.question_text) (db_text text)))
          ≡ true =
        rw (← same.1.0, ← same.1.1.0, ← same.1.1.1.0) h' in
      ground (arith, h'', same.1.1.1.1 active)

  pub set_question-IsConsistent :
      (id : ℕ) (f : Question → Question) (s : Bank)
      → ((q : Question) → (question_key (f q) ≡ question_key q) × IsSameFor q (f q))
      → IsConsistent s
      → IsConsistent (set_question id f s)
  unfolding set_question
  set_question-IsConsistent id f s same h = record {
    unique = IsUnique-update question_key id f s.questions (λ q. (same q).0) h.unique;
    fresh =
        All-update (λ (q : Question). question_key q < s.next_id) (is_id id) f s.questions
          (λ q k. rw (same q).0 k) h.fresh;
    fresh_options = h.fresh_options;
    trimmed =
        All-update (λ (q : Question). trim q.question_text ≡ q.question_text) (is_id id) f
          s.questions (λ q k. rw (same q).1.1.0 k) h.trimmed;
    answerable = λ k b e. (let (a, (was, kept)) = origin k b e in rw kept.0 (h.answerable k a was));
    distinct = λ i j a b e g active matched.
        (let (a', (was_a, kept_a)) = origin i a e in
          let (b', (was_b, kept_b)) = origin j b g in
          let matched' : matches db_text a'.created_by a'.topic_id a'.question_text b' ≡ true =
            rw (← kept_a.1.0, ← kept_a.1.1.0, ← kept_a.1.1.1.0)
              (matches-IsSameFor a.created_by a.topic_id a.question_text b' b kept_b matched) in
          h.distinct i j a' b' was_a was_b (kept_a.1.1.1.1 active) matched');
  }
    where
      origin :
          (k : ℕ) (b : Question)
          → find (is_id k) (update (is_id id) f s.questions) ≡ some b
          → (a : Question) × ((find (is_id k) s.questions ≡ some a) × IsSameFor a b)
      origin k b e =
          let (a, (was, how)) =
            find-update_inv question_key id k f s.questions b (λ q. (same q).0) e in
          elim how [
            | inl kept ↦ (a, (was, rw kept (refl, (refl, (refl, (refl, λ x. x))))))
            | inr (hit, changed) ↦ (a, (was, rw changed (same a).1))
          ]
