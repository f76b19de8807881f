-- ===== src/Questions/Keeps/Create.antt =====
-- `create` and `createGenerated` keep the invariant.
use ai_tgs.Common.{
  All-append, All-map, Ensures, IsUnique-append, List, Text, [], any, any-find, arith, false,
  find-append, find-append_miss, find-fresh, none, refl, some, suc, trim, trim-trim, ◌<◌, ◌≡◌, ◌&&◌,
  ◌∷◌, ◌∙◌,
}
use ai_tgs.Exam.Rows.{Question, QuestionOption, QuestionCitation, User}
use ai_tgs.Exam.Edit.{or_else}
use ai_tgs.Questions.Rows
use ai_tgs.Questions.Rows.{
  Bank, BankError, QuestionOptionDto, CreateQuestionDto, GeneratedQuestion, Audit,
}
use ai_tgs.Questions.Validator.{validate}
use ai_tgs.Questions.Store.{
  is_id, replace_options, insert_question, write_audit, created_question, generated_question,
}
use ai_tgs.Questions.Service
use ai_tgs.Questions.Service.{matches, is_other}
use ai_tgs.Questions.Keeps.{question_key, IsConsistent}
use ai_tgs.Questions.Keeps.Write.{
  IsWrite, IsWrite-IsConsistent, validate-option_row, validate-empty,
}
use ai_tgs.Questions.Keeps.Steps.{
  replace_options-stored, replace_options-others, replace_options-below, Ensures-validate_path,
  Ensures-or_throw_fault, Ensures-ensure_no_duplicate,
}

abbrev inserted : Question → List QuestionOptionDto → Bank → Bank
inserted n os s = replace_options s.next_id os (insert_question n s)

module _ (lower db_text : Text → Text) where
  inserted-IsWrite :
      (n : Question) (os : List QuestionOptionDto) (s : Bank)
      → IsConsistent lower db_text s
      → n.id ≡ s.next_id
      → trim n.question_text ≡ n.question_text
      → validate lower n.type (some os) ≡ none
      → any
          (λ q. matches db_text n.created_by n.topic_id n.question_text q && is_other none q)
          s.questions
        ≡ false
      → IsWrite lower db_text s.next_id n s (inserted n os s)
  unfolding insert_question replace_options
  inserted-IsWrite n os s h key text accepted free = record {
    unique = IsUnique-append question_key s.questions n s.next_id h.unique h.fresh key;
    fresh =
        All-append (λ (q : Question). q.id < suc s.next_id) s.questions (n ∷ [])
          (All-map (λ (q : Question). q.id < s.next_id) (λ (q : Question). q.id < suc s.next_id)
            s.questions (λ q k. omega (arith, k)) h.fresh)
          (omega (arith, key), tt);
    fresh_options =
        replace_options-below s.next_id (suc s.next_id) os (insert_question n s) (omega arith) (
          All-map (λ (o : QuestionOption). o.question_id < s.next_id)
            (λ (o : QuestionOption). o.question_id < suc s.next_id) s.options
            (λ o k. omega (arith, k)) h.fresh_options);
    trimmed =
        All-append (λ (q : Question). trim q.question_text ≡ q.question_text) s.questions (n ∷ [])
          h.trimmed (text, tt);
    found =
        find-append (is_id s.next_id) s.questions (n ∷ []) (some n)
          (find-fresh question_key s.next_id s.questions h.fresh) (ground (arith, key));
    others = λ k other. find-append_miss (is_id k) s.questions n (ground (arith, key, other));
    other_options = λ k other. replace_options-others s.next_id k os (insert_question n s) other;
    accepted =
        rw (replace_options-stored s.next_id os (insert_question n s))
          (validate-option_row lower s.next_id n.type os ∙ accepted);
    single = λ j b other e.
        (let miss =
            any-find
              (λ q. matches db_text n.created_by n.topic_id n.question_text q && is_other none q)
              (is_id j) s.questions b free e in
          ground (arith, miss));
  }

  -- The invariant does not read the citations and the audit log.
  pub IsConsistent-logs :
      (s : Bank) (citations : List QuestionCitation) (audits : List Audit)
      → IsConsistent lower db_text s
      → IsConsistent lower db_text (record s { citations = citations; audits = audits })
  IsConsistent-logs s citations audits h = record {
    unique = h.unique;
    fresh = h.fresh;
    fresh_options = h.fresh_options;
    trimmed = h.trimmed;
    answerable = h.answerable;
    distinct = h.distinct;
  }

  inserted-IsConsistent :
      (n : Question) (os : List QuestionOptionDto) (s : Bank)
      → IsConsistent lower db_text s
      → n.id ≡ s.next_id
      → trim n.question_text ≡ n.question_text
      → validate lower n.type (some os) ≡ none
      → any
          (λ q. matches db_text n.created_by n.topic_id n.question_text q && is_other none q)
          s.questions
        ≡ false
      → IsConsistent lower db_text (inserted n os s)
  inserted-IsConsistent n os s h key text accepted free =
      IsWrite-IsConsistent lower db_text s.next_id n s (inserted n os s) h
        (inserted-IsWrite n os s h key text accepted free)

  pub create-IsConsistent :
      (dto : CreateQuestionDto) (user : User) (s : Bank)
      → trim dto.question_text ≡ dto.question_text
      → IsConsistent lower db_text s
      → Ensures {E = BankError}
          (λ _. IsConsistent lower db_text)
          (Service.create lower db_text dto user s)
  unfolding Service.create replace_options insert_question write_audit
  create-IsConsistent dto user s text h =
      Ensures-validate_path (λ _. IsConsistent lower db_text) dto.path _ s
        (Ensures-or_throw_fault (λ _. IsConsistent lower db_text)
          (validate lower dto.type dto.options) _ s
          (λ accepted.
            Ensures-ensure_no_duplicate (λ _. IsConsistent lower db_text) db_text user.id
              dto.path.topic_id dto.question_text none _ s
              (λ free.
                let n = created_question dto user s.next_id in
                let t = inserted n (or_else dto.options []) s in
                IsConsistent-logs t t.citations
                  (write_audit user.id Rows.AuditAction.question_create s.next_id t).audits
                  (inserted-IsConsistent n (or_else dto.options []) s h refl
                    (trim-trim dto.question_text)
                    (validate-empty lower dto.type dto.options accepted) (rw text free)))))

  pub create_generated-IsConsistent :
      (input : GeneratedQuestion) (user : User) (s : Bank)
      → trim input.question_text ≡ input.question_text
      → IsConsistent lower db_text s
      → Ensures {E = BankError}
          (λ _. IsConsistent lower db_text)
          (Service.create_generated lower db_text input user s)
  unfolding Service.create_generated replace_options insert_question write_audit
  create_generated-IsConsistent input user s text h =
      Ensures-validate_path (λ _. IsConsistent lower db_text) input.path _ s
        (Ensures-or_throw_fault (λ _. IsConsistent lower db_text)
          (validate lower input.type (some input.options)) _ s
          (λ accepted.
            Ensures-ensure_no_duplicate (λ _. IsConsistent lower db_text) db_text user.id
              input.path.topic_id input.question_text none _ s
              (λ free.
                let n = generated_question input user s.next_id in
                IsConsistent-logs (inserted n input.options s) _ _ (
                  inserted-IsConsistent n input.options s h refl (trim-trim input.question_text)
                    accepted (rw text free)))))
