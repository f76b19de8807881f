-- ===== src/Questions/Keeps/Change.antt =====
-- The requests that change a stored question keep the invariant.
use ai_tgs.Common.{
  All, All-find, All-update, Bool, Bool-cases, Ensures, Ensures-or_throw, Ensures-throw_if,
  IsUnique-update, List, Option, Option-cases, Text, any, any-find, arith, false, find, find-passes,
  find-update_hit, find-update_ne, inl, inr, map, none, not, refl, select, some, sym, trim,
  trim-trim, true, ℕ, ◌<◌, ◌≡◌, ◌≢◌, ◌==◌, ◌&&◌, ◌∙◌, if◌then◌else◌,
}
use ai_tgs.Exam.Rows.{
  Question, QuestionOption, QuestionType, User, is_system_admin, is_ai, is_approved,
  is_active_question, is_shared_in_school,
}
use ai_tgs.Exam.Access.{same_id}
use ai_tgs.Exam.Edit.{or_else}
use ai_tgs.Questions.Rows.{Bank, BankError, QuestionOptionDto, UpdateQuestionDto, AuditAction}
use ai_tgs.Questions.Validator.{validate}
use ai_tgs.Questions.Store.{
  is_id, option_of, option_dto, options_of, replace_options, set_question, write_audit, path_of,
  same_type, changes_type, next_options, replaces_options, updated_question, find_question,
  QuestionResponse,
}
use ai_tgs.Questions.Service
use ai_tgs.Questions.Service.{matches, is_other, is_colleague}
use ai_tgs.Questions.Keeps.{question_key, IsConsistent, IsSameFor, set_question-IsConsistent}
use ai_tgs.Questions.Keeps.Write.{IsWrite, IsWrite-IsConsistent, validate-option_row}
use ai_tgs.Questions.Keeps.Steps.{
  replace_options-stored, replace_options-others, replace_options-below, Ensures-validate_path,
  Ensures-or_throw_fault, Ensures-ensure_no_duplicate, Ensures-scoped,
}
use ai_tgs.Questions.Keeps.Create.{IsConsistent-logs}

pub same_type-≡ : (a b : QuestionType) → same_type a b ≡ true → a ≡ b
same_type-≡ QuestionType.mcq QuestionType.mcq h = refl
same_type-≡ QuestionType.short QuestionType.short h = refl
same_type-≡ QuestionType.long QuestionType.long h = refl
same_type-≡ QuestionType.true_false QuestionType.true_false h = refl
same_type-≡ QuestionType.fill_blank QuestionType.fill_blank h = refl
same_type-≡ _ _ h = cc

abbrev pub IsTrimmed : Option Text → Type 0
IsTrimmed none = Unit
IsTrimmed (some t) = trim t ≡ t

next_text :
    (o : Option Text) (t : Text) → IsTrimmed o → trim t ≡ t → trim (or_else o t) ≡ or_else o t
next_text none t h k = k
next_text (some x) t h k = h

-- Where the options stay, the type stays.
type_kept :
    (dto : UpdateQuestionDto) (q : Question)
    → replaces_options dto q ≡ false
    → or_else dto.type q.type ≡ q.type
type_kept dto q h = elim (Option-cases dto.options) [
  | inl none_sent ↦
      let h' : changes_type dto q ≡ false = rw none_sent at h in
      same_type-≡ (or_else dto.type q.type) q.type (ground (arith, h'))
  | inr (os, sent) ↦
      let h' : true ≡ false = rw sent at h in let impossible : ⊥ = cc in absurd impossible
]

abbrev with_options : Bool → ℕ → List QuestionOptionDto → Bank → Bank
with_options replaces id next s = (if replaces then replace_options id next else (λ t. t)) s

abbrev with_rows : List QuestionOption → Bank → Bank
with_rows options s = record s { options = options }

module _ (lower db_text : Text → Text) where
  changed-IsWrite :
      (id : ℕ) (dto : UpdateQuestionDto) (current : Question) (s : Bank)
      (options : List QuestionOption)
      → IsConsistent lower db_text s
      → find (is_id id) s.questions ≡ some current
      → IsTrimmed dto.question_text
      → any
          (λ q.
            matches db_text current.created_by
              (path_of dto current).topic_id
              (or_else dto.question_text current.question_text)
              q
            && is_other (some id) q)
          s.questions
        ≡ false
      → All (λ (o : QuestionOption). o.question_id < s.next_id) options
      → ((k : ℕ) → k ≢ id → select (option_of k) options ≡ select (option_of k) s.options)
      → validate lower
          (or_else dto.type current.type)
          (some (map option_dto (select (option_of id) options)))
        ≡ none
      → IsWrite lower db_text id
          (updated_question dto current current)
          s
          (with_rows options (set_question id (updated_question dto current) s))
  unfolding set_question
  changed-IsWrite id dto current s options h row text free fresh others accepted =
      let f : Question → Question = updated_question dto current in
      let passes : is_id id current ≡ true = find-passes (is_id id) s.questions current row in
      let kept =
        All-find (λ (q : Question). trim q.question_text ≡ q.question_text) (is_id id) s.questions
          current h.trimmed row in
      let same = next_text dto.question_text current.question_text text kept in
      record {
        unique = IsUnique-update question_key id f s.questions (λ q. refl) h.unique;
        fresh =
            All-update (λ (q : Question). q.id < s.next_id) (is_id id) f s.questions (λ q k. k)
              h.fresh;
        fresh_options = fresh;
        trimmed =
            All-update (λ (q : Question). trim q.question_text ≡ q.question_text) (is_id id) f
              s.questions (λ q k. trim-trim (or_else dto.question_text current.question_text))
              h.trimmed;
        found =
            find-update_hit question_key id (is_id id) f s.questions current (λ q. refl) row passes;
        others = λ k other.
            find-update_ne question_key id k f s.questions (λ q. refl) (λ e. other (sym e));
        other_options = others;
        accepted = accepted;
        single = λ j b other e.
            (let miss =
                any-find
                  (λ q.
                    matches db_text current.created_by (path_of dto current).topic_id
                      (or_else dto.question_text current.question_text) q
                    && is_other (some id) q)
                  (is_id j) s.questions b free e in
              let mine : is_id j b ≡ true = find-passes (is_id j) s.questions b e in
              let key : not (b.id == id) ≡ true = ground (arith, mine, other) in
              rw same (ground (arith, miss, key)));
      }

  changed-IsConsistent :
      (id : ℕ) (dto : UpdateQuestionDto) (current : Question) (next : List QuestionOptionDto)
      (s : Bank)
      → IsConsistent lower db_text s
      → find (is_id id) s.questions ≡ some current
      → IsTrimmed dto.question_text
      → validate lower (or_else dto.type current.type) (some next) ≡ none
      → any
          (λ q.
            matches db_text current.created_by
              (path_of dto current).topic_id
              (or_else dto.question_text current.question_text)
              q
            && is_other (some id) q)
          s.questions
        ≡ false
      → IsConsistent lower db_text (
          with_options
            (replaces_options dto current)
            id
            next
            (set_question id (updated_question dto current) s))
  unfolding set_question replace_options
  changed-IsConsistent id dto current next s h row text accepted free =
      let n : Question = updated_question dto current current in
      let passes : is_id id current ≡ true = find-passes (is_id id) s.questions current row in
      let below : current.id < s.next_id =
        All-find (λ (q : Question). q.id < s.next_id) (is_id id) s.questions current h.fresh row in
      elim (Bool-cases (replaces_options dto current)) [
        | inl replaced ↦ rw replaced (
            IsWrite-IsConsistent lower db_text id n s
              (replace_options id next (set_question id (updated_question dto current) s)) h
              (changed-IsWrite id dto current s (replace_options id next s).options h row text free
                (replace_options-below id s.next_id next s (ground (arith, below, passes))
                  h.fresh_options)
                (λ k other. replace_options-others id k next s other)
                (rw (replace_options-stored id next s)
                  (validate-option_row lower id (or_else dto.type current.type) next ∙ accepted))))
        | inr stays ↦ rw stays (
            IsWrite-IsConsistent lower db_text id n s
              (set_question id (updated_question dto current) s) h
              (changed-IsWrite id dto current s s.options h row text free h.fresh_options
                (λ k other. refl) (rw (type_kept dto current stays) (h.answerable id current row))))
      ]

  pub update_question-IsConsistent :
      (id : ℕ) (dto : UpdateQuestionDto) (user : User) (s : Bank)
      → IsTrimmed dto.question_text
      → IsConsistent lower db_text s
      → Ensures {E = BankError}
          (λ _. IsConsistent lower db_text)
          (Service.update_question lower db_text id dto user s)
  unfolding Service.update_question write_audit
  update_question-IsConsistent id dto user s text h =
      let P : Unit {0} → Bank → Type 0 = λ _. IsConsistent lower db_text in
      Ensures-scoped P id user _ s h.unique (λ current row _ _.
        Ensures-throw_if P (not (is_system_admin user.role) && is_ai current.source)
          BankError.may_not_update _ s
          (λ _. Ensures-validate_path P (path_of dto current) _ s (
            Ensures-or_throw_fault P
              (validate lower (or_else dto.type current.type)
                (some (next_options dto current (options_of id s))))
              _ s
              (λ accepted.
                Ensures-ensure_no_duplicate P db_text current.created_by
                  (path_of dto current).topic_id (or_else dto.question_text current.question_text)
                  (some id) _ s
                  (λ free.
                    let next = next_options dto current (options_of id s) in
                    let t =
                      with_options (replaces_options dto current) id next
                        (set_question id (updated_question dto current) s) in
                    IsConsistent-logs lower db_text t t.citations
                      (write_audit user.id AuditAction.question_update id t).audits
                      (changed-IsConsistent id dto current next s h row text accepted free))))))

  -- A write of the columns that the invariant does not read, and its audit entry.
  noted-IsConsistent :
      (id : ℕ) (f : Question → Question) (user : ℕ) (action : AuditAction) (s : Bank)
      → ((q : Question) → (question_key (f q) ≡ question_key q) × IsSameFor q (f q))
      → IsConsistent lower db_text s
      → IsConsistent lower db_text (write_audit user action id (set_question id f s))
  unfolding write_audit
  noted-IsConsistent id f user action s same h =
      let t = set_question id f s in
      IsConsistent-logs lower db_text t t.citations (write_audit user action id t).audits
        (set_question-IsConsistent lower db_text id f s same h)

  pub archive-IsConsistent :
      (id : ℕ) (user : User) (s : Bank)
      → IsConsistent lower db_text s
      → Ensures {E = BankError} (λ _. IsConsistent lower db_text) (Service.archive id user s)
  unfolding Service.archive
  archive-IsConsistent id user s h =
      let P : Unit {0} → Bank → Type 0 = λ _. IsConsistent lower db_text in
      Ensures-scoped P id user _ s h.unique (λ q row _ active.
        Ensures-throw_if P (not (is_system_admin user.role) && is_ai q.source)
          BankError.may_not_archive _ s
          (λ _.
            noted-IsConsistent id _ user.id AuditAction.question_archive s
              (λ q. (refl, (refl, (refl, (refl, (refl, λ e. cc)))))) h))

  pub approve-IsConsistent :
      (id : ℕ) (user : User) (s : Bank)
      → IsConsistent lower db_text s
      → Ensures {E = BankError} (λ _. IsConsistent lower db_text) (Service.approve id user s)
  unfolding Service.approve
  approve-IsConsistent id user s h =
      let P : Unit {0} → Bank → Type 0 = λ _. IsConsistent lower db_text in
      Ensures-scoped P id user _ s h.unique (λ q row _ active.
        Ensures-throw_if P (not (is_system_admin user.role) && not (q.created_by == user.id))
          BankError.may_not_approve _ s
          (λ _. elim (Bool-cases (is_approved q.review_status)) [
            | inl before ↦ rw before h
            | inr pending ↦ rw pending (
                noted-IsConsistent id _ user.id AuditAction.question_approve s
                  (λ q. (refl, (refl, (refl, (refl, (refl, λ e. e)))))) h)
          ]))

  pub publish-IsConsistent :
      (now id : ℕ) (user : User) (s : Bank)
      → IsConsistent lower db_text s
      → Ensures {E = BankError}
          (λ _. IsConsistent lower db_text)
          (Service.publish_to_school now id user s)
  unfolding Service.publish_to_school find_question
  publish-IsConsistent now id user s h =
      let P : QuestionResponse → Bank → Type 0 = λ _. IsConsistent lower db_text in
      Ensures-or_throw P user.school_id BankError.school_required _ s (λ school _.
        Ensures-or_throw P
          (find (λ q. is_id id q && any (is_colleague school q.created_by) s.users) s.questions)
          BankError.question_not_found _ s
          (λ q _.
            Ensures-throw_if P (not (is_active_question q.status && is_approved q.review_status))
              BankError.not_shareable _ s
              (λ _.
                let k =
                  noted-IsConsistent id _ user.id AuditAction.question_publish s
                    (λ q. (refl, (refl, (refl, (refl, (refl, λ e. e)))))) h in
                Ensures-scoped P id user _ _ k.unique (λ _ _ _ _. k))))

  pub unpublish-IsConsistent :
      (id : ℕ) (user : User) (s : Bank)
      → IsConsistent lower db_text s
      → Ensures {E = BankError}
          (λ _. IsConsistent lower db_text)
          (Service.unpublish_from_school id user s)
  unfolding Service.unpublish_from_school
  unpublish-IsConsistent id user s h =
      let P : Unit {0} → Bank → Type 0 = λ _. IsConsistent lower db_text in
      Ensures-or_throw P user.school_id BankError.school_required _ s (λ school _.
        Ensures-or_throw P
          (find
            (λ q.
              is_id id q && (same_id q.shared_school_id school && is_shared_in_school q.visibility))
            s.questions)
          BankError.shared_not_found _ s
          (λ q _.
            noted-IsConsistent id _ user.id AuditAction.question_unpublish s
              (λ q. (refl, (refl, (refl, (refl, (refl, λ e. e)))))) h))
