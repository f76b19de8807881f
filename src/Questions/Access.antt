-- ===== src/Questions/Access.antt =====
-- Who may change which stored question.
use ai_tgs.Common.{
  Bool, Bool-cases, Ensures, Ensures->>=, Ensures-or_throw, Ensures-throw_if, IsUnique,
  IsUnique-update, List, Text, [], any, arith, false, find, find-key_of_find, find-passes,
  find-update_ne, inl, inr, none, not, pure, refl, some, true, update, ℕ, ◌≡◌, ◌≢◌, ◌==◌, ◌&&◌,
  ◌++◌, ◌∷◌, ◌⊎◌, find-append_some,
}
use ai_tgs.Exam.Rows.{
  Question, User, is_system_admin, is_ai, is_approved, is_active_question, is_shared_in_school,
}
use ai_tgs.Exam.Access.{same_id, shared_with}
use ai_tgs.Exam.Edit.{or_else}
use ai_tgs.Questions.Rows.{Bank, BankError, CreateQuestionDto, GeneratedQuestion, UpdateQuestionDto}
use ai_tgs.Questions.Validator.{validate}
use ai_tgs.Questions.Store.{
  is_id, options_of, replace_options, insert_question, set_question, write_audit, path_of,
  next_options, replaces_options, updated_question, find_question, is_visible, QuestionResponse,
  created_question, generated_question,
}
use ai_tgs.Questions.Service
use ai_tgs.Questions.Service.{is_colleague}
use ai_tgs.Questions.Runs.{Op, perform}
use ai_tgs.Questions.Keeps.{question_key}
use ai_tgs.Questions.Keeps.Steps.{
  Ensures-validate_path, Ensures-or_throw_fault, Ensures-ensure_no_duplicate, Ensures-scoped,
}

-- An active question that a teacher sees and that is not AI-generated, or any for an administrator.
abbrev pub MayEdit : User → Question → Type 0
MayEdit user q =
    (is_system_admin user.role ≡ true)
    ⊎ ((is_ai q.source ≡ false)
        × ((q.created_by ≡ user.id) ⊎ (shared_with q user.school_id ≡ true)))

abbrev pub IsPermitted : List User → User → Op → ℕ → Question → Type 0
IsPermitted users user (Op.create dto) k q = ⊥
IsPermitted users user (Op.create_generated input) k q = ⊥
IsPermitted users user (Op.update_question id dto) k q =
    (k ≡ id) × ((is_active_question q.status ≡ true) × MayEdit user q)
IsPermitted users user (Op.archive id) k q =
    (k ≡ id) × ((is_active_question q.status ≡ true) × MayEdit user q)
IsPermitted users user (Op.approve id) k q =
    (k ≡ id)
    × ((is_active_question q.status ≡ true)
        × ((is_system_admin user.role ≡ true) ⊎ (q.created_by ≡ user.id)))
IsPermitted users user (Op.publish id) k q =
    (k ≡ id)
    × (((is_active_question q.status ≡ true) × (is_approved q.review_status ≡ true))
        × ((school : ℕ) × ((user.school_id ≡ some school)
              × (any (is_colleague school q.created_by) users ≡ true))))
IsPermitted users user (Op.unpublish id) k q =
    (k ≡ id)
    × ((school : ℕ) × ((user.school_id ≡ some school)
          × ((same_id q.shared_school_id school ≡ true)
              × (is_shared_in_school q.visibility ≡ true))))

-- Every row of the first table is in the second as it was, or what allows its change holds.
abbrev pub KeepsRows : (ℕ → Question → Type 0) → List Question → List Question → Type 0
KeepsRows C xs ys =
    (k : ℕ) (q : Question) → find (is_id k) xs ≡ some q → (find (is_id k) ys ≡ some q) ⊎ C k q

module _ (C : ℕ → Question → Type 0) where
  update-KeepsRows :
      (id : ℕ) (f : Question → Question) (q : Question) (xs : List Question)
      → ((x : Question) → question_key (f x) ≡ question_key x)
      → find (is_id id) xs ≡ some q
      → C id q
      → KeepsRows C xs (update (is_id id) f xs)
  update-KeepsRows id f q xs same row allowed k x e = elim (Bool-cases (k == id)) [
    | inl hit ↦
        let k_id : k ≡ id = ground arith in
        let e' : find (is_id id) xs ≡ some x = rw (← k_id) e in
        let q_x : q ≡ x = cc in inr (rw (k_id, ← q_x) allowed)
    | inr miss ↦
        let k_id : id ≢ k = ground arith in
        inl (rw (find-update_ne question_key id k f xs same k_id) e)
  ]

  append-KeepsRows : (n : Question) (xs : List Question) → KeepsRows C xs (xs ++ n ∷ [])
  append-KeepsRows n xs k x g = inl (find-append_some (is_id k) xs (n ∷ []) x g)

-- The row that a look-up by id and condition finds is the row of the id.
pub row_of :
    (id : ℕ) (r : Question → Bool) (s : Bank) (q : Question)
    → IsUnique question_key s.questions
    → find (λ x. is_id id x && r x) s.questions ≡ some q
    → (find (is_id id) s.questions ≡ some q) × (r q ≡ true)
row_of id r s q u e =
    let passes : (is_id id q && r q) ≡ true =
      find-passes (λ x. is_id id x && r x) s.questions q e in
    let key : question_key q ≡ id = ground (arith, passes) in
    let row : find (is_id (question_key q)) s.questions ≡ some q =
      find-key_of_find question_key (λ x. is_id id x && r x) s.questions q u e in
    (rw (← key) row, ground (arith, passes))

may_edit :
    (user : User) (q : Question)
    → is_visible user q ≡ true
    → (not (is_system_admin user.role) && is_ai q.source) ≡ false
    → MayEdit user q
may_edit user q seen guard = elim (Bool-cases (is_system_admin user.role)) [
  | inl admin ↦ inl admin
  | inr teacher ↦ inr (
    ground (arith, guard, teacher),
    elim (Bool-cases (q.created_by == user.id)) [
      | inl own ↦ inl (ground arith)
      | inr foreign ↦ inr (ground (arith, seen, teacher, foreign))
    ],
  )
]

module _ (lower db_text : Text → Text) where
  create-KeepsRows :
      (dto : CreateQuestionDto) (user : User) (s : Bank)
      → Ensures {E = BankError}
          (λ _ t. KeepsRows (λ _ _. ⊥) s.questions t.questions)
          (Service.create lower db_text dto user s)
  unfolding Service.create insert_question replace_options write_audit
  create-KeepsRows dto user s =
      let P : Unit {0} → Bank → Type 0 = λ _ t. KeepsRows (λ _ _. ⊥) s.questions t.questions in
      Ensures-validate_path P dto.path _ s (
        Ensures-or_throw_fault P (validate lower dto.type dto.options) _ s (λ _.
          Ensures-ensure_no_duplicate P db_text user.id dto.path.topic_id dto.question_text none _ s
            (λ _. append-KeepsRows (λ _ _. ⊥) (created_question dto user s.next_id) s.questions)))

  create_generated-KeepsRows :
      (input : GeneratedQuestion) (user : User) (s : Bank)
      → Ensures {E = BankError}
          (λ _ t. KeepsRows (λ _ _. ⊥) s.questions t.questions)
          (Service.create_generated lower db_text input user s)
  unfolding Service.create_generated insert_question replace_options write_audit
  create_generated-KeepsRows input user s =
      let P : Unit {0} → Bank → Type 0 = λ _ t. KeepsRows (λ _ _. ⊥) s.questions t.questions in
      Ensures-validate_path P input.path _ s (
        Ensures-or_throw_fault P (validate lower input.type (some input.options)) _ s (λ _.
          Ensures-ensure_no_duplicate P db_text user.id input.path.topic_id input.question_text none
            _ s
            (λ _.
              append-KeepsRows (λ _ _. ⊥) (generated_question input user s.next_id) s.questions)))

  update_question-KeepsRows :
      (id : ℕ) (dto : UpdateQuestionDto) (user : User) (s : Bank)
      → IsUnique question_key s.questions
      → Ensures {E = BankError}
          (λ _ t.
            KeepsRows
              (IsPermitted s.users user (Op.update_question id dto))
              s.questions
              t.questions)
          (Service.update_question lower db_text id dto user s)
  unfolding Service.update_question set_question replace_options write_audit
  update_question-KeepsRows id dto user s u =
      let C = IsPermitted s.users user (Op.update_question id dto) in
      let P : Unit {0} → Bank → Type 0 = λ _ t. KeepsRows C s.questions t.questions in
      Ensures-scoped P id user _ s u (λ q row seen active.
        Ensures-throw_if P (not (is_system_admin user.role) && is_ai q.source)
          BankError.may_not_update _ s
          (λ guard. Ensures-validate_path P (path_of dto q) _ s (
            Ensures-or_throw_fault P
              (validate lower (or_else dto.type q.type)
                (some (next_options dto q (options_of id s))))
              _ s
              (λ _.
                Ensures-ensure_no_duplicate P db_text q.created_by (path_of dto q).topic_id
                  (or_else dto.question_text q.question_text) (some id) _ s
                  (λ _.
                    let allowed : C id q = (refl, (active, may_edit user q seen guard)) in
                    let f = updated_question dto q in
                    elim (Bool-cases (replaces_options dto q)) [
                      | inl replaced ↦
                          rw replaced
                            (update-KeepsRows C id f q s.questions (λ _. refl) row allowed)
                      | inr stays ↦
                          rw stays (update-KeepsRows C id f q s.questions (λ _. refl) row allowed)
                    ])))))

archive-KeepsRows :
    (id : ℕ) (user : User) (s : Bank)
    → IsUnique question_key s.questions
    → Ensures {E = BankError}
        (λ _ t. KeepsRows (IsPermitted s.users user (Op.archive id)) s.questions t.questions)
        (Service.archive id user s)
unfolding Service.archive set_question write_audit
archive-KeepsRows id user s u =
    let C = IsPermitted s.users user (Op.archive id) in
    let P : Unit {0} → Bank → Type 0 = λ _ t. KeepsRows C s.questions t.questions in
    Ensures-scoped P id user _ s u (λ q row seen active.
      Ensures-throw_if P (not (is_system_admin user.role) && is_ai q.source)
        BankError.may_not_archive _ s
        (λ guard.
          update-KeepsRows C id _ q s.questions (λ _. refl) row
            (refl, (active, may_edit user q seen guard))))

approve-KeepsRows :
    (id : ℕ) (user : User) (s : Bank)
    → IsUnique question_key s.questions
    → Ensures {E = BankError}
        (λ _ t. KeepsRows (IsPermitted s.users user (Op.approve id)) s.questions t.questions)
        (Service.approve id user s)
unfolding Service.approve set_question write_audit
approve-KeepsRows id user s u =
    let C = IsPermitted s.users user (Op.approve id) in
    let P : Unit {0} → Bank → Type 0 = λ _ t. KeepsRows C s.questions t.questions in
    Ensures-scoped P id user _ s u (λ q row seen active.
      Ensures-throw_if P (not (is_system_admin user.role) && not (q.created_by == user.id))
        BankError.may_not_approve _ s
        (λ guard.
          let who : (is_system_admin user.role ≡ true) ⊎ (q.created_by ≡ user.id) =
            elim (Bool-cases (is_system_admin user.role)) [
              | inl admin ↦ inl admin
              | inr teacher ↦ inr (ground (arith, guard, teacher))
            ] in
          elim (Bool-cases (is_approved q.review_status)) [
            | inl before ↦ rw before (λ k x e. inl e)
            | inr pending ↦
                rw pending
                  (update-KeepsRows C id _ q s.questions (λ _. refl) row (refl, (active, who)))
          ]))

publish-KeepsRows :
    (now id : ℕ) (user : User) (s : Bank)
    → IsUnique question_key s.questions
    → Ensures {E = BankError}
        (λ _ t. KeepsRows (IsPermitted s.users user (Op.publish id)) s.questions t.questions)
        (Service.publish_to_school now id user s)
unfolding Service.publish_to_school find_question write_audit set_question
publish-KeepsRows now id user s u =
    let C = IsPermitted s.users user (Op.publish id) in
    let P : QuestionResponse → Bank → Type 0 = λ _ t. KeepsRows C s.questions t.questions in
    Ensures-or_throw P user.school_id BankError.school_required _ s (λ school member.
      let p : Question → Bool = λ q. is_id id q && any (is_colleague school q.created_by) s.users in
      Ensures-or_throw P (find p s.questions) BankError.question_not_found _ s (λ q e.
        Ensures-throw_if P (not (is_active_question q.status && is_approved q.review_status))
          BankError.not_shareable _ s
          (λ guard.
            let row = row_of id (λ q. any (is_colleague school q.created_by) s.users) s q u e in
            let allowed : C id q =
              (refl, ((ground (arith, guard), ground (arith, guard)), (school, (member, row.1)))) in
            Ensures-scoped P id user _ _
              (IsUnique-update question_key id _ s.questions (λ _. refl) u)
              (λ _ _ _ _. update-KeepsRows C id _ q s.questions (λ _. refl) row.0 allowed))))

unpublish-KeepsRows :
    (id : ℕ) (user : User) (s : Bank)
    → IsUnique question_key s.questions
    → Ensures {E = BankError}
        (λ _ t. KeepsRows (IsPermitted s.users user (Op.unpublish id)) s.questions t.questions)
        (Service.unpublish_from_school id user s)
unfolding Service.unpublish_from_school set_question write_audit
unpublish-KeepsRows id user s u =
    let C = IsPermitted s.users user (Op.unpublish id) in
    let P : Unit {0} → Bank → Type 0 = λ _ t. KeepsRows C s.questions t.questions in
    Ensures-or_throw P user.school_id BankError.school_required _ s (λ school member.
      let r : Question → Bool =
        λ q. same_id q.shared_school_id school && is_shared_in_school q.visibility in
      Ensures-or_throw P (find (λ q. is_id id q && r q) s.questions) BankError.shared_not_found _ s
        (λ q e.
          let row = row_of id r s q u e in
          let allowed : C id q =
            (refl, (school, (member, (ground (arith, row.1), ground (arith, row.1))))) in
          update-KeepsRows C id _ q s.questions (λ _. refl) row.0 allowed))

module _ (lower db_text : Text → Text) where
  -- A request that succeeds, on a bank with unique ids, leaves every stored question as it was,
  -- unless it is a request for that question by one who may: editing, archiving and approving need
  -- a question that is not archived, the first two a system administrator, or a question that is
  -- not AI-generated and a user who created it or whose school it is shared with, the last an
  -- administrator or the creator; publishing needs an active and approved question of a creator in
  -- the user's school; unpublishing needs a question shared with the user's school.
  pub perform-IsPermitted :
      (op : Op) (now : ℕ) (user : User) (s : Bank)
      → IsUnique question_key s.questions
      → Ensures {E = BankError}
          (λ _ t. KeepsRows (IsPermitted s.users user op) s.questions t.questions)
          (perform lower db_text op now user s)
  unfolding perform
  perform-IsPermitted (Op.create dto) now user s u = create-KeepsRows lower db_text dto user s
  perform-IsPermitted (Op.create_generated input) now user s u =
      create_generated-KeepsRows lower db_text input user s
  perform-IsPermitted (Op.update_question id dto) now user s u =
      update_question-KeepsRows lower db_text id dto user s u
  perform-IsPermitted (Op.archive id) now user s u = archive-KeepsRows id user s u
  perform-IsPermitted (Op.approve id) now user s u = approve-KeepsRows id user s u
  perform-IsPermitted (Op.publish id) now user s u =
      Ensures->>=
        (λ _ t. KeepsRows (IsPermitted s.users user (Op.publish id)) s.questions t.questions)
        (λ _ t. KeepsRows (IsPermitted s.users user (Op.publish id)) s.questions t.questions)
        (Service.publish_to_school now id user) (λ _. pure tt) s (publish-KeepsRows now id user s u)
        (λ _ _ k. k)
  perform-IsPermitted (Op.unpublish id) now user s u = unpublish-KeepsRows id user s u
