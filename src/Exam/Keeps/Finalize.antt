-- ===== src/Exam/Keeps/Finalize.antt =====
-- TestsService.finalize.
use ai_tgs.Entitlement.{EntitlementError, resolve}
use ai_tgs.Usage.Reserve.{consume, JsNumber}
use ai_tgs.Common.{
  Bool-cases, Ensures, Ensures->>=, Ensures-throw_if, List, Result, [], all, ap, arith, err, inl,
  inr, length, not, ok, pure, refl, select, suc, sum_by, true, ℕ, ◌≡◌, ◌+◌, ◌==◌, ◌||◌, ◌∷◌, ◌⊎◌,
  ◌∙◌, ◌>>=◌, ◌>>◌,
}
use ai_tgs.Exam.Rows.{Question, User, ExamTest, TestQuestion, TestSection, is_finalized}
use ai_tgs.Exam.State.{
  State, ExamAction, ExamError, questions_of, sections_of, sort_questions, sort_sections,
  insert_question, question_first, marks_of, set_test, write_audit, AuditAction, needs_a_question,
  sections_not_contiguous, questions_not_contiguous, source_unavailable,
}
use ai_tgs.Exam.Access.{eligible}
use ai_tgs.Exam.Finalize
use ai_tgs.Exam.Keeps.{
  IsTidy, Touches, HasTotals, Leaves, Touches-trans, Touches-refl, Ensures-lock, Ensures-draft,
  set_test-Touches,
}
use ai_tgs.Exam.Keeps.Edit.{Finished, Finished-audit, eligible-same, set_test-HasTotals}
use ai_tgs.Usage.Store.{UsageAction}
use ai_tgs.Usage.Rows

length-insert_question :
    (q : TestQuestion) (xs : List TestQuestion) → length (insert_question q xs) ≡ suc (length xs)
unfolding insert_question
length-insert_question q [] = refl
length-insert_question q (x ∷ xs) = elim (Bool-cases (question_first q x)) [
  | inl hit ↦ rw hit refl
  | inr miss ↦ rw miss (ap (λ n. suc n) (length-insert_question q xs))
]

pub length-sort_questions : (xs : List TestQuestion) → length (sort_questions xs) ≡ length xs
unfolding sort_questions
length-sort_questions [] = refl
length-sort_questions (x ∷ xs) =
    length-insert_question x (sort_questions xs) ∙ ap (λ n. suc n) (length-sort_questions xs)

sum_by-insert_question :
    (w : TestQuestion → ℕ) (q : TestQuestion) (xs : List TestQuestion)
    → sum_by w (insert_question q xs) ≡ w q + sum_by w xs
unfolding insert_question
sum_by-insert_question w q [] = refl
sum_by-insert_question w q (x ∷ xs) = elim (Bool-cases (question_first q x)) [
  | inl hit ↦ rw hit refl
  | inr miss ↦ rw miss (omega (arith, sum_by-insert_question w q xs))
]

pub sum_by-sort_questions :
    (w : TestQuestion → ℕ) (xs : List TestQuestion) → sum_by w (sort_questions xs) ≡ sum_by w xs
unfolding sort_questions
sum_by-sort_questions w [] = refl
sum_by-sort_questions w (x ∷ xs) =
    sum_by-insert_question w x (sort_questions xs) ∙ ap (λ n. w x + n) (sum_by-sort_questions w xs)

eligible_all-same :
    (qs : List Question) (t : ExamTest) (user : User) (s : State)
    → Leaves (λ u. u ≡ s) (Finalize.eligible_all qs t user s)
unfolding Finalize.eligible_all
eligible_all-same [] t user s = refl
eligible_all-same (q ∷ qs) t user s =
    Ensures->>= (λ _ u. u ≡ s) (λ _ u. u ≡ s) (eligible q t user true) _ s
      (eligible-same q t user true s) (λ _ u same. rw same (eligible_all-same qs t user s))

-- The checks return the sorted questions and leave the state as it is.
pub check_content-same :
    (id : ℕ) (t : ExamTest) (user : User) (s : State)
    → Ensures {E = ExamError}
        (λ qs u. (qs ≡ sort_questions (questions_of id s)) × (u ≡ s))
        (Finalize.check_content id t user s)
unfolding Finalize.check_content
check_content-same id t user s =
    let qs = sort_questions (questions_of id s) in
    let sections = sort_sections (sections_of id s) in
    let sources = select (Finalize.is_source qs) s.questions in
    Ensures-throw_if Post (length qs == 0) needs_a_question _ s (λ a.
      Ensures-throw_if Post (length sections == 0 || not (Finalize.sections_count_from 1 sections))
        sections_not_contiguous _ s
        (λ b.
          Ensures-throw_if Post
            (not (
              all (λ (x : TestSection). Finalize.questions_count_from 1 (Finalize.members x.id qs))
                sections))
            questions_not_contiguous _ s
            (λ c.
              Ensures->>= (λ _ u. u ≡ s) Post (Finalize.eligible_all sources t user) _ s
                (eligible_all-same sources t user s)
                (λ _ u same. rw same (
                  Ensures-throw_if Post (not (length sources == length qs)) source_unavailable _ s
                    (λ d. (refl, refl)))))))
  where
    Post : List TestQuestion → State → Type 0
    Post qs u = (qs ≡ sort_questions (questions_of id s)) × (u ≡ s)

-- Only the usage tables differ.
abbrev pub OnlyUsage : State → State → Type 0
OnlyUsage s u = (db : Rows.Db) × (u ≡ record s { usage = db })

on_usage-OnlyUsage :
    {A : Type 0} (m : UsageAction A) (s : State) → Leaves (OnlyUsage s) (Finalize.on_usage m s)
on_usage-OnlyUsage {A} m s = go (m s.usage)
  where
    go :
        (r : Result Rows.UsageError (A × Rows.Db))
        → Leaves (OnlyUsage s) (elim r as (λ _. Result ExamError (A × State)) [
          | ok q ↦ ok (q.0, record s { usage = q.1 })
          | err e ↦ err (ExamError.usage e)
        ])
    go (ok q) = (q.1, refl)
    go (err e) = tt

charge_test-OnlyUsage :
    (now id : ℕ) (user : User) (s : State)
    → Leaves (OnlyUsage s) (Finalize.charge_test now id user s)
unfolding Finalize.charge_test
charge_test-OnlyUsage now id user s =
    go (resolve now (Finalize.requester user) Rows.UsageMetric.tests s.subscriptions)
  where
    charge : Rows.ResolvedEntitlement → ExamAction (Unit {0})
    charge ent = do
      Finalize.on_usage
          (consume now ent (JsNumber.integer 1) Rows.ReferenceType.test_finalization id user.id)
      pure tt

    go :
        (o : EntitlementError ⊎ Rows.ResolvedEntitlement)
        → Leaves (OnlyUsage s) ((Finalize.or_entitlement_error o >>= charge) s)
    go (inl e) = tt
    go (inr ent) =
        let m =
          consume now ent (JsNumber.integer 1) Rows.ReferenceType.test_finalization id user.id in
        Ensures->>= (λ _. OnlyUsage s) (λ _. OnlyUsage s) (Finalize.on_usage m) _ s
          (on_usage-OnlyUsage m s) (λ _ u h. h)

pub finalize-Finished :
    (now id : ℕ) (user : User) (s : State)
    → IsTidy s
    → HasTotals id s
    → Leaves (Finished id s) (Finalize.finalize now id user s)
unfolding Finalize.finalize
finalize-Finished now id user s h sums =
    Ensures-lock (λ _. Finished id s) id user _ s
      (λ t e m. elim (Bool-cases (is_finalized t.status)) [
        | inl done ↦ rw done (Touches-refl id s h, sums)
        | inr pending ↦ rw pending (
            Ensures-draft (λ _. Finished id s) t _ s
              (λ d.
                Ensures->>= (λ qs u. (qs ≡ sort_questions (questions_of id s)) × (u ≡ s))
                  (λ _. Finished id s) (Finalize.check_content id t user) _ s
                  (check_content-same id t user s)
                  (λ qs u checked. rw checked.1 (
                    Ensures->>= (λ _. OnlyUsage s) (λ _. Finished id s)
                      (Finalize.charge_test now id user) _ s (charge_test-OnlyUsage now id user s)
                      (λ _ v charged. rw charged.1 (
                        finished t qs checked.0 (record s { usage = charged.0 })
                          (h, λ k n. (refl, refl)) refl))))))
      ])
  where
    finished :
        (t : ExamTest) (qs : List TestQuestion)
        → qs ≡ sort_questions (questions_of id s)
        → (v : State) → Touches id s v
        → questions_of id v ≡ questions_of id s
        → Finished id s (
            write_audit user.id AuditAction.test_finalize id (
              set_test id
                (Finalize.finalized_test now
                  (Finalize.branding_of (Finalize.school_of t.school_id v.schools))
                  qs)
                v))
    finished t qs sorted v touched same =
        let f =
          Finalize.finalized_test now
            (Finalize.branding_of (Finalize.school_of t.school_id v.schools)) qs in
        let after = set_test id f v in
        Finished-audit id user.id AuditAction.test_finalize id s after (
          Touches-trans id s v after touched (set_test-Touches id f v (λ x. refl) touched.0),
          set_test-HasTotals id f v (λ x. refl)
              (λ old was. (
                rw (sorted, same) (length-sort_questions (questions_of id s)),
                rw (sorted, same) (sum_by-sort_questions marks_of (questions_of id s)),
              )),
        )
