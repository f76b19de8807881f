-- ===== src/Exam/Ready.antt =====
-- What a test is when TestsService.finalize succeeds, and what a second call does.
use ai_tgs.Common.{
  All, Ensures, Ensures->>=, Ensures-mono, Ensures-throw_if, List, Result, [], all, ap, arith, err,
  false, find, find-passes, find-update_hit, inl, inr, length, not, ok, pure, refl, select, some,
  true, update, ℕ, ◌≡◌, ◌==◌, ◌&&◌, ◌||◌, ◌∷◌, ◌⊎◌, ◌>>=◌, ◌>>◌, Ensures-last_guard,
}
use ai_tgs.Exam.Rows.{
  Branding, Question, User, ExamTest, TestQuestion, TestSection, is_finalized, is_draft, is_ai,
  is_approved, is_active_question, is_system_admin, TestStatus,
}
use ai_tgs.Exam.State.{
  State, ExamError, is_test, questions_of, sections_of, sort_questions, sort_sections, set_test,
  write_audit, needs_a_question, sections_not_contiguous, questions_not_contiguous,
  source_unavailable, belongs_to_another_teacher, question_not_active, incompatible_curriculum,
  approval_required,
}
use ai_tgs.Exam.Access.{eligible, shared_with}
use ai_tgs.Exam.Finalize
use ai_tgs.Exam.Keeps.{Leaves, Ensures-lock, Ensures-draft, MayChange, test_key}
use ai_tgs.Entitlement.{resolve, EntitlementError}
use ai_tgs.Usage.Store.{UsageAction}
use ai_tgs.Usage.Reserve.{consume, JsNumber}
use ai_tgs.Usage.Rows

-- A question of the bank that may stand in a finalized test.
abbrev pub IsPublishable : ExamTest → Question → Type 0
IsPublishable t q =
    (is_active_question q.status ≡ true)
    × (((q.class_id ≡ t.class_id) × (q.subject_id ≡ t.subject_id))
        × (is_ai q.source ≡ true → is_approved q.review_status ≡ true))

-- The sections are numbered from 1, so are the questions of each section, and the questions of the
-- bank behind them are publishable and as many as the test's.
abbrev pub IsReady : ℕ → ExamTest → State → Type 0
IsReady id t s =
    let qs = sort_questions (questions_of id s) in
    let sections = sort_sections (sections_of id s) in
    let sources = select (Finalize.is_source qs) s.questions in
    ((length qs == 0) ≡ false)
    × ((Finalize.sections_count_from 1 sections ≡ true)
        × ((all (λ (x : TestSection). Finalize.questions_count_from 1 (Finalize.members x.id qs))
                sections
              ≡ true)
            × (All (IsPublishable t) sources × (length sources ≡ length qs))))

-- One test was charged under the actor's entitlement.
abbrev pub IsBilled : ℕ → ℕ → User → State → State → Type 0
IsBilled now id user s u =
    (ent : Rows.ResolvedEntitlement) × ((resolve now (Finalize.requester user)
          Rows.UsageMetric.tests s.subscriptions
        ≡ inr ent)
      × ((row : Rows.Reservation) × (consume now ent (JsNumber.integer 1)
              Rows.ReferenceType.test_finalization id user.id s.usage
            ≡ ok (row, u.usage))))

-- And nothing but the usage tables changed.
abbrev pub IsCharged : ℕ → ℕ → User → State → State → Type 0
IsCharged now id user s u = IsBilled now id user s u × (u ≡ record s { usage = u.usage })

eligible-IsPublishable :
    (q : Question) (t : ExamTest) (user : User) (s : State)
    → Leaves (λ u. IsPublishable t q × (u ≡ s)) (eligible q t user true s)
unfolding eligible
eligible-IsPublishable q t user s =
    Ensures-throw_if Post
      (not (is_system_admin user.role)
        && (not (q.created_by == user.id) && not (shared_with q user.school_id)))
      belongs_to_another_teacher _ s
      (λ a. Ensures-throw_if Post (not (is_active_question q.status)) question_not_active _ s (λ b.
        Ensures-throw_if Post (not (q.class_id == t.class_id && q.subject_id == t.subject_id))
          incompatible_curriculum _ s
          (λ c.
            Ensures-last_guard Post (is_ai q.source && not (is_approved q.review_status))
              approval_required s
              (λ d. ((ground arith, ((ground arith, ground arith), λ ai. ground arith)), refl)))))
  where
    Post : Unit {0} → State → Type 0
    Post _ u = IsPublishable t q × (u ≡ s)

eligible_all-IsPublishable :
    (qs : List Question) (t : ExamTest) (user : User) (s : State)
    → Leaves (λ u. All (IsPublishable t) qs × (u ≡ s)) (Finalize.eligible_all qs t user s)
unfolding Finalize.eligible_all
eligible_all-IsPublishable [] t user s = (tt, refl)
eligible_all-IsPublishable (q ∷ qs) t user s =
    Ensures->>= (λ _ u. IsPublishable t q × (u ≡ s))
      (λ _ u. All (IsPublishable t) (q ∷ qs) × (u ≡ s)) (eligible q t user true) _ s
      (eligible-IsPublishable q t user s)
      (λ _ u first. rw first.1 (
        Ensures-mono {E = ExamError} (λ _ v. All (IsPublishable t) qs × (v ≡ s))
          (λ _ v. All (IsPublishable t) (q ∷ qs) × (v ≡ s))
          (λ _ v rest. ((first.0, rest.0), rest.1)) (Finalize.eligible_all qs t user s)
          (eligible_all-IsPublishable qs t user s)))

check_content-IsReady :
    (id : ℕ) (t : ExamTest) (user : User) (s : State)
    → Ensures {E = ExamError}
        (λ qs u. IsReady id t s × ((qs ≡ sort_questions (questions_of id s)) × (u ≡ s)))
        (Finalize.check_content id t user s)
unfolding Finalize.check_content
check_content-IsReady id t user s =
    let qs = sort_questions (questions_of id s) in
    let sections = sort_sections (sections_of id s) in
    let sources = select (Finalize.is_source qs) s.questions in
    Ensures-throw_if Post (length qs == 0) needs_a_question _ s (λ a.
      Ensures-throw_if Post (length sections == 0 || not (Finalize.sections_count_from 1 sections))
        sections_not_contiguous _ s
        (λ b.
          Ensures-throw_if Post
            (not (
              all (λ (x : TestSection). Finalize.questions_count_from 1 (Finalize.members x.id qs))
                sections))
            questions_not_contiguous _ s
            (λ c.
              Ensures->>= (λ _ u. All (IsPublishable t) sources × (u ≡ s)) Post
                (Finalize.eligible_all sources t user) _ s
                (eligible_all-IsPublishable sources t user s)
                (λ _ u fit. rw fit.1 (
                  Ensures-throw_if Post (not (length sources == length qs)) source_unavailable _ s
                    (λ d. (
                      (a, (ground arith, (ground arith, (fit.0, ground arith)))),
                      (refl, refl),
                    )))))))
  where
    Post : List TestQuestion → State → Type 0
    Post qs u = IsReady id t s × ((qs ≡ sort_questions (questions_of id s)) × (u ≡ s))

charge_test-IsCharged :
    (now id : ℕ) (user : User) (s : State)
    → Leaves (IsCharged now id user s) (Finalize.charge_test now id user s)
unfolding Finalize.charge_test
charge_test-IsCharged now id user s =
    go (resolve now (Finalize.requester user) Rows.UsageMetric.tests s.subscriptions) refl
  where
    bill : Rows.ResolvedEntitlement → UsageAction (Rows.Reservation)
    bill ent = consume now ent (JsNumber.integer 1) Rows.ReferenceType.test_finalization id user.id

    after :
        (ent : Rows.ResolvedEntitlement)
        → resolve now (Finalize.requester user) Rows.UsageMetric.tests s.subscriptions ≡ inr ent
        → (r : Result Rows.UsageError (Rows.Reservation × Rows.Db)) → bill ent s.usage ≡ r
        → Leaves
            (IsCharged now id user s)
            (elim (elim r as (λ _. Result ExamError (Rows.Reservation × State)) [
              | ok q ↦ ok (q.0, record s { usage = q.1 })
              | err e ↦ err (ExamError.usage e)
            ])
              as (λ _. Result ExamError (Unit {0} × State)) [ ok q ↦ ok (tt, q.1) | err e ↦ err e ])
    after ent granted (ok q) billed = ((ent, (granted, (q.0, billed))), refl)
    after ent granted (err e) billed = tt

    go :
        (o : EntitlementError ⊎ Rows.ResolvedEntitlement)
        → resolve now (Finalize.requester user) Rows.UsageMetric.tests s.subscriptions ≡ o
        → Leaves
            (IsCharged now id user s)
            ((Finalize.or_entitlement_error o >>= λ ent. Finalize.on_usage (bill ent) >> pure tt) s)
    go (inl e) granted = tt
    go (inr ent) granted = after ent granted (bill ent s.usage) refl

-- The row of a test after its finalization.
abbrev pub IsFinalized : ℕ → ℕ → ExamTest → State → State → Type 0
IsFinalized now id t s u =
    (branding : Branding) × (find (is_test id) u.tests
      ≡ some (Finalize.finalized_test now branding (sort_questions (questions_of id s)) t))

pub draft-not_finalized :
    (status : TestStatus) → is_draft status ≡ true → is_finalized status ≡ false
draft-not_finalized TestStatus.draft h = refl
draft-not_finalized TestStatus.finalized h = cc
draft-not_finalized TestStatus.archived h = cc

-- finalize of a test that is a draft, when it does not throw: the test had a question, its
-- sections were numbered from 1 and so were the questions of each section, the questions of the
-- bank behind it were as many as its questions, active, of the test's class and subject and, where
-- AI made them, approved; the actor was allowed; one test was charged by the usage service under
-- the actor's entitlement; and the row of the test is now the finalized one with its totals.
pub finalize-IsReady :
    (now id : ℕ) (user : User) (s : State) (t : ExamTest)
    → find (is_test id) s.tests ≡ some t
    → is_draft t.status ≡ true
    → Leaves
        (λ u.
          IsReady id t s
          × (MayChange user t × (IsFinalized now id t s u × IsBilled now id user s u)))
        (Finalize.finalize now id user s)
unfolding Finalize.finalize set_test write_audit
finalize-IsReady now id user s t row mutable = Ensures-lock Post id user _ s (λ x e m.
    let same : x ≡ t = cc in
    rw (same, draft-not_finalized t.status mutable)
      (Ensures-draft Post t _ s (λ d.
        Ensures->>= (λ qs u. IsReady id t s × ((qs ≡ sort_questions (questions_of id s)) × (u ≡ s)))
          Post (Finalize.check_content id t user) _ s (check_content-IsReady id t user s)
          (λ qs u checked. rw checked.1.1 (
            Ensures->>= (λ _. IsCharged now id user s) Post (Finalize.charge_test now id user) _ s
              (charge_test-IsCharged now id user s)
              (λ _ v charged.
                (checked.0, (rw (← same) m, (done qs v checked.1.0 charged.1, charged.0)))))))))
  where
    Post : Unit {0} → State → Type 0
    Post _ u =
        IsReady id t s × (MayChange user t × (IsFinalized now id t s u × IsBilled now id user s u))

    done :
        (qs : List TestQuestion) (v : State)
        → qs ≡ sort_questions (questions_of id s)
        → v ≡ record s { usage = v.usage }
        → (branding : Branding) × (find (is_test id) (
              update
                (is_test id)
                (Finalize.finalized_test now
                  (Finalize.branding_of (Finalize.school_of t.school_id v.schools))
                  qs)
                v.tests)
            ≡ some (Finalize.finalized_test now branding (sort_questions (questions_of id s)) t))
    done qs v sorted only =
        let b = Finalize.branding_of (Finalize.school_of t.school_id v.schools) in
        let tests : v.tests ≡ s.tests = ap (λ (x : State). x.tests) only in
        (
          b,
          rw (sorted, tests)
              (find-update_hit test_key id (is_test id)
                (Finalize.finalized_test now b (sort_questions (questions_of id s))) s.tests t
                (λ x. refl) row (find-passes (is_test id) s.tests t row)),
        )
