-- ===== src/Exam/Finalizes.antt =====
-- When TestsService.finalize succeeds.
use ai_tgs.Common.{
  none, Succeeds, Result, err, suc, sum_by, ◌<◌, subst, sym, find-update_hit, find-passes, All,
  Bool-cases, List, [], arith, false, find, inl, inr, length, not, ok, refl, select, some, true, ℕ,
  ◌≡◌, ◌==◌, ◌&&◌, ◌∷◌, ◌⊎◌, ◌>>=◌,
}
use ai_tgs.Exam.Rows.{
  TestStatus, Question, User, ExamTest, is_draft, is_ai, is_approved, is_system_admin,
}
use ai_tgs.Exam.State.{
  ExamError, marks_of, State, is_test, questions_of, sections_of, sort_questions, sort_sections,
  set_test, write_audit, AuditAction,
}
use ai_tgs.Exam.Access.{draft, eligible, shared_with}
use ai_tgs.Exam.Finalize
use ai_tgs.Exam.Keeps.{test_key, MayChange, lock-MayChange}
use ai_tgs.Exam.Ready.{IsReady, IsPublishable, draft-not_finalized}
use ai_tgs.Entitlement.{resolve}
use ai_tgs.Usage.Reserve.{consume, JsNumber}
use ai_tgs.Usage.Rows
use ai_tgs.Usage.Store.{is_reservation_for}
use ai_tgs.Usage.Allowance.{load_of, HasRoom, consume-charges}

-- The actor may use a question of the bank.
abbrev pub MayUse : User → Question → Type 0
MayUse user q =
    (is_system_admin user.role ≡ true)
    ⊎ ((q.created_by ≡ user.id) ⊎ (shared_with q user.school_id ≡ true))

not_foreign :
    (user : User) (q : Question)
    → MayUse user q
    → (not (is_system_admin user.role)
        && (not (q.created_by == user.id) && not (shared_with q user.school_id)))
      ≡ false
not_foreign user q (inl admin) = rw admin refl
not_foreign user q (inr (inl own)) =
    let mine : (q.created_by == user.id) ≡ true = ground arith in ground (arith, mine)
not_foreign user q (inr (inr shared)) = ground (arith, shared)

approved_ai :
    (t : ExamTest) (q : Question)
    → IsPublishable t q
    → (is_ai q.source && not (is_approved q.review_status)) ≡ false
approved_ai t q fit = elim (Bool-cases (is_ai q.source)) [
  | inl ai ↦ let approved = fit.1.1 ai in rw (ai, approved) refl
  | inr manual ↦ rw manual refl
]

eligible-passes :
    (q : Question) (t : ExamTest) (user : User) (s : State)
    → MayUse user q
    → IsPublishable t q
    → eligible q t user true s ≡ ok (tt, s)
unfolding eligible
eligible-passes q t user s may fit =
    let a = not_foreign user q may in
    let c : (not (q.class_id == t.class_id && q.subject_id == t.subject_id)) ≡ false =
      ground (arith, fit.1.0.0, fit.1.0.1) in
    let d = approved_ai t q fit in rw (a, fit.0, c, d) refl

eligible_all-passes :
    (qs : List Question) (t : ExamTest) (user : User) (s : State)
    → All (MayUse user) qs
    → All (IsPublishable t) qs
    → Finalize.eligible_all qs t user s ≡ ok (tt, s)
unfolding Finalize.eligible_all
eligible_all-passes [] t user s may fit = refl
eligible_all-passes (q ∷ qs) t user s may fit =
    rw (eligible-passes q t user s may.0 fit.0, ◌>>=◌) (eligible_all-passes qs t user s may.1 fit.1)

check_content-passes :
    (id : ℕ) (t : ExamTest) (user : User) (s : State)
    → IsReady id t s
    → All
        (MayUse user)
        (select (Finalize.is_source (sort_questions (questions_of id s))) s.questions)
    → (length (sort_sections (sections_of id s)) == 0) ≡ false
    → Finalize.check_content id t user s ≡ ok (sort_questions (questions_of id s), s)
unfolding Finalize.check_content
check_content-passes id t user s ready may sections =
    let all_eligible =
      eligible_all-passes
        (select (Finalize.is_source (sort_questions (questions_of id s))) s.questions) t user s may
        ready.1.1.1.0 in
    let same : (length
            (select (Finalize.is_source (sort_questions (questions_of id s))) s.questions)
          == length (sort_questions (questions_of id s)))
        ≡ true =
      ground (arith, ready.1.1.1.1) in
    rw (ready.0, sections, ready.1.0, ready.1.1.0, all_eligible, ◌>>=◌, same) refl

finalize-writes :
    (now id : ℕ) (user : User) (s : State) (t : ExamTest) (ent : Rows.ResolvedEntitlement)
    (row : Rows.Reservation) (db : Rows.Db)
    → find (is_test id) s.tests ≡ some t
    → is_draft t.status ≡ true
    → MayChange user t
    → IsReady id t s
    → All
        (MayUse user)
        (select (Finalize.is_source (sort_questions (questions_of id s))) s.questions)
    → (length (sort_sections (sections_of id s)) == 0) ≡ false
    → resolve now (Finalize.requester user) Rows.UsageMetric.tests s.subscriptions ≡ inr ent
    → consume now ent (JsNumber.integer 1) Rows.ReferenceType.test_finalization id user.id s.usage
      ≡ ok (row, db)
    → Finalize.finalize now id user s
      ≡ ok (
        tt,
        write_audit user.id AuditAction.test_finalize id (
            set_test id
              (Finalize.finalized_test now
                (Finalize.branding_of (Finalize.school_of t.school_id s.schools))
                (sort_questions (questions_of id s)))
              (record s { usage = db })),
      )
unfolding Finalize.finalize draft Finalize.charge_test
finalize-writes now id user s t ent row db here mutable may ready use_all sections granted billed =
    let locked = lock-MayChange id user s t here may in
    let checked = check_content-passes id t user s ready use_all sections in
    rw (locked, ◌>>=◌, draft-not_finalized t.status mutable, mutable, checked, granted, billed) refl

-- A finalized test with the totals of its questions and the data of its school, in a state with the
-- same questions and sections, in which the entitlement's counter counts one test more.
abbrev pub IsPublished : ℕ → ℕ → ExamTest → Rows.ResolvedEntitlement → State → State → Type 0
IsPublished now id t ent s u =
    (find (is_test id) u.tests
      ≡ some (record t {
        status = TestStatus.finalized;
        finalized_at = some now;
        branding_snapshot = some (Finalize.branding_of (Finalize.school_of t.school_id s.schools));
        total_questions = length (sort_questions (questions_of id s));
        total_marks = sum_by marks_of (sort_questions (questions_of id s));
      }))
    × ((u.test_questions ≡ s.test_questions)
        × ((u.sections ≡ s.sections) × (load_of ent u.usage ≡ suc (load_of ent s.usage))))

after_charge :
    (now id : ℕ) (user : User) (s : State) (t : ExamTest) (ent : Rows.ResolvedEntitlement)
    (r : Result Rows.UsageError (Rows.Reservation × Rows.Db))
    → ((row : Rows.Reservation) (db : Rows.Db)
        → r ≡ ok (row, db)
        → load_of ent db ≡ suc (load_of ent s.usage)
        → Succeeds {E = ExamError}
            (λ _. IsPublished now id t ent s)
            (Finalize.finalize now id user s))
    → Succeeds (λ row db. load_of ent db ≡ suc (load_of ent s.usage)) r
    → Succeeds {E = ExamError} (λ _. IsPublished now id t ent s) (Finalize.finalize now id user s)
after_charge now id user s t ent (ok (row, db)) k h = k row db refl h
after_charge now id user s t ent (err e) k h = absurd h

-- finalize of a draft by one who may change it and use its questions succeeds if the test is ready
-- (it has a question and a section, its sections are numbered from 1 and so are the questions of
-- each section, and the questions of the bank behind it are as many as its questions and
-- publishable), the actor has an entitlement to tests with a period that is not empty and, if it
-- has a limit, with room for one test more, and the test was not charged before.  Then the test's
-- row is finalized at the time of the call, with the data of its school and the number and the
-- marks of its questions and nothing else changed, the questions and sections stay, and what the
-- entitlement's counter has used and reserved grows by one.
pub finalize-Succeeds :
    (now id : ℕ) (user : User) (s : State) (t : ExamTest) (ent : Rows.ResolvedEntitlement)
    → find (is_test id) s.tests ≡ some t
    → is_draft t.status ≡ true
    → MayChange user t
    → IsReady id t s
    → All
        (MayUse user)
        (select (Finalize.is_source (sort_questions (questions_of id s))) s.questions)
    → (length (sort_sections (sections_of id s)) == 0) ≡ false
    → resolve now (Finalize.requester user) Rows.UsageMetric.tests s.subscriptions ≡ inr ent
    → ent.period_start < ent.period_end
    → HasRoom ent.limit (load_of ent s.usage)
    → find
        (is_reservation_for Rows.ReferenceType.test_finalization id ent.metric)
        s.usage.reservations
      ≡ none
    → Succeeds {E = ExamError} (λ _. IsPublished now id t ent s) (Finalize.finalize now id user s)
unfolding set_test write_audit
finalize-Succeeds now id user s t ent here mutable may ready use_all sections granted period room
      new =
    after_charge now id user s t ent
      (consume now ent (JsNumber.integer 1) Rows.ReferenceType.test_finalization id user.id s.usage)
      (λ row db billed counted.
        let writes =
          finalize-writes now id user s t ent row db here mutable may ready use_all sections granted
            billed in
        let f =
          Finalize.finalized_test now
            (Finalize.branding_of (Finalize.school_of t.school_id s.schools))
            (sort_questions (questions_of id s)) in
        subst (λ r. Succeeds {E = ExamError} (λ _. IsPublished now id t ent s) r) (sym writes)
          (
            find-update_hit test_key id (is_test id) f s.tests t (λ r. refl) here
                (find-passes (is_test id) s.tests t here),
            (refl, (refl, counted)),
          ))
      (consume-charges now ent Rows.ReferenceType.test_finalization id user.id s.usage period new
        room)
