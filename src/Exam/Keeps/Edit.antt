-- ===== src/Exam/Keeps/Edit.antt =====
-- TestsService.update, add, bulk, remove, refresh, archive and reorder.
use ai_tgs.Exam.Snapshots.{from_question}
use ai_tgs.Exam.Edit.{UpdateTestDto}
use ai_tgs.Exam.Keeps.Renumber.{
  normalize-Touches, totals-Touches, normalize-HasTotals, totals-HasTotals, select-update_owned,
  KeepsIds, row-Owns,
}
use ai_tgs.Common.{
  All-kept, IsUnique-update_by, select-select, All-every, Ensures-throw_if, Ensures-or_throw,
  find-update-none, All, All-every, All-update, Bool, Bool-cases, Ensures->>=, Ensures-or_throw,
  Ensures-throw_if, IsUnique-select, IsUnique-update_by, Option, Option-cases, any, arith, false,
  find, find-key_of_find, find-passes, find-update-none, find-update_hit, inl, inr, none, not, refl,
  select, select-select, some, throw_if, true, update, ℕ, ◌<◌, ◌≡◌, ◌==◌, ◌&&◌, ◌∙◌, length, sum_by,
}
use ai_tgs.Exam.Rows.{
  Question, User, ExamTest, TestQuestion, TestStatus, is_archived, is_system_admin,
  is_active_question, is_ai, is_approved,
}
use ai_tgs.Exam.State.{
  State, is_test, in_test, is_question, set_test, totals, normalize, write_audit, AuditAction,
  ExamError, test_question_not_found, belongs_to_another_teacher, subject_not_in_class,
  source_question_not_found, question_not_active, section_not_in_class, incompatible_curriculum,
  approval_required, questions_of, marks_of,
}
use ai_tgs.Exam.Access.{
  eligible, validate_scope, belongs_to_class, shared_with, is_row, section_in_class,
}
use ai_tgs.Exam.Edit
use ai_tgs.Exam.Keeps.{
  question_key, test_key, IsTidy, Touches, HasTotals, Touches-trans, Touches-refl, set_test-Touches,
  with_questions, with_questions-Touches, Ensures-lock, Leaves, Ensures-draft,
}

-- What a finished request leaves: only its test differs, and the totals of that test are right.
abbrev pub Finished : ℕ → State → State → Type 0
Finished id s t = Touches id s t × HasTotals id t

-- The audit entry at the end.
pub Finished-audit :
    (id user : ℕ) (action : AuditAction) (entity : ℕ) (s t : State)
    → Finished id s t
    → Finished id s (write_audit user action entity t)
unfolding write_audit
Finished-audit id user action entity s t h = h

pub Finished-normalize : (id : ℕ) (s t : State) → Touches id s t → Finished id s (normalize id t)
Finished-normalize id s t h =
    (Touches-trans id s t (normalize id t) h (normalize-Touches id t h.0), normalize-HasTotals id t)

pub Finished-totals : (id : ℕ) (s t : State) → Touches id s t → Finished id s (totals id t)
Finished-totals id s t h =
    (Touches-trans id s t (totals id t) h (totals-Touches id t h.0), totals-HasTotals id t)

-- A row of a test whose totals the change keeps.
passes : (b : Bool) (e : ExamError) (s : State) → Leaves (λ u. u ≡ s) (throw_if b e s)
passes true e s = tt
passes false e s = refl

-- The tests of the code leave the state as it is.
pub eligible-same :
    (q : Question) (t : ExamTest) (user : User) (finalizing : Bool) (s : State)
    → Leaves (λ u. u ≡ s) (eligible q t user finalizing s)
unfolding eligible
eligible-same q t user finalizing s =
    Ensures-throw_if (λ _ u. u ≡ s)
      (not (is_system_admin user.role)
        && (not (q.created_by == user.id) && not (shared_with q user.school_id)))
      belongs_to_another_teacher _ s
      (λ a.
        Ensures-throw_if (λ _ u. u ≡ s) (not (is_active_question q.status)) question_not_active _ s
          (λ b.
            Ensures-throw_if (λ _ u. u ≡ s)
              (not (q.class_id == t.class_id && q.subject_id == t.subject_id))
              incompatible_curriculum _ s
              (λ c.
                passes (finalizing && (is_ai q.source && not (is_approved q.review_status)))
                  approval_required s)))

pub validate_scope-same :
    (class : ℕ) (section : Option ℕ) (subject : ℕ) (s : State)
    → Leaves (λ u. u ≡ s) (validate_scope class section subject s)
unfolding validate_scope
validate_scope-same class section subject s =
    Ensures-throw_if (λ _ u. u ≡ s)
      (not (
        any (λ c. c == class) s.classes
        && belongs_to_class class (find (is_row subject) s.subjects)))
      subject_not_in_class _ s
      (λ a. passes (not (section_in_class class section s.class_sections)) section_not_in_class s)

validate_section-same :
    (t : ExamTest) (section : Option ℕ) (s : State)
    → Leaves (λ u. u ≡ s) (Edit.validate_section t section s)
validate_section-same t none s = refl
validate_section-same t (some section) s =
    validate_scope-same t.class_id (some section) t.subject_id s

-- A change of the test's row after which its totals are right.
pub set_test-HasTotals :
    (id : ℕ) (f : ExamTest → ExamTest) (s : State)
    → ((t : ExamTest) → test_key (f t) ≡ test_key t)
    → ((t : ExamTest)
        → find (is_test id) s.tests ≡ some t
        → ((f t).total_questions ≡ length (questions_of id s))
          × ((f t).total_marks ≡ sum_by marks_of (questions_of id s)))
    → HasTotals id (set_test id f s)
unfolding set_test
set_test-HasTotals id f s same right t e = elim (Option-cases (find (is_test id) s.tests)) [
  | inl gone ↦
      let still = find-update-none test_key id id f s.tests same gone in
      let impossible : ⊥ = cc in absurd impossible
  | inr (old, was) ↦
      let now =
        find-update_hit test_key id (is_test id) f s.tests old same was
          (find-passes (is_test id) s.tests old was) in
      let new : f old ≡ t = cc in rw (← new) (right old was)
]

pub set_test-Finished :
    (id : ℕ) (f : ExamTest → ExamTest) (s : State)
    → ((t : ExamTest) → test_key (f t) ≡ test_key t)
    → ((t : ExamTest) → (f t).total_questions ≡ t.total_questions)
    → ((t : ExamTest) → (f t).total_marks ≡ t.total_marks)
    → IsTidy s
    → HasTotals id s
    → Finished id s (set_test id f s)
set_test-Finished id f s same questions marks h sums = (
  set_test-Touches id f s same h,
  set_test-HasTotals id f s same
      (λ old was. (questions old ∙ (sums old was).0, marks old ∙ (sums old was).1)),
)

pub archive-Finished :
    (now id : ℕ) (user : User) (s : State)
    → IsTidy s
    → HasTotals id s
    → Leaves (Finished id s) (Edit.archive now id user s)
unfolding Edit.archive
archive-Finished now id user s h sums =
    Ensures-lock (λ _. Finished id s) id user _ s
      (λ t e m. elim (Bool-cases (is_archived t.status)) [
        | inl gone ↦ rw gone (Touches-refl id s h, sums)
        | inr live ↦ rw live (
            Finished-audit id user.id AuditAction.test_archive id s
              (set_test id (λ x. record x { status = TestStatus.archived; archived_at = some now })
                s)
              (set_test-Finished id
                (λ x. record x { status = TestStatus.archived; archived_at = some now }) s
                (λ x. refl) (λ x. refl) (λ x. refl) h sums))
      ])

pub update_test-Finished :
    (id : ℕ) (dto : UpdateTestDto) (user : User) (s : State)
    → IsTidy s
    → HasTotals id s
    → Leaves (Finished id s) (Edit.update_test id dto user s)
unfolding Edit.update_test
update_test-Finished id dto user s h sums =
    Ensures-lock (λ _. Finished id s) id user _ s
      (λ t e m.
        Ensures-draft (λ _. Finished id s) t _ s
          (λ d.
            Ensures->>= (λ _ u. u ≡ s) (λ _. Finished id s) (Edit.validate_section t dto.section_id)
              _ s (validate_section-same t dto.section_id s)
              (λ _ u same. rw same (
                Finished-audit id user.id AuditAction.test_update id s
                  (set_test id (Edit.with_dto dto) s)
                  (set_test-Finished id (Edit.with_dto dto) s (λ x. refl) (λ x. refl) (λ x. refl) h
                    sums)))))

-- An UPDATE of questions of the test.
pub update_owned-Touches :
    (id : ℕ) (u : TestQuestion → Bool) (f : TestQuestion → TestQuestion) (s : State)
    → IsTidy s
    → KeepsIds f
    → All (λ r. u r ≡ true → in_test id r ≡ true) s.test_questions
    → Touches id s (with_questions (update u f s.test_questions) s)
update_owned-Touches id u f s h keeps owned =
    with_questions-Touches id (update u f s.test_questions) s h
      (IsUnique-update_by question_key u f (λ r. (keeps r).0) s.test_questions h.0)
      (All-update (λ (r : TestQuestion). (question_key r < s.next_id) × (r.test_id < s.next_id)) u f
        s.test_questions (λ r k. (rw (keeps r).0 k.0, rw (keeps r).1 k.1)) h.1.0)
      (λ k n. select-update_owned id k u f s.test_questions n keeps owned)

pub remove-Finished :
    (id question : ℕ) (user : User) (s : State)
    → IsTidy s
    → Leaves (Finished id s) (Edit.remove id question user s)
unfolding Edit.remove
remove-Finished id question user s h =
    let keep = λ (q : TestQuestion). not (Edit.is_member question id q) in
    let rest = select keep s.test_questions in
    let touched =
      with_questions-Touches id rest s h (IsUnique-select question_key keep s.test_questions h.0)
        (All-kept (λ (q : TestQuestion). (q.id < s.next_id) × (q.test_id < s.next_id)) keep
          s.test_questions h.1.0)
        (λ k n. select-select (in_test k) keep s.test_questions (
          All-every (λ q. in_test k q ≡ true → keep q ≡ true) s.test_questions
            (λ q here. ground (arith, n)))) in
    Ensures-lock (λ _. Finished id s) id user _ s
      (λ t e m.
        Ensures-draft (λ _. Finished id s) t _ s
          (λ d.
            Ensures-throw_if (λ _. Finished id s)
              (not (any (Edit.is_member question id) s.test_questions)) test_question_not_found _ s
              (λ found.
                Finished-audit id user.id AuditAction.question_remove id s
                  (normalize id (with_questions rest s))
                  (Finished-normalize id s (with_questions rest s) touched))))

pub refresh-Finished :
    (id question : ℕ) (user : User) (s : State)
    → IsTidy s
    → Leaves (Finished id s) (Edit.refresh id question user s)
unfolding Edit.refresh
refresh-Finished id question user s h =
    Ensures-lock (λ _. Finished id s) id user _ s
      (λ t e m.
        Ensures-draft (λ _. Finished id s) t _ s
          (λ d.
            Ensures-or_throw (λ _. Finished id s)
              (find (Edit.is_member question id) s.test_questions) test_question_not_found _ s
              (λ tq here.
                Ensures-or_throw (λ _. Finished id s)
                  (find (λ (x : Question). x.id == tq.source_question_id) s.questions)
                  source_question_not_found _ s
                  (λ q there.
                    Ensures->>= (λ _ u. u ≡ s) (λ _. Finished id s) (eligible q t user false) _ s
                      (eligible-same q t user false s)
                      (λ _ u same. rw same (
                        refreshed tq (Edit.with_snapshot q (from_question q t.language s))
                          (λ r. (refl, refl)) here))))))
  where
    refreshed :
        (tq : TestQuestion) (f : TestQuestion → TestQuestion)
        → KeepsIds f
        → find (Edit.is_member question id) s.test_questions ≡ some tq
        → Finished id s
            (totals id (with_questions (update (is_question tq.id) f s.test_questions) s))
    refreshed tq f keeps here =
        let member = find-passes (Edit.is_member question id) s.test_questions tq here in
        let mine : in_test id tq ≡ true = ground arith in
        let row =
          find-key_of_find question_key (Edit.is_member question id) s.test_questions tq h.0 here in
        Finished-totals id s (with_questions (update (is_question tq.id) f s.test_questions) s)
          (update_owned-Touches id (is_question tq.id) f s h keeps (row-Owns id tq s h.0 mine row))
