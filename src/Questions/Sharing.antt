-- ===== src/Questions/Sharing.antt =====
-- Who sees a question after it was shared with a school or withdrawn from it, and what a colleague
-- may do with it.
use ai_tgs.Common.{
  Bool, Ensures, Ensures-or_throw, Ensures-throw_if, IsUnique, IsUnique-update, Option, any, arith,
  err, false, find, find-and, find-and-none, find-passes, find-update_hit, none, not, ok, refl,
  some, true, ℕ, ◌≡◌, ◌≢◌, ◌==◌, ◌&&◌, ◌||◌, ◌>>=◌, ◌>>◌,
}
use ai_tgs.Exam.Rows.{
  Question, User, QuestionStatus, QuestionVisibility, is_system_admin, is_ai, is_approved,
  is_active_question, is_shared_in_school,
}
use ai_tgs.Exam.Access.{same_id, shared_with}
use ai_tgs.Questions.Rows.{Bank, BankError, AuditAction}
use ai_tgs.Questions.Store.{
  is_id, set_question, write_audit, scoped, find_question, is_visible, QuestionResponse,
}
use ai_tgs.Questions.Service
use ai_tgs.Questions.Service.{is_colleague}
use ai_tgs.Questions.Keeps.{question_key}
use ai_tgs.Questions.Keeps.Steps.{Ensures-scoped}
use ai_tgs.Questions.Access.{row_of}

scoped-is_visible :
    (id : ℕ) (user : User) (s : Bank) (q : Question)
    → find (is_id id) s.questions ≡ some q
    → is_visible user q ≡ true
    → is_active_question q.status ≡ true
    → scoped id user true s ≡ ok (q, s)
unfolding scoped
scoped-is_visible id user s q row seen active =
    rw
      (find-and (is_id id) (λ x. is_visible user x && (not true || is_active_question x.status))
        s.questions q row (ground (arith, seen, active)))
      refl

scoped-hidden :
    (id : ℕ) (user : User) (s : Bank) (q : Question)
    → IsUnique question_key s.questions
    → find (is_id id) s.questions ≡ some q
    → is_visible user q ≡ false
    → is_system_admin user.role ≡ false
    → q.created_by ≢ user.id
    → scoped id user true s ≡ err BankError.no_access
unfolding scoped
scoped-hidden id user s q u row unseen teacher foreign =
    rw
      (
        row,
        find-and-none question_key id
            (λ x. is_visible user x && (not true || is_active_question x.status)) s.questions q u
            row (ground (arith, unseen)),
      )
      (ground (arith, unseen))

-- The question of the id is found by every user of the school.
abbrev pub IsSharedWith : Option ℕ → ℕ → Bank → Type 0
IsSharedWith school id t =
    (v : User)
    → v.school_id ≡ school
    → (q : Question) × ((scoped id v true t ≡ ok (q, t)) × (q.id ≡ id))

abbrev shared : ℕ → ℕ → Question → Question
shared school now q = record q {
  visibility = QuestionVisibility.school;
  shared_school_id = some school;
  published_at = some now;
}

published-IsSharedWith :
    (school now id : ℕ) (q : Question) (t : Bank)
    → find (is_id id) t.questions ≡ some (shared school now q)
    → (is_active_question q.status && is_approved q.review_status) ≡ true
    → IsSharedWith (some school) id t
published-IsSharedWith school now id q t row fit v same =
    let key : is_id id (shared school now q) ≡ true =
      find-passes (is_id id) t.questions (shared school now q) row in
    (
      shared school now q,
      (
        scoped-is_visible id v t (shared school now q) row (rw same (ground (arith, fit)))
            (ground (arith, fit)),
        ground (arith, key),
      ),
    )

-- A question that a user publishes is found afterwards, as the service looks questions up, by every
-- user of the same school.
pub publish-IsSharedWith :
    (now id : ℕ) (user : User) (s : Bank)
    → IsUnique question_key s.questions
    → Ensures {E = BankError}
        (λ _ t. IsSharedWith user.school_id id t)
        (Service.publish_to_school now id user s)
unfolding Service.publish_to_school find_question write_audit set_question
publish-IsSharedWith now id user s u =
    let P : QuestionResponse → Bank → Type 0 = λ _ t. IsSharedWith user.school_id id t in
    Ensures-or_throw P user.school_id BankError.school_required _ s (λ school member.
      let p : Question → Bool = λ q. is_id id q && any (is_colleague school q.created_by) s.users in
      Ensures-or_throw P (find p s.questions) BankError.question_not_found _ s (λ q e.
        Ensures-throw_if P (not (is_active_question q.status && is_approved q.review_status))
          BankError.not_shareable _ s
          (λ guard.
            let row = row_of id (λ q. any (is_colleague school q.created_by) s.users) s q u e in
            let passes : is_id id q ≡ true = find-passes (is_id id) s.questions q row.0 in
            let unique =
              IsUnique-update question_key id (shared school now) s.questions (λ _. refl) u in
            Ensures-scoped P id user _ _ unique (λ _ _ _ _. rw member (
              published-IsSharedWith school now id q _
                (find-update_hit question_key id (is_id id) (shared school now) s.questions q
                  (λ _. refl) row.0 passes)
                (ground (arith, guard)))))))

abbrev withdrawn : Question → Question
withdrawn q = record q {
  visibility = QuestionVisibility.private;
  shared_school_id = none;
  published_at = none;
}

hidden : (q : Question) (school : Option ℕ) → shared_with (withdrawn q) school ≡ false
hidden q none = refl
hidden q (some school) = refl

-- After a question was withdrawn from its school, a user who is neither a system administrator nor
-- its creator is refused it.
pub unpublish-IsHidden :
    (id : ℕ) (user : User) (s : Bank)
    → IsUnique question_key s.questions
    → Ensures {E = BankError}
        (λ _ t.
          (v : User) (q : Question)
          → find (is_id id) t.questions ≡ some q
          → is_system_admin v.role ≡ false
          → q.created_by ≢ v.id
          → scoped id v true t ≡ err BankError.no_access)
        (Service.unpublish_from_school id user s)
unfolding Service.unpublish_from_school write_audit set_question
unpublish-IsHidden id user s u =
    Ensures-or_throw _ user.school_id BankError.school_required _ s (λ school member.
      let r : Question → Bool =
        λ q. same_id q.shared_school_id school && is_shared_in_school q.visibility in
      Ensures-or_throw _ (find (λ q. is_id id q && r q) s.questions) BankError.shared_not_found _ s
        (λ a e v q row teacher foreign.
          let before = row_of id r s a u e in
          let passes : is_id id a ≡ true = find-passes (is_id id) s.questions a before.0 in
          let after =
            find-update_hit question_key id (is_id id) withdrawn s.questions a (λ _. refl) before.0
              passes in
          let same : withdrawn a ≡ q = cc in
          let own : (q.created_by == v.id) ≡ false = ground (arith, foreign) in
          let unseen : is_visible v q ≡ false =
            rw (teacher, own) (rw (← same) (hidden a v.school_id)) in
          let refused =
            scoped-hidden id v _ q
              (IsUnique-update question_key id withdrawn s.questions (λ _. refl) u) row unseen
              teacher foreign in
          refused))

-- A user of the school that an active question is shared with archives it, also where another user
-- created it, if it is approved and not AI-generated.
pub archive-by_colleague :
    (id school : ℕ) (user : User) (s : Bank) (q : Question)
    → find (is_id id) s.questions ≡ some q
    → user.school_id ≡ some school
    → shared_with q (some school) ≡ true
    → is_active_question q.status ≡ true
    → is_ai q.source ≡ false
    → Service.archive id user s
      ≡ ok (
        tt,
        write_audit user.id AuditAction.question_archive id
            (set_question id (λ x. record x { status = QuestionStatus.archived }) s),
      )
unfolding Service.archive
archive-by_colleague id school user s q row member approved active manual =
    let seen : is_visible user q ≡ true = rw member (ground (arith, approved)) in
    let allowed : (not (is_system_admin user.role) && is_ai q.source) ≡ false =
      ground (arith, manual) in
    rw (◌>>=◌, scoped-is_visible id user s q row seen active, ◌>>◌, ◌>>=◌, allowed) refl
