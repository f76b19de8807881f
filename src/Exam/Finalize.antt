-- ===== src/Exam/Finalize.antt =====
-- TestsService.finalize.  The notification that follows the transaction is left out.
use ai_tgs.Usage.Reserve.{consume, JsNumber}
use ai_tgs.Exam.Access.{eligible, lock, draft}
use ai_tgs.Entitlement.{EntitlementError, Requester, resolve}
use ai_tgs.Usage.Store.{UsageAction}
use ai_tgs.Common.{
  Bool, List, Option, [], all, any, err, find, gets, inl, inr, length, modify, none, not, ok, pure,
  select, some, suc, sum_by, throw, throw_if, true, ℕ, ◌==◌, ◌&&◌, ◌||◌, ◌∷◌, ◌⊎◌, ◌>>=◌, ◌>>◌,
  if◌then◌else◌,
}
use ai_tgs.Exam.Rows.{
  Question, TestSection, TestQuestion, ExamTest, Branding, School, User, TestStatus, is_finalized,
}
use ai_tgs.Exam.State.{
  sort_questions, ExamAction, in_section, ExamError, marks_of, questions_of, needs_a_question,
  sort_sections, sections_of, set_test, sections_not_contiguous, write_audit,
  questions_not_contiguous, AuditAction, source_unavailable,
}
use ai_tgs.Usage.Rows.{UsageMetric, ReferenceType, ResolvedEntitlement}

-- `rows.some((row, i) => row.position !== i + 1)`, negated, from an index on.
abbrev pub sections_count_from : ℕ → List TestSection → Bool
sections_count_from i [] = true
sections_count_from i (x ∷ xs) = x.position == i && sections_count_from (suc i) xs

abbrev pub questions_count_from : ℕ → List TestQuestion → Bool
questions_count_from i [] = true
questions_count_from i (q ∷ qs) = q.position == i && questions_count_from (suc i) qs

-- The members of a section in the order of their positions.
unfoldable pub members : ℕ → List TestQuestion → List TestQuestion
members section qs = sort_questions (select (in_section section) qs)

abbrev pub is_source : List TestQuestion → Question → Bool
is_source qs q = any (λ (x : TestQuestion). x.source_question_id == q.id) qs

unfoldable pub eligible_all : List Question → ExamTest → User → ExamAction (Unit {0})
eligible_all [] t user = pure tt
eligible_all (q ∷ qs) t user = eligible q t user true >> eligible_all qs t user

-- The usage tables are part of the state, and the call joins the transaction.
abbrev pub on_usage : {A : Type 0} → UsageAction A → ExamAction A
on_usage m s = elim (m s.usage) [
  | ok r ↦ ok (r.0, record s { usage = r.1 })
  | err e ↦ err (ExamError.usage e)
]

abbrev pub or_entitlement_error :
    EntitlementError ⊎ ResolvedEntitlement → ExamAction ResolvedEntitlement
or_entitlement_error (inl e) = throw (ExamError.entitlement e)
or_entitlement_error (inr ent) = pure ent

abbrev pub no_branding : Branding
no_branding = record {
  name = none;
  logo_storage_key = none;
  address = none;
  phone = none;
  email = none;
  website = none;
  footer = none;
}

abbrev pub branding_of : Option School → Branding
branding_of none = no_branding
branding_of (some school) = record {
  name = some school.name;
  logo_storage_key = school.logo_url;
  address = school.address;
  phone = school.phone;
  email = school.email;
  website = school.website;
  footer = school.footer;
}

abbrev pub school_of : Option ℕ → List School → Option School
school_of none schools = none
school_of (some id) schools = find (λ x. x.id == id) schools

-- The tests that the code makes on the questions, the sections and the sources, in its order.
unfoldable pub check_content : ℕ → ExamTest → User → ExamAction (List TestQuestion)
check_content id t user = do
  qs ← gets (λ s. sort_questions (questions_of id s))
  throw_if (length qs == 0) needs_a_question
  sections ← gets (λ s. sort_sections (sections_of id s))
  throw_if (length sections == 0 || not (sections_count_from 1 sections)) sections_not_contiguous
  throw_if (not (all (λ (x : TestSection). questions_count_from 1 (members x.id qs)) sections))
      questions_not_contiguous
  sources ← gets (λ s. select (is_source qs) s.questions)
  eligible_all sources t user
  throw_if (not (length sources == length qs)) source_unavailable
  pure qs

abbrev pub requester : User → Requester
requester user = record { id = user.id; school_id = user.school_id }

module _ (now : ℕ) where
  abbrev pub finalized_test : Branding → List TestQuestion → ExamTest → ExamTest
  finalized_test branding qs t = record t {
    status = TestStatus.finalized;
    finalized_at = some now;
    branding_snapshot = some branding;
    total_questions = length qs;
    total_marks = sum_by marks_of qs;
  }

  unfoldable pub charge_test : ℕ → User → ExamAction (Unit {0})
  charge_test id user = do
    table ← gets (λ s. s.subscriptions)
    ent ← or_entitlement_error (resolve now (requester user) UsageMetric.tests table)
    on_usage (consume now ent (JsNumber.integer 1) ReferenceType.test_finalization id user.id)
    pure tt

  unfoldable pub finalize : ℕ → User → ExamAction (Unit {0})
  finalize id user = do
    t ← lock id user
    if is_finalized t.status then pure tt else do
      draft t
      qs ← check_content id t user
      charge_test id user
      schools ← gets (λ s. s.schools)
      modify (set_test id (finalized_test (branding_of (school_of t.school_id schools)) qs))
      modify (write_audit user.id AuditAction.test_finalize id)
