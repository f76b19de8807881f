-- ===== src/Exam/Keeps/Add.antt =====
-- TestsService.addMany, which `add` and `bulk` call.
use ai_tgs.Common.{
  All, All-append, All-find, All-map, Ensures->>=, Ensures-mono, Ensures-or_throw, Ensures-throw_if,
  IsUnique, IsUnique-append, List, [], any, arith, false, find, find-passes, length, map, not, refl,
  select, select-append_none, suc, true, ℕ, ◌<◌, ◌≡◌, ◌≢◌, ◌+◌, ◌==◌, ◌&&◌, ◌++◌, ◌∷◌, is_one_of,
  has_duplicates,
}
use ai_tgs.Exam.Rows.{Question, User, ExamTest, TestQuestion}
use ai_tgs.Exam.State.{
  State, is_test, in_test, questions_of, normalize, AuditAction, duplicate_question_ids,
  question_not_found, question_already_in_test, test_section_not_found, unique_violation,
  in_section, ExamError,
}
use ai_tgs.Exam.Access.{eligible}
use ai_tgs.Exam.Edit
use ai_tgs.Exam.Edit.{AddQuestionDto}
use ai_tgs.Exam.Snapshots.{from_question}
use ai_tgs.Exam.Keeps.{
  question_key, IsTidy, Touches, Leaves, Touches-trans, Touches-refl, Ensures-lock, Ensures-draft,
}
use ai_tgs.Exam.Keeps.Edit.{Finished, Finished-audit, Finished-normalize, eligible-same}

-- Questions of the test were added, and its id stays below the next one.
abbrev pub Grows : ℕ → State → State → Type 0
Grows id s t = Touches id s t × (id < t.next_id)

insert_row-Grows :
    (id : ℕ) (row : ℕ → TestQuestion) (s : State)
    → ((i : ℕ) → question_key (row i) ≡ i)
    → ((i : ℕ) → (row i).test_id ≡ id)
    → IsTidy s
    → id < s.next_id
    → Leaves (Grows id s) (Edit.insert_row row s)
unfolding Edit.insert_row
insert_row-Grows id row s key test h old =
    Ensures-throw_if (λ _. Grows id s) (any (Edit.collides (row s.next_id)) s.test_questions)
      unique_violation _ s
      (λ free. (((unique, (fresh, tests)), (λ k n. (others k n, refl))), omega (arith, old)))
  where
    new : TestQuestion
    new = row s.next_id

    unique : IsUnique question_key (s.test_questions ++ new ∷ [])
    unique =
        IsUnique-append question_key s.test_questions new s.next_id h.0
          (All-map (λ (q : TestQuestion). (q.id < s.next_id) × (q.test_id < s.next_id))
            (λ q. question_key q < s.next_id) s.test_questions (λ q k. k.0) h.1.0)
          (key s.next_id)

    fresh :
        All
          (λ (q : TestQuestion). (q.id < suc s.next_id) × (q.test_id < suc s.next_id))
          (s.test_questions ++ new ∷ [])
    fresh =
        All-append (λ (q : TestQuestion). (q.id < suc s.next_id) × (q.test_id < suc s.next_id))
          s.test_questions (new ∷ [])
          (All-map (λ (q : TestQuestion). (q.id < s.next_id) × (q.test_id < s.next_id))
            (λ (q : TestQuestion). (q.id < suc s.next_id) × (q.test_id < suc s.next_id))
            s.test_questions (λ q k. (omega (arith, k.0), omega (arith, k.1))) h.1.0)
          ((omega (arith, key s.next_id), omega (arith, test s.next_id, old)), tt)

    tests : All (λ (t : ExamTest). t.id < suc s.next_id) s.tests
    tests =
        All-map (λ (t : ExamTest). t.id < s.next_id) (λ (t : ExamTest). t.id < suc s.next_id)
          s.tests (λ t k. omega (arith, k)) h.1.1

    others : (k : ℕ) → k ≢ id → select (in_test k) (s.test_questions ++ new ∷ []) ≡ questions_of k s
    others k n =
        select-append_none (in_test k) s.test_questions (new ∷ [])
          (ground (arith, test s.next_id, n), tt)

add_one-Grows :
    (now id : ℕ) (t : ExamTest) (user : User) (found : List Question) (input : AddQuestionDto)
    (s : State)
    → t.id ≡ id
    → IsTidy s
    → id < s.next_id
    → Leaves (Grows id s) (Edit.add_one now t user found input s)
unfolding Edit.add_one
add_one-Grows now id t user found input s same h old =
    Ensures-or_throw (λ _. Grows id s) (find (λ (x : Question). x.id == input.question_id) found)
      question_not_found _ s
      (λ q there.
        Ensures->>= (λ _ u. u ≡ s) (λ _. Grows id s) (eligible q t user false) _ s
          (eligible-same q t user false s)
          (λ _ u same_state. rw same_state (
            Ensures-or_throw (λ _. Grows id s) (Edit.target_section t.id input.test_section_id s)
              test_section_not_found _ s
              (λ section it.
                insert_row-Grows id
                  (Edit.new_question now t input q (from_question q t.language s) section.id (
                    Edit.or_else input.position
                      (length (select (in_section section.id) s.test_questions) + 1)))
                  s (λ i. refl) (λ i. same) h old))))

add_all-Grows :
    (now id : ℕ) (t : ExamTest) (user : User) (found : List Question) (inputs : List AddQuestionDto)
    (s : State)
    → t.id ≡ id
    → IsTidy s
    → id < s.next_id
    → Leaves (Grows id s) (Edit.add_all now t user found inputs s)
unfolding Edit.add_all
add_all-Grows now id t user found [] s same h old = (Touches-refl id s h, old)
add_all-Grows now id t user found (input ∷ inputs) s same h old =
    Ensures->>= (λ _. Grows id s) (λ _. Grows id s) (Edit.add_one now t user found input) _ s
      (add_one-Grows now id t user found input s same h old)
      (λ _ u first.
        Ensures-mono {E = ExamError} (λ _. Grows id u) (λ _. Grows id s)
          (λ _ v later. (Touches-trans id s u v first.0 later.0, later.1))
          (Edit.add_all now t user found inputs u)
          (add_all-Grows now id t user found inputs u same first.0.0 first.1))

pub add_many-Finished :
    (now id : ℕ) (items : List AddQuestionDto) (user : User) (s : State)
    → IsTidy s
    → Leaves (Finished id s) (Edit.add_many now id items user s)
unfolding Edit.add_many
add_many-Finished now id items user s h =
    let ids = map (λ (x : AddQuestionDto). x.question_id) items in
    let found = select (λ (q : Question). is_one_of ids q.id) s.questions in
    Ensures-lock (λ _. Finished id s) id user _ s
      (λ t e m.
        Ensures-draft (λ _. Finished id s) t _ s
          (λ d.
            Ensures-throw_if (λ _. Finished id s) (has_duplicates ids) duplicate_question_ids _ s
              (λ a.
                Ensures-throw_if (λ _. Finished id s) (not (length found == length ids))
                  question_not_found _ s
                  (λ b.
                    Ensures-throw_if (λ _. Finished id s)
                      (any (λ x. in_test id x && is_one_of ids x.source_question_id)
                        s.test_questions)
                      question_already_in_test _ s
                      (λ c.
                        let hit : (t.id == id) ≡ true = find-passes (is_test id) s.tests t e in
                        let same : t.id ≡ id = ground arith in
                        let below =
                          All-find (λ (x : ExamTest). x.id < s.next_id) (is_test id) s.tests t h.1.1
                            e in
                        Ensures->>= (λ _. Grows id s) (λ _. Finished id s)
                          (Edit.add_all now t user found items) _ s
                          (add_all-Grows now id t user found items s same h
                            (omega (arith, below, same)))
                          (λ _ u grown.
                            Finished-audit id user.id AuditAction.question_add id s (normalize id u)
                              (Finished-normalize id s u grown.0)))))))
