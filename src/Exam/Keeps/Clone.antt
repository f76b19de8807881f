-- ===== src/Exam/Keeps/Clone.antt =====
-- TestsService.clone and create.
use ai_tgs.Exam.Access.{validate_scope}
use ai_tgs.Exam.Keeps.Edit.{Finished, validate_scope-same, Finished-audit}
use ai_tgs.Exam.Edit.{CreateTestDto}
use ai_tgs.Common.{
  All, All-map, IsUnique, List, Option-cases, [], arith, find, inl, inr, is_key, length, none, refl,
  some, suc, sum_by, ℕ, ◌≤◌, ◌<◌, ◌≡◌, ◌+◌, ◌∷◌, ◌++◌, IsUnique-concat, ap, All-append, Ensures->>=,
  select-append_none, Ensures-throw_if, ltb, false, find-append_miss, Ensures-or_throw, sym,
  select-append_passing, true, ◌∙◌, find-append, find-fresh,
}
use ai_tgs.Exam.Rows.{TestQuestion, ExamTest, User}
use ai_tgs.Exam.State.{
  marks_of, State, sort_sections, sections_of, in_test, value_too_long, is_test, questions_of,
  not_null_violation,
}
use ai_tgs.Exam.Clone
use ai_tgs.Exam.Edit
use ai_tgs.Exam.Keeps.{
  question_key, IsTidy, test_key, HasTotals, Leaves, SameOthers, Ensures-lock, AuditAction,
}

-- The copied rows: as many, with the same marks, all of the copy, with new ids from `n` on.
abbrev pub AreCopies : ℕ → ℕ → List TestQuestion → List TestQuestion → Type 0
AreCopies copy n qs rows =
    (length rows ≡ length qs)
    × ((sum_by marks_of rows ≡ sum_by marks_of qs)
        × (All (λ (r : TestQuestion). (r.test_id ≡ copy) × ((n ≤ r.id) × (r.id < n + length rows)))
              rows
            × IsUnique question_key rows))

find-greater :
    (n : ℕ) (rows : List TestQuestion) (copy m : ℕ)
    → All (λ (r : TestQuestion). (r.test_id ≡ copy) × ((suc n ≤ r.id) × (r.id < m))) rows
    → find (is_key question_key n) rows ≡ none
find-greater n [] copy m h = refl
find-greater n (r ∷ rows) copy m h = ground (arith, h.0, find-greater n rows copy m h.1)

pub copy_questions-AreCopies :
    (now copy n : ℕ) (ids : List (ℕ × ℕ)) (qs rows : List TestQuestion)
    → Clone.copy_questions now copy ids n qs ≡ some rows
    → AreCopies copy n qs rows
unfolding Clone.copy_questions
copy_questions-AreCopies now copy n ids [] rows e =
    let empty : [] ≡ rows = cc in rw (← empty) (refl, (refl, (tt, tt)))
copy_questions-AreCopies now copy n ids (q ∷ qs) rows e =
    elim (Option-cases (Clone.lookup_id q.test_section_id ids)) [
      | inl gone ↦
          let e' = rw (gone, Clone.copy_questions) at e in
          let impossible : ⊥ = cc in absurd impossible
      | inr (section, there) ↦ elim (Option-cases (Clone.copy_questions now copy ids (suc n) qs)) [
        | inl gone ↦
            let e' = rw (there, gone, Clone.copy_questions) at e in
            let impossible : ⊥ = cc in absurd impossible
        | inr (rest, more) ↦
            let e' = rw (there, more, Clone.copy_questions) at e in
            let same : Clone.copied_question now copy section n q ∷ rest ≡ rows = cc in
            let ih = copy_questions-AreCopies now copy (suc n) ids qs rest more in
            rw (← same) (
              omega (arith, ih.0),
              (
                omega (arith, ih.1.0),
                (
                  ((refl, (omega arith, omega arith)), wider rest ih.1.1.0),
                  (find-greater n rest copy (suc n + length rest) ih.1.1.0, ih.1.1.1),
                ),
              ),
            )
      ]
    ]
  where
    wider :
        (rest : List TestQuestion)
        → All
            (λ (r : TestQuestion).
              (r.test_id ≡ copy) × ((suc n ≤ r.id) × (r.id < suc n + length rest)))
            rest
        → All
            (λ (r : TestQuestion).
              (r.test_id ≡ copy) × ((n ≤ r.id) × (r.id < n + suc (length rest))))
            rest
    wider rest =
        All-map
          (λ (r : TestQuestion).
            (r.test_id ≡ copy) × ((suc n ≤ r.id) × (r.id < suc n + length rest)))
          (λ (r : TestQuestion). (r.test_id ≡ copy) × ((n ≤ r.id) × (r.id < n + suc (length rest))))
          rest (λ r h. (h.0, (omega (arith, h.1.0), omega (arith, h.1.1))))

-- A new test with its questions, under the next id.
insert-Finished :
    (t : ExamTest) (rows : List TestQuestion) (next : ℕ) (u s : State)
    → IsTidy s
    → test_key t ≡ s.next_id
    → s.next_id < next
    → u.tests ≡ s.tests ++ t ∷ []
    → u.test_questions ≡ s.test_questions ++ rows
    → u.next_id ≡ next
    → All
        (λ (r : TestQuestion). (r.test_id ≡ s.next_id) × ((s.next_id ≤ r.id) × (r.id < next)))
        rows
    → IsUnique question_key rows
    → t.total_questions ≡ length rows
    → t.total_marks ≡ sum_by marks_of rows
    → Finished s.next_id s u
insert-Finished t rows next u s h key grows tests questions now ids unique count_right marks_right =
    ((tidy, others), sums)
  where
    FreshRow : TestQuestion → Type 0
    FreshRow q = (q.id < next) × (q.test_id < next)

    tidy : IsTidy u
    tidy =
        rw (tests, questions, now)
          (
            IsUnique-concat question_key s.next_id s.test_questions rows h.0
                (All-map (λ (q : TestQuestion). (q.id < s.next_id) × (q.test_id < s.next_id))
                  (λ q. question_key q < s.next_id) s.test_questions (λ q k. k.0) h.1.0)
                unique
                (All-map
                  (λ (r : TestQuestion).
                    (r.test_id ≡ s.next_id) × ((s.next_id ≤ r.id) × (r.id < next)))
                  (λ q. s.next_id ≤ question_key q) rows (λ q k. k.1.0) ids),
            (
              All-append FreshRow s.test_questions rows
                  (All-map (λ (q : TestQuestion). (q.id < s.next_id) × (q.test_id < s.next_id))
                    FreshRow s.test_questions
                    (λ q k. (omega (arith, k.0, grows), omega (arith, k.1, grows))) h.1.0)
                  (All-map
                    (λ (r : TestQuestion).
                      (r.test_id ≡ s.next_id) × ((s.next_id ≤ r.id) × (r.id < next)))
                    FreshRow rows (λ r k. (k.1.1, omega (arith, k.0, grows))) ids),
              All-append (λ (x : ExamTest). x.id < next) s.tests (t ∷ [])
                  (All-map (λ (x : ExamTest). x.id < s.next_id) (λ (x : ExamTest). x.id < next)
                    s.tests (λ x k. omega (arith, k, grows)) h.1.1)
                  (omega (arith, key, grows), tt),
            ),
          )

    others : SameOthers s.next_id s u
    others k n =
        rw (tests, questions)
          (
            select-append_none (in_test k) s.test_questions rows (
                All-map
                  (λ (r : TestQuestion).
                    (r.test_id ≡ s.next_id) × ((s.next_id ≤ r.id) × (r.id < next)))
                  (λ r. in_test k r ≡ false) rows (λ r p. ground (arith, n, p.0)) ids),
            find-append_miss (is_test k) s.tests t (ground (arith, n, key)),
          )

    mine : questions_of s.next_id u ≡ rows
    mine = rw questions (
        select-append_passing (in_test s.next_id) s.test_questions rows
          (All-map (λ (q : TestQuestion). (q.id < s.next_id) × (q.test_id < s.next_id))
            (λ q. in_test s.next_id q ≡ false) s.test_questions (λ q p. ground (arith, p.1)) h.1.0)
          (All-map
            (λ (r : TestQuestion). (r.test_id ≡ s.next_id) × ((s.next_id ≤ r.id) × (r.id < next)))
            (λ r. in_test s.next_id r ≡ true) rows (λ r p. ground (arith, p.0)) ids))

    sums : HasTotals s.next_id u
    sums x e =
        let found : find (is_test s.next_id) u.tests ≡ some t = rw tests (
          find-append (is_test s.next_id) s.tests (t ∷ []) (some t)
            (find-fresh test_key s.next_id s.tests h.1.1) (ground (arith, key))) in
        let same : t ≡ x = cc in rw (← same, mine) (count_right, marks_right)

pub clone-Finished :
    (now id : ℕ) (user : User) (s : State)
    → IsTidy s
    → HasTotals id s
    → Leaves (Finished s.next_id s) (Clone.clone now id user s)
unfolding Clone.clone
clone-Finished now id user s h sums =
    let copied =
      Clone.copy_sections now s.next_id (suc s.next_id) (sort_sections (sections_of id s)) in
    Ensures-lock (λ _. Finished s.next_id s) id user _ s
      (λ t e m.
        Ensures-throw_if (λ _. Finished s.next_id s)
          (ltb Clone.max_title (Clone.characters (t.title ++ Clone.copy_suffix))) value_too_long _ s
          (λ fits.
            Ensures-or_throw (λ _. Finished s.next_id s)
              (Clone.copy_questions now s.next_id copied.1 (suc s.next_id + length copied.0)
                (questions_of id s))
              not_null_violation _ s
              (λ rows made.
                let n = suc s.next_id + length copied.0 in
                let copies =
                  copy_questions-AreCopies now s.next_id n copied.1 (questions_of id s) rows made in
                Finished-audit s.next_id user.id AuditAction.test_clone s.next_id s
                  (Clone.insert_copy t user s.next_id copied.0 rows s)
                  (insert-Finished (Clone.copy_of t user s.next_id) rows (n + length rows)
                    (Clone.insert_copy t user s.next_id copied.0 rows s) s h refl (omega arith) refl
                    refl refl
                    (All-map
                      (λ (r : TestQuestion).
                        (r.test_id ≡ s.next_id) × ((n ≤ r.id) × (r.id < n + length rows)))
                      (λ (r : TestQuestion).
                        (r.test_id ≡ s.next_id) × ((s.next_id ≤ r.id) × (r.id < n + length rows)))
                      rows (λ r k. (k.0, (omega (arith, k.1.0), k.1.1))) copies.1.1.0)
                    copies.1.1.1 ((sums t e).0 ∙ sym copies.0) ((sums t e).1 ∙ sym copies.1.0)))))

pub create-Finished :
    (now : ℕ) (dto : CreateTestDto) (user : User) (s : State)
    → IsTidy s
    → Leaves (Finished s.next_id s) (Edit.create now dto user s)
unfolding Edit.create Edit.insert_test
create-Finished now dto user s h =
    Ensures->>= (λ _ u. u ≡ s) (λ _. Finished s.next_id s)
      (validate_scope dto.class_id dto.section_id dto.subject_id) _ s
      (validate_scope-same dto.class_id dto.section_id dto.subject_id s)
      (λ _ u same. rw same (
        Finished-audit s.next_id user.id AuditAction.test_create s.next_id s
          (Edit.insert_test now dto user s)
          (insert-Finished (Edit.new_test dto user s.next_id) [] (s.next_id + 2)
            (Edit.insert_test now dto user s) s h refl (omega arith) refl
            (sym (append-nil s.test_questions)) refl tt tt refl refl)))
  where
    append-nil : {A : Type 0} (xs : List A) → xs ++ [] ≡ xs
    append-nil [] = refl
    append-nil (x ∷ xs) = ap (◌∷◌ x) (append-nil xs)
