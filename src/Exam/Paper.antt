-- ===== src/Exam/Paper.antt =====
-- What the paper (TestsService.preview) shows and does not show.
use ai_tgs.Common.{
  sum_by, All, Ensures, List, Option, [], map, none, refl, select, some, true, ℕ, ◌≡◌, ◌∷◌,
}
use ai_tgs.Exam.Rows.{User, OptionSnapshot, TestQuestion, TestSection}
use ai_tgs.Exam.State.{
  State, ExamError, questions_of, sections_of, sort_questions, sort_sections, in_section,
}
use ai_tgs.Exam.View.{
  OptionView, QuestionView, SectionView, Detail, option_view, options_view, question_view,
  section_view, detail, show, preview,
}
use ai_tgs.Exam.Keeps.{Ensures-lock}
use ai_tgs.Exam.Keeps.Finalize.{}

abbrev pub HidesOptions : Option (List OptionView) → Type 0
HidesOptions none = Unit
HidesOptions (some os) = All (λ (o : OptionView). o.is_correct ≡ none) os

-- Neither the right options nor the source, the grounding, the review status or the citations.
abbrev pub HidesAnswer : QuestionView → Type 0
HidesAnswer q = HidesOptions q.options × (q.provenance ≡ none)

-- The options are shown with their texts and orders.
abbrev pub ShowsOptions : List OptionView → List OptionSnapshot → Type 0
ShowsOptions [] [] = Unit
ShowsOptions (v ∷ vs) (o ∷ os) =
    ((v.option_text ≡ o.option_text) × (v.option_order ≡ o.option_order)) × ShowsOptions vs os
ShowsOptions _ _ = ⊥

abbrev pub ShowsChoice : Option (List OptionView) → Option (List OptionSnapshot) → Type 0
ShowsChoice none none = Unit
ShowsChoice (some vs) (some os) = ShowsOptions vs os
ShowsChoice _ _ = ⊥

-- A question as it was snapshot, under its own id.
pub record Shows (v : QuestionView) (q : TestQuestion) : Type 0 where
  pub id : v.id ≡ q.id
  pub source : v.source_question_id ≡ q.source_question_id
  pub position : v.position ≡ q.position
  pub type : v.type ≡ q.snapshot.type
  pub question_text : v.question_text ≡ q.snapshot.question_text
  pub marks : v.marks ≡ q.marks
  pub difficulty : v.difficulty ≡ q.snapshot.difficulty
  pub options : ShowsChoice v.options q.snapshot.options

-- Each question of the list, in its order, and nothing else.
abbrev pub ShowsAll : List QuestionView → List TestQuestion → Type 0
ShowsAll [] [] = Unit
ShowsAll (v ∷ vs) (q ∷ qs) = Shows v q × ShowsAll vs qs
ShowsAll _ _ = ⊥

-- Each section of the list, in its order, with its questions out of all.
abbrev pub ShowsSections : List TestQuestion → List SectionView → List TestSection → Type 0
ShowsSections qs [] [] = Unit
ShowsSections qs (v ∷ vs) (x ∷ xs) =
    ((v.id ≡ x.id)
      × ((v.title ≡ x.title)
          × ((v.instructions ≡ x.instructions)
              × ((v.position ≡ x.position)
                  × ((v.marks
                        ≡ sum_by (λ (q : TestQuestion). q.marks) (select (in_section x.id) qs))
                      × ShowsAll v.questions (select (in_section x.id) qs))))))
    × ShowsSections qs vs xs
ShowsSections qs _ _ = ⊥

options-Shows : (os : List OptionSnapshot) → ShowsOptions (map (option_view true) os) os
options-Shows [] = tt
options-Shows (o ∷ os) = ((refl, refl), options-Shows os)

choice-Shows : (os : Option (List OptionSnapshot)) → ShowsChoice (options_view true os) os
choice-Shows none = tt
choice-Shows (some os) = options-Shows os

questions-ShowsAll : (qs : List TestQuestion) → ShowsAll (map (question_view true) qs) qs
unfolding question_view
questions-ShowsAll [] = tt
questions-ShowsAll (q ∷ qs) = (
  record {
    id = refl;
    source = refl;
    position = refl;
    type = refl;
    question_text = refl;
    marks = refl;
    difficulty = refl;
    options = choice-Shows q.snapshot.options;
  },
  questions-ShowsAll qs,
)

sections-ShowsSections :
    (qs : List TestQuestion) (xs : List TestSection)
    → ShowsSections qs (map (section_view true qs) xs) xs
unfolding section_view
sections-ShowsSections qs [] = tt
sections-ShowsSections qs (x ∷ xs) = (
  (refl, (refl, (refl, (refl, (refl, questions-ShowsAll (select (in_section x.id) qs)))))),
  sections-ShowsSections qs xs,
)

option_view-hides :
    (os : List OptionSnapshot)
    → All (λ (o : OptionView). o.is_correct ≡ none) (map (option_view true) os)
option_view-hides [] = tt
option_view-hides (o ∷ os) = (refl, option_view-hides os)

options_view-HidesOptions :
    (os : Option (List OptionSnapshot)) → HidesOptions (options_view true os)
options_view-HidesOptions none = tt
options_view-HidesOptions (some os) = option_view-hides os

question_view-HidesAnswer : (qs : List TestQuestion) → All HidesAnswer (map (question_view true) qs)
unfolding question_view
question_view-HidesAnswer [] = tt
question_view-HidesAnswer (q ∷ qs) =
    ((options_view-HidesOptions q.snapshot.options, refl), question_view-HidesAnswer qs)

section_view-HidesAnswer :
    (qs : List TestQuestion) (sections : List TestSection)
    → All (λ (x : SectionView). All HidesAnswer x.questions) (map (section_view true qs) sections)
unfolding section_view
section_view-HidesAnswer qs [] = tt
section_view-HidesAnswer qs (x ∷ sections) =
    (question_view-HidesAnswer (select (in_section x.id) qs), section_view-HidesAnswer qs sections)

-- The paper of a test in a state.
abbrev pub IsPaper : ℕ → State → Detail → Type 0
IsPaper id s d =
    let qs = sort_questions (questions_of id s) in
    ShowsAll d.questions qs
    × (ShowsSections qs d.sections (sort_sections (sections_of id s))
        × (All HidesAnswer d.questions
            × All (λ (x : SectionView). All HidesAnswer x.questions) d.sections))

-- preview, when it does not throw: it changes nothing; it shows the questions of the test in the
-- order of their positions, each with its own id and that of its source, its position, type, text,
-- marks, difficulty and the texts and orders of its options, and the sections in the order of
-- theirs, each with its title, instructions, position, marks and questions; and no question, in the
-- list or under a section, shows which option is correct, or the source, the grounding, the review
-- status or the citations of its snapshot.
pub preview-HidesAnswer :
    (id : ℕ) (user : User) (s : State)
    → Ensures {E = ExamError} (λ (d : Detail) u. (u ≡ s) × IsPaper id s d) (preview id user s)
unfolding preview show detail
preview-HidesAnswer id user s =
    let qs = sort_questions (questions_of id s) in
    Ensures-lock Post id user _ s (λ t e m. (
      refl,
      (
        questions-ShowsAll qs,
        (
          sections-ShowsSections qs (sort_sections (sections_of id s)),
          (
            question_view-HidesAnswer qs,
            section_view-HidesAnswer qs (sort_sections (sections_of id s)),
          ),
        ),
      ),
    ))
  where
    Post : Detail → State → Type 0
    Post d u = (u ≡ s) × IsPaper id s d
