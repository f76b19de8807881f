-- ===== src/Exam/Snapshots.antt =====
-- TestSnapshotService.fromQuestion (modules/tests/test-snapshot.service.ts).
use ai_tgs.Common.{
  List, Option, Text, [], leb, map, none, select, some, ℕ, ◌==◌, ◌∷◌, if◌then◌else◌,
}
use ai_tgs.Exam.Rows.{
  Question, QuestionOption, QuestionCitation, OptionSnapshot, Answer, Snapshot, CitationSnapshot,
}
use ai_tgs.Exam.State.{State}

unfoldable pub insert_option : QuestionOption → List QuestionOption → List QuestionOption
insert_option o [] = o ∷ []
insert_option o (x ∷ xs) =
    if leb o.option_order x.option_order then o ∷ x ∷ xs else x ∷ insert_option o xs

unfoldable pub sort_options : List QuestionOption → List QuestionOption
unfolding insert_option
sort_options [] = []
sort_options (o ∷ os) = insert_option o (sort_options os)

unfoldable pub insert_citation : QuestionCitation → List QuestionCitation → List QuestionCitation
insert_citation c [] = c ∷ []
insert_citation c (x ∷ xs) =
    if leb c.citation_order x.citation_order then c ∷ x ∷ xs else x ∷ insert_citation c xs

unfoldable pub sort_citations : List QuestionCitation → List QuestionCitation
unfolding insert_citation
sort_citations [] = []
sort_citations (c ∷ cs) = insert_citation c (sort_citations cs)

abbrev pub option_snapshot : QuestionOption → OptionSnapshot
option_snapshot o = record {
  option_text = o.option_text;
  option_order = o.option_order;
  is_correct = o.is_correct;
}

abbrev pub citation_snapshot : QuestionCitation → CitationSnapshot
citation_snapshot c = record {
  document_version_id = c.document_version_id;
  content_chunk_id = c.content_chunk_id;
  locator = c.locator;
  excerpt_hash = c.excerpt_hash;
  retrieval_score = c.retrieval_score;
  citation_order = c.citation_order;
}

-- `list.length ? list.map(f) : null`
abbrev pub list_or_null {ℓ} : {A : Type ℓ} → List A → Option (List A)
list_or_null [] = none
list_or_null (x ∷ xs) = some (x ∷ xs)

abbrev pub correct_orders : List OptionSnapshot → List ℕ
correct_orders os = map (λ o. o.option_order) (select (λ o. o.is_correct) os)

-- The empty explanation is falsy, as a missing one is.
abbrev pub explanation_answer : Option Text → Option Answer
explanation_answer none = none
explanation_answer (some []) = none
explanation_answer (some (c ∷ s)) = some (Answer.model_answer (c ∷ s))

unfoldable pub answer_of : Option (List OptionSnapshot) → Option Text → Option Answer
answer_of (some os) explanation = some (Answer.correct_option_orders (correct_orders os))
answer_of none explanation = explanation_answer explanation

unfoldable pub from_question : Question → Text → State → Snapshot
unfolding sort_options sort_citations answer_of
from_question q language s =
    let options =
      list_or_null
        (map option_snapshot (sort_options (select (λ o. o.question_id == q.id) s.options))) in
    let citations =
      list_or_null (
        map citation_snapshot (sort_citations (select (λ c. c.question_id == q.id) s.citations))) in
    record {
      type = q.type;
      question_text = q.question_text;
      difficulty = q.difficulty;
      language = language;
      options = options;
      answer = answer_of options q.explanation;
      explanation = q.explanation;
      source = q.source;
      grounding_status = q.grounding_status;
      review_status = q.review_status;
      citations = citations;
      chapter_id = q.chapter_id;
      topic_id = q.topic_id;
    }
