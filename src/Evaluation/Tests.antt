-- ===== src/Evaluation/Tests.antt =====
-- Small evaluations, and the theorems applied to them.
use finance_rag.Prelude.{ℕ, ◌-◌, ◌≡◌, refl, ◌↔◌, none, some, List, [], ◌∷◌}
use finance_rag.Samples.{bits}
use finance_rag.Text.{
  codes, text_eq, is_space, to_lower, lower, strip, strip_left, strip_right, split, split_at,
  member,
}
use finance_rag.Models.{Citation}
use finance_rag.Metrics.Offline.{binary, mrr_from, mrr}
use finance_rag.Evaluation.{
  Summary, gated, fell, check_metric, check_metrics, check_regression, slashes, last_name,
  source_key, chunk_matches_label, citation_for, relevant_ids,
}
use finance_rag.Evaluation.Gate.{KeepsUp, check_regression-passes}

windows_path : source_key (codes "data\\corpus\\RD_Credit.md") ≡ codes "rd_credit.md"
unfolding text_eq is_space to_lower lower strip strip_left strip_right split split_at slashes
    last_name source_key
windows_path = refl

second_hit :
    mrr bits (λ n. n) (binary bits (λ n. n) (codes "b" ∷ []) (codes "a" ∷ codes "b" ∷ [])) ≡ 0
unfolding text_eq member binary mrr mrr_from
second_hit = refl

abbrev before : Summary ℕ
before = record {
  n_cases = 4;
  n_answerable = 3;
  n_refusal_cases = 1;
  hit_rate = some 9;
  mrr = some 7;
  ndcg = some 7;
  precision_at_k = none;
  recall_at_k = some 5;
  citation_precision = none;
  faithfulness = none;
  answer_relevance = none;
  abstention_accuracy = some 8;
  refusal_recall = none;
  total_hallucinated_citations = 1;
}

abbrev after : Summary ℕ
after = record before { hit_rate = some 4; mrr = none }

-- A lower hit rate fails the gate, a metric that is gone does not.
gate_runs : check_regression bits (λ x y. x - y) 1 after before ≡ fell (codes "hit_rate") 4 9 ∷ []
unfolding gated check_metric check_metrics check_regression
gate_runs = refl

check_regression-passes_example :
    (check_regression bits (λ x y. x - y) 1 after before ≡ [])
    ↔ KeepsUp bits (λ x y. x - y) 1 after before
check_regression-passes_example = check_regression-passes bits (λ x y. x - y) 1 after before

abbrev cited : List (Citation ℕ)
cited =
    record {
      chunk_id = codes "a1";
      doc_id = codes "d";
      title = codes "Credit";
      source = codes "data/RD_Credit.md";
      excerpt = codes "wages";
      score = 3;
      content = codes "wages";
    }
    ∷ []

-- Of two passages of the labelled document, the one that is not cited does not count.
uncited :
    relevant_ids (codes "rd_credit.md" ∷ []) cited (codes "a2" ∷ codes "a1" ∷ []) ≡ codes "a1" ∷ []
unfolding text_eq is_space to_lower lower strip strip_left strip_right split split_at member slashes
    last_name source_key chunk_matches_label citation_for relevant_ids
uncited = refl
