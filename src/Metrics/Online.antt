-- ===== src/Metrics/Online.antt =====
-- `compute_online_telemetry` and `citation_metrics`: what is measured with no labels at hand.
use finance_rag.Prelude.{
  zero, suc, ℕ, Bool, not, Option, none, some, List, [], ◌∷◌, ◌++◌, if◌then◌else◌, length, keep,
}
use finance_rag.Text.{Text, member}
use finance_rag.Models.{
  Floats, RetrievedChunk, RetrievalMetrics, unmeasured, max_from, min_from, mean,
}

-- `list(dict.fromkeys(xs))`, behind the keys in `acc`
unfoldable pub from_keys : List Text → List Text → List Text
from_keys acc [] = acc
from_keys acc (x ∷ xs) = from_keys (if member x acc then acc else acc ++ (x ∷ [])) xs

module _ {F : Type 0} where
  unfoldable pub cosines : List (RetrievedChunk F) → List F
  cosines [] = []
  cosines (r ∷ rs) = r.cosine ∷ cosines rs

  -- the rerank scores that are not None
  unfoldable pub rerank_scores : List (RetrievedChunk F) → List F
  rerank_scores [] = []
  rerank_scores (r ∷ rs) =
      let rest = rerank_scores rs in elim r.rerank_score [ none ↦ rest | some s ↦ s ∷ rest ]

module _ {F : Type 0} (fl : Floats F) where
  -- `max(xs) if xs else None`
  abbrev pub max_of : List F → Option F
  max_of [] = none
  max_of (x ∷ xs) = some (max_from fl x xs)

  abbrev pub min_of : List F → Option F
  min_of [] = none
  min_of (x ∷ xs) = some (min_from fl x xs)

  unfoldable pub compute_online_telemetry : List (RetrievedChunk F) → ℕ → Bool → RetrievalMetrics F
  compute_online_telemetry retrieved latency refused = record unmeasured {
    latency_ms = some latency;
    num_retrieved = length retrieved;
    top_cosine = max_of (cosines retrieved);
    mean_cosine = mean fl (cosines retrieved);
    min_cosine = min_of (cosines retrieved);
    top_rerank_score = max_of (rerank_scores retrieved);
    avg_relevance = mean fl (cosines retrieved);
    refused = refused;
  }

-- `CitationMetrics`; the last two keys are there when labels are given.
pub record CitationMetrics (F : Type 0) : Type 0 where
  pub citation_grounding : F
  pub hallucinated_citations : List Text
  pub num_cited : F
  pub citation_precision : Option F
  pub citation_recall : Option F

module _ {F : Type 0} (fl : Floats F) where
  -- `a / b if b else 0.0`
  abbrev pub share : ℕ → ℕ → F
  share a zero = fl.zero
  share a (suc n) = fl.div (fl.of_nat a) (fl.of_nat (suc n))

  unfoldable pub citation_metrics : List Text → List Text → Option (List Text) → CitationMetrics F
  unfolding from_keys
  citation_metrics cited_ids retrieved_ids relevant_ids =
      let cited = from_keys [] cited_ids in
      let grounded = keep (λ c. member c retrieved_ids) cited in
      let correct = λ (relevant : List Text). keep (λ c. member c relevant) grounded in
      record {
        citation_grounding = share (length grounded) (length cited);
        hallucinated_citations = keep (λ c. not (member c retrieved_ids)) cited;
        num_cited = fl.of_nat (length cited);
        citation_precision = elim relevant_ids [
          | none ↦ none
          | some relevant ↦ some (share (length (correct relevant)) (length cited))
        ];
        citation_recall = elim relevant_ids [
          | none ↦ none
          | some relevant ↦ some (share (length (correct relevant)) (length relevant))
        ];
      }
