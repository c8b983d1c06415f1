-- ===== src/Ranking/Tests.antt =====
-- Small reranking runs, and the theorems applied to them.
use finance_rag.Prelude.{ℕ, ◌≡◌, refl, true, none, some, List, [], ◌∷◌}
use finance_rag.Samples.{bits, passage, row}
use finance_rag.Text.{codes, text_eq}
use finance_rag.Config.{defaults}
use finance_rag.Models.{RetrievedChunk, ids}
use finance_rag.Guardrails.Answerability.{returned, failed}
use finance_rag.Retrieval.Hybrid.{sort_by_score, insert_by_score}
use finance_rag.Ranking.{
  Scored, Rankers, contents, at, rescore_at, apply_results, pick, rrf_order, active_provider,
  rerank, Source, retrieve,
}
use finance_rag.Ranking.Laws.{Reached, retrieve-Reached}

abbrev two : List (RetrievedChunk ℕ)
two = passage (codes "a") (codes "wages") ∷ passage (codes "b") (codes "rent") ∷ []

-- A provider that scores the second passage, and one that then names a position that is not there.
abbrev prefers : List (Scored ℕ) → Rankers ℕ
prefers xs = record {
  has_cohere = true;
  cohere = λ q docs n. returned xs;
  llm = λ q docs. failed (codes "no model");
}

abbrev ranked : List (Scored ℕ)
ranked = record { index = 1; score = 3 } ∷ record { index = 0; score = 2 } ∷ []

reordered :
    ids (rerank bits defaults (prefers ranked) (codes "q") two 5) ≡ codes "b" ∷ codes "a" ∷ []
unfolding text_eq contents at rescore_at apply_results pick active_provider rerank
reordered = refl

abbrev broken : List (Scored ℕ)
broken = record { index = 0; score = 9 } ∷ record { index = 7; score = 2 } ∷ []

scores_of : List (RetrievedChunk ℕ) → List ℕ
scores_of [] = []
scores_of (c ∷ cs) = c.score ∷ scores_of cs

-- The fallback orders candidates that the failed attempt has changed.
half_scored : scores_of (rerank bits defaults (prefers broken) (codes "q") two 5) ≡ 9 ∷ 7 ∷ []
unfolding text_eq contents at rescore_at apply_results pick active_provider rerank rrf_order
    sort_by_score insert_by_score scores_of
half_scored = refl

abbrev silent : Source ℕ
silent = record {
  embed_query = λ t. returned (1 ∷ []);
  hybrid_search =
      λ x q line org as_of. returned (row (codes "a") (some 3) ∷ row (codes "b") (some 4) ∷ []);
  graph_expand = λ seeds. returned (row (codes "c") none ∷ []);
  fetch_parents = λ wanted. returned [];
}

retrieve-Reached_example :
    Reached bits defaults
      (prefers ranked)
      silent
      (codes "q")
      none
      none
      none
      60
      1
      12
      5
      (retrieve bits defaults (prefers ranked) silent (codes "q") none none none 60 1 12 5)
retrieve-Reached_example =
    retrieve-Reached bits defaults (prefers ranked) silent (codes "q") none none none 60 1 12 5
