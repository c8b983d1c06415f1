-- ===== src/Ranking.antt =====
-- The reranker (src/finance_rag/ranking/reranker.py) and the whole of `HybridRetriever.retrieve`
-- (src/finance_rag/retrieval/hybrid.py). Cohere, the model behind the "llm" provider, the embedding
-- and the store are parameters. The list of candidates is changed in place, so a call gives the
-- candidates back as it left them.
pub mod Laws
mod Tests
use finance_rag.Prelude.{
  ℕ, zero, suc, ◌+◌, Bool, true, false, ◌&&◌, not, Option, none, some, List, [], ◌∷◌, ◌++◌,
  if◌then◌else◌, ◌==◌, min, length, take, get_or, is_empty,
}
use finance_rag.Text.{Text, codes, text_eq}
use finance_rag.Text.Sorting.{sorted_set}
use finance_rag.Config.{Settings}
use finance_rag.Models.{Floats, RetrievedChunk, ids}
use finance_rag.Guardrails.Answerability.{Attempt, returned, failed}
use finance_rag.Retrieval.Hybrid.{
  Row, apply_graph_ranker, collect_rows, fuse, parent_ids, sort_by_score,
}

-- One result of a reranker: the position of a candidate and its score.
pub record Scored (F : Type 0) : Type 0 where
  pub index : ℕ
  pub score : F

pub record Rankers (F : Type 0) : Type 0 where
  -- whether `COHERE_API_KEY` is set
  pub has_cohere : Bool
  -- `client.rerank(query=…, documents=…, top_n=…).results`
  pub cohere : Text → List Text → ℕ → Attempt (List (Scored F))
  -- the scores of the model's JSON reply, for the numbered passages
  pub llm : Text → List Text → Attempt (List (Scored F))

pub data Provider : Type 0 where
  cohere_provider llm_provider no_provider : Provider

module _ {F : Type 0} where
  -- `c.chunk.text`, and its first 700 characters
  unfoldable pub contents : List (RetrievedChunk F) → List Text
  contents [] = []
  contents (c ∷ cs) = c.chunk.content ∷ contents cs

  unfoldable pub heads : List (RetrievedChunk F) → List Text
  heads [] = []
  heads (c ∷ cs) = take 700 c.chunk.content ∷ heads cs

  -- `candidates[i]`
  unfoldable pub at : List (RetrievedChunk F) → ℕ → Option (RetrievedChunk F)
  at [] i = none
  at (c ∷ cs) zero = some c
  at (c ∷ cs) (suc i) = at cs i

  -- `candidate.rerank_score = s; candidate.score = s`
  abbrev pub rescored : F → RetrievedChunk F → RetrievedChunk F
  rescored s c = record c { score = s; rerank_score = some s }

  unfoldable pub rescore_at : ℕ → F → List (RetrievedChunk F) → List (RetrievedChunk F)
  rescore_at i s [] = []
  rescore_at zero s (c ∷ cs) = rescored s c ∷ cs
  rescore_at (suc i) s (c ∷ cs) = c ∷ rescore_at i s cs

  -- The loop over Cohere's results: the positions returned, or the IndexError of the first one that
  -- is out of range; and the candidates as they are left.
  unfoldable pub apply_results :
      List (Scored F) → List (RetrievedChunk F) → Attempt (List ℕ) × List (RetrievedChunk F)
  apply_results [] cs = (returned [], cs)
  apply_results (x ∷ xs) cs =
      let (order, left) = apply_results xs (rescore_at x.index x.score cs) in
      let behind : Attempt (List ℕ) = elim order [
        | failed e ↦ failed e
        | returned is ↦ returned (x.index ∷ is)
      ] in
      elim (at cs x.index) [ none ↦ (failed (codes "IndexError"), cs) | some c ↦ (behind, left) ]

  -- The candidates at these positions.
  unfoldable pub pick : List (RetrievedChunk F) → List ℕ → List (RetrievedChunk F)
  pick cs [] = []
  pick cs (i ∷ is) = let rest = pick cs is in elim (at cs i) [ none ↦ rest | some c ↦ c ∷ rest ]

  -- `score_map.get(i)`: of two scores for one position, the last
  unfoldable pub score_for : ℕ → List (Scored F) → Option F
  score_for i [] = none
  score_for i (x ∷ xs) =
      let rest = score_for i xs in
      elim rest [ some s ↦ some s | none ↦ if i == x.index then some x.score else none ]

module _ {F : Type 0} (fl : Floats F) where
  -- The loop of `_llm_rerank`; scores of the model are out of ten.
  unfoldable pub apply_scores :
      ℕ → List (Scored F) → List (RetrievedChunk F) → List (RetrievedChunk F)
  apply_scores i scores [] = []
  apply_scores i scores (c ∷ cs) =
      let rest = apply_scores (suc i) scores cs in
      elim (score_for i scores) [
        | none ↦ c ∷ rest
        | some s ↦ rescored (fl.div s (fl.of_nat 10)) c ∷ rest
      ]

  -- `_rrf_order`
  unfoldable pub rrf_order : List (RetrievedChunk F) → ℕ → List (RetrievedChunk F)
  rrf_order cs top_k = take top_k (sort_by_score fl cs)

  module _ (st : Settings) (rk : Rankers F) where
    -- `active_provider`
    unfoldable pub active_provider : Provider
    active_provider =
        if text_eq st.rerank_provider (codes "cohere")
        then (if rk.has_cohere then cohere_provider else no_provider)
        else if text_eq st.rerank_provider (codes "llm")
        then llm_provider
        else no_provider

    -- What `rerank` makes of Cohere's results: their order, or on an error the order of the fusion
    abbrev pub ordered : ℕ → Attempt (List ℕ) × List (RetrievedChunk F) → List (RetrievedChunk F)
    ordered top_k (failed e, left) = rrf_order left top_k
    ordered top_k (returned is, left) = pick left is

    abbrev pub with_results :
        List (RetrievedChunk F) → ℕ → Attempt (List (Scored F)) → List (RetrievedChunk F)
    with_results cs top_k (failed e) = rrf_order cs top_k
    with_results cs top_k (returned results) = ordered top_k (apply_results results cs)

    abbrev pub with_scores :
        List (RetrievedChunk F) → ℕ → Attempt (List (Scored F)) → List (RetrievedChunk F)
    with_scores cs top_k (failed e) = rrf_order cs top_k
    with_scores cs top_k (returned scores) = rrf_order (apply_scores 0 scores cs) top_k

    abbrev pub rerank_by : Provider → Text → List (RetrievedChunk F) → ℕ → List (RetrievedChunk F)
    rerank_by cohere_provider query cs top_k =
        with_results cs top_k (rk.cohere query (contents cs) (min top_k (length cs)))
    rerank_by llm_provider query cs top_k = with_scores cs top_k (rk.llm query (heads cs))
    rerank_by no_provider query cs top_k = rrf_order cs top_k

    -- `rerank`
    unfoldable pub rerank : Text → List (RetrievedChunk F) → ℕ → List (RetrievedChunk F)
    rerank query [] top_k = []
    rerank query (c ∷ cs) top_k = rerank_by active_provider query (c ∷ cs) top_k

-- What `retrieve` reads besides the query: the embedding, and the store's three queries.
pub record Source (F : Type 0) : Type 0 where
  pub embed_query : Text → Attempt (List F)
  pub hybrid_search :
      List F → Text → Option Text → Option Text → Option Text → Attempt (List (Row F))
  pub graph_expand : List Text → Attempt (List (Row F))
  pub fetch_parents : List Text → Attempt (List (Text × Option Text))

module _ {F : Type 0} (fl : Floats F) (st : Settings) (rk : Rankers F) (sr : Source F) where
  -- The neighbours that the graph ranker asks for; nothing is asked for without a seed.
  abbrev pub neighbours : List (Row F) → Attempt (List (Row F))
  neighbours rows =
      let seeds = ids (take 8 (sort_by_score fl (collect_rows fl [] rows))) in
      if is_empty seeds then returned [] else sr.graph_expand seeds

  -- The sections that the passages belong to; nothing is asked for where no passage names one.
  abbrev pub contexts :
      ℕ → F → ℕ → List (Row F) → List (Row F) → Attempt (List (Text × Option Text))
  contexts k weight top_k rows found =
      let by_id = apply_graph_ranker fl (λ seeds. found) k weight (collect_rows fl [] rows) in
      let wanted = sorted_set (parent_ids (take top_k (sort_by_score fl by_id))) in
      if is_empty wanted then returned [] else sr.fetch_parents wanted

  abbrev pub with_contexts :
      Text
      → ℕ
      → F
      → ℕ
      → ℕ
      → List (Row F)
      → List (Row F)
      → Attempt (List (Text × Option Text))
      → Attempt (List (RetrievedChunk F))
  with_contexts query k weight top_k rerank_k rows found (failed e) = failed e
  with_contexts query k weight top_k rerank_k rows found (returned parents) = returned (
      rerank fl st rk query (fuse fl (λ seeds. found) (λ wanted. parents) k weight top_k rows)
        rerank_k)

  abbrev pub with_neighbours :
      Text
      → ℕ
      → F
      → ℕ
      → ℕ
      → List (Row F)
      → Attempt (List (Row F))
      → Attempt (List (RetrievedChunk F))
  with_neighbours query k weight top_k rerank_k rows (failed e) = failed e
  with_neighbours query k weight top_k rerank_k rows (returned found) =
      with_contexts query k weight top_k rerank_k rows found (contexts k weight top_k rows found)

  abbrev pub with_rows :
      Text → ℕ → F → ℕ → ℕ → Attempt (List (Row F)) → Attempt (List (RetrievedChunk F))
  with_rows query k weight top_k rerank_k (failed e) = failed e
  with_rows query k weight top_k rerank_k (returned rows) =
      with_neighbours query k weight top_k rerank_k rows (neighbours rows)

  abbrev pub with_embedding :
      Text
      → Option Text
      → Option Text
      → Option Text
      → ℕ
      → F
      → ℕ
      → ℕ
      → Attempt (List F)
      → Attempt (List (RetrievedChunk F))
  with_embedding query line org as_of k weight top_k rerank_k (failed e) = failed e
  with_embedding query line org as_of k weight top_k rerank_k (returned x) =
      with_rows query k weight top_k rerank_k (sr.hybrid_search x query line org as_of)

  -- `HybridRetriever.retrieve`, with the settings `rrf_k`, `graph_expand_weight`, `retrieval_top_k`
  -- and `rerank_top_k`
  unfoldable pub retrieve :
      Text
      → Option Text
      → Option Text
      → Option Text
      → ℕ
      → F
      → ℕ
      → ℕ
      → Attempt (List (RetrievedChunk F))
  retrieve query line org as_of k weight top_k rerank_k =
      with_embedding query line org as_of k weight top_k rerank_k (sr.embed_query query)
