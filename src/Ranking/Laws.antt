-- ===== src/Ranking/Laws.antt =====
-- What the reranker can change (src/finance_rag/ranking/reranker.py), and what reaches the agents
-- from `HybridRetriever.retrieve` (src/finance_rag/retrieval/hybrid.py).
use finance_rag.Prelude.{
  ℕ, zero, suc, ◌≡◌, refl, sym, ap, ◌∙◌, subst, inl, inr, Option, none, some, List, [], ◌∷◌, In,
  All, All-take, All-In, arith, Option-cases,
}
use finance_rag.Text.{Text}
use finance_rag.Config.{Settings}
use finance_rag.Models.{Floats, RetrievedChunk}
use finance_rag.Guardrails.Answerability.{Attempt, Attempt-cases, returned, failed}
use finance_rag.Retrieval.Hybrid.{Row, sort_by_score, fuse}
use finance_rag.Retrieval.Candidates.{All-sort_by_score, Sourced, fuse-Sourced}
use finance_rag.Ranking.{
  Scored, Rankers, Provider, cohere_provider, llm_provider, no_provider, at, rescored, rescore_at,
  apply_results, pick, score_for, apply_scores, rrf_order, active_provider, ordered, with_results,
  with_scores, rerank_by, rerank, Source, with_rows, neighbours, contexts, with_contexts,
  with_neighbours, with_embedding, retrieve,
}

abbrev HoldsIn : {F : Type 0} → (RetrievedChunk F → Type 0) → Option (RetrievedChunk F) → Type 0
HoldsIn P none = Unit
HoldsIn P (some c) = P c

module _ {F : Type 0} (P : RetrievedChunk F → Type 0)
    (keeps : (s : F) (c : RetrievedChunk F) → P c → P (rescored s c)) where
  All-rescore_at :
      (i : ℕ) (s : F) (cs : List (RetrievedChunk F)) → All P cs → All P (rescore_at i s cs)
  unfolding rescore_at
  All-rescore_at zero s [] h = tt
  All-rescore_at (suc i) s [] h = tt
  All-rescore_at zero s (c ∷ cs) h = (keeps s c h.0, h.1)
  All-rescore_at (suc i) s (c ∷ cs) h = (h.0, All-rescore_at i s cs h.1)

  All-apply_results :
      (xs : List (Scored F)) (cs : List (RetrievedChunk F))
      → All P cs
      → All P (apply_results xs cs).1
  unfolding apply_results
  All-apply_results [] cs h = h
  All-apply_results (x ∷ xs) cs h = elim (Option-cases (at cs x.index)) [
    | inl e ↦ rw (e, apply_results) h
    | inr (c, e) ↦
        rw (e, apply_results)
          (All-apply_results xs (rescore_at x.index x.score cs)
            (All-rescore_at x.index x.score cs h))
  ]

  at-holds :
      (cs : List (RetrievedChunk F)) (i : ℕ) (c : RetrievedChunk F)
      → All P cs
      → at cs i ≡ some c
      → P c
  unfolding at
  at-holds [] i c h e = absurd (ground arith)
  at-holds (x ∷ xs) zero c h e = subst (HoldsIn P) e h.0
  at-holds (x ∷ xs) (suc i) c h e = at-holds xs i c h.1 e

  All-pick : (cs : List (RetrievedChunk F)) (is : List ℕ) → All P cs → All P (pick cs is)
  unfolding pick
  All-pick cs [] h = tt
  All-pick cs (i ∷ is) h = elim (Option-cases (at cs i)) [
    | inl e ↦ rw (e, pick) (All-pick cs is h)
    | inr (c, e) ↦ rw (e, pick) (at-holds cs i c h e, All-pick cs is h)
  ]

  module _ (fl : Floats F) (st : Settings) (rk : Rankers F) where
    All-apply_scores :
        (i : ℕ) (scores : List (Scored F)) (cs : List (RetrievedChunk F))
        → All P cs
        → All P (apply_scores fl i scores cs)
    unfolding apply_scores
    All-apply_scores i scores [] h = tt
    All-apply_scores i scores (c ∷ cs) h =
        let rest = All-apply_scores (suc i) scores cs h.1 in
        elim (Option-cases (score_for i scores)) [
          | inl e ↦ rw (e, apply_scores) (h.0, rest)
          | inr (s, e) ↦ rw (e, apply_scores) (keeps (fl.div s (fl.of_nat 10)) c h.0, rest)
        ]

    All-rrf_order : (cs : List (RetrievedChunk F)) (k : ℕ) → All P cs → All P (rrf_order fl cs k)
    unfolding rrf_order
    All-rrf_order cs k h = All-take P k (sort_by_score fl cs) (All-sort_by_score fl P cs h)

    All-ordered :
        (k : ℕ) (p : Attempt (List ℕ) × List (RetrievedChunk F))
        → All P p.1
        → All P (ordered fl st rk k p)
    All-ordered k (failed e, left) h = All-rrf_order left k h
    All-ordered k (returned is, left) h = All-pick left is h

    All-with_results :
        (cs : List (RetrievedChunk F)) (k : ℕ) (a : Attempt (List (Scored F)))
        → All P cs
        → All P (with_results fl st rk cs k a)
    All-with_results cs k (failed e) h = All-rrf_order cs k h
    All-with_results cs k (returned xs) h =
        All-ordered k (apply_results xs cs) (All-apply_results xs cs h)

    All-with_scores :
        (cs : List (RetrievedChunk F)) (k : ℕ) (a : Attempt (List (Scored F)))
        → All P cs
        → All P (with_scores fl st rk cs k a)
    All-with_scores cs k (failed e) h = All-rrf_order cs k h
    All-with_scores cs k (returned xs) h =
        All-rrf_order (apply_scores fl 0 xs cs) k (All-apply_scores 0 xs cs h)

    pub All-rerank :
        (query : Text) (cs : List (RetrievedChunk F)) (k : ℕ)
        → All P cs
        → All P (rerank fl st rk query cs k)
    unfolding rerank
    All-rerank query [] k h = tt
    All-rerank query (c ∷ cs) k h = by_provider (active_provider fl st rk)
      where
        by_provider : (p : Provider) → All P (rerank_by fl st rk p query (c ∷ cs) k)
        by_provider cohere_provider = All-with_results (c ∷ cs) k _ h
        by_provider llm_provider = All-with_scores (c ∷ cs) k _ h
        by_provider no_provider = All-rrf_order (c ∷ cs) k h

module _ {F : Type 0} (fl : Floats F) (st : Settings) (rk : Rankers F) where
  -- A passage that differs from a candidate in its score and its rerank score only.
  abbrev pub Kept : List (RetrievedChunk F) → RetrievedChunk F → Type 0
  Kept cs r =
      (c : RetrievedChunk F) × In c cs
      × (r ≡ record c { score = r.score; rerank_score = r.rerank_score })

  -- Whatever the provider answers, and also where it fails or names positions that are not there,
  -- `rerank` only scores and orders: every passage that it returns is one of the candidates, with
  -- nothing but the score and the rerank score changed, so the cosine that the abstention reads is
  -- the retriever's.
  pub rerank-Kept :
      (query : Text) (cs : List (RetrievedChunk F)) (k : ℕ)
      → All (Kept cs) (rerank fl st rk query cs k)
  rerank-Kept query cs k =
      All-rerank (Kept cs) (λ s c h. (h.0, h.1, ap (rescored s) h.2)) fl st rk query cs k
        (All-In (Kept cs) cs (λ c i. (c, i, refl)))

  rescored-Sourced :
      (rows : List (Row F)) (s : F) (c : RetrievedChunk F)
      → Sourced fl rows c
      → Sourced fl rows (rescored s c)
  rescored-Sourced rows s c (inl h) = inl h
  rescored-Sourced rows s c (inr h) = inr h

  module _ (sr : Source F) (query : Text) (line org as_of : Option Text) (k : ℕ) (weight : F)
      (top_k rerank_k : ℕ) where
    -- The rows that the search returned, and the passages that were made of them.
    abbrev pub Reached : Attempt (List (RetrievedChunk F)) → Type 0
    Reached (failed e) = Unit
    Reached (returned rs) =
        (x : List F) × (rows : List (Row F)) × (sr.embed_query query ≡ returned x)
        × (sr.hybrid_search x query line org as_of ≡ returned rows)
        × All (Sourced fl rows) rs

    abbrev AllSourced : List (Row F) → Attempt (List (RetrievedChunk F)) → Type 0
    AllSourced rows (failed e) = Unit
    AllSourced rows (returned rs) = All (Sourced fl rows) rs

    with_contexts-AllSourced :
        (rows found : List (Row F)) (a : Attempt (List (Text × Option Text)))
        → AllSourced rows (with_contexts fl st rk sr query k weight top_k rerank_k rows found a)
    with_contexts-AllSourced rows found (failed e) = tt
    with_contexts-AllSourced rows found (returned parents) =
        let expand : List Text → List (Row F) = λ seeds. found in
        let fetch : List Text → List (Text × Option Text) = λ wanted. parents in
        All-rerank (Sourced fl rows) (rescored-Sourced rows) fl st rk query
          (fuse fl expand fetch k weight top_k rows) rerank_k
          (fuse-Sourced fl expand fetch k weight top_k rows).0

    with_neighbours-AllSourced :
        (rows : List (Row F)) (a : Attempt (List (Row F)))
        → AllSourced rows (with_neighbours fl st rk sr query k weight top_k rerank_k rows a)
    with_neighbours-AllSourced rows (failed e) = tt
    with_neighbours-AllSourced rows (returned found) =
        with_contexts-AllSourced rows found (contexts fl st rk sr k weight top_k rows found)

    reached :
        (x : List F) (rows : List (Row F)) (a : Attempt (List (RetrievedChunk F)))
        → sr.embed_query query ≡ returned x
        → sr.hybrid_search x query line org as_of ≡ returned rows
        → AllSourced rows a
        → Reached a
    reached x rows (failed e) h g sourced = tt
    reached x rows (returned rs) h g sourced = (x, rows, h, g, sourced)

    answered :
        (x : List F) (rows : List (Row F))
        → sr.embed_query query ≡ returned x
        → sr.hybrid_search x query line org as_of ≡ returned rows
        → retrieve fl st rk sr query line org as_of k weight top_k rerank_k
          ≡ with_neighbours fl st rk sr query k weight top_k rerank_k rows
              (neighbours fl st rk sr rows)
    unfolding retrieve
    answered x rows h g =
        ap (with_embedding fl st rk sr query line org as_of k weight top_k rerank_k) h
        ∙ ap (with_rows fl st rk sr query k weight top_k rerank_k) g

    -- `retrieve` raises, or no cosine is changed or made up on the way to the agents, by no provider
    -- and no failure of it: each passage has the id and the cosine of a row that the search returned,
    -- or it is a neighbour in the graph that the search did not find, with a cosine of zero.
    pub retrieve-Reached :
        Reached (retrieve fl st rk sr query line org as_of k weight top_k rerank_k)
    unfolding retrieve
    retrieve-Reached = elim (Attempt-cases (sr.embed_query query)) [
      | inl (e, h) ↦ rw (h, retrieve) tt
      | inr (x, h) ↦ elim (Attempt-cases (sr.hybrid_search x query line org as_of)) [
        | inl (e, g) ↦ rw (h, g, retrieve) tt
        | inr (rows, g) ↦
            subst Reached (sym (answered x rows h g))
              (reached x rows _ h g (with_neighbours-AllSourced rows (neighbours fl st rk sr rows)))
      ]
    ]
