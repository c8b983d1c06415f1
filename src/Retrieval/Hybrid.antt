-- ===== src/Retrieval/Hybrid.antt =====
-- `HybridRetriever.retrieve` up to the reranker (src/finance_rag/retrieval/hybrid.py) with
-- `rrf_contribution` (src/finance_rag/retrieval/fusion.py). The store's three queries are
-- parameters; a dictionary of passages by chunk id is a list in the order of insertion.
use finance_rag.Prelude.{
  ℕ, suc, ◌+◌, Option, none, some, List, [], ◌∷◌, if◌then◌else◌, take, get_or, or_else, is_empty,
}
use finance_rag.Text.{Text, codes, text_eq}
use finance_rag.Text.Sorting.{sorted_set}
use finance_rag.Models.{Floats, Metadata, no_metadata, Chunk, RetrievedChunk, ids}
use finance_rag.Agent.Roles.{non_empty}

-- A row of the store. `metadata` is the decoded JSON column, none where it is no dictionary, and
-- `metadata_doc_id` is its `doc_id` key; a number that does not convert is none.
pub record Row (F : Type 0) : Type 0 where
  pub chunk_id : Text
  pub doc_id : Option Text
  pub content : Option Text
  pub chunk_index : Option ℕ
  pub tokens : Option ℕ
  pub section : Option Text
  pub parent_id : Option Text
  pub title : Option Text
  pub source : Option Text
  pub service_line : Option Text
  pub jurisdiction : Option Text
  pub modality : Option Text
  pub metadata : Option Metadata
  pub metadata_doc_id : Option Text
  pub rrf_score : Option F
  pub cosine : Option F
  pub dense_rrf : Option F
  pub sparse_rrf : Option F
  pub dense_rank : Option ℕ
  pub sparse_rank : Option ℕ

-- `a or b`, both read with `get`
abbrev either : Option Text → Option Text → Option Text
either a b = or_else (non_empty a) b

-- `_row_to_chunk`
unfoldable pub row_to_chunk : {F : Type 0} → Row F → Chunk
row_to_chunk row =
    let meta = get_or row.metadata no_metadata in
    record {
      chunk_id = row.chunk_id;
      doc_id = get_or (non_empty row.doc_id) (get_or row.metadata_doc_id []);
      content = get_or row.content [];
      index = get_or row.chunk_index 0;
      tokens = get_or row.tokens 0;
      section = row.section;
      parent_id = row.parent_id;
      metadata = record meta {
        title = either row.title meta.title;
        source = either row.source meta.source;
        service_line = either row.service_line meta.service_line;
        jurisdiction = either row.jurisdiction meta.jurisdiction;
        modality = some (get_or (non_empty (either row.modality meta.modality)) (codes "text"));
      };
    }

module _ {F : Type 0} where
  -- `by_id[r.chunk.chunk_id] = r`
  unfoldable pub put : RetrievedChunk F → List (RetrievedChunk F) → List (RetrievedChunk F)
  put r [] = r ∷ []
  put r (q ∷ qs) =
      let rest = put r qs in if text_eq r.chunk.chunk_id q.chunk.chunk_id then r ∷ qs else q ∷ rest

module _ {F : Type 0} (fl : Floats F) where
  -- A row of the search, scored.
  unfoldable pub scored : Row F → RetrievedChunk F
  scored row =
      let rrf = get_or row.rrf_score fl.zero in
      record {
        chunk = row_to_chunk row;
        score = rrf;
        cosine = get_or row.cosine fl.zero;
        rrf_score = rrf;
        vector_score = get_or row.dense_rrf fl.zero;
        bm25_score = get_or row.sparse_rrf fl.zero;
        graph_score = fl.zero;
        rerank_score = none;
        dense_rank = row.dense_rank;
        sparse_rank = row.sparse_rank;
        graph_rank = none;
      }

  -- The loop over the rows of the search.
  unfoldable pub collect_rows : List (RetrievedChunk F) → List (Row F) → List (RetrievedChunk F)
  collect_rows by_id [] = by_id
  collect_rows by_id (row ∷ rows) = collect_rows (put (scored row) by_id) rows

  -- `sorted(…, key=score, reverse=True)`, which keeps the order of equal scores
  unfoldable pub insert_by_score :
      RetrievedChunk F → List (RetrievedChunk F) → List (RetrievedChunk F)
  insert_by_score r [] = r ∷ []
  insert_by_score r (q ∷ qs) =
      let rest = insert_by_score r qs in if fl.lt r.score q.score then q ∷ rest else r ∷ q ∷ qs

  unfoldable pub sort_by_score : List (RetrievedChunk F) → List (RetrievedChunk F)
  sort_by_score [] = []
  sort_by_score (r ∷ rs) = insert_by_score r (sort_by_score rs)

  -- `rrf_contribution`, at a rank from 1 on
  abbrev pub rrf_contribution : ℕ → ℕ → F → F
  rrf_contribution rank k weight = fl.div weight (fl.of_nat (k + rank))

  -- A passage that the graph has found again.
  unfoldable pub boosted : ℕ → F → RetrievedChunk F → RetrievedChunk F
  boosted rank c r = record r {
    graph_score = c;
    graph_rank = some rank;
    score = fl.add r.score c;
    rrf_score = fl.add r.rrf_score c;
  }

  -- A passage that only the graph has found.
  unfoldable pub neighbour : ℕ → F → Row F → RetrievedChunk F
  neighbour rank c row = record {
    chunk = row_to_chunk row;
    score = c;
    cosine = fl.zero;
    rrf_score = c;
    vector_score = fl.zero;
    bm25_score = fl.zero;
    graph_score = c;
    rerank_score = none;
    dense_rank = none;
    sparse_rank = none;
    graph_rank = some rank;
  }

  -- One row of the expansion.
  unfoldable pub fold_neighbour : ℕ → F → Row F → List (RetrievedChunk F) → List (RetrievedChunk F)
  fold_neighbour rank c row [] = neighbour rank c row ∷ []
  fold_neighbour rank c row (q ∷ qs) =
      let rest = fold_neighbour rank c row qs in
      if text_eq row.chunk_id q.chunk.chunk_id then boosted rank c q ∷ qs else q ∷ rest

  unfoldable pub fold_neighbours :
      ℕ → ℕ → F → List (Row F) → List (RetrievedChunk F) → List (RetrievedChunk F)
  fold_neighbours rank k weight [] by_id = by_id
  fold_neighbours rank k weight (row ∷ rows) by_id =
      fold_neighbours (suc rank) k weight rows
        (fold_neighbour rank (rrf_contribution rank k weight) row by_id)

  -- `_apply_graph_ranker`; `expand` is the store's expansion of the seeds.
  unfoldable pub apply_graph_ranker :
      (List Text → List (Row F)) → ℕ → F → List (RetrievedChunk F) → List (RetrievedChunk F)
  apply_graph_ranker expand k weight by_id =
      let seeds = ids (take 8 (sort_by_score by_id)) in
      if is_empty seeds then by_id else fold_neighbours 1 k weight (expand seeds) by_id

-- `{p["chunk_id"]: p for p in …}[pid]`: of two rows with one id, the last
unfoldable pub parent_of : List (Text × Option Text) → Text → Option (Option Text)
parent_of [] pid = none
parent_of (p ∷ ps) pid = elim (parent_of ps pid) [
  | some t ↦ some t
  | none ↦ if text_eq p.0 pid then some p.1 else none
]

module _ {F : Type 0} where
  -- `{r.chunk.parent_id for r in fused if r.chunk.parent_id}`
  unfoldable pub parent_ids : List (RetrievedChunk F) → List Text
  parent_ids [] = []
  parent_ids (r ∷ rs) =
      let rest = parent_ids rs in
      elim (non_empty r.chunk.parent_id) [ none ↦ rest | some p ↦ p ∷ rest ]

  -- A passage with the excerpt of its section, where there is one.
  unfoldable pub with_parent : List (Text × Option Text) → RetrievedChunk F → RetrievedChunk F
  with_parent parents r = elim (non_empty r.chunk.parent_id) [
    | none ↦ r
    | some pid ↦ elim (parent_of parents pid) [
      | none ↦ r
      | some t ↦ record r {
        chunk = record r.chunk {
          metadata = record r.chunk.metadata { parent_excerpt = some (take 1200 (get_or t [])) };
        };
      }
    ]
  ]

  unfoldable pub with_parents :
      List (Text × Option Text) → List (RetrievedChunk F) → List (RetrievedChunk F)
  with_parents parents [] = []
  with_parents parents (r ∷ rs) = with_parent parents r ∷ with_parents parents rs

  -- `_attach_parent_context`; `fetch` is the store's query, given a set.
  unfoldable pub attach_parent_context :
      (List Text → List (Text × Option Text)) → List (RetrievedChunk F) → List (RetrievedChunk F)
  attach_parent_context fetch fused =
      let wanted = sorted_set (parent_ids fused) in
      if is_empty wanted then fused else with_parents (fetch wanted) fused

module _ {F : Type 0} (fl : Floats F) where
  -- What `retrieve` hands to the reranker, from the rows of the search.
  unfoldable pub fuse :
      (List Text → List (Row F))
      → (List Text → List (Text × Option Text))
      → ℕ
      → F
      → ℕ
      → List (Row F)
      → List (RetrievedChunk F)
  fuse expand fetch k weight top_k rows = attach_parent_context fetch (
      take top_k
        (sort_by_score fl (apply_graph_ranker fl expand k weight (collect_rows fl [] rows))))
