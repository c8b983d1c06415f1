-- ===== src/Models.antt =====
-- The data model (src/finance_rag/models.py). Floating-point numbers are a type `F` with the
-- operations that the program uses, a parameter of everything that computes with them.
use finance_rag.Prelude.{ℕ, Bool, false, Option, none, some, List, [], ◌∷◌, if◌then◌else◌, length}
use finance_rag.Text.{Text}

-- A type of floats: the constants, the tests and the arithmetic.
pub record Floats (F : Type 0) : Type 0 where
  pub zero : F
  pub one : F
  pub of_nat : ℕ → F
  pub lt : F → F → Bool
  pub eq : F → F → Bool
  pub add : F → F → F
  pub div : F → F → F

-- The keys of a metadata dictionary that some code reads. An absent key and one that holds None
-- read alike, through `meta.get(key)`.
pub record Metadata : Type 0 where
  pub title : Option Text
  pub source : Option Text
  pub service_line : Option Text
  pub jurisdiction : Option Text
  pub modality : Option Text
  pub level : Option Text
  pub parent_excerpt : Option Text
  pub fetched_at : Option Text
  pub published_date : Option Text
  pub effective_date : Option Text

abbrev pub no_metadata : Metadata
no_metadata = record {
  title = none;
  source = none;
  service_line = none;
  jurisdiction = none;
  modality = none;
  level = none;
  parent_excerpt = none;
  fetched_at = none;
  published_date = none;
  effective_date = none;
}

pub record Chunk : Type 0 where
  pub chunk_id : Text
  pub doc_id : Text
  pub content : Text
  pub index : ℕ
  pub tokens : ℕ
  pub section : Option Text
  pub parent_id : Option Text
  pub metadata : Metadata

pub record RetrievedChunk (F : Type 0) : Type 0 where
  pub chunk : Chunk
  pub score : F
  pub cosine : F
  pub rrf_score : F
  pub vector_score : F
  pub bm25_score : F
  pub graph_score : F
  pub rerank_score : Option F
  pub dense_rank : Option ℕ
  pub sparse_rank : Option ℕ
  pub graph_rank : Option ℕ

pub record Citation (F : Type 0) : Type 0 where
  pub chunk_id : Text
  pub doc_id : Text
  pub title : Text
  pub source : Text
  pub excerpt : Text
  pub score : F
  pub content : Text

pub record RetrievalMetrics (F : Type 0) : Type 0 where
  pub hit_rate : Option F
  pub mrr : Option F
  pub ndcg : Option F
  pub precision_at_k : Option F
  pub recall_at_k : Option F
  pub context_precision : Option F
  pub context_recall : Option F
  pub faithfulness : Option F
  pub answer_relevance : Option F
  pub citation_grounding : Option F
  pub citation_precision : Option F
  pub citation_recall : Option F
  pub hallucinated_citations : List Text
  pub latency_ms : Option ℕ
  pub num_retrieved : ℕ
  pub top_cosine : Option F
  pub mean_cosine : Option F
  pub min_cosine : Option F
  pub top_rerank_score : Option F
  pub avg_relevance : Option F
  pub refused : Bool

-- The values that the dataclass gives to what a constructor call leaves out.
abbrev pub unmeasured : {F : Type 0} → RetrievalMetrics F
unmeasured = record {
  hit_rate = none;
  mrr = none;
  ndcg = none;
  precision_at_k = none;
  recall_at_k = none;
  context_precision = none;
  context_recall = none;
  faithfulness = none;
  answer_relevance = none;
  citation_grounding = none;
  citation_precision = none;
  citation_recall = none;
  hallucinated_citations = [];
  latency_ms = none;
  num_retrieved = 0;
  top_cosine = none;
  mean_cosine = none;
  min_cosine = none;
  top_rerank_score = none;
  avg_relevance = none;
  refused = false;
}

-- `risk_score` is in tenths.
pub record GuardrailResult : Type 0 where
  pub allowed : Bool
  pub reasons : List Text
  pub sanitized_text : Option Text
  pub risk_score : ℕ
  pub cited_ids : List Text
  pub grounded_ids : List Text
  pub hallucinated_citations : List Text

pub record RagResponse (F : Type 0) : Type 0 where
  pub answer : Text
  pub citations : List (Citation F)
  pub confidence : F
  pub metrics : RetrievalMetrics F
  pub guardrails : List Text
  pub refused : Bool
  pub trace_id : Option Text
  pub cache_hit : Bool
  pub cache_layer : Option Text
  pub retrieved_ids : List Text

module _ {F : Type 0} where
  -- `[r.chunk.chunk_id for r in retrieved]`
  abbrev pub ids : List (RetrievedChunk F) → List Text
  ids [] = []
  ids (r ∷ rs) = r.chunk.chunk_id ∷ ids rs

  -- `[c.chunk_id for c in citations]`
  abbrev pub citation_ids : List (Citation F) → List Text
  citation_ids [] = []
  citation_ids (c ∷ cs) = c.chunk_id ∷ citation_ids cs

module _ {F : Type 0} (fl : Floats F) where
  -- `max(xs)` of a list that starts with `best`: the first of the greatest
  abbrev pub max_from : F → List F → F
  max_from best [] = best
  max_from best (x ∷ xs) = max_from (if fl.lt best x then x else best) xs

  abbrev pub min_from : F → List F → F
  min_from best [] = best
  min_from best (x ∷ xs) = min_from (if fl.lt x best then x else best) xs

  -- `sum(xs)`, from the left
  abbrev pub sum_from : F → List F → F
  sum_from acc [] = acc
  sum_from acc (x ∷ xs) = sum_from (fl.add acc x) xs

  -- `max(xs, default=0.0)`
  abbrev pub max_or_zero : List F → F
  max_or_zero [] = fl.zero
  max_or_zero (x ∷ xs) = max_from x xs

  -- `sum(xs) / len(xs) if xs else None`
  abbrev pub mean : List F → Option F
  mean [] = none
  mean (x ∷ xs) = some (fl.div (sum_from (fl.of_nat 0) (x ∷ xs)) (fl.of_nat (length (x ∷ xs))))
