-- ===== src/Samples.antt =====
-- Test data that the tests of several modules share.
use finance_rag.Prelude.{ℕ, ◌+◌, ◌/◌, false, Option, none, some, [], ◌∷◌, ltb, ◌==◌}
use finance_rag.Text.{Text, codes}
use finance_rag.Retrieval.Hybrid.{Row}
use finance_rag.Models.{Floats, RetrievedChunk, RagResponse, no_metadata, unmeasured}

-- Natural numbers in the place of floats.
abbrev pub bits : Floats ℕ
bits = record {
  zero = 0;
  one = 1;
  of_nat = λ n. n;
  lt = ltb;
  eq = λ a b. a == b;
  add = λ a b. a + b;
  div = λ a b. a / b;
}

-- A retrieved passage with this id and text.
abbrev pub passage : Text → Text → RetrievedChunk ℕ
passage key content = record {
  chunk = record {
    chunk_id = key;
    doc_id = codes "doc";
    content = content;
    index = 0;
    tokens = 4;
    section = none;
    parent_id = none;
    metadata = no_metadata;
  };
  score = 7;
  cosine = 8;
  rrf_score = 1;
  vector_score = 1;
  bm25_score = 1;
  graph_score = 0;
  rerank_score = some 9;
  dense_rank = some 1;
  sparse_rank = none;
  graph_rank = none;
}

-- A response that is no refusal.
abbrev pub answered : RagResponse ℕ
answered = record {
  answer = codes "Wages count [c1].";
  citations = [];
  confidence = 8;
  metrics = unmeasured;
  guardrails = [];
  refused = false;
  trace_id = some (codes "t1");
  cache_hit = false;
  cache_layer = none;
  retrieved_ids = codes "c1" ∷ [];
}

-- A row of the search with this id, score and cosine.
abbrev pub row : Text → Option ℕ → Row ℕ
row key score = record {
  chunk_id = key;
  doc_id = none;
  content = some (codes "wages");
  chunk_index = none;
  tokens = none;
  section = none;
  parent_id = none;
  title = none;
  source = none;
  service_line = none;
  jurisdiction = none;
  modality = none;
  metadata = none;
  metadata_doc_id = none;
  rrf_score = score;
  cosine = score;
  dense_rrf = none;
  sparse_rrf = none;
  dense_rank = none;
  sparse_rank = none;
}
