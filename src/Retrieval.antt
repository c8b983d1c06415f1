-- ===== src/Retrieval.antt =====
-- Retrieval (src/finance_rag/retrieval): the hybrid retriever up to the reranker.
pub mod Hybrid
pub mod Candidates
pub mod Distinct
pub mod Fusion
pub mod FusionLaws
pub mod Tests
