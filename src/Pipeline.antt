-- ===== src/Pipeline.antt =====
-- The indexing pipeline (src/finance_rag/pipeline): its jobs.
pub mod Jobs
