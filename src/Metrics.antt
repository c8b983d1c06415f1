-- ===== src/Metrics.antt =====
-- Metrics of retrieval and citation (src/finance_rag/metrics/retrieval_metrics.py).
pub mod Online
pub mod Offline
