-- ===== src/SingleAgent.antt =====
-- The single agent with its answer cache: `FinanceRAGAgent` (src/finance_rag/agent/graph.py). The
-- models, the retriever and the clock are parameters.
pub mod Nodes
pub mod Ask
pub mod Laws
pub mod Caching
pub mod Repeats
pub mod Blocked
mod Tests
