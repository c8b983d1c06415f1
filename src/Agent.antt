-- ===== src/Agent.antt =====
-- The multi-agent orchestrator (src/finance_rag/agent/orchestrator.py) and two of its roles
-- (src/finance_rag/agent/roles.py).
pub mod Roles
pub mod State
pub mod Nodes
pub mod Compliance
pub mod Graph
pub mod Invariants
pub mod Termination
pub mod Safety
pub mod Cost
pub mod Answers
pub mod Entry
pub mod WebText
pub mod Web
mod WebTests
pub mod Tests
