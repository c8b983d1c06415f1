-- ===== src/Guardrails.antt =====
-- The input and output guardrails (src/finance_rag/guardrails/pipeline.py) and the answerability
-- gate (src/finance_rag/guardrails/answerability.py).
pub mod Patterns
pub mod Input
pub mod Output
pub mod Answerability
pub mod InputLaws
pub mod Scan
pub mod OutputLaws
pub mod Tests
