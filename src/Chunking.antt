-- ===== src/Chunking.antt =====
-- Chunking (src/finance_rag/chunking/hierarchical.py): sections, tables, token windows, and the
-- chunks of a document.
pub mod Structure
pub mod Windows
pub mod Document
pub mod Runs
pub mod Indices
mod Tests
