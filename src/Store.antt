-- ===== src/Store.antt =====
-- The knowledge store (src/finance_rag/store/pgvector_store.py): the chunks and the links to
-- entities as lists of rows, and each SQL statement as a function on them.
pub mod Tables
pub mod Search
pub mod Rows
pub mod Upsert
pub mod Scope
mod Tests
