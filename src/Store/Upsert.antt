-- ===== src/Store/Upsert.antt =====
-- What a call of `upsert_chunks` does to the table, all or nothing
-- (src/finance_rag/store/pgvector_store.py).
use finance_rag.Prelude.{
  ℕ, ◌≡◌, ◌≢◌, ◌⊎◌, true, false, Option, none, List, [], ◌∷◌, length, is_empty, In,
}
use finance_rag.Text.{Text}
use finance_rag.Guardrails.Answerability.{Attempt, returned, failed}
use finance_rag.Store.Tables.{Stored, Embedded, Tables, coerce_date, find_chunk}
use finance_rag.Store.Rows.{put_all}

-- The row of a chunk for a tenant, in force from a date on.
pub record IsRow {F : Type 0} (org : Text) (e : Embedded F) (day : Option Text) (r : Stored F)
    : Type 0 where
  pub same_id : r.chunk_id ≡ e.chunk.chunk_id
  pub same_doc : r.doc_id ≡ e.chunk.doc_id
  pub same_parent : r.parent_id ≡ e.chunk.parent_id
  pub same_content : r.content ≡ e.chunk.content
  pub same_embedding : r.embedding ≡ e.embedding
  pub of_tenant : r.org_id ≡ org
  pub from_day : r.effective_date ≡ day
  pub not_ended : r.superseded_date ≡ none

-- The chunk can be stored: its embedding has the width of the table, and its date is one or none.
pub record CanStore {F : Type 0} (dim : ℕ) (e : Embedded F) (day : Option Text) : Type 0 where
  pub embedded : is_empty e.embedding ≡ false
  pub wide : length e.embedding ≡ dim
  pub dated : coerce_date e.chunk.metadata.effective_date ≡ returned day

-- The chunk has an embedding, of another width or with a date that is none.
abbrev pub CannotStore : {F : Type 0} → ℕ → Embedded F → Type 0
CannotStore dim e =
    (is_empty e.embedding ≡ false)
    × ((length e.embedding ≢ dim)
        ⊎ ((m : Text) × (coerce_date e.chunk.metadata.effective_date ≡ failed m)))

-- The rows of the chunks that have an embedding, in their order; each of them can be stored.
pub data Rows {F : Type 0} (dim : ℕ) (org : Text)
    : List (Embedded F) → List (Stored F) → Type 0 where
  no_rows : Rows dim org [] []
  skipped :
      (e : Embedded F) (es : List (Embedded F)) (rs : List (Stored F))
      → is_empty e.embedding ≡ true
      → Rows dim org es rs
      → Rows dim org (e ∷ es) rs
  stored :
      (e : Embedded F) (es : List (Embedded F)) (day : Option Text) (r : Stored F)
      (rs : List (Stored F))
      → CanStore dim e day
      → IsRow org e day r
      → Rows dim org es rs
      → Rows dim org (e ∷ es) (r ∷ rs)

module _ {F : Type 0} (dim : ℕ) (org : Text) where
  -- How the loop comes out.
  abbrev Outcome : List (Embedded F) → Attempt (List (Stored F)) → Type 0
  Outcome es (failed m) = (e : Embedded F) × In e es × CannotStore dim e
  Outcome es (returned rows) = Rows dim org es rows

  -- What the call returns and what the table holds then, read as a map from ids to rows.
  abbrev pub Wrote : Tables F → List (Embedded F) → Attempt ℕ × Tables F → Type 0
  Wrote t es (failed m, after) = (after ≡ t) × ((e : Embedded F) × In e es × CannotStore dim e)
  Wrote t es (returned n, after) =
      (rows : List (Stored F)) × Rows dim org es rows
      × (n ≡ length rows)
      × ((λ d. find_chunk d after.chunks) ≡ put_all rows (λ d. find_chunk d t.chunks))
