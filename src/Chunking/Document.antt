-- ===== src/Chunking/Document.antt =====
-- `chunk_document` and `chunk_corpus` (src/finance_rag/chunking/hierarchical.py).
use finance_rag.Prelude.{
  ℕ, suc, Bool, Option, none, some, List, [], ◌∷◌, ◌++◌, if◌then◌else◌, ltb, min, take,
}
use finance_rag.Text.{Text, codes}
use finance_rag.Text.Decimal.{decimal}
use finance_rag.Config.{Settings}
use finance_rag.Models.{Metadata, Chunk}
use finance_rag.Chunking.Structure.{split_off_tables, split_by_structure}
use finance_rag.Chunking.Windows.{Tokenizer, count_tokens, recursive_token_split}

-- `DocumentMeta`: the id, and the keys of `asdict(meta)` that some code reads. It has neither a
-- level nor a modality.
pub record DocumentMeta : Type 0 where
  pub doc_id : Text
  pub metadata : Metadata

module _ (tk : Tokenizer) where
  -- `_chunk_id`
  unfoldable pub chunk_id : Text → ℕ → Text → Text
  chunk_id doc_id index text =
      doc_id
      ++ (codes "_"
          ++ take 16 (
              tk.sha256 (doc_id ++ (codes ":" ++ (decimal index ++ (codes ":" ++ take 120 text))))))

  unfoldable pub parent_chunk : DocumentMeta → ℕ → Option Text → Text → Chunk
  parent_chunk meta index section body = record {
    chunk_id = chunk_id meta.doc_id index (take 200 body);
    doc_id = meta.doc_id;
    content = take 4000 body;
    index = index;
    tokens = min (count_tokens tk body) (count_tokens tk (take 4000 body));
    section = section;
    parent_id = none;
    metadata = record meta.metadata { level = some (codes "parent") };
  }

  unfoldable pub child_chunk : DocumentMeta → ℕ → Option Text → Option Text → Text × Text → Chunk
  child_chunk meta index section parent_id child = record {
    chunk_id = chunk_id meta.doc_id index child.0;
    doc_id = meta.doc_id;
    content = child.0;
    index = index;
    tokens = count_tokens tk child.0;
    section = section;
    parent_id = parent_id;
    metadata = record meta.metadata { level = some (codes "child"); modality = some child.1 };
  }

  unfoldable pub as_text : List Text → List (Text × Text)
  as_text [] = []
  as_text (p ∷ ps) = (p, codes "text") ∷ as_text ps

  -- The children of a section: a table whole, other text in windows.
  unfoldable pub child_texts : Settings → List (Bool × Text) → List (Text × Text)
  child_texts st [] = []
  child_texts st (g ∷ gs) =
      let rest = child_texts st gs in
      if g.0
      then (g.1, codes "table") ∷ rest
      else as_text (recursive_token_split tk g.1 st.chunk_size st.chunk_overlap) ++ rest

  -- The inner loop, from an index: the chunks, and the index that comes next.
  unfoldable pub emit_children :
      DocumentMeta → Option Text → Option Text → ℕ → List (Text × Text) → List Chunk × ℕ
  emit_children meta section parent_id index [] = ([], index)
  emit_children meta section parent_id index (t ∷ ts) =
      let (cs, next) = emit_children meta section parent_id (suc index) ts in
      (child_chunk meta index section parent_id t ∷ cs, next)

  -- One round of the outer loop.
  unfoldable pub emit_section : Settings → DocumentMeta → ℕ → Option Text × Text → List Chunk × ℕ
  emit_section st meta index section =
      let texts = child_texts st (split_off_tables section.1) in
      let parent = parent_chunk meta index section.0 section.1 in
      let (cs, next) = emit_children meta section.0 (some parent.chunk_id) (suc index) texts in
      let (orphans, next_orphan) = emit_children meta section.0 none index texts in
      if ltb 0 (count_tokens tk section.1) then (parent ∷ cs, next) else (orphans, next_orphan)

  unfoldable pub emit_sections :
      Settings → DocumentMeta → ℕ → List (Option Text × Text) → List Chunk
  emit_sections st meta index [] = []
  emit_sections st meta index (s ∷ ss) =
      let (cs, next) = emit_section st meta index s in cs ++ emit_sections st meta next ss

  -- `chunk_document`
  unfoldable pub chunk_document : Settings → Text → DocumentMeta → List Chunk
  chunk_document st text meta = emit_sections st meta 0 (split_by_structure text)

  -- `chunk_corpus`
  unfoldable pub chunk_corpus : Settings → List (Text × DocumentMeta) → List Chunk
  chunk_corpus st [] = []
  chunk_corpus st (d ∷ ds) = chunk_document st d.0 d.1 ++ chunk_corpus st ds
