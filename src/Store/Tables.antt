-- ===== src/Store/Tables.antt =====
-- The tables of the knowledge store and the statements that write them
-- (src/finance_rag/store/pgvector_store.py).
use finance_rag.Prelude.{
  ℕ, ◌+◌, ◌-◌, ◌*◌, ◌%◌, Bool, ◌&&◌, ◌||◌, not, Option, none, some, List, [], ◌∷◌, ◌++◌,
  if◌then◌else◌, leb, ◌==◌, length, get_or, is_empty, any_of,
}
use finance_rag.Text.{Text, codes, text_eq, is_digit, strip}
use finance_rag.Text.Sorting.{sorted_set}
use finance_rag.Config.{Settings}
use finance_rag.Models.{Metadata, Chunk}
use finance_rag.Guardrails.Answerability.{Attempt, returned, failed}
use finance_rag.Agent.Roles.{non_empty}

-- A row of `chunks`. Dates are kept as ISO text, which orders as they do.
pub record Stored (F : Type 0) : Type 0 where
  pub chunk_id : Text
  pub doc_id : Text
  pub parent_id : Option Text
  pub content : Text
  pub chunk_index : ℕ
  pub tokens : ℕ
  pub section : Option Text
  pub level : Text
  pub title : Option Text
  pub source : Option Text
  pub service_line : Option Text
  pub jurisdiction : Option Text
  pub modality : Text
  pub metadata : Metadata
  pub embedding : List F
  pub org_id : Text
  pub effective_date : Option Text
  pub superseded_date : Option Text

-- A chunk with its embedding, empty where it has none.
pub record Embedded (F : Type 0) : Type 0 where
  pub chunk : Chunk
  pub embedding : List F

-- The tables: the chunks, and the pairs of a chunk and an entity that it mentions.
pub record Tables (F : Type 0) : Type 0 where
  pub chunks : List (Stored F)
  pub links : List (Text × Text)

abbrev pub digit : ℕ → ℕ
digit c = c - b'0'

abbrev pub leap : ℕ → Bool
leap y = (y % 4 == 0) && (not (y % 100 == 0) || (y % 400 == 0))

-- The number of days of a month.
unfoldable pub month_days : ℕ → ℕ → ℕ
month_days y m =
    if m == 2
    then (if leap y then 29 else 28)
    else if (m == 4) || ((m == 6) || ((m == 9) || (m == 11)))
    then 30
    else 31

-- `date.fromisoformat` accepts year, month and day.
unfoldable pub is_date : ℕ → ℕ → ℕ → Bool
is_date y m d = leb 1 y && leb 1 m && leb m 12 && leb 1 d && leb d (month_days y m)

-- `_coerce_date`: a text of the shape of an ISO date is read, which raises for a day that is none
unfoldable pub coerce_iso : Text → Attempt (Option Text)
coerce_iso (a ∷ b ∷ c ∷ d ∷ p ∷ e ∷ f ∷ q ∷ g ∷ h ∷ []) =
    let year = 1000 * digit a + 100 * digit b + 10 * digit c + digit d in
    let iso = a ∷ b ∷ c ∷ d ∷ p ∷ e ∷ f ∷ q ∷ g ∷ h ∷ [] in
    let shaped =
      is_digit a
      && is_digit b
      && is_digit c
      && is_digit d
      && (p == b'-')
      && is_digit e
      && is_digit f
      && (q == b'-')
      && is_digit g
      && is_digit h in
    if not shaped
    then returned none
    else if is_date year (10 * digit e + digit f) (10 * digit g + digit h)
    then returned (some iso)
    else failed (codes "ValueError")
coerce_iso _ = returned none

unfoldable pub coerce_date : Option Text → Attempt (Option Text)
unfolding strip
coerce_date none = returned none
coerce_date (some t) = coerce_iso (strip t)

module _ {F : Type 0} where
  -- The row of a chunk for this tenant.
  unfoldable pub row_of : Text → Embedded F → Option Text → Stored F
  row_of org e effective = record {
    chunk_id = e.chunk.chunk_id;
    doc_id = e.chunk.doc_id;
    parent_id = e.chunk.parent_id;
    content = e.chunk.content;
    chunk_index = e.chunk.index;
    tokens = e.chunk.tokens;
    section = e.chunk.section;
    level = get_or e.chunk.metadata.level (codes "child");
    title = e.chunk.metadata.title;
    source = e.chunk.metadata.source;
    service_line = e.chunk.metadata.service_line;
    jurisdiction = e.chunk.metadata.jurisdiction;
    modality = get_or e.chunk.metadata.modality (codes "text");
    metadata = e.chunk.metadata;
    embedding = e.embedding;
    org_id = org;
    effective_date = effective;
    superseded_date = none;
  }

  -- A row that follows the rows of the chunks behind it, or the exception of the first that raises.
  abbrev pub before :
      Attempt (Option Text)
      → (Option Text → Stored F)
      → Attempt (List (Stored F))
      → Attempt (List (Stored F))
  before (failed e) row rest = failed e
  before (returned d) row (failed e) = failed e
  before (returned d) row (returned rows) = returned (row d ∷ rows)

  -- The loop of `upsert_chunks`: chunks without an embedding are skipped, and one of another width
  -- raises.
  unfoldable pub rows_of : ℕ → Text → List (Embedded F) → Attempt (List (Stored F))
  rows_of dim org [] = returned []
  rows_of dim org (e ∷ es) =
      let rest = rows_of dim org es in
      if is_empty e.embedding
      then rest
      else if not (length e.embedding == dim)
      then failed (codes "ValueError")
      else before (coerce_date e.chunk.metadata.effective_date) (row_of org e) rest

  -- `INSERT … ON CONFLICT (chunk_id) DO UPDATE`: everything but `superseded_date` is overwritten.
  unfoldable pub upsert_row : Stored F → List (Stored F) → List (Stored F)
  upsert_row r [] = r ∷ []
  upsert_row r (c ∷ cs) =
      let rest = upsert_row r cs in
      if text_eq r.chunk_id c.chunk_id
      then record r { superseded_date = c.superseded_date } ∷ cs
      else c ∷ rest

  unfoldable pub upsert_rows : List (Stored F) → List (Stored F) → List (Stored F)
  upsert_rows [] cs = cs
  upsert_rows (r ∷ rs) cs = upsert_rows rs (upsert_row r cs)

  abbrev pub write_rows : Tables F → Attempt (List (Stored F)) → Attempt ℕ × Tables F
  write_rows t (failed e) = (failed e, t)
  write_rows t (returned rows) =
      (returned (length rows), record t { chunks = upsert_rows rows t.chunks })

  -- `upsert_chunks`, with the width of the embeddings
  unfoldable pub upsert_chunks :
      Settings → ℕ → List (Embedded F) → Option Text → Tables F → Attempt ℕ × Tables F
  upsert_chunks st dim chunks org_id t =
      write_rows t (rows_of dim (get_or (non_empty org_id) st.default_org_id) chunks)

  -- `SELECT … FROM chunks WHERE chunk_id = …`
  unfoldable pub find_chunk : Text → List (Stored F) → Option (Stored F)
  find_chunk d [] = none
  find_chunk d (c ∷ cs) =
      let rest = find_chunk d cs in if text_eq d c.chunk_id then some c else rest

-- `link_entities`: the chunk mentions these entities
unfoldable pub insert_links : {F : Type 0} → Text → List Text → Tables F → Tables F
insert_links chunk_id [] t = t
insert_links chunk_id (e ∷ es) t =
    let known = any_of (λ l. text_eq l.0 chunk_id && text_eq l.1 e) t.links in
    insert_links chunk_id es
      (if known then t else record t { links = t.links ++ ((chunk_id, e) ∷ []) })

-- `sorted({e.strip() for e in entities if e and e.strip()})`
unfoldable pub entity_names : List Text → List Text
entity_names [] = []
entity_names (e ∷ es) =
    let rest = entity_names es in if is_empty (strip e) then rest else strip e ∷ rest

unfoldable pub link_entities : {F : Type 0} → Text → List Text → Tables F → Tables F
link_entities chunk_id entities t = insert_links chunk_id (sorted_set (entity_names entities)) t
