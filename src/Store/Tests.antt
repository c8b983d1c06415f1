-- ===== src/Store/Tests.antt =====
-- A table with the chunks of two tenants, and the theorems applied to it.
use finance_rag.Prelude.{
  ◌/◌, ◌+◌, ltb, ℕ, ◌≡◌, refl, true, Option, none, some, List, [], ◌∷◌, keep, All,
}
use finance_rag.Samples.{bits, passage}
use finance_rag.Text.{
  Text, codes, text_eq, text_lt, is_space, strip, strip_left, strip_right, member,
}
use finance_rag.Text.Sorting.{insert_sorted, sorted_set}
use finance_rag.Config.{defaults}
use finance_rag.Models.{no_metadata}
use finance_rag.Guardrails.Answerability.{failed}
use finance_rag.Retrieval.Fusion.{
  rank_from, dense_rows, sparse_rows, full_join, rrf_of, Numeric, fused_score,
}
use finance_rag.Store.Tables.{
  Embedded, Tables, month_days, is_date, coerce_iso, coerce_date, row_of, rows_of, upsert_row,
  upsert_rows, upsert_chunks, find_chunk, insert_links, entity_names, link_entities,
}
use finance_rag.Store.Search.{
  in_scope, eligible, chunk_ids, Query, Hit, dense, sparse, join_chunks, hybrid_search_rrf,
  entities_of, shared_count, graph_expand,
}
use finance_rag.Store.Rows.{IsKeyed}
use finance_rag.Store.Scope.{IsVisible, hybrid_search_rrf-IsVisible}

abbrev chunk : Text → Option Text → Embedded ℕ
chunk key effective = record {
  chunk = record (passage key (codes "wages")).chunk {
    metadata = record no_metadata { effective_date = effective };
  };
  embedding = 1 ∷ 2 ∷ [];
}

abbrev blank : Tables ℕ
blank = record { chunks = []; links = [] }

-- The chunks of two tenants that mention one entity.
abbrev shared : Tables ℕ
shared = link_entities (codes "b1") (codes "LIFO" ∷ []) (
    link_entities (codes "a1") (codes "LIFO" ∷ []) (
      (upsert_chunks defaults 2 (chunk (codes "b1") none ∷ []) (some (codes "beta"))
        (upsert_chunks defaults 2 (chunk (codes "a1") (some (codes "2024-01-31")) ∷ [])
          (some (codes "acme")) blank).1).1))

-- Reciprocals in ten-thousandths.
abbrev cents : Numeric ℕ
cents = record { zero = 0; reciprocal = λ n. 10000 / n; add = λ x y. x + y; lt = ltb }

abbrev query : Query ℕ
query = record { distance = λ c. 3; matches = λ c. true; ts_rank = λ c. 4 }

abbrev ids_of : List (Hit ℕ) → List Text
ids_of [] = []
ids_of (h ∷ hs) = h.stored.chunk_id ∷ ids_of hs

-- A search of one tenant finds its own chunk only, and from there the expansion over the entities
-- reaches the chunk of the other tenant.
acme_finds :
    ids_of (
      hybrid_search_rrf bits cents query defaults 50 60 12 none
        (some (codes "acme"))
        (some (codes "2024-05-01"))
        shared)
    ≡ codes "a1" ∷ []
unfolding text_eq text_lt is_space strip strip_left strip_right member insert_sorted sorted_set
    rank_from dense_rows sparse_rows full_join rrf_of fused_score month_days is_date coerce_iso
    coerce_date row_of rows_of upsert_row upsert_rows upsert_chunks find_chunk insert_links
    entity_names link_entities in_scope eligible chunk_ids dense sparse join_chunks
    hybrid_search_rrf entities_of shared_count graph_expand
acme_finds = refl

acme_expands : chunk_ids (graph_expand (codes "a1" ∷ []) 8 shared) ≡ codes "b1" ∷ []
unfolding text_eq text_lt is_space strip strip_left strip_right member insert_sorted sorted_set
    rank_from dense_rows sparse_rows full_join rrf_of fused_score month_days is_date coerce_iso
    coerce_date row_of rows_of upsert_row upsert_rows upsert_chunks find_chunk insert_links
    entity_names link_entities in_scope eligible chunk_ids dense sparse join_chunks
    hybrid_search_rrf entities_of shared_count graph_expand
acme_expands = refl

-- A chunk that comes with the id of another tenant's chunk takes its place.
overwritten :
    chunk_ids (
      keep
        (in_scope (codes "acme") none)
        (upsert_chunks defaults 2
          (chunk (codes "a1") none ∷ [])
          (some (codes "beta"))
          shared).1.chunks)
    ≡ []
unfolding text_eq text_lt is_space strip strip_left strip_right member insert_sorted sorted_set
    rank_from dense_rows sparse_rows full_join rrf_of fused_score month_days is_date coerce_iso
    coerce_date row_of rows_of upsert_row upsert_rows upsert_chunks find_chunk insert_links
    entity_names link_entities in_scope eligible chunk_ids dense sparse join_chunks
    hybrid_search_rrf entities_of shared_count graph_expand
overwritten = refl

-- A day that no month has raises.
no_such_day : coerce_date (some (codes "2024-02-30")) ≡ failed (codes "ValueError")
unfolding text_eq text_lt is_space strip strip_left strip_right member insert_sorted sorted_set
    rank_from dense_rows sparse_rows full_join rrf_of fused_score month_days is_date coerce_iso
    coerce_date row_of rows_of upsert_row upsert_rows upsert_chunks find_chunk insert_links
    entity_names link_entities in_scope eligible chunk_ids dense sparse join_chunks
    hybrid_search_rrf entities_of shared_count graph_expand
no_such_day = refl

IsKeyed-shared : IsKeyed shared.chunks
unfolding text_eq text_lt is_space strip strip_left strip_right member insert_sorted sorted_set
    rank_from dense_rows sparse_rows full_join rrf_of fused_score month_days is_date coerce_iso
    coerce_date row_of rows_of upsert_row upsert_rows upsert_chunks find_chunk insert_links
    entity_names link_entities in_scope eligible chunk_ids dense sparse join_chunks
    hybrid_search_rrf entities_of shared_count graph_expand
IsKeyed-shared = (refl, (refl, tt))

hybrid_search_rrf-IsVisible_example :
    All
      (λ h. IsVisible (codes "acme") (some (codes "2024-05-01")) none h.stored)
      (hybrid_search_rrf bits cents query defaults 50 60 12 none
        (some (codes "acme"))
        (some (codes "2024-05-01"))
        shared)
hybrid_search_rrf-IsVisible_example =
    hybrid_search_rrf-IsVisible bits cents query defaults 50 60 12 none (some (codes "acme"))
      (some (codes "2024-05-01")) shared IsKeyed-shared
