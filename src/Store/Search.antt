-- ===== src/Store/Search.antt =====
-- The queries of the knowledge store (src/finance_rag/store/pgvector_store.py). Full-text search and
-- the cosine distance are PostgreSQL's, and parameters.
use finance_rag.Prelude.{
  ℕ, Bool, true, false, ◌&&◌, not, Option, none, some, List, [], ◌∷◌, if◌then◌else◌, ltb, length,
  take, get_or, is_empty, keep, any_of, sort_by,
}
use finance_rag.Text.{Text, codes, text_eq, text_lt, member}
use finance_rag.Text.Sorting.{sorted_set}
use finance_rag.Config.{Settings}
use finance_rag.Models.{Floats}
use finance_rag.Agent.Roles.{non_empty}
use finance_rag.Retrieval.Fusion.{FusedRow, Numeric, full_join, fused_score}
use finance_rag.Store.Tables.{Stored, Tables, find_chunk}

module _ {F : Type 0} where
  -- `_scope_predicates`
  unfoldable pub in_scope : Text → Option Text → Stored F → Bool
  in_scope org none c = text_eq c.org_id org
  in_scope org (some as_of) c =
      text_eq c.org_id org
      && elim c.effective_date [ none ↦ true | some e ↦ not (text_lt as_of e) ]
      && elim c.superseded_date [ none ↦ true | some s ↦ text_lt as_of s ]

  -- The condition that both rankers put on a chunk.
  unfoldable pub eligible : Text → Option Text → Option Text → Stored F → Bool
  eligible org as_of service_line c =
      text_eq c.level (codes "child") && in_scope org as_of c && elim service_line [
        | none ↦ true
        | some line ↦ elim c.service_line [ none ↦ false | some l ↦ text_eq l line ]
      ]

  unfoldable pub chunk_ids : List (Stored F) → List Text
  chunk_ids [] = []
  chunk_ids (c ∷ cs) = c.chunk_id ∷ chunk_ids cs

-- What PostgreSQL computes of a chunk for a query: its cosine distance, whether its words match,
-- and the rank of the match.
pub record Query (F : Type 0) : Type 0 where
  pub distance : Stored F → F
  pub matches : Stored F → Bool
  pub ts_rank : Stored F → F

-- A row of the result: the chunk, and its row in the fusion.
pub record Hit (F : Type 0) : Type 0 where
  pub stored : Stored F
  pub fused : FusedRow

module _ {F : Type 0} where
  -- `fused f JOIN chunks c ON c.chunk_id = f.chunk_id`
  unfoldable pub join_chunks : List FusedRow → List (Stored F) → List (Hit F)
  join_chunks [] cs = []
  join_chunks (f ∷ fs) cs =
      let rest = join_chunks fs cs in
      elim (find_chunk f.chunk_id cs) [
        | none ↦ rest
        | some c ↦ record { stored = c; fused = f } ∷ rest
      ]

module _ {F : Type 0} (fl : Floats F) (q : Query F) where
  -- The common table expression `dense`.
  unfoldable pub dense : ℕ → Text → Option Text → Option Text → List (Stored F) → List (Stored F)
  dense candidates org as_of line cs = take candidates (
      sort_by (λ a b. fl.lt (q.distance b) (q.distance a))
        (keep (λ c. not (is_empty c.embedding) && eligible org as_of line c) cs))

  -- The common table expression `sparse`.
  unfoldable pub sparse : ℕ → Text → Option Text → Option Text → List (Stored F) → List (Stored F)
  sparse candidates org as_of line cs = take candidates (
      sort_by (λ a b. fl.lt (q.ts_rank a) (q.ts_rank b))
        (keep (λ c. q.matches c && eligible org as_of line c) cs))

module _ {F N : Type 0} (fl : Floats F) (nu : Numeric N) (q : Query F) where
  -- `hybrid_search_rrf`
  unfoldable pub hybrid_search_rrf :
      Settings → ℕ → ℕ → ℕ → Option Text → Option Text → Option Text → Tables F → List (Hit F)
  hybrid_search_rrf st candidates k top_k service_line org_id as_of t =
      let org = get_or (non_empty org_id) st.default_org_id in
      let fused =
        full_join (chunk_ids (dense fl q candidates org as_of service_line t.chunks))
          (chunk_ids (sparse fl q candidates org as_of service_line t.chunks)) in
      take top_k (
        sort_by (λ a b. nu.lt (fused_score nu k a.fused) (fused_score nu k b.fused))
          (join_chunks fused t.chunks))

-- The entities of some chunks.
unfoldable pub entities_of : List Text → List (Text × Text) → List Text
entities_of seeds [] = []
entities_of seeds (l ∷ ls) =
    let rest = entities_of seeds ls in if member l.0 seeds then l.1 ∷ rest else rest

module _ {F : Type 0} where
  -- `COUNT(DISTINCT seed.entity_id)` of a chunk
  unfoldable pub shared_count : List Text → List (Text × Text) → Stored F → ℕ
  shared_count seeds links c = length (
      sorted_set (
        keep (λ e. any_of (λ l. text_eq l.0 c.chunk_id && text_eq l.1 e) links)
          (entities_of seeds links)))

  -- `graph_expand`
  unfoldable pub graph_expand : List Text → ℕ → Tables F → List (Stored F)
  graph_expand seeds limit t = take limit (
      sort_by (λ a b. ltb (shared_count seeds t.links a) (shared_count seeds t.links b))
        (keep
          (λ c.
            not (member c.chunk_id seeds)
            && text_eq c.level (codes "child")
            && ltb 0 (shared_count seeds t.links c))
          t.chunks))

  -- `fetch_parent_context`
  unfoldable pub fetch_parent_context : List Text → Tables F → List (Stored F)
  fetch_parent_context parent_ids t = keep (λ c. member c.chunk_id parent_ids) t.chunks
