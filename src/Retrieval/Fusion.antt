-- ===== src/Retrieval/Fusion.antt =====
-- `reciprocal_rank_fusion` (src/finance_rag/retrieval/fusion.py), and the fusion that
-- `PgVectorStore.hybrid_search_rrf` (src/finance_rag/store/pgvector_store.py) writes in SQL: the
-- full outer join of the two ranked lists. A dictionary is a list in the order of insertion.
use finance_rag.Prelude.{
  ℕ, suc, ◌+◌, Bool, ◌&&◌, ◌||◌, not, Option, none, some, List, [], ◌∷◌, ◌++◌, if◌then◌else◌,
}
use finance_rag.Text.{Text, text_eq, text_lt, member}
use finance_rag.Models.{Floats}
use finance_rag.Retrieval.Hybrid.{rrf_contribution}

-- The rank of a document in a list, whose first rank is given.
unfoldable pub rank_from : Text → ℕ → List Text → Option ℕ
rank_from d rank [] = none
rank_from d rank (x ∷ xs) =
    let rest = rank_from d (suc rank) xs in if text_eq d x then some rank else rest

module _ {F : Type 0} where
  -- `scores.get(d)`
  unfoldable pub lookup : Text → List (Text × F) → Option F
  lookup d [] = none
  lookup d (p ∷ ps) = let rest = lookup d ps in if text_eq d p.0 then some p.1 else rest

module _ {F : Type 0} (fl : Floats F) where
  -- `scores[d] = scores.get(d, 0.0) + c`
  unfoldable pub bump : Text → F → List (Text × F) → List (Text × F)
  bump d c [] = (d, fl.add fl.zero c) ∷ []
  bump d c (p ∷ ps) =
      let rest = bump d c ps in if text_eq d p.0 then (p.0, fl.add p.1 c) ∷ ps else p ∷ rest

  -- The loop over the documents of one ranker, from a rank on.
  unfoldable pub add_ranking : ℕ → F → ℕ → List Text → List (Text × F) → List (Text × F)
  add_ranking k weight rank [] scores = scores
  add_ranking k weight rank (d ∷ ds) scores =
      add_ranking k weight (suc rank) ds (bump d (rrf_contribution fl rank k weight) scores)

  -- The loop over the rankers, each with its weight.
  unfoldable pub add_rankings : ℕ → List (F × List Text) → List (Text × F) → List (Text × F)
  add_rankings k [] scores = scores
  add_rankings k (r ∷ rs) scores = add_rankings k rs (add_ranking k r.0 1 r.1 scores)

  -- `sorted(…, key=lambda kv: (-kv[1], kv[0]))`: a pair stands behind another one if its score is
  -- less, or equal with a greater id
  unfoldable pub behind : Text × F → Text × F → Bool
  behind p q = fl.lt p.1 q.1 || (not (fl.lt q.1 p.1) && text_lt q.0 p.0)

  unfoldable pub insert_pair : Text × F → List (Text × F) → List (Text × F)
  insert_pair p [] = p ∷ []
  insert_pair p (q ∷ qs) =
      let rest = insert_pair p qs in if behind p q then q ∷ rest else p ∷ q ∷ qs

  unfoldable pub sort_pairs : List (Text × F) → List (Text × F)
  sort_pairs [] = []
  sort_pairs (p ∷ ps) = insert_pair p (sort_pairs ps)

  -- `reciprocal_rank_fusion`, with the rankings that the mapping lists and their weights
  unfoldable pub reciprocal_rank_fusion : ℕ → List (F × List Text) → List (Text × F)
  reciprocal_rank_fusion k rankings = sort_pairs (add_rankings k rankings [])

-- A row of the common table expression `fused`.
pub record FusedRow : Type 0 where
  pub chunk_id : Text
  pub dense_rank : Option ℕ
  pub sparse_rank : Option ℕ

-- The rows of the dense list, with their partners in the sparse one.
unfoldable pub dense_rows : List Text → ℕ → List Text → List FusedRow
dense_rows sparse rank [] = []
dense_rows sparse rank (d ∷ ds) =
    record { chunk_id = d; dense_rank = some rank; sparse_rank = rank_from d 1 sparse }
    ∷ dense_rows sparse (suc rank) ds

-- The rows of the sparse list that have no partner.
unfoldable pub sparse_rows : List Text → ℕ → List Text → List FusedRow
sparse_rows dense rank [] = []
sparse_rows dense rank (s ∷ ss) =
    let rest = sparse_rows dense (suc rank) ss in
    if member s dense
    then rest
    else record { chunk_id = s; dense_rank = none; sparse_rank = some rank } ∷ rest

-- `dense FULL OUTER JOIN sparse`
unfoldable pub full_join : List Text → List Text → List FusedRow
full_join dense sparse = dense_rows sparse 1 dense ++ sparse_rows dense 1 sparse

-- The row of a chunk.
unfoldable pub find_fused : Text → List FusedRow → Option FusedRow
find_fused d [] = none
find_fused d (f ∷ fs) = let rest = find_fused d fs in if text_eq d f.chunk_id then some f else rest

-- PostgreSQL's arithmetic of NUMERIC, which is not that of a float: `1.0 / n` is rounded to a number
-- of decimal digits, and sums are exact.
pub record Numeric (N : Type 0) : Type 0 where
  pub zero : N
  pub reciprocal : ℕ → N
  pub add : N → N → N
  pub lt : N → N → Bool

module _ {N : Type 0} (nu : Numeric N) (k : ℕ) where
  -- `COALESCE(1.0 / (:k + rank), 0.0)`
  unfoldable pub rrf_of : Option ℕ → N
  rrf_of none = nu.zero
  rrf_of (some rank) = nu.reciprocal (k + rank)

  -- `f.dense_rrf + f.sparse_rrf`
  unfoldable pub fused_score : FusedRow → N
  fused_score f = nu.add (rrf_of f.dense_rank) (rrf_of f.sparse_rank)
