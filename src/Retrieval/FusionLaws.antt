-- ===== src/Retrieval/FusionLaws.antt =====
-- The SQL fusion of `hybrid_search_rrf` and `reciprocal_rank_fusion` give the same scores
-- (src/finance_rag/store/pgvector_store.py, src/finance_rag/retrieval/fusion.py).
use finance_rag.Prelude.{◌+◌, ℕ, ◌≡◌, false, Option, none, some, List, [], ◌∷◌, get_or}
use finance_rag.Text.{Text, member}
use finance_rag.Models.{Floats}
use finance_rag.Retrieval.Hybrid.{rrf_contribution}
use finance_rag.Retrieval.Fusion.{rank_from, lookup, FusedRow, Numeric, fused_score}

-- No document is in the list twice.
abbrev pub Once : List Text → Type 0
Once [] = Unit
Once (d ∷ ds) = (member d ds ≡ false) × Once ds

-- The score of a document that a ranker puts at this rank, on top of what it had.
abbrev raised : {F : Type 0} → Floats F → ℕ → F → Option F → Option ℕ → Option F
raised fl k weight before none = before
raised fl k weight before (some rank) =
    some (fl.add (get_or before fl.zero) (rrf_contribution fl rank k weight))

module _ {F : Type 0} (fl : Floats F) where
  -- Keys stand in the dictionary once.
  abbrev Fresh : List (Text × F) → Type 0
  Fresh [] = Unit
  Fresh (p ∷ ps) = (lookup p.0 ps ≡ none) × Fresh ps

abbrev dense_row : List Text → Text → Option ℕ → Option FusedRow
dense_row sparse d none = none
dense_row sparse d (some rank) =
    some (record { chunk_id = d; dense_rank = some rank; sparse_rank = rank_from d 1 sparse })

abbrev sparse_row : Text → Option ℕ → Option FusedRow
sparse_row d none = none
sparse_row d (some rank) =
    some (record { chunk_id = d; dense_rank = none; sparse_rank = some rank })

module _ {F N : Type 0} (fl : Floats F) (nu : Numeric N) (k : ℕ) where
  -- The score of a row of the join.
  abbrev pub score_of : Option FusedRow → Option N
  score_of none = none
  score_of (some f) = some (fused_score nu k f)

  -- The sum over the ranks of a chunk in the two lists, in NUMERIC.
  abbrev pub numeric_sum : Option ℕ → Option ℕ → Option N
  numeric_sum none none = none
  numeric_sum (some i) none = some (nu.add (nu.reciprocal (k + i)) nu.zero)
  numeric_sum none (some j) = some (nu.add nu.zero (nu.reciprocal (k + j)))
  numeric_sum (some i) (some j) = some (nu.add (nu.reciprocal (k + i)) (nu.reciprocal (k + j)))

  -- The same sum in floats, in the order of the rankers.
  abbrev share : ℕ → F
  share rank = rrf_contribution fl rank k fl.one

  abbrev pub float_sum : Option ℕ → Option ℕ → Option F
  float_sum none none = none
  float_sum (some i) none = some (fl.add fl.zero (share i))
  float_sum none (some j) = some (fl.add fl.zero (share j))
  float_sum (some i) (some j) = some (fl.add (fl.add fl.zero (share i)) (share j))
