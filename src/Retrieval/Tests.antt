-- ===== src/Retrieval/Tests.antt =====
-- A small search with one graph neighbour, and the theorems applied to it.
use finance_rag.Prelude.{ℕ, none, some, Option, List, [], ◌∷◌}
use finance_rag.Samples.{bits, row}
use finance_rag.Text.{Text, codes}
use finance_rag.Models.{ids, RetrievedChunk}
use finance_rag.Retrieval.Hybrid.{Row, fuse}
use finance_rag.Retrieval.Distinct.{IsDistinct, fuse-IsDistinct}

abbrev rows : List (Row ℕ)
rows = row (codes "a") (some 3) ∷ row (codes "b") (some 5) ∷ row (codes "a") (some 4) ∷ []

abbrev expand : List Text → List (Row ℕ)
expand seeds = row (codes "b") none ∷ row (codes "c") none ∷ []

abbrev fetch : List Text → List (Text × Option Text)
fetch wanted = []

abbrev fused_rows : List (RetrievedChunk ℕ)
fused_rows = fuse bits expand fetch 60 180 2 rows

fuse-IsDistinct_example : IsDistinct (ids fused_rows)
fuse-IsDistinct_example = fuse-IsDistinct bits expand fetch 60 180 2 rows
