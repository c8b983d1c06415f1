-- ===== src/Retrieval/Distinct.antt =====
-- The ids of the candidates for the reranker (src/finance_rag/retrieval/hybrid.py).
use finance_rag.Prelude.{
  ℕ, zero, suc, ◌≡◌, refl, inl, inr, false, Option, List, [], ◌∷◌, take, is_empty, All, Bool-cases,
  Option-cases, sym,
}
use mathlib.Core.Path.{subst}
use finance_rag.Text.{Text, text_eq}
use finance_rag.Text.Laws.{text_eq_sound, text_eq_sym}
use finance_rag.Text.Sorting.{sorted_set}
use finance_rag.Agent.Roles.{non_empty}
use finance_rag.Models.{Floats, RetrievedChunk, ids}
use finance_rag.Retrieval.Hybrid.{
  Row, row_to_chunk, put, scored, collect_rows, insert_by_score, sort_by_score, rrf_contribution,
  boosted, neighbour, fold_neighbour, fold_neighbours, apply_graph_ranker, parent_of, parent_ids,
  with_parent, with_parents, attach_parent_context, fuse,
}
use finance_rag.Retrieval.Candidates.{
  All-put, All-take, All-insert_by_score, All-sort_by_score, All-fold_neighbour,
}

module _ {F : Type 0} where
  -- The passage is another one than that with this id.
  abbrev Other : Text → RetrievedChunk F → Type 0
  Other t q = text_eq t q.chunk.chunk_id ≡ false

  -- No two passages have one id.
  abbrev pub IsOnce : List (RetrievedChunk F) → Type 0
  IsOnce [] = Unit
  IsOnce (r ∷ rs) = All (Other r.chunk.chunk_id) rs × IsOnce rs

  put-IsOnce : (r : RetrievedChunk F) (qs : List (RetrievedChunk F)) → IsOnce qs → IsOnce (put r qs)
  unfolding put
  put-IsOnce r [] h = (tt, tt)
  put-IsOnce r (q ∷ qs) h = elim (Bool-cases (text_eq r.chunk.chunk_id q.chunk.chunk_id)) [
    | inl e ↦ rw e (
      subst (λ (t : Text). All (Other t) qs)
          (sym (text_eq_sound r.chunk.chunk_id q.chunk.chunk_id e)) h.0,
      h.1,
    )
    | inr e ↦ rw e (
      All-put (Other q.chunk.chunk_id) r qs (text_eq_sym r.chunk.chunk_id q.chunk.chunk_id e) h.0,
      put-IsOnce r qs h.1,
    )
  ]

  take-IsOnce : (n : ℕ) (qs : List (RetrievedChunk F)) → IsOnce qs → IsOnce (take n qs)
  take-IsOnce zero qs h = tt
  take-IsOnce (suc n) [] h = tt
  take-IsOnce (suc n) (q ∷ qs) h =
      (All-take (Other q.chunk.chunk_id) n qs h.0, take-IsOnce n qs h.1)

module _ {F : Type 0} (fl : Floats F) where
  collect_rows-IsOnce :
      (by_id : List (RetrievedChunk F)) (rows : List (Row F))
      → IsOnce by_id
      → IsOnce (collect_rows fl by_id rows)
  unfolding collect_rows
  collect_rows-IsOnce by_id [] h = h
  collect_rows-IsOnce by_id (row ∷ rows) h =
      collect_rows-IsOnce (put (scored fl row) by_id) rows (put-IsOnce (scored fl row) by_id h)

  insert_by_score-IsOnce :
      (r : RetrievedChunk F) (qs : List (RetrievedChunk F))
      → All (Other r.chunk.chunk_id) qs
      → IsOnce qs
      → IsOnce (insert_by_score fl r qs)
  unfolding insert_by_score
  insert_by_score-IsOnce r [] a h = (tt, tt)
  insert_by_score-IsOnce r (q ∷ qs) a h = elim (Bool-cases (fl.lt r.score q.score)) [
    | inl e ↦ rw e (
      All-insert_by_score fl (Other q.chunk.chunk_id) r qs
          (text_eq_sym r.chunk.chunk_id q.chunk.chunk_id a.0) h.0,
      insert_by_score-IsOnce r qs a.1 h.1,
    )
    | inr e ↦ rw e (a, h)
  ]

  sort_by_score-IsOnce : (qs : List (RetrievedChunk F)) → IsOnce qs → IsOnce (sort_by_score fl qs)
  unfolding sort_by_score
  sort_by_score-IsOnce [] h = tt
  sort_by_score-IsOnce (q ∷ qs) h =
      insert_by_score-IsOnce q (sort_by_score fl qs)
        (All-sort_by_score fl (Other q.chunk.chunk_id) qs h.0) (sort_by_score-IsOnce qs h.1)

  fold_neighbour-IsOnce :
      (rank : ℕ) (c : F) (row : Row F) (qs : List (RetrievedChunk F))
      → IsOnce qs
      → IsOnce (fold_neighbour fl rank c row qs)
  unfolding fold_neighbour boosted neighbour row_to_chunk
  fold_neighbour-IsOnce rank c row [] h = (tt, tt)
  fold_neighbour-IsOnce rank c row (q ∷ qs) h =
      elim (Bool-cases (text_eq row.chunk_id q.chunk.chunk_id)) [
        | inl e ↦ rw e h
        | inr e ↦ rw e (
          All-fold_neighbour fl (Other q.chunk.chunk_id) rank c row qs (λ x a. a)
              (λ absent. text_eq_sym row.chunk_id q.chunk.chunk_id e) h.0,
          fold_neighbour-IsOnce rank c row qs h.1,
        )
      ]

  fold_neighbours-IsOnce :
      (rank k : ℕ) (weight : F) (rows : List (Row F)) (by_id : List (RetrievedChunk F))
      → IsOnce by_id
      → IsOnce (fold_neighbours fl rank k weight rows by_id)
  unfolding fold_neighbours
  fold_neighbours-IsOnce rank k weight [] by_id h = h
  fold_neighbours-IsOnce rank k weight (row ∷ rows) by_id h =
      let c = rrf_contribution fl rank k weight in
      fold_neighbours-IsOnce (suc rank) k weight rows (fold_neighbour fl rank c row by_id)
        (fold_neighbour-IsOnce rank c row by_id h)

with_parent-chunk_id :
    {F : Type 0} (parents : List (Text × Option Text)) (r : RetrievedChunk F)
    → (with_parent parents r).chunk.chunk_id ≡ r.chunk.chunk_id
unfolding with_parent
with_parent-chunk_id parents r = elim (Option-cases (non_empty r.chunk.parent_id)) [
  | inl e ↦ rw (e, with_parent) refl
  | inr (pid, e) ↦ elim (Option-cases (parent_of parents pid)) [
    | inl g ↦ rw (e, g, with_parent) refl
    | inr (t, g) ↦ rw (e, g, with_parent) refl
  ]
]

ids-with_parents :
    {F : Type 0} (parents : List (Text × Option Text)) (rs : List (RetrievedChunk F))
    → ids (with_parents parents rs) ≡ ids rs
unfolding with_parents
ids-with_parents parents [] = refl
ids-with_parents parents (r ∷ rs) =
    λ i. (with_parent-chunk_id parents r i ∷ ids-with_parents parents rs i)

-- No id twice.
abbrev pub IsDistinct : List Text → Type 0
IsDistinct [] = Unit
IsDistinct (t ∷ ts) = All (λ u. text_eq t u ≡ false) ts × IsDistinct ts

All-ids :
    {F : Type 0} (t : Text) (rs : List (RetrievedChunk F))
    → All (Other t) rs
    → All (λ u. text_eq t u ≡ false) (ids rs)
All-ids t [] h = tt
All-ids t (r ∷ rs) h = (h.0, All-ids t rs h.1)

ids-IsDistinct : {F : Type 0} (rs : List (RetrievedChunk F)) → IsOnce rs → IsDistinct (ids rs)
ids-IsDistinct [] h = tt
ids-IsDistinct (r ∷ rs) h = (All-ids r.chunk.chunk_id rs h.0, ids-IsDistinct rs h.1)

module _ {F : Type 0} (fl : Floats F) where
  -- No passage reaches the reranker twice, though the search and the graph may both have found it
  -- and may each have found it more than once.
  pub fuse-IsDistinct :
      (expand : List Text → List (Row F)) (fetch : List Text → List (Text × Option Text)) (k : ℕ)
      (weight : F) (top_k : ℕ) (rows : List (Row F))
      → IsDistinct (ids (fuse fl expand fetch k weight top_k rows))
  unfolding fuse attach_parent_context apply_graph_ranker
  fuse-IsDistinct expand fetch k weight top_k rows =
      let found = collect_rows fl [] rows in
      let once = collect_rows-IsOnce fl [] rows tt in
      let seeds = ids (take 8 (sort_by_score fl found)) in
      let folded = fold_neighbours-IsOnce fl 1 k weight (expand seeds) found once in
      let ranked : IsOnce (apply_graph_ranker fl expand k weight found) =
        elim (Bool-cases (is_empty seeds)) [ inl e ↦ rw e once | inr e ↦ rw e folded ] in
      let by_id = apply_graph_ranker fl expand k weight found in
      let fused = take top_k (sort_by_score fl by_id) in
      let cut =
        ids-IsDistinct fused
          (take-IsOnce top_k (sort_by_score fl by_id) (sort_by_score-IsOnce fl by_id ranked)) in
      let wanted = sorted_set (parent_ids fused) in
      elim (Bool-cases (is_empty wanted)) [
        | inl e ↦ rw e cut
        | inr e ↦ rw e (subst IsDistinct (sym (ids-with_parents (fetch wanted) fused)) cut)
      ]
