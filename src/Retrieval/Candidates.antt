-- ===== src/Retrieval/Candidates.antt =====
-- Where the passages that reach the reranker come from (src/finance_rag/retrieval/hybrid.py).
use finance_rag.Prelude.{
  ℕ, zero, suc, ◌≤◌, ◌≡◌, refl, ◌⊎◌, inl, inr, true, false, sym, subst, Option, List, [], ◌∷◌,
  is_some, get_or, length, take, length-take-le, is_empty, In, All, arith, Bool-cases, Option-cases,
}
use finance_rag.Text.{Text, text_eq, member}
use finance_rag.Text.Laws.{text_eq_sound, text_eq_refl}
use finance_rag.Text.Sorting.{sorted_set}
use finance_rag.Agent.Roles.{non_empty}
use finance_rag.Models.{Floats, RetrievedChunk, ids}
use finance_rag.Retrieval.Hybrid.{
  Row, row_to_chunk, put, scored, collect_rows, insert_by_score, sort_by_score, rrf_contribution,
  boosted, neighbour, fold_neighbour, fold_neighbours, apply_graph_ranker, parent_of, parent_ids,
  with_parent, with_parents, attach_parent_context, fuse,
}

module _ {F : Type 0} (P : RetrievedChunk F → Type 0) where
  pub All-put :
      (r : RetrievedChunk F) (qs : List (RetrievedChunk F)) → P r → All P qs → All P (put r qs)
  unfolding put
  All-put r [] p h = (p, tt)
  All-put r (q ∷ qs) p h = elim (Bool-cases (text_eq r.chunk.chunk_id q.chunk.chunk_id)) [
    | inl e ↦ rw e (p, h.1)
    | inr e ↦ rw e (h.0, All-put r qs p h.1)
  ]

  pub All-take : (n : ℕ) (qs : List (RetrievedChunk F)) → All P qs → All P (take n qs)
  All-take zero qs h = tt
  All-take (suc n) [] h = tt
  All-take (suc n) (q ∷ qs) h = (h.0, All-take n qs h.1)

module _ {F : Type 0} (fl : Floats F) (P : RetrievedChunk F → Type 0) where
  pub All-insert_by_score :
      (r : RetrievedChunk F) (qs : List (RetrievedChunk F))
      → P r
      → All P qs
      → All P (insert_by_score fl r qs)
  unfolding insert_by_score
  All-insert_by_score r [] p h = (p, tt)
  All-insert_by_score r (q ∷ qs) p h = elim (Bool-cases (fl.lt r.score q.score)) [
    | inl e ↦ rw e (h.0, All-insert_by_score r qs p h.1)
    | inr e ↦ rw e (p, h)
  ]

  pub All-sort_by_score : (qs : List (RetrievedChunk F)) → All P qs → All P (sort_by_score fl qs)
  unfolding sort_by_score
  All-sort_by_score [] h = tt
  All-sort_by_score (q ∷ qs) h =
      All-insert_by_score q (sort_by_score fl qs) h.0 (All-sort_by_score qs h.1)

  pub All-fold_neighbour :
      (rank : ℕ) (c : F) (row : Row F) (qs : List (RetrievedChunk F))
      → ((q : RetrievedChunk F) → P q → P (boosted fl rank c q))
      → (member row.chunk_id (ids qs) ≡ false → P (neighbour fl rank c row))
      → All P qs
      → All P (fold_neighbour fl rank c row qs)
  unfolding fold_neighbour member
  All-fold_neighbour rank c row [] f p h = (p refl, tt)
  All-fold_neighbour rank c row (q ∷ qs) f p h =
      elim (Bool-cases (text_eq row.chunk_id q.chunk.chunk_id)) [
        | inl e ↦ rw e (f q h.0, h.1)
        | inr e ↦ rw e (h.0, All-fold_neighbour rank c row qs f (λ absent. p (rw e absent)) h.1)
      ]

module _ {F : Type 0} (fl : Floats F) where
  abbrev pub row_ids : List (Row F) → List Text
  row_ids [] = []
  row_ids (row ∷ rows) = row.chunk_id ∷ row_ids rows

  -- The passage has the cosine that the search gave it, or it is a neighbour that only the graph has
  -- found, with no cosine of its own.
  abbrev pub Sourced : List (Row F) → RetrievedChunk F → Type 0
  Sourced rows r =
      ((row : Row F) × In row rows
        × (r.chunk.chunk_id ≡ row.chunk_id)
        × (r.cosine ≡ get_or row.cosine fl.zero))
      ⊎ ((member r.chunk.chunk_id (row_ids rows) ≡ false)
          × (r.cosine ≡ fl.zero)
          × (is_some r.graph_rank ≡ true))

  -- Every row of the search has its passage.
  abbrev Covers : List (Row F) → List (RetrievedChunk F) → Type 0
  Covers rows qs = (d : Text) → member d (row_ids rows) ≡ true → member d (ids qs) ≡ true

  member-put_kept :
      (d : Text) (r : RetrievedChunk F) (qs : List (RetrievedChunk F))
      → member d (ids qs) ≡ true
      → member d (ids (put r qs)) ≡ true
  unfolding put member
  member-put_kept d r [] h = ground arith
  member-put_kept d r (q ∷ qs) h =
      ground (arith, member-put_kept d r qs, text_eq_sound r.chunk.chunk_id q.chunk.chunk_id)

  member-put_new :
      (r : RetrievedChunk F) (qs : List (RetrievedChunk F))
      → member r.chunk.chunk_id (ids (put r qs)) ≡ true
  unfolding put member
  member-put_new r [] = ground (arith, text_eq_refl r.chunk.chunk_id)
  member-put_new r (q ∷ qs) = ground (arith, member-put_new r qs, text_eq_refl r.chunk.chunk_id)

  scored_there :
      (x : Row F) (qs : List (RetrievedChunk F))
      → member x.chunk_id (ids (put (scored fl x) qs)) ≡ true
  unfolding scored row_to_chunk
  scored_there x qs = member-put_new (scored fl x) qs

  member-collect_rows :
      (d : Text) (rows : List (Row F)) (by_id : List (RetrievedChunk F))
      → (member d (row_ids rows) ≡ true) ⊎ (member d (ids by_id) ≡ true)
      → member d (ids (collect_rows fl by_id rows)) ≡ true
  unfolding collect_rows member
  member-collect_rows d [] by_id (inl h) = absurd (ground arith)
  member-collect_rows d [] by_id (inr h) = h
  member-collect_rows d (row ∷ rows) by_id (inr h) =
      member-collect_rows d rows (put (scored fl row) by_id)
        (inr (member-put_kept d (scored fl row) by_id h))
  member-collect_rows d (row ∷ rows) by_id (inl h) = elim (Bool-cases (text_eq d row.chunk_id)) [
    | inl e ↦
        let there : member row.chunk_id (ids (put (scored fl row) by_id)) ≡ true =
          scored_there row by_id in
        member-collect_rows d rows (put (scored fl row) by_id) (
          inr (
            subst (λ x. member x (ids (put (scored fl row) by_id)) ≡ true)
              (sym (text_eq_sound d row.chunk_id e)) there))
    | inr e ↦ member-collect_rows d rows (put (scored fl row) by_id) (inl (rw e at h))
  ]

  member-fold_neighbour :
      (d : Text) (rank : ℕ) (c : F) (row : Row F) (qs : List (RetrievedChunk F))
      → member d (ids qs) ≡ true
      → member d (ids (fold_neighbour fl rank c row qs)) ≡ true
  unfolding fold_neighbour boosted member
  member-fold_neighbour d rank c row [] h = absurd (ground arith)
  member-fold_neighbour d rank c row (q ∷ qs) h =
      ground (arith, member-fold_neighbour d rank c row qs)

  collect_rows-Sourced :
      (all rows : List (Row F)) (by_id : List (RetrievedChunk F))
      → ((row : Row F) → In row rows → In row all)
      → All (Sourced all) by_id
      → All (Sourced all) (collect_rows fl by_id rows)
  unfolding collect_rows scored row_to_chunk
  collect_rows-Sourced all [] by_id f h = h
  collect_rows-Sourced all (row ∷ rows) by_id f h =
      collect_rows-Sourced all rows (put (scored fl row) by_id) (λ x i. f x (inr i))
        (All-put (Sourced all) (scored fl row) by_id (inl (row, f row (inl refl), refl, refl)) h)

  boosted-Sourced :
      (all : List (Row F)) (rank : ℕ) (c : F) (q : RetrievedChunk F)
      → Sourced all q
      → Sourced all (boosted fl rank c q)
  unfolding boosted
  boosted-Sourced all rank c q (inl h) = inl h
  boosted-Sourced all rank c q (inr h) = inr (h.0, h.1, refl)

  neighbour-Sourced :
      (all : List (Row F)) (rank : ℕ) (c : F) (row : Row F) (qs : List (RetrievedChunk F))
      → Covers all qs
      → member row.chunk_id (ids qs) ≡ false
      → Sourced all (neighbour fl rank c row)
  unfolding neighbour row_to_chunk
  neighbour-Sourced all rank c row qs covers absent =
      elim (Bool-cases (member row.chunk_id (row_ids all))) [
        | inl e ↦ let there = covers row.chunk_id e in absurd (ground arith)
        | inr e ↦ inr (e, refl, refl)
      ]

  fold_neighbours-Sourced :
      (all : List (Row F)) (rank k : ℕ) (weight : F) (rows : List (Row F))
      (by_id : List (RetrievedChunk F))
      → Covers all by_id
      → All (Sourced all) by_id
      → All (Sourced all) (fold_neighbours fl rank k weight rows by_id)
  unfolding fold_neighbours
  fold_neighbours-Sourced all rank k weight [] by_id covers h = h
  fold_neighbours-Sourced all rank k weight (row ∷ rows) by_id covers h =
      let c = rrf_contribution fl rank k weight in
      fold_neighbours-Sourced all (suc rank) k weight rows (fold_neighbour fl rank c row by_id)
        (λ d i. member-fold_neighbour d rank c row by_id (covers d i))
        (All-fold_neighbour fl (Sourced all) rank c row by_id (boosted-Sourced all rank c)
          (neighbour-Sourced all rank c row by_id covers) h)

  apply_graph_ranker-Sourced :
      (all : List (Row F)) (expand : List Text → List (Row F)) (k : ℕ) (weight : F)
      (by_id : List (RetrievedChunk F))
      → Covers all by_id
      → All (Sourced all) by_id
      → All (Sourced all) (apply_graph_ranker fl expand k weight by_id)
  unfolding apply_graph_ranker
  apply_graph_ranker-Sourced all expand k weight by_id covers h =
      let seeds = ids (take 8 (sort_by_score fl by_id)) in
      let folded = fold_neighbours-Sourced all 1 k weight (expand seeds) by_id covers h in
      elim (Bool-cases (is_empty seeds)) [ inl e ↦ rw e h | inr e ↦ rw e folded ]

  with_parent-Sourced :
      (all : List (Row F)) (parents : List (Text × Option Text)) (r : RetrievedChunk F)
      → Sourced all r
      → Sourced all (with_parent parents r)
  unfolding with_parent
  with_parent-Sourced all parents r h = elim (Option-cases (non_empty r.chunk.parent_id)) [
    | inl e ↦ rw (e, with_parent) h
    | inr (pid, e) ↦ elim (Option-cases (parent_of parents pid)) [
      | inl g ↦ rw (e, g, with_parent) h
      | inr (t, g) ↦ rw (e, g, with_parent) h
    ]
  ]

  with_parents-Sourced :
      (all : List (Row F)) (parents : List (Text × Option Text)) (rs : List (RetrievedChunk F))
      → All (Sourced all) rs
      → All (Sourced all) (with_parents parents rs)
  unfolding with_parents
  with_parents-Sourced all parents [] h = tt
  with_parents-Sourced all parents (r ∷ rs) h =
      (with_parent-Sourced all parents r h.0, with_parents-Sourced all parents rs h.1)

  length-with_parents :
      (parents : List (Text × Option Text)) (rs : List (RetrievedChunk F))
      → length (with_parents parents rs) ≡ length rs
  unfolding with_parents
  length-with_parents parents [] = refl
  length-with_parents parents (r ∷ rs) = omega (arith, length-with_parents parents rs)

  -- At most `top_k` passages reach the reranker, and each has the cosine that the search gave it,
  -- or is a neighbour that only the graph has found, with a cosine of zero: the graph neither
  -- changes nor makes up a cosine.
  pub fuse-Sourced :
      (expand : List Text → List (Row F)) (fetch : List Text → List (Text × Option Text)) (k : ℕ)
      (weight : F) (top_k : ℕ) (rows : List (Row F))
      → All (Sourced rows) (fuse fl expand fetch k weight top_k rows)
        × (length (fuse fl expand fetch k weight top_k rows) ≤ top_k)
  unfolding fuse attach_parent_context
  fuse-Sourced expand fetch k weight top_k rows =
      let by_id = apply_graph_ranker fl expand k weight (collect_rows fl [] rows) in
      let fused = take top_k (sort_by_score fl by_id) in
      let sourced = All-take (Sourced rows) top_k (sort_by_score fl by_id) (
        All-sort_by_score fl (Sourced rows) by_id (
          apply_graph_ranker-Sourced rows expand k weight (collect_rows fl [] rows)
            (λ d i. member-collect_rows d rows [] (inl i))
            (collect_rows-Sourced rows rows [] (λ x i. i) tt))) in
      let short = length-take-le top_k (sort_by_score fl by_id) in
      let wanted = sorted_set (parent_ids fused) in
      let attached = with_parents-Sourced rows (fetch wanted) fused sourced in
      let same = length-with_parents (fetch wanted) fused in
      elim (Bool-cases (is_empty wanted)) [
        | inl e ↦ rw e (sourced, short)
        | inr e ↦ rw e (attached, omega (arith, same, short))
      ]
