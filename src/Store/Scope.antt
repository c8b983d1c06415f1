-- ===== src/Store/Scope.antt =====
-- Whose chunks a search returns (src/finance_rag/store/pgvector_store.py).
use finance_rag.Prelude.{
  none, some, true, false, arith, Option-cases, and_right, ℕ, suc, ◌≡◌, refl, sym, ap, ◌∙◌, Bool,
  ◌&&◌, not, Option, List, [], ◌∷◌, get_or, is_empty, keep, sort_by, Bool-cases, inl, inr, In, All,
  All-take, All-sort_by, All-kept, All-map, All-append,
}
use finance_rag.Text.{Text, codes, text_eq, text_lt, member}
use finance_rag.Text.Laws.{text_eq_sound}
use finance_rag.Config.{Settings}
use finance_rag.Agent.Roles.{non_empty}
use finance_rag.Models.{Floats}
use finance_rag.Retrieval.Fusion.{
  FusedRow, Numeric, dense_rows, sparse_rows, full_join, fused_score,
}
use finance_rag.Store.Tables.{Stored, Tables, find_chunk}
use finance_rag.Store.Search.{
  in_scope, eligible, chunk_ids, Query, Hit, dense, sparse, join_chunks, hybrid_search_rrf,
}
use finance_rag.Store.Rows.{IsKeyed, find_chunk-In}

module _ {F : Type 0} (P : Stored F → Type 0) (all : List (Stored F)) where
  -- The id of a chunk of the table with `P`.
  abbrev Backed : Text → Type 0
  Backed d = (c : Stored F) × In c all × P c × (c.chunk_id ≡ d)

  ids-Backed : (cs : List (Stored F)) → All (λ c. In c all × P c) cs → All Backed (chunk_ids cs)
  unfolding chunk_ids
  ids-Backed [] h = tt
  ids-Backed (c ∷ cs) h = ((c, h.0.0, h.0.1, refl), ids-Backed cs h.1)

  dense_rows-Backed :
      (ss : List Text) (rank : ℕ) (ds : List Text)
      → All Backed ds
      → All (λ f. Backed f.chunk_id) (dense_rows ss rank ds)
  unfolding dense_rows
  dense_rows-Backed ss rank [] h = tt
  dense_rows-Backed ss rank (d ∷ ds) h = (h.0, dense_rows-Backed ss (suc rank) ds h.1)

  sparse_rows-Backed :
      (ds : List Text) (rank : ℕ) (ss : List Text)
      → All Backed ss
      → All (λ f. Backed f.chunk_id) (sparse_rows ds rank ss)
  unfolding sparse_rows
  sparse_rows-Backed ds rank [] h = tt
  sparse_rows-Backed ds rank (s ∷ ss) h =
      let rest = sparse_rows-Backed ds (suc rank) ss h.1 in
      elim (Bool-cases (member s ds)) [
        | inl e ↦ rw (e, sparse_rows) rest
        | inr e ↦ rw (e, sparse_rows) (h.0, rest)
      ]

  full_join-Backed :
      (ds ss : List Text)
      → All Backed ds
      → All Backed ss
      → All (λ f. Backed f.chunk_id) (full_join ds ss)
  unfolding full_join
  full_join-Backed ds ss h g =
      All-append (λ f. Backed f.chunk_id) (dense_rows ss 1 ds) (sparse_rows ds 1 ss)
        (dense_rows-Backed ss 1 ds h) (sparse_rows-Backed ds 1 ss g)

  -- In a table with distinct ids the join finds the chunk that the ranker meant.
  join_chunks-Backed :
      (fs : List FusedRow)
      → IsKeyed all
      → All (λ f. Backed f.chunk_id) fs
      → All (λ h. P h.stored) (join_chunks fs all)
  unfolding join_chunks
  join_chunks-Backed [] keyed h = tt
  join_chunks-Backed (f ∷ fs) keyed h =
      let (c, held, good, e) = h.0 in
      let found = ap (λ d. find_chunk d all) (sym e) ∙ find_chunk-In c all keyed held in
      rw (found, join_chunks) (good, join_chunks-Backed fs keyed h.1)

module _ {F : Type 0} (fl : Floats F) (q : Query F) where
  dense-eligible :
      (n : ℕ) (org : Text) (as_of line : Option Text) (cs : List (Stored F))
      → All (λ c. In c cs × (eligible org as_of line c ≡ true)) (dense fl q n org as_of line cs)
  unfolding dense
  dense-eligible n org as_of line cs =
      let test = λ (c : Stored F). not (is_empty c.embedding) && eligible org as_of line c in
      let good = λ (c : Stored F). In c cs × (eligible org as_of line c ≡ true) in
      let kept =
        All-map (λ c. In c cs × (test c ≡ true)) good (keep test cs)
          (λ c h. (h.0, and_right (not (is_empty c.embedding)) (eligible org as_of line c) h.1))
          (All-kept test cs) in
      let behind : Stored F → Stored F → Bool = λ a b. fl.lt (q.distance b) (q.distance a) in
      All-take good n (sort_by behind (keep test cs)) (All-sort_by behind good (keep test cs) kept)

  sparse-eligible :
      (n : ℕ) (org : Text) (as_of line : Option Text) (cs : List (Stored F))
      → All (λ c. In c cs × (eligible org as_of line c ≡ true)) (sparse fl q n org as_of line cs)
  unfolding sparse
  sparse-eligible n org as_of line cs =
      let test = λ (c : Stored F). q.matches c && eligible org as_of line c in
      let good = λ (c : Stored F). In c cs × (eligible org as_of line c ≡ true) in
      let kept =
        All-map (λ c. In c cs × (test c ≡ true)) good (keep test cs)
          (λ c h. (h.0, and_right (q.matches c) (eligible org as_of line c) h.1))
          (All-kept test cs) in
      let behind : Stored F → Stored F → Bool = λ a b. fl.lt (q.ts_rank a) (q.ts_rank b) in
      All-take good n (sort_by behind (keep test cs)) (All-sort_by behind good (keep test cs) kept)

-- In force at a date: not from a later day on, and ended after it if at all.
abbrev pub IsInForce : {F : Type 0} → Option Text → Stored F → Type 0
IsInForce none c = Unit
IsInForce (some day) c =
    ((e : Text) → c.effective_date ≡ some e → text_lt day e ≡ false)
    × ((s : Text) → c.superseded_date ≡ some s → text_lt day s ≡ true)

abbrev pub IsOfLine : {F : Type 0} → Option Text → Stored F → Type 0
IsOfLine none c = Unit
IsOfLine (some line) c = c.service_line ≡ some line

-- What a search for a tenant, a date and a service line may return.
pub record IsVisible {F : Type 0} (org : Text) (as_of line : Option Text) (c : Stored F)
    : Type 0 where
  pub own_tenant : c.org_id ≡ org
  pub child_level : c.level ≡ codes "child"
  pub in_force : IsInForce as_of c
  pub of_line : IsOfLine line c

in_scope-IsInForce :
    {F : Type 0} (org : Text) (as_of : Option Text) (c : Stored F)
    → in_scope org as_of c ≡ true
    → (c.org_id ≡ org) × IsInForce as_of c
unfolding in_scope
in_scope-IsInForce org none c h = (text_eq_sound c.org_id org h, tt)
in_scope-IsInForce org (some day) c h =
    (text_eq_sound c.org_id org (ground arith), ((λ e at. ground arith), (λ s at. ground arith)))

eligible-IsVisible :
    {F : Type 0} (org : Text) (as_of line : Option Text) (c : Stored F)
    → eligible org as_of line c ≡ true
    → IsVisible org as_of line c
unfolding eligible
eligible-IsVisible org as_of line c h =
    let scoped : in_scope org as_of c ≡ true = ground arith in
    let child : text_eq c.level (codes "child") ≡ true = ground arith in
    let (own, current) = in_scope-IsInForce org as_of c scoped in
    record {
      own_tenant = own;
      child_level = text_eq_sound c.level (codes "child") child;
      in_force = current;
      of_line = lined line (ground arith);
    }
  where
    lined :
        (l : Option Text)
        → elim l [
          | none ↦ true
          | some x ↦ elim c.service_line [ none ↦ false | some y ↦ text_eq y x ]
        ]
          ≡ true
        → IsOfLine l c
    lined none g = tt
    lined (some x) g = elim (Option-cases c.service_line) [
      | inl e ↦ absurd (ground arith)
      | inr (y, e) ↦ e ∙ ap some (text_eq_sound y x (ground arith))
    ]

module _ {F N : Type 0} (fl : Floats F) (nu : Numeric N) (q : Query F) where
  -- In a table with distinct ids, a search returns only chunks with the tenant's `org_id`, of the
  -- level of children, that are not from a day after the date it asks about and had not ended by
  -- then, and that are of the service line if one is asked for.
  pub hybrid_search_rrf-IsVisible :
      (st : Settings) (candidates k top_k : ℕ) (line org_id as_of : Option Text) (t : Tables F)
      → IsKeyed t.chunks
      → All
          (λ h. IsVisible (get_or (non_empty org_id) st.default_org_id) as_of line h.stored)
          (hybrid_search_rrf fl nu q st candidates k top_k line org_id as_of t)
  unfolding hybrid_search_rrf
  hybrid_search_rrf-IsVisible st candidates k top_k line org_id as_of t keyed =
      let org = get_or (non_empty org_id) st.default_org_id in
      let P = λ (c : Stored F). eligible org as_of line c ≡ true in
      let ds = dense fl q candidates org as_of line t.chunks in
      let ss = sparse fl q candidates org as_of line t.chunks in
      let fused = full_join (chunk_ids ds) (chunk_ids ss) in
      let joined = join_chunks-Backed P t.chunks fused keyed (
        full_join-Backed P t.chunks (chunk_ids ds) (chunk_ids ss)
          (ids-Backed P t.chunks ds (dense-eligible fl q candidates org as_of line t.chunks))
          (ids-Backed P t.chunks ss (sparse-eligible fl q candidates org as_of line t.chunks))) in
      let behind = λ (a b : Hit F). nu.lt (fused_score nu k a.fused) (fused_score nu k b.fused) in
      let hits = join_chunks fused t.chunks in
      let Q = λ (h : Hit F). IsVisible org as_of line h.stored in
      All-take Q top_k (sort_by behind hits) (
        All-sort_by behind Q hits (
          All-map (λ h. P h.stored) Q hits (λ h e. eligible-IsVisible org as_of line h.stored e)
            joined))
