-- ===== src/Store/Rows.antt =====
-- The chunk table against an abstract map from ids to rows
-- (src/finance_rag/store/pgvector_store.py).
use finance_rag.Prelude.{
  ℕ, ◌≡◌, refl, sym, ap, ◌∙◌, subst, true, false, Option, none, some, List, [], ◌∷◌, if◌then◌else◌,
  arith, Bool-cases, inl, inr, In,
}
use mathlib.Core.Path.{fun_ext}
use finance_rag.Text.{Text, text_eq, member}
use finance_rag.Text.Laws.{text_eq_sound, text_eq_refl, text_eq_sym}
use finance_rag.Config.{Settings}
use finance_rag.Guardrails.Answerability.{Attempt, returned, failed}
use finance_rag.Retrieval.FusionLaws.{Once}
use finance_rag.Store.Tables.{
  Stored, Embedded, Tables, upsert_row, upsert_rows, write_rows, upsert_chunks, find_chunk,
}
use finance_rag.Store.Search.{chunk_ids}

-- The table as a map.
abbrev pub Map : Type 0 → Type 0
Map F = Text → Option (Stored F)

module _ {F : Type 0} where
  -- A row over the one that it replaces: the date of its end stays.
  abbrev pub over : Stored F → Option (Stored F) → Stored F
  over r none = r
  over r (some c) = record r { superseded_date = c.superseded_date }

  abbrev pub put : Stored F → Map F → Map F
  put r f d = if text_eq d r.chunk_id then some (over r (f r.chunk_id)) else f d

  abbrev pub put_all : List (Stored F) → Map F → Map F
  put_all [] f = f
  put_all (r ∷ rs) f = put_all rs (put r f)

  find_chunk-upsert_row :
      (r : Stored F) (cs : List (Stored F)) (d : Text)
      → find_chunk d (upsert_row r cs) ≡ put r (λ e. find_chunk e cs) d
  unfolding find_chunk upsert_row
  find_chunk-upsert_row r [] d = refl
  find_chunk-upsert_row r (c ∷ cs) d = elim (Bool-cases (text_eq r.chunk_id c.chunk_id)) [
    | inl e ↦ let same = text_eq_sound r.chunk_id c.chunk_id e in ground (arith, same)
    | inr e ↦ ground (
      arith,
      find_chunk-upsert_row r cs d,
      text_eq_sound d c.chunk_id,
      text_eq_sound d r.chunk_id,
    )
  ]

  pub find_chunk-upsert_rows :
      (rows cs : List (Stored F))
      → (λ d. find_chunk d (upsert_rows rows cs)) ≡ put_all rows (λ d. find_chunk d cs)
  unfolding upsert_rows
  find_chunk-upsert_rows [] cs = refl
  find_chunk-upsert_rows (r ∷ rs) cs =
      find_chunk-upsert_rows rs (upsert_row r cs)
      ∙ ap (put_all rs) (fun_ext λ d. find_chunk-upsert_row r cs d)

  -- The ids stand in the table once, as its primary key demands.
  abbrev pub IsKeyed : List (Stored F) → Type 0
  IsKeyed cs = Once (chunk_ids cs)

  member-upsert_row :
      (r : Stored F) (cs : List (Stored F)) (d : Text)
      → text_eq d r.chunk_id ≡ false
      → member d (chunk_ids (upsert_row r cs)) ≡ member d (chunk_ids cs)
  unfolding member chunk_ids upsert_row
  member-upsert_row r [] d e = ground arith
  member-upsert_row r (c ∷ cs) d e =
      ground (arith, member-upsert_row r cs d e, text_eq_sound r.chunk_id c.chunk_id)

  upsert_row-IsKeyed :
      (r : Stored F) (cs : List (Stored F)) → IsKeyed cs → IsKeyed (upsert_row r cs)
  unfolding upsert_row chunk_ids member
  upsert_row-IsKeyed r [] h = (refl, tt)
  upsert_row-IsKeyed r (c ∷ cs) h = elim (Bool-cases (text_eq r.chunk_id c.chunk_id)) [
    | inl e ↦
        rw (e, upsert_row, chunk_ids)
          (ap (λ z. member z (chunk_ids cs)) (text_eq_sound r.chunk_id c.chunk_id e) ∙ h.0, h.1)
    | inr e ↦
        rw (e, upsert_row, chunk_ids)
          (
            member-upsert_row r cs c.chunk_id (text_eq_sym r.chunk_id c.chunk_id e) ∙ h.0,
            upsert_row-IsKeyed r cs h.1,
          )
  ]

  upsert_rows-IsKeyed : (rows cs : List (Stored F)) → IsKeyed cs → IsKeyed (upsert_rows rows cs)
  unfolding upsert_rows
  upsert_rows-IsKeyed [] cs h = h
  upsert_rows-IsKeyed (r ∷ rs) cs h =
      upsert_rows-IsKeyed rs (upsert_row r cs) (upsert_row-IsKeyed r cs h)

  write_rows-IsKeyed :
      (t : Tables F) (rows : Attempt (List (Stored F)))
      → IsKeyed t.chunks
      → IsKeyed (write_rows t rows).1.chunks
  write_rows-IsKeyed t (failed e) h = h
  write_rows-IsKeyed t (returned rows) h = upsert_rows-IsKeyed rows t.chunks h

  -- `upsert_chunks` keeps the ids of the table distinct.
  pub upsert_chunks-IsKeyed :
      (st : Settings) (dim : ℕ) (chunks : List (Embedded F)) (org : Option Text) (t : Tables F)
      → IsKeyed t.chunks
      → IsKeyed (upsert_chunks st dim chunks org t).1.chunks
  unfolding upsert_chunks
  upsert_chunks-IsKeyed st dim chunks org t h = write_rows-IsKeyed t _ h

  member-chunk_ids :
      (c : Stored F) (cs : List (Stored F)) → In c cs → member c.chunk_id (chunk_ids cs) ≡ true
  unfolding member chunk_ids
  member-chunk_ids c [] i = elim i [ ]
  member-chunk_ids c (x ∷ xs) (inl e) =
      subst (λ z. member z.chunk_id (chunk_ids (x ∷ xs)) ≡ true) (sym e)
        (ground (arith, text_eq_refl x.chunk_id))
  member-chunk_ids c (x ∷ xs) (inr i) = ground (arith, member-chunk_ids c xs i)

  -- In a table with distinct ids a row is found by its id.
  pub find_chunk-In :
      (c : Stored F) (cs : List (Stored F))
      → IsKeyed cs
      → In c cs
      → find_chunk c.chunk_id cs ≡ some c
  unfolding find_chunk chunk_ids
  find_chunk-In c [] h i = elim i [ ]
  find_chunk-In c (x ∷ xs) h (inl e) =
      subst (λ z. find_chunk z.chunk_id (x ∷ xs) ≡ some z) (sym e)
        (ground (arith, text_eq_refl x.chunk_id))
  find_chunk-In c (x ∷ xs) h (inr i) = elim (Bool-cases (text_eq c.chunk_id x.chunk_id)) [
    | inr e ↦ rw (e, find_chunk) (find_chunk-In c xs h.1 i)
    | inl e ↦
        let same = text_eq_sound c.chunk_id x.chunk_id e in
        let held = member-chunk_ids c xs i in absurd (ground (arith, same, held, h.0))
  ]
