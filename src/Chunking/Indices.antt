-- ===== src/Chunking/Indices.antt =====
-- The chunks of a document (src/finance_rag/chunking/hierarchical.py).
use finance_rag.Prelude.{
  ℕ, suc, ◌+◌, ◌<◌, ◌≡◌, refl, subst, ◌⊎◌, inl, inr, Option, none, some, List, [], ◌∷◌, ◌++◌, ltb,
  length, In, In-append_left, In-append_right, All, All-map, All-append, arith, Bool-cases,
}
use finance_rag.Text.{Text, codes}
use finance_rag.Config.{Settings}
use finance_rag.Models.{Chunk}
use finance_rag.Chunking.Structure.{split_off_tables, split_by_structure}
use finance_rag.Chunking.Windows.{Tokenizer, count_tokens}
use finance_rag.Chunking.Document.{
  DocumentMeta, parent_chunk, child_chunk, child_texts, emit_children, emit_section, emit_sections,
  chunk_document,
}

-- The chunks are numbered one by one, from a number on.
abbrev pub IsNumbered : ℕ → List Chunk → Type 0
IsNumbered n [] = Unit
IsNumbered n (c ∷ cs) = (c.index ≡ n) × IsNumbered (suc n) cs

-- A child with its section chunk before it, which has the title of the child's section.
abbrev pub HasParent : List Chunk → Chunk → Type 0
HasParent all c =
    (c.metadata.level ≡ some (codes "child"))
    × ((p : Chunk) × In p all
        × (c.parent_id ≡ some p.chunk_id)
        × (p.metadata.level ≡ some (codes "parent"))
        × (p.section ≡ c.section)
        × (p.index < c.index))

-- A section chunk, which has no parent; a child of a section without tokens, which has none
-- either; or a child with its parent.
abbrev pub Parented : Tokenizer → List (Option Text × Text) → List Chunk → Chunk → Type 0
Parented tk sections all c =
    ((c.metadata.level ≡ some (codes "parent")) × (c.parent_id ≡ none))
    ⊎ (((s : Option Text × Text) × In s sections
          × (count_tokens tk s.1 ≡ 0)
          × (c.section ≡ s.0)
          × (c.metadata.level ≡ some (codes "child"))
          × (c.parent_id ≡ none))
        ⊎ HasParent all c)

IsNumbered-append :
    (n : ℕ) (xs ys : List Chunk)
    → IsNumbered n xs
    → IsNumbered (n + length xs) ys
    → IsNumbered n (xs ++ ys)
IsNumbered-append n [] ys h g = subst (λ k. IsNumbered k ys) (omega arith) g
IsNumbered-append n (x ∷ xs) ys h g =
    (h.0, IsNumbered-append (suc n) xs ys h.1 (subst (λ k. IsNumbered k ys) (omega arith) g))

module _ (tk : Tokenizer) (meta : DocumentMeta) where
  emit_children-IsNumbered :
      (section parent : Option Text) (n : ℕ) (ts : List (Text × Text))
      → IsNumbered n (emit_children tk meta section parent n ts).0
        × ((emit_children tk meta section parent n ts).1
            ≡ n + length (emit_children tk meta section parent n ts).0)
  unfolding emit_children child_chunk
  emit_children-IsNumbered section parent n [] = (tt, omega arith)
  emit_children-IsNumbered section parent n (t ∷ ts) =
      let rest = emit_children-IsNumbered section parent (suc n) ts in
      ((refl, rest.0), omega (arith, rest.1))

  emit_section-IsNumbered :
      (st : Settings) (n : ℕ) (s : Option Text × Text)
      → IsNumbered n (emit_section tk st meta n s).0
        × ((emit_section tk st meta n s).1 ≡ n + length (emit_section tk st meta n s).0)
  unfolding emit_section parent_chunk
  emit_section-IsNumbered st n s =
      let texts = child_texts tk st (split_off_tables s.1) in
      let parent = parent_chunk tk meta n s.0 s.1 in
      let kids = emit_children-IsNumbered s.0 (some parent.chunk_id) (suc n) texts in
      let orphans = emit_children-IsNumbered s.0 none n texts in
      elim (Bool-cases (ltb 0 (count_tokens tk s.1))) [
        | inl e ↦ rw (e, emit_section) ((refl, kids.0), omega (arith, kids.1))
        | inr e ↦ rw (e, emit_section) orphans
      ]

  emit_sections-IsNumbered :
      (st : Settings) (n : ℕ) (ss : List (Option Text × Text))
      → IsNumbered n (emit_sections tk st meta n ss)
  unfolding emit_sections
  emit_sections-IsNumbered st n [] = tt
  emit_sections-IsNumbered st n (s ∷ ss) =
      let here = emit_section-IsNumbered st n s in
      let one = (emit_section tk st meta n s).0 in
      let next = (emit_section tk st meta n s).1 in
      IsNumbered-append n one (emit_sections tk st meta next ss) here.0 (
        subst (λ k. IsNumbered k (emit_sections tk st meta next ss)) here.1
          (emit_sections-IsNumbered st next ss))

  emit_children-Parented :
      (ss : List (Option Text × Text)) (all : List Chunk) (section : Option Text) (p : Chunk)
      (n : ℕ) (ts : List (Text × Text))
      → In p all
      → p.metadata.level ≡ some (codes "parent")
      → p.section ≡ section
      → p.index < n
      → All (Parented tk ss all) (emit_children tk meta section (some p.chunk_id) n ts).0
  unfolding emit_children child_chunk
  emit_children-Parented ss all section p n [] i l e k = tt
  emit_children-Parented ss all section p n (t ∷ ts) i l e k = (
    inr (inr (refl, (p, i, refl, l, e, k))),
    emit_children-Parented ss all section p (suc n) ts i l e (omega (arith, k)),
  )

  emit_children-orphans :
      (ss : List (Option Text × Text)) (all : List Chunk) (s : Option Text × Text) (n : ℕ)
      (ts : List (Text × Text))
      → In s ss
      → count_tokens tk s.1 ≡ 0
      → All (Parented tk ss all) (emit_children tk meta s.0 none n ts).0
  unfolding emit_children child_chunk
  emit_children-orphans ss all s n [] i e = tt
  emit_children-orphans ss all s n (t ∷ ts) i e =
      (inr (inl (s, i, e, refl, refl, refl)), emit_children-orphans ss all s (suc n) ts i e)

  emit_section-Parented :
      (st : Settings) (n : ℕ) (ss : List (Option Text × Text)) (s : Option Text × Text)
      → In s ss
      → All (Parented tk ss (emit_section tk st meta n s).0) (emit_section tk st meta n s).0
  unfolding emit_section parent_chunk
  emit_section-Parented st n ss s held =
      let texts = child_texts tk st (split_off_tables s.1) in
      let parent = parent_chunk tk meta n s.0 s.1 in
      let kids = (emit_children tk meta s.0 (some parent.chunk_id) (suc n) texts).0 in
      elim (Bool-cases (ltb 0 (count_tokens tk s.1))) [
        | inl e ↦
            rw (e, emit_section)
              (
                inl (refl, refl),
                emit_children-Parented ss (parent ∷ kids) s.0 parent (suc n) texts (inl refl) refl
                    refl (omega arith),
              )
        | inr e ↦
            let empty : count_tokens tk s.1 ≡ 0 = ground arith in
            rw (e, emit_section) (emit_children-orphans ss _ s n texts held empty)
      ]

  Parented-In :
      (ss : List (Option Text × Text)) (xs ys : List Chunk)
      → ((p : Chunk) → In p xs → In p ys)
      → (c : Chunk) → Parented tk ss xs c
      → Parented tk ss ys c
  Parented-In ss xs ys f c (inl e) = inl e
  Parented-In ss xs ys f c (inr (inl e)) = inr (inl e)
  Parented-In ss xs ys f c (inr (inr (child, (p, i, a, b, d, g)))) =
      inr (inr (child, (p, f p i, a, b, d, g)))

  emit_sections-Parented :
      (st : Settings) (n : ℕ) (all ss : List (Option Text × Text))
      → ((s : Option Text × Text) → In s ss → In s all)
      → All (Parented tk all (emit_sections tk st meta n ss)) (emit_sections tk st meta n ss)
  unfolding emit_sections
  emit_sections-Parented st n all [] f = tt
  emit_sections-Parented st n all (s ∷ ss) f =
      let one = (emit_section tk st meta n s).0 in
      let more = emit_sections tk st meta (emit_section tk st meta n s).1 ss in
      All-append (Parented tk all (one ++ more)) one more
        (All-map (Parented tk all one) (Parented tk all (one ++ more)) one
          (Parented-In all one (one ++ more) (λ p i. In-append_left p one more i))
          (emit_section-Parented st n all s (f s (inl refl))))
        (All-map (Parented tk all more) (Parented tk all (one ++ more)) more
          (Parented-In all more (one ++ more) (λ p i. In-append_right p one more i))
          (emit_sections-Parented st (emit_section tk st meta n s).1 all ss (λ x i. f x (inr i))))

  -- The chunks of a document are numbered from zero without a gap, and each is a section chunk, or a
  -- child that names the chunk of its own section, which stands before it in the document, as its
  -- parent; only a child of a section without tokens names none.
  pub chunk_document-Parented :
      (st : Settings) (text : Text)
      → IsNumbered 0 (chunk_document tk st text meta)
        × All
            (Parented tk (split_by_structure text) (chunk_document tk st text meta))
            (chunk_document tk st text meta)
  unfolding chunk_document
  chunk_document-Parented st text = (
    emit_sections-IsNumbered st 0 (split_by_structure text),
    emit_sections-Parented st 0 (split_by_structure text) (split_by_structure text) (λ s i. i),
  )
