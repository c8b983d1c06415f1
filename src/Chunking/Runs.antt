-- ===== src/Chunking/Runs.antt =====
-- Tables survive the splitting (src/finance_rag/chunking/hierarchical.py).
use finance_rag.Prelude.{
  ◌≡◌, refl, sym, ap, ◌∙◌, subst, ◌⊎◌, inl, inr, Bool, true, false, not, List, [], ◌∷◌, ◌++◌,
  is_empty, All, arith, Bool-cases,
}
use mathlib.Core.List.{append_assoc}
use finance_rag.Text.{Text}
use finance_rag.Chunking.Structure.{same_flag, is_table_line, flushes, splitlines}

-- The lines of some runs, in order.
unfoldable pub lines_of : List (Bool × List Text) → List Text
lines_of [] = []
lines_of (r ∷ rs) = r.1 ++ lines_of rs

-- Every line of the run is a table line, or none is.
abbrev pub IsUniform : Bool × List Text → Type 0
IsUniform r = All (λ l. is_table_line l ≡ r.0) r.1

-- No run is empty, and runs of table lines and of other lines take turns, from this flag on.
abbrev pub Alternates : Bool → List (Bool × List Text) → Type 0
Alternates flag [] = Unit
Alternates flag (r ∷ rs) = (r.0 ≡ flag) × (is_empty r.1 ≡ false) × Alternates (not flag) rs

is_empty-nil : (xs : List Text) → is_empty xs ≡ true → xs ≡ []
is_empty-nil [] h = refl
is_empty-nil (x ∷ xs) h = absurd (ground arith)

lines_of-flushes :
    (flag : Bool) (buffer lines : List Text)
    → lines_of (flushes flag buffer lines) ≡ buffer ++ lines
unfolding lines_of flushes
lines_of-flushes flag [] [] = refl
lines_of-flushes flag (b ∷ bs) [] = refl
lines_of-flushes flag buffer (l ∷ ls) =
    let rest = lines_of-flushes (is_table_line l) (l ∷ []) ls in
    elim (Bool-cases (same_flag (is_table_line l) flag)) [
      | inl e ↦
          rw (e, flushes)
            (lines_of-flushes flag (buffer ++ (l ∷ [])) ls ∙ append_assoc buffer (l ∷ []) ls)
      | inr e ↦ elim (Bool-cases (is_empty buffer)) [
        | inl g ↦ rw (e, g, flushes) (rest ∙ ap (λ t. t ++ (l ∷ ls)) (sym (is_empty-nil buffer g)))
        | inr g ↦ rw (e, g, flushes) (ap (λ t. buffer ++ t) rest)
      ]
    ]

same_flag_eq : (a b : Bool) → same_flag a b ≡ true → a ≡ b
same_flag_eq true true h = refl
same_flag_eq true false h = ground arith
same_flag_eq false true h = ground arith
same_flag_eq false false h = refl

same_flag_ne : (a b : Bool) → same_flag a b ≡ false → a ≡ not b
same_flag_ne true true h = ground arith
same_flag_ne true false h = refl
same_flag_ne false true h = refl
same_flag_ne false false h = ground arith

All-snoc :
    (flag : Bool) (ls : List Text) (l : Text)
    → All (λ x. is_table_line x ≡ flag) ls
    → is_table_line l ≡ flag
    → All (λ x. is_table_line x ≡ flag) (ls ++ (l ∷ []))
All-snoc flag [] l h e = (e, tt)
All-snoc flag (x ∷ xs) l h e = (h.0, All-snoc flag xs l h.1 e)

flushes-IsUniform :
    (flag : Bool) (buffer lines : List Text)
    → All (λ l. is_table_line l ≡ flag) buffer
    → All IsUniform (flushes flag buffer lines)
unfolding flushes
flushes-IsUniform flag [] [] h = tt
flushes-IsUniform flag (b ∷ bs) [] h = (h, tt)
flushes-IsUniform flag buffer (l ∷ ls) h = elim (Bool-cases (same_flag (is_table_line l) flag)) [
  | inl e ↦
      rw (e, flushes)
        (flushes-IsUniform flag (buffer ++ (l ∷ [])) ls
          (All-snoc flag buffer l h (same_flag_eq (is_table_line l) flag e)))
  | inr e ↦
      let rest = flushes-IsUniform (is_table_line l) (l ∷ []) ls (refl, tt) in
      elim (Bool-cases (is_empty buffer)) [
        | inl g ↦ rw (e, g, flushes) rest
        | inr g ↦ rw (e, g, flushes) (h, rest)
      ]
]

is_empty-snoc : (xs : List Text) (x : Text) → is_empty (xs ++ (x ∷ [])) ≡ false
is_empty-snoc [] x = refl
is_empty-snoc (y ∷ xs) x = refl

flushes-Alternates :
    (flag : Bool) (buffer lines : List Text)
    → is_empty buffer ≡ false
    → Alternates flag (flushes flag buffer lines)
unfolding flushes
flushes-Alternates flag [] [] h = absurd (ground arith)
flushes-Alternates flag (b ∷ bs) [] h = (refl, refl, tt)
flushes-Alternates flag buffer (l ∷ ls) h = elim (Bool-cases (same_flag (is_table_line l) flag)) [
  | inl e ↦
      rw (e, flushes) (flushes-Alternates flag (buffer ++ (l ∷ [])) ls (is_empty-snoc buffer l))
  | inr e ↦
      let rest = flushes-Alternates (is_table_line l) (l ∷ []) ls refl in
      let turned =
        subst (λ z. Alternates z (flushes (is_table_line l) (l ∷ []) ls))
          (same_flag_ne (is_table_line l) flag e) rest in
      rw (e, h, flushes) (refl, h, turned)
]

flushes-starts :
    (ls : List Text)
    → Alternates false (flushes false [] ls) ⊎ Alternates true (flushes false [] ls)
unfolding flushes
flushes-starts [] = inl tt
flushes-starts (l ∷ ls) = elim (Bool-cases (is_table_line l)) [
  | inl e ↦ let run = flushes-Alternates true (l ∷ []) ls refl in rw (e, flushes) (inr run)
  | inr e ↦ let run = flushes-Alternates false (l ∷ []) ls refl in rw (e, flushes) (inl run)
]

-- The lines of a text fall into runs of table lines and runs of other lines that take turns, so no
-- table is cut in two and none is joined with the text around it; and together, in order, the runs
-- are the lines of the text: none is lost, changed or moved.
pub flushes-runs :
    (text : Text)
    → (lines_of (flushes false [] (splitlines text)) ≡ splitlines text)
      × All IsUniform (flushes false [] (splitlines text))
      × (Alternates false (flushes false [] (splitlines text))
          ⊎ Alternates true (flushes false [] (splitlines text)))
flushes-runs text = (
  lines_of-flushes false [] (splitlines text),
  flushes-IsUniform false [] (splitlines text) tt,
  flushes-starts (splitlines text),
)
