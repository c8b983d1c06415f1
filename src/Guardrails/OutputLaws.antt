-- ===== src/Guardrails/OutputLaws.antt =====
-- What the output guardrail promises of citations and of what it lets out
-- (src/finance_rag/guardrails/pipeline.py).
use finance_rag.Prelude.{
  ◌≤◌, ◌≡◌, refl, ◌⊎◌, inl, inr, ◌↔◌, Bool, true, false, ◌||◌, not, List, [], ◌∷◌, ◌++◌,
  if◌then◌else◌, length, all_of, is_empty, keep, In, In-append_left, In-append_right, arith,
  Bool-cases,
}
use mathlib.Core.Path.{sym, subst}
use finance_rag.Text.{Text, lower, member, text_eq}
use finance_rag.Text.Laws.{member-In}
use finance_rag.Text.Regex.{search}
use finance_rag.Config.{Settings}
use finance_rag.Models.{Citation, RetrievedChunk}
use finance_rag.Guardrails.Patterns.{directive, non_citation, is_id_char}
use finance_rag.Guardrails.Output.{
  Findings, collect, conclude, check_output, examine, known_ids, tokens, ungrounded,
}
use finance_rag.Guardrails.Scan.{tokens_complete}

In-keep : (p : Text → Bool) (c : Text) (xs : List Text) → In c xs → p c ≡ true → In c (keep p xs)
In-keep p c [] h t = elim h [ ]
In-keep p c (x ∷ xs) (inl e) t = ground (arith)
In-keep p c (x ∷ xs) (inr h) t = ground (arith, In-keep p c xs h)

keep-In : (p : Text → Bool) (c : Text) (xs : List Text) → In c (keep p xs) → In c xs × (p c ≡ true)
keep-In p c [] h = elim h [ ]
keep-In p c (x ∷ xs) h = ground (arith, keep-In p c xs)

-- No id twice.
abbrev pub Distinct : List Text → Type 0
Distinct [] = Unit
Distinct (x ∷ xs) = (member x xs ≡ false) × Distinct xs

collect-old : (c : Text) (acc ts : List Text) → In c acc → In c (collect acc ts)
unfolding collect
collect-old c acc [] h = h
collect-old c acc (t ∷ ts) h = elim (Bool-cases (non_citation t || member t acc)) [
  | inl e ↦ rw e (collect-old c acc ts h)
  | inr e ↦ rw e (collect-old c (acc ++ (t ∷ [])) ts (In-append_left c acc (t ∷ []) h))
]

collect-In :
    (c : Text) (acc ts : List Text) → In c ts → non_citation c ≡ false → In c (collect acc ts)
unfolding collect
collect-In c acc [] h f = elim h [ ]
collect-In c acc (t ∷ ts) (inl p) f = elim (Bool-cases (non_citation t || member t acc)) [
  | inl e ↦ rw e (collect-old c acc ts (member-In c acc (ground arith)))
  | inr e ↦ rw e (collect-old c (acc ++ (t ∷ [])) ts (In-append_right c acc (t ∷ []) (inl p)))
]
collect-In c acc (t ∷ ts) (inr p) f =
    collect-In c (if non_citation t || member t acc then acc else acc ++ (t ∷ [])) ts p f

In-append-cases : (c : Text) (xs ys : List Text) → In c (xs ++ ys) → In c xs ⊎ In c ys
In-append-cases c [] ys h = inr h
In-append-cases c (x ∷ xs) ys (inl e) = inl (inl e)
In-append-cases c (x ∷ xs) ys (inr h) = elim (In-append-cases c xs ys h) [
  | inl i ↦ inl (inr i)
  | inr i ↦ inr i
]

collect_sound :
    (c : Text) (acc ts : List Text)
    → In c (collect acc ts)
    → In c acc ⊎ (In c ts × (non_citation c ≡ false))
unfolding collect
collect_sound c acc [] h = inl h
collect_sound c acc (t ∷ ts) h = elim (Bool-cases (non_citation t || member t acc)) [
  | inl e ↦ elim (collect_sound c acc ts (rw e at h)) [
    | inl i ↦ inl i
    | inr (i, f) ↦ inr (inr i, f)
  ]
  | inr e ↦ elim (collect_sound c (acc ++ (t ∷ [])) ts (rw e at h)) [
    | inl i ↦ elim (In-append-cases c acc (t ∷ []) i) [
      | inl k ↦ inl k
      | inr k ↦ inr (elim k [ inl p ↦ inl p | inr q ↦ absurd q ], only_one k e)
    ]
    | inr (i, f) ↦ inr (inr i, f)
  ]
]
  where
    only_one : In c (t ∷ []) → (non_citation t || member t acc) ≡ false → non_citation c ≡ false
    only_one (inl p) e = ground arith
    only_one (inr q) e = absurd q

text_eq_comm : (s t : Text) → text_eq s t ≡ text_eq t s
unfolding text_eq
text_eq_comm [] [] = refl
text_eq_comm [] (d ∷ t) = refl
text_eq_comm (c ∷ s) [] = refl
text_eq_comm (c ∷ s) (d ∷ t) = ground (arith, text_eq_comm s t)

member-append : (a : Text) (xs ys : List Text) → member a (xs ++ ys) ≡ (member a xs || member a ys)
unfolding member
member-append a [] ys = refl
member-append a (x ∷ xs) ys = ground (arith, member-append a xs ys)

Distinct-snoc :
    (t : Text) (acc : List Text) → Distinct acc → member t acc ≡ false → Distinct (acc ++ (t ∷ []))
unfolding member
Distinct-snoc t [] d h = (refl, tt)
Distinct-snoc t (x ∷ acc) (d, ds) h = (
  ground (arith, member-append x acc (t ∷ []), text_eq_comm x t),
  Distinct-snoc t acc ds (ground arith),
)

collect-Distinct : (acc ts : List Text) → Distinct acc → Distinct (collect acc ts)
unfolding collect
collect-Distinct acc [] d = d
collect-Distinct acc (t ∷ ts) d = elim (Bool-cases (non_citation t || member t acc)) [
  | inl e ↦ rw e (collect-Distinct acc ts d)
  | inr e ↦ rw e (collect-Distinct (acc ++ (t ∷ [])) ts (Distinct-snoc t acc d (ground arith)))
]

conclude_passed :
    (answer : Text) (f : Findings)
    → (conclude answer f).allowed ≡ true
    → (ungrounded f ≡ false)
      × ((conclude answer f).hallucinated_citations ≡ f.hallucinated)
      × ((conclude answer f).grounded_ids ≡ f.grounded)
unfolding conclude
conclude_passed answer f h = ground arith

nonempty_of_In : (c : Text) (xs : List Text) → In c xs → is_empty xs ≡ false
nonempty_of_In c [] h = absurd h
nonempty_of_In c (x ∷ xs) h = refl

some_member : (xs : List Text) → is_empty xs ≡ false → (g : Text) × In g xs
some_member [] h = cc
some_member (x ∷ xs) h = (x, inl refl)

module _ {F : Type 0} (st : Settings) (answer : Text) (citations : List (Citation F))
    (retrieved : List (RetrievedChunk F)) (already_refused : Bool) where
  abbrev findings : Findings
  findings = examine st answer citations retrieved already_refused

  -- The ids that the guardrail works with are the bracketed tokens of the answer that are not
  -- footnote numbers or placeholders of its own, each of them once.
  pub examine-cited :
      Distinct findings.cited
      × ((c : Text) → In c findings.cited ↔ (In c (tokens answer) × (non_citation c ≡ false)))
  unfolding examine
  examine-cited = (
    collect-Distinct [] (tokens answer) tt,
    λ c. (
      λ h. elim (collect_sound c [] (tokens answer) h) [ inl n ↦ absurd n | inr p ↦ p ],
      λ (h : In c (tokens answer) × (non_citation c ≡ false)).
          collect-In c [] (tokens answer) h.0 h.1,
    ),
  )

  hallucinated-In :
      (c : Text)
      → In c (tokens answer)
      → non_citation c ≡ false
      → member c (known_ids citations retrieved) ≡ false
      → In c findings.hallucinated
  unfolding examine
  hallucinated-In c h f u =
      In-keep (λ x. not (member x (known_ids citations retrieved))) c _
        (collect-In c [] (tokens answer) h f) (ground arith)

  resolves :
      st.guardrail_require_citations ≡ true
      → is_empty retrieved ≡ false
      → already_refused ≡ false
      → ungrounded findings ≡ false
      → is_empty findings.hallucinated ≡ false
      → is_empty findings.grounded ≡ false
  unfolding examine ungrounded
  resolves required some_retrieved asked open_ fab = ground arith

  grounded_known :
      (g : Text) → In g findings.grounded → member g (known_ids citations retrieved) ≡ true
  unfolding examine
  grounded_known g h = (keep-In (λ c. member c (known_ids citations retrieved)) g _ h).1

  -- A fabricated citation is reported: an id in brackets anywhere in the answer, of four or more
  -- id characters and no footnote number or placeholder, that names neither a retrieved passage
  -- nor a citation of the state, is among the hallucinated citations of the verdict, unless the
  -- answer is blocked for its directive language.
  pub fabricated_reported :
      (pre id post : Text)
      → answer ≡ pre ++ (b'[' ∷ (id ++ b']' ∷ post))
      → all_of is_id_char id ≡ true
      → 4 ≤ length id
      → non_citation id ≡ false
      → member id (known_ids citations retrieved) ≡ false
      → search directive (lower answer) ≡ false
      → In id (check_output st answer citations retrieved already_refused).hallucinated_citations
  unfolding check_output conclude
  fabricated_reported pre id post e chars long f u d =
      let there : In id (tokens answer) =
        subst (λ x. In id (tokens x)) (sym e) (tokens_complete pre id post chars long) in
      ground (arith, hallucinated-In id there f u)

  -- An answer that is let out with a fabricated citation in it has a citation that resolves too:
  -- where citations are required and passages were retrieved, an allowed answer that is no refusal
  -- and has a hallucinated citation also has a grounded one, and that one names a known passage.
  pub allowed-grounded :
      (h : Text)
      → st.guardrail_require_citations ≡ true
      → is_empty retrieved ≡ false
      → already_refused ≡ false
      → (check_output st answer citations retrieved already_refused).allowed ≡ true
      → In h (check_output st answer citations retrieved already_refused).hallucinated_citations
      → (g : Text) × In g (check_output st answer citations retrieved already_refused).grounded_ids
        × In g (known_ids citations retrieved)
  unfolding check_output
  allowed-grounded h required some_retrieved asked passed fab =
      let (open_, same_h, same_g) = conclude_passed answer findings passed in
      let some_fab = nonempty_of_In h findings.hallucinated (subst (In h) same_h fab) in
      let (g, there) =
        some_member findings.grounded (resolves required some_retrieved asked open_ some_fab) in
      (g, subst (In g) (sym same_g) there, member-In g _ (grounded_known g there))
