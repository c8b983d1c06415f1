-- ===== src/Api/Auth/Keys.antt =====
-- What the table of API keys holds (src/finance_rag/api/auth.py).
use finance_rag.Prelude.{
  ℕ, suc, ◌≡◌, refl, ◌⊎◌, inl, inr, true, false, ◌||◌, none, some, List, [], ◌∷◌, is_empty, In,
  arith, Bool-cases, Option-cases, sym,
}
use mathlib.Core.Path.{subst}
use finance_rag.Text.{Text, text_eq, strip, split, split_max}
use finance_rag.Text.Laws.{text_eq_sound, text_eq_refl}
use finance_rag.Api.Auth.{
  Principal, Result-cases, ok, parse_scopes, KeyTable, find_key, key_principal, append_key, add_key,
  add_fields, add_entry, add_entries, parse_api_keys,
}

find_key-append_new :
    (d : Text) (p : Principal) (t : KeyTable)
    → find_key d t ≡ none
    → find_key d (append_key t d p) ≡ some p
unfolding find_key append_key
find_key-append_new d p [] h = ground (arith, text_eq_refl d)
find_key-append_new d p ((e, q) ∷ t) h = ground (arith, find_key-append_new d p t)

find_key-append_old :
    (d e : Text) (p q : Principal) (t : KeyTable)
    → find_key d t ≡ some p
    → find_key d (append_key t e q) ≡ some p
unfolding find_key append_key
find_key-append_old d e p q [] h = cc
find_key-append_old d e p q ((f, r) ∷ t) h = ground (arith, find_key-append_old d e p q t)

-- What is found in a longer table was there, or was added.
find_key-append_cases :
    (d e : Text) (p q : Principal) (t : KeyTable)
    → find_key d (append_key t e q) ≡ some p
    → (find_key d t ≡ some p) ⊎ ((d ≡ e) × (p ≡ q))
unfolding find_key append_key
find_key-append_cases d e p q [] h = elim (Bool-cases (text_eq d e)) [
  | inl x ↦ inr (text_eq_sound d e x, ground arith)
  | inr x ↦ absurd (ground arith)
]
find_key-append_cases d e p q ((f, r) ∷ t) h = ground (arith, find_key-append_cases d e p q t)

not_in_empty : (d : Text) (p : Principal) → find_key d [] ≡ some p → ⊥
unfolding find_key
not_in_empty d p h = cc

module _ (digest : Text → Text) where
  -- The entry's four fields are those of this principal, whose scopes its third field names, and
  -- the digest is that of the fourth field.
  abbrev pub Entry : Text → Text → Principal → Type 0
  Entry e d p =
      (k : Text) × (o : Text) × (s : Text) × (x : Text) × (names : List Text) × (split_max b':' 3
          (strip e)
        ≡ k ∷ o ∷ s ∷ x ∷ [])
      × (parse_scopes (strip s) (strip k) ≡ ok names)
      × (d ≡ digest (strip x))
      × (p ≡ key_principal (strip o) (strip k) names)

  add_key-ok :
      (n : ℕ) (t u : KeyTable) (k o s x : Text)
      → add_key digest n t k o s x ≡ ok u
      → (names : List Text) × (parse_scopes s k ≡ ok names)
        × (find_key (digest x) t ≡ none)
        × (u ≡ append_key t (digest x) (key_principal o k names))
  unfolding add_key
  add_key-ok n t u k o s x h = elim (Bool-cases (is_empty k || is_empty o || is_empty x)) [
    | inl b ↦ absurd (ground arith)
    | inr b ↦ elim (Option-cases (find_key (digest x) t)) [
      | inr (q, f) ↦ absurd (ground arith)
      | inl f ↦ elim (Result-cases (parse_scopes s k)) [
        | inl (e, g) ↦ absurd (ground arith)
        | inr (names, g) ↦ (names, g, f, ground arith)
      ]
    ]
  ]

  -- An entry that is read adds its key, at a digest that was free.
  abbrev Added : KeyTable → KeyTable → Text → Type 0
  Added t u e =
      (d : Text) × (p : Principal) × Entry e d p × (find_key d t ≡ none) × (u ≡ append_key t d p)

  add_fields-ok :
      (n : ℕ) (t u : KeyTable) (e : Text) (fields : List Text)
      → split_max b':' 3 (strip e) ≡ fields
      → add_fields digest n t fields ≡ ok u
      → Added t u e
  unfolding add_fields
  add_fields-ok n t u e (k ∷ o ∷ s ∷ x ∷ []) c h =
      let (names, scoped, free, made) =
        add_key-ok n t u (strip k) (strip o) (strip s) (strip x) h in
      (
        digest (strip x),
        key_principal (strip o) (strip k) names,
        (k, o, s, x, names, c, scoped, refl, refl),
        free,
        made,
      )
  add_fields-ok n t u e [] c h = cc
  add_fields-ok n t u e (k ∷ []) c h = cc
  add_fields-ok n t u e (k ∷ o ∷ []) c h = cc
  add_fields-ok n t u e (k ∷ o ∷ s ∷ []) c h = cc
  add_fields-ok n t u e (k ∷ o ∷ s ∷ x ∷ y ∷ r) c h = cc

  add_entry-ok :
      (n : ℕ) (t u : KeyTable) (e : Text)
      → add_entry digest n t e ≡ ok u
      → ((is_empty (strip e) ≡ true) × (u ≡ t)) ⊎ ((is_empty (strip e) ≡ false) × Added t u e)
  unfolding add_entry
  add_entry-ok n t u e h = elim (Bool-cases (is_empty (strip e))) [
    | inl b ↦ inl (b, ground arith)
    | inr b ↦ inr (b, add_fields-ok n t u e (split_max b':' 3 (strip e)) refl (ground arith))
  ]

  -- No later entry takes a key away.
  add_entries-keep :
      (n : ℕ) (t u : KeyTable) (es : List Text) (d : Text) (p : Principal)
      → add_entries digest n t es ≡ ok u
      → find_key d t ≡ some p
      → find_key d u ≡ some p
  unfolding add_entries
  add_entries-keep n t u [] d p h f = ground arith
  add_entries-keep n t u (e ∷ es) d p h f = elim (Result-cases (add_entry digest n t e)) [
    | inl (x, r) ↦ absurd (ground arith)
    | inr (v, r) ↦
        let after : find_key d v ≡ some p = elim (add_entry-ok n t v e r) [
          | inl (b, same) ↦ subst (λ (w : KeyTable). find_key d w ≡ some p) (sym same) f
          | inr (b, (d', p', made, free, same)) ↦
              subst (λ (w : KeyTable). find_key d w ≡ some p) (sym same)
                (find_key-append_old d d' p p' t f)
        ] in
        add_entries-keep (suc n) v u es d p (ground arith) after
  ]

  add_entries-In :
      (n : ℕ) (t u : KeyTable) (es : List Text) (e : Text)
      → add_entries digest n t es ≡ ok u
      → In e es
      → is_empty (strip e) ≡ false
      → (d : Text) × (p : Principal) × Entry e d p × (find_key d u ≡ some p)
  unfolding add_entries
  add_entries-In n t u [] e h i b = absurd i
  add_entries-In n t u (x ∷ es) e h i b = elim (Result-cases (add_entry digest n t x)) [
    | inl (f, r) ↦ absurd (ground arith)
    | inr (v, r) ↦ here_or_later v r i (λ j. add_entries-In (suc n) v u es e (ground arith) j b)
  ]
    where
      here_or_later :
          (v : KeyTable)
          → add_entry digest n t x ≡ ok v
          → In e (x ∷ es)
          → (In e es → (d : Text) × (p : Principal) × Entry e d p × (find_key d u ≡ some p))
          → (d : Text) × (p : Principal) × Entry e d p × (find_key d u ≡ some p)
      here_or_later v r (inr j) later = later j
      here_or_later v r (inl same) later = elim (add_entry-ok n t v x r) [
        | inl (b', _) ↦ absurd (ground arith)
        | inr (b', (d, p, made, free, grown)) ↦ (
          d,
          p,
          subst (λ (w : Text). Entry w d p) (sym same) made,
          add_entries-keep (suc n) v u es d p (ground arith) (
              subst (λ (w : KeyTable). find_key d w ≡ some p) (sym grown)
                (find_key-append_new d p t free)),
        )
      ]

  add_entries-origin :
      (n : ℕ) (t u : KeyTable) (es : List Text) (d : Text) (p : Principal)
      → add_entries digest n t es ≡ ok u
      → find_key d u ≡ some p
      → (find_key d t ≡ some p) ⊎ ((e : Text) × In e es × Entry e d p)
  unfolding add_entries
  add_entries-origin n t u [] d p h f = inl (ground arith)
  add_entries-origin n t u (e ∷ es) d p h f = elim (Result-cases (add_entry digest n t e)) [
    | inl (x, r) ↦ absurd (ground arith)
    | inr (v, r) ↦ elim (add_entries-origin (suc n) v u es d p (ground arith) f) [
      | inr (e', i, made) ↦ inr (e', inr i, made)
      | inl g ↦ from_entry v g (add_entry-ok n t v e r)
    ]
  ]
    where
      from_entry :
          (v : KeyTable)
          → find_key d v ≡ some p
          → ((is_empty (strip e) ≡ true) × (v ≡ t)) ⊎ ((is_empty (strip e) ≡ false) × Added t v e)
          → (find_key d t ≡ some p) ⊎ ((e' : Text) × In e' (e ∷ es) × Entry e' d p)
      from_entry v g (inl (b, same)) = inl (subst (λ (w : KeyTable). find_key d w ≡ some p) same g)
      from_entry v g (inr (b, (d', p', made, free, same))) =
          elim (find_key-append_cases d d' p p' t
            (subst (λ (w : KeyTable). find_key d w ≡ some p) same g)) [
              | inl old ↦ inl old
              | inr (x, y) ↦ inr (
                e,
                inl refl,
                subst (λ (w : Text × Principal). Entry e w.0 w.1) (λ j. (sym x j, sym y j)) made,
              )
            ]

  -- A setting that parses gives a table with exactly the keys that it names: every entry that is
  -- not blank has its principal at the digest of its secret, and whatever the table finds is the
  -- principal of an entry whose secret has that digest.
  pub parse_api_keys-Entry :
      (raw : Text) (t : KeyTable)
      → parse_api_keys digest raw ≡ ok t
      → ((e : Text)
          → In e (split b',' raw)
          → is_empty (strip e) ≡ false
          → (d : Text) × (p : Principal) × Entry e d p × (find_key d t ≡ some p))
        × ((d : Text) (p : Principal)
            → find_key d t ≡ some p
            → (e : Text) × In e (split b',' raw) × Entry e d p)
  unfolding parse_api_keys
  parse_api_keys-Entry raw t h = (
    λ e i b. add_entries-In 1 [] t (split b',' raw) e h i b,
    λ d p f. elim (add_entries-origin 1 [] t (split b',' raw) d p h f) [
      | inl none_yet ↦ absurd (not_in_empty d p none_yet)
      | inr found ↦ found
    ],
  )
