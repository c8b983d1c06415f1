-- ===== src/Guardrails/InputLaws.antt =====
-- What the input guardrail lets in, and what it hands on (src/finance_rag/guardrails/pipeline.py).
use finance_rag.Prelude.{
  ℕ, ◌≡◌, refl, inl, inr, Bool, true, false, not, ◌&&◌, ◌||◌, some, List, [], ◌∷◌, ◌++◌, leb,
  if◌then◌else◌, length, is_empty, any_of, arith, Bool-cases, In, In-append_left, In-append_right,
  ltb, ◌≤◌,
}
use finance_rag.Text.{Text, lower, strip, contains}
use finance_rag.Text.Regex.{Regex, search, sub}
use finance_rag.Text.Sorting.{sorted_set_complete}
use finance_rag.Text.Regex.Laws.{sub-absent}
use finance_rag.Config.{Settings}
use finance_rag.Guardrails.Patterns.{disallowed_patterns, pii_patterns, injection_markers, redact}
use finance_rag.Guardrails.Input.{
  pattern_reasons, marker_reasons, redact_found, is_hard, weigh, scan_input, check_input,
  prompt_injection, control_token_injection,
}

any_of-append :
    {A : Type 0} (p : A → Bool) (xs ys : List A)
    → any_of p (xs ++ ys) ≡ (any_of p xs || any_of p ys)
any_of-append p [] ys = refl
any_of-append p (x ∷ xs) ys = ground (arith, any_of-append p xs ys)

pattern_reasons-hard :
    (ps : List Regex) (s : Text)
    → any_of is_hard (pattern_reasons ps s) ≡ any_of (λ p. search p s) ps
unfolding pattern_reasons is_hard
pattern_reasons-hard [] s = refl
pattern_reasons-hard (p ∷ ps) s = elim (Bool-cases (search p s)) [
  | inl e ↦ rw e refl
  | inr e ↦ rw e (pattern_reasons-hard ps s)
]

marker_reasons-hard :
    (ms : List Text) (s : Text)
    → any_of is_hard (marker_reasons ms s) ≡ any_of (λ m. contains (lower m) s) ms
unfolding marker_reasons is_hard
marker_reasons-hard [] s = refl
marker_reasons-hard (m ∷ ms) s = elim (Bool-cases (contains (lower m) s)) [
  | inl e ↦ rw e refl
  | inr e ↦ rw e (marker_reasons-hard ms s)
]

redact_found-soft :
    (ps : List (Regex × Text)) (s : Text) → any_of is_hard (redact_found ps s).0 ≡ false
unfolding redact_found is_hard
redact_found-soft [] s = refl
redact_found-soft ((p, repl) ∷ ps) s = elim (Bool-cases (search p s)) [
  | inl e ↦ rw e (redact_found-soft ps (sub p repl s))
  | inr e ↦ rw e (redact_found-soft ps s)
]

-- The redaction that reports what it found is plain substitution of every pattern.
redact_found-redact : (ps : List (Regex × Text)) (s : Text) → (redact_found ps s).1 ≡ redact ps s
unfolding redact_found redact
redact_found-redact [] s = refl
redact_found-redact ((p, repl) ∷ ps) s = elim (Bool-cases (search p s)) [
  | inl e ↦ rw e (redact_found-redact ps (sub p repl s))
  | inr e ↦ rw (e, sub-absent p repl s e) (redact_found-redact ps s)
]

or_false : (b : Bool) → not (b || false) ≡ not b
or_false true = refl
or_false false = refl

not_long : (n limit : ℕ) → n ≤ limit → ltb limit n ≡ false
not_long n limit h = ground arith

-- What the guardrail means to keep out.
abbrev pub is_clean : Text → Bool
is_clean s = not (
    any_of (λ p. search p (lower s)) disallowed_patterns
    || any_of (λ m. contains (lower m) (lower s)) injection_markers)

hard_found :
    (s : Text)
    → any_of is_hard (pattern_reasons disallowed_patterns s ++ marker_reasons injection_markers s)
      ≡ (any_of (λ p. search p s) disallowed_patterns
          || any_of (λ m. contains (lower m) s) injection_markers)
hard_found s = rw (any_of-append, pattern_reasons-hard, marker_reasons-hard) refl

scan_input-allowed : (st : Settings) (s : Text) → (scan_input st s).allowed ≡ is_clean s
unfolding scan_input weigh
scan_input-allowed st s =
    let hard =
      pattern_reasons disallowed_patterns (lower s) ++ marker_reasons injection_markers (lower s) in
    let pii = (redact_found pii_patterns s).0 in
    elim (Bool-cases st.guardrail_block_pii) [
      | inl e ↦
          rw
            (
              e,
              any_of-append is_hard hard pii,
              hard_found (lower s),
              redact_found-soft pii_patterns s,
            )
            (or_false _)
      | inr e ↦ rw (e, hard_found (lower s)) refl
    ]

-- The guardrail lets a question in exactly if, with the white space at its ends gone, it is no
-- longer than the limit and not empty, and neither a disallowed pattern nor a control token occurs
-- in its lower-case form.
pub check_input-allowed :
    (st : Settings) (s : Text)
    → (check_input st s).allowed ≡ (
        leb (length (strip s)) st.guardrail_max_input_chars
        && (not (is_empty (strip s)) && is_clean (strip s)))
unfolding check_input
check_input-allowed st s = ground (arith, scan_input-allowed st (strip s))

-- With PII blocking on, the text that an allowed question is handed on as is the stripped question
-- with every PII pattern substituted; with it off, it is the stripped question.
pub check_input-sanitized :
    (st : Settings) (s : Text)
    → (check_input st s).allowed ≡ true
    → (check_input st s).sanitized_text
      ≡ some (if st.guardrail_block_pii then redact pii_patterns (strip s) else strip s)
unfolding check_input scan_input weigh
check_input-sanitized st s h = ground (arith, redact_found-redact pii_patterns (strip s))

pattern_reasons-In :
    (ps : List Regex) (s : Text)
    → any_of (λ p. search p s) ps ≡ true
    → In prompt_injection (pattern_reasons ps s)
unfolding pattern_reasons
pattern_reasons-In [] s h = cc
pattern_reasons-In (p ∷ ps) s h = elim (Bool-cases (search p s)) [
  | inl e ↦ rw e (inl refl)
  | inr e ↦ rw e (pattern_reasons-In ps s (rw e at h))
]

marker_reasons-In :
    (ms : List Text) (s : Text)
    → any_of (λ m. contains (lower m) s) ms ≡ true
    → In control_token_injection (marker_reasons ms s)
unfolding marker_reasons
marker_reasons-In [] s h = cc
marker_reasons-In (m ∷ ms) s h = elim (Bool-cases (contains (lower m) s)) [
  | inl e ↦ rw e (inl refl)
  | inr e ↦ rw e (marker_reasons-In ms s (rw e at h))
]

scan_input-In :
    (st : Settings) (s r : Text)
    → In r (
        pattern_reasons disallowed_patterns (lower s) ++ marker_reasons injection_markers (lower s))
    → In r (scan_input st s).reasons
unfolding scan_input weigh
scan_input-In st s r h = elim (Bool-cases st.guardrail_block_pii) [
  | inl e ↦ rw e (sorted_set_complete r _ (In-append_left r _ (redact_found pii_patterns s).0 h))
  | inr e ↦ rw e (sorted_set_complete r _ h)
]

empty_clean :
    (s : Text) → is_empty s ≡ true → any_of (λ p. search p (lower s)) disallowed_patterns ≡ true → ⊥
unfolding disallowed_patterns search lower
empty_clean [] e h = cc
empty_clean (c ∷ s) e h = cc

empty_unmarked :
    (s : Text)
    → is_empty s ≡ true
    → any_of (λ m. contains (lower m) (lower s)) injection_markers ≡ true
    → ⊥
unfolding injection_markers contains lower
empty_unmarked [] e h = cc
empty_unmarked (c ∷ s) e h = cc

module _ (st : Settings) where
  scanned :
      (s : Text)
      → length (strip s) ≤ st.guardrail_max_input_chars
      → ((is_empty (strip s) ≡ true) → ⊥)
      → (r : Text)
      → In r (
          pattern_reasons disallowed_patterns (lower (strip s))
          ++ marker_reasons injection_markers (lower (strip s)))
      → In r (check_input st s).reasons
  unfolding check_input
  scanned s short full r h = elim (Bool-cases (is_empty (strip s))) [
    | inl e ↦ absurd (full e)
    | inr e ↦
        rw (not_long (length (strip s)) st.guardrail_max_input_chars short, e)
          (scan_input-In st (strip s) r h)
  ]

-- The reasons tell what was found: where a disallowed pattern occurs in a question of a proper
-- length, "prompt_injection" is among them, and where a control token does,
-- "control_token_injection" is.
pub check_input-reasons :
    (st : Settings) (s : Text)
    → length (strip s) ≤ st.guardrail_max_input_chars
    → (any_of (λ p. search p (lower (strip s))) disallowed_patterns ≡ true
        → In prompt_injection (check_input st s).reasons)
      × (any_of (λ m. contains (lower m) (lower (strip s))) injection_markers ≡ true
          → In control_token_injection (check_input st s).reasons)
check_input-reasons st s short = (
  λ h.
      scanned st s short (λ e. empty_clean (strip s) e h) prompt_injection
        (In-append_left _ _ _ (pattern_reasons-In disallowed_patterns (lower (strip s)) h)),
  λ h.
      scanned st s short (λ e. empty_unmarked (strip s) e h) control_token_injection
        (In-append_right _ _ _ (marker_reasons-In injection_markers (lower (strip s)) h)),
)
