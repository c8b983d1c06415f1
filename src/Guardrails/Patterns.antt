-- ===== src/Guardrails/Patterns.antt =====
-- The patterns and markers at the top of src/finance_rag/guardrails/pipeline.py.
use finance_rag.Prelude.{
  ℕ, ◌≡◌, refl, Bool, true, ◌&&◌, ◌||◌, not, List, [], ◌∷◌, ◌==◌, is_empty, all_of, drop,
}
use finance_rag.Text.{Text, codes, is_digit, is_upper, is_lower, starts_with}
use finance_rag.Text.Regex.{
  Regex, one, seq, alt, star, lazy_star, edge, literal, times, up_to, any_char, search, sub,
}

-- `\bignore (all|previous) instructions\b`
ignore_instructions : Regex
unfolding literal
ignore_instructions = seq edge (
    seq (literal (codes "ignore ")) (
      seq (alt (literal (codes "all")) (literal (codes "previous")))
        (seq (literal (codes " instructions")) edge)))

-- `\bword\b`
whole_word : Text → Regex
unfolding literal
whole_word w = seq edge (seq (literal w) edge)

-- `\binsert .* system prompt\b`
insert_prompt : Regex
unfolding literal any_char
insert_prompt = seq edge (
    seq (literal (codes "insert "))
      (seq (star any_char) (seq (literal (codes " system prompt")) edge)))

-- `DISALLOWED_PATTERNS`
unfoldable pub disallowed_patterns : List Regex
unfolding ignore_instructions whole_word insert_prompt
disallowed_patterns =
    ignore_instructions
    ∷ whole_word (codes "jailbreak")
    ∷ whole_word (codes "exfiltrate")
    ∷ insert_prompt
    ∷ []

-- `\b\d{3}-\d{2}-\d{4}\b`
ssn : Regex
unfolding times
ssn =
    let dash = one (λ c. c == b'-') in
    seq edge (
      seq (times 3 (one is_digit))
        (seq dash (seq (times 2 (one is_digit)) (seq dash (seq (times 4 (one is_digit)) edge)))))

-- `\b(?:\d[ -]*?){13,19}\b`
card : Regex
unfolding times up_to
card =
    let group = seq (one is_digit) (lazy_star (λ c. c == b' ' || c == b'-')) in
    seq edge (seq (times 13 group) (seq (up_to 6 group) edge))

-- `\b[A-Z]{2}\d{6}[A-Z]\b`
nino : Regex
unfolding times
nino =
    seq edge (seq (times 2 (one is_upper)) (seq (times 6 (one is_digit)) (seq (one is_upper) edge)))

-- `PII_PATTERNS`
unfoldable pub pii_patterns : List (Regex × Text)
unfolding ssn card nino
pii_patterns =
    (ssn, codes "[REDACTED_SSN]")
    ∷ (card, codes "[REDACTED_CARD]")
    ∷ (nino, codes "[REDACTED_NINO]")
    ∷ []

-- `INJECTION_MARKERS`
unfoldable pub injection_markers : List Text
injection_markers = codes "</system>" ∷ codes "<|im_start|>" ∷ codes "SYSTEM:" ∷ []

-- `[A-Za-z0-9_-]`
unfoldable pub is_id_char : ℕ → Bool
is_id_char c = is_upper c || is_lower c || is_digit c || c == b'_' || c == b'-'

-- `CITATION_RE`
unfoldable pub citation_re : Regex
unfolding times is_id_char
citation_re =
    seq (one (λ c. c == b'['))
      (seq (times 4 (one is_id_char)) (seq (star is_id_char) (one (λ c. c == b']'))))

-- `_NON_CITATION.match(token)`, for a token of `CITATION_RE`
unfoldable pub non_citation : Text → Bool
unfolding starts_with
non_citation t =
    (not (is_empty t) && all_of is_digit t)
    || (starts_with (codes "REDACTED_") t
        && not (is_empty (drop 9 t))
        && all_of is_upper (drop 9 t))

-- `\byou (must|should) file\b.*\btoday\b`, on lowered text
unfoldable pub directive : Regex
unfolding literal any_char
directive = seq edge (
    seq (literal (codes "you ")) (
      seq (alt (literal (codes "must")) (literal (codes "should"))) (
        seq (literal (codes " file"))
          (seq edge (seq (star any_char) (seq edge (seq (literal (codes "today")) edge)))))))

-- `re.sub` of each pattern in turn
unfoldable pub redact : List (Regex × Text) → Text → Text
redact [] s = s
redact ((p, repl) ∷ ps) s = redact ps (sub p repl s)

redact_runs :
    redact pii_patterns (codes "id 123-45-6789, 4111 1111 1111 1111")
    ≡ codes "id [REDACTED_SSN], [REDACTED_CARD]"
unfolding redact pii_patterns sub
redact_runs = refl

directive_runs : search directive (codes "so you must file it today.") ≡ true
unfolding directive search
directive_runs = refl
