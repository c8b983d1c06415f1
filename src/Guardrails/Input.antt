-- ===== src/Guardrails/Input.antt =====
-- `GuardrailPipeline.check_input` (src/finance_rag/guardrails/pipeline.py).
use finance_rag.Prelude.{
  ℕ, Bool, false, ◌||◌, not, some, none, List, [], ◌∷◌, ◌++◌, ltb, if◌then◌else◌, length, is_empty,
  any_of,
}
use finance_rag.Text.{Text, codes, text_eq, lower, strip, contains}
use finance_rag.Text.Regex.{Regex, search, sub}
use finance_rag.Text.Sorting.{sorted_set}
use finance_rag.Config.{Settings}
use finance_rag.Models.{GuardrailResult}
use finance_rag.Guardrails.Patterns.{disallowed_patterns, pii_patterns, injection_markers}

abbrev pub prompt_injection : Text
prompt_injection = codes "prompt_injection"

abbrev pub control_token_injection : Text
control_token_injection = codes "control_token_injection"

-- The loop over `DISALLOWED_PATTERNS`.
unfoldable pub pattern_reasons : List Regex → Text → List Text
pattern_reasons [] s = []
pattern_reasons (p ∷ ps) s =
    let rest = pattern_reasons ps s in if search p s then prompt_injection ∷ rest else rest

-- The loop over `INJECTION_MARKERS`.
unfoldable pub marker_reasons : List Text → Text → List Text
marker_reasons [] s = []
marker_reasons (m ∷ ms) s =
    let rest = marker_reasons ms s in
    if contains (lower m) s then control_token_injection ∷ rest else rest

-- The loop over `PII_PATTERNS`: the reasons, and the text redacted so far.
unfoldable pub redact_found : List (Regex × Text) → Text → List Text × Text
redact_found [] s = ([], s)
redact_found ((p, repl) ∷ ps) s =
    let hit = search p s in
    let (reasons, t) = redact_found ps (if hit then sub p repl s else s) in
    (if hit then codes "pii_detected" ∷ reasons else reasons, t)

-- `r in {"prompt_injection", "control_token_injection"}`
unfoldable pub is_hard : Text → Bool
unfolding text_eq
is_hard r = text_eq r prompt_injection || text_eq r control_token_injection

abbrev pub rejected : Text → ℕ → GuardrailResult
rejected reason risk = record {
  allowed = false;
  reasons = reason ∷ [];
  sanitized_text = none;
  risk_score = risk;
  cited_ids = [];
  grounded_ids = [];
  hallucinated_citations = [];
}

-- What is decided from all the reasons, in the order in which they were found.
unfoldable pub weigh : List Text → Text → GuardrailResult
weigh reasons sanitized =
    let hard_block = any_of is_hard reasons in
    record {
      allowed = not hard_block;
      reasons = sorted_set reasons;
      sanitized_text = some sanitized;
      risk_score = if hard_block then 8 else if is_empty reasons then 0 else 3;
      cited_ids = [];
      grounded_ids = [];
      hallucinated_citations = [];
    }

unfoldable pub scan_input : Settings → Text → GuardrailResult
scan_input st sanitized =
    let lowered = lower sanitized in
    let hard =
      pattern_reasons disallowed_patterns lowered ++ marker_reasons injection_markers lowered in
    let (pii, redacted) = redact_found pii_patterns sanitized in
    if st.guardrail_block_pii then weigh (hard ++ pii) redacted else weigh hard sanitized

unfoldable pub check_input : Settings → Text → GuardrailResult
check_input st s =
    let sanitized = strip s in
    if ltb st.guardrail_max_input_chars (length sanitized)
    then rejected (codes "input_too_long") 9
    else if is_empty sanitized
    then rejected (codes "empty_input") 10
    else scan_input st sanitized
