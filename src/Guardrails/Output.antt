-- ===== src/Guardrails/Output.antt =====
-- `GuardrailPipeline.check_output` (src/finance_rag/guardrails/pipeline.py).
use finance_rag.Prelude.{
  ◌-◌, Bool, true, false, ◌&&◌, ◌||◌, not, some, none, List, [], ◌∷◌, ◌++◌, if◌then◌else◌, length,
  is_empty, keep, take, drop,
}
use finance_rag.Text.{Text, codes, lower, contains, strip_right, member}
use finance_rag.Text.Regex.{search, found}
use finance_rag.Text.Sorting.{sorted_set}
use finance_rag.Config.{Settings}
use finance_rag.Models.{Citation, RetrievedChunk, GuardrailResult, ids, citation_ids}
use finance_rag.Guardrails.Patterns.{pii_patterns, citation_re, non_citation, directive, redact}

-- The group of `CITATION_RE` in a match: the match without its brackets.
unfoldable pub inside : Text → Text
inside m = take (length m - 2) (drop 1 m)

unfoldable pub insides : List Text → List Text
insides [] = []
insides (m ∷ ms) = inside m ∷ insides ms

-- `CITATION_RE.findall(answer)`
unfoldable pub tokens : Text → List Text
tokens answer = insides (found citation_re answer)

-- The loop that collects `cited_ids`; `acc` are the ones so far.
unfoldable pub collect : List Text → List Text → List Text
collect acc [] = acc
collect acc (t ∷ ts) = collect (if non_citation t || member t acc then acc else acc ++ (t ∷ [])) ts

abbrev pub disclaimer : Text
disclaimer =
    codes
      "\n\n_Note: This is decision-support content for Source Advisors teams and partners, not formal tax or legal advice._"

unfoldable pub wants_disclaimer : Text → Bool → Bool
wants_disclaimer answer already_refused =
    not already_refused
    && not (contains (codes "not formal") (lower answer))
    && not (contains (codes "not legal") (lower answer))

abbrev flag : Bool → Text → List Text
flag b reason = if b then reason ∷ [] else []

-- What the code knows when it comes to its verdict.
pub record Findings : Type 0 where
  pub reasons : List Text
  pub sanitized : Text
  -- `guardrail_require_citations and retrieved and not already_refused`
  pub verify : Bool
  pub cited : List Text
  pub grounded : List Text
  pub hallucinated : List Text

module _ {F : Type 0} where
  -- `known`
  abbrev pub known_ids : List (Citation F) → List (RetrievedChunk F) → List Text
  known_ids citations retrieved = ids retrieved ++ citation_ids citations

  unfoldable pub examine :
      Settings → Text → List (Citation F) → List (RetrievedChunk F) → Bool → Findings
  examine st answer citations retrieved already_refused =
      let require = st.guardrail_require_citations && not (is_empty retrieved) in
      let known = known_ids citations retrieved in
      let cited = collect [] (tokens answer) in
      let hallucinated = keep (λ c. not (member c known)) cited in
      let verify = require && not already_refused in
      let noted = wants_disclaimer answer already_refused in
      record {
        reasons =
            flag noted (codes "added_disclaimer")
            ++ (flag (require && is_empty citations) (codes "citations_rebuilt_from_retrieval")
                ++ (flag (verify && is_empty cited && not (is_empty known))
                      (codes "no_inline_citations")
                    ++ flag (verify && not (is_empty hallucinated))
                        (codes "hallucinated_citation")));
        sanitized = if noted then strip_right answer ++ disclaimer else answer;
        verify = verify;
        cited = cited;
        grounded = keep (λ c. member c known) cited;
        hallucinated = hallucinated;
      }

-- Every citation is fabricated.
unfoldable pub ungrounded : Findings → Bool
ungrounded f = f.verify && not (is_empty f.hallucinated) && is_empty f.grounded

-- The returns of the function, in their order.
unfoldable pub conclude : Text → Findings → GuardrailResult
conclude answer f =
    if ungrounded f
    then record {
      allowed = false;
      reasons = sorted_set f.reasons;
      sanitized_text = none;
      risk_score = 9;
      cited_ids = f.cited;
      grounded_ids = f.grounded;
      hallucinated_citations = f.hallucinated;
    }
    else if search directive (lower answer)
    then record {
      allowed = false;
      reasons = f.reasons ++ (codes "overconfident_directive" ∷ []);
      sanitized_text = none;
      risk_score = 6;
      cited_ids = [];
      grounded_ids = [];
      hallucinated_citations = [];
    }
    else record {
      allowed = true;
      reasons = sorted_set f.reasons;
      sanitized_text = some (redact pii_patterns f.sanitized);
      risk_score = if is_empty f.hallucinated then (if is_empty f.reasons then 0 else 1) else 5;
      cited_ids = f.cited;
      grounded_ids = f.grounded;
      hallucinated_citations = f.hallucinated;
    }

module _ {F : Type 0} where
  unfoldable pub check_output :
      Settings → Text → List (Citation F) → List (RetrievedChunk F) → Bool → GuardrailResult
  check_output st answer citations retrieved already_refused =
      conclude answer (examine st answer citations retrieved already_refused)
