-- ===== src/Guardrails/Answerability.antt =====
-- The answerability gate (src/finance_rag/guardrails/answerability.py). The model's reply is a
-- parameter: `failed` where the call or the parsing of its JSON raised.
use finance_rag.Prelude.{
  ◌≡◌, refl, ◌⊎◌, inl, inr, ℕ, Bool, true, false, not, Option, none, some, List, [], ◌∷◌, ◌++◌,
  if◌then◌else◌, take, is_empty,
}
use finance_rag.Text.{Text, codes, strip, join}
use finance_rag.Config.{Settings}
use finance_rag.Models.{RetrievedChunk}

pub record Verdict : Type 0 where
  pub answerable : Bool
  pub missing : Text
  pub supporting_ids : List Text
  pub checked : Bool
  -- the text of the exception that the checker met
  pub error : Option Text
  pub sources_consulted : Text

-- `verdict.refusal_message`
unfoldable pub refusal_message : Verdict → Text
refusal_message v =
    let base =
      codes "The available "
      ++ (v.sources_consulted
          ++ codes " does not contain the information needed to answer this question.") in
    if is_empty v.missing then base else base ++ (codes " Missing: " ++ v.missing)

-- The decoded reply, its fields as Python's `bool` and `str` make them.
pub record Reply : Type 0 where
  pub answerable : Bool
  pub missing : Text
  pub supporting_ids : List Text

-- A model call that answers, or raises with a message.
pub data Attempt (A : Type 0) : Type 0 where
  returned : A → Attempt A
  failed : Text → Attempt A

pub Attempt-cases :
    {A : Type 0} (x : Attempt A) → ((e : Text) × (x ≡ failed e)) ⊎ ((a : A) × (x ≡ returned a))
Attempt-cases (returned a) = inr (a, refl)
Attempt-cases (failed e) = inl (e, refl)

abbrev pub firm_material : Text
firm_material = codes "Source Advisors material"

module _ {F : Type 0} where
  unfoldable pub passage_blocks : ℕ → List (RetrievedChunk F) → List Text
  passage_blocks limit [] = []
  passage_blocks limit (r ∷ rs) =
      (codes "[" ++ (r.chunk.chunk_id ++ (codes "]\n" ++ take limit r.chunk.content)))
      ∷ passage_blocks limit rs

  unfoldable pub format_context : Settings → List (RetrievedChunk F) → Text
  format_context st retrieved =
      join (codes "\n\n---\n\n") (
        passage_blocks st.answerability_passage_chars
          (take st.answerability_max_passages retrieved))

  -- `AnswerabilityGate.check`; the model sees the question and the context.
  unfoldable pub check :
      Settings → (Text → Text → Attempt Reply) → Text → List (RetrievedChunk F) → Verdict
  check st model query retrieved =
      let asked : Verdict = elim (model query (format_context st retrieved)) [
        | failed e ↦ record {
          answerable = true;
          missing = [];
          supporting_ids = [];
          checked = false;
          error = some e;
          sources_consulted = firm_material;
        }
        | returned r ↦ record {
          answerable = r.answerable;
          missing = strip r.missing;
          supporting_ids = r.supporting_ids;
          checked = true;
          error = none;
          sources_consulted = firm_material;
        }
      ] in
      if not st.answerability_check_enabled
      then record {
        answerable = true;
        missing = [];
        supporting_ids = [];
        checked = false;
        error = none;
        sources_consulted = firm_material;
      }
      else if is_empty retrieved
      then record {
        answerable = false;
        missing = codes "no relevant material was retrieved";
        supporting_ids = [];
        checked = true;
        error = none;
        sources_consulted = firm_material;
      }
      else asked
