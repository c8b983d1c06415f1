-- ===== src/Agent/Roles.antt =====
-- `Supervisor.plan` and `Critic.review` (src/finance_rag/agent/roles.py). The model behind each is
-- a parameter that answers with the decoded JSON, or fails.
use finance_rag.Prelude.{
  Bool, true, false, not, Option, none, some, List, [], ◌∷◌, ◌++◌, if◌then◌else◌, take, is_empty,
  get_or,
}
use finance_rag.Text.{Text, codes, text_eq, strip, lower, join}
use finance_rag.Config.{Settings}
use finance_rag.Models.{RetrievedChunk}
use finance_rag.Guardrails.Answerability.{Attempt, returned, failed}

-- The values that `plan` and the orchestrator give to `route`.
pub data Route : Type 0 where
  corpus web both blocked : Route

pub record RoutePlan : Type 0 where
  pub route : Route
  pub service_line : Option Text
  pub rationale : Text
  pub needs_freshness : Bool
  pub search_query : Option Text

-- `x or None` for an optional text
abbrev pub non_empty : Option Text → Option Text
non_empty none = none
non_empty (some []) = none
non_empty (some (c ∷ s)) = some (c ∷ s)

-- The router's JSON; `none` for a missing key or a null.
pub record RouterReply : Type 0 where
  pub route : Option Text
  pub service_line : Option Text
  pub rationale : Option Text
  pub needs_freshness : Bool
  pub search_query : Option Text

-- `_ROUTES`, and the default for any other text
unfoldable pub read_route : Text → Route
unfolding text_eq
read_route t =
    if text_eq t (codes "web") then web else if text_eq t (codes "both") then both else corpus

-- Never promise a capability that is switched off.
unfoldable pub permitted : Settings → Route → Route
permitted st web = if st.web_search_enabled then web else corpus
permitted st both = if st.web_search_enabled then both else corpus
permitted st r = r

unfoldable pub plan : Settings → (Text → Attempt RouterReply) → Text → RoutePlan
plan st router query = elim (router query) [
  | failed e ↦ record {
    route = corpus;
    service_line = none;
    rationale = codes "router unavailable; defaulted to corpus";
    needs_freshness = false;
    search_query = none;
  }
  | returned p ↦ record {
    route = permitted st (read_route (lower (strip (get_or (non_empty p.route) (codes "corpus")))));
    service_line = non_empty p.service_line;
    rationale = take 200 (get_or p.rationale []);
    needs_freshness = p.needs_freshness;
    search_query = non_empty p.search_query;
  }
]

pub record Critique : Type 0 where
  pub approved : Bool
  pub reasons : List Text
  pub unsupported_claims : List Text
  pub suggested_query : Option Text
  pub checked : Bool

-- The critic's JSON, its fields as Python's `bool` and `str` make them.
pub record CriticReply : Type 0 where
  pub approved : Bool
  pub reasons : List Text
  pub unsupported_claims : List Text
  pub suggested_query : Option Text

abbrev waved_through : Critique
waved_through = record {
  approved = true;
  reasons = [];
  unsupported_claims = [];
  suggested_query = none;
  checked = false;
}

module _ {F : Type 0} where
  unfoldable pub critic_passages : List (RetrievedChunk F) → List Text
  critic_passages [] = []
  critic_passages (r ∷ rs) =
      (codes "[" ++ (r.chunk.chunk_id ++ (codes "]\n" ++ take 1500 r.chunk.content)))
      ∷ critic_passages rs

  unfoldable pub critic_prompt : Text → Text → List (RetrievedChunk F) → Text
  critic_prompt query answer retrieved =
      codes "Question:\n"
      ++ (query
          ++ (codes "\n\nPassages:\n"
              ++ (join (codes "\n\n---\n\n") (critic_passages (take 8 retrieved))
                  ++ (codes "\n\nDraft answer:\n" ++ answer))))

  unfoldable pub review :
      Settings → (Text → Attempt CriticReply) → Text → Text → List (RetrievedChunk F) → Critique
  review st critic query answer retrieved =
      let asked : Critique = elim (critic (critic_prompt query answer retrieved)) [
        | failed e ↦ waved_through
        | returned p ↦ record {
          approved = p.approved;
          reasons = take 5 p.reasons;
          unsupported_claims = take 5 p.unsupported_claims;
          suggested_query = non_empty p.suggested_query;
          checked = true;
        }
      ] in
      if not st.critic_enabled
      then waved_through
      else if is_empty (strip answer)
      then record waved_through {
        approved = false;
        reasons = codes "empty_answer" ∷ [];
        checked = true;
      }
      else asked
