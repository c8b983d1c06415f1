-- ===== src/Agent/Nodes.antt =====
-- The nodes of `MultiAgentRAG` up to the critic (src/finance_rag/agent/orchestrator.py): `route`,
-- `research`, `search_web`, `check_answerability`, `analyse`, `criticise`. A node takes the number
-- of the step and the state, and gives the state with its updates merged in.
use finance_rag.Prelude.{
  ℕ, ◌+◌, Bool, true, false, ◌&&◌, not, Option, none, some, List, [], ◌∷◌, ◌++◌, ltb, leb,
  if◌then◌else◌, take, is_empty, keep, any_of, get_or, truthy, is_some,
}
use finance_rag.Text.{Text, codes, text_eq, join}
use finance_rag.Config.{Settings}
use finance_rag.Models.{Floats, Citation, RetrievedChunk, max_or_zero}
use finance_rag.Metrics.Online.{cosines}
use finance_rag.Guardrails.Input.{check_input}
use finance_rag.Guardrails.Answerability.{Attempt, returned, failed, refusal_message, check}
use finance_rag.Agent.Roles.{blocked, plan, review, non_empty}
use finance_rag.Agent.State.{AgentState, Services}

-- `x or y` of a text that may be empty and one that is there
abbrev pub or_text : Option Text → Text → Text
or_text o d = get_or (non_empty o) d

-- `_search_query`
unfoldable pub with_caption : Text → Option Text → Text
with_caption query caption = elim (non_empty caption) [
  | none ↦ query
  | some c ↦ query ++ (codes "\n\nImage: " ++ c)
]

abbrev pub text_or_none : Option Text → Text
text_or_none none = codes "None"
text_or_none (some t) = t

abbrev pub labelled : Text → Option Text → Text
labelled label o = elim (non_empty o) [ none ↦ [] | some t ↦ label ++ t ]

-- What the analyst is told about the draft before.
unfoldable pub feedback : List Text → Text
feedback [] = []
feedback (r ∷ rs) =
    codes "\n\nA previous draft was rejected for: "
    ++ (join (codes "; ") (r ∷ rs)
        ++ codes "\nAddress those issues; do not repeat unsupported claims.")

module _ {F : Type 0} where
  unfoldable pub context_block : RetrievedChunk F → Text
  context_block r =
      let m = r.chunk.metadata in
      let body : Text = elim (non_empty m.parent_excerpt) [
        | none ↦ r.chunk.content
        | some p ↦ codes "(Section context) " ++ (p ++ (codes "\n\n(Passage) " ++ r.chunk.content))
      ] in
      codes "["
      ++ (r.chunk.chunk_id
          ++ (codes "] title="
              ++ (text_or_none m.title
                  ++ (codes " section="
                      ++ (text_or_none r.chunk.section
                          ++ (codes " modality="
                              ++ (or_text m.modality (codes "text")
                                  ++ (labelled (codes " fetched_at=") m.fetched_at
                                      ++ (labelled (codes " published=") m.published_date
                                          ++ (codes "\n" ++ body))))))))))

  unfoldable pub context_blocks : List (RetrievedChunk F) → List Text
  context_blocks [] = []
  context_blocks (r ∷ rs) = context_block r ∷ context_blocks rs

  -- `_format_context`
  unfoldable pub format_context : List (RetrievedChunk F) → Text
  format_context retrieved = join (codes "\n\n---\n\n") (context_blocks retrieved)

  unfoldable pub is_web : RetrievedChunk F → Bool
  unfolding text_eq
  is_web r = elim r.chunk.metadata.modality [ none ↦ false | some m ↦ text_eq m (codes "web") ]

  unfoldable pub cite : RetrievedChunk F → Citation F
  cite r = record {
    chunk_id = r.chunk.chunk_id;
    doc_id = r.chunk.doc_id;
    title = or_text r.chunk.metadata.title (codes "Untitled");
    source = or_text r.chunk.metadata.source [];
    excerpt = take 280 r.chunk.content;
    score = r.score;
    content = r.chunk.content;
  }

  -- `_citations`
  unfoldable pub citations_of : List (RetrievedChunk F) → List (Citation F)
  citations_of [] = []
  citations_of (r ∷ rs) = cite r ∷ citations_of rs

  unfoldable pub analyst_prompt : AgentState F → Text
  analyst_prompt s =
      codes "Question: "
      ++ (s.query
          ++ (labelled (codes "\n\nUser-provided image:\n") s.image_caption
              ++ (codes "\n\nPassages:\n"
                  ++ (format_context s.retrieved
                      ++ (feedback s.critic_reasons
                          ++ codes "\n\nAnswer with [chunk_id] citations.")))))

  -- What was searched, for the wording of a refusal.
  unfoldable pub sources : List (RetrievedChunk F) → Text → Text
  sources retrieved default =
      if any_of is_web retrieved
      then (if any_of (λ r. not (is_web r)) retrieved
          then codes "Source Advisors material and current web sources"
          else codes "current web sources")
      else default

-- What the user reads when the critic's budget is spent.
abbrev pub unverified : Text
unverified =
    codes
      "I could not produce an answer fully supported by the available Source Advisors material. Please refine the question."

module _ {F : Type 0} (fl : Floats F) (st : Settings) (sv : Services F) where
  unfoldable pub route_node : ℕ → AgentState F → AgentState F
  route_node t s =
      let guard = check_input st s.query in
      let clean = or_text guard.sanitized_text s.query in
      let started = record s {
        allowed = some guard.allowed;
        guardrail_reasons = guard.reasons;
        sanitized_query = some clean;
        trace_id = some (or_text s.trace_id (sv.fresh_id t));
        started_at = some (sv.clock t);
        critic_attempts = some 0;
        retrieved = [];
        citations = [];
      } in
      let p = plan st (sv.router t) clean in
      if guard.allowed
      then record started {
        route = some p.route;
        service_line = p.service_line;
        rationale = some p.rationale;
        needs_freshness = some p.needs_freshness;
        search_query = some (with_caption (or_text p.search_query clean) s.image_caption);
      }
      else record started {
        answer = some (
            codes "I cannot process this request due to safety checks: "
            ++ join (codes "; ") guard.reasons);
        refused = some true;
        confidence = some fl.zero;
        route = some blocked;
      }

  -- On a retry the web results stay: the critic rejected the draft, not the sources.
  unfoldable pub research : ℕ → AgentState F → Attempt (AgentState F)
  research t s = elim (sv.retrieve t (or_text s.search_query s.query) s.org_id s.as_of) [
    | failed e ↦ failed e
    | returned found ↦ returned (record s { retrieved = found ++ keep is_web s.retrieved })
  ]

  unfoldable pub search_web : ℕ → AgentState F → AgentState F
  search_web t s = record s {
    retrieved =
        s.retrieved ++ sv.web_search t (or_text s.search_query s.query) (truthy s.needs_freshness);
  }

  unfoldable pub check_answerability : ℕ → AgentState F → AgentState F
  check_answerability t s =
      let v = check st (sv.gate t) s.query s.retrieved in
      let told = record v { sources_consulted = sources s.retrieved v.sources_consulted } in
      if v.answerable then record s { answerable = some true } else record s {
        answerable = some false;
        unanswerable_reason = some v.missing;
        answer = some (refusal_message told);
        refused = some true;
        confidence = some fl.zero;
        citations = citations_of s.retrieved;
      }

  -- A completion with no content counts as an empty answer.
  unfoldable pub analyse : ℕ → AgentState F → Attempt (AgentState F)
  analyse t s = elim (sv.analyst t (analyst_prompt s)) [
    | failed e ↦ failed e
    | returned content ↦ returned (record s {
      answer = some (get_or content []);
      citations = citations_of s.retrieved;
      confidence = some (max_or_zero fl (cosines s.retrieved));
      refused = some false;
    })
  ]

  unfoldable pub criticise : ℕ → AgentState F → AgentState F
  criticise t s =
      let c = review st (sv.critic t) s.query (get_or s.answer []) s.retrieved in
      let attempts = get_or s.critic_attempts 0 in
      let n = attempts + 1 in
      let spent = ltb st.critic_max_retries n in
      let rejected = record s {
        critic_approved = some false;
        critic_attempts = some n;
        critic_reasons = if is_empty c.reasons then codes "unsupported_claims" ∷ [] else c.reasons;
        search_query =
            if is_some c.suggested_query && leb n st.critic_max_retries
            then c.suggested_query
            else s.search_query;
      } in
      if c.approved
      then record s { critic_approved = some true; critic_attempts = some attempts }
      else if spent
      then record rejected {
        answer = some unverified;
        refused = some true;
        confidence = some fl.zero;
      }
      else rejected
