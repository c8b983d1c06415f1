-- ===== src/SingleAgent/Nodes.antt =====
-- The state and the nodes of the single agent (src/finance_rag/agent/graph.py), and its graph, which
-- is a chain: its run is the composition of its nodes.
use finance_rag.Prelude.{
  ℕ, ◌-◌, Bool, true, false, ◌&&◌, ◌||◌, not, Option, none, some, List, [], ◌∷◌, ◌++◌,
  if◌then◌else◌, is_empty, get_or, truthy, is_some,
}
use finance_rag.Text.{Text, codes, strip, join}
use finance_rag.Config.{Settings, FloatSettings}
use finance_rag.Models.{
  Floats, Citation, RetrievedChunk, RetrievalMetrics, GuardrailResult, ids, max_or_zero, mean,
}
use finance_rag.Metrics.Online.{cosines, compute_online_telemetry, citation_metrics}
use finance_rag.Guardrails.Input.{check_input}
use finance_rag.Guardrails.Output.{check_output}
use finance_rag.Guardrails.Answerability.{Attempt, returned, failed, Reply, refusal_message, check}
use finance_rag.Agent.Roles.{non_empty}
use finance_rag.Agent.Nodes.{or_text, labelled, text_or_none, citations_of}
use finance_rag.Agent.Compliance.{narrow}

-- `AgentState` of the single agent.
pub record State (F : Type 0) : Type 0 where
  pub query : Text
  pub sanitized_query : Option Text
  pub service_line : Option Text
  pub image_caption : Option Text
  pub allowed : Option Bool
  pub guardrail_reasons : List Text
  pub rewritten_query : Option Text
  pub retrieved : List (RetrievedChunk F)
  pub answerable : Option Bool
  pub unanswerable_reason : Option Text
  pub answer : Option Text
  pub citations : List (Citation F)
  pub confidence : Option F
  pub refused : Option Bool
  pub metrics : Option (RetrievalMetrics F)
  pub trace_id : Option Text
  pub started_at : Option ℕ

-- What the nodes call. The clock is read when the run begins, when it ends and when an answer is
-- stored; an answer of a model with no plain content is none.
pub record Helpers (F : Type 0) : Type 0 where
  pub start_time : ℕ
  pub end_time : ℕ
  pub store_time : ℕ
  pub fresh_id : Text
  pub rewriter : Text → Attempt (Option Text)
  pub retrieve : Text → Option Text → Attempt (List (RetrievedChunk F))
  pub gate : Text → Text → Attempt Reply
  pub completion : Text → Attempt (Option Text)
  pub caption_bytes : Text → Attempt Text

-- A step that may raise, and what follows it.
abbrev pub and_then : {A B : Type 0} → Attempt A → (A → Attempt B) → Attempt B
and_then (failed e) f = failed e
and_then (returned a) f = f a

-- What is taken for the rewriting of a question.
unfoldable pub rewritten : Text → Attempt (Option Text) → Text
rewritten q (failed e) = q
rewritten q (returned none) = q
rewritten q (returned (some t)) = strip t

module _ {F : Type 0} where
  unfoldable pub context_block : RetrievedChunk F → Text
  context_block r =
      let m = r.chunk.metadata in
      let body : Text = elim (non_empty m.parent_excerpt) [
        | none ↦ r.chunk.content
        | some p ↦ codes "(Section context) " ++ (p ++ (codes "\n\n(Passage) " ++ r.chunk.content))
      ] in
      codes "["
      ++ (r.chunk.chunk_id
          ++ (codes "] title="
              ++ (text_or_none m.title
                  ++ (codes " service="
                      ++ (text_or_none m.service_line
                          ++ (codes " section="
                              ++ (text_or_none r.chunk.section
                                  ++ (codes " modality="
                                      ++ (or_text m.modality (codes "text")
                                          ++ (codes "\n" ++ body))))))))))

  unfoldable pub context_blocks : List (RetrievedChunk F) → List Text
  context_blocks [] = []
  context_blocks (r ∷ rs) = context_block r ∷ context_blocks rs

  -- `_format_context`
  unfoldable pub format_context : List (RetrievedChunk F) → Text
  format_context retrieved = join (codes "\n\n---\n\n") (context_blocks retrieved)

  -- The question that is rewritten.
  unfoldable pub rewrite_question : State F → Text
  rewrite_question s =
      or_text s.sanitized_query s.query
      ++ labelled (codes "\n\nUser-provided image description: ") s.image_caption

  -- The message to the model; the instructions around it are fixed.
  unfoldable pub user_prompt : State F → Text
  user_prompt s =
      let extra : Text = elim (non_empty s.image_caption) [
        | none ↦ []
        | some c ↦ codes "\nUser image caption:\n" ++ (c ++ codes "\n")
      ] in
      codes "Question: "
      ++ (s.query
          ++ (extra
              ++ (codes "\n\nContext:\n"
                  ++ (format_context s.retrieved
                      ++ codes "\n\nProvide a grounded answer with [chunk_id] citations."))))

abbrev pub low_relevance : Text
low_relevance =
    codes
      "I do not have sufficiently relevant Source Advisors knowledge to answer confidently. Please refine the question or ingest additional documentation."

module _ {F : Type 0} (fl : Floats F) (st : Settings) (fs : FloatSettings F) (h : Helpers F) where
  unfoldable pub input_guardrails : State F → State F
  input_guardrails s =
      let result = check_input st s.query in
      let started = record s {
        allowed = some result.allowed;
        guardrail_reasons = result.reasons;
        sanitized_query = some (or_text result.sanitized_text s.query);
        trace_id = some (or_text s.trace_id h.fresh_id);
        started_at = some h.start_time;
      } in
      if result.allowed then started else record started {
        answer = some (
            codes "I cannot process this request due to safety / policy checks: "
            ++ join (codes "; ") result.reasons);
        refused = some true;
        confidence = some fl.zero;
        citations = [];
        metrics = none;
      }

  unfoldable pub rewrite_query : State F → State F
  rewrite_query s =
      let q = rewrite_question s in record s { rewritten_query = some (rewritten q (h.rewriter q)) }

  unfoldable pub retrieve : State F → Attempt (State F)
  retrieve s =
      let query = or_text s.rewritten_query (or_text s.sanitized_query s.query) in
      and_then (h.retrieve query s.service_line)
        (λ found. returned (record s { retrieved = found }))

  unfoldable pub check_answerability : State F → State F
  check_answerability s =
      let verdict = check st h.gate s.query s.retrieved in
      if verdict.answerable then record s { answerable = some true } else record s {
        answerable = some false;
        unanswerable_reason = some verdict.missing;
        answer = some (refusal_message verdict);
        refused = some true;
        confidence = some fl.zero;
        citations = citations_of s.retrieved;
      }

  -- `guardrail_refusal_on_low_confidence and top_cosine < min_absolute_cosine`
  unfoldable pub abstains : State F → Bool
  abstains s =
      st.guardrail_refusal_on_low_confidence
      && fl.lt (max_or_zero fl (cosines s.retrieved)) fs.min_absolute_cosine

  unfoldable pub generate : State F → Attempt (State F)
  generate s =
      let top_cosine = max_or_zero fl (cosines s.retrieved) in
      let avg_cosine = get_or (mean fl (cosines s.retrieved)) fl.zero in
      let written = and_then (h.completion (user_prompt s)) (λ content. returned (record s {
        answer = some (get_or content []);
        citations = citations_of s.retrieved;
        confidence = some (if fl.eq top_cosine fl.zero then avg_cosine else top_cosine);
        refused = some false;
      })) in
      if abstains s
      then returned (record s {
        answer = some low_relevance;
        refused = some true;
        confidence = some top_cosine;
        citations = citations_of s.retrieved;
      })
      else written

  -- The citations that the output guardrail is given.
  unfoldable pub given_citations : State F → List (Citation F)
  given_citations s = if is_empty s.citations then citations_of s.retrieved else s.citations

  unfoldable pub verdict : State F → GuardrailResult
  verdict s =
      check_output st (get_or s.answer []) (given_citations s) s.retrieved (truthy s.refused)

  unfoldable pub output_guardrails : State F → State F
  output_guardrails s =
      let out = verdict s in
      let already_refused = truthy s.refused in
      let clean = non_empty out.sanitized_text in
      let grounding = citation_metrics fl out.cited_ids (ids s.retrieved) none in
      let latency = h.end_time - get_or s.started_at h.end_time in
      let reported = record s {
        citations = narrow s.retrieved out.grounded_ids (given_citations s);
        metrics =
            some
              (record (compute_online_telemetry fl s.retrieved latency
                (not out.allowed || already_refused)) {
                  citation_grounding = some grounding.citation_grounding;
                  hallucinated_citations = grounding.hallucinated_citations;
                });
        guardrail_reasons = s.guardrail_reasons ++ out.reasons;
      } in
      if not out.allowed
      then record reported {
        answer = some (
            get_or clean
              (codes "Response blocked by output guardrails: " ++ join (codes "; ") out.reasons));
        refused = some true;
      }
      else if is_some clean && not already_refused
      then record reported { answer = clean }
      else reported

  -- The run of the graph behind the answerability gate, and the whole run.
  unfoldable pub answer_or_refuse : State F → Attempt (State F)
  answer_or_refuse s =
      if get_or s.answerable true
      then and_then (generate s) (λ t. returned (output_guardrails t))
      else returned (output_guardrails s)

  unfoldable pub invoke : State F → Attempt (State F)
  invoke s =
      let s1 = input_guardrails s in
      if truthy s1.allowed
      then and_then (retrieve (rewrite_query s1)) (λ t. answer_or_refuse (check_answerability t))
      else returned s1
