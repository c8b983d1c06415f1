-- ===== src/Agent/Compliance.antt =====
-- `MultiAgentRAG.comply` with `_audit` (src/finance_rag/agent/orchestrator.py): the output
-- guardrail, the citations that are reported, and the audit record.
use finance_rag.Prelude.{
  ℕ, ◌-◌, Bool, ◌||◌, not, Option, none, some, List, [], ◌∷◌, ◌++◌, if◌then◌else◌, is_empty, get_or,
  truthy,
}
use finance_rag.Text.{Text, codes, text_eq, join}
use finance_rag.Config.{Settings}
use finance_rag.Models.{
  Floats, Citation, RetrievedChunk, RetrievalMetrics, GuardrailResult, ids, citation_ids,
}
use finance_rag.Metrics.Online.{compute_online_telemetry, citation_metrics}
use finance_rag.Guardrails.Output.{check_output}
use finance_rag.Agent.Roles.{non_empty}
use finance_rag.Agent.State.{AgentState, AuditRecord, Services}
use finance_rag.Agent.Nodes.{citations_of}

module _ {F : Type 0} where
  -- `{r.chunk.chunk_id: r for r in retrieved}.get(c)`: of two chunks with one id, the last
  unfoldable pub by_id : List (RetrievedChunk F) → Text → Option (RetrievedChunk F)
  by_id [] c = none
  by_id (r ∷ rs) c = elim (by_id rs c) [
    | some q ↦ some q
    | none ↦ if text_eq r.chunk.chunk_id c then some r else none
  ]

  -- `[by_id[c] for c in grounded if c in by_id]`
  unfoldable pub cited_chunks : List (RetrievedChunk F) → List Text → List (RetrievedChunk F)
  cited_chunks retrieved [] = []
  cited_chunks retrieved (c ∷ cs) =
      let rest = cited_chunks retrieved cs in
      elim (by_id retrieved c) [ none ↦ rest | some r ↦ r ∷ rest ]

  -- The citations of the answer, or those that were there if no grounded id was retrieved.
  unfoldable pub narrow :
      List (RetrievedChunk F) → List Text → List (Citation F) → List (Citation F)
  narrow retrieved grounded citations =
      let cited = cited_chunks retrieved grounded in
      if is_empty cited then citations else citations_of cited

-- The text that leaves the service.
unfoldable pub final_answer : GuardrailResult → Bool → Text → Text
final_answer out already_refused answer =
    let clean = non_empty out.sanitized_text in
    if not out.allowed
    then get_or clean (codes "Response blocked: " ++ join (codes "; ") out.reasons)
    else if already_refused
    then answer
    else get_or clean answer

module _ {F : Type 0} (fl : Floats F) (st : Settings) (sv : Services F) where
  -- The verdict of the output guardrail on a state.
  unfoldable pub verdict : AgentState F → GuardrailResult
  verdict s = check_output st (get_or s.answer []) s.citations s.retrieved (truthy s.refused)

  unfoldable pub measured : ℕ → AgentState F → RetrievalMetrics F
  measured t s =
      let out = verdict s in
      let grounding = citation_metrics fl out.cited_ids (ids s.retrieved) none in
      let latency = sv.clock t - get_or s.started_at (sv.clock t) in
      record (compute_online_telemetry fl s.retrieved latency
        (not out.allowed || truthy s.refused)) {
          citation_grounding = some grounding.citation_grounding;
          hallucinated_citations = grounding.hallucinated_citations;
        }

  unfoldable pub comply : ℕ → AgentState F → AgentState F
  comply t s =
      let out = verdict s in
      record s {
        answer = some (final_answer out (truthy s.refused) (get_or s.answer []));
        citations = narrow s.retrieved out.grounded_ids s.citations;
        refused = some (not out.allowed || truthy s.refused);
        metrics = some (measured t s);
        guardrail_reasons = s.guardrail_reasons ++ out.reasons;
      }

  -- The record that `_audit` writes, from the state that `comply` was given.
  unfoldable pub audit_record : ℕ → AgentState F → AuditRecord F
  audit_record t s =
      let out = verdict s in
      let after = comply t s in
      record {
        trace_id = get_or s.trace_id [];
        query = s.query;
        thread_id = s.thread_id;
        user_id = s.user_id;
        org_id = s.org_id;
        rewritten_query = s.search_query;
        service_line = s.service_line;
        answer = get_or after.answer [];
        refused = truthy after.refused;
        refusal_reason = s.unanswerable_reason;
        retrieved_ids = ids s.retrieved;
        cited_ids = citation_ids after.citations;
        hallucinated_ids = out.hallucinated_citations;
        route = s.route;
        critic_attempts = get_or s.critic_attempts 0;
        metrics = measured t s;
        guardrails = after.guardrail_reasons;
        latency_ms = sv.clock t - get_or s.started_at (sv.clock t);
      }
