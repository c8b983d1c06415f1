-- ===== src/Agent/Entry.antt =====
-- `MultiAgentRAG.ask` (src/finance_rag/agent/orchestrator.py): the input of the graph, the thread
-- that it resumes, and the response read off the final state.
use finance_rag.Prelude.{
  ℕ, ◌+◌, ◌*◌, ◌≡◌, ◌≢◌, refl, true, false, Option, none, some, List, [], ◌∷◌, if◌then◌else◌,
  get_or, truthy, arith,
}
use finance_rag.Text.{Text}
use finance_rag.Config.{Settings}
use finance_rag.Models.{Floats, RagResponse, unmeasured, ids}
use finance_rag.Guardrails.Answerability.{returned}
use finance_rag.Agent.Roles.{non_empty}
use finance_rag.Agent.State.{AgentState, Services, Run}
use finance_rag.Agent.Nodes.{route_node, research, check_answerability}
use finance_rag.Agent.Compliance.{comply, verdict, final_answer}
use finance_rag.Agent.Graph.{supervisor, run, Outcome, finished, raised, out_of_fuel}
use finance_rag.Agent.Termination.{graph-terminates}
use finance_rag.Agent.Safety.{Approved, released-Approved}

-- The arguments of `ask`; the image is its bytes, if there are any.
pub record Question : Type 0 where
  pub query : Text
  pub thread_id : Option Text
  pub service_line : Option Text
  pub image : Option (List ℕ)
  pub org_id : Option Text
  pub as_of : Option Text
  pub user_id : Option Text

-- A thread with no earlier turn, before the input is merged in.
abbrev pub blank : {F : Type 0} → AgentState F
blank = record {
  query = [];
  sanitized_query = none;
  search_query = none;
  service_line = none;
  route = none;
  rationale = none;
  needs_freshness = none;
  allowed = none;
  guardrail_reasons = [];
  retrieved = [];
  answerable = none;
  unanswerable_reason = none;
  answer = none;
  citations = [];
  confidence = none;
  refused = none;
  critic_attempts = none;
  critic_reasons = [];
  critic_approved = none;
  metrics = none;
  trace_id = none;
  thread_id = none;
  org_id = none;
  user_id = none;
  as_of = none;
  image_caption = none;
  started_at = none;
}

-- The caption of the image, where there is one and captions are on.
unfoldable pub caption_of : Settings → (List ℕ → Text) → Question → Option Text
caption_of st captioner q = elim q.image [
  | none ↦ none
  | some [] ↦ none
  | some (b ∷ bs) ↦ if st.multimodal_enabled then some (captioner (b ∷ bs)) else none
]

module _ {F : Type 0} (st : Settings) where
  -- The input of `graph.invoke`, over the state that the checkpointer kept of the thread.
  unfoldable pub begin : (List ℕ → Text) → AgentState F → Question → AgentState F
  unfolding caption_of
  begin captioner before q = record before {
    query = q.query;
    service_line = q.service_line;
    thread_id = q.thread_id;
    image_caption = caption_of st captioner q;
    org_id = some (get_or (non_empty q.org_id) st.default_org_id);
    user_id = q.user_id;
    as_of = q.as_of;
    allowed = some true;
    guardrail_reasons = [];
    citations = [];
    retrieved = [];
  }

module _ {F : Type 0} (fl : Floats F) where
  -- The response read off the final state.
  unfoldable pub respond : AgentState F → RagResponse F
  respond s = record {
    answer = get_or s.answer [];
    citations = s.citations;
    confidence = get_or s.confidence fl.zero;
    metrics = get_or s.metrics unmeasured;
    guardrails = s.guardrail_reasons;
    refused = truthy s.refused;
    trace_id = s.trace_id;
    cache_hit = false;
    cache_layer = none;
    retrieved_ids = ids s.retrieved;
  }

-- How a question comes out.
pub data Reply (F : Type 0) : Type 0 where
  answered : RagResponse F → Run F → Reply F
  crashed : Text → Reply F
  unfinished : Reply F

module _ {F : Type 0} (fl : Floats F) (st : Settings) (sv : Services F) where
  unfoldable pub conclude_run : Outcome F → Reply F
  conclude_run (finished r) = answered (respond fl r.state) r
  conclude_run (raised e) = crashed e
  conclude_run out_of_fuel = unfinished

  unfoldable pub ask : (List ℕ → Text) → AgentState F → Question → Reply F
  ask captioner before q = conclude_run (
      run fl st sv (5 * st.critic_max_retries + 8) supervisor
        (record { state = begin st captioner before q; tick = 0; stages = []; audits = [] }))

  conclude_run-ne : (o : Outcome F) → o ≢ out_of_fuel → conclude_run o ≢ unfinished
  unfolding conclude_run
  conclude_run-ne (finished r) h e = cc
  conclude_run-ne (raised m) h e = cc
  conclude_run-ne out_of_fuel h e = h refl

  -- A question is answered, or an exception of the retriever or the analyst leaves `ask`; the
  -- graph never runs on without an end.
  pub ask-ends :
      (captioner : List ℕ → Text) (before : AgentState F) (q : Question)
      → ask captioner before q ≢ unfinished
  unfolding ask
  ask-ends captioner before q = conclude_run-ne _ (graph-terminates fl st sv _)

  answered_from :
      (o : Outcome F) (a : RagResponse F) (r : Run F)
      → conclude_run o ≡ answered a r
      → (o ≡ finished r) × (a ≡ respond fl r.state)
  unfolding conclude_run
  answered_from (finished x) a r h = (cc, cc)
  answered_from (raised m) a r h = cc
  answered_from out_of_fuel a r h = cc

  -- A response that is not marked as a refusal comes from a draft that is the analyst's answer, for
  -- the passages of that state, to the question that was asked: the input guardrail lets the question
  -- in, the answerability gate found it answerable from those passages, the critic approved that
  -- answer against them, the output guardrail allowed it, and the text of the response is the
  -- guardrail's version of it. The run ends in what compliance makes of that draft.
  pub ask-released :
      (captioner : List ℕ → Text) (before : AgentState F) (q : Question) (a : RagResponse F)
      (r : Run F)
      → ask captioner before q ≡ answered a r
      → a.refused ≡ false
      → (t : ℕ) × (s : AgentState F) × (r.state ≡ comply fl st sv t s)
        × Approved fl st sv q.query s
        × ((verdict fl st sv s).allowed ≡ true)
        × (a.answer ≡ final_answer (verdict fl st sv s) false (get_or s.answer []))
  unfolding ask respond begin
  ask-released captioner before q a r e h =
      let (ended, same) = answered_from _ a r e in
      let (t, s, made, ok, passed, text) =
        released-Approved fl st sv q.query _ _ r refl ended (ground arith) in
      (t, s, made, ok, passed, ground arith)

  -- What an earlier turn of the thread left behind reaches the next question: the critic's old
  -- reasons are still there when the first draft is written, and an old refusal reason is still
  -- there after the new question has been found answerable.
  pub stale_turn :
      (captioner : List ℕ → Text) (before : AgentState F) (q : Question) (t t' t'' : ℕ)
      (s : AgentState F)
      → research fl st sv t' (route_node fl st sv t (begin st captioner before q)) ≡ returned s
      → (check_answerability fl st sv t'' s).answerable ≡ some true
      → ((check_answerability fl st sv t'' s).critic_reasons ≡ before.critic_reasons)
        × ((check_answerability fl st sv t'' s).unanswerable_reason ≡ before.unanswerable_reason)
  unfolding research route_node begin check_answerability
  stale_turn captioner before q t t' t'' s e h = ground arith
