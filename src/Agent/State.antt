-- ===== src/Agent/State.antt =====
-- The state of the graph, the services that its nodes call, and what a run leaves behind.
use finance_rag.Prelude.{ℕ, Bool, Option, List}
use finance_rag.Text.{Text}
use finance_rag.Models.{Citation, RetrievalMetrics, RetrievedChunk}
use finance_rag.Guardrails.Answerability.{Attempt, Reply}
use finance_rag.Agent.Roles.{Route, RouterReply, CriticReply}

-- `AgentState`. A key that may be absent is an option, and a list that is read by `x or []` is
-- empty when its key is absent.
pub record AgentState (F : Type 0) : Type 0 where
  pub query : Text
  pub sanitized_query : Option Text
  pub search_query : Option Text
  pub service_line : Option Text
  pub route : Option Route
  pub rationale : Option Text
  pub needs_freshness : Option Bool
  pub allowed : Option Bool
  pub guardrail_reasons : List Text
  pub retrieved : List (RetrievedChunk F)
  pub answerable : Option Bool
  pub unanswerable_reason : Option Text
  pub answer : Option Text
  pub citations : List (Citation F)
  pub confidence : Option F
  pub refused : Option Bool
  pub critic_attempts : Option ℕ
  pub critic_reasons : List Text
  pub critic_approved : Option Bool
  pub metrics : Option (RetrievalMetrics F)
  pub trace_id : Option Text
  pub thread_id : Option Text
  pub org_id : Option Text
  pub user_id : Option Text
  pub as_of : Option Text
  pub image_caption : Option Text
  pub started_at : Option ℕ

-- `AuditRecord`, as `_audit` fills it; `models` is the configuration's and left out.
pub record AuditRecord (F : Type 0) : Type 0 where
  pub trace_id : Text
  pub query : Text
  pub thread_id : Option Text
  pub user_id : Option Text
  pub org_id : Option Text
  pub rewritten_query : Option Text
  pub service_line : Option Text
  pub answer : Text
  pub refused : Bool
  pub refusal_reason : Option Text
  pub retrieved_ids : List Text
  pub cited_ids : List Text
  pub hallucinated_ids : List Text
  pub route : Option Route
  pub critic_attempts : ℕ
  pub metrics : RetrievalMetrics F
  pub guardrails : List Text
  pub latency_ms : ℕ

-- What the nodes call outside the orchestrator. Each call is given the number of the step, so two
-- calls with the same arguments may answer differently.
pub record Services (F : Type 0) : Type 0 where
  -- `time.perf_counter()`, in milliseconds
  pub clock : ℕ → ℕ
  -- `str(uuid.uuid4())`
  pub fresh_id : ℕ → Text
  pub router : ℕ → Text → Attempt RouterReply
  pub gate : ℕ → Text → Text → Attempt Reply
  pub critic : ℕ → Text → Attempt CriticReply
  -- the completion's content, which may be None
  pub analyst : ℕ → Text → Attempt (Option Text)
  -- `retriever.retrieve(query, org_id=…, as_of=…)`
  pub retrieve : ℕ → Text → Option Text → Option Text → Attempt (List (RetrievedChunk F))
  -- `web.search(query, freshness=…)`, which never raises
  pub web_search : ℕ → Text → Bool → List (RetrievedChunk F)
  -- the INSERT of `write_audit`, which returns the row's number or raises
  pub insert_audit : ℕ → AuditRecord F → Attempt ℕ

-- The stages that `_emit` reports.
pub data Stage : Type 0 where
  retrieving searching_web checking_answerability writing verifying finalising : Stage

-- The state of a run: the graph's, the number of steps taken, the stages reported (the last one
-- first) and the audit records that are in the trail (the last one first).
pub record Run (F : Type 0) : Type 0 where
  pub state : AgentState F
  pub tick : ℕ
  pub stages : List Stage
  pub audits : List (AuditRecord F)
