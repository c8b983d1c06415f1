-- ===== src/SingleAgent/Ask.antt =====
-- `FinanceRAGAgent.ask` (src/finance_rag/agent/graph.py): the cache around a run of the graph.
use finance_rag.Prelude.{
  true, false, Option, none, some, List, [], ◌++◌, if◌then◌else◌, take, get_or, truthy,
}
use finance_rag.Text.{Text, codes, strip}
use finance_rag.Config.{Settings, FloatSettings}
use finance_rag.Models.{Floats, RagResponse, unmeasured, ids}
use finance_rag.Guardrails.Answerability.{Attempt, returned, failed}
use finance_rag.Agent.Roles.{non_empty}
use finance_rag.Cache.{Redis, Vectors, get, set}
use finance_rag.SingleAgent.Nodes.{State, Helpers, and_then, invoke}

-- The state that `ask` starts the graph with.
unfoldable pub begin : {F : Type 0} → Text → Option Text → Option Text → State F
begin query service_line image_caption = record {
  query = query;
  sanitized_query = none;
  service_line = service_line;
  image_caption = image_caption;
  allowed = some true;
  guardrail_reasons = [];
  rewritten_query = none;
  retrieved = [];
  answerable = none;
  unanswerable_reason = none;
  answer = none;
  citations = [];
  confidence = none;
  refused = none;
  metrics = none;
  trace_id = none;
  started_at = none;
}

-- `f"{query}\n[image:{image_caption[:240]}]"`
unfoldable pub cache_query : Text → Option Text → Text
cache_query query none = query
cache_query query (some caption) = query ++ (codes "\n[image:" ++ (take 240 caption ++ codes "]"))

-- `image_caption` of `ask`
unfoldable pub caption_of :
    {F : Type 0} → Settings → Helpers F → Option Text → Attempt (Option Text)
caption_of st h image_bytes = elim (non_empty image_bytes) [
  | none ↦ returned none
  | some bytes ↦
      let captioned = and_then (h.caption_bytes bytes) (λ c. returned (some c)) in
      if st.multimodal_enabled then captioned else returned none
]

-- The response that `ask` makes from the final state.
unfoldable pub respond : {F : Type 0} → Floats F → State F → RagResponse F
respond fl final = record {
  answer = get_or final.answer [];
  citations = final.citations;
  confidence = get_or final.confidence fl.zero;
  metrics = get_or final.metrics unmeasured;
  guardrails = final.guardrail_reasons;
  refused = truthy final.refused;
  trace_id = final.trace_id;
  cache_hit = false;
  cache_layer = none;
  retrieved_ids = ids final.retrieved;
}

-- An embedding, or none where the call raised.
abbrev pub caught : {A : Type 0} → Attempt A → Option A
caught (failed e) = none
caught (returned a) = some a

module _ {F S : Type 0} (fl : Floats F) (st : Settings) (fs : FloatSettings F) (r : Redis F S)
    (v : Vectors F) (h : Helpers F) where
  -- What `ask` returns when it stores a response: the exception of `set`, if it raised.
  abbrev pub stored : RagResponse F → Option S × Option Text → Attempt (RagResponse F) × Option S
  stored response (o, none) = (returned response, o)
  stored response (o, some e) = (failed e, o)

  -- `ask` behind a miss of the cache, with the final state of the graph.
  abbrev pub answer_and_store :
      Text
      → Option Text
      → Option (List F)
      → Option S
      → Attempt (State F)
      → Attempt (RagResponse F) × Option S
  answer_and_store key service_line emb o (failed e) = (failed e, o)
  answer_and_store key service_line emb o (returned final) =
      let response = respond fl final in
      stored response (set fl st r v h.store_time key response service_line emb o)

  -- `ask` with what the cache said.
  abbrev pub looked_up :
      Text
      → Text
      → Option Text
      → Option Text
      → Option (List F)
      → Option S
      → Attempt (Option (RagResponse F))
      → Attempt (RagResponse F) × Option S
  looked_up query key service_line image_caption emb o (failed e) = (failed e, o)
  looked_up query key service_line image_caption emb o (returned (some hit)) = (returned hit, o)
  looked_up query key service_line image_caption emb o (returned none) =
      answer_and_store key service_line emb o
        (invoke fl st fs h (begin query service_line image_caption))

  -- `ask` with the caption of the image.
  unfoldable pub ask_captioned :
      Text → Option Text → Option Text → Option S → Attempt (RagResponse F) × Option S
  ask_captioned query service_line image_caption o =
      let key = cache_query query image_caption in
      let emb = caught (v.embed_query (strip (key ++ (codes " " ++ get_or service_line [])))) in
      looked_up query key service_line image_caption emb o
        (get fl st r v fs.cache_semantic_threshold key service_line emb o)

  -- `ask`: the response, or the exception, and the cache afterwards
  abbrev pub asked :
      Text → Option Text → Option S → Attempt (Option Text) → Attempt (RagResponse F) × Option S
  asked query service_line o (failed e) = (failed e, o)
  asked query service_line o (returned caption) = ask_captioned query service_line caption o

  unfoldable pub ask :
      Text → Option Text → Option Text → Option S → Attempt (RagResponse F) × Option S
  ask query service_line image_bytes o = asked query service_line o (caption_of st h image_bytes)
