-- ===== src/SingleAgent/Blocked.antt =====
-- Questions that the input guardrail blocks (src/finance_rag/agent/graph.py).
use finance_rag.Prelude.{true, false, none, some, [], ◌++◌}
use finance_rag.Text.{Text, codes, join}
use finance_rag.Config.{Settings, FloatSettings}
use finance_rag.Models.{Floats, RagResponse, unmeasured}
use finance_rag.Guardrails.Input.{check_input}
use finance_rag.Cache.{Redis, Vectors}
use finance_rag.SingleAgent.Nodes.{Helpers}

module _ {F S : Type 0} (fl : Floats F) (st : Settings) (fs : FloatSettings F) (r : Redis F S)
    (v : Vectors F) (h : Helpers F) where
  -- The response to a question that the input guardrail blocks.
  abbrev pub refusal : Text → RagResponse F
  refusal query = record {
    answer =
        codes "I cannot process this request due to safety / policy checks: "
        ++ join (codes "; ") (check_input st query).reasons;
    citations = [];
    confidence = fl.zero;
    metrics = unmeasured;
    guardrails = (check_input st query).reasons;
    refused = true;
    trace_id = some h.fresh_id;
    cache_hit = false;
    cache_layer = none;
    retrieved_ids = [];
  }
