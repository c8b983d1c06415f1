-- ===== src/Audits.antt =====
-- The rows of the audit trail and their reading (src/finance_rag/memory/audit.py).
use finance_rag.Prelude.{
  ℕ, Bool, true, false, ◌&&◌, Option, none, some, List, ltb, take, keep, map, length, sort_by,
}
use finance_rag.Text.{Text, text_eq}
use finance_rag.Agent.Roles.{Route, non_empty}
use finance_rag.Agent.State.{AuditRecord}

-- A row of `query_audit`: the record with what the database adds.
pub record StoredAudit (F : Type 0) : Type 0 where
  pub audit_id : ℕ
  pub created_at : ℕ
  pub written : AuditRecord F

-- The columns that `recent_audits` selects.
pub record AuditSummary : Type 0 where
  pub audit_id : ℕ
  pub trace_id : Text
  pub thread_id : Option Text
  pub query : Text
  pub refused : Bool
  pub route : Option Route
  pub critic_attempts : ℕ
  pub n_cited : ℕ
  pub n_hallucinated : ℕ
  pub latency_ms : ℕ
  pub created_at : ℕ

-- `column = :value`, which a NULL does not satisfy
unfoldable pub column_is : Option Text → Text → Bool
column_is none value = false
column_is (some c) value = text_eq c value

-- A condition that is only there for a value that is neither None nor empty.
unfoldable pub condition : Option Text → Option Text → Bool
condition wanted column = elim (non_empty wanted) [ none ↦ true | some v ↦ column_is column v ]

module _ {F : Type 0} where
  unfoldable pub audit_selected : Option Text → Option Text → StoredAudit F → Bool
  unfolding condition column_is
  audit_selected thread_id org_id a =
      condition thread_id a.written.thread_id && condition org_id a.written.org_id

  unfoldable pub summary : StoredAudit F → AuditSummary
  summary a = record {
    audit_id = a.audit_id;
    trace_id = a.written.trace_id;
    thread_id = a.written.thread_id;
    query = a.written.query;
    refused = a.written.refused;
    route = a.written.route;
    critic_attempts = a.written.critic_attempts;
    n_cited = length a.written.cited_ids;
    n_hallucinated = length a.written.hallucinated_ids;
    latency_ms = a.written.latency_ms;
    created_at = a.created_at;
  }

  -- `recent_audits`
  unfoldable pub recent_audits :
      ℕ → Option Text → Option Text → List (StoredAudit F) → List AuditSummary
  recent_audits limit thread_id org_id trail =
      let rows = keep (audit_selected thread_id org_id) trail in
      map summary (take limit (sort_by (λ x y. ltb x.created_at y.created_at) rows))
