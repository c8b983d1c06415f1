-- ===== src/Agent/Answers.antt =====
-- What the final state cites and what the audit trail records of it
-- (src/finance_rag/agent/orchestrator.py).
use finance_rag.Prelude.{
  ◌⊎◌, ◌∙◌, ℕ, ◌≡◌, refl, inl, inr, true, false, some, List, [], ◌∷◌, is_empty, arith, Bool-cases,
  All, In, Option-cases,
}
use mathlib.Core.Path.{subst, sym}
use finance_rag.Text.{Text}
use finance_rag.Config.{Settings}
use finance_rag.Models.{Floats, Citation, RetrievedChunk, ids, citation_ids}
use finance_rag.Guardrails.Answerability.{Attempt-cases, returned, failed}
use finance_rag.Agent.State.{AgentState, AuditRecord, Services, Run}
use finance_rag.Agent.Nodes.{
  route_node, research, search_web, check_answerability, analyse, criticise, cite, citations_of,
}
use finance_rag.Agent.Compliance.{comply, by_id, cited_chunks, narrow, verdict, audit_record}
use finance_rag.Agent.Graph.{
  write_audit, Node, supervisor, researcher, web_searcher, answerability, analyst, critic,
  compliance, finish, after_supervisor, after_research, after_answerability, after_critic, complied,
  step, run, finished, at_end,
}
use finance_rag.Agent.Invariants.{Holds, run-invariant}

-- The citation is that of a retrieved passage, word for word.
abbrev pub IsBacked : {F : Type 0} → List (RetrievedChunk F) → Citation F → Type 0
IsBacked {F} retrieved c = (r : RetrievedChunk F) × In r retrieved × (c ≡ cite r)

module _ {F : Type 0} where
  by_id-In :
      (retrieved : List (RetrievedChunk F)) (c : Text) (r : RetrievedChunk F)
      → by_id retrieved c ≡ some r
      → In r retrieved
  unfolding by_id
  by_id-In [] c r h = cc
  by_id-In (x ∷ xs) c r h = elim (Option-cases (by_id xs c)) [
    | inl miss ↦ inl (ground arith)
    | inr (q, hit) ↦ inr (by_id-In xs c r (ground arith))
  ]

  IsBacked-cons :
      (x : RetrievedChunk F) (retrieved : List (RetrievedChunk F)) (cs : List (Citation F))
      → All (IsBacked retrieved) cs
      → All (IsBacked (x ∷ retrieved)) cs
  IsBacked-cons x retrieved [] h = tt
  IsBacked-cons x retrieved (c ∷ cs) (h, t) = ((h.0, inr h.1, h.2), IsBacked-cons x retrieved cs t)

  citations_of-IsBacked :
      (retrieved : List (RetrievedChunk F)) → All (IsBacked retrieved) (citations_of retrieved)
  unfolding citations_of
  citations_of-IsBacked [] = tt
  citations_of-IsBacked (r ∷ rs) =
      ((r, inl refl, refl), IsBacked-cons r rs (citations_of rs) (citations_of-IsBacked rs))

  cited_chunks-IsBacked :
      (retrieved : List (RetrievedChunk F)) (cs : List Text)
      → All (IsBacked retrieved) (citations_of (cited_chunks retrieved cs))
  unfolding cited_chunks citations_of
  cited_chunks-IsBacked retrieved [] = tt
  cited_chunks-IsBacked retrieved (c ∷ cs) = elim (Option-cases (by_id retrieved c)) [
    | inl miss ↦ rw (miss, All) (cited_chunks-IsBacked retrieved cs)
    | inr (r, hit) ↦
        rw (hit, All) ((r, by_id-In retrieved c r hit, refl), cited_chunks-IsBacked retrieved cs)
  ]

  narrow-IsBacked :
      (retrieved : List (RetrievedChunk F)) (grounded : List Text)
      → All (IsBacked retrieved) (narrow retrieved grounded (citations_of retrieved))
  unfolding narrow
  narrow-IsBacked retrieved grounded =
      elim (Bool-cases (is_empty (cited_chunks retrieved grounded))) [
        | inl e ↦ rw e (citations_of-IsBacked retrieved)
        | inr e ↦ rw e (cited_chunks-IsBacked retrieved grounded)
      ]

module _ {F : Type 0} (fl : Floats F) (st : Settings) (sv : Services F)
    (old : List (AuditRecord F)) where
  -- At compliance the state cites what was retrieved; until then no audit record is written.
  abbrev Cites : Node → Run F → Type 0
  Cites critic r = (r.audits ≡ old) × (r.state.citations ≡ citations_of r.state.retrieved)
  Cites compliance r = (r.audits ≡ old) × (r.state.citations ≡ citations_of r.state.retrieved)
  Cites finish r =
      (t : ℕ) × (s : AgentState F) × (r.state ≡ comply fl st sv t s)
      × (s.citations ≡ citations_of s.retrieved)
      × (st.audit_enabled ≡ true
          → r.audits ≡ write_audit fl st sv t (audit_record fl st sv t s) old)
  Cites _ r = r.audits ≡ old

  supervisor-Cites : (r : Run F) → r.audits ≡ old → Holds Cites (step fl st sv supervisor r)
  unfolding step after_supervisor route_node citations_of
  supervisor-Cites r h = ground arith

  researcher-Cites : (r : Run F) → r.audits ≡ old → Holds Cites (step fl st sv researcher r)
  unfolding step after_research research
  researcher-Cites r h = ground arith

  answerability-Cites : (r : Run F) → r.audits ≡ old → Holds Cites (step fl st sv answerability r)
  unfolding step after_answerability check_answerability
  answerability-Cites r h = ground arith

  analyst-Cites : (r : Run F) → r.audits ≡ old → Holds Cites (step fl st sv analyst r)
  unfolding step analyse
  analyst-Cites r h = ground arith

  critic-Cites :
      (r : Run F)
      → (r.audits ≡ old) × (r.state.citations ≡ citations_of r.state.retrieved)
      → Holds Cites (step fl st sv critic r)
  unfolding step after_critic criticise
  critic-Cites r h = ground arith

  step-Cites :
      (n : Node) (r : Run F) → at_end n ≡ false → Cites n r → Holds Cites (step fl st sv n r)
  unfolding step search_web complied
  step-Cites supervisor r more h = supervisor-Cites r h
  step-Cites researcher r more h = researcher-Cites r h
  step-Cites web_searcher r more h = h
  step-Cites answerability r more h = answerability-Cites r h
  step-Cites analyst r more h = analyst-Cites r h
  step-Cites critic r more h = critic-Cites r h
  step-Cites compliance r more h = (r.tick, r.state, ground arith, h.1, λ on. ground arith)
  step-Cites finish r more h = cc

-- What an audit record says of the final state that it goes with.
pub record Matches {F : Type 0} (a : AuditRecord F) (s : AgentState F) : Type 0 where
  pub same_answer : s.answer ≡ some a.answer
  pub same_verdict : s.refused ≡ some a.refused
  pub same_retrieved : a.retrieved_ids ≡ ids s.retrieved
  pub same_cited : a.cited_ids ≡ citation_ids s.citations
  pub same_metrics : s.metrics ≡ some a.metrics
  pub same_guardrails : a.guardrails ≡ s.guardrail_reasons
  pub same_query : a.query ≡ s.query
  pub same_org : a.org_id ≡ s.org_id

module _ {F : Type 0} (fl : Floats F) (st : Settings) (sv : Services F) where
  comply-IsBacked :
      (t : ℕ) (s : AgentState F)
      → s.citations ≡ citations_of s.retrieved
      → All (IsBacked (comply fl st sv t s).retrieved) (comply fl st sv t s).citations
  unfolding comply
  comply-IsBacked t s h =
      let grounded = (verdict fl st sv s).grounded_ids in
      subst
        (λ (cs : List (Citation F)). All (IsBacked s.retrieved) (narrow s.retrieved grounded cs))
        (sym h) (narrow-IsBacked s.retrieved grounded)

  audit_record-Matches :
      (t : ℕ) (s : AgentState F) → Matches (audit_record fl st sv t s) (comply fl st sv t s)
  unfolding audit_record comply
  audit_record-Matches t s = record {
    same_answer = refl;
    same_verdict = refl;
    same_retrieved = refl;
    same_cited = refl;
    same_metrics = refl;
    same_guardrails = refl;
    same_query = refl;
    same_org = refl;
  }

  -- Every citation of a finished run is the excerpt of a passage in the final retrieved set: no
  -- citation is made up, on any path through the graph.
  pub citations-IsBacked :
      (fuel : ℕ) (r q : Run F)
      → run fl st sv fuel supervisor r ≡ finished q
      → All (IsBacked q.state.retrieved) q.state.citations
  citations-IsBacked fuel r q e =
      let (t, s, made, cites, _) =
        run-invariant fl st sv (Cites fl st sv r.audits) (step-Cites fl st sv r.audits) fuel
          supervisor r q refl e in
      subst (λ (x : AgentState F). All (IsBacked x.retrieved) x.citations) (sym made)
        (comply-IsBacked t s cites)

  attempted :
      (t : ℕ) (a : AuditRecord F) (now old : List (AuditRecord F))
      → now ≡ write_audit fl st sv t a old
      → ((n : ℕ) × (sv.insert_audit t a ≡ returned n) × (now ≡ a ∷ old))
        ⊎ ((e : Text) × (sv.insert_audit t a ≡ failed e) × (now ≡ old))
  unfolding write_audit
  attempted t a now old h = elim (Attempt-cases (sv.insert_audit t a)) [
    | inl (e, g) ↦ inr (e, g, h ∙ rw (g, write_audit) refl)
    | inr (n, g) ↦ inl (n, g, h ∙ rw (g, write_audit) refl)
  ]

  -- With auditing on, a finished run has tried to write exactly one audit record: it is in the trail
  -- if the database took it, and nothing is if the database raised. The record agrees with the final state on the answer, the refusal, the retrieved and the cited ids, the metrics,
  -- the guardrail reasons, the question and the tenant.
  pub audit-Matches :
      (fuel : ℕ) (r q : Run F)
      → st.audit_enabled ≡ true
      → run fl st sv fuel supervisor r ≡ finished q
      → (a : AuditRecord F) × (t : ℕ) × (((n : ℕ) × (sv.insert_audit t a ≡ returned n)
            × (q.audits ≡ a ∷ r.audits))
          ⊎ ((e : Text) × (sv.insert_audit t a ≡ failed e) × (q.audits ≡ r.audits)))
        × Matches a q.state
  audit-Matches fuel r q on e =
      let (t, s, made, _, written) =
        run-invariant fl st sv (Cites fl st sv r.audits) (step-Cites fl st sv r.audits) fuel
          supervisor r q refl e in
      (
        audit_record fl st sv t s,
        t,
        attempted t (audit_record fl st sv t s) q.audits r.audits (written on),
        subst (λ (x : AgentState F). Matches (audit_record fl st sv t s) x) (sym made)
            (audit_record-Matches t s),
      )
