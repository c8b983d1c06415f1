-- ===== src/Agent/Graph.antt =====
-- The graph of `MultiAgentRAG` (src/finance_rag/agent/orchestrator.py): the edges of
-- `_build_graph` with their routing functions, and the run of the graph.
use finance_rag.Prelude.{
  ℕ, zero, suc, ◌+◌, Bool, true, false, Option, some, List, ◌∷◌, ltb, if◌then◌else◌, get_or,
}
use finance_rag.Text.{Text}
use finance_rag.Config.{Settings}
use finance_rag.Models.{Floats}
use finance_rag.Guardrails.Answerability.{Attempt, returned, failed}
use finance_rag.Agent.Roles.{Route, web, both}
use finance_rag.Agent.State.{
  AgentState, AuditRecord, Services, Run, Stage, retrieving, searching_web, checking_answerability,
  writing, verifying, finalising,
}
use finance_rag.Agent.Nodes.{
  route_node, research, search_web, check_answerability, analyse, criticise,
}
use finance_rag.Agent.Compliance.{comply, audit_record}

pub data Node : Type 0 where
  supervisor researcher web_searcher answerability analyst critic compliance finish : Node

-- `state.get("route", "corpus") == "web"`
abbrev wants_web : Option Route → Bool
wants_web (some web) = true
wants_web _ = false

abbrev wants_both : Option Route → Bool
wants_both (some both) = true
wants_both _ = false

module _ {F : Type 0} where
  -- `_route_from_supervisor`
  unfoldable pub after_supervisor : AgentState F → Node
  after_supervisor s =
      if get_or s.allowed true
      then (if wants_web s.route then web_searcher else researcher)
      else compliance

  -- `_after_research`
  unfoldable pub after_research : AgentState F → Node
  after_research s = if wants_both s.route then web_searcher else answerability

  -- `_after_answerability`
  unfoldable pub after_answerability : AgentState F → Node
  after_answerability s = if get_or s.answerable true then analyst else compliance

  -- `_after_critic`
  unfoldable pub after_critic : Settings → AgentState F → Node
  after_critic st s =
      if get_or s.critic_approved true
      then compliance
      else if ltb st.critic_max_retries (get_or s.critic_attempts 0)
      then compliance
      else researcher

  -- One node has run: its state, one more step, and the stage that it reported.
  unfoldable pub advance : Run F → List Stage → AgentState F → Run F
  advance r stages s = record r { state = s; tick = r.tick + 1; stages = stages }

-- How a run of the graph comes out: at its end, by an exception, or short of fuel.
pub data Outcome (F : Type 0) : Type 0 where
  finished : Run F → Outcome F
  raised : Text → Outcome F
  out_of_fuel : Outcome F

abbrev pub at_end : Node → Bool
at_end finish = true
at_end _ = false

module _ {F : Type 0} (fl : Floats F) (st : Settings) (sv : Services F) where
  -- `write_audit`: an insertion that raises is caught, and the record is lost.
  unfoldable pub write_audit : ℕ → AuditRecord F → List (AuditRecord F) → List (AuditRecord F)
  write_audit t a trail = elim (sv.insert_audit t a) [ failed e ↦ trail | returned n ↦ a ∷ trail ]

  -- Compliance, with its audit record.
  unfoldable pub complied : Run F → Run F
  unfolding advance
  complied r =
      let done = advance r (finalising ∷ r.stages) (comply fl st sv r.tick r.state) in
      if st.audit_enabled
      then record done {
        audits = write_audit r.tick (audit_record fl st sv r.tick r.state) r.audits;
      }
      else done

  -- A node and the edge behind it. An exception in a node leaves the graph.
  unfoldable pub step : Node → Run F → Attempt (Node × Run F)
  unfolding advance complied
  step supervisor r =
      let s = route_node fl st sv r.tick r.state in
      returned (after_supervisor s, advance r r.stages s)
  step researcher r = elim (research fl st sv r.tick r.state) [
    | failed e ↦ failed e
    | returned s ↦ returned (after_research s, advance r (retrieving ∷ r.stages) s)
  ]
  step web_searcher r =
      returned
        (answerability, advance r (searching_web ∷ r.stages) (search_web fl st sv r.tick r.state))
  step answerability r =
      let s = check_answerability fl st sv r.tick r.state in
      returned (after_answerability s, advance r (checking_answerability ∷ r.stages) s)
  step analyst r = elim (analyse fl st sv r.tick r.state) [
    | failed e ↦ failed e
    | returned s ↦ returned (critic, advance r (writing ∷ r.stages) s)
  ]
  step critic r =
      let s = criticise fl st sv r.tick r.state in
      returned (after_critic st s, advance r (verifying ∷ r.stages) s)
  step compliance r = returned (finish, complied r)
  step finish r = returned (finish, r)

  -- The graph from a node on, with fuel for so many steps.
  unfoldable pub run : ℕ → Node → Run F → Outcome F
  run zero n r = if at_end n then finished r else out_of_fuel
  run (suc fuel) n r =
      let rest : Outcome F = elim (step n r) [
        | failed e ↦ raised e
        | returned (m, q) ↦ run fuel m q
      ] in
      if at_end n then finished r else rest
