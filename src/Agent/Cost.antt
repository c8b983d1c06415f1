-- ===== src/Agent/Cost.antt =====
-- What a question costs (src/finance_rag/agent/orchestrator.py): the drafts of a run, and the run of
-- a question that is blocked at the door.
use finance_rag.Prelude.{
  ℕ, zero, suc, ◌+◌, ◌≤◌, ◌≡◌, refl, true, false, some, List, [], ◌∷◌, ap, ◌∙◌, arith,
}
use finance_rag.Text.{Text}
use finance_rag.Config.{Settings}
use finance_rag.Models.{Floats}
use finance_rag.Guardrails.Input.{check_input}
use finance_rag.Agent.State.{AgentState, Services, Run, Stage, writing, finalising}
use finance_rag.Agent.Nodes.{
  route_node, research, search_web, check_answerability, analyse, criticise,
}
use finance_rag.Agent.Compliance.{comply, narrow, cited_chunks, by_id, verdict}
use finance_rag.Agent.Graph.{
  Node, supervisor, researcher, web_searcher, answerability, analyst, critic, compliance, finish,
  after_supervisor, after_research, after_answerability, after_critic, advance, complied, step, run,
  finished, at_end,
}
use finance_rag.Agent.Invariants.{Holds, run-invariant}
use finance_rag.Agent.Termination.{attempts_of}

-- How often the analyst has been called.
abbrev pub drafts : List Stage → ℕ
drafts [] = 0
drafts (writing ∷ l) = suc (drafts l)
drafts (_ ∷ l) = drafts l

module _ {F : Type 0} (fl : Floats F) (st : Settings) (sv : Services F) (base : ℕ) where
  -- Each draft but the one at hand has been rejected, within the budget.
  abbrev Paid : Node → Run F → Type 0
  Paid supervisor r = drafts r.stages ≤ base
  Paid critic r =
      (drafts r.stages ≤ base + attempts_of r.state + 1)
      × (attempts_of r.state ≤ st.critic_max_retries)
  Paid compliance r = drafts r.stages ≤ base + st.critic_max_retries + 1
  Paid finish r = drafts r.stages ≤ base + st.critic_max_retries + 1
  Paid _ r =
      (drafts r.stages ≤ base + attempts_of r.state) × (attempts_of r.state ≤ st.critic_max_retries)

  step-Paid : (n : Node) (r : Run F) → at_end n ≡ false → Paid n r → Holds Paid (step fl st sv n r)
  unfolding step route_node research search_web check_answerability analyse criticise comply
      after_supervisor after_research after_answerability after_critic
  step-Paid supervisor r more h = ground arith
  step-Paid researcher r more h = ground arith
  step-Paid web_searcher r more h = ground arith
  step-Paid answerability r more h = ground arith
  step-Paid analyst r more h = ground arith
  step-Paid critic r more h = ground arith
  step-Paid compliance r more h = ground arith
  step-Paid finish r more h = cc

cited_chunks-nil : {F : Type 0} (cs : List Text) → cited_chunks {F = F} [] cs ≡ []
unfolding cited_chunks by_id
cited_chunks-nil [] = refl
cited_chunks-nil (c ∷ cs) = cited_chunks-nil cs

module _ {F : Type 0} (fl : Floats F) (st : Settings) (sv : Services F) where
  -- However the critic answers, one run of the graph calls the analyst at most
  -- `critic_max_retries + 1` times.
  pub drafts-le :
      (fuel : ℕ) (r q : Run F)
      → run fl st sv fuel supervisor r ≡ finished q
      → drafts q.stages ≤ drafts r.stages + st.critic_max_retries + 1
  drafts-le fuel r q e =
      run-invariant fl st sv (Paid fl st sv (drafts r.stages))
        (step-Paid fl st sv (drafts r.stages)) fuel supervisor r q (omega arith) e

  route_node-blocked :
      (t : ℕ) (s : AgentState F)
      → (check_input st s.query).allowed ≡ false
      → let s' = route_node fl st sv t s in
        (after_supervisor s' ≡ compliance)
        × (s'.refused ≡ some true)
        × (s'.retrieved ≡ [])
        × (s'.citations ≡ [])
  unfolding route_node after_supervisor
  route_node-blocked t s h = ground arith

  abbrev blocked_run : Run F → Run F
  blocked_run r = advance r r.stages (route_node fl st sv r.tick r.state)

  run-supervisor :
      (fuel : ℕ) (r : Run F)
      → run fl st sv (suc fuel) supervisor r
        ≡ run fl st sv fuel (after_supervisor (route_node fl st sv r.tick r.state)) (blocked_run r)
  unfolding run step
  run-supervisor fuel r = refl

  run-finish : (fuel : ℕ) (r : Run F) → run fl st sv fuel finish r ≡ finished r
  unfolding run
  run-finish zero r = refl
  run-finish (suc fuel) r = refl

  run-compliance :
      (fuel : ℕ) (r : Run F) → run fl st sv (suc fuel) compliance r ≡ finished (complied fl st sv r)
  unfolding run step
  run-compliance fuel r = run-finish fuel (complied fl st sv r)

  blocked_run_lem :
      (r : Run F)
      → (check_input st r.state.query).allowed ≡ false
      → (fuel : ℕ)
      → run fl st sv (suc (suc fuel)) supervisor r ≡ finished (complied fl st sv (blocked_run r))
  blocked_run_lem r h fuel =
      first_step
      ∙ ap (λ n. run fl st sv (suc fuel) n (blocked_run r)) (route_node-blocked r.tick r.state h).0
      ∙ run-compliance fuel (blocked_run r)
    where
      first_step :
          run fl st sv (suc (suc fuel)) supervisor r
          ≡ run fl st sv
              (suc fuel)
              (after_supervisor (route_node fl st sv r.tick r.state))
              (blocked_run r)
      first_step = run-supervisor (suc fuel) r

  complied-refused :
      (r : Run F) → r.state.refused ≡ some true → (complied fl st sv r).state.refused ≡ some true
  unfolding complied comply
  complied-refused r h = ground arith

  complied-retrieved :
      (r : Run F) → r.state.retrieved ≡ [] → (complied fl st sv r).state.retrieved ≡ []
  unfolding complied comply
  complied-retrieved r h = ground arith

  complied-citations :
      (r : Run F)
      → r.state.retrieved ≡ []
      → r.state.citations ≡ []
      → (complied fl st sv r).state.citations ≡ []
  unfolding complied comply narrow
  complied-citations r h k =
      ground (arith, cited_chunks-nil {F = F} (verdict fl st sv r.state).grounded_ids)

  complied-stages : (r : Run F) → (complied fl st sv r).stages ≡ finalising ∷ r.stages
  unfolding complied
  complied-stages r = ground arith

  -- A question that the input guardrail does not allow is refused: the graph goes from the
  -- supervisor to compliance and ends, nothing is retrieved and nothing is cited, and of the nodes
  -- that report a stage only compliance has run.
  pub blocked-refused :
      (fuel : ℕ) (r : Run F)
      → (check_input st r.state.query).allowed ≡ false
      → (q : Run F) × (run fl st sv (suc (suc fuel)) supervisor r ≡ finished q)
        × (q.state.refused ≡ some true)
        × (q.state.retrieved ≡ [])
        × (q.state.citations ≡ [])
        × (q.stages ≡ finalising ∷ r.stages)
  unfolding advance
  blocked-refused fuel r h = (
    complied fl st sv (blocked_run r),
    blocked_run_lem r h fuel,
    complied-refused (blocked_run r) (route_node-blocked r.tick r.state h).1,
    complied-retrieved (blocked_run r) (route_node-blocked r.tick r.state h).2,
    complied-citations (blocked_run r) (route_node-blocked r.tick r.state h).2
        (route_node-blocked r.tick r.state h).3,
    complied-stages (blocked_run r),
  )
