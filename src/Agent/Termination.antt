-- ===== src/Agent/Termination.antt =====
-- How many steps of the graph are left at each node (src/finance_rag/agent/orchestrator.py).
use finance_rag.Prelude.{
  ℕ, zero, suc, ◌+◌, ◌-◌, ◌*◌, ◌≤◌, ◌<◌, ◌≡◌, ◌≢◌, ◌⊎◌, inl, inr, true, false, some, get_or, arith,
  Bool-cases,
}
use finance_rag.Config.{Settings}
use finance_rag.Models.{Floats}
use finance_rag.Guardrails.Answerability.{Attempt, Attempt-cases, returned, failed}
use finance_rag.Agent.State.{AgentState, Services, Run}
use finance_rag.Agent.Nodes.{
  route_node, research, search_web, check_answerability, analyse, criticise,
}
use finance_rag.Agent.Compliance.{comply}
use finance_rag.Agent.Graph.{
  Node, supervisor, researcher, web_searcher, answerability, analyst, critic, compliance, finish,
  after_supervisor, after_research, after_answerability, after_critic, step, run, out_of_fuel,
  at_end,
}

-- Rejections so far.
abbrev pub attempts_of : {F : Type 0} → AgentState F → ℕ
attempts_of s = get_or s.critic_attempts 0

-- Between the supervisor and the critic the budget is not spent.
abbrev pub InBudget : {F : Type 0} → Settings → Node → AgentState F → Type 0
InBudget st supervisor s = Unit
InBudget st compliance s = Unit
InBudget st finish s = Unit
InBudget st _ s = attempts_of s ≤ st.critic_max_retries

-- A bound on the steps that are left.
abbrev rank : ℕ → Node → ℕ
rank rounds supervisor = 5 * rounds + 7
rank rounds researcher = 5 * rounds + 6
rank rounds web_searcher = 5 * rounds + 5
rank rounds answerability = 5 * rounds + 4
rank rounds analyst = 5 * rounds + 3
rank rounds critic = 5 * rounds + 2
rank rounds compliance = 1
rank rounds finish = 0

abbrev steps_left : {F : Type 0} → Settings → Node → AgentState F → ℕ
steps_left st supervisor s = rank st.critic_max_retries supervisor
steps_left st n s = rank (st.critic_max_retries - attempts_of s) n

module _ {F : Type 0} (fl : Floats F) (st : Settings) (sv : Services F) where
  route_node-attempts : (t : ℕ) (s : AgentState F) → attempts_of (route_node fl st sv t s) ≡ 0
  unfolding route_node
  route_node-attempts t s = ground arith

  criticise-attempts :
      (t : ℕ) (s : AgentState F)
      → (attempts_of (criticise fl st sv t s) ≡ attempts_of s)
          × ((criticise fl st sv t s).critic_approved ≡ some true)
        ⊎ (attempts_of (criticise fl st sv t s) ≡ attempts_of s + 1)
          × ((criticise fl st sv t s).critic_approved ≡ some false)
  unfolding criticise
  criticise-attempts t s = ground arith

  research-attempts :
      (t : ℕ) (s s' : AgentState F)
      → research fl st sv t s ≡ returned s'
      → attempts_of s' ≡ attempts_of s
  unfolding research
  research-attempts t s s' e = ground arith

  analyse-attempts :
      (t : ℕ) (s s' : AgentState F)
      → analyse fl st sv t s ≡ returned s'
      → attempts_of s' ≡ attempts_of s
  unfolding analyse
  analyse-attempts t s s' e = ground arith

  check_answerability-attempts :
      (t : ℕ) (s : AgentState F) → attempts_of (check_answerability fl st sv t s) ≡ attempts_of s
  unfolding check_answerability
  check_answerability-attempts t s = ground arith

after_supervisor-cases :
    {F : Type 0} (s : AgentState F)
    → (after_supervisor s ≡ web_searcher)
      ⊎ (after_supervisor s ≡ researcher)
      ⊎ (after_supervisor s ≡ compliance)
unfolding after_supervisor
after_supervisor-cases s = ground arith

after_research-cases :
    {F : Type 0} (s : AgentState F)
    → (after_research s ≡ web_searcher) ⊎ (after_research s ≡ answerability)
unfolding after_research
after_research-cases s = ground arith

after_answerability-cases :
    {F : Type 0} (s : AgentState F)
    → (after_answerability s ≡ analyst) ⊎ (after_answerability s ≡ compliance)
unfolding after_answerability
after_answerability-cases s = ground arith

after_critic-cases :
    {F : Type 0} (st : Settings) (s : AgentState F)
    → (after_critic st s ≡ compliance)
      ⊎ (after_critic st s ≡ researcher)
        × (s.critic_approved ≡ some false)
        × (attempts_of s ≤ st.critic_max_retries)
unfolding after_critic
after_critic-cases st s = ground arith

-- After a step that did not raise, the next node is in budget and nearer to the end.
abbrev Progress : {F : Type 0} → Settings → Node → Run F → Attempt (Node × Run F) → Type 0
Progress st n r (failed e) = Unit
Progress st n r (returned (m, q)) =
    InBudget st m q.state × (steps_left st m q.state < steps_left st n r.state)

module _ {F : Type 0} (fl : Floats F) (st : Settings) (sv : Services F) where
  supervisor-Progress : (r : Run F) → Progress st supervisor r (step fl st sv supervisor r)
  unfolding step
  supervisor-Progress r =
      let zeroed = route_node-attempts fl st sv r.tick r.state in
      elim (after_supervisor-cases (route_node fl st sv r.tick r.state)) [
        | inl e ↦ rw e (omega arith)
        | inr rest ↦ elim rest [ inl e ↦ rw e (omega arith) | inr e ↦ rw e (omega arith) ]
      ]

  researcher-Progress :
      (r : Run F)
      → InBudget st researcher r.state
      → Progress st researcher r (step fl st sv researcher r)
  unfolding step
  researcher-Progress r h = elim (Attempt-cases (research fl st sv r.tick r.state)) [
    | inl (m, e) ↦ rw (e, Progress) tt
    | inr (s, e) ↦
        let same = research-attempts fl st sv r.tick r.state s e in
        rw (e, Progress)
          (elim (after_research-cases s) [
            | inl to ↦ rw to (omega arith)
            | inr to ↦ rw to (omega arith)
          ])
  ]

  answerability-Progress :
      (r : Run F)
      → InBudget st answerability r.state
      → Progress st answerability r (step fl st sv answerability r)
  unfolding step
  answerability-Progress r h =
      let same = check_answerability-attempts fl st sv r.tick r.state in
      elim (after_answerability-cases (check_answerability fl st sv r.tick r.state)) [
        | inl to ↦ rw to (omega arith)
        | inr to ↦ rw to (omega arith)
      ]

  analyst-Progress :
      (r : Run F) → InBudget st analyst r.state → Progress st analyst r (step fl st sv analyst r)
  unfolding step
  analyst-Progress r h = elim (Attempt-cases (analyse fl st sv r.tick r.state)) [
    | inl (m, e) ↦ rw (e, Progress) tt
    | inr (s, e) ↦
        let same = analyse-attempts fl st sv r.tick r.state s e in rw (e, Progress) (omega arith)
  ]

  sent_back :
      (t : ℕ) (s : AgentState F)
      → (criticise fl st sv t s).critic_approved ≡ some false
      → attempts_of (criticise fl st sv t s) ≡ attempts_of s + 1
  unfolding criticise
  sent_back t s h = ground arith

  critic-Progress :
      (r : Run F) → InBudget st critic r.state → Progress st critic r (step fl st sv critic r)
  unfolding step
  critic-Progress r h =
      let s = criticise fl st sv r.tick r.state in
      elim (after_critic-cases st s) [
        | inl e ↦ rw e (omega arith)
        | inr e ↦ rw e.0 (omega (arith, sent_back r.tick r.state e.1))
      ]

  web_searcher-Progress :
      (r : Run F)
      → InBudget st web_searcher r.state
      → Progress st web_searcher r (step fl st sv web_searcher r)
  unfolding step search_web
  web_searcher-Progress r h = omega arith

  compliance-Progress : (r : Run F) → Progress st compliance r (step fl st sv compliance r)
  unfolding step comply
  compliance-Progress r = (tt, omega arith)

  step-Progress :
      (n : Node) (r : Run F)
      → at_end n ≡ false
      → InBudget st n r.state
      → Progress st n r (step fl st sv n r)
  step-Progress supervisor r open_ h = supervisor-Progress r
  step-Progress researcher r open_ h = researcher-Progress r h
  step-Progress web_searcher r open_ h = web_searcher-Progress r h
  step-Progress answerability r open_ h = answerability-Progress r h
  step-Progress analyst r open_ h = analyst-Progress r h
  step-Progress critic r open_ h = critic-Progress r h
  step-Progress compliance r open_ h = compliance-Progress r
  step-Progress finish r open_ h = cc

  -- The graph from any node in budget, with fuel for the steps that are left.
  pub run-ends :
      (fuel : ℕ) (n : Node) (r : Run F)
      → InBudget st n r.state
      → steps_left st n r.state < fuel
      → run fl st sv fuel n r ≢ out_of_fuel
  unfolding run
  run-ends zero n r h lt = absurd (omega arith)
  run-ends (suc fuel) n r h lt = elim (Bool-cases (at_end n)) [
    | inl e ↦ rw e (λ p. cc)
    | inr e ↦ rw e (elim (Attempt-cases (step fl st sv n r)) [
      | inl (m, p) ↦ rw p (λ q. cc)
      | inr (next, p) ↦ rw p (
          let better = rw p at (step-Progress n r e h) in
          run-ends fuel next.0 next.1 better.0 (omega arith))
    ])
  ]

  -- The graph always ends, whatever the model, the retriever and the web answer and whatever the
  -- thread's earlier turns left in the state: `5 * critic_max_retries + 8` steps are enough.
  pub graph-terminates :
      (r : Run F) → run fl st sv (5 * st.critic_max_retries + 8) supervisor r ≢ out_of_fuel
  graph-terminates r = run-ends (5 * st.critic_max_retries + 8) supervisor r tt (omega arith)
