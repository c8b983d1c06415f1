-- ===== src/Agent/Safety.antt =====
-- What an answer has passed before it reaches the user
-- (src/finance_rag/agent/orchestrator.py).
use finance_rag.Prelude.{
  Bool, List, ltb, ◌+◌, if◌then◌else◌, ℕ, ◌≡◌, refl, ◌⊎◌, inl, inr, true, false, Option, some, [],
  get_or, truthy, arith, Bool-cases, sym, ap, ◌∙◌,
}
use finance_rag.Text.{Text}
use finance_rag.Config.{Settings}
use finance_rag.Models.{Floats}
use finance_rag.Guardrails.Input.{check_input}
use finance_rag.Guardrails.Answerability.{Attempt-cases, returned, check}
use finance_rag.Agent.Roles.{review}
use finance_rag.Agent.State.{AgentState, Services, Run, AuditRecord}
use finance_rag.Agent.Nodes.{
  or_text, route_node, research, search_web, check_answerability, analyst_prompt, analyse,
  criticise,
}
use finance_rag.Agent.Compliance.{comply, verdict, final_answer}
use finance_rag.Agent.Graph.{
  Node, supervisor, researcher, web_searcher, answerability, analyst, critic, compliance, finish,
  after_supervisor, after_research, after_answerability, after_critic, step, run, finished, at_end,
}
use finance_rag.Agent.Invariants.{Holds, run-invariant}

module _ {F : Type 0} (fl : Floats F) (st : Settings) (sv : Services F) (asked : Text) where
  -- The state is about the question that was asked, and the input guardrail lets it in.
  abbrev pub Entered : AgentState F → Type 0
  Entered s = (s.query ≡ asked) × ((check_input st asked).allowed ≡ true)

  -- The answerability gate has found the question answerable from the passages of the state.
  abbrev pub Grounded : AgentState F → Type 0
  Grounded s = (t : ℕ) × ((check st (sv.gate t) s.query s.retrieved).answerable ≡ true)

  -- The answer is a completion of the analyst for the passages of the state.
  abbrev pub Written : AgentState F → Type 0
  Written s =
      (t : ℕ) × (content : Option Text) × (sv.analyst t (analyst_prompt s) ≡ returned content)
      × (s.answer ≡ some (get_or content []))

  -- The critic's review of the answer against the passages of the state approves it.
  abbrev pub Reviewed : AgentState F → Type 0
  Reviewed s =
      (t : ℕ) × ((review st (sv.critic t) s.query (get_or s.answer []) s.retrieved).approved ≡ true)

  -- A draft that the input guardrail, the answerability gate and the critic have passed, each asked
  -- about this question, these passages and this answer.
  pub record Approved (s : AgentState F) : Type 0 where
    pub entered_in : Entered s
    pub grounded_in : Grounded s
    pub written_in : Written s
    pub reviewed_in : Reviewed s
    pub unrefused_in : s.refused ≡ some false

  -- What compliance is given: a refusal, or an approved draft.
  abbrev pub Ready : AgentState F → Type 0
  Ready s = (s.refused ≡ some true) ⊎ Approved s

  -- What is known when a node begins; at the end, what the final state was made from.
  abbrev pub Vetted : Node → Run F → Type 0
  Vetted supervisor r = r.state.query ≡ asked
  Vetted analyst r = Entered r.state × Grounded r.state
  Vetted critic r =
      Entered r.state × Grounded r.state × Written r.state × (r.state.refused ≡ some false)
  Vetted compliance r = Ready r.state
  Vetted finish r = (t : ℕ) × (s : AgentState F) × (r.state ≡ comply fl st sv t s) × Ready s
  Vetted _ r = Entered r.state

  -- Two nodes that expect a question that has been let in.
  Vetted-search :
      (b : Bool) (r : Run F) → Entered r.state → Vetted (if b then web_searcher else researcher) r
  Vetted-search true r h = h
  Vetted-search false r h = h

  Vetted-found :
      (b : Bool) (r : Run F)
      → Entered r.state
      → Vetted (if b then web_searcher else answerability) r
  Vetted-found true r h = h
  Vetted-found false r h = h

  kept_state :
      (b : Bool) (r : Run F) (records : List (AuditRecord F))
      → (if b then record r { audits = records } else r).state ≡ r.state
  kept_state true r records = refl
  kept_state false r records = refl

  supervisor-Vetted :
      (r : Run F) → r.state.query ≡ asked → Holds Vetted (step fl st sv supervisor r)
  unfolding step after_supervisor route_node
  supervisor-Vetted r h = elim (Bool-cases (check_input st r.state.query).allowed) [
    | inl e ↦ rw e (Vetted-search _ _ (h, ap (λ q. (check_input st q).allowed) (sym h) ∙ e))
    | inr e ↦ rw e (inl refl)
  ]

  researcher-Vetted : (r : Run F) → Entered r.state → Holds Vetted (step fl st sv researcher r)
  unfolding step after_research research
  researcher-Vetted r h =
      elim (Attempt-cases (
        sv.retrieve r.tick (or_text r.state.search_query r.state.query) r.state.org_id
          r.state.as_of)) [
            | inl (e, g) ↦ rw (g, Holds) tt
            | inr (found, g) ↦ rw (g, Holds) (Vetted-found _ _ h)
          ]

  answerability-Vetted :
      (r : Run F) → Entered r.state → Holds Vetted (step fl st sv answerability r)
  unfolding step after_answerability check_answerability
  answerability-Vetted r h =
      elim (Bool-cases (check st (sv.gate r.tick) r.state.query r.state.retrieved).answerable) [
        | inl e ↦ rw e (h, (r.tick, e))
        | inr e ↦ rw e (inl refl)
      ]

  analyst-Vetted :
      (r : Run F) → Entered r.state × Grounded r.state → Holds Vetted (step fl st sv analyst r)
  unfolding step analyse analyst_prompt
  analyst-Vetted r h = elim (Attempt-cases (sv.analyst r.tick (analyst_prompt r.state))) [
    | inl (e, g) ↦ rw (g, Holds) tt
    | inr (content, g) ↦ rw (g, Holds) (h.0, h.1, (r.tick, content, g, refl), refl)
  ]

  critic-Vetted :
      (r : Run F)
      → Entered r.state × Grounded r.state × Written r.state × (r.state.refused ≡ some false)
      → Holds Vetted (step fl st sv critic r)
  unfolding step after_critic criticise analyst_prompt
  critic-Vetted r h =
      let attempts = get_or r.state.critic_attempts 0 in
      elim (Bool-cases
        (review st (sv.critic r.tick) r.state.query (get_or r.state.answer [])
          r.state.retrieved).approved) [
            | inl e ↦ rw e (
                inr record {
                  entered_in = h.0;
                  grounded_in = h.1;
                  written_in = h.2;
                  reviewed_in = (r.tick, e);
                  unrefused_in = h.3;
                })
            | inr e ↦ elim (Bool-cases (ltb st.critic_max_retries (attempts + 1))) [
              | inl g ↦ rw (e, g) rw g (inl refl)
              | inr g ↦ rw (e, g) rw g h.0
            ]
          ]

  step-Vetted :
      (n : Node) (r : Run F) → at_end n ≡ false → Vetted n r → Holds Vetted (step fl st sv n r)
  unfolding step search_web
  step-Vetted supervisor r more h = supervisor-Vetted r h
  step-Vetted researcher r more h = researcher-Vetted r h
  step-Vetted web_searcher r more h = h
  step-Vetted answerability r more h = answerability-Vetted r h
  step-Vetted analyst r more h = analyst-Vetted r h
  step-Vetted critic r more h = critic-Vetted r h
  step-Vetted compliance r more h = (r.tick, r.state, kept_state st.audit_enabled _ _, h)
  step-Vetted finish r more h = cc

  released_from :
      (t : ℕ) (s : AgentState F)
      → Ready s
      → truthy (comply fl st sv t s).refused ≡ false
      → Approved s
        × ((verdict fl st sv s).allowed ≡ true)
        × ((comply fl st sv t s).answer
            ≡ some (final_answer (verdict fl st sv s) false (get_or s.answer [])))
  unfolding comply
  released_from t s (inl e) h = absurd (ground arith)
  released_from t s (inr a) h = let open_draft = a.unrefused_in in (a, ground arith, ground arith)

  -- An answer that is not marked as a refusal was made by compliance from a draft that is the
  -- analyst's answer to the question that was asked: the input guardrail lets the question in, the
  -- answerability gate found it answerable from the passages, and the critic approved the answer
  -- against them; the output guardrail allowed it, and what the user reads is the guardrail's
  -- redacted text of that draft.
  pub released-Approved :
      (fuel : ℕ) (r q : Run F)
      → r.state.query ≡ asked
      → run fl st sv fuel supervisor r ≡ finished q
      → truthy q.state.refused ≡ false
      → (t : ℕ) × (s : AgentState F) × (q.state ≡ comply fl st sv t s)
        × Approved s
        × ((verdict fl st sv s).allowed ≡ true)
        × (q.state.answer ≡ some (final_answer (verdict fl st sv s) false (get_or s.answer [])))
  released-Approved fuel r q about e h =
      let (t, s, made, ready) =
        run-invariant fl st sv Vetted step-Vetted fuel supervisor r q about e in
      let (a, b, c) = released_from t s ready (rw made at h) in (t, s, made, a, b, rw made c)
