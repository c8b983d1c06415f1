-- ===== src/SingleAgent/Laws.antt =====
-- What an answer of the single agent has passed (src/finance_rag/agent/graph.py).
use finance_rag.Prelude.{
  Option, get_or, [], ◌≡◌, refl, sym, ap, subst, ◌⊎◌, inl, inr, true, false, some, List, truthy,
  arith, Bool-cases,
}
use finance_rag.Text.{Text}
use finance_rag.Agent.Nodes.{or_text}
use finance_rag.Config.{Settings, FloatSettings}
use finance_rag.Models.{Floats, RetrievedChunk}
use finance_rag.Guardrails.Input.{check_input}
use finance_rag.Guardrails.Answerability.{Attempt, Attempt-cases, returned, failed, check}
use finance_rag.SingleAgent.Nodes.{
  State, Helpers, and_then, input_guardrails, rewrite_query, retrieve, check_answerability,
  abstains, generate, verdict, output_guardrails, answer_or_refuse, invoke, user_prompt, rewritten,
  rewrite_question,
}

module _ {F : Type 0} (fl : Floats F) (st : Settings) (fs : FloatSettings F) (h : Helpers F) where
  -- The passages are what the retriever returned for the rewritten question.
  abbrev pub Retrieved : State F → Type 0
  Retrieved s =
      h.retrieve (or_text s.rewritten_query (or_text s.sanitized_query s.query)) s.service_line
      ≡ returned s.retrieved

  -- The answer is the model's completion for the question and the passages.
  abbrev pub Written : State F → Type 0
  Written s =
      (content : Option Text) × (h.completion (user_prompt s) ≡ returned content)
      × (s.answer ≡ some (get_or content []))

  -- A draft that answers the question that was asked: the input guardrail lets the question in, the
  -- gate finds it answerable from the passages, and the best of them is above the relevance floor.
  pub record Passed (asked : Text) (s : State F) : Type 0 where
    pub about : s.query ≡ asked
    pub allowed_in : (check_input st asked).allowed ≡ true
    pub retrieved_in : Retrieved s
    pub answerable_in : (check st h.gate s.query s.retrieved).answerable ≡ true
    pub relevant_in : abstains fl st fs h s ≡ false
    pub written_in : Written s
    pub unrefused_in : s.refused ≡ some false

  -- A refusal, or the output guardrail's version of a draft that has passed.
  abbrev pub Released : Text → Attempt (State F) → Type 0
  Released asked (failed e) = Unit
  Released asked (returned s) =
      (truthy s.refused ≡ true)
      ⊎ ((t : State F) × Passed asked t
          × ((verdict fl st fs h t).allowed ≡ true)
          × (s ≡ output_guardrails fl st fs h t))

  refused-output_guardrails :
      (t : State F)
      → truthy t.refused ≡ true
      → truthy (output_guardrails fl st fs h t).refused ≡ true
  unfolding output_guardrails
  refused-output_guardrails t e = ground arith

  blocked-output_guardrails :
      (t : State F)
      → (verdict fl st fs h t).allowed ≡ false
      → truthy (output_guardrails fl st fs h t).refused ≡ true
  unfolding output_guardrails
  blocked-output_guardrails t e = ground arith

  output_guardrails-Released :
      (asked : Text) (t : State F)
      → (truthy t.refused ≡ true) ⊎ Passed asked t
      → Released asked (returned (output_guardrails fl st fs h t))
  output_guardrails-Released asked t (inl e) = inl (refused-output_guardrails t e)
  output_guardrails-Released asked t (inr passed) =
      elim (Bool-cases (verdict fl st fs h t).allowed) [
        | inl e ↦ inr (t, passed, e, refl)
        | inr e ↦ inl (blocked-output_guardrails t e)
      ]

  -- What `generate` makes of a state that the gate let through.
  abbrev Drafted : Text → Attempt (State F) → Type 0
  Drafted asked (failed e) = Unit
  Drafted asked (returned t) = (truthy t.refused ≡ true) ⊎ Passed asked t

  -- What is known of a state that the input guardrail has let in and that has its passages.
  abbrev Entered : Text → Attempt (State F) → Type 0
  Entered asked (failed e) = Unit
  Entered asked (returned t) =
      (t.query ≡ asked) × ((check_input st asked).allowed ≡ true) × Retrieved t

  generate-Drafted :
      (asked : Text) (s : State F)
      → Entered asked (returned s)
      → (check st h.gate s.query s.retrieved).answerable ≡ true
      → Drafted asked (generate fl st fs h s)
  unfolding generate abstains user_prompt
  generate-Drafted asked s entered ok = elim (Bool-cases (abstains fl st fs h s)) [
    | inl low ↦ rw (low, generate) (inl refl)
    | inr high ↦ elim (Attempt-cases (h.completion (user_prompt s))) [
      | inl (e, g) ↦ rw (high, g, generate) tt
      | inr (content, g) ↦
          rw (high, g, generate)
            (inr record {
              about = entered.0;
              allowed_in = entered.1;
              retrieved_in = entered.2;
              answerable_in = ok;
              written_in = (content, g, refl);
              unrefused_in = refl;
              relevant_in = high;
            })
    ]
  ]

  and_then-Released :
      (asked : Text) (a : Attempt (State F))
      → Drafted asked a
      → Released asked (and_then a (λ t. returned (output_guardrails fl st fs h t)))
  and_then-Released asked (failed e) d = tt
  and_then-Released asked (returned t) d = output_guardrails-Released asked t d

  answer_or_refuse-Released :
      (asked : Text) (s : State F)
      → Entered asked (returned s)
      → Released asked (answer_or_refuse fl st fs h (check_answerability fl st fs h s))
  unfolding answer_or_refuse check_answerability
  answer_or_refuse-Released asked s entered =
      elim (Bool-cases (check st h.gate s.query s.retrieved).answerable) [
        | inl e ↦
            rw (e, check_answerability, answer_or_refuse)
              (and_then-Released asked (generate fl st fs h (record s { answerable = some true }))
                (generate-Drafted asked (record s { answerable = some true }) entered e))
        | inr e ↦
            rw (e, check_answerability, answer_or_refuse) (inl (refused-output_guardrails _ refl))
      ]

  -- The input guardrail lets a question in, or refuses it.
  input_guardrails-cases :
      (s : State F)
      → (((input_guardrails fl st fs h s).allowed ≡ some true)
          × ((check_input st s.query).allowed ≡ true)
          × ((input_guardrails fl st fs h s).query ≡ s.query))
        ⊎ (((input_guardrails fl st fs h s).allowed ≡ some false)
            × ((input_guardrails fl st fs h s).refused ≡ some true))
  unfolding input_guardrails
  input_guardrails-cases s = elim (Bool-cases (check_input st s.query).allowed) [
    | inl e ↦ inl (ground arith, e, ground arith)
    | inr e ↦ inr (ground arith, ground arith)
  ]

  retrieve-Entered :
      (asked : Text) (s : State F)
      → s.query ≡ asked
      → (check_input st asked).allowed ≡ true
      → Entered asked (retrieve fl st fs h (rewrite_query fl st fs h s))
  unfolding retrieve rewrite_query
  retrieve-Entered asked s about entered =
      let q = rewritten (rewrite_question s) (h.rewriter (rewrite_question s)) in
      let query = or_text (some q) (or_text s.sanitized_query s.query) in
      found-Entered (h.retrieve query s.service_line) refl
    where
      found-Entered :
          (a : Attempt (List (RetrievedChunk F)))
          → h.retrieve
              (or_text
                (some (rewritten (rewrite_question s) (h.rewriter (rewrite_question s))))
                (or_text s.sanitized_query s.query))
              s.service_line
            ≡ a
          → Entered asked (
              and_then a (λ found. returned (record s {
                rewritten_query =
                    some (rewritten (rewrite_question s) (h.rewriter (rewrite_question s)));
                retrieved = found;
              })))
      found-Entered (failed e) g = tt
      found-Entered (returned rs) g = (about, entered, g)

  concluded-Released :
      (asked : Text) (a : Attempt (State F))
      → Entered asked a
      → Released asked
          (and_then a (λ t. answer_or_refuse fl st fs h (check_answerability fl st fs h t)))
  concluded-Released asked (failed e) entered = tt
  concluded-Released asked (returned t) entered = answer_or_refuse-Released asked t entered

  pub entered_run :
      (s : State F)
      → (input_guardrails fl st fs h s).allowed ≡ some true
      → invoke fl st fs h s
        ≡ and_then
            (retrieve fl st fs h (rewrite_query fl st fs h (input_guardrails fl st fs h s)))
            (λ t. answer_or_refuse fl st fs h (check_answerability fl st fs h t))
  unfolding invoke
  entered_run s e = ground arith

  pub blocked_run :
      (s : State F)
      → (input_guardrails fl st fs h s).allowed ≡ some false
      → invoke fl st fs h s ≡ returned (input_guardrails fl st fs h s)
  unfolding invoke
  blocked_run s e = ground arith

  -- A run of the graph fails, refuses, or ends in the output guardrail's version of a draft that
  -- passed the input guardrail, the answerability gate and the relevance floor.
  pub invoke-Released : (s : State F) → Released s.query (invoke fl st fs h s)
  unfolding invoke
  invoke-Released s =
      let s1 = input_guardrails fl st fs h s in
      elim (input_guardrails-cases s) [
        | inl (e, entered, about) ↦ subst (Released s.query) (sym (entered_run s e)) (
            concluded-Released s.query (retrieve fl st fs h (rewrite_query fl st fs h s1))
              (retrieve-Entered s.query s1 about entered))
        | inr (e, g) ↦ subst (Released s.query) (sym (blocked_run s e)) (inl (ap truthy g))
      ]
