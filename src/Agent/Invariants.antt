-- ===== src/Agent/Invariants.antt =====
-- The rule for a property of the graph's runs: what every step keeps holds at the end.
use finance_rag.Prelude.{ℕ, zero, suc, ◌≡◌, inl, inr, true, false, Bool-cases, arith}
use mathlib.Core.Path.{subst₂}
use finance_rag.Config.{Settings}
use finance_rag.Models.{Floats}
use finance_rag.Guardrails.Answerability.{Attempt, Attempt-cases, returned, failed}
use finance_rag.Agent.State.{Services, Run}
use finance_rag.Agent.Graph.{Node, finish, step, run, finished, at_end}

-- A property of a node and a run, of what a step returns.
abbrev pub Holds : {F : Type 0} → (Node → Run F → Type 0) → Attempt (Node × Run F) → Type 0
Holds P (failed e) = Unit
Holds P (returned (m, q)) = P m q

at_end-finish : (n : Node) → at_end n ≡ true → n ≡ finish
at_end-finish n h = ground arith

finished-injective : {F : Type 0} (r q : Run F) → finished r ≡ finished q → r ≡ q
finished-injective r q h = cc

module _ {F : Type 0} (fl : Floats F) (st : Settings) (sv : Services F) where
  pub run-invariant :
      (P : Node → Run F → Type 0)
      → ((n : Node) (r : Run F) → at_end n ≡ false → P n r → Holds P (step fl st sv n r))
      → (fuel : ℕ) (n : Node) (r q : Run F) → P n r
      → run fl st sv fuel n r ≡ finished q
      → P finish q
  unfolding run
  run-invariant P keep zero n r q p e = elim (Bool-cases (at_end n)) [
    | inl end ↦
        let here : finished r ≡ finished q = rw end at e in
        subst₂ P (at_end-finish n end) (finished-injective r q here) p
    | inr more ↦ cc
  ]
  run-invariant P keep (suc fuel) n r q p e = elim (Bool-cases (at_end n)) [
    | inl end ↦
        let here : finished r ≡ finished q = rw end at e in
        subst₂ P (at_end-finish n end) (finished-injective r q here) p
    | inr more ↦ elim (Attempt-cases (step fl st sv n r)) [
      | inl (m, s) ↦ cc
      | inr (next, s) ↦
          run-invariant P keep fuel next.0 next.1 q (rw s at (keep n r more p)) (rw (more, s) at e)
    ]
  ]
