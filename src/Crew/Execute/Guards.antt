-- ===== src/Crew/Execute/Guards.antt =====
-- The guardrails of a crew.
use crewai_go.Base.{
  ℕ, zero, suc, none, some, List, [], ◌∷◌, ◌≡◌, ◌↔◌, ◌∙◌, refl, ap, sym, inl, inr, Option-cases,
  get_elem?, arith,
}
use crewai_go.Base.Table.{nat_key}
use crewai_go.Crew.{Output, Guardrail}
use crewai_go.Crew.Execute.{run_crew_guardrails}

guardrails_passed :
    (gs : List Guardrail) (out : Output)
    → run_crew_guardrails gs out ≡ none
    → (k : ℕ) (g : Guardrail) → get_elem? gs k ≡ some g
    → g out ≡ none
unfolding run_crew_guardrails
guardrails_passed [] out h k g e = absurd (cc)
guardrails_passed (f ∷ gs) out h zero g e = elim (Option-cases (f out)) [
  | inl passes ↦ let same : f ≡ g = ground arith in ap (λ g. g out) (sym same) ∙ passes
  | inr (x, blocks) ↦ absurd (ground arith)
]
guardrails_passed (f ∷ gs) out h (suc k) g e = elim (Option-cases (f out)) [
  | inl passes ↦ guardrails_passed gs out (rw (passes, run_crew_guardrails) at h) k g e
  | inr (x, blocks) ↦ absurd (ground arith)
]

guardrails_pass :
    (gs : List Guardrail) (out : Output)
    → ((k : ℕ) (g : Guardrail) → get_elem? gs k ≡ some g → g out ≡ none)
    → run_crew_guardrails gs out ≡ none
unfolding run_crew_guardrails
guardrails_pass [] out h = refl
guardrails_pass (f ∷ gs) out h =
    rw (h 0 f refl, run_crew_guardrails) (guardrails_pass gs out (λ k g e. h (suc k) g e))

-- runCrewGuardrails passes an output exactly where every guardrail of the crew does.
pub run_crew_guardrails_pass :
    (gs : List Guardrail) (out : Output)
    → (run_crew_guardrails gs out ≡ none)
      ↔ ((k : ℕ) (g : Guardrail) → get_elem? gs k ≡ some g → g out ≡ none)
run_crew_guardrails_pass gs out = (guardrails_passed gs out, guardrails_pass gs out)
