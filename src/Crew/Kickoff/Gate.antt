-- ===== src/Crew/Kickoff/Gate.antt =====
-- What a kickoff lets through: outputs that every guardrail passes, and task lists that have a plan.
use crewai_go.Base.{
  ℕ, Bool, true, false, none, some, List, [], ◌∷◌, ◌≡◌, ◌∙◌, refl, ap, sym, inl, inr, Bool-cases,
  Option-cases, get_elem?, map, String, arith, subst,
}
use crewai_go.Base.Result.{Result, ok, err}
use crewai_go.Memory.Policy.{resolve_policy}
use crewai_go.Crew.{Output, Guardrail, Task, Error, Crew, Host, State}
use crewai_go.Crew.Execute.{run_crew_guardrails}
use crewai_go.Crew.Execute.Guards.{run_crew_guardrails_pass}
use crewai_go.Crew.Kickoff.{
  check_crew, check_plan, interpolate_task, interpolate_crew, is_staged, reset, run_process, finish,
  kickoff,
}

module _ {F W : Type 0} (host : Host F W) where
  finish_returns :
      (c : Crew) (r : State F W × Result Error Output) {out : Output}
      → (finish host c r).1 ≡ ok out
      → run_crew_guardrails c.guardrails out ≡ none
  unfolding finish
  finish_returns c (s, err e) {out} h = absurd (cc)
  finish_returns c (s, ok out') {out} h =
      elim (Option-cases (run_crew_guardrails c.guardrails out')) [
        | inl e ↦
            let h' = rw (e, finish) at h in
            let same : out' ≡ out = ground arith in
            subst (λ o. run_crew_guardrails c.guardrails o ≡ none) same e
        | inr (x, e) ↦ let h' = rw (e, finish) at h in absurd (cc)
      ]

  interpolate_plans :
      (inputs : List (String × String)) (ts : List Task)
      → map (λ t. t.plan) (map (λ t. interpolate_task host inputs t) ts) ≡ map (λ t. t.plan) ts
  unfolding interpolate_task
  interpolate_plans inputs [] = refl
  interpolate_plans inputs (t ∷ ts) = ap (λ ps. t.plan ∷ ps) (interpolate_plans inputs ts)

  interpolate_guardrails :
      (inputs : List (String × String)) (c : Crew)
      → (interpolate_crew host inputs c).guardrails ≡ c.guardrails
  unfolding interpolate_crew
  interpolate_guardrails inputs c = elim (Bool-cases (is_staged c.process)) [
    | inl e ↦ rw e refl
    | inr e ↦ rw e refl
  ]

  -- An output that Kickoff returns is one that every guardrail of the crew passes; no other Kickoff
  -- held the lock, and the crew and its plan had passed their checks before any task ran.
  pub kickoff_returns :
      (running : Bool) (inputs : List (String × String)) (c : Crew) (s : State F W) (out : Output)
      → (kickoff host running inputs c s).1 ≡ ok out
      → (running ≡ false)
        × (check_crew c ≡ none)
        × (check_plan c ≡ none)
        × ((k : ℕ) (g : Guardrail) → get_elem? c.guardrails k ≡ some g → g out ≡ none)
  unfolding kickoff
  kickoff_returns true inputs c s out h = absurd (cc)
  kickoff_returns false inputs c s out h = elim (Option-cases (check_crew c)) [
    | inr (e, at) ↦ let h' = rw (at, kickoff) at h in absurd (cc)
    | inl at ↦ elim (Option-cases (check_plan c)) [
      | inr (e, at') ↦ let h' = rw (at, at', kickoff) at h in absurd (cc)
      | inl at' ↦
          let c' = interpolate_crew host inputs c in
          let h' = rw (at, at', kickoff) at h in
          (
            refl,
            at,
            at',
            (run_crew_guardrails_pass c.guardrails out).0 (
                ap (λ gs. run_crew_guardrails gs out) (sym (interpolate_guardrails inputs c))
                ∙ finish_returns c'
                    (run_process host c' (resolve_policy c.memory_policy) (reset host s)) h'),
          )
    ]
  ]
