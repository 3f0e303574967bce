-- ===== src/AgenticLoop/Bounds.antt =====
-- How many phases a cycle has.
use crewai_go.Base.{
  ℕ, zero, suc, ◌+◌, ◌≤◌, ◌≡◌, inl, inr, Option-cases, List, [], ◌∷◌, ◌++◌, String, arith,
}
use crewai_go.AgenticLoop.{
  Options, Phase, planning, executing, evaluating, rewriting, refining, World, Cycle, execute_phase,
  refine_phase, evaluate_phase, rounds, plan_phase, run, or_default, default_max_refinements,
  default_pass_threshold,
}
use crewai_go.AgenticLoop.Passes.{Verdict-cases}

abbrev pub evaluations : List Phase → ℕ
evaluations [] = 0
evaluations (planning ∷ ps) = evaluations ps
evaluations (executing ∷ ps) = evaluations ps
evaluations (evaluating round ∷ ps) = suc (evaluations ps)
evaluations (rewriting round ∷ ps) = evaluations ps
evaluations (refining round ∷ ps) = evaluations ps

abbrev pub refinements : List Phase → ℕ
refinements [] = 0
refinements (planning ∷ ps) = refinements ps
refinements (executing ∷ ps) = refinements ps
refinements (evaluating round ∷ ps) = refinements ps
refinements (rewriting round ∷ ps) = suc (refinements ps)
refinements (refining round ∷ ps) = suc (refinements ps)

evaluations-append : (ps qs : List Phase) → evaluations (ps ++ qs) ≡ evaluations ps + evaluations qs
evaluations-append [] qs = omega arith
evaluations-append (planning ∷ ps) qs = evaluations-append ps qs
evaluations-append (executing ∷ ps) qs = evaluations-append ps qs
evaluations-append (evaluating round ∷ ps) qs = omega (arith, evaluations-append ps qs)
evaluations-append (rewriting round ∷ ps) qs = evaluations-append ps qs
evaluations-append (refining round ∷ ps) qs = evaluations-append ps qs

refinements-append : (ps qs : List Phase) → refinements (ps ++ qs) ≡ refinements ps + refinements qs
refinements-append [] qs = omega arith
refinements-append (planning ∷ ps) qs = refinements-append ps qs
refinements-append (executing ∷ ps) qs = refinements-append ps qs
refinements-append (evaluating round ∷ ps) qs = refinements-append ps qs
refinements-append (rewriting round ∷ ps) qs = omega (arith, refinements-append ps qs)
refinements-append (refining round ∷ ps) qs = omega (arith, refinements-append ps qs)

-- At most `e` evaluations and `r` refinements were added.
abbrev pub AddsAtMost : ℕ → ℕ → List Phase → List Phase → Type 0
AddsAtMost e r before after =
    (evaluations after ≤ evaluations before + e) × (refinements after ≤ refinements before + r)

one_more :
    (before : List Phase) (p : Phase)
    → AddsAtMost (evaluations (p ∷ [])) (refinements (p ∷ [])) before (before ++ p ∷ [])
one_more before p =
    omega (arith, evaluations-append before (p ∷ []), refinements-append before (p ∷ []))

module _ {W : Type 0} (env : World W) where
  evaluate_phase-adds :
      (threshold round : ℕ) (c : Cycle W)
      → AddsAtMost 1 0 c.phases (evaluate_phase env threshold round c).0.phases
  unfolding evaluate_phase
  evaluate_phase-adds threshold round c = ground (arith, one_more c.phases (evaluating round))

  execute_phase-phases :
      (p : Phase) (c : Cycle W) → (execute_phase env p c).0.phases ≡ c.phases ++ p ∷ []
  unfolding execute_phase
  execute_phase-phases p c = ground arith

  refine_phase-adds :
      (opts : Options) (round : ℕ) (prompt : String) (c : Cycle W)
      → AddsAtMost 0 1 c.phases (refine_phase env opts round prompt c).0.phases
  unfolding refine_phase
  refine_phase-adds opts round prompt c = ground (
    arith,
    one_more c.phases (rewriting round),
    one_more c.phases (refining round),
    execute_phase-phases (refining round),
  )

  rounds-adds :
      (opts : Options) (threshold left round : ℕ) (c : Cycle W)
      → AddsAtMost (suc left) left c.phases (rounds env opts threshold left round c).0.phases
  unfolding rounds
  rounds-adds opts threshold zero round c = ground (arith, evaluate_phase-adds threshold round c)
  rounds-adds opts threshold (suc left) round c =
      let (c', v) = evaluate_phase env threshold round c in
      let first = evaluate_phase-adds threshold round c in
      elim (Verdict-cases v) [
        | inl (r, over) ↦ rw (over, rounds) (omega (arith, first))
        | inr (score, feedback, under) ↦
            let prompt = env.refine_prompt feedback score threshold in
            let (c'', e) = refine_phase env opts round prompt c' in
            let second = refine_phase-adds opts round prompt c' in
            let rest = rounds-adds opts threshold left (suc round) c'' in
            elim (Option-cases e) [
              | inr (x, failed) ↦ rw (under, failed, rounds) (omega (arith, first, second))
              | inl fine ↦ rw (under, fine, rounds) (omega (arith, first, second, rest))
            ]
      ]

  plan_phase-adds :
      (opts : Options) (c : Cycle W) → AddsAtMost 0 0 c.phases (plan_phase env opts c).0.phases
  unfolding plan_phase
  plan_phase-adds opts c = ground (arith, one_more c.phases planning)

  execute_phase-adds :
      (c : Cycle W) → AddsAtMost 0 0 c.phases (execute_phase env executing c).0.phases
  execute_phase-adds c = rw (execute_phase-phases executing c) (one_more c.phases executing)

-- Run refines at most as often as the options allow, twice by default, and evaluates at most once
-- more than that.
pub run_bounded :
    {W : Type 0} (env : World W) (opts : Options) (w : W) (context : String)
    → let phases = (run env opts w context).0.phases in
      let n = or_default default_max_refinements opts.max_refinements in
      (refinements phases ≤ n) × (evaluations phases ≤ suc n)
unfolding run
run_bounded {W} env opts w context =
    let start : Cycle W = record {
      world = w;
      context = context;
      output = "";
      facts = [];
      phases = [];
    } in
    let (c, e) = plan_phase env opts start in
    let (c', e') = execute_phase env executing c in
    let planned = plan_phase-adds env opts start in
    let executed = execute_phase-adds env c in
    let n = or_default default_max_refinements opts.max_refinements in
    let rest =
      rounds-adds env opts (or_default default_pass_threshold opts.pass_threshold) n 0 c' in
    elim (Option-cases e) [
      | inr (x, failed) ↦ rw (failed, run) (omega (arith, planned))
      | inl fine ↦ elim (Option-cases e') [
        | inr (x, failed) ↦ rw (fine, failed, run) (omega (arith, planned, executed))
        | inl good ↦ rw (fine, good, run) (omega (arith, planned, executed, rest))
      ]
    ]
