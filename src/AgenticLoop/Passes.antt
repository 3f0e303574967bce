-- ===== src/AgenticLoop/Passes.antt =====
-- A result has passed an evaluation, and the phases are bounded.
use crewai_go.Base.{
  ℕ, zero, suc, ◌≤◌, ◌≡◌, ◌≢◌, ltb, refl, sym, ◌∙◌, ap, ◌⊎◌, inl, inr, leb, Bool-cases,
  Option-cases, [], String, if◌then◌else◌, arith,
}
use crewai_go.Base.Int.{ℤ, pos, negsuc}
use crewai_go.Base.Result.{Result, ok, err, Result-cases}
use crewai_go.AgenticLoop.{
  Options, LoopError, invalid_evaluation, executing, World, evaluate, parse_evaluation, Cycle,
  Verdict, ends, low, execute_phase, refine_phase, evaluate_phase, rounds, plan_phase, run,
  or_default, default_max_refinements, default_pass_threshold,
}

-- Some evaluation of the output gave a score that reaches the threshold, and is at most 100.
abbrev pub Passed : {W : Type 0} → World W → ℕ → String → Type 0
Passed {W} env threshold output =
    (w : W) × (w' : W) × (score : ℕ) × (feedback : String) × (evaluate env w output
      ≡ (w', ok (score, feedback)))
    × (threshold ≤ score)
    × (score ≤ 100)

err≢ok : {E A : Type 0} {e : E} {x : A} → err e ≢ ok x
err≢ok h = cc

ends_err≢ends_ok : {e : LoopError} {output : String} → ends (err e) ≢ ends (ok output)
ends_err≢ends_ok h = cc

low≢ends :
    {score : ℕ} {feedback : String} {r : Result LoopError String} → low score feedback ≢ ends r
low≢ends h = cc

pub Verdict-cases :
    (v : Verdict)
    → ((r : Result LoopError String) × (v ≡ ends r))
      ⊎ ((score : ℕ) × (feedback : String) × (v ≡ low score feedback))
Verdict-cases (ends r) = inl (r, refl)
Verdict-cases (low score feedback) = inr (score, feedback, refl)

score_le :
    (z : ℤ) (text : String) {score : ℕ} {feedback : String}
    → (elim z as (λ _. Result LoopError (ℕ × String)) [
      | negsuc n ↦ err invalid_evaluation
      | pos n ↦ if ltb 100 n then err invalid_evaluation else ok (n, text)
    ])
      ≡ ok (score, feedback)
    → score ≤ 100
score_le (negsuc n) text h = absurd (err≢ok h)
score_le (pos n) text h = ground (arith, h)

module _ {W : Type 0} (env : World W) where
  parse_evaluation-le :
      (raw : String) {score : ℕ} {feedback : String}
      → parse_evaluation env raw ≡ ok (score, feedback)
      → score ≤ 100
  unfolding parse_evaluation
  parse_evaluation-le raw h = elim (Option-cases (env.unmarshal raw)) [
    | inl none' ↦ absurd (err≢ok (rw (none', parse_evaluation) at h))
    | inr (r, some') ↦ elim (Option-cases r.score) [
      | inl missing ↦ absurd (err≢ok (rw (some', missing, parse_evaluation) at h))
      | inr (z, there) ↦ score_le z r.feedback (rw (some', there, parse_evaluation) at h)
    ]
  ]

  evaluate-le :
      (w : W) (output : String) {score : ℕ} {feedback : String}
      → (evaluate env w output).1 ≡ ok (score, feedback)
      → score ≤ 100
  unfolding evaluate
  evaluate-le w output h = elim (Result-cases (env.evaluator w output).1) [
    | inl (e, failed) ↦ absurd (err≢ok (rw (failed, evaluate) at h))
    | inr (raw, said) ↦ elim (Result-cases (parse_evaluation env raw)) [
      | inr (v, parsed) ↦ parse_evaluation-le raw (parsed ∙ rw (said, parsed, evaluate) at h)
      | inl (e, unread) ↦ elim (Result-cases (env.repair (env.evaluator w output).0 raw).1) [
        | inl (e', failed) ↦ absurd (err≢ok (rw (said, unread, failed, evaluate) at h))
        | inr (raw', repaired) ↦
            parse_evaluation-le raw' (rw (said, unread, repaired, evaluate) at h)
      ]
    ]
  ]

  evaluate_phase-passes :
      (threshold round : ℕ) (c : Cycle W) {output : String}
      → (evaluate_phase env threshold round c).1 ≡ ends (ok output)
      → Passed env threshold output
  unfolding evaluate_phase
  evaluate_phase-passes threshold round c {output} h = elim (Bool-cases (env.ctx_done round)) [
    | inl over ↦ absurd (ends_err≢ends_ok (rw (over, evaluate_phase) at h))
    | inr live ↦ elim (Result-cases (evaluate env c.world c.output).1) [
      | inl (e, failed) ↦ absurd (ends_err≢ends_ok (rw (live, failed, evaluate_phase) at h))
      | inr ((score, feedback), scored) ↦ elim (Bool-cases (leb threshold score)) [
        | inr below ↦ absurd (low≢ends (rw (live, scored, below, evaluate_phase) at h))
        | inl passes ↦
            let same : c.output ≡ output =
              ground (arith, rw (live, scored, passes, evaluate_phase) at h) in
            let w' = (evaluate env c.world c.output).0 in
            let e : evaluate env c.world c.output ≡ (w', ok (score, feedback)) =
              ap (λ r. (w', r)) scored in
            rw (sym same)
              (c.world, w', score, feedback, e, ground arith, evaluate-le c.world c.output scored)
      ]
    ]
  ]

  -- A result of the rounds has passed.
  rounds-passes :
      (opts : Options) (threshold left round : ℕ) (c : Cycle W) {output : String}
      → (rounds env opts threshold left round c).1 ≡ ok output
      → Passed env threshold output
  unfolding rounds
  rounds-passes opts threshold zero round c h =
      elim (Verdict-cases (evaluate_phase env threshold round c).1) [
        | inl (r, over) ↦
            evaluate_phase-passes threshold round c (over ∙ ap ends (rw (over, rounds) at h))
        | inr (score, feedback, under) ↦ absurd (err≢ok (rw (under, rounds) at h))
      ]
  rounds-passes opts threshold (suc left) round c h =
      let (c', v) = evaluate_phase env threshold round c in
      elim (Verdict-cases v) [
        | inl (r, over) ↦
            evaluate_phase-passes threshold round c (over ∙ ap ends (rw (over, rounds) at h))
        | inr (score, feedback, under) ↦
            let (c'', e) =
              refine_phase env opts round (env.refine_prompt feedback score threshold) c' in
            elim (Option-cases e) [
              | inr (x, failed) ↦ absurd (err≢ok (rw (under, failed, rounds) at h))
              | inl fine ↦
                  rounds-passes opts threshold left (suc round) c'' (rw (under, fine, rounds) at h)
            ]
      ]

-- If Run returns an output, the evaluator gave that output a score from the threshold to 100.
pub run_passes :
    {W : Type 0} (env : World W) (opts : Options) (w : W) (context : String) {output : String}
    → (run env opts w context).1 ≡ ok output
    → Passed env (or_default default_pass_threshold opts.pass_threshold) output
unfolding run
run_passes {W} env opts w context h =
    let start : Cycle W = record {
      world = w;
      context = context;
      output = "";
      facts = [];
      phases = [];
    } in
    let (c, e) = plan_phase env opts start in
    let (c', e') = execute_phase env executing c in
    elim (Option-cases e) [
      | inr (x, failed) ↦ absurd (err≢ok (rw (failed, run) at h))
      | inl planned ↦ elim (Option-cases e') [
        | inr (x, failed) ↦ absurd (err≢ok (rw (planned, failed, run) at h))
        | inl executed ↦
            rounds-passes env opts (or_default default_pass_threshold opts.pass_threshold)
              (or_default default_max_refinements opts.max_refinements) 0 c'
              (rw (planned, executed, run) at h)
      ]
    ]
