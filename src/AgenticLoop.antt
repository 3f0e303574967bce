-- ===== src/AgenticLoop.antt =====
-- loop.go: the cycle of planning, execution, evaluation and refinement, over a world W. The agent's
-- model, its executor and the texts of prompts.go are parameters. `Passes` is about its result.
pub mod Passes
pub mod Bounds
mod Tests
use crewai_go.Base.{
  ℕ, zero, suc, ◌==◌, ltb, leb, if◌then◌else◌, Bool, true, false, not, ◌&&◌, ◌||◌, Option, none,
  some, List, [], ◌∷◌, ◌++◌, String, str_eq,
}
use crewai_go.Base.Int.{ℤ, pos, negsuc}
use crewai_go.Base.Result.{Result, ok, err}
use crewai_go.Fact.{Fact, dedup_facts}

-- The fields of AgenticLoop that the cycle reads, but for the evaluator.
pub record Options : Type 0 where
  pub max_refinements : ℤ
  pub pass_threshold : ℤ
  pub skip_plan : Bool
  pub rewrite_only : Bool

abbrev pub default_max_refinements : ℕ
default_max_refinements = 2

abbrev pub default_pass_threshold : ℕ
default_pass_threshold = 70

abbrev pub or_default : ℕ → ℤ → ℕ
or_default d (negsuc n) = d
or_default d (pos n) = if n == 0 then d else n

pub data LoopError : Type 0 where
  cancelled : LoopError
  call_failed : String → LoopError
  invalid_evaluation : LoopError
  evaluation_failed : String → LoopError

-- evaluationResult, with the score that may be missing.
pub record Evaluation : Type 0 where
  pub score : Option ℤ
  pub feedback : String

-- The phases of the emitted events, with the round where they have one.
pub data Phase : Type 0 where
  planning executing : Phase
  evaluating rewriting refining : ℕ → Phase

-- What the cycle is run with. `execute` is executeTaskDefault, on a context; `evaluator`, `repair`,
-- `planner` and `rewriter` are calls of a model with the prompt for what they are given, and
-- `unmarshal` is json.Unmarshal after extractJSON.
pub record World (W : Type 0) : Type 0 where
  pub ctx_done : ℕ → Bool
  pub has_tools : Bool
  pub planner : W → String → W × Result String String
  pub execute : W → String → W × Result String (String × List Fact)
  pub evaluator : W → String → W × Result String String
  pub repair : W → String → W × Result String String
  pub rewriter : W → String → String → W × Result String String
  pub unmarshal : String → Option Evaluation
  pub refine_prompt : String → ℕ → ℕ → String
  pub trim : String → String
  pub strip_final : String → String
  pub join : String → String → String

module _ {W : Type 0} (env : World W) where
  -- parseEvaluation.
  pub parse_evaluation : String → Result LoopError (ℕ × String)
  parse_evaluation raw = elim (env.unmarshal raw) [
    | none ↦ err invalid_evaluation
    | some r ↦ elim r.score [
      | none ↦ err invalid_evaluation
      | some z ↦ elim z [
        | negsuc n ↦ err invalid_evaluation
        | pos n ↦ if ltb 100 n then err invalid_evaluation else ok (n, r.feedback)
      ]
    ]
  ]

  -- evaluate: one more call repairs an answer that cannot be read.
  pub evaluate : W → String → W × Result LoopError (ℕ × String)
  unfolding parse_evaluation
  evaluate w output =
      let (w', r) = env.evaluator w output in
      elim r [
        | err e ↦ (w', err (call_failed e))
        | ok raw ↦ elim (parse_evaluation raw) [
          | ok v ↦ (w', ok v)
          | err e ↦
              let (w'', r') = env.repair w' raw in
              elim r' [
                | err e' ↦ (w'', err (call_failed e'))
                | ok raw' ↦ (w'', parse_evaluation raw')
              ]
        ]
      ]

-- The variables of the cycle.
pub record Cycle (W : Type 0) : Type 0 where
  pub world : W
  pub context : String
  pub output : String
  pub facts : List Fact
  pub phases : List Phase

-- What an evaluation decides: the cycle ends, or the score is too low.
pub data Verdict : Type 0 where
  ends : Result LoopError String → Verdict
  low : ℕ → String → Verdict

module _ {W : Type 0} (env : World W) where
  -- The execute phase, on the cycle's context.
  pub execute_phase : Phase → Cycle W → Cycle W × Option LoopError
  execute_phase phase c =
      let (w, r) = env.execute c.world c.context in
      let c' = record c { world = w; phases = c.phases ++ phase ∷ [] } in
      elim r [
        | err e ↦ (c', some (call_failed e))
        | ok (output, facts) ↦
            (record c' { output = output; facts = dedup_facts c.facts facts }, none)
      ]

  -- The refine phase with the feedback's prompt: a rewriting of the output or a new execution.
  pub refine_phase : Options → ℕ → String → Cycle W → Cycle W × Option LoopError
  unfolding execute_phase
  refine_phase opts round prompt c =
      let (w, r) = env.rewriter c.world c.output prompt in
      let c' = record c { world = w; phases = c.phases ++ rewriting round ∷ [] } in
      let context = if str_eq c.context "" then prompt else env.join c.context prompt in
      if opts.rewrite_only
      then elim r [
        | err e ↦ (c', some (call_failed e))
        | ok out ↦ (record c' { output = env.trim (env.strip_final out) }, none)
      ]
      else execute_phase (refining round) (record c { context = context })

  -- The start of a round: the context's end, the evaluation, and the comparison of the score.
  pub evaluate_phase : ℕ → ℕ → Cycle W → Cycle W × Verdict
  unfolding evaluate
  evaluate_phase threshold round c = elim (env.ctx_done round) [
    | true ↦ (c, ends (err cancelled))
    | false ↦
        let (w, r) = evaluate env c.world c.output in
        let c' = record c { world = w; phases = c.phases ++ evaluating round ∷ [] } in
        elim r [
          | err e ↦ (c', ends (err e))
          | ok (score, feedback) ↦
              if leb threshold score then (c', ends (ok c.output)) else (c', low score feedback)
        ]
  ]

  -- The rounds, with the refinements that are left.
  pub rounds : Options → ℕ → ℕ → ℕ → Cycle W → Cycle W × Result LoopError String
  unfolding evaluate_phase refine_phase
  rounds opts threshold zero round c =
      let (c', v) = evaluate_phase threshold round c in
      elim v [ ends r ↦ (c', r) | low score feedback ↦ (c', err (evaluation_failed feedback)) ]
  rounds opts threshold (suc left) round c =
      let (c', v) = evaluate_phase threshold round c in
      elim v [
        | ends r ↦ (c', r)
        | low score feedback ↦
            let prompt = env.refine_prompt feedback score threshold in
            let (c'', e) = refine_phase opts round prompt c' in
            elim e [ some x ↦ (c'', err x) | none ↦ rounds opts threshold left (suc round) c'' ]
      ]

  -- The plan phase, which puts a plan that is not blank before the context.
  pub plan_phase : Options → Cycle W → Cycle W × Option LoopError
  plan_phase opts c =
      let (w, r) = env.planner c.world c.context in
      let c' = record c { world = w; phases = c.phases ++ planning ∷ [] } in
      if not opts.skip_plan && env.has_tools
      then elim r [
        | err e ↦ (c', some (call_failed e))
        | ok out ↦
            let plan = env.trim out in
            if str_eq (env.trim plan) ""
            then (c', none)
            else if str_eq c.context ""
            then (record c' { context = plan }, none)
            else (record c' { context = env.join plan c.context }, none)
      ]
      else (c, none)

  -- Run: the threshold and the number of refinements have defaults.
  pub run : Options → W → String → Cycle W × Result LoopError String
  unfolding plan_phase execute_phase rounds
  run opts w context =
      let start : Cycle W = record {
        world = w;
        context = context;
        output = "";
        facts = [];
        phases = [];
      } in
      let (c, e) = plan_phase opts start in
      let (c', e') = execute_phase executing c in
      elim e [
        | some x ↦ (c, err x)
        | none ↦ elim e' [
          | some x ↦ (c', err x)
          | none ↦
              rounds opts (or_default default_pass_threshold opts.pass_threshold)
                (or_default default_max_refinements opts.max_refinements) 0 c'
        ]
      ]
