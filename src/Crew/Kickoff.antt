-- ===== src/Crew/Kickoff.antt =====
-- Kickoff of crew.go: the lock, the checks of the crew, the interpolation of its inputs, the process
-- and the guardrails. `inputs` are in the order of Go's iteration of the map.
-- `Gate` is about what a kickoff refuses.
pub mod Gate
mod Tests
use Prim.Native.String.{◌++◌ as append}
use crewai_go.Base.{
  ℕ, if◌then◌else◌, Bool, true, false, not, Option, none, some, List, [], ◌∷◌, map, String,
}
use crewai_go.Base.Result.{Result, ok, err}
use crewai_go.Memory.Policy.{Policy, resolve_policy, discard_buffer}
use crewai_go.Schedule.{plan_waves}
use crewai_go.Crew.{
  Output, no_output, Task, Stage, Error, crew_running, invalid_process, no_stages, no_tasks,
  invalid_plan, Process, unset, sequential, hierarchical, staged, unknown, Crew, Host, State, chain,
}
use crewai_go.Crew.Execute.{run_crew_guardrails}
use crewai_go.Crew.Processes.{run_sequential, run_hierarchical, run_staged}

-- The checks before anything is reset: the process, then the stages or the tasks.
pub check_crew : Crew → Option Error
check_crew c = elim c.process [
  | unknown name ↦ some invalid_process
  | staged ↦ elim c.stages [ [] ↦ some no_stages | s ∷ ss ↦ none ]
  | unset ↦ elim c.tasks [ [] ↦ some no_tasks | t ∷ ts ↦ none ]
  | sequential ↦ elim c.tasks [ [] ↦ some no_tasks | t ∷ ts ↦ none ]
  | hierarchical ↦ elim c.tasks [ [] ↦ some no_tasks | t ∷ ts ↦ none ]
]

abbrev pub is_staged : Process → Bool
is_staged staged = true
is_staged unset = false
is_staged sequential = false
is_staged hierarchical = false
is_staged (unknown name) = false

-- The planner's check, which the staged process has not.
pub check_plan : Crew → Option Error
check_plan c = if is_staged c.process then none else elim (plan_waves (map (λ t. t.plan) c.tasks)) [
  | err e ↦ some (invalid_plan e)
  | ok waves ↦ none
]

module _ {F W : Type 0} (host : Host F W) where
  pub interpolate : List (String × String) → String → String
  interpolate [] s = s
  interpolate ((k, v) ∷ inputs) s =
      interpolate inputs (host.replace_all s (append "{" (append k "}")) v)

  pub interpolate_task : List (String × String) → Task → Task
  unfolding interpolate
  interpolate_task inputs t = record t {
    description = interpolate inputs t.description;
    expected = interpolate inputs t.expected;
  }

  pub interpolate_stage : List (String × String) → Stage → Stage
  unfolding interpolate_task
  interpolate_stage inputs s = record s { tasks = map (λ t. interpolate_task inputs t) s.tasks }

  -- The crew with its inputs in place; the tasks of a staged crew stand in its stages.
  pub interpolate_crew : List (String × String) → Crew → Crew
  unfolding interpolate_task interpolate_stage
  interpolate_crew inputs c =
      if is_staged c.process
      then record c { stages = map (λ s. interpolate_stage inputs s) c.stages }
      else record c { tasks = map (λ t. interpolate_task inputs t) c.tasks }

  -- failedTasks and the buffer at the start.
  pub reset : State F W → State F W
  reset s = record s { failed = []; buffer = discard_buffer s.buffer }

  pub run_process : Crew → Policy → State F W → State F W × Result Error Output
  run_process c p s = elim c.process [
    | unknown name ↦ (s, err invalid_process)
    | unset ↦ run_sequential host c p s
    | sequential ↦ run_sequential host c p s
    | hierarchical ↦ run_hierarchical host c p s
    | staged ↦ run_staged host c p 0 c.stages s no_output
  ]

  -- What follows the process: an error discards the buffer, and a guardrail may block the output.
  pub finish : Crew → State F W × Result Error Output → State F W × Result Error Output
  finish c (s, r) = elim r [
    | err e ↦ (record s { buffer = discard_buffer s.buffer }, err e)
    | ok out ↦ elim (run_crew_guardrails c.guardrails out) [
      | some e ↦ (s, err e)
      | none ↦ (s, ok out)
    ]
  ]

  -- Kickoff; the Boolean is whether another one holds the lock.
  pub kickoff : Bool → List (String × String) → Crew → State F W → State F W × Result Error Output
  unfolding check_crew check_plan interpolate_crew reset run_process finish
  kickoff running inputs c s =
      let c' = interpolate_crew inputs c in
      if running then (s, err crew_running) else elim (check_crew c) [
        | some e ↦ (s, err e)
        | none ↦ elim (check_plan c) [
          | some e ↦ (reset s, err e)
          | none ↦ finish c' (run_process c' (resolve_policy c.memory_policy) (reset s))
        ]
      ]
