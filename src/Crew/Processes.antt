-- ===== src/Crew/Processes.antt =====
-- The processes of crew.go: runSequentialWithPlan with runSequentialSerial, runHierarchical with
-- resolveManager and delegate, and runStaged with runStage. A panic of a task that runs alone leaves
-- the kickoff; it is an error without the task's number here.
-- `Serial` is about tasks that run one by one, `Manager` about the choice of an agent.
pub mod Serial
pub mod Manager
pub mod Planned
mod Tests
use Prim.Native.String.{◌++◌ as append}
use crewai_go.Base.{
  ℕ, suc, ◌+◌, if◌then◌else◌, Bool, true, false, not, ◌&&◌, ◌||◌, Option, none, some, List, [], ◌∷◌,
  ◌++◌, map, String, str_eq,
}
use crewai_go.Base.Result.{Result, ok, err}
use crewai_go.Memory.Policy.{Policy}
use crewai_go.Memory.Text.{contains}
use crewai_go.Schedule.{plan_waves}
use crewai_go.Crew.{
  Agent, Output, no_output, Task, Stage, Error, no_agent, no_manager, invalid_plan, panicked,
  task_failed, stage_failed, Crew, Host, State, chain, agent_for_index, task_label, failed_upstream,
  mark_failed, warnings_of, add_output,
}
use crewai_go.Crew.Execute.{Outcome, finished, failed, crashed, execute}
use crewai_go.Crew.Group.{Group, GroupResult, Barrier, run_task_group}
use crewai_go.Crew.Waves.{run_async_waves, begin_group, discard_group, commit_group}

-- `task.Agent`, or the agent for the index.
pub own_agent : Crew → ℕ → Task → Option Agent
own_agent c i t = elim t.agent [ some a ↦ some a | none ↦ agent_for_index c.agents i ]

pub has_async : List Task → Bool
has_async [] = false
has_async (t ∷ ts) = t.plan.async || has_async ts

abbrev pub team_manager : Agent
team_manager = record {
  role = "Team Manager";
  goal = "Coordinate the team to complete the tasks with excellence.";
}

pub resolve_manager : Crew → Result Error Agent
resolve_manager c = elim c.manager_agent [
  | some a ↦ ok a
  | none ↦ if c.manager_llm then ok team_manager else err no_manager
]

-- The first agent of the list that passes a test of its role.
pub find_role : (String → Bool) → List Agent → Option Agent
find_role test [] = none
find_role test (a ∷ as') = let rest = find_role test as' in if test a.role then some a else rest

module _ {F W : Type 0} (host : Host F W) (c : Crew) where
  -- The two loops of delegate over the answer, and the first agent where neither finds one.
  pub match_answer : String → Agent → List Agent → Agent
  unfolding find_role
  match_answer answer a as' =
      let resp = host.trim answer in
      elim (find_role (λ role. host.equal_fold (host.trim resp) role) (a ∷ as')) [
        | some b ↦ b
        | none ↦ elim (find_role (λ role. contains (host.lower resp) (host.lower role)) (a ∷ as')) [
          | some b ↦ b
          | none ↦ a
        ]
      ]

  pub delegate_among : Agent → Task → List Agent → W → W × Option Agent
  unfolding match_answer
  delegate_among manager task [] w = (w, none)
  delegate_among manager task (a ∷ []) w = (w, some a)
  delegate_among manager task (a ∷ b ∷ as') w =
      let (w', r) = host.ask manager task w in
      elim r [ err e ↦ (w', some a) | ok answer ↦ (w', some (match_answer answer a (b ∷ as'))) ]

  pub delegate : Agent → Task → W → W × Option Agent
  unfolding delegate_among
  delegate manager task w = delegate_among manager task c.agents w

  -- `if agent == nil { return nil, ErrNoAgent }`.
  pub take_agent : State F W → W × Option Agent → State F W × Result Error Agent
  take_agent s (w, none) = (record s { world = w }, err no_agent)
  take_agent s (w, some a) = (record s { world = w }, ok a)

  -- The agent of a task under a manager; the second argument is the task's own.
  pub assign_from : Agent → Option Agent → Task → State F W → State F W × Result Error Agent
  unfolding delegate take_agent
  assign_from manager (some a) task s = (s, ok a)
  assign_from manager none task s = take_agent s (delegate manager task s.world)

  abbrev pub assign : Agent → Task → State F W → State F W × Result Error Agent
  assign manager task s = assign_from manager task.agent task s

  -- The loop that resolves every agent first.
  pub assign_all : Agent → List Task → State F W → State F W × Result Error (List Agent)
  unfolding assign_from
  assign_all manager [] s = (s, ok [])
  assign_all manager (t ∷ ts) s =
      chain (assign manager t s)
        (λ s' a. chain (assign_all manager ts s') (λ s'' as'. (s'', ok (a ∷ as'))))

module _ {F W : Type 0} (host : Host F W) (c : Crew) (p : Policy) where
  -- What a task alone adds to the output when execute has ended.
  pub fold_task : ℕ → Task → Agent → Output → State F W × Outcome → State F W × Result Error Output
  fold_task i t a out (s, failed e) = (s, err (task_failed (i + 1) e))
  fold_task i t a out (s, crashed text) = (s, err (panicked text))
  fold_task i t a out (s, finished result facts) = (
    s,
    ok (
        add_output (task_label host c t.plan.pointer i) a result facts
          (warnings_of t.plan.pointer s.warnings) out),
  )

  pub run_task : ℕ → Task → Agent → State F W → Output → State F W × Result Error Output
  unfolding fold_task
  run_task i t a s out = fold_task i t a out (execute host c p (host.memory.ctx_done s.world) a t s)

  pub run_sequential_serial : ℕ → List Task → State F W → Output → State F W × Result Error Output
  unfolding run_task own_agent
  run_sequential_serial i [] s out = (s, ok out)
  run_sequential_serial i (t ∷ ts) s out = elim (failed_upstream host c t s) [
    | some e ↦ run_sequential_serial (suc i) ts (mark_failed t e s) out
    | none ↦ elim (own_agent c i t) [
      | none ↦ (s, err no_agent)
      | some a ↦ chain (run_task i t a s out) (λ s' out'. run_sequential_serial (suc i) ts s' out')
    ]
  ]

  unfoldable pub run_sequential : State F W → State F W × Result Error Output
  unfolding run_sequential_serial has_async
  run_sequential s =
      if not (has_async c.tasks)
      then run_sequential_serial 0 c.tasks s no_output
      else elim (plan_waves (map (λ t. t.plan) c.tasks)) [
        | err e ↦ (s, err (invalid_plan e))
        | ok waves ↦ run_async_waves host c p none waves s
      ]

  -- The loop of runHierarchical without asynchronous tasks.
  pub run_managed : Agent → ℕ → List Task → State F W → Output → State F W × Result Error Output
  unfolding assign_from run_task
  run_managed manager i [] s out = (s, ok out)
  run_managed manager i (t ∷ ts) s out =
      chain (assign host c manager t s) (λ s' a.
        chain (run_task i t a s' out) (λ s'' out'. run_managed manager (suc i) ts s'' out'))

  -- The asynchronous tasks under a manager.
  pub run_assigned : Agent → State F W → State F W × Result Error Output
  unfolding assign_all
  run_assigned manager s = chain (assign_all host c manager c.tasks s) (λ s' agents.
      elim (plan_waves (map (λ t. t.plan) c.tasks)) [
        | err e ↦ (s', err (invalid_plan e))
        | ok waves ↦ run_async_waves host c p (some agents) waves s'
      ])

  pub run_hierarchical : State F W → State F W × Result Error Output
  unfolding resolve_manager run_managed run_assigned has_async
  run_hierarchical s = elim (resolve_manager c) [
    | err e ↦ (s, err e)
    | ok manager ↦
        if has_async c.tasks
        then run_assigned manager s
        else run_managed manager 0 c.tasks s no_output
  ]

  -- The loop of runStaged over the results of a stage, from position k on.
  pub fold_stage : (ℕ → GroupResult) → ℕ → List Task → State F W → Output → Output
  fold_stage results k [] s out = out
  fold_stage results k (t ∷ ts) s out =
      let r = results k in
      elim r.error [
        | some e ↦ fold_stage results (suc k) ts s out
        | none ↦ elim r.agent [
          | none ↦ fold_stage results (suc k) ts s out
          | some a ↦ fold_stage results (suc k) ts s (
              add_output (task_label host c t.plan.pointer k) a r.out r.facts
                (warnings_of t.plan.pointer s.warnings) out)
        ]
      ]

  -- runStage: the agents, and the group without a semaphore.
  pub stage_members : ℕ → List Task → List (Task × Option Agent)
  unfolding own_agent
  stage_members i [] = []
  stage_members i (t ∷ ts) = (t, own_agent c i t) ∷ stage_members (suc i) ts

  pub run_stage : Stage → State F W → Barrier F W
  unfolding stage_members
  run_stage stage s =
      run_task_group host c p
        (record {
          members = stage_members 0 stage.tasks;
          slotted = false;
          fail_fast = not stage.optional;
        })
        s

  -- What follows the barrier of a stage.
  pub close_stage : String → Stage → Barrier F W → Output → State F W × Result Error Output
  unfolding fold_stage
  close_stage name stage b out =
      let s = commit_group host p stage.tasks b.state in
      let done : State F W × Result Error Output =
        (s, ok (fold_stage b.results 0 stage.tasks s out)) in
      elim b.first [
        | none ↦ done
        | some (k, e) ↦
            if not stage.optional
            then (discard_group b.state, err (stage_failed name (k + 1) e))
            else done
      ]

  pub run_staged : ℕ → List Stage → State F W → Output → State F W × Result Error Output
  unfolding run_stage close_stage
  run_staged i [] s out = (s, ok out)
  run_staged i (stage ∷ stages) s out =
      let name =
        if str_eq stage.name "" then append "stage " (host.decimal (i + 1)) else stage.name in
      chain (close_stage name stage (run_stage stage (begin_group s)) out)
        (λ s' out'. run_staged (suc i) stages s' out')
