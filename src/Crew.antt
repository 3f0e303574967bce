-- ===== src/Crew.antt =====
-- crew.go, task.go and guardrail.go: the crew, its tasks, what a kickoff keeps, and the helpers
-- that its processes share. A task pointer is a number, its address. `Execute` is one task, `Group`
-- the barrier of tasks that run together, `Waves` the asynchronous schedule, `Processes` the three
-- processes and `Kickoff` the whole run.
-- Models, tools, the memory store, files and the clock are a host's, over a world W.
pub mod Context
pub mod Samples
pub mod Execute
pub mod Group
pub mod Waves
pub mod Processes
pub mod Kickoff
use Prim.Native.String.{◌++◌ as append}
use crewai_go.Base.{
  ℕ, suc, ◌+◌, ◌-◌, ◌==◌, ltb, if◌then◌else◌, Bool, true, false, not, Option, none, some, List, [],
  ◌∷◌, ◌++◌, length, get_elem?, map, String, str_eq,
}
use crewai_go.Base.Int.{ℤ, pos}
use crewai_go.Base.Table.{Table, lookup, insert, nat_key}
use crewai_go.Base.Result.{Result, ok, err}
use crewai_go.Fact.{Fact, dedup_facts}
use crewai_go.Memory.{Entry}
use crewai_go.Memory.Policy.{Policy, Host as MemoryHost, Buffer}
use crewai_go.Schedule.{Task as PlanTask, PlanError}

pub record Agent : Type 0 where
  pub role : String
  pub goal : String

-- What AddWarning records: a tool's text, or that the entry was not saved as it should be.
pub data Warning : Type 0 where
  note : String → Warning
  memory_failed : Warning

pub record TaskOutput : Type 0 where
  pub task : String
  pub agent : String
  pub output : String
  pub facts : List Fact
  pub warnings : List Warning

-- CrewOutput.
pub record Output : Type 0 where
  pub final : String
  pub tasks_output : List TaskOutput
  pub facts : List Fact
  pub warnings : List Warning

abbrev pub no_output : Output
no_output = record { final = ""; tasks_output = []; facts = []; warnings = [] }

-- A guardrail validates and changes nothing; its error is a text.
abbrev pub Guardrail : Type 0
Guardrail = Output → Option String

-- `plan` has the fields that the planner reads: the pointer, Context and Async.
pub record Task : Type 0 where
  pub plan : PlanTask
  pub description : String
  pub expected : String
  pub agent : Option Agent
  pub output_file : String
  pub output_dir : String
  pub guardrail : Option Guardrail

pub data Error : Type 0 where
  crew_running invalid_process no_stages no_tasks no_agent no_manager cancelled : Error
  invalid_plan : PlanError → Error
  user panicked output_rejected : String → Error
  blocked : Option String → String → Error
  upstream_failed : String → Error → Error
  wave_failed : ℕ → ℕ → Error → Error
  stage_failed : String → ℕ → Error → Error
  task_failed : ℕ → Error → Error

pub record Stage : Type 0 where
  pub name : String
  pub tasks : List Task
  pub optional : Bool

pub data Process : Type 0 where
  unset sequential hierarchical staged : Process
  unknown : String → Process

-- The fields of Crew that a kickoff reads. `name_of` is Task.Name of the task at an address.
pub record Crew : Type 0 where
  pub agents : List Agent
  pub tasks : List Task
  pub stages : List Stage
  pub process : Process
  pub name : String
  pub memory_policy : Option Policy
  pub manager_agent : Option Agent
  pub manager_llm : Bool
  pub guardrails : List Guardrail
  pub output_dir : String
  pub max_workers : ℤ
  pub fail_fast : Bool
  pub name_of : ℕ → String

-- How executeTask ends.
pub data Ending : Type 0 where
  answered : String → List Fact → Ending
  fails panics : String → Ending

-- strings.TrimSpace, ToLower and EqualFold, the decimal digits, strings.ReplaceAll, the memory
-- store with its Query, the clock, executeTask with its warnings, the writing of OutputFile, the
-- manager's answer, and the order in which the workers of a group take effect: each with whether it
-- lets go of its slot once the group is cancelled.
pub record Host (F W : Type 0) : Type 0 where
  pub trim : String → String
  pub lower : String → String
  pub equal_fold : String → String → Bool
  pub decimal : ℕ → String
  pub replace_all : String → String → String → String
  pub memory : MemoryHost F W
  pub query : W → String → ℤ → ℤ → W × Result String (List (Entry F))
  pub now : W → ℕ
  pub run : Bool → Agent → Task → String → W → W × List String × Ending
  pub write : String → String → String → W → W × Option String
  pub ask : Agent → Task → W → W × Result String String
  pub order : ℕ → W → List (ℕ × Bool)

-- What a kickoff changes: Task.output and Task.warnings by address, failedTasks, the buffer.
pub record State (F W : Type 0) : Type 0 where
  pub outputs : Table ℕ String
  pub warnings : List (ℕ × Warning)
  pub failed : Table ℕ Error
  pub buffer : Buffer F
  pub world : W

-- `x, err := m; if err != nil { return nil, err }` where the state is kept.
abbrev pub chain :
    {S A B : Type 0} → S × Result Error A → (S → A → S × Result Error B) → S × Result Error B
chain (s, r) next = elim r [ err e ↦ (s, err e) | ok x ↦ next s x ]

pub agent_for_index : List Agent → ℕ → Option Agent
agent_for_index [] i = none
agent_for_index (a ∷ as') i =
    if ltb i (length (a ∷ as')) then get_elem? (a ∷ as') i else get_elem? (a ∷ as') (length as')

module _ {F W : Type 0} (host : Host F W) (c : Crew) where
  pub task_label : ℕ → ℕ → String
  task_label task i =
      if not (str_eq (c.name_of task) "")
      then c.name_of task
      else append "Task " (host.decimal (i + 1))

  -- What a dependency with this output writes before the rest.
  pub context_part : ℕ → Option String → String → String
  context_part d none rest = rest
  context_part d (some out) rest =
      let body = append out (append "\n\n" rest) in
      if str_eq out ""
      then rest
      else if not (str_eq (c.name_of d) "")
      then append (c.name_of d) (append ":\n" body)
      else body

  -- The loop of contextText.
  pub context_loop : Table ℕ String → List ℕ → String
  unfolding context_part
  context_loop outputs [] = ""
  context_loop outputs (d ∷ ds) = context_part d (lookup d outputs) (context_loop outputs ds)

  pub context_text : Table ℕ String → Task → String
  unfolding context_loop
  context_text outputs task = host.trim (context_loop outputs task.plan.context)

  -- The loop of failedUpstream.
  pub failed_dep : Table ℕ Error → List ℕ → Option Error
  unfolding task_label
  failed_dep failed [] = none
  failed_dep failed (d ∷ ds) = elim (lookup d failed) [
    | none ↦ failed_dep failed ds
    | some e ↦ some (upstream_failed (task_label d 0) e)
  ]

  pub failed_upstream : Task → State F W → Option Error
  unfolding failed_dep
  failed_upstream task s = failed_dep s.failed task.plan.context

pub mark_failed : {F W : Type 0} → Task → Error → State F W → State F W
mark_failed task e s = record s { failed = insert task.plan.pointer e s.failed }

-- AddWarning for each text.
pub add_warnings : ℕ → List String → List (ℕ × Warning)
add_warnings task [] = []
add_warnings task (t ∷ ts) =
    let rest = add_warnings task ts in if str_eq t "" then rest else (task, note t) ∷ rest

-- Task.Warnings.
pub warnings_of : ℕ → List (ℕ × Warning) → List Warning
warnings_of task [] = []
warnings_of task ((t, w) ∷ ws) =
    let rest = warnings_of task ws in if t == task then w ∷ rest else rest

-- `out.TasksOutput = append(...)` and the three lines after it.
pub add_output : String → Agent → String → List Fact → List Warning → Output → Output
unfolding dedup_facts
add_output label agent result facts warnings out = record {
  final = result;
  tasks_output =
      out.tasks_output
      ++ record {
        task = label;
        agent = agent.role;
        output = result;
        facts = facts;
        warnings = warnings;
      }
        ∷ [];
  facts = dedup_facts out.facts facts;
  warnings = out.warnings ++ warnings;
}

-- NewCrew.
abbrev pub new_crew : List Agent → List Task → (ℕ → String) → Crew
new_crew agents tasks name_of = record {
  agents = agents;
  tasks = tasks;
  stages = [];
  process = sequential;
  name = "";
  memory_policy = none;
  manager_agent = none;
  manager_llm = false;
  guardrails = [];
  output_dir = "";
  max_workers = pos 8;
  fail_fast = true;
  name_of = name_of;
}
