-- ===== src/Crew/Samples.antt =====
-- A small crew and a host for the tests.
use Prim.Native.String.{◌++◌ as append}
use crewai_go.Base.{
  ℕ, Bool, true, false, Option, none, some, List, [], ◌∷◌, map, range, str_eq, suc, if◌then◌else◌,
}
use crewai_go.Base.Result.{ok}
use crewai_go.Crew.{Agent, Task, Guardrail, Crew, Host, State, answered, new_crew}

abbrev pub ada : Agent
ada = record { role = "ada"; goal = "write" }

abbrev pub bob : Agent
bob = record { role = "bob"; goal = "read" }

abbrev pub task_at : ℕ → List ℕ → Bool → Option Agent → Task
task_at pointer context async agent = record {
  plan = record { pointer = pointer; context = context; async = async };
  description = "d";
  expected = "e";
  agent = agent;
  output_file = "";
  output_dir = "";
  guardrail = none;
}

abbrev pub no_errors : Guardrail
no_errors out = if str_eq out.final "error" then some "is an error" else none

-- The world counts the entries that the store was given.
abbrev pub calm_host : Host ℕ ℕ
calm_host = record {
  trim = λ s. s;
  lower = λ s. s;
  equal_fold = str_eq;
  decimal = λ n. "n";
  replace_all = λ s k v. s;
  memory = record { put = some (λ w e. (suc w, true)); embed = none; ctx_done = λ w. false };
  query = λ w scope limit chars. (w, ok []);
  now = λ w. 0;
  run = λ stop a t text w. (w, [], answered (append a.role text) []);
  write = λ file jail out w. (w, none);
  ask = λ a t w. (w, ok "bob");
  order = λ n w. map (λ k. (k, false)) (range n);
}

abbrev pub start : State ℕ ℕ
start = record {
  outputs = [];
  warnings = [];
  failed = [];
  buffer = record { buffering = false; entries = [] };
  world = 0;
}

abbrev pub serial_tasks : List Task
serial_tasks = task_at 10 [] false none ∷ task_at 11 (10 ∷ []) false (some bob) ∷ []

abbrev pub serial_crew : Crew
serial_crew = record (new_crew (ada ∷ bob ∷ []) serial_tasks (λ n. "t")) {
  guardrails = no_errors ∷ [];
}

-- The second worker of a group first.
abbrev pub swapped_host : Host ℕ ℕ
swapped_host = record calm_host { order = λ n w. (1, false) ∷ (0, false) ∷ [] }

abbrev pub opened : State ℕ ℕ
opened = record start { buffer = record { buffering = true; entries = [] } }

abbrev pub first_task : Task
first_task = task_at 10 [] true (some ada)

abbrev pub second_task : Task
second_task = task_at 11 [] true (some bob)

abbrev pub wave_crew : Crew
wave_crew = record (new_crew (ada ∷ bob ∷ []) (first_task ∷ second_task ∷ []) (λ n. "t")) {
  fail_fast = true;
}

abbrev pub lenient_crew : Crew
lenient_crew = record wave_crew { fail_fast = false }
