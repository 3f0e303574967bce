-- ===== src/Crew/Execute.antt =====
-- execute of crew.go: the context of a task, its run, its output, its entry in the memory, and its
-- guardrail. `Steady` is about a host whose answers do not depend on the world. queryCommitted and formatMemoryHits are memory_policy.go's.
pub mod Steady
pub mod Failures
pub mod Guards
use Prim.Native.String.{◌++◌ as append}
use crewai_go.Base.{
  ℕ, if◌then◌else◌, Bool, true, false, not, ◌&&◌, ◌||◌, Option, none, some, List, [], ◌∷◌, ◌++◌,
  map, String, str_eq,
}
use crewai_go.Base.Table.{insert, nat_key}
use crewai_go.Base.Result.{Result, ok, err}
use crewai_go.Fact.{Fact}
use crewai_go.Memory.{Entry}
use crewai_go.Memory.Policy.{
  Policy, Host as MemoryHost, Buffer, effective_scope, stash, save_entry, auto_save_entry,
}
use crewai_go.Crew.{
  Agent, Warning, memory_failed, TaskOutput, Output, Guardrail, Task, Error, user, panicked,
  output_rejected, blocked, Crew, Ending, answered, fails, panics, Host, State, context_text,
  add_warnings,
}

-- What execute returns: its results, its error, or the panic that leaves it.
pub data Outcome : Type 0 where
  finished : String → List Fact → Outcome
  failed : Error → Outcome
  crashed : String → Outcome

module _ {F : Type 0} where
  -- The lines of formatMemoryHits, from the last hit to the first.
  pub hit_lines : List (Entry F) → String
  hit_lines [] = ""
  hit_lines (e ∷ es) =
      let task = if not (str_eq e.task "") then append " | task=" e.task else "" in
      append (hit_lines es)
        (append "- [" (append e.agent (append task (append "] " (append e.content "\n")))))

  pub format_hits : (String → String) → List (Entry F) → String
  unfolding hit_lines
  format_hits trim [] = ""
  format_hits trim (e ∷ es) = trim (append "## Memory (recalled)\n" (hit_lines (e ∷ es)))

-- runTaskGuardrail, its error.
unfoldable pub run_task_guardrail : Option Guardrail → String → String → Option Error
run_task_guardrail none label result = none
run_task_guardrail (some g) label result =
    elim (g (record {
      final = result;
      tasks_output =
          record { task = label; agent = ""; output = result; facts = []; warnings = [] } ∷ [];
      facts = [];
      warnings = [];
    })) [ none ↦ none | some e ↦ some (blocked (some label) e) ]

-- runCrewGuardrails, its error.
unfoldable pub run_crew_guardrails : List Guardrail → Output → Option Error
run_crew_guardrails [] out = none
run_crew_guardrails (g ∷ gs) out = elim (g out) [
  | none ↦ run_crew_guardrails gs out
  | some e ↦ some (blocked none e)
]

-- The text that queryCommitted makes of the store's answer.
pub read_hits : {F W : Type 0} → (String → String) → W × Result String (List (Entry F)) → W × String
unfolding format_hits
read_hits trim (w, err e) = (w, "")
read_hits trim (w, ok hits) = (w, format_hits trim hits)

-- The memory's text joined to the context of a task, where it was asked for.
pub join_memory : {W : Type 0} → Policy → String → W → W × String → W × String
join_memory p text w (w', mem) =
    if not (not p.inject_when_empty || str_eq text "")
    then (w, text)
    else if str_eq mem ""
    then (w', text)
    else if str_eq text ""
    then (w', mem)
    else (w', append text (append "\n\n" mem))

-- The end of setOutputWithJail, given what the write answers.
pub after_write : {F W : Type 0} → State F W → W × Option String → State F W × Option Error
after_write s (w, none) = (record s { world = w }, none)
after_write s (w, some e) = (record s { world = w }, some (output_rejected e))

-- The entry put at once, with its warnings.
pub save_now :
    {F W : Type 0}
    → MemoryHost F W
    → (W → Entry F → W × Bool)
    → Policy
    → ℕ
    → Entry F
    → State F W
    → State F W
save_now memory put p task entry s =
    let (w, warned) = save_entry memory put p task entry s.world [] in
    record s { world = w; warnings = s.warnings ++ map (λ t. (t, memory_failed)) warned }

module _ {F W : Type 0} (host : Host F W) (c : Crew) (p : Policy) where
  -- queryCommitted, with a store.
  pub query_committed : W → W × String
  unfolding read_hits
  query_committed w =
      read_hits host.trim
        (host.query w (effective_scope c.name (some p)) p.default_limit p.default_chars)

  -- The text that execute gives to executeTask; the first argument is the store's Put.
  pub inject : Option (W → Entry F → W × Bool) → String → W → W × String
  unfolding query_committed join_memory
  inject none text w = (w, text)
  inject (some put) text w = join_memory p text w (query_committed w)

  -- setOutputWithJail with the jail that execute chooses.
  pub set_output : Task → String → State F W → State F W × Option Error
  unfolding after_write
  set_output task out s =
      let jail = if str_eq task.output_dir "" then c.output_dir else task.output_dir in
      let s' : State F W = record s { outputs = insert task.plan.pointer out s.outputs } in
      if str_eq (host.trim task.output_file) ""
      then (s', none)
      else after_write s' (host.write task.output_file jail out s.world)

  pub new_entry : Agent → Task → String → W → Entry F
  new_entry agent task result w =
      auto_save_entry c.name (some p) (host.now w) (some agent.role)
        (some (c.name_of task.plan.pointer)) result

  -- The block under AutoSave.
  pub auto_save : Option (W → Entry F → W × Bool) → Agent → Task → String → State F W → State F W
  unfolding save_now new_entry
  auto_save none agent task result s = s
  auto_save (some put) agent task result s =
      let entry = new_entry agent task result s.world in
      let buffered : State F W = record s { buffer = stash task.plan.pointer entry s.buffer } in
      let saved = save_now host.memory put p task.plan.pointer entry s in
      if not p.auto_save then s else if s.buffer.buffering then buffered else saved

  -- What follows the output: the memory, then the guardrail.
  pub save_and_guard :
      Agent → Task → String → List Fact → State F W × Option Error → State F W × Outcome
  unfolding auto_save run_task_guardrail
  save_and_guard agent task result facts (s, some e) = (s, failed e)
  save_and_guard agent task result facts (s, none) =
      let name = c.name_of task.plan.pointer in
      let label = if str_eq name "" then "task" else name in
      let s' = auto_save host.memory.put agent task result s in
      elim (run_task_guardrail task.guardrail label result) [
        | some e ↦ (s', failed e)
        | none ↦ (s', finished result facts)
      ]

  -- What follows executeTask, with the state in which it ends.
  pub conclude : Agent → Task → Ending → State F W → State F W × Outcome
  unfolding set_output save_and_guard
  conclude agent task (answered result facts) s =
      save_and_guard agent task result facts (set_output task result s)
  conclude agent task (fails e) s = (s, failed (user e))
  conclude agent task (panics e) s = (s, crashed e)

  pub run_with : Bool → Agent → Task → State F W → W × String → State F W × Outcome
  unfolding conclude
  run_with stopped agent task s (w, text) =
      let (w', notes, ending) = host.run stopped agent task text w in
      conclude agent task ending
        (record s { world = w'; warnings = s.warnings ++ add_warnings task.plan.pointer notes })

  -- execute; the Boolean is whether its context is cancelled.
  unfoldable pub execute : Bool → Agent → Task → State F W → State F W × Outcome
  unfolding run_with inject
  execute stopped agent task s =
      run_with stopped agent task s
        (inject host.memory.put (context_text host c s.outputs task) s.world)
