-- ===== src/Crew/Processes/Tests.antt =====
-- Runs of a crew of two agents, one task after the other.
use crewai_go.Base.{List, [], ◌∷◌, length, map, String, ◌≡◌, refl, arith}
use crewai_go.Base.Result.{ok}
use crewai_go.Memory.Policy.{new_policy, save_entry, auto_save_entry}
use crewai_go.Crew.{
  Agent, Output, TaskOutput, no_output, failed_upstream, agent_for_index, add_output, context_text,
  warnings_of, add_warnings, task_label,
}
use crewai_go.Crew.Samples.{ada, calm_host, start, serial_tasks, serial_crew}
use crewai_go.Crew.Execute.{execute}
use crewai_go.Crew.Processes.{run_sequential_serial, run_managed, assign_all}
use crewai_go.Crew.Processes.Serial.{labels, last_output, run_sequential_serial_all}
use crewai_go.Crew.Processes.Manager.{assign_all_returns}

abbrev entry : String → String → TaskOutput
entry agent text = record { task = "t"; agent = agent; output = text; facts = []; warnings = [] }

abbrev serial_output : Output
serial_output = record {
  final = "bobt:\nada\n\n";
  tasks_output = entry "ada" "ada" ∷ entry "bob" "bobt:\nada\n\n" ∷ [];
  facts = [];
  warnings = [];
}

abbrev managed_output : Output
managed_output = record {
  final = "bobt:\nbob\n\n";
  tasks_output = entry "bob" "bob" ∷ entry "bob" "bobt:\nbob\n\n" ∷ [];
  facts = [];
  warnings = [];
}

serial_run :
    (run_sequential_serial calm_host serial_crew new_policy 0 serial_tasks start no_output).1
    ≡ ok serial_output
unfolding run_sequential_serial execute failed_upstream agent_for_index add_output context_text
    warnings_of add_warnings task_label save_entry auto_save_entry
serial_run = refl

managed_run :
    (run_managed calm_host serial_crew new_policy ada 0 serial_tasks start no_output).1
    ≡ ok managed_output
unfolding run_managed execute add_output context_text warnings_of add_warnings task_label save_entry
    auto_save_entry
managed_run = refl

run_sequential_serial_all_example :
    (map (λ o. o.task) serial_output.tasks_output ≡ labels calm_host serial_crew 0 serial_tasks)
    × (serial_output.final ≡ last_output "" serial_output.tasks_output)
run_sequential_serial_all_example =
    run_sequential_serial_all calm_host serial_crew new_policy serial_tasks start serial_output refl
      serial_run

assign_all_returns_example :
    (as' : List Agent) × ((assign_all calm_host serial_crew ada serial_tasks start).1 ≡ ok as')
    × (length as' ≡ length serial_tasks)
assign_all_returns_example =
    assign_all_returns calm_host serial_crew ada serial_tasks start (omega arith)
