-- ===== src/Crew/Kickoff/Tests.antt =====
-- A kickoff of two tasks under a guardrail.
use crewai_go.Base.{ℕ, false, none, some, [], ◌∷◌, ◌≡◌, refl, get_elem?, String}
use crewai_go.Base.Result.{ok}
use crewai_go.Memory.Policy.{save_entry, auto_save_entry}
use crewai_go.Schedule.{plan_waves}
use crewai_go.Crew.{
  Output, TaskOutput, Guardrail, task_label, failed_upstream, agent_for_index, add_output,
  context_text, warnings_of, add_warnings,
}
use crewai_go.Crew.Samples.{calm_host, start, serial_crew}
use crewai_go.Crew.Execute.{execute, run_crew_guardrails}
use crewai_go.Crew.Processes.{run_sequential}
use crewai_go.Crew.Kickoff.{check_crew, check_plan, kickoff}
use crewai_go.Crew.Kickoff.Gate.{kickoff_returns}

abbrev entry : String → String → TaskOutput
entry agent text = record { task = "t"; agent = agent; output = text; facts = []; warnings = [] }

abbrev the_output : Output
the_output = record {
  final = "bobt:\nada\n\n";
  tasks_output = entry "ada" "ada" ∷ entry "bob" "bobt:\nada\n\n" ∷ [];
  facts = [];
  warnings = [];
}

the_run : (kickoff calm_host false [] serial_crew start).1 ≡ ok the_output
unfolding kickoff run_sequential execute run_crew_guardrails plan_waves failed_upstream
    agent_for_index add_output context_text warnings_of add_warnings task_label save_entry
    auto_save_entry
the_run = refl

kickoff_returns_example :
    (false ≡ false)
    × (check_crew serial_crew ≡ none)
    × (check_plan serial_crew ≡ none)
    × ((k : ℕ) (g : Guardrail) → get_elem? serial_crew.guardrails k ≡ some g → g the_output ≡ none)
kickoff_returns_example = kickoff_returns calm_host false [] serial_crew start the_output the_run
