-- ===== src/Crew/Execute/Failures.antt =====
-- A task that runs changes nothing in failedTasks.
use crewai_go.Base.{
  if◌then◌else◌, Bool, Option, none, some, List, ◌≡◌, ◌∙◌, refl, inl, inr, Bool-cases, Option-cases,
  String, str_eq, ◌++◌,
}
use crewai_go.Base.Table.{insert, nat_key}
use crewai_go.Fact.{Fact}
use crewai_go.Memory.{Entry}
use crewai_go.Memory.Policy.{Policy}
use crewai_go.Crew.{
  Agent, Task, Error, Crew, Ending, answered, fails, panics, Host, State, add_warnings,
  context_text,
}
use crewai_go.Crew.Execute.{
  inject, after_write, save_now, set_output, auto_save, run_task_guardrail, save_and_guard,
  conclude, run_with, execute,
}

after_write_failed :
    {F W : Type 0} (s : State F W) (r : W × Option String) → (after_write s r).0.failed ≡ s.failed
unfolding after_write
after_write_failed s (w, none) = refl
after_write_failed s (w, some e) = refl

module _ {F W : Type 0} (host : Host F W) (c : Crew) (p : Policy) where
  set_output_failed :
      (t : Task) (out : String) (s : State F W) → (set_output host c p t out s).0.failed ≡ s.failed
  unfolding set_output
  set_output_failed t out s =
      let jail = if str_eq t.output_dir "" then c.output_dir else t.output_dir in
      let s' : State F W = record s { outputs = insert t.plan.pointer out s.outputs } in
      elim (Bool-cases (str_eq (host.trim t.output_file) "")) [
        | inl h ↦ rw h refl
        | inr h ↦ rw h (after_write_failed s' (host.write t.output_file jail out s.world))
      ]

  auto_save_failed :
      (put : Option (W → Entry F → W × Bool)) (a : Agent) (t : Task) (out : String) (s : State F W)
      → (auto_save host c p put a t out s).failed ≡ s.failed
  unfolding auto_save save_now
  auto_save_failed none a t out s = refl
  auto_save_failed (some put) a t out s = elim (Bool-cases p.auto_save) [
    | inl h ↦ elim (Bool-cases s.buffer.buffering) [
      | inl b ↦ rw (h, b) refl
      | inr b ↦ rw (h, b) refl
    ]
    | inr h ↦ rw h refl
  ]

  save_and_guard_failed :
      (a : Agent) (t : Task) (out : String) (facts : List Fact) (r : State F W × Option Error)
      → (save_and_guard host c p a t out facts r).0.failed ≡ r.0.failed
  unfolding save_and_guard
  save_and_guard_failed a t out facts (s, some e) = refl
  save_and_guard_failed a t out facts (s, none) =
      let name = c.name_of t.plan.pointer in
      let label = if str_eq name "" then "task" else name in
      elim (Option-cases (run_task_guardrail t.guardrail label out)) [
        | inl h ↦ rw (h, save_and_guard) (auto_save_failed host.memory.put a t out s)
        | inr (e, h) ↦ rw (h, save_and_guard) (auto_save_failed host.memory.put a t out s)
      ]

  conclude_failed :
      (a : Agent) (t : Task) (e : Ending) (s : State F W)
      → (conclude host c p a t e s).0.failed ≡ s.failed
  unfolding conclude
  conclude_failed a t (answered out facts) s =
      save_and_guard_failed a t out facts (set_output host c p t out s) ∙ set_output_failed t out s
  conclude_failed a t (fails e) s = refl
  conclude_failed a t (panics e) s = refl

  run_with_failed :
      (stop : Bool) (a : Agent) (t : Task) (s : State F W) (r : W × String)
      → (run_with host c p stop a t s r).0.failed ≡ s.failed
  unfolding run_with
  run_with_failed stop a t s (w, text) =
      let ran = host.run stop a t text w in
      conclude_failed a t ran.2
        (record s { world = ran.0; warnings = s.warnings ++ add_warnings t.plan.pointer ran.1 })

  pub execute_failed :
      (stop : Bool) (a : Agent) (t : Task) (s : State F W)
      → (execute host c p stop a t s).0.failed ≡ s.failed
  unfolding execute
  execute_failed stop a t s =
      run_with_failed stop a t s
        (inject host c p host.memory.put (context_text host c s.outputs t) s.world)
