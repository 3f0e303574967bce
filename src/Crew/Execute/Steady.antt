-- ===== src/Crew/Execute/Steady.antt =====
-- The outcome of a task depends on its context and the world alone, where the host's answers do and
-- a barrier is open.
use crewai_go.Base.{
  if◌then◌else◌, Bool, true, false, Option, none, some, List, ◌≡◌, refl, ap, ◌∙◌, ◌⊎◌, inl, inr,
  Bool-cases, Option-cases, String, str_eq, ◌++◌, arith,
}
use crewai_go.Base.Int.{ℤ}
use crewai_go.Base.Table.{insert, nat_key}
use crewai_go.Base.Result.{Result, ok, err}
use crewai_go.Fact.{Fact}
use crewai_go.Memory.{Entry}
use crewai_go.Memory.Policy.{Policy, stash, effective_scope}
use crewai_go.Crew.{
  Agent, Task, Error, Crew, Ending, answered, fails, panics, Host, State, context_text,
  add_warnings,
}
use crewai_go.Crew.Execute.{
  query_committed, read_hits, join_memory, after_write, save_and_guard, run_with, inject,
  set_output, auto_save, run_task_guardrail, conclude, execute,
}

-- A host that leaves the world as it is, with answers that the world and a cancellation do not
-- change; no context is done.
pub record IsSteady {F W : Type 0} (host : Host F W) : Type 0 where
  pub notes : Agent → Task → String → List String
  pub ending : Agent → Task → String → Ending
  pub run_eq :
      (stop : Bool) (a : Agent) (t : Task) (text : String) (w : W)
      → host.run stop a t text w ≡ (w, notes a t text, ending a t text)
  pub write_eq : (file jail out : String) (w : W) → (host.write file jail out w).0 ≡ w
  pub query_eq : (w : W) (scope : String) (limit chars : ℤ) → (host.query w scope limit chars).0 ≡ w
  pub calm : (w : W) → host.memory.ctx_done w ≡ false

-- What a task may change while a barrier is open: not the world, and of the outputs its own.
pub record Kept {F W : Type 0} (t : Task) (s s' : State F W) : Type 0 where
  pub world : s'.world ≡ s.world
  pub buffering : s'.buffer.buffering ≡ true
  pub outputs :
      (s'.outputs ≡ s.outputs)
      ⊎ ((out : String) × (s'.outputs ≡ insert t.plan.pointer out s.outputs))

read_hits-world :
    {F W : Type 0} (trim : String → String) (r : W × Result String (List (Entry F)))
    → (read_hits trim r).0 ≡ r.0
unfolding read_hits
read_hits-world trim (w, err e) = refl
read_hits-world trim (w, ok hits) = refl

join_memory-world :
    {W : Type 0} (p : Policy) (text : String) (w : W) (r : W × String)
    → r.0 ≡ w
    → (join_memory p text w r).0 ≡ w
unfolding join_memory
join_memory-world p text w (w', mem) h = ground arith

after_write-Kept :
    {F W : Type 0} (s : State F W) (r : W × Option String)
    → ((after_write s r).0.world ≡ r.0)
      × ((after_write s r).0.buffer ≡ s.buffer)
      × ((after_write s r).0.outputs ≡ s.outputs)
unfolding after_write
after_write-Kept s (w, none) = (refl, refl, refl)
after_write-Kept s (w, some e) = (refl, refl, refl)

module _ {F W : Type 0} (host : Host F W) (steady : IsSteady host) (c : Crew) (p : Policy) where
  inject-world :
      (put : Option (W → Entry F → W × Bool)) (text : String) (w : W)
      → (inject host c p put text w).0 ≡ w
  unfolding inject query_committed
  inject-world none text w = refl
  inject-world (some put) text w = join_memory-world p text w (query_committed host c p w) (
      read_hits-world host.trim
        (host.query w (effective_scope c.name (some p)) p.default_limit p.default_chars)
      ∙ steady.query_eq w (effective_scope c.name (some p)) p.default_limit p.default_chars)

  set_output-Kept :
      (t : Task) (out : String) (s : State F W)
      → ((set_output host c p t out s).0.world ≡ s.world)
        × ((set_output host c p t out s).0.buffer ≡ s.buffer)
        × ((set_output host c p t out s).0.outputs ≡ insert t.plan.pointer out s.outputs)
  unfolding set_output
  set_output-Kept t out s =
      let jail = if str_eq t.output_dir "" then c.output_dir else t.output_dir in
      let s' : State F W = record s { outputs = insert t.plan.pointer out s.outputs } in
      let (x, y, z) = after_write-Kept s' (host.write t.output_file jail out s.world) in
      elim (Bool-cases (str_eq (host.trim t.output_file) "")) [
        | inl h ↦ rw h (refl, refl, refl)
        | inr h ↦ rw h (x ∙ steady.write_eq t.output_file jail out s.world, y, z)
      ]

  auto_save-Kept :
      (put : Option (W → Entry F → W × Bool)) (a : Agent) (t : Task) (out : String) (s : State F W)
      → s.buffer.buffering ≡ true
      → ((auto_save host c p put a t out s).world ≡ s.world)
        × ((auto_save host c p put a t out s).buffer.buffering ≡ true)
        × ((auto_save host c p put a t out s).outputs ≡ s.outputs)
  unfolding auto_save stash
  auto_save-Kept none a t out s opened = (refl, opened, refl)
  auto_save-Kept (some put) a t out s opened = elim (Bool-cases p.auto_save) [
    | inl h ↦ rw (h, opened) (refl, refl, refl)
    | inr h ↦ rw h (refl, opened, refl)
  ]

  save_and_guard-Kept :
      (a : Agent) (t : Task) (out : String) (facts : List Fact) (s : State F W)
      (r : State F W × Option Error)
      → r.0.world ≡ s.world
      → r.0.buffer.buffering ≡ true
      → r.0.outputs ≡ insert t.plan.pointer out s.outputs
      → Kept t s (save_and_guard host c p a t out facts r).0
  unfolding save_and_guard
  save_and_guard-Kept a t out facts s (s', some e) w b o = record {
    world = w;
    buffering = b;
    outputs = inr (out, o);
  }
  save_and_guard-Kept a t out facts s (s', none) w b o =
      let (x, y, z) = auto_save-Kept host.memory.put a t out s' b in
      let name = c.name_of t.plan.pointer in
      let label = if str_eq name "" then "task" else name in
      let kept : Kept t s (auto_save host c p host.memory.put a t out s') = record {
        world = x ∙ w;
        buffering = y;
        outputs = inr (out, z ∙ o);
      } in
      elim (Option-cases (run_task_guardrail t.guardrail label out)) [
        | inl h ↦ rw (h, save_and_guard) kept
        | inr (e, h) ↦ rw (h, save_and_guard) kept
      ]

  conclude-Kept :
      (a : Agent) (t : Task) (e : Ending) (s : State F W)
      → s.buffer.buffering ≡ true
      → Kept t s (conclude host c p a t e s).0
  unfolding conclude
  conclude-Kept a t (answered out facts) s b =
      let (x, y, z) = set_output-Kept t out s in
      save_and_guard-Kept a t out facts s (set_output host c p t out s) x
        (ap (λ buffer. buffer.buffering) y ∙ b) z
  conclude-Kept a t (fails e) s b = record { world = refl; buffering = b; outputs = inl refl }
  conclude-Kept a t (panics e) s b = record { world = refl; buffering = b; outputs = inl refl }

  run_with-Kept :
      (stop : Bool) (a : Agent) (t : Task) (s : State F W) (r : W × String)
      → r.0 ≡ s.world
      → s.buffer.buffering ≡ true
      → Kept t s (run_with host c p stop a t s r).0
  unfolding run_with
  run_with-Kept stop a t s (w, text) h b = rw (steady.run_eq stop a t text w) (
      let s' : State F W = record s {
        world = w;
        warnings = s.warnings ++ add_warnings t.plan.pointer (steady.notes a t text);
      } in
      let k = conclude-Kept a t (steady.ending a t text) s' b in
      record { world = k.world ∙ h; buffering = k.buffering; outputs = k.outputs })

  pub execute-Kept :
      (stop : Bool) (a : Agent) (t : Task) (s : State F W)
      → s.buffer.buffering ≡ true
      → Kept t s (execute host c p stop a t s).0
  unfolding execute
  execute-Kept stop a t s b =
      run_with-Kept stop a t s
        (inject host c p host.memory.put (context_text host c s.outputs t) s.world)
        (inject-world host.memory.put (context_text host c s.outputs t) s.world) b

module _ {F W : Type 0} (host : Host F W) (c : Crew) (p : Policy) where
  after_write_error :
      (s s' : State F W) (r : W × Option String) → (after_write s r).1 ≡ (after_write s' r).1
  unfolding after_write
  after_write_error s s' (w, none) = refl
  after_write_error s s' (w, some e) = refl

  set_output_error :
      (t : Task) (out : String) (s s' : State F W)
      → s.world ≡ s'.world
      → (set_output host c p t out s).1 ≡ (set_output host c p t out s').1
  unfolding set_output
  set_output_error t out s s' h =
      let jail = if str_eq t.output_dir "" then c.output_dir else t.output_dir in
      let x : State F W = record s { outputs = insert t.plan.pointer out s.outputs } in
      let y : State F W = record s' { outputs = insert t.plan.pointer out s'.outputs } in
      elim (Bool-cases (str_eq (host.trim t.output_file) "")) [
        | inl e ↦ rw e refl
        | inr e ↦ rw e (
            after_write_error x y (host.write t.output_file jail out s.world)
            ∙ ap (λ w. (after_write y (host.write t.output_file jail out w)).1) h)
      ]

  save_and_guard_outcome :
      (a : Agent) (t : Task) (out : String) (facts : List Fact) (r r' : State F W × Option Error)
      → r.1 ≡ r'.1
      → (save_and_guard host c p a t out facts r).1 ≡ (save_and_guard host c p a t out facts r').1
  unfolding save_and_guard
  save_and_guard_outcome a t out facts (s, none) (s', none) h =
      let name = c.name_of t.plan.pointer in
      let label = if str_eq name "" then "task" else name in
      elim (Option-cases (run_task_guardrail t.guardrail label out)) [
        | inl e ↦ rw (e, save_and_guard) refl
        | inr (x, e) ↦ rw (e, save_and_guard) refl
      ]
  save_and_guard_outcome a t out facts (s, none) (s', some e) h = absurd (cc)
  save_and_guard_outcome a t out facts (s, some e) (s', none) h = absurd (cc)
  save_and_guard_outcome a t out facts (s, some e) (s', some e') h = cc

  conclude_outcome :
      (a : Agent) (t : Task) (e : Ending) (s s' : State F W)
      → s.world ≡ s'.world
      → (conclude host c p a t e s).1 ≡ (conclude host c p a t e s').1
  unfolding conclude
  conclude_outcome a t (answered out facts) s s' h =
      save_and_guard_outcome a t out facts (set_output host c p t out s)
        (set_output host c p t out s') (set_output_error t out s s' h)
  conclude_outcome a t (fails e) s s' h = refl
  conclude_outcome a t (panics e) s s' h = refl

module _ {F W : Type 0} (host : Host F W) (steady : IsSteady host) (c : Crew) (p : Policy) where
  run_with_outcome :
      (stop stop' : Bool) (a : Agent) (t : Task) (s s' : State F W) (r : W × String)
      → (run_with host c p stop a t s r).1 ≡ (run_with host c p stop' a t s' r).1
  unfolding run_with
  run_with_outcome stop stop' a t s s' (w, text) =
      rw (steady.run_eq stop a t text w, steady.run_eq stop' a t text w)
        (conclude_outcome host c p a t (steady.ending a t text) _ _ refl)

  -- Two states with one world in which the task has one context give it one outcome.
  pub execute_outcome :
      (stop stop' : Bool) (a : Agent) (t : Task) (s s' : State F W)
      → s.world ≡ s'.world
      → context_text host c s.outputs t ≡ context_text host c s'.outputs t
      → (execute host c p stop a t s).1 ≡ (execute host c p stop' a t s').1
  unfolding execute
  execute_outcome stop stop' a t s s' h k =
      run_with_outcome stop stop' a t s s'
        (inject host c p host.memory.put (context_text host c s.outputs t) s.world)
      ∙ ap
          (λ text.
            (run_with host c p stop' a t s' (inject host c p host.memory.put text s.world)).1)
          k
      ∙ ap
          (λ w.
            (run_with host c p stop' a t s'
              (inject host c p host.memory.put (context_text host c s'.outputs t) w)).1)
          h
