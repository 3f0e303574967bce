-- ===== src/Crew/Processes/Serial.antt =====
-- Tasks that run one by one: every task's output is in the result, in the order of the list.
use crewai_go.Base.{
  ℕ, suc, List, [], ◌∷◌, ◌++◌, ◌≡◌, ◌∙◌, refl, ap, sym, inl, inr, Option-cases, map, String,
  append_assoc, append-nil, subst,
}
use crewai_go.Base.Table.{nat_key}
use crewai_go.Base.Result.{Result, ok, err}
use crewai_go.Fact.{Fact}
use crewai_go.Memory.Policy.{Policy}
use crewai_go.Crew.{
  Agent, Warning, Output, no_output, TaskOutput, Task, Error, Crew, Host, State, chain, task_label,
  warnings_of, add_output,
}
use crewai_go.Crew.Context.{failed_upstream-none}
use crewai_go.Crew.Execute.{Outcome, finished, failed, crashed, execute}
use crewai_go.Crew.Execute.Failures.{execute_failed}
use crewai_go.Crew.Processes.{
  own_agent, fold_task, run_task, assign, run_sequential_serial, run_managed,
}

-- Where a chain of steps returns, its first step did.
chain_returned :
    {S A B : Type 0} (m : S × Result Error A) (next : S → A → S × Result Error B) {y : B}
    → (chain m next).1 ≡ ok y
    → (x : A) × (m.1 ≡ ok x) × ((next m.0 x).1 ≡ ok y)
chain_returned (s, err e) next h = absurd (cc)
chain_returned (s, ok x) next h = (x, refl, h)

-- The text of the last entry, or the one given.
abbrev pub last_output : String → List TaskOutput → String
last_output text [] = text
last_output text (o ∷ os) = last_output o.output os

last_output-snoc :
    (text : String) (os : List TaskOutput) (o : TaskOutput)
    → last_output text (os ++ o ∷ []) ≡ o.output
last_output-snoc text [] o = refl
last_output-snoc text (x ∷ os) o = last_output-snoc x.output os o

map-append : {A B : Type 0} (f : A → B) (xs ys : List A) → map f (xs ++ ys) ≡ map f xs ++ map f ys
map-append f [] ys = refl
map-append f (x ∷ xs) ys = ap (λ zs. f x ∷ zs) (map-append f xs ys)

abbrev task_names : Output → List String
task_names out = map (λ o. o.task) out.tasks_output

-- An output that has these labels more than another, and keeps Final its last entry.
pub record Extends (names : List String) (out out' : Output) : Type 0 where
  pub tasks : map (λ o. o.task) out'.tasks_output ≡ map (λ o. o.task) out.tasks_output ++ names
  pub last :
      out.final ≡ last_output "" out.tasks_output → out'.final ≡ last_output "" out'.tasks_output

ok_inj : {A : Type 0} {x y : A} → ◌≡◌ {A = Result Error A} (ok x) (ok y) → x ≡ y
ok_inj h = cc

add_output-Extends :
    (label : String) (a : Agent) (result : String) (facts : List Fact) (ws : List Warning)
    (out : Output)
    → Extends (label ∷ []) out (add_output label a result facts ws out)
unfolding add_output
add_output-Extends label a result facts ws out = record {
  tasks = map-append (λ o. o.task) out.tasks_output _;
  last = λ h. sym (last_output-snoc "" out.tasks_output _);
}

Extends-refl : (out : Output) → Extends [] out out
Extends-refl out = record { tasks = sym (append-nil (task_names out)); last = λ h. h }

Extends-trans :
    (ns ns' : List String) {out out' out'' : Output}
    → Extends ns out out'
    → Extends ns' out' out''
    → Extends (ns ++ ns') out out''
Extends-trans ns ns' {out} e e' = record {
  tasks = e'.tasks ∙ ap (λ xs. xs ++ ns') e.tasks ∙ append_assoc (task_names out) ns ns';
  last = λ h. e'.last (e.last h);
}

-- The labels of the tasks from index i on.
pub labels : {F W : Type 0} → Host F W → Crew → ℕ → List Task → List String
labels host c i [] = []
labels host c i (t ∷ ts) = task_label host c t.plan.pointer i ∷ labels host c (suc i) ts

module _ {F W : Type 0} (host : Host F W) (c : Crew) (p : Policy) where
  fold_task_returns :
      (i : ℕ) (t : Task) (a : Agent) (out : Output) (r : State F W × Outcome) {out' : Output}
      → (fold_task host c p i t a out r).1 ≡ ok out'
      → Extends (task_label host c t.plan.pointer i ∷ []) out out'
  unfolding fold_task
  fold_task_returns i t a out (s, failed e) h = absurd (cc)
  fold_task_returns i t a out (s, crashed e) h = absurd (cc)
  fold_task_returns i t a out (s, finished result facts) h =
      subst (λ out'. Extends (task_label host c t.plan.pointer i ∷ []) out out') (ok_inj h)
        (add_output-Extends (task_label host c t.plan.pointer i) a result facts
          (warnings_of t.plan.pointer s.warnings) out)

  fold_task_state :
      (i : ℕ) (t : Task) (a : Agent) (out : Output) (r : State F W × Outcome)
      → (fold_task host c p i t a out r).0 ≡ r.0
  unfolding fold_task
  fold_task_state i t a out (s, failed e) = refl
  fold_task_state i t a out (s, crashed e) = refl
  fold_task_state i t a out (s, finished result facts) = refl

  run_task_failed :
      (i : ℕ) (t : Task) (a : Agent) (s : State F W) (out : Output)
      → (run_task host c p i t a s out).0.failed ≡ s.failed
  unfolding run_task
  run_task_failed i t a s out =
      let stop = host.memory.ctx_done s.world in
      ap (λ x. x.failed) (fold_task_state i t a out (execute host c p stop a t s))
      ∙ execute_failed host c p stop a t s

  run_sequential_serial-Extends :
      (i : ℕ) (ts : List Task) (s : State F W) (out : Output) {out' : Output}
      → s.failed ≡ []
      → (run_sequential_serial host c p i ts s out).1 ≡ ok out'
      → Extends (labels host c i ts) out out'
  unfolding run_sequential_serial run_task labels
  run_sequential_serial-Extends i [] s out none_failed h =
      subst (λ out'. Extends [] out out') (ok_inj h) (Extends-refl out)
  run_sequential_serial-Extends i (t ∷ ts) s out none_failed h =
      let none_upstream = failed_upstream-none host c t s none_failed in
      elim (Option-cases (own_agent c i t)) [
        | inl e ↦ let h' = rw (none_upstream, e, run_sequential_serial) at h in absurd (cc)
        | inr (a, e) ↦
            let h' = rw (none_upstream, e, run_sequential_serial) at h in
            let (out1, first, rest) =
              chain_returned (run_task host c p i t a s out)
                (run_sequential_serial host c p (suc i) ts) h' in
            Extends-trans (task_label host c t.plan.pointer i ∷ []) (labels host c (suc i) ts)
              (fold_task_returns i t a out (execute host c p (host.memory.ctx_done s.world) a t s)
                first)
              (run_sequential_serial-Extends (suc i) ts (run_task host c p i t a s out).0 out1
                (run_task_failed i t a s out ∙ none_failed) rest)
      ]

  run_managed-Extends :
      (manager : Agent) (i : ℕ) (ts : List Task) (s : State F W) (out : Output) {out' : Output}
      → (run_managed host c p manager i ts s out).1 ≡ ok out'
      → Extends (labels host c i ts) out out'
  unfolding run_managed run_task labels
  run_managed-Extends manager i [] s out h =
      subst (λ out'. Extends [] out out') (ok_inj h) (Extends-refl out)
  run_managed-Extends manager i (t ∷ ts) s out h =
      let (a, chosen, h') =
        chain_returned (assign host c manager t s)
          (λ s' a.
            chain (run_task host c p i t a s' out)
              (λ s'' out'. run_managed host c p manager (suc i) ts s'' out'))
          h in
      let s1 = (assign host c manager t s).0 in
      let (out1, first, rest) =
        chain_returned (run_task host c p i t a s1 out) (run_managed host c p manager (suc i) ts)
          h' in
      Extends-trans (task_label host c t.plan.pointer i ∷ []) (labels host c (suc i) ts)
        (fold_task_returns i t a out (execute host c p (host.memory.ctx_done s1.world) a t s1)
          first)
        (run_managed-Extends manager (suc i) ts (run_task host c p i t a s1 out).0 out1 rest)

  -- Where runSequentialSerial returns, with failedTasks empty at its start, TasksOutput has one entry
  -- for each task, in the order of the tasks and with its label, and Final is the last entry's text.
  pub run_sequential_serial_all :
      (ts : List Task) (s : State F W) (out : Output)
      → s.failed ≡ []
      → (run_sequential_serial host c p 0 ts s no_output).1 ≡ ok out
      → (map (λ o. o.task) out.tasks_output ≡ labels host c 0 ts)
        × (out.final ≡ last_output "" out.tasks_output)
  run_sequential_serial_all ts s out none_failed h =
      let e = run_sequential_serial-Extends 0 ts s no_output none_failed h in (e.tasks, e.last refl)

  -- Where runHierarchical's loop without asynchronous tasks returns, TasksOutput has one entry for
  -- each task, in the order of the tasks and with its label, and Final is the last entry's text.
  pub run_managed_all :
      (manager : Agent) (ts : List Task) (s : State F W) (out : Output)
      → (run_managed host c p manager 0 ts s no_output).1 ≡ ok out
      → (map (λ o. o.task) out.tasks_output ≡ labels host c 0 ts)
        × (out.final ≡ last_output "" out.tasks_output)
  run_managed_all manager ts s out h =
      let e = run_managed-Extends manager 0 ts s no_output h in (e.tasks, e.last refl)
