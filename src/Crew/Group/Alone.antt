-- ===== src/Crew/Group/Alone.antt =====
-- The results of a group do not depend on the order in which its workers take effect.
use crewai_go.Base.{
  ℕ, ◌==◌, ==_iff, Bool, true, false, ◌&&◌, ◌||◌, Option, none, some, List, [], ◌∷◌, ◌≡◌, ◌⊎◌, ◌∙◌,
  refl, ap, sym, inl, inr, Bool-cases, get_elem?, arith, length, subst,
}
use crewai_go.Base.Table.{nat_key}
use crewai_go.Memory.Policy.{Policy}
use crewai_go.Crew.{Agent, Task, Error, no_agent, Crew, Host, State, context_text}
use crewai_go.Crew.Context.{is_in, context_text-insert}
use crewai_go.Crew.Execute.{execute}
use crewai_go.Crew.Execute.Steady.{IsSteady, Kept, execute-Kept, execute_outcome}
use crewai_go.Crew.Group.{
  Group, GroupResult, no_result, Barrier, record_err, run_worker, settle, take_member, take_turn,
  take_turns, run_task_group,
}
use crewai_go.Crew.Group.Results.{result_of, settle_results, settle_calm}
use crewai_go.Crew.Group.Success.{turns_of, take_member_other}

-- No task of the group has another one, or itself, in its Context.
unfoldable pub AreApart : List (Task × Option Agent) → Type 0
AreApart ms =
    (j k : ℕ) (t u : Task) (a b : Option Agent)
    → get_elem? ms j ≡ some (t, a)
    → get_elem? ms k ≡ some (u, b)
    → is_in t.plan.pointer u.plan.context ≡ false

-- The result of a member whose task runs alone from a state.
pub alone_result :
    {F W : Type 0}
    → Host F W
    → Crew
    → Policy
    → State F W
    → Option (Task × Option Agent)
    → GroupResult
alone_result host c p s none = no_result
alone_result host c p s (some (t, none)) = no_result
alone_result host c p s (some (t, some a)) = result_of t a (execute host c p false a t s).1

-- What the workers of a group leave as it was at its start: the world, the open barrier, and what
-- the members see as their context.
record Undisturbed {F W : Type 0} (host : Host F W) (c : Crew) (g : Group) (s : State F W)
    (b : Barrier F W) : Type 0 where
  world : b.state.world ≡ s.world
  buffering : b.state.buffer.buffering ≡ true
  calm : b.stopped ≡ false
  contexts :
      (k : ℕ) (t : Task) (ag : Option Agent)
      → get_elem? g.members k ≡ some (t, ag)
      → context_text host c b.state.outputs t ≡ context_text host c s.outputs t

module _ {F W : Type 0} (host : Host F W) (steady : IsSteady host) (c : Crew) (p : Policy)
    (g : Group) (keep_on : g.fail_fast ≡ false) (apart : AreApart g.members) (s : State F W) where
  -- A worker of an undisturbed barrier settles the outcome of its task.
  run_worker_settles :
      (k : ℕ) (l : Bool) (t : Task) (a : Agent) (b : Barrier F W)
      → b.stopped ≡ false
      → run_worker host c p g k l t a b
        ≡ settle false k t a
            (execute host c p (b.stopped || host.memory.ctx_done b.state.world) a t b.state)
            b
  unfolding run_worker
  run_worker_settles k l t a b h =
      let stop = b.stopped || host.memory.ctx_done b.state.world in
      let quiet : stop ≡ false = ground (arith, steady.calm b.state.world) in
      let stays : (g.slotted && (l && stop)) ≡ false = ground (arith, quiet) in
      rw stays (ap (λ ff. settle ff k t a (execute host c p stop a t b.state) b) keep_on)

  record_err_calm :
      (k : ℕ) (e : Error) (b : Barrier F W)
      → b.stopped ≡ false
      → (record_err false k e b).stopped ≡ false
  unfolding record_err
  record_err_calm k e b h = rw h refl

  contexts_same :
      (j : ℕ) (t : Task) (a : Agent) (b : Barrier F W) (s' : State F W)
      → get_elem? g.members j ≡ some (t, some a)
      → Undisturbed host c g s b
      → Kept t b.state s'
      → (k : ℕ) (u : Task) (ag : Option Agent) → get_elem? g.members k ≡ some (u, ag)
      → context_text host c s'.outputs u ≡ context_text host c s.outputs u
  unfolding AreApart
  contexts_same j t a b s' e still kept k u ag e' = elim kept.outputs [
    | inl same ↦ ap (λ outputs. context_text host c outputs u) same ∙ still.contexts k u ag e'
    | inr (out, more) ↦
        ap (λ outputs. context_text host c outputs u) more
        ∙ context_text-insert host c u t.plan.pointer out b.state.outputs
            (apart j k t u (some a) ag e e')
        ∙ still.contexts k u ag e'
  ]

  turn-Undisturbed :
      (k : ℕ) (l : Bool) (m : Option (Task × Option Agent)) (b : Barrier F W)
      → get_elem? g.members k ≡ m
      → Undisturbed host c g s b
      → Undisturbed host c g s (take_member host c p g k l m b)
  unfolding take_member
  turn-Undisturbed k l none b e still = still
  turn-Undisturbed k l (some (t, none)) b e still = rw keep_on (record {
    world = still.world;
    buffering = still.buffering;
    calm = record_err_calm k no_agent b still.calm;
    contexts = still.contexts;
  })
  turn-Undisturbed k l (some (t, some a)) b e still =
      let stop = b.stopped || host.memory.ctx_done b.state.world in
      let ran = execute host c p stop a t b.state in
      let kept = execute-Kept host steady c p stop a t b.state still.buffering in
      let at = (settle_results false k t a ran b).1 in
      subst (λ b'. Undisturbed host c g s b') (sym (run_worker_settles k l t a b still.calm))
        (record {
          world = ap (λ x. x.world) at ∙ kept.world ∙ still.world;
          buffering = ap (λ x. x.buffer.buffering) at ∙ kept.buffering;
          calm = settle_calm k t a ran b still.calm;
          contexts =
              subst
                (λ x.
                  (i : ℕ) (u : Task) (ag : Option Agent)
                  → get_elem? g.members i ≡ some (u, ag)
                  → context_text host c x.outputs u ≡ context_text host c s.outputs u)
                (sym at) (contexts_same k t a b ran.0 e still kept);
        })

  turn_alone :
      (k : ℕ) (l : Bool) (m : Option (Task × Option Agent)) (b : Barrier F W)
      → get_elem? g.members k ≡ m
      → Undisturbed host c g s b
      → (b.results k ≡ no_result) ⊎ (b.results k ≡ alone_result host c p s m)
      → (take_member host c p g k l m b).results k ≡ alone_result host c p s m
  unfolding take_member record_err alone_result
  turn_alone k l none b e still (inl h) = h
  turn_alone k l none b e still (inr h) = h
  turn_alone k l (some (t, none)) b e still (inl h) = h
  turn_alone k l (some (t, none)) b e still (inr h) = h
  turn_alone k l (some (t, some a)) b e still why =
      let stop = b.stopped || host.memory.ctx_done b.state.world in
      let ran = execute host c p stop a t b.state in
      let own : (k == k) ≡ true = ground arith in
      ap (λ x. x.results k) (run_worker_settles k l t a b still.calm)
      ∙ ap (λ results. results k) (settle_results false k t a ran b).0
      ∙ rw own (
          ap (result_of t a) (
            execute_outcome host steady c p stop false a t b.state s still.world
              (still.contexts k t (some a) e)))

  own_alone :
      (j k : ℕ) (l : Bool) (b : Barrier F W)
      → j ≡ k
      → Undisturbed host c g s b
      → (b.results j ≡ no_result) ⊎ (b.results j ≡ alone_result host c p s (get_elem? g.members j))
      → (take_turn host c p g (k, l) b).results j ≡ alone_result host c p s (get_elem? g.members j)
  own_alone j k l b same still =
      subst
        (λ i.
          (b.results i ≡ no_result)
            ⊎ (b.results i ≡ alone_result host c p s (get_elem? g.members i))
          → (take_turn host c p g (k, l) b).results i
            ≡ alone_result host c p s (get_elem? g.members i))
        (sym same) (turn_alone k l (get_elem? g.members k) b refl still)

  take_turns_alone :
      (j : ℕ) (turns : List (ℕ × Bool)) (b : Barrier F W)
      → Undisturbed host c g s b
      → (is_in j (turns_of turns) ≡ true) × (b.results j ≡ no_result)
        ⊎ (b.results j ≡ alone_result host c p s (get_elem? g.members j))
      → (take_turns host c p g turns b).results j ≡ alone_result host c p s (get_elem? g.members j)
  unfolding take_turns
  take_turns_alone j [] b still (inl never) = absurd (cc never.0)
  take_turns_alone j [] b still (inr held) = held
  take_turns_alone j ((k, l) ∷ turns) b still why =
      let m = get_elem? g.members k in
      let other = take_member_other host c p g k j l m b in
      take_turns_alone j turns (take_member host c p g k l m b)
        (turn-Undisturbed k l m b refl still)
        (elim (Bool-cases (j == k)) [
          | inl same ↦ inr (
              own_alone j k l b ((==_iff j k).0 same) still
                (elim why [ inl (_, fresh) ↦ inl fresh | inr held ↦ inr held ]))
          | inr apart' ↦ elim why [
            | inl (later, fresh) ↦ inl (ground arith, other apart' ∙ fresh)
            | inr held ↦ inr (other apart' ∙ held)
          ]
        ])

-- With a host whose answers do not depend on the world, without fail-fast, in a group whose tasks do
-- not have one another in their Context and whose barrier buffers the memory: whatever the order of
-- the turns, runTaskGroup leaves at each position that has one the result of its member's task run
-- alone from the start of the group, so no worker sees another's output.
pub run_task_group_alone :
    {F W : Type 0} (host : Host F W) (steady : IsSteady host) (c : Crew) (p : Policy) (g : Group)
    (s : State F W)
    → g.fail_fast ≡ false
    → AreApart g.members
    → s.buffer.buffering ≡ true
    → (k : ℕ) → is_in k (turns_of (host.order (length g.members) s.world)) ≡ true
    → (run_task_group host c p g s).results k ≡ alone_result host c p s (get_elem? g.members k)
unfolding run_task_group
run_task_group_alone host steady c p g s keep_on apart buffering k visited =
    take_turns_alone host steady c p g keep_on apart s k (host.order (length g.members) s.world)
      (record { results = λ k. no_result; first = none; stopped = false; state = s })
      (record { world = refl; buffering = buffering; calm = refl; contexts = λ k t ag e. refl })
      (inl (visited, refl))
