-- ===== src/Crew/Waves.antt =====
-- runAsyncWaves and runWaveGroup of crew.go: the waves of a plan, each with its asynchronous tasks in
-- chunks and the others alone, and the fold of a group's results at its barrier.
-- `Chunks` is about the groups of a wave, `Endings` about how a group and a run end.
pub mod Chunks
pub mod Marks
pub mod Endings
pub mod Dropped
mod Tests
use crewai_go.Base.{
  ℕ, zero, suc, ◌+◌, ◌-◌, ltb, if◌then◌else◌, Bool, true, false, not, ◌&&◌, Option, none, some,
  List, [], ◌∷◌, ◌++◌, length, update, get_elem?, map, keep, String,
}
use crewai_go.Base.Int.{ℤ, pos, negsuc, is_pos}
use crewai_go.Base.Result.{Result, ok, err}
use crewai_go.Memory.Policy.{Policy, begin_buffer, discard_buffer, commit_buffer}
use crewai_go.Crew.{
  Agent, memory_failed, Output, no_output, Task, Error, wave_failed, Crew, Host, State, chain,
  agent_for_index, task_label, failed_upstream, mark_failed, warnings_of, add_output,
}
use crewai_go.Crew.Group.{Group, GroupResult, Barrier, run_task_group}

-- A task of the crew with its index.
abbrev pub Member : Type 0
Member = ℕ × Task

-- `asyncIdx[start:]` and `asyncIdx[:end]`.
unfoldable pub drop {ℓ} : {A : Type ℓ} → ℕ → List A → List A
drop zero xs = xs
drop (suc n) [] = []
drop (suc n) (x ∷ xs) = drop n xs

unfoldable pub take {ℓ} : {A : Type ℓ} → ℕ → List A → List A
take zero xs = []
take (suc n) [] = []
take (suc n) (x ∷ xs) = x ∷ take n xs

-- `end - start`, where n tasks are left.
pub chunk_size : ℤ → ℕ → ℕ
chunk_size (negsuc m) n = n
chunk_size (pos m) n = if ltb 0 m && ltb m n then m else n

-- The slices of the loop `for start := 0; start < len(asyncIdx)`, on fuel; each takes one task at
-- least, so as many rounds as there are tasks are enough.
pub chunks {ℓ} : {A : Type ℓ} → ℕ → ℤ → List A → List (List A)
unfolding take drop chunk_size
chunks zero max xs = []
chunks (suc fuel) max [] = []
chunks (suc fuel) max (x ∷ xs) =
    let n = chunk_size max (length (x ∷ xs)) in take n (x ∷ xs) ∷ chunks fuel max (drop n (x ∷ xs))

abbrev pub is_async : Member → Bool
is_async (i, t) = t.plan.async

-- The groups of a wave's remaining tasks: asyncIdx in chunks, then each of syncIdx.
pub groups_of : ℤ → List Member → List (List Member)
unfolding chunks
groups_of max ms =
    let async = keep is_async ms in
    chunks (length async) max async ++ map (λ m. m ∷ []) (keep (λ m. not (is_async m)) ms)

-- `if firstErr != nil && c.AsyncFailFast { ... return ... }`, and what follows it.
pub end_group : {A : Type 0} → Bool → Option (ℕ × Error) → (ℕ → Error → A) → A → A
end_group fail_fast none abort rest = rest
end_group false (some (k, e)) abort rest = rest
end_group true (some (k, e)) abort rest = abort k e

-- The agent of a task: the one resolved before, or its own, or the one for its index.
pub resolve_agent : Crew → Option (List Agent) → Member → Option Agent
resolve_agent c (some agents) (i, t) = get_elem? agents i
resolve_agent c none (i, t) = elim t.agent [ some a ↦ some a | none ↦ agent_for_index c.agents i ]

module _ {F W : Type 0} where
  -- `for _, t := range groupTasks { c.markFailed(t, firstErr) }`.
  pub mark_all : List Member → Error → State F W → State F W
  unfolding mark_failed
  mark_all [] e s = s
  mark_all ((i, t) ∷ ms) e s = mark_all ms e (mark_failed t e s)

  -- beginMemoryBuffer, discardMemoryBuffer and commitMemoryBuffer on the state.
  pub begin_group : State F W → State F W
  begin_group s = record s { buffer = begin_buffer s.buffer }

  pub discard_group : State F W → State F W
  discard_group s = record s { buffer = discard_buffer s.buffer }

pub commit_group : {F W : Type 0} → Host F W → Policy → List Task → State F W → State F W
commit_group host p tasks s =
    let (b, w, warned) =
      commit_buffer host.memory (map (λ t. t.plan.pointer) tasks) (some p) s.buffer s.world in
    record s {
      buffer = b;
      world = w;
      warnings = s.warnings ++ map (λ t. (t, memory_failed)) warned;
    }

module _ {F W : Type 0} (host : Host F W) (c : Crew) (p : Policy) where
  -- The loop of runWaveGroup over the results, from position k on.
  pub fold_results :
      ℕ → (ℕ → GroupResult) → ℕ → List Member → State F W → Output → State F W × Result Error Output
  unfolding mark_failed
  fold_results wave results k [] s out = (s, ok out)
  fold_results wave results k ((i, t) ∷ ms) s out =
      let r = results k in
      elim r.error [
        | some e ↦
            let rest = fold_results wave results (suc k) ms (mark_failed t e s) out in
            if c.fail_fast then (mark_failed t e s, err (wave_failed wave (i + 1) e)) else rest
        | none ↦ elim r.agent [
          | none ↦ fold_results wave results (suc k) ms s out
          | some a ↦ fold_results wave results (suc k) ms s (
              add_output (task_label host c t.plan.pointer i) a r.out r.facts
                (warnings_of t.plan.pointer s.warnings) out)
        ]
      ]

  module _ (agents : Option (List Agent)) where
    -- The group that runWaveGroup starts.
    pub wave_group : List Member → Group
    unfolding resolve_agent
    wave_group ms = record {
      members = map (λ m. (m.1, resolve_agent c agents m)) ms;
      slotted = is_pos c.max_workers;
      fail_fast = c.fail_fast;
    }

    -- What follows the barrier.
    pub close_group : ℕ → List Member → Barrier F W → Output → State F W × Result Error Output
    unfolding mark_all commit_group discard_group fold_results end_group
    close_group wave ms b out =
        end_group c.fail_fast b.first
          (λ k e. (mark_all ms e (discard_group b.state), err (wave_failed wave (k + 1) e)))
          (fold_results wave b.results 0 ms (commit_group host p (map (λ m. m.1) ms) b.state) out)

    pub run_wave_group : ℕ → List Member → State F W → Output → State F W × Result Error Output
    unfolding wave_group begin_group close_group
    run_wave_group wave [] s out = (s, ok out)
    run_wave_group wave (m ∷ ms) s out =
        close_group wave (m ∷ ms) (run_task_group host c p (wave_group (m ∷ ms)) (begin_group s))
          out

    pub run_groups : ℕ → List (List Member) → State F W → Output → State F W × Result Error Output
    unfolding run_wave_group
    run_groups wave [] s out = (s, ok out)
    run_groups wave (ms ∷ mss) s out =
        chain (run_wave_group wave ms s out) (λ s' out'. run_groups wave mss s' out')

    -- The first loop of a wave: the tasks that remain, and the state with the skipped ones marked.
    pub drain : (ℕ → Bool) → List ℕ → State F W → List Member × State F W
    unfolding mark_failed
    drain done [] s = ([], s)
    drain done (i ∷ is) s = elim (get_elem? c.tasks i) [
      | none ↦ drain done is s
      | some t ↦ elim (failed_upstream host c t s) [
        | some e ↦
            let skip = drain done is s in
            let rest = drain (update done i true) is (mark_failed t e s) in
            if done i then skip else rest
        | none ↦
            let skip = drain done is s in
            let (ms, s') = skip in if done i then skip else ((i, t) ∷ ms, s')
      ]
    ]

    abbrev pub mark_done : List ℕ → (ℕ → Bool) → ℕ → Bool
    mark_done [] done = done
    mark_done (i ∷ is) done = mark_done is (update done i true)

    pub run_wave : ℕ → (ℕ → Bool) → List ℕ → State F W → Output → State F W × Result Error Output
    unfolding drain run_groups groups_of
    run_wave wave done is s out =
        let (ms, s') = drain done is s in run_groups wave (groups_of c.max_workers ms) s' out

    -- The loop over the waves from number `wave` on, and the slice `done`.
    pub run_waves :
        ℕ → (ℕ → Bool) → List (List ℕ) → State F W → Output → State F W × Result Error Output
    unfolding run_wave
    run_waves wave done [] s out = (s, ok out)
    run_waves wave done (is ∷ iss) s out =
        chain (run_wave wave done is s out)
          (λ s' out'. run_waves (suc wave) (mark_done is done) iss s' out')

    pub run_async_waves : List (List ℕ) → State F W → State F W × Result Error Output
    unfolding run_waves
    run_async_waves waves s = run_waves 1 (λ i. false) waves s no_output
