-- ===== src/Crew/Waves/Dropped.antt =====
-- A task without an agent in a wave that goes on after failures.
use crewai_go.Base.{
  ℕ, ◌+◌, Bool, true, false, Option, none, some, List, [], ◌∷◌, ◌≡◌, ◌∙◌, refl, ap,
}
use crewai_go.Base.Result.{ok, err}
use crewai_go.Memory.Policy.{Policy}
use crewai_go.Crew.{Agent, Task, Error, wave_failed, Output, Crew, Host, State}
use crewai_go.Crew.Group.{GroupResult, no_result, run_task_group}
use crewai_go.Crew.Group.Success.{lone_results}
use crewai_go.Crew.Waves.{
  Member, fold_results, mark_all, discard_group, begin_group, commit_group, wave_group,
  resolve_agent, end_group, close_group, run_wave_group,
}

module _ {F W : Type 0} (host : Host F W) (c : Crew) (p : Policy)
    (agents : Option (List Agent)) where
  end_group_rest :
      {A : Type 0} (fail_fast : Bool) (first : Option (ℕ × Error)) (abort : ℕ → Error → A)
      (rest : A)
      → fail_fast ≡ false
      → end_group fail_fast first abort rest ≡ rest
  unfolding end_group
  end_group_rest fail_fast none abort rest h = refl
  end_group_rest false (some x) abort rest h = refl
  end_group_rest true (some x) abort rest h = absurd (cc)

  fold_lone :
      (wave : ℕ) (results : ℕ → GroupResult) (m : Member) (s : State F W) (out : Output)
      → results 0 ≡ no_result
      → fold_results host c p wave results 0 (m ∷ []) s out ≡ (s, ok out)
  unfolding fold_results
  fold_lone wave results (i, t) s out h =
      rw (ap (λ r. r.error) h, ap (λ r. r.agent) h, fold_results) refl

  -- With AsyncFailFast off, a wave's group of one task for which no agent is found returns the output
  -- as it was and leaves failedTasks as it was: the task has no result, and yet it does not count as
  -- failed for the tasks that depend on it.
  pub run_wave_group_drops :
      (wave i : ℕ) (t : Task) (s : State F W) (out : Output)
      → c.fail_fast ≡ false
      → resolve_agent c agents (i, t) ≡ none
      → ((run_wave_group host c p agents wave ((i, t) ∷ []) s out).1 ≡ ok out)
        × ((run_wave_group host c p agents wave ((i, t) ∷ []) s out).0.failed ≡ s.failed)
  unfolding run_wave_group close_group wave_group commit_group begin_group
  run_wave_group_drops wave i t s out keep_on no_one =
      let g = wave_group host c p agents ((i, t) ∷ []) in
      let b = run_task_group host c p g (begin_group s) in
      let lone : g.members ≡ (t, none) ∷ [] = ap (λ ag. (t, ag) ∷ []) no_one in
      let (results, state) = lone_results host c p g t (begin_group s) lone in
      let at =
        end_group_rest c.fail_fast b.first
          (λ k e.
            (mark_all ((i, t) ∷ []) e (discard_group b.state), err (wave_failed wave (k + 1) e)))
          (fold_results host c p wave b.results 0 ((i, t) ∷ [])
            (commit_group host p (t ∷ []) b.state) out)
          keep_on
        ∙ fold_lone wave b.results (i, t) (commit_group host p (t ∷ []) b.state) out results in
      (ap (λ r. r.1) at, ap (λ r. r.0.failed) at ∙ ap (λ s. s.failed) state)
