-- ===== src/Crew/Waves/Tests.antt =====
-- Chunks, and waves of two tasks.
use crewai_go.Base.{
  ℕ, zero, suc, ◌<◌, true, false, none, some, List, [], ◌∷◌, ◌≡◌, ◌⊎◌, refl, arith,
}
use crewai_go.Base.Int.{pos}
use crewai_go.Base.Result.{ok}
use crewai_go.Memory.Policy.{new_policy}
use crewai_go.Crew.{Output, no_output}
use crewai_go.Crew.Samples.{
  calm_host, swapped_host, start, first_task, second_task, wave_crew, lenient_crew, task_at,
}
use crewai_go.Crew.Context.{is_in}
use crewai_go.Crew.Group.{run_task_group}
use crewai_go.Crew.Group.Success.{turns_of}
use crewai_go.Crew.Waves.{
  Member, chunks, resolve_agent, wave_group, begin_group, run_wave_group, run_async_waves,
}
use crewai_go.Crew.Waves.Endings.{
  Returns, IsAborted, run_async_waves_goes_on, run_wave_group_aborts,
}
use crewai_go.Crew.Waves.Dropped.{run_wave_group_drops}

abbrev five : List ℕ
five = 1 ∷ 2 ∷ 3 ∷ 4 ∷ 5 ∷ []

chunks_of_five : chunks 5 (pos 2) five ≡ (1 ∷ 2 ∷ []) ∷ (3 ∷ 4 ∷ []) ∷ (5 ∷ []) ∷ []
unfolding chunks
chunks_of_five = refl

run_async_waves_goes_on_example :
    (out : Output) × ((run_async_waves calm_host lenient_crew new_policy none
        ((0 ∷ 1 ∷ []) ∷ [])
        start).1
      ≡ ok out)
run_async_waves_goes_on_example =
    run_async_waves_goes_on calm_host lenient_crew new_policy refl none ((0 ∷ 1 ∷ []) ∷ []) start

abbrev others : List Member
others = (1, second_task) ∷ []

visited : (k : ℕ) → k < 2 → is_in k (turns_of ((1, false) ∷ (0, false) ∷ [])) ≡ true
visited zero h = refl
visited (suc zero) h = refl
visited (suc (suc k)) h = absurd (omega arith)

run_wave_group_aborts_example :
    ((run_task_group swapped_host wave_crew new_policy
          (wave_group swapped_host wave_crew new_policy none ((0, first_task) ∷ others))
          (begin_group start)).first
        ≡ none)
      × Returns (
          run_wave_group swapped_host wave_crew new_policy none 1
            ((0, first_task) ∷ others)
            start
            no_output)
    ⊎ IsAborted swapped_host wave_crew new_policy none 1
        (0, first_task)
        others
        start
        no_output
        (run_wave_group swapped_host wave_crew new_policy none 1
          ((0, first_task) ∷ others)
          start
          no_output)
run_wave_group_aborts_example =
    run_wave_group_aborts swapped_host wave_crew new_policy none 1 (0, first_task) others start
      no_output refl (λ k h. visited k h)

run_wave_group_drops_example :
    ((run_wave_group calm_host lenient_crew new_policy
        (some [])
        1
        ((0, task_at 12 [] true none) ∷ [])
        start
        no_output).1
      ≡ ok no_output)
    × ((run_wave_group calm_host lenient_crew new_policy
          (some [])
          1
          ((0, task_at 12 [] true none) ∷ [])
          start
          no_output).0.failed
        ≡ [])
unfolding resolve_agent
run_wave_group_drops_example =
    run_wave_group_drops calm_host lenient_crew new_policy (some []) 1 0 (task_at 12 [] true none)
      start no_output refl refl
