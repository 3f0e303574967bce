-- ===== src/Schedule/Tests.antt =====
-- Runs of the planner.
use crewai_go.Base.{ℕ, ◌≡◌, ◌↔◌, refl, true, List, [], ◌∷◌}
use crewai_go.Base.Result.{ok, err}
use crewai_go.Schedule.{Task, PlanError, plan_waves}
use crewai_go.Base.Positions.{Distinct}
use crewai_go.Schedule.Index.{pointers}
use crewai_go.Schedule.Plan.{IsPlan, plan_waves-IsPlan}
use crewai_go.Schedule.Decide.{IsRanking, plan_waves_decides}

abbrev task : ℕ → List ℕ → Task
task p deps = record { pointer = p; context = deps; async = true }

-- Task 3 depends on task 0 and task 2 on task 1.
abbrev crossed : List Task
crossed = task 10 [] ∷ task 11 [] ∷ task 12 (11 ∷ []) ∷ task 13 (10 ∷ 99 ∷ []) ∷ []

plan_waves-crossed : plan_waves crossed ≡ ok ((0 ∷ 1 ∷ []) ∷ (3 ∷ 2 ∷ []) ∷ [])
unfolding plan_waves
plan_waves-crossed = refl

plan_waves-cycle :
    plan_waves (task 10 (11 ∷ []) ∷ task 11 (10 ∷ []) ∷ []) ≡ err (PlanError.in_cycle 1)
unfolding plan_waves
plan_waves-cycle = refl

plan_waves-IsPlan_example : IsPlan crossed ((0 ∷ 1 ∷ []) ∷ (3 ∷ 2 ∷ []) ∷ [])
plan_waves-IsPlan_example = plan_waves-IsPlan crossed plan_waves-crossed

plan_waves_decides_example :
    ((waves : List (List ℕ)) × (plan_waves crossed ≡ ok waves))
    ↔ (Distinct (pointers crossed) × ((rank : ℕ → ℕ) × IsRanking crossed rank))
plan_waves_decides_example = plan_waves_decides crossed
