-- ===== src/Crew/Processes/Planned.antt =====
-- The processes on tasks that the planner has accepted.
use crewai_go.Base.{ℕ, true, none, List, ◌≡◌, refl, map}
use crewai_go.Base.Result.{ok}
use crewai_go.Memory.Policy.{Policy}
use crewai_go.Schedule.{plan_waves}
use crewai_go.Crew.{Crew, Host, State}
use crewai_go.Crew.Waves.{run_async_waves}
use crewai_go.Crew.Processes.{has_async, run_sequential}

-- The second call of the planner does not fail where the first did not.
pub run_sequential_planned :
    {F W : Type 0} (host : Host F W) (c : Crew) (p : Policy) (s : State F W) (waves : List (List ℕ))
    → plan_waves (map (λ t. t.plan) c.tasks) ≡ ok waves
    → has_async c.tasks ≡ true
    → run_sequential host c p s ≡ run_async_waves host c p none waves s
unfolding run_sequential
run_sequential_planned host c p s waves h async = rw (async, h, run_sequential) refl
