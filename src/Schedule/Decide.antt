-- ===== src/Schedule/Decide.antt =====
-- When `planWaves` returns a plan.
use crewai_go.Base.{ℕ, ◌<◌, ◌≡◌, refl, ◌↔◌, List, [], ◌∷◌, length, arith, get_elem?-lt}
use crewai_go.Base.Table.{Table, nat_key}
use crewai_go.Base.Result.{ok, ◌>>=◌}
use crewai_go.Kahn.{Graph, no_edges}
use crewai_go.Kahn.Order.{wave_number, Ordered-wave_number}
use crewai_go.Kahn.Invariant.{Inv-complete}
use crewai_go.Schedule.{Task, build_graph, run_waves, finish_plan, plan_waves}
use crewai_go.Base.Positions.{Distinct, IsIndex}
use crewai_go.Schedule.Index.{index_tasks-IsIndex, index_tasks-total, pointers}
use crewai_go.Schedule.Build.{DependsOn, build_graph-IsGraph, build_graph-returns}
use crewai_go.Schedule.Loop.{run_waves-ends, unscheduled-all}
use crewai_go.Schedule.Plan.{IsPlan, plan_waves-IsPlan, plan_waves-Distinct}

-- A ranking of the positions puts each dependency below its task: there is no cycle.
abbrev pub IsRanking : List Task → (ℕ → ℕ) → Type 0
IsRanking tasks rank = (i j : ℕ) → DependsOn tasks j i → rank i < rank j

IsPlan-IsRanking :
    {tasks : List Task} {waves : List (List ℕ)}
    → IsPlan tasks waves
    → IsRanking tasks (wave_number waves)
IsPlan-IsRanking {tasks} {waves} plan i j d =
    let (t, u, p, q, c) = d in
    Ordered-wave_number (DependsOn tasks) [] waves plan.ordered i j d refl
      (ground (arith, plan.once j, get_elem?-lt tasks j p))

-- With a ranking nothing is left to the cycle check.
ranked-plan :
    (tasks : List Task) {index : Table ℕ ℕ} {g : Graph} (indexed : IsIndex (pointers tasks) index)
    → build_graph index 0 no_edges tasks ≡ ok g
    → (rank : ℕ → ℕ) → IsRanking tasks rank
    → (waves : List (List ℕ)) × (finish_plan (length tasks) (run_waves (length tasks) g) ≡ ok waves)
unfolding finish_plan
ranked-plan tasks {g} indexed built rank ranked =
    let (es, is_graph) = build_graph-IsGraph tasks indexed built in
    let (indegree, w, empty) = run_waves-ends g is_graph.in_range is_graph.built in
    let n = length tasks in
    let s = run_waves n g in
    let placed =
      Inv-complete is_graph.in_range (rw empty at w.inv) rank
        (λ i j e. ranked i j ((is_graph.edge i j).0 e)) in
    let all = unscheduled-all s.wave_of n 0 (λ j p q. ground (arith, w.marked j, placed j)) in
    (s.waves, rw (all, finish_plan))

plan_waves-returns :
    (tasks : List Task) (rank : ℕ → ℕ)
    → Distinct (pointers tasks)
    → IsRanking tasks rank
    → (waves : List (List ℕ)) × (plan_waves tasks ≡ ok waves)
unfolding plan_waves
plan_waves-returns [] rank distinct ranked = ([], refl)
plan_waves-returns (t ∷ ts) rank distinct ranked =
    let tasks = t ∷ ts in
    let (index, e) = index_tasks-total tasks distinct in
    let indexed = index_tasks-IsIndex tasks e in
    let (g, e') = build_graph-returns tasks indexed (λ i d. omega (arith, ranked i i d)) in
    let (waves, e'') = ranked-plan tasks indexed e' rank ranked in
    (waves, rw (e, ◌>>=◌, e', ◌>>=◌) e'')

-- `planWaves` returns a plan exactly if no task stands in the list twice and the dependencies among
-- its tasks can be ranked, that is, have no cycle; its bounded loop never runs out of rounds.
pub plan_waves_decides :
    (tasks : List Task)
    → ((waves : List (List ℕ)) × (plan_waves tasks ≡ ok waves))
      ↔ (Distinct (pointers tasks) × ((rank : ℕ → ℕ) × IsRanking tasks rank))
plan_waves_decides tasks = (
  λ (waves, e). (
    plan_waves-Distinct tasks e,
    (wave_number waves, IsPlan-IsRanking (plan_waves-IsPlan tasks e)),
  ),
  λ (distinct, (rank, ranked)). plan_waves-returns tasks rank distinct ranked,
)
