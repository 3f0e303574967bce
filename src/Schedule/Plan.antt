-- ===== src/Schedule/Plan.antt =====
-- What a plan promises, and when there is one.
use crewai_go.Base.{
  ℕ, ltb, ◌≡◌, subst, inl, inr, if◌then◌else◌, none, List, [], ◌∷◌, length, arith, range, flatten,
  Bool-cases, Option-cases, ap,
}
use crewai_go.Base.Table.{Table, nat_key}
use crewai_go.Base.Int.{ℤ}
use crewai_go.Base.Result.{ok, chain_returns}
use crewai_go.Base.Count.{count}
use crewai_go.Kahn.{Graph, no_edges}
use crewai_go.Kahn.Edges.{Edges}
use crewai_go.Schedule.{
  Task, index_tasks, build_graph, run_waves, finish_plan, unscheduled, plan_waves, Waves,
}
use crewai_go.Base.Positions.{Distinct, IsIndex, IsIndex-Distinct}
use crewai_go.Schedule.Index.{index_tasks-IsIndex, pointers}
use crewai_go.Schedule.Build.{DependsOn, build_graph-IsGraph}
use crewai_go.Kahn.Order.{Ordered, Ordered-weaken, Needs}
use crewai_go.Schedule.Loop.{IsWaves, run_waves-ends, unscheduled-none}

-- Every position of the list stands in exactly one wave, once, and every dependency of a task
-- stands in an earlier wave than the task.
pub record IsPlan (tasks : List Task) (waves : List (List ℕ)) : Type 0 where
  pub once : (i : ℕ) → count i (flatten waves) ≡ (if ltb i (length tasks) then 1 else 0)
  pub ordered : Ordered (DependsOn tasks) [] waves

finish_plan-eq-ok :
    (n : ℕ) (s : Waves) {waves : List (List ℕ)}
    → finish_plan n s ≡ ok waves
    → (unscheduled s.wave_of (range n) ≡ none) × (s.waves ≡ waves)
unfolding finish_plan
finish_plan-eq-ok n s h = elim (Option-cases (unscheduled s.wave_of (range n))) [
  | inl e ↦ (e, ground arith)
  | inr (i, e) ↦ absurd (ground arith)
]

-- The steps behind a plan.
record Steps (tasks : List Task) (waves : List (List ℕ)) : Type 0 where
  index : Table ℕ ℕ
  indexed : IsIndex (pointers tasks) index
  graph : Graph
  built : build_graph index 0 no_edges tasks ≡ ok graph
  finished : finish_plan (length tasks) (run_waves (length tasks) graph) ≡ ok waves

plan_waves-Steps :
    (t : Task) (ts : List Task) {waves : List (List ℕ)}
    → plan_waves (t ∷ ts) ≡ ok waves
    → Steps (t ∷ ts) waves
unfolding plan_waves
plan_waves-Steps t ts h =
    let tasks = t ∷ ts in
    let (index, h', e) = chain_returns (index_tasks 0 [] tasks) _ h in
    let (graph, h'', e') = chain_returns (build_graph index 0 no_edges tasks) _ h' in
    record {
      index = index;
      indexed = index_tasks-IsIndex tasks e;
      graph = graph;
      built = e';
      finished = h'';
    }

-- After the check every position below `n` is placed, once.
IsWaves-once :
    {n : ℕ} {es : Edges} {indegree : ℕ → ℤ} (s : Waves)
    → IsWaves n es indegree s
    → s.ready ≡ []
    → unscheduled s.wave_of (range n) ≡ none
    → (i : ℕ) → count i (flatten s.waves) ≡ (if ltb i n then 1 else 0)
IsWaves-once {n} s w empty all i = elim (Bool-cases (ltb i n)) [
  | inl inside ↦
      ground (
        arith,
        w.inv.placed i,
        w.marked i,
        unscheduled-none s.wave_of n 0 i all,
        ap (count i) empty,
      )
  | inr outside ↦ ground (arith, w.inv.placed i)
]

Steps-IsPlan : {tasks : List Task} {waves : List (List ℕ)} → Steps tasks waves → IsPlan tasks waves
Steps-IsPlan {tasks} {waves} s =
    let (es, is_graph) = build_graph-IsGraph tasks s.indexed s.built in
    let (indegree, w, empty) = run_waves-ends s.graph is_graph.in_range is_graph.built in
    let (all, same) =
      finish_plan-eq-ok (length tasks) (run_waves (length tasks) s.graph) s.finished in
    record {
      once = λ i.
          subst (λ l. count i (flatten l) ≡ (if ltb i (length tasks) then 1 else 0)) same
            (IsWaves-once (run_waves (length tasks) s.graph) w empty all i);
      ordered =
          Ordered-weaken (Needs es) (DependsOn tasks) [] waves (λ i j d. (is_graph.edge i j).1 d)
            (subst (λ l. Ordered (Needs es) [] l) same w.ordered);
    }

-- Where `planWaves` returns a plan, every position stands in exactly one wave, once, no position
-- outside the list stands in one, and each task that the list's tasks name in their Context stands
-- in an earlier wave than the tasks that name it.
pub plan_waves-IsPlan :
    (tasks : List Task) {waves : List (List ℕ)} → plan_waves tasks ≡ ok waves → IsPlan tasks waves
unfolding plan_waves
plan_waves-IsPlan [] h =
    subst (IsPlan []) {x = []} (ground arith) (record { once = λ i. ground arith; ordered = tt })
plan_waves-IsPlan (t ∷ ts) h = Steps-IsPlan (plan_waves-Steps t ts h)

pub plan_waves-Distinct :
    (tasks : List Task) {waves : List (List ℕ)}
    → plan_waves tasks ≡ ok waves
    → Distinct (pointers tasks)
plan_waves-Distinct [] h = λ i j k p q. cc
plan_waves-Distinct (t ∷ ts) h = IsIndex-Distinct (plan_waves-Steps t ts h).indexed
