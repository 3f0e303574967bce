-- ===== src/Schedule.antt =====
-- schedule.go: the wave schedule of a task list whose tasks depend on one another by Task.Context.
-- A task pointer is a number, its address; two entries with one address are one task.
-- `Index` is about the map from pointers to positions, `Build` about the two slices of the graph,
-- `Loop` about the wave loop; `Plan`, `Decide` and `Async` have the theorems, `Tests` runs them.
pub mod Index
pub mod Build
pub mod Loop
pub mod Plan
pub mod Decide
pub mod Async
mod Tests
use crewai_go.Base.{
  ℕ, zero, suc, ◌+◌, ◌==◌, if◌then◌else◌, Bool, true, false, Option, none, some, List, [], ◌∷◌,
  ◌++◌, length, range, update, get_elem?,
}
use crewai_go.Base.Int.{ℤ, pos, negsuc}
use crewai_go.Base.Table.{Table, lookup, insert, nat_key}
use crewai_go.Base.Result.{Result, ok, err, ◌>>=◌}
use crewai_go.Kahn.{Graph, no_edges, add_edge, Counters, release_all, sources}

-- The fields of Task that the planner reads.
pub record Task : Type 0 where
  pub pointer : ℕ
  pub context : List ℕ
  pub async : Bool

-- The messages behind ErrTaskDependencyCycle, with the task's number, counted from 1.
pub data PlanError : Type 0 where
  appears_twice depends_on_itself in_cycle : ℕ → PlanError

-- `for i, t := range tasks { ... index[t] = i }`.
pub index_tasks : ℕ → Table ℕ ℕ → List Task → Result PlanError (Table ℕ ℕ)
index_tasks i index [] = ok index
index_tasks i index (t ∷ ts) = elim (lookup t.pointer index) [
  | some _ ↦ err (appears_twice (i + 1))
  | none ↦ index_tasks (suc i) (insert t.pointer i index) ts
]

-- `for _, d := range t.Context` for the task at position i.
pub add_deps : Table ℕ ℕ → ℕ → Graph → List ℕ → Result PlanError Graph
unfolding add_edge
add_deps index i g [] = ok g
add_deps index i g (d ∷ ds) = elim (lookup d index) [
  | none ↦ add_deps index i g ds
  | some j ↦
      let rest = add_deps index i (add_edge g j i) ds in
      if j == i then err (depends_on_itself (i + 1)) else rest
]

-- `for i, t := range tasks`, the second loop.
pub build_graph : Table ℕ ℕ → ℕ → Graph → List Task → Result PlanError Graph
unfolding add_deps
build_graph index i g [] = ok g
build_graph index i g (t ∷ ts) =
    add_deps index i g t.context >>= λ g'. build_graph index (suc i) g' ts

-- `for _, i := range wave { waveOf[i] = w }`.
pub mark_wave : ℕ → List ℕ → (ℕ → ℤ) → ℕ → ℤ
mark_wave w [] wave_of = wave_of
mark_wave w (i ∷ is) wave_of = mark_wave w is (update wave_of i (pos w))

-- `for _, i := range wave { for _, j := range adjacent[i] { ... } }`.
pub release_wave : (ℕ → List ℕ) → Counters → List ℕ → Counters
unfolding release_all
release_wave adjacent s [] = s
release_wave adjacent s (i ∷ is) = release_wave adjacent (release_all s (adjacent i)) is

-- What the wave loop leaves: the plan, waveOf, and the list `ready`, which is empty at its end.
pub record Waves : Type 0 where
  pub waves : List (List ℕ)
  pub wave_of : ℕ → ℤ
  pub ready : List ℕ

-- The end of a round: waveOf of its tasks, the new wave of the plan, and the next ready list.
abbrev pub close_wave : ℕ → List ℕ → List ℕ → Waves → Waves
close_wave w wave next s = record {
  waves = s.waves ++ wave ∷ [];
  wave_of = mark_wave w wave s.wave_of;
  ready = next;
}

-- `for w := 0; len(ready) > 0; w++`, on fuel.
pub wave_loop : ℕ → (ℕ → List ℕ) → ℕ → (ℕ → ℤ) → Waves → Waves
unfolding mark_wave release_wave
wave_loop zero adjacent w indegree s = s
wave_loop (suc fuel) adjacent w indegree s = elim s.ready [
  | [] ↦ s
  | i ∷ is ↦
      let (indegree', next) = release_wave adjacent (indegree, []) (i ∷ is) in
      wave_loop fuel adjacent (suc w) indegree' (close_wave w (i ∷ is) next s)
]

pub is_unset : ℤ → Bool
is_unset (pos n) = false
is_unset (negsuc zero) = true
is_unset (negsuc (suc n)) = false

-- The first position whose waveOf is still -1.
pub unscheduled : (ℕ → ℤ) → List ℕ → Option ℕ
unfolding is_unset
unscheduled wave_of [] = none
unscheduled wave_of (i ∷ is) = if is_unset (wave_of i) then some i else unscheduled wave_of is

-- The loop from the initial slices; a wave holds at least one task, so `n` rounds are enough.
pub run_waves : ℕ → Graph → Waves
unfolding wave_loop sources
run_waves n g =
    wave_loop n g.adjacent 0 g.indegree
      (record { waves = []; wave_of = λ _. negsuc 0; ready = sources g.indegree (range n) })

pub finish_plan : ℕ → Waves → Result PlanError (List (List ℕ))
unfolding unscheduled
finish_plan n s = elim (unscheduled s.wave_of (range n)) [
  | some i ↦ err (in_cycle (i + 1))
  | none ↦ ok s.waves
]

unfoldable pub plan_waves : List Task → Result PlanError (List (List ℕ))
unfolding index_tasks build_graph run_waves finish_plan
plan_waves [] = ok []
plan_waves (t ∷ ts) =
    let tasks = t ∷ ts in
    index_tasks 0 [] tasks >>= λ index. build_graph index 0 no_edges tasks >>= λ g.
    finish_plan (length tasks) (run_waves (length tasks) g)

-- The Async tasks of each wave; a position outside the task list would fault in the source.
pub async_only : List Task → List ℕ → List ℕ
async_only tasks [] = []
async_only tasks (i ∷ is) =
    let rest = async_only tasks is in
    elim (get_elem? tasks i) [ none ↦ rest | some t ↦ if t.async then i ∷ rest else rest ]

pub async_waves : List Task → List (List ℕ) → List (List ℕ)
unfolding async_only
async_waves tasks [] = []
async_waves tasks (wave ∷ waves) = async_only tasks wave ∷ async_waves tasks waves
