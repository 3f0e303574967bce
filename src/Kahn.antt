-- ===== src/Kahn.antt =====
-- The dependency counters that schedule.go (planWaves) and flow.go (detectCycle) share: the two
-- slices `indegree` and `adjacent`, and the loop that releases the dependents of a finished node.
pub mod Edges
pub mod Order
pub mod Invariant
use crewai_go.Base.{ℕ, ◌==◌, if◌then◌else◌, List, [], ◌∷◌, ◌++◌, update}
use crewai_go.Base.Int.{ℤ, pos, suc_ℤ, pred_ℤ, is_zero}

-- `indegree[i]` counts the dependencies of node i, `adjacent[j]` lists the dependents of node j.
pub record Graph : Type 0 where
  pub indegree : ℕ → ℤ
  pub adjacent : ℕ → List ℕ

-- `make([]int, n)` and `make([][]int, n)`.
abbrev pub no_edges : Graph
no_edges = record { indegree = λ _. pos 0; adjacent = λ _. [] }

-- `indegree[i]++; adjacent[j] = append(adjacent[j], i)`.
unfoldable pub add_edge : Graph → ℕ → ℕ → Graph
add_edge g j i = record {
  indegree = update g.indegree i (suc_ℤ (g.indegree i));
  adjacent = update g.adjacent j (g.adjacent j ++ i ∷ []);
}

-- The counters and the list of the nodes that became ready.
abbrev pub Counters : Type 0
Counters = (ℕ → ℤ) × List ℕ

-- `indegree[j]--; if indegree[j] == 0 { next = append(next, j) }`.
unfoldable pub release : Counters → ℕ → Counters
release (indegree, next) j =
    let k = pred_ℤ (indegree j) in (update indegree j k, if is_zero k then next ++ j ∷ [] else next)

-- `for _, j := range adjacent[i]`.
unfoldable pub release_all : Counters → List ℕ → Counters
unfolding release
release_all s [] = s
release_all s (j ∷ js) = release_all (release s j) js

-- The nodes below `n` whose counter is 0, in ascending order.
unfoldable pub sources : (ℕ → ℤ) → List ℕ → List ℕ
sources indegree [] = []
sources indegree (i ∷ is) =
    if is_zero (indegree i) then i ∷ sources indegree is else sources indegree is
