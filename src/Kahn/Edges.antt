-- ===== src/Kahn/Edges.antt =====
-- A dependency graph as its list of edges, and what the slices of Kahn.antt hold for it.
use crewai_go.Base.{
  ℕ, ◌+◌, ◌<◌, ◌==◌, ◌≡◌, refl, if◌then◌else◌, ◌&&◌, List, [], ◌∷◌, ◌++◌, arith, inl, inr,
  Bool-cases,
}
use crewai_go.Base.Int.{pos}
use crewai_go.Base.Count.{count, count-append}
use crewai_go.Kahn.{Graph, no_edges, add_edge}

-- (i, j): node j depends on node i. An edge that is given twice counts twice.
abbrev pub Edges : Type 0
Edges = List (ℕ × ℕ)

-- How many edges lead from i to j.
abbrev pub between : Edges → ℕ → ℕ → ℕ
between [] i j = 0
between ((a, b) ∷ es) i j = (if a == i && b == j then 1 else 0) + between es i j

-- How many edges lead to j from a node that is not in `done`.
abbrev pub open_edges : Edges → List ℕ → ℕ → ℕ
open_edges [] done j = 0
open_edges ((a, b) ∷ es) done j =
    (if b == j && count a done == 0 then 1 else 0) + open_edges es done j

abbrev pub InRange : ℕ → Edges → Type 0
InRange n es = (i j : ℕ) → 0 < between es i j → (i < n) × (j < n)

pub record IsBuilt (es : Edges) (g : Graph) : Type 0 where
  pub degrees : (j : ℕ) → g.indegree j ≡ pos (open_edges es [] j)
  pub targets : (i j : ℕ) → count j (g.adjacent i) ≡ between es i j

pub no_edges-IsBuilt : IsBuilt [] no_edges
no_edges-IsBuilt = record { degrees = λ j. refl; targets = λ i j. refl }

pub add_edge-IsBuilt :
    (es : Edges) (g : Graph) (j i : ℕ) → IsBuilt es g → IsBuilt ((j, i) ∷ es) (add_edge g j i)
unfolding add_edge
add_edge-IsBuilt es g j i h = record {
  degrees = λ k. ground (arith, h.degrees k, h.degrees i);
  targets =
      λ a b. ground (arith, h.targets a b, h.targets j b, count-append b (g.adjacent j) (i ∷ []));
}

-- Finishing node i closes its edges.
pub open_edges-snoc :
    (es : Edges) (done : List ℕ) (i j : ℕ)
    → count i done ≡ 0
    → open_edges es done j ≡ open_edges es (done ++ i ∷ []) j + between es i j
open_edges-snoc [] done i j h = refl
open_edges-snoc ((a, b) ∷ es) done i j h =
    ground (arith, open_edges-snoc es done i j h, count-append a done (i ∷ []))

-- A node with no open edge has all of its dependencies done.
pub done_of_open_edges :
    (es : Edges) (done : List ℕ) (i j : ℕ)
    → open_edges es done j ≡ 0
    → 0 < between es i j
    → 0 < count i done
done_of_open_edges [] done i j h p = absurd (omega arith)
done_of_open_edges ((a, b) ∷ es) done i j h p = ground (arith, done_of_open_edges es done i j)

-- A node with an open edge waits for a node that is not done.
pub waits_for :
    (es : Edges) (done : List ℕ) (j : ℕ)
    → 0 < open_edges es done j
    → (i : ℕ) × (0 < between es i j) × (count i done ≡ 0)
waits_for [] done j p = absurd (omega arith)
waits_for ((a, b) ∷ es) done j p = elim (Bool-cases (b == j && count a done == 0)) [
  | inl found ↦ (a, ground arith, ground arith)
  | inr other ↦ let (i, e, c) = waits_for es done j (ground arith) in (i, omega (arith, e), c)
]
