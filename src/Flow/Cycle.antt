-- ===== src/Flow/Cycle.antt =====
-- `detectCycle`: the graph of the dependencies, and the queue that drains it.
use crewai_go.Base.{
  ℕ, zero, suc, ◌+◌, ◌≤◌, ◌<◌, ◌==◌, ◌≡◌, refl, ap, inl, inr, List, [], ◌∷◌, ◌++◌, String, arith,
  List-cases, if◌then◌else◌, length, length-append,
}
use crewai_go.Base.Int.{ℤ}
use crewai_go.Base.Table.{Table, string_key}
use crewai_go.Base.Count.{count}
use crewai_go.Kahn.{Graph, add_edge, release_all}
use crewai_go.Kahn.Edges.{Edges, between, IsBuilt, InRange, add_edge-IsBuilt}
use crewai_go.Kahn.Order.{Ordered, Ordered-snoc, Needs, singles, flatten-singles, singles-snoc}
use crewai_go.Kahn.Invariant.{Inv, Inv-step, Inv-done_le, Inv-queued}
use crewai_go.Flow.{Node, index_of, link_deps, link_nodes, drain}

-- How many of the names stand for position `a`.
abbrev pub called : Table String ℕ → ℕ → List String → ℕ
called index a [] = 0
called index a (d ∷ ds) = (if index_of index d == a then 1 else 0) + called index a ds

abbrev pub deps_at : {S : Type 0} → List (Node S) → ℕ → List String
deps_at [] k = []
deps_at (n ∷ ns) zero = n.deps
deps_at (n ∷ ns) (suc k) = deps_at ns k

link_deps-IsBuilt :
    (index : Table String ℕ) (i : ℕ) (es : Edges) (g : Graph) (ds : List String)
    → IsBuilt es g
    → (es' : Edges) × IsBuilt es' (link_deps index i g ds)
      × ((a b : ℕ) → between es' a b ≡ between es a b + (if b == i then called index a ds else 0))
unfolding link_deps
link_deps-IsBuilt index i es g [] h = (es, h, λ a b. ground arith)
link_deps-IsBuilt index i es g (d ∷ ds) h =
    let j = index_of index d in
    let (es', h', exact) =
      link_deps-IsBuilt index i ((j, i) ∷ es) (add_edge g j i) ds (add_edge-IsBuilt es g j i h) in
    (es', h', λ a b. ground (arith, exact a b))

-- The edges that the steps from position i on add.
pub record Linked {S : Type 0} (index : Table String ℕ) (i : ℕ) (es : Edges) (ns : List (Node S))
    (g : Graph) : Type 0 where
  pub edges : Edges
  pub built : IsBuilt edges g
  pub before : (a b : ℕ) → b < i → between edges a b ≡ between es a b
  pub exact :
      (a k : ℕ) → between edges a (i + k) ≡ between es a (i + k) + called index a (deps_at ns k)

module _ {S : Type 0} where
  pub link_nodes-Linked :
      (index : Table String ℕ) (i : ℕ) (es : Edges) (g : Graph) (ns : List (Node S))
      → IsBuilt es g
      → Linked index i es ns (link_nodes index i g ns)
  unfolding link_nodes
  link_nodes-Linked index i es g [] h = record {
    edges = es;
    built = h;
    before = λ a b p. refl;
    exact = λ a k. omega arith;
  }
  link_nodes-Linked index i es g (n ∷ ns) h =
      let (es', h', now) = link_deps-IsBuilt index i es g n.deps h in
      let later = link_nodes-Linked index (suc i) es' (link_deps index i g n.deps) ns h' in
      record {
        edges = later.edges;
        built = later.built;
        before = λ a b p. ground (arith, later.before a b, now a b);
        exact = λ a k. at now later a k;
      }
    where
      at :
          {es' : Edges} {g' : Graph}
          (now : (a b : ℕ)
            → between es' a b ≡ between es a b + (if b == i then called index a n.deps else 0))
          (later : Linked index (suc i) es' ns g') (a k : ℕ)
          → between later.edges a (i + k)
            ≡ between es a (i + k) + called index a (deps_at (n ∷ ns) k)
      at now later a zero = ground (arith, later.before a i, now a i)
      at now later a (suc k) = ground (arith, later.exact a k, now a (i + suc k))

module _ {n : ℕ} {es : Edges} (in_range : InRange n es) (adjacent : ℕ → List ℕ)
    (targets : (i j : ℕ) → count j (adjacent i) ≡ between es i j) where
  -- With fuel for the nodes that are left, the queue gets empty, and each node stands behind
  -- the nodes on which it depends.
  pub drain_ends :
      (fuel : ℕ) (indegree : ℕ → ℤ) (ready seen : List ℕ)
      → n ≤ fuel + length seen
      → Inv n es seen ready indegree
      → Ordered (Needs es) [] (singles seen)
      → let (seen', left) = drain fuel adjacent (indegree, ready) seen in
        (indegree' : ℕ → ℤ) × Inv n es seen' [] indegree'
        × (left ≡ [])
        × Ordered (Needs es) [] (singles seen')
  unfolding drain
  drain_ends zero indegree ready seen f h o = elim (List-cases ready) [
    | inl empty ↦ (indegree, rw empty at h, empty, o)
    | inr (i, is, e) ↦ absurd (omega (arith, Inv-done_le h, ap length e))
  ]
  drain_ends (suc fuel) indegree [] seen f h o = (indegree, h, refl, o)
  drain_ends (suc fuel) indegree (i ∷ rest) seen f h o =
      drain_ends fuel (release_all (indegree, rest) (adjacent i)).0
        (release_all (indegree, rest) (adjacent i)).1 (seen ++ i ∷ [])
        (omega (arith, length-append seen (i ∷ [])))
        (Inv-step in_range adjacent targets seen [] rest i indegree h)
        (rw singles-snoc (
          Ordered-snoc (Needs es) [] (singles seen) (i ∷ []) o
            (λ a b p d. rw flatten-singles (Inv-queued a b h (ground arith) d))))
