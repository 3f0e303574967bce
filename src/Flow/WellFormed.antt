-- ===== src/Flow/WellFormed.antt =====
-- The flows that the runner accepts, and the graph of their dependencies.
use crewai_go.Base.{
  ℕ, zero, suc, ◌<◌, ◌==◌, ◌≡◌, refl, inl, inr, true, some, List, [], ◌∷◌, String, str_eq, eq_iff,
  str_eq_refl, get_elem?, get_elem?-lt, get_elem?-map, get_elem?_of_map, arith, Option-cases,
  Bool-cases, length,
}
use crewai_go.Base.Table.{Table, lookup, string_key}
use crewai_go.Base.Positions.{Distinct, IsIndex}
use crewai_go.Kahn.{no_edges}
use crewai_go.Kahn.Edges.{between, InRange, no_edges-IsBuilt}
use crewai_go.Flow.{Node, mem, index_of, link_nodes}
use crewai_go.Flow.Index.{names, IsChecked, AllNodes, AllNodes-at, IsKnown, any_root}
use crewai_go.Flow.Cycle.{called, deps_at, Linked, link_nodes-Linked}

module _ {S : Type 0} where
  -- Step j names step i among its dependencies.
  abbrev pub DependsOn : List (Node S) → ℕ → ℕ → Type 0
  DependsOn nodes j i =
      (n : Node S) × (u : Node S) × (get_elem? nodes j ≡ some n)
      × (get_elem? nodes i ≡ some u)
      × (mem u.name n.deps ≡ true)

  -- A ranking of the positions puts each dependency below its step: there is no cycle.
  abbrev pub IsRanking : List (Node S) → (ℕ → ℕ) → Type 0
  IsRanking nodes rank = (i j : ℕ) → DependsOn nodes j i → rank i < rank j

  -- What the runner asks of a flow: each step has a name of its own and a function, a step that
  -- is marked as a start has no dependency, some step has none, every dependency is a step of
  -- the flow, and there is no cycle.
  pub record IsWellFormed (nodes : List (Node S)) : Type 0 where
    pub checked : (i : ℕ) (n : Node S) → get_elem? nodes i ≡ some n → IsChecked n
    pub distinct : Distinct (names nodes)
    pub rooted : any_root nodes ≡ true
    pub known :
        (j : ℕ) (n : Node S) (d : String)
        → get_elem? nodes j ≡ some n
        → mem d n.deps ≡ true
        → (i : ℕ) × (get_elem? (names nodes) i ≡ some d)
    pub rank : ℕ → ℕ
    pub ranked : IsRanking nodes rank

called-pos :
    (index : Table String ℕ) (a : ℕ) (ds : List String)
    → 0 < called index a ds
    → (d : String) × (mem d ds ≡ true) × (index_of index d ≡ a)
called-pos index a [] h = absurd (omega arith)
called-pos index a (d ∷ ds) h = elim (Bool-cases (index_of index d == a)) [
  | inl here ↦ (d, rw (str_eq_refl d), ground arith)
  | inr later ↦ let (c, m, q) = called-pos index a ds (ground arith) in (c, rw m (ground arith), q)
]

pos-called :
    (index : Table String ℕ) (d : String) (ds : List String)
    → mem d ds ≡ true
    → 0 < called index (index_of index d) ds
pos-called index d [] h = absurd (cc)
pos-called index d (c ∷ ds) h = elim (Bool-cases (str_eq c d)) [
  | inl same ↦ let p : c ≡ d = (eq_iff c d).0 same in rw p (ground arith)
  | inr other ↦ omega (arith, pos-called index d ds (ground arith))
]

module _ {S : Type 0} where
  deps_at-mem :
      (nodes : List (Node S)) (j : ℕ) (d : String)
      → mem d (deps_at nodes j) ≡ true
      → (n : Node S) × (get_elem? nodes j ≡ some n) × (mem d n.deps ≡ true)
  deps_at-mem [] j d h = absurd (cc)
  deps_at-mem (n ∷ ns) zero d h = (n, refl, h)
  deps_at-mem (n ∷ ns) (suc j) d h = deps_at-mem ns j d h

  deps_at-eq :
      (nodes : List (Node S)) (j : ℕ) {n : Node S}
      → get_elem? nodes j ≡ some n
      → deps_at nodes j ≡ n.deps
  deps_at-eq [] j h = cc
  deps_at-eq (n ∷ ns) zero h = ground arith
  deps_at-eq (n ∷ ns) (suc j) h = deps_at-eq ns j h

  pub index_of-found :
      {index : Table String ℕ} (nodes : List (Node S)) (i : ℕ) {n : Node S}
      → IsIndex (names nodes) index
      → get_elem? nodes i ≡ some n
      → index_of index n.name ≡ i
  index_of-found nodes i {n} ix e =
      ground (arith, ix.found i n.name (get_elem?-map (λ v. v.name) nodes i e))

-- The graph of a flow whose dependencies are known.
module _ {S : Type 0} (nodes : List (Node S)) {index : Table String ℕ}
    (ix : IsIndex (names nodes) index)
    (known : AllNodes
      (λ n. (d : String) → mem d n.deps ≡ true → IsKnown index n.name d)
      nodes) where
  pub linked : Linked index 0 [] nodes (link_nodes index 0 no_edges nodes)
  linked = link_nodes-Linked index 0 [] no_edges nodes no_edges-IsBuilt

  pub edge_DependsOn : (i j : ℕ) → 0 < between linked.edges i j → DependsOn nodes j i
  edge_DependsOn i j p =
      let (d, m, q) = called-pos index i (deps_at nodes j) (ground (arith, linked.exact i j)) in
      let (n, e, m') = deps_at-mem nodes j d m in
      let (fresh, there) = AllNodes-at _ nodes j known e d m' in
      elim (Option-cases (lookup d index)) [
        | inl missing ↦ absurd (ground arith)
        | inr (a, found) ↦
            let at : a ≡ i = ground arith in
            let (u, e', same) = get_elem?_of_map (λ v. v.name) nodes a (ix.sound d a found) in
            (n, u, e, rw at at e', rw same m')
      ]

  pub DependsOn-edge : (i j : ℕ) → DependsOn nodes j i → 0 < between linked.edges i j
  DependsOn-edge i j (n, u, e, e', m) = ground (
    arith,
    linked.exact i j,
    deps_at-eq nodes j e,
    index_of-found nodes i ix e',
    pos-called index u.name n.deps m,
  )

  pub linked-InRange : InRange (length nodes) linked.edges
  linked-InRange i j p =
      let (n, u, e, e', m) = edge_DependsOn i j p in
      (get_elem?-lt nodes i e', get_elem?-lt nodes j e)
