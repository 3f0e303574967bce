-- ===== src/Flow/Index.antt =====
-- The first two loops of `validate`: the table of positions and the checks on each step.
use crewai_go.Base.{
  ℕ, zero, suc, ◌≡◌, refl, ◌≢◌, ◌↔◌, inl, inr, Bool, true, false, not, ◌||◌, ◌&&◌, none, some, List,
  [], ◌∷◌, String, str_eq, eq_iff, str_eq_refl, get_elem?, arith, Option-cases, Bool-cases, map,
  subst,
}
use crewai_go.Base.Table.{Table, lookup, insert, string_key}
use crewai_go.Base.Positions.{positions, AllFresh}
use crewai_go.Base.Result.{ok}
use crewai_go.Flow.{
  Node, check_node, index_nodes, check_deps, check_all_deps, mem, is_empty, is_nil,
}

module _ {S : Type 0} where
  abbrev pub names : List (Node S) → List String
  names = map (λ n. n.name)

  -- What the first loop asks of each step by itself.
  pub record IsChecked (n : Node S) : Type 0 where
    pub named : n.name ≢ ""
    pub start_alone : n.start && not (is_empty n.deps) ≡ false
    pub body : is_nil n.body ≡ false

  check_node-none :
      (index : Table String ℕ) (n : Node S)
      → (check_node index n ≡ none) ↔ (IsChecked n × (lookup n.name index ≡ none))
  unfolding check_node
  check_node-none index n = (
    λ h. ground (arith, eq_iff n.name ""),
    λ (c, absent). ground (arith, eq_iff n.name "", c.named, c.start_alone, c.body),
  )

  abbrev pub AllNodes : (Node S → Type 0) → List (Node S) → Type 0
  AllNodes P [] = Unit {0}
  AllNodes P (n ∷ ns) = P n × AllNodes P ns

  abbrev pub any_root : List (Node S) → Bool
  any_root [] = false
  any_root (n ∷ ns) = is_empty n.deps || any_root ns

  index_nodes-cons :
      (i : ℕ) (index : Table String ℕ) (b : Bool) (n : Node S) (ns : List (Node S))
      → check_node index n ≡ none
      → index_nodes i index b (n ∷ ns)
        ≡ index_nodes (suc i) (insert n.name i index) (b || is_empty n.deps) ns
  unfolding index_nodes
  index_nodes-cons i index b n ns e = rw (e, index_nodes)

  pub index_nodes-positions :
      (i : ℕ) (index : Table String ℕ) (b : Bool) (ns : List (Node S)) {r : Table String ℕ × Bool}
      → index_nodes i index b ns ≡ ok r
      → AllNodes IsChecked ns
        × AllFresh i index (names ns)
        × ((positions i index (names ns), b || any_root ns) ≡ r)
  unfolding index_nodes
  index_nodes-positions i index b [] h = (tt, tt, ground arith)
  index_nodes-positions i index b (n ∷ ns) h = elim (Option-cases (check_node index n)) [
    | inl passed ↦
        let (c, absent) = (check_node-none index n).0 passed in
        let (cs, fresh, same) =
          index_nodes-positions (suc i) (insert n.name i index) (b || is_empty n.deps) ns
            (rw (passed, index_nodes) at h) in
        ((c, cs), (absent, fresh), ground arith)
    | inr (e, stopped) ↦ absurd (cc (rw (stopped, index_nodes) at h))
  ]

  pub index_nodes_returns :
      (i : ℕ) (index : Table String ℕ) (b : Bool) (ns : List (Node S))
      → AllNodes IsChecked ns
      → AllFresh i index (names ns)
      → index_nodes i index b ns ≡ ok (positions i index (names ns), b || any_root ns)
  unfolding index_nodes
  index_nodes_returns i index b [] cs fresh = ground arith
  index_nodes_returns i index b (n ∷ ns) cs fresh =
      let passed = (check_node-none index n).1 (cs.0, fresh.0) in
      let rest =
        index_nodes_returns (suc i) (insert n.name i index) (b || is_empty n.deps) ns cs.1
          fresh.1 in
      rw (passed, index_nodes) (ground arith)

-- What the second loop asks of a dependency.
abbrev pub IsKnown : Table String ℕ → String → String → Type 0
IsKnown index name d = (d ≢ name) × (is_nil (lookup d index) ≡ false)

check_deps-none :
    (index : Table String ℕ) (name : String) (ds : List String)
    → check_deps index name ds ≡ none
    → (d : String) → mem d ds ≡ true
    → IsKnown index name d
unfolding check_deps
check_deps-none index name [] h d m = absurd (cc)
check_deps-none index name (c ∷ ds) h d m = elim (Bool-cases (str_eq c d)) [
  | inl same ↦ subst (IsKnown index name) ((eq_iff c d).0 same) (ground (arith, eq_iff c name))
  | inr other ↦ check_deps-none index name ds (ground arith) d (ground arith)
]

check_deps_passes :
    (index : Table String ℕ) (name : String) (ds : List String)
    → ((d : String) → mem d ds ≡ true → IsKnown index name d)
    → check_deps index name ds ≡ none
unfolding check_deps
check_deps_passes index name [] h = refl
check_deps_passes index name (c ∷ ds) h = ground (
  arith,
  eq_iff c name,
  h c (rw (str_eq_refl c)),
  check_deps_passes index name ds (λ d m. h d (rw m (ground arith))),
)

module _ {S : Type 0} where
  pub check_all_deps-none :
      (index : Table String ℕ) (ns : List (Node S))
      → check_all_deps index ns ≡ none
      → AllNodes (λ n. (d : String) → mem d n.deps ≡ true → IsKnown index n.name d) ns
  unfolding check_all_deps
  check_all_deps-none index [] h = tt
  check_all_deps-none index (n ∷ ns) h = elim (Option-cases (check_deps index n.name n.deps)) [
    | inl passed ↦ (
      check_deps-none index n.name n.deps passed,
      check_all_deps-none index ns (rw (passed, check_all_deps) at h),
    )
    | inr (e, stopped) ↦ absurd (cc (rw (stopped, check_all_deps) at h))
  ]

  pub check_all_deps_passes :
      (index : Table String ℕ) (ns : List (Node S))
      → AllNodes (λ n. (d : String) → mem d n.deps ≡ true → IsKnown index n.name d) ns
      → check_all_deps index ns ≡ none
  unfolding check_all_deps
  check_all_deps_passes index [] h = refl
  check_all_deps_passes index (n ∷ ns) h =
      rw (check_deps_passes index n.name n.deps h.0, check_all_deps)
        (check_all_deps_passes index ns h.1)

  pub AllNodes-at :
      (P : Node S → Type 0) (ns : List (Node S)) (i : ℕ) {n : Node S}
      → AllNodes P ns
      → get_elem? ns i ≡ some n
      → P n
  AllNodes-at P [] i h e = absurd (cc)
  AllNodes-at P (n ∷ ns) zero h e = subst P (ground arith) h.0
  AllNodes-at P (n ∷ ns) (suc i) h e = AllNodes-at P ns i h.1 e

  pub AllNodes-all :
      (P : Node S → Type 0) (ns : List (Node S))
      → ((i : ℕ) (n : Node S) → get_elem? ns i ≡ some n → P n)
      → AllNodes P ns
  AllNodes-all P [] h = tt
  AllNodes-all P (n ∷ ns) h = (h 0 n refl, AllNodes-all P ns (λ i m e. h (suc i) m e))
