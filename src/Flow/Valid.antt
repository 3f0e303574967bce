-- ===== src/Flow/Valid.antt =====
-- `validate`: which flows it accepts.
use crewai_go.Base.{
  ℕ, ◌≡◌, refl, ap, ◌∙◌, subst, ◌↔◌, inl, inr, Bool, true, false, Option, none, some, List, [],
  String, get_elem?-lt, arith, Option-cases, if◌then◌else◌, length, range,
}
use crewai_go.Base.Int.{ℤ}
use crewai_go.Base.Table.{Table, lookup, string_key}
use crewai_go.Base.Positions.{
  IsIndex, IsIndex-Distinct, positions-IsIndex, AllFresh-of_Distinct, positions,
}
use crewai_go.Base.Result.{ok, chain_returns}
use crewai_go.Base.Count.{all_of_length, length_of_all}
use crewai_go.Kahn.{no_edges, sources}
use crewai_go.Kahn.Edges.{Edges}
use crewai_go.Kahn.Order.{
  Ordered, Needs, singles, flatten-singles, wave_number, Ordered-wave_number,
}
use crewai_go.Kahn.Invariant.{Inv, Inv-complete}
use crewai_go.Schedule.Loop.{count-sources}
use crewai_go.Flow.{
  Node, FlowError, mem, index_nodes, check_all_deps, link_nodes, drain_graph, detect_cycle,
  validate, fail_on, no_start,
}
use crewai_go.Flow.Index.{
  names, IsChecked, AllNodes, AllNodes-at, AllNodes-all, IsKnown, index_nodes-positions,
  index_nodes_returns, check_all_deps-none, check_all_deps_passes,
}
use crewai_go.Flow.Cycle.{drain_ends}
use crewai_go.Flow.WellFormed.{
  IsRanking, IsWellFormed, linked, edge_DependsOn, DependsOn-edge, linked-InRange,
}

module _ {S : Type 0} (nodes : List (Node S)) {index : Table String ℕ}
    (ix : IsIndex (names nodes) index)
    (known : AllNodes
      (λ n. (d : String) → mem d n.deps ≡ true → IsKnown index n.name d)
      nodes) where
  abbrev edges : Edges
  edges = (linked nodes ix known).edges

  abbrev drained : List ℕ × List ℕ
  drained = drain_graph (length nodes) (link_nodes index 0 no_edges nodes)

  drained_ends :
      (indegree : ℕ → ℤ) × Inv (length nodes) edges drained.0 [] indegree
      × (drained.1 ≡ [])
      × Ordered (Needs edges) [] (singles drained.0)
  unfolding drain_graph
  drained_ends =
      let g = link_nodes index 0 no_edges nodes in
      let built = (linked nodes ix known).built in
      let n = length nodes in
      drain_ends (linked-InRange nodes ix known) g.adjacent built.targets n g.indegree
        (sources g.indegree (range n)) [] (omega arith)
        (record {
          degrees = built.degrees;
          placed = λ j. ground (arith, count-sources g.indegree n j, built.degrees j);
        })
        tt

  detect_cycle-none_of_ranking :
      (rank : ℕ → ℕ) → IsRanking nodes rank → detect_cycle index nodes ≡ none
  unfolding detect_cycle
  detect_cycle-none_of_ranking rank ranked =
      let (indegree, inv, _, _) = drained_ends in
      let all =
        Inv-complete (linked-InRange nodes ix known) inv rank
          (λ i j p. ranked i j (edge_DependsOn nodes ix known i j p)) in
      ground (
        arith,
        length_of_all (length nodes) drained.0 (λ j. ground (arith, inv.placed j))
            (λ j p. ground (arith, inv.placed j)) all,
      )

  detect_cycle-IsRanking :
      detect_cycle index nodes ≡ none → IsRanking nodes (wave_number (singles drained.0))
  unfolding detect_cycle
  detect_cycle-IsRanking h i j d =
      let (indegree, inv, _, ordered) = drained_ends in
      let (n, _, e, _, _) = d in
      Ordered-wave_number (Needs edges) [] (singles drained.0) ordered i j
        (DependsOn-edge nodes ix known i j d) refl
        (rw flatten-singles (
          ground (
            arith,
            all_of_length (length nodes) drained.0 (λ j. ground (arith, inv.placed j))
                (λ j p. ground (arith, inv.placed j)) (ground arith) j (get_elem?-lt nodes j e),
          )))

module _ {S : Type 0} (nodes : List (Node S)) where
  fail_on-none : (e : Option FlowError) {b : Unit {0}} → fail_on e ≡ ok b → e ≡ none
  fail_on-none none h = refl
  fail_on-none (some x) h = cc

  -- What stands behind a table that `validate` returns.
  record Passed (index : Table String ℕ) : Type 0 where
    root : Bool
    first : index_nodes 0 [] false nodes ≡ ok (index, root)
    start : root ≡ true
    second : check_all_deps index nodes ≡ none
    third : detect_cycle index nodes ≡ none

  validate-Passed : {index : Table String ℕ} → validate nodes ≡ ok index → Passed index
  unfolding validate
  validate-Passed {index} h =
      let ((ix, root), h1, e1) = chain_returns (index_nodes 0 [] false nodes) _ h in
      let (_, h2, e2) = chain_returns (fail_on (if root then none else some no_start)) _ h1 in
      let (_, h3, e3) = chain_returns (fail_on (check_all_deps ix nodes)) _ h2 in
      let (_, h4, e4) = chain_returns (fail_on (detect_cycle ix nodes)) _ h3 in
      let same : ix ≡ index = ground arith in
      record {
        root = root;
        first = e1 ∙ ap (λ k. ok (k, root)) same;
        start = ground (arith, fail_on-none (if root then none else some no_start) e2);
        second =
            subst (λ k. check_all_deps k nodes ≡ none) same
              (fail_on-none (check_all_deps ix nodes) e3);
        third =
            subst (λ k. detect_cycle k nodes ≡ none) same (fail_on-none (detect_cycle ix nodes) e4);
      }

  pub record IsIndexed (index : Table String ℕ) : Type 0 where
    pub table : IsIndex (names nodes) index
    pub known : AllNodes (λ n. (d : String) → mem d n.deps ≡ true → IsKnown index n.name d) nodes
    pub well_formed : IsWellFormed nodes

  pub validate-IsIndexed : {index : Table String ℕ} → validate nodes ≡ ok index → IsIndexed index
  validate-IsIndexed {index} h =
      let p = validate-Passed h in
      let (checked, fresh, same) = index_nodes-positions 0 [] false nodes p.first in
      let table =
        subst (IsIndex (names nodes)) {y = index} (ground arith)
          (positions-IsIndex (names nodes) fresh) in
      let known = check_all_deps-none index nodes p.second in
      record {
        table = table;
        known = known;
        well_formed = record {
          checked = λ i n e. AllNodes-at IsChecked nodes i checked e;
          distinct = IsIndex-Distinct table;
          rooted = ground (arith, p.start);
          known = λ j n d e m. elim (Option-cases (lookup d index)) [
            | inl missing ↦ absurd (ground (arith, (AllNodes-at _ nodes j known e d m).1))
            | inr (i, found) ↦ (i, table.sound d i found)
          ];
          rank = wave_number (singles (drained nodes table known).0);
          ranked = detect_cycle-IsRanking nodes table known p.third;
        };
      }

  validate_accepts : IsWellFormed nodes → (index : Table String ℕ) × (validate nodes ≡ ok index)
  unfolding validate
  validate_accepts w =
      let fresh = AllFresh-of_Distinct 0 [] (names nodes) (λ j k h. refl) w.distinct in
      let index = positions 0 [] (names nodes) in
      let first =
        index_nodes_returns 0 [] false nodes (AllNodes-all IsChecked nodes w.checked) fresh in
      let table = positions-IsIndex (names nodes) fresh in
      let known = AllNodes-all _ nodes (λ j n e d m.
        let (i, at) = w.known j n d e m in
        (
          λ self. absurd (omega (arith, w.ranked j j (n, n, e, e, rw self at m))),
          ground (arith, table.found i d at),
        )) in
      let second = check_all_deps_passes index nodes known in
      let third = detect_cycle-none_of_ranking nodes table known w.rank w.ranked in
      (index, rw (first, w.rooted, second, third))

-- `validate` accepts a flow exactly if it is well formed.
pub validate_decides :
    {S : Type 0} (nodes : List (Node S))
    → ((index : Table String ℕ) × (validate nodes ≡ ok index)) ↔ IsWellFormed nodes
validate_decides nodes =
    (λ (index, e). (validate-IsIndexed nodes e).well_formed, validate_accepts nodes)
