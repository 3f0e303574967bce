-- ===== src/Flow/Exec/Collect.antt =====
-- `collectReady` and `depsState`: which steps a round runs and which it skips.
use crewai_go.Base.{
  ℕ, zero, suc, ◌+◌, ◌<◌, ◌≡◌, refl, Bool, true, false, not, ◌&&◌, Option, none, some, List, [],
  ◌∷◌, String, get_elem?, arith, subst, if◌then◌else◌,
}
use crewai_go.Base.Table.{Table}
use crewai_go.Base.Count.{count}
use crewai_go.Flow.{Node, index_of}
use crewai_go.Flow.Ready.{
  Status, is_pending, is_router, selects, deps_loop, deps_state, collect_from, collect_ready,
}

module _ {S : Type 0} (nodes : List (Node S)) (index : Table String ℕ) where
  module _ (status : ℕ → Status) (selected : ℕ → Option (List String)) where
    -- The tests of `collectReady` on the step at position i.
    abbrev pub wants_run : ℕ → Option (Node S) → Bool
    wants_run i none = false
    wants_run i (some n) =
        let d = deps_state nodes index status selected n in
        is_pending (status i) && (d.finished && (d.all_ok && d.gated))

    abbrev pub wants_skip : ℕ → Option (Node S) → Bool
    wants_skip i none = false
    wants_skip i (some n) =
        let d = deps_state nodes index status selected n in
        is_pending (status i) && (d.finished && not (d.all_ok && d.gated))

    collect_from-before :
        (i : ℕ) (ns : List (Node S)) (j : ℕ)
        → j < i
        → let (ready, skip) = collect_from nodes index i ns status selected in
          (count j ready ≡ 0) × (count j skip ≡ 0)
    unfolding collect_from
    collect_from-before i [] j p = (refl, refl)
    collect_from-before i (n ∷ ns) j p = ground (arith, collect_from-before (suc i) ns j)

    collect_from-count :
        (i : ℕ) (ns : List (Node S)) (k : ℕ)
        → let (ready, skip) = collect_from nodes index i ns status selected in
          (count (i + k) ready ≡ (if wants_run (i + k) (get_elem? ns k) then 1 else 0))
          × (count (i + k) skip ≡ (if wants_skip (i + k) (get_elem? ns k) then 1 else 0))
    unfolding collect_from
    collect_from-count i [] k = (refl, refl)
    collect_from-count i (n ∷ ns) zero = ground (arith, collect_from-before (suc i) ns i)
    collect_from-count i (n ∷ ns) (suc k) = ground (arith, collect_from-count (suc i) ns k)

    pub collect_ready-count :
        (j : ℕ)
        → let (ready, skip) = collect_ready nodes index status selected in
          (count j ready ≡ (if wants_run j (get_elem? nodes j) then 1 else 0))
          × (count j skip ≡ (if wants_skip j (get_elem? nodes j) then 1 else 0))
    unfolding collect_ready
    collect_ready-count j =
        let e : 0 + j ≡ j = omega arith in
        subst
          (λ k.
            (count k (collect_from nodes index 0 nodes status selected).0
              ≡ (if wants_run k (get_elem? nodes j) then 1 else 0))
            × (count k (collect_from nodes index 0 nodes status selected).1
                ≡ (if wants_skip k (get_elem? nodes j) then 1 else 0)))
          e (collect_from-count 0 nodes j)

  -- A later round sees finished dependencies as they were.
  pub deps_loop-stable :
      (status status' : ℕ → Status) (selected selected' : ℕ → Option (List String))
      → ((j : ℕ)
          → is_pending (status j) ≡ false
          → (status' j ≡ status j) × (selected' j ≡ selected j))
      → (name : String) (ds : List String) (all_ok gated : Bool)
      → (deps_loop nodes index status selected name ds all_ok gated).finished ≡ true
      → deps_loop nodes index status' selected' name ds all_ok gated
        ≡ deps_loop nodes index status selected name ds all_ok gated
  unfolding deps_loop
  deps_loop-stable status status' selected selected' kept name [] all_ok gated h = refl
  deps_loop-stable status status' selected selected' kept name (d ∷ ds) all_ok gated h = ground (
    arith,
    kept (index_of index d),
    deps_loop-stable status status' selected selected' kept name ds false gated,
    deps_loop-stable status status' selected selected' kept name ds all_ok (
        gated
        && not (
            is_router nodes (index_of index d)
            && not (selects (selected (index_of index d)) name))),
  )
