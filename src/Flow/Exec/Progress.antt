-- ===== src/Flow/Exec/Progress.antt =====
-- The loop of `Run` ends with every step settled: each round settles one, and none is left behind.
use crewai_go.Base.{
  ℕ, zero, suc, ◌+◌, ◌<◌, ◌≡◌, refl, ◌⊎◌, inl, inr, Bool, true, false, not, ◌&&◌, Option, none,
  some, List, [], ◌∷◌, String, str_eq_refl, get_elem?-some, get_elem?, get_elem?-lt,
  get_elem?_of_map, arith, if◌then◌else◌, Option-cases, Bool-cases, length,
}
use crewai_go.Base.Table.{Table, lookup, string_key}
use crewai_go.Base.Count.{count, sum_below, sum_below-lt, sum_below_le}
use crewai_go.Base.Result.{ok}
use crewai_go.Flow.{Node, Flow, FlowError, mem, index_of, is_nil, is_empty, validate}
use crewai_go.Flow.Index.{AllNodes-at}
use crewai_go.Flow.WellFormed.{DependsOn, IsRanking}
use crewai_go.Flow.Valid.{IsIndexed, validate-IsIndexed}
use crewai_go.Flow.Ready.{
  Status, is_pending, skipped, is_router, selects, deps_loop, deps_state, collect_ready,
}
use crewai_go.Flow.Judge.{Run, or_else}
use crewai_go.Flow.Exec.{Env, flow_loop, run_all, initial_run}
use crewai_go.Flow.Exec.Collect.{collect_ready-count}
use crewai_go.Flow.Exec.Fold.{has_run}
use crewai_go.Flow.Exec.Settled.{round_of, round_of-keeps, round_of-pending}

module _ {S : Type 0} (nodes : List (Node S)) (index : Table String ℕ) (r : Run S) where
  deps_loop-passes :
      (name d : String) (ds : List String) (all_ok gated : Bool)
      → is_pending (r.status (index_of index d)) ≡ false
      → let rest = deps_loop nodes index r.status r.selected name ds in
        let whole = deps_loop nodes index r.status r.selected name (d ∷ ds) all_ok gated in
        let j = index_of index d in
        (whole ≡ rest false gated)
        ⊎ (whole
            ≡ rest all_ok (gated && not (is_router nodes j && not (selects (r.selected j) name))))
  unfolding deps_loop
  deps_loop-passes name d ds all_ok gated h = ground arith

  -- A step that must wait has a dependency that is pending.
  deps_loop-waits :
      (name : String) (ds : List String) (all_ok gated : Bool)
      → (deps_loop nodes index r.status r.selected name ds all_ok gated).finished ≡ false
      → (d : String) × (mem d ds ≡ true) × (is_pending (r.status (index_of index d)) ≡ true)
  unfolding deps_loop
  deps_loop-waits name [] all_ok gated h = absurd (cc)
  deps_loop-waits name (d ∷ ds) all_ok gated h =
      let j = index_of index d in
      elim (Bool-cases (is_pending (r.status j))) [
        | inl waits ↦ (d, rw (str_eq_refl d), waits)
        | inr over ↦ elim (deps_loop-passes name d ds all_ok gated over) [
          | inl e ↦
              let (c, m, w) = deps_loop-waits name ds false gated (rw e at h) in
              (c, rw m (ground arith), w)
          | inr e ↦
              let (c, m, w) = deps_loop-waits name ds all_ok _ (rw e at h) in
              (c, rw m (ground arith), w)
        ]
      ]

has_run-settles : (s : Status) → has_run s ≡ true → is_pending s ≡ false
has_run-settles Status.pending h = absurd (cc)
has_run-settles Status.done h = refl
has_run-settles Status.failed h = refl
has_run-settles skipped h = refl

-- A dependency that the flow knows is the step to which its table sends the name.
known_dep :
    {S : Type 0} {nodes : List (Node S)} {index : Table String ℕ}
    → IsIndexed nodes index
    → (i : ℕ) (n : Node S) → get_elem? nodes i ≡ some n
    → (d : String) → mem d n.deps ≡ true
    → DependsOn nodes i (index_of index d) × (index_of index d < length nodes)
known_dep {nodes = nodes} {index} ix i n e d m =
    let (fresh, there) = AllNodes-at _ nodes i ix.known e d m in
    elim (Option-cases (lookup d index)) [
      | inl missing ↦ absurd (ground arith)
      | inr (j, found) ↦
          let (u, e', same) = get_elem?_of_map (λ v. v.name) nodes j (ix.table.sound d j found) in
          let at : index_of index d ≡ j = ground arith in
          rw at ((n, u, e, e', rw same m), get_elem?-lt nodes j e')
    ]

module _ {S : Type 0} (env : Env) (f : Flow S) (index : Table String ℕ) where
  -- How many steps are pending.
  waiting : Run S → ℕ
  waiting r = sum_below (length f.nodes) (λ j. if is_pending (r.status j) then 1 else 0)

  found : Run S → List ℕ × List ℕ
  found r = collect_ready f.nodes index r.status r.selected

  -- What a round finds was pending, and is settled by it.
  found-settles :
      (k : ℕ) (r : Run S) (i : ℕ)
      → 0
        < count i (collect_ready f.nodes index r.status r.selected).0
          + count i (collect_ready f.nodes index r.status r.selected).1
      → (i < length f.nodes)
        × (is_pending (r.status i) ≡ true)
        × (is_pending ((round_of env f index k r).0.status i) ≡ false)
  found-settles k r i h = elim (Option-cases (get_elem? f.nodes i)) [
    | inl e ↦
        absurd (omega (arith, rw e at (collect_ready-count f.nodes index r.status r.selected i)))
    | inr (n, e) ↦
        let counts = rw e at (collect_ready-count f.nodes index r.status r.selected i) in
        let waits : is_pending (r.status i) ≡ true = ground arith in
        (
          get_elem?-lt f.nodes i e,
          waits,
          elim (round_of-pending env f index k r i n e waits) [
            | inl (good, ran) ↦ has_run-settles _ ran
            | inr (inl (fin, bad, left)) ↦ rw left refl
            | inr (inr (fin, still)) ↦ absurd (ground arith)
          ],
        )
  ]

  round_of-waiting :
      (k : ℕ) (r : Run S) (i : ℕ)
      → 0
        < count i (collect_ready f.nodes index r.status r.selected).0
          + count i (collect_ready f.nodes index r.status r.selected).1
      → waiting (round_of env f index k r).0 < waiting r
  unfolding waiting
  round_of-waiting k r i h =
      let (p, before, after) = found-settles k r i h in
      sum_below-lt (length f.nodes) _ _ (λ j. ground (arith, round_of-keeps env f index k r j)) i p
        (rw (before, after) (omega arith))

  -- Where a round finds nothing, every step has been settled: a pending one would have a pending
  -- dependency of a lower rank, and so on.
  nothing_waits :
      IsIndexed f.nodes index
      → (r : Run S)
      → ((i : ℕ)
          → (count i (collect_ready f.nodes index r.status r.selected).0 ≡ 0)
            × (count i (collect_ready f.nodes index r.status r.selected).1 ≡ 0))
      → (rank : ℕ → ℕ) → IsRanking f.nodes rank
      → (bound i : ℕ) → rank i < bound
      → i < length f.nodes
      → is_pending (r.status i) ≡ false
  unfolding deps_state
  nothing_waits ix r quiet rank ranked zero i h p = absurd (omega arith)
  nothing_waits ix r quiet rank ranked (suc bound) i h p =
      let (n, e) = get_elem?-some f.nodes i p in
      let counts = rw e at (collect_ready-count f.nodes index r.status r.selected i) in
      elim (Bool-cases (is_pending (r.status i))) [
        | inr over ↦ over
        | inl waits ↦
            let (d, m, still) =
              deps_loop-waits f.nodes index r n.name n.deps true true (ground (arith, quiet i)) in
            let (needs, below) = known_dep ix i n e d m in
            absurd (
              cc (
                nothing_waits ix r quiet rank ranked bound (index_of index d)
                  (omega (arith, ranked (index_of index d) i needs)) below))
      ]

  empty-quiet : (xs : List ℕ) → is_empty xs ≡ true → (i : ℕ) → count i xs ≡ 0
  empty-quiet [] h i = refl
  empty-quiet (x ∷ xs) h i = absurd (cc)

  nonempty-some : (xs : List ℕ) → is_empty xs ≡ false → (i : ℕ) × (0 < count i xs)
  nonempty-some [] h = absurd (cc)
  nonempty-some (x ∷ xs) h = (x, ground arith)

  some-found :
      (xs ys : List ℕ)
      → (is_empty xs && is_empty ys) ≡ false
      → (i : ℕ) × (0 < count i xs + count i ys)
  some-found xs ys h = elim (Bool-cases (is_empty xs)) [
    | inl e ↦ let (i, p) = nonempty-some ys (ground arith) in (i, omega (arith, p))
    | inr e ↦ let (i, p) = nonempty-some xs e in (i, omega (arith, p))
  ]

  AllSettled : Run S → Type 0
  AllSettled r = (i : ℕ) → i < length f.nodes → is_pending (r.status i) ≡ false

  -- With fuel for every pending step, the loop ends with none pending, or with an error.
  flow_loop-settles :
      IsIndexed f.nodes index
      → ((k : ℕ) → env.ctx_done k ≡ false)
      → (fuel k : ℕ) (r : Run S) (e : Option FlowError) → waiting r < fuel
      → (f.continue_on_error ≡ true) ⊎ ((flow_loop env f index fuel k r e).1 ≡ none)
      → AllSettled (flow_loop env f index fuel k r e).0
  unfolding flow_loop AllSettled
  flow_loop-settles ix live zero k r e p ends = absurd (omega arith)
  flow_loop-settles ix live (suc fuel) k r e p ends =
      let (ready, skip) = collect_ready f.nodes index r.status r.selected in
      let (r', wave) = round_of env f index k r in
      let c = live k in
      elim (Bool-cases (is_empty ready && is_empty skip)) [
        | inl b ↦
            rw (c, b, flow_loop)
              (λ i.
                nothing_waits ix r
                  (λ j. (empty-quiet ready (ground arith) j, empty-quiet skip (ground arith) j))
                  ix.well_formed.rank ix.well_formed.ranked (suc (ix.well_formed.rank i)) i
                  (omega arith))
        | inr b ↦
            let (i, q) = some-found ready skip b in
            let falls = round_of-waiting k r i q in
            elim (Bool-cases (not (is_nil wave) && not f.continue_on_error)) [
              | inl x ↦ absurd (ground (arith, rw (c, b, x, flow_loop) at ends))
              | inr x ↦
                  rw (c, b, x, flow_loop)
                    (flow_loop-settles ix live fuel (suc k) r' (or_else e wave) (omega arith)
                      (rw (c, b, x, flow_loop) at ends))
            ]
      ]

-- A run of an accepted flow whose context is never done, and that goes on after an error or has
-- none, ends with every step done, failed or skipped.
pub run_all-settles :
    {S : Type 0} (env : Env) (f : Flow S) {index : Table String ℕ} (initial : S)
    → validate f.nodes ≡ ok index
    → ((k : ℕ) → env.ctx_done k ≡ false)
    → (f.continue_on_error ≡ true) ⊎ ((run_all env f index initial).1 ≡ none)
    → (i : ℕ) → i < length f.nodes
    → is_pending ((run_all env f index initial).0.status i) ≡ false
unfolding run_all waiting AllSettled
run_all-settles env f {index} initial valid live ends =
    flow_loop-settles env f index (validate-IsIndexed f.nodes valid) live (suc (length f.nodes)) 0
      (initial_run env f index initial) none
      (omega (arith, sum_below_le (length f.nodes) (λ j. 1) (λ j. omega arith))) ends
