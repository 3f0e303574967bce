-- ===== src/Flow/Ready.antt =====
-- flow.go: depsState and collectReady, which find the steps whose dependencies are finished.
use crewai_go.Base.{
  ℕ, suc, if◌then◌else◌, Bool, true, false, not, ◌&&◌, ◌||◌, Option, none, some, List, [], ◌∷◌,
  String, get_elem?,
}
use crewai_go.Base.Table.{Table, string_key, nat_key}
use crewai_go.Flow.{listen, router, Node, index_of, mem}

pub data Status : Type 0 where
  pending done failed skipped : Status

abbrev pub is_pending : Status → Bool
is_pending pending = true
is_pending done = false
is_pending failed = false
is_pending skipped = false

-- `f.nodes[j].kind == kindRouter`; the positions in the table are in range.
abbrev pub is_router : {S : Type 0} → List (Node S) → ℕ → Bool
is_router nodes j = elim (get_elem? nodes j) [
  | none ↦ false
  | some n ↦ elim n.kind [ router ↦ true | listen ↦ false ]
]

abbrev pub selects : Option (List String) → String → Bool
selects none name = false
selects (some names) name = mem name names

-- The results of depsState.
pub record DepsState : Type 0 where
  pub finished : Bool
  pub all_ok : Bool
  pub gated : Bool

module _ {S : Type 0} (nodes : List (Node S)) (index : Table String ℕ) where
  -- The loop of depsState, with its variables `ok` and `gated`.
  unfoldable pub deps_loop :
      (ℕ → Status) → (ℕ → Option (List String)) → String → List String → Bool → Bool → DepsState
  deps_loop status selected name [] all_ok gated = record {
    finished = true;
    all_ok = all_ok;
    gated = gated;
  }
  deps_loop status selected name (d ∷ ds) all_ok gated =
      let j = index_of index d in
      elim (status j) [
        | pending ↦ record { finished = false; all_ok = false; gated = false }
        | failed ↦ deps_loop status selected name ds false gated
        | skipped ↦ deps_loop status selected name ds false gated
        | done ↦
            deps_loop status selected name ds all_ok
              (gated && not (is_router nodes j && not (selects (selected j) name)))
      ]

  unfoldable pub deps_state : (ℕ → Status) → (ℕ → Option (List String)) → Node S → DepsState
  unfolding deps_loop
  deps_state status selected node = deps_loop status selected node.name node.deps true true

  -- collectReady, from position i on: the steps to run and the steps to skip.
  unfoldable pub collect_from :
      ℕ → List (Node S) → (ℕ → Status) → (ℕ → Option (List String)) → List ℕ × List ℕ
  unfolding deps_state
  collect_from i [] status selected = ([], [])
  collect_from i (n ∷ ns) status selected =
      let (ready, skip) = collect_from (suc i) ns status selected in
      let d = deps_state status selected n in
      if not (is_pending (status i))
      then (ready, skip)
      else if not d.finished
      then (ready, skip)
      else if not d.all_ok || not d.gated
      then (ready, i ∷ skip)
      else (i ∷ ready, skip)

  unfoldable pub collect_ready : (ℕ → Status) → (ℕ → Option (List String)) → List ℕ × List ℕ
  unfolding collect_from
  collect_ready = collect_from 0 nodes
