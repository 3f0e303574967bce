-- ===== src/Flow.antt =====
-- flow.go: the event-driven runner. This file has the steps, their registration and `validate`;
-- `Exec` is the run, with a round's parts in `Ready`, `Wave` and `Judge`. `Index`, `Cycle`, `WellFormed` and `Valid` are about `validate`.
-- Durations are not modelled, and an error stands in a trace before its text is redacted.
pub mod Ready
pub mod Wave
pub mod Judge
pub mod Exec
pub mod Index
pub mod Cycle
pub mod WellFormed
pub mod Valid
use crewai_go.Base.{
  ℕ, zero, suc, ◌+◌, ◌==◌, if◌then◌else◌, Bool, true, false, not, ◌&&◌, ◌||◌, Option, none, some,
  List, [], ◌∷◌, ◌++◌, length, range, String, str_eq,
}
use crewai_go.Base.Table.{Table, lookup, insert, string_key}
use crewai_go.Base.Result.{Result, ok, err, ◌>>=◌}
use crewai_go.Kahn.{Graph, no_edges, add_edge, Counters, release_all, sources}

pub data Kind : Type 0 where
  listen router : Kind

-- The errors that flow.go makes or passes on; `user` is a step's own.
pub data FlowError : Type 0 where
  running empty_name no_start cycle cancelled : FlowError
  duplicate_step start_deps nil_function self_dep user panicked : String → FlowError
  unknown_dep not_listener : String → String → FlowError
  unknown_route : String → FlowError
  step_failed : String → FlowError → FlowError

-- How a step's function ends: it returns an error or none, with the route of a router, or panics.
pub data Ending : Type 0 where
  returned : Option FlowError → List String → Ending
  panics : String → Ending

-- A step over the state S. One field holds `listen` or `router`, as `kind` says; `none` is nil.
pub record Node (S : Type 0) : Type 0 where
  pub name : String
  pub deps : List String
  pub start : Bool
  pub kind : Kind
  pub body : Option (S → S × Ending)

pub record Flow (S : Type 0) : Type 0 where
  pub nodes : List (Node S)
  pub continue_on_error : Bool
  pub locked : Bool

module _ {S : Type 0} where
  abbrev pub add_node : Flow S → Node S → Flow S
  add_node f node = record f { nodes = f.nodes ++ node ∷ [] }

  pub add_start : Flow S → String → Option (S → S × Ending) → Flow S
  add_start f name fn =
      add_node f (record { name = name; deps = []; start = true; kind = listen; body = fn })

  pub add_listen : Flow S → String → Option (S → S × Ending) → List String → Flow S
  add_listen f name fn deps =
      add_node f (record { name = name; deps = deps; start = false; kind = listen; body = fn })

  pub add_router : Flow S → String → Option (S → S × Ending) → List String → Flow S
  add_router f name fn deps =
      add_node f (record { name = name; deps = deps; start = false; kind = router; body = fn })

  pub with_continue_on_error : Flow S → Flow S
  with_continue_on_error f = record f { continue_on_error = true }

abbrev pub is_empty {ℓ} : {A : Type ℓ} → List A → Bool
is_empty [] = true
is_empty (x ∷ xs) = false

abbrev pub is_nil {ℓ} : {A : Type ℓ} → Option A → Bool
is_nil none = true
is_nil (some x) = false

abbrev pub new_flow : (S : Type 0) → Flow S
new_flow S = record { nodes = []; continue_on_error = false; locked = false }

-- Whether a name stands in a list of names.
abbrev pub mem : String → List String → Bool
mem x [] = false
mem x (y ∷ ys) = str_eq y x || mem x ys

-- A Go map read: the zero value where the key is missing.
abbrev pub index_of : Table String ℕ → String → ℕ
index_of index d = elim (lookup d index) [ none ↦ 0 | some j ↦ j ]

-- The second loop, for the dependencies of one step. Its set `seen` has no effect.
pub check_deps : Table String ℕ → String → List String → Option FlowError
check_deps index name [] = none
check_deps index name (d ∷ ds) =
    if str_eq d name
    then some (self_dep name)
    else if is_nil (lookup d index)
    then some (unknown_dep name d)
    else check_deps index name ds

-- `for _, d := range node.deps` of detectCycle, for the step at position i.
pub link_deps : Table String ℕ → ℕ → Graph → List String → Graph
unfolding add_edge
link_deps index i g [] = g
link_deps index i g (d ∷ ds) = link_deps index i (add_edge g (index_of index d) i) ds

module _ {S : Type 0} where
  -- The checks of one step in the first loop of `validate`, in the order of the source.
  pub check_node : Table String ℕ → Node S → Option FlowError
  check_node index n =
      if str_eq n.name ""
      then some empty_name
      else if not (is_nil (lookup n.name index))
      then some (duplicate_step n.name)
      else if n.start && not (is_empty n.deps)
      then some (start_deps n.name)
      else if is_nil n.body
      then some (nil_function n.name)
      else none

  -- The first loop: the table of positions, and whether a step has no dependency.
  pub index_nodes :
      ℕ → Table String ℕ → Bool → List (Node S) → Result FlowError (Table String ℕ × Bool)
  unfolding check_node
  index_nodes i index has_start [] = ok (index, has_start)
  index_nodes i index has_start (n ∷ ns) = elim (check_node index n) [
    | some e ↦ err e
    | none ↦ index_nodes (suc i) (insert n.name i index) (has_start || is_empty n.deps) ns
  ]

  pub check_all_deps : Table String ℕ → List (Node S) → Option FlowError
  unfolding check_deps
  check_all_deps index [] = none
  check_all_deps index (n ∷ ns) = elim (check_deps index n.name n.deps) [
    | some e ↦ some e
    | none ↦ check_all_deps index ns
  ]

  pub link_nodes : Table String ℕ → ℕ → Graph → List (Node S) → Graph
  unfolding link_deps
  link_nodes index i g [] = g
  link_nodes index i g (n ∷ ns) = link_nodes index (suc i) (link_deps index i g n.deps) ns

-- `for len(ready) > 0`, on fuel: the nodes in the order in which they are taken, which `seen`
-- counts, and what is left of `ready`.
pub drain : ℕ → (ℕ → List ℕ) → Counters → List ℕ → List ℕ × List ℕ
unfolding release_all
drain zero adjacent (indegree, ready) seen = (seen, ready)
drain (suc fuel) adjacent (indegree, []) seen = (seen, [])
drain (suc fuel) adjacent (indegree, i ∷ rest) seen =
    drain fuel adjacent (release_all (indegree, rest) (adjacent i)) (seen ++ i ∷ [])

-- Each round takes a step off the queue, and none comes back, so `n` rounds are enough.
pub drain_graph : ℕ → Graph → List ℕ × List ℕ
unfolding drain sources
drain_graph n g = drain n g.adjacent (g.indegree, sources g.indegree (range n)) []

abbrev pub fail_on : Option FlowError → Result FlowError (Unit {0})
fail_on none = ok tt
fail_on (some e) = err e

module _ {S : Type 0} where
  pub detect_cycle : Table String ℕ → List (Node S) → Option FlowError
  unfolding link_nodes drain_graph
  detect_cycle index nodes =
      let n = length nodes in
      let seen = (drain_graph n (link_nodes index 0 no_edges nodes)).0 in
      if length seen == n then none else some cycle

  pub validate : List (Node S) → Result FlowError (Table String ℕ)
  unfolding index_nodes check_all_deps detect_cycle
  validate nodes = do
    (index, has_start) ← index_nodes 0 [] false nodes
    _ ← fail_on (if has_start then none else some no_start)
    _ ← fail_on (check_all_deps index nodes)
    _ ← fail_on (detect_cycle index nodes)
    ok index
