-- ===== src/Flow/Exec/Tests.antt =====
-- Runs of a small flow: a router that chooses one of two listeners.
use crewai_go.Base.{
  ℕ, Bool, map, ◌+◌, ◌≡◌, ◌↔◌, ◌⊎◌, refl, inr, false, true, List, [], ◌∷◌, Option, none, some,
  String, range, length, arith,
}
use crewai_go.Base.Result.{Result, ok, err}
use crewai_go.Base.Table.{Table}
use crewai_go.Flow.{
  listen, Node, Flow, Ending, returned, new_flow, add_start, add_listen, add_router, FlowError, mem,
  index_of, validate,
}
use crewai_go.Flow.WellFormed.{IsWellFormed}
use crewai_go.Flow.Valid.{validate_decides}
use crewai_go.Flow.Ready.{is_pending, skipped}
use crewai_go.Flow.Wave.{Event}
use crewai_go.Flow.Judge.{Run}
use crewai_go.Flow.Exec.{Env, FlowResult, run_all, run_flow}
use crewai_go.Flow.Exec.Fold.{has_run}
use crewai_go.Flow.Exec.Reasons.{LetsRun, Blocks, run_all_justifies}
use crewai_go.Flow.Exec.Progress.{run_all-settles}
use crewai_go.Flow.Exec.Rejects.{run_flow_rejects}
use crewai_go.Flow.Exec.Traces.{IsTraced, run_all_traces}

abbrev add : ℕ → ℕ → ℕ × Ending
add k n = (n + k, returned none [])

abbrev routed : Flow ℕ
routed =
    add_listen
      (add_listen
        (add_router (add_start (new_flow ℕ) "a" (some (add 1))) "r"
          (some (λ n. (n + 10, returned none ("x" ∷ [])))) ("a" ∷ []))
        "x" (some (add 100)) ("r" ∷ []))
      "y" (some (add 1000)) ("r" ∷ [])

abbrev calm : Env
calm = record { ctx_done = λ _. false; order = λ _ ready. range (length ready) }

-- What a run leaves: the state, and the traces as (name, skipped).
abbrev summary :
    Result FlowError (FlowResult ℕ × Option FlowError × List Event) → ℕ × List (String × Bool)
summary (err e) = (0, [])
summary (ok (r, e, evs)) = (r.state, map (λ t. (t.name, t.skip)) r.steps)

run_flow-routed :
    summary (run_flow calm routed 0)
    ≡ (111, ("a", false) ∷ ("r", false) ∷ ("x", false) ∷ ("y", true) ∷ [])
unfolding run_flow add_start add_listen add_router
run_flow-routed = refl

abbrev routed_index : Table String ℕ
routed_index = ("y", 3) ∷ ("x", 2) ∷ ("r", 1) ∷ ("a", 0) ∷ []

validate-routed : validate routed.nodes ≡ ok routed_index
unfolding validate add_start add_listen add_router
validate-routed = refl

abbrev final : Run ℕ
final = (run_all calm routed routed_index 0).0

abbrev step_x : Node ℕ
step_x = record { name = "x"; kind = listen; start = false; deps = "r" ∷ []; body = some (add 100) }

validate_decides_example :
    ((index : Table String ℕ) × (validate routed.nodes ≡ ok index)) ↔ IsWellFormed routed.nodes
validate_decides_example = validate_decides routed.nodes

run_all_justifies_example :
    (has_run (final.status 2) ≡ true
      → (c : String) → mem c ("r" ∷ []) ≡ true
      → LetsRun routed.nodes final "x" (index_of routed_index c))
    × (final.status 2 ≡ skipped
        → (c : String) × (mem c ("r" ∷ []) ≡ true)
          × Blocks routed.nodes final "x" (index_of routed_index c))
unfolding add_start add_listen add_router
run_all_justifies_example = run_all_justifies calm routed routed_index 0 2 step_x refl

run_all-settles_example : is_pending (final.status 3) ≡ false
unfolding add_start add_listen add_router run_all
run_all-settles_example =
    run_all-settles calm routed 0 validate-routed (λ k. refl) (inr refl) 3 (omega arith)

run_all_traces_example : IsTraced routed.nodes final
run_all_traces_example = run_all_traces calm routed 0 validate-routed

run_flow_rejects_example :
    ((e : FlowError) × (run_flow calm (new_flow ℕ) 0 ≡ err e))
    ↔ (((new_flow ℕ).locked ≡ true) ⊎ ¬ (IsWellFormed (new_flow ℕ).nodes))
run_flow_rejects_example = run_flow_rejects calm (new_flow ℕ) 0
