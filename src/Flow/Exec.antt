-- ===== src/Flow/Exec.antt =====
-- flow.go: `Run`. A round finds the steps whose dependencies are finished, runs them, and folds
-- their outcomes in the order of registration. `order` says in which order the steps of a wave take
-- effect.
pub mod Collect
pub mod Fold
pub mod Settled
pub mod Reasons
pub mod Progress
pub mod Traces
pub mod Rejects
mod Tests
use crewai_go.Base.{
  ℕ, zero, suc, ◌+◌, ◌==◌, leb, if◌then◌else◌, Bool, true, false, not, ◌&&◌, ◌||◌, Option, none,
  some, List, [], ◌∷◌, ◌++◌, length, ltb, String, str_eq, update, get_elem?,
}
use crewai_go.Base.Table.{Table, lookup, insert, string_key, nat_key}
use crewai_go.Base.Count.{count}
use crewai_go.Base.Result.{Result, ok, err, ◌>>=◌}
use crewai_go.Flow.{
  Kind, listen, router, FlowError, running, cancelled, user, panicked, not_listener, unknown_route,
  step_failed, Ending, returned, panics, Node, Flow, is_empty, is_nil, index_of, validate, mem,
}
use crewai_go.Flow.Ready.{
  Status, is_pending, is_router, selects, DepsState, deps_loop, deps_state, collect_from,
  collect_ready, pending, done, failed, skipped,
}
use crewai_go.Flow.Wave.{
  Event, StepOut, zero_out, out_of, run_step, run_slots, flow_started, step_started, step_completed,
  flow_completed,
}
use crewai_go.Flow.Judge.{
  Trace, Run, slots_from, slot_of, insert_sorted, sort_ints, Verdict, check_route, judge,
  verdict_status, verdict_error, verdict_selected, record_error, or_else, wave_error, fold_skipped,
  fold_verdict, fold_wave, mark_skipped, passes, selects_names, fails, bad_route,
}

-- The world of a run: whether ctx is done at the k-th barrier, and the order in which the slots of
-- the k-th wave take effect.
pub record Env : Type 0 where
  pub ctx_done : ℕ → Bool
  pub order : ℕ → List ℕ → List ℕ

module _ {S : Type 0} (env : Env) (f : Flow S) where
  -- runWave of the k-th round: the goroutines' effects on the state, and the slots.
  pub run_wave : ℕ → List ℕ → S → List Event → S × (ℕ → StepOut) × List Event
  unfolding run_slots
  run_wave k ready state events =
      run_slots f.nodes ready (env.order k ready) state (λ _. zero_out) events

  -- `if len(ready) > 0 { out = f.runWave(...) }`.
  pub wave_results : ℕ → List ℕ → S → List Event → S × (ℕ → StepOut) × List Event
  unfolding run_wave
  wave_results k ready state events =
      if is_empty ready then (state, (λ _. zero_out), events) else run_wave k ready state events

  -- The run with the skipped steps marked and the effects of the wave.
  pub before_fold : ℕ → List ℕ → List ℕ → Run S → Run S
  unfolding wave_results mark_skipped
  before_fold k ready skip r =
      let (state, out, events) = wave_results k ready r.state r.events in
      record r { state = state; status = mark_skipped skip r.status; events = events }

module _ {S : Type 0} (env : Env) (f : Flow S) (index : Table String ℕ) where
  -- The body of the loop after its two breaks.
  pub flow_round : ℕ → List ℕ → List ℕ → Run S → Run S × Option FlowError
  unfolding before_fold fold_wave
  flow_round k ready skip r =
      fold_wave f.nodes index ready skip (wave_results env f k ready r.state r.events).1
        (sort_ints (skip ++ ready)) (before_fold env f k ready skip r) none

  -- The loop of `Run` on fuel, with the number of the barrier and runErr.
  pub flow_loop : ℕ → ℕ → Run S → Option FlowError → Run S × Option FlowError
  unfolding flow_round collect_ready
  flow_loop zero k r run_err = (r, run_err)
  flow_loop (suc fuel) k r run_err = elim (env.ctx_done k) [
    | true ↦ (r, some cancelled)
    | false ↦
        let (ready, skip) = collect_ready f.nodes index r.status r.selected in
        elim (is_empty ready && is_empty skip) [
          | true ↦ (r, run_err)
          | false ↦
              let (r', wave_err) = flow_round k ready skip r in
              elim (not (is_nil wave_err) && not f.continue_on_error) [
                | true ↦ (r', wave_err)
                | false ↦ flow_loop fuel (suc k) r' (or_else run_err wave_err)
              ]
        ]
  ]

  abbrev pub initial_run : S → Run S
  initial_run initial = record {
    state = initial;
    status = λ _. pending;
    selected = λ _. none;
    traces = [];
    errors = [];
    events = flow_started ∷ [];
  }

  -- Every round settles a step, so one round more than there are steps is enough.
  pub run_all : S → Run S × Option FlowError
  unfolding flow_loop
  run_all initial = flow_loop (suc (length f.nodes)) 0 (initial_run initial) none

-- FlowResult.
pub record FlowResult (S : Type 0) : Type 0 where
  pub state : S
  pub steps : List Trace
  pub errors : Table String FlowError

-- `Run`: an error and no result, or a result with the error that goes with it, and the events.
pub run_flow :
    {S : Type 0}
    → Env
    → Flow S
    → S
    → Result FlowError (FlowResult S × Option FlowError × List Event)
unfolding validate run_all
run_flow env f initial =
    if f.locked
    then err running
    else (validate f.nodes >>= λ index.
        let (r, run_err) = run_all env f index initial in
        let shown = if f.continue_on_error then none else run_err in
        ok (
          record { state = r.state; steps = r.traces; errors = r.errors },
          shown,
          r.events ++ flow_completed shown ∷ [],
        ))
