-- ===== src/Flow/Wave.antt =====
-- flow.go: a wave of steps. They run in goroutines over one state; each is one action on the state
-- here, in the order in which they take effect (the callers own its synchronisation).
use crewai_go.Base.{ℕ, Option, none, some, List, [], ◌∷◌, ◌++◌, String, update, get_elem?}
use crewai_go.Base.Table.{string_key, nat_key}
use crewai_go.Flow.{Kind, listen, router, FlowError, panicked, Ending, returned, panics, Node}

pub data Event : Type 0 where
  flow_started : Event
  step_started : String → Event
  step_completed : String → Option FlowError → Event
  flow_completed : Option FlowError → Event

-- The outcome of one step: flowStepOut, whose route stays nil after a panic.
pub record StepOut : Type 0 where
  pub error : Option FlowError
  pub route : List String

abbrev pub zero_out : StepOut
zero_out = record { error = none; route = [] }

abbrev pub out_of : Kind → Ending → StepOut
out_of router (returned e route) = record { error = e; route = route }
out_of listen (returned e route) = record { error = e; route = [] }
out_of kind (panics v) = record { error = some (panicked v); route = [] }

module _ {S : Type 0} where
  -- The goroutine of slot k: the step at position `i = ready[k]`.
  pub run_step : S → Node S → S × StepOut
  run_step state n = elim n.body [
    | none ↦ (state, record { error = some (panicked "nil function"); route = [] })
    | some f ↦ let (state', e) = f state in (state', out_of n.kind e)
  ]

module _ {S : Type 0} (nodes : List (Node S)) where
  -- The slots in the order in which the goroutines take effect.
  unfoldable pub run_slots :
      List ℕ → List ℕ → S → (ℕ → StepOut) → List Event → S × (ℕ → StepOut) × List Event
  unfolding run_step
  run_slots ready [] state out events = (state, out, events)
  run_slots ready (k ∷ ks) state out events = elim (get_elem? ready k) [
    | none ↦ run_slots ready ks state out events
    | some i ↦ elim (get_elem? nodes i) [
      | none ↦ run_slots ready ks state out events
      | some n ↦
          let (state', o) = run_step state n in
          run_slots ready ks state' (update out k o) (events ++ step_started n.name ∷ [])
    ]
  ]
