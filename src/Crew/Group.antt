-- ===== src/Crew/Group.antt =====
-- runTaskGroup of crew.go: tasks that run together up to a barrier. The workers take effect one after
-- the other, in the order that the host gives; each sees whether the group is cancelled when its
-- turn comes. `Results` is about one worker, `Success` and `Alone` about the whole group.
pub mod Results
pub mod Success
pub mod Alone
mod Tests
use crewai_go.Base.{
  ℕ, if◌then◌else◌, Bool, true, false, ◌&&◌, ◌||◌, Option, none, some, List, [], ◌∷◌, length,
  update, get_elem?, String,
}
use crewai_go.Fact.{Fact}
use crewai_go.Memory.Policy.{Policy}
use crewai_go.Crew.{Agent, Task, Error, no_agent, cancelled, panicked, Crew, Host, State}
use crewai_go.Crew.Execute.{Outcome, finished, failed, crashed, execute}

-- groupRun. `slotted` is whether the group has a semaphore.
pub record Group : Type 0 where
  pub members : List (Task × Option Agent)
  pub slotted : Bool
  pub fail_fast : Bool

pub record GroupResult : Type 0 where
  pub task : Option Task
  pub agent : Option Agent
  pub out : String
  pub facts : List Fact
  pub error : Option Error

abbrev pub no_result : GroupResult
no_result = record { task = none; agent = none; out = ""; facts = []; error = none }

-- The variables that the workers share: results, firstErr with firstIdx, whether the context of the
-- group has been cancelled, and the state of the kickoff.
pub record Barrier (F W : Type 0) : Type 0 where
  pub results : ℕ → GroupResult
  pub first : Option (ℕ × Error)
  pub stopped : Bool
  pub state : State F W

module _ {F W : Type 0} where
  pub record_err : Bool → ℕ → Error → Barrier F W → Barrier F W
  record_err fail_fast k e b = record b {
    first = elim b.first [ none ↦ some (k, e) | some x ↦ some x ];
    stopped = b.stopped || fail_fast;
  }

  -- `results[ti] = r`.
  abbrev pub set_result : ℕ → GroupResult → Barrier F W → Barrier F W
  set_result k r b = record b { results = update b.results k r }

  -- How a worker leaves the result of execute.
  pub settle : Bool → ℕ → Task → Agent → State F W × Outcome → Barrier F W → Barrier F W
  unfolding record_err
  settle fail_fast k task agent (s, outcome) b =
      let b' : Barrier F W = record b { state = s } in
      elim outcome [
        | finished out facts ↦
            set_result k
              (record {
                task = some task;
                agent = some agent;
                out = out;
                facts = facts;
                error = none;
              })
              b'
        | failed e ↦ record_err fail_fast k e (
            set_result k
              (record {
                task = some task;
                agent = some agent;
                out = "";
                facts = [];
                error = some e;
              })
              b')
        | crashed text ↦
            record_err fail_fast k (panicked text)
              (set_result k (record no_result { error = some (panicked text) }) b')
      ]

module _ {F W : Type 0} (host : Host F W) (c : Crew) (p : Policy) (g : Group) where
  -- A worker with its agent; `lets_go` is its choice where the select has both cases ready.
  pub run_worker : ℕ → Bool → Task → Agent → Barrier F W → Barrier F W
  unfolding settle
  run_worker k lets_go task agent b =
      let stop = b.stopped || host.memory.ctx_done b.state.world in
      let gone : Barrier F W = record_err g.fail_fast k cancelled (
        set_result k
          (record no_result { task = some task; agent = some agent; error = some cancelled }) b) in
      if g.slotted && (lets_go && stop)
      then gone
      else settle g.fail_fast k task agent (execute host c p stop agent task b.state) b

  -- The turn of a member: an agent that is missing is an error at once.
  pub take_member : ℕ → Bool → Option (Task × Option Agent) → Barrier F W → Barrier F W
  unfolding run_worker
  take_member k lets_go none b = b
  take_member k lets_go (some (task, none)) b = record_err g.fail_fast k no_agent b
  take_member k lets_go (some (task, some a)) b = run_worker k lets_go task a b

  abbrev pub take_turn : ℕ × Bool → Barrier F W → Barrier F W
  take_turn (k, lets_go) b = take_member k lets_go (get_elem? g.members k) b

  pub take_turns : List (ℕ × Bool) → Barrier F W → Barrier F W
  unfolding take_member
  take_turns [] b = b
  take_turns (turn ∷ turns) b = take_turns turns (take_turn turn b)

  unfoldable pub run_task_group : State F W → Barrier F W
  unfolding take_turns
  run_task_group s =
      take_turns (host.order (length g.members) s.world)
        (record { results = λ k. no_result; first = none; stopped = false; state = s })
