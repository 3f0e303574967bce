-- ===== src/Crew/Group/Results.antt =====
-- What the barrier of a group holds: whatever the order of the workers, a position's result is the
-- one that its task has at the start; and without a first error every task has succeeded.
use crewai_go.Base.{
  ℕ, ◌==◌, Bool, true, false, ◌&&◌, ◌||◌, Option, none, some, ◌≡◌, refl, inl, inr, Bool-cases,
  Option-cases, update, arith,
}
use crewai_go.Base.Table.{nat_key}
use crewai_go.Memory.Policy.{Policy}
use crewai_go.Crew.{Agent, Task, panicked, Crew, Host, State}
use crewai_go.Crew.Execute.{Outcome, finished, failed, crashed, execute}
use crewai_go.Crew.Group.{Group, GroupResult, no_result, Barrier, record_err, settle, run_worker}

-- The result that a worker leaves for an outcome.
pub result_of : Task → Agent → Outcome → GroupResult
result_of t a (finished out facts) = record {
  task = some t;
  agent = some a;
  out = out;
  facts = facts;
  error = none;
}
result_of t a (failed e) = record no_result { task = some t; agent = some a; error = some e }
result_of t a (crashed text) = record no_result { error = some (panicked text) }

module _ {F W : Type 0} where
  pub settle_results :
      (ff : Bool) (k : ℕ) (t : Task) (a : Agent) (r : State F W × Outcome) (b : Barrier F W)
      → ((settle ff k t a r b).results ≡ update b.results k (result_of t a r.1))
        × ((settle ff k t a r b).state ≡ r.0)
  unfolding settle record_err result_of
  settle_results ff k t a (s, finished out facts) b = (refl, refl)
  settle_results ff k t a (s, failed e) b = (refl, refl)
  settle_results ff k t a (s, crashed e) b = (refl, refl)

module _ {F W : Type 0} where
  pub settle_calm :
      (k : ℕ) (t : Task) (a : Agent) (r : State F W × Outcome) (b : Barrier F W)
      → b.stopped ≡ false
      → (settle false k t a r b).stopped ≡ false
  unfolding settle record_err
  settle_calm k t a (s, finished out facts) b h = h
  settle_calm k t a (s, failed e) b h = rw h refl
  settle_calm k t a (s, crashed e) b h = rw h refl

-- The member of a position has succeeded, as its result says.
pub record HasSucceeded (t : Task) (agent : Option Agent) (r : GroupResult) : Type 0 where
  pub by : Agent
  pub chosen : agent ≡ some by
  pub its_task : r.task ≡ some t
  pub its_agent : r.agent ≡ some by
  pub no_error : r.error ≡ none

module _ {F W : Type 0} where
  settle_first :
      (ff : Bool) (k : ℕ) (t : Task) (a : Agent) (r : State F W × Outcome) (b : Barrier F W)
      → (settle ff k t a r b).first ≡ none
      → (b.first ≡ none) × HasSucceeded t (some a) ((settle ff k t a r b).results k)
  unfolding settle record_err
  settle_first ff k t a (s, finished out facts) b h =
      let own : (k == k) ≡ true = ground arith in
      (
        h,
        rw own
            (record { by = a; chosen = refl; its_task = refl; its_agent = refl; no_error = refl }),
      )
  settle_first ff k t a (s, failed e) b h = elim (Option-cases b.first) [
    | inl x ↦ absurd (ground arith)
    | inr (y, x) ↦ absurd (ground arith)
  ]
  settle_first ff k t a (s, crashed e) b h = elim (Option-cases b.first) [
    | inl x ↦ absurd (ground arith)
    | inr (y, x) ↦ absurd (ground arith)
  ]

  settle_other :
      (ff : Bool) (k j : ℕ) (t : Task) (a : Agent) (r : State F W × Outcome) (b : Barrier F W)
      → (j == k) ≡ false
      → (settle ff k t a r b).results j ≡ b.results j
  unfolding settle record_err
  settle_other ff k j t a (s, finished out facts) b h = rw h refl
  settle_other ff k j t a (s, failed e) b h = rw h refl
  settle_other ff k j t a (s, crashed e) b h = rw h refl

module _ {F W : Type 0} (host : Host F W) (c : Crew) (p : Policy) (g : Group) where
  pub run_worker_first :
      (k : ℕ) (l : Bool) (t : Task) (a : Agent) (b : Barrier F W)
      → (run_worker host c p g k l t a b).first ≡ none
      → (b.first ≡ none) × HasSucceeded t (some a) ((run_worker host c p g k l t a b).results k)
  unfolding run_worker record_err
  run_worker_first k l t a b h =
      let stop = b.stopped || host.memory.ctx_done b.state.world in
      elim (Bool-cases (g.slotted && (l && stop))) [
        | inl e ↦ elim (Option-cases b.first) [
          | inl x ↦ absurd (ground arith)
          | inr (y, x) ↦ absurd (ground arith)
        ]
        | inr e ↦
            rw e (settle_first g.fail_fast k t a (execute host c p stop a t b.state) b (rw e at h))
      ]

  pub run_worker_other :
      (k j : ℕ) (l : Bool) (t : Task) (a : Agent) (b : Barrier F W)
      → (j == k) ≡ false
      → (run_worker host c p g k l t a b).results j ≡ b.results j
  unfolding run_worker record_err
  run_worker_other k j l t a b h =
      let stop = b.stopped || host.memory.ctx_done b.state.world in
      elim (Bool-cases (g.slotted && (l && stop))) [
        | inl e ↦ rw (e, h) refl
        | inr e ↦ rw e (settle_other g.fail_fast k j t a (execute host c p stop a t b.state) b h)
      ]
