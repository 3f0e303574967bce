-- ===== src/Flow/Exec/Settled.antt =====
-- What the statuses of a run promise at every barrier.
use crewai_go.Base.{
  ℕ, zero, suc, ◌≡◌, refl, ◌⊎◌, inl, inr, true, false, not, ◌&&◌, Option, none, some, List, String,
  get_elem?, arith, Bool-cases, length,
}
use crewai_go.Base.Table.{Table}
use crewai_go.Flow.{Node, Flow, FlowError, is_nil, is_empty}
use crewai_go.Flow.Ready.{
  Status, pending, done, failed, skipped, is_pending, DepsState, deps_state, collect_ready,
}
use crewai_go.Flow.Judge.{Run, or_else}
use crewai_go.Flow.Exec.{Env, flow_round, flow_loop, run_all, initial_run}
use crewai_go.Flow.Exec.Collect.{wants_run, wants_skip, collect_ready-count, deps_loop-stable}
use crewai_go.Flow.Exec.Fold.{has_run, flow_round-keeps, flow_round-skips, flow_round-runs}

-- A step that ran had all of its dependencies finished, none of them failed or skipped, and was
-- chosen by each router among them; a skipped one had them finished, and not so.
abbrev pub Justified : Status → DepsState → Type 0
Justified pending d = Unit {0}
Justified done d = (d.finished ≡ true) × ((d.all_ok && d.gated) ≡ true)
Justified failed d = (d.finished ≡ true) × ((d.all_ok && d.gated) ≡ true)
Justified skipped d = (d.finished ≡ true) × ((d.all_ok && d.gated) ≡ false)

Justified-waiting : (s : Status) (d : DepsState) → is_pending s ≡ true → Justified s d
Justified-waiting pending d h = tt
Justified-waiting done d h = absurd (cc)
Justified-waiting failed d h = absurd (cc)
Justified-waiting skipped d h = absurd (cc)

pub Justified-run :
    (s : Status) (d : DepsState)
    → has_run s ≡ true
    → (d.finished && (d.all_ok && d.gated)) ≡ true
    → Justified s d
Justified-run pending d h g = tt
Justified-run done d h g = ground arith
Justified-run failed d h g = ground arith
Justified-run skipped d h g = absurd (cc)

pub Justified-good :
    (s : Status) (d : DepsState) → has_run s ≡ true → Justified s d → (d.all_ok && d.gated) ≡ true
Justified-good pending d h j = absurd (cc)
Justified-good done d h j = j.1
Justified-good failed d h j = j.1
Justified-good skipped d h j = absurd (cc)

pub Status-cases : (s : Status) → (s ≡ pending) ⊎ (s ≡ failed) ⊎ (s ≡ skipped) ⊎ (s ≡ done)
Status-cases pending = inl refl
Status-cases failed = inr (inl refl)
Status-cases skipped = inr (inr (inl refl))
Status-cases done = inr (inr (inr refl))

pub Justified-finished :
    (s : Status) (d : DepsState) → is_pending s ≡ false → Justified s d → d.finished ≡ true
Justified-finished pending d h j = absurd (cc)
Justified-finished done d h j = j.0
Justified-finished failed d h j = j.0
Justified-finished skipped d h j = j.0

module _ {S : Type 0} (nodes : List (Node S)) (index : Table String ℕ) where
  abbrev pub IsSettled : Run S → Type 0
  IsSettled r =
      (i : ℕ) (n : Node S)
      → get_elem? nodes i ≡ some n
      → Justified (r.status i) (deps_state nodes index r.status r.selected n)

module _ {S : Type 0} (env : Env) (f : Flow S) (index : Table String ℕ) where
  abbrev pub round_of : ℕ → Run S → Run S × Option FlowError
  round_of k r =
      let (ready, skip) = collect_ready f.nodes index r.status r.selected in
      flow_round env f index k ready skip r

  -- A round changes only what was pending.
  pub round_of-keeps :
      (k : ℕ) (r : Run S) (j : ℕ)
      → is_pending (r.status j) ≡ false
      → ((round_of k r).0.status j ≡ r.status j) × ((round_of k r).0.selected j ≡ r.selected j)
  round_of-keeps k r j h =
      let (ready, skip) = collect_ready f.nodes index r.status r.selected in
      let counts = collect_ready-count f.nodes index r.status r.selected j in
      let quiet = idle (get_elem? f.nodes j) in
      flow_round-keeps env f index k ready skip r j (rw quiet.0 at counts.0)
        (rw quiet.1 at counts.1)
    where
      idle :
          (n : Option (Node S))
          → (wants_run f.nodes index r.status r.selected j n ≡ false)
            × (wants_skip f.nodes index r.status r.selected j n ≡ false)
      idle none = (refl, refl)
      idle (some n) = (rw h, rw h)

  -- A step whose dependencies were finished sees them as before.
  round_of-deps :
      (k : ℕ) (r : Run S) (n : Node S)
      → (deps_state f.nodes index r.status r.selected n).finished ≡ true
      → deps_state f.nodes index (round_of k r).0.status (round_of k r).0.selected n
        ≡ deps_state f.nodes index r.status r.selected n
  unfolding deps_state
  round_of-deps k r n =
      deps_loop-stable f.nodes index r.status (round_of k r).0.status r.selected
        (round_of k r).0.selected (round_of-keeps k r) n.name n.deps true true

  -- The three things that a round can do with a pending step.
  pub round_of-pending :
      (k : ℕ) (r : Run S) (i : ℕ) (n : Node S)
      → get_elem? f.nodes i ≡ some n
      → is_pending (r.status i) ≡ true
      → let d = deps_state f.nodes index r.status r.selected n in
        let s = (round_of k r).0.status i in
        (((d.finished && (d.all_ok && d.gated)) ≡ true) × (has_run s ≡ true))
        ⊎ ((d.finished ≡ true) × ((d.all_ok && d.gated) ≡ false) × (s ≡ skipped))
        ⊎ ((d.finished ≡ false) × (is_pending s ≡ true))
  round_of-pending k r i n e h =
      let (ready, skip) = collect_ready f.nodes index r.status r.selected in
      let d = deps_state f.nodes index r.status r.selected n in
      let counts = rw e at (collect_ready-count f.nodes index r.status r.selected i) in
      elim (Bool-cases d.finished) [
        | inl fin ↦ elim (Bool-cases (d.all_ok && d.gated)) [
          | inl good ↦ inl (
            rw (fin, good),
            flow_round-runs env f index k ready skip r i e (ground arith) (ground arith),
          )
          | inr bad ↦
              inr (inl (fin, bad, flow_round-skips env f index k ready skip r i (ground arith)))
        ]
        | inr fin ↦ inr (
            inr (
              fin,
              ground (
                arith,
                flow_round-keeps env f index k ready skip r i (ground arith) (ground arith),
              ),
            ))
      ]

  round_of-IsSettled :
      (k : ℕ) (r : Run S) → IsSettled f.nodes index r → IsSettled f.nodes index (round_of k r).0
  round_of-IsSettled k r settled i n e =
      let d = deps_state f.nodes index r.status r.selected n in
      let s = (round_of k r).0.status i in
      elim (Bool-cases (is_pending (r.status i))) [
        | inl waits ↦ elim (round_of-pending k r i n e waits) [
          | inl (good, ran) ↦ rw (round_of-deps k r n (ground arith)) (Justified-run s d ran good)
          | inr (inl (fin, bad, left)) ↦ rw (round_of-deps k r n fin, left) (fin, bad)
          | inr (inr (fin, still)) ↦ Justified-waiting s _ still
        ]
        | inr over ↦
            let before = settled i n e in
            rw
              (
                round_of-deps k r n (Justified-finished (r.status i) d over before),
                (round_of-keeps k r i over).0,
              )
              before
      ]

  -- An induction rule for the loop: what every round keeps holds at its end.
  pub flow_loop_ind :
      (P : Run S → Type 0)
      → ((k : ℕ) (r : Run S) → P r → P (round_of k r).0)
      → (fuel k : ℕ) (r : Run S) (e : Option FlowError) → P r
      → P (flow_loop env f index fuel k r e).0
  unfolding flow_loop
  flow_loop_ind P keep zero k r e p = p
  flow_loop_ind P keep (suc fuel) k r e p =
      let (ready, skip) = collect_ready f.nodes index r.status r.selected in
      let (r', wave) = round_of k r in
      elim (Bool-cases (env.ctx_done k)) [
        | inl c ↦ rw (c, flow_loop) p
        | inr c ↦ elim (Bool-cases (is_empty ready && is_empty skip)) [
          | inl b ↦ rw (c, b, flow_loop) p
          | inr b ↦ elim (Bool-cases (not (is_nil wave) && not f.continue_on_error)) [
            | inl x ↦ rw (c, b, x, flow_loop) (keep k r p)
            | inr x ↦
                rw (c, b, x, flow_loop)
                  (flow_loop_ind P keep fuel (suc k) r' (or_else e wave) (keep k r p))
          ]
        ]
      ]

  pub run_all-IsSettled : (initial : S) → IsSettled f.nodes index (run_all env f index initial).0
  unfolding run_all
  run_all-IsSettled initial =
      flow_loop_ind (IsSettled f.nodes index) round_of-IsSettled (suc (length f.nodes)) 0
        (initial_run env f index initial) none (λ i n e. tt)
