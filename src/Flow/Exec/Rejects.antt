-- ===== src/Flow/Exec/Rejects.antt =====
-- When `Run` refuses to run.
use crewai_go.Base.{◌≡◌, ◌≢◌, ◌↔◌, ◌⊎◌, refl, inl, inr, Bool-cases, true}
use crewai_go.Base.Result.{ok, err, Result-cases}
use crewai_go.Flow.{Flow, FlowError, running, validate}
use crewai_go.Flow.WellFormed.{IsWellFormed}
use crewai_go.Flow.Valid.{validate_decides}
use crewai_go.Flow.Exec.{Env, run_flow}

ok≢err : {E A : Type 0} {e : E} {x : A} → ok x ≢ err e
ok≢err h = cc

-- Run returns an error without a result exactly if another run of the flow holds its lock or the
-- flow is not well formed.
pub run_flow_rejects :
    {S : Type 0} (env : Env) (f : Flow S) (initial : S)
    → ((e : FlowError) × (run_flow env f initial ≡ err e))
      ↔ ((f.locked ≡ true) ⊎ ¬ (IsWellFormed f.nodes))
unfolding run_flow
run_flow_rejects env f initial = (refused, refuses)
  where
    refused :
        ((e : FlowError) × (run_flow env f initial ≡ err e))
        → (f.locked ≡ true) ⊎ ¬ (IsWellFormed f.nodes)
    refused (e, h) = elim (Bool-cases f.locked) [
      | inl busy ↦ inl busy
      | inr free ↦ inr (λ w.
          let (index, valid) = (validate_decides f.nodes).1 w in
          ok≢err (rw (free, valid, run_flow) at h))
    ]

    refuses :
        ((f.locked ≡ true) ⊎ ¬ (IsWellFormed f.nodes))
        → (e : FlowError) × (run_flow env f initial ≡ err e)
    refuses (inl busy) = (running, rw (busy, run_flow) refl)
    refuses (inr malformed) = elim (Bool-cases f.locked) [
      | inl busy ↦ (running, rw (busy, run_flow) refl)
      | inr free ↦ elim (Result-cases (validate f.nodes)) [
        | inl (e, invalid) ↦ (e, rw (free, invalid, run_flow) refl)
        | inr (index, valid) ↦ absurd (malformed ((validate_decides f.nodes).0 (index, valid)))
      ]
    ]
