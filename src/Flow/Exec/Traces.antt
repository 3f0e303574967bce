-- ===== src/Flow/Exec/Traces.antt =====
-- The traces of a run: one for each settled step.
use crewai_go.Base.{
  ℕ, suc, ◌+◌, ◌==◌, ltb, ◌≡◌, refl, sym, ◌∙◌, inl, inr, Bool, true, false, not, ◌&&◌, Option, none,
  some, List, [], ◌∷◌, ◌++◌, String, str_eq, eq_iff, str_eq_refl, get_elem?, get_elem?-map, arith,
  if◌then◌else◌, Bool-cases, length, ap, ==_iff,
}
use crewai_go.Base.Table.{Table}
use crewai_go.Base.Count.{count, count-append}
use crewai_go.Base.Positions.{Distinct}
use crewai_go.Base.Result.{ok}
use crewai_go.Flow.{Node, Flow, FlowError, validate}
use crewai_go.Flow.Index.{names}
use crewai_go.Flow.Valid.{validate-IsIndexed}
use crewai_go.Flow.Ready.{Status, is_pending, skipped, collect_ready}
use crewai_go.Flow.Wave.{StepOut}
use crewai_go.Flow.Judge.{Trace, Run, fold_wave, sort_ints, verdict_error}
use crewai_go.Flow.Exec.{Env, flow_round, before_fold, wave_results, run_all, initial_run}
use crewai_go.Flow.Exec.Collect.{collect_ready-count}
use crewai_go.Flow.Exec.Fold.{has_run, fold_wave_ind, count-sort_ints}
use crewai_go.Flow.Exec.Settled.{round_of, round_of-keeps, round_of-pending, flow_loop_ind}

-- How many traces of a step there are, of those that ran it and of those that skipped it.
abbrev pub traced : String → Bool → List Trace → ℕ
traced name skip [] = 0
traced name skip (t ∷ ts) =
    (if str_eq t.name name && (if skip then t.skip else not t.skip) then 1 else 0)
    + traced name skip ts

traced-snoc :
    (name : String) (skip : Bool) (ts : List Trace) (t : Trace)
    → traced name skip (ts ++ t ∷ [])
      ≡ traced name skip ts
        + (if str_eq t.name name && (if skip then t.skip else not t.skip) then 1 else 0)
traced-snoc name skip [] t = omega arith
traced-snoc name skip (u ∷ ts) t = omega (arith, traced-snoc name skip ts t)

module _ {S : Type 0} (nodes : List (Node S)) (distinct : Distinct (names nodes)) where
  -- Two steps of the flow have one name only if they are one step.
  same_name :
      (i j : ℕ) (n m : Node S)
      → get_elem? nodes i ≡ some n
      → get_elem? nodes j ≡ some m
      → str_eq n.name m.name ≡ (i == j)
  same_name i j n m e e' = elim (Bool-cases (i == j)) [
    | inl here ↦
        let same : i ≡ j = ground arith in
        let one : some n ≡ some m = sym e ∙ ap (get_elem? nodes) same ∙ e' in
        let name : n.name ≡ m.name = ground arith in rw (name, str_eq_refl m.name, here) refl
    | inr apart ↦ elim (Bool-cases (str_eq n.name m.name)) [
      | inl alike ↦
          let name : n.name ≡ m.name = (eq_iff n.name m.name).0 alike in
          absurd (
            ground (
              arith,
              distinct i j m.name (rw name at (get_elem?-map (λ v. v.name) nodes i e))
                  (get_elem?-map (λ v. v.name) nodes j e'),
            ))
      | inr unlike ↦ unlike ∙ sym apart
    ]
  ]

  module _ (index : Table String ℕ) (ready skip : List ℕ) (out : ℕ → StepOut) (j : ℕ) (m : Node S)
      (at : get_elem? nodes j ≡ some m) where
    fold_wave-traced :
        (is : List ℕ) (r : Run S) (first : Option FlowError)
        → let r' = (fold_wave nodes index ready skip out is r first).0 in
          let n = count j is in
          (traced m.name true r'.traces
            ≡ traced m.name true r.traces + (if ltb 0 (count j skip) then n else 0))
          × (traced m.name false r'.traces
              ≡ traced m.name false r.traces + (if ltb 0 (count j skip) then 0 else n))
    fold_wave-traced =
        fold_wave_ind nodes index ready skip out
          (λ is r r'.
            (traced m.name true r'.traces
              ≡ traced m.name true r.traces + (if ltb 0 (count j skip) then count j is else 0))
            × (traced m.name false r'.traces
                ≡ traced m.name false r.traces + (if ltb 0 (count j skip) then 0 else count j is)))
          (λ r. ground arith)
          (λ i is r r' e ih. ground (arith, ih, ap (get_elem? nodes) ((==_iff i j).0 _)))
          (λ i is n r r' e s ih. ground (
            arith,
            ih,
            ap (λ k. count k skip) ((==_iff i j).0 _),
            same_name i j n m e at,
            traced-snoc m.name true r.traces (record { name = n.name; error = none; skip = true }),
            traced-snoc m.name false r.traces (record { name = n.name; error = none; skip = true }),
          ))
          (λ i is n v r r' e s ih. ground (
            arith,
            ih,
            ap (λ k. count k skip) ((==_iff i j).0 _),
            same_name i j n m e at,
            traced-snoc m.name true r.traces
                (record { name = n.name; error = verdict_error v; skip = false }),
            traced-snoc m.name false r.traces
                (record { name = n.name; error = verdict_error v; skip = false }),
          ))

abbrev pub is_skipped : Status → Bool
is_skipped Status.pending = false
is_skipped Status.done = false
is_skipped Status.failed = false
is_skipped skipped = true

-- A pending step has no trace, a skipped one has one, which says so, and one that ran has one.
abbrev pub IsTraced : {S : Type 0} → List (Node S) → Run S → Type 0
IsTraced {S} nodes r =
    (j : ℕ) (m : Node S)
    → get_elem? nodes j ≡ some m
    → (traced m.name true r.traces ≡ (if is_skipped (r.status j) then 1 else 0))
      × (traced m.name false r.traces ≡ (if has_run (r.status j) then 1 else 0))

waiting_traces : (s : Status) → is_pending s ≡ true → (is_skipped s ≡ false) × (has_run s ≡ false)
waiting_traces Status.pending h = (refl, refl)
waiting_traces Status.done h = absurd (cc)
waiting_traces Status.failed h = absurd (cc)
waiting_traces skipped h = absurd (cc)

run_traces : (s : Status) → has_run s ≡ true → (is_skipped s ≡ false) × (is_pending s ≡ false)
run_traces Status.pending h = absurd (cc)
run_traces Status.done h = (refl, refl)
run_traces Status.failed h = (refl, refl)
run_traces skipped h = absurd (cc)

module _ {S : Type 0} (env : Env) (f : Flow S) (index : Table String ℕ)
    (distinct : Distinct (names f.nodes)) where
  flow_round-traced :
      (k : ℕ) (ready skip : List ℕ) (r : Run S) (j : ℕ) (m : Node S)
      → get_elem? f.nodes j ≡ some m
      → let r' = (flow_round env f index k ready skip r).0 in
        let n = count j skip + count j ready in
        (traced m.name true r'.traces
          ≡ traced m.name true r.traces + (if ltb 0 (count j skip) then n else 0))
        × (traced m.name false r'.traces
            ≡ traced m.name false r.traces + (if ltb 0 (count j skip) then 0 else n))
  unfolding flow_round
  flow_round-traced k ready skip r j m e = ground (
    arith,
    fold_wave-traced f.nodes distinct index ready skip
        (wave_results env f k ready r.state r.events).1 j m e (sort_ints (skip ++ ready))
        (before_fold env f k ready skip r) none,
    count-sort_ints j (skip ++ ready),
    count-append j skip ready,
  )

  round_of-IsTraced :
      (k : ℕ) (r : Run S) → IsTraced f.nodes r → IsTraced f.nodes (round_of env f index k r).0
  round_of-IsTraced k r before j m e =
      let (ready, skip) = collect_ready f.nodes index r.status r.selected in
      let counts = rw e at (collect_ready-count f.nodes index r.status r.selected j) in
      let adds = flow_round-traced k ready skip r j m e in
      let old = before j m e in
      elim (Bool-cases (is_pending (r.status j))) [
        | inr over ↦ ground (arith, round_of-keeps env f index k r j over)
        | inl waits ↦
            let none_yet = waiting_traces (r.status j) waits in
            elim (round_of-pending env f index k r j m e waits) [
              | inl (good, ran) ↦ ground (arith, run_traces _ ran)
              | inr (inl (fin, bad, left)) ↦ ground arith
              | inr (inr (fin, still)) ↦ ground (arith, waiting_traces _ still)
            ]
      ]

-- The traces of a run of an accepted flow: one for each step that ran, one that is marked as
-- skipped for each step that was skipped, and none for the others.
pub run_all_traces :
    {S : Type 0} (env : Env) (f : Flow S) {index : Table String ℕ} (initial : S)
    → validate f.nodes ≡ ok index
    → IsTraced f.nodes (run_all env f index initial).0
unfolding run_all
run_all_traces env f {index} initial valid =
    flow_loop_ind env f index (IsTraced f.nodes)
      (round_of-IsTraced env f index (validate-IsIndexed f.nodes valid).well_formed.distinct)
      (suc (length f.nodes)) 0 (initial_run env f index initial) none (λ j m e. (refl, refl))
