-- ===== src/Flow/Judge.antt =====
-- flow.go: what the fold of a wave makes of the steps' outcomes, in the order of registration.
use crewai_go.Base.{
  ℕ, suc, leb, if◌then◌else◌, Bool, true, false, Option, none, some, List, [], ◌∷◌, ◌++◌, ltb,
  String, update, get_elem?,
}
use crewai_go.Base.Table.{Table, lookup, insert, string_key, nat_key}
use crewai_go.Base.Count.{count}
use crewai_go.Flow.{listen, router, FlowError, not_listener, unknown_route, step_failed, Node, mem}
use crewai_go.Flow.Ready.{Status, done, failed, skipped}
use crewai_go.Flow.Wave.{Event, StepOut, step_completed}

pub record Trace : Type 0 where
  pub name : String
  pub error : Option FlowError
  pub skip : Bool

-- The local variables of `Run`. `selected i` is routerSel[i], the set of names or nil.
pub record Run (S : Type 0) : Type 0 where
  pub state : S
  pub status : ℕ → Status
  pub selected : ℕ → Option (List String)
  pub traces : List Trace
  pub errors : Table String FlowError
  pub events : List Event

-- `readyPos`, as the table of its entries.
abbrev pub slots_from : ℕ → List ℕ → Table ℕ ℕ → Table ℕ ℕ
slots_from k [] m = m
slots_from k (i ∷ is) m = slots_from (suc k) is (insert i k m)

abbrev pub slot_of : List ℕ → ℕ → ℕ
slot_of ready i = elim (lookup i (slots_from 0 ready [])) [ none ↦ 0 | some k ↦ k ]

-- sort.Ints.
abbrev pub insert_sorted : ℕ → List ℕ → List ℕ
insert_sorted x [] = x ∷ []
insert_sorted x (y ∷ ys) = if leb x y then x ∷ y ∷ ys else y ∷ insert_sorted x ys

abbrev pub sort_ints : List ℕ → List ℕ
sort_ints [] = []
sort_ints (x ∷ xs) = insert_sorted x (sort_ints xs)

-- What the fold makes of a step that ran.
pub data Verdict : Type 0 where
  passes : Verdict
  selects_names : List String → Verdict
  fails bad_route : FlowError → Verdict

module _ {S : Type 0} (nodes : List (Node S)) (index : Table String ℕ) where
  -- `for _, name := range out[k].route`, with the set `sel`.
  pub check_route : String → List String → List String → Verdict
  check_route self [] sel = selects_names sel
  check_route self (name ∷ names) sel = elim (lookup name index) [
    | none ↦ bad_route (unknown_route name)
    | some j ↦ elim (get_elem? nodes j) [
      | none ↦ bad_route (unknown_route name)
      | some n ↦
          let rest = check_route self names (name ∷ sel) in
          if mem self n.deps then rest else bad_route (not_listener name self)
    ]
  ]

  pub judge : Node S → StepOut → Verdict
  unfolding check_route
  judge n o = elim o.error [
    | some e ↦ fails e
    | none ↦ elim n.kind [ listen ↦ passes | router ↦ check_route n.name o.route [] ]
  ]

abbrev pub verdict_status : Verdict → Status
verdict_status passes = done
verdict_status (selects_names names) = done
verdict_status (fails e) = failed
verdict_status (bad_route e) = failed

abbrev pub verdict_error : Verdict → Option FlowError
verdict_error passes = none
verdict_error (selects_names names) = none
verdict_error (fails e) = some e
verdict_error (bad_route e) = some e

-- routerSel[i] is written after a router's own success only.
abbrev pub verdict_selected : Verdict → ℕ → (ℕ → Option (List String)) → ℕ → Option (List String)
verdict_selected passes i sel = sel
verdict_selected (selects_names names) i sel = update sel i (some names)
verdict_selected (fails e) i sel = sel
verdict_selected (bad_route e) i sel = update sel i none

abbrev pub record_error :
    String → Option FlowError → Table String FlowError → Table String FlowError
record_error name none errors = errors
record_error name (some e) errors = insert name e errors

abbrev pub or_else {ℓ} : {A : Type ℓ} → Option A → Option A → Option A
or_else none b = b
or_else (some a) b = some a

-- The error by which the wave fails.
abbrev pub wave_error : String → Verdict → Option FlowError
wave_error name passes = none
wave_error name (selects_names names) = none
wave_error name (fails e) = some (step_failed name e)
wave_error name (bad_route e) = some e

module _ {S : Type 0} where
  abbrev pub fold_skipped : Node S → Run S → Run S
  fold_skipped n r = record r {
    traces = r.traces ++ record { name = n.name; error = none; skip = true } ∷ [];
  }

  abbrev pub fold_verdict : ℕ → Node S → Verdict → Run S → Run S
  fold_verdict i n v r =
      let e = verdict_error v in
      record r {
        status = update r.status i (verdict_status v);
        selected = verdict_selected v i r.selected;
        traces = r.traces ++ record { name = n.name; error = e; skip = false } ∷ [];
        errors = record_error n.name e r.errors;
        events = r.events ++ step_completed n.name e ∷ [];
      }

module _ {S : Type 0} (nodes : List (Node S)) (index : Table String ℕ) where
  -- foldWave over `combined`, with its variable `first`.
  unfoldable pub fold_wave :
      List ℕ → List ℕ → (ℕ → StepOut) → List ℕ → Run S → Option FlowError → Run S × Option FlowError
  unfolding judge
  fold_wave ready skip out [] r first = (r, first)
  fold_wave ready skip out (i ∷ is) r first = elim (get_elem? nodes i) [
    | none ↦ fold_wave ready skip out is r first
    | some n ↦ elim (ltb 0 (count i skip)) [
      | true ↦ fold_wave ready skip out is (fold_skipped n r) first
      | false ↦
          let v = judge nodes index n (out (slot_of ready i)) in
          fold_wave ready skip out is (fold_verdict i n v r) (or_else first (wave_error n.name v))
    ]
  ]

-- `for _, i := range skip { status[i] = stSkipped }`.
unfoldable pub mark_skipped : List ℕ → (ℕ → Status) → ℕ → Status
mark_skipped [] status = status
mark_skipped (i ∷ is) status = mark_skipped is (update status i skipped)
