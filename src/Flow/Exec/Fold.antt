-- ===== src/Flow/Exec/Fold.antt =====
-- `foldWave`: what it does to the statuses and to the routers' choices.
use crewai_go.Base.{
  ℕ, ◌+◌, ◌<◌, ◌==◌, ltb, ◌≡◌, refl, inl, inr, Bool, true, false, Option, none, some, List, [], ◌∷◌,
  ◌++◌, String, get_elem?, arith, if◌then◌else◌, Option-cases, Bool-cases, update, ap, ==_iff, ◌⊎◌,
}
use crewai_go.Base.Table.{Table}
use crewai_go.Base.Count.{count, count-append}
use crewai_go.Flow.{Node, Flow, FlowError}
use crewai_go.Flow.Ready.{Status, pending, done, failed, skipped}
use crewai_go.Flow.Wave.{StepOut}
use crewai_go.Flow.Judge.{
  Run, judge, Verdict, passes, selects_names, fails, bad_route, verdict_status, verdict_selected,
  wave_error, or_else, fold_skipped, fold_verdict, fold_wave, mark_skipped, sort_ints,
  insert_sorted, slot_of,
}
use crewai_go.Flow.Exec.{Env, flow_round, before_fold, wave_results}

abbrev pub has_run : Status → Bool
has_run pending = false
has_run done = true
has_run failed = true
has_run skipped = false

count-insert_sorted :
    (j x : ℕ) (ys : List ℕ) → count j (insert_sorted x ys) ≡ (if x == j then 1 else 0) + count j ys
count-insert_sorted j x [] = refl
count-insert_sorted j x (y ∷ ys) = ground (arith, count-insert_sorted j x ys)

pub count-sort_ints : (j : ℕ) (xs : List ℕ) → count j (sort_ints xs) ≡ count j xs
count-sort_ints j [] = refl
count-sort_ints j (x ∷ xs) =
    omega (arith, count-insert_sorted j x (sort_ints xs), count-sort_ints j xs)

pub mark_skipped-at :
    (skip : List ℕ) (status : ℕ → Status) (j : ℕ)
    → mark_skipped skip status j ≡ (if ltb 0 (count j skip) then skipped else status j)
unfolding mark_skipped
mark_skipped-at [] status j = refl
mark_skipped-at (i ∷ is) status j = ground (arith, mark_skipped-at is (update status i skipped) j)

verdict_selected-other :
    (v : Verdict) (i : ℕ) (selected : ℕ → Option (List String)) (j : ℕ)
    → (j == i) ≡ false
    → verdict_selected v i selected j ≡ selected j
verdict_selected-other passes i selected j h = refl
verdict_selected-other (selects_names names) i selected j h = rw h
verdict_selected-other (fails e) i selected j h = refl
verdict_selected-other (bad_route e) i selected j h = rw h

verdict_status-has_run : (v : Verdict) → has_run (verdict_status v) ≡ true
verdict_status-has_run passes = refl
verdict_status-has_run (selects_names names) = refl
verdict_status-has_run (fails e) = refl
verdict_status-has_run (bad_route e) = refl

module _ {S : Type 0} (nodes : List (Node S)) (index : Table String ℕ) (ready skip : List ℕ)
    (out : ℕ → StepOut) where
  -- The three branches of a step of the fold.
  fold_wave-none :
      (i : ℕ) (is : List ℕ) (r : Run S) (first : Option FlowError)
      → get_elem? nodes i ≡ none
      → fold_wave nodes index ready skip out (i ∷ is) r first
        ≡ fold_wave nodes index ready skip out is r first
  unfolding fold_wave
  fold_wave-none i is r first e = rw (e, fold_wave)

  fold_wave-skip :
      (i : ℕ) (is : List ℕ) (r : Run S) (first : Option FlowError) {n : Node S}
      → get_elem? nodes i ≡ some n
      → ltb 0 (count i skip) ≡ true
      → fold_wave nodes index ready skip out (i ∷ is) r first
        ≡ fold_wave nodes index ready skip out is (fold_skipped n r) first
  unfolding fold_wave
  fold_wave-skip i is r first e h = rw (e, h, fold_wave)

  abbrev verdict_at : ℕ → Node S → Verdict
  verdict_at i n = judge nodes index n (out (slot_of ready i))

  fold_wave-verdict :
      (i : ℕ) (is : List ℕ) (r : Run S) (first : Option FlowError) {n : Node S}
      → get_elem? nodes i ≡ some n
      → ltb 0 (count i skip) ≡ false
      → fold_wave nodes index ready skip out (i ∷ is) r first
        ≡ fold_wave nodes index ready skip out is
            (fold_verdict i n (verdict_at i n) r)
            (or_else first (wave_error n.name (verdict_at i n)))
  unfolding fold_wave
  fold_wave-verdict i is r first e h = rw (e, h, fold_wave)

  -- An induction rule for the fold.
  pub fold_wave_ind :
      (P : List ℕ → Run S → Run S → Type 0)
      → ((r : Run S) → P [] r r)
      → ((i : ℕ) (is : List ℕ) (r r' : Run S)
          → get_elem? nodes i ≡ none
          → P is r r'
          → P (i ∷ is) r r')
      → ((i : ℕ) (is : List ℕ) (n : Node S) (r r' : Run S)
          → get_elem? nodes i ≡ some n
          → ltb 0 (count i skip) ≡ true
          → P is (fold_skipped n r) r'
          → P (i ∷ is) r r')
      → ((i : ℕ) (is : List ℕ) (n : Node S) (v : Verdict) (r r' : Run S)
          → get_elem? nodes i ≡ some n
          → ltb 0 (count i skip) ≡ false
          → P is (fold_verdict i n v r) r'
          → P (i ∷ is) r r')
      → (is : List ℕ) (r : Run S) (first : Option FlowError)
      → P is r (fold_wave nodes index ready skip out is r first).0
  unfolding fold_wave
  fold_wave_ind P base absent skips runs [] r first = base r
  fold_wave_ind P base absent skips runs (i ∷ is) r first =
      elim (Option-cases (get_elem? nodes i)) [
        | inl e ↦
            rw (fold_wave-none i is r first e)
              (absent i is r _ e (fold_wave_ind P base absent skips runs is r first))
        | inr (n, e) ↦ elim (Bool-cases (ltb 0 (count i skip))) [
          | inl s ↦ rw (fold_wave-skip i is r first e s) (
              skips i is n r _ e s
                (fold_wave_ind P base absent skips runs is (fold_skipped n r) first))
          | inr s ↦ rw (fold_wave-verdict i is r first e s) (
              runs i is n (verdict_at i n) r _ e s (
                fold_wave_ind P base absent skips runs is (fold_verdict i n (verdict_at i n) r)
                  (or_else first (wave_error n.name (verdict_at i n)))))
        ]
      ]

  -- A position that the fold does not list, or lists as skipped, keeps its status and its choice.
  pub fold_wave-keeps :
      (j : ℕ) (is : List ℕ) (r : Run S) (first : Option FlowError)
      → (count j is ≡ 0) ⊎ (0 < count j skip)
      → ((fold_wave nodes index ready skip out is r first).0.status j ≡ r.status j)
        × ((fold_wave nodes index ready skip out is r first).0.selected j ≡ r.selected j)
  fold_wave-keeps j =
      fold_wave_ind
        (λ is r r'.
          (count j is ≡ 0) ⊎ (0 < count j skip)
          → (r'.status j ≡ r.status j) × (r'.selected j ≡ r.selected j))
        (λ r h. (refl, refl)) (λ i is r r' e ih h. ground (arith, ih))
        (λ i is n r r' e s ih h. ground (arith, ih))
        (λ i is n v r r' e s ih h. ground (arith, ih, verdict_selected-other v i r.selected j))

  -- A position that it lists as run is done or failed afterwards.
  pub fold_wave-runs :
      (j : ℕ) {m : Node S}
      → get_elem? nodes j ≡ some m
      → count j skip ≡ 0
      → (is : List ℕ) (r : Run S) (first : Option FlowError)
      → (0 < count j is) ⊎ (has_run (r.status j) ≡ true)
      → has_run ((fold_wave nodes index ready skip out is r first).0.status j) ≡ true
  fold_wave-runs j e c =
      fold_wave_ind
        (λ is r r'. (0 < count j is) ⊎ (has_run (r.status j) ≡ true) → has_run (r'.status j) ≡ true)
        (λ r h. ground arith)
        (λ i is r r' e' ih h. ground (arith, ih, ap (get_elem? nodes) ((==_iff i j).0 _)))
        (λ i is n r r' e' s ih h. ground (arith, ih, ap (λ k. count k skip) ((==_iff i j).0 _)))
        (λ i is n v r r' e' s ih h. ground (arith, ih, verdict_status-has_run v))

-- One round, on the lists that `collectReady` found.
module _ {S : Type 0} (env : Env) (f : Flow S) (index : Table String ℕ) (k : ℕ)
    (ready skip : List ℕ) (r : Run S) (j : ℕ) where
  abbrev out : ℕ → StepOut
  out = (wave_results env f k ready r.state r.events).1

  count-combined : count j (sort_ints (skip ++ ready)) ≡ count j skip + count j ready
  count-combined = omega (arith, count-sort_ints j (skip ++ ready), count-append j skip ready)

  pub flow_round-keeps :
      count j ready ≡ 0
      → count j skip ≡ 0
      → ((flow_round env f index k ready skip r).0.status j ≡ r.status j)
        × ((flow_round env f index k ready skip r).0.selected j ≡ r.selected j)
  unfolding flow_round
  flow_round-keeps p q = ground (
    arith,
    fold_wave-keeps f.nodes index ready skip out j (sort_ints (skip ++ ready))
        (before_fold env f k ready skip r) none (inl (omega (arith, count-combined))),
    mark_skipped-at skip r.status j,
  )

  pub flow_round-skips :
      0 < count j skip → (flow_round env f index k ready skip r).0.status j ≡ skipped
  unfolding flow_round
  flow_round-skips p = ground (
    arith,
    fold_wave-keeps f.nodes index ready skip out j (sort_ints (skip ++ ready))
        (before_fold env f k ready skip r) none (inr p),
    mark_skipped-at skip r.status j,
  )

  pub flow_round-runs :
      {n : Node S}
      → get_elem? f.nodes j ≡ some n
      → count j skip ≡ 0
      → 0 < count j ready
      → has_run ((flow_round env f index k ready skip r).0.status j) ≡ true
  unfolding flow_round
  flow_round-runs e q p =
      fold_wave-runs f.nodes index ready skip out j e q (sort_ints (skip ++ ready))
        (before_fold env f k ready skip r) none (inl (omega (arith, count-combined)))
