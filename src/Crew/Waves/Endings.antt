-- ===== src/Crew/Waves/Endings.antt =====
-- How a group ends, and a run that goes on after failures.
use crewai_go.Base.{
  ℕ, suc, ◌+◌, ◌==◌, ◌∙◌, ◌<◌, Bool, true, false, Option, none, some, List, [], ◌∷◌, ◌≡◌, ◌⊎◌, refl,
  ap, sym, inl, inr, Option-cases, get_elem?, get_elem?-lt, get_elem?-map, arith, length, map,
  subst,
}
use crewai_go.Base.Table.{lookup, nat_key}
use crewai_go.Base.Result.{Result, ok, err}
use crewai_go.Memory.Policy.{Policy}
use crewai_go.Crew.{Agent, Error, wave_failed, Output, Crew, Host, State, chain, mark_failed}
use crewai_go.Crew.Context.{is_in}
use crewai_go.Crew.Group.{GroupResult, Barrier, run_task_group}
use crewai_go.Crew.Group.Success.{turns_of, run_task_group_succeeds}
use crewai_go.Crew.Waves.{
  Member, resolve_agent, fold_results, mark_all, begin_group, discard_group, commit_group,
  wave_group, end_group, close_group, run_wave_group, run_groups, drain, mark_done, groups_of,
  run_wave, run_waves, run_async_waves,
}
use crewai_go.Crew.Waves.Marks.{
  mark_all-world, mark_all-outputs, mark_all-buffer, mark_all-marks, mark_all-others,
}

-- The result of a step is a value.
pub Returns : {S A : Type 0} → S × Result Error A → Type 0
Returns {A = A} r = (x : A) × (r.1 ≡ ok x)

chain-Returns :
    {S A B : Type 0} (m : S × Result Error A) (next : S → A → S × Result Error B)
    → Returns m
    → ((s : S) (x : A) → Returns (next s x))
    → Returns (chain m next)
unfolding Returns
chain-Returns (s, err e) next (x, h) rest = absurd (cc)
chain-Returns (s, ok y) next (x, h) rest = rest s y

end_group-Returns :
    {S A : Type 0} (fail_fast : Bool) (first : Option (ℕ × Error))
    (abort : ℕ → Error → S × Result Error A) (rest : S × Result Error A)
    → fail_fast ≡ false
    → Returns rest
    → Returns (end_group fail_fast first abort rest)
unfolding end_group Returns
end_group-Returns fail_fast none abort rest h done = done
end_group-Returns false (some (k, e)) abort rest h done = done
end_group-Returns true (some (k, e)) abort rest h done = absurd (cc)

end_group_cases :
    {A : Type 0} (fail_fast : Bool) (first : Option (ℕ × Error)) (abort : ℕ → Error → A) (rest : A)
    → fail_fast ≡ true
    → (first ≡ none) × (end_group fail_fast first abort rest ≡ rest)
      ⊎ ((k : ℕ) × (e : Error) × (first ≡ some (k, e))
          × (end_group fail_fast first abort rest ≡ abort k e))
unfolding end_group
end_group_cases fail_fast none abort rest h = inl (refl, refl)
end_group_cases false (some (k, e)) abort rest h = absurd (cc)
end_group_cases true (some (k, e)) abort rest h = inr (k, e, refl, refl)

module _ {F W : Type 0} (host : Host F W) (c : Crew) (p : Policy) where
  module _ (keep_on : c.fail_fast ≡ false) where
    fold_results-Returns :
        (wave : ℕ) (results : ℕ → GroupResult) (k : ℕ) (ms : List Member) (s : State F W)
        (out : Output)
        → Returns (fold_results host c p wave results k ms s out)
    unfolding fold_results Returns
    fold_results-Returns wave results k [] s out = (out, refl)
    fold_results-Returns wave results k ((i, t) ∷ ms) s out =
        elim (Option-cases (results k).error) [
          | inl e ↦ elim (Option-cases (results k).agent) [
            | inl e' ↦ rw (e, e', fold_results) (fold_results-Returns wave results (suc k) ms s out)
            | inr (a, e') ↦
                rw (e, e', fold_results) (fold_results-Returns wave results (suc k) ms s _)
          ]
          | inr (x, e) ↦
              rw (e, keep_on, fold_results)
                (fold_results-Returns wave results (suc k) ms (mark_failed t x s) out)
        ]

    close_group-Returns :
        (agents : Option (List Agent)) (wave : ℕ) (ms : List Member) (b : Barrier F W)
        (out : Output)
        → Returns (close_group host c p agents wave ms b out)
    unfolding close_group Returns
    close_group-Returns agents wave ms b out =
        let done =
          fold_results-Returns wave b.results 0 ms (commit_group host p (map (λ m. m.1) ms) b.state)
            out in
        end_group-Returns c.fail_fast b.first
          (λ k e. (mark_all ms e (discard_group b.state), err (wave_failed wave (k + 1) e))) _
          keep_on done

    run_wave_group-Returns :
        (agents : Option (List Agent)) (wave : ℕ) (ms : List Member) (s : State F W) (out : Output)
        → Returns (run_wave_group host c p agents wave ms s out)
    unfolding run_wave_group Returns
    run_wave_group-Returns agents wave [] s out = (out, refl)
    run_wave_group-Returns agents wave (m ∷ ms) s out =
        close_group-Returns agents wave (m ∷ ms)
          (run_task_group host c p (wave_group host c p agents (m ∷ ms)) (begin_group s)) out

    run_groups-Returns :
        (agents : Option (List Agent)) (wave : ℕ) (mss : List (List Member)) (s : State F W)
        (out : Output)
        → Returns (run_groups host c p agents wave mss s out)
    unfolding run_groups Returns
    run_groups-Returns agents wave [] s out = (out, refl)
    run_groups-Returns agents wave (ms ∷ mss) s out =
        chain-Returns (run_wave_group host c p agents wave ms s out)
          (run_groups host c p agents wave mss) (run_wave_group-Returns agents wave ms s out)
          (λ s' out'. run_groups-Returns agents wave mss s' out')

    run_waves-Returns :
        (agents : Option (List Agent)) (wave : ℕ) (done : ℕ → Bool) (waves : List (List ℕ))
        (s : State F W) (out : Output)
        → Returns (run_waves host c p agents wave done waves s out)
    unfolding run_waves run_wave Returns
    run_waves-Returns agents wave done [] s out = (out, refl)
    run_waves-Returns agents wave done (is ∷ iss) s out =
        chain-Returns (run_wave host c p agents wave done is s out)
          (run_waves host c p agents (suc wave) (mark_done host c p agents is done) iss)
          (run_groups-Returns agents wave
            (groups_of c.max_workers (drain host c p agents done is s).0)
            (drain host c p agents done is s).1 out)
          (λ s' out'. run_waves-Returns agents (suc wave) _ iss s' out')

  -- With AsyncFailFast off, runAsyncWaves returns an output for every schedule of waves, whatever
  -- the tasks, the model and the order of the workers do: no failure of a task aborts it.
  pub run_async_waves_goes_on :
      c.fail_fast ≡ false
      → (agents : Option (List Agent)) (waves : List (List ℕ)) (s : State F W)
      → (out : Output) × ((run_async_waves host c p agents waves s).1 ≡ ok out)
  unfolding run_async_waves Returns
  run_async_waves_goes_on keep_on agents waves s = run_waves-Returns keep_on agents 1 _ waves s _

  -- With AsyncFailFast on, the fold meets no error once every result is a success.
  fold_results_succeeds :
      (wave : ℕ) (results : ℕ → GroupResult) (k : ℕ) (ms : List Member) (s : State F W)
      (out : Output)
      → ((j : ℕ) (m : Member) → get_elem? ms j ≡ some m → (results (k + j)).error ≡ none)
      → Returns (fold_results host c p wave results k ms s out)
  unfolding fold_results Returns
  fold_results_succeeds wave results k [] s out good = (out, refl)
  fold_results_succeeds wave results k ((i, t) ∷ ms) s out good =
      let here : (results k).error ≡ none =
        subst (λ j. (results j).error ≡ none) (omega arith) (good 0 (i, t) refl) in
      let later : (j : ℕ) (m : Member)
          → get_elem? ms j ≡ some m
          → (results (suc k + j)).error ≡ none =
        λ j m h. subst (λ j. (results j).error ≡ none) (omega arith) (good (suc j) m h) in
      elim (Option-cases (results k).agent) [
        | inl e ↦
            rw (here, e, fold_results) (fold_results_succeeds wave results (suc k) ms s out later)
        | inr (a, e) ↦
            rw (here, e, fold_results) (fold_results_succeeds wave results (suc k) ms s _ later)
      ]

  module _ (agents : Option (List Agent)) (wave : ℕ) (m : Member) (ms : List Member) (s : State F W)
      (out : Output) where
    -- The barrier of the group.
    abbrev the_barrier : Barrier F W
    the_barrier = run_task_group host c p (wave_group host c p agents (m ∷ ms)) (begin_group s)

    -- What an abort leaves: the error of the first failure, nothing put into the store and no output
    -- set since the workers ended, no buffered entry, every task of the group failed with the first
    -- error, and every other task as it was.
    pub record IsAborted (r : State F W × Result Error Output) : Type 0 where
      pub at : ℕ
      pub cause : Error
      pub first : the_barrier.first ≡ some (at, cause)
      pub result : r.1 ≡ err (wave_failed wave (at + 1) cause)
      pub world : r.0.world ≡ the_barrier.state.world
      pub outputs : r.0.outputs ≡ the_barrier.state.outputs
      pub unbuffered : (r.0.buffer.buffering ≡ false) × (r.0.buffer.entries ≡ [])
      pub marked :
          (k : ℕ) (x : Member)
          → get_elem? (m ∷ ms) k ≡ some x
          → lookup x.1.plan.pointer r.0.failed ≡ some cause
      pub unmarked :
          (task : ℕ)
          → ((k : ℕ) (x : Member)
              → get_elem? (m ∷ ms) k ≡ some x
              → (x.1.plan.pointer == task) ≡ false)
          → lookup task r.0.failed ≡ lookup task the_barrier.state.failed

    -- With AsyncFailFast on and every member having its turn, runWaveGroup is all or nothing: it
    -- returns an output only where the workers recorded no error, and otherwise the first error that
    -- they recorded, with the buffered entries gone, every task of the group marked with that error,
    -- no other task's mark changed, and the world and the outputs as the workers left them.
    pub run_wave_group_aborts :
        c.fail_fast ≡ true
        → ((k : ℕ)
            → k < length (m ∷ ms)
            → is_in k (
                turns_of (
                  host.order
                    (length (wave_group host c p agents (m ∷ ms)).members)
                    (begin_group s).world))
              ≡ true)
        → (the_barrier.first ≡ none) × Returns (run_wave_group host c p agents wave (m ∷ ms) s out)
          ⊎ IsAborted (run_wave_group host c p agents wave (m ∷ ms) s out)
    unfolding run_wave_group close_group wave_group discard_group
    run_wave_group_aborts stop visited =
        elim (end_group_cases c.fail_fast the_barrier.first
          (λ k e. (
            mark_all (m ∷ ms) e (discard_group the_barrier.state),
            err (wave_failed wave (k + 1) e),
          ))
          (fold_results host c p wave the_barrier.results 0 (m ∷ ms)
            (commit_group host p (map (λ m. m.1) (m ∷ ms)) the_barrier.state) out)
          stop) [
            | inl (clear, e) ↦ inl (
              clear,
              subst Returns (sym e) (
                  fold_results_succeeds wave the_barrier.results 0 (m ∷ ms) _ out (λ j x h.
                    subst (λ i. (the_barrier.results i).error ≡ none) {x = j} {y = 0 + j}
                      (omega arith)
                      (run_task_group_succeeds host c p (wave_group host c p agents (m ∷ ms))
                        (begin_group s) j x.1 (resolve_agent c agents x) clear
                        (visited j (get_elem?-lt (m ∷ ms) j h))
                        (get_elem?-map (λ (y : Member). (y.1, resolve_agent c agents y)) (m ∷ ms) j
                          h)).no_error)),
            )
            | inr (k, e, first, at) ↦ inr (record {
              at = k;
              cause = e;
              first = first;
              result = ap (λ r. r.1) at;
              world =
                  ap (λ r. r.0.world) at
                  ∙ mark_all-world (m ∷ ms) e (discard_group the_barrier.state);
              outputs =
                  ap (λ r. r.0.outputs) at
                  ∙ mark_all-outputs (m ∷ ms) e (discard_group the_barrier.state);
              unbuffered =
                  let same =
                    ap (λ r. r.0.buffer) at
                    ∙ mark_all-buffer (m ∷ ms) e (discard_group the_barrier.state) in
                  (ap (λ b. b.buffering) same, ap (λ b. b.entries) same);
              marked = λ i x h.
                  ap (λ r. lookup x.1.plan.pointer r.0.failed) at
                  ∙ mark_all-marks (m ∷ ms) e (discard_group the_barrier.state) i x h;
              unmarked = λ task others.
                  ap (λ r. lookup task r.0.failed) at
                  ∙ mark_all-others (m ∷ ms) e (discard_group the_barrier.state) task others;
            })
          ]
