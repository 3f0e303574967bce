-- ===== src/Schedule/Loop.antt =====
-- The wave loop of `planWaves`.
use crewai_go.Base.{
  not, ap, ℕ, zero, suc, ◌+◌, ◌≤◌, ◌<◌, ◌==◌, ltb, ◌≡◌, refl, subst, inl, inr, if◌then◌else◌, false,
  ◌&&◌, none, List, [], ◌∷◌, ◌++◌, length, append-nil, append_assoc, arith, range, range_from,
  update, flatten, flatten-snoc, List-cases, length-append,
}
use crewai_go.Base.Int.{ℤ, pos, is_zero}
use crewai_go.Base.Count.{count, count-append}
use crewai_go.Kahn.{Graph, release_all, sources}
use crewai_go.Kahn.Edges.{Edges, between, InRange, IsBuilt}
use crewai_go.Kahn.Order.{Ordered, Ordered-snoc, Needs}
use crewai_go.Kahn.Invariant.{Inv, Inv-step, Inv-done_le, Inv-queued}
use crewai_go.Schedule.{
  close_wave, mark_wave, release_wave, Waves, wave_loop, is_unset, unscheduled, run_waves,
}

-- The list of ready nodes at the start: each node below `n` whose counter is 0, once.
count-sources_from :
    (indegree : ℕ → ℤ) (n i j : ℕ)
    → count j (sources indegree (range_from n i))
      ≡ (if not (ltb j i) && ltb j (i + n) && is_zero (indegree j) then 1 else 0)
unfolding sources
count-sources_from indegree zero i j = ground arith
count-sources_from indegree (suc n) i j = ground (arith, count-sources_from indegree n (suc i) j)

pub count-sources :
    (indegree : ℕ → ℤ) (n j : ℕ)
    → count j (sources indegree (range n)) ≡ (if ltb j n && is_zero (indegree j) then 1 else 0)
count-sources indegree n j = ground (arith, count-sources_from indegree n 0 j)

mark_wave-unset :
    (w : ℕ) (wave : List ℕ) (wave_of : ℕ → ℤ) (i : ℕ)
    → is_unset (mark_wave w wave wave_of i)
      ≡ (if ltb 0 (count i wave) then false else is_unset (wave_of i))
unfolding mark_wave is_unset
mark_wave-unset w [] wave_of i = refl
mark_wave-unset w (k ∷ ks) wave_of i =
    ground (arith, mark_wave-unset w ks (update wave_of k (pos w)) i)

-- What the loop keeps.
pub record IsWaves (n : ℕ) (es : Edges) (indegree : ℕ → ℤ) (s : Waves) : Type 0 where
  pub inv : Inv n es (flatten s.waves) s.ready indegree
  pub ordered : Ordered (Needs es) [] s.waves
  pub marked : (i : ℕ) → is_unset (s.wave_of i) ≡ (count i (flatten s.waves) == 0)

module _ {n : ℕ} {es : Edges} (in_range : InRange n es) (adjacent : ℕ → List ℕ)
    (targets : (i j : ℕ) → count j (adjacent i) ≡ between es i j) where
  release_wave-Inv :
      (done wave next : List ℕ) (indegree : ℕ → ℤ)
      → Inv n es done (wave ++ next) indegree
      → Inv n es
          (done ++ wave)
          (release_wave adjacent (indegree, next) wave).1
          (release_wave adjacent (indegree, next) wave).0
  unfolding release_wave
  release_wave-Inv done [] next indegree h = rw append-nil h
  release_wave-Inv done (i ∷ is) next indegree h =
      let (indegree', next') = release_all (indegree, next) (adjacent i) in
      subst
        (λ d.
          Inv n es d (release_wave adjacent (indegree', next') is).1
            (release_wave adjacent (indegree', next') is).0)
        (append_assoc done (i ∷ []) is)
        (release_wave-Inv (done ++ i ∷ []) is next' indegree'
          (Inv-step in_range adjacent targets done is next i indegree h))

  round-IsWaves :
      (indegree : ℕ → ℤ) (s : Waves) (w i : ℕ) (is : List ℕ)
      → s.ready ≡ i ∷ is
      → IsWaves n es indegree s
      → IsWaves n es
          (release_wave adjacent (indegree, []) (i ∷ is)).0
          (close_wave w (i ∷ is) (release_wave adjacent (indegree, []) (i ∷ is)).1 s)
  round-IsWaves indegree s w i is e h =
      let whole = flatten-snoc s.waves (i ∷ is) in
      record {
        inv = rw whole (
            release_wave-Inv (flatten s.waves) (i ∷ is) [] indegree
              (rw append-nil (rw e at h.inv)));
        ordered =
            Ordered-snoc (Needs es) [] s.waves (i ∷ is) h.ordered
              (λ a b p d. Inv-queued a b h.inv (rw e p) d);
        marked = λ k. ground (
          arith,
          mark_wave-unset w (i ∷ is) s.wave_of k,
          h.marked k,
          ap (count k) whole,
          count-append k (flatten s.waves) (i ∷ is),
        );
      }

  -- With fuel for the nodes that are left, the loop ends by its test.
  pub wave_loop-ends :
      (fuel w : ℕ) (indegree : ℕ → ℤ) (s : Waves)
      → n ≤ fuel + length (flatten s.waves)
      → IsWaves n es indegree s
      → (indegree' : ℕ → ℤ) × IsWaves n es indegree' (wave_loop fuel adjacent w indegree s)
        × ((wave_loop fuel adjacent w indegree s).ready ≡ [])
  unfolding wave_loop
  wave_loop-ends zero w indegree s f h = (indegree, h, ground (arith, Inv-done_le h.inv))
  wave_loop-ends (suc fuel) w indegree s f h = elim (List-cases s.ready) [
    | inl empty ↦ (indegree, rw (empty, wave_loop) h, rw (empty, wave_loop) empty)
    | inr (i, is, e) ↦
        let (indegree', next) = release_wave adjacent (indegree, []) (i ∷ is) in
        rw (e, wave_loop)
          (wave_loop-ends fuel (suc w) indegree' (close_wave w (i ∷ is) next s)
            (omega (
              arith,
              ap length (flatten-snoc s.waves (i ∷ is)),
              length-append (flatten s.waves) (i ∷ is),
            ))
            (round-IsWaves indegree s w i is e h))
  ]

-- `planWaves` starts its loop with the invariant, and fuel for every task.
pub run_waves-ends :
    {n : ℕ} {es : Edges} (g : Graph)
    → InRange n es
    → IsBuilt es g
    → (indegree : ℕ → ℤ) × IsWaves n es indegree (run_waves n g) × ((run_waves n g).ready ≡ [])
unfolding run_waves is_unset
run_waves-ends {n} {es} g in_range built =
    wave_loop-ends in_range g.adjacent built.targets n 0 g.indegree _ (omega arith) (record {
      inv = record {
        degrees = built.degrees;
        placed = λ j. ground (arith, count-sources g.indegree n j, built.degrees j);
      };
      ordered = tt;
      marked = λ i. refl;
    })

-- The check after the loop finds an unmarked node if there is one.
pub unscheduled-none :
    (wave_of : ℕ → ℤ) (n i j : ℕ)
    → unscheduled wave_of (range_from n i) ≡ none
    → j < n
    → is_unset (wave_of (i + j)) ≡ false
unfolding unscheduled
unscheduled-none wave_of zero i j h p = absurd (omega arith)
unscheduled-none wave_of (suc n) i zero h p = let e : i + 0 ≡ i = omega arith in rw e (ground arith)
unscheduled-none wave_of (suc n) i (suc j) h p =
    let e : i + suc j ≡ suc i + j = omega arith in
    rw e (unscheduled-none wave_of n (suc i) j (ground arith) (omega arith))

pub unscheduled-all :
    (wave_of : ℕ → ℤ) (n i : ℕ)
    → ((j : ℕ) → i ≤ j → j < i + n → is_unset (wave_of j) ≡ false)
    → unscheduled wave_of (range_from n i) ≡ none
unfolding unscheduled
unscheduled-all wave_of zero i h = refl
unscheduled-all wave_of (suc n) i h =
    rw (h i (omega arith) (omega arith))
      (unscheduled-all wave_of n (suc i) (λ j p q. h j (omega arith) (omega arith)))
