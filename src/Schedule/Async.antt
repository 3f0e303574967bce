-- ===== src/Schedule/Async.antt =====
-- `asyncWaves`: the Async tasks of a plan, wave by wave.
use crewai_go.Base.{
  ℕ, zero, suc, ◌≡◌, refl, if◌then◌else◌, Bool, false, none, some, List, [], ◌∷◌, length, arith,
  get_elem?, ap, ==_iff,
}
use crewai_go.Base.Count.{count}
use crewai_go.Schedule.{Task, async_only, async_waves}

abbrev pub async_at : List Task → ℕ → Bool
async_at tasks i = elim (get_elem? tasks i) [ none ↦ false | some t ↦ t.async ]

abbrev pub wave_at : List (List ℕ) → ℕ → List ℕ
wave_at [] w = []
wave_at (wave ∷ waves) zero = wave
wave_at (wave ∷ waves) (suc w) = wave_at waves w

count-async_only :
    (tasks : List Task) (wave : List ℕ) (i : ℕ)
    → count i (async_only tasks wave) ≡ (if async_at tasks i then count i wave else 0)
unfolding async_only
count-async_only tasks [] i = ground arith
count-async_only tasks (k ∷ ks) i =
    ground (arith, count-async_only tasks ks i, ap (get_elem? tasks) ((==_iff k i).0 _))

-- `asyncWaves` returns a list for each wave, which holds the positions of the wave whose task is
-- Async, as often as the wave does, and no other.
pub async_waves-exact :
    (tasks : List Task) (waves : List (List ℕ))
    → (length (async_waves tasks waves) ≡ length waves)
      × ((w i : ℕ)
          → count i (wave_at (async_waves tasks waves) w)
            ≡ (if async_at tasks i then count i (wave_at waves w) else 0))
unfolding async_waves
async_waves-exact tasks waves = (lengths waves, counts waves)
  where
    lengths : (ws : List (List ℕ)) → length (async_waves tasks ws) ≡ length ws
    lengths [] = refl
    lengths (w ∷ ws) = ap suc (lengths ws)

    counts :
        (ws : List (List ℕ)) (w i : ℕ)
        → count i (wave_at (async_waves tasks ws) w)
          ≡ (if async_at tasks i then count i (wave_at ws w) else 0)
    counts [] w i = ground arith
    counts (v ∷ ws) zero i = count-async_only tasks v i
    counts (v ∷ ws) (suc w) i = counts ws w i
