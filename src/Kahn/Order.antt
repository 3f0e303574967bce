-- ===== src/Kahn/Order.antt =====
-- Waves in which every node stands behind what it depends on.
use crewai_go.Base.{
  ℕ, suc, ◌<◌, ltb, ◌≡◌, refl, inl, inr, if◌then◌else◌, List, [], ◌∷◌, ◌++◌, append-nil, ap,
  append_assoc, arith, flatten, Bool-cases,
}
use crewai_go.Base.Count.{count, count-append}
use crewai_go.Kahn.Edges.{Edges, between}

-- Each wave depends only on what stands in `earlier` or in a wave before it.
abbrev pub Ordered : (ℕ → ℕ → Type 0) → List ℕ → List (List ℕ) → Type 0
Ordered Dep earlier [] = Unit {0}
Ordered Dep earlier (wave ∷ waves) =
    ((i j : ℕ) → 0 < count j wave → Dep j i → 0 < count i earlier)
    × Ordered Dep (earlier ++ wave) waves

pub Ordered-snoc :
    (Dep : ℕ → ℕ → Type 0) (earlier : List ℕ) (waves : List (List ℕ)) (wave : List ℕ)
    → Ordered Dep earlier waves
    → ((i j : ℕ) → 0 < count j wave → Dep j i → 0 < count i (earlier ++ flatten waves))
    → Ordered Dep earlier (waves ++ wave ∷ [])
Ordered-snoc Dep earlier [] wave h last = (λ i j p d. rw append-nil at (last i j p d), tt)
Ordered-snoc Dep earlier (w ∷ ws) wave h last =
    (h.0, Ordered-snoc Dep (earlier ++ w) ws wave h.1 (λ i j p d. rw append_assoc (last i j p d)))

abbrev pub Needs : Edges → ℕ → ℕ → Type 0
Needs es j i = 0 < between es i j

pub Ordered-weaken :
    (Dep Dep' : ℕ → ℕ → Type 0) (earlier : List ℕ) (waves : List (List ℕ))
    → ((i j : ℕ) → Dep' j i → Dep j i)
    → Ordered Dep earlier waves
    → Ordered Dep' earlier waves
Ordered-weaken Dep Dep' earlier [] f h = tt
Ordered-weaken Dep Dep' earlier (w ∷ ws) f h =
    (λ i j p d. h.0 i j p (f i j d), Ordered-weaken Dep Dep' (earlier ++ w) ws f h.1)

-- The number of the wave that holds a position.
abbrev pub wave_number : List (List ℕ) → ℕ → ℕ
wave_number [] i = 0
wave_number (wave ∷ waves) i = if ltb 0 (count i wave) then 0 else suc (wave_number waves i)

-- Positions in no earlier wave have their dependencies in a wave of smaller number.
pub Ordered-wave_number :
    (Dep : ℕ → ℕ → Type 0) (earlier : List ℕ) (waves : List (List ℕ))
    → Ordered Dep earlier waves
    → (i j : ℕ) → Dep j i
    → count i earlier ≡ 0
    → 0 < count j (flatten waves)
    → wave_number waves i < wave_number waves j
Ordered-wave_number Dep earlier [] h i j d p q = absurd (omega arith)
Ordered-wave_number Dep earlier (wave ∷ waves) h i j d p q =
    elim (Bool-cases (ltb 0 (count j wave))) [
      | inl now ↦ absurd (ground (arith, h.0 i j (ground arith) d))
      | inr later ↦ elim (Bool-cases (ltb 0 (count i wave))) [
        | inl sooner ↦ ground arith
        | inr neither ↦ ground (
          arith,
          count-append i earlier wave,
          count-append j wave (flatten waves),
          Ordered-wave_number Dep (earlier ++ wave) waves h.1 i j d,
        )
      ]
    ]

-- A sequence of nodes, as waves of one node.
abbrev pub singles : List ℕ → List (List ℕ)
singles [] = []
singles (i ∷ is) = (i ∷ []) ∷ singles is

pub flatten-singles : (is : List ℕ) → flatten (singles is) ≡ is
flatten-singles [] = refl
flatten-singles (i ∷ is) = ap (λ l. i ∷ l) (flatten-singles is)

pub singles-snoc : (is : List ℕ) (i : ℕ) → singles (is ++ i ∷ []) ≡ singles is ++ (i ∷ []) ∷ []
singles-snoc [] i = refl
singles-snoc (k ∷ ks) i = ap (λ l. (k ∷ []) ∷ l) (singles-snoc ks i)
