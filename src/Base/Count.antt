-- ===== src/Base/Count.antt =====
-- How often a number stands in a list, and sums over the numbers below a bound.
use Prim.Native.Nat.{ℕ, zero, suc, ◌+◌, ◌≤◌, ◌<◌}
use mathlib.Core.Path.{◌≡◌, refl}
use mathlib.Core.Logic.{inl, inr}
use mathlib.Core.List.{List, [], ◌∷◌, ◌++◌}
use native.Mathlib.Omega.{arith}
use crewai_go.Base.Tests.{Bool-cases, ◌==◌, ltb, if◌then◌else◌}
use crewai_go.Base.Lists.{length}

abbrev pub count : ℕ → List ℕ → ℕ
count a [] = 0
count a (x ∷ xs) = (if x == a then 1 else 0) + count a xs

-- Appending adds up what both lists hold.
pub count-append :
    (j : ℕ) (left right : List ℕ) → count j (left ++ right) ≡ count j left + count j right
count-append j [] right = omega arith
count-append j (i ∷ rest) right = ground (arith, count-append j rest right)

abbrev pub sum_below : ℕ → (ℕ → ℕ) → ℕ
sum_below zero f = 0
sum_below (suc n) f = f n + sum_below n f

pub sum_below_le : (n : ℕ) (f : ℕ → ℕ) → ((j : ℕ) → f j ≤ 1) → sum_below n f ≤ n
sum_below_le zero f h = omega arith
sum_below_le (suc n) f h = omega (arith, h n, sum_below_le n f h)

sum_below_mono : (n : ℕ) (f g : ℕ → ℕ) → ((j : ℕ) → f j ≤ g j) → sum_below n f ≤ sum_below n g
sum_below_mono zero f g h = omega arith
sum_below_mono (suc n) f g h = omega (arith, h n, sum_below_mono n f g h)

-- A sum falls where one of its terms falls and none rises.
pub sum_below-lt :
    (n : ℕ) (f g : ℕ → ℕ)
    → ((j : ℕ) → f j ≤ g j)
    → (i : ℕ) → i < n
    → f i < g i
    → sum_below n f < sum_below n g
sum_below-lt zero f g h i p q = absurd (omega arith)
sum_below-lt (suc n) f g h i p q = elim (Bool-cases (i == n)) [
  | inl last ↦
      let same : i ≡ n = ground arith in omega (arith, sum_below_mono n f g h, rw same at q)
  | inr before ↦ omega (arith, h n, sum_below-lt n f g h i (ground arith) q)
]

sum_below-nil : (n : ℕ) → sum_below n (λ j. count j []) ≡ 0
sum_below-nil zero = refl
sum_below-nil (suc n) = omega (arith, sum_below-nil n)

sum_below-cons :
    (n x : ℕ) (xs : List ℕ)
    → sum_below n (λ j. count j (x ∷ xs))
      ≡ (if ltb x n then 1 else 0) + sum_below n (λ j. count j xs)
sum_below-cons zero x xs = ground arith
sum_below-cons (suc n) x xs = ground (arith, sum_below-cons n x xs)

length-eq-sum_below :
    (n : ℕ) (xs : List ℕ)
    → ((j : ℕ) → n ≤ j → count j xs ≡ 0)
    → length xs ≡ sum_below n (λ j. count j xs)
length-eq-sum_below n [] h = omega (arith, sum_below-nil n)
length-eq-sum_below n (x ∷ xs) h =
    ground
      (arith, sum_below-cons n x xs, h x, length-eq-sum_below n xs (λ j p. omega (arith, h j p)))

-- A list without repetition of numbers below `n` has at most `n` entries.
pub length-le_of_distinct :
    (n : ℕ) (xs : List ℕ)
    → ((j : ℕ) → count j xs ≤ 1)
    → ((j : ℕ) → n ≤ j → count j xs ≡ 0)
    → length xs ≤ n
length-le_of_distinct n xs once below =
    omega (arith, length-eq-sum_below n xs below, sum_below_le n (λ j. count j xs) once)

sum_below-full :
    (n : ℕ) (f : ℕ → ℕ) → ((j : ℕ) → f j ≤ 1) → sum_below n f ≡ n → (j : ℕ) → j < n → f j ≡ 1
sum_below-full zero f h e j p = absurd (omega arith)
sum_below-full (suc n) f h e j p = elim (Bool-cases (j == n)) [
  | inl last ↦ let same : j ≡ n = ground arith in rw same (omega (arith, h n, sum_below_le n f h))
  | inr before ↦ sum_below-full n f h (omega (arith, h n, sum_below_le n f h)) j (ground arith)
]

sum_below-ones : (n : ℕ) (f : ℕ → ℕ) → ((j : ℕ) → j < n → f j ≡ 1) → sum_below n f ≡ n
sum_below-ones zero f h = refl
sum_below-ones (suc n) f h = omega (arith, h n, sum_below-ones n f (λ j p. h j (omega arith)))

module _ (n : ℕ) (xs : List ℕ) (once : (j : ℕ) → count j xs ≤ 1)
    (below : (j : ℕ) → n ≤ j → count j xs ≡ 0) where
  -- Such a list of length `n` holds every number below `n`.
  pub all_of_length : length xs ≡ n → (j : ℕ) → j < n → count j xs ≡ 1
  all_of_length e =
      sum_below-full n (λ j. count j xs) once (omega (arith, length-eq-sum_below n xs below))

  pub length_of_all : ((j : ℕ) → j < n → count j xs ≡ 1) → length xs ≡ n
  length_of_all h =
      omega (arith, length-eq-sum_below n xs below, sum_below-ones n (λ j. count j xs) h)
