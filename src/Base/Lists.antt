-- ===== src/Base/Lists.antt =====
-- Lists measured and indexed by native numbers, under the library's names, and slices of a fixed
-- length as functions of the index.
use Prim.Native.Nat.{ℕ, zero, suc, ◌+◌, ◌<◌}
use mathlib.Core.Path.{◌≡◌, refl}
use mathlib.Core.Logic.{◌⊎◌, inl, inr}
use mathlib.Core.Bool.{Bool}
use mathlib.Core.Option.{Option, none, some}
use mathlib.Core.List.{List, [], ◌∷◌, ◌++◌, map, append-nil, append_assoc}
use native.Mathlib.Omega.{arith}
use crewai_go.Base.Tests.{◌==◌, if◌then◌else◌}

module _ {ℓ} {A : Type ℓ} where
  abbrev pub length : List A → ℕ
  length [] = 0
  length (x ∷ xs) = suc (length xs)

  abbrev pub get_elem? : List A → ℕ → Option A
  get_elem? [] i = none
  get_elem? (x ∷ xs) zero = some x
  get_elem? (x ∷ xs) (suc i) = get_elem? xs i

  pub length-append : (xs ys : List A) → length (xs ++ ys) ≡ length xs + length ys
  length-append [] ys = omega arith
  length-append (x ∷ xs) ys = omega (arith, length-append xs ys)

  pub List-cases : (xs : List A) → (xs ≡ []) ⊎ ((x : A) × (rest : List A) × (xs ≡ x ∷ rest))
  List-cases [] = inl refl
  List-cases (x ∷ xs) = inr (x, xs, refl)

-- A Go slice of fixed length, by its content at each index; `update` is `a[i] = v`.
abbrev pub update {ℓ} : {A : Type ℓ} → (ℕ → A) → ℕ → A → ℕ → A
update a i v j = if j == i then v else a j

-- `range n` is 0, 1, ..., n - 1.
abbrev pub range_from : ℕ → ℕ → List ℕ
range_from zero i = []
range_from (suc n) i = i ∷ range_from n (suc i)

abbrev pub range : ℕ → List ℕ
range n = range_from n 0

-- The elements that pass a Boolean test.
abbrev pub keep {ℓ} : {A : Type ℓ} → (A → Bool) → List A → List A
keep p [] = []
keep p (x ∷ xs) = if p x then x ∷ keep p xs else keep p xs

abbrev pub flatten {ℓ} : {A : Type ℓ} → List (List A) → List A
flatten [] = []
flatten (xs ∷ xss) = xs ++ flatten xss

pub flatten-snoc {ℓ} :
    {A : Type ℓ} (xss : List (List A)) (ys : List A) → flatten (xss ++ ys ∷ []) ≡ flatten xss ++ ys
flatten-snoc [] ys = append-nil ys
flatten-snoc (xs ∷ xss) ys = rw (flatten-snoc xss ys, append_assoc)

pub get_elem?-lt {ℓ} :
    {A : Type ℓ} (xs : List A) (i : ℕ) {x : A} → get_elem? xs i ≡ some x → i < length xs
get_elem?-lt [] i h = cc
get_elem?-lt (x ∷ xs) zero h = omega arith
get_elem?-lt (x ∷ xs) (suc i) h = omega (arith, get_elem?-lt xs i h)

pub get_elem?-some {ℓ} :
    {A : Type ℓ} (xs : List A) (i : ℕ) → i < length xs → (x : A) × (get_elem? xs i ≡ some x)
get_elem?-some [] i h = absurd (omega arith)
get_elem?-some (x ∷ xs) zero h = (x, refl)
get_elem?-some (x ∷ xs) (suc i) h = get_elem?-some xs i (omega arith)

module _ {ℓ κ} {A : Type ℓ} {B : Type κ} (f : A → B) where
  pub get_elem?-map :
      (xs : List A) (i : ℕ) {x : A} → get_elem? xs i ≡ some x → get_elem? (map f xs) i ≡ some (f x)
  get_elem?-map [] i h = cc
  get_elem?-map (x ∷ xs) zero h = ground arith
  get_elem?-map (x ∷ xs) (suc i) h = get_elem?-map xs i h

  pub get_elem?_of_map :
      (xs : List A) (i : ℕ) {y : B}
      → get_elem? (map f xs) i ≡ some y
      → (x : A) × (get_elem? xs i ≡ some x) × (f x ≡ y)
  get_elem?_of_map [] i h = absurd (cc)
  get_elem?_of_map (x ∷ xs) zero h = (x, refl, ground arith)
  get_elem?_of_map (x ∷ xs) (suc i) h = get_elem?_of_map xs i h
