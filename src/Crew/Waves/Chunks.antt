-- ===== src/Crew/Waves/Chunks.antt =====
-- The chunks of a wave's asynchronous tasks.
use crewai_go.Base.{
  ℕ, zero, suc, ◌+◌, ◌<◌, ◌≤◌, List, [], ◌∷◌, ◌++◌, length, flatten, ◌≡◌, refl, ap, sym, subst,
  arith,
}
use crewai_go.Base.Int.{ℤ, pos, negsuc}
use crewai_go.Crew.Waves.{take, drop, chunk_size, chunks}

-- A cap holds a list of this length, where it is a cap at all.
pub Within : ℤ → ℕ → Type 0
Within (negsuc m) n = Unit {0}
Within (pos zero) n = Unit {0}
Within (pos (suc m)) n = n ≤ suc m

-- Every list is not empty and within the cap.
pub AreWithin {ℓ} : {A : Type ℓ} → ℤ → List (List A) → Type 0
unfolding Within
AreWithin max [] = Unit {0}
AreWithin max (xs ∷ xss) = (0 < length xs) × Within max (length xs) × AreWithin max xss

chunk_size-pos : (max : ℤ) (n : ℕ) → 0 < n → 0 < chunk_size max n
unfolding chunk_size
chunk_size-pos (negsuc m) n h = h
chunk_size-pos (pos m) n h = ground arith

chunk_size_le : (max : ℤ) (n : ℕ) → chunk_size max n ≤ n
unfolding chunk_size
chunk_size_le (negsuc m) n = omega arith
chunk_size_le (pos m) n = ground arith

chunk_size-Within : (max : ℤ) (n : ℕ) → Within max (chunk_size max n)
unfolding chunk_size Within
chunk_size-Within (negsuc m) n = tt
chunk_size-Within (pos zero) n = tt
chunk_size-Within (pos (suc m)) n = ground arith

module _ {ℓ} {A : Type ℓ} where
  length-take : (n : ℕ) (xs : List A) → n ≤ length xs → length (take n xs) ≡ n
  unfolding take
  length-take zero xs h = refl
  length-take (suc n) [] h = absurd (omega arith)
  length-take (suc n) (x ∷ xs) h = ground (arith, length-take n xs (omega arith))

  length-drop : (n : ℕ) (xs : List A) → n ≤ length xs → length (drop n xs) + n ≡ length xs
  unfolding drop
  length-drop zero xs h = omega arith
  length-drop (suc n) [] h = absurd (omega arith)
  length-drop (suc n) (x ∷ xs) h = ground (arith, length-drop n xs (omega arith))

  take-drop : (n : ℕ) (xs : List A) → take n xs ++ drop n xs ≡ xs
  unfolding take drop
  take-drop zero xs = refl
  take-drop (suc n) [] = refl
  take-drop (suc n) (x ∷ xs) = ap (λ ys. x ∷ ys) (take-drop n xs)

  pub flatten-chunks :
      (fuel : ℕ) (max : ℤ) (xs : List A) → length xs ≤ fuel → flatten (chunks fuel max xs) ≡ xs
  unfolding chunks
  flatten-chunks zero max [] h = refl
  flatten-chunks zero max (x ∷ xs) h = absurd (omega arith)
  flatten-chunks (suc fuel) max [] h = refl
  flatten-chunks (suc fuel) max (x ∷ xs) h =
      let n : ℕ = chunk_size max (length (x ∷ xs)) in
      rw
        (flatten-chunks fuel max (drop n (x ∷ xs)) (
          omega (
            arith,
            length-drop n (x ∷ xs) (chunk_size_le max (length (x ∷ xs))),
            chunk_size-pos max (length (x ∷ xs)) (omega arith),
          )))
        (take-drop n (x ∷ xs))

  pub chunks-AreWithin : (fuel : ℕ) (max : ℤ) (xs : List A) → AreWithin max (chunks fuel max xs)
  unfolding chunks AreWithin
  chunks-AreWithin zero max xs = tt
  chunks-AreWithin (suc fuel) max [] = tt
  chunks-AreWithin (suc fuel) max (x ∷ xs) =
      let n : ℕ = chunk_size max (length (x ∷ xs)) in
      let le : n ≤ length (x ∷ xs) = chunk_size_le max (length (x ∷ xs)) in
      (
        omega
            (arith, length-take n (x ∷ xs) le, chunk_size-pos max (length (x ∷ xs)) (omega arith)),
        subst (λ k. Within max k) (sym (length-take n (x ∷ xs) le))
            (chunk_size-Within max (length (x ∷ xs))),
        chunks-AreWithin fuel max (drop n (x ∷ xs)),
      )

  -- The chunks of a list are the list cut up in its order: with as much fuel as it is long nothing
  -- is left out, none is empty, and where AsyncMaxWorkers is positive none is longer than it.
  pub chunks_split :
      (max : ℤ) (xs : List A)
      → (flatten (chunks (length xs) max xs) ≡ xs) × AreWithin max (chunks (length xs) max xs)
  chunks_split max xs =
      (flatten-chunks (length xs) max xs (omega arith), chunks-AreWithin (length xs) max xs)
