-- ===== src/Base/Positions.antt =====
-- The table that a loop `index[key(x)] = i` over a list of distinct keys builds.
use Prim.Native.Nat.{ℕ, zero, suc, ◌+◌}
use mathlib.Core.Path.{◌≡◌, refl, ap}
use mathlib.Core.Logic.{◌⊎◌, inl, inr}
use mathlib.Core.Option.{none, some}
use mathlib.Core.List.{List, [], ◌∷◌}
use native.Mathlib.Omega.{arith}
use crewai_go.Base.Tests.{Option-cases}
use crewai_go.Base.Lists.{get_elem?}
use crewai_go.Base.Table.{
  Table, Eq, lookup, insert, lookup-insert_self, lookup-insert_absent, lookup-insert_cases,
}

-- Two positions of the list never hold the same key.
abbrev pub Distinct {ℓ} : {K : Type ℓ} → List K → Type ℓ
Distinct {K} keys =
    (i j : ℕ) (k : K) → get_elem? keys i ≡ some k → get_elem? keys j ≡ some k → i ≡ j

module _ {K : Type 0} ⦃e : Eq K⦄ where
  abbrev pub positions : ℕ → Table K ℕ → List K → Table K ℕ
  positions i m [] = m
  positions i m (k ∷ ks) = positions (suc i) (insert k i m) ks

  -- Each key is absent when its turn comes.
  abbrev pub AllFresh : ℕ → Table K ℕ → List K → Type 0
  AllFresh i m [] = Unit {0}
  AllFresh i m (k ∷ ks) = (lookup k m ≡ none) × AllFresh (suc i) (insert k i m) ks

  positions_keep :
      (i : ℕ) (m : Table K ℕ) (ks : List K)
      → AllFresh i m ks
      → (d : K) (a : ℕ) → lookup d m ≡ some a
      → lookup d (positions i m ks) ≡ some a
  positions_keep i m [] fresh d a h = h
  positions_keep i m (k ∷ ks) fresh d a h =
      positions_keep (suc i) (insert k i m) ks fresh.1 d a (lookup-insert_absent k d i m fresh.0 h)

  pub positions_found :
      (i : ℕ) (m : Table K ℕ) (ks : List K)
      → AllFresh i m ks
      → (j : ℕ) {k : K} → get_elem? ks j ≡ some k
      → lookup k (positions i m ks) ≡ some (i + j)
  positions_found i m [] fresh j h = cc
  positions_found i m (l ∷ ks) fresh zero {k} h =
      let kept = positions_keep (suc i) (insert l i m) ks fresh.1 l i (lookup-insert_self l i m) in
      ground arith
  positions_found i m (l ∷ ks) fresh (suc j) h =
      ground (arith, positions_found (suc i) (insert l i m) ks fresh.1 j h)

  pub positions_sound :
      (i : ℕ) (m : Table K ℕ) (ks : List K) (d : K) (a : ℕ)
      → lookup d (positions i m ks) ≡ some a
      → (lookup d m ≡ some a) ⊎ ((j : ℕ) × (a ≡ i + j) × (get_elem? ks j ≡ some d))
  positions_sound i m [] d a h = inl h
  positions_sound i m (k ∷ ks) d a h = elim (positions_sound (suc i) (insert k i m) ks d a h) [
    | inl old ↦ elim (lookup-insert_cases k d i m old) [
      | inl (same, here) ↦ inr (0, omega arith, ap some same)
      | inr older ↦ inl older
    ]
    | inr (j, at, there) ↦ inr (suc j, omega arith, there)
  ]

  pub AllFresh-of_Distinct :
      (i : ℕ) (m : Table K ℕ) (ks : List K)
      → ((j : ℕ) (k : K) → get_elem? ks j ≡ some k → lookup k m ≡ none)
      → Distinct ks
      → AllFresh i m ks
  AllFresh-of_Distinct i m [] absent distinct = tt
  AllFresh-of_Distinct i m (l ∷ ks) absent distinct = (
    absent 0 l refl,
    AllFresh-of_Distinct (suc i) (insert l i m) ks
        (λ j k h. elim (Option-cases (lookup k (insert l i m))) [
          | inl missing ↦ missing
          | inr (a, hit) ↦ elim (lookup-insert_cases l k i m hit) [
            | inl (same, _) ↦ absurd (omega (arith, distinct 0 (suc j) k (ap some same) h))
            | inr old ↦ absurd (cc (absent (suc j) k h))
          ]
        ])
        (λ a b k p q. omega (arith, distinct (suc a) (suc b) k p q)),
  )

-- The whole table: it sends each key of the list to its position, and knows no other.
pub record IsIndex {K : Type 0} ⦃e : Eq K⦄ (keys : List K) (index : Table K ℕ) : Type 0 where
  pub sound : (d : K) (a : ℕ) → lookup d index ≡ some a → get_elem? keys a ≡ some d
  pub found : (a : ℕ) (k : K) → get_elem? keys a ≡ some k → lookup k index ≡ some a

module _ {K : Type 0} ⦃e : Eq K⦄ where
  pub positions-IsIndex : (keys : List K) → AllFresh 0 [] keys → IsIndex keys (positions 0 [] keys)
  positions-IsIndex keys fresh = record {
    sound = λ d a h. elim (positions_sound 0 [] keys d a h) [
      | inl never ↦ absurd (cc)
      | inr (j, at, there) ↦ let same : a ≡ j = omega arith in rw same there
    ];
    found = λ a k h. ground (arith, positions_found 0 [] keys fresh a h);
  }

  pub IsIndex-Distinct : {keys : List K} {index : Table K ℕ} → IsIndex keys index → Distinct keys
  IsIndex-Distinct ix i j k p q = ground (arith, ix.found i k p, ix.found j k q)
