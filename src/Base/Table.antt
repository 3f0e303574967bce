-- ===== src/Base/Table.antt =====
-- A Go map as an association list, newest entry first, over keys with a Boolean equality.
use Prim.Native.Nat.{ℕ}
use Prim.Native.String.{String}
use mathlib.Core.Path.{◌≡◌, refl}
use mathlib.Core.Logic.{◌↔◌, ◌⊎◌, inl, inr}
use mathlib.Core.Bool.{Bool, true}
use mathlib.Core.Option.{Option, none, some}
use mathlib.Core.List.{List, [], ◌∷◌}
use native.Mathlib.Omega.{arith}
use text.Mathlib.TextEquality.{eq_iff}
use crewai_go.Base.Tests.{◌==◌ as nat_eq, if◌then◌else◌, ==_iff, str_eq, Bool-cases}

pub record Eq (K : Type 0) : Type 0 where
  pub beq : K → K → Bool
  pub beq_iff : (a b : K) → (beq a b ≡ true) ↔ (a ≡ b)

instance abbrev pub nat_key : Eq ℕ
nat_key = record { beq = nat_eq; beq_iff = ==_iff }

instance abbrev pub string_key : Eq String
string_key = record { beq = str_eq; beq_iff = eq_iff }

abbrev pub Table : Type 0 → Type 0 → Type 0
Table K V = List (K × V)

module _ {K V : Type 0} ⦃e : Eq K⦄ where
  abbrev pub lookup : K → Table K V → Option V
  lookup k [] = none
  lookup k ((j, v) ∷ m) = if e.beq j k then some v else lookup k m

  abbrev pub insert : K → V → Table K V → Table K V
  insert k v m = (k, v) ∷ m

pub beq_refl : {K : Type 0} ⦃e : Eq K⦄ (k : K) → e.beq k k ≡ true
beq_refl ⦃e⦄ k = (e.beq_iff k k).1 refl

module _ {K V : Type 0} ⦃e : Eq K⦄ where
  pub lookup-insert_self : (k : K) (v : V) (m : Table K V) → lookup k (insert k v m) ≡ some v
  lookup-insert_self k v m = rw (beq_refl k)

  -- An insertion at an absent key hides nothing.
  pub lookup-insert_absent :
      (k d : K) (v : V) (m : Table K V) {a : V}
      → lookup k m ≡ none
      → lookup d m ≡ some a
      → lookup d (insert k v m) ≡ some a
  lookup-insert_absent k d v m absent found = elim (Bool-cases (e.beq k d)) [
    | inl same ↦ let p : k ≡ d = (e.beq_iff k d).0 same in absurd (cc)
    | inr other ↦ rw other found
  ]

  -- What an insertion adds is its own entry.
  pub lookup-insert_cases :
      (k d : K) (v : V) (m : Table K V) {a : V}
      → lookup d (insert k v m) ≡ some a
      → (k ≡ d) × (a ≡ v) ⊎ (lookup d m ≡ some a)
  lookup-insert_cases k d v m h = elim (Bool-cases (e.beq k d)) [
    | inl same ↦ inl ((e.beq_iff k d).0 same, ground arith)
    | inr other ↦ inr (ground arith)
  ]
