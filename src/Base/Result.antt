-- ===== src/Base/Result.antt =====
-- A value or an error: Go's `(T, error)` where the callers look at the error first.
use mathlib.Core.Path.{◌≡◌, refl}
use mathlib.Core.Logic.{◌⊎◌, inl, inr}

pub data Result {ℓ} (E : Type 0) (A : Type ℓ) : Type ℓ where
  err : E → Result E A
  ok : A → Result E A

-- `x, err := m; if err != nil { return err }`.
infixl 5 ◌>>=◌
abbrev pub ◌>>=◌ {ℓ} : {E A : Type 0} {B : Type ℓ} → Result E A → (A → Result E B) → Result E B
m >>= next = elim m [ ok x ↦ next x | err e ↦ err e ]

-- Where a chain returns, its first step did.
pub chain_returns {ℓ} :
    {E A : Type 0} {B : Type ℓ} (m : Result E A) (next : A → Result E B) {y : B}
    → (m >>= next) ≡ ok y
    → (x : A) × (next x ≡ ok y) × (m ≡ ok x)
chain_returns (ok x) next returns = (x, returns, refl)
chain_returns (err e) next returns = cc

pub Result-cases {ℓ} :
    {E : Type 0} {A : Type ℓ} (r : Result E A) → ((e : E) × (r ≡ err e)) ⊎ ((x : A) × (r ≡ ok x))
Result-cases (err e) = inl (e, refl)
Result-cases (ok x) = inr (x, refl)
