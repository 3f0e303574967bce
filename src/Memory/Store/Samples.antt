-- ===== src/Memory/Store/Samples.antt =====
-- Random ids for the runs of the stores.
use crewai_go.Base.{ℕ, zero, suc, ◌≡◌, ◌≢◌, refl, String, sym, ap}
use text.Mathlib.TextLemmas.{cons≢nil, tail-eq_of_cons-eq}
use Prim.Native.String.{[] as no_text, ◌∷◌ as add_char}
use crewai_go.Memory.Store.Ids.{IsFresh}

-- The ids "i", "ii", "iii", ...
unfoldable pub ids : ℕ → String
ids zero = add_char "i" no_text
ids (suc n) = add_char "i" (ids n)

ids-nonempty : (i : ℕ) → ids i ≢ ""
unfolding ids
ids-nonempty zero h = cons≢nil h
ids-nonempty (suc i) h = cons≢nil h

ids-distinct : (i j : ℕ) → ids i ≡ ids j → i ≡ j
unfolding ids
ids-distinct zero zero h = refl
ids-distinct zero (suc j) h = absurd (ids-nonempty j (sym (tail-eq_of_cons-eq h)))
ids-distinct (suc i) zero h = absurd (ids-nonempty i (tail-eq_of_cons-eq h))
ids-distinct (suc i) (suc j) h = ap suc (ids-distinct i j (tail-eq_of_cons-eq h))

pub ids-IsFresh : IsFresh ids
ids-IsFresh = record { distinct = ids-distinct; nonempty = ids-nonempty }
