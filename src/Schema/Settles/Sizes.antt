-- ===== src/Schema/Settles/Sizes.antt =====
-- What a schema holds under a keyword is smaller than the schema.
use mathlib.Core.Option.{some-injective}
use crewai_go.Base.{
  ℕ, ◌≤◌, Option, none, some, String, str_eq, ◌≡◌, refl, arith, inl, inr, Bool-cases, ap,
}
use crewai_go.Schema.Json.{
  Json, null, boolean, number, string, array, object, Members, no_members, member, get, size,
  size_items, size_members,
}
use crewai_go.Schema.Nodes.{properties_of, items_of}

module _ {F : Type 0} where
  -- What a map holds is smaller than the map.
  pub get-size :
      (k : String) (m : Members F) {v : Json F} → get k m ≡ some v → size v ≤ size_members m
  unfolding get size
  get-size k no_members h = absurd (cc)
  get-size k (member j w m) h = elim (Bool-cases (str_eq j k)) [
    | inl e ↦ let same = ap size (some-injective _ _ (rw e at h)) in omega (arith, same)
    | inr e ↦ omega (arith, get-size k m (rw e at h))
  ]

  pub get-size_within :
      {k : ℕ} (m : Members F)
      → size_members m ≤ k
      → (key : String) (v : Json F) → get key m ≡ some v
      → size v ≤ k
  get-size_within m fits key v h = omega (arith, fits, get-size key m h)

  pub items_of-size :
      (n : ℕ) (found : Option (Json F))
      → ((v : Json F) → found ≡ some v → size v ≤ n)
      → size_items (items_of found) ≤ n
  unfolding items_of size
  items_of-size n none small = omega arith
  items_of-size n (some null) small = omega arith
  items_of-size n (some (boolean b)) small = omega arith
  items_of-size n (some (number f)) small = omega arith
  items_of-size n (some (string s)) small = omega arith
  items_of-size n (some (object m)) small = omega arith
  items_of-size n (some (array xs)) small = omega (arith, small (array xs) refl)

  pub properties_of-size :
      (n : ℕ) (found : Option (Json F))
      → ((v : Json F) → found ≡ some v → size v ≤ n)
      → size_members (properties_of found) ≤ n
  unfolding properties_of size
  properties_of-size n none small = omega arith
  properties_of-size n (some null) small = omega arith
  properties_of-size n (some (boolean b)) small = omega arith
  properties_of-size n (some (number f)) small = omega arith
  properties_of-size n (some (string s)) small = omega arith
  properties_of-size n (some (array xs)) small = omega arith
  properties_of-size n (some (object m)) small = omega (arith, small (object m) refl)
