-- ===== src/Schema/Meaning/Fits.antt =====
-- The schemas within a plain schema, and the loops over them.
use crewai_go.Base.{
  ℕ, suc, ◌≤◌, Bool, true, false, not, ◌&&◌, Option, none, some, String, str_eq, ◌≡◌, refl, subst,
  arith, inl, inr, Bool-cases,
}
use mathlib.Core.Option.{some-injective}
use crewai_go.Schema.Json.{
  Json, null, boolean, number, string, array, object, Items, no_items, item, Members, no_members,
  member, get, size, size_items, size_members,
}
use crewai_go.Schema.Checks.{Check, each_item, each_member}
use crewai_go.Schema.Nodes.{properties_of, items_of}
use crewai_go.Schema.Meaning.{
  is_false, lacks_false, is_plain, plain_items, plain_members, all_items, all_members,
}
use crewai_go.Schema.Meaning.Decides.{Decides, pass-Decides, ▷-Decides}

-- A schema without references and of at most this size, and lists of such.
pub record Fits {F : Type 0} (k : ℕ) (schema : Json F) : Type 0 where
  pub small : size schema ≤ k
  pub plain : is_plain schema ≡ true

pub record ItemsFit {F : Type 0} (k : ℕ) (xs : Items F) : Type 0 where
  pub small : size_items xs ≤ k
  pub plain : plain_items xs ≡ true

pub record MembersFit {F : Type 0} (k : ℕ) (m : Members F) : Type 0 where
  pub small : size_members m ≤ k
  pub plain : plain_members m ≡ true

pub and_both : (a b : Bool) → a && b ≡ true → (a ≡ true) × (b ≡ true)
and_both true b h = (refl, h)
and_both false b h = absurd (cc)

module _ {F : Type 0} {k : ℕ} where
  pub first-Fits : (x : Json F) (xs : Items F) → ItemsFit k (item x xs) → Fits k x
  unfolding size is_plain
  first-Fits x xs f = record {
    small = omega (arith, f.small);
    plain = (and_both (is_plain x) (plain_items xs) f.plain).0;
  }

  pub rest-ItemsFit : (x : Json F) (xs : Items F) → ItemsFit k (item x xs) → ItemsFit k xs
  unfolding size is_plain
  rest-ItemsFit x xs f = record {
    small = omega (arith, f.small);
    plain = (and_both (is_plain x) (plain_items xs) f.plain).1;
  }

  pub head-Fits : (j : String) (v : Json F) (m : Members F) → MembersFit k (member j v m) → Fits k v
  unfolding size is_plain
  head-Fits j v m f = record {
    small = omega (arith, f.small);
    plain = (and_both (is_plain v) (plain_members m) f.plain).0;
  }

  tail-MembersFit :
      (j : String) (v : Json F) (m : Members F) → MembersFit k (member j v m) → MembersFit k m
  unfolding size is_plain
  tail-MembersFit j v m f = record {
    small = omega (arith, f.small);
    plain = (and_both (is_plain v) (plain_members m) f.plain).1;
  }

  pub get-Fits :
      (key : String) (m : Members F) → MembersFit k m → (v : Json F) → get key m ≡ some v → Fits k v
  unfolding get
  get-Fits key no_members f v h = absurd (cc)
  get-Fits key (member j w m) f v h = elim (Bool-cases (str_eq j key)) [
    | inl e ↦ subst (Fits k) (some-injective _ _ (rw e at h)) (head-Fits j w m f)
    | inr e ↦ get-Fits key m (tail-MembersFit j w m f) v (rw e at h)
  ]

  pub items_of-ItemsFit :
      (found : Option (Json F))
      → ((v : Json F) → found ≡ some v → Fits k v)
      → ItemsFit k (items_of found)
  unfolding items_of size is_plain
  items_of-ItemsFit none each = record { small = omega arith; plain = refl }
  items_of-ItemsFit (some null) each = record { small = omega arith; plain = refl }
  items_of-ItemsFit (some (boolean b)) each = record { small = omega arith; plain = refl }
  items_of-ItemsFit (some (number f)) each = record { small = omega arith; plain = refl }
  items_of-ItemsFit (some (string s)) each = record { small = omega arith; plain = refl }
  items_of-ItemsFit (some (object m)) each = record { small = omega arith; plain = refl }
  items_of-ItemsFit (some (array xs)) each =
      let f = each (array xs) refl in record { small = omega (arith, f.small); plain = f.plain }

  pub properties_of-MembersFit :
      (found : Option (Json F))
      → ((v : Json F) → found ≡ some v → Fits k v)
      → MembersFit k (properties_of found)
  unfolding properties_of size is_plain
  properties_of-MembersFit none each = record { small = omega arith; plain = refl }
  properties_of-MembersFit (some null) each = record { small = omega arith; plain = refl }
  properties_of-MembersFit (some (boolean b)) each = record { small = omega arith; plain = refl }
  properties_of-MembersFit (some (number f)) each = record { small = omega arith; plain = refl }
  properties_of-MembersFit (some (string s)) each = record { small = omega arith; plain = refl }
  properties_of-MembersFit (some (array xs)) each = record { small = omega arith; plain = refl }
  properties_of-MembersFit (some (object m)) each =
      let f = each (object m) refl in
      record { small = omega (arith, f.small); plain = (and_both _ (plain_members m) f.plain).1 }

module _ {F : Type 0} where
  pub each_item-Decides :
      (f : ℕ → Json F → Check F) (test : Json F → Bool) (i : ℕ) (xs : Items F)
      → ((i : ℕ) (x : Json F) → Decides (test x) (f i x))
      → Decides (all_items test xs) (each_item f i xs)
  unfolding each_item
  each_item-Decides f test i no_items each = pass-Decides
  each_item-Decides f test i (item x xs) each =
      ▷-Decides (f i x) (each_item f (suc i) xs) (each i x)
        (each_item-Decides f test (suc i) xs each)

  pub each_item-Decides_fitting :
      (k : ℕ) (f : ℕ → Json F → Check F) (test : Json F → Bool) (i : ℕ) (xs : Items F)
      → ItemsFit k xs
      → ((i : ℕ) (x : Json F) → Fits k x → Decides (test x) (f i x))
      → Decides (all_items test xs) (each_item f i xs)
  unfolding each_item
  each_item-Decides_fitting k f test i no_items fits each = pass-Decides
  each_item-Decides_fitting k f test i (item x xs) fits each =
      ▷-Decides (f i x) (each_item f (suc i) xs) (each i x (first-Fits x xs fits))
        (each_item-Decides_fitting k f test (suc i) xs (rest-ItemsFit x xs fits) each)

  pub each_member-Decides :
      (f : String → Json F → Check F) (test : String → Json F → Bool) (m : Members F)
      → ((key : String) (v : Json F) → Decides (test key v) (f key v))
      → Decides (all_members test m) (each_member f m)
  unfolding each_member
  each_member-Decides f test no_members each = pass-Decides
  each_member-Decides f test (member key v m) each =
      ▷-Decides (f key v) (each_member f m) (each key v) (each_member-Decides f test m each)

  -- The loop over the properties of a schema, none of which is the schema `false`.
  pub each_property-Decides :
      (k : ℕ) (f : String → Json F → Check F) (test : String → Json F → Bool) (m : Members F)
      → MembersFit k m
      → lacks_false m ≡ true
      → ((key : String) (v : Json F)
          → Fits k v
          → is_false v ≡ false
          → Decides (test key v) (f key v))
      → Decides (all_members test m) (each_member f m)
  unfolding each_member
  each_property-Decides k f test no_members fits lacks each = pass-Decides
  each_property-Decides k f test (member key v m) fits lacks each =
      let (here, later) = and_both (not (is_false v)) (lacks_false m) lacks in
      ▷-Decides (f key v) (each_member f m) (each key v (head-Fits key v m fits) (ground arith))
        (each_property-Decides k f test m (tail-MembersFit key v m fits) later each)
