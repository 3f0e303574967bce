-- ===== src/Schema/Settles/Refs.antt =====
-- The target of a reference is a node of the root, and no more than 32 references are ever open.
use mathlib.Core.Option.{some-injective}
use Prim.Native.Char.{code}
use Prim.Native.String.{[] as no_text, ◌∷◌ as put}
use crewai_go.Base.{
  ℕ, zero, suc, ◌≤◌, ◌<◌, ◌==◌, leb, Option, none, some, List, [], ◌∷◌, String, ◌≡◌, ap, arith, inl,
  inr, Bool-cases, Option-cases,
}
use crewai_go.Base.Int.{ℤ, pos, negsuc}
use crewai_go.Base.Result.{Result, ok, Result-cases}
use crewai_go.Memory.Text.{contains}
use crewai_go.Schema.Json.{
  Json, null, boolean, number, string, array, object, Items, no_items, item, Members, without,
  no_members, member, item_at, size, size_items, size_members,
}
use crewai_go.Schema.Refs.{
  SchemaValidation, RefError, max_ref_depth, max_ref_expansions, push_ref, on_stack, unescape,
  fragment, split_slash, at_index, step_part, walk_parts, resolve_pointer, resolve_fragment,
  resolve_local_ref,
}
use crewai_go.Schema.Settles.Sizes.{get-size}

module _ {F : Type 0} where
  item_at-size :
      (i : ℕ) (xs : Items F) {v : Json F} → item_at i xs ≡ some v → size v ≤ size_items xs
  unfolding item_at size
  item_at-size i no_items h = absurd (cc)
  item_at-size zero (item x xs) h = let same = ap size (some-injective _ _ h) in omega (arith, same)
  item_at-size (suc i) (item x xs) h = omega (arith, item_at-size i xs h)

  pub without-size : (k : String) (m : Members F) → size_members (without k m) ≤ size_members m
  unfolding without size
  without-size k no_members = omega arith
  without-size k (member j v m) = ground (arith, without-size k m)

  module _ (atoi : String → Option ℤ) where
    at_index-size :
        (i : Option ℤ) (xs : Items F) {v : Json F}
        → at_index atoi i xs ≡ some v
        → size v ≤ size_items xs
    unfolding at_index
    at_index-size none xs h = absurd (cc)
    at_index-size (some (negsuc n)) xs h = absurd (cc)
    at_index-size (some (pos i)) xs h = item_at-size i xs h

    step_part-size :
        (part : String) (here : Json F) {v : Json F}
        → step_part atoi part here ≡ some v
        → size v ≤ size here
    unfolding step_part size
    step_part-size part null h = absurd (cc)
    step_part-size part (boolean b) h = absurd (cc)
    step_part-size part (number f) h = absurd (cc)
    step_part-size part (string s) h = absurd (cc)
    step_part-size part (object m) h = omega (arith, get-size part m h)
    step_part-size part (array xs) h = omega (arith, at_index-size (atoi part) xs h)

    walk_parts-size :
        (parts : List String) (here : Json F) {v : Json F}
        → walk_parts atoi parts here ≡ ok v
        → size v ≤ size here
    unfolding walk_parts
    walk_parts-size [] here {v} h =
        let same : here ≡ v = cc in let sizes = ap size same in omega (arith, sizes)
    walk_parts-size (part ∷ parts) here h =
        elim (Option-cases (step_part atoi (unescape part) here)) [
          | inl e ↦ absurd (cc (rw (e, walk_parts) at h))
          | inr (next, e) ↦ omega (
            arith,
            step_part-size (unescape part) here e,
            walk_parts-size parts next (rw (e, walk_parts) at h),
          )
        ]

    resolve_pointer-size :
        (root : Json F) (ptr : String) {v : Json F} {q : String}
        → resolve_pointer atoi root ptr ≡ ok (v, q)
        → size v ≤ size root
    unfolding resolve_pointer
    resolve_pointer-size root no_text {v} h =
        let same : root ≡ v = cc in let sizes = ap size same in omega (arith, sizes)
    resolve_pointer-size root (put c s) {v} {q} h = elim (Bool-cases (code c == 47)) [
      | inl e ↦ elim (Result-cases (walk_parts atoi (split_slash s) root)) [
        | inl (e', fails) ↦ absurd (cc (rw (e, fails) at h))
        | inr (w, found) ↦
            let pairs : ◌≡◌ {A = Result RefError (Json F × String)} (ok (w, put "#" (put c s)))
                (ok (v, q)) =
              rw (e, found) at h in
            let same : w ≡ v = cc in
            let sizes = ap size same in
            omega (arith, sizes, walk_parts-size (split_slash s) root found)
      ]
      | inr e ↦ absurd (cc (rw e at h))
    ]

    pub resolve_local_ref-size :
        (root : Json F) (ref : String) {v : Json F} {q : String}
        → resolve_local_ref atoi root ref ≡ ok (v, q)
        → size v ≤ size root
    unfolding resolve_local_ref resolve_fragment
    resolve_local_ref-size root ref h = elim (Bool-cases (contains ref "://")) [
      | inl e ↦ absurd (cc (rw e at h))
      | inr e ↦ elim (Option-cases (fragment ref)) [
        | inl missing ↦ absurd (cc (rw (e, missing) at h))
        | inr (ptr, found) ↦ resolve_pointer-size root ptr (rw (e, found) at h)
      ]
    ]

-- What pushRef returns.
pub push_ref-ok :
    (ptr : String) (s s' : SchemaValidation)
    → push_ref ptr s ≡ ok s'
    → (s.ref_depth < max_ref_depth)
      × (s.expansions < max_ref_expansions)
      × (s' ≡ record {
        ref_depth = suc s.ref_depth;
        expansions = suc s.expansions;
        stack = ptr ∷ s.stack;
      })
unfolding push_ref
push_ref-ok ptr s s' h = elim (Bool-cases (leb max_ref_expansions s.expansions)) [
  | inl e ↦ absurd (cc (rw e at h))
  | inr e ↦ elim (Bool-cases (leb max_ref_depth s.ref_depth)) [
    | inl d ↦ absurd (cc (rw (e, d) at h))
    | inr d ↦ elim (Bool-cases (on_stack ptr s.stack)) [
      | inl o ↦ absurd (cc (rw (e, d, o) at h))
      | inr o ↦ (ground (arith, d), ground (arith, e), cc (rw (e, d, o) at h))
    ]
  ]
]
