-- ===== src/FileStore/Service/Fresh.antt =====
-- freshIDLocked finds an id that no scope has: distinct texts cannot all be among the ids in use.
use crewai_go.Base.{
  ℕ, zero, suc, ◌+◌, ◌==◌, ◌≤◌, ◌<◌, ◌≡◌, ◌≢◌, refl, inl, inr, Bool-cases, Option-cases, true,
  false, none, some, Bool, ◌||◌, List, [], ◌∷◌, ◌++◌, length, length-append, String, str_eq, eq_iff,
  arith, ap, sym, ◌∙◌, if◌then◌else◌,
}
use crewai_go.Base.Table.{Table, lookup, string_key}
use crewai_go.Memory.Store.Ids.{IsFresh}
use crewai_go.FileStore.{Partition}
use crewai_go.FileStore.Service.{FileStore, has_key, is_used, count_ids, fresh_id, entry_id}

-- Texts in a list, and the list without the first of them.
holds : String → List String → Bool
holds id [] = false
holds id (x ∷ xs) = str_eq x id || holds id xs

without : String → List String → List String
without id [] = []
without id (x ∷ xs) = if str_eq x id then xs else x ∷ without id xs

length-without :
    (id : String) (xs : List String) → holds id xs ≡ true → suc (length (without id xs)) ≡ length xs
unfolding without holds
length-without id [] h = absurd (cc)
length-without id (x ∷ xs) h = ground (arith, length-without id xs)

holds-without :
    (id d : String) (xs : List String) → id ≢ d → holds d xs ≡ true → holds d (without id xs) ≡ true
unfolding without holds
holds-without id d [] ne h = h
holds-without id d (x ∷ xs) ne h = elim (Bool-cases (str_eq x id)) [
  | inl here ↦ elim (Bool-cases (str_eq x d)) [
    | inl also ↦ absurd (ne (sym ((eq_iff x id).0 here) ∙ (eq_iff x d).0 also))
    | inr other ↦ rw here (ground arith)
  ]
  | inr later ↦ rw later (ground (arith, holds-without id d xs ne))
]

-- As many distinct texts as there is fuel are not all in a shorter list.
all_held :
    {ids : ℕ → String}
    → IsFresh ids
    → (fuel drawn : ℕ) (xs : List String)
    → ((i : ℕ) → drawn ≤ i → i < drawn + fuel → holds (ids i) xs ≡ true)
    → fuel ≤ length xs
all_held fresh zero drawn xs h = omega arith
all_held {ids} fresh (suc fuel) drawn xs h =
    let rest = all_held fresh fuel (suc drawn) (without (ids drawn) xs) (λ i p q.
      holds-without (ids drawn) (ids i) xs
        (λ e. absurd (omega (arith, fresh.distinct drawn i e, p)))
        (h i (omega arith) (omega arith))) in
    omega (arith, rest, length-without (ids drawn) xs (h drawn (omega arith) (omega arith)))

holds-append :
    (id : String) (xs ys : List String) → holds id (xs ++ ys) ≡ (holds id xs || holds id ys)
unfolding holds
holds-append id [] ys = refl
holds-append id (x ∷ xs) ys = ground (arith, holds-append id xs ys)

abbrev keys : {V : Type 0} → Table String V → List String
keys [] = []
keys ((k, v) ∷ m) = k ∷ keys m

length-keys : {V : Type 0} (m : Table String V) → length (keys m) ≡ length m
length-keys [] = refl
length-keys ((k, v) ∷ m) = ap suc (length-keys m)

has_key-holds : (id : String) (m : Table String ℕ) → has_key (lookup id m) ≡ holds id (keys m)
unfolding has_key holds
has_key-holds id [] = refl
has_key-holds id ((k, v) ∷ m) = ground (arith, has_key-holds id m)

module _ {F : Type 0} where
  -- The ids of all scopes.
  all_ids : Table String (Partition F) → List String
  all_ids [] = []
  all_ids ((scope, part) ∷ parts) = keys part.index.by_id ++ all_ids parts

  length-all_ids : (parts : Table String (Partition F)) → length (all_ids parts) ≡ count_ids parts
  unfolding all_ids count_ids
  length-all_ids [] = refl
  length-all_ids ((scope, part) ∷ parts) = omega (
    arith,
    length-append (keys part.index.by_id) (all_ids parts),
    length-keys part.index.by_id,
    length-all_ids parts,
  )

  is_used-holds :
      (id : String) (parts : Table String (Partition F))
      → is_used id parts ≡ holds id (all_ids parts)
  unfolding is_used all_ids holds
  is_used-holds id [] = refl
  is_used-holds id ((scope, part) ∷ parts) =
      rw (has_key-holds id part.index.by_id, is_used-holds id parts)
        (sym (holds-append id (keys part.index.by_id) (all_ids parts)))

  fresh_id-used :
      (ids : ℕ → String) (fuel drawn : ℕ) (parts : Table String (Partition F))
      → fresh_id ids fuel drawn parts ≡ none
      → (i : ℕ) → drawn ≤ i
      → i < drawn + fuel
      → is_used (ids i) parts ≡ true
  unfolding fresh_id
  fresh_id-used ids zero drawn parts h i p q = absurd (omega arith)
  fresh_id-used ids (suc fuel) drawn parts h i p q = elim (Bool-cases (is_used (ids drawn) parts)) [
    | inr free ↦ absurd (cc (rw free at h))
    | inl used ↦ elim (Bool-cases (drawn == i)) [
      | inl now ↦ let e : drawn ≡ i = ground arith in rw e at used
      | inr later ↦
          fresh_id-used ids fuel (suc drawn) parts (rw used at h) i (ground arith)
            (omega (arith, q))
    ]
  ]

  fresh_id-unused :
      (ids : ℕ → String) (fuel drawn : ℕ) (parts : Table String (Partition F)) {id : String}
      {next : ℕ}
      → fresh_id ids fuel drawn parts ≡ some (id, next)
      → (is_used id parts ≡ false) × ((i : ℕ) × (id ≡ ids i))
  unfolding fresh_id
  fresh_id-unused ids zero drawn parts h = absurd (cc)
  fresh_id-unused ids (suc fuel) drawn parts {id} h =
      elim (Bool-cases (is_used (ids drawn) parts)) [
        | inl used ↦ fresh_id-unused ids fuel (suc drawn) parts (rw used at h)
        | inr free ↦
            let e : ids drawn ≡ id = ground (arith, rw free at h) in (rw e at free, (drawn, sym e))
      ]

  -- The entry keeps its id, or a fresh one is found within the fuel.
  pub entry_id-returns :
      {ids : ℕ → String}
      → IsFresh ids
      → (id : String) (fs : FileStore F)
      → (new : String) × (drawn : ℕ) × (entry_id ids id fs ≡ some (new, drawn))
        × (id ≢ "" → new ≡ id)
        × (id ≡ "" → (new ≢ "") × (is_used new fs.by_scope ≡ false))
  unfolding entry_id
  entry_id-returns {ids} fresh id fs = elim (Bool-cases (str_eq id "")) [
    | inr given ↦ (
      id,
      fs.drawn,
      rw given refl,
      (λ h. refl),
      λ h. absurd (cc (sym ((eq_iff id "").1 h) ∙ given)),
    )
    | inl missing ↦
        let n = suc (count_ids fs.by_scope) in
        elim (Option-cases (fresh_id ids n fs.drawn fs.by_scope)) [
          | inl stuck ↦
              let held = λ (i : ℕ) (p : fs.drawn ≤ i) (q : i < fs.drawn + n).
                sym (is_used-holds (ids i) fs.by_scope)
                ∙ fresh_id-used ids n fs.drawn fs.by_scope stuck i p q in
              absurd (
                omega (
                  arith,
                  all_held fresh n fs.drawn (all_ids fs.by_scope) held,
                  length-all_ids fs.by_scope,
                ))
          | inr ((new, drawn), found) ↦
              let (free, (i, e)) = fresh_id-unused ids n fs.drawn fs.by_scope found in
              (
                new,
                drawn,
                rw (missing, found) refl,
                (λ h. absurd (h ((eq_iff id "").0 missing))),
                λ h. ((λ h'. fresh.nonempty i (sym e ∙ h')), free),
              )
        ]
  ]
