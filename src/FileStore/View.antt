-- ===== src/FileStore/View.antt =====
-- The map from ids to entries that an index stands for, and its operations. `Keeps` is about the
-- operations that keep an index well-formed.
pub mod Keeps
use crewai_go.Base.{
  ℕ, zero, suc, ◌+◌, ◌<◌, ◌==◌, if◌then◌else◌, Bool, true, false, Option, none, some, List, [], ◌∷◌,
  ◌++◌, length, get_elem?, String, str_eq, str_eq_refl, eq_iff, ◌≡◌, ◌≢◌, refl, ap, sym, ◌∙◌, inl,
  inr, Bool-cases, Option-cases, arith, subst,
}
use crewai_go.Base.Table.{Table, lookup, insert, string_key}
use crewai_go.Memory.{Entry}
use crewai_go.FileStore.{ScopeIndex, empty_index, remove, set_at, upsert_at, upsert, forget}

-- The entry of an id.
pub view : {F : Type 0} → ScopeIndex F → String → Option (Entry F)
view idx id = elim (lookup id idx.by_id) [ none ↦ none | some i ↦ get_elem? idx.entries i ]

-- Each id of the table stands at its index, with its own id.
pub IsIndexed : {F : Type 0} → ScopeIndex F → Type 0
IsIndexed {F} idx =
    (id : String) (i : ℕ)
    → lookup id idx.by_id ≡ some i
    → (e : Entry F) × (get_elem? idx.entries i ≡ some e) × (e.id ≡ id)

pub lookup-remove_self :
    {V : Type 0} (k : String) (m : Table String V) → lookup k (remove k m) ≡ none
unfolding remove
lookup-remove_self k [] = refl
lookup-remove_self k ((j, i) ∷ m) = elim (Bool-cases (str_eq j k)) [
  | inl h ↦ rw (h, remove) (lookup-remove_self k m)
  | inr h ↦ rw (h, remove, h) (lookup-remove_self k m)
]

pub lookup-remove_other :
    {V : Type 0} (k d : String) (m : Table String V)
    → str_eq k d ≡ false
    → lookup d (remove k m) ≡ lookup d m
unfolding remove
lookup-remove_other k d [] h = refl
lookup-remove_other k d ((j, i) ∷ m) h = elim (Bool-cases (str_eq j k)) [
  | inl e ↦
      let other : str_eq j d ≡ false = ap (λ x. str_eq x d) ((eq_iff j k).0 e) ∙ h in
      rw (e, other) (lookup-remove_other k d m h)
  | inr e ↦ elim (Bool-cases (str_eq j d)) [
    | inl e' ↦ rw (e, e') refl
    | inr e' ↦ rw (e, e') (lookup-remove_other k d m h)
  ]
]

module _ {A : Type 0} where
  pub get_elem?-set_at :
      (i : ℕ) (x y : A) (xs : List A)
      → get_elem? xs i ≡ some y
      → get_elem? (set_at i x xs) i ≡ some x
  unfolding set_at
  get_elem?-set_at i x y [] h = absurd (cc)
  get_elem?-set_at zero x y (z ∷ xs) h = refl
  get_elem?-set_at (suc i) x y (z ∷ xs) h = get_elem?-set_at i x y xs h

  pub get_elem?-set_other :
      (i j : ℕ) (x : A) (xs : List A) → i ≢ j → get_elem? (set_at i x xs) j ≡ get_elem? xs j
  unfolding set_at
  get_elem?-set_other i j x [] h = refl
  get_elem?-set_other zero zero x (z ∷ xs) h = absurd (h refl)
  get_elem?-set_other zero (suc j) x (z ∷ xs) h = refl
  get_elem?-set_other (suc i) zero x (z ∷ xs) h = refl
  get_elem?-set_other (suc i) (suc j) x (z ∷ xs) h =
      get_elem?-set_other i j x xs (λ e. h (ap suc e))

  pub get_elem?-snoc : (xs : List A) (x : A) → get_elem? (xs ++ x ∷ []) (length xs) ≡ some x
  get_elem?-snoc [] x = refl
  get_elem?-snoc (y ∷ xs) x = get_elem?-snoc xs x

  pub get_elem?-append :
      (xs ys : List A) (i : ℕ) {x : A} → get_elem? xs i ≡ some x → get_elem? (xs ++ ys) i ≡ some x
  get_elem?-append [] ys i h = absurd (cc)
  get_elem?-append (y ∷ xs) ys zero h = h
  get_elem?-append (y ∷ xs) ys (suc i) h = get_elem?-append xs ys i h

-- The abstract operations: maps from ids to entries, as functions.
abbrev pub put_spec :
    {F : Type 0} → Entry F → (String → Option (Entry F)) → String → Option (Entry F)
put_spec e m id = if str_eq e.id id then some e else m id

abbrev pub delete_spec :
    {F : Type 0} → String → (String → Option (Entry F)) → String → Option (Entry F)
delete_spec k m id = if str_eq k id then none else m id

module _ {F : Type 0} (idx : ScopeIndex F) where
  pub view-some :
      (id : String) (i : ℕ) → lookup id idx.by_id ≡ some i → view idx id ≡ get_elem? idx.entries i
  unfolding view
  view-some id i h = rw (h, view) refl

  pub view-none : (id : String) → lookup id idx.by_id ≡ none → view idx id ≡ none
  unfolding view
  view-none id h = rw (h, view) refl

module _ {F : Type 0} (e : Entry F) (idx : ScopeIndex F) (ix : IsIndexed idx) where
  replaced_view :
      (i : ℕ)
      → lookup e.id idx.by_id ≡ some i
      → (id : String) → view (upsert_at (some i) e idx) id ≡ put_spec e (view idx) id
  unfolding upsert_at IsIndexed
  replaced_view i at id =
      let (x, there, own) = ix e.id i at in
      let idx' = upsert_at (some i) e idx in
      elim (Option-cases (lookup id idx.by_id)) [
        | inl missing ↦ elim (Bool-cases (str_eq e.id id)) [
          | inl same ↦ absurd (cc (ap (λ k. lookup k idx.by_id) ((eq_iff e.id id).0 same)))
          | inr other ↦ rw other (view-none idx' id missing ∙ sym (view-none idx id missing))
        ]
        | inr (j, found) ↦ elim (Bool-cases (str_eq e.id id)) [
          | inl same ↦
              let i_is_j : i ≡ j = cc (ap (λ k. lookup k idx.by_id) ((eq_iff e.id id).0 same)) in
              rw same (
                view-some idx' id j found
                ∙ ap (get_elem? (set_at i e idx.entries)) (sym i_is_j)
                ∙ get_elem?-set_at i e x idx.entries there)
          | inr other ↦
              let (y, there', own') = ix id j found in
              let apart : i ≢ j = λ p.
                absurd (
                  cc ((eq_iff e.id id).1 (sym own ∙ (cc (ap (get_elem? idx.entries) p)) ∙ own'))) in
              rw other (
                view-some idx' id j found
                ∙ get_elem?-set_other i j e idx.entries apart
                ∙ sym (view-some idx id j found))
        ]
      ]

  appended_view :
      lookup e.id idx.by_id ≡ none
      → (id : String) → view (upsert_at none e idx) id ≡ put_spec e (view idx) id
  unfolding upsert_at IsIndexed
  appended_view absent id =
      let idx' = upsert_at none e idx in
      elim (Bool-cases (str_eq e.id id)) [
        | inl same ↦
            let at : lookup id idx'.by_id ≡ some (length idx.entries) = rw same refl in
            rw same (view-some idx' id (length idx.entries) at ∙ get_elem?-snoc idx.entries e)
        | inr other ↦
            let at : lookup id idx'.by_id ≡ lookup id idx.by_id = rw other refl in
            elim (Option-cases (lookup id idx.by_id)) [
              | inl missing ↦
                  rw other (view-none idx' id (at ∙ missing) ∙ sym (view-none idx id missing))
              | inr (j, found) ↦
                  let (y, there, own) = ix id j found in
                  rw other (
                    view-some idx' id j (at ∙ found)
                    ∙ get_elem?-append idx.entries (e ∷ []) j there
                    ∙ sym (view-some idx id j found ∙ there))
            ]
      ]

  -- An upsert is the abstract put.
  pub view-upsert : (id : String) → view (upsert e idx) id ≡ put_spec e (view idx) id
  unfolding upsert
  view-upsert id = elim (Option-cases (lookup e.id idx.by_id)) [
    | inl absent ↦ ap (λ found. view (upsert_at found e idx) id) absent ∙ appended_view absent id
    | inr (i, at) ↦ ap (λ found. view (upsert_at found e idx) id) at ∙ replaced_view i at id
  ]

-- Forgetting an id is the abstract delete.
pub view-forget :
    {F : Type 0} (k : String) (idx : ScopeIndex F) (id : String)
    → view (forget k idx) id ≡ delete_spec k (view idx) id
unfolding forget view
view-forget k idx id = elim (Bool-cases (str_eq k id)) [
  | inl same ↦
      let gone : lookup id (remove k idx.by_id) ≡ none =
        subst (λ x. lookup x (remove k idx.by_id) ≡ none) ((eq_iff k id).0 same)
          (lookup-remove_self k idx.by_id) in
      rw same (view-none (forget k idx) id gone)
  | inr other ↦
      let at = lookup-remove_other k id idx.by_id other in
      rw other (elim (Option-cases (lookup id idx.by_id)) [
        | inl missing ↦ view-none (forget k idx) id (at ∙ missing) ∙ sym (view-none idx id missing)
        | inr (j, found) ↦
            view-some (forget k idx) id j (at ∙ found) ∙ sym (view-some idx id j found)
      ])
]

pub empty-IsIndexed : (F : Type 0) → IsIndexed (empty_index F)
unfolding IsIndexed
empty-IsIndexed F id i h = absurd (cc)
