-- ===== src/FileStore/View/Keeps.antt =====
-- The operations keep an index well-formed.
use crewai_go.Base.{
  ℕ, ◌==◌, ==_iff, none, some, [], ◌∷◌, ◌++◌, length, get_elem?, String, str_eq, eq_iff, ◌≡◌, ◌≢◌,
  ap, sym, ◌∙◌, inl, inr, Bool-cases, Option-cases, arith, subst,
}
use crewai_go.Base.Table.{lookup, string_key}
use crewai_go.Memory.{Entry}
use crewai_go.FileStore.{ScopeIndex, remove, set_at, upsert_at, upsert, forget}
use crewai_go.FileStore.View.{
  IsIndexed, lookup-remove_self, lookup-remove_other, get_elem?-set_at, get_elem?-set_other,
  get_elem?-snoc, get_elem?-append,
}

module _ {F : Type 0} (e : Entry F) (idx : ScopeIndex F) (ix : IsIndexed idx) where
  replaced-IsIndexed :
      (i : ℕ) → lookup e.id idx.by_id ≡ some i → IsIndexed (upsert_at (some i) e idx)
  unfolding upsert_at IsIndexed
  replaced-IsIndexed i at id j found =
      let (x, there, own) = ix e.id i at in
      let (y, there', own') = ix id j found in
      elim (Bool-cases (j == i)) [
        | inl same ↦
            let p : j ≡ i = (==_iff j i).0 same in
            (
              e,
              ap (get_elem? (set_at i e idx.entries)) p ∙ get_elem?-set_at i e x idx.entries there,
              sym own ∙ cc (ap (get_elem? idx.entries) p) ∙ own',
            )
        | inr other ↦
            let apart : i ≢ j = λ p. absurd (cc ((==_iff j i).1 (sym p))) in
            (y, get_elem?-set_other i j e idx.entries apart ∙ there', own')
      ]

  appended-IsIndexed : IsIndexed (upsert_at none e idx)
  unfolding upsert_at IsIndexed
  appended-IsIndexed id j found = elim (Bool-cases (str_eq e.id id)) [
    | inl same ↦
        let p : length idx.entries ≡ j = ground arith in
        (
          e,
          ap (get_elem? (idx.entries ++ e ∷ [])) (sym p) ∙ get_elem?-snoc idx.entries e,
          (eq_iff e.id id).0 same,
        )
    | inr other ↦
        let (y, there, own) = ix id j (rw other at found) in
        (y, get_elem?-append idx.entries (e ∷ []) j there, own)
  ]

  pub upsert-IsIndexed : IsIndexed (upsert e idx)
  unfolding upsert
  upsert-IsIndexed = elim (Option-cases (lookup e.id idx.by_id)) [
    | inl absent ↦
        subst (λ found. IsIndexed (upsert_at found e idx)) (sym absent) appended-IsIndexed
    | inr (i, at) ↦
        subst (λ found. IsIndexed (upsert_at found e idx)) (sym at) (replaced-IsIndexed i at)
  ]

pub forget-IsIndexed :
    {F : Type 0} (k : String) (idx : ScopeIndex F) → IsIndexed idx → IsIndexed (forget k idx)
unfolding forget IsIndexed
forget-IsIndexed k idx ix id j found = elim (Bool-cases (str_eq k id)) [
  | inl same ↦
      let gone : lookup id (remove k idx.by_id) ≡ none =
        subst (λ x. lookup x (remove k idx.by_id) ≡ none) ((eq_iff k id).0 same)
          (lookup-remove_self k idx.by_id) in
      absurd (cc)
  | inr other ↦ ix id j (sym (lookup-remove_other k id idx.by_id other) ∙ found)
]
