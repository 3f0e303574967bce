-- ===== src/Memory/Store/Recall.antt =====
-- What `Query` returns, and what it leaves in the store.
use crewai_go.Base.{
  ℕ, suc, ◌≤◌, ◌≡◌, refl, inl, inr, Bool-cases, Bool, true, false, ◌&&◌, List, [], ◌∷◌, length,
  keep, map, String, str_eq, eq_iff, arith, if◌then◌else◌, ltb, ap, ◌∙◌,
}
use crewai_go.Base.Int.{ℤ}
use crewai_go.Memory.{
  Floats, Entry, Query, clamp_limit, clamp_max_chars, rank_by_embedding, take_latest_n,
}
use crewai_go.Memory.Text.{Unicode, to_lower, trim_space}
use crewai_go.Memory.Recent.{
  All, take_latest_n-IsLongest, take_latest_n-All, clamp_limit-le, clamp_max_chars-fits,
}
use crewai_go.Memory.Ranked.{rank_by_embedding-All, rank_by_embedding-le}
use crewai_go.Memory.Store.{Slot, Memory, entry_of, matches, collect, query, id_for}

-- A record without its id.
abbrev pub anonymous : {F : Type 0} → Slot F → Slot F
anonymous s = record s { id = "" }

module _ {F : Type 0} (u : Unicode) (ids : ℕ → String) (scope : String) (semantic : Bool)
    (text : String) where
  -- The records of the scope that a query asks for.
  abbrev pub wanted : Slot F → Bool
  wanted s = str_eq s.scope scope && matches u semantic text s

  id_for-matches :
      (drawn : ℕ) (s : Slot F)
      → matches u semantic text (id_for ids drawn s).0 ≡ matches u semantic text s
  unfolding matches id_for
  id_for-matches drawn s = elim (Bool-cases (str_eq s.id "")) [
    | inl e ↦ rw e refl
    | inr e ↦ rw e refl
  ]

  id_for-wanted : (drawn : ℕ) (s : Slot F) → wanted (id_for ids drawn s).0 ≡ wanted s
  unfolding matches id_for
  id_for-wanted drawn s = elim (Bool-cases (str_eq s.id "")) [
    | inl e ↦ rw e refl
    | inr e ↦ rw e refl
  ]

  pub collect-keep :
      (drawn : ℕ) (ss : List (Slot F))
      → let (ss', drawn', found) = collect u ids scope semantic text drawn ss in
        found ≡ map entry_of (keep wanted ss')
  unfolding collect
  collect-keep drawn [] = refl
  collect-keep drawn (s ∷ ss) = elim (Bool-cases (wanted s)) [
    | inl h ↦
        let (s', drawn') = id_for ids drawn s in
        let w : wanted s' ≡ true = id_for-wanted drawn s ∙ h in
        rw (h, w) (ap (λ es. entry_of s' ∷ es) (collect-keep drawn' ss))
    | inr h ↦ rw (h, h) (collect-keep drawn ss)
  ]

  -- The loop changes ids only, and those only that are missing.
  pub collect-anonymous :
      (drawn : ℕ) (ss : List (Slot F))
      → map anonymous (collect u ids scope semantic text drawn ss).0 ≡ map anonymous ss
  unfolding collect id_for
  collect-anonymous drawn [] = refl
  collect-anonymous drawn (s ∷ ss) = elim (Bool-cases (wanted s)) [
    | inl h ↦ elim (Bool-cases (str_eq s.id "")) [
      | inl e ↦ rw (h, e) (ap (λ es. anonymous s ∷ es) (collect-anonymous (suc drawn) ss))
      | inr e ↦ rw (h, e) (ap (λ es. anonymous s ∷ es) (collect-anonymous drawn ss))
    ]
    | inr h ↦ rw h (ap (λ es. anonymous s ∷ es) (collect-anonymous drawn ss))
  ]

  -- What holds of the entries of all records that are wanted holds of what the loop finds.
  collect-All :
      (P : Entry F → Type 0) (ss : List (Slot F))
      → ((s : Slot F) → wanted s ≡ true → P (entry_of s))
      → All P (map entry_of (keep wanted ss))
  collect-All P [] h = tt
  collect-All P (s ∷ ss) h = elim (Bool-cases (wanted s)) [
    | inl w ↦ rw w (h s w, collect-All P ss h)
    | inr w ↦ rw w (collect-All P ss h)
  ]

-- The last step of a query, in either branch.
pub chosen-All :
    {F : Type 0} (fl : Floats F) (embedding : List F) (P : Entry F → Type 0) (limit max_chars : ℤ)
    (semantic : Bool) (found : List (Entry F))
    → All P found
    → let hits =
        if semantic
        then rank_by_embedding fl embedding found (clamp_limit limit) (clamp_max_chars max_chars)
        else take_latest_n found (clamp_limit limit) (clamp_max_chars max_chars) in
      All P hits × (length hits ≤ 32)
chosen-All fl embedding P limit max_chars true found all = (
  rank_by_embedding-All fl embedding found (clamp_limit limit) (clamp_max_chars max_chars) P all,
  omega (
    arith,
    rank_by_embedding-le fl embedding found (clamp_limit limit) (clamp_max_chars max_chars)
        (clamp_max_chars-fits max_chars),
    clamp_limit-le limit,
  ),
)
chosen-All fl embedding P limit max_chars false found all = (
  take_latest_n-All P found (clamp_limit limit) (clamp_max_chars max_chars) all,
  omega (
    arith,
    (take_latest_n-IsLongest found (clamp_limit limit) (clamp_max_chars max_chars)
        (clamp_max_chars-fits max_chars)).limited,
    clamp_limit-le limit,
  ),
)

-- Every hit of a query, ranked by similarity or not, is of the scope that the query names, and
-- there are at most 32.
pub query_scoped :
    {F : Type 0} (fl : Floats F) (u : Unicode) (ids : ℕ → String) (q : Query F) (m : Memory F)
    → let hits = (query fl u ids q m).1 in All (λ e. e.scope ≡ q.scope) hits × (length hits ≤ 32)
unfolding query
query_scoped {F} fl u ids q m =
    let semantic = ltb 0 (length q.embedding) in
    let text = to_lower u (trim_space u q.text) in
    let found = (collect u ids q.scope semantic text m.drawn m.records).2 in
    let of_scope = λ (s : Slot F). λ (w : wanted u ids q.scope semantic text s ≡ true).
      (eq_iff s.scope q.scope).0 (ground arith) in
    let all : All (λ e. e.scope ≡ q.scope) found =
      rw (collect-keep u ids q.scope semantic text m.drawn m.records)
        (collect-All u ids q.scope semantic text (λ e. e.scope ≡ q.scope) _ of_scope) in
    chosen-All fl q.embedding (λ e. e.scope ≡ q.scope) q.limit q.max_chars semantic found all
