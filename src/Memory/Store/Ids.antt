-- ===== src/Memory/Store/Ids.antt =====
-- The ids of the records: a fresh one is found, `Put` keeps them apart, and `Delete` relies on it.
use crewai_go.Base.{
  ℕ, zero, suc, ◌+◌, ◌≤◌, ◌<◌, ◌≡◌, ◌≢◌, ◌⊎◌, refl, inl, inr, Bool-cases, Option-cases, Bool, true,
  false, not, ◌&&◌, none, some, List, [], ◌∷◌, ◌++◌, length, keep, String, str_eq, eq_iff, arith,
  if◌then◌else◌, ltb, ap, sym, ◌∙◌, ◌==◌,
}
use crewai_go.Base.Result.{ok}
use crewai_go.Memory.{Entry, max_entry_bytes}
use crewai_go.Memory.Text.{len}
use crewai_go.Memory.Store.{
  Slot, Memory, stored, has_id, generate_id, put_id, put, id_for, remove, delete, or_now,
}

-- The random ids are distinct texts, none of them empty.
pub record IsFresh (ids : ℕ → String) : Type 0 where
  pub distinct : (i j : ℕ) → ids i ≡ ids j → i ≡ j
  pub nonempty : (i : ℕ) → ids i ≢ ""

true≢false : true ≢ false
true≢false h = cc

some≢none : {A : Type 0} {x : A} → some x ≢ none
some≢none h = cc

module _ {F : Type 0} where
  -- The records without the first that has the id.
  without : String → List (Slot F) → List (Slot F)
  without id [] = []
  without id (s ∷ ss) = if str_eq s.id id then ss else s ∷ without id ss

  length-without :
      (id : String) (ss : List (Slot F))
      → has_id id ss ≡ true
      → suc (length (without id ss)) ≡ length ss
  unfolding without has_id
  length-without id [] h = absurd (cc)
  length-without id (s ∷ ss) h = ground (arith, length-without id ss)

  has_id-without :
      (id d : String) (ss : List (Slot F))
      → id ≢ d
      → has_id d ss ≡ true
      → has_id d (without id ss) ≡ true
  unfolding without has_id
  has_id-without id d [] ne h = h
  has_id-without id d (s ∷ ss) ne h = elim (Bool-cases (str_eq s.id id)) [
    | inl here ↦ elim (Bool-cases (str_eq s.id d)) [
      | inl also ↦ absurd (ne (sym ((eq_iff s.id id).0 here) ∙ (eq_iff s.id d).0 also))
      | inr other ↦ rw here (ground arith)
    ]
    | inr later ↦ rw later (ground (arith, has_id-without id d ss ne))
  ]

  -- As many distinct ids as there are fuel are not all taken by fewer records.
  all_taken :
      {ids : ℕ → String}
      → IsFresh ids
      → (fuel drawn : ℕ) (ss : List (Slot F))
      → ((i : ℕ) → drawn ≤ i → i < drawn + fuel → has_id (ids i) ss ≡ true)
      → fuel ≤ length ss
  all_taken fresh zero drawn ss h = omega arith
  all_taken {ids} fresh (suc fuel) drawn ss h =
      let rest = all_taken fresh fuel (suc drawn) (without (ids drawn) ss) (λ i p q.
        has_id-without (ids drawn) (ids i) ss
          (λ e. absurd (omega (arith, fresh.distinct drawn i e, p)))
          (h i (omega arith) (omega arith))) in
      omega (arith, rest, length-without (ids drawn) ss (h drawn (omega arith) (omega arith)))

  generate_id-taken :
      (ids : ℕ → String) (fuel drawn : ℕ) (ss : List (Slot F))
      → generate_id ids fuel drawn ss ≡ none
      → (i : ℕ) → drawn ≤ i
      → i < drawn + fuel
      → has_id (ids i) ss ≡ true
  unfolding generate_id
  generate_id-taken ids zero drawn ss h i p q = absurd (omega arith)
  generate_id-taken ids (suc fuel) drawn ss h i p q = elim (Bool-cases (has_id (ids drawn) ss)) [
    | inr free ↦ absurd (some≢none (rw free at h))
    | inl taken ↦ elim (Bool-cases (drawn == i)) [
      | inl now ↦ let e : drawn ≡ i = ground arith in rw e at taken
      | inr later ↦
          generate_id-taken ids fuel (suc drawn) ss (rw taken at h) i (ground arith)
            (omega (arith, q))
    ]
  ]

  generate_id-absent :
      (ids : ℕ → String) (fuel drawn : ℕ) (ss : List (Slot F)) {id : String} {next : ℕ}
      → generate_id ids fuel drawn ss ≡ some (id, next)
      → (has_id id ss ≡ false) × ((i : ℕ) × (id ≡ ids i))
  unfolding generate_id
  generate_id-absent ids zero drawn ss h = absurd (cc)
  generate_id-absent ids (suc fuel) drawn ss {id} h = elim (Bool-cases (has_id (ids drawn) ss)) [
    | inl taken ↦ generate_id-absent ids fuel (suc drawn) ss (rw taken at h)
    | inr free ↦
        let e : ids drawn ≡ id = ground (arith, rw free at h) in (rw e at free, (drawn, sym e))
  ]

  -- Every record has an id of its own.
  abbrev pub IsKeyed : List (Slot F) → Type 0
  IsKeyed [] = Unit {0}
  IsKeyed (s ∷ ss) = (s.id ≢ "") × (has_id s.id ss ≡ false) × IsKeyed ss

  -- What Put stores and returns, under the id that it chose.
  abbrev pub entry_with : String → ℕ → Entry F → Entry F
  entry_with id now e = record e { id = id; created_at = or_now now e.created_at }

  put_id-returns :
      {ids : ℕ → String}
      → IsFresh ids
      → (id : String) (m : Memory F)
      → (new : String) × (drawn : ℕ) × (put_id ids id m ≡ some (new, drawn))
        × (id ≢ "" → new ≡ id)
        × (id ≡ "" → (new ≢ "") × (has_id new m.records ≡ false))
  unfolding put_id
  put_id-returns {ids} fresh id m = elim (Bool-cases (str_eq id "")) [
    | inr given ↦ (
      id,
      m.drawn,
      rw given refl,
      (λ h. refl),
      λ h. absurd (true≢false ((sym ((eq_iff id "").1 h)) ∙ given)),
    )
    | inl missing ↦
        let n = suc (length m.records) in
        elim (Option-cases (generate_id ids n m.drawn m.records)) [
          | inl stuck ↦ absurd (
              omega (
                arith,
                all_taken fresh n m.drawn m.records
                    (generate_id-taken ids n m.drawn m.records stuck),
              ))
          | inr ((new, drawn), found) ↦
              let (free, (i, e)) = generate_id-absent ids n m.drawn m.records found in
              (
                new,
                drawn,
                rw (missing, found) refl,
                (λ h. absurd (h ((eq_iff id "").0 missing))),
                λ h. ((λ h'. fresh.nonempty i (sym e ∙ h')), free),
              )
        ]
  ]

  -- Put accepts every entry whose content is not too long, whatever the store holds: it finds an
  -- id that no record has where the entry has none, and appends the record.
  pub put_accepts :
      {ids : ℕ → String}
      → IsFresh ids
      → (now : ℕ) (e : Entry F) (m : Memory F) → ltb max_entry_bytes (len e.content) ≡ false
      → (id : String) × (drawn : ℕ) × (put ids now e m ≡ (
        record { records = m.records ++ stored (entry_with id now e) ∷ []; drawn = drawn },
        ok (entry_with id now e),
      ))
        × (e.id ≢ "" → id ≡ e.id)
        × (e.id ≡ "" → (id ≢ "") × (has_id id m.records ≡ false))
  unfolding put
  put_accepts {ids} fresh now e m small =
      let (id, drawn, found, given, free) = put_id-returns fresh e.id m in
      (id, drawn, rw (small, found) refl, given, free)

  snoc_free :
      (t s : Slot F) (ss : List (Slot F))
      → has_id t.id ss ≡ false
      → str_eq t.id s.id ≡ false
      → has_id t.id (ss ++ s ∷ []) ≡ false
  unfolding has_id
  snoc_free t s [] h ne = elim (Bool-cases (str_eq s.id t.id)) [
    | inl same ↦
        absurd (true≢false (sym ((eq_iff t.id s.id).1 (sym ((eq_iff s.id t.id).0 same))) ∙ ne))
    | inr other ↦ rw other refl
  ]
  snoc_free t s (r ∷ ss) h ne = ground (arith, snoc_free t s ss)

  IsKeyed-snoc :
      (ss : List (Slot F)) (s : Slot F)
      → IsKeyed ss
      → s.id ≢ ""
      → has_id s.id ss ≡ false
      → IsKeyed (ss ++ s ∷ [])
  unfolding has_id
  IsKeyed-snoc [] s keyed named free = (named, refl, tt)
  IsKeyed-snoc (t ∷ ss) s (named', free', keyed) named free =
      (named', snoc_free t s ss free' (ground arith), IsKeyed-snoc ss s keyed named (ground arith))

  -- A record with the id and in the scope.
  abbrev pub is_target : String → String → Slot F → Bool
  is_target scope id s = str_eq s.id id && str_eq s.scope scope

  keep-absent :
      (scope id : String) (ss : List (Slot F))
      → has_id id ss ≡ false
      → keep (λ s. not (is_target scope id s)) ss ≡ ss
  unfolding has_id
  keep-absent scope id [] h = refl
  keep-absent scope id (s ∷ ss) h = elim (Bool-cases (str_eq s.id id)) [
    | inl same ↦ absurd (true≢false (ground arith))
    | inr other ↦ rw other (ap (λ rest. s ∷ rest) (keep-absent scope id ss (ground arith)))
  ]

  id_for-named :
      (ids : ℕ → String) (drawn : ℕ) (s : Slot F) → s.id ≢ "" → id_for ids drawn s ≡ (s, drawn)
  unfolding id_for
  id_for-named ids drawn s named = elim (Bool-cases (str_eq s.id "")) [
    | inl e ↦ absurd (named ((eq_iff s.id "").0 e))
    | inr e ↦ rw e refl
  ]

  remove-exact :
      (ids : ℕ → String) (scope id : String) (drawn : ℕ) (ss : List (Slot F))
      → IsKeyed ss
      → (remove ids scope id drawn ss).0 ≡ keep (λ s. not (is_target scope id s)) ss
  unfolding remove id_for
  remove-exact ids scope id drawn [] keyed = refl
  remove-exact ids scope id drawn (s ∷ ss) (named, free, keyed) =
      let same = id_for-named ids drawn s named in
      elim (Bool-cases (is_target scope id s)) [
        | inl hit ↦
            let e : s.id ≡ id = (eq_iff s.id id).0 (ground arith) in
            rw (same, hit) (sym (keep-absent scope id ss (rw e at free)))
        | inr miss ↦
            rw (same, miss) (ap (λ rest. s ∷ rest) (remove-exact ids scope id drawn ss keyed))
      ]

  -- In a store whose records have ids of their own, Delete removes the record with the id if it is
  -- in the scope, and no other; the rest stay in order.
  pub delete_exact :
      (ids : ℕ → String) (scope id : String) (m : Memory F)
      → IsKeyed m.records
      → (delete ids scope id m).records ≡ keep (λ s. not (is_target scope id s)) m.records
  unfolding delete
  delete_exact ids scope id m keyed = remove-exact ids scope id m.drawn m.records keyed

  -- Put keeps the ids apart, if the entry brings no id or an unused one.
  pub put_keeps_IsKeyed :
      {ids : ℕ → String}
      → IsFresh ids
      → (now : ℕ) (e : Entry F) (m : Memory F) → (e.id ≡ "") ⊎ (has_id e.id m.records ≡ false)
      → IsKeyed m.records
      → IsKeyed (put ids now e m).0.records
  unfolding put
  put_keeps_IsKeyed {ids} fresh now e m free keyed =
      let (id, drawn, found, given, new) = put_id-returns fresh e.id m in
      let chosen : (id ≢ "") × (has_id id m.records ≡ false) = elim (Bool-cases (str_eq e.id "")) [
        | inl missing ↦ new ((eq_iff e.id "").0 missing)
        | inr named ↦
            let ne : e.id ≢ "" = λ h. true≢false (sym ((eq_iff e.id "").1 h) ∙ named) in
            elim free [
              | inl missing ↦ absurd (ne missing)
              | inr unused ↦ rw (given ne) (ne, unused)
            ]
      ] in
      elim (Bool-cases (ltb max_entry_bytes (len e.content))) [
        | inl big ↦ rw big keyed
        | inr small ↦
            rw (small, found)
              (IsKeyed-snoc m.records (stored (entry_with id now e)) keyed chosen.0 chosen.1)
      ]
