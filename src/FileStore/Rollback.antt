-- ===== src/FileStore/Rollback.antt =====
-- What Put leaves in memory where the disk refuses the line.
use crewai_go.Base.{
  ℕ, zero, suc, ◌+◌, ◌==◌, true, none, some, List, [], ◌∷◌, length, get_elem?, String, ◌≡◌, ◌≢◌,
  ◌++◌, refl, ap, ◌∙◌,
}
use crewai_go.Base.Table.{lookup, string_key}
use crewai_go.Memory.{Entry}
use crewai_go.FileStore.{
  ScopeIndex, Codec, remove, set_at, drop_last, upsert_at, upsert, roll_back, Partition, put_entry,
  Append, unwritten, unsynced, appended,
}
use crewai_go.FileStore.View.{view, view-some, view-none, lookup-remove_self}

length-set_at : {A : Type 0} (i : ℕ) (e : A) (xs : List A) → length (set_at i e xs) ≡ length xs
unfolding set_at
length-set_at i e [] = refl
length-set_at zero e (x ∷ xs) = refl
length-set_at (suc i) e (x ∷ xs) = ap suc (length-set_at i e xs)

module _ {F : Type 0} (e : Entry F) where
  -- The index that a failed upsert of the last entry leaves.
  dropped : ScopeIndex F → ScopeIndex F
  dropped idx = record idx { entries = drop_last idx.entries; by_id = remove e.id idx.by_id }

  roll_back-last :
      (idx : ScopeIndex F) (i : ℕ)
      → lookup e.id idx.by_id ≡ some i
      → (i + 1 == length idx.entries) ≡ true
      → roll_back e idx ≡ dropped idx
  unfolding roll_back dropped
  roll_back-last idx i at last = rw (at, last, roll_back) refl

  -- What the file of the scope is after a Put that fails.
  abbrev pub lines_after : Codec F → Append → Partition F → List String
  lines_after codec unsynced part = part.lines ++ codec.marshal_entry e ∷ []
  lines_after codec unwritten part = part.lines
  lines_after codec endinged part = part.lines

  -- Where an append fails, the entry is dropped from the index, whatever became of the line.
  put_entry-fails :
      (codec : Codec F) (scope : String) (ending : Append) (part : Partition F)
      → ending ≢ appended
      → put_entry codec scope ending e part ≡ record {
        index = roll_back e (upsert e part.index);
        lines = lines_after codec ending part;
      }
  unfolding put_entry
  put_entry-fails codec scope unwritten part h = refl
  put_entry-fails codec scope unsynced part h = refl
  put_entry-fails codec scope endinged part h = absurd (h refl)

  -- Put of an entry whose id is the last one of the scope, where the append fails: the store had an
  -- entry under this id, and yet the id has no entry any more. The file is as before where the append
  -- fails before the line is written, and has the new entry's line where only its Sync fails.
  pub put_entry-loses :
      (codec : Codec F) (scope : String) (ending : Append) (part : Partition F) (i : ℕ)
      (x : Entry F)
      → ending ≢ appended
      → lookup e.id part.index.by_id ≡ some i
      → (i + 1 == length part.index.entries) ≡ true
      → get_elem? part.index.entries i ≡ some x
      → (view part.index e.id ≡ some x)
        × ((put_entry codec scope ending e part).lines ≡ lines_after codec ending part)
        × (view (put_entry codec scope ending e part).index e.id ≡ none)
  unfolding upsert upsert_at dropped
  put_entry-loses codec scope ending part i x failing at last there =
      let failed = put_entry-fails codec scope ending part failing in
      let idx : ScopeIndex F = record part.index { entries = set_at i e part.index.entries } in
      let back : roll_back e (upsert e part.index) ≡ dropped idx =
        ap (λ found. roll_back e (upsert_at found e part.index)) at
        ∙ roll_back-last idx i at
            (ap (λ n. i + 1 == n) (length-set_at i e part.index.entries) ∙ last) in
      (
        view-some part.index e.id i at ∙ there,
        ap (λ p. p.lines) failed,
        ap (λ p. view p.index e.id) failed
            ∙ ap (λ idx'. view idx' e.id) back
            ∙ view-none (dropped idx) e.id (lookup-remove_self e.id part.index.by_id),
      )
