-- ===== src/Memory/Store.antt =====
-- `Memory`: its records, and the operations of `MemoryStore` on them. Each holds the lock throughout,
-- so it is one step. `ids` are the texts that newMemoryID draws, one after the other, and `now` is
-- the clock's reading.
pub mod Recall
pub mod Ids
pub mod Samples
mod Tests
use crewai_go.Base.{
  ℕ, zero, suc, ◌+◌, ltb, if◌then◌else◌, Bool, true, false, not, ◌&&◌, ◌||◌, Option, none, some,
  List, [], ◌∷◌, ◌++◌, length, keep, String, str_eq,
}
use crewai_go.Base.Result.{Result, ok, err}
use crewai_go.Memory.{
  Floats, Entry, Query, clamp_limit, clamp_max_chars, take_latest_n, rank_by_embedding,
  max_entry_bytes,
}
use crewai_go.Memory.Text.{len, Unicode, to_lower, trim_space, contains}

pub data StoreError : Type 0 where
  too_large : StoreError
  no_id : StoreError

pub record Slot (F : Type 0) : Type 0 where
  pub agent : String
  pub task : String
  pub content : String
  pub id : String
  pub scope : String
  pub created_at : Option ℕ
  pub embedding : List F

-- The records, and how many ids have been drawn.
pub record Memory (F : Type 0) : Type 0 where
  pub records : List (Slot F)
  pub drawn : ℕ

abbrev pub new_memory : (F : Type 0) → Memory F
new_memory F = record { records = []; drawn = 0 }

abbrev pub or_now : ℕ → Option ℕ → Option ℕ
or_now now none = some now
or_now now (some t) = some t

module _ {F : Type 0} where
  pub save : String → String → String → Memory F → Memory F
  save agent task content m = record m {
    records =
        m.records
        ++ record {
          agent = agent;
          task = task;
          content = content;
          id = "";
          scope = "";
          created_at = none;
          embedding = [];
        }
          ∷ [];
  }

  pub has_id : String → List (Slot F) → Bool
  has_id id [] = false
  has_id id (s ∷ ss) = str_eq s.id id || has_id id ss

  -- generateIDLocked, on fuel: the id and the number of ids drawn.
  pub generate_id : (ℕ → String) → ℕ → ℕ → List (Slot F) → Option (String × ℕ)
  unfolding has_id
  generate_id ids zero drawn slots = none
  generate_id ids (suc fuel) drawn slots =
      let candidate = ids drawn in
      let again = generate_id ids fuel (suc drawn) slots in
      if has_id candidate slots then again else some (candidate, suc drawn)

  -- The id that Put gives to an entry; distinct draws need one more than there are records.
  pub put_id : (ℕ → String) → String → Memory F → Option (String × ℕ)
  unfolding generate_id
  put_id ids id m =
      if str_eq id ""
      then generate_id ids (suc (length m.records)) m.drawn m.records
      else some (id, m.drawn)

  abbrev pub stored : Entry F → Slot F
  stored e = record {
    agent = e.agent;
    task = e.task;
    content = e.content;
    id = e.id;
    scope = e.scope;
    created_at = e.created_at;
    embedding = e.embedding;
  }

  abbrev pub entry_of : Slot F → Entry F
  entry_of s = record {
    id = s.id;
    scope = s.scope;
    agent = s.agent;
    task = s.task;
    content = s.content;
    created_at = s.created_at;
    embedding = s.embedding;
  }

  -- Put. The records keep neither the metadata nor the caller's buffer.
  pub put : (ℕ → String) → ℕ → Entry F → Memory F → Memory F × Result StoreError (Entry F)
  unfolding put_id
  put ids now e m =
      if ltb max_entry_bytes (len e.content) then (m, err too_large) else elim (put_id ids e.id m) [
        | none ↦ (m, err no_id)
        | some (id, drawn) ↦
            let e' = record e { id = id; created_at = or_now now e.created_at } in
            (record { records = m.records ++ stored e' ∷ []; drawn = drawn }, ok e')
      ]

  -- idForLocked: a record without an id gets the next one.
  pub id_for : (ℕ → String) → ℕ → Slot F → Slot F × ℕ
  id_for ids drawn s =
      if str_eq s.id "" then (record s { id = ids drawn }, suc drawn) else (s, drawn)

  -- The tests of the loop of Query.
  pub matches : Unicode → Bool → String → Slot F → Bool
  unfolding to_lower contains
  matches u semantic text s =
      semantic
      || str_eq text ""
      || contains (to_lower u s.content) text
      || contains (to_lower u s.task) text

  -- The loop of Query: the records with the ids that it gives out, and the candidates.
  pub collect :
      Unicode
      → (ℕ → String)
      → String
      → Bool
      → String
      → ℕ
      → List (Slot F)
      → List (Slot F) × ℕ × List (Entry F)
  unfolding matches id_for
  collect u ids scope semantic text drawn [] = ([], drawn, [])
  collect u ids scope semantic text drawn (s ∷ ss) =
      let wanted = str_eq s.scope scope && matches u semantic text s in
      let (s', drawn') = if wanted then id_for ids drawn s else (s, drawn) in
      let (ss', drawn'', found) = collect u ids scope semantic text drawn' ss in
      (s' ∷ ss', drawn'', if wanted then entry_of s' ∷ found else found)

  pub query : Floats F → Unicode → (ℕ → String) → Query F → Memory F → Memory F × List (Entry F)
  unfolding collect trim_space to_lower clamp_limit clamp_max_chars
  query fl u ids q m =
      let semantic = ltb 0 (length q.embedding) in
      let text = to_lower u (trim_space u q.text) in
      let limit = clamp_limit q.limit in
      let max_chars = clamp_max_chars q.max_chars in
      let (records, drawn, candidates) = collect u ids q.scope semantic text m.drawn m.records in
      let hits =
        if semantic
        then rank_by_embedding fl q.embedding candidates limit max_chars
        else take_latest_n candidates limit max_chars in
      (record { records = records; drawn = drawn }, hits)

  -- The loop of Delete, which stops at the first record with the id in the scope.
  pub remove : (ℕ → String) → String → String → ℕ → List (Slot F) → List (Slot F) × ℕ
  unfolding id_for
  remove ids scope id drawn [] = ([], drawn)
  remove ids scope id drawn (s ∷ ss) =
      let (s', drawn') = id_for ids drawn s in
      let (ss', drawn'') = remove ids scope id drawn' ss in
      if str_eq s'.id id && str_eq s'.scope scope then (ss, drawn') else (s' ∷ ss', drawn'')

  pub delete : (ℕ → String) → String → String → Memory F → Memory F
  unfolding remove
  delete ids scope id m =
      let (records, drawn) = remove ids scope id m.drawn m.records in
      record { records = records; drawn = drawn }

  pub search : Unicode → String → Memory F → List (Slot F)
  unfolding to_lower trim_space contains
  search u text m =
      keep
        (λ s.
          str_eq (trim_space u text) ""
          || contains (to_lower u s.content) (to_lower u text)
          || contains (to_lower u s.task) (to_lower u text))
        m.records
