-- ===== src/FileStore.antt =====
-- filestore.go: the durable memory store. This file has one scope, its index in memory and the lines
-- of its entries.jsonl; encoding/json is an interface, and the disk answers each append. `View` is the
-- map from ids to entries that an index stands for, `Replay` is about reopening a scope, `Rollback`
-- about a failed append, and `Service` has the operations over all scopes.
pub mod View
pub mod Replay
pub mod Rollback
pub mod Service
mod Tests
use crewai_go.Base.{
  ℕ, zero, suc, ◌+◌, ◌-◌, ◌==◌, ltb, if◌then◌else◌, Bool, true, false, not, ◌&&◌, Option, none,
  some, List, [], ◌∷◌, ◌++◌, length, get_elem?, String, str_eq,
}
use crewai_go.Base.Table.{Table, lookup, insert, string_key}
use crewai_go.Base.Result.{Result, ok, err, ◌>>=◌}
use crewai_go.Memory.{Entry, max_entry_bytes}
use crewai_go.Memory.Text.{len}

-- scopeIndex: its entries in the order of their commits, and the index of each id among them.
pub record ScopeIndex (F : Type 0) : Type 0 where
  pub entries : List (Entry F)
  pub by_id : Table String ℕ
  pub corrupt_skipped : ℕ

abbrev pub empty_index : (F : Type 0) → ScopeIndex F
empty_index F = record { entries = []; by_id = []; corrupt_skipped = 0 }

-- `delete(m, k)`.
pub remove : {V : Type 0} → String → Table String V → Table String V
remove k [] = []
remove k ((j, i) ∷ m) = let rest = remove k m in if str_eq j k then rest else (j, i) ∷ rest

-- `entries[i] = e`.
pub set_at : {A : Type 0} → ℕ → A → List A → List A
set_at i e [] = []
set_at zero e (x ∷ xs) = e ∷ xs
set_at (suc i) e (x ∷ xs) = x ∷ set_at i e xs

-- `entries[:len(entries)-1]`.
pub drop_last : {A : Type 0} → List A → List A
drop_last [] = []
drop_last (x ∷ []) = []
drop_last (x ∷ y ∷ xs) = x ∷ drop_last (y ∷ xs)

-- encoding/json on the two kinds of lines, and strings.TrimSpace on a line.
pub record Codec (F : Type 0) : Type 0 where
  pub marshal_entry : Entry F → String
  pub marshal_tombstone : String → String
  pub unmarshal_tombstone : String → Option (String × Bool)
  pub unmarshal_entry : String → Option (Entry F)
  pub trim : String → String

-- The scanner's buffer.
abbrev pub max_line : ℕ
max_line = 98304

pub data LoadError : Type 0 where
  token_too_long : LoadError

-- How appendLineLocked ends: an error before the line is written, an error of Sync after it, or none.
pub data Append : Type 0 where
  unwritten unsynced appended : Append

-- The index and the file of a scope.
pub record Partition (F : Type 0) : Type 0 where
  pub index : ScopeIndex F
  pub lines : List String

module _ {F : Type 0} where
  -- The upsert that Put and loadScope have.
  pub upsert_at : Option ℕ → Entry F → ScopeIndex F → ScopeIndex F
  unfolding set_at
  upsert_at (some i) e idx = record idx { entries = set_at i e idx.entries }
  upsert_at none e idx = record idx {
    by_id = insert e.id (length idx.entries) idx.by_id;
    entries = idx.entries ++ e ∷ [];
  }

  pub upsert : Entry F → ScopeIndex F → ScopeIndex F
  unfolding upsert_at
  upsert e idx = upsert_at (lookup e.id idx.by_id) e idx

  pub forget : String → ScopeIndex F → ScopeIndex F
  unfolding remove
  forget id idx = record idx { by_id = remove id idx.by_id }

  -- The branch of Put where the line could not be appended.
  pub roll_back : Entry F → ScopeIndex F → ScopeIndex F
  unfolding remove drop_last
  roll_back e idx = elim (lookup e.id idx.by_id) [
    | none ↦ idx
    | some i ↦
        if i + 1 == length idx.entries
        then record idx { entries = drop_last idx.entries; by_id = remove e.id idx.by_id }
        else idx
  ]

  pub count_corrupt : ScopeIndex F → ScopeIndex F
  count_corrupt idx = record idx { corrupt_skipped = idx.corrupt_skipped + 1 }

module _ {F : Type 0} (codec : Codec F) (scope : String) where
  -- Put on its scope.
  pub put_entry : Append → Entry F → Partition F → Partition F
  unfolding upsert roll_back
  put_entry appended e part = record {
    index = upsert e part.index;
    lines = part.lines ++ codec.marshal_entry e ∷ [];
  }
  put_entry unwritten e part = record part { index = roll_back e (upsert e part.index) }
  put_entry unsynced e part = record {
    index = roll_back e (upsert e part.index);
    lines = part.lines ++ codec.marshal_entry e ∷ [];
  }

  -- Delete on its scope.
  pub delete_entry : Append → String → Partition F → Partition F
  unfolding forget
  delete_entry append id part =
      let lines = part.lines ++ codec.marshal_tombstone id ∷ [] in
      if str_eq id "" then part else elim (lookup id part.index.by_id) [
        | none ↦ part
        | some i ↦ elim append [
          | unwritten ↦ part
          | unsynced ↦ record part { lines = lines }
          | appended ↦ record { index = forget id part.index; lines = lines }
        ]
      ]

  -- A line that is not a tombstone.
  pub load_entry : Option (Entry F) → ScopeIndex F → ScopeIndex F
  unfolding count_corrupt upsert
  load_entry none idx = count_corrupt idx
  load_entry (some e) idx =
      if str_eq e.id "" then count_corrupt idx else upsert (record e { scope = scope }) idx

  pub load_parsed : Option (String × Bool) → String → ScopeIndex F → ScopeIndex F
  unfolding load_entry forget
  load_parsed none line idx = load_entry (codec.unmarshal_entry line) idx
  load_parsed (some (id, deleted)) line idx =
      if deleted && not (str_eq id "")
      then forget id idx
      else load_entry (codec.unmarshal_entry line) idx

  -- The body of the loop of loadScope.
  pub load_line : String → ScopeIndex F → ScopeIndex F
  unfolding load_parsed
  load_line text idx =
      let line = codec.trim text in
      if str_eq line "" then idx else load_parsed (codec.unmarshal_tombstone line) line idx

  -- The scanner and its loop.
  pub load_lines : List String → ScopeIndex F → Result LoadError (ScopeIndex F)
  unfolding load_line
  load_lines [] idx = ok idx
  load_lines (text ∷ texts) idx =
      let rest = load_lines texts (load_line text idx) in
      if ltb (len text) max_line then rest else err token_too_long
