-- ===== src/FileStore/Service.antt =====
-- `FileStore`: its scopes, and Put, Query, Delete and Close on them. Each holds the lock throughout,
-- so it is one step. `done` is whether the context is; `ids` and `now` are as in `Memory.Store`. The
-- flag for meta.json is left out: `Disk` tells how the append of the
-- line ends and whether meta.json could be written.
pub mod Live
pub mod Fresh
pub mod Scopes
pub mod Deletes
mod Tests
use crewai_go.Base.{
  ℕ, zero, suc, ◌+◌, ◌==◌, ltb, if◌then◌else◌, Bool, true, false, not, ◌&&◌, ◌||◌, Option, none,
  some, List, [], ◌∷◌, length, String, str_eq,
}
use crewai_go.Base.Table.{Table, lookup, insert, string_key}
use crewai_go.Base.Result.{Result, ok, err}
use crewai_go.Memory.{
  Floats, Entry, Query, clamp_limit, clamp_max_chars, take_latest_n, rank_by_embedding,
  max_entry_bytes,
}
use crewai_go.Memory.Store.{or_now}
use crewai_go.Memory.Text.{len, Unicode, to_lower, trim_space, contains}
use crewai_go.FileStore.{
  ScopeIndex, empty_index, remove, Codec, Append, unwritten, unsynced, appended, Partition,
  put_entry, delete_entry,
}

pub data FileError : Type 0 where
  context_done : FileError
  entry_too_large : FileError
  store_closed : FileError
  no_fresh_id : FileError
  not_written : FileError

-- What the disk answers.
pub record Disk : Type 0 where
  pub append : Append
  pub meta_written : Bool

-- The scopes, and how many ids have been drawn.
pub record FileStore (F : Type 0) : Type 0 where
  pub closed : Bool
  pub by_scope : Table String (Partition F)
  pub drawn : ℕ

-- Whether an index lists the entry at this position under its id.
pub is_current : Option ℕ → ℕ → Bool
is_current none i = false
is_current (some j) i = j == i

pub has_key : Option ℕ → Bool
has_key none = false
has_key (some i) = true

abbrev pub is_appended : Append → Bool
is_appended unwritten = false
is_appended unsynced = false
is_appended appended = true

-- The error of an append or of writing meta.json, or the result.
abbrev pub written : {A : Type 0} → Disk → A → Result FileError A
written disk a = if is_appended disk.append && disk.meta_written then ok a else err not_written

module _ {F : Type 0} where
  -- The partition that scopeLocked finds or makes.
  pub partition_or_new : Option (Partition F) → Partition F
  partition_or_new none = record { index = empty_index F; lines = [] }
  partition_or_new (some part) = part

  pub set_scope : String → Partition F → FileStore F → FileStore F
  unfolding remove
  set_scope scope part fs = record fs { by_scope = insert scope part (remove scope fs.by_scope) }

  pub is_used : String → Table String (Partition F) → Bool
  unfolding has_key
  is_used id [] = false
  is_used id ((scope, part) ∷ parts) = has_key (lookup id part.index.by_id) || is_used id parts

  pub count_ids : Table String (Partition F) → ℕ
  count_ids [] = 0
  count_ids ((scope, part) ∷ parts) = length part.index.by_id + count_ids parts

  -- freshIDLocked, on fuel: the id and the number of ids drawn.
  pub fresh_id : (ℕ → String) → ℕ → ℕ → Table String (Partition F) → Option (String × ℕ)
  unfolding is_used
  fresh_id ids zero drawn parts = none
  fresh_id ids (suc fuel) drawn parts =
      let again = fresh_id ids fuel (suc drawn) parts in
      if is_used (ids drawn) parts then again else some (ids drawn, suc drawn)

  -- The id of the entry; distinct draws need one more than there are ids.
  pub entry_id : (ℕ → String) → String → FileStore F → Option (String × ℕ)
  unfolding fresh_id count_ids
  entry_id ids id fs =
      if str_eq id ""
      then fresh_id ids (suc (count_ids fs.by_scope)) fs.drawn fs.by_scope
      else some (id, fs.drawn)

  -- Put of an entry that has its id and its time.
  pub put_complete :
      Codec F → Disk → Entry F → FileStore F → FileStore F × Result FileError (Entry F)
  unfolding put_entry partition_or_new set_scope
  put_complete codec disk e fs =
      let part = partition_or_new (lookup e.scope fs.by_scope) in
      (set_scope e.scope (put_entry codec e.scope disk.append e part) fs, written disk e)

  pub put_named :
      Codec F
      → Disk
      → ℕ
      → Entry F
      → Option (String × ℕ)
      → FileStore F
      → FileStore F × Result FileError (Entry F)
  unfolding put_complete
  put_named codec disk now e none fs = (fs, err no_fresh_id)
  put_named codec disk now e (some (id, drawn)) fs =
      put_complete codec disk (record e { id = id; created_at = or_now now e.created_at })
        (record fs { drawn = drawn })

  pub store_put :
      Codec F
      → (ℕ → String)
      → ℕ
      → Bool
      → Disk
      → Entry F
      → FileStore F
      → FileStore F × Result FileError (Entry F)
  unfolding put_named entry_id
  store_put codec ids now done disk e fs =
      if done
      then (fs, err context_done)
      else if ltb max_entry_bytes (len e.content)
      then (fs, err entry_too_large)
      else if fs.closed
      then (fs, err store_closed)
      else put_named codec disk now e (entry_id ids e.id fs) fs

  -- Delete in the scope that the store has under this name, if any.
  pub delete_in :
      Codec F
      → Disk
      → String
      → String
      → Option (Partition F)
      → FileStore F
      → FileStore F × Result FileError (Unit {0})
  unfolding delete_entry set_scope has_key
  delete_in codec disk scope id none fs = (fs, ok tt)
  delete_in codec disk scope id (some part) fs =
      if has_key (lookup id part.index.by_id)
      then (set_scope scope (delete_entry codec scope disk.append id part) fs, written disk tt)
      else (fs, ok tt)

  pub store_delete :
      Codec F
      → Bool
      → Disk
      → String
      → String
      → FileStore F
      → FileStore F × Result FileError (Unit {0})
  unfolding delete_in
  store_delete codec done disk scope id fs =
      if done
      then (fs, err context_done)
      else if str_eq id ""
      then (fs, ok tt)
      else if fs.closed
      then (fs, err store_closed)
      else delete_in codec disk scope id (lookup scope fs.by_scope) fs

  -- The tests of the loop of Query on an entry and its position.
  pub asks_for : Unicode → Bool → String → Entry F → Bool
  asks_for u semantic text e =
      semantic
      || str_eq text ""
      || contains (to_lower u e.content) text
      || contains (to_lower u e.task) text

  -- The loop of Query, from a position on.
  pub candidates : Unicode → Bool → String → Table String ℕ → ℕ → List (Entry F) → List (Entry F)
  unfolding is_current asks_for
  candidates u semantic text by_id i [] = []
  candidates u semantic text by_id i (e ∷ es) =
      let rest = candidates u semantic text by_id (suc i) es in
      if is_current (lookup e.id by_id) i && asks_for u semantic text e then e ∷ rest else rest

  pub query_in : Floats F → Unicode → Query F → Option (Partition F) → List (Entry F)
  unfolding candidates
  query_in fl u q none = []
  query_in fl u q (some part) =
      let semantic = ltb 0 (length q.embedding) in
      let text = to_lower u (trim_space u q.text) in
      let limit = clamp_limit q.limit in
      let max_chars = clamp_max_chars q.max_chars in
      let found = candidates u semantic text part.index.by_id 0 part.index.entries in
      if semantic
      then rank_by_embedding fl q.embedding found limit max_chars
      else take_latest_n found limit max_chars

  pub store_query :
      Floats F → Unicode → Bool → Query F → FileStore F → Result FileError (List (Entry F))
  unfolding query_in
  store_query fl u done q fs =
      if done
      then err context_done
      else if fs.closed
      then err store_closed
      else ok (query_in fl u q (lookup q.scope fs.by_scope))

  -- Close; the argument is the first error of writing the meta.json of a changed scope.
  pub store_close : Option FileError → FileStore F → FileStore F × Option FileError
  store_close first fs = if fs.closed then (fs, none) else (record fs { closed = true }, first)

  pub corrupt_skipped_of : Table String (Partition F) → ℕ
  corrupt_skipped_of [] = 0
  corrupt_skipped_of ((scope, part) ∷ parts) = part.index.corrupt_skipped + corrupt_skipped_of parts
