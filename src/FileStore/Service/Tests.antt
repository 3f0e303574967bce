-- ===== src/FileStore/Service/Tests.antt =====
-- Put, Query and Delete on a store with one scope.
use crewai_go.Base.{
  ℕ, ◌+◌, ◌==◌, ltb, leb, ◌≤◌, true, false, none, some, [], ◌∷◌, length, String, ◌≡◌, ◌≢◌, refl,
}
use crewai_go.Base.Int.{pos}
use crewai_go.Base.Result.{ok}
use crewai_go.Memory.{Floats, Entry, Query, take_latest_n, clamp_limit, clamp_max_chars}
use crewai_go.Memory.Text.{Unicode, to_lower, trim_space}
use crewai_go.Memory.Recent.{All}
use crewai_go.Memory.Store.Samples.{ids, ids-IsFresh}
use crewai_go.FileStore.{Codec, appended, upsert, remove, empty_index}
use crewai_go.FileStore.Service.{
  FileStore, Disk, store_put, store_delete, store_query, is_used, set_scope,
}
use crewai_go.FileStore.View.{empty-IsIndexed}
use crewai_go.FileStore.View.Keeps.{upsert-IsIndexed}
use crewai_go.FileStore.Service.Deletes.{IsDelete, store_delete-IsDelete}
use crewai_go.FileStore.Service.Live.{view_of, store_query-live}
use crewai_go.FileStore.Service.Scopes.{IsStore, IsPut, set_scope-IsStore, store_put-IsPut}

abbrev note : String → Entry ℕ
note id = record {
  id = id;
  scope = "s";
  agent = "a";
  task = "t";
  content = "one";
  created_at = none;
  embedding = [];
}

abbrev codec : Codec ℕ
codec = record {
  marshal_entry = λ e. e.content;
  marshal_tombstone = λ id. id;
  unmarshal_tombstone = λ line. some ("x", false);
  unmarshal_entry = λ line. some (note line);
  trim = λ s. s;
}

abbrev floats : Floats ℕ
floats = record {
  zero_f = 0;
  add_f = λ a b. a + b;
  mul_f = λ a b. a;
  div_f = λ a b. a;
  sqrt_f = λ a. a;
  eq_f = λ a b. a == b;
  gt_f = λ a b. ltb b a;
  le_f = λ a b. leb a b;
}

abbrev unicode : Unicode
unicode = record { lower = λ c. c; space = λ c. false }

abbrev fine : Disk
fine = record { append = appended; meta_written = true }

abbrev new_store : FileStore ℕ
new_store = record { closed = false; by_scope = []; drawn = 0 }

new_store-IsStore : IsStore new_store
unfolding IsStore
new_store-IsStore scope part h = absurd (cc)

store_put-IsPut_example :
    (id : String) × ((store_put codec ids 7 false fine (note "") new_store).1
      ≡ ok (record (note id) { created_at = some 7 }))
    × IsPut 7
        (note "")
        new_store
        (store_put codec ids 7 false fine (note "") new_store).0
        (record (note id) { created_at = some 7 })
    × ((note "").id ≢ "" → id ≡ (note "").id)
    × ((note "").id ≡ "" → (id ≢ "") × (is_used id (new_store).by_scope ≡ false))
store_put-IsPut_example =
    store_put-IsPut codec ids-IsFresh 7 fine (note "") new_store new_store-IsStore refl refl refl
      refl

abbrev one_note : FileStore ℕ
one_note = record {
  closed = false;
  by_scope =
      (
        "s",
        record {
          index = record { entries = note "k" ∷ []; by_id = ("k", 0) ∷ []; corrupt_skipped = 0 };
          lines = "one" ∷ [];
        },
      )
      ∷ [];
  drawn = 1;
}

abbrev latest : Query ℕ
latest = record { scope = "s"; text = ""; embedding = []; limit = pos 5; max_chars = pos 100 }

store_query-live_example :
    All (λ e. view_of one_note "s" e.id ≡ some e) (note "k" ∷ []) × (length (note "k" ∷ []) ≤ 32)
unfolding store_query take_latest_n clamp_limit clamp_max_chars to_lower trim_space
store_query-live_example =
    store_query-live floats unicode false latest one_note (note "k" ∷ []) refl

one_note-IsStore : IsStore one_note
unfolding IsStore set_scope upsert remove
one_note-IsStore =
    set_scope-IsStore "s" (record { index = upsert (note "k") (empty_index ℕ); lines = "one" ∷ [] })
      new_store (upsert-IsIndexed (note "k") (empty_index ℕ) (empty-IsIndexed ℕ)) new_store-IsStore

store_delete-IsDelete_example :
    ((store_delete codec false fine "s" "k" one_note).1 ≡ ok tt)
    × IsDelete "s" "k" one_note (store_delete codec false fine "s" "k" one_note).0
store_delete-IsDelete_example =
    store_delete-IsDelete codec fine "s" "k" one_note one_note-IsStore refl refl refl refl
