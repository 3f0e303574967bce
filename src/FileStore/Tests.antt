-- ===== src/FileStore/Tests.antt =====
-- Operations on a scope of one or two entries, with a codec that knows their lines.
use crewai_go.Base.{
  ℕ, if◌then◌else◌, true, false, none, some, List, [], ◌∷◌, String, str_eq, ◌≡◌, refl,
}
use crewai_go.Base.Result.{ok}
use crewai_go.Memory.{Entry}
use crewai_go.FileStore.{Codec, unsynced, Partition, empty_index, put_entry, load_lines}
use crewai_go.FileStore.View.{view}
use crewai_go.FileStore.Replay.{
  Op, put_op, delete_op, empty_partition, run_ops, run_spec, Survives, AllSurvive, run_ops-refines,
}
use crewai_go.FileStore.Rollback.{put_entry-loses}

abbrev entry : String → String → Entry ℕ
entry id content = record {
  id = id;
  scope = "s";
  agent = "a";
  task = "t";
  content = content;
  created_at = some 1;
  embedding = [];
}

-- The line of an entry is its content, and that of a tombstone is "-" with the id.
abbrev codec : Codec ℕ
codec = record {
  marshal_entry = λ e. e.content;
  marshal_tombstone = λ id. "-x";
  unmarshal_tombstone = λ line. if str_eq line "-x" then some ("x", true) else some ("x", false);
  unmarshal_entry = λ line. some (entry "x" line);
  trim = λ s. s;
}

abbrev ops : List (Op ℕ)
ops = put_op (entry "x" "one") ∷ delete_op "x" ∷ put_op (entry "x" "two") ∷ []

ops-AllSurvive : AllSurvive codec "s" ops
unfolding Survives
ops-AllSurvive = (
  (record { trimmed = refl; not_blank = refl; short = refl }, refl, refl, refl, refl),
  (
    (record { trimmed = refl; not_blank = refl; short = refl }, refl, refl),
    ((record { trimmed = refl; not_blank = refl; short = refl }, refl, refl, refl, refl), tt),
  ),
)

run_ops-refines_example :
    (load_lines codec "s" (run_ops codec "s" ops (empty_partition ℕ)).lines (empty_index ℕ)
      ≡ ok (run_ops codec "s" ops (empty_partition ℕ)).index)
    × (view (run_ops codec "s" ops (empty_partition ℕ)).index ≡ run_spec ops (λ id. none))
run_ops-refines_example = run_ops-refines codec "s" ops ops-AllSurvive

abbrev one_entry : Partition ℕ
one_entry = record {
  index = record { entries = entry "x" "one" ∷ []; by_id = ("x", 0) ∷ []; corrupt_skipped = 0 };
  lines = "one" ∷ [];
}

put_entry-loses_example :
    (view one_entry.index "x" ≡ some (entry "x" "one"))
    × ((put_entry codec "s" unsynced (entry "x" "two") one_entry).lines ≡ "one" ∷ "two" ∷ [])
    × (view (put_entry codec "s" unsynced (entry "x" "two") one_entry).index "x" ≡ none)
put_entry-loses_example =
    put_entry-loses (entry "x" "two") codec "s" unsynced one_entry 0 (entry "x" "one") (λ h. cc)
      refl refl refl
