-- ===== src/Memory/Store/Tests.antt =====
-- A small store, over numbers in place of float32.
use crewai_go.Base.{
  ℕ, ◌+◌, ◌*◌, ◌≡◌, ◌≢◌, refl, inl, leb, ◌==◌, false, none, [], ◌∷◌, ◌++◌, map, keep, not, String,
  ltb,
}
use crewai_go.Base.Int.{pos}
use crewai_go.Base.Result.{ok}
use crewai_go.Memory.{Floats, Entry, Query, take_latest_n}
use crewai_go.Memory.Text.{Unicode, to_lower, trim_space}
use crewai_go.Memory.Store.{Memory, new_memory, put, query, delete, stored, has_id}
use crewai_go.Memory.Store.Ids.{
  IsKeyed, entry_with, is_target, put_accepts, put_keeps_IsKeyed, delete_exact,
}
use text.Mathlib.TextLemmas.{cons≢nil}
use crewai_go.Memory.Store.Samples.{ids, ids-IsFresh}

-- Over whole numbers; division is not reached by the runs below.
abbrev numbers : Floats ℕ
numbers = record {
  zero_f = 0;
  add_f = λ a b. a + b;
  mul_f = λ a b. a * b;
  div_f = λ a b. a;
  sqrt_f = λ a. a;
  eq_f = λ a b. a == b;
  gt_f = λ a b. ltb b a;
  le_f = λ a b. leb a b;
}

abbrev plain : Unicode
plain = record { lower = λ c. c; space = λ c. false }

abbrev entry : String → String → Entry ℕ
entry scope content = record {
  id = "";
  scope = scope;
  agent = "writer";
  task = "t";
  content = content;
  created_at = none;
  embedding = [];
}

abbrev filled : Memory ℕ
filled = (put ids 8 (entry "b" "two") (put ids 7 (entry "a" "one") (new_memory ℕ)).0).0

abbrev latest : Query ℕ
latest = record { scope = "a"; text = ""; embedding = []; limit = pos 0; max_chars = pos 0 }

query-filled :
    map {B = String × String} (λ e. (e.id, e.content)) (query numbers plain ids latest filled).1
    ≡ ("i", "one") ∷ []
unfolding query put ids take_latest_n
query-filled = refl

abbrev text_of : Query ℕ → String
text_of q = to_lower plain (trim_space plain q.text)

put_accepts_example :
    (id : String) × (drawn : ℕ) × (put ids 9 (entry "a" "new") filled ≡ (
      record {
        records = filled.records ++ stored (entry_with id 9 (entry "a" "new")) ∷ [];
        drawn = drawn;
      },
      ok (entry_with id 9 (entry "a" "new")),
    ))
    × ((entry "a" "new").id ≢ "" → id ≡ (entry "a" "new").id)
    × ((entry "a" "new").id ≡ "" → (id ≢ "") × (has_id id filled.records ≡ false))
put_accepts_example = put_accepts ids-IsFresh 9 (entry "a" "new") filled refl

filled-IsKeyed : IsKeyed filled.records
unfolding put ids has_id
filled-IsKeyed = (cons≢nil, refl, (cons≢nil, refl, tt))

delete_exact_example :
    (delete ids "b" "ii" filled).records ≡ keep (λ s. not (is_target "b" "ii" s)) filled.records
delete_exact_example = delete_exact ids "b" "ii" filled filled-IsKeyed

put_keeps_IsKeyed_example : IsKeyed (put ids 9 (entry "a" "new") filled).0.records
put_keeps_IsKeyed_example =
    put_keeps_IsKeyed ids-IsFresh 9 (entry "a" "new") filled (inl refl) filled-IsKeyed
