-- ===== src/Memory/Policy/Tests.antt =====
-- A buffer of two tasks, filled against their order, over a store that is a list of contents.
use crewai_go.Base.{ℕ, ◌≡◌, refl, true, false, none, some, List, [], ◌∷◌, ◌++◌, String, arith}
use crewai_go.Memory.{Entry}
use crewai_go.Memory.Policy.{Host, Buffer, new_policy, commit_buffer}
use crewai_go.Memory.Policy.Order.{commit_buffer-exchange}

abbrev entry : String → Entry ℕ
entry content = record {
  id = "";
  scope = "";
  agent = "a";
  task = "t";
  content = content;
  created_at = some 1;
  embedding = [];
}

abbrev host : Host ℕ (List String)
host = record {
  put = some (λ w e. (w ++ e.content ∷ [], true));
  embed = none;
  ctx_done = λ w. false;
}

abbrev late : Buffer ℕ
late = record { buffering = true; entries = (2, entry "second") ∷ (1, entry "first") ∷ [] }

abbrev early : Buffer ℕ
early = record { buffering = true; entries = (1, entry "first") ∷ (2, entry "second") ∷ [] }

commit_buffer-late :
    (commit_buffer host (1 ∷ 2 ∷ []) (some new_policy) late []).1 ≡ "first" ∷ "second" ∷ []
unfolding commit_buffer
commit_buffer-late = refl

commit_buffer-exchange_example :
    commit_buffer host (1 ∷ 2 ∷ []) (some new_policy) late []
    ≡ commit_buffer host (1 ∷ 2 ∷ []) (some new_policy) early []
commit_buffer-exchange_example =
    commit_buffer-exchange host (some new_policy) (1 ∷ 2 ∷ []) true [] [] 2 1 (entry "second")
      (entry "first") [] (λ h. absurd (omega (arith, h)))
