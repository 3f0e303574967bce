-- ===== src/Delegation/Tests.antt =====
-- A lead that asks a writer.
use crewai_go.Base.{ℕ, ◌≤◌, ◌≡◌, refl, true, Option, none, some, List, [], ◌∷◌, str_eq}
use crewai_go.Base.Result.{ok}
use crewai_go.Delegation.{Context, Agent, Host, Delegated, admit}
use crewai_go.Delegation.Chains.{IsAllowed, admit_allows, none_open, one_more, Chain-le}

abbrev host : Host ℕ
host = record {
  trim = λ s. s;
  equal_fold = str_eq;
  unmarshal = λ raw. some (record { coworker = "writer"; request = "write"; context = "" });
  describe = λ request context. request;
  truncate = λ s. s;
  execute = λ c a text w. (w, ok "text");
}

abbrev root : Context
root = record { role = "lead"; depth = 0; stack = [] }

abbrev roster : Option (List (Option Agent))
roster = some (
    some (record { role = "lead"; allow_delegation = true })
    ∷ none
    ∷ some (record { role = "writer"; allow_delegation = true })
    ∷ [])

abbrev to_writer : Delegated
to_writer = record {
  target = record { role = "writer"; allow_delegation = true };
  context = record { role = "writer"; depth = 1; stack = "lead" ∷ [] };
  text = "write";
}

admit-writer : admit host roster root "{}" ≡ ok to_writer
unfolding admit
admit-writer = refl

admit_allows_example : IsAllowed host root "{}" to_writer
admit_allows_example = admit_allows host roster root "{}" admit-writer

Chain-le_example : 1 ≤ 2
Chain-le_example = Chain-le host (one_more roster "{}" to_writer none_open admit-writer) refl
