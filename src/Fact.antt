-- ===== src/Fact.antt =====
-- fact.go: facts with their provenance, and the tools that produce them.
-- A payload is its bytes; SHA-256 and the clock are parameters.
pub mod Dedup
pub mod Provenance
mod Tests
use crewai_go.Base.{
  ℕ, suc, if◌then◌else◌, Bool, true, false, ◌||◌, Option, none, some, List, [], ◌∷◌, ◌++◌, String,
  str_eq,
}
use crewai_go.Base.Result.{Result, ok, err}

pub record Fact : Type 0 where
  pub claim : String
  pub source_org : String
  pub source_url : String
  pub collected_at : ℕ
  pub payload_hash : String

pub new_fact : (List ℕ → String) → ℕ → String → String → String → List ℕ → Fact
new_fact sha256 now claim org url payload = record {
  claim = claim;
  source_org = org;
  source_url = url;
  collected_at = now;
  payload_hash = sha256 payload;
}

pub data Missing : Type 0 where
  missing_url : ℕ → Missing
  missing_hash : ℕ → Missing

-- AllFactsProvenanced, from position i on: the first fact that lacks provenance.
pub provenance_from : ℕ → List Fact → Option Missing
provenance_from i [] = none
provenance_from i (f ∷ fs) =
    if str_eq f.source_url ""
    then some (missing_url i)
    else if str_eq f.payload_hash ""
    then some (missing_hash i)
    else provenance_from (suc i) fs

pub all_facts_provenanced : List Fact → Option Missing
unfolding provenance_from
all_facts_provenanced = provenance_from 0

-- The set `seen`, as the hashes that it holds.
abbrev pub hashes : List Fact → List String
hashes [] = []
hashes (f ∷ fs) = f.payload_hash ∷ hashes fs

abbrev pub seen_hash : String → List String → Bool
seen_hash h [] = false
seen_hash h (k ∷ ks) = str_eq k h || seen_hash h ks

-- The second loop of dedupFacts.
pub dedup_loop : List String → List Fact → List Fact → List Fact
dedup_loop seen existing [] = existing
dedup_loop seen existing (f ∷ fs) =
    let skip = dedup_loop seen existing fs in
    let add = dedup_loop (f.payload_hash ∷ seen) (existing ++ f ∷ []) fs in
    if str_eq f.payload_hash "" || seen_hash f.payload_hash seen then skip else add

unfoldable pub dedup_facts : List Fact → List Fact → List Fact
unfolding dedup_loop
dedup_facts existing new_facts = dedup_loop (hashes existing) existing new_facts

-- FactSourceTool over a world W: its function, and the facts of the last successful call.
pub record FactTool (W : Type 0) : Type 0 where
  pub fn : W → String → W × Result String String
  pub facts_fn : Option (String → List Fact)
  pub last_facts : List Fact

module _ {W : Type 0} where
  pub call : W → String → FactTool W → W × FactTool W × Result String String
  call w input t =
      let (w', r) = t.fn w input in
      elim r [
        | err e ↦ (w', record t { last_facts = [] }, err e)
        | ok out ↦ elim t.facts_fn [
          | none ↦ (w', record t { last_facts = [] }, ok out)
          | some facts ↦ (w', record t { last_facts = facts out }, ok out)
        ]
      ]
