-- ===== src/Fact/Tests.antt =====
-- Three facts, two of them of one payload.
use crewai_go.Base.{[], ◌∷◌, String, ◌≡◌, refl}
use crewai_go.Fact.{Fact, dedup_facts}
use crewai_go.Fact.Dedup.{IsMerged, dedup_facts-IsMerged}

abbrev fact : String → String → Fact
fact claim hash = record {
  claim = claim;
  source_org = "o";
  source_url = "u";
  collected_at = 1;
  payload_hash = hash;
}

dedup_facts-three :
    dedup_facts (fact "a" "h" ∷ []) (fact "b" "h" ∷ fact "c" "" ∷ fact "d" "k" ∷ [])
    ≡ fact "a" "h" ∷ fact "d" "k" ∷ []
unfolding dedup_facts
dedup_facts-three = refl

dedup_facts-IsMerged_example :
    IsMerged
      (fact "a" "h" ∷ [])
      (fact "b" "h" ∷ fact "c" "" ∷ fact "d" "k" ∷ [])
      (dedup_facts (fact "a" "h" ∷ []) (fact "b" "h" ∷ fact "c" "" ∷ fact "d" "k" ∷ []))
dedup_facts-IsMerged_example =
    dedup_facts-IsMerged (fact "a" "h" ∷ []) (fact "b" "h" ∷ fact "c" "" ∷ fact "d" "k" ∷ [])
