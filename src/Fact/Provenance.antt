-- ===== src/Fact/Provenance.antt =====
-- AllFactsProvenanced against its meaning.
use crewai_go.Base.{
  ℕ, suc, ◌≡◌, ◌≢◌, ◌↔◌, refl, inl, inr, Bool-cases, true, false, none, some, List, [], ◌∷◌, ◌∙◌,
  sym, str_eq, eq_iff,
}
use crewai_go.Fact.{Fact, provenance_from, all_facts_provenanced}

-- Every fact has a source and a hash.
abbrev pub AllProvenanced : List Fact → Type 0
AllProvenanced [] = Unit {0}
AllProvenanced (f ∷ fs) = (f.source_url ≢ "") × (f.payload_hash ≢ "") × AllProvenanced fs

some≢none : {A : Type 0} {x : A} → some x ≢ none
some≢none h = cc

true≢false : true ≢ false
true≢false h = cc

provenance_from-none : (i : ℕ) (fs : List Fact) → (provenance_from i fs ≡ none) ↔ AllProvenanced fs
unfolding provenance_from
provenance_from-none i [] = (λ h. tt, λ h. refl)
provenance_from-none i (f ∷ fs) = elim (Bool-cases (str_eq f.source_url "")) [
  | inl lacks ↦ (
    λ h. absurd (some≢none (rw (lacks, provenance_from) at h)),
    λ h. absurd (h.0 ((eq_iff f.source_url "").0 lacks)),
  )
  | inr url ↦ elim (Bool-cases (str_eq f.payload_hash "")) [
    | inl lacks ↦ (
      λ h. absurd (some≢none (rw (url, lacks, provenance_from) at h)),
      λ h. absurd (h.1 ((eq_iff f.payload_hash "").0 lacks)),
    )
    | inr hash ↦
        let (there, back) = provenance_from-none (suc i) fs in
        (
          λ h. (
            (λ e. true≢false (sym ((eq_iff f.source_url "").1 e) ∙ url)),
            (λ e. true≢false (sym ((eq_iff f.payload_hash "").1 e) ∙ hash)),
            there (rw (url, hash, provenance_from) at h),
          ),
          λ h. rw (url, hash, provenance_from) (back h.2),
        )
  ]
]

-- AllFactsProvenanced passes exactly the lists in which every fact has a source URL and a hash.
pub all_facts_provenanced_decides :
    (fs : List Fact) → (all_facts_provenanced fs ≡ none) ↔ AllProvenanced fs
unfolding all_facts_provenanced
all_facts_provenanced_decides = provenance_from-none 0
