-- ===== src/Fact/Dedup.antt =====
-- dedupFacts keeps the facts apart by their hashes, and loses none that has one.
use crewai_go.Base.{
  ◌≡◌, ◌≢◌, refl, str_eq_refl, str_eq_sym, not_empty, Option, none, some, if◌then◌else◌, inl, inr,
  Bool-cases, true, false, ◌||◌, List, [], ◌∷◌, ◌++◌, String, str_eq, eq_iff, arith, append-nil,
  append_assoc, sym, ◌∙◌,
}
use crewai_go.Fact.{Fact, hashes, seen_hash, dedup_loop, dedup_facts}

-- No two of the hashes are equal.
abbrev pub AllDistinct : List String → Type 0
AllDistinct [] = Unit {0}
AllDistinct (h ∷ hs) = (seen_hash h hs ≡ false) × AllDistinct hs

-- The first of the facts with a hash.
abbrev pub first_with : String → List Fact → Option Fact
first_with h [] = none
first_with h (f ∷ fs) = if str_eq f.payload_hash h then some f else first_with h fs

-- Facts each of which has a hash that no old fact has, and is the first new fact with its hash.
abbrev pub AllNew : List Fact → List Fact → List Fact → Type 0
AllNew existing new_facts [] = Unit {0}
AllNew existing new_facts (f ∷ fs) =
    (f.payload_hash ≢ "")
    × (seen_hash f.payload_hash (hashes existing) ≡ false)
    × (first_with f.payload_hash new_facts ≡ some f)
    × AllNew existing new_facts fs

-- What dedupFacts makes of a list: the old facts and then new ones, no two of them with one hash, and
-- each the first with a hash that is not empty and that no old fact has; and every hash of a new fact
-- that is not empty is there.
pub record IsMerged (existing new_facts merged : List Fact) : Type 0 where
  pub added : List Fact
  pub extends : existing ++ added ≡ merged
  pub new : AllNew existing new_facts added
  pub apart : AllDistinct (hashes added)
  pub covers :
      (h : String)
      → h ≢ ""
      → seen_hash h (hashes merged)
        ≡ (seen_hash h (hashes existing) || seen_hash h (hashes new_facts))

hashes-snoc :
    (h : String) (fs : List Fact) (f : Fact)
    → seen_hash h (hashes (fs ++ f ∷ [])) ≡ (str_eq f.payload_hash h || seen_hash h (hashes fs))
hashes-snoc h [] f = refl
hashes-snoc h (g ∷ fs) f = ground (arith, hashes-snoc h fs f)

-- A new fact before the others, whose hash is empty or an old one, changes nothing for those added.
AllNew-skip :
    (f : Fact) (existing fs added : List Fact)
    → (str_eq f.payload_hash "" || seen_hash f.payload_hash (hashes existing)) ≡ true
    → AllNew existing fs added
    → AllNew existing (f ∷ fs) added
AllNew-skip f existing fs [] skip a = tt
AllNew-skip f existing fs (g ∷ gs) skip (named, fresh, first, a) = (
  named,
  fresh,
  elim (Bool-cases (str_eq f.payload_hash g.payload_hash)) [
    | inr other ↦ rw other first
    | inl same ↦
        let e : f.payload_hash ≡ g.payload_hash = (eq_iff f.payload_hash g.payload_hash).0 same in
        elim (Bool-cases (str_eq g.payload_hash "")) [
          | inl empty ↦ absurd (named ((eq_iff g.payload_hash "").0 empty))
          | inr full ↦ absurd (ground (arith, rw e at skip))
        ]
  ],
  AllNew-skip f existing fs gs skip a,
)

-- A new fact that is added is an old one for those added after it.
AllNew-add :
    (f : Fact) (existing fs added : List Fact)
    → AllNew (existing ++ f ∷ []) fs added
    → AllNew existing (f ∷ fs) added
AllNew-add f existing fs [] a = tt
AllNew-add f existing fs (g ∷ gs) (named, fresh, first, a) =
    let parts = sym (hashes-snoc g.payload_hash existing f) ∙ fresh in
    let other : str_eq f.payload_hash g.payload_hash ≡ false = ground arith in
    (named, ground arith, rw other first, AllNew-add f existing fs gs a)

AllNew-apart :
    (f : Fact) (existing fs added : List Fact)
    → AllNew (existing ++ f ∷ []) fs added
    → seen_hash f.payload_hash (hashes added) ≡ false
AllNew-apart f existing fs [] a = refl
AllNew-apart f existing fs (g ∷ gs) (named, fresh, first, a) =
    let parts = sym (hashes-snoc g.payload_hash existing f) ∙ fresh in
    let rest = AllNew-apart f existing fs gs a in
    let flip = str_eq_sym f.payload_hash g.payload_hash in ground arith

skipped_hash :
    (h : String)
    → h ≢ ""
    → (f : Fact) (existing fs : List Fact)
    → (str_eq f.payload_hash "" || seen_hash f.payload_hash (hashes existing)) ≡ true
    → (seen_hash h (hashes existing) || seen_hash h (hashes fs))
      ≡ (seen_hash h (hashes existing) || (str_eq f.payload_hash h || seen_hash h (hashes fs)))
skipped_hash h ne f existing fs skip = elim (Bool-cases (str_eq f.payload_hash h)) [
  | inr other ↦ rw other refl
  | inl same ↦
      let e : f.payload_hash ≡ h = (eq_iff f.payload_hash h).0 same in
      elim (Bool-cases (str_eq h "")) [
        | inl empty ↦ absurd (ne ((eq_iff h "").0 empty))
        | inr named ↦ ground (arith, rw e at skip)
      ]
]

dedup_loop-IsMerged :
    (seen : List String) (existing new_facts : List Fact)
    → ((h : String) → seen_hash h seen ≡ seen_hash h (hashes existing))
    → IsMerged existing new_facts (dedup_loop seen existing new_facts)
unfolding dedup_loop
dedup_loop-IsMerged seen existing [] same = record {
  added = [];
  extends = append-nil existing;
  new = tt;
  apart = tt;
  covers = λ h ne. ground arith;
}
dedup_loop-IsMerged seen existing (f ∷ fs) same =
    elim (Bool-cases (str_eq f.payload_hash "" || seen_hash f.payload_hash seen)) [
      | inl skip ↦
          let rest = dedup_loop-IsMerged seen existing fs same in
          rw skip (record {
            added = rest.added;
            extends = rest.extends;
            new = AllNew-skip f existing fs rest.added (rw (same f.payload_hash) at skip) rest.new;
            apart = rest.apart;
            covers = λ h ne.
                rest.covers h ne
                ∙ skipped_hash h ne f existing fs (rw (same f.payload_hash) at skip);
          })
      | inr add ↦
          let rest =
            dedup_loop-IsMerged (f.payload_hash ∷ seen) (existing ++ f ∷ []) fs
              (λ h. ground (arith, same h, hashes-snoc h existing f)) in
          rw add (record {
            added = f ∷ rest.added;
            extends = sym (append_assoc existing (f ∷ []) rest.added) ∙ rest.extends;
            new = (
              not_empty f.payload_hash (ground arith),
              ground (arith, same f.payload_hash),
              rw (str_eq_refl f.payload_hash) refl,
              AllNew-add f existing fs rest.added rest.new,
            );
            apart = (AllNew-apart f existing fs rest.added rest.new, rest.apart);
            covers = λ h ne. rest.covers h ne ∙ ground (arith, hashes-snoc h existing f);
          })
    ]

-- dedupFacts returns the old facts and then those new facts that are the first with a hash which is
-- not empty and which no old fact has, no two of them with one hash, and the result has every hash of
-- the new facts that is not empty.
pub dedup_facts-IsMerged :
    (existing new_facts : List Fact) → IsMerged existing new_facts (dedup_facts existing new_facts)
unfolding dedup_facts
dedup_facts-IsMerged existing new_facts =
    dedup_loop-IsMerged (hashes existing) existing new_facts (λ h. refl)
