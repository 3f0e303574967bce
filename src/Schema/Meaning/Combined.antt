-- ===== src/Schema/Meaning/Combined.antt =====
-- The checks of the keywords that combine schemas decide what they mean, if validateNode does on
-- every smaller schema.
use crewai_go.Base.{
  ℕ, suc, ◌+◌, ◌==◌, if◌then◌else◌, Bool, true, false, not, ◌&&◌, Option, none, some, String, ◌≡◌,
  refl, subst, arith, inl, inr, Bool-cases,
}
use crewai_go.Schema.Json.{Json, Items, no_items, item, Members, get}
use crewai_go.Schema.Checks.{matches_not, no_any_of, no_one_of, Check, report_if}
use crewai_go.Schema.Scalars.{Stdlib}
use crewai_go.Schema.Nodes.{match_alternatives, combine, branch, if_then_else, not_check}
use crewai_go.Schema.Meaning.{any_item, count_where, if_there, any_ok, one_ok}
use crewai_go.Schema.Meaning.Decides.{
  Decides, pass-Decides, report_if-Decides, report_if-Decides-not, trial-Decides,
}
use crewai_go.Schema.Meaning.Fits.{Fits, ItemsFit, MembersFit, first-Fits, rest-ItemsFit, get-Fits}

module _ {F : Type 0} (lib : Stdlib F) (sat : Json F → Json F → Bool)
    (rec : Json F → Json F → String → Check F) (k : ℕ)
    (right : (v s : Json F) (q : String) → Fits k s → Decides (sat v s) (rec v s q)) where
  any-Decides :
      (value : Json F) (alts : Items F) (next : Bool → Check F)
      → ItemsFit k alts
      → ((b : Bool) → Decides b (next b))
      → Decides (any_item (sat value) alts) (match_alternatives lib rec value false 0 alts next)
  unfolding match_alternatives
  any-Decides value no_items next fits each = each false
  any-Decides value (item s ss) next fits each =
      let rest = any-Decides value ss next (rest-ItemsFit s ss fits) each in
      let next_of = λ (hit : Bool).
        if hit && not false
        then next true
        else match_alternatives lib rec value false (if hit then 1 else 0) ss next in
      trial-Decides (rec value s "") next_of (right value s "" (first-Fits s ss fits))
        (elim (Bool-cases (sat value s)) [ inl h ↦ rw h (each true) | inr h ↦ rw h rest ])

  one-Decides :
      (value : Json F) (n : ℕ) (alts : Items F) (next : Bool → Check F)
      → ItemsFit k alts
      → ((b : Bool) → Decides b (next b))
      → Decides
          (n + count_where (sat value) alts == 1)
          (match_alternatives lib rec value true n alts next)
  unfolding match_alternatives
  one-Decides value n no_items next fits each =
      let same : n ≡ n + 0 = omega arith in
      subst (λ m. Decides (m == 1) (next (n == 1))) same (each (n == 1))
  one-Decides value n (item s ss) next fits each =
      let rest = λ (n : ℕ). one-Decides value n ss next (rest-ItemsFit s ss fits) each in
      let next_of = λ (hit : Bool).
        if hit && not true
        then next true
        else match_alternatives lib rec value true (if hit then suc n else n) ss next in
      trial-Decides (rec value s "") next_of (right value s "" (first-Fits s ss fits))
        (elim (Bool-cases (sat value s)) [
          | inl h ↦
              let shift : suc n + count_where (sat value) ss
                  ≡ n + suc (count_where (sat value) ss) =
                omega arith in
              rw h (
                subst
                  (λ m. Decides (m == 1) (match_alternatives lib rec value true (suc n) ss next))
                  shift (rest (suc n)))
          | inr h ↦ rw h (rest n)
        ])

  pub any_of-Decides :
      (value : Json F) (alts : Items F) (p : String)
      → ItemsFit k alts
      → Decides (any_ok lib sat value alts) (combine lib rec value false alts no_any_of p)
  unfolding combine
  any_of-Decides value no_items p fits = pass-Decides
  any_of-Decides value (item s ss) p fits =
      any-Decides value (item s ss) (λ fine. report_if (not fine) p no_any_of) fits
        (λ fine. report_if-Decides-not fine p no_any_of)

  pub one_of-Decides :
      (value : Json F) (alts : Items F) (p : String)
      → ItemsFit k alts
      → Decides (one_ok lib sat value alts) (combine lib rec value true alts no_one_of p)
  unfolding combine
  one_of-Decides value no_items p fits = pass-Decides
  one_of-Decides value (item s ss) p fits =
      let count = count_where (sat value) (item s ss) in
      let zero_plus : 0 + count ≡ count = omega arith in
      subst (λ m. Decides (m == 1) (combine lib rec value true (item s ss) no_one_of p)) zero_plus
        (one-Decides value 0 (item s ss) (λ fine. report_if (not fine) p no_one_of) fits
          (λ fine. report_if-Decides-not fine p no_one_of))

  branch-Decides :
      (value : Json F) (found : Option (Json F)) (p : String)
      → ((v : Json F) → found ≡ some v → Fits k v)
      → Decides (if_there found (sat value)) (branch lib rec value found p)
  unfolding branch
  branch-Decides value none p fits = pass-Decides
  branch-Decides value (some s) p fits = right value s p (fits s refl)

  pub not_check-Decides :
      (value : Json F) (found : Option (Json F)) (p : String)
      → ((v : Json F) → found ≡ some v → Fits k v)
      → Decides (if_there found (λ s. not (sat value s))) (not_check lib rec value found p)
  unfolding not_check
  not_check-Decides value none p fits = pass-Decides
  not_check-Decides value (some s) p fits =
      trial-Decides (rec value s p) (λ holds. report_if holds p matches_not)
        (right value s p (fits s refl)) (report_if-Decides (sat value s) p matches_not)

  module _ (m : Members F) (within : MembersFit k m) where
    pub if_then_else-Decides :
        (value : Json F) (found : Option (Json F)) (p : String)
        → ((v : Json F) → found ≡ some v → Fits k v)
        → Decides
            (if_there found
              (λ c. if_there (if sat value c then get "then" m else get "else" m) (sat value)))
            (if_then_else lib rec value m found p)
    unfolding if_then_else
    if_then_else-Decides value none p fits = pass-Decides
    if_then_else-Decides value (some c) p fits =
        trial-Decides (rec value c p)
          (λ holds. branch lib rec value (if holds then get "then" m else get "else" m) p)
          (right value c p (fits c refl)) (chosen-Decides (sat value c))
      where
        chosen-Decides :
            (holds : Bool)
            → Decides
                (if_there (if holds then get "then" m else get "else" m) (sat value))
                (branch lib rec value (if holds then get "then" m else get "else" m) p)
        chosen-Decides true = branch-Decides value (get "then" m) p (get-Fits "then" m within)
        chosen-Decides false = branch-Decides value (get "else" m) p (get-Fits "else" m within)
