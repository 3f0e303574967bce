-- ===== src/Schema/Settles/Combined.antt =====
-- The keywords that combine schemas end if validateNode does on every smaller schema.
use crewai_go.Base.{
  ℕ, suc, ◌≤◌, if◌then◌else◌, Bool, true, false, not, ◌&&◌, Option, none, some, String, ◌≡◌, refl,
  arith, inl, inr, Bool-cases,
}
use crewai_go.Schema.Json.{
  Json, Items, no_items, item, Members, get, size, size_items, size_members,
}
use crewai_go.Schema.Checks.{Message, matches_not, Check, report_if}
use crewai_go.Schema.Scalars.{Stdlib}
use crewai_go.Schema.Nodes.{match_alternatives, combine, branch, if_then_else, not_check}
use crewai_go.Schema.Settles.{IsSettled, pass-IsSettled, report_if-IsSettled_here, trial-IsSettled}
use crewai_go.Schema.Settles.Sizes.{get-size_within}

-- `k` bounds the schemas for which `rec` ends.
module _ {F : Type 0} (lib : Stdlib F) (d : ℕ) (rec : Json F → Json F → String → Check F) (k : ℕ)
    (ends : (v schema : Json F) (q : String)
      → size schema ≤ k
      → IsSettled d q (rec v schema q)) where
  optional-IsSettled :
      (value : Json F) (found : Option (Json F)) (p : String)
      → ((v : Json F) → found ≡ some v → size v ≤ k)
      → IsSettled d p (branch lib rec value found p)
  unfolding branch
  optional-IsSettled value none p small = pass-IsSettled
  optional-IsSettled value (some schema) p small = ends value schema p (small schema refl)

  match_alternatives-IsSettled :
      (value : Json F) (exactly : Bool) (n : ℕ) (alts : Items F) (p : String)
      (next : Bool → Check F)
      → size_items alts ≤ k
      → ((b : Bool) → IsSettled d p (next b))
      → IsSettled d p (match_alternatives lib rec value exactly n alts next)
  unfolding match_alternatives size
  match_alternatives-IsSettled value exactly n no_items p next small each = each _
  match_alternatives-IsSettled value exactly n (item sub alts) p next small each =
      let rest = λ (n : ℕ).
        match_alternatives-IsSettled value exactly n alts p next (omega (arith, small)) each in
      let next_of = λ (hit : Bool).
        if hit && not exactly
        then next true
        else match_alternatives lib rec value exactly (if hit then suc n else n) alts next in
      trial-IsSettled (rec value sub "") next_of "" (ends value sub "" (omega (arith, small)))
        (λ hit. elim (Bool-cases (hit && not exactly)) [
          | inl h ↦ rw h (each true)
          | inr h ↦ rw h (rest (if hit then suc n else n))
        ])

  pub combine-IsSettled :
      (value : Json F) (exactly : Bool) (alts : Items F) (message : Message F) (p : String)
      → size_items alts ≤ k
      → IsSettled d p (combine lib rec value exactly alts message p)
  unfolding combine
  combine-IsSettled value exactly no_items message p small = pass-IsSettled
  combine-IsSettled value exactly (item sub alts) message p small =
      match_alternatives-IsSettled value exactly 0 (item sub alts) p
        (λ fine. report_if (not fine) p message) small
        (λ fine. report_if-IsSettled_here (not fine) message)

  pub not_check-IsSettled :
      (value : Json F) (found : Option (Json F)) (p : String)
      → ((v : Json F) → found ≡ some v → size v ≤ k)
      → IsSettled d p (not_check lib rec value found p)
  unfolding not_check
  not_check-IsSettled value none p small = pass-IsSettled
  not_check-IsSettled value (some sub) p small =
      trial-IsSettled (rec value sub p) _ p (ends value sub p (small sub refl))
        (λ holds. report_if-IsSettled_here holds matches_not)

  module _ (schema : Members F) (fits : size_members schema ≤ k) where
    pub if_then_else-IsSettled :
        (value : Json F) (found : Option (Json F)) (p : String)
        → ((v : Json F) → found ≡ some v → size v ≤ k)
        → IsSettled d p (if_then_else lib rec value schema found p)
    unfolding if_then_else
    if_then_else-IsSettled value none p small = pass-IsSettled
    if_then_else-IsSettled value (some condition) p small =
        trial-IsSettled (rec value condition p) _ p (ends value condition p (small condition refl))
          (λ holds. chosen-IsSettled value holds p)
      where
        chosen-IsSettled :
            (value : Json F) (holds : Bool) (p : String)
            → IsSettled d p
                (branch lib rec value (if holds then get "then" schema else get "else" schema) p)
        chosen-IsSettled value true p =
            optional-IsSettled value (get "then" schema) p (get-size_within schema fits "then")
        chosen-IsSettled value false p =
            optional-IsSettled value (get "else" schema) p (get-size_within schema fits "else")
