-- ===== src/Schema/Meaning/Decides.antt =====
-- Checks that always end, leave the references alone, and report an error exactly if a test fails.
use crewai_go.Base.{
  Bool, true, false, not, ◌&&◌, Option, none, some, List, [], ◌∷◌, ◌++◌, String, ◌≡◌, refl, ap, ◌∙◌,
}
use crewai_go.Schema.Refs.{SchemaValidation}
use crewai_go.Schema.Checks.{
  ValidationError, Message, Check, pass, report, report_if, no_errors, ◌▷◌, trial, with_float,
}
use crewai_go.Schema.Settles.{▷-returns, trial-returns}
use crewai_go.Schema.Meaning.{if_there}

pub record Decides {F : Type 0} (b : Bool) (c : Check F) : Type 0 where
  pub runs :
      (s : SchemaValidation)
      → (es : List (ValidationError F)) × (c s ≡ some (s, es)) × (no_errors es ≡ b)

module _ {F : Type 0} where
  no_errors-append :
      (es es' : List (ValidationError F)) → no_errors (es ++ es') ≡ no_errors es && no_errors es'
  unfolding no_errors
  no_errors-append [] es' = refl
  no_errors-append (e ∷ es) es' = refl

  pub pass-Decides : Decides {F = F} true pass
  unfolding pass no_errors
  pass-Decides = record { runs = λ s. ([], refl, refl) }

  pub report-Decides : (p : String) (m : Message F) → Decides false (report p m)
  unfolding report no_errors
  report-Decides p m = record { runs = λ s. (_, refl, refl) }

  pub report_if-Decides :
      (b : Bool) (p : String) (m : Message F) → Decides (not b) (report_if b p m)
  unfolding report_if
  report_if-Decides true p m = report-Decides p m
  report_if-Decides false p m = pass-Decides

  pub report_if-Decides-not :
      (b : Bool) (p : String) (m : Message F) → Decides b (report_if (not b) p m)
  unfolding report_if
  report_if-Decides-not true p m = pass-Decides
  report_if-Decides-not false p m = report-Decides p m

  pub ▷-Decides :
      {x y : Bool} (a b : Check F) → Decides x a → Decides y b → Decides (x && y) (a ▷ b)
  ▷-Decides {x} a b da db = record {
    runs = λ s.
        let (es, first, vx) = da.runs s in
        let (es', second, vy) = db.runs s in
        (
          es ++ es',
          ▷-returns a b first second,
          no_errors-append es es' ∙ ap (λ v. v && no_errors es') vx ∙ ap (λ v. x && v) vy,
        );
  }

  pub trial-Decides :
      {x y : Bool} (c : Check F) (next : Bool → Check F)
      → Decides x c
      → Decides y (next x)
      → Decides y (trial c next)
  trial-Decides c next dc dn = record {
    runs = λ s.
        let (es, first, vx) = dc.runs s in
        let (es', second, vy) = dn.runs s in
        (es', trial-returns c next first (ap (λ b. next b s) vx ∙ second), vy);
  }

  pub with_float-Decides :
      (found : Option F) (check : F → Check F) (test : F → Bool)
      → ((v : F) → Decides (test v) (check v))
      → Decides (if_there found test) (with_float found check)
  unfolding with_float
  with_float-Decides none check test each = pass-Decides
  with_float-Decides (some v) check test each = each v
