-- ===== src/Schema/Meaning/Accepts.antt =====
-- validateSchema accepts what the schema means.
use crewai_go.Base.{
  ℕ, zero, suc, Bool, true, false, not, ◌&&◌, Option, none, some, List, [], ◌∷◌, String, str_eq,
  ◌≡◌, ◌↔◌, refl, sym, ap, ◌∙◌, subst, arith, inl, inr, Bool-cases,
}
use crewai_go.Base.Result.{ok}
use crewai_go.Schema.Json.{
  Json, null, boolean, number, string, array, object, Members, no_members, member, get, has_key,
  size,
}
use crewai_go.Schema.Refs.{SchemaValidation}
use crewai_go.Schema.Checks.{ValidationError, schema_is_false, no_errors}
use crewai_go.Schema.Scalars.{Stdlib}
use crewai_go.Schema.Nodes.{
  enough_fuel, start, ref_check, node, validate_node, finish, validate_decoded, validate_schema,
}
use crewai_go.Schema.Meaning.{properties_plain, is_plain, plain_members, satisfies}
use crewai_go.Schema.Meaning.Decides.{Decides, pass-Decides, report-Decides}
use crewai_go.Schema.Meaning.Fits.{Fits, MembersFit, and_both}
use crewai_go.Schema.Meaning.Nodes.{asks_nothing, validate_node_keywords-Decides}

get-absent : {F : Type 0} (k : String) (m : Members F) → not (has_key k m) ≡ true → get k m ≡ none
unfolding get has_key
get-absent k no_members h = refl
get-absent k (member j v m) h = elim (Bool-cases (str_eq j k)) [
  | inl e ↦ absurd (cc (rw e at h))
  | inr e ↦ rw e (get-absent k m (rw e at h))
]

module _ {F : Type 0} (lib : Stdlib F) (root : Json F) where
  satisfies-lax :
      (n : ℕ) (value schema : Json F)
      → Fits n schema
      → asks_nothing schema ≡ true
      → satisfies lib n value schema ≡ true
  unfolding satisfies size
  satisfies-lax zero value null fits h = absurd (omega (arith, fits.small))
  satisfies-lax zero value (boolean b) fits h = absurd (omega (arith, fits.small))
  satisfies-lax zero value (number f) fits h = absurd (omega (arith, fits.small))
  satisfies-lax zero value (string s) fits h = absurd (omega (arith, fits.small))
  satisfies-lax zero value (array xs) fits h = absurd (omega (arith, fits.small))
  satisfies-lax zero value (object m) fits h = absurd (cc)
  satisfies-lax (suc n) value null fits h = refl
  satisfies-lax (suc n) value (boolean b) fits h = h
  satisfies-lax (suc n) value (number f) fits h = refl
  satisfies-lax (suc n) value (string s) fits h = refl
  satisfies-lax (suc n) value (array xs) fits h = refl
  satisfies-lax (suc n) value (object m) fits h = absurd (cc)

  validate_node-Decides :
      (fuel : ℕ) (value schema : Json F) (p : String)
      → Fits fuel schema
      → Decides (satisfies lib fuel value schema) (validate_node lib fuel root value schema p)
  unfolding validate_node node ref_check satisfies size is_plain
  validate_node-Decides zero value null p fits = absurd (omega (arith, fits.small))
  validate_node-Decides zero value (boolean b) p fits = absurd (omega (arith, fits.small))
  validate_node-Decides zero value (number f) p fits = absurd (omega (arith, fits.small))
  validate_node-Decides zero value (string s) p fits = absurd (omega (arith, fits.small))
  validate_node-Decides zero value (array xs) p fits = absurd (omega (arith, fits.small))
  validate_node-Decides zero value (object m) p fits = absurd (omega (arith, fits.small))
  validate_node-Decides (suc n) value null p fits = pass-Decides
  validate_node-Decides (suc n) value (boolean true) p fits = pass-Decides
  validate_node-Decides (suc n) value (boolean false) p fits = report-Decides p schema_is_false
  validate_node-Decides (suc n) value (number f) p fits = pass-Decides
  validate_node-Decides (suc n) value (string s) p fits = pass-Decides
  validate_node-Decides (suc n) value (array xs) p fits = pass-Decides
  validate_node-Decides (suc n) value (object m) p fits =
      let (here, plain) =
        and_both (not (has_key "$ref" m) && properties_plain (get "properties" m)) (plain_members m)
          fits.plain in
      let (no_ref, lacks) =
        and_both (not (has_key "$ref" m)) (properties_plain (get "properties" m)) here in
      let within : MembersFit n m = record { small = omega (arith, fits.small); plain = plain } in
      subst
        (λ found.
          Decides (satisfies lib (suc n) value (object m))
            (ref_check lib (validate_node lib n root) root value m found p))
        (sym (get-absent "$ref" m no_ref))
        (validate_node_keywords-Decides lib (satisfies lib n) (validate_node lib n root) n
          (λ v s q f. validate_node-Decides n v s q f) (satisfies-lax n) m within lacks value p)

finish_accepts :
    {F : Type 0} (s : SchemaValidation) (es : List (ValidationError F)) (b : Bool)
    → no_errors es ≡ b
    → (finish (some (s, es)) ≡ ok tt) ↔ (b ≡ true)
unfolding finish no_errors
finish_accepts s [] b h = (λ e. sym h, λ e. refl)
finish_accepts s (x ∷ es) b h = (λ e. absurd (cc (e)), λ e. absurd (cc (h, e)))

-- validateSchema accepts a document, decoded, exactly if it satisfies the schema, decoded, provided
-- that nothing in the schema is called "$ref" and no property has the schema `false`, which the code
-- passes over.
pub validate_schema_decides :
    {F : Type 0} (lib : Stdlib F) (parse : String → Option (Json F)) (doc schema : String)
    (value root : Json F)
    → parse doc ≡ some value
    → parse schema ≡ some root
    → is_plain root ≡ true
    → (validate_schema lib parse doc schema ≡ ok tt)
      ↔ (satisfies lib (enough_fuel root) value root ≡ true)
unfolding validate_schema validate_decoded enough_fuel
validate_schema_decides lib parse doc schema value root decoded decoded_schema plain =
    let fits : Fits (enough_fuel root) root = record { small = omega arith; plain = plain } in
    let (es, returns, verdict) =
      (validate_node-Decides lib root (enough_fuel root) value root "" fits).runs start in
    subst (λ r. (r ≡ ok tt) ↔ (satisfies lib (enough_fuel root) value root ≡ true))
      (ap finish (sym returns)
        ∙ ap (λ d. validate_decoded lib (some root) d) (sym decoded)
        ∙ ap (λ s. validate_decoded lib s (parse doc)) (sym decoded_schema))
      (finish_accepts start es (satisfies lib (enough_fuel root) value root) verdict)
