-- ===== src/Schema/Settles/Ends.antt =====
-- validateNode ends: between two references the schema gets smaller, and no more than 32 references
-- are ever open.
use crewai_go.Base.{
  ℕ, zero, suc, ◌+◌, ◌*◌, ◌-◌, ◌≤◌, ◌<◌, true, false, Option, none, some, List, ◌∷◌, ◌++◌, String,
  ◌≡◌, sym, ap, ◌∙◌, subst, arith, inl, inr,
}
use crewai_go.Base.Result.{ok, Result-cases}
use crewai_go.Schema.Json.{
  Json, null, boolean, number, string, array, object, Members, get, without, size, size_members,
}
use crewai_go.Schema.Refs.{
  SchemaValidation, max_ref_depth, max_ref_expansions, push_ref, pop_ref, resolve_local_ref,
}
use crewai_go.Schema.Checks.{ValidationError, schema_is_false, ref_error, Check, popping}
use crewai_go.Schema.Scalars.{Stdlib}
use crewai_go.Schema.Nodes.{
  validate_node_keywords, after_push, follow, ref_check, node, validate_node,
}
use crewai_go.Schema.Settles.{
  IsSettled, Settled, pass-IsSettled, report-IsSettled_here, ▷-returns, AllBelow-append,
}
use crewai_go.Schema.Settles.Nodes.{validate_node_keywords-IsSettled}
use crewai_go.Schema.Settles.Refs.{without-size, resolve_local_ref-size, push_ref-ok}

module _ {F : Type 0} (lib : Stdlib F) (rec : Json F → Json F → String → Check F) (value : Json F)
    (schema : Members F) (p : String) (d : ℕ) where
  -- popRef undoes pushRef.
  popping-returns :
      (c : Check F) (ptr : String) (s : SchemaValidation) (m n : ℕ) (es : List (ValidationError F))
      → c (record { ref_depth = suc s.ref_depth; expansions = m; stack = ptr ∷ s.stack })
        ≡ some (record { ref_depth = suc s.ref_depth; expansions = n; stack = ptr ∷ s.stack }, es)
      → popping c (record { ref_depth = suc s.ref_depth; expansions = m; stack = ptr ∷ s.stack })
        ≡ some (record s { expansions = n }, es)
  unfolding popping pop_ref
  popping-returns c ptr s m n es returns =
      let back : suc s.ref_depth - 1 ≡ s.ref_depth = omega arith in
      rw (returns, popping)
        (ap (λ k. some (record { ref_depth = k; expansions = n; stack = s.stack }, es)) back)

  after_push-Settled :
      (target : Json F) (ptr : String) (s : SchemaValidation)
      → s.ref_depth ≡ d
      → s.expansions ≤ max_ref_expansions
      → (d < max_ref_depth → IsSettled (suc d) p (rec value target p))
      → IsSettled d p (validate_node_keywords lib rec value (without "$ref" schema) p)
      → Settled p s (after_push lib rec value schema p target (push_ref ptr s) s)
  unfolding after_push
  after_push-Settled target ptr s depth few at_target siblings =
      elim (Result-cases (push_ref ptr s)) [
        | inl (e, h) ↦
            subst (λ r. Settled p s (after_push lib rec value schema p target r s)) (sym h)
              ((report-IsSettled_here (ref_error e)).settles s depth few)
        | inr (s', h) ↦
            let (shallow, left, pushed) = push_ref-ok ptr s s' h in
            let (n, es, returns, grows, bounded, below) =
              (at_target (omega (arith, shallow, depth))).settles
                (record {
                  ref_depth = suc s.ref_depth;
                  expansions = suc s.expansions;
                  stack = ptr ∷ s.stack;
                })
                (ap suc depth) (omega (arith, left)) in
            let (n', es', returns', grows', bounded', below') =
              siblings.settles (record s { expansions = n }) depth bounded in
            let first =
              popping-returns (rec value target p) ptr s (suc s.expansions) n es returns in
            subst (λ r. Settled p s (after_push lib rec value schema p target r s))
              (sym (h ∙ ap ok pushed))
              (
                n',
                es ++ es',
                ▷-returns (popping (rec value target p)) _ first returns',
                omega (arith, grows, grows'),
                bounded',
                AllBelow-append p es es' below below',
              )
      ]

-- How much fuel a call needs, with `d` references open.
unfoldable pub need : {F : Type 0} → ℕ → ℕ → Json F → ℕ
unfolding size
need root_size d schema = (max_ref_depth - d) * suc root_size + size schema

module _ {F : Type 0} (lib : Stdlib F) (root : Json F) (rec : Json F → Json F → String → Check F)
    (fuel : ℕ)
    (ends : (d : ℕ) (value schema : Json F) (p : String)
      → need (size root) d schema ≤ fuel
      → IsSettled d p (rec value schema p)) where
  target_need :
      (d k : ℕ) (target : Json F)
      → size target ≤ size root
      → d < max_ref_depth
      → (max_ref_depth - d) * suc (size root) ≤ k
      → need (size root) (suc d) target < suc k
  unfolding need
  target_need d k target small shallow enough =
      let step : max_ref_depth - d ≡ suc (max_ref_depth - suc d) = omega (arith, shallow) in
      let split : suc (max_ref_depth - suc d) * suc (size root)
          ≡ suc (size root) + (max_ref_depth - suc d) * suc (size root) =
        omega arith in
      let total = ap (λ x. x * suc (size root)) step ∙ split in omega (arith, small, enough, total)

  follow-IsSettled :
      (d : ℕ) (value : Json F) (schema : Members F) (p ref : String)
      → need (size root) d (object schema) ≤ suc fuel
      → IsSettled d p (follow lib rec value schema p (resolve_local_ref lib.atoi root ref))
  unfolding follow need size
  follow-IsSettled d value schema p ref enough =
      elim (Result-cases (resolve_local_ref lib.atoi root ref)) [
        | inl (e, h) ↦
            subst (λ r. IsSettled d p (follow lib rec value schema p r)) (sym h)
              (report-IsSettled_here (ref_error e))
        | inr ((target, ptr), h) ↦
            let small = resolve_local_ref-size lib.atoi root ref h in
            let k = size_members schema in
            let within : (v sub : Json F) (q : String)
                → size sub ≤ k
                → IsSettled d q (rec v sub q) =
              λ v sub q le. ends d v sub q (omega (arith, le, enough)) in
            let siblings =
              validate_node_keywords-IsSettled lib d rec k within (without "$ref" schema)
                (without-size "$ref" schema) value p in
            let at_target : d < max_ref_depth → IsSettled (suc d) p (rec value target p) =
              λ shallow.
                ends (suc d) value target p (
                  omega (arith, target_need d fuel target small shallow (omega (arith, enough)))) in
            subst (λ r. IsSettled d p (follow lib rec value schema p r)) (sym h)
              (record {
                settles = λ s depth few.
                    after_push-Settled lib rec value schema p d target ptr s depth few at_target
                      siblings;
              })
      ]

  ref_check-IsSettled :
      (d : ℕ) (value : Json F) (schema : Members F) (found : Option (Json F)) (p : String)
      → need (size root) d (object schema) ≤ suc fuel
      → IsSettled d p (ref_check lib rec root value schema found p)
  unfolding ref_check need size
  ref_check-IsSettled d value schema none p enough =
      validate_node_keywords-IsSettled lib d rec (size_members schema)
        (λ v sub q le. ends d v sub q (omega (arith, le, enough))) schema (omega arith) value p
  ref_check-IsSettled d value schema (some (string ref)) p enough =
      follow-IsSettled d value schema p ref enough
  ref_check-IsSettled d value schema (some null) p enough = report-IsSettled_here _
  ref_check-IsSettled d value schema (some (boolean b)) p enough = report-IsSettled_here _
  ref_check-IsSettled d value schema (some (number f)) p enough = report-IsSettled_here _
  ref_check-IsSettled d value schema (some (array xs)) p enough = report-IsSettled_here _
  ref_check-IsSettled d value schema (some (object m)) p enough = report-IsSettled_here _

  node-IsSettled :
      (d : ℕ) (value schema : Json F) (p : String)
      → need (size root) d schema ≤ suc fuel
      → IsSettled d p (node lib rec root value schema p)
  unfolding node
  node-IsSettled d value null p enough = pass-IsSettled
  node-IsSettled d value (boolean true) p enough = pass-IsSettled
  node-IsSettled d value (boolean false) p enough = report-IsSettled_here schema_is_false
  node-IsSettled d value (number f) p enough = pass-IsSettled
  node-IsSettled d value (string s) p enough = pass-IsSettled
  node-IsSettled d value (array xs) p enough = pass-IsSettled
  node-IsSettled d value (object m) p enough = ref_check-IsSettled d value m (get "$ref" m) p enough

size_positive : {F : Type 0} (schema : Json F) → 0 < size schema
unfolding size
size_positive null = omega arith
size_positive (boolean b) = omega arith
size_positive (number f) = omega arith
size_positive (string s) = omega arith
size_positive (array xs) = omega arith
size_positive (object m) = omega arith

pub validate_node-IsSettled :
    {F : Type 0} (lib : Stdlib F) (root : Json F) (fuel d : ℕ) (value schema : Json F) (p : String)
    → need (size root) d schema ≤ fuel
    → IsSettled d p (validate_node lib fuel root value schema p)
unfolding validate_node need
validate_node-IsSettled lib root zero d value schema p enough =
    absurd (omega (arith, enough, size_positive schema))
validate_node-IsSettled lib root (suc fuel) d value schema p enough =
    node-IsSettled lib root (validate_node lib fuel root) fuel
      (λ d' v sub q le. validate_node-IsSettled lib root fuel d' v sub q le) d value schema p enough
