-- ===== src/Schema/Settles/Returns.antt =====
-- What validateSchema and validateNode return.
use native.Mathlib.Nat.{mul-le-mul_right}
use crewai_go.Base.{
  ℕ, suc, ◌+◌, ◌*◌, ◌-◌, ◌≤◌, Option, none, some, List, [], ◌∷◌, String, ◌≡◌, ◌≢◌, refl, arith, inl,
  inr, Option-cases,
}
use crewai_go.Base.Result.{err}
use crewai_go.Schema.Json.{Json, size}
use crewai_go.Schema.Refs.{SchemaValidation, max_ref_depth, max_ref_expansions}
use crewai_go.Schema.Checks.{ValidationError}
use crewai_go.Schema.Scalars.{Stdlib}
use crewai_go.Schema.Nodes.{
  out_of_fuel, enough_fuel, start, validate_node, finish, validate_decoded, validate_schema,
}
use crewai_go.Schema.Settles.{AllBelow}
use crewai_go.Schema.Settles.Ends.{need, validate_node-IsSettled}

module _ {F : Type 0} (lib : Stdlib F) where
  enough_fuel-need :
      (root schema : Json F) (d : ℕ)
      → size schema ≤ size root
      → need (size root) d schema ≤ enough_fuel root
  unfolding need enough_fuel
  enough_fuel-need root schema d small =
      let fewer : (max_ref_depth - d) * suc (size root) ≤ max_ref_depth * suc (size root) =
        mul-le-mul_right (suc (size root)) (omega arith) in
      let split : suc max_ref_depth * suc (size root)
          ≡ suc (size root) + max_ref_depth * suc (size root) =
        omega arith in
      omega (arith, small, fewer, split)

  -- validateNode on a schema that is no larger than the root, from any state with at most 256
  -- expansions, returns: with the references that were open before and no others, with no fewer
  -- expansions and at most 256, and with errors whose paths begin with the node's.
  pub validate_node_returns :
      (root value schema : Json F) (p : String) (s : SchemaValidation)
      → size schema ≤ size root
      → s.expansions ≤ max_ref_expansions
      → (n : ℕ) × (es : List (ValidationError F)) × (validate_node lib
            (enough_fuel root)
            root
            value
            schema
            p
            s
          ≡ some (record s { expansions = n }, es))
        × (s.expansions ≤ n)
        × (n ≤ max_ref_expansions)
        × AllBelow p es
  validate_node_returns root value schema p s small few =
      (validate_node-IsSettled lib root (enough_fuel root) s.ref_depth value schema p
          (enough_fuel-need root schema s.ref_depth small)).settles
        s refl few

  finish_returns :
      (outcome : Option (SchemaValidation × List (ValidationError F)))
      → ((r : SchemaValidation × List (ValidationError F)) × (outcome ≡ some r))
      → finish outcome ≢ err out_of_fuel
  unfolding finish
  finish_returns none ((s, es), h) e = absurd (cc (h))
  finish_returns (some (s, [])) r e = absurd (cc)
  finish_returns (some (s, x ∷ xs)) r e = absurd (cc)

  -- validateSchema returns for every document and every schema, whatever its references: the model
  -- never runs out of fuel.
  pub validate_schema_ends :
      (parse : String → Option (Json F)) (doc schema : String)
      → validate_schema lib parse doc schema ≢ err out_of_fuel
  unfolding validate_schema validate_decoded
  validate_schema_ends parse doc schema e = elim (Option-cases (parse schema)) [
    | inl missing ↦ absurd (cc (rw missing at e))
    | inr (sc, found) ↦ elim (Option-cases (parse doc)) [
      | inl missing ↦ absurd (cc (rw (found, missing) at e))
      | inr (v, found') ↦
          let (n, es, returns, grows, bounded, below) =
            validate_node_returns sc v sc "" start (omega arith) (omega arith) in
          finish_returns _ (_, returns) (rw (found, found') at e)
    ]
  ]
