-- ===== src/Schema/Tests.antt =====
-- A schema with a reference, over numbers in place of float64.
use crewai_go.Base.{
  ℕ, ◌≤◌, ◌==◌, ltb, leb, if◌then◌else◌, true, Option, none, some, List, [], ◌∷◌, String, str_eq,
  ◌≡◌, ◌≢◌, ◌↔◌, refl, arith,
}
use crewai_go.Base.Result.{ok, err}
use crewai_go.Schema.Json.{
  Json, number, string, array, object, no_items, item, no_members, member, size,
}
use crewai_go.Schema.Refs.{cycle}
use crewai_go.Schema.Checks.{ValidationError, ref_error}
use crewai_go.Schema.Scalars.{Stdlib}
use crewai_go.Schema.Nodes.{
  invalid, out_of_fuel, enough_fuel, start, validate_node, validate_schema,
}
use crewai_go.Schema.Meaning.{is_plain, satisfies}
use crewai_go.Schema.Meaning.Accepts.{validate_schema_decides}
use crewai_go.Schema.Settles.{AllBelow}
use crewai_go.Schema.Settles.Returns.{validate_node_returns, validate_schema_ends}

abbrev numbers : Stdlib ℕ
numbers = record {
  lt = λ a b. ltb a b;
  le = λ a b. leb a b;
  eq = λ a b. a == b;
  of_length = λ n. n;
  is_integral = λ f. true;
  parse_float = λ s. none;
  compile = λ s. none;
  atoi = λ s. none;
  itoa = λ n. "0";
  parse_time = λ layout s. true;
  parse_address = λ s. true;
  parse_url = λ s. none;
  parse_ip = λ s. none;
}

-- {"properties": {"name": {"$ref": "#/kind"}}, "kind": {"type": "string"}}
abbrev person : Json ℕ
person = object (
    member "properties"
      (object (member "name" (object (member "$ref" (string "#/kind") no_members)) no_members))
      (member "kind" (object (member "type" (string "string") no_members)) no_members))

abbrev named : Json ℕ
named = object (member "name" (string "Ada") no_members)

abbrev unnamed : Json ℕ
unnamed = object (member "name" (number 3) no_members)

abbrev parse : String → Option (Json ℕ)
parse s = if str_eq s "person" then some person else some named

accepts : validate_schema numbers parse "named" "person" ≡ ok tt
unfolding validate_schema
accepts = refl

-- {"$ref": "#/node", "node": {"properties": {"next": {"$ref": "#/node"}}}}
abbrev list_schema : Json ℕ
list_schema = object (
    member "$ref" (string "#/node") (
      member "node"
        (object (
          member "properties"
            (object
              (member "next" (object (member "$ref" (string "#/node") no_members)) no_members))
            no_members))
        no_members))

-- A recursive schema refuses a value that recurs.
refuses_nested :
    validate_schema numbers
      (λ s. some (
        if str_eq s "schema"
        then list_schema
        else object (member "next" (object no_members) no_members)))
      "doc"
      "schema"
    ≡ err (invalid (record { path = "/next"; message = ref_error cycle } ∷ []))
unfolding validate_schema
refuses_nested = refl

validate_schema_ends_example : validate_schema numbers parse "named" "person" ≢ err out_of_fuel
validate_schema_ends_example = validate_schema_ends numbers parse "named" "person"

person-small : size person ≤ size person
person-small = omega arith

validate_node_returns_example :
    (n : ℕ) × (es : List (ValidationError ℕ)) × (validate_node numbers
        (enough_fuel person)
        person
        unnamed
        person
        "/people"
        start
      ≡ some (record start { expansions = n }, es))
    × (0 ≤ n)
    × (n ≤ 256)
    × AllBelow "/people" es
validate_node_returns_example =
    validate_node_returns numbers person unnamed person "/people" start person-small (omega arith)

-- {"type": "object", "required": ["name"], "properties": {"name": {"type": "string"}}}
abbrev plain_person : Json ℕ
plain_person = object (
    member "type" (string "object") (
      member "required" (array (item (string "name") no_items)) (
        member "properties"
          (object (member "name" (object (member "type" (string "string") no_members)) no_members))
          no_members)))

abbrev parse_plain : String → Option (Json ℕ)
parse_plain s = if str_eq s "person" then some plain_person else some named

validate_schema_decides_example :
    (validate_schema numbers parse_plain "named" "person" ≡ ok tt)
    ↔ (satisfies numbers (enough_fuel plain_person) named plain_person ≡ true)
unfolding is_plain
validate_schema_decides_example =
    validate_schema_decides numbers parse_plain "named" "person" named plain_person refl refl refl
