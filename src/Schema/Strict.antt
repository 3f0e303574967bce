-- ===== src/Schema/Strict.antt =====
-- walkSchemaKeywords: the paths of the unsupported keywords of a schema.
use crewai_go.Base.{
  ℕ, suc, if◌then◌else◌, Bool, ◌||◌, Option, none, some, List, [], ◌∷◌, ◌++◌, String, str_eq,
}
use Prim.Native.String.{◌++◌ as append}
use crewai_go.Base.Result.{Result, ok, err}
use crewai_go.Schema.Json.{Json, array, object, Items, no_items, item, Members, no_members, member}
use crewai_go.Schema.Nodes.{join_path}

pub is_unsupported : String → Bool
is_unsupported k =
    str_eq k "dependentRequired"
    || str_eq k "dependentSchemas"
    || str_eq k "unevaluatedProperties"
    || str_eq k "unevaluatedItems"
    || str_eq k "prefixItems"
    || str_eq k "contains"
    || str_eq k "propertyNames"

-- What a keyword holds: a map of schemas, a schema, a list of schemas or something else.
pub data Holder : Type 0 where
  schema_map one_schema schema_list other_value : Holder

pub holder_of : String → Holder
holder_of k =
    if str_eq k "properties" || str_eq k "$defs" || str_eq k "definitions"
    then schema_map
    else if str_eq k "items"
        || str_eq k "additionalProperties"
        || str_eq k "not"
        || str_eq k "if"
        || str_eq k "then"
        || str_eq k "else"
    then one_schema
    else if str_eq k "oneOf" || str_eq k "anyOf" || str_eq k "allOf"
    then schema_list
    else other_value

pub data StrictError : Type 0 where
  bad_schema : StrictError
  unsupported : List String → StrictError

verdict : List String → Result StrictError (Unit {0})
verdict [] = ok tt
verdict (p ∷ ps) = err (unsupported (p ∷ ps))

module _ {F : Type 0} (itoa : ℕ → String) where
  unfoldable mutual
    unfolding holder_of is_unsupported join_path

    pub walk_node : Json F → String → List String
    walk_node (object m) path = walk_members m path
    walk_node (array xs) path = walk_items xs 0 path
    walk_node _ path = []

    pub walk_items : Items F → ℕ → String → List String
    walk_items no_items i path = []
    walk_items (item x xs) i path =
        walk_node x (append path (append "/" (itoa i))) ++ walk_items xs (suc i) path

    pub walk_members : Members F → String → List String
    walk_members no_members path = []
    walk_members (member k v m) path =
        let found = walk_keyword (holder_of k) v (join_path path k) in
        (if is_unsupported k then join_path path k ∷ [] else found) ++ walk_members m path

    pub walk_keyword : Holder → Json F → String → List String
    walk_keyword schema_map (object props) p = walk_properties props p
    walk_keyword one_schema (object m) p = walk_members m p
    walk_keyword one_schema (array xs) p = walk_items xs 0 p
    walk_keyword schema_list (array xs) p = walk_items xs 0 p
    walk_keyword _ v p = []

    pub walk_properties : Members F → String → List String
    walk_properties no_members p = []
    walk_properties (member k v m) p = walk_node v (join_path p k) ++ walk_properties m p

  -- `parse` is json.Unmarshal.
  pub check_schema_supported : (String → Option (Json F)) → String → Result StrictError (Unit {0})
  unfolding verdict walk_node
  check_schema_supported parse schema = elim (parse schema) [
    | none ↦ err bad_schema
    | some node ↦ verdict (walk_node node "")
  ]
