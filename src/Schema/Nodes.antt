-- ===== src/Schema/Nodes.antt =====
-- validateNode and what it calls: `rec` is validateNode for the nodes within, on less fuel, of which
-- each call of validateNode costs a unit.
use crewai_go.Base.{
  ℕ, zero, suc, ◌*◌, ◌==◌, leb, if◌then◌else◌, Bool, true, false, not, ◌&&◌, Option, none, some,
  List, [], ◌∷◌, String,
}
use Prim.Native.String.{◌++◌}
use crewai_go.Base.Result.{Result, ok, err}
use crewai_go.Schema.Json.{
  Json, boolean, number, string, array, object, Items, no_items, item, Members, no_members, get,
  has_key, without, count_members, count_items, deep_equal, size,
}
use crewai_go.Schema.Refs.{
  SchemaValidation, RefError, invalid_ref, max_ref_depth, push_ref, resolve_local_ref,
}
use crewai_go.Schema.Checks.{
  ValidationError, Message, schema_is_false, matches_not, no_any_of, no_one_of, missing_field,
  not_allowed, not_unique, ref_error, wrong_type, few_properties, many_properties, few_items,
  many_items, Check, pass, report, report_if, ◌▷◌, trial, popping, each_item, each_member,
}
use crewai_go.Schema.Scalars.{
  Stdlib, check_type, json_type_of, enum_check, const_check, at_least, at_most, validate_string,
  validate_number,
}

unfoldable pub join_path : String → String → String
join_path parent key = parent ++ ("/" ++ key)

-- Every chain of references is shorter than the bound on its depth, and between two of them the
-- schema gets smaller.
unfoldable pub enough_fuel : {F : Type 0} → Json F → ℕ
unfolding size
enough_fuel root = suc max_ref_depth * suc (size root)

abbrev pub start : SchemaValidation
start = record { ref_depth = 0; expansions = 0; stack = [] }

pub data SchemaError (F : Type 0) : Type 0 where
  invalid_schema invalid_json out_of_fuel : SchemaError F
  invalid : List (ValidationError F) → SchemaError F

module _ {F : Type 0} where
  -- `schema["properties"].(map[string]any)`, empty if it is missing: no caller tells these apart.
  unfoldable pub properties_of : Option (Json F) → Members F
  properties_of (some (object m)) = m
  properties_of _ = no_members

  unfoldable pub items_of : Option (Json F) → Items F
  items_of (some (array xs)) = xs
  items_of _ = no_items

  unfoldable pub require : Members F → String → Json F → Check F
  unfolding pass report_if join_path
  require obj p (string key) = report_if (not (has_key key obj)) (join_path p key) missing_field
  require obj p _ = pass

  unfoldable pub no_more : Members F → String → String → Json F → Check F
  unfolding report_if join_path
  no_more props p key value = report_if (not (has_key key props)) (join_path p key) not_allowed

  unfoldable pub finish :
      Option (SchemaValidation × List (ValidationError F)) → Result (SchemaError F) (Unit {0})
  finish none = err out_of_fuel
  finish (some (s, [])) = ok tt
  finish (some (s, e ∷ es)) = err (invalid (e ∷ es))

module _ {F : Type 0} (lib : Stdlib F) where
  unfoldable pub any_equal : Json F → Items F → Bool
  unfolding deep_equal
  any_equal x no_items = false
  any_equal x (item y ys) = if deep_equal lib.eq x y then true else any_equal x ys

  -- The loops of uniqueItems: an error for each item that a later one equals.
  unfoldable pub unique_loop : Items F → String → Check F
  unfolding pass report_if any_equal ◌▷◌
  unique_loop no_items p = pass
  unique_loop (item x xs) p = report_if (any_equal x xs) p not_unique ▷ unique_loop xs p

  unfoldable pub unique_check : Items F → Option (Json F) → String → Check F
  unfolding pass unique_loop
  unique_check xs (some (boolean true)) p = unique_loop xs p
  unique_check xs _ p = pass

  -- The type, whose error ends validateNodeKeywords.
  unfoldable pub typed : Json F → Option (Json F) → String → Check F → Check F
  unfolding check_type report
  typed value none p next = next
  typed value (some t) p next =
      if check_type lib value t then next else report p (wrong_type t (json_type_of lib value))

  module _ (rec : Json F → Json F → String → Check F) where
    -- The loop of matchOneOfAnyOf after `n` matches; `next` gets its answer.
    unfoldable pub match_alternatives : Json F → Bool → ℕ → Items F → (Bool → Check F) → Check F
    unfolding trial
    match_alternatives value exactly n no_items next = next (if exactly then n == 1 else leb 1 n)
    match_alternatives value exactly n (item sub alts) next = trial (rec value sub "") (λ hit.
        if hit && not exactly
        then next true
        else match_alternatives value exactly (if hit then suc n else n) alts next)

    unfoldable pub combine : Json F → Bool → Items F → Message F → String → Check F
    unfolding match_alternatives pass report_if
    combine value exactly no_items message p = pass
    combine value exactly (item sub alts) message p =
        match_alternatives value exactly 0 (item sub alts) (λ fine. report_if (not fine) p message)

    unfoldable pub branch : Json F → Option (Json F) → String → Check F
    unfolding pass
    branch value none p = pass
    branch value (some schema) p = rec value schema p

    unfoldable pub if_then_else : Json F → Members F → Option (Json F) → String → Check F
    unfolding pass trial branch
    if_then_else value schema none p = pass
    if_then_else value schema (some condition) p =
        trial (rec value condition p)
          (λ holds. branch value (if holds then get "then" schema else get "else" schema) p)

    unfoldable pub not_check : Json F → Option (Json F) → String → Check F
    unfolding pass trial report_if
    not_check value none p = pass
    not_check value (some schema) p =
        trial (rec value schema p) (λ holds. report_if holds p matches_not)

    unfoldable pub at_key : Option (Json F) → Json F → String → Check F
    unfolding pass
    at_key none schema p = pass
    at_key (some value) schema p = rec value schema p

    -- The body of the loop over the properties: a subschema that is no map is passed over.
    unfoldable pub property : Members F → String → String → Json F → Check F
    unfolding pass at_key join_path
    property obj p key (object m) = at_key (get key obj) (object m) (join_path p key)
    property obj p key _ = pass

    unfoldable pub additional : Members F → Json F → String → String → Json F → Check F
    unfolding pass join_path
    additional props schema p key value =
        if has_key key props then pass else rec value schema (join_path p key)

    unfoldable pub additional_check : Members F → Members F → Option (Json F) → String → Check F
    unfolding pass each_member no_more additional
    additional_check obj props (some (boolean true)) p = pass
    additional_check obj props (some (boolean false)) p = each_member (no_more props p) obj
    additional_check obj props (some (object m)) p = each_member (additional props (object m) p) obj
    additional_check obj props _ p = pass

    unfoldable pub validate_object : Members F → Members F → String → Check F
    unfolding each_item each_member require property additional_check ◌▷◌ properties_of items_of
    validate_object obj schema p =
        let props = properties_of (get "properties" schema) in
        at_least lib (count_members obj) few_properties (get "minProperties" schema) p
        ▷ at_most lib (count_members obj) many_properties (get "maxProperties" schema) p
        ▷ each_item (λ i. require obj p) 0 (items_of (get "required" schema))
        ▷ each_member (property obj p) props
        ▷ additional_check obj props (get "additionalProperties" schema) p

    unfoldable pub items_check : Items F → Option (Json F) → String → Check F
    unfolding pass each_item join_path
    items_check xs none p = pass
    items_check xs (some schema) p =
        each_item (λ i value. rec value schema (join_path p (lib.itoa i))) 0 xs

    unfoldable pub validate_array : Items F → Members F → String → Check F
    unfolding unique_check items_check ◌▷◌
    validate_array xs schema p =
        at_least lib (count_items xs) few_items (get "minItems" schema) p
        ▷ at_most lib (count_items xs) many_items (get "maxItems" schema) p
        ▷ unique_check xs (get "uniqueItems" schema) p
        ▷ items_check xs (get "items" schema) p

    unfoldable pub by_kind : Json F → Members F → String → Check F
    unfolding validate_string validate_number validate_object validate_array pass
    by_kind (string s) schema p = validate_string lib s schema p
    by_kind (number f) schema p = validate_number lib f schema p
    by_kind (object m) schema p = validate_object m schema p
    by_kind (array xs) schema p = validate_array xs schema p
    by_kind _ schema p = pass

    unfoldable pub validate_node_keywords : Json F → Members F → String → Check F
    unfolding if_then_else not_check each_item combine typed enum_check const_check by_kind ◌▷◌
        items_of
    validate_node_keywords value schema p =
        if_then_else value schema (get "if" schema) p
        ▷ not_check value (get "not" schema) p
        ▷ each_item (λ i sub. rec value sub p) 0 (items_of (get "allOf" schema))
        ▷ combine value false (items_of (get "anyOf" schema)) no_any_of p
        ▷ combine value true (items_of (get "oneOf" schema)) no_one_of p
        ▷ typed value (get "type" schema) p (
            enum_check lib value (get "enum" schema) p
            ▷ const_check lib value (get "const" schema) p
            ▷ by_kind value schema p)

    -- After pushRef: the target, popRef, and the other keywords.
    unfoldable pub after_push :
        Json F → Members F → String → Json F → Result RefError SchemaValidation → Check F
    unfolding report popping validate_node_keywords ◌▷◌ without
    after_push value schema p target (err e) s = report p (ref_error e) s
    after_push value schema p target (ok s') s =
        (popping (rec value target p) ▷ validate_node_keywords value (without "$ref" schema) p) s'

    unfoldable pub follow :
        Json F → Members F → String → Result RefError (Json F × String) → Check F
    unfolding report push_ref after_push
    follow value schema p (err e) = report p (ref_error e)
    follow value schema p (ok (target, ptr)) =
        λ s. after_push value schema p target (push_ref ptr s) s

    unfoldable pub ref_check : Json F → Json F → Members F → Option (Json F) → String → Check F
    unfolding report follow resolve_local_ref validate_node_keywords
    ref_check root value schema none p = validate_node_keywords value schema p
    ref_check root value schema (some (string ref)) p =
        follow value schema p (resolve_local_ref lib.atoi root ref)
    ref_check root value schema (some _) p = report p (ref_error invalid_ref)

    unfoldable pub node : Json F → Json F → Json F → String → Check F
    unfolding pass report ref_check
    node root value (boolean true) p = pass
    node root value (boolean false) p = report p schema_is_false
    node root value (object m) p = ref_check root value m (get "$ref" m) p
    node root value _ p = pass

  unfoldable pub validate_node : ℕ → Json F → Json F → Json F → String → Check F
  unfolding node
  validate_node zero root value schema p = λ s. none
  validate_node (suc fuel) root value schema p = node (validate_node fuel root) root value schema p

  unfoldable pub validate_decoded :
      Option (Json F) → Option (Json F) → Result (SchemaError F) (Unit {0})
  unfolding finish validate_node enough_fuel
  validate_decoded none doc = err invalid_schema
  validate_decoded (some schema) none = err invalid_json
  validate_decoded (some schema) (some doc) =
      finish (validate_node (enough_fuel schema) schema doc schema "" start)

  -- `parse` is json.Unmarshal.
  unfoldable pub validate_schema :
      (String → Option (Json F)) → String → String → Result (SchemaError F) (Unit {0})
  unfolding validate_decoded
  validate_schema parse doc schema = validate_decoded (parse schema) (parse doc)
