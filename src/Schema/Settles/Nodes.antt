-- ===== src/Schema/Settles/Nodes.antt =====
-- The keywords that validate further nodes end if validateNode does on every smaller schema.
use crewai_go.Base.{
  ℕ, ◌≤◌, true, false, Option, none, some, String, ◌≡◌, refl, arith, inl, inr, Bool-cases,
}
use crewai_go.Schema.Json.{
  Json, null, boolean, number, string, array, object, Items, no_items, item, Members, get, has_key,
  count_members, count_items, size, size_items, size_members,
}
use crewai_go.Schema.Checks.{
  no_any_of, no_one_of, missing_field, not_allowed, not_unique, wrong_type, few_properties,
  many_properties, few_items, many_items, Check,
}
use crewai_go.Schema.Scalars.{Stdlib, check_type, json_type_of}
use crewai_go.Schema.Nodes.{
  join_path, properties_of, items_of, require, at_key, property, no_more, additional,
  additional_check, validate_object, unique_loop, any_equal, unique_check, items_check,
  validate_array, by_kind, typed, validate_node_keywords,
}
use crewai_go.Schema.Settles.{
  IsSettled, IsSettled-prefix, pass-IsSettled, report-IsSettled_here, report_if-IsSettled,
  report_if-IsSettled_here, ▷-IsSettled, each_item-IsSettled, each_member-IsSettled,
}
use crewai_go.Schema.Settles.Scalars.{
  at_least-IsSettled, at_most-IsSettled, enum_check-IsSettled, const_check-IsSettled,
  validate_string-IsSettled, validate_number-IsSettled,
}
use crewai_go.Schema.Settles.Sizes.{get-size_within, items_of-size, properties_of-size}
use crewai_go.Schema.Settles.Combined.{
  combine-IsSettled, not_check-IsSettled, if_then_else-IsSettled,
}

module _ {F : Type 0} (lib : Stdlib F) (d : ℕ) where
  require-IsSettled :
      (obj : Members F) (p : String) (key : Json F) → IsSettled d p (require obj p key)
  unfolding require join_path
  require-IsSettled obj p null = pass-IsSettled
  require-IsSettled obj p (boolean b) = pass-IsSettled
  require-IsSettled obj p (number f) = pass-IsSettled
  require-IsSettled obj p (array xs) = pass-IsSettled
  require-IsSettled obj p (object m) = pass-IsSettled
  require-IsSettled obj p (string key) = report_if-IsSettled _ _ missing_field

  no_more-IsSettled :
      (props : Members F) (p key : String) (v : Json F) → IsSettled d p (no_more props p key v)
  unfolding no_more join_path
  no_more-IsSettled props p key v = report_if-IsSettled _ _ not_allowed

  unique_loop-IsSettled : (xs : Items F) (p : String) → IsSettled d p (unique_loop lib xs p)
  unfolding unique_loop
  unique_loop-IsSettled no_items p = pass-IsSettled
  unique_loop-IsSettled (item x xs) p =
      ▷-IsSettled _ _ (report_if-IsSettled_here (any_equal lib x xs) not_unique)
        (unique_loop-IsSettled xs p)

  unique_check-IsSettled :
      (xs : Items F) (u : Option (Json F)) (p : String) → IsSettled d p (unique_check lib xs u p)
  unfolding unique_check
  unique_check-IsSettled xs none p = pass-IsSettled
  unique_check-IsSettled xs (some null) p = pass-IsSettled
  unique_check-IsSettled xs (some (number f)) p = pass-IsSettled
  unique_check-IsSettled xs (some (string s)) p = pass-IsSettled
  unique_check-IsSettled xs (some (array ys)) p = pass-IsSettled
  unique_check-IsSettled xs (some (object m)) p = pass-IsSettled
  unique_check-IsSettled xs (some (boolean false)) p = pass-IsSettled
  unique_check-IsSettled xs (some (boolean true)) p = unique_loop-IsSettled xs p

  typed-IsSettled :
      (value : Json F) (t : Option (Json F)) (p : String) (next : Check F)
      → IsSettled d p next
      → IsSettled d p (typed lib value t p next)
  unfolding typed
  typed-IsSettled value none p next r = r
  typed-IsSettled value (some t) p next r = elim (Bool-cases (check_type lib value t)) [
    | inl h ↦ rw h r
    | inr h ↦ rw h (report-IsSettled_here (wrong_type t (json_type_of lib value)))
  ]

  -- `k` bounds the schemas for which `rec` ends.
  module _ (rec : Json F → Json F → String → Check F) (k : ℕ)
      (ends : (v schema : Json F) (q : String)
        → size schema ≤ k
        → IsSettled d q (rec v schema q)) where
    module _ (schema : Members F) (fits : size_members schema ≤ k) where
      at_key-IsSettled :
          (found : Option (Json F)) (sub : Json F) (p : String)
          → size sub ≤ k
          → IsSettled d p (at_key lib rec found sub p)
      unfolding at_key
      at_key-IsSettled none sub p small = pass-IsSettled
      at_key-IsSettled (some value) sub p small = ends value sub p small

      property-IsSettled :
          (obj : Members F) (p key : String) (sub : Json F)
          → size sub ≤ k
          → IsSettled d p (property lib rec obj p key sub)
      unfolding property join_path
      property-IsSettled obj p key null small = pass-IsSettled
      property-IsSettled obj p key (boolean b) small = pass-IsSettled
      property-IsSettled obj p key (number f) small = pass-IsSettled
      property-IsSettled obj p key (string s) small = pass-IsSettled
      property-IsSettled obj p key (array xs) small = pass-IsSettled
      property-IsSettled obj p key (object m) small =
          IsSettled-prefix p _ (at_key-IsSettled (get key obj) (object m) _ small)

      additional-IsSettled :
          (props : Members F) (sub : Json F) (p key : String) (value : Json F)
          → size sub ≤ k
          → IsSettled d p (additional lib rec props sub p key value)
      unfolding additional join_path
      additional-IsSettled props sub p key value small = elim (Bool-cases (has_key key props)) [
        | inl h ↦ rw h pass-IsSettled
        | inr h ↦ rw h (IsSettled-prefix p _ (ends value sub _ small))
      ]

      additional_check-IsSettled :
          (obj props : Members F) (found : Option (Json F)) (p : String)
          → ((v : Json F) → found ≡ some v → size v ≤ k)
          → IsSettled d p (additional_check lib rec obj props found p)
      unfolding additional_check
      additional_check-IsSettled obj props none p small = pass-IsSettled
      additional_check-IsSettled obj props (some null) p small = pass-IsSettled
      additional_check-IsSettled obj props (some (number f)) p small = pass-IsSettled
      additional_check-IsSettled obj props (some (string s)) p small = pass-IsSettled
      additional_check-IsSettled obj props (some (array xs)) p small = pass-IsSettled
      additional_check-IsSettled obj props (some (boolean true)) p small = pass-IsSettled
      additional_check-IsSettled obj props (some (boolean false)) p small =
          each_member-IsSettled _ (size_members obj) obj (omega arith)
            (λ key v here. no_more-IsSettled props p key v)
      additional_check-IsSettled obj props (some (object m)) p small =
          each_member-IsSettled _ (size_members obj) obj (omega arith)
            (λ key v here. additional-IsSettled props (object m) p key v (small (object m) refl))

      items_check-IsSettled :
          (xs : Items F) (found : Option (Json F)) (p : String)
          → ((v : Json F) → found ≡ some v → size v ≤ k)
          → IsSettled d p (items_check lib rec xs found p)
      unfolding items_check join_path
      items_check-IsSettled xs none p small = pass-IsSettled
      items_check-IsSettled xs (some sub) p small =
          each_item-IsSettled _ (size_items xs) 0 xs (omega arith)
            (λ i x here. IsSettled-prefix p _ (ends x sub _ (small sub refl)))

      validate_object-IsSettled :
          (obj : Members F) (p : String) → IsSettled d p (validate_object lib rec obj schema p)
      unfolding validate_object
      validate_object-IsSettled obj p =
          ▷-IsSettled _ _
            (at_least-IsSettled lib d p (count_members obj) few_properties
              (get "minProperties" schema))
            (▷-IsSettled _ _
              (at_most-IsSettled lib d p (count_members obj) many_properties
                (get "maxProperties" schema))
              (▷-IsSettled _ _
                (each_item-IsSettled _ k 0 (items_of (get "required" schema))
                  (items_of-size k (get "required" schema) (get-size_within schema fits "required"))
                  (λ i x here. require-IsSettled obj p x))
                (▷-IsSettled _ _
                  (each_member-IsSettled _ k (properties_of (get "properties" schema))
                    (properties_of-size k (get "properties" schema)
                      (get-size_within schema fits "properties"))
                    (property-IsSettled obj p))
                  (additional_check-IsSettled obj (properties_of (get "properties" schema))
                    (get "additionalProperties" schema) p
                    (get-size_within schema fits "additionalProperties")))))

      validate_array-IsSettled :
          (xs : Items F) (p : String) → IsSettled d p (validate_array lib rec xs schema p)
      unfolding validate_array
      validate_array-IsSettled xs p =
          ▷-IsSettled _ _
            (at_least-IsSettled lib d p (count_items xs) few_items (get "minItems" schema))
            (▷-IsSettled _ _
              (at_most-IsSettled lib d p (count_items xs) many_items (get "maxItems" schema))
              (▷-IsSettled _ _ (unique_check-IsSettled xs (get "uniqueItems" schema) p) (
                items_check-IsSettled xs (get "items" schema) p
                  (get-size_within schema fits "items"))))

      by_kind-IsSettled :
          (value : Json F) (p : String) → IsSettled d p (by_kind lib rec value schema p)
      unfolding by_kind
      by_kind-IsSettled null p = pass-IsSettled
      by_kind-IsSettled (boolean b) p = pass-IsSettled
      by_kind-IsSettled (string s) p = validate_string-IsSettled lib d p s schema
      by_kind-IsSettled (number f) p = validate_number-IsSettled lib d p f schema
      by_kind-IsSettled (object m) p = validate_object-IsSettled m p
      by_kind-IsSettled (array xs) p = validate_array-IsSettled xs p

      pub validate_node_keywords-IsSettled :
          (value : Json F) (p : String)
          → IsSettled d p (validate_node_keywords lib rec value schema p)
      unfolding validate_node_keywords
      validate_node_keywords-IsSettled value p =
          ▷-IsSettled _ _
            (if_then_else-IsSettled lib d rec k ends schema fits value (get "if" schema) p
              (get-size_within schema fits "if"))
            (▷-IsSettled _ _
              (not_check-IsSettled lib d rec k ends value (get "not" schema) p
                (get-size_within schema fits "not"))
              (▷-IsSettled _ _
                (each_item-IsSettled _ k 0 (items_of (get "allOf" schema))
                  (items_of-size k (get "allOf" schema) (get-size_within schema fits "allOf"))
                  (λ i x small. ends value x p small))
                (▷-IsSettled _ _
                  (combine-IsSettled lib d rec k ends value false (items_of (get "anyOf" schema))
                    no_any_of p
                    (items_of-size k (get "anyOf" schema) (get-size_within schema fits "anyOf")))
                  (▷-IsSettled _ _
                    (combine-IsSettled lib d rec k ends value true (items_of (get "oneOf" schema))
                      no_one_of p
                      (items_of-size k (get "oneOf" schema) (get-size_within schema fits "oneOf")))
                    (typed-IsSettled value (get "type" schema) p _ (
                      ▷-IsSettled _ _ (enum_check-IsSettled lib d p value (get "enum" schema)) (
                        ▷-IsSettled _ _ (const_check-IsSettled lib d p value (get "const" schema))
                          (by_kind-IsSettled value p))))))))
