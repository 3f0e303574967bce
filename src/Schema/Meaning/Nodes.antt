-- ===== src/Schema/Meaning/Nodes.antt =====
-- The checks of the keywords that hold schemas decide what they mean, if validateNode does on every
-- smaller schema.
use crewai_go.Base.{
  ℕ, Bool, true, false, not, subst, sym, ◌&&◌, ◌||◌, Option, none, some, String, ◌≡◌, refl, inl,
  inr, Bool-cases,
}
use crewai_go.Schema.Json.{
  Json, null, boolean, number, string, array, object, Items, no_items, item, Members, get, has_key,
  count_members, count_items, deep_equal,
}
use crewai_go.Schema.Checks.{
  missing_field, not_allowed, not_unique, wrong_type, few_properties, many_properties, few_items,
  many_items, Check, pass, report_if,
}
use crewai_go.Schema.Scalars.{Stdlib, check_type, json_type_of}
use crewai_go.Schema.Nodes.{
  join_path, properties_of, items_of, require, at_key, property, no_more, additional,
  additional_check, validate_object, unique_loop, any_equal, unique_check, items_check,
  validate_array, by_kind, typed, validate_node_keywords,
}
use crewai_go.Schema.Meaning.Types.{check_type-ok, any_equal-any}
use crewai_go.Schema.Meaning.{
  is_false, lacks_false, properties_plain, type_ok, any_item, all_items, if_there, unique_items,
  unique_ok, required_ok, property_ok, additional_ok, kind_ok, meets,
}
use crewai_go.Schema.Meaning.Decides.{
  Decides, pass-Decides, report-Decides, report_if-Decides, report_if-Decides-not, ▷-Decides,
}
use crewai_go.Schema.Meaning.Scalars.{
  at_least-Decides, at_most-Decides, enum_check-Decides, const_check-Decides,
  validate_string-Decides, validate_number-Decides,
}
use crewai_go.Schema.Meaning.Fits.{
  Fits, MembersFit, get-Fits, items_of-ItemsFit, properties_of-MembersFit, each_item-Decides,
  each_item-Decides_fitting, each_member-Decides, each_property-Decides,
}
use crewai_go.Schema.Meaning.Combined.{
  any_of-Decides, one_of-Decides, not_check-Decides, if_then_else-Decides,
}

-- A schema that is neither a map nor `false`.
abbrev pub asks_nothing : {F : Type 0} → Json F → Bool
asks_nothing (object m) = false
asks_nothing (boolean b) = b
asks_nothing _ = true

lacks_false-in :
    {F : Type 0} (found : Option (Json F))
    → properties_plain found ≡ true
    → lacks_false (properties_of found) ≡ true
unfolding properties_of
lacks_false-in none h = refl
lacks_false-in (some null) h = refl
lacks_false-in (some (boolean b)) h = refl
lacks_false-in (some (number f)) h = refl
lacks_false-in (some (string s)) h = refl
lacks_false-in (some (array xs)) h = refl
lacks_false-in (some (object m)) h = h

module _ {F : Type 0} (lib : Stdlib F) (sat : Json F → Json F → Bool) where
  require-Decides :
      (obj : Members F) (p : String) (key : Json F)
      → Decides (required_ok lib sat obj key) (require obj p key)
  unfolding require
  require-Decides obj p null = pass-Decides
  require-Decides obj p (boolean b) = pass-Decides
  require-Decides obj p (number f) = pass-Decides
  require-Decides obj p (array xs) = pass-Decides
  require-Decides obj p (object m) = pass-Decides
  require-Decides obj p (string key) = report_if-Decides-not (has_key key obj) _ missing_field

  unique_loop-Decides :
      (xs : Items F) (p : String) → Decides (unique_items lib xs) (unique_loop lib xs p)
  unfolding unique_loop
  unique_loop-Decides no_items p = pass-Decides
  unique_loop-Decides (item x xs) p =
      let here : Decides (not (any_item (deep_equal lib.eq x) xs))
          (report_if {F = F} (any_equal lib x xs) p not_unique) =
        subst (λ b. Decides (not b) (report_if {F = F} (any_equal lib x xs) p not_unique))
          (any_equal-any lib x xs) (report_if-Decides (any_equal lib x xs) p not_unique) in
      ▷-Decides _ _ here (unique_loop-Decides xs p)

  unique_check-Decides :
      (xs : Items F) (u : Option (Json F)) (p : String)
      → Decides (unique_ok lib xs u) (unique_check lib xs u p)
  unfolding unique_check
  unique_check-Decides xs none p = pass-Decides
  unique_check-Decides xs (some null) p = pass-Decides
  unique_check-Decides xs (some (number f)) p = pass-Decides
  unique_check-Decides xs (some (string s)) p = pass-Decides
  unique_check-Decides xs (some (array ys)) p = pass-Decides
  unique_check-Decides xs (some (object m)) p = pass-Decides
  unique_check-Decides xs (some (boolean false)) p = pass-Decides
  unique_check-Decides xs (some (boolean true)) p = unique_loop-Decides xs p

  typed-Decides :
      (value : Json F) (t : Option (Json F)) (p : String) (y : Bool) (next : Check F)
      → Decides y next
      → Decides (if_there t (type_ok lib value) && y) (typed lib value t p next)
  unfolding typed
  typed-Decides value none p y next d = d
  typed-Decides value (some t) p y next d =
      subst (λ b. Decides (b && y) (typed lib value (some t) p next)) (check_type-ok lib value t)
        (elim (Bool-cases (check_type lib value t)) [
          | inl h ↦ rw h d
          | inr h ↦ rw h (report-Decides p (wrong_type t (json_type_of lib value)))
        ])

  module _ (rec : Json F → Json F → String → Check F) (k : ℕ)
      (right : (v s : Json F) (q : String) → Fits k s → Decides (sat v s) (rec v s q))
      (lax : (v s : Json F) → Fits k s → asks_nothing s ≡ true → sat v s ≡ true) where
    -- A property whose schema is no map and not `false` asks for nothing.
    passed-Decides :
        (key : String) (obj : Members F) (s : Json F)
        → Fits k s
        → asks_nothing s ≡ true
        → Decides {F = F} (property_ok lib sat obj key s) pass
    passed-Decides key obj s fits nothing =
        subst (λ b. Decides {F = F} b pass) (sym (asked (get key obj))) pass-Decides
      where
        asked : (found : Option (Json F)) → if_there found (λ v. sat v s) ≡ true
        asked none = refl
        asked (some v) = lax v s fits nothing

    property-Decides :
        (obj : Members F) (p key : String) (s : Json F)
        → Fits k s
        → is_false s ≡ false
        → Decides (property_ok lib sat obj key s) (property lib rec obj p key s)
    unfolding property at_key
    property-Decides obj p key (boolean false) fits h = absurd (cc)
    property-Decides obj p key (boolean true) fits h =
        passed-Decides key obj (boolean true) fits refl
    property-Decides obj p key null fits h = passed-Decides key obj null fits refl
    property-Decides obj p key (number f) fits h = passed-Decides key obj (number f) fits refl
    property-Decides obj p key (string s) fits h = passed-Decides key obj (string s) fits refl
    property-Decides obj p key (array xs) fits h = passed-Decides key obj (array xs) fits refl
    property-Decides obj p key (object m) fits h = held-Decides (get key obj)
      where
        held-Decides :
            (found : Option (Json F))
            → Decides
                (if_there found (λ v. sat v (object m)))
                (at_key lib rec found (object m) (join_path p key))
        held-Decides none = pass-Decides
        held-Decides (some v) = right v (object m) (join_path p key) fits

    additional-Decides :
        (props : Members F) (s : Json F) (p key : String) (v : Json F)
        → Fits k s
        → Decides (has_key key props || sat v s) (additional lib rec props s p key v)
    unfolding additional
    additional-Decides props s p key v fits = elim (Bool-cases (has_key key props)) [
      | inl h ↦ rw h pass-Decides
      | inr h ↦ rw h (right v s (join_path p key) fits)
    ]

    additional_check-Decides :
        (obj props : Members F) (found : Option (Json F)) (p : String)
        → ((v : Json F) → found ≡ some v → Fits k v)
        → Decides
            (additional_ok lib sat obj props found)
            (additional_check lib rec obj props found p)
    unfolding additional_check no_more
    additional_check-Decides obj props none p fits = pass-Decides
    additional_check-Decides obj props (some null) p fits = pass-Decides
    additional_check-Decides obj props (some (number f)) p fits = pass-Decides
    additional_check-Decides obj props (some (string s)) p fits = pass-Decides
    additional_check-Decides obj props (some (array xs)) p fits = pass-Decides
    additional_check-Decides obj props (some (boolean true)) p fits = pass-Decides
    additional_check-Decides obj props (some (boolean false)) p fits =
        each_member-Decides _ (λ key v. has_key key props) obj
          (λ key v. report_if-Decides-not (has_key key props) (join_path p key) not_allowed)
    additional_check-Decides obj props (some (object m)) p fits =
        each_member-Decides _ (λ key v. has_key key props || sat v (object m)) obj
          (λ key v. additional-Decides props (object m) p key v (fits (object m) refl))

    items_check-Decides :
        (xs : Items F) (found : Option (Json F)) (p : String)
        → ((v : Json F) → found ≡ some v → Fits k v)
        → Decides
            (if_there found (λ s. all_items (λ x. sat x s) xs))
            (items_check lib rec xs found p)
    unfolding items_check
    items_check-Decides xs none p fits = pass-Decides
    items_check-Decides xs (some s) p fits =
        each_item-Decides _ (λ x. sat x s) 0 xs (λ i x. right x s _ (fits s refl))

    module _ (m : Members F) (within : MembersFit k m)
        (lacks : properties_plain (get "properties" m) ≡ true) where
      held : (key : String) (v : Json F) → get key m ≡ some v → Fits k v
      held key = get-Fits key m within

      by_kind-Decides :
          (value : Json F) (p : String)
          → Decides (kind_ok lib sat value m) (by_kind lib rec value m p)
      unfolding by_kind validate_object validate_array properties_of items_of
      by_kind-Decides null p = pass-Decides
      by_kind-Decides (boolean b) p = pass-Decides
      by_kind-Decides (string s) p = validate_string-Decides lib p sat s m
      by_kind-Decides (number f) p = validate_number-Decides lib p sat f m
      by_kind-Decides (array xs) p =
          ▷-Decides _ _ (at_least-Decides lib p (count_items xs) few_items (get "minItems" m)) (
            ▷-Decides _ _ (at_most-Decides lib p (count_items xs) many_items (get "maxItems" m)) (
              ▷-Decides _ _ (unique_check-Decides xs (get "uniqueItems" m) p)
                (items_check-Decides xs (get "items" m) p (held "items"))))
      by_kind-Decides (object obj) p =
          let props = properties_of (get "properties" m) in
          ▷-Decides _ _
            (at_least-Decides lib p (count_members obj) few_properties (get "minProperties" m))
            (▷-Decides _ _
              (at_most-Decides lib p (count_members obj) many_properties (get "maxProperties" m))
              (▷-Decides _ _
                (each_item-Decides (λ i. require obj p) (required_ok lib sat obj) 0
                  (items_of (get "required" m)) (λ i. require-Decides obj p))
                (▷-Decides _ _
                  (each_property-Decides k (property lib rec obj p) (property_ok lib sat obj) props
                    (properties_of-MembersFit (get "properties" m) (held "properties"))
                    (lacks_false-in (get "properties" m) lacks) (property-Decides obj p))
                  (additional_check-Decides obj props (get "additionalProperties" m) p
                    (held "additionalProperties")))))

      pub validate_node_keywords-Decides :
          (value : Json F) (p : String)
          → Decides (meets lib sat value m) (validate_node_keywords lib rec value m p)
      unfolding validate_node_keywords meets properties_of items_of
      validate_node_keywords-Decides value p =
          ▷-Decides _ _
            (if_then_else-Decides lib sat rec k right m within value (get "if" m) p (held "if"))
            (▷-Decides _ _
              (not_check-Decides lib sat rec k right value (get "not" m) p (held "not"))
              (▷-Decides _ _
                (each_item-Decides_fitting k _ (sat value) 0 (items_of (get "allOf" m))
                  (items_of-ItemsFit (get "allOf" m) (held "allOf")) (λ i s. right value s p))
                (▷-Decides _ _
                  (any_of-Decides lib sat rec k right value (items_of (get "anyOf" m)) p
                    (items_of-ItemsFit (get "anyOf" m) (held "anyOf")))
                  (▷-Decides _ _
                    (one_of-Decides lib sat rec k right value (items_of (get "oneOf" m)) p
                      (items_of-ItemsFit (get "oneOf" m) (held "oneOf")))
                    (typed-Decides value (get "type" m) p _ _ (
                      ▷-Decides _ _ (enum_check-Decides lib p value (get "enum" m)) (
                        ▷-Decides _ _ (const_check-Decides lib p value (get "const" m))
                          (by_kind-Decides value p))))))))
