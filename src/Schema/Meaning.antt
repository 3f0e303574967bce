-- ===== src/Schema/Meaning.antt =====
-- A reference meaning of schemas without references: which values satisfy one, written by keyword and
-- apart from the validator's checks. `Decides` relates it to checks, `Types` and `Formats` to the tests
-- of the validator, and the others to its checks.
pub mod Decides
pub mod Types
pub mod Formats
pub mod Scalars
pub mod Fits
pub mod Combined
pub mod Nodes
pub mod Accepts
use crewai_go.Base.{
  ℕ, zero, suc, ◌+◌, ◌==◌, ltb, if◌then◌else◌, Bool, true, false, not, ◌&&◌, ◌||◌, Option, none,
  some, String, str_eq, List, [], ◌∷◌,
}
use crewai_go.Memory.Text.{len, contains}
use crewai_go.Schema.Json.{
  Json, null, boolean, number, string, array, object, Items, no_items, item, Members, no_members,
  member, get, has_key, count_members, count_items, deep_equal,
}
use crewai_go.Schema.Scalars.{Stdlib}

-- A schema that no value satisfies.
abbrev pub is_false : {F : Type 0} → Json F → Bool
is_false (boolean false) = true
is_false _ = false

abbrev pub lacks_false : {F : Type 0} → Members F → Bool
lacks_false no_members = true
lacks_false (member k v m) = not (is_false v) && lacks_false m

abbrev pub properties_plain : {F : Type 0} → Option (Json F) → Bool
properties_plain (some (object props)) = lacks_false props
properties_plain _ = true

-- A schema in which nothing is called "$ref" and no property has the schema `false`.
unfoldable mutual
  unfolding has_key get

  pub is_plain : {F : Type 0} → Json F → Bool
  is_plain (object m) =
      (not (has_key "$ref" m) && properties_plain (get "properties" m)) && plain_members m
  is_plain (array xs) = plain_items xs
  is_plain _ = true

  pub plain_items : {F : Type 0} → Items F → Bool
  plain_items no_items = true
  plain_items (item x xs) = is_plain x && plain_items xs

  pub plain_members : {F : Type 0} → Members F → Bool
  plain_members no_members = true
  plain_members (member k v m) = is_plain v && plain_members m

-- A condition on what a keyword holds, if it is there.
abbrev pub if_there {ℓ} : {A : Type ℓ} → Option A → (A → Bool) → Bool
if_there none f = true
if_there (some a) f = f a

abbrev pub is_none {ℓ} : {A : Type ℓ} → Option A → Bool
is_none none = true
is_none (some a) = false

module _ {F : Type 0} where
  -- The items of a keyword that holds an array, and the members of one that holds a map.
  abbrev pub items_in : Option (Json F) → Items F
  items_in (some (array xs)) = xs
  items_in _ = no_items

  abbrev pub members_in : Option (Json F) → Members F
  members_in (some (object m)) = m
  members_in _ = no_members

  abbrev pub all_items : (Json F → Bool) → Items F → Bool
  all_items f no_items = true
  all_items f (item x xs) = f x && all_items f xs

  abbrev pub any_item : (Json F → Bool) → Items F → Bool
  any_item f no_items = false
  any_item f (item x xs) = f x || any_item f xs

  abbrev pub count_where : (Json F → Bool) → Items F → ℕ
  count_where f no_items = 0
  count_where f (item x xs) = let n = count_where f xs in if f x then suc n else n

  abbrev pub all_members : (String → Json F → Bool) → Members F → Bool
  all_members f no_members = true
  all_members f (member k v m) = f k v && all_members f m

abbrev pub all_types : List String
all_types = "null" ∷ "boolean" ∷ "number" ∷ "integer" ∷ "string" ∷ "array" ∷ "object" ∷ []

abbrev pub is_one_of : String → List String → Bool
is_one_of name [] = false
is_one_of name (x ∷ xs) = str_eq name x || is_one_of name xs

abbrev pub meets_format : String → List (String × Bool) → Bool
meets_format name [] = true
meets_format name ((x, fine) ∷ rest) = if str_eq name x then fine else meets_format name rest

module _ {F : Type 0} (lib : Stdlib F) where
  -- The JSON Schema types that a value has; a name that is not one of them excludes nothing.
  abbrev pub types_of : Json F → List String
  types_of null = "null" ∷ []
  types_of (boolean b) = "boolean" ∷ []
  types_of (number f) = if lib.is_integral f then "number" ∷ "integer" ∷ [] else "number" ∷ []
  types_of (string s) = "string" ∷ []
  types_of (array xs) = "array" ∷ []
  types_of (object m) = "object" ∷ []

  abbrev pub type_name_ok : Json F → String → Bool
  type_name_ok value name = not (is_one_of name all_types) || is_one_of name (types_of value)

  -- A list of types is satisfied by a value of one of them.
  unfoldable mutual
    pub type_ok : Json F → Json F → Bool
    type_ok value (string name) = type_name_ok value name
    type_ok value (array ts) = any_type_ok value ts
    type_ok value _ = true

    pub any_type_ok : Json F → Items F → Bool
    any_type_ok value no_items = false
    any_type_ok value (item t ts) = type_ok value t || any_type_ok value ts

  abbrev pub enum_ok : Json F → Json F → Bool
  enum_ok value (array es) = any_item (deep_equal lib.eq value) es
  enum_ok value _ = true

  -- A bound is a number or a text that reads as one; anything else bounds nothing.
  abbrev pub bound_ok : (F → Bool) → Option (Json F) → Bool
  bound_ok bad (some (number v)) = not (bad v)
  bound_ok bad (some (string s)) = if_there (lib.parse_float s) (λ v. not (bad v))
  bound_ok bad _ = true

  abbrev pub least_ok : ℕ → Option (Json F) → Bool
  least_ok n found = bound_ok (λ v. lib.lt (lib.of_length n) v) found

  abbrev pub most_ok : ℕ → Option (Json F) → Bool
  most_ok n found = bound_ok (λ v. lib.lt v (lib.of_length n)) found

  -- A pattern is no longer than 512 bytes, compiles, and matches.
  abbrev pub pattern_ok : String → Option (Json F) → Bool
  pattern_ok s (some (string p)) =
      str_eq p "" || not (ltb 512 (len p)) && elim (lib.compile p) [ none ↦ false | some m ↦ m s ]
  pattern_ok s _ = true

  -- What each format asks of a text. A name that is not listed asks for nothing.
  abbrev pub formats : String → List (String × Bool)
  formats s =
      (
        "date-time",
        lib.parse_time "2006-01-02T15:04:05Z07:00" s
            || lib.parse_time "2006-01-02T15:04:05.999999999Z07:00" s,
      )
      ∷ ("date", lib.parse_time "2006-01-02" s)
      ∷ (
        "time",
        lib.parse_time "15:04:05.999999999Z07:00" s || lib.parse_time "15:04:05.999999999" s,
      )
      ∷ (
        "email",
        not (ltb 254 (len s)) && (lib.parse_address s && not (contains s "<" || contains s " ")),
      )
      ∷ (
        "uri",
        elim (lib.parse_url s) [
          | none ↦ false
          | some parts ↦ not (str_eq parts.0 "") && not (str_eq parts.1 "")
        ],
      )
      ∷ ("uri-reference", not (is_none (lib.parse_url s)))
      ∷ (
        "uuid",
        elim (lib.compile "(?i)^[0-9a-f]{8}-[0-9a-f]{4}-[0-9a-f]{4}-[0-9a-f]{4}-[0-9a-f]{12}$") [
          | none ↦ false
          | some matching ↦ matching s
        ],
      )
      ∷ ("ipv4", elim (lib.parse_ip s) [ none ↦ false | some v4 ↦ v4 ])
      ∷ ("ipv6", elim (lib.parse_ip s) [ none ↦ false | some v4 ↦ not v4 ])
      ∷ []

  abbrev pub format_ok : String → Option (Json F) → Bool
  format_ok s (some (string name)) = str_eq name "" || meets_format name (formats s)
  format_ok s _ = true

  abbrev pub exclusive_ok : (F → Bool) → Option (Json F) → Option (Json F) → Bool
  exclusive_ok bad none bound = true
  exclusive_ok bad (some (boolean e)) bound = not e || bound_ok bad bound
  exclusive_ok bad (some ex) bound = bound_ok bad (some ex)

  abbrev pub unique_items : Items F → Bool
  unique_items no_items = true
  unique_items (item x xs) = not (any_item (deep_equal lib.eq x) xs) && unique_items xs

  abbrev pub unique_ok : Items F → Option (Json F) → Bool
  unique_ok xs (some (boolean true)) = unique_items xs
  unique_ok xs _ = true

  -- `sat` is the meaning of the schemas within.
  module _ (sat : Json F → Json F → Bool) where
    abbrev pub required_ok : Members F → Json F → Bool
    required_ok obj (string key) = has_key key obj
    required_ok obj _ = true

    abbrev pub property_ok : Members F → String → Json F → Bool
    property_ok obj key s = if_there (get key obj) (λ v. sat v s)

    abbrev pub additional_ok : Members F → Members F → Option (Json F) → Bool
    additional_ok obj props (some (boolean false)) = all_members (λ k v. has_key k props) obj
    additional_ok obj props (some (object m)) =
        all_members (λ k v. has_key k props || sat v (object m)) obj
    additional_ok obj props _ = true

    abbrev pub kind_ok : Json F → Members F → Bool
    kind_ok (string s) m =
        least_ok (len s) (get "minLength" m)
        && (most_ok (len s) (get "maxLength" m)
            && (pattern_ok s (get "pattern" m) && format_ok s (get "format" m)))
    kind_ok (number f) m =
        bound_ok (λ v. lib.lt f v) (get "minimum" m)
        && (bound_ok (λ v. lib.lt v f) (get "maximum" m)
            && (exclusive_ok (λ v. lib.le f v) (get "exclusiveMinimum" m) (get "minimum" m)
                && exclusive_ok (λ v. lib.le v f) (get "exclusiveMaximum" m) (get "maximum" m)))
    kind_ok (object obj) m =
        least_ok (count_members obj) (get "minProperties" m)
        && (most_ok (count_members obj) (get "maxProperties" m)
            && (all_items (required_ok obj) (items_in (get "required" m))
                && (all_members (property_ok obj) (members_in (get "properties" m))
                    && additional_ok obj (members_in (get "properties" m))
                        (get "additionalProperties" m))))
    kind_ok (array xs) m =
        least_ok (count_items xs) (get "minItems" m)
        && (most_ok (count_items xs) (get "maxItems" m)
            && (unique_ok xs (get "uniqueItems" m)
                && if_there (get "items" m) (λ s. all_items (λ x. sat x s) xs)))
    kind_ok _ m = true

    abbrev pub any_ok : Json F → Items F → Bool
    any_ok value no_items = true
    any_ok value (item s ss) = any_item (sat value) (item s ss)

    abbrev pub one_ok : Json F → Items F → Bool
    one_ok value no_items = true
    one_ok value (item s ss) = count_where (sat value) (item s ss) == 1

    -- All keywords of a schema.
    pub meets : Json F → Members F → Bool
    meets value m =
        if_there (get "if" m)
          (λ c. if_there (if sat value c then get "then" m else get "else" m) (sat value))
        && (if_there (get "not" m) (λ s. not (sat value s))
            && (all_items (sat value) (items_in (get "allOf" m))
                && (any_ok value (items_in (get "anyOf" m))
                    && (one_ok value (items_in (get "oneOf" m))
                        && (if_there (get "type" m) (type_ok value)
                            && (if_there (get "enum" m) (enum_ok value)
                                && (if_there (get "const" m) (deep_equal lib.eq value)
                                    && kind_ok value m)))))))

  -- On fuel, of which a schema needs no more than its size.
  pub satisfies : ℕ → Json F → Json F → Bool
  unfolding meets
  satisfies zero value schema = false
  satisfies (suc n) value (boolean b) = b
  satisfies (suc n) value (object m) = meets (satisfies n) value m
  satisfies (suc n) value _ = true
