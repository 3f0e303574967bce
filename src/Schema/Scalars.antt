-- ===== src/Schema/Scalars.antt =====
-- The keywords that compare one value with the schema: type, enum, const, and those of strings and
-- numbers. Of the standard library `Stdlib` has float64, strconv, regexp, time, net, net/mail and
-- net/url; `parse_ip` tells whether To4 is not nil.
use crewai_go.Base.{
  ℕ, ltb, if◌then◌else◌, Bool, true, false, not, ◌&&◌, ◌||◌, Option, none, some, String, str_eq,
}
use crewai_go.Base.Int.{ℤ}
use crewai_go.Memory.Text.{len, contains}
use crewai_go.Schema.Json.{
  Json, null, boolean, number, string, array, object, Items, no_items, item, Members, get,
  deep_equal,
}
use crewai_go.Schema.Checks.{
  Message, not_in_enum, not_const, too_short, too_long, pattern_too_long, bad_pattern, no_match,
  bad_format, below, above, not_greater, not_less, Check, pass, report, report_if, ◌▷◌, with_float,
}

pub record Stdlib (F : Type 0) : Type 0 where
  pub lt : F → F → Bool
  pub le : F → F → Bool
  pub eq : F → F → Bool
  pub of_length : ℕ → F
  pub is_integral : F → Bool
  pub parse_float : String → Option F
  pub compile : String → Option (String → Bool)
  pub atoi : String → Option ℤ
  pub itoa : ℕ → String
  pub parse_time : String → String → Bool
  pub parse_address : String → Bool
  pub parse_url : String → Option (String × String)
  pub parse_ip : String → Option Bool

abbrev pub max_pattern_len : ℕ
max_pattern_len = 512

abbrev pub uuid_pattern : String
uuid_pattern = "(?i)^[0-9a-f]{8}-[0-9a-f]{4}-[0-9a-f]{4}-[0-9a-f]{4}-[0-9a-f]{12}$"

unfoldable pub matches : Option (String → Bool) → String → Bool
matches none s = false
matches (some m) s = m s

unfoldable pub is_url : Option (String × String) → Bool
is_url none = false
is_url (some (scheme, host)) = not (str_eq scheme "") && not (str_eq host "")

unfoldable pub ip_is : Bool → Option Bool → Bool
ip_is v4 none = false
ip_is v4 (some b) = if v4 then b else not b

unfoldable pub parses {ℓ} : {A : Type ℓ} → Option A → Bool
parses none = false
parses (some a) = true

module _ {F : Type 0} (lib : Stdlib F) where
  -- asFloat, on a keyword that may be missing.
  unfoldable pub as_float : Option (Json F) → Option F
  as_float (some (number f)) = some f
  as_float (some (string s)) = lib.parse_float s
  as_float _ = none

  unfoldable pub json_type_of : Json F → String
  json_type_of null = "null"
  json_type_of (boolean b) = "boolean"
  json_type_of (number f) = "number"
  json_type_of (string s) = "string"
  json_type_of (array xs) = "array"
  json_type_of (object m) = "object"

  unfoldable pub is_integer : Json F → Bool
  is_integer (number f) = lib.is_integral f
  is_integer _ = false

  -- The switch of checkType.
  unfoldable pub check_type_name : Json F → String → Bool
  unfolding json_type_of is_integer
  check_type_name value name =
      if str_eq name "integer"
      then is_integer value
      else if str_eq name "object"
          || str_eq name "array"
          || str_eq name "string"
          || str_eq name "number"
          || str_eq name "boolean"
          || str_eq name "null"
      then str_eq (json_type_of value) name
      else true

  unfoldable mutual
    unfolding check_type_name

    pub check_type : Json F → Json F → Bool
    check_type value (string name) = check_type_name value name
    check_type value (array ts) = check_types value ts
    check_type value _ = true

    pub check_types : Json F → Items F → Bool
    check_types value no_items = false
    check_types value (item t ts) = check_type value t || check_types value ts

  unfoldable pub equals_any : Json F → Items F → Bool
  unfolding deep_equal
  equals_any value no_items = false
  equals_any value (item e es) = deep_equal lib.eq value e || equals_any value es

  unfoldable pub check_enum : Json F → Json F → Bool
  unfolding equals_any
  check_enum value (array es) = equals_any value es
  check_enum value _ = true

  unfoldable pub enum_check : Json F → Option (Json F) → String → Check F
  unfolding check_enum pass report_if
  enum_check value none p = pass
  enum_check value (some e) p = report_if (not (check_enum value e)) p (not_in_enum e)

  unfoldable pub const_check : Json F → Option (Json F) → String → Check F
  unfolding deep_equal pass report_if
  const_check value none p = pass
  const_check value (some c) p = report_if (not (deep_equal lib.eq value c)) p (not_const c)

  -- checkFormat: the message, or none for `""`.
  unfoldable pub check_format : String → String → Option String
  unfolding matches is_url ip_is parses contains
  check_format name s =
      let time_ok =
        lib.parse_time "15:04:05.999999999Z07:00" s || lib.parse_time "15:04:05.999999999" s in
      let date_time_ok =
        lib.parse_time "2006-01-02T15:04:05Z07:00" s
        || lib.parse_time "2006-01-02T15:04:05.999999999Z07:00" s in
      let fails = λ (fine : Bool) (text : String). if fine then none else some text in
      if str_eq name "date-time"
      then fails date_time_ok "value is not a valid date-time"
      else if str_eq name "date"
      then fails (lib.parse_time "2006-01-02" s) "value is not a valid date (YYYY-MM-DD)"
      else if str_eq name "time"
      then fails time_ok "value is not a valid time (RFC 3339 full-time)"
      else if str_eq name "email"
      then if ltb 254 (len s)
        then some "email exceeds maximum length"
        else fails (lib.parse_address s && not (contains s "<" || contains s " "))
            "value is not a valid email"
      else if str_eq name "uri"
      then fails (is_url (lib.parse_url s)) "value is not a valid uri"
      else if str_eq name "uri-reference"
      then fails (parses (lib.parse_url s)) "value is not a valid uri-reference"
      else if str_eq name "uuid"
      then fails (matches (lib.compile uuid_pattern) s) "value is not a valid uuid"
      else if str_eq name "ipv4"
      then fails (ip_is true (lib.parse_ip s)) "value is not a valid ipv4"
      else if str_eq name "ipv6"
      then fails (ip_is false (lib.parse_ip s)) "value is not a valid ipv6"
      else none

  unfoldable pub report_format : Option String → String → Check F
  unfolding pass report
  report_format none p = pass
  report_format (some text) p = report p (bad_format text)

  unfoldable pub format_check : String → Option (Json F) → String → Check F
  unfolding report_format check_format pass
  format_check s (some (string name)) p =
      if str_eq name "" then pass else report_format (check_format name s) p
  format_check s _ p = pass

  unfoldable pub compiled_check :
      Option (String → Bool) → String → String → String → Check F → Check F
  unfolding report report_if ◌▷◌
  compiled_check none pattern s p next = report p (bad_pattern pattern)
  compiled_check (some m) pattern s p next = report_if (not (m s)) p (no_match pattern) ▷ next

  -- The pattern, whose errors end validateString.
  unfoldable pub pattern_check : String → Option (Json F) → String → Check F → Check F
  unfolding compiled_check report
  pattern_check s (some (string pattern)) p next =
      if str_eq pattern ""
      then next
      else if ltb max_pattern_len (len pattern)
      then report p (pattern_too_long (len pattern))
      else compiled_check (lib.compile pattern) pattern s p next
  pattern_check s _ p next = next

  -- A lower and an upper bound on a length.
  unfoldable pub at_least : ℕ → (ℕ → F → Message F) → Option (Json F) → String → Check F
  unfolding as_float with_float report_if
  at_least n message bound p =
      with_float (as_float bound) (λ v. report_if (lib.lt (lib.of_length n) v) p (message n v))

  unfoldable pub at_most : ℕ → (ℕ → F → Message F) → Option (Json F) → String → Check F
  unfolding as_float with_float report_if
  at_most n message bound p =
      with_float (as_float bound) (λ v. report_if (lib.lt v (lib.of_length n)) p (message n v))

  unfoldable pub validate_string : String → Members F → String → Check F
  unfolding at_least at_most pattern_check format_check ◌▷◌
  validate_string s schema p =
      at_least (len s) too_short (get "minLength" schema) p
      ▷ at_most (len s) too_long (get "maxLength" schema) p
      ▷ pattern_check s (get "pattern" schema) p (format_check s (get "format" schema) p)

  -- exclusiveMinimum and exclusiveMaximum: of draft 4, a Boolean next to the other bound, or a number.
  -- `bad v` is whether the bound `v` is broken.
  unfoldable pub exclusive_check :
      (F → Bool) → (F → Message F) → Option (Json F) → Option (Json F) → String → Check F
  unfolding as_float with_float report_if pass
  exclusive_check bad message none bound p = pass
  exclusive_check bad message (some (boolean e)) bound p =
      if e then with_float (as_float bound) (λ v. report_if (bad v) p (message v)) else pass
  exclusive_check bad message (some ex) bound p =
      with_float (as_float (some ex)) (λ v. report_if (bad v) p (message v))

  unfoldable pub validate_number : F → Members F → String → Check F
  unfolding as_float with_float report_if exclusive_check ◌▷◌
  validate_number f schema p =
      with_float (as_float (get "minimum" schema)) (λ v. report_if (lib.lt f v) p (below f v))
      ▷ with_float (as_float (get "maximum" schema)) (λ v. report_if (lib.lt v f) p (above f v))
      ▷ exclusive_check (λ v. lib.le f v) (not_greater f) (get "exclusiveMinimum" schema)
          (get "minimum" schema) p
      ▷ exclusive_check (λ v. lib.le v f) (not_less f) (get "exclusiveMaximum" schema)
          (get "maximum" schema) p
