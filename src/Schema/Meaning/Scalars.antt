-- ===== src/Schema/Meaning/Scalars.antt =====
-- The checks of single values decide what the keywords mean.
use crewai_go.Base.{
  ℕ, Bool, true, false, not, ◌&&◌, Option, none, some, String, str_eq, ltb, inl, inr, Bool-cases,
  subst,
}
use crewai_go.Memory.Text.{len}
use crewai_go.Schema.Json.{
  Json, null, boolean, number, string, array, object, Members, get, deep_equal,
}
use crewai_go.Schema.Checks.{
  Message, too_short, too_long, pattern_too_long, bad_pattern, no_match, bad_format, below, above,
  not_greater, not_less, not_in_enum, not_const, Check, report_if, with_float,
}
use crewai_go.Schema.Scalars.{
  Stdlib, max_pattern_len, as_float, check_enum, enum_check, const_check, check_format,
  report_format, format_check, compiled_check, pattern_check, at_least, at_most, validate_string,
  exclusive_check, validate_number,
}
use crewai_go.Schema.Meaning.{
  if_there, is_none, enum_ok, bound_ok, least_ok, most_ok, pattern_ok, format_ok, exclusive_ok,
  kind_ok,
}
use crewai_go.Schema.Meaning.Types.{check_enum-ok}
use crewai_go.Schema.Meaning.Formats.{check_format-ok}
use crewai_go.Schema.Meaning.Decides.{
  Decides, pass-Decides, report-Decides, report_if-Decides, report_if-Decides-not, ▷-Decides,
  with_float-Decides,
}

module _ {F : Type 0} (lib : Stdlib F) (p : String) where
  bound-Decides :
      (bad : F → Bool) (message : F → Message F) (found : Option (Json F))
      → Decides
          (bound_ok lib bad found)
          (with_float (as_float lib found) (λ v. report_if (bad v) p (message v)))
  unfolding as_float with_float
  bound-Decides bad message none = pass-Decides
  bound-Decides bad message (some null) = pass-Decides
  bound-Decides bad message (some (boolean b)) = pass-Decides
  bound-Decides bad message (some (array xs)) = pass-Decides
  bound-Decides bad message (some (object m)) = pass-Decides
  bound-Decides bad message (some (number v)) = report_if-Decides (bad v) p (message v)
  bound-Decides bad message (some (string s)) =
      with_float-Decides (lib.parse_float s) (λ v. report_if (bad v) p (message v))
        (λ v. not (bad v)) (λ v. report_if-Decides (bad v) p (message v))

  pub at_least-Decides :
      (n : ℕ) (message : ℕ → F → Message F) (found : Option (Json F))
      → Decides (least_ok lib n found) (at_least lib n message found p)
  unfolding at_least
  at_least-Decides n message found =
      bound-Decides (λ v. lib.lt (lib.of_length n) v) (message n) found

  pub at_most-Decides :
      (n : ℕ) (message : ℕ → F → Message F) (found : Option (Json F))
      → Decides (most_ok lib n found) (at_most lib n message found p)
  unfolding at_most
  at_most-Decides n message found =
      bound-Decides (λ v. lib.lt v (lib.of_length n)) (message n) found

  pub enum_check-Decides :
      (value : Json F) (found : Option (Json F))
      → Decides (if_there found (enum_ok lib value)) (enum_check lib value found p)
  unfolding enum_check
  enum_check-Decides value none = pass-Decides
  enum_check-Decides value (some e) =
      subst (λ b. Decides b (enum_check lib value (some e) p)) (check_enum-ok lib value e)
        (report_if-Decides-not (check_enum lib value e) p (not_in_enum e))

  pub const_check-Decides :
      (value : Json F) (found : Option (Json F))
      → Decides (if_there found (deep_equal lib.eq value)) (const_check lib value found p)
  unfolding const_check
  const_check-Decides value none = pass-Decides
  const_check-Decides value (some c) =
      report_if-Decides-not (deep_equal lib.eq value c) p (not_const c)

  report_format-Decides : (t : Option String) → Decides (is_none t) (report_format lib t p)
  unfolding report_format
  report_format-Decides none = pass-Decides
  report_format-Decides (some t) = report-Decides p (bad_format t)

  format_check-Decides :
      (s : String) (found : Option (Json F))
      → Decides (format_ok lib s found) (format_check lib s found p)
  unfolding format_check
  format_check-Decides s none = pass-Decides
  format_check-Decides s (some null) = pass-Decides
  format_check-Decides s (some (boolean b)) = pass-Decides
  format_check-Decides s (some (number f)) = pass-Decides
  format_check-Decides s (some (array xs)) = pass-Decides
  format_check-Decides s (some (object m)) = pass-Decides
  format_check-Decides s (some (string name)) = elim (Bool-cases (str_eq name "")) [
    | inl h ↦ rw h pass-Decides
    | inr h ↦ rw h (
        subst (λ b. Decides b (report_format lib (check_format lib name s) p))
          (check_format-ok lib name s) (report_format-Decides (check_format lib name s)))
  ]

  compiled_check-Decides :
      (m : Option (String → Bool)) (pattern s : String) (y : Bool) (next : Check F)
      → Decides y next
      → Decides
          (elim m [ none ↦ false | some f ↦ f s ] && y)
          (compiled_check lib m pattern s p next)
  unfolding compiled_check
  compiled_check-Decides none pattern s y next d = report-Decides p (bad_pattern pattern)
  compiled_check-Decides (some m) pattern s y next d =
      ▷-Decides _ next (report_if-Decides-not (m s) p (no_match pattern)) d

  pattern_check-Decides :
      (s : String) (found : Option (Json F)) (y : Bool) (next : Check F)
      → Decides y next
      → Decides (pattern_ok lib s found && y) (pattern_check lib s found p next)
  unfolding pattern_check
  pattern_check-Decides s none y next d = d
  pattern_check-Decides s (some null) y next d = d
  pattern_check-Decides s (some (boolean b)) y next d = d
  pattern_check-Decides s (some (number f)) y next d = d
  pattern_check-Decides s (some (array xs)) y next d = d
  pattern_check-Decides s (some (object m)) y next d = d
  pattern_check-Decides s (some (string pattern)) y next d = elim (Bool-cases (str_eq pattern "")) [
    | inl h ↦ rw h d
    | inr h ↦ elim (Bool-cases (ltb max_pattern_len (len pattern))) [
      | inl l ↦ rw (h, l) (report-Decides p (pattern_too_long (len pattern)))
      | inr l ↦ rw (h, l) (compiled_check-Decides (lib.compile pattern) pattern s y next d)
    ]
  ]

  exclusive_check-Decides :
      (bad : F → Bool) (message : F → Message F) (ex bound : Option (Json F))
      → Decides (exclusive_ok lib bad ex bound) (exclusive_check lib bad message ex bound p)
  unfolding exclusive_check
  exclusive_check-Decides bad message none bound = pass-Decides
  exclusive_check-Decides bad message (some (boolean true)) bound = bound-Decides bad message bound
  exclusive_check-Decides bad message (some (boolean false)) bound = pass-Decides
  exclusive_check-Decides bad message (some null) bound = bound-Decides bad message (some null)
  exclusive_check-Decides bad message (some (number f)) bound =
      bound-Decides bad message (some (number f))
  exclusive_check-Decides bad message (some (string s)) bound =
      bound-Decides bad message (some (string s))
  exclusive_check-Decides bad message (some (array xs)) bound =
      bound-Decides bad message (some (array xs))
  exclusive_check-Decides bad message (some (object m)) bound =
      bound-Decides bad message (some (object m))

  module _ (sat : Json F → Json F → Bool) where
    pub validate_string-Decides :
        (s : String) (m : Members F)
        → Decides (kind_ok lib sat (string s) m) (validate_string lib s m p)
    unfolding validate_string
    validate_string-Decides s m =
        (▷-Decides _ _ (at_least-Decides (len s) too_short (get "minLength" m)) (
          ▷-Decides _ _ (at_most-Decides (len s) too_long (get "maxLength" m)) (
            pattern_check-Decides s (get "pattern" m) _ _
              (format_check-Decides s (get "format" m)))))

    pub validate_number-Decides :
        (f : F) (m : Members F) → Decides (kind_ok lib sat (number f) m) (validate_number lib f m p)
    unfolding validate_number
    validate_number-Decides f m =
        (▷-Decides _ _ (bound-Decides (λ v. lib.lt f v) (below f) (get "minimum" m)) (
          ▷-Decides _ _ (bound-Decides (λ v. lib.lt v f) (above f) (get "maximum" m)) (
            ▷-Decides _ _
              (exclusive_check-Decides (λ v. lib.le f v) (not_greater f) (get "exclusiveMinimum" m)
                (get "minimum" m))
              (exclusive_check-Decides (λ v. lib.le v f) (not_less f) (get "exclusiveMaximum" m)
                (get "maximum" m)))))
