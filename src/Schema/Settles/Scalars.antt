-- ===== src/Schema/Settles/Scalars.antt =====
-- The keywords of single values end, and report below their path.
use crewai_go.Base.{
  ℕ, Bool, true, false, not, Option, none, some, String, str_eq, ltb, inl, inr, Bool-cases,
}
use crewai_go.Memory.Text.{len}
use crewai_go.Schema.Json.{Json, null, boolean, number, string, array, object, Members, get}
use crewai_go.Schema.Checks.{
  Message, too_short, too_long, pattern_too_long, bad_pattern, no_match, bad_format, below, above,
  not_greater, not_less, Check, report_if, with_float,
}
use crewai_go.Schema.Scalars.{
  Stdlib, max_pattern_len, as_float, enum_check, const_check, check_format, report_format,
  format_check, compiled_check, pattern_check, at_least, at_most, validate_string, exclusive_check,
  validate_number,
}
use crewai_go.Schema.Settles.{
  IsSettled, pass-IsSettled, report-IsSettled_here, report_if-IsSettled_here, ▷-IsSettled,
  with_float-IsSettled,
}

module _ {F : Type 0} (lib : Stdlib F) (d : ℕ) (p : String) where
  bound-IsSettled :
      (bad : F → Bool) (message : F → Message F) (bound : Option F)
      → IsSettled d p (with_float bound (λ v. report_if (bad v) p (message v)))
  bound-IsSettled bad message bound =
      with_float-IsSettled bound (λ v. report_if (bad v) p (message v))
        (λ v. report_if-IsSettled_here (bad v) (message v))

  pub at_least-IsSettled :
      (n : ℕ) (message : ℕ → F → Message F) (bound : Option (Json F))
      → IsSettled d p (at_least lib n message bound p)
  unfolding at_least
  at_least-IsSettled n message bound =
      bound-IsSettled (λ v. lib.lt (lib.of_length n) v) (message n) (as_float lib bound)

  pub at_most-IsSettled :
      (n : ℕ) (message : ℕ → F → Message F) (bound : Option (Json F))
      → IsSettled d p (at_most lib n message bound p)
  unfolding at_most
  at_most-IsSettled n message bound =
      bound-IsSettled (λ v. lib.lt v (lib.of_length n)) (message n) (as_float lib bound)

  pub enum_check-IsSettled :
      (value : Json F) (e : Option (Json F)) → IsSettled d p (enum_check lib value e p)
  unfolding enum_check
  enum_check-IsSettled value none = pass-IsSettled
  enum_check-IsSettled value (some e) = report_if-IsSettled_here _ _

  pub const_check-IsSettled :
      (value : Json F) (c : Option (Json F)) → IsSettled d p (const_check lib value c p)
  unfolding const_check
  const_check-IsSettled value none = pass-IsSettled
  const_check-IsSettled value (some c) = report_if-IsSettled_here _ _

  report_format-IsSettled : (t : Option String) → IsSettled {F = F} d p (report_format lib t p)
  unfolding report_format
  report_format-IsSettled none = pass-IsSettled
  report_format-IsSettled (some t) = report-IsSettled_here (bad_format t)

  format_check-IsSettled :
      (s : String) (f : Option (Json F)) → IsSettled d p (format_check lib s f p)
  unfolding format_check
  format_check-IsSettled s none = pass-IsSettled
  format_check-IsSettled s (some null) = pass-IsSettled
  format_check-IsSettled s (some (boolean b)) = pass-IsSettled
  format_check-IsSettled s (some (number f)) = pass-IsSettled
  format_check-IsSettled s (some (array xs)) = pass-IsSettled
  format_check-IsSettled s (some (object m)) = pass-IsSettled
  format_check-IsSettled s (some (string name)) = elim (Bool-cases (str_eq name "")) [
    | inl h ↦ rw h pass-IsSettled
    | inr h ↦ rw h (report_format-IsSettled (check_format lib name s))
  ]

  compiled_check-IsSettled :
      (m : Option (String → Bool)) (pattern s : String) (next : Check F)
      → IsSettled d p next
      → IsSettled d p (compiled_check lib m pattern s p next)
  unfolding compiled_check
  compiled_check-IsSettled none pattern s next r = report-IsSettled_here (bad_pattern pattern)
  compiled_check-IsSettled (some m) pattern s next r =
      ▷-IsSettled _ next (report_if-IsSettled_here (not (m s)) (no_match pattern)) r

  pattern_check-IsSettled :
      (s : String) (f : Option (Json F)) (next : Check F)
      → IsSettled d p next
      → IsSettled d p (pattern_check lib s f p next)
  unfolding pattern_check
  pattern_check-IsSettled s none next r = r
  pattern_check-IsSettled s (some null) next r = r
  pattern_check-IsSettled s (some (boolean b)) next r = r
  pattern_check-IsSettled s (some (number f)) next r = r
  pattern_check-IsSettled s (some (array xs)) next r = r
  pattern_check-IsSettled s (some (object m)) next r = r
  pattern_check-IsSettled s (some (string pattern)) next r = elim (Bool-cases (str_eq pattern "")) [
    | inl h ↦ rw h r
    | inr h ↦ elim (Bool-cases (ltb max_pattern_len (len pattern))) [
      | inl l ↦ rw (h, l) (report-IsSettled_here (pattern_too_long (len pattern)))
      | inr l ↦ rw (h, l) (compiled_check-IsSettled (lib.compile pattern) pattern s next r)
    ]
  ]

  pub validate_string-IsSettled :
      (s : String) (schema : Members F) → IsSettled d p (validate_string lib s schema p)
  unfolding validate_string
  validate_string-IsSettled s schema =
      ▷-IsSettled _ _ (at_least-IsSettled (len s) too_short (get "minLength" schema)) (
        ▷-IsSettled _ _ (at_most-IsSettled (len s) too_long (get "maxLength" schema)) (
          pattern_check-IsSettled s (get "pattern" schema) _
            (format_check-IsSettled s (get "format" schema))))

  exclusive_check-IsSettled :
      (bad : F → Bool) (message : F → Message F) (ex bound : Option (Json F))
      → IsSettled d p (exclusive_check lib bad message ex bound p)
  unfolding exclusive_check
  exclusive_check-IsSettled bad message none bound = pass-IsSettled
  exclusive_check-IsSettled bad message (some (boolean true)) bound =
      bound-IsSettled bad message (as_float lib bound)
  exclusive_check-IsSettled bad message (some (boolean false)) bound = pass-IsSettled
  exclusive_check-IsSettled bad message (some null) bound =
      bound-IsSettled bad message (as_float lib (some null))
  exclusive_check-IsSettled bad message (some (number f)) bound =
      bound-IsSettled bad message (as_float lib (some (number f)))
  exclusive_check-IsSettled bad message (some (string s)) bound =
      bound-IsSettled bad message (as_float lib (some (string s)))
  exclusive_check-IsSettled bad message (some (array xs)) bound =
      bound-IsSettled bad message (as_float lib (some (array xs)))
  exclusive_check-IsSettled bad message (some (object m)) bound =
      bound-IsSettled bad message (as_float lib (some (object m)))

  pub validate_number-IsSettled :
      (f : F) (schema : Members F) → IsSettled d p (validate_number lib f schema p)
  unfolding validate_number
  validate_number-IsSettled f schema =
      ▷-IsSettled _ _
        (bound-IsSettled (λ v. lib.lt f v) (below f) (as_float lib (get "minimum" schema)))
        (▷-IsSettled _ _
          (bound-IsSettled (λ v. lib.lt v f) (above f) (as_float lib (get "maximum" schema)))
          (▷-IsSettled _ _ (exclusive_check-IsSettled (λ v. lib.le f v) (not_greater f) _ _)
            (exclusive_check-IsSettled (λ v. lib.le v f) (not_less f) _ _)))
