-- ===== src/Schema/Meaning/Formats.antt =====
-- checkFormat finds no fault exactly where the reference meaning of the format holds.
use crewai_go.Base.{
  ltb, Bool, true, false, not, ◌&&◌, if◌then◌else◌, Option, none, some, String, str_eq, ◌≡◌, refl,
  ◌∙◌,
}
use crewai_go.Memory.Text.{len}
use crewai_go.Schema.Scalars.{Stdlib, uuid_pattern, matches, is_url, ip_is, parses, check_format}
use crewai_go.Schema.Meaning.{is_none, formats, meets_format}

-- One case of the switch, and the rest of it.
case_of :
    (c fine other : Bool) (here rest : Option String)
    → is_none here ≡ fine
    → is_none rest ≡ other
    → is_none (if c then here else rest) ≡ (if c then fine else other)
case_of true fine other here rest h r = h
case_of false fine other here rest h r = r

faults : (fine : Bool) (text : String) → is_none (if fine then none else some text) ≡ fine
faults true text = refl
faults false text = refl

email_ok :
    (big fine : Bool) (a b : String)
    → is_none (if big then some a else if fine then none else some b) ≡ (not big && fine)
email_ok true fine a b = refl
email_ok false fine a b = faults fine b

url_ok :
    (found : Option (String × String))
    → is_url found ≡ elim found [
      | none ↦ false
      | some parts ↦ not (str_eq parts.0 "") && not (str_eq parts.1 "")
    ]
unfolding is_url
url_ok none = refl
url_ok (some (scheme, host)) = refl

parses_ok : (found : Option (String × String)) → parses found ≡ not (is_none found)
unfolding parses
parses_ok none = refl
parses_ok (some parts) = refl

matches_ok :
    (found : Option (String → Bool)) (s : String)
    → matches found s ≡ elim found [ none ↦ false | some matching ↦ matching s ]
unfolding matches
matches_ok none s = refl
matches_ok (some f) s = refl

v4_ok : (found : Option Bool) → ip_is true found ≡ elim found [ none ↦ false | some v4 ↦ v4 ]
unfolding ip_is
v4_ok none = refl
v4_ok (some b) = refl

v6_ok : (found : Option Bool) → ip_is false found ≡ elim found [ none ↦ false | some v4 ↦ not v4 ]
unfolding ip_is
v6_ok none = refl
v6_ok (some true) = refl
v6_ok (some false) = refl

module _ {F : Type 0} (lib : Stdlib F) where
  pub check_format-ok :
      (name s : String) → is_none (check_format lib name s) ≡ meets_format name (formats lib s)
  unfolding check_format
  check_format-ok name s = case_of (str_eq name "date-time") _ _ _ _ (faults _ _) (
      case_of (str_eq name "date") _ _ _ _ (faults _ _) (
        case_of (str_eq name "time") _ _ _ _ (faults _ _) (
          case_of (str_eq name "email") _ _ _ _ (email_ok (ltb 254 (len s)) _ _ _) (
            case_of (str_eq name "uri") _ _ _ _ (faults _ _ ∙ url_ok (lib.parse_url s)) (
              case_of (str_eq name "uri-reference") _ _ _ _
                (faults _ _ ∙ parses_ok (lib.parse_url s))
                (case_of (str_eq name "uuid") _ _ _ _
                  (faults _ _ ∙ matches_ok (lib.compile uuid_pattern) s)
                  (case_of (str_eq name "ipv4") _ _ _ _ (faults _ _ ∙ v4_ok (lib.parse_ip s)) (
                    case_of (str_eq name "ipv6") _ _ _ _ (faults _ _ ∙ v6_ok (lib.parse_ip s))
                      refl))))))))
