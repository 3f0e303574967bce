-- ===== src/Memory/Text.antt =====
-- What the store uses of Go's strings package, over the tables of its unicode package.
use Prim.Native.Nat.{ℕ}
use Prim.Native.Char.{Char}
use Prim.Native.String.{String, [] as no_text, ◌∷◌ as put, len as native_len, find}
use mathlib.Core.Bool.{Bool, ◌&&◌}
use crewai_go.Base.{leb, if◌then◌else◌, str_eq}

-- `len(s)` counts the bytes of UTF-8.
abbrev pub len : String → ℕ
len = native_len

pub record Unicode : Type 0 where
  pub lower : Char → Char
  pub space : Char → Bool

module _ (u : Unicode) where
  unfoldable pub to_lower : String → String
  to_lower no_text = no_text
  to_lower (put c s) = put (u.lower c) (to_lower s)

  trim_left : String → String
  trim_left no_text = no_text
  trim_left (put c s) = if u.space c then trim_left s else put c s

  trim_right : String → String
  trim_right no_text = no_text
  trim_right (put c s) =
      let rest = trim_right s in if u.space c && str_eq rest "" then no_text else put c rest

  unfoldable pub trim_space : String → String
  unfolding trim_left trim_right
  trim_space s = trim_right (trim_left s)

unfoldable pub contains : String → String → Bool
contains s sub = leb (find s sub) (native_len s)
