-- ===== src/Schema/Refs.antt =====
-- $ref: the bookkeeping of pushRef and popRef, and the resolution of a local JSON Pointer.
use Prim.Native.Char.{Char, code}
use Prim.Native.String.{[] as no_text, ◌∷◌ as put}
use crewai_go.Base.{
  ℕ, suc, ◌-◌, ◌==◌, leb, if◌then◌else◌, Bool, false, ◌&&◌, ◌||◌, Option, none, some, List, [], ◌∷◌,
  String, str_eq,
}
use crewai_go.Base.Int.{ℤ, pos, negsuc}
use crewai_go.Base.Result.{Result, ok, err, ◌>>=◌}
use crewai_go.Memory.Text.{contains}
use crewai_go.Schema.Json.{Json, Items, array, object, get, item_at}

abbrev pub max_ref_depth : ℕ
max_ref_depth = 32

abbrev pub max_ref_expansions : ℕ
max_ref_expansions = 256

pub data RefError : Type 0 where
  too_deep cycle invalid_ref not_found : RefError

-- schemaValidation, but for its root; the stack has its newest pointer first.
pub record SchemaValidation : Type 0 where
  pub ref_depth : ℕ
  pub expansions : ℕ
  pub stack : List String

pub on_stack : String → List String → Bool
on_stack ptr [] = false
on_stack ptr (s ∷ ss) = str_eq s ptr || on_stack ptr ss

unfoldable pub push_ref : String → SchemaValidation → Result RefError SchemaValidation
unfolding on_stack
push_ref ptr s =
    if leb max_ref_expansions s.expansions
    then err too_deep
    else if leb max_ref_depth s.ref_depth
    then err too_deep
    else if on_stack ptr s.stack
    then err cycle
    else ok (record {
      ref_depth = suc s.ref_depth;
      expansions = suc s.expansions;
      stack = ptr ∷ s.stack;
    })

pop_stack : List String → SchemaValidation → SchemaValidation
pop_stack [] s = s
pop_stack (ptr ∷ ss) s = record s { stack = ss; ref_depth = s.ref_depth - 1 }

unfoldable pub pop_ref : SchemaValidation → SchemaValidation
unfolding pop_stack
pop_ref s = pop_stack s.stack s

-- `strings.Split(s, "/")`.
pub split_slash : String → List String
split_slash no_text = "" ∷ []
split_slash (put c s) =
    let rest = split_slash s in
    if code c == 47
    then "" ∷ rest
    else elim rest [ [] ↦ put c no_text ∷ [] | w ∷ ws ↦ put c w ∷ ws ]

-- `strings.ReplaceAll` of "~" and a second character, given by its code.
pub replace_tilde : ℕ → Char → String → String
replace_tilde digit by no_text = no_text
replace_tilde digit by (put c no_text) = put c no_text
replace_tilde digit by (put c (put d s)) =
    let rest = replace_tilde digit by s in
    let kept = replace_tilde digit by (put d s) in
    if code c == 126 && code d == digit then put by rest else put c kept

-- `~1` and then `~0` of a part.
pub unescape : String → String
unfolding replace_tilde
unescape part = replace_tilde 48 "~" (replace_tilde 49 "/" part)

-- "#" at the start, and the text behind it.
pub fragment : String → Option String
fragment no_text = none
fragment (put c s) = if code c == 35 then some s else none

module _ {F : Type 0} (atoi : String → Option ℤ) where
  unfoldable pub at_index : Option ℤ → Items F → Option (Json F)
  at_index none xs = none
  at_index (some (negsuc n)) xs = none
  at_index (some (pos i)) xs = item_at i xs

  -- One step along the pointer.
  unfoldable pub step_part : String → Json F → Option (Json F)
  unfolding at_index
  step_part part (object m) = get part m
  step_part part (array xs) = at_index (atoi part) xs
  step_part part _ = none

  unfoldable pub walk_parts : List String → Json F → Result RefError (Json F)
  unfolding unescape step_part
  walk_parts [] node = ok node
  walk_parts (part ∷ parts) node = elim (step_part (unescape part) node) [
    | none ↦ err not_found
    | some next ↦ walk_parts parts next
  ]

  -- A pointer behind "#": the target and the pointer that the stack gets.
  unfoldable pub resolve_pointer : Json F → String → Result RefError (Json F × String)
  unfolding walk_parts split_slash
  resolve_pointer root no_text = ok (root, "#")
  resolve_pointer root (put c s) =
      if code c == 47
      then walk_parts (split_slash s) root >>= (λ node. ok (node, put "#" (put c s)))
      else err invalid_ref

  unfoldable pub resolve_fragment : Json F → Option String → Result RefError (Json F × String)
  unfolding resolve_pointer
  resolve_fragment root none = err invalid_ref
  resolve_fragment root (some ptr) = resolve_pointer root ptr

  unfoldable pub resolve_local_ref : Json F → String → Result RefError (Json F × String)
  unfolding resolve_fragment contains fragment
  resolve_local_ref root ref =
      if contains ref "://" then err invalid_ref else resolve_fragment root (fragment ref)
