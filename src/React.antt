-- ===== src/React.antt =====
-- executor.go: how the ReAct loop reads a reply. Texts are bytes; the model, the
-- tools, the end of the context, strings.ToLower and strings.TrimSpace are parameters. Slicing past
-- the end of a text panics. `Loop` is the loop, and `Reads` is about the replies.
pub mod Reads
pub mod Loop
use Prim.Native.Char.{code}
use Prim.Native.String.{[] as no_text, ◌∷◌ as put}
use crewai_go.Base.{
  ℕ, zero, suc, ◌+◌, ◌==◌, if◌then◌else◌, Bool, true, false, ◌&&◌, Option, none, some, List, [],
  ◌∷◌, ◌++◌, length, map, String,
}
use crewai_go.Base.Int.{ℤ}
use crewai_go.Base.Result.{Result, ok, err, ◌>>=◌}
use crewai_go.Fact.{Fact, dedup_facts}
use crewai_go.ToolCall.{truncate_tool_output}
use crewai_go.ToolCall.Loop.{iterations}

-- The bytes of an ASCII text.
abbrev pub bytes : String → List ℕ
bytes no_text = []
bytes (put c s) = code c ∷ bytes s

pub data Panic : Type 0 where
  out_of_range : Panic

-- strings.ToLower and strings.TrimSpace.
pub record Strings : Type 0 where
  pub to_lower : List ℕ → List ℕ
  pub trim_space : List ℕ → List ℕ

pub bytes_eq : List ℕ → List ℕ → Bool
bytes_eq [] [] = true
bytes_eq (a ∷ s) (b ∷ t) = a == b && bytes_eq s t
bytes_eq _ _ = false

pub starts_with : List ℕ → List ℕ → Bool
starts_with [] s = true
starts_with (a ∷ p) [] = false
starts_with (a ∷ p) (b ∷ s) = a == b && starts_with p s

abbrev pub later : Option ℕ → Option ℕ
later none = none
later (some i) = some (suc i)

-- `strings.Index(s, sub)`.
pub index : List ℕ → List ℕ → Option ℕ
unfolding starts_with
index sub [] = if starts_with sub [] then some 0 else none
index sub (b ∷ s) =
    let rest = later (index sub s) in if starts_with sub (b ∷ s) then some 0 else rest

-- `s[i:]` and `s[:i]`.
pub slice_from : ℕ → List ℕ → Result Panic (List ℕ)
slice_from zero s = ok s
slice_from (suc i) [] = err out_of_range
slice_from (suc i) (b ∷ s) = slice_from i s

pub slice_to : ℕ → List ℕ → Result Panic (List ℕ)
slice_to zero s = ok []
slice_to (suc i) [] = err out_of_range
slice_to (suc i) (b ∷ s) = slice_to i s >>= (λ t. ok (b ∷ t))

-- `strings.Split(s, "\n")`.
abbrev cons_head : ℕ → List (List ℕ) → List (List ℕ)
cons_head b [] = (b ∷ []) ∷ []
cons_head b (l ∷ ls) = (b ∷ l) ∷ ls

pub split_lines : List ℕ → List (List ℕ)
split_lines [] = [] ∷ []
split_lines (b ∷ s) = let rest = split_lines s in if b == 10 then [] ∷ rest else cons_head b rest

abbrev pub is_empty : List ℕ → Bool
is_empty [] = true
is_empty (b ∷ s) = false

-- What a reply asks for.
pub data Reply : Type 0 where
  answer : List ℕ → Reply
  act : List ℕ → List ℕ → Reply

module _ (str : Strings) where
  -- The first line that is not blank.
  pub first_nonblank : List (List ℕ) → List ℕ
  first_nonblank [] = []
  first_nonblank (l ∷ ls) =
      let rest = first_nonblank ls in if is_empty (str.trim_space l) then rest else l

  pub first_line : List ℕ → List ℕ
  unfolding first_nonblank split_lines
  first_line s = first_nonblank (split_lines s)

  -- The index of a marker's start.
  pub marker_start : List ℕ → List ℕ → Option ℕ
  unfolding index
  marker_start s marker = index marker (str.to_lower s)

  -- The text from an index found in it on, if there is one.
  pub from_found : Option ℕ → List ℕ → List ℕ → Result Panic (Option (List ℕ))
  unfolding slice_from
  from_found none marker s = ok none
  from_found (some i) marker s = slice_from (i + length marker) s >>= (λ t. ok (some t))

  -- What stands behind a marker: `s[indexMarker(s, marker):]`.
  pub after_marker : List ℕ → List ℕ → Result Panic (Option (List ℕ))
  unfolding marker_start from_found
  after_marker s marker = from_found (marker_start s marker) marker s

  pub parse_final_answer : List ℕ → Result Panic (Option (List ℕ))
  unfolding after_marker
  parse_final_answer s = after_marker s (bytes "final answer:")

  abbrev pub or_text : List ℕ → Option (List ℕ) → List ℕ
  or_text s none = s
  or_text s (some t) = t

  pub strip_final_answer : List ℕ → Result Panic (List ℕ)
  unfolding parse_final_answer
  strip_final_answer s = parse_final_answer s >>= (λ found. ok (or_text s found))

  -- The text before a marker, or all of it.
  pub before_found : Option ℕ → List ℕ → Result Panic (List ℕ)
  unfolding slice_to
  before_found none s = ok s
  before_found (some i) s = slice_to i s

  pub before_marker : List ℕ → List ℕ → Result Panic (List ℕ)
  unfolding marker_start before_found
  before_marker s marker = before_found (marker_start s marker) s

  -- The results of parseAction; it fails if the action is empty.
  pub named : List ℕ → List ℕ → Option (List ℕ × List ℕ)
  named action input = if is_empty action then none else some (action, input)

  pub with_input : List ℕ → Option (List ℕ) → Result Panic (Option (List ℕ × List ℕ))
  unfolding named first_line before_marker
  with_input rest none = ok (named (str.trim_space (first_line rest)) [])
  with_input rest (some input_part) = before_marker rest (bytes "action input:") >>= (λ action_part.
      before_marker input_part (bytes "observation:")
      >>= (λ input. ok (named (str.trim_space (first_line action_part)) (str.trim_space input))))

  pub with_action : Option (List ℕ) → Result Panic (Option (List ℕ × List ℕ))
  unfolding with_input after_marker
  with_action none = ok none
  with_action (some rest) = after_marker rest (bytes "action input:") >>= with_input rest

  pub parse_action : List ℕ → Result Panic (Option (List ℕ × List ℕ))
  unfolding with_action after_marker
  parse_action s = after_marker s (bytes "action:") >>= with_action

  -- How the loop takes a reply without a final answer: without an action it is the answer itself.
  pub as_action : List ℕ → Option (List ℕ × List ℕ) → Reply
  as_action out none = answer (str.trim_space out)
  as_action out (some (action, input)) = act action input

  pub as_answer : List ℕ → Option (List ℕ) → Result Panic Reply
  unfolding parse_action as_action
  as_answer out (some a) = ok (answer (str.trim_space a))
  as_answer out none = parse_action out >>= (λ found. ok (as_action out found))

  pub read_reply : List ℕ → Result Panic Reply
  unfolding as_answer parse_final_answer
  read_reply out = parse_final_answer out >>= as_answer out
