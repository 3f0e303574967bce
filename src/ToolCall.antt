-- ===== src/ToolCall.antt =====
-- toolcall.go: the native tool-calling loop. This file has the limits on arguments and outputs;
-- `Loop` is the loop over the model, and `Depth` and `Answers` are about them.
-- Arguments and outputs are bytes.
pub mod Depth
pub mod Loop
use crewai_go.Base.{
  ℕ, zero, suc, ◌==◌, ltb, leb, if◌then◌else◌, Bool, true, false, ◌||◌, Option, none, some, List,
  [], ◌∷◌, ◌++◌, length,
}
use crewai_go.Base.Int.{ℤ, pos, negsuc, suc_ℤ, pred_ℤ}

abbrev pub max_args_bytes : ℕ
max_args_bytes = 1048576

abbrev pub max_args_depth : ℕ
max_args_depth = 100

abbrev pub max_output_bytes : ℕ
max_output_bytes = 1048576

-- Where the scan of jsonDepth stands: outside of a text, inside one, or inside after a backslash,
-- whose next byte is passed over (`i++`).
pub data Mode : Type 0 where
  outside inside escaped : Mode

pub record Scan : Type 0 where
  pub depth : ℤ
  pub deepest : ℤ
  pub mode : Mode

-- `a > b`.
abbrev pub gt_ℤ : ℤ → ℤ → Bool
gt_ℤ (pos a) (pos b) = ltb b a
gt_ℤ (pos a) (negsuc b) = true
gt_ℤ (negsuc a) (pos b) = false
gt_ℤ (negsuc a) (negsuc b) = ltb a b

abbrev pub deeper : Scan → Scan
deeper s =
    let d = suc_ℤ s.depth in
    record s { depth = d; deepest = if gt_ℤ d s.deepest then d else s.deepest }

-- One byte: 34 is a quote, 92 a backslash, 123, 91, 125 and 93 are the brackets.
abbrev pub scan_byte : ℕ → Scan → Scan
scan_byte b s = elim s.mode [
  | escaped ↦ record s { mode = inside }
  | inside ↦
      if b == 92
      then record s { mode = escaped }
      else if b == 34
      then record s { mode = outside }
      else s
  | outside ↦
      if b == 34
      then record s { mode = inside }
      else if b == 123 || b == 91
      then deeper s
      else if b == 125 || b == 93
      then record s { depth = pred_ℤ s.depth }
      else s
]

pub scan_bytes : List ℕ → Scan → Scan
scan_bytes [] s = s
scan_bytes (b ∷ bs) s = scan_bytes bs (scan_byte b s)

pub json_depth : List ℕ → ℤ
unfolding scan_bytes
json_depth data_bytes =
    (scan_bytes data_bytes (record { depth = pos 0; deepest = pos 0; mode = outside })).deepest

pub data ArgsError : Type 0 where
  too_long : ArgsError
  too_deep : ℤ → ArgsError

pub validate_tool_args : List ℕ → Option ArgsError
unfolding json_depth
validate_tool_args args =
    if ltb max_args_bytes (length args)
    then some too_long
    else if gt_ℤ (json_depth args) (pos max_args_depth)
    then some (too_deep (json_depth args))
    else none

abbrev pub take_bytes : ℕ → List ℕ → List ℕ
take_bytes zero bs = []
take_bytes (suc n) [] = []
take_bytes (suc n) (b ∷ bs) = b ∷ take_bytes n bs

-- `notice` is the text that marks a cut output.
pub truncate_tool_output : List ℕ → List ℕ → List ℕ
truncate_tool_output notice s =
    if leb (length s) max_output_bytes then s else take_bytes max_output_bytes s ++ notice
