-- ===== src/ToolCall/Loop/Tests.antt =====
-- A document with a bracket inside a text, and a run with one tool call.
use crewai_go.Base.{ℕ, zero, suc, ◌≡◌, refl, true, false, none, List, [], ◌∷◌, length}
use crewai_go.Base.Int.{pos}
use crewai_go.Base.Result.{ok}
use crewai_go.ToolCall.{json_depth, validate_tool_args, truncate_tool_output}
use crewai_go.ToolCall.Depth.{
  Doc, done, byte, quoted, group, plain_byte, escape, print, json_depth-nesting,
}
use crewai_go.ToolCall.Loop.{system, user, Response, Tool, Setting, execute_with_tools}
use crewai_go.ToolCall.Loop.Turns.{Turn, AreReplies, Stops, spoken, execute_with_tools-turns}

-- {"[\"":[]}
abbrev doc : Doc
doc =
    group true (quoted (plain_byte 91 refl ∷ escape 34 ∷ []) (byte 58 refl (group false done done)))
      done

json_depth-nesting_example : json_depth (print doc) ≡ pos 2
json_depth-nesting_example = json_depth-nesting doc

abbrev echo : Tool ℕ
echo = record { name = "echo"; call = λ w args. (suc w, ok args); facts = none }

abbrev reply : ℕ → Response
reply zero = record {
  content = "";
  calls = record { id = "1"; name = "echo"; args = 123 ∷ 125 ∷ [] } ∷ [];
}
reply (suc n) = record { content = "end"; calls = [] }

abbrev setting : Setting ℕ
setting = record {
  ask = λ w messages. (w, ok (reply w));
  ctx_done = λ i. false;
  trim = λ s. s;
  notice = [];
  tools = echo ∷ [];
}

execute_with_tools-turns_example :
    (turns : List Turn) × AreReplies setting 0 (system "s" ∷ user "t" ∷ []) turns
    × ((execute_with_tools setting (pos 3) "s" "t" 0).0.messages
        ≡ system "s" ∷ user "t" ∷ spoken turns)
    × Stops setting 3 0 (length turns) (execute_with_tools setting (pos 3) "s" "t" 0)
execute_with_tools-turns_example = execute_with_tools-turns setting (pos 3) "s" "t" 0

execute_with_tools-ends : (execute_with_tools setting (pos 3) "s" "t" 0).1 ≡ ok "end"
unfolding execute_with_tools validate_tool_args truncate_tool_output
execute_with_tools-ends = refl
