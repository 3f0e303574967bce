-- ===== src/React/Loop/Tests.antt =====
-- A model over a counter that calls a tool once and then answers; the world counts its replies.
use crewai_go.Base.{
  ℕ, suc, inl, inr, Bool-cases, Bool, true, ◌&&◌, ltb, subst, arith, ◌==◌, if◌then◌else◌, false,
  none, List, [], ◌∷◌, length, ◌≡◌, ◌≢◌, refl,
}
use crewai_go.Base.Int.{pos}
use crewai_go.Base.Result.{ok, err}
use crewai_go.React.{Strings, bytes, out_of_range, parse_final_answer}
use crewai_go.React.Loop.{Message, Tool, panicked, Setting, execute_react}
use crewai_go.React.Reads.{IsAscii}
use crewai_go.React.Loop.Ends.{execute_react_calm}

-- Lower case is kept, and nothing is blank.
abbrev plain : Strings
plain = record { to_lower = λ s. s; trim_space = λ s. s }

plain-keeps : (s : List ℕ) → IsAscii s → length (plain.to_lower s) ≡ length s
plain-keeps s a = refl

plain-trims : (s : List ℕ) → IsAscii s → IsAscii (plain.trim_space s)
plain-trims s a = a

abbrev all_ascii : List ℕ → Bool
all_ascii [] = true
all_ascii (b ∷ s) = ltb b 128 && all_ascii s

ascii : (s : List ℕ) → all_ascii s ≡ true → IsAscii s
unfolding IsAscii
ascii [] h = tt
ascii (b ∷ s) h = (ground arith, ascii s (ground arith))

abbrev echo : Tool ℕ
echo = record { name = bytes "echo"; call = λ w input. (w, ok input); facts = none }

abbrev setting : Setting ℕ
setting = record {
  ask =
      λ w messages. (suc w, ok (if w == 0 then bytes "action:echo" else bytes "final answer:done"));
  ctx_done = λ i. false;
  strings = plain;
  notice = [];
  tools = echo ∷ [];
}

setting-IsAscii :
    (w : ℕ) (ms : List Message) (reply : List ℕ) → (setting.ask w ms).1 ≡ ok reply → IsAscii reply
unfolding IsAscii
setting-IsAscii w ms reply h = elim (Bool-cases (w == 0)) [
  | inl e ↦
      let same : bytes "action:echo" ≡ reply = cc (rw e at h) in
      subst IsAscii same (ascii (bytes "action:echo") refl)
  | inr e ↦
      let same : bytes "final answer:done" ≡ reply = cc (rw e at h) in
      subst IsAscii same (ascii (bytes "final answer:done") refl)
]

answers : (execute_react setting (pos 3) (bytes "be") (bytes "do") 0).1 ≡ ok (bytes "done")
unfolding execute_react
answers = refl

-- A ToLower that makes a text longer, as Go's does of "Ⱥ": the index lies behind the end.
panics :
    parse_final_answer
      (record { to_lower = λ s. 0 ∷ s; trim_space = λ s. s })
      (bytes "final answer:")
    ≡ err out_of_range
unfolding parse_final_answer
panics = refl

execute_react_calm_example :
    (execute_react setting (pos 3) (bytes "be") (bytes "do") 0).1 ≢ err panicked
execute_react_calm_example =
    execute_react_calm setting plain-keeps plain-trims setting-IsAscii (pos 3) (bytes "be")
      (bytes "do") 0
