-- ===== src/ToolCall/Loop.antt =====
-- `executeTaskWithTools` over a world W: the model, the tools and the context's end are parameters,
-- and so are the two opening messages. A text that the code formats is kept as what goes into it.
pub mod Turns
mod Tests
use crewai_go.Base.{
  ℕ, zero, suc, if◌then◌else◌, Bool, true, false, Option, none, some, List, [], ◌∷◌, ◌++◌, map,
  String, str_eq,
}
use crewai_go.Base.Int.{ℤ, pos, negsuc}
use crewai_go.Base.Result.{Result, ok, err}
use crewai_go.Fact.{Fact, dedup_facts}
use crewai_go.ToolCall.{ArgsError, validate_tool_args, truncate_tool_output}

pub record Call : Type 0 where
  pub id : String
  pub name : String
  pub args : List ℕ

pub record Response : Type 0 where
  pub content : String
  pub calls : List Call

pub data Output : Type 0 where
  text : List ℕ → Output
  bad_args : ArgsError → Output
  no_tool : String → List String → Output
  tool_error : String → String → Output

pub data Message : Type 0 where
  system user : String → Message
  assistant : String → List Call → Message
  tool_result : String → String → Output → Message

pub record ToolTrace : Type 0 where
  pub tool : String
  pub args : List ℕ
  pub output : Output
  pub failed : Bool

-- A tool; `facts` is there if it implements FactSource.
pub record Tool (W : Type 0) : Type 0 where
  pub name : String
  pub call : W → List ℕ → W × Result String (List ℕ)
  pub facts : Option (W → List Fact)

pub data Failure : Type 0 where
  cancelled max_iterations : Failure
  model : String → Failure

pub record LoopState (W : Type 0) : Type 0 where
  pub world : W
  pub messages : List Message
  pub traces : List ToolTrace
  pub facts : List Fact

-- What the loop is run with: the model's answer to a conversation, whether the context is done at
-- an iteration, strings.TrimSpace, and the notice of a cut output.
pub record Setting (W : Type 0) : Type 0 where
  pub ask : W → List Message → W × Result String Response
  pub ctx_done : ℕ → Bool
  pub trim : String → String
  pub notice : List ℕ
  pub tools : List (Tool W)

module _ {W : Type 0} where
  -- findTool.
  abbrev pub find_tool : List (Tool W) → String → Option (Tool W)
  find_tool [] name = none
  find_tool (t ∷ ts) name = if str_eq t.name name then some t else find_tool ts name

  -- The trace and the message that end the body of the loop over the calls.
  abbrev pub answer : Call → Output → Bool → LoopState W → LoopState W
  answer c output failed s = record s {
    messages = s.messages ++ tool_result c.name c.id output ∷ [];
    traces =
        s.traces ++ record { tool = c.name; args = c.args; output = output; failed = failed } ∷ [];
  }

  abbrev pub collect_facts : Option (W → List Fact) → LoopState W → LoopState W
  collect_facts none s = s
  collect_facts (some facts) s = record s { facts = dedup_facts s.facts (facts s.world) }

  -- One call that the model asked for.
  pub run_call : Setting W → Call → LoopState W → LoopState W
  run_call env c s = elim (validate_tool_args c.args) [
    | some e ↦ answer c (bad_args e) true s
    | none ↦ elim (find_tool env.tools c.name) [
      | none ↦ answer c (no_tool c.name (map (λ t. t.name) env.tools)) true s
      | some t ↦
          let (w, r) = t.call s.world c.args in
          elim r [
            | err e ↦ answer c (tool_error c.name e) true (record s { world = w })
            | ok out ↦
                answer c (text (truncate_tool_output env.notice out)) false
                  (collect_facts t.facts (record s { world = w }))
          ]
    ]
  ]

  pub run_calls : Setting W → List Call → LoopState W → LoopState W
  unfolding run_call
  run_calls env [] s = s
  run_calls env (c ∷ cs) s = run_calls env cs (run_call env c s)

  -- The iterations that are left, from the i-th on.
  pub tool_loop : Setting W → ℕ → ℕ → LoopState W → LoopState W × Result Failure String
  unfolding run_calls
  tool_loop env zero i s = (s, err max_iterations)
  tool_loop env (suc left) i s = elim (env.ctx_done i) [
    | true ↦ (s, err cancelled)
    | false ↦
        let (w, r) = env.ask s.world s.messages in
        elim r [
          | err e ↦ (record s { world = w }, err (model e))
          | ok resp ↦ elim resp.calls [
            | [] ↦ (record s { world = w }, ok (env.trim resp.content))
            | c ∷ cs ↦ tool_loop env left (suc i) (
                run_calls env resp.calls (record s {
                  world = w;
                  messages = s.messages ++ assistant resp.content resp.calls ∷ [];
                }))
          ]
        ]
  ]

abbrev pub default_max_iterations : ℕ
default_max_iterations = 15

abbrev pub iterations : ℤ → ℕ
iterations (negsuc n) = default_max_iterations
iterations (pos zero) = default_max_iterations
iterations (pos (suc n)) = suc n

module _ {W : Type 0} where
  -- executeTaskWithTools, once it has tools.
  pub execute_with_tools : Setting W → ℤ → String → String → W → LoopState W × Result Failure String
  unfolding tool_loop
  execute_with_tools env max_iter system_prompt task_prompt w =
      tool_loop env (iterations max_iter) 0 (record {
        world = w;
        messages = system system_prompt ∷ user task_prompt ∷ [];
        traces = [];
        facts = [];
      })
