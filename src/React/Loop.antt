-- ===== src/React/Loop.antt =====
-- executeTask and the ReAct loop of executeTaskDefault, over a world W. What an observation prints is
-- kept as data; events, progress and logs are left out.
pub mod Ends
mod Tests
use crewai_go.Base.{
  ℕ, zero, suc, ◌+◌, if◌then◌else◌, Bool, true, false, Option, none, some, List, [], ◌∷◌, ◌++◌, map,
}
use crewai_go.Base.Int.{ℤ}
use crewai_go.Base.Result.{Result, ok, err}
use crewai_go.Fact.{Fact, dedup_facts}
use crewai_go.ToolCall.{truncate_tool_output}
use crewai_go.ToolCall.Loop.{iterations}
use crewai_go.React.{Panic, Strings, bytes_eq, Reply, answer, act, read_reply, strip_final_answer}

pub data Observation : Type 0 where
  no_such_tool : List ℕ → List (List ℕ) → Observation
  tool_failed : List ℕ → List ℕ → Observation
  observed : List ℕ → Observation

pub data Message : Type 0 where
  system user assistant : List ℕ → Message
  observation : Observation → Message

-- A tool; `facts` is there if it implements FactSource.
pub record Tool (W : Type 0) : Type 0 where
  pub name : List ℕ
  pub call : W → List ℕ → W × Result (List ℕ) (List ℕ)
  pub facts : Option (W → List Fact)

pub data Failure : Type 0 where
  cancelled panicked : Failure
  model : List ℕ → Failure
  max_iterations : ℕ → Failure

pub record LoopState (W : Type 0) : Type 0 where
  pub world : W
  pub messages : List Message
  pub facts : List Fact

-- The model's answer to a conversation, whether the context is done at an iteration, and the notice
-- of a cut output.
pub record Setting (W : Type 0) : Type 0 where
  pub ask : W → List Message → W × Result (List ℕ) (List ℕ)
  pub ctx_done : ℕ → Bool
  pub strings : Strings
  pub notice : List ℕ
  pub tools : List (Tool W)

module _ {W : Type 0} where
  pub find_tool : List (Tool W) → List ℕ → Option (Tool W)
  unfolding bytes_eq
  find_tool [] name = none
  find_tool (t ∷ ts) name =
      let rest = find_tool ts name in if bytes_eq t.name name then some t else rest

  pub collect_facts : Option (W → List Fact) → LoopState W → LoopState W
  collect_facts none s = s
  collect_facts (some facts) s = record s { facts = dedup_facts s.facts (facts s.world) }

  -- What a call of a tool leaves, with its observation.
  pub called :
      Setting W → Tool W → LoopState W → W × Result (List ℕ) (List ℕ) → LoopState W × Observation
  unfolding collect_facts
  called env t s (w, err e) = (record s { world = w }, tool_failed t.name e)
  called env t s (w, ok out) = (
    collect_facts t.facts (record s { world = w }),
    observed (truncate_tool_output env.notice out),
  )

  pub run_tool :
      Setting W → List ℕ → List ℕ → Option (Tool W) → LoopState W → LoopState W × Observation
  unfolding called
  run_tool env action input none s = (s, no_such_tool action (map (λ t. t.name) env.tools))
  run_tool env action input (some t) s = called env t s (t.call s.world input)

  -- The two messages of an iteration that called for an action.
  pub run_action : Setting W → List ℕ → List ℕ → List ℕ → LoopState W → LoopState W
  unfolding run_tool find_tool
  run_action env out action input s =
      let (s', o) = run_tool env action input (find_tool env.tools action) s in
      record s' { messages = s.messages ++ assistant out ∷ observation o ∷ [] }

  -- One reply: the loop goes on with `next` where it asks for an action.
  pub on_reply :
      Setting W
      → (LoopState W → LoopState W × Result Failure (List ℕ))
      → List ℕ
      → Result Panic Reply
      → LoopState W
      → LoopState W × Result Failure (List ℕ)
  unfolding run_action
  on_reply env next out (err p) s = (s, err panicked)
  on_reply env next out (ok (answer a)) s = (s, ok a)
  on_reply env next out (ok (act action input)) s = next (run_action env out action input s)

  pub on_answer :
      Setting W
      → (LoopState W → LoopState W × Result Failure (List ℕ))
      → LoopState W
      → W × Result (List ℕ) (List ℕ)
      → LoopState W × Result Failure (List ℕ)
  unfolding on_reply read_reply
  on_answer env next s (w, err e) = (record s { world = w }, err (model e))
  on_answer env next s (w, ok reply) =
      let out = env.strings.trim_space reply in
      on_reply env next out (read_reply env.strings out) (record s { world = w })

  -- The iterations that are left, from the i-th on.
  pub react_loop : Setting W → ℕ → ℕ → LoopState W → LoopState W × Result Failure (List ℕ)
  unfolding on_answer
  react_loop env zero i s = (s, err (max_iterations i))
  react_loop env (suc left) i s =
      if env.ctx_done i
      then (s, err cancelled)
      else on_answer env (react_loop env left (suc i)) s (env.ask s.world s.messages)

  pub stripped : Setting W → W → Result Panic (List ℕ) → W × Result Failure (List ℕ)
  stripped env w (err p) = (w, err panicked)
  stripped env w (ok out) = (w, ok (env.strings.trim_space out))

  -- Without tools: a single call.
  pub single_call : Setting W → W × Result (List ℕ) (List ℕ) → W × Result Failure (List ℕ)
  unfolding stripped strip_final_answer
  single_call env (w, err e) = (w, err (model e))
  single_call env (w, ok reply) = stripped env w (strip_final_answer env.strings reply)

  abbrev pub opening : List ℕ → List ℕ → W → LoopState W
  opening system_prompt task_prompt w = record {
    world = w;
    messages = system system_prompt ∷ user task_prompt ∷ [];
    facts = [];
  }

  -- With the tools, of which the setting has the same.
  pub by_tools : Setting W → ℤ → LoopState W → List (Tool W) → LoopState W × Result Failure (List ℕ)
  unfolding single_call react_loop
  by_tools env max_iter s [] =
      let (w, r) = single_call env (env.ask s.world s.messages) in (record s { world = w }, r)
  by_tools env max_iter s (t ∷ ts) = react_loop env (iterations max_iter) 0 s

  -- executeTaskDefault from the tools on.
  pub execute_react : Setting W → ℤ → List ℕ → List ℕ → W → LoopState W × Result Failure (List ℕ)
  unfolding by_tools
  execute_react env max_iter system_prompt task_prompt w =
      by_tools env max_iter (opening system_prompt task_prompt w) env.tools

  -- effectiveTools: those of the task, if it has any.
  pub effective_tools : List (Tool W) → List (Tool W) → List (Tool W)
  effective_tools agent_tools [] = agent_tools
  effective_tools agent_tools (t ∷ ts) = t ∷ ts

-- executeTask and the beginning of executeTaskDefault: the way that is taken, among those that the
-- task and the agent have; `no_model` is ErrNoLLM.
pub record Ways (A : Type 0) : Type 0 where
  pub has_llm : Bool
  pub task_loop : Option A
  pub agent_loop : Option A
  pub structured : Option A
  pub native : Option A
  pub react : A

pub execute_default : {A : Type 0} → Ways A → A
execute_default ways = elim ways.structured [
  | some a ↦ a
  | none ↦ elim ways.native [ some a ↦ a | none ↦ ways.react ]
]

pub execute_task : {A : Type 0} → A → Ways A → A
unfolding execute_default
execute_task no_model ways =
    if ways.has_llm
    then elim ways.task_loop [
      | some a ↦ a
      | none ↦ elim ways.agent_loop [ some a ↦ a | none ↦ execute_default ways ]
    ]
    else no_model
