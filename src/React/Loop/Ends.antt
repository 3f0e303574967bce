-- ===== src/React/Loop/Ends.antt =====
-- How the ReAct loop ends, and the conversation that it leaves.
use crewai_go.Base.{
  ℕ, zero, suc, ◌<◌, List, [], ◌∷◌, ◌++◌, length, ◌≡◌, ◌≢◌, ◌⊎◌, inl, inr, refl, sym, subst,
  Bool-cases,
}
use crewai_go.Base.Int.{ℤ}
use crewai_go.Base.Result.{Result, ok, err}
use crewai_go.ToolCall.Loop.{iterations}
use crewai_go.React.{Reply, answer, act}
use crewai_go.React.Reads.{IsAscii, read_reply_returns, strip_final_answer_returns}
use crewai_go.React.Loop.{
  Message, assistant, Observation, observation, Tool, Failure, panicked, max_iterations, LoopState,
  Setting, run_action, on_reply, on_answer, react_loop, stripped, single_call, opening, by_tools,
  execute_react,
}

-- `n` turns: the model's message and the observation that answers it.
unfoldable pub IsTurns : ℕ → List Message → Type 0
IsTurns zero ms = ms ≡ []
IsTurns (suc n) ms =
    (out : List ℕ) × (o : Observation) × (rest : List Message) × (ms
      ≡ assistant out ∷ observation o ∷ rest)
    × IsTurns n rest

module _ {W : Type 0} where
  -- A run of at most `left` iterations from a state: either it ends in fewer turns, or it uses them
  -- up and reports `limit`.
  Ran : ℕ → ℕ → LoopState W → LoopState W × Result Failure (List ℕ) → Type 0
  Ran left limit s r =
      (n : ℕ) × (ms : List Message) × (r.0.messages ≡ s.messages ++ ms)
      × IsTurns n ms
      × ((n < left) × (r.1 ≢ err (max_iterations limit))
          ⊎ (n ≡ left) × (r.1 ≡ err (max_iterations limit)))

module _ {W : Type 0} (env : Setting W)
    (keeps : (s : List ℕ) → IsAscii s → length (env.strings.to_lower s) ≡ length s)
    (trims : (s : List ℕ) → IsAscii s → IsAscii (env.strings.trim_space s))
    (plain : (w : W) (ms : List Message) (reply : List ℕ)
      → (env.ask w ms).1 ≡ ok reply
      → IsAscii reply) where
  on_reply-calm :
      (next : LoopState W → LoopState W × Result Failure (List ℕ)) (out : List ℕ) (reply : Reply)
      (s : LoopState W)
      → ((s' : LoopState W) → (next s').1 ≢ err panicked)
      → (on_reply env next out (ok reply) s).1 ≢ err panicked
  unfolding on_reply
  on_reply-calm next out (answer a) s each e = absurd (cc (e))
  on_reply-calm next out (act action input) s each e = each (run_action env out action input s) e

  on_answer-calm :
      (next : LoopState W → LoopState W × Result Failure (List ℕ)) (s : LoopState W)
      (reply : W × Result (List ℕ) (List ℕ))
      → ((t : List ℕ) → reply.1 ≡ ok t → IsAscii t)
      → ((s' : LoopState W) → (next s').1 ≢ err panicked)
      → (on_answer env next s reply).1 ≢ err panicked
  unfolding on_answer
  on_answer-calm next s (w, err m) ascii each = λ e. absurd (cc (e))
  on_answer-calm next s (w, ok reply) ascii each =
      let out = env.strings.trim_space reply in
      let (read, at) = read_reply_returns env.strings keeps out (trims reply (ascii reply refl)) in
      subst (λ r. (on_reply env next out r (record s { world = w })).1 ≢ err panicked) (sym at)
        (on_reply-calm next out read (record s { world = w }) each)

  react_loop-calm : (left i : ℕ) (s : LoopState W) → (react_loop env left i s).1 ≢ err panicked
  unfolding react_loop
  react_loop-calm zero i s = λ e. absurd (cc (e))
  react_loop-calm (suc left) i s = elim (Bool-cases (env.ctx_done i)) [
    | inl h ↦ rw h (λ e. absurd (cc (e)))
    | inr h ↦ rw h (
        on_answer-calm (react_loop env left (suc i)) s (env.ask s.world s.messages)
          (plain s.world s.messages) (react_loop-calm left (suc i)))
  ]

  single_call-calm :
      (reply : W × Result (List ℕ) (List ℕ))
      → ((t : List ℕ) → reply.1 ≡ ok t → IsAscii t)
      → (single_call env reply).1 ≢ err panicked
  unfolding single_call stripped
  single_call-calm (w, err m) ascii = λ e. absurd (cc (e))
  single_call-calm (w, ok reply) ascii =
      let (t, at) = strip_final_answer_returns env.strings keeps reply (ascii reply refl) in
      subst (λ r. (stripped env w r).1 ≢ err panicked) (sym at) (λ e. absurd (cc (e)))

  by_tools-calm :
      (max_iter : ℤ) (s : LoopState W) (tools : List (Tool W))
      → (by_tools env max_iter s tools).1 ≢ err panicked
  unfolding by_tools
  by_tools-calm max_iter s [] =
      single_call-calm (env.ask s.world s.messages) (plain s.world s.messages)
  by_tools-calm max_iter s (t ∷ ts) = react_loop-calm (iterations max_iter) 0 s

  -- Where the model replies in ASCII, the executor does not panic, with tools or without, given that
  -- strings.ToLower keeps the lengths of ASCII texts and strings.TrimSpace leaves them ASCII.
  pub execute_react_calm :
      (max_iter : ℤ) (system_prompt task_prompt : List ℕ) (w : W)
      → (execute_react env max_iter system_prompt task_prompt w).1 ≢ err panicked
  unfolding execute_react
  execute_react_calm max_iter system_prompt task_prompt w =
      by_tools-calm max_iter (opening system_prompt task_prompt w) env.tools
