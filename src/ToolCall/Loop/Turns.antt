-- ===== src/ToolCall/Loop/Turns.antt =====
-- The conversation that the loop builds, as turns.
use crewai_go.Base.{
  ℕ, zero, suc, ◌+◌, ◌<◌, ◌≡◌, ◌≢◌, true, subst, refl, sym, ◌∙◌, ap, inl, inr, Bool-cases,
  Option-cases, false, Option, none, some, List, [], ◌∷◌, ◌++◌, map, String, append-nil,
  append_assoc, length, arith, List-cases,
}
use crewai_go.Base.Int.{ℤ}
use crewai_go.Base.Result.{Result, ok, err, Result-cases}
use crewai_go.Fact.{Fact}
use crewai_go.ToolCall.{validate_tool_args, truncate_tool_output}
use crewai_go.ToolCall.Loop.{
  Call, Response, Failure, cancelled, model, max_iterations, Output, text, bad_args, no_tool,
  tool_error, collect_facts, Message, system, user, assistant, tool_result, LoopState, Setting,
  find_tool, answer, run_call, run_calls, tool_loop, iterations, execute_with_tools,
}

-- The messages answer the calls: one for each, in order, with its name and its id; and so do the
-- traces.
abbrev pub Answers : List Call → List Message → Type 0
Answers [] [] = Unit {0}
Answers [] (m ∷ ms) = ⊥
Answers (c ∷ cs) [] = ⊥
Answers (c ∷ cs) (m ∷ ms) =
    ((output : Output) × (m ≡ tool_result c.name c.id output)) × Answers cs ms

-- A turn: a reply, and the answers to its calls.
pub record Turn : Type 0 where
  pub reply : Response
  pub answers : List Message
  pub answered : Answers reply.calls answers

abbrev pub spoken_in : Turn → List Message
spoken_in t = assistant t.reply.content t.reply.calls ∷ t.answers

abbrev pub spoken : List Turn → List Message
spoken [] = []
spoken (t ∷ ts) = spoken_in t ++ spoken ts

module _ {W : Type 0} (env : Setting W) where
  -- The model, asked with this conversation, gives this reply.
  pub Replies : List Message → Response → Type 0
  Replies messages reply = (w : W) × ((env.ask w messages).1 ≡ ok reply)

  -- Each turn's reply is the model's to the conversation before it, and has calls; the context is not
  -- done at its iteration, the turns being those from the i-th on.
  pub AreReplies : ℕ → List Message → List Turn → Type 0
  AreReplies i messages [] = Unit {0}
  AreReplies i messages (t ∷ ts) =
      (env.ctx_done i ≡ false)
      × Replies messages t.reply
      × (t.reply.calls ≢ [])
      × AreReplies (suc i) (messages ++ spoken_in t) ts

  -- Why a run of `left` iterations from the i-th on ends after `n` turns: they are used up, or the
  -- context is done, or the model fails on the conversation, or replies to it without calls.
  pub data Stops (left i n : ℕ) (r : LoopState W × Result Failure String) : Type 0 where
    used_up : n ≡ left → r.1 ≡ err max_iterations → Stops left i n r
    stopped : n < left → env.ctx_done (i + n) ≡ true → r.1 ≡ err cancelled → Stops left i n r
    model_failed :
        (e : String) (w : W)
        → n < left
        → (env.ask w r.0.messages).1 ≡ err e
        → r.1 ≡ err (model e)
        → Stops left i n r
    replied :
        (reply : Response)
        → n < left
        → Replies r.0.messages reply
        → reply.calls ≡ []
        → r.1 ≡ ok (env.trim reply.content)
        → Stops left i n r

collect_facts-messages :
    {W : Type 0} (c : Call) (output : Output) (facts : Option (W → List Fact)) (s : LoopState W)
    → (answer c output false (collect_facts facts s)).messages
      ≡ s.messages ++ tool_result c.name c.id output ∷ []
collect_facts-messages c output none s = refl
collect_facts-messages c output (some facts) s = refl

module _ {W : Type 0} (env : Setting W) where
  run_call-answer :
      (c : Call) (s : LoopState W)
      → (output : Output) × ((run_call env c s).messages
          ≡ s.messages ++ tool_result c.name c.id output ∷ [])
  unfolding run_call
  run_call-answer c s = elim (Option-cases (validate_tool_args c.args)) [
    | inr (e, bad) ↦ (bad_args e, rw (bad, run_call) refl)
    | inl fine ↦ elim (Option-cases (find_tool env.tools c.name)) [
      | inl missing ↦
          (no_tool c.name (map (λ t. t.name) env.tools), rw (fine, missing, run_call) refl)
      | inr (t, found) ↦ elim (Result-cases (t.call s.world c.args).1) [
        | inl (e, failed) ↦ (tool_error c.name e, rw (fine, found, failed, run_call) refl)
        | inr (out, worked) ↦ (
          text (truncate_tool_output env.notice out),
          rw (fine, found, worked, run_call)
              (collect_facts-messages c (text (truncate_tool_output env.notice out)) t.facts _),
        )
      ]
    ]
  ]

  tool_loop-asked :
      (left i : ℕ) (s : LoopState W) (resp : Response) (c : Call) (cs : List Call)
      → env.ctx_done i ≡ false
      → (env.ask s.world s.messages).1 ≡ ok resp
      → resp.calls ≡ c ∷ cs
      → tool_loop env (suc left) i s
        ≡ tool_loop env left (suc i) (
            run_calls env resp.calls (record s {
              world = (env.ask s.world s.messages).0;
              messages = s.messages ++ assistant resp.content resp.calls ∷ [];
            }))
  unfolding tool_loop
  tool_loop-asked left i s resp c cs live asked calls =
      rw (live, asked, calls, tool_loop)
        (ap
          (λ k. tool_loop env left (suc i) (
            run_calls env k (record s {
              world = (env.ask s.world s.messages).0;
              messages = s.messages ++ assistant resp.content k ∷ [];
            })))
          calls)

  run_calls-Answers :
      (cs : List Call) (s : LoopState W)
      → (ms : List Message) × Answers cs ms × ((run_calls env cs s).messages ≡ s.messages ++ ms)
  unfolding run_calls
  run_calls-Answers [] s = ([], tt, sym (append-nil s.messages))
  run_calls-Answers (c ∷ cs) s =
      let (output, e) = run_call-answer c s in
      let (ms, answered, e') = run_calls-Answers cs (run_call env c s) in
      (
        tool_result c.name c.id output ∷ ms,
        ((output, refl), answered),
        e' ∙ ap (λ l. l ++ ms) e ∙ append_assoc s.messages (tool_result c.name c.id output ∷ []) ms,
      )

  -- A run of at most `left` iterations, from the i-th on: its turns, and its end.
  Ran : ℕ → ℕ → LoopState W → LoopState W × Result Failure String → Type 0
  Ran left i s r =
      (turns : List Turn) × AreReplies env i s.messages turns
      × (r.0.messages ≡ s.messages ++ spoken turns)
      × Stops env left i (length turns) r

  Stops-later :
      (left i n : ℕ) (r : LoopState W × Result Failure String)
      → Stops env left (suc i) n r
      → Stops env (suc left) i (suc n) r
  Stops-later left i n r (used_up all e) = used_up (ap suc all) e
  Stops-later left i n r (stopped few over e) =
      let at : suc i + n ≡ i + suc n = omega arith in
      stopped (omega (arith, few)) (sym (ap env.ctx_done at) ∙ over) e
  Stops-later left i n r (model_failed m w few asked e) =
      model_failed m w (omega (arith, few)) asked e
  Stops-later left i n r (replied reply few asked quiet e) =
      replied reply (omega (arith, few)) asked quiet e

  Ran-now :
      (left i : ℕ) (s : LoopState W) (r : LoopState W × Result Failure String)
      → r.0.messages ≡ s.messages
      → Stops env left i 0 r
      → Ran left i s r
  unfolding Ran AreReplies
  Ran-now left i s r same stops = ([], tt, same ∙ sym (append-nil s.messages), stops)

  Ran-turn :
      (left i : ℕ) (s said : LoopState W) (reply : Response)
      (r : LoopState W × Result Failure String)
      → env.ctx_done i ≡ false
      → Replies env s.messages reply
      → reply.calls ≢ []
      → said.messages ≡ s.messages ++ assistant reply.content reply.calls ∷ []
      → Ran left (suc i) (run_calls env reply.calls said) r
      → Ran (suc left) i s r
  unfolding Ran AreReplies
  Ran-turn left i s said reply r live asked some_calls at (turns, replies, e', stops) =
      let (ms, answered, e) = run_calls-Answers reply.calls said in
      let turn : Turn = record { reply = reply; answers = ms; answered = answered } in
      let joined : (run_calls env reply.calls said).messages ≡ s.messages ++ spoken_in turn =
        e
        ∙ ap (λ l. l ++ ms) at
        ∙ append_assoc s.messages (assistant reply.content reply.calls ∷ []) ms in
      (
        turn ∷ turns,
        (live, asked, some_calls, subst (λ l. AreReplies env (suc i) l turns) joined replies),
        e'
            ∙ ap (λ l. l ++ spoken turns) joined
            ∙ append_assoc s.messages (spoken_in turn) (spoken turns),
        Stops-later left i (length turns) r stops,
      )

  tool_loop-turns : (left i : ℕ) (s : LoopState W) → Ran left i s (tool_loop env left i s)
  unfolding tool_loop Replies
  tool_loop-turns zero i s = Ran-now 0 i s _ refl (used_up refl refl)
  tool_loop-turns (suc left) i s = elim (Bool-cases (env.ctx_done i)) [
    | inl over ↦
        let at : i ≡ i + 0 = omega arith in
        rw (over, tool_loop)
          (Ran-now (suc left) i s (s, err cancelled) refl
            (stopped (omega arith) (sym (ap env.ctx_done at) ∙ over) refl))
    | inr live ↦ elim (Result-cases (env.ask s.world s.messages).1) [
      | inl (e, bad) ↦
          let over = record s { world = (env.ask s.world s.messages).0 } in
          rw (live, bad, tool_loop)
            (Ran-now (suc left) i s (over, err (model e)) refl
              (model_failed e s.world (omega arith) bad refl))
      | inr (resp, asked) ↦ elim (List-cases resp.calls) [
        | inl quiet ↦
            let over = record s { world = (env.ask s.world s.messages).0 } in
            rw (live, asked, quiet, tool_loop)
              (Ran-now (suc left) i s (over, ok (env.trim resp.content)) refl
                (replied resp (omega arith) (s.world, asked) quiet refl))
        | inr (c, cs, calls) ↦
            let said : LoopState W = record s {
              world = (env.ask s.world s.messages).0;
              messages = s.messages ++ assistant resp.content resp.calls ∷ [];
            } in
            subst (Ran (suc left) i s) (sym (tool_loop-asked left i s resp c cs live asked calls)) (
              Ran-turn left i s said resp _ live (s.world, asked) (λ none. cc (none, calls)) refl
                (tool_loop-turns left (suc i) (run_calls env resp.calls said)))
      ]
    ]
  ]

-- The conversation of a run: the two opening messages, and then turns. Each turn is the model's reply
-- to the conversation before it, as it is, with calls, and for each call in order one message with its
-- name and its id. There are as many turns as iterations where the run reports that they are used up;
-- otherwise there are fewer, and the run ends because the context is done, because the model fails on
-- this conversation, or because it replies to it without calls, which the run returns, trimmed.
pub execute_with_tools-turns :
    {W : Type 0} (env : Setting W) (max_iter : ℤ) (system_prompt task_prompt : String) (w : W)
    → (turns : List Turn) × AreReplies env 0 (system system_prompt ∷ user task_prompt ∷ []) turns
      × ((execute_with_tools env max_iter system_prompt task_prompt w).0.messages
          ≡ system system_prompt ∷ user task_prompt ∷ spoken turns)
      × Stops env
          (iterations max_iter)
          0
          (length turns)
          (execute_with_tools env max_iter system_prompt task_prompt w)
unfolding execute_with_tools Ran
execute_with_tools-turns env max_iter system_prompt task_prompt w =
    tool_loop-turns env (iterations max_iter) 0 (record {
      world = w;
      messages = system system_prompt ∷ user task_prompt ∷ [];
      traces = [];
      facts = [];
    })
