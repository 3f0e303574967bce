-- ===== src/Lib.antt =====
-- crewai-go runs teams of agents over language models. Its parts that decide what runs, in which
-- order and within which bounds are modelled here; models, tools, embedders, the clock and the random
-- source are parameters of the definitions that use them.
--
-- The parts and their files:
--   - Schedule (schedule.go, task.go): planWaves sorts the tasks of a crew into waves by their
--     Context dependencies; asyncWaves keeps the asynchronous ones. Kahn is the graph with its
--     counters, which detectCycle of flow.go has too.
--   - Flow (flow.go): the registration of steps and `validate`; Flow.Exec is `Run`, with
--     depsState and collectReady in Flow.Ready, the steps of a wave in Flow.Wave and the fold of their
--     outcomes in Flow.Judge.
--   - Memory (memory.go, memory_store.go, memory_embed.go): the entries, the bounds of a query and
--     the two orders of its hits; Memory.Store is `Memory` with Put, Query and Delete, and
--     Memory.Policy (memory_policy.go) the buffer that holds a group's entries until its barrier.
--   - Fact (fact.go): facts and dedupFacts, which the two loops below use.
--   - ToolCall (toolcall.go, tool.go): the limits on arguments and outputs; ToolCall.Loop is
--     executeTaskWithTools.
--   - React (executor.go): how a reply of the ReAct protocol is read; React.Loop is the loop over the
--     model and the tools, with the limit and the facts of ToolCall and Fact.
--   - AgenticLoop (loop.go): the cycle of planning, execution, evaluation and refinement.
--   - Crew (crew.go, task.go, guardrail.go): the crew and its tasks. Crew.Execute is `execute` with the
--     memory's injection and the guardrails, Crew.Group the barrier of runTaskGroup, Crew.Waves
--     runAsyncWaves with runWaveGroup, Crew.Processes the serial, hierarchical and staged processes, and
--     Crew.Kickoff the whole run. They use Schedule for the waves, Fact for the facts and Memory.Policy
--     for the buffer.
--   - Delegation (delegation.go): the tool by which an agent asks a coworker, with its guards.
--   - Calculator (tools/calculator.go): the parser behind the calculator tool, with its grammar.
--   - FileStore (filestore.go): the durable store; this file has one scope, its index and the lines of
--     its file, FileStore.View the map from ids to entries that it stands for, and FileStore.Service
--     the operations over all scopes. They use the entries, queries and rankings of Memory.
--   - Schema (schema.go): the validation of a JSON document against a schema, with references;
--     Schema.Meaning is what a schema without references means, written apart from the checks.
--   - Base has the helpers: lists and counts, integers, keyed tables, results.
--
-- State is passed explicitly. A Go map is a table with its newest entry first, a slice of fixed
-- length a function of the index, an error a value. What a lock guards is one step. The goroutines of
-- a wave, of a flow or of a crew, take effect one after the other, in an order that is a parameter.
--
-- Loops are structural or on fuel. The wave loop of planWaves and the queue of detectCycle take one
-- round for each node; the loop of a flow takes one round more than it has steps, since a round settles
-- a step; the draws of generateIDLocked are one more than there are records, and those of freshIDLocked one
-- more than there are ids;
-- the parser of the calculator makes three calls for each byte at most; validateNode makes a call for
-- each node of the schema and each of 32 open references at most. That the fuel is enough is
-- part of what is proved of each.
--
-- Not modelled: durations, kickoff ids, logs, the redaction of error texts, and the parts that talk to
-- the outside: the model providers, the MCP client and the search tools; nor the
-- structured outputs; of the file store the
-- directories of its scopes, the content of meta.json, and a write that stops within a line: an append
-- fails before its line or after it, in Sync.
mod Base
pub mod Kahn
pub mod Schedule
pub mod Flow
pub mod Memory
pub mod Fact
pub mod ToolCall
pub mod AgenticLoop
pub mod Delegation
pub mod Crew
pub mod Calculator
pub mod FileStore
pub mod Schema
pub mod React
