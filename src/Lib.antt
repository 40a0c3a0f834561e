-- ===== src/Lib.antt =====
-- AgentTrace records an agent's run as one portable graph of calls and replays that fixed path for
-- performance experiments.
--
-- The trace is a JSON object whose nodes are LLM and tool calls with the nodes that they depend on.
-- `validate_trace` accepts or refuses it; `replay_trace` then runs each node as a task of an event
-- loop, after the tasks of its dependencies.
--
-- Which file models what (paths from the repository's root):
--
--   Json.antt     the values of `json.loads`, and `.get`, `in`, `==`, `isinstance` on them.
--   Json/         Access: `.get`, `[...]`, iteration and the exceptions they raise. Equality: `==`.
--   Schema/       src/agenttrace/schema.py. Types: exceptions and nodes. Fields: `_object`, `_string`,
--                 header, context, artifacts. Nodes: the loop over the nodes. Graph: `visit` and the
--                 sets `visiting` and `visited`. Validate: `validate_trace`. The files below Graph and
--                 Validate hold proofs.
--   Replay/       src/agenttrace/replay/. Engine: the tasks of `replay_trace`, as a step function over
--                 the choices of the event loop. Session: `replay_trace` around its tasks. Bindings:
--                 bindings.py. Benchmark: rows, `next_row`, the workers and the gather of
--                 benchmark.py. Llm: the payload and the stream of `execute` in llm.py. The files below
--                 these hold proofs, and Bindings/Learning also `learn_from_results`; Llm/Events has the events
--                 of a stream, and Bindings/Taught what two results teach, apart from the code.
--   Adapters/     src/agenttrace/adapters/. Problems, Built: the exceptions, and the nodes that both adapters
--                 build. Openclaw: openclaw.py, from the captured calls (Calls) and the nodes (Nodes) to
--                 the trace (Trace), `capture_spill_artifacts` (Spills), `_recorded_search_delay` (Delay),
--                 and the tool executor (Executor): its files for the gateway (Config), `setup` (Requests,
--                 Launch, Setup), `execute` (Invoke, Execute) and `close` (Close). Minisweagent: minisweagent.py,
--                 from the captured calls (Calls), `_recorded_result` (Results) and the nodes (Nodes) to the
--                 trace (Trace), `_replace_string` (Replace), the tool executor (Executor), and
--                 `cached_image` of src/agenttrace/miniswe_images.py (Images).
--   Envelope/     src/agenttrace/routing_envelope.py. Wrap: `wrap_chat`. Middleware and Serving: the request
--                 that the middleware restores, and the record of what the application sends.
--   Backend.antt  `union_seconds` of src/agenttrace/vllm_backend.py, over whole ticks; Union holds proofs.
--   Loader.antt   src/agenttrace/loader.py; Parsing holds proofs.
--   Experiments/  src/agenttrace/experiments/multi/config.py. Walltime: `walltime_seconds`. Config:
--                 `pbs_for_point`, over the entries that `read_config` has accepted. Matrix: `matrix`.
--                 Layout: `node_layout`. The files below these hold proofs.
--   Prelude/      shared types, tests and lemmas; Actions: statements that raise, with `finally`.
--   Tests/        runs on small inputs.
--
-- Numbers. A Python integer is an integer of any size; a JSON float is the exact number that it
-- holds. An exception is an `err` with the text's arguments, before formatting.
--
-- Fuel. `visit` has one more than the number of nodes; a path under visit has no repetition, so this is
-- enough. Python's own limit on the depth of recursion is not modelled.
--
-- Concurrency. A run of the engine is a list of choices of the event loop and of the executors; `step`
-- refuses a choice that the code does not allow. Between two awaits the code runs whole, so a choice is
-- what a task does up to its next await.
--
-- A run of the benchmark driver is a list of choices in the same way: a worker's task begins, its process
-- ends, or it is cancelled. `settle` goes on to the next row without a choice in between, as the code has
-- no await there. The n-th shuffle is a function of the plan, since the generator is seeded.
--
-- The readiness loop of the tool executor has the fuel that its run is given; it ends in the round in
-- which the deadline comes. A call of it into the system or the HTTP client is a `Deed` in the order of
-- the calls; what these raise, and what the gateway answers, is a parameter.
--
-- The mini-SWE-agent executor takes a build slot by one call and leaves it by another: the polling of the
-- locks in `sandbox_build_slot` is not modelled, nor what a copied file does to the file system.
--
-- A cancellation of `replay_trace` from outside, as by the signal handler of src/agenttrace/cli.py, is no
-- choice of the engine: tasks are cancelled only after one of them has raised. In the benchmark driver
-- the directories and the log of admissions are made between `next_row` and `try` without an error; where
-- they raise one, the code leaves the row pending or running. An error of reading a failed task's events
-- leaves that row failed in the code; the model has no such error.
--
-- Not modelled: clocks, files, processes, network clients, and the parts that PROJECT.json lists.
pub mod Prelude
pub mod Json
pub mod Schema
pub mod Replay
pub mod Adapters
pub mod Envelope
pub mod Backend
pub mod Loader
pub mod Experiments
pub mod Tests
