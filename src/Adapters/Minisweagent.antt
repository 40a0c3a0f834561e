-- ===== src/Adapters/Minisweagent.antt =====
-- src/agenttrace/adapters/minisweagent.py. Replace: `str.replace` and `_replace_string`. Calls: the captured
-- calls in the order of the responses. Results: `_recorded_result`. Nodes: the nodes of
-- `build_minisweagent_trace`. Trace: the trace that it returns.
-- Images: `cached_image` of src/agenttrace/miniswe_images.py. Executor: `MiniSWEAgentToolExecutor`.
pub mod Replace
pub mod Calls
pub mod Results
pub mod Nodes
pub mod Trace
pub mod Images
pub mod Executor
