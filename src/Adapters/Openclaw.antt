-- ===== src/Adapters/Openclaw.antt =====
-- src/agenttrace/adapters/openclaw.py. Spills: `capture_spill_artifacts`. Calls: `_ordered_calls`. Nodes: the nodes of
-- `build_openclaw_trace`. Trace: the trace that it returns. Delay: `_recorded_search_delay`. Executor:
-- `OpenClawToolExecutor`.
pub mod Calls
pub mod Nodes
pub mod Trace
pub mod Delay
pub mod Executor
pub mod Spills
