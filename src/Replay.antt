-- ===== src/Replay.antt =====
-- src/agenttrace/replay/: the engine that replays one trace, and its parts.
pub mod Engine
pub mod Bindings
pub mod Session
pub mod Llm
pub mod Benchmark
