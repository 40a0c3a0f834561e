-- ===== src/Tests.antt =====
-- Runs of the model on small inputs, and each theorem at an input that meets its hypotheses.
pub mod Traces
pub mod Schema
pub mod Engine
pub mod Bindings
pub mod Session
pub mod Llm
pub mod Benchmark
pub mod Openclaw
pub mod Executor
pub mod Envelope
pub mod Backend
pub mod Loader
pub mod Minisweagent
pub mod Sandbox
pub mod Experiments
