-- ===== src/Adapters.antt =====
-- src/agenttrace/adapters/: how a framework's own records become a trace, and how its tools are run
-- again. Built: the nodes that both adapters build, and why `validate_trace` accepts their graph.
pub mod Problems
pub mod Built
pub mod Openclaw
pub mod Minisweagent
