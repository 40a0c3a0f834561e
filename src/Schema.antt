-- ===== src/Schema.antt =====
-- src/agenttrace/schema.py: `validate_trace` and its helpers.
pub mod Types
pub mod Fields
pub mod Nodes
pub mod Graph
pub mod Validate
