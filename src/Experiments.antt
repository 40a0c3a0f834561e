-- ===== src/Experiments.antt =====
-- src/agenttrace/experiments/multi/config.py. Walltime: `walltime_seconds`. Config: the entries
-- of a configuration that `read_config` has accepted, and `pbs_for_point`. Matrix: `matrix`. Layout: `node_layout`.
pub mod Walltime
pub mod Config
pub mod Matrix
pub mod Layout
use atcr_agent_trace_collect.Prelude.{Result}
use atcr_agent_trace_collect.Json.Access.{Exception}

-- What these functions raise themselves: ValueError.
pub data Problem : Type 0 where
  bad_walltime_format bad_walltime : Problem
  unsupported_group no_router : Problem
  wrong_allocation : Problem
  -- ZeroDivisionError
  no_frontends : Problem

abbrev pub Outcome : Type 0 → Type 0
Outcome = Result (Exception Problem)
