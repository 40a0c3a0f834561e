-- ===== src/Adapters/Openclaw/Executor/Machine.antt =====
-- What `OpenClawToolExecutor` of src/agenttrace/adapters/openclaw.py finds: the environment, the file
-- system, the gateway's answers; and the resources that it opens.
use atcr_agent_trace_collect.Prelude.{ℕ, String, Bool, true, Option, List}
use atcr_agent_trace_collect.Prelude.Int.{ℤ}
use atcr_agent_trace_collect.Prelude.Actions.{modify, ◌>>◌}
use atcr_agent_trace_collect.Json.{Value}
use atcr_agent_trace_collect.Adapters.Openclaw.Executor.{
  Resource, http_client, port_lease, stdout_log, stderr_log, Deed, open_resource, ToolExecutor,
  Statement, call,
}

-- The answer to the probe. `body` is the value of `json()`, which raises without one; `refused` is what
-- `raise_for_status()` raises.
pub record Reply : Type 0 where
  pub status : ℕ
  pub body : Option Value
  pub refused : Option ℕ

pub data Health : Type 0 where
  -- httpx.TransportError
  no_connection : Health
  raised_health : ℕ → Health
  answered : (is_success : Bool) → Health

-- What one round of the readiness loop observes.
pub record Round : Type 0 where
  pub returncode : Option ℤ
  pub health : Health
  pub probe : Reply
  -- what the post of the probe raises
  pub probe_raises : Option ℕ
  -- `time() >= deadline`
  pub is_late : Bool

-- The system that `setup` finds.
pub record Machine : Type 0 where
  pub environ : String → Option String
  pub random_token : String
  -- `workspace.parent`, and `directory / name`
  pub workspace : String
  pub run_root : String
  pub child : String → String → String
  pub staged : List String
  pub port : ℕ
  pub raises : Deed → Option ℕ
  pub rounds : ℕ → Round

abbrev pub hold : Resource → Bool → ToolExecutor → ToolExecutor
hold http_client b s = record s { has_client = b }
hold port_lease b s = record s { has_lease = b }
hold stdout_log b s = record s { has_stdout = b }
hold stderr_log b s = record s { has_stderr = b }

-- The resource is held once it is open.
unfoldable pub acquire : Machine → Resource → Statement (Unit {0})
acquire m r = do call m.raises (open_resource r); modify (hold r true)
