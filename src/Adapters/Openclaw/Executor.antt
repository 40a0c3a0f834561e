-- ===== src/Adapters/Openclaw/Executor.antt =====
-- `OpenClawToolExecutor` of src/agenttrace/adapters/openclaw.py: what it holds, and the calls that it
-- makes into the system and the HTTP client. What these raise or answer is a parameter.
pub mod Config
pub mod Machine
pub mod Requests
pub mod Launch
pub mod Setup
pub mod Close
pub mod Invoke
pub mod Execute
pub mod Frame
pub mod Recorded
pub mod Replayed
pub mod Readiness
pub mod Posts
pub mod Replies
pub mod Prepared
pub mod Released
use atcr_agent_trace_collect.Prelude.{
  ℕ, String, Bool, true, false, Option, none, some, List, [], ◌∷◌, ◌++◌, Result, ok, err,
}
use atcr_agent_trace_collect.Prelude.Int.{ℤ}
use atcr_agent_trace_collect.Prelude.Actions.{Action}
use atcr_agent_trace_collect.Json.{Value, Fields}
use atcr_agent_trace_collect.Json.Access.{Exception, problem}
use atcr_agent_trace_collect.Adapters.Problems.{Problem, Outcome, external}
use atcr_agent_trace_collect.Adapters.Openclaw.Delay.{Delay}

pub data Mode : Type 0 where
  native recorded_delay : Mode

abbrev pub is_native : Mode → Bool
is_native native = true
is_native recorded_delay = false

-- What is opened and closed again.
pub data Resource : Type 0 where
  http_client port_lease stdout_log stderr_log : Resource

pub data Deed : Type 0 where
  make_directory : String → Deed
  write_file : (path : String) (content : Option Value) → Deed
  stage_plugins : Deed
  open_resource close_resource : Resource → Deed
  start_gateway : (arguments : List String) (environment : List (String × String)) → Deed
  get_health : Deed
  -- `POST /tools/invoke`
  post : (body : Fields) → Deed
  sleep : Delay → Deed
  -- `asyncio.sleep(0.1)` of the readiness loop
  pause : Deed
  terminate kill wait : Deed

-- The arguments of `__init__`.
pub record Options : Type 0 where
  pub web_search_mode : Mode
  pub openclaw_bin : String
  pub token_env : Option String
  pub has_plugin_state_dir : Bool

abbrev pub Delays : Type 0
Delays = List (String × Delay)

-- The attributes that change, and what has been done. An attribute that may be `None` and is only used
-- by calls of its methods is the test that it is not.
pub record ToolExecutor : Type 0 where
  pub search_delays : Delays
  pub gateway_url : Option String
  pub token : String
  pub session_key : String
  pub use_coding_bridge : Bool
  pub has_process : Bool
  pub has_client : Bool
  pub has_lease : Bool
  pub has_stdout : Bool
  pub has_stderr : Bool
  pub deeds : List Deed

-- `OpenClawToolExecutor(...)`
abbrev pub fresh : Option String → ToolExecutor
fresh gateway_url = record {
  search_delays = [];
  gateway_url = gateway_url;
  token = "";
  session_key = "";
  use_coding_bridge = false;
  has_process = false;
  has_client = false;
  has_lease = false;
  has_stdout = false;
  has_stderr = false;
  deeds = [];
}

abbrev pub Statement : Type 0 → Type 0
Statement = Action (Exception Problem) ToolExecutor

abbrev pub do_deed : Deed → ToolExecutor → ToolExecutor
do_deed d s = record s { deeds = s.deeds ++ d ∷ [] }

-- An expression, or a raise of the code itself.
abbrev pub lift : {A : Type 0} → Outcome A → Statement A
lift r s = (r, s)

abbrev pub raised : Option ℕ → Outcome (Unit {0})
raised none = ok tt
raised (some code) = err (problem (external code))

-- A call that may raise.
abbrev pub call : (Deed → Option ℕ) → Deed → Statement (Unit {0})
call raises d s = (raised (raises d), do_deed d s)
