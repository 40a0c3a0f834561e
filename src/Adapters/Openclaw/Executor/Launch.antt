-- ===== src/Adapters/Openclaw/Executor/Launch.antt =====
-- The gateway that `setup` of `OpenClawToolExecutor` in src/agenttrace/adapters/openclaw.py starts.
use atcr_agent_trace_collect.Prelude.{
  ℕ, String, Bool, true, false, ◌&&◌, none, some, List, [], ◌∷◌, if◌then◌else◌,
}
use atcr_agent_trace_collect.Prelude.Actions.{pure, throw, modify, gets, ◌>>=◌, ◌>>◌, only_if}
use atcr_agent_trace_collect.Prelude.Texts.{joined, decimal, string_of}
use atcr_agent_trace_collect.Json.{Fields}
use atcr_agent_trace_collect.Json.Access.{problem}
use atcr_agent_trace_collect.Adapters.Problems.{no_brave_plugin}
use atcr_agent_trace_collect.Adapters.Openclaw.Executor.{
  is_native, port_lease, stdout_log, stderr_log, make_directory, write_file, stage_plugins,
  start_gateway, Options, Statement, lift, call,
}
use atcr_agent_trace_collect.Adapters.Openclaw.Executor.Config.{
  bridge_manifest, bridge_package, gateway_config, approvals,
}
use atcr_agent_trace_collect.Adapters.Openclaw.Executor.Machine.{Machine, acquire}
use atcr_agent_trace_collect.Adapters.Openclaw.Executor.Requests.{any_search}

-- `_write_tool_bridge`
unfoldable pub write_tool_bridge : Machine → String → Statement (Unit {0})
write_tool_bridge m dir = do
  call m.raises (make_directory dir)
  call m.raises (write_file (m.child dir "openclaw.plugin.json") (some bridge_manifest))
  call m.raises (write_file (m.child dir "package.json") (some bridge_package))
  call m.raises (write_file (m.child dir "index.js") none)

abbrev pub is_empty : List String → Bool
is_empty [] = true
is_empty (_ ∷ _) = false

-- The paths of the installed plugin, where a search needs it.
unfoldable pub find_plugins : Machine → Options → Bool → Statement (List String)
find_plugins m o needs_brave = do
  only_if (needs_brave && o.has_plugin_state_dir) (call m.raises stage_plugins)
  let paths = if needs_brave && o.has_plugin_state_dir then m.staged else []
  only_if (needs_brave && is_empty paths) (throw (problem no_brave_plugin))
  pure paths

-- `f"http://127.0.0.1:{port}"`
abbrev pub url_of : ℕ → String
url_of port = joined "http://127.0.0.1:" (string_of (decimal port))

abbrev pub gateway_arguments : Machine → Options → String → List String
gateway_arguments m o token =
    o.openclaw_bin
    ∷ "gateway"
    ∷ "run"
    ∷ "--port"
    ∷ string_of (decimal m.port)
    ∷ "--bind"
    ∷ "loopback"
    ∷ "--auth"
    ∷ "token"
    ∷ "--token"
    ∷ token
    ∷ "--compact"
    ∷ []

-- What is added to the environment.
abbrev pub gateway_environment :
    Machine → (state_dir config_path token : String) → List (String × String)
gateway_environment m state_dir config_path token =
    ("OPENCLAW_STATE_DIR", state_dir)
    ∷ ("OPENCLAW_CONFIG_PATH", config_path)
    ∷ ("OPENCLAW_WORKSPACE_DIR", m.workspace)
    ∷ ("OPENCLAW_GATEWAY_TOKEN", token)
    ∷ ("AGENTTRACE_REPLAY_WORKSPACE", m.workspace)
    ∷ ("TMPDIR", m.child m.run_root "tmp")
    ∷ []

-- The block under `if self.gateway_url is None`.
unfoldable pub launch_gateway : Machine → Options → List Fields → Statement (Unit {0})
launch_gateway m o nodes = do
  let state_dir = m.child m.run_root "openclaw-state"
  call m.raises (make_directory state_dir)
  let config_path = m.child state_dir "openclaw.json"
  let bridge_dir = m.child m.run_root "openclaw-replay-plugin"
  write_tool_bridge m bridge_dir
  modify (λ s. record s { use_coding_bridge = true })
  needs_brave ← if is_native o.web_search_mode then lift (any_search nodes) else pure false
  paths ← find_plugins m o needs_brave
  call m.raises (
      write_file config_path
        (some (gateway_config o.web_search_mode needs_brave m.workspace bridge_dir paths)))
  call m.raises (write_file (m.child state_dir "exec-approvals.json") (some approvals))
  acquire m port_lease
  modify (λ s. record s { gateway_url = some (url_of m.port) })
  acquire m stdout_log
  acquire m stderr_log
  token ← gets (λ s. s.token)
  call m.raises (
      start_gateway (gateway_arguments m o token)
        (gateway_environment m state_dir config_path token))
  modify (λ s. record s { has_process = true })
