-- ===== src/Adapters/Openclaw/Executor/Execute.antt =====
-- `execute` of `OpenClawToolExecutor` in src/agenttrace/adapters/openclaw.py.
use atcr_agent_trace_collect.Prelude.{
  ℕ, String, str_eq, Bool, true, false, not, ◌&&◌, Option, none, some, if◌then◌else◌,
}
use atcr_agent_trace_collect.Prelude.Actions.{pure, throw, modify, gets, ◌>>=◌, ◌>>◌, only_if}
use atcr_agent_trace_collect.Json.{Value, Fields, dict}
use atcr_agent_trace_collect.Json.Access.{problem, item}
use atcr_agent_trace_collect.Adapters.Problems.{not_set_up}
use atcr_agent_trace_collect.Adapters.Openclaw.Delay.{Delay}
use atcr_agent_trace_collect.Adapters.Openclaw.Executor.{
  Mode, is_native, post, sleep, ToolExecutor, Statement, do_deed, lift, call,
}
use atcr_agent_trace_collect.Adapters.Openclaw.Executor.Config.{bridged}
use atcr_agent_trace_collect.Adapters.Openclaw.Executor.Machine.{Reply}
use atcr_agent_trace_collect.Adapters.Openclaw.Executor.Invoke.{
  read_request, known_delay, request_body, read_reply,
}

-- `ToolExecutionResult`: the metadata is that of a recorded delay.
pub record Execution : Type 0 where
  pub result : Value
  pub replay_metadata : Option Delay

-- What the post raises, or its answer.
pub record Answer : Type 0 where
  pub raises : Option ℕ
  pub reply : Reply

-- A search that waits for its recorded time.
unfoldable pub replay_search : Fields → Statement Execution
replay_search node = do
  delays ← gets (λ s. s.search_delays)
  delay ← lift (known_delay node delays)
  modify (do_deed (sleep delay))
  recorded ← lift (item "recorded_result" node)
  pure (record { result = recorded; replay_metadata = some delay })

abbrev pub is_set_up : ToolExecutor → Bool
is_set_up s = s.has_client && elim s.gateway_url [ none ↦ false | some _ ↦ true ]

abbrev pub tool_name : Bool → String → String
tool_name use_coding_bridge name = if use_coding_bridge then bridged name else name

-- The gateway runs the tool.
unfoldable pub invoke : Answer → Fields → Value → String → Statement Execution
invoke answer node request name = do
  ready ← gets is_set_up
  only_if (not ready) (throw (problem not_set_up))
  body ←
      (λ s. lift (request_body (tool_name s.use_coding_bridge name) s.session_key node request) s)
  call (λ _. answer.raises) (post body)
  result ← lift (read_reply name answer.reply)
  pure (record { result = dict result; replay_metadata = none })

unfoldable pub execute : Mode → Answer → Fields → Statement Execution
unfolding replay_search invoke
execute mode answer node = do
  (request, name) ← lift (read_request node)
  if str_eq name "web_search" && not (is_native mode)
      then replay_search node
      else invoke answer node request name
