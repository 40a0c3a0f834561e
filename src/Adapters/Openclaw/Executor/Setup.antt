-- ===== src/Adapters/Openclaw/Executor/Setup.antt =====
-- `setup` of `OpenClawToolExecutor` in src/agenttrace/adapters/openclaw.py. `show` is Python's `str` of a
-- value that is no text, `loads` is `json.loads`.
use atcr_agent_trace_collect.Prelude.{
  ℕ, zero, suc, ◌==◌, String, str_eq, Bool, true, false, not, ◌&&◌, Option, none, some, List, [],
  if◌then◌else◌, length, ok, err,
}
use atcr_agent_trace_collect.Prelude.Actions.{pure, throw, modify, gets, ◌>>=◌, ◌>>◌, only_if}
use atcr_agent_trace_collect.Prelude.Int.{ℤ}
use atcr_agent_trace_collect.Prelude.Texts.{joined}
use atcr_agent_trace_collect.Json.{Value, Fields, str, dict, end, entry}
use atcr_agent_trace_collect.Json.Access.{problem, json_error, item, get_from}
use atcr_agent_trace_collect.Json.Equality.{value_eq}
use atcr_agent_trace_collect.Adapters.Problems.{
  Outcome, external, gateway_exited, failed_probe, not_ready, still_waiting,
}
use atcr_agent_trace_collect.Adapters.Openclaw.Nodes.{text_of}
use atcr_agent_trace_collect.Adapters.Openclaw.Executor.{
  Mode, native, recorded_delay, http_client, get_health, post, pause, Options, Statement, do_deed,
  lift, raised, call,
}
use atcr_agent_trace_collect.Adapters.Openclaw.Executor.Machine.{
  Reply, Health, no_connection, raised_health, answered, Round, Machine, acquire,
}
use atcr_agent_trace_collect.Adapters.Openclaw.Executor.Requests.{nodes_of_tools, read_delays}
use atcr_agent_trace_collect.Adapters.Openclaw.Executor.Launch.{launch_gateway}

abbrev pub text_or_empty : Option String → String
text_or_empty none = ""
text_or_empty (some s) = s

-- `(os.environ.get(token_env, "") if token_env else "") or secrets.token_urlsafe(32)`
abbrev pub configured_token : Machine → Option String → String
configured_token m none = ""
configured_token m (some name) = if str_eq name "" then "" else text_or_empty (m.environ name)

unfoldable pub token_for : Machine → Options → String
token_for m o =
    let token = configured_token m o.token_env in if str_eq token "" then m.random_token else token

-- The answer of a gateway that asks for the token and has a tool route.
abbrev pub expected_error : Value
expected_error =
    dict (
      entry "type" (str "invalid_request") (entry "message" (str "tools.invoke requires name") end))

abbrev matches : Outcome Value → Outcome Bool
matches (ok found) = ok (value_eq found expected_error)
matches (err e) = err e

abbrev error_matches : Option Value → Outcome Bool
error_matches none = err json_error
error_matches (some body) = matches (get_from "error" body)

-- `probe.status_code == 400 and probe.json().get("error") == {...}`
unfoldable pub is_ready : Reply → Outcome Bool
is_ready r = if r.status == 400 then error_matches r.body else ok false

-- The probe: it is what ends the loop, or it raises.
unfoldable pub send_probe : Round → Statement (Unit {0})
unfolding is_ready
send_probe r = do
  call (λ _. r.probe_raises) (post end)
  ready ← lift (is_ready r.probe)
  only_if (not ready) (lift (raised r.probe.refused) >> throw (problem failed_probe))

-- `response is not None and response.is_success`
unfoldable pub read_health : Health → Statement Bool
read_health no_connection = pure false
read_health (raised_health code) = lift (err (problem (external code)))
read_health (answered is_success) = pure is_success

abbrev fail_if_exited : Option ℤ → Statement (Unit {0})
fail_if_exited none = pure tt
fail_if_exited (some code) = throw (problem (gateway_exited code))

-- The end of a round that the gateway has not answered.
unfoldable pub pause_round : Machine → Round → Statement (Unit {0})
pause_round m r = do only_if r.is_late (throw (problem not_ready)); call m.raises pause

-- The readiness loop from the n-th round on.
unfoldable pub await_ready : Machine → (fuel n : ℕ) → Statement (Unit {0})
unfolding send_probe read_health pause_round
await_ready m zero n = throw (problem still_waiting)
await_ready m (suc fuel) n = do
  let r = m.rounds n
  fail_if_exited r.returncode
  modify (do_deed get_health)
  success ← read_health r.health
  let later = pause_round m r >> await_ready m fuel (suc n)
  elim success [ true ↦ send_probe r | false ↦ later ]

-- The recorded times, before anything is launched: whether nothing else is needed.
unfoldable pub prepare_delays : (String → Option Value) → Mode → List Fields → Statement Bool
prepare_delays loads native nodes = pure false
prepare_delays loads recorded_delay nodes = do
  delays ← lift (read_delays loads nodes [])
  modify (λ s. record s { search_delays = delays })
  pure (not (length nodes == 0) && (length delays == length nodes))

abbrev pub is_none : {A : Type 0} → Option A → Bool
is_none none = true
is_none (some _) = false

-- The client, and the wait for a gateway of its own.
unfoldable pub open_client : Machine → (fuel : ℕ) → Statement (Unit {0})
unfolding await_ready
open_client m fuel = do
  acquire m http_client
  started ← gets (λ s. s.has_process)
  only_if started (await_ready m fuel 0)

-- The gateway or its address, and the client.
unfoldable pub connect : Machine → Options → (fuel : ℕ) → List Fields → Statement (Unit {0})
unfolding token_for open_client
connect m o fuel nodes = do
  modify (λ s. record s { token = token_for m o })
  url ← gets (λ s. s.gateway_url)
  only_if (is_none url) (launch_gateway m o nodes)
  open_client m fuel

unfoldable pub setup :
    (Value → String)
    → (String → Option Value)
    → Machine
    → Options
    → (fuel : ℕ) → Fields
    → Statement (Unit {0})
unfolding prepare_delays connect
setup show loads m o fuel trace = do
  trace_id ← lift (item "trace_id" trace)
  modify (λ s. record s { session_key = joined "agenttrace-" (text_of show trace_id) })
  nodes ← lift (nodes_of_tools trace)
  finished ← prepare_delays loads o.web_search_mode nodes
  only_if (not finished) (connect m o fuel nodes)
