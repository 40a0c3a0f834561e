-- ===== src/Adapters/Openclaw/Executor/Invoke.antt =====
-- The request that `execute` of `OpenClawToolExecutor` in src/agenttrace/adapters/openclaw.py reads and
-- posts, and the reply that it makes a result of.
use atcr_agent_trace_collect.Prelude.{
  ℕ, String, true, false, Option, none, some, if◌then◌else◌, ok, err, ◌>>=◌, ◌>>◌,
}
use atcr_agent_trace_collect.Prelude.Names.{contains}
use atcr_agent_trace_collect.Json.{
  Value, Fields, bool, str, list, dict, nil, end, entry, get, is_truthy, assign,
}
use atcr_agent_trace_collect.Json.Access.{
  type_error, json_error, attribute_error, problem, item, item_of, hash, is_text,
}
use atcr_agent_trace_collect.Adapters.Problems.{
  Outcome, unsupported_protocol, unsupported_tool, delay_not_validated, invocation_failed,
  not_object_result,
}
use atcr_agent_trace_collect.Adapters.Openclaw.Delay.{Delay, has_key}
use atcr_agent_trace_collect.Adapters.Openclaw.Executor.{Delays, raised}
use atcr_agent_trace_collect.Adapters.Openclaw.Executor.Config.{supported_tools}
use atcr_agent_trace_collect.Adapters.Openclaw.Executor.Machine.{Reply}
use atcr_agent_trace_collect.Adapters.Openclaw.Executor.Requests.{node_id, find_delay_of}

-- The name, where it is in `SUPPORTED_TOOLS`.
unfoldable pub supported : Value → Outcome String
supported (str name) =
    if contains name supported_tools then ok name else err (problem (unsupported_tool (str name)))
supported (list _) = err type_error
supported (dict _) = err type_error
supported name = err (problem (unsupported_tool name))

-- The checks before anything is done: the request and the name.
unfoldable pub read_request : Fields → Outcome (Value × String)
unfolding supported
read_request node = do
  request ← item "request" node
  protocol ← item_of "protocol" request
  if is_text "openclaw-tools-invoke" protocol
      then ok tt
      else err (problem (unsupported_protocol protocol))
  value ← item_of "name" request
  name ← supported value
  ok (request, name)

abbrev delay_under : Value → Delays → Option Delay
delay_under (str id) delays = find_delay_of id delays
delay_under _ delays = none

-- `self._search_delays[node["id"]]`, after the test that it is there
unfoldable pub known_delay : Fields → Delays → Outcome Delay
known_delay node delays = do
  id ← node_id node
  hash id
  elim (delay_under id delays) [ none ↦ err (problem delay_not_validated) | some d ↦ ok d ]

-- The body that is posted for a tool.
unfoldable pub request_body : String → String → Fields → Value → Outcome Fields
request_body tool session_key node request = do
  arguments ← item_of "arguments" request
  recorded ← item "recorded_result" node
  call_id ← item_of "toolCallId" recorded
  ok (
      entry "tool" (str tool) (
        entry "args" arguments
          (entry "sessionKey" (str session_key) (entry "idempotencyKey" call_id end))))

-- `payload.get("ok") is False and isinstance(error, dict) and error.get("type") == "tool_error"`: the
-- error
abbrev pub tool_error : Value → Value → Option Fields
tool_error (bool false) (dict error) =
    if is_text "tool_error" (get "type" error) then some error else none
tool_error _ _ = none

-- The result of a tool that raised.
abbrev pub error_result : String → Fields → Fields
error_result name error = entry "content" (list nil) (
    entry "details"
      (dict (
        entry "status" (str "error")
          (entry "tool" (str name) (entry "error" (get "message" error) end))))
      (entry "isError" (bool true) end))

-- `result.setdefault("isError", False)`
abbrev pub default_error : Fields → Fields
default_error result =
    if has_key "isError" result then result else assign "isError" (bool false) result

abbrev pub object_result : Value → Outcome Fields
object_result (dict result) = ok (default_error result)
object_result _ = err (problem not_object_result)

abbrev pub accepted_result : Fields → Outcome Fields
accepted_result payload =
    if is_truthy (get "ok" payload)
    then object_result (get "result" payload)
    else err (problem (invocation_failed (get "error" payload)))

-- The result of a reply.
unfoldable pub read_payload : String → Option ℕ → Value → Outcome Fields
read_payload name refused (dict payload) =
    elim (tool_error (get "ok" payload) (get "error" payload)) [
      | some error ↦ ok (error_result name error)
      | none ↦ raised refused >> accepted_result payload
    ]
read_payload name refused _ = err attribute_error

-- `response.json()` raises: `raise_for_status()` first, and else what was raised
unfoldable pub read_reply : String → Reply → Outcome Fields
unfolding read_payload
read_reply name r = elim r.body [
  | none ↦ raised r.refused >> err json_error
  | some payload ↦ read_payload name r.refused payload
]
