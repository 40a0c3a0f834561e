-- ===== src/Adapters/Minisweagent/Results.antt =====
-- `_result_content` and `_recorded_result` of src/agenttrace/adapters/minisweagent.py. `show` is Python's `str`
-- of a value that is no text.
use atcr_agent_trace_collect.Prelude.{
  ◌==◌, String, str_eq, Bool, true, false, not, ◌||◌, Option, none, some, if◌then◌else◌, ok, ◌>>=◌,
}
use atcr_agent_trace_collect.Prelude.Int.{ℤ, pos, negsuc}
use atcr_agent_trace_collect.Json.{
  Value, Fields, null, bool, str, list, dict, nil, cons, end, entry, lookup, or_default, integer,
  is_truthy,
}
use atcr_agent_trace_collect.Json.Access.{get_from, object_from, is_text}
use atcr_agent_trace_collect.Adapters.Problems.{Outcome}
use atcr_agent_trace_collect.Adapters.Built.{ToolResult}
use atcr_agent_trace_collect.Adapters.Openclaw.Nodes.{text_of}

abbrev is_nonzero : ℤ → Bool
is_nonzero (pos n) = not (n == 0)
is_nonzero (negsuc n) = true

-- `isinstance(returncode, int) and returncode != 0`
abbrev pub is_failure : Value → Bool
is_failure value = elim (integer value) [ none ↦ false | some z ↦ is_nonzero z ]

-- `value not in (None, "")`
abbrev pub is_detail : Value → Bool
is_detail null = false
is_detail (str s) = not (str_eq s "")
is_detail _ = true

abbrev pub with_detail : String → Value → Fields → Fields
with_detail key value rest = if is_detail value then entry key value rest else rest

-- The details of a result.
abbrev pub result_details : (returncode exception exit_status : Value) → Fields
result_details returncode exception exit_status =
    with_detail "returncode" returncode
      (with_detail "exception_info" exception (with_detail "exit_status" exit_status end))

abbrev pub result_is_error : (returncode exception exit_status : Value) → Bool
result_is_error returncode exception exit_status =
    if is_text "Submitted" exit_status then false else is_truthy exception || is_failure returncode

module _ (show : Value → String) where
  abbrev pub text_part : Value → Value
  text_part value = dict (entry "type" (str "text") (entry "text" (str (text_of show value)) end))

  abbrev pub content_of : Value → Value
  content_of (list items) = list items
  content_of value = list (cons (text_part value) nil)

  -- `_result_content`
  abbrev pub result_content : Fields → Value
  result_content message = content_of (or_default (str "") (lookup "content" message))

  unfoldable pub recorded_result : String → Option Fields → Outcome ToolResult
  unfolding lookup
  recorded_result call_id none = ok (record {
    tool_call_id = call_id;
    tool_name = "bash";
    content = list nil;
    details = dict (entry "missing_result" (bool true) end);
    is_error = true;
  })
  recorded_result call_id (some message) = do
    extra ← object_from "extra" (dict message)
    returncode ← get_from "returncode" extra
    exception ← get_from "exception_info" extra
    exit_status ← get_from "exit_status" extra
    ok (record {
      tool_call_id = call_id;
      tool_name = "bash";
      content = result_content message;
      details = dict (result_details returncode exception exit_status);
      is_error = result_is_error returncode exception exit_status;
    })
