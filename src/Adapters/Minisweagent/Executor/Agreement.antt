-- ===== src/Adapters/Minisweagent/Executor/Agreement.antt =====
-- `_recorded_result` and `execute` of src/agenttrace/adapters/minisweagent.py on the same outcome of a command.
use atcr_agent_trace_collect.Prelude.{
  String, true, false, not, some, List, ◌∷◌, ◌≡◌, refl, ok, ◌>>=◌,
}
use atcr_agent_trace_collect.Prelude.Int.{ℤ, pos, negsuc}
use atcr_agent_trace_collect.Json.{
  Value, Fields, bool, int, str, dict, end, entry, get, lookup, or_default, or_else, integer,
  equals_number,
}
use atcr_agent_trace_collect.Json.Access.{get_from, object_from, is_text}
use atcr_agent_trace_collect.Adapters.Built.{ToolResult}
use atcr_agent_trace_collect.Adapters.Minisweagent.Results.{
  is_failure, result_content, result_is_error, result_details, recorded_result,
}
use atcr_agent_trace_collect.Adapters.Minisweagent.Executor.{ToolExecutor}
use atcr_agent_trace_collect.Adapters.Minisweagent.Executor.Execute.{
  returned, submitted, execution, details_of, submitted_details, read_answer,
}

failure_lem : (v : Value) (z : ℤ) → integer v ≡ some z → is_failure v ≡ not (equals_number 0 v)
unfolding equals_number
failure_lem (bool true) z h = refl
failure_lem (bool false) z h = refl
failure_lem (int (pos n)) z h = refl
failure_lem (int (negsuc n)) z h = refl
failure_lem v z h = absurd (cc h)

or_else-dict : (extra : Fields) → or_else (dict extra) (dict end) ≡ dict extra
or_else-dict end = refl
or_else-dict (entry k v rest) = refl

-- The fields of the `extra` of a message.
pub record Extra (message : Fields) (returncode exception exit_status : Value) : Type 0 where
  pub extra : Fields
  pub held : get "extra" message ≡ dict extra
  pub code : get "returncode" extra ≡ returncode
  pub info : get "exception_info" extra ≡ exception
  pub status : get "exit_status" extra ≡ exit_status

module _ (show : Value → String) (call_id : String) (message : Fields) where
  -- The result that is recorded of a message.
  abbrev of_message : (returncode exception exit_status : Value) → ToolResult
  of_message returncode exception exit_status = record {
    tool_call_id = call_id;
    tool_name = "bash";
    content = result_content show message;
    details = dict (result_details returncode exception exit_status);
    is_error = result_is_error returncode exception exit_status;
  }

  recorded_lem :
      (returncode exception exit_status : Value)
      → Extra message returncode exception exit_status
      → recorded_result show call_id (some message)
        ≡ ok (of_message returncode exception exit_status)
  unfolding recorded_result object_from get_from ◌>>=◌
  recorded_lem returncode exception exit_status e =
      rw (e.held, or_else-dict e.extra, e.code, e.info, e.status) refl

-- What `environment.execute` returns, and a tool message with the same output, exception and return code.
pub record SameOutcome (message result : Fields) (output : String) : Type 0 where
  pub content_held : lookup "content" message ≡ some (str output)
  pub output_held : lookup "output" result ≡ some (str output)
  pub exit_status : Value
  pub not_submitted : is_text "Submitted" exit_status ≡ false
  pub recorded :
      Extra message
        (get "returncode" result)
        (or_default (str "") (lookup "exception_info" result))
        exit_status

-- Over the same outcome of a command, whose return code is an integer, the recorded result and the
-- replay's result have the same content and agree on `isError`.
pub recorded_result-read_answer :
    (show : Value → String) (call_id : String) (message result : Fields) (output : String) (z : ℤ)
    (s : ToolExecutor)
    → SameOutcome message result output
    → integer (get "returncode" result) ≡ some z
    → (r : ToolResult) × (recorded_result show call_id (some message) ≡ ok r)
      × (read_answer show (returned result) s
          ≡ (ok (execution r.content (details_of show result) r.is_error), s))
unfolding read_answer
recorded_result-read_answer show call_id message result output z s o i =
    let code = get "returncode" result in
    let info = or_default (str "") (lookup "exception_info" result) in
    (
      of_message show call_id message code info o.exit_status,
      recorded_lem show call_id message code info o.exit_status o.recorded,
      rw (o.content_held, o.output_held, o.not_submitted, failure_lem code z i) refl,
    )

-- Where the environment raises `Submitted` with the message, the replay's content is the recorded one,
-- and neither result is an error.
pub submitted_lem :
    (show : Value → String) (call_id : String) (message : Fields) (more : List Value)
    (code info : Value) (s : ToolExecutor)
    → Extra message code info (str "Submitted")
    → (r : ToolResult) × (recorded_result show call_id (some message) ≡ ok r)
      × (read_answer show (submitted (dict message ∷ more)) s
          ≡ (ok (execution r.content submitted_details r.is_error), s))
unfolding read_answer
submitted_lem show call_id message more code info s e = (
  of_message show call_id message code info (str "Submitted"),
  recorded_lem show call_id message code info (str "Submitted") e,
  refl,
)
