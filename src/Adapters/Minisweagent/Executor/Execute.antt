-- ===== src/Adapters/Minisweagent/Executor/Execute.antt =====
-- `execute` of `MiniSWEAgentToolExecutor` in src/agenttrace/adapters/minisweagent.py. `show` is Python's `str` of a
-- value that is no text.
use atcr_agent_trace_collect.Prelude.{
  ℕ, String, Bool, true, false, not, ◌||◌, List, [], ◌∷◌, ◌++◌, ok, err, if◌then◌else◌,
}
use atcr_agent_trace_collect.Prelude.Actions.{pure, throw, gets, ◌>>=◌, ◌>>◌, only_if}
use atcr_agent_trace_collect.Json.{
  Value, Items, Fields, null, bool, int, float, str, list, dict, nil, cons, end, entry, get, lookup,
  or_default, is_truthy, equals_number,
}
use atcr_agent_trace_collect.Json.Access.{
  type_error, attribute_error, problem, item, item_of, is_text,
}
use atcr_agent_trace_collect.Adapters.Problems.{Outcome, external, not_set_up, unsupported_request}
use atcr_agent_trace_collect.Adapters.Minisweagent.Replace.{replace_string}
use atcr_agent_trace_collect.Adapters.Minisweagent.Results.{text_part, result_content}
use atcr_agent_trace_collect.Adapters.Minisweagent.Executor.{run_arguments, Statement, lift}

-- Whether `_replace_string` calls `str.replace` at all.
unfoldable mutual
  pub has_text : Value → Bool
  has_text (str s) = true
  has_text (list items) = has_text_items items
  has_text (dict fields) = has_text_fields fields
  has_text null = false
  has_text (bool b) = false
  has_text (int n) = false
  has_text (float x) = false

  pub has_text_items : Items → Bool
  has_text_items nil = false
  has_text_items (cons v rest) = has_text v || has_text_items rest

  pub has_text_fields : Fields → Bool
  has_text_fields end = false
  has_text_fields (entry k v rest) = has_text v || has_text_fields rest

-- `_replace_string(value, old, new)` for any `new`: `str.replace` takes a text alone.
abbrev pub replace_by : String → Value → Value → Outcome Value
replace_by old (str new) value = ok (replace_string old new value)
replace_by old new value = if has_text value then err type_error else ok value

-- `_rewrite_arguments`
unfoldable pub rewrite_arguments : Value → Statement Value
unfolding replace_string has_text
rewrite_arguments arguments = do
  workspace ← gets (λ s. s.replay_workspace)
  cwd ← gets (λ s. s.container_cwd)
  tmp ← gets (λ s. s.replay_tmp)
  rewritten ← lift (replace_by workspace cwd arguments)
  pure (replace_string tmp "/tmp" rewritten)

-- What `environment.execute(arguments)` does: it returns an object, it raises `Submitted` with its
-- messages, or it raises something else.
pub data Answer : Type 0 where
  returned : Fields → Answer
  submitted : (messages : List Value) → Answer
  failed : ℕ → Answer

-- `request["protocol"] != ... or request["name"] != "bash"`
unfoldable pub check_request : Value → Statement (Unit {0})
check_request request = do
  protocol ← lift (item_of "protocol" request)
  only_if (not (is_text "minisweagent-singularity" protocol)) (throw (problem unsupported_request))
  name ← lift (item_of "name" request)
  only_if (not (is_text "bash" name)) (throw (problem unsupported_request))

-- `bool(exception_info) or returncode != 0`
abbrev pub is_error_result : (returncode exception : Value) → Bool
is_error_result returncode exception = is_truthy exception || not (equals_number 0 returncode)

abbrev pub execution : (content details : Value) → Bool → Fields
execution content details is_error =
    entry "content" content (entry "details" details (entry "isError" (bool is_error) end))

abbrev pub submitted_details : Value
submitted_details = dict (entry "exit_status" (str "Submitted") end)

module _ (show : Value → String) where
  -- `str(result.get("output", ""))` as a part
  abbrev pub output_content : Fields → Value
  output_content result =
      list (cons (text_part show (or_default (str "") (lookup "output" result))) nil)

  abbrev pub details_of : Fields → Value
  details_of result = dict (
      entry "returncode" (get "returncode" result)
        (entry "exception_info" (or_default (str "") (lookup "exception_info" result)) end))

  abbrev pub returned_result : Fields → Fields
  returned_result result = execution (output_content result) (details_of result) (
      is_error_result (get "returncode" result)
        (or_default (str "") (lookup "exception_info" result)))

  -- `_result_content(messages[0] if messages else {})`
  abbrev pub submitted_content : List Value → Outcome Value
  submitted_content [] = ok (result_content show end)
  submitted_content (dict message ∷ rest) = ok (result_content show message)
  submitted_content (_ ∷ rest) = err attribute_error

  abbrev pub submitted_result : Value → Fields
  submitted_result content = execution content submitted_details false

  -- The `try` statement, and the result of either branch.
  unfoldable pub read_answer : Answer → Statement Fields
  unfolding equals_number get lookup
  read_answer (returned result) = pure (returned_result result)
  read_answer (submitted messages) = do
    content ← lift (submitted_content messages)
    pure (submitted_result content)
  read_answer (failed code) = throw (problem (external code))

  -- `execute(node)`. The environment answers to the arguments.
  unfoldable pub execute : (Value → Answer) → Fields → Statement Fields
  unfolding rewrite_arguments check_request read_answer
  execute answers node = do
    ready ← gets (λ s. s.has_environment)
    only_if (not ready) (throw (problem not_set_up))
    request ← lift (item "request" node)
    check_request request
    given ← lift (item_of "arguments" request)
    arguments ← rewrite_arguments given
    (λ s. (ok tt, record s { deeds = s.deeds ++ run_arguments arguments ∷ [] }))
    read_answer (answers arguments)
