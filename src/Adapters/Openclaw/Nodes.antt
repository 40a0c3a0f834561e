-- ===== src/Adapters/Openclaw/Nodes.antt =====
-- The tool results and the nodes of `build_openclaw_trace` in src/agenttrace/adapters/openclaw.py.
-- `show` is Python's `str` of a value that is not a text.
pub mod Turns
use atcr_agent_trace_collect.Prelude.{
  ℕ, zero, suc, ◌+◌, ◌==◌, String, str_eq, Bool, true, false, not, ◌&&◌, Option, none, some, List,
  [], ◌∷◌, ◌++◌, if◌then◌else◌, Result, ok, err, ◌>>=◌, ◌>>◌,
}
use atcr_agent_trace_collect.Prelude.Int.{ℤ}
use atcr_agent_trace_collect.Prelude.Names.{contains}
use atcr_agent_trace_collect.Prelude.Texts.{numbered_name}
use atcr_agent_trace_collect.Json.{
  Value, Items, Fields, bool, int, str, list, dict, nil, cons, end, entry, lookup, get, integer,
  is_truthy, or_else, or_default,
}
use atcr_agent_trace_collect.Json.Access.{
  Exception, problem, get_from, object_from, item, iterate, is_text,
}
use atcr_agent_trace_collect.Adapters.Built.{
  ToolResult, result_fields, Built, llm_node, tool_node, id_of, names_of, node_fields, llm_name,
  tool_name_of, dependencies_of,
}
use atcr_agent_trace_collect.Adapters.Problems.{
  Problem, bad_result_id, missing_result, missing_output_tokens, name_mismatch, unpaired_results,
  Outcome,
}

abbrev pub result_ids : List ToolResult → List String
result_ids [] = []
result_ids (r ∷ rest) = r.tool_call_id ∷ result_ids rest

unfoldable pub find_result : String → List ToolResult → Option ToolResult
find_result id [] = none
find_result id (r ∷ rest) = if str_eq id r.tool_call_id then some r else find_result id rest

-- The variables of the loop over the assistant's messages.
pub record State : Type 0 where
  pub nodes : List Built
  pub previous_llm : Option String
  pub pending_tools : List String
  pub used_results : List String
  pub tool_index : ℕ

abbrev pub initial : State
initial = record {
  nodes = [];
  previous_llm = none;
  pending_tools = [];
  used_results = [];
  tool_index = 0;
}

-- The node of a tool call.
abbrev pub add_tool : String → Value → ToolResult → State → State
add_tool llm_id arguments r s =
    let tool_id = tool_name_of (s.tool_index + 1) in
    record {
      nodes =
          s.nodes ++ tool_node tool_id llm_id "openclaw-tools-invoke" r.tool_name arguments r ∷ [];
      previous_llm = s.previous_llm;
      pending_tools = s.pending_tools ++ tool_id ∷ [];
      used_results = r.tool_call_id ∷ s.used_results;
      tool_index = s.tool_index + 1;
    }

-- `isinstance(tool_call_id, str) and tool_call_id in tool_results`
abbrev pub result_of : Value → List ToolResult → Option ToolResult
result_of (str id) results = find_result id results
result_of value results = none

module _ (show : Value → String) where
  -- `str(value)`
  abbrev pub text_of : Value → String
  text_of (str s) = s
  text_of value = show value

  -- `isinstance(tool_call_id, str)` and the result's fields
  abbrev pub read_result : Value → Value → List ToolResult → Outcome (List ToolResult)
  read_result (str id) (dict message) results =
      if contains id (result_ids results)
      then err (problem (bad_result_id (str id)))
      else ok (
          results
          ++ record {
            tool_call_id = id;
            tool_name = text_of (or_else (get "toolName" message) (str "unknown"));
            content = or_else (get "content" message) (list nil);
            details = or_else (get "details" message) (dict end);
            is_error = is_truthy (or_default (bool false) (lookup "isError" message));
          }
            ∷ [])
  read_result value message results = err (problem (bad_result_id value))

  -- The loop over the events.
  unfoldable pub read_results : List Value → List ToolResult → Outcome (List ToolResult)
  read_results [] results = ok results
  read_results (event ∷ rest) results = do
    message ← object_from "message" event
    role ← get_from "role" message
    id ← get_from "toolCallId" message
    more ← if is_text "toolResult" role then read_result id message results else ok results
    read_results rest more

  -- A tool call: its recorded result, with the same name.
  abbrev pub call_tool : String → Fields → Value → Option ToolResult → State → Outcome State
  call_tool llm_id part id none s = err (problem (missing_result id))
  call_tool llm_id part id (some r) s =
      if str_eq r.tool_name (text_of (or_else (get "name" part) (str "unknown")))
      then ok (add_tool llm_id (or_else (get "arguments" part) (dict end)) r s)
      else err (problem (name_mismatch r.tool_call_id))

  -- One part of the content.
  unfoldable pub read_part : List ToolResult → String → Value → State → Outcome State
  unfolding find_result
  read_part results llm_id (dict part) s =
      if is_text "toolCall" (get "type" part)
      then call_tool llm_id part (get "id" part) (result_of (get "id" part) results) s
      else ok s
  read_part results llm_id _ s = ok s

  unfoldable pub read_parts : List ToolResult → String → List Value → State → Outcome State
  unfolding read_part
  read_parts results llm_id [] s = ok s
  read_parts results llm_id (part ∷ rest) s = do
    s' ← read_part results llm_id part s
    read_parts results llm_id rest s'

  -- `if not isinstance(output_tokens, int): raise ...`, whose text reads `call["call_id"]`
  unfoldable pub tokens_of : Fields → Outcome Value
  tokens_of call = elim (integer (get "output_tokens" call)) [
    | some _ ↦ ok (get "output_tokens" call)
    | none ↦ (do id ← item "call_id" call; err (problem (missing_output_tokens id)))
  ]

  -- One round: the LLM node, and its tool nodes.
  unfoldable pub add_turn : List ToolResult → ℕ → Value → Fields → State → Outcome State
  unfolding read_parts tokens_of
  add_turn results llm_index assistant call s = do
    tokens ← tokens_of call
    let llm_id = llm_name llm_index
    protocol ← item "protocol" call
    endpoint ← item "endpoint" call
    payload ← item "request" call
    let depends_on = dependencies_of s.pending_tools s.previous_llm
    let node = llm_node llm_id depends_on protocol endpoint payload tokens
    message ← object_from "message" assistant
    content ← get_from "content" message
    parts ← iterate (or_else content (list nil))
    s' ←
        read_parts results llm_id parts
          (record s { nodes = s.nodes ++ node ∷ []; pending_tools = [] })
    ok (record s' { previous_llm = some llm_id })

  -- `zip(assistants, calls, strict=True)`, whose lengths agree
  unfoldable pub add_turns : List ToolResult → ℕ → List Value → List Fields → State → Outcome State
  unfolding add_turn
  add_turns results llm_index (assistant ∷ rest) (call ∷ calls) s = do
    s' ← add_turn results llm_index assistant call s
    add_turns results (suc llm_index) rest calls s'
  add_turns results llm_index _ _ s = ok s

-- `used_results != set(tool_results)`: only results that are there are used.
abbrev pub all_used : List ToolResult → List String → Bool
all_used [] used = true
all_used (r ∷ rest) used = contains r.tool_call_id used && all_used rest used
