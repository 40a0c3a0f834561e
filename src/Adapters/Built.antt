-- ===== src/Adapters/Built.antt =====
-- The nodes that src/agenttrace/adapters/ builds, as the dictionaries of its `nodes.append`.
pub mod Growth
pub mod Steps
pub mod Graph
pub mod Accepted
pub mod Validated
use atcr_agent_trace_collect.Prelude.{ℕ, String, Bool, Option, none, some, List, [], ◌∷◌}
use atcr_agent_trace_collect.Prelude.Texts.{numbered_name}
use atcr_agent_trace_collect.Json.{
  Value, Items, Fields, bool, str, list, dict, nil, cons, end, entry,
}

-- An entry of `tool_results`, under its "toolCallId".
pub record ToolResult : Type 0 where
  pub tool_call_id : String
  pub tool_name : String
  pub content : Value
  pub details : Value
  pub is_error : Bool

abbrev pub result_fields : ToolResult → Fields
result_fields r = entry "toolCallId" (str r.tool_call_id) (
    entry "toolName" (str r.tool_name) (
      entry "content" r.content
        (entry "details" r.details (entry "isError" (bool r.is_error) end))))

-- A node of the trace: what the two dictionaries of `nodes.append` hold.
pub data Built : Type 0 where
  llm_node :
      (id : String) (depends_on : List String) (protocol endpoint payload : Value)
      (output_tokens : Value)
      → Built
  tool_node : (id parent protocol name : String) (arguments : Value) (result : ToolResult) → Built

abbrev pub id_of : Built → String
id_of (llm_node id _ _ _ _ _) = id
id_of (tool_node id _ _ _ _ _) = id

abbrev pub names_of : List String → Items
names_of [] = nil
names_of (name ∷ rest) = cons (str name) (names_of rest)

abbrev pub node_fields : Built → Fields
node_fields (llm_node id depends_on protocol endpoint payload output_tokens) = entry "id" (str id) (
    entry "type" (str "llm") (
      entry "depends_on" (list (names_of depends_on)) (
        entry "request"
          (dict
            (entry "protocol" protocol (entry "endpoint" endpoint (entry "payload" payload end))))
          (entry "output_tokens" output_tokens end))))
node_fields (tool_node id parent protocol name arguments result) = entry "id" (str id) (
    entry "type" (str "tool") (
      entry "depends_on" (list (cons (str parent) nil)) (
        entry "request"
          (dict (
            entry "protocol" (str protocol)
              (entry "name" (str name) (entry "arguments" arguments end))))
          (entry "recorded_result" (dict (result_fields result)) end))))

abbrev pub llm_name : ℕ → String
llm_name n = numbered_name "llm-" n

abbrev pub tool_name_of : ℕ → String
tool_name_of n = numbered_name "tool-" n

-- `pending_tools or ([previous_llm] if previous_llm else [])`
abbrev pub dependencies_of : List String → Option String → List String
dependencies_of [] none = []
dependencies_of [] (some llm) = llm ∷ []
dependencies_of (tool ∷ rest) _ = tool ∷ rest

abbrev pub nodes_of : List Built → Items
nodes_of [] = nil
nodes_of (node ∷ rest) = cons (dict (node_fields node)) (nodes_of rest)
