-- ===== src/Schema/Nodes.antt =====
-- The loop over the nodes in `validate_trace` of src/agenttrace/schema.py.
use atcr_agent_trace_collect.Prelude.{
  ℕ, ◌+◌, String, str_eq, Bool, true, false, not, Option, none, some, List, [], ◌∷◌, ◌++◌, map,
  if◌then◌else◌, Result, ok, err, ◌>>=◌, ◌>>◌, require,
}
use atcr_agent_trace_collect.Prelude.Int.{is_negative}
use atcr_agent_trace_collect.Prelude.Names.{contains, distinct}
use atcr_agent_trace_collect.Json.{
  Value, Fields, Items, nil, cons, bool, int, str, list, get, elements, is_hashable,
}
use atcr_agent_trace_collect.Schema.Types.{
  element, of_node, Error, no_nodes, duplicate_node, invalid_type, bad_depends_on,
  duplicate_dependency, output_tokens_not_integer, output_tokens_negative, tool_name_mismatch,
  content_not_list, is_error_not_boolean, unhashable, NodeType, llm, tool, Node,
}
use atcr_agent_trace_collect.Schema.Fields.{object, string}

-- `node_type not in {"llm", "tool"}`: the test hashes the value first.
unfoldable pub node_type : String → Value → Result Error NodeType
node_type node_id (str s) =
    if str_eq s "llm"
    then ok llm
    else if str_eq s "tool"
    then ok tool
    else err (invalid_type node_id (str s))
node_type node_id value =
    if is_hashable value then err (invalid_type node_id value) else err unhashable

-- `all(isinstance(parent, str) and parent for parent in dependencies)`, with the texts.
unfoldable pub texts : Items → Option (List String)
texts nil = some []
texts (cons (str s) rest) = elim (texts rest) [
  | none ↦ none
  | some l ↦ if str_eq s "" then none else some (s ∷ l)
]
texts (cons _ rest) = none

unfoldable pub dependency_list : String → Value → Result Error (List String)
unfolding texts
dependency_list node_id (list items) = elim (texts items) [
  | none ↦ err (bad_depends_on node_id)
  | some parents ↦ if distinct parents then ok parents else err (duplicate_dependency node_id)
]
dependency_list node_id _ = err (bad_depends_on node_id)

-- `isinstance(output_tokens, int)` and not a `bool`, then its sign
unfoldable pub check_output_tokens : String → Value → Result Error (Unit {0})
check_output_tokens node_id (int n) =
    if is_negative n then err (output_tokens_negative node_id) else ok tt
check_output_tokens node_id _ = err (output_tokens_not_integer node_id)

unfoldable pub check_llm : String → Fields → Fields → Result Error (Unit {0})
unfolding check_output_tokens
check_llm node_id node request = do
  string (get "endpoint" request) (of_node "request.endpoint" node_id)
  object (get "payload" request) (of_node "request.payload" node_id)
  check_output_tokens node_id (get "output_tokens" node)

abbrev pub is_list : Value → Bool
is_list (list _) = true
is_list _ = false

abbrev pub is_bool : Value → Bool
is_bool (bool _) = true
is_bool _ = false

unfoldable pub check_tool : String → Fields → Fields → Result Error (Unit {0})
check_tool node_id node request = do
  name ← string (get "name" request) (of_node "request.name" node_id)
  object (get "arguments" request) (of_node "request.arguments" node_id)
  result ← object (get "recorded_result" node) (of_node "recorded_result" node_id)
  string (get "toolCallId" result) (of_node "recorded_result.toolCallId" node_id)
  tool_name ← string (get "toolName" result) (of_node "recorded_result.toolName" node_id)
  require (str_eq tool_name name) (tool_name_mismatch node_id)
  require (is_list (get "content" result)) (content_not_list node_id)
  object (get "details" result) (of_node "recorded_result.details" node_id)
  require (is_bool (get "isError" result)) (is_error_not_boolean node_id)

unfoldable pub check_body : NodeType → String → Fields → Fields → Result Error (Unit {0})
unfolding check_llm check_tool
check_body llm = check_llm
check_body tool = check_tool

-- One round of the loop; `seen` holds the keys of `by_id`.
unfoldable pub check_node : ℕ → List String → Value → Result Error Node
unfolding node_type dependency_list check_body
check_node index seen value = do
  node ← object value (element "nodes" index "")
  node_id ← string (get "id" node) (element "nodes" index "id")
  require (not (contains node_id seen)) (duplicate_node node_id)
  type ← node_type node_id (get "type" node)
  dependencies ← dependency_list node_id (get "depends_on" node)
  request ← object (get "request" node) (of_node "request" node_id)
  string (get "protocol" request) (of_node "request.protocol" node_id)
  check_body type node_id node request
  ok (record { id = node_id; type = type; depends_on = dependencies; fields = node })

abbrev pub ids : List Node → List String
ids nodes = map (λ n. n.id) nodes

-- The loop: `by_id`, its nodes in the order of their insertion.
unfoldable pub check_nodes : ℕ → List Node → List Value → Result Error (List Node)
check_nodes index by_id [] = ok by_id
check_nodes index by_id (value ∷ rest) = do
  node ← check_node index (ids by_id) value
  check_nodes (index + 1) (by_id ++ node ∷ []) rest

-- `isinstance(nodes, list)` and not empty
abbrev pub node_list : Value → Result Error (List Value)
node_list (list (cons x xs)) = ok (elements (cons x xs))
node_list _ = err no_nodes
