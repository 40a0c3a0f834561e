-- ===== src/Schema/Validate.antt =====
-- `validate_trace` of src/agenttrace/schema.py. The function returns nothing; the model returns
-- `by_id`, the nodes that its callers read from the same trace.
pub mod Shape
pub mod Accepted
pub mod Kept
pub mod Structure
pub mod Raises
pub mod Errors
use atcr_agent_trace_collect.Prelude.{ℕ, List, [], Result, ok, ◌>>=◌, ◌>>◌}
use atcr_agent_trace_collect.Json.{Fields, get}
use atcr_agent_trace_collect.Schema.Types.{Error, Node}
use atcr_agent_trace_collect.Schema.Fields.{check_header}
use atcr_agent_trace_collect.Schema.Nodes.{ids, node_list, check_nodes}
use atcr_agent_trace_collect.Schema.Graph.{check_dependencies, search_nodes}

-- From the list of nodes on.
unfoldable pub check_graph : List Node → Result Error (List Node)
check_graph by_id = do check_dependencies (ids by_id) by_id; search_nodes by_id; ok by_id

unfoldable pub validate_trace : Fields → Result Error (List Node)
validate_trace trace = do
  check_header trace
  nodes ← node_list (get "nodes" trace)
  by_id ← check_nodes 0 [] nodes
  check_graph by_id
