-- ===== src/Schema/Types.antt =====
-- The exceptions of src/agenttrace/schema.py, and what it reads of a node.
use atcr_agent_trace_collect.Prelude.{ℕ, String, List}
use atcr_agent_trace_collect.Json.{Value, Fields}

-- The text that names the offending value in a message, before it is formatted.
pub data Label : Type 0 where
  -- "trace_id", "source.framework"
  named : String → Label
  -- f"artifacts[{index}].id"
  element : String → ℕ → String → Label
  -- f"request.protocol for {node_id}"
  of_node : String → String → Label

pub data Error : Type 0 where
  unsupported_version : Value → Error
  not_object not_string : Label → Error
  artifacts_not_list : Error
  duplicate_artifact : String → Error
  no_nodes : Error
  duplicate_node : String → Error
  invalid_type : String → Value → Error
  bad_depends_on duplicate_dependency : String → Error
  output_tokens_not_integer output_tokens_negative : String → Error
  tool_name_mismatch content_not_list is_error_not_boolean : String → Error
  unknown_dependency : (parent node : String) → Error
  dependency_cycle : Error
  -- TypeError: a list or a dictionary is looked up in a set
  unhashable : Error
  -- KeyError
  missing_key : String → Error
  -- the model's own: the recursion of `visit` had too little fuel
  out_of_fuel : Error

pub data NodeType : Type 0 where
  llm tool : NodeType

-- A node of `by_id`, read: what later code takes from the dictionary, and the dictionary.
pub record Node : Type 0 where
  pub id : String
  pub type : NodeType
  pub depends_on : List String
  pub fields : Fields
