-- ===== src/Schema/Validate/Shape.antt =====
-- The shape of a node for `validate_trace` of src/agenttrace/schema.py, by the entries of its dictionary.
use atcr_agent_trace_collect.Prelude.{ℕ, String, Bool, true, ◌≡◌, ◌≢◌, List, [], ◌∷◌, All}
use atcr_agent_trace_collect.Prelude.Int.{pos}
use atcr_agent_trace_collect.Prelude.Names.{distinct}
use atcr_agent_trace_collect.Json.{Fields, Items, nil, cons, bool, int, str, list, dict, get}
use atcr_agent_trace_collect.Schema.Types.{NodeType, llm, tool, Node}

-- The entry is a text, and not an empty one.
abbrev pub HasText : String → Fields → Type 0
HasText key d = (s : String) × (get key d ≡ str s) × (s ≢ "")

-- An LLM node: a request with an endpoint and a payload, and a recorded number of tokens that is no
-- less than 0.
pub record IsLlm (node : Fields) : Type 0 where
  pub request : Fields
  pub has_request : get "request" node ≡ dict request
  pub has_endpoint : HasText "endpoint" request
  pub payload : Fields
  pub has_payload : get "payload" request ≡ dict payload
  pub tokens : ℕ
  pub has_tokens : get "output_tokens" node ≡ int (pos tokens)

-- A tool node: a request with arguments, and a recorded result of the tool that was requested, with the
-- call's identifier, a content and details.
pub record IsTool (node : Fields) : Type 0 where
  pub request : Fields
  pub has_request : get "request" node ≡ dict request
  pub name : String
  pub has_name : get "name" request ≡ str name
  pub not_empty : name ≢ ""
  pub arguments : Fields
  pub has_arguments : get "arguments" request ≡ dict arguments
  pub result : Fields
  pub has_result : get "recorded_result" node ≡ dict result
  pub has_call : HasText "toolCallId" result
  pub same_name : get "toolName" result ≡ str name
  pub content : Items
  pub has_content : get "content" result ≡ list content
  pub details : Fields
  pub has_details : get "details" result ≡ dict details
  pub failed : Bool
  pub has_failed : get "isError" result ≡ bool failed

abbrev pub HasBody : NodeType → Fields → Type 0
HasBody llm = IsLlm
HasBody tool = IsTool

abbrev pub type_name : NodeType → String
type_name llm = "llm"
type_name tool = "tool"

-- A JSON list of texts.
abbrev pub listed : List String → Items
listed [] = nil
listed (s ∷ l) = cons (str s) (listed l)

-- What is read of a node stands in its dictionary, and the dictionary has a request with a protocol and
-- what a node of its type has.
pub record IsAccepted (n : Node) : Type 0 where
  pub has_id : get "id" n.fields ≡ str n.id
  pub named : n.id ≢ ""
  pub has_type : get "type" n.fields ≡ str (type_name n.type)
  pub has_parents : get "depends_on" n.fields ≡ list (listed n.depends_on)
  pub parents_named : All (λ s. s ≢ "") n.depends_on
  pub parents_distinct : distinct n.depends_on ≡ true
  pub request : Fields
  pub has_request : get "request" n.fields ≡ dict request
  pub has_protocol : HasText "protocol" request
  pub body : HasBody n.type n.fields
