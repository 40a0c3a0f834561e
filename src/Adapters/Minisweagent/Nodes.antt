-- ===== src/Adapters/Minisweagent/Nodes.antt =====
-- The nodes of `build_minisweagent_trace` in src/agenttrace/adapters/minisweagent.py.
pub mod Chains
use atcr_agent_trace_collect.Prelude.{
  ℕ, suc, ◌+◌, ltb, String, str_eq, Bool, true, false, ◌&&◌, Option, none, some, List, [], ◌∷◌,
  ◌++◌, if◌then◌else◌, ok, err, ◌>>=◌,
}
use atcr_agent_trace_collect.Json.{
  Value, Fields, str, list, dict, nil, end, entry, get, or_else, elements,
}
use atcr_agent_trace_collect.Json.Access.{problem, item, object_from, get_from, is_text}
use atcr_agent_trace_collect.Adapters.Problems.{Outcome, bad_actions, bad_action, bad_command}
use atcr_agent_trace_collect.Adapters.Built.{
  ToolResult, Built, llm_node, tool_node, llm_name, tool_name_of, dependencies_of,
}
use atcr_agent_trace_collect.Adapters.Openclaw.Nodes.{tokens_of}
use atcr_agent_trace_collect.Adapters.Minisweagent.Calls.{Indexed}
use atcr_agent_trace_collect.Adapters.Minisweagent.Results.{recorded_result}

-- `tool_results.get(call_id)`: of the messages with this id, the last one.
abbrev pub answers : String → Fields → Bool
answers call_id message =
    is_text "tool" (get "role" message) && is_text call_id (get "tool_call_id" message)

unfoldable pub find_result : String → List Value → Option Fields
find_result call_id [] = none
find_result call_id (dict message ∷ rest) = elim (find_result call_id rest) [
  | some later ↦ some later
  | none ↦ if answers call_id message then some message else none
]
find_result call_id (_ ∷ rest) = find_result call_id rest

-- `exit_messages`
unfoldable pub exit_messages : ℕ → List Value → List Indexed
exit_messages index [] = []
exit_messages index (dict message ∷ rest) =
    let later = exit_messages (suc index) rest in
    if is_text "exit" (get "role" message) then (index, message) ∷ later else later
exit_messages index (_ ∷ rest) = exit_messages (suc index) rest

-- `next((candidate for index, candidate in exit_messages if index > message_index), None)`
unfoldable pub next_exit : ℕ → List Indexed → Option Fields
next_exit message_index [] = none
next_exit message_index ((index, candidate) ∷ rest) =
    let later = next_exit message_index rest in
    if ltb message_index index then some candidate else later

abbrev pub or_exit : Option Fields → Option Fields → Option Fields
or_exit (some message) exit = some message
or_exit none exit = exit

-- The variables of the loop over the responses; `prior_node` is that of the turn.
pub record State : Type 0 where
  pub nodes : List Built
  pub previous_llm : Option String
  pub pending_tools : List String
  pub tool_index : ℕ
  pub prior_node : String

abbrev pub initial : State
initial = record {
  nodes = [];
  previous_llm = none;
  pending_tools = [];
  tool_index = 0;
  prior_node = "";
}

abbrev pub protocol_name : String
protocol_name = "minisweagent-singularity"

-- The node of an action.
abbrev pub add_action : String → ToolResult → State → State
add_action command r s =
    let tool_id = tool_name_of (s.tool_index + 1) in
    record {
      nodes =
          s.nodes
          ++ tool_node tool_id s.prior_node protocol_name "bash"
              (dict (entry "command" (str command) end)) r
            ∷ [];
      previous_llm = s.previous_llm;
      pending_tools = tool_id ∷ [];
      tool_index = s.tool_index + 1;
      prior_node = tool_id;
    }

-- `actions`, which must be a list.
abbrev pub action_list : String → Value → Outcome (List Value)
action_list llm_id (list items) = ok (elements items)
action_list llm_id _ = err (problem (bad_actions llm_id))

-- The trajectory: its messages, and among them those of the exit.
module _ (show : Value → String) (messages : List Value) (exits : List Indexed) where
  abbrev pub run_action : String → ℕ → Value → Value → State → Outcome State
  run_action llm_id message_index (str call_id) (str command) s = do
    r ←
        recorded_result show call_id
          (or_exit (find_result call_id messages) (next_exit message_index exits))
    ok (add_action command r s)
  run_action llm_id message_index call_id command s = err (problem (bad_command llm_id))

  unfoldable pub read_action : String → ℕ → Value → State → Outcome State
  unfolding find_result next_exit
  read_action llm_id message_index (dict action) s =
      run_action llm_id message_index (get "tool_call_id" action) (get "command" action) s
  read_action llm_id message_index _ s = err (problem (bad_action llm_id))

  unfoldable pub read_actions : String → ℕ → List Value → State → Outcome State
  unfolding read_action
  read_actions llm_id message_index [] s = ok s
  read_actions llm_id message_index (action ∷ rest) s = do
    s' ← read_action llm_id message_index action s
    read_actions llm_id message_index rest s'

  -- One round: the LLM node, and the chain of its tool nodes.
  unfoldable pub add_turn : ℕ → Indexed → Fields → State → Outcome State
  unfolding read_actions
  add_turn llm_index (message_index, message) call s = do
    tokens ← tokens_of show call
    let llm_id = llm_name llm_index
    protocol ← item "protocol" call
    endpoint ← item "endpoint" call
    payload ← item "request" call
    let depends_on = dependencies_of s.pending_tools s.previous_llm
    let node = llm_node llm_id depends_on protocol endpoint payload tokens
    extra ← object_from "extra" (dict message)
    value ← get_from "actions" extra
    actions ← action_list llm_id (or_else value (list nil))
    s' ←
        read_actions llm_id message_index actions
          (record s { nodes = s.nodes ++ node ∷ []; pending_tools = []; prior_node = llm_id })
    ok (record s' { previous_llm = some llm_id })

  -- `zip(response_events, ordered_calls, strict=True)`, whose lengths agree
  unfoldable pub add_turns : ℕ → List Indexed → List Fields → State → Outcome State
  unfolding add_turn
  add_turns llm_index (event ∷ rest) (call ∷ calls) s = do
    s' ← add_turn llm_index event call s
    add_turns (suc llm_index) rest calls s'
  add_turns llm_index _ _ s = ok s
