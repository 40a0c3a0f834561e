-- ===== src/Adapters/Openclaw/Executor/Requests.antt =====
-- What `setup` of `OpenClawToolExecutor` in src/agenttrace/adapters/openclaw.py reads of the trace's tool
-- nodes.
use atcr_agent_trace_collect.Prelude.{
  String, str_eq, Bool, true, false, Option, none, some, List, [], ◌∷◌, if◌then◌else◌, ok, err,
  ◌>>=◌,
}
use atcr_agent_trace_collect.Json.{Value, Fields, str}
use atcr_agent_trace_collect.Json.Access.{type_error, item, item_of, iterate, is_text}
use atcr_agent_trace_collect.Adapters.Problems.{Outcome}
use atcr_agent_trace_collect.Adapters.Openclaw.Delay.{Delay, dictionary, recorded_search_delay}
use atcr_agent_trace_collect.Adapters.Openclaw.Executor.{Delays}

-- `node["id"]`
abbrev pub node_id : Fields → Outcome Value
node_id node = item "id" node

-- `[node for node in trace["nodes"] if node["type"] == "tool"]`
unfoldable pub tool_nodes : List Value → Outcome (List Fields)
tool_nodes [] = ok []
tool_nodes (value ∷ rest) = do
  node ← dictionary value
  type ← item "type" node
  more ← tool_nodes rest
  ok (if is_text "tool" type then node ∷ more else more)

unfoldable pub nodes_of_tools : Fields → Outcome (List Fields)
unfolding tool_nodes
nodes_of_tools trace = do nodes ← item "nodes" trace; values ← iterate nodes; tool_nodes values

-- `node["request"]["name"] == "web_search"`
unfoldable pub is_search : Fields → Outcome Bool
is_search node = do
  request ← item "request" node
  name ← item_of "name" request
  ok (is_text "web_search" name)

-- `any(...)`: the nodes behind a search are not read.
unfoldable pub any_search : List Fields → Outcome Bool
unfolding is_search
any_search [] = ok false
any_search (node ∷ rest) = do
  let later = any_search rest
  found ← is_search node
  if found then ok true else later

unfoldable pub find_delay_of : String → Delays → Option Delay
find_delay_of id [] = none
find_delay_of id ((key, d) ∷ rest) = if str_eq id key then some d else find_delay_of id rest

-- `delays[id] = d`
unfoldable pub assign_delay : String → Delay → Delays → Delays
assign_delay id d [] = (id, d) ∷ []
assign_delay id d ((key, old) ∷ rest) =
    if str_eq id key then (id, d) ∷ rest else (key, old) ∷ assign_delay id d rest

-- The identifier of a node: the model refuses one that is no text, as `validate_trace` does.
abbrev pub text_key : Value → Outcome String
text_key (str id) = ok id
text_key _ = err type_error

module _ (loads : String → Option Value) where
  unfoldable pub add_delay : Fields → Delays → Outcome Delays
  unfolding assign_delay
  add_delay node delays = do
    id ← node_id node
    d ← recorded_search_delay loads node
    key ← text_key id
    ok (assign_delay key d delays)

  -- The dictionary of the recorded times.
  unfoldable pub read_delays : List Fields → Delays → Outcome Delays
  unfolding add_delay is_search
  read_delays [] delays = ok delays
  read_delays (node ∷ rest) delays = do
    wanted ← is_search node
    more ← if wanted then add_delay node delays else ok delays
    read_delays rest more
