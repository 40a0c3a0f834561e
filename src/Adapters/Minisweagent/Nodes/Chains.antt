-- ===== src/Adapters/Minisweagent/Nodes/Chains.antt =====
-- The loop of `build_minisweagent_trace` in src/agenttrace/adapters/minisweagent.py: every round keeps the graph
-- growing, by a chain of tool nodes.
use atcr_agent_trace_collect.Prelude.{
  ℕ, suc, ◌+◌, String, true, List, [], ◌∷◌, ◌++◌, ◌≡◌, subst, ok, >>=-eq-ok,
}
use atcr_agent_trace_collect.Prelude.Names.{contains}
use atcr_agent_trace_collect.Json.{Value, Fields, str, dict, get, end, entry}
use atcr_agent_trace_collect.Adapters.Problems.{Outcome}
use atcr_agent_trace_collect.Adapters.Built.{
  ToolResult, llm_node, tool_node, llm_name, tool_name_of, dependencies_of,
}
use atcr_agent_trace_collect.Adapters.Built.Growth.{built_ids, Grows}
use atcr_agent_trace_collect.Adapters.Built.Steps.{
  Sound, Pending, IsKnown, add_tool_node-Sound, add_llm_node-Sound, Pending-one, Pending-none,
  Sound-nil, contains-kept, contains-new,
}
use atcr_agent_trace_collect.Adapters.Minisweagent.Calls.{Indexed}
use atcr_agent_trace_collect.Adapters.Minisweagent.Nodes.{
  State, initial, protocol_name, add_action, run_action, read_action, read_actions, add_turn,
  add_turns,
}

ok-eq : {A : Type 0} {a b : A} → ◌≡◌ {A = Outcome A} (ok a) (ok b) → a ≡ b
ok-eq h = cc

-- In the turn of an LLM node: the graph grows, and the node and the end of the chain are there.
record InTurn (n : ℕ) (s : State) : Type 0 where
  sound : Sound (suc n) s.tool_index s.nodes
  pending : Pending s.pending_tools s.nodes
  here : contains (llm_name n) (built_ids s.nodes) ≡ true
  prior : contains s.prior_node (built_ids s.nodes) ≡ true

add_action-InTurn :
    (n : ℕ) (command : String) (r : ToolResult) (s : State)
    → InTurn n s
    → InTurn n (add_action command r s)
add_action-InTurn n command r s h =
    let arguments = dict (entry "command" (str command) end) in
    let node =
      tool_node (tool_name_of (s.tool_index + 1)) s.prior_node protocol_name "bash" arguments r in
    let new = contains-new s.nodes node in
    record {
      sound =
          add_tool_node-Sound (suc n) s.tool_index s.nodes s.prior_node protocol_name "bash"
            arguments r h.sound h.prior;
      pending = Pending-one (tool_name_of (s.tool_index + 1)) (s.nodes ++ node ∷ []) new;
      here = contains-kept (llm_name n) s.nodes node h.here;
      prior = new;
    }

module _ (show : Value → String) (messages : List Value) (exits : List Indexed) (n index : ℕ) where
  run_action-InTurn :
      (call_id command : Value) (s t : State)
      → InTurn n s
      → run_action show messages exits (llm_name n) index call_id command s ≡ ok t
      → InTurn n t
  run_action-InTurn (str call_id) (str command) s t i h =
      let (r, _, h1) = >>=-eq-ok _ _ h in
      subst (InTurn n) (ok-eq h1) (add_action-InTurn n command r s i)
  run_action-InTurn call_id command s t i h = absurd (cc h)

  read_action-InTurn :
      (action : Value) (s t : State)
      → InTurn n s
      → read_action show messages exits (llm_name n) index action s ≡ ok t
      → InTurn n t
  unfolding read_action
  read_action-InTurn (dict action) s t i h =
      run_action-InTurn (get "tool_call_id" action) (get "command" action) s t i h
  read_action-InTurn action s t i h = absurd (cc h)

  read_actions-InTurn :
      (actions : List Value) (s t : State)
      → InTurn n s
      → read_actions show messages exits (llm_name n) index actions s ≡ ok t
      → InTurn n t
  unfolding read_actions
  read_actions-InTurn [] s t i h = subst (InTurn n) (ok-eq h) i
  read_actions-InTurn (action ∷ rest) s t i h =
      let (s', one, more) = >>=-eq-ok _ _ h in
      read_actions-InTurn rest s' t (read_action-InTurn action s s' i one) more

-- Between two turns: the last LLM node is there.
pub record Between (n : ℕ) (s : State) : Type 0 where
  pub sound : Sound n s.tool_index s.nodes
  pub pending : Pending s.pending_tools s.nodes
  pub previous : IsKnown s.previous_llm s.nodes

add_llm-InTurn :
    (n : ℕ) (s : State) (protocol endpoint payload tokens : Value)
    → Between n s
    → InTurn n (record s {
      nodes =
          s.nodes
          ++ llm_node
              (llm_name n)
              (dependencies_of s.pending_tools s.previous_llm)
              protocol
              endpoint
              payload
              tokens
            ∷ [];
      pending_tools = [];
      prior_node = llm_name n;
    })
add_llm-InTurn n s protocol endpoint payload tokens b =
    let node =
      llm_node (llm_name n) (dependencies_of s.pending_tools s.previous_llm) protocol endpoint
        payload tokens in
    record {
      sound =
          add_llm_node-Sound n s.tool_index s.nodes s.pending_tools s.previous_llm protocol endpoint
            payload tokens b.sound b.pending b.previous;
      pending = Pending-none (s.nodes ++ node ∷ []);
      here = contains-new s.nodes node;
      prior = contains-new s.nodes node;
    }

module _ (show : Value → String) (messages : List Value) (exits : List Indexed) where
  add_turn-Between :
      (n : ℕ) (event : Indexed) (call : Fields) (s t : State)
      → Between n s
      → add_turn show messages exits n event call s ≡ ok t
      → Between (suc n) t
  unfolding add_turn
  add_turn-Between n (index, message) call s t b h =
      let (tokens, _, h1) = >>=-eq-ok _ _ h in
      let (protocol, _, h2) = >>=-eq-ok _ _ h1 in
      let (endpoint, _, h3) = >>=-eq-ok _ _ h2 in
      let (payload, _, h4) = >>=-eq-ok _ _ h3 in
      let (extra, _, h5) = >>=-eq-ok _ _ h4 in
      let (value, _, h6) = >>=-eq-ok _ _ h5 in
      let (actions, _, h7) = >>=-eq-ok _ _ h6 in
      let (s', turned, h8) = >>=-eq-ok _ _ h7 in
      let i =
        read_actions-InTurn show messages exits n index actions _ s'
          (add_llm-InTurn n s protocol endpoint payload tokens b) turned in
      subst (Between (suc n)) (ok-eq h8)
        (record { sound = i.sound; pending = i.pending; previous = i.here })

  pub add_turns-Grows :
      (n : ℕ) (events : List Indexed) (calls : List Fields) (s t : State)
      → Between n s
      → add_turns show messages exits n events calls s ≡ ok t
      → Grows [] t.nodes
  unfolding add_turns
  add_turns-Grows n [] calls s t b h = subst (λ u. Grows [] u.nodes) (ok-eq h) b.sound.grows
  add_turns-Grows n (e ∷ rest) [] s t b h = subst (λ u. Grows [] u.nodes) (ok-eq h) b.sound.grows
  add_turns-Grows n (e ∷ rest) (call ∷ calls) s t b h =
      let (s', one, more) = >>=-eq-ok _ _ h in
      add_turns-Grows (suc n) rest calls s' t (add_turn-Between n e call s s' b one) more

pub initial-Between : (n : ℕ) → Between n initial
initial-Between n = record { sound = Sound-nil n 0; pending = Pending-none []; previous = tt }
