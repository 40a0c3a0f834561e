-- ===== src/Adapters/Openclaw/Nodes/Turns.antt =====
-- The loop of `build_openclaw_trace` in src/agenttrace/adapters/openclaw.py over the assistant's
-- messages: every round keeps the graph growing.
use atcr_agent_trace_collect.Prelude.{
  ℕ, suc, ◌+◌, String, str_eq, Bool, true, false, Option, none, some, List, [], ◌∷◌, ◌++◌, ◌≡◌,
  subst, inl, inr, if◌then◌else◌, ok, err, >>=-eq-ok, arith, Bool-cases,
}
use atcr_agent_trace_collect.Prelude.Names.{contains}
use atcr_agent_trace_collect.Json.{Value, Fields, dict, end, get, or_else, str}
use atcr_agent_trace_collect.Json.Access.{is_text, problem}
use atcr_agent_trace_collect.Adapters.Problems.{Outcome, name_mismatch}
use atcr_agent_trace_collect.Adapters.Openclaw.Nodes.{
  State, initial, add_tool, call_tool, result_of, read_part, read_parts, add_turn, add_turns,
  text_of,
}
use atcr_agent_trace_collect.Adapters.Built.{
  ToolResult, llm_node, tool_node, llm_name, tool_name_of, dependencies_of,
}
use atcr_agent_trace_collect.Adapters.Built.Growth.{built_ids, Grows}
use atcr_agent_trace_collect.Adapters.Built.Steps.{
  Sound, Pending, IsKnown, add_tool_node-Sound, add_llm_node-Sound, Pending-snoc, Pending-none,
  Sound-nil, contains-kept, contains-new,
}

ok-eq : {A : Type 0} {a b : A} → ◌≡◌ {A = Outcome A} (ok a) (ok b) → a ≡ b
ok-eq h = cc

-- In the turn of an LLM node: the graph grows, and the node is there.
record InTurn (n : ℕ) (s : State) : Type 0 where
  sound : Sound (suc n) s.tool_index s.nodes
  pending : Pending s.pending_tools s.nodes
  here : contains (llm_name n) (built_ids s.nodes) ≡ true

add_tool-InTurn :
    (n : ℕ) (arguments : Value) (r : ToolResult) (s : State)
    → InTurn n s
    → InTurn n (add_tool (llm_name n) arguments r s)
add_tool-InTurn n arguments r s h =
    let id = tool_name_of (s.tool_index + 1) in
    let node = tool_node id (llm_name n) "openclaw-tools-invoke" r.tool_name arguments r in
    record {
      sound =
          add_tool_node-Sound (suc n) s.tool_index s.nodes (llm_name n) "openclaw-tools-invoke"
            r.tool_name arguments r h.sound h.here;
      pending =
          Pending-snoc s.pending_tools s.nodes node h.pending
            (h.sound.tool_fresh (s.tool_index + 1) (omega arith));
      here = contains-kept (llm_name n) s.nodes node h.here;
    }

module _ (show : Value → String) (results : List ToolResult) (n : ℕ) where
  call_tool-InTurn :
      (part : Fields) (id : Value) (found : Option ToolResult) (s t : State)
      → InTurn n s
      → call_tool show (llm_name n) part id found s ≡ ok t
      → InTurn n t
  call_tool-InTurn part id none s t i h = cc
  call_tool-InTurn part id (some r) s t i h =
      go (str_eq r.tool_name (text_of show (or_else (get "name" part) (str "unknown")))) h
    where
      go :
          (b : Bool)
          → (if b
              then ok (add_tool (llm_name n) (or_else (get "arguments" part) (dict end)) r s)
              else err (problem (name_mismatch r.tool_call_id)))
            ≡ ok t
          → InTurn n t
      go true e = subst (InTurn n) (ok-eq e) (add_tool-InTurn n _ r s i)
      go false e = cc

  read_part-InTurn :
      (part : Value) (s t : State)
      → InTurn n s
      → read_part show results (llm_name n) part s ≡ ok t
      → InTurn n t
  unfolding read_part
  read_part-InTurn (dict part) s t i h = elim (Bool-cases (is_text "toolCall" (get "type" part))) [
    | inl call ↦
        call_tool-InTurn part (get "id" part) (result_of (get "id" part) results) s t i
          (rw (call, read_part) at h)
    | inr other ↦ subst (InTurn n) (ok-eq (rw (other, read_part) at h)) i
  ]
  read_part-InTurn _ s t i h = subst (InTurn n) (ok-eq h) i

  read_parts-InTurn :
      (parts : List Value) (s t : State)
      → InTurn n s
      → read_parts show results (llm_name n) parts s ≡ ok t
      → InTurn n t
  unfolding read_parts
  read_parts-InTurn [] s t i h = subst (InTurn n) (ok-eq h) i
  read_parts-InTurn (part ∷ rest) s t i h =
      let (s', one, more) = >>=-eq-ok _ _ h in
      read_parts-InTurn rest s' t (read_part-InTurn part s s' i one) more

-- Between two turns: the last LLM node is there.
pub record Between (n : ℕ) (s : State) : Type 0 where
  pub sound : Sound n s.tool_index s.nodes
  pub pending : Pending s.pending_tools s.nodes
  pub previous : IsKnown s.previous_llm s.nodes

add_llm-InTurn :
    (n : ℕ) (s : State) (protocol endpoint payload tokens : Value)
    → Between n s
    → InTurn n (record s {
      nodes =
          s.nodes
          ++ llm_node
              (llm_name n)
              (dependencies_of s.pending_tools s.previous_llm)
              protocol
              endpoint
              payload
              tokens
            ∷ [];
      pending_tools = [];
    })
add_llm-InTurn n s protocol endpoint payload tokens b = record {
  sound =
      add_llm_node-Sound n s.tool_index s.nodes s.pending_tools s.previous_llm protocol endpoint
        payload tokens b.sound b.pending b.previous;
  pending = Pending-none _;
  here = contains-new s.nodes _;
}

module _ (show : Value → String) (results : List ToolResult) where
  add_turn-Between :
      (n : ℕ) (assistant : Value) (call : Fields) (s t : State)
      → Between n s
      → add_turn show results n assistant call s ≡ ok t
      → Between (suc n) t
  unfolding add_turn
  add_turn-Between n assistant call s t b h =
      let (tokens, _, h1) = >>=-eq-ok _ _ h in
      let (protocol, _, h2) = >>=-eq-ok _ _ h1 in
      let (endpoint, _, h3) = >>=-eq-ok _ _ h2 in
      let (payload, _, h4) = >>=-eq-ok _ _ h3 in
      let (message, _, h5) = >>=-eq-ok _ _ h4 in
      let (content, _, h6) = >>=-eq-ok _ _ h5 in
      let (parts, _, h7) = >>=-eq-ok _ _ h6 in
      let (s', turned, h8) = >>=-eq-ok _ _ h7 in
      let i =
        read_parts-InTurn show results n parts _ s'
          (add_llm-InTurn n s protocol endpoint payload tokens b) turned in
      subst (Between (suc n)) (ok-eq h8)
        (record { sound = i.sound; pending = i.pending; previous = i.here })

  pub add_turns-Grows :
      (n : ℕ) (assistants : List Value) (calls : List Fields) (s t : State)
      → Between n s
      → add_turns show results n assistants calls s ≡ ok t
      → Grows [] t.nodes
  unfolding add_turns
  add_turns-Grows n [] calls s t b h = subst (λ u. Grows [] u.nodes) (ok-eq h) b.sound.grows
  add_turns-Grows n (a ∷ rest) [] s t b h = subst (λ u. Grows [] u.nodes) (ok-eq h) b.sound.grows
  add_turns-Grows n (a ∷ rest) (call ∷ calls) s t b h =
      let (s', one, more) = >>=-eq-ok _ _ h in
      add_turns-Grows (suc n) rest calls s' t (add_turn-Between n a call s s' b one) more

pub initial-Between : (n : ℕ) → Between n initial
initial-Between n = record { sound = Sound-nil n 0; pending = Pending-none []; previous = tt }
