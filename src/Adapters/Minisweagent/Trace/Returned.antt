-- ===== src/Adapters/Minisweagent/Trace/Returned.antt =====
-- What `build_minisweagent_trace` of src/agenttrace/adapters/minisweagent.py returns, and what its call of
-- `validate_trace` can still refuse.
use atcr_agent_trace_collect.Prelude.{
  String, List, [], ◌≡◌, refl, subst, ◌⊎◌, inl, inr, ok, err, >>=-eq-ok, ◌>>=◌,
}
use atcr_agent_trace_collect.Json.{Value, get, list, lookup}
use atcr_agent_trace_collect.Schema.Types.{Error, no_nodes}
use atcr_agent_trace_collect.Schema.Validate.{validate_trace}
use atcr_agent_trace_collect.Schema.Validate.Structure.{IsValid, validate_trace-IsValid}
use atcr_agent_trace_collect.Schema.Validate.Raises.{IsOfFields}
use atcr_agent_trace_collect.Json.Access.{problem}
use atcr_agent_trace_collect.Adapters.Problems.{refused}
use atcr_agent_trace_collect.Adapters.Built.{Built, nodes_of}
use atcr_agent_trace_collect.Adapters.Built.Growth.{Grows}
use atcr_agent_trace_collect.Adapters.Built.Graph.{to_nodes}
use atcr_agent_trace_collect.Adapters.Built.Validated.{validate_trace-built}
use atcr_agent_trace_collect.Adapters.Openclaw.Trace.Returned.{outcome-eq}
use atcr_agent_trace_collect.Adapters.Minisweagent.Nodes.{initial, exit_messages}
use atcr_agent_trace_collect.Adapters.Minisweagent.Nodes.Chains.{add_turns-Grows, initial-Between}
use atcr_agent_trace_collect.Adapters.Minisweagent.Trace.{
  Settings, trace_fields, build_nodes, build_minisweagent_trace,
}

build_nodes-Grows :
    (show : Value → String) (trace_id : String) (trajectory : Value) (rows : List Value)
    (g : List Built)
    → build_nodes show trace_id trajectory rows ≡ ok g
    → Grows [] g
unfolding build_nodes
build_nodes-Grows show trace_id trajectory rows g h =
    let (messages, _, h1) = >>=-eq-ok _ _ h in
    let ((events, calls), _, h2) = >>=-eq-ok _ _ h1 in
    let (s, turned, h3) = >>=-eq-ok _ _ h2 in
    subst (Grows []) (outcome-eq h3) (
      add_turns-Grows show messages (exit_messages 0 messages) 1 events calls initial s
        (initial-Between 1) turned)

nodes_held :
    (lower : String → String) (c : Settings) (g : List Built)
    → get "nodes" (trace_fields lower c g) ≡ list (nodes_of g)
unfolding get lookup
nodes_held lower c g = refl

build_nodes-validates :
    (show : Value → String) (lower : String → String) (c : Settings) (trajectory : Value)
    (rows : List Value) (g : List Built)
    → build_nodes show c.trace_id trajectory rows ≡ ok g
    → (validate_trace (trace_fields lower c g) ≡ ok (to_nodes g))
      ⊎ ((e : Error) × (validate_trace (trace_fields lower c g) ≡ err e)
          × (IsOfFields e ⊎ (e ≡ no_nodes)))
build_nodes-validates show lower c trajectory rows g h =
    validate_trace-built (trace_fields lower c g) g (nodes_held lower c g)
      (build_nodes-Grows show c.trace_id trajectory rows g h)

-- Where the nodes are built, the converter returns the trace that holds them, which `validate_trace` reads
-- as exactly these nodes, and they are valid; or it raises what `validate_trace` raises: over the header,
-- over the fields of a node, or because there is no node, never over an identifier, a type or a
-- dependency.
pub build_minisweagent_trace-IsValid :
    (show : Value → String) (lower : String → String) (c : Settings) (trajectory : Value)
    (rows : List Value) (g : List Built)
    → build_nodes show c.trace_id trajectory rows ≡ ok g
    → ((build_minisweagent_trace show lower c trajectory rows ≡ ok (trace_fields lower c g))
        × (validate_trace (trace_fields lower c g) ≡ ok (to_nodes g))
        × IsValid (to_nodes g))
      ⊎ ((e : Error) × (build_minisweagent_trace show lower c trajectory rows
            ≡ err (problem (refused e)))
          × (IsOfFields e ⊎ (e ≡ no_nodes)))
unfolding build_minisweagent_trace ◌>>=◌
build_minisweagent_trace-IsValid show lower c trajectory rows g built =
    elim (build_nodes-validates show lower c trajectory rows g built) [
      | inl read ↦ inl (
        rw (built, read) refl,
        read,
        (validate_trace-IsValid (trace_fields lower c g) (to_nodes g) read).0,
      )
      | inr (e, raised, which) ↦ inr (e, rw (built, raised) refl, which)
    ]
