-- ===== src/Adapters/Openclaw/Trace/Returned.antt =====
-- What `build_openclaw_trace` of src/agenttrace/adapters/openclaw.py returns, and what its call of
-- `validate_trace` can still refuse.
use atcr_agent_trace_collect.Prelude.{
  String, Bool, true, false, List, [], ◌≡◌, refl, sym, subst, ap, ◌∙◌, ◌⊎◌, inl, inr, Result, ok,
  err, >>=-eq-ok, ◌>>=◌, if◌then◌else◌,
}
use atcr_agent_trace_collect.Json.{Value, Fields, get, list, lookup}
use atcr_agent_trace_collect.Schema.Types.{Error, no_nodes, Node}
use atcr_agent_trace_collect.Schema.Validate.{validate_trace}
use atcr_agent_trace_collect.Schema.Validate.Structure.{IsValid, validate_trace-IsValid}
use atcr_agent_trace_collect.Schema.Validate.Raises.{IsOfFields}
use atcr_agent_trace_collect.Json.Access.{problem}
use atcr_agent_trace_collect.Adapters.Problems.{Outcome, refused, unpaired_results}
use atcr_agent_trace_collect.Adapters.Openclaw.Nodes.{initial, all_used}
use atcr_agent_trace_collect.Adapters.Built.{Built, nodes_of}
use atcr_agent_trace_collect.Adapters.Built.Growth.{Grows}
use atcr_agent_trace_collect.Adapters.Openclaw.Nodes.Turns.{add_turns-Grows, initial-Between}
use atcr_agent_trace_collect.Adapters.Openclaw.Trace.{
  Settings, trace_fields, accept, build_nodes, build_openclaw_trace,
}
use atcr_agent_trace_collect.Adapters.Built.Graph.{to_nodes}
use atcr_agent_trace_collect.Adapters.Built.Validated.{validate_trace-built}

pub outcome-eq : {A : Type 0} {a b : A} → ◌≡◌ {A = Outcome A} (ok a) (ok b) → a ≡ b
outcome-eq h = cc

used-ok :
    (b : Bool) (g h : List Built)
    → ◌≡◌ {A = Outcome (List Built)} (if b then ok g else err (problem unpaired_results)) (ok h)
    → (b ≡ true) × (g ≡ h)
used-ok true g h e = (refl, outcome-eq e)
used-ok false g h e = cc

build_nodes-Grows :
    (show : Value → String) (trace_id : String) (events calls : List Value) (g : List Built)
    → build_nodes show trace_id events calls ≡ ok g
    → Grows [] g
unfolding build_nodes
build_nodes-Grows show trace_id events calls g h =
    let ((assistants, ordered), _, h1) = >>=-eq-ok _ _ h in
    let (results, _, h2) = >>=-eq-ok _ _ h1 in
    let (s, turned, h3) = >>=-eq-ok _ _ h2 in
    subst (Grows []) (used-ok (all_used results s.used_results) s.nodes g h3).1
      (add_turns-Grows show results 1 assistants ordered initial s (initial-Between 1) turned)

nodes_held : (c : Settings) (g : List Built) → get "nodes" (trace_fields c g) ≡ list (nodes_of g)
unfolding get lookup
nodes_held c g = refl

-- Where the nodes are built, `validate_trace` returns exactly them, or it raises over the header, over
-- the fields of a node, or because there is no node: never over an identifier, a type or a dependency.
pub build_nodes-validates :
    (show : Value → String) (c : Settings) (events calls : List Value) (g : List Built)
    → build_nodes show c.trace_id events calls ≡ ok g
    → (validate_trace (trace_fields c g) ≡ ok (to_nodes g))
      ⊎ ((e : Error) × (validate_trace (trace_fields c g) ≡ err e)
          × (IsOfFields e ⊎ (e ≡ no_nodes)))
build_nodes-validates show c events calls g h =
    validate_trace-built (trace_fields c g) g (nodes_held c g)
      (build_nodes-Grows show c.trace_id events calls g h)

accept-ok :
    (t u : Fields) (r : Result Error (List Node))
    → accept t r ≡ ok u
    → (g : List Node) × (r ≡ ok g) × (t ≡ u)
accept-ok t u (ok g) h = (g, refl, outcome-eq h)
accept-ok t u (err e) h = absurd (cc h)

-- Where the nodes are built, the converter returns the trace that holds them, which `validate_trace` reads
-- as exactly these nodes, and they are valid; or it raises what `validate_trace` raises: over the header,
-- over the fields of a node, or because there is no node, never over an identifier, a type or a
-- dependency.
pub build_openclaw_trace-built :
    (show : Value → String) (c : Settings) (events calls : List Value) (g : List Built)
    → build_nodes show c.trace_id events calls ≡ ok g
    → ((build_openclaw_trace show c events calls ≡ ok (trace_fields c g))
        × (validate_trace (trace_fields c g) ≡ ok (to_nodes g))
        × IsValid (to_nodes g))
      ⊎ ((e : Error) × (build_openclaw_trace show c events calls ≡ err (problem (refused e)))
          × (IsOfFields e ⊎ (e ≡ no_nodes)))
unfolding build_openclaw_trace ◌>>=◌
build_openclaw_trace-built show c events calls g built =
    elim (build_nodes-validates show c events calls g built) [
      | inl read ↦ inl (
        rw (built, read) refl,
        read,
        (validate_trace-IsValid (trace_fields c g) (to_nodes g) read).0,
      )
      | inr (e, raised, which) ↦ inr (e, rw (built, raised) refl, which)
    ]

-- A trace that is returned holds the built nodes, and a replay reads exactly these: they are what
-- `validate_trace` gives, and valid.
pub build_openclaw_trace-IsValid :
    (show : Value → String) (c : Settings) (events calls : List Value) (trace : Fields)
    → build_openclaw_trace show c events calls ≡ ok trace
    → (g : List Built) × (build_nodes show c.trace_id events calls ≡ ok g)
      × (trace ≡ trace_fields c g)
      × (validate_trace trace ≡ ok (to_nodes g))
      × IsValid (to_nodes g)
unfolding build_openclaw_trace
build_openclaw_trace-IsValid show c events calls trace h =
    let (g, built, h1) = >>=-eq-ok _ _ h in
    let (nodes, valid, same) = accept-ok (trace_fields c g) trace _ h1 in
    let read : validate_trace (trace_fields c g) ≡ ok (to_nodes g) =
      elim (build_nodes-validates show c events calls g built) [
        | inl returned ↦ returned
        | inr (e, raised, _) ↦ absurd (cc (valid, raised))
      ] in
    (
      g,
      built,
      sym same,
      ap validate_trace (sym same) ∙ read,
      (validate_trace-IsValid (trace_fields c g) (to_nodes g) read).0,
    )
