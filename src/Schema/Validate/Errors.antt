-- ===== src/Schema/Validate/Errors.antt =====
-- `validate_trace` of src/agenttrace/schema.py raises only what its text raises: the recursion of
-- `visit` always has the fuel it needs, and no key of `by_id` is missing.
use atcr_agent_trace_collect.Prelude.{
  ℕ, ◌+◌, String, true, ◌≡◌, inl, inr, List, [], ◌∷◌, ◌++◌, Result, ok, err, Option, none, some,
  if◌then◌else◌,
}
use atcr_agent_trace_collect.Prelude.Names.{distinct}
use atcr_agent_trace_collect.Json.{Value, Fields, str, list, cons, get}
use atcr_agent_trace_collect.Schema.Types.{
  Label, Error, missing_key, bad_depends_on, duplicate_dependency, dependency_cycle,
  unknown_dependency, out_of_fuel, NodeType, Node,
}
use atcr_agent_trace_collect.Schema.Fields.{object, string}
use atcr_agent_trace_collect.Schema.Nodes.{
  ids, node_type, dependency_list, check_body, check_node, check_nodes, node_list, texts,
}
use atcr_agent_trace_collect.Schema.Validate.{check_graph, validate_trace}
use atcr_agent_trace_collect.Schema.Validate.Accepted.{AreAccepted-nil, check_nodes-ok}
use atcr_agent_trace_collect.Schema.Validate.Structure.{check_graph-decides}
use atcr_agent_trace_collect.Schema.Validate.Raises.{
  IsOfFields, Raises, Raises-weaken, Raises-ok, Raises-err, Raises-if, Raises-bind,
  Raises-bind_of_ok, Raises-require, Raises-object, Raises-string, Raises-check_header,
  Raises-check_body,
}

-- An exception of the source.
abbrev pub IsRaised : Error → Type 0
IsRaised (missing_key _) = ⊥
IsRaised out_of_fuel = ⊥
IsRaised _ = Unit

IsRaised-of_fields : (e : Error) → IsOfFields e → IsRaised e
IsRaised-of_fields (missing_key _) h = h
IsRaised-of_fields out_of_fuel h = h
IsRaised-of_fields _ h = tt

raised : {A : Type 0} (m : Result Error A) → Raises IsOfFields m → Raises IsRaised m
raised m h = Raises-weaken IsRaised m IsRaised-of_fields h

raised_object : (v : Value) (l : Label) → Raises IsRaised (object v l)
raised_object v l = raised _ (Raises-object v l)

raised_string : (v : Value) (l : Label) → Raises IsRaised (string v l)
raised_string v l = raised _ (Raises-string v l)

raised_body :
    (type : NodeType) (node_id : String) (node request : Fields)
    → Raises IsRaised (check_body type node_id node request)
raised_body type node_id node request = raised _ (Raises-check_body type node_id node request)

Raises-node_type : (node_id : String) (v : Value) → Raises IsRaised (node_type node_id v)
unfolding node_type
Raises-node_type node_id (str s) = search (Raises-ok, Raises-err, Raises-if, tt)
Raises-node_type node_id _ = Raises-err _ tt

Raises-dependency_list :
    (node_id : String) (v : Value) → Raises IsRaised (dependency_list node_id v)
unfolding dependency_list
Raises-dependency_list node_id (list items) = go (texts items)
  where
    go :
        (o : Option (List String))
        → Raises IsRaised (elim o [
          | none ↦ err (bad_depends_on node_id)
          | some parents ↦
              if distinct parents then ok parents else err (duplicate_dependency node_id)
        ])
    go none = Raises-err _ tt
    go (some parents) = search (Raises-ok, Raises-err, Raises-if, tt)
Raises-dependency_list node_id _ = Raises-err _ tt

Raises-check_node :
    (index : ℕ) (seen : List String) (v : Value) → Raises IsRaised (check_node index seen v)
unfolding check_node
Raises-check_node index seen v =
    search
      (
        Raises-ok, Raises-bind, Raises-require, raised_object, raised_string, tt, Raises-node_type,
        Raises-dependency_list, raised_body,
      )
      depth 14

Raises-check_nodes :
    (index : ℕ) (by_id : List Node) (l : List Value) → Raises IsRaised (check_nodes index by_id l)
unfolding check_nodes
Raises-check_nodes index by_id [] = Raises-ok by_id
Raises-check_nodes index by_id (v ∷ l) =
    Raises-bind _ _ (Raises-check_node index (ids by_id) v)
      (λ n. Raises-check_nodes (index + 1) (by_id ++ n ∷ []) l)

Raises-node_list : (v : Value) → Raises IsRaised (node_list v)
Raises-node_list (list (cons x xs)) = Raises-ok _
Raises-node_list _ = Raises-err _ tt

Raises-check_graph : (g : List Node) → distinct (ids g) ≡ true → Raises IsRaised (check_graph g)
Raises-check_graph g d = elim (check_graph-decides g d) [
  | inl (f, _, _) ↦ rw f (Raises-ok g)
  | inr (inl (a, b, f, _, _)) ↦ rw f (Raises-err (unknown_dependency b a) tt)
  | inr (inr (f, _, _)) ↦ rw f (Raises-err dependency_cycle tt)
]

Raises-validate_trace : (trace : Fields) → Raises IsRaised (validate_trace trace)
unfolding validate_trace
Raises-validate_trace trace = Raises-bind _ _ (raised _ (Raises-check_header trace)) λ _.
    Raises-bind _ _ (Raises-node_list (get "nodes" trace)) λ values.
      Raises-bind_of_ok _ _ (Raises-check_nodes 0 [] values)
        λ g e. Raises-check_graph g (check_nodes-ok 0 [] values g AreAccepted-nil e).0.ids_distinct

-- Validation ends with the nodes or with an exception of the source: the search never lacks fuel,
-- and never meets a dependency that is no key.
pub validate_trace-IsRaised :
    (trace : Fields) (e : Error) → validate_trace trace ≡ err e → IsRaised e
validate_trace-IsRaised trace = (Raises-validate_trace trace).at
