-- ===== src/Schema/Validate/Kept.antt =====
-- That `by_id` in `validate_trace` of src/agenttrace/schema.py keeps the nodes of the trace.
use atcr_agent_trace_collect.Prelude.{
  ℕ, ◌+◌, String, List, [], ◌∷◌, ◌++◌, ◌≡◌, refl, sym, ap, ◌∙◌, ok, >>=-eq-ok,
}
use atcr_agent_trace_collect.Json.{Value, Items, Fields, nil, cons, list, dict, get, elements}
use atcr_agent_trace_collect.Schema.Types.{Node}
use atcr_agent_trace_collect.Schema.Nodes.{check_node, check_nodes, node_list, ids}
use atcr_agent_trace_collect.Schema.Validate.Accepted.{object-eq-ok, ok-injective}

-- The dictionaries of the nodes, in order.
abbrev pub values_of : List Node → List Value
values_of [] = []
values_of (n ∷ rest) = dict n.fields ∷ values_of rest

-- The nodes are those of the trace, in its order.
abbrev pub AreNodesOf : Fields → List Node → Type 0
AreNodesOf trace g =
    (items : Items) × (get "nodes" trace ≡ list items) × (elements items ≡ values_of g)

values_of-snoc :
    (g : List Node) (n : Node) (rest : List Value)
    → values_of (g ++ n ∷ []) ++ rest ≡ values_of g ++ dict n.fields ∷ rest
values_of-snoc [] n rest = refl
values_of-snoc (m ∷ g) n rest = ap (λ (l : List Value). dict m.fields ∷ l) (values_of-snoc g n rest)

append_nil : (l : List Value) → l ++ [] ≡ l
append_nil [] = refl
append_nil (v ∷ l) = ap (λ (k : List Value). v ∷ k) (append_nil l)

check_node-fields :
    (index : ℕ) (seen : List String) (value : Value) (n : Node)
    → check_node index seen value ≡ ok n
    → value ≡ dict n.fields
unfolding check_node
check_node-fields index seen value n h =
    let (node, o, h1) = >>=-eq-ok _ _ h in
    let (_, _, h2) = >>=-eq-ok _ _ h1 in
    let (_, _, h3) = >>=-eq-ok _ _ h2 in
    let (_, _, h4) = >>=-eq-ok _ _ h3 in
    let (_, _, h5) = >>=-eq-ok _ _ h4 in
    let (_, _, h6) = >>=-eq-ok _ _ h5 in
    let (_, _, h7) = >>=-eq-ok _ _ h6 in
    let (_, _, h8) = >>=-eq-ok _ _ h7 in
    object-eq-ok _ _ o ∙ ap (λ (m : Node). dict m.fields) (ok-injective h8)

check_nodes-values_of :
    (index : ℕ) (by_id : List Node) (values : List Value) (g : List Node)
    → check_nodes index by_id values ≡ ok g
    → values_of g ≡ values_of by_id ++ values
unfolding check_nodes
check_nodes-values_of index by_id [] g h =
    ap values_of (sym (ok-injective h)) ∙ sym (append_nil (values_of by_id))
check_nodes-values_of index by_id (value ∷ rest) g h =
    let (n, c, h1) = >>=-eq-ok _ _ h in
    check_nodes-values_of (index + 1) (by_id ++ n ∷ []) rest g h1
    ∙ values_of-snoc by_id n rest
    ∙ ap (λ (v : Value). values_of by_id ++ v ∷ rest)
        (sym (check_node-fields index (ids by_id) value n c))

node_list-elements :
    (v : Value) (values : List Value)
    → node_list v ≡ ok values
    → (items : Items) × (v ≡ list items) × (elements items ≡ values)
node_list-elements (list (cons x xs)) values h = (cons x xs, refl, ok-injective h)
node_list-elements (list nil) values h = absurd (cc h)
node_list-elements v values h = absurd (cc h)

pub check_nodes-AreNodesOf :
    (trace : Fields) (values : List Value) (g : List Node)
    → node_list (get "nodes" trace) ≡ ok values
    → check_nodes 0 [] values ≡ ok g
    → AreNodesOf trace g
check_nodes-AreNodesOf trace values g listed h =
    let (items, is, same) = node_list-elements (get "nodes" trace) values listed in
    (items, is, same ∙ sym (check_nodes-values_of 0 [] values g h))
