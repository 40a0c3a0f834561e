-- ===== src/Adapters/Built/Validated.antt =====
-- What `validate_trace` can still refuse of a trace that src/agenttrace/adapters/ builds.
use atcr_agent_trace_collect.Prelude.{
  true, List, [], ◌∷◌, ◌≡◌, refl, sym, subst, ap, ◌∙◌, ◌⊎◌, inl, inr, Result, ok, err, >>=-eq-ok,
  >>=-eq-err, Result-cases,
}
use atcr_agent_trace_collect.Prelude.Names.{contains, distinct}
use atcr_agent_trace_collect.Json.{Value, Fields, get, list, elements}
use atcr_agent_trace_collect.Schema.Types.{Error, no_nodes, Node}
use atcr_agent_trace_collect.Schema.Nodes.{ids, check_nodes, node_list}
use atcr_agent_trace_collect.Schema.Validate.{check_graph, validate_trace}
use atcr_agent_trace_collect.Schema.Validate.Accepted.{
  AreAccepted-nil, check_nodes-ok, ok-injective,
}
use atcr_agent_trace_collect.Schema.Validate.Raises.{IsOfFields, Raises-check_header}
use atcr_agent_trace_collect.Adapters.Built.Growth.{Grows}
use atcr_agent_trace_collect.Adapters.Built.Graph.{to_nodes}
use atcr_agent_trace_collect.Adapters.Built.Accepted.{Passes, check_nodes-Passes, check_graph-built}
use atcr_agent_trace_collect.Adapters.Built.{Built, nodes_of}

err-eq : {A : Type 0} {a b : Error} → ◌≡◌ {A = Result Error A} (err a) (err b) → a ≡ b
err-eq h = cc

node_list-ok :
    (g : List Built) (values : List Value)
    → node_list (list (nodes_of g)) ≡ ok values
    → elements (nodes_of g) ≡ values
node_list-ok [] values h = cc
node_list-ok (n ∷ rest) values h = ok-injective h

node_list-err : (g : List Built) (e : Error) → node_list (list (nodes_of g)) ≡ err e → e ≡ no_nodes
node_list-err [] e h = sym (err-eq h)
node_list-err (n ∷ rest) e h = cc

-- Over nodes that grow, validation returns them, or raises over the header, over a node's fields, or
-- because there is no node.
pub validate_trace-built :
    (trace : Fields) (g : List Built)
    → get "nodes" trace ≡ list (nodes_of g)
    → Grows [] g
    → (validate_trace trace ≡ ok (to_nodes g))
      ⊎ ((e : Error) × (validate_trace trace ≡ err e) × (IsOfFields e ⊎ (e ≡ no_nodes)))
unfolding validate_trace contains
validate_trace-built trace g held grows = elim (Result-cases (validate_trace trace)) [
  | inl (nodes, returned) ↦
      let (_, _, h1) = >>=-eq-ok _ _ returned in
      let (values, stored, h2) = >>=-eq-ok _ _ h1 in
      let listed = ap node_list (sym held) ∙ stored in
      let (by_id, looped, h3) = >>=-eq-ok _ _ h2 in
      let is = same_nodes values by_id (node_list-ok g values listed) looped in
      let once = once_of values by_id looped in
      let good = check_graph-built g grows (subst (λ k. distinct (ids k) ≡ true) is once) in
      inl (returned ∙ ap ok (ok-injective (sym h3 ∙ ap check_graph is ∙ good)))
  | inr (e, raised) ↦ inr (
    e,
    raised,
    elim (>>=-eq-err _ _ raised) [
      | inl now ↦ inl ((Raises-check_header trace).at e now)
      | inr (_, _, h1) ↦ elim (>>=-eq-err _ _ h1) [
        | inl now ↦ inr (node_list-err g e (ap node_list (sym held) ∙ now))
        | inr (values, stored, h2) ↦ elim (>>=-eq-err _ _ h2) [
          | inl now ↦
              let listed = ap node_list (sym held) ∙ stored in
              inl (passes.raises.at e (ap (check_nodes 0 []) (node_list-ok g values listed) ∙ now))
          | inr (by_id, looped, h3) ↦
              let listed = ap node_list (sym held) ∙ stored in
              let is = same_nodes values by_id (node_list-ok g values listed) looped in
              let once = once_of values by_id looped in
              let good = check_graph-built g grows (subst (λ k. distinct (ids k) ≡ true) is once) in
              absurd (cc (sym (ap check_graph is ∙ good) ∙ h3))
        ]
      ]
    ],
  )
]
  where
    passes : Passes [] g (check_nodes 0 [] (elements (nodes_of g)))
    passes = check_nodes-Passes 0 [] g grows refl

    same_nodes :
        (values : List Value) (by_id : List Node)
        → elements (nodes_of g) ≡ values
        → check_nodes 0 [] values ≡ ok by_id
        → by_id ≡ to_nodes g
    same_nodes values by_id listed looped =
        passes.returns by_id (ap (check_nodes 0 []) listed ∙ looped)

    once_of :
        (values : List Value) (by_id : List Node)
        → check_nodes 0 [] values ≡ ok by_id
        → distinct (ids by_id) ≡ true
    once_of values by_id looped =
        (check_nodes-ok 0 [] values by_id AreAccepted-nil looped).0.ids_distinct
