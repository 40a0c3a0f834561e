-- ===== src/Schema/Graph/Acyclicity.antt =====
-- The whole search of `validate_trace` in src/agenttrace/schema.py: it accepts exactly the graphs
-- without a cycle, and never runs out of fuel.
use atcr_agent_trace_collect.Prelude.{
  ◌+◌, String, true, ◌≡◌, ◌⊎◌, inl, inr, List, [], arith, ok, err, length, length-map,
}
use atcr_agent_trace_collect.Prelude.Names.{contains}
use atcr_agent_trace_collect.Schema.Types.{dependency_cycle, Node}
use atcr_agent_trace_collect.Schema.Nodes.{ids}
use atcr_agent_trace_collect.Schema.Graph.{Search, visit, unvisited, search_nodes}
use atcr_agent_trace_collect.Schema.Graph.Paths.{
  Edge, Reaches, edge, next, IsAcyclic, Ordered, Ordered-acyclic,
}
use atcr_agent_trace_collect.Schema.Graph.Orders.{visit_all-Extends, visit-Marks}
use atcr_agent_trace_collect.Schema.Graph.Fuel.{free-nil, key_of_depends_on}
use atcr_agent_trace_collect.Schema.Graph.Cycles.{
  Known, Outcome, returned, looped, visit-Outcome, visit_all-Outcome,
}

pub key_of_Edge : (g : List Node) {a b : String} → Edge g a b → contains a (ids g) ≡ true
key_of_Edge g {a} e = key_of_depends_on g a e.parents e.listed

key_of_Reaches : (g : List Node) {a b : String} → Reaches g a b → contains a (ids g) ≡ true
key_of_Reaches g (edge e) = key_of_Edge g e
key_of_Reaches g (next e r) = key_of_Edge g e

-- Where the search returns, it has ordered all nodes, dependencies first, and none is on a cycle.
pub record IsOrder (g : List Node) (l : List String) : Type 0 where
  pub ordered : Ordered g l
  pub every : (a : String) → contains a (ids g) ≡ true → contains a l ≡ true

pub search_nodes-IsOrder :
    (g : List Node) (s : Search) → search_nodes g ≡ ok s → IsOrder g s.visited
unfolding search_nodes
search_nodes-IsOrder g s h =
    let fuel = length g + 1 in
    let (x, all) =
      visit_all-Extends g (visit fuel g) (visit-Marks fuel g) (ids g) unvisited s tt h in
    record { ordered = x.ordered; every = all }

pub IsOrder-IsAcyclic : (g : List Node) (l : List String) → IsOrder g l → IsAcyclic g
IsOrder-IsAcyclic g l o a r = Ordered-acyclic a l o.ordered (o.every a (key_of_Reaches g r)) r

not_in_nil : (v : String) → ¬ (contains v [] ≡ true)
unfolding contains
not_in_nil v h = cc

pub search_nodes-Outcome : (g : List Node) → Known g → Outcome g unvisited (search_nodes g)
unfolding search_nodes
search_nodes-Outcome g known =
    visit_all-Outcome (length g + 1) g (visit (length g + 1) g)
      (visit-Outcome (length g + 1) g known) (ids g) unvisited (λ b m. m)
      (omega (arith, free-nil (ids g), length-map g (λ n. n.id)))
      (λ b m v u. absurd (not_in_nil v u))

-- With its dependencies known, a graph is accepted exactly if it has no cycle, and is refused only
-- with the cycle error.
pub search_nodes-decides :
    (g : List Node)
    → Known g
    → ((s : Search) × (search_nodes g ≡ ok s) × IsAcyclic g)
      ⊎ ((search_nodes g ≡ err dependency_cycle) × (¬ IsAcyclic g))
search_nodes-decides g known = elim (search_nodes-Outcome g known) [
  | returned s e _ ↦ inl (s, e, IsOrder-IsAcyclic g s.visited (search_nodes-IsOrder g s e))
  | looped a e loop ↦ inr (e, λ acyclic. acyclic a loop)
]

-- A graph of known dependencies without a cycle has such an order.
pub IsOrder-of_acyclic : (g : List Node) → Known g → IsAcyclic g → (l : List String) × IsOrder g l
IsOrder-of_acyclic g known acyclic = elim (search_nodes-decides g known) [
  | inl (s, e, _) ↦ (s.visited, search_nodes-IsOrder g s e)
  | inr (_, cyclic) ↦ absurd (cyclic acyclic)
]
