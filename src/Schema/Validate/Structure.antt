-- ===== src/Schema/Validate/Structure.antt =====
-- The graph part of `validate_trace` in src/agenttrace/schema.py decides whether the nodes form a
-- graph of known dependencies without a cycle.
use atcr_agent_trace_collect.Prelude.{
  ◌<◌, String, str_eq, true, false, ◌≡◌, refl, subst, ◌⊎◌, inl, inr, List, [], ◌∷◌, arith, eq_iff,
  eq_refl, Bool-cases, Result, ok, err, ◌>>=◌, >>=-eq-ok, length,
}
use atcr_agent_trace_collect.Prelude.Names.{contains, contains-cons_self, distinct}
use atcr_agent_trace_collect.Json.{Value, Fields, list, nil, cons}
use atcr_agent_trace_collect.Schema.Types.{Error, unknown_dependency, dependency_cycle, Node}
use atcr_agent_trace_collect.Schema.Nodes.{ids, node_list}
use atcr_agent_trace_collect.Schema.Graph.{depends_on, check_parents, check_dependencies}
use atcr_agent_trace_collect.Schema.Graph.Paths.{Edge, IsAcyclic, contains_tail}
use atcr_agent_trace_collect.Schema.Graph.Fuel.{key_of_depends_on}
use atcr_agent_trace_collect.Schema.Graph.Cycles.{Known}
use atcr_agent_trace_collect.Schema.Graph.Acyclicity.{search_nodes-decides}
use atcr_agent_trace_collect.Schema.Validate.{check_graph, validate_trace}
use atcr_agent_trace_collect.Schema.Validate.Kept.{AreNodesOf, check_nodes-AreNodesOf}
use atcr_agent_trace_collect.Schema.Validate.Accepted.{
  AreAccepted, AreAccepted-nil, check_nodes-ok, ok-injective,
}

-- A dependency that is no node, of the node that lists it.
pub record Unknown (g : List Node) (parent node_id : String) : Type 0 where
  pub dependency : Edge g node_id parent
  pub absent : contains parent (ids g) ≡ false

-- The loop over one node's dependencies.
pub data Parents (known parents : List String) (node_id : String) (r : Result Error (Unit {0}))
    : Type 0 where
  all_known :
      r ≡ ok tt
      → ((b : String) → contains b parents ≡ true → contains b known ≡ true)
      → Parents known parents node_id r
  one_unknown :
      (b : String)
      → r ≡ err (unknown_dependency b node_id)
      → contains b parents ≡ true
      → contains b known ≡ false
      → Parents known parents node_id r

check_parents-Parents :
    (known : List String) (node_id : String) (parents : List String)
    → Parents known parents node_id (check_parents known node_id parents)
unfolding check_parents contains
check_parents-Parents known node_id [] = all_known refl (λ b m. absurd (cc))
check_parents-Parents known node_id (p ∷ rest) = elim (Bool-cases (contains p known)) [
  | inr absent ↦ one_unknown p (rw absent) (contains-cons_self p rest) absent
  | inl here ↦ elim (check_parents-Parents known node_id rest) [
    | all_known e all ↦ all_known (rw here e) (λ b m. ground (arith, eq_iff b p, here, all b))
    | one_unknown b e m u ↦ one_unknown b (rw here e) (contains_tail b p rest m) u
  ]
]

-- The loop over the nodes.
pub data Dependencies (known : List String) (g : List Node) (r : Result Error (Unit {0}))
    : Type 0 where
  all_known :
      r ≡ ok tt → ((a b : String) → Edge g a b → contains b known ≡ true) → Dependencies known g r
  one_unknown :
      (a b : String)
      → r ≡ err (unknown_dependency b a)
      → Edge g a b
      → contains b known ≡ false
      → Dependencies known g r

-- An edge of the list is one of its first node, or one of the rest.
Edge-cases :
    (n : Node) (g : List Node) {a b : String}
    → Edge (n ∷ g) a b
    → (contains b n.depends_on ≡ true) ⊎ Edge g a b
unfolding depends_on
Edge-cases n g {a} {b} e = elim (Bool-cases (str_eq a n.id)) [
  | inl same ↦ inl (cc (rw same at (e.listed), e.parent))
  | inr other ↦
      inr (record { parents = e.parents; listed = rw other at (e.listed); parent = e.parent })
]

Edge-first :
    (n : Node) (g : List Node) (b : String) → contains b n.depends_on ≡ true → Edge (n ∷ g) n.id b
unfolding depends_on
Edge-first n g b m = record { parents = n.depends_on; listed = rw (eq_refl n.id); parent = m }

-- Behind a node of another name.
Edge-behind :
    (n : Node) (g : List Node) {a b : String}
    → contains n.id (ids g) ≡ false
    → contains a (ids g) ≡ true
    → Edge g a b
    → Edge (n ∷ g) a b
unfolding depends_on
Edge-behind n g {a} {b} new key e = record {
  parents = e.parents;
  listed = ground (arith, eq_iff a n.id, e.listed);
  parent = e.parent;
}

check_dependencies-Dependencies :
    (known : List String) (g : List Node)
    → distinct (ids g) ≡ true
    → Dependencies known g (check_dependencies known g)
unfolding check_dependencies ◌>>=◌ distinct
check_dependencies-Dependencies known [] d = all_known refl (λ a b e. absurd (no_edge e))
  where
    no_edge : {a b : String} → ¬ Edge [] a b
    no_edge e = unfold depends_on in cc (e.listed)
check_dependencies-Dependencies known (n ∷ g) d =
    elim (check_parents-Parents known n.id n.depends_on) [
      | one_unknown b e m u ↦ one_unknown n.id b (rw e) (Edge-first n g b m) u
      | all_known e all ↦ elim (check_dependencies-Dependencies known g (ground arith)) [
        | all_known f rest ↦
            all_known (rw (e, f))
              λ a b x. elim (Edge-cases n g x) [ inl m ↦ all b m | inr y ↦ rest a b y ]
        | one_unknown a b f x u ↦
            one_unknown a b (rw (e, f))
              (Edge-behind n g (ground arith) (key_of_depends_on g a x.parents x.listed) x) u
      ]
    ]

-- The graph of the nodes is accepted exactly if every dependency is a node and no node depends on
-- itself through others. A refusal names a dependency that is no node, or there is a cycle.
pub check_graph-decides :
    (g : List Node)
    → distinct (ids g) ≡ true
    → ((check_graph g ≡ ok g) × Known g × IsAcyclic g)
      ⊎ ((a b : String) × (check_graph g ≡ err (unknown_dependency b a))
          × Edge g a b
          × (contains b (ids g) ≡ false))
      ⊎ ((check_graph g ≡ err dependency_cycle) × Known g × (¬ IsAcyclic g))
unfolding check_graph ◌>>=◌
check_graph-decides g d = elim (check_dependencies-Dependencies (ids g) g d) [
  | one_unknown a b e x u ↦ inr (inl (a, b, rw e, x, u))
  | all_known e known ↦ elim (search_nodes-decides g known) [
    | inl (s, f, acyclic) ↦ inl (rw (e, f), known, acyclic)
    | inr (f, cyclic) ↦ inr (inr (rw (e, f), known, cyclic))
  ]
]

-- What `validate_trace` establishes.
pub record IsValid (g : List Node) : Type 0 where
  pub accepted : AreAccepted g
  pub not_empty : 0 < length g
  pub known : Known g
  pub acyclic : IsAcyclic g

node_list-ok : (v : Value) (l : List Value) → node_list v ≡ ok l → 0 < length l
node_list-ok (list (cons x xs)) l h = subst (λ k. 0 < length k) (ok-injective h) (omega arith)
node_list-ok (list nil) l h = absurd (cc)
node_list-ok _ l h = absurd (cc)

check_graph-ok : (g h : List Node) → check_graph g ≡ ok h → g ≡ h
unfolding check_graph
check_graph-ok g h e =
    let (_, _, e1) = >>=-eq-ok _ _ e in let (_, _, e2) = >>=-eq-ok _ _ e1 in ok-injective e2

-- A trace that is accepted has a list of nodes, and these, in their order, are the nodes that are
-- read: at least one, with distinct identifiers, dependencies that are nodes, and no cycle. What is
-- read of each node is what its dictionary has: an identifier, a type, and parents that are texts,
-- none empty and none twice. The dictionary has a request with a protocol; that of an LLM node has an
-- endpoint and a payload, and the node a number of output tokens; that of a tool node has a name and
-- arguments, and the node a recorded result with the same name, a call identifier, a content that is a
-- list, details, and a Boolean "isError". Protocol, endpoint, name and call identifier are not empty.
pub validate_trace-IsValid :
    (trace : Fields) (g : List Node) → validate_trace trace ≡ ok g → IsValid g × AreNodesOf trace g
unfolding validate_trace
validate_trace-IsValid trace g h =
    let (_, _, h1) = >>=-eq-ok _ _ h in
    let (values, some_values, h2) = >>=-eq-ok _ _ h1 in
    let (by_id, nodes, h3) = >>=-eq-ok _ _ h2 in
    let (accepted, len) = check_nodes-ok 0 [] values by_id AreAccepted-nil nodes in
    let same = check_graph-ok by_id g h3 in
    (
      subst IsValid same
          (finish by_id accepted (omega (arith, len, node_list-ok _ values some_values)) same h3),
      subst (AreNodesOf trace) same (check_nodes-AreNodesOf trace values by_id some_values nodes),
    )
  where
    finish :
        (n : List Node) → AreAccepted n → 0 < length n → n ≡ g → check_graph n ≡ ok g → IsValid n
    finish n a len same e = elim (check_graph-decides n a.ids_distinct) [
      | inl (_, known, acyclic) ↦ record {
        accepted = a;
        not_empty = len;
        known = known;
        acyclic = acyclic;
      }
      | inr (inl (_, _, f, _, _)) ↦ absurd (cc)
      | inr (inr (f, _, _)) ↦ absurd (cc)
    ]
