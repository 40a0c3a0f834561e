-- ===== src/Adapters/Built/Graph.antt =====
-- The nodes that src/agenttrace/adapters/ builds as `validate_trace` reads
-- them: their graph is one that it accepts.
use atcr_agent_trace_collect.Prelude.{
  String, str_eq, true, false, some, List, [], ◌∷◌, ◌++◌, ◌≡◌, refl, sym, subst, ap, ◌∙◌, All,
  arith, eq_iff, eq_refl, inl, inr, Bool-cases,
}
use atcr_agent_trace_collect.Prelude.Names.{contains, contains-append}
use atcr_agent_trace_collect.Schema.Types.{NodeType, llm, tool, Node}
use atcr_agent_trace_collect.Schema.Nodes.{ids}
use atcr_agent_trace_collect.Schema.Graph.{depends_on}
use atcr_agent_trace_collect.Schema.Graph.Paths.{
  Edge, IsAcyclic, Ordered, Ordered-key, Ordered-Edge,
}
use atcr_agent_trace_collect.Schema.Graph.Fuel.{key_of_depends_on}
use atcr_agent_trace_collect.Schema.Graph.Cycles.{Known}
use atcr_agent_trace_collect.Schema.Graph.Acyclicity.{IsOrder-IsAcyclic, key_of_Edge}
use atcr_agent_trace_collect.Adapters.Built.{Built, llm_node, tool_node, id_of, node_fields}
use atcr_agent_trace_collect.Adapters.Built.Growth.{built_ids, parents_of, subset, Grows}

abbrev pub type_of : Built → NodeType
type_of (llm_node _ _ _ _ _ _) = llm
type_of (tool_node _ _ _ _ _ _) = tool

-- The node that `by_id` holds.
abbrev pub to_node : Built → Node
to_node n = record {
  id = id_of n;
  type = type_of n;
  depends_on = parents_of n;
  fields = node_fields n;
}

abbrev pub to_nodes : List Built → List Node
to_nodes [] = []
to_nodes (n ∷ rest) = to_node n ∷ to_nodes rest

nodes_assoc : (a b c : List Node) → (a ++ b) ++ c ≡ a ++ (b ++ c)
nodes_assoc [] b c = refl
nodes_assoc (x ∷ a) b c = ap (λ l. x ∷ l) (nodes_assoc a b c)

ids_append : (g h : List Node) → ids (g ++ h) ≡ ids g ++ ids h
ids_append [] h = refl
ids_append (n ∷ g) h = ap (λ l. n.id ∷ l) (ids_append g h)

-- A new node is found behind the others.
depends_on-new :
    (before rest : List Node) (n : Node)
    → contains n.id (ids before) ≡ false
    → depends_on (before ++ n ∷ rest) n.id ≡ some n.depends_on
unfolding depends_on contains
depends_on-new [] rest n h = ground (arith, eq_refl n.id)
depends_on-new (m ∷ before) rest n h = ground (arith, h, depends_on-new before rest n)

-- Every node is found with its own dependencies.
abbrev IsFound : List Node → Built → Type 0
IsFound g n = depends_on g (id_of n) ≡ some (parents_of n)

All-IsFound :
    (before : List Node) (rest : List Built) (g : List Node)
    → g ≡ before ++ to_nodes rest
    → Grows (ids before) rest
    → All (IsFound g) rest
All-IsFound before [] g same h = tt
All-IsFound before (n ∷ rest) g same h = (
  subst (λ l. depends_on l (id_of n) ≡ some (parents_of n)) (sym same)
      (depends_on-new before (to_nodes rest) (to_node n) h.0),
  All-IsFound (before ++ to_node n ∷ []) rest g
      (same ∙ sym (nodes_assoc before (to_node n ∷ []) (to_nodes rest)))
      (subst (λ k. Grows k rest) (sym (ids_append before (to_node n ∷ []))) h.4),
)

-- The order of the nodes, backwards.
abbrev SameNames : List String → List String → Type 0
SameNames l known = (x : String) → contains x l ≡ contains x known

subset-contains :
    (x : String) (xs known : List String)
    → subset xs known ≡ true
    → contains x xs ≡ true
    → contains x known ≡ true
unfolding subset contains
subset-contains x [] known h c = cc
subset-contains x (y ∷ xs) known h c = ground (arith, h, c, eq_iff x y, subset-contains x xs known)

contains-cons-snoc :
    (x y : String) (l known : List String)
    → contains x l ≡ contains x known
    → contains x (y ∷ l) ≡ contains x (known ++ y ∷ [])
unfolding contains
contains-cons-snoc x y l known h = ground (arith, h, contains-append x known (y ∷ []))

-- An edge of a node that is found leads to one of its dependencies.
Edge-parent :
    (g : List Node) (n : Built) (b : String)
    → IsFound g n
    → Edge g (id_of n) b
    → contains b (parents_of n) ≡ true
Edge-parent g n b found e =
    let same : e.parents ≡ parents_of n = some-eq (sym e.listed ∙ found) in
    subst (λ l. contains b l ≡ true) same e.parent
  where
    some-eq : {p q : List String} → some p ≡ some q → p ≡ q
    some-eq h = cc

-- The nodes in front of the ones before them are an order.
record Orders (g : List Node) (known : List String) (rest : List Built) : Type 0 where
  order : List String
  ordered : Ordered g order
  old : (x : String) → contains x known ≡ true → contains x order ≡ true
  new : (x : String) → contains x (built_ids rest) ≡ true → contains x order ≡ true

order_of :
    (g : List Node) (known l : List String) (rest : List Built)
    → Grows known rest
    → All (IsFound g) rest
    → Ordered g l
    → SameNames l known
    → Orders g known rest
unfolding contains
order_of g known l [] h f o same = record {
  order = l;
  ordered = o;
  old = λ x c. same x ∙ c;
  new = λ x c. cc;
}
order_of g known l (n ∷ rest) h f o same =
    let id = id_of n in
    let next =
      order_of g (known ++ id ∷ []) (id ∷ l) rest h.4 f.1
        (
          same id ∙ h.0,
          λ b e. same b ∙ subset-contains b (parents_of n) known h.2 (Edge-parent g n b f.0 e),
          o,
          key_of_depends_on g id (parents_of n) f.0,
        )
        (λ x. contains-cons-snoc x id l known (same x)) in
    record {
      order = next.order;
      ordered = next.ordered;
      old = λ x c. next.old x (ground (arith, c, contains-append x known (id ∷ [])));
      new = λ x c. elim (Bool-cases (str_eq x id)) [
        | inl is ↦ next.old x (ground (arith, is, contains-append x known (id ∷ [])))
        | inr other ↦ next.new x (ground (arith, c, other))
      ];
    }

ids-to_nodes : (g : List Built) → ids (to_nodes g) ≡ built_ids g
ids-to_nodes [] = refl
ids-to_nodes (n ∷ g) = ap (λ l. id_of n ∷ l) (ids-to_nodes g)

-- Nodes that grow have no cycle and only known dependencies.
pub Grows-IsAcyclic : (g : List Built) → Grows [] g → Known (to_nodes g) × IsAcyclic (to_nodes g)
unfolding contains
Grows-IsAcyclic g h =
    let nodes = to_nodes g in
    let o = order_of nodes [] [] g h (All-IsFound [] g nodes refl h) tt (λ x. refl) in
    let every = λ (a : String). λ (c : contains a (ids nodes) ≡ true).
      o.new a (subst (λ l. contains a l ≡ true) (ids-to_nodes g) c) in
    (
      λ a b e.
          Ordered-key nodes b o.order o.ordered
            (Ordered-Edge o.order o.ordered (every a (key_of_Edge nodes e)) e),
      IsOrder-IsAcyclic nodes o.order (record { ordered = o.ordered; every = every }),
    )
