-- ===== src/Schema/Graph/Paths.antt =====
-- Paths of dependencies, cycles, and orders of the nodes in which dependencies come first.
use atcr_agent_trace_collect.Prelude.{
  String, true, false, ◌≡◌, ◌⊎◌, inl, inr, subst, some, List, [], ◌∷◌, arith, eq_iff,
}
use atcr_agent_trace_collect.Prelude.Names.{contains}
use atcr_agent_trace_collect.Schema.Types.{Node}
use atcr_agent_trace_collect.Schema.Nodes.{ids}
use atcr_agent_trace_collect.Schema.Graph.{depends_on}

-- Node `a` lists `b` under "depends_on".
pub record Edge (g : List Node) (a b : String) : Type 0 where
  pub parents : List String
  pub listed : depends_on g a ≡ some parents
  pub parent : contains b parents ≡ true

-- A path of one or more dependencies.
pub data Reaches (g : List Node) : String → String → Type 0 where
  edge : {a b : String} → Edge g a b → Reaches g a b
  next : {a b c : String} → Edge g a b → Reaches g b c → Reaches g a c

pub Reaches-snoc : {g : List Node} {a b c : String} → Reaches g a b → Edge g b c → Reaches g a c
Reaches-snoc (edge e) f = next e (edge f)
Reaches-snoc (next e r) f = next e (Reaches-snoc r f)

abbrev pub IsAcyclic : List Node → Type 0
IsAcyclic g = (a : String) → ¬ Reaches g a a

-- Nodes without repetition, every dependency of a member behind it.
abbrev pub Ordered : List Node → List String → Type 0
Ordered g [] = Unit
Ordered g (x ∷ l) =
    (contains x l ≡ false)
    × ((b : String) → Edge g x b → contains b l ≡ true)
    × Ordered g l
    × (contains x (ids g) ≡ true)

pub contains_rest :
    (a x : String) (l : List String) → contains a (x ∷ l) ≡ true → (a ≡ x) ⊎ (contains a l ≡ true)
unfolding contains
contains_rest a x l h = ground (arith, eq_iff a x)

pub contains_tail :
    (a x : String) (l : List String) → contains a l ≡ true → contains a (x ∷ l) ≡ true
unfolding contains
contains_tail a x l h = ground arith

pub Ordered-key :
    (g : List Node) (a : String) (l : List String)
    → Ordered g l
    → contains a l ≡ true
    → contains a (ids g) ≡ true
unfolding contains
Ordered-key g a [] o h = cc
Ordered-key g a (x ∷ l) o h = elim (contains_rest a x l h) [
  | inl same ↦ rw same (o.3)
  | inr behind ↦ Ordered-key g a l o.2 behind
]

pub Ordered-Edge :
    {g : List Node} {a b : String} (l : List String)
    → Ordered g l
    → contains a l ≡ true
    → Edge g a b
    → contains b l ≡ true
unfolding contains
Ordered-Edge [] o h e = cc
Ordered-Edge {g} {a} {b} (x ∷ l) o h e = elim (contains_rest a x l h) [
  | inl same ↦ contains_tail b x l (o.1 b (same_edge same e))
  | inr behind ↦ contains_tail b x l (Ordered-Edge l o.2 behind e)
]
  where
    same_edge : a ≡ x → Edge g a b → Edge g x b
    same_edge p f = record { parents = f.parents; listed = cc (f.listed); parent = f.parent }

Ordered-Reaches :
    {g : List Node} {a b : String} (l : List String)
    → Ordered g l
    → contains a l ≡ true
    → Reaches g a b
    → contains b l ≡ true
Ordered-Reaches l o h (edge e) = Ordered-Edge l o h e
Ordered-Reaches l o h (next e r) = Ordered-Reaches l o (Ordered-Edge l o h e) r

-- From the head every path leads behind it.
Ordered-head :
    {g : List Node} {b : String} (x : String) (l : List String)
    → Ordered g (x ∷ l)
    → Reaches g x b
    → contains b l ≡ true
Ordered-head x l o (edge e) = o.1 _ e
Ordered-head x l o (next e r) = Ordered-Reaches l o.2 (o.1 _ e) r

-- A node of the order is on no cycle.
pub Ordered-acyclic :
    {g : List Node} (a : String) (l : List String)
    → Ordered g l
    → contains a l ≡ true
    → ¬ Reaches g a a
unfolding contains
Ordered-acyclic a [] o h r = cc
Ordered-acyclic {g} a (x ∷ l) o h r = elim (contains_rest a x l h) [
  | inl same ↦ clash same r
  | inr behind ↦ Ordered-acyclic a l o.2 behind r
]
  where
    clash : a ≡ x → Reaches g a a → ⊥
    clash same loop =
        let head : contains x l ≡ true =
          Ordered-head x l o (subst (λ b. Reaches g b b) same loop) in
        cc (o.0, head)
