-- ===== src/Schema/Graph/Fuel.antt =====
-- How many nodes of the graph are not under visit: what bounds the depth of `visit` in
-- src/agenttrace/schema.py.
use atcr_agent_trace_collect.Prelude.{
  ℕ, suc, ◌≤◌, ◌<◌, String, true, false, ◌≡◌, refl, some, List, [], ◌∷◌, arith, eq_iff,
  if◌then◌else◌, str_eq, inl, inr, Bool-cases, length,
}
use atcr_agent_trace_collect.Prelude.Names.{contains}
use atcr_agent_trace_collect.Schema.Types.{Node}
use atcr_agent_trace_collect.Schema.Nodes.{ids}
use atcr_agent_trace_collect.Schema.Graph.{depends_on}

pub free : List String → List String → ℕ
free visiting [] = 0
free visiting (x ∷ keys) =
    let rest = free visiting keys in if contains x visiting then rest else suc rest

pub free-cons_le :
    (a : String) (visiting keys : List String) → free (a ∷ visiting) keys ≤ free visiting keys
unfolding free contains
free-cons_le a visiting [] = omega arith
free-cons_le a visiting (x ∷ keys) = ground (arith, free-cons_le a visiting keys)

pub free-cons_lt :
    (a : String) (visiting keys : List String)
    → contains a keys ≡ true
    → contains a visiting ≡ false
    → free (a ∷ visiting) keys < free visiting keys
unfolding free contains
free-cons_lt a visiting [] h fresh = absurd (cc)
free-cons_lt a visiting (x ∷ keys) h fresh =
    ground
      (arith, eq_iff a x, eq_iff x a, free-cons_le a visiting keys, free-cons_lt a visiting keys)

pub free-same :
    (v w keys : List String)
    → ((a : String) → contains a v ≡ contains a w)
    → free v keys ≡ free w keys
unfolding free
free-same v w [] h = refl
free-same v w (x ∷ keys) h = ground (arith, h x, free-same v w keys h)

pub free-nil : (keys : List String) → free [] keys ≡ length keys
unfolding free contains
free-nil [] = refl
free-nil (x ∷ keys) = ground (arith, free-nil keys)

pub depends_on_of_key :
    (g : List Node) (a : String)
    → contains a (ids g) ≡ true
    → (parents : List String) × (depends_on g a ≡ some parents)
unfolding contains depends_on
depends_on_of_key [] a h = absurd (cc)
depends_on_of_key (n ∷ g) a h = elim (Bool-cases (str_eq a n.id)) [
  | inl e ↦ (n.depends_on, rw e)
  | inr e ↦ rw e (depends_on_of_key g a (rw e at h))
]

pub key_of_depends_on :
    (g : List Node) (a : String) (parents : List String)
    → depends_on g a ≡ some parents
    → contains a (ids g) ≡ true
unfolding contains depends_on
key_of_depends_on [] a parents h = cc
key_of_depends_on (n ∷ g) a parents h = ground (arith, key_of_depends_on g a parents)
