-- ===== src/Schema/Graph.antt =====
-- The dependency graph in `validate_trace` of src/agenttrace/schema.py: the check for unknown
-- dependencies, and the depth-first search `visit` with its sets `visiting` and `visited`.
pub mod Paths
pub mod Orders
pub mod Fuel
pub mod Cycles
pub mod Acyclicity
use atcr_agent_trace_collect.Prelude.{
  ℕ, zero, suc, ◌+◌, String, str_eq, Bool, true, false, Option, none, some, List, [], ◌∷◌,
  if◌then◌else◌, Result, ok, err, ◌>>=◌, ◌>>◌, length,
}
use atcr_agent_trace_collect.Prelude.Names.{contains, remove}
use atcr_agent_trace_collect.Schema.Types.{
  Error, unknown_dependency, dependency_cycle, missing_key, out_of_fuel, Node,
}
use atcr_agent_trace_collect.Schema.Nodes.{ids}

-- `by_id[node_id]["depends_on"]`
unfoldable pub depends_on : List Node → String → Option (List String)
depends_on [] node_id = none
depends_on (node ∷ rest) node_id =
    if str_eq node_id node.id then some node.depends_on else depends_on rest node_id

-- `for parent in node["depends_on"]: if parent not in by_id: raise`
unfoldable pub check_parents : List String → String → List String → Result Error (Unit {0})
check_parents known node_id [] = ok tt
check_parents known node_id (parent ∷ rest) =
    if contains parent known
    then check_parents known node_id rest
    else err (unknown_dependency parent node_id)

unfoldable pub check_dependencies : List String → List Node → Result Error (Unit {0})
unfolding check_parents
check_dependencies known [] = ok tt
check_dependencies known (node ∷ rest) =
    check_parents known node.id node.depends_on >> check_dependencies known rest

pub record Search : Type 0 where
  pub visiting : List String
  pub visited : List String

-- `for parent in parents: visit(parent)`
unfoldable pub visit_all :
    (String → Search → Result Error Search) → List String → Search → Result Error Search
visit_all visit [] s = ok s
visit_all visit (parent ∷ rest) s = do s' ← visit parent s; visit_all visit rest s'

abbrev pub enter : String → Search → Search
enter node_id s = record s { visiting = node_id ∷ s.visiting }

abbrev pub leave : String → Search → Search
leave node_id s = record { visiting = remove node_id s.visiting; visited = node_id ∷ s.visited }

-- The body of `visit`, over the recursive call.
unfoldable pub visit_with :
    (String → Search → Result Error Search) → List Node → String → Search → Result Error Search
unfolding visit_all
visit_with visit by_id node_id s =
    if contains node_id s.visiting
    then err dependency_cycle
    else if contains node_id s.visited
    then ok s
    else elim (depends_on by_id node_id) [
      | none ↦ err (missing_key node_id)
      | some parents ↦ do s' ← visit_all visit parents (enter node_id s); ok (leave node_id s')
    ]

unfoldable pub visit : ℕ → List Node → String → Search → Result Error Search
unfolding visit_with
visit zero by_id node_id s = err out_of_fuel
visit (suc fuel) by_id node_id s = visit_with (visit fuel by_id) by_id node_id s

abbrev pub unvisited : Search
unvisited = record { visiting = []; visited = [] }

-- The last loop. A path of nodes under visit has no repetition, so the fuel is their number.
unfoldable pub search_nodes : List Node → Result Error Search
unfolding visit visit_all
search_nodes by_id = visit_all (visit (length by_id + 1) by_id) (ids by_id) unvisited
