-- ===== src/Experiments/Matrix.antt =====
-- `matrix` of src/agenttrace/experiments/multi/config.py.
pub mod Sizes
use atcr_agent_trace_collect.Prelude.{
  ℕ, ◌+◌, ◌*◌, ◌==◌, leb, String, str_eq, Bool, true, false, not, ◌&&◌, ◌||◌, Option, none, some,
  List, [], ◌∷◌, ◌++◌, if◌then◌else◌, ok, err, ◌>>=◌, ◌>>◌,
}
use atcr_agent_trace_collect.Prelude.Int.{ℤ, pos}
use atcr_agent_trace_collect.Prelude.Texts.{joined, string_of, decimal}
use atcr_agent_trace_collect.Json.{Value, int}
use atcr_agent_trace_collect.Json.Access.{problem}
use atcr_agent_trace_collect.Experiments.{Outcome, unsupported_group, no_router}
use atcr_agent_trace_collect.Experiments.Config.{
  Workload, workload_name, Topology, topology_name, Group, Selection, Router, Config, or_value,
  pbs_for_point, openclaw, minisweagent, balanced, fixed_frontend, every_point, weak_scaling,
  frontend_scaling, mechanism, router_policies,
}

pub record Spec : Type 0 where
  pub replicas : ℕ
  pub topology : Topology
  pub routing : String
  pub reuse : String
  pub proxy : Bool

pub record Point : Type 0 where
  pub id : String
  pub workload : Workload
  pub inference_replicas : ℕ
  pub topology : Topology
  pub frontend_nodes : ℕ
  pub physical_nodes : ℕ
  pub routing : String
  pub prefix_reuse : String
  pub proxy : Bool
  pub smoke : Bool
  pub task_cc_per_replica : Value
  pub warmup_seconds : Value
  pub duration_seconds : Value
  pub seed : ℤ
  -- the field "router_impl"
  pub has_router : Bool
  pub pbs : Option Selection

-- The policies of the official router, for one number of nodes
unfoldable pub policy_specs : ℕ → List String → List Spec
policy_specs n [] = []
policy_specs n (policy ∷ rest) =
    record {
      replicas = n;
      topology = fixed_frontend;
      routing = policy;
      reuse = "normal";
      proxy = true;
    }
    ∷ policy_specs n rest

unfoldable pub router_specs : List ℕ → List String → List Spec
unfolding policy_specs
router_specs [] policies = []
router_specs (n ∷ rest) policies = policy_specs n policies ++ router_specs rest policies

abbrev pub scaling_spec : ℕ → Topology → Spec
scaling_spec n topology = record {
  replicas = n;
  topology = topology;
  routing = "sticky";
  reuse = "normal";
  proxy = false;
}

unfoldable pub scaling_specs : List ℕ → List Spec
scaling_specs [] = []
scaling_specs (n ∷ rest) =
    let later = scaling_specs rest in
    scaling_spec n balanced ∷ (if n == 1 then later else scaling_spec n fixed_frontend ∷ later)

abbrev pub mechanism_spec : (routing reuse : String) → Spec
mechanism_spec routing reuse = record {
  replicas = 4;
  topology = balanced;
  routing = routing;
  reuse = reuse;
  proxy = true;
}

abbrev pub mechanism_specs : List Spec
mechanism_specs =
    mechanism_spec "sticky" "normal"
    ∷ mechanism_spec "sticky" "none"
    ∷ mechanism_spec "round_robin" "normal"
    ∷ mechanism_spec "round_robin" "none"
    ∷ []

abbrev pub smoke_specs : List Spec
smoke_specs =
    record {
      replicas = 2;
      topology = balanced;
      routing = "round_robin";
      reuse = "none";
      proxy = true;
    }
    ∷ []

abbrev pub is_routing : Group → Bool
is_routing router_policies = true
is_routing _ = false

abbrev pub specs_of_router : Option Router → Outcome (List Spec)
specs_of_router none = err (problem no_router)
specs_of_router (some r) = ok (router_specs r.inference_nodes r.policies)

unfoldable pub specs_of : Config → (smoke : Bool) → Group → Outcome (List Spec)
unfolding router_specs scaling_specs
specs_of c smoke router_policies = specs_of_router c.router
specs_of c true group = ok smoke_specs
specs_of c false group = ok (scaling_specs c.inference_nodes ++ mechanism_specs)

abbrev pub is_mechanism : (smoke official : Bool) → Spec → Bool
is_mechanism smoke official s = s.proxy && not smoke && not official

abbrev pub kind_of : (smoke official : Bool) → Spec → String
kind_of smoke official s =
    if official
    then (if smoke then "routing-smoke" else "routing")
    else if smoke
    then "smoke"
    else if is_mechanism smoke official s
    then "mechanism"
    else topology_name s.topology

abbrev pub dashed : String → String → String
dashed a b = joined a (joined "-" b)

unfoldable pub name_of : (smoke official : Bool) → Spec → Workload → String
name_of smoke official s w =
    let base =
      dashed (workload_name w)
        (dashed (kind_of smoke official s) (joined "n" (string_of (decimal s.replicas)))) in
    if is_mechanism smoke official s
    then dashed base (dashed s.routing s.reuse)
    else if official
    then dashed base s.routing
    else base

abbrev pub frontends_of : Topology → ℕ → ℕ
frontends_of balanced n = n
frontends_of fixed_frontend n = 1

abbrev pub physical_of : Topology → ℕ → ℕ
physical_of balanced n = 2 * n
physical_of fixed_frontend n = n + 1

abbrev pub point_of : Config → (smoke official : Bool) → Spec → Workload → Point
point_of c smoke official s w =
    let item = c.workloads w in
    record {
      id = name_of smoke official s w;
      workload = w;
      inference_replicas = s.replicas;
      topology = s.topology;
      frontend_nodes = frontends_of s.topology s.replicas;
      physical_nodes = physical_of s.topology s.replicas;
      routing = s.routing;
      prefix_reuse = s.reuse;
      proxy = s.proxy;
      smoke = smoke;
      task_cc_per_replica = if smoke then int (pos 2) else item.task_cc_per_replica;
      warmup_seconds = if smoke then int (pos 30) else item.warmup_seconds;
      duration_seconds = if smoke then int (pos 60) else item.duration_seconds;
      seed = or_value (pos 42) c.seed;
      has_router = official;
      pbs = none;
    }

unfoldable pub points_of : Config → (smoke official : Bool) → List Spec → List Point
points_of c smoke official [] = []
points_of c smoke official (s ∷ rest) =
    point_of c smoke official s openclaw
    ∷ point_of c smoke official s minisweagent
    ∷ points_of c smoke official rest

abbrev pub is_balanced : Topology → Bool
is_balanced balanced = true
is_balanced fixed_frontend = false

-- The filter `group != "all"`
abbrev pub is_in : Group → Point → Bool
is_in every_point p = true
is_in weak_scaling p = is_balanced p.topology && not p.proxy
is_in frontend_scaling p = not (is_balanced p.topology)
is_in mechanism p = p.proxy
is_in router_policies p = p.has_router

-- The last two loops: the filter, and the queue of each point that is left.
unfoldable pub routed : Config → Group → List Point → List Point
routed c group [] = []
routed c group (p ∷ rest) =
    let later = routed c group rest in
    if is_in group p then record p { pbs = pbs_for_point c p.physical_nodes } ∷ later else later

unfoldable pub group_named : String → Option Group
group_named name =
    if str_eq name "all"
    then some every_point
    else if str_eq name "weak-scaling"
    then some weak_scaling
    else if str_eq name "fixed-frontend"
    then some frontend_scaling
    else if str_eq name "mechanism"
    then some mechanism
    else if str_eq name "routing"
    then some router_policies
    else none

-- `group not in GROUPS or (smoke and group not in ("all", "routing"))`
abbrev pub supported : (smoke : Bool) → Option Group → Outcome Group
supported smoke (some every_point) = ok every_point
supported smoke (some router_policies) = ok router_policies
supported false (some group) = ok group
supported _ _ = err (problem unsupported_group)

unfoldable pub matrix : Config → (smoke : Bool) → String → Outcome (List Point)
unfolding specs_of points_of routed pbs_for_point group_named
matrix c smoke name = do
  group ← supported smoke (group_named name)
  specs ← specs_of c smoke group
  ok (routed c group (points_of c smoke (is_routing group) specs))
