-- ===== src/Experiments/Config.antt =====
-- The entries of a configuration that `matrix` and `pbs_for_point` of src/agenttrace/experiments/multi/config.py
-- read, and `pbs_for_point`.
use atcr_agent_trace_collect.Prelude.{
  ℕ, leb, String, Bool, true, ◌&&◌, Option, none, some, List, [], ◌∷◌, if◌then◌else◌,
}
use atcr_agent_trace_collect.Prelude.Int.{ℤ}
use atcr_agent_trace_collect.Json.{Value}

pub data Workload : Type 0 where
  openclaw minisweagent : Workload

abbrev pub workload_name : Workload → String
workload_name openclaw = "openclaw"
workload_name minisweagent = "minisweagent"

-- The field "layout"
pub data Topology : Type 0 where
  balanced fixed_frontend : Topology

abbrev pub topology_name : Topology → String
topology_name balanced = "balanced"
topology_name fixed_frontend = "fixed_frontend"

-- `GROUPS`
pub data Group : Type 0 where
  every_point weak_scaling frontend_scaling mechanism router_policies : Group

-- What of a point's queue is read later.
pub record Selection : Type 0 where
  pub queue : String
  pub walltime : String
  pub drain_budget_seconds : ℕ

pub record Route : Type 0 where
  pub min_nodes : ℕ
  pub max_nodes : ℕ
  pub queue : String
  pub walltime : String
  pub drain_budget_seconds : Option ℕ

pub record Pbs : Type 0 where
  pub queue : String
  pub walltime : String
  pub max_nodes : Option ℕ
  pub overflow_routes : List Route

-- An entry of "workloads"; `task_cc_per_replica` is `None` where it is missing.
pub record Item : Type 0 where
  pub task_cc_per_replica : Value
  pub warmup_seconds : Value
  pub duration_seconds : Value

pub record Router : Type 0 where
  pub inference_nodes : List ℕ
  pub policies : List String

pub record Config : Type 0 where
  pub workloads : Workload → Item
  pub inference_nodes : List ℕ
  pub router : Option Router
  pub pbs : Pbs
  pub drain_budget_seconds : Option ℕ
  pub seed : Option ℤ

abbrev pub or_value : {A : Type 0} → A → Option A → A
or_value d none = d
or_value d (some v) = v

-- `{**selected, **route}`
abbrev pub rerouted : Selection → Route → Selection
rerouted s r = record {
  queue = r.queue;
  walltime = r.walltime;
  drain_budget_seconds = or_value s.drain_budget_seconds r.drain_budget_seconds;
}

unfoldable pub find_route : Selection → ℕ → List Route → Option Selection
find_route s count [] = none
find_route s count (r ∷ rest) =
    let later = find_route s count rest in
    if leb r.min_nodes count && leb count r.max_nodes then some (rerouted s r) else later

-- `max_nodes is None or count <= max_nodes`
abbrev pub is_within : ℕ → Option ℕ → Bool
is_within count none = true
is_within count (some limit) = leb count limit

unfoldable pub pbs_for_point : Config → ℕ → Option Selection
unfolding find_route
pbs_for_point c count =
    let selected : Selection = record {
      queue = c.pbs.queue;
      walltime = c.pbs.walltime;
      drain_budget_seconds = or_value 7200 c.drain_budget_seconds;
    } in
    if is_within count c.pbs.max_nodes
    then some selected
    else find_route selected count c.pbs.overflow_routes
