-- ===== src/Tests/Experiments.antt =====
-- src/agenttrace/experiments/multi/config.py on a small configuration.
use atcr_agent_trace_collect.Prelude.{
  ℕ, ◌+◌, ◌*◌, ◌-◌, ltb, String, true, false, ◌&&◌, ◌||◌, Option, none, some, List, [], ◌∷◌, ◌++◌,
  ◌≡◌, refl, ◌⊎◌, if◌then◌else◌, ok, err, ◌>>=◌, arith,
}
use Prim.Native.Char.{Char, code}
use atcr_agent_trace_collect.Prelude.Int.{pos}
use atcr_agent_trace_collect.Prelude.Names.{contains, remove}
use atcr_agent_trace_collect.Prelude.Texts.{string_of, code-digit, decimal, digits}
use atcr_agent_trace_collect.Json.{null, int}
use atcr_agent_trace_collect.Json.Access.{problem}
use atcr_agent_trace_collect.Experiments.{bad_walltime, unsupported_group, wrong_allocation}
use atcr_agent_trace_collect.Experiments.Walltime.{number_from, walltime_seconds}
use atcr_agent_trace_collect.Experiments.Walltime.Rendered.{
  rendered, ReadsDigits, walltime_seconds-rendered,
}
use atcr_agent_trace_collect.Experiments.Config.{
  Workload, openclaw, minisweagent, fixed_frontend, Selection, Item, Config, find_route,
  pbs_for_point,
}
use atcr_agent_trace_collect.Experiments.Matrix.{
  Point, point_of, scaling_spec, scaling_specs, specs_of, name_of, points_of, routed, group_named,
  matrix,
}
use atcr_agent_trace_collect.Experiments.Layout.{
  before_dot, short_name, short_names, unseen, take_names, drop_names, replica_of, Layout,
  frontend_at, replicas_from, layout_of, node_layout,
}
use atcr_agent_trace_collect.Experiments.Layout.Placed.{IsPlaced, fits, node_layout-IsPlaced}

-- The ASCII digits alone.
abbrev ascii : Char → Option ℕ
ascii c = if ltb (code c) 48 || ltb 57 (code c) then none else some (code c - 48)

ascii-digit : ReadsDigits ascii
ascii-digit d h = rw (code-digit d h) (ground (arith, h))

walltime_seconds-rendered_example : walltime_seconds ascii (string_of (rendered 1 30 5)) ≡ (
    if ltb 30 60 && ltb 5 60 && ltb 0 (1 * 3600 + 30 * 60 + 5)
    then ok (1 * 3600 + 30 * 60 + 5)
    else err (problem bad_walltime))
walltime_seconds-rendered_example =
    walltime_seconds-rendered ascii ascii-digit 1 30 5 (omega arith) (omega arith) (omega arith)

reads_hours : walltime_seconds ascii "100:00:01" ≡ ok 360001
unfolding walltime_seconds number_from
reads_hours = refl

abbrev item : Item
item = record {
  task_cc_per_replica = null;
  warmup_seconds = int (pos 60);
  duration_seconds = int (pos 600);
}

-- Points of more than four nodes go to a second queue, and those of more than eight to none.
abbrev config : Config
config = record {
  workloads = λ _. item;
  inference_nodes = 1 ∷ 2 ∷ [];
  router = none;
  pbs = record {
    queue = "debug";
    walltime = "01:00:00";
    max_nodes = some 3;
    overflow_routes =
        record {
          min_nodes = 4;
          max_nodes = 8;
          queue = "prod";
          walltime = "03:00:00";
          drain_budget_seconds = none;
        }
        ∷ [];
  };
  drain_budget_seconds = none;
  seed = none;
}

smoke_refused : matrix config true "mechanism" ≡ err (problem unsupported_group)
unfolding matrix group_named ◌>>=◌
smoke_refused = refl

abbrev selection : Selection
selection = record { queue = "debug"; walltime = "01:00:00"; drain_budget_seconds = 7200 }

abbrev point : Workload → Point
point w = record (point_of config false false (scaling_spec 2 fixed_frontend) w) {
  pbs = some selection;
}

lists_points :
    matrix config false "fixed-frontend" ≡ ok ([] ++ point openclaw ∷ point minisweagent ∷ [])
unfolding matrix group_named specs_of scaling_specs points_of routed pbs_for_point find_route ◌>>=◌
lists_points = refl

name_of_point : (point openclaw).id ≡ "openclaw-fixed_frontend-n2"
unfolding name_of decimal digits
name_of_point = refl

-- Four nodes are in the range of the second queue, nine in none.
second_queue :
    pbs_for_point config 4
    ≡ some (record { queue = "prod"; walltime = "03:00:00"; drain_budget_seconds = 7200 })
unfolding pbs_for_point find_route
second_queue = refl

no_queue : pbs_for_point config 9 ≡ none
unfolding pbs_for_point find_route
no_queue = refl

abbrev allocation : List String
allocation = "n3.polaris" ∷ "n1.polaris" ∷ "n1.polaris" ∷ "n2.polaris" ∷ []

node_layout-IsPlaced_example :
    ((fits (point openclaw) allocation "n2" ≡ true)
      × (l : Layout) × (node_layout (point openclaw) allocation "n2" ≡ ok l)
      × IsPlaced (point openclaw) allocation "n2" l)
    ⊎ ((fits (point openclaw) allocation "n2" ≡ false)
        × (node_layout (point openclaw) allocation "n2" ≡ err (problem wrong_allocation)))
node_layout-IsPlaced_example =
    node_layout-IsPlaced config false "fixed-frontend" [] (point minisweagent ∷ []) (point openclaw)
      allocation "n2" lists_points

lays_out :
    node_layout (point openclaw) allocation "n2"
    ≡ ok (record {
      frontends = "n2" ∷ [];
      inference = "n3" ∷ "n1" ∷ [];
      replicas = replica_of 0 "n3" "n2" ∷ replica_of 1 "n1" "n2" ∷ [];
    })
unfolding node_layout short_names short_name before_dot unseen contains remove layout_of take_names
    drop_names replicas_from frontend_at ◌>>=◌
lays_out = refl
