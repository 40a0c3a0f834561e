-- ===== src/Tests/Engine.antt =====
-- src/agenttrace/replay/engine.py on the sample trace: one run to the end, and one that fails.
use atcr_agent_trace_collect.Prelude.{
  ◌+◌, ◌*◌, ◌≤◌, String, ◌≡◌, refl, ◌⊎◌, Option, some, none, List, [], ◌∷◌, ◌++◌, true, false,
  length,
}
use atcr_agent_trace_collect.Prelude.Names.{contains}
use atcr_agent_trace_collect.Schema.Nodes.{ids}
use atcr_agent_trace_collect.Schema.Graph.{depends_on}
use atcr_agent_trace_collect.Replay.Engine.{
  Event, node_started, node_completed, node_failed, replay_failed, replay_completed, gathering,
  returned, State, initial, is_completed, parents, Choice, start, complete, fail, propagate, stop,
  reraise, finish, run,
}
use atcr_agent_trace_collect.Replay.Engine.Log.{logs_start, logs_completion}
use atcr_agent_trace_collect.Replay.Engine.Order.{run-Justified}
use atcr_agent_trace_collect.Replay.Engine.Progress.{run_bound}
use atcr_agent_trace_collect.Replay.Engine.Liveness.{is_live, replay_ends}
use atcr_agent_trace_collect.Replay.Engine.Outcome.{any_failure, replay_without_failure}
use atcr_agent_trace_collect.Tests.Traces.{sample_nodes}
use atcr_agent_trace_collect.Tests.Schema.{sample-IsValid}

abbrev pub success : List Choice
success =
    start "a" ∷ complete "a" ∷ start "b" ∷ complete "b" ∷ start "c" ∷ complete "c" ∷ finish ∷ []

-- The state in which a run ends; the run of the sample is possible.
abbrev end_of : Option State → State
end_of none = initial
end_of (some s) = s

abbrev pub success_end : State
unfolding run depends_on contains
success_end = end_of (run sample_nodes success initial)

pub success_runs : run sample_nodes success initial ≡ some success_end
unfolding run depends_on contains
success_runs = refl

abbrev pub failure_run : List Choice
failure_run =
    start "a"
    ∷ complete "a"
    ∷ start "b"
    ∷ fail "b" false
    ∷ propagate "c" false
    ∷ stop
    ∷ reraise
    ∷ []

abbrev pub failure_end : State
unfolding run depends_on contains
failure_end = end_of (run sample_nodes failure_run initial)

pub failure_runs : run sample_nodes failure_run initial ≡ some failure_end
unfolding run depends_on contains
failure_runs = refl

failure_log :
    failure_end.events
    ≡ node_started "a"
      ∷ node_completed "a"
      ∷ node_started "b"
      ∷ node_failed "b" true
      ∷ node_failed "c" false
      ∷ replay_failed
      ∷ []
unfolding run depends_on contains
failure_log = refl

-- A node does not start before its dependency has completed.
too_early : run sample_nodes (start "a" ∷ start "b" ∷ []) initial ≡ none
unfolding run depends_on contains
too_early = refl

abbrev before_c : List Event
before_c = node_started "a" ∷ node_completed "a" ∷ node_started "b" ∷ node_completed "b" ∷ []

c_starts :
    success_end.events ≡ before_c ++ node_started "c" ∷ node_completed "c" ∷ replay_completed ∷ []
unfolding run depends_on contains
c_starts = refl

abbrev before_b_fails : List Event
before_b_fails = node_started "a" ∷ node_completed "a" ∷ node_started "b" ∷ []

run_bound_example : length success ≤ 2 * length sample_nodes + 2
run_bound_example = run_bound sample_nodes success success_end success_runs

first_steps :
    run sample_nodes (start "a" ∷ []) initial
    ≡ some (end_of (run sample_nodes (start "a" ∷ []) initial))
unfolding run depends_on contains
first_steps = refl

replay_ends_example :
    (more : List Choice) × (t : State) × (run sample_nodes more
        (end_of (run sample_nodes (start "a" ∷ []) initial))
      ≡ some t)
    × (is_live t.main ≡ false)
replay_ends_example =
    replay_ends sample_nodes (start "a" ∷ []) (end_of (run sample_nodes (start "a" ∷ []) initial))
      sample-IsValid first_steps

no_failure : any_failure success ≡ false
unfolding any_failure
no_failure = refl

replay_without_failure_example :
    (success_end.main ≡ gathering)
    ⊎ (success_end.main ≡ returned)
      × ((n : String)
          → contains n (ids sample_nodes) ≡ true
          → is_completed (success_end.phase n) ≡ true)
replay_without_failure_example =
    replay_without_failure sample_nodes success success_end success_runs no_failure

run-Justified_example :
    ((p : String)
      → contains p (parents sample_nodes "c") ≡ true
      → logs_completion p before_c ≡ true)
    × (logs_start "c" before_c ≡ false)
run-Justified_example =
    run-Justified sample_nodes success success_end success_runs before_c
      (node_completed "c" ∷ replay_completed ∷ []) (node_started "c") c_starts
