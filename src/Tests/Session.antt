-- ===== src/Tests/Session.antt =====
-- `replay_trace` of src/agenttrace/replay/engine.py on the sample trace: a set-up that raises, and a
-- replay that returns.
use atcr_agent_trace_collect.Prelude.{
  ◌+◌, ◌≤◌, ◌≡◌, ◌⊎◌, refl, if◌then◌else◌, true, false, Option, none, some, [], ◌∷◌, ok, err,
}
use atcr_agent_trace_collect.Schema.Types.{NodeType, llm, tool}
use atcr_agent_trace_collect.Replay.Session.{
  Failure, http_status, other, World, restore_workspace, setup, close, run_tasks, setup_started,
  replay_started, task_failed, http_server, cleanup_failed, closed, fresh, replay_trace, has_kind,
  kind_of, status_of,
}
use atcr_agent_trace_collect.Replay.Session.Cleanup.{
  setups, closes, failures, failed_cleanups, closings, runs, last_deed, total, deeds_of,
  closes-eq-setups, replay_trace-ends,
}
use atcr_agent_trace_collect.Tests.Traces.{sample_nodes}

abbrev raises_never : NodeType → Option Failure
raises_never _ = none

abbrev raises_tool : NodeType → Option Failure
raises_tool llm = none
raises_tool tool = some other

abbrev calm : World
calm = record {
  dry_run = false;
  has_executor = λ kind. true;
  restoring = none;
  setting_up = raises_never;
  tasks = none;
  closing = raises_never;
}

-- The tasks end by an HTTP 503, and the tool executor does not close.
abbrev stormy : World
stormy = record calm { tasks = some (http_status 503); closing = raises_tool }

calm_returns : (replay_trace calm sample_nodes fresh).0 ≡ ok tt
unfolding replay_trace has_kind kind_of status_of
calm_returns = refl

-- The clean-up's own exception is the one that is raised, and the LLM executor is closed all the same.
stormy_deeds : replay_trace stormy sample_nodes fresh ≡ (
  err other,
  record {
    llm_started = true;
    tool_started = true;
    deeds =
        setup_started
        ∷ restore_workspace
        ∷ setup llm
        ∷ setup tool
        ∷ replay_started
        ∷ run_tasks
        ∷ task_failed http_server (some 503)
        ∷ close tool
        ∷ close llm
        ∷ cleanup_failed
        ∷ closed
        ∷ [];
  },
)
unfolding replay_trace has_kind kind_of status_of
stormy_deeds = refl

stormy_raises : (replay_trace stormy sample_nodes fresh).0 ≡ err other
unfolding replay_trace has_kind kind_of status_of
stormy_raises = refl

closes-eq-setups_example :
    (total (closes llm) (deeds_of stormy sample_nodes)
      ≡ total (setups llm) (deeds_of stormy sample_nodes))
    × (total (setups llm) (deeds_of stormy sample_nodes) ≤ (if stormy.dry_run then 0 else 1))
    × (last_deed (deeds_of stormy sample_nodes) ≡ some closed)
    × (total closings (deeds_of stormy sample_nodes) ≡ 1)
closes-eq-setups_example = closes-eq-setups stormy sample_nodes llm

replay_trace-ends_example :
    (((replay_trace stormy sample_nodes fresh).0 ≡ ok tt)
      × (total runs (deeds_of stormy sample_nodes) ≡ 1)
      × (total failures (deeds_of stormy sample_nodes) ≡ 0)
      × (total failed_cleanups (deeds_of stormy sample_nodes) ≡ 0))
    ⊎ ((e : Failure) × ((replay_trace stormy sample_nodes fresh).0 ≡ err e)
        × (1
            ≤ total failures (deeds_of stormy sample_nodes)
              + total failed_cleanups (deeds_of stormy sample_nodes))
        × (total failures (deeds_of stormy sample_nodes) ≤ 1)
        × (total failed_cleanups (deeds_of stormy sample_nodes) ≤ 1))
replay_trace-ends_example = replay_trace-ends stormy sample_nodes
