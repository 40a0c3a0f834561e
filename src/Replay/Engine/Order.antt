-- ===== src/Replay/Engine/Order.antt =====
-- What the event log of a run of src/agenttrace/replay/engine.py shows, whatever the order in which
-- the event loop goes on with the tasks.
use atcr_agent_trace_collect.Prelude.{
  String, Bool, true, false, ◌≡◌, ◌⊎◌, inl, inr, some, List, ◌∷◌, ◌++◌,
}
use atcr_agent_trace_collect.Prelude.Names.{contains}
use atcr_agent_trace_collect.Schema.Types.{Node}
use atcr_agent_trace_collect.Schema.Nodes.{ids}
use atcr_agent_trace_collect.Replay.Engine.{
  Event, node_started, node_completed, node_failed, node_cancelled, replay_completed, State,
  initial, parents, Choice, run,
}
use atcr_agent_trace_collect.Replay.Engine.Log.{logs_start, logs_completion}
use atcr_agent_trace_collect.Replay.Engine.Invariant.{Justified, run-Inv, Inv-initial}

abbrev pub Reaches : List Node → List Choice → State → Type 0
Reaches g choices s = run g choices initial ≡ some s

module _ (g : List Node) (choices : List Choice) (s : State) (r : Reaches g choices s)
    (before after : List Event) (n : String) where
  -- A node starts once, and after each of its dependencies has completed.
  pub starts_after_parents :
      s.events ≡ before ++ node_started n ∷ after
      → ((p : String) → contains p (parents g n) ≡ true → logs_completion p before ≡ true)
        × (logs_start n before ≡ false)
  starts_after_parents e =
      (run-Inv g choices initial s (Inv-initial g) r).justified before (node_started n) after e

  -- A node completes once, after its start.
  pub completes_after_start :
      s.events ≡ before ++ node_completed n ∷ after
      → (logs_start n before ≡ true) × (logs_completion n before ≡ false)
  completes_after_start e =
      (run-Inv g choices initial s (Inv-initial g) r).justified before (node_completed n) after e

  -- A failure tells whether the node had started, and does not follow a completion.
  pub failure_tells_start :
      (started : Bool)
      → (s.events ≡ before ++ node_failed n started ∷ after)
        ⊎ (s.events ≡ before ++ node_cancelled n started ∷ after)
      → (logs_start n before ≡ started) × (logs_completion n before ≡ false)
  failure_tells_start started (inl e) =
      (run-Inv g choices initial s (Inv-initial g) r).justified before (node_failed n started) after
        e
  failure_tells_start started (inr e) =
      (run-Inv g choices initial s (Inv-initial g) r).justified before (node_cancelled n started)
        after e

-- Every event of a log is justified by the events before it. A start is the first of its node, and each
-- dependency has completed. A completion follows the start and is the first of its node. A failure or
-- a cancellation says truly whether the node had started, and follows no completion.
-- "replay_completed" follows a completion of every node.
pub run-Justified :
    (g : List Node) (choices : List Choice) (s : State)
    → Reaches g choices s
    → (before after : List Event) (x : Event) → s.events ≡ before ++ x ∷ after
    → Justified g before x
run-Justified g choices s r before after x e =
    (run-Inv g choices initial s (Inv-initial g) r).justified before x after e

-- "replay_completed" is written only when every node's completion is in the log.
pub replay_completed_after_all :
    (g : List Node) (choices : List Choice) (s : State)
    → Reaches g choices s
    → (before after : List Event) (n : String) → s.events ≡ before ++ replay_completed ∷ after
    → contains n (ids g) ≡ true
    → logs_completion n before ≡ true
replay_completed_after_all g choices s r before after n e =
    (run-Inv g choices initial s (Inv-initial g) r).justified before replay_completed after e n
