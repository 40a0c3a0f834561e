-- ===== src/Replay/Session/Cleanup.antt =====
-- What `replay_trace` of src/agenttrace/replay/engine.py leaves behind, whatever its calls raise.
use atcr_agent_trace_collect.Prelude.{
  ℕ, ◌+◌, ◌≤◌, Option, none, some, List, [], ◌∷◌, ◌≡◌, ◌⊎◌, inl, inr, ok, err, Result-cases, arith,
  if◌then◌else◌,
}
use atcr_agent_trace_collect.Schema.Types.{NodeType, llm, tool, Node}
use atcr_agent_trace_collect.Replay.Session.{
  Failure, Deed, setup, close, run_tasks, task_failed, cleanup_failed, closed, World, fresh,
  replay_trace,
}

-- How often an executor is set up, and how often it is closed.
abbrev pub setups : NodeType → Deed → ℕ
setups llm (setup llm) = 1
setups tool (setup tool) = 1
setups _ _ = 0

abbrev pub closes : NodeType → Deed → ℕ
closes llm (close llm) = 1
closes tool (close tool) = 1
closes _ _ = 0

abbrev pub failures : Deed → ℕ
failures (task_failed _ _) = 1
failures _ = 0

abbrev pub failed_cleanups : Deed → ℕ
failed_cleanups cleanup_failed = 1
failed_cleanups _ = 0

abbrev pub closings : Deed → ℕ
closings closed = 1
closings _ = 0

abbrev pub runs : Deed → ℕ
runs run_tasks = 1
runs _ = 0

abbrev pub last_deed : List Deed → Option Deed
last_deed [] = none
last_deed (d ∷ []) = some d
last_deed (d ∷ e ∷ rest) = last_deed (e ∷ rest)

unfoldable pub total : (Deed → ℕ) → List Deed → ℕ
total f [] = 0
total f (d ∷ rest) = f d + total f rest

-- What has been done at the end.
abbrev pub deeds_of : World → List Node → List Deed
deeds_of w nodes = (replay_trace w nodes fresh).1.deeds

module _ (w : World) (nodes : List Node) where
  closes_llm : total (closes llm) (deeds_of w nodes) ≡ total (setups llm) (deeds_of w nodes)
  unfolding replay_trace total
  closes_llm = ground arith

  closes_tool : total (closes tool) (deeds_of w nodes) ≡ total (setups tool) (deeds_of w nodes)
  unfolding replay_trace total
  closes_tool = ground arith

  allowed_llm : total (setups llm) (deeds_of w nodes) ≤ (if w.dry_run then 0 else 1)
  unfolding replay_trace total
  allowed_llm = ground arith

  allowed_tool : total (setups tool) (deeds_of w nodes) ≤ (if w.dry_run then 0 else 1)
  unfolding replay_trace total
  allowed_tool = ground arith

  closed_last :
      (last_deed (deeds_of w nodes) ≡ some closed) × (total closings (deeds_of w nodes) ≡ 1)
  unfolding replay_trace total
  closed_last = (ground arith, ground arith)

  -- Whatever is raised, and where: an executor is closed as often as its set-up was begun, at most
  -- once, and never in a dry run; and the last event is "closed", which is written once.
  pub closes-eq-setups :
      (kind : NodeType)
      → (total (closes kind) (deeds_of w nodes) ≡ total (setups kind) (deeds_of w nodes))
        × (total (setups kind) (deeds_of w nodes) ≤ (if w.dry_run then 0 else 1))
        × (last_deed (deeds_of w nodes) ≡ some closed)
        × (total closings (deeds_of w nodes) ≡ 1)
  closes-eq-setups llm = (closes_llm, allowed_llm, closed_last.0, closed_last.1)
  closes-eq-setups tool = (closes_tool, allowed_tool, closed_last.0, closed_last.1)

  -- A replay that returns has run its tasks once, with no failure and no failed clean-up.
  replay_trace-ok :
      (replay_trace w nodes fresh).0 ≡ ok tt
      → (total runs (deeds_of w nodes) ≡ 1)
        × (total failures (deeds_of w nodes) ≡ 0)
        × (total failed_cleanups (deeds_of w nodes) ≡ 0)
  unfolding replay_trace total
  replay_trace-ok h = (ground arith, ground arith, ground arith)

  -- A replay that raises has written "task_failed" at most once and "cleanup_failed" at most once, and
  -- at least one of the two.
  replay_trace-err :
      (e : Failure)
      → (replay_trace w nodes fresh).0 ≡ err e
      → (1 ≤ total failures (deeds_of w nodes) + total failed_cleanups (deeds_of w nodes))
        × (total failures (deeds_of w nodes) ≤ 1)
        × (total failed_cleanups (deeds_of w nodes) ≤ 1)
  unfolding replay_trace total
  replay_trace-err e h = (ground arith, ground arith, ground arith)

  -- Either the replay returns, and it has run its tasks once, with no failure and no failed clean-up; or
  -- it raises, and it has written "task_failed" at most once and "cleanup_failed" at most once, and at
  -- least one of the two.
  pub replay_trace-ends :
      (((replay_trace w nodes fresh).0 ≡ ok tt)
        × (total runs (deeds_of w nodes) ≡ 1)
        × (total failures (deeds_of w nodes) ≡ 0)
        × (total failed_cleanups (deeds_of w nodes) ≡ 0))
      ⊎ ((e : Failure) × ((replay_trace w nodes fresh).0 ≡ err e)
          × (1 ≤ total failures (deeds_of w nodes) + total failed_cleanups (deeds_of w nodes))
          × (total failures (deeds_of w nodes) ≤ 1)
          × (total failed_cleanups (deeds_of w nodes) ≤ 1))
  replay_trace-ends = elim (Result-cases (replay_trace w nodes fresh).0) [
    | inl (_, h) ↦ let (run, failed, cleaned) = replay_trace-ok h in inl (h, run, failed, cleaned)
    | inr (e, h) ↦
        let (one, failed, cleaned) = replay_trace-err e h in inr (e, h, one, failed, cleaned)
  ]
