-- ===== src/Replay/Session.antt =====
-- `replay_trace` of src/agenttrace/replay/engine.py around its tasks: the set-up of the executors, the
-- failure that is reported, and the clean-up. What the calls of other components raise is a parameter.
pub mod Cleanup
use atcr_agent_trace_collect.Prelude.{
  ℕ, ◌==◌, Bool, true, false, not, ◌&&◌, ◌||◌, Option, none, some, List, [], ◌∷◌, ◌++◌,
  if◌then◌else◌, Result, ok, err,
}
use atcr_agent_trace_collect.Prelude.Actions.{
  Action, pure, throw, modify, gets, ◌>>=◌, ◌>>◌, only_if, on_error, try_finally,
}
use atcr_agent_trace_collect.Schema.Types.{NodeType, llm, tool, Node}

-- What `except BaseException as error` tells apart.
pub data Failure : Type 0 where
  -- httpx.TransportError
  transport : Failure
  -- httpx.HTTPStatusError
  http_status : ℕ → Failure
  -- no executor was configured: RuntimeError
  no_executor : NodeType → Failure
  -- any other, a cancellation among them
  other : Failure

pub data FailureKind : Type 0 where
  http_transport http_server execution : FailureKind

-- The calls into other components, and the events that are written.
pub data Deed : Type 0 where
  restore_workspace : Deed
  setup close : NodeType → Deed
  run_tasks : Deed
  setup_started replay_started : Deed
  task_failed : FailureKind → Option ℕ → Deed
  cleanup_failed closed : Deed

-- What the calls raise, if they do.
pub record World : Type 0 where
  pub dry_run : Bool
  pub has_executor : NodeType → Bool
  pub restoring : Option Failure
  pub setting_up : NodeType → Option Failure
  pub tasks : Option Failure
  pub closing : NodeType → Option Failure

-- `llm_started`, `tool_started`, and what has been done.
pub record Session : Type 0 where
  pub llm_started : Bool
  pub tool_started : Bool
  pub deeds : List Deed

abbrev pub fresh : Session
fresh = record { llm_started = false; tool_started = false; deeds = [] }

abbrev pub do_deed : Deed → Session → Session
do_deed d s = record s { deeds = s.deeds ++ d ∷ [] }

abbrev pub emit : Deed → Action Failure Session (Unit {0})
emit d = modify (do_deed d)

abbrev pub outcome : Option Failure → Result Failure (Unit {0})
outcome none = ok tt
outcome (some e) = err e

-- A call that may raise.
abbrev pub call : Deed → Option Failure → Action Failure Session (Unit {0})
call d raises s = (outcome raises, do_deed d s)

abbrev pub mark : NodeType → Session → Session
mark llm s = record s { llm_started = true }
mark tool s = record s { tool_started = true }

abbrev is_llm : NodeType → Bool
is_llm llm = true
is_llm tool = false

-- `any(node["type"] == kind for node in trace["nodes"])`
unfoldable pub has_kind : NodeType → List Node → Bool
has_kind kind [] = false
has_kind llm (n ∷ rest) = is_llm n.type || has_kind llm rest
has_kind tool (n ∷ rest) = not (is_llm n.type) || has_kind tool rest

-- One of the two set-up blocks.
unfoldable pub set_up : World → NodeType → Action Failure Session (Unit {0})
set_up w kind s =
    if w.has_executor kind
    then call (setup kind) (w.setting_up kind) (mark kind s)
    else throw (no_executor kind) s

-- The body of the `try` block: `nodes` are the trace's.
unfoldable pub body : World → List Node → Action Failure Session (Unit {0})
unfolding set_up
body w nodes = do
  call restore_workspace w.restoring
  only_if (not w.dry_run && has_kind llm nodes) (set_up w llm)
  only_if (not w.dry_run && has_kind tool nodes) (set_up w tool)
  emit replay_started
  call run_tasks w.tasks

unfoldable pub status_of : Failure → Option ℕ
status_of (http_status n) = some n
status_of _ = none

unfoldable pub kind_of : Failure → FailureKind
kind_of transport = http_transport
kind_of (http_status n) =
    if n == 500 || n == 502 || n == 503 || n == 504 then http_server else execution
kind_of _ = execution

abbrev pub report_failure : Failure → Session → Session
report_failure e = do_deed (task_failed (kind_of e) (status_of e))

-- The inner `finally`: the tool executor is closed first, and the LLM executor in any case.
unfoldable pub close_executors : World → Action Failure Session (Unit {0})
close_executors w =
    try_finally (λ s. only_if s.tool_started (call (close tool) (w.closing tool)) s)
      (λ s. only_if s.llm_started (call (close llm) (w.closing llm)) s)

-- The outer `finally`.
unfoldable pub cleanup : World → Action Failure Session (Unit {0})
unfolding close_executors
cleanup w =
    try_finally (λ s. on_error (λ _. do_deed cleanup_failed) (close_executors w s)) (emit closed)

unfoldable pub replay_trace : World → List Node → Action Failure Session (Unit {0})
unfolding body cleanup
replay_trace w nodes = do
  emit setup_started
  try_finally (λ s. on_error report_failure (body w nodes s)) (cleanup w)
