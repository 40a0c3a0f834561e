-- ===== src/Replay/Engine.antt =====
-- The scheduler of `replay_trace` in src/agenttrace/replay/engine.py: one task for each node
-- (`execute` inside `dispatch`), and the coroutine that gathers them. The event loop chooses which
-- task goes on: a run is a list of such choices, and a choice that the code does not allow gives
-- `none`. What an executor returns or raises is part of the choice. Nothing cancels `replay_trace` from
-- outside.
pub mod Phases
pub mod Log
pub mod Invariant
pub mod Order
pub mod Progress
pub mod Liveness
pub mod Outcome
use atcr_agent_trace_collect.Prelude.{
  ℕ, String, str_eq, Bool, true, false, not, ◌&&◌, ◌||◌, Option, none, some, List, [], ◌∷◌, ◌++◌,
  if◌then◌else◌,
}
use atcr_agent_trace_collect.Prelude.Names.{contains}
use atcr_agent_trace_collect.Schema.Types.{Node}
use atcr_agent_trace_collect.Schema.Nodes.{ids}
use atcr_agent_trace_collect.Schema.Graph.{depends_on}

-- Where a node's task is. `raised` covers every exception, a cancellation among them.
pub data Phase : Type 0 where
  waiting running completed raised : Phase

pub data Event : Type 0 where
  node_started node_completed : String → Event
  -- with `execution_started`
  node_failed node_cancelled : String → Bool → Event
  replay_failed replay_completed : Event

-- The coroutine that awaits all tasks: it gathers them, or has cancelled them and gathers them
-- again, or has returned its report, or has raised.
pub data Main : Type 0 where
  gathering cancelling returned failed : Main

pub record State : Type 0 where
  pub phase : String → Phase
  pub main : Main
  pub events : List Event

abbrev pub initial : State
initial = record { phase = λ _. waiting; main = gathering; events = [] }

-- The task of a node goes to another phase, with an event.
abbrev pub move : String → Phase → Event → State → State
move node_id phase event s = record s {
  phase = λ other. if str_eq other node_id then phase else s.phase other;
  events = s.events ++ event ∷ [];
}

abbrev pub is_waiting : Phase → Bool
is_waiting waiting = true
is_waiting _ = false

abbrev pub is_running : Phase → Bool
is_running running = true
is_running _ = false

abbrev pub is_completed : Phase → Bool
is_completed completed = true
is_completed _ = false

abbrev pub is_raised : Phase → Bool
is_raised raised = true
is_raised _ = false

abbrev pub is_done : Phase → Bool
is_done phase = is_completed phase || is_raised phase

abbrev pub is_gathering : Main → Bool
is_gathering gathering = true
is_gathering _ = false

abbrev pub is_cancelling : Main → Bool
is_cancelling cancelling = true
is_cancelling _ = false

unfoldable pub all_in : (Phase → Bool) → State → List String → Bool
all_in test s [] = true
all_in test s (n ∷ rest) = test (s.phase n) && all_in test s rest

unfoldable pub any_in : (Phase → Bool) → State → List String → Bool
any_in test s [] = false
any_in test s (n ∷ rest) = test (s.phase n) || any_in test s rest

-- `by_id[node_id]["depends_on"]`
abbrev pub or_empty : Option (List String) → List String
or_empty none = []
or_empty (some l) = l

abbrev pub parents : List Node → String → List String
parents g node_id = or_empty (depends_on g node_id)

pub data Choice : Type 0 where
  -- the gather of the parents' tasks returns
  start : String → Choice
  -- the executor returns
  complete : String → Choice
  -- the executor raises: an error, or with `true` a cancellation of its own
  fail : String → Bool → Choice
  -- the gather of the parents' tasks raises what a parent's task raised, also while all are cancelled
  propagate : String → Bool → Choice
  -- the gather of all tasks raises: the other tasks are cancelled
  stop : Choice
  -- a task meets its cancellation
  cancel : String → Choice
  -- the gather of the cancelled tasks returns, and the exception is raised again
  reraise : Choice
  -- the gather of all tasks returns
  finish : Choice

abbrev pub when : Bool → State → Option State
when test s = if test then some s else none

-- `dispatch` on an exception
abbrev pub failure : String → Bool → Bool → Event
failure node_id cancelled started =
    if cancelled then node_cancelled node_id started else node_failed node_id started

unfoldable pub step : List Node → Choice → State → Option State
unfolding all_in any_in
step g (start n) s =
    when
      (contains n (ids g)
        && is_waiting (s.phase n)
        && is_gathering s.main
        && all_in is_completed s (parents g n))
      (move n running (node_started n) s)
step g (complete n) s =
    when (contains n (ids g) && is_running (s.phase n)) (move n completed (node_completed n) s)
step g (fail n cancelled) s =
    when (contains n (ids g) && is_running (s.phase n)) (move n raised (failure n cancelled true) s)
step g (propagate n cancelled) s =
    when
      (contains n (ids g)
        && is_waiting (s.phase n)
        && (is_gathering s.main || is_cancelling s.main)
        && any_in is_raised s (parents g n))
      (move n raised (failure n cancelled false) s)
step g stop s =
    when (is_gathering s.main && any_in is_raised s (ids g))
      (record s { main = cancelling; events = s.events ++ replay_failed ∷ [] })
step g (cancel n) s =
    when
      (contains n (ids g)
        && is_cancelling s.main
        && (is_waiting (s.phase n) || is_running (s.phase n)))
      (move n raised (node_cancelled n (is_running (s.phase n))) s)
step g reraise s =
    when (is_cancelling s.main && all_in is_done s (ids g)) (record s { main = failed })
step g finish s =
    when (is_gathering s.main && all_in is_completed s (ids g))
      (record s { main = returned; events = s.events ++ replay_completed ∷ [] })

unfoldable pub run : List Node → List Choice → State → Option State
unfolding step
run g [] s = some s
run g (c ∷ rest) s = elim (step g c s) [ none ↦ none | some s' ↦ run g rest s' ]
