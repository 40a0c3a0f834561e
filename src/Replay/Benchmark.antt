-- ===== src/Replay/Benchmark.antt =====
-- src/agenttrace/replay/benchmark.py: the rows of a benchmark, `next_row`, the workers and the gather
-- over them. The clock is read by each step, and `shuffle` is what the n-th `rng.shuffle` leaves.
pub mod Tables
pub mod Moves
pub mod Holding
pub mod Steps
pub mod Bound
pub mod Cycles
pub mod Admissions
pub mod Outcome
pub mod Rounds
pub mod Finished
pub mod FailFast
use atcr_agent_trace_collect.Prelude.{
  ℕ, zero, suc, ◌+◌, ◌-◌, ◌==◌, leb, min, String, str_eq, Bool, true, false, not, ◌&&◌, ◌||◌,
  Option, none, some, List, [], ◌∷◌, ◌++◌, if◌then◌else◌, length,
}

pub data Status : Type 0 where
  pending running completed failed cancelled : Status

-- `task` is the number that `task_id` prints.
pub record Row : Type 0 where
  pub task : ℕ
  pub trace_path : String
  pub cycle : Option ℕ
  pub status : Status

-- Where a worker's task stands: `busy` with the row at a position of `rows`.
pub data Worker : Type 0 where
  created returned raised : Worker
  busy : ℕ → Worker

-- `benchmark` itself: in the gather, after the cancellation of the workers, or past either.
pub data Main : Type 0 where
  gathering cancelling stopped : Main
  ended : (with_errors : Bool) → Main

-- The arguments: `deadline` is that of a timed benchmark.
pub record Plan : Type 0 where
  pub paths : List String
  pub repeat : ℕ
  pub concurrency : ℕ
  pub deadline : Option ℕ
  pub continue_on_http_error : Bool
  pub shuffle : ℕ → List String → List String

pub record State : Type 0 where
  pub rows : List Row
  -- `queue`, of positions in `rows`
  pub queue : List ℕ
  -- `failed.is_set()`
  pub has_failed : Bool
  pub cycle : List String
  pub cycle_number : ℕ
  pub workers : List Worker
  pub main : Main

-- `paths * repeat`
abbrev pub repeated : ℕ → List String → List String
repeated zero paths = []
repeated (suc n) paths = paths ++ repeated n paths

-- `enumerate(..., 1)`
abbrev pub numbered : ℕ → List String → List Row
numbered task [] = []
numbered task (path ∷ rest) =
    record { task = task; trace_path = path; cycle = none; status = pending }
    ∷ numbered (suc task) rest

-- The positions from `first` on, one for each row.
abbrev pub positions : ℕ → List Row → List ℕ
positions first [] = []
positions first (_ ∷ rest) = first ∷ positions (suc first) rest

abbrev pub new_workers : ℕ → List Worker
new_workers zero = []
new_workers (suc n) = created ∷ new_workers n

-- The state before the workers' tasks run, by the deadline.
abbrev pub fresh : List Row → List ℕ → ℕ → State
fresh rows queue count = record {
  rows = rows;
  queue = queue;
  has_failed = false;
  cycle = [];
  cycle_number = 0;
  workers = new_workers count;
  main = gathering;
}

abbrev pub initial_by : Plan → Option ℕ → State
initial_by plan none =
    let rows = numbered 1 (repeated plan.repeat plan.paths) in
    fresh rows (positions 0 rows) (min plan.concurrency (length rows))
initial_by plan (some _) = fresh [] [] plan.concurrency

unfoldable pub initial : Plan → State
initial plan = initial_by plan plan.deadline

-- `row["status"] = ...` for the row at a position.
unfoldable pub set_status : ℕ → Status → List Row → List Row
set_status i st [] = []
set_status zero st (row ∷ rest) = record row { status = st } ∷ rest
set_status (suc i) st (row ∷ rest) = row ∷ set_status i st rest

unfoldable pub set_worker : ℕ → Worker → List Worker → List Worker
set_worker k w [] = []
set_worker zero w (_ ∷ rest) = w ∷ rest
set_worker (suc k) w (v ∷ rest) = v ∷ set_worker k w rest

unfoldable pub worker_at : ℕ → List Worker → Option Worker
worker_at k [] = none
worker_at zero (w ∷ rest) = some w
worker_at (suc k) (_ ∷ rest) = worker_at k rest

-- `if not cycle: ...`
abbrev pub refill_by : Plan → State → List String → State
refill_by plan s [] = record s {
  cycle = plan.shuffle s.cycle_number plan.paths;
  cycle_number = s.cycle_number + 1;
}
refill_by plan s (_ ∷ _) = s

unfoldable pub refill : Plan → State → State
refill plan s = refill_by plan s s.cycle

-- `cycle.pop(0)`, and the new row; the code has no empty cycle here, as `paths` is not empty.
abbrev pub draw_by : State → List String → Option ℕ × State
draw_by s [] = (none, s)
draw_by s (path ∷ rest) = (
  some (length s.rows),
  record s {
    rows =
        s.rows
        ++ record {
          task = length s.rows + 1;
          trace_path = path;
          cycle = some s.cycle_number;
          status = pending;
        }
          ∷ [];
    cycle = rest;
  },
)

unfoldable pub draw : State → Option ℕ × State
draw s = draw_by s s.cycle

-- `queue.get_nowait() if not queue.empty() else None`
abbrev pub take_by : State → List ℕ → Option ℕ × State
take_by s [] = (none, s)
take_by s (i ∷ rest) = (some i, record s { queue = rest })

unfoldable pub take_queued : State → Option ℕ × State
take_queued s = take_by s s.queue

-- By the deadline of a timed benchmark.
abbrev pub admit : Plan → ℕ → State → Option ℕ → Option ℕ × State
admit plan now s none = take_queued s
admit plan now s (some deadline) = if leb deadline now then (none, s) else draw (refill plan s)

-- `next_row`: the position of the row.
unfoldable pub next_row : Plan → ℕ → State → Option ℕ × State
unfolding take_queued draw refill
next_row plan now s = if s.has_failed then (none, s) else admit plan now s plan.deadline

-- The head of the loop of worker `k`, up to the start of the process.
abbrev pub start_row : ℕ → Option ℕ × State → State
start_row k (none, s) = record s { workers = set_worker k returned s.workers }
start_row k (some i, s) = record s {
  rows = set_status i running s.rows;
  workers = set_worker k (busy i) s.workers;
}

-- The round up to the process: the directories, the log of admissions and the print raise nothing here.
unfoldable pub turn : Plan → ℕ → ℕ → State → State
unfolding next_row set_status set_worker
turn plan k now s = start_row k (next_row plan now s)

-- How a child process ends for its worker: it exits with code 0; with another code, and the kind of
-- the failure that `task_failure` reads; or an exception leaves the block, as when it does not start.
pub data Exit : Type 0 where
  success broken : Exit
  failure : (kind : String) → Exit

-- `row["failure"]["kind"] in ("http_transport", "http_server")`
abbrev pub is_http : String → Bool
is_http kind = str_eq kind "http_transport" || str_eq kind "http_server"

-- The row of a busy worker and the worker itself, at the end of one round.
abbrev pub close_row : ℕ → ℕ → Status → Worker → State → State
close_row k i st w s = record s {
  rows = set_status i st s.rows;
  workers = set_worker k w s.workers;
}

-- What follows the end of the process up to the next `await`: another round, or the worker raises. An
-- exception before the return code is `broken`; `task_failure` raises nothing here.
unfoldable pub settle : Plan → ℕ → ℕ → ℕ → Exit → State → State
unfolding turn
settle plan k i now success s = turn plan k now (record s { rows = set_status i completed s.rows })
settle plan k i now broken s = close_row k i cancelled raised s
settle plan k i now (failure kind) s =
    if plan.continue_on_http_error && is_http kind
    then turn plan k now (record s { rows = set_status i failed s.rows })
    else close_row k i failed raised (record s { has_failed = true })

abbrev pub is_gathering : Main → Bool
is_gathering gathering = true
is_gathering _ = false

abbrev pub is_cancelling : Main → Bool
is_cancelling cancelling = true
is_cancelling _ = false

abbrev pub is_raised : Worker → Bool
is_raised raised = true
is_raised _ = false

abbrev pub is_returned : Worker → Bool
is_returned returned = true
is_returned _ = false

abbrev pub is_settled : Worker → Bool
is_settled w = is_raised w || is_returned w

unfoldable pub any_worker : (Worker → Bool) → List Worker → Bool
any_worker test [] = false
any_worker test (w ∷ rest) = test w || any_worker test rest

unfoldable pub all_workers : (Worker → Bool) → List Worker → Bool
all_workers test [] = true
all_workers test (w ∷ rest) = test w && all_workers test rest

abbrev pub is_failed : Status → Bool
is_failed failed = true
is_failed _ = false

-- `any(row["status"] == "failed" for row in rows)`
unfoldable pub any_failed : List Row → Bool
any_failed [] = false
any_failed (row ∷ rest) = is_failed row.status || any_failed rest

pub data Choice : Type 0 where
  -- the task of a worker runs for the first time, at a time
  begin : (k now : ℕ) → Choice
  -- the process of a worker ends, at a time
  exit : (k now : ℕ) → Exit → Choice
  -- the gather raises what a worker raised, or is cancelled from outside: the workers are cancelled
  stop interrupt : Choice
  -- a worker meets its cancellation
  cancel : (k : ℕ) → Choice
  -- the second gather returns, and the exception is raised again
  reraise : Choice
  -- the gather returns
  finish : Choice

abbrev pub when : Bool → State → Option State
when test s = if test then some s else none

abbrev pub begin_worker : Plan → ℕ → ℕ → State → Option Worker → Option State
begin_worker plan k now s (some created) = when (is_gathering s.main) (turn plan k now s)
begin_worker plan k now s _ = none

abbrev pub exit_worker : Plan → ℕ → ℕ → Exit → State → Option Worker → Option State
exit_worker plan k now e s (some (busy i)) = when (is_gathering s.main) (settle plan k i now e s)
exit_worker plan k now e s _ = none

abbrev pub cancel_worker : ℕ → State → Option Worker → Option State
cancel_worker k s (some created) =
    when (is_cancelling s.main) (record s { workers = set_worker k raised s.workers })
cancel_worker k s (some (busy i)) = when (is_cancelling s.main) (close_row k i cancelled raised s)
cancel_worker k s _ = none

unfoldable pub step : Plan → Choice → State → Option State
unfolding settle any_worker all_workers any_failed worker_at
step plan (begin k now) s = begin_worker plan k now s (worker_at k s.workers)
step plan (exit k now e) s = exit_worker plan k now e s (worker_at k s.workers)
step plan stop s =
    when (is_gathering s.main && any_worker is_raised s.workers) (record s { main = cancelling })
step plan interrupt s = when (is_gathering s.main) (record s { main = cancelling })
step plan (cancel k) s = cancel_worker k s (worker_at k s.workers)
step plan reraise s =
    when (is_cancelling s.main && all_workers is_settled s.workers) (record s { main = stopped })
step plan finish s =
    when (is_gathering s.main && all_workers is_returned s.workers)
      (record s { main = ended (any_failed s.rows) })

unfoldable pub run : Plan → List Choice → State → Option State
unfolding step
run plan [] s = some s
run plan (c ∷ rest) s = elim (step plan c s) [ none ↦ none | some s' ↦ run plan rest s' ]
