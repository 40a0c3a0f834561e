-- ===== src/Replay/Benchmark/Bound.antt =====
-- How many tasks of src/agenttrace/replay/benchmark.py run at once.
use atcr_agent_trace_collect.Prelude.{
  ℕ, zero, suc, min, ◌<◌, String, ◌+◌, ◌≤◌, Option, none, some, List, [], ◌∷◌, ◌≡◌, refl, length,
  arith,
}
use atcr_agent_trace_collect.Replay.Benchmark.{Row, Plan, State, Choice, run}
use atcr_agent_trace_collect.Replay.Benchmark.Tables.{
  status_at, holders, count_busy, count_running, waiting, count_busy-le,
}
use atcr_agent_trace_collect.Replay.Benchmark.Holding.{held, queued, Consistent}
use atcr_agent_trace_collect.Replay.Benchmark.{
  initial_by, initial, numbered, positions, repeated, new_workers,
}
use atcr_agent_trace_collect.Replay.Benchmark.Steps.{run-Consistent, run-workers}

new-holders : (i n : ℕ) → holders i (new_workers n) ≡ 0
unfolding holders
new-holders i zero = refl
new-holders i (suc n) = ground (arith, new-holders i n)

new-count : (n : ℕ) → count_busy (new_workers n) ≡ 0
unfolding count_busy
new-count zero = refl
new-count (suc n) = ground (arith, new-count n)

pub new-length : (n : ℕ) → length (new_workers n) ≡ n
new-length zero = refl
new-length (suc n) = ground (arith, new-length n)

numbered-held : (i task : ℕ) (l : List String) → held (status_at i (numbered task l)) ≡ 0
unfolding status_at
numbered-held i task [] = refl
numbered-held zero task (path ∷ rest) = refl
numbered-held (suc i) task (path ∷ rest) = numbered-held i (suc task) rest

numbered-count : (task : ℕ) (l : List String) → count_running (numbered task l) ≡ 0
unfolding count_running
numbered-count task [] = refl
numbered-count task (path ∷ rest) = ground (arith, numbered-count (suc task) rest)

positions-below : (i first : ℕ) (rows : List Row) → i < first → waiting i (positions first rows) ≡ 0
unfolding waiting
positions-below i first [] h = refl
positions-below i first (row ∷ rest) h =
    ground (arith, h, positions-below i (suc first) rest (omega (arith, h)))

positions-queued :
    (i j first task : ℕ) (l : List String)
    → j ≡ first + i
    → waiting j (positions first (numbered task l)) ≡ queued (status_at i (numbered task l))
unfolding waiting status_at
positions-queued i j first task [] h = refl
positions-queued zero j first task (path ∷ rest) h =
    ground (arith, h, positions-below j (suc first) (numbered (suc task) rest) (omega (arith, h)))
positions-queued (suc i) j first task (path ∷ rest) h =
    ground (arith, h, positions-queued i j (suc first) (suc task) rest (omega (arith, h)))

pub initial_by-Consistent :
    (plan : Plan) (deadline : Option ℕ) → Consistent (initial_by plan deadline)
unfolding status_at waiting count_running
initial_by-Consistent plan none =
    let paths = repeated plan.repeat plan.paths in
    let count = min plan.concurrency (length (numbered 1 paths)) in
    record {
      rows_held = λ i. ground (arith, new-holders i count, numbered-held i 1 paths);
      rows_queued = λ i. ground (arith, positions-queued i i 0 1 paths (omega arith));
      counts = ground (arith, new-count count, numbered-count 1 paths);
    }
initial_by-Consistent plan (some _) = record {
  rows_held = λ i. ground (arith, new-holders i plan.concurrency);
  rows_queued = λ i. refl;
  counts = ground (arith, new-count plan.concurrency);
}

initial_by-workers :
    (plan : Plan) (deadline : Option ℕ)
    → length (initial_by plan deadline).workers ≤ plan.concurrency
initial_by-workers plan none = ground (
  arith,
  new-length (min plan.concurrency (length (numbered 1 (repeated plan.repeat plan.paths)))),
)
initial_by-workers plan (some _) = ground (arith, new-length plan.concurrency)

-- Whatever the processes, the clock and the cancellations do: a row is held by exactly one worker
-- while it runs and by none otherwise, it is queued once while it is pending and not otherwise, and
-- at most `concurrency` rows run at a time.
pub run-bound :
    (plan : Plan) (choices : List Choice) (s : State)
    → run plan choices (initial plan) ≡ some s
    → Consistent s × (count_running s.rows ≤ plan.concurrency)
unfolding initial
run-bound plan choices s h =
    let c = run-Consistent plan choices _ s (initial_by-Consistent plan plan.deadline) h in
    (
      c,
      ground (
        arith,
        c.counts,
        count_busy-le s.workers,
        run-workers plan choices _ s h,
        initial_by-workers plan plan.deadline,
      ),
    )
