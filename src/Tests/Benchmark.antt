-- ===== src/Tests/Benchmark.antt =====
-- src/agenttrace/replay/benchmark.py: a finite benchmark of three tasks on two workers, and a timed one
-- of two traces on one worker.
use atcr_agent_trace_collect.Prelude.{
  ℕ, ◌+◌, ◌*◌, ◌≤◌, String, ◌≡◌, refl, true, false, Option, none, some, List, [], ◌∷◌, arith,
}
use atcr_agent_trace_collect.Replay.Benchmark.Finished.{HasEnded, finish-HasEnded}
use atcr_agent_trace_collect.Replay.Benchmark.FailFast.{Closed, run-Closed}
use atcr_agent_trace_collect.Replay.Benchmark.{
  step, failed, stop, Plan, State, Choice, begin, exit, finish, success, failure, initial, run,
}
use atcr_agent_trace_collect.Replay.Benchmark.Tables.{count_running, status_at}
use atcr_agent_trace_collect.Replay.Benchmark.Holding.{Consistent}
use atcr_agent_trace_collect.Replay.Benchmark.Bound.{run-bound}
use atcr_agent_trace_collect.Replay.Benchmark.Cycles.{occurrences, drawn, drawn-bounds}

abbrev finite : Plan
finite = record {
  paths = "a" ∷ "b" ∷ "c" ∷ [];
  repeat = 1;
  concurrency = 2;
  deadline = none;
  continue_on_http_error = true;
  shuffle = λ n paths. paths;
}

abbrev finite_run : List Choice
finite_run =
    begin 0 0
    ∷ begin 1 0
    ∷ exit 1 4 (failure "http_server")
    ∷ exit 0 5 success
    ∷ exit 1 9 success
    ∷ finish
    ∷ []

abbrev end_of : State → Option State → State
end_of s none = s
end_of s (some t) = t

abbrev finite_end : State
unfolding run initial
finite_end = end_of (initial finite) (run finite finite_run (initial finite))

finite_runs : run finite finite_run (initial finite) ≡ some finite_end
unfolding run initial
finite_runs = refl

run-bound_example : Consistent finite_end × (count_running finite_end.rows ≤ 2)
run-bound_example = run-bound finite finite_run finite_end finite_runs

abbrev swap_round : ℕ → List String → List String
swap_round n (x ∷ y ∷ []) = y ∷ x ∷ []
swap_round n paths = paths

abbrev timed : Plan
timed = record {
  paths = "a" ∷ "b" ∷ [];
  repeat = 1;
  concurrency = 1;
  deadline = some 10;
  continue_on_http_error = false;
  shuffle = swap_round;
}

abbrev timed_run : List Choice
timed_run = begin 0 0 ∷ exit 0 3 success ∷ exit 0 6 success ∷ exit 0 11 success ∷ finish ∷ []

abbrev timed_end : State
unfolding run initial
timed_end = end_of (initial timed) (run timed timed_run (initial timed))

timed_runs : run timed timed_run (initial timed) ≡ some timed_end
unfolding run initial
timed_runs = refl

shuffle_permutes :
    (n : ℕ) → occurrences "a" (timed.shuffle n timed.paths) ≡ occurrences "a" timed.paths
unfolding occurrences
shuffle_permutes n = refl

drawn-bounds_example :
    (drawn "a" timed_end.rows ≤ timed_end.cycle_number * occurrences "a" timed.paths)
    × (timed_end.cycle_number * occurrences "a" timed.paths
        ≤ drawn "a" timed_end.rows + occurrences "a" timed.paths)
drawn-bounds_example =
    drawn-bounds timed 10 "a" timed_run timed_end refl shuffle_permutes timed_runs

-- The run up to the gather's return, and the state after it.
abbrev before_finish : List Choice
before_finish =
    begin 0 0
    ∷ begin 1 0
    ∷ exit 1 4 (failure "http_server")
    ∷ exit 0 5 success
    ∷ exit 1 9 success
    ∷ []

abbrev last_state : State
unfolding run initial
last_state = end_of (initial finite) (run finite before_finish (initial finite))

last_runs : run finite before_finish (initial finite) ≡ some last_state
unfolding run initial
last_runs = refl

last_finishes : step finite finish last_state ≡ some finite_end
unfolding run initial step
last_finishes = refl

second_failed : status_at 1 finite_end.rows ≡ some failed
unfolding run initial status_at
second_failed = refl

finish-HasEnded_example : HasEnded finite failed
finish-HasEnded_example =
    finish-HasEnded finite before_finish last_state finite_end 1 failed (ground arith)
      (ground arith) (ground arith) last_runs last_finishes second_failed

-- The timed benchmark stops at a failure: the other worker's task runs on, and nothing is admitted.
abbrev two_workers : Plan
two_workers = record timed { concurrency = 2 }

abbrev failed_state : State
unfolding run initial
failed_state = end_of (initial two_workers) (
    run two_workers (begin 0 0 ∷ begin 1 0 ∷ exit 0 2 (failure "http_server") ∷ [])
      (initial two_workers))

abbrev later_state : State
unfolding run initial
later_state = end_of failed_state (run two_workers (exit 1 3 success ∷ stop ∷ []) failed_state)

is_set : failed_state.has_failed ≡ true
unfolding run initial
is_set = refl

later_runs : run two_workers (exit 1 3 success ∷ stop ∷ []) failed_state ≡ some later_state
unfolding run initial
later_runs = refl

run-Closed_example : Closed failed_state later_state
run-Closed_example =
    run-Closed two_workers (exit 1 3 success ∷ stop ∷ []) failed_state later_state is_set later_runs
