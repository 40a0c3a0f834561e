-- ===== src/Replay/Benchmark/Finished.antt =====
-- What has become of the tasks when the gather of src/agenttrace/replay/benchmark.py returns.
use atcr_agent_trace_collect.Prelude.{
  ℕ, zero, suc, min, ◌≤◌, true, false, Option, none, some, List, [], ◌∷◌, ◌≡◌, refl, sym, String,
  ap, ◌∙◌, length, length-append, arith,
}
use atcr_agent_trace_collect.Replay.Benchmark.{
  Status, pending, running, completed, failed, cancelled, Worker, Plan, State, numbered, repeated,
  new_workers, initial, initial_by, is_raised, is_returned, any_worker, all_workers, is_gathering,
  Choice, finish, step, run,
}
use atcr_agent_trace_collect.Replay.Benchmark.Tables.{status_at, holders, waiting}
use atcr_agent_trace_collect.Replay.Benchmark.Moves.{when-eq, when-holds, run-induction}
use atcr_agent_trace_collect.Replay.Benchmark.Holding.{Consistent}
use atcr_agent_trace_collect.Replay.Benchmark.Steps.{run-Consistent, run-workers}
use atcr_agent_trace_collect.Replay.Benchmark.Bound.{initial_by-Consistent, new-length}
use atcr_agent_trace_collect.Replay.Benchmark.Admissions.{is_empty, is_timed}
use atcr_agent_trace_collect.Replay.Benchmark.Outcome.{Sound}
use atcr_agent_trace_collect.Replay.Benchmark.Rounds.{step-Sound}

numbered-pending :
    (i task : ℕ) (l : List String) (st : Status)
    → status_at i (numbered task l) ≡ some st
    → st ≡ pending
unfolding status_at
numbered-pending i task [] st h = cc
numbered-pending zero task (path ∷ rest) st h = cc
numbered-pending (suc i) task (path ∷ rest) st h = numbered-pending i (suc task) rest st h

none_returned : (n : ℕ) → any_worker is_returned (new_workers n) ≡ false
unfolding any_worker
none_returned zero = refl
none_returned (suc n) = none_returned n

initial_by-Sound :
    (plan : Plan) (by : Option ℕ) → by ≡ plan.deadline → Sound plan (initial_by plan by)
unfolding status_at
initial_by-Sound plan none same =
    let paths = repeated plan.repeat plan.paths in
    record {
      failure_raised = λ e. cc;
      returned_late =
          λ e. absurd (cc (none_returned (min plan.concurrency (length (numbered 1 paths))), e));
      timed_queue = λ e. absurd (cc (ap is_timed same, e));
      cancelled_raised = λ i e. absurd (cc (numbered-pending i 1 paths cancelled e));
      failed_raised = λ i e. absurd (cc (numbered-pending i 1 paths failed e));
    }
initial_by-Sound plan (some _) same = record {
  failure_raised = λ e. cc;
  returned_late = λ e. refl;
  timed_queue = λ e. refl;
  cancelled_raised = λ i e. cc;
  failed_raised = λ i e. cc;
}

length-numbered : (task : ℕ) (l : List String) → length (numbered task l) ≡ length l
length-numbered task [] = refl
length-numbered task (path ∷ rest) = ap suc (length-numbered (suc task) rest)

repeated_pos : (n : ℕ) (l : List String) → 1 ≤ n → 1 ≤ length l → 1 ≤ length (repeated n l)
repeated_pos zero l h pos = absurd (omega (arith, h))
repeated_pos (suc n) l h pos = omega (arith, length-append l (repeated n l), pos)

workers_pos :
    (plan : Plan) (by : Option ℕ)
    → 1 ≤ plan.concurrency
    → 1 ≤ plan.repeat
    → 1 ≤ length plan.paths
    → 1 ≤ length (initial_by plan by).workers
workers_pos plan none c r p =
    let paths = repeated plan.repeat plan.paths in
    omega (
      arith,
      new-length (min plan.concurrency (length (numbered 1 paths))),
      length-numbered 1 paths,
      repeated_pos plan.repeat plan.paths r p,
      c,
    )
workers_pos plan (some _) c r p = omega (arith, new-length plan.concurrency, c)

-- Workers that have all returned: one has, none has raised, and none holds a row.
returned-any :
    (ws : List Worker)
    → all_workers is_returned ws ≡ true
    → 1 ≤ length ws
    → any_worker is_returned ws ≡ true
unfolding all_workers any_worker
returned-any [] all pos = absurd (omega (arith, pos))
returned-any (w ∷ rest) all pos = ground (arith, all)

returned-raised :
    (ws : List Worker) → all_workers is_returned ws ≡ true → any_worker is_raised ws ≡ false
unfolding all_workers any_worker
returned-raised [] all = refl
returned-raised (w ∷ rest) all = ground (arith, all, returned-raised rest)

returned-holders : (i : ℕ) (ws : List Worker) → all_workers is_returned ws ≡ true → holders i ws ≡ 0
unfolding all_workers holders
returned-holders i [] all = refl
returned-holders i (w ∷ rest) all = ground (arith, all, returned-holders i rest)

empty-waiting : (i : ℕ) (q : List ℕ) → is_empty q ≡ true → waiting i q ≡ 0
unfolding waiting
empty-waiting i [] h = refl
empty-waiting i (_ ∷ _) h = cc

-- The row has run to its end.
abbrev pub HasEnded : Plan → Status → Type 0
HasEnded plan completed = Unit {0}
HasEnded plan failed = plan.continue_on_http_error ≡ true
HasEnded plan _ = ⊥

ended :
    (plan : Plan) (s : State) (i : ℕ) (st : Status)
    → Consistent s
    → Sound plan s
    → 1 ≤ length s.workers
    → all_workers is_returned s.workers ≡ true
    → status_at i s.rows ≡ some st
    → HasEnded plan st
ended plan s i completed c h pos all e = tt
ended plan s i failed c h pos all e =
    ground (arith, h.failed_raised i e, returned-raised s.workers all)
ended plan s i cancelled c h pos all e =
    absurd (ground (arith, h.cancelled_raised i e, returned-raised s.workers all))
ended plan s i running c h pos all e =
    absurd (ground (arith, c.rows_held i, e, returned-holders i s.workers all))
ended plan s i pending c h pos all e = absurd (
    ground (
      arith,
      c.rows_queued i,
      e,
      empty-waiting i s.queue,
      h.returned_late (returned-any s.workers all pos),
      h.failure_raised,
      returned-raised s.workers all,
    ))

-- If `concurrency` and the number of repeats are positive and a trace is given, then at the moment when
-- the gather returns every row has completed, or has failed in a benchmark that goes on after HTTP
-- failures: none is left pending, running or cancelled.
pub finish-HasEnded :
    (plan : Plan) (choices : List Choice) (s t : State) (i : ℕ) (st : Status)
    → 1 ≤ plan.concurrency
    → 1 ≤ plan.repeat
    → 1 ≤ length plan.paths
    → run plan choices (initial plan) ≡ some s
    → step plan finish s ≡ some t
    → status_at i t.rows ≡ some st
    → HasEnded plan st
unfolding initial step
finish-HasEnded plan choices s t i st c r p h last at =
    let c0 = initial_by-Consistent plan plan.deadline in
    let h0 = initial_by-Sound plan plan.deadline refl in
    ended plan s i st (run-Consistent plan choices _ s c0 h)
      (run-induction plan (Sound plan) (step-Sound plan) choices _ s h0 h)
      (omega (arith, run-workers plan choices _ s h, workers_pos plan plan.deadline c r p))
      (when-holds (is_gathering s.main) _ _ t last)
      (ap (λ u. status_at i u.rows) (sym (when-eq _ _ t last)) ∙ at)
