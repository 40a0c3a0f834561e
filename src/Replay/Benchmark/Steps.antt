-- ===== src/Replay/Benchmark/Steps.antt =====
-- Every step of src/agenttrace/replay/benchmark.py keeps its rows and workers consistent.
use atcr_agent_trace_collect.Prelude.{
  ℕ, zero, suc, ◌≤◌, Bool, true, false, ◌&&◌, Option, none, some, List, [], ◌∷◌, ◌≡◌, refl, sym,
  subst, ◌∙◌, ap, if◌then◌else◌, length, arith,
}
use atcr_agent_trace_collect.Replay.Benchmark.{
  Status, pending, running, completed, failed, cancelled, Worker, created, returned, raised, busy,
  Plan, State, set_status, worker_at, next_row, start_row, turn, settle, Exit, success, broken,
  failure, is_http, close_row, Choice, run, Main, ended, any_failed,
}
use atcr_agent_trace_collect.Replay.Benchmark.Tables.{
  status_at, status_at-set, holders, is_running, count_running-set, length-set_worker,
}
use atcr_agent_trace_collect.Replay.Benchmark.Moves.{
  Moved, began, exited, dropped, interrupted, gave_up, returned_all, run-induction,
}
use atcr_agent_trace_collect.Replay.Benchmark.Holding.{
  held, queued, Loose, Consistent, held_pos, same_row, set_worker-Consistent, turn-Consistent,
  next_row-workers,
}

holders_pos : (k i : ℕ) (ws : List Worker) → worker_at k ws ≡ some (busy i) → 1 ≤ holders i ws
unfolding holders worker_at
holders_pos k i [] h = cc
holders_pos zero i (w ∷ rest) h = let same : w ≡ busy i = cc in rw same (ground arith)
holders_pos (suc k) i (w ∷ rest) h = ground (arith, holders_pos k i rest h)

-- The row of a busy worker runs.
busy_running :
    (k i : ℕ) (s : State)
    → worker_at k s.workers ≡ some (busy i)
    → Consistent s
    → status_at i s.rows ≡ some running
busy_running k i s at c = held_pos _ (ground (arith, holders_pos k i s.workers at, c.rows_held i))

not_running : (st : Status) → held (some st) ≡ 0 → is_running st ≡ 0
not_running running h = absurd (omega (arith, h))
not_running pending h = refl
not_running completed h = refl
not_running failed h = refl
not_running cancelled h = refl

-- Its row no longer runs.
close-Loose :
    (k i : ℕ) (st : Status) (s : State)
    → held (some st) ≡ 0
    → queued (some st) ≡ 0
    → worker_at k s.workers ≡ some (busy i)
    → Consistent s
    → Loose (busy i) (record s { rows = set_status i st s.rows })
close-Loose k i st s no_run unqueued at c =
    let was = busy_running k i s at c in
    record {
      rows_held = λ j.
          ground (
            arith,
            c.rows_held j,
            status_at-set j i st s.rows,
            was,
            same_row i j s.rows was,
            no_run,
          );
      rows_queued = λ j.
          ground (
            arith,
            c.rows_queued j,
            status_at-set j i st s.rows,
            same_row i j s.rows was,
            unqueued,
          );
      counts =
          ground
            (arith, c.counts, count_running-set i running st s.rows was, not_running st no_run);
    }

close_row-Consistent :
    (k i : ℕ) (st : Status) (s : State)
    → held (some st) ≡ 0
    → queued (some st) ≡ 0
    → worker_at k s.workers ≡ some (busy i)
    → Consistent s
    → Consistent (close_row k i st raised s)
close_row-Consistent k i st s no_run unqueued at c =
    set_worker-Consistent k (busy i) raised (record s { rows = set_status i st s.rows }) refl at
      (close-Loose k i st s no_run unqueued at c)

if-Consistent :
    (b : Bool) (s t : State) → Consistent s → Consistent t → Consistent (if b then s else t)
if-Consistent true s t cs ct = cs
if-Consistent false s t cs ct = ct

settle-Consistent :
    (plan : Plan) (k i now : ℕ) (e : Exit) (s : State)
    → worker_at k s.workers ≡ some (busy i)
    → Consistent s
    → Consistent (settle plan k i now e s)
unfolding settle
settle-Consistent plan k i now success s at c =
    turn-Consistent plan k now (busy i) _ at (close-Loose k i completed s refl refl at c)
settle-Consistent plan k i now broken s at c = close_row-Consistent k i cancelled s refl refl at c
settle-Consistent plan k i now (failure kind) s at c =
    if-Consistent (plan.continue_on_http_error && is_http kind) _ _
      (turn-Consistent plan k now (busy i) _ at (close-Loose k i failed s refl refl at c))
      (close_row-Consistent k i failed (record s { has_failed = true }) refl refl at
        (record { rows_held = c.rows_held; rows_queued = c.rows_queued; counts = c.counts }))

main-Consistent : (s : State) (m : Main) → Consistent s → Consistent (record s { main = m })
main-Consistent s m c = record {
  rows_held = c.rows_held;
  rows_queued = c.rows_queued;
  counts = c.counts;
}

step-Consistent : (plan : Plan) (s t : State) → Consistent s → Moved plan s t → Consistent t
step-Consistent plan s t c (began k now at e) =
    subst Consistent (sym e) (turn-Consistent plan k now created s at c)
step-Consistent plan s t c (exited k i now x at e) =
    subst Consistent (sym e) (settle-Consistent plan k i now x s at c)
step-Consistent plan s t c (dropped k at e) =
    subst Consistent (sym e) (set_worker-Consistent k created raised s refl at c)
step-Consistent plan s t c (interrupted k i at e) =
    subst Consistent (sym e) (close_row-Consistent k i cancelled s refl refl at c)
step-Consistent plan s t c (gave_up m e) = subst Consistent (sym e) (main-Consistent s m c)
step-Consistent plan s t c (returned_all _ e) =
    subst Consistent (sym e) (main-Consistent s (ended (any_failed s.rows)) c)

pub run-Consistent :
    (plan : Plan) (choices : List Choice) (s t : State)
    → Consistent s
    → run plan choices s ≡ some t
    → Consistent t
run-Consistent plan = run-induction plan Consistent (step-Consistent plan)

start_row-workers :
    (k : ℕ) (r : Option ℕ × State) → length (start_row k r).workers ≡ length r.1.workers
start_row-workers k (none, s) = length-set_worker k returned s.workers
start_row-workers k (some i, s) = length-set_worker k (busy i) s.workers

turn-workers :
    (plan : Plan) (k now : ℕ) (s : State) → length (turn plan k now s).workers ≡ length s.workers
unfolding turn
turn-workers plan k now s =
    start_row-workers k (next_row plan now s) ∙ ap length (next_row-workers plan now s)

settle-workers :
    (plan : Plan) (k i now : ℕ) (e : Exit) (s : State)
    → length (settle plan k i now e s).workers ≡ length s.workers
unfolding settle
settle-workers plan k i now success s = turn-workers plan k now _
settle-workers plan k i now broken s = length-set_worker k raised s.workers
settle-workers plan k i now (failure kind) s = ground (
  arith,
  turn-workers plan k now (record s { rows = set_status i failed s.rows }),
  length-set_worker k raised s.workers,
)

-- A run has as many workers as it began with.
abbrev HasWorkers : ℕ → State → Type 0
HasWorkers n s = length s.workers ≡ n

step-workers :
    (plan : Plan) (n : ℕ) (s t : State) → HasWorkers n s → Moved plan s t → HasWorkers n t
step-workers plan n s t h (began k now at e) = ground (arith, h, e, turn-workers plan k now s)
step-workers plan n s t h (exited k i now x at e) =
    ground (arith, h, e, settle-workers plan k i now x s)
step-workers plan n s t h (dropped k at e) =
    ground (arith, h, e, length-set_worker k raised s.workers)
step-workers plan n s t h (interrupted k i at e) =
    ground (arith, h, e, length-set_worker k raised s.workers)
step-workers plan n s t h (gave_up m e) = ground (arith, h, e)
step-workers plan n s t h (returned_all _ e) = ground (arith, h, e)

pub run-workers :
    (plan : Plan) (choices : List Choice) (s t : State)
    → run plan choices s ≡ some t
    → length t.workers ≡ length s.workers
run-workers plan choices s t =
    run-induction plan (HasWorkers (length s.workers)) (step-workers plan (length s.workers))
      choices s t refl
