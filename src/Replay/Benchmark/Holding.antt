-- ===== src/Replay/Benchmark/Holding.antt =====
-- Which worker of src/agenttrace/replay/benchmark.py holds which row, after any run.
use atcr_agent_trace_collect.Prelude.{
  String, [], ℕ, ◌+◌, ◌≤◌, ◌==◌, leb, Bool, true, false, Option, none, some, List, ◌∷◌, ◌≡◌, refl,
  ◌∙◌, ap, if◌then◌else◌, length, arith,
}
use atcr_agent_trace_collect.Replay.Benchmark.{
  Status, pending, running, completed, failed, cancelled, Row, Worker, created, returned, raised,
  busy, Plan, State, set_worker, worker_at, refill, draw, take_queued, take_by, draw_by, refill_by,
  admit, next_row, start_row, turn,
}
use atcr_agent_trace_collect.Replay.Benchmark.Tables.{
  status_at, status_at-set, status_at-append, status_at-end, holds, holders, is_busy, count_busy,
  holders-set, count_busy-set, count_running, count_running-set, count_running-append, waiting,
}

-- What the tables say of the row at a position by its status: how many workers hold it, and how often
-- it is queued.
abbrev pub held : Option Status → ℕ
held (some running) = 1
held _ = 0

abbrev pub queued : Option Status → ℕ
queued (some pending) = 1
queued _ = 0

-- The tables agree, but for what one worker `v` holds.
pub record Loose (v : Worker) (s : State) : Type 0 where
  pub rows_held : (i : ℕ) → holders i s.workers ≡ held (status_at i s.rows) + holds i v
  pub rows_queued : (i : ℕ) → waiting i s.queue ≡ queued (status_at i s.rows)
  pub counts : count_busy s.workers ≡ count_running s.rows + is_busy v

-- The tables agree.
abbrev pub Consistent : State → Type 0
Consistent s = Loose created s

-- The same with the row at a position taken out of the queue and not yet running.
record Offered (v : Worker) (i : ℕ) (s : State) : Type 0 where
  is_pending : status_at i s.rows ≡ some pending
  rows_held : (j : ℕ) → holders j s.workers ≡ held (status_at j s.rows) + holds j v
  rows_queued : (j : ℕ) → waiting j s.queue ≡ (if j == i then 0 else queued (status_at j s.rows))
  counts : count_busy s.workers ≡ count_running s.rows + is_busy v

abbrev Taken : Worker → Option ℕ × State → Type 0
Taken v (none, s) = Loose v s
Taken v (some i, s) = Offered v i s

queued_pos : (st : Option Status) → 1 ≤ queued st → st ≡ some pending
queued_pos none h = absurd (omega arith)
queued_pos (some pending) h = refl
queued_pos (some running) h = absurd (omega arith)
queued_pos (some completed) h = absurd (omega arith)
queued_pos (some failed) h = absurd (omega arith)
queued_pos (some cancelled) h = absurd (omega arith)

pub held_pos : (st : Option Status) → 1 ≤ held st → st ≡ some running
held_pos none h = absurd (omega arith)
held_pos (some running) h = refl
held_pos (some pending) h = absurd (omega arith)
held_pos (some completed) h = absurd (omega arith)
held_pos (some failed) h = absurd (omega arith)
held_pos (some cancelled) h = absurd (omega arith)

queued_le : (st : Option Status) → queued st ≤ 1
queued_le none = ground arith
queued_le (some pending) = ground arith
queued_le (some running) = ground arith
queued_le (some completed) = ground arith
queued_le (some failed) = ground arith
queued_le (some cancelled) = ground arith

-- The head of the queue.
head_pending :
    (i : ℕ) (rest queue : List ℕ) (st : Option Status)
    → waiting i queue ≡ queued st
    → queue ≡ i ∷ rest
    → st ≡ some pending
unfolding waiting
head_pending i rest queue st agree more = queued_pos st (ground (arith, agree, more))

-- Once the head is taken.
tail_queued :
    (i j : ℕ) (rest queue : List ℕ) (st : Option Status)
    → waiting j queue ≡ queued st
    → queue ≡ i ∷ rest
    → waiting j rest ≡ (if j == i then 0 else queued st)
unfolding waiting
tail_queued i j rest queue st agree more = ground (arith, agree, more, queued_le st)

take-Taken : (v : Worker) (s : State) (q : List ℕ) → s.queue ≡ q → Loose v s → Taken v (take_by s q)
take-Taken v s [] h l = l
take-Taken v s (i ∷ rest) h l = record {
  is_pending = head_pending i rest s.queue _ (l.rows_queued i) h;
  rows_held = l.rows_held;
  rows_queued = λ j. tail_queued i j rest s.queue _ (l.rows_queued j) h;
  counts = l.counts;
}

draw-Taken : (v : Worker) (s : State) (c : List String) → Loose v s → Taken v (draw_by s c)
draw-Taken v s [] l = l
draw-Taken v s (path ∷ rest) l =
    let n = length s.rows in
    let row : Row = record {
      task = n + 1;
      trace_path = path;
      cycle = some s.cycle_number;
      status = pending;
    } in
    let at = λ (j : ℕ). status_at-append j s.rows row in
    record {
      is_pending = ground (arith, at n);
      rows_held = λ j. ground (arith, at j, status_at-end j s.rows, l.rows_held j);
      rows_queued = λ j. ground (arith, at j, status_at-end j s.rows, l.rows_queued j);
      counts = ground (arith, count_running-append s.rows row, l.counts);
    }

refill-Loose :
    (plan : Plan) (v : Worker) (s : State) (c : List String)
    → Loose v s
    → Loose v (refill_by plan s c)
refill-Loose plan v s [] l = record {
  rows_held = l.rows_held;
  rows_queued = l.rows_queued;
  counts = l.counts;
}
refill-Loose plan v s (path ∷ rest) l = l

if-Taken :
    (v : Worker) (b : Bool) (x y : Option ℕ × State)
    → Taken v x
    → Taken v y
    → Taken v (if b then x else y)
if-Taken v true x y hx hy = hx
if-Taken v false x y hx hy = hy

admit-Taken :
    (plan : Plan) (now : ℕ) (v : Worker) (s : State) (deadline : Option ℕ)
    → Loose v s
    → Taken v (admit plan now s deadline)
unfolding take_queued draw refill
admit-Taken plan now v s none l = take-Taken v s s.queue refl l
admit-Taken plan now v s (some deadline) l =
    if-Taken v (leb deadline now) _ _ l (draw-Taken v _ _ (refill-Loose plan v s s.cycle l))

next_row-Taken :
    (plan : Plan) (now : ℕ) (v : Worker) (s : State) → Loose v s → Taken v (next_row plan now s)
unfolding next_row
next_row-Taken plan now v s l =
    if-Taken v s.has_failed _ _ l (admit-Taken plan now v s plan.deadline l)

pub next_row-workers :
    (plan : Plan) (now : ℕ) (s : State) → (next_row plan now s).1.workers ≡ s.workers
unfolding next_row
next_row-workers plan now s = ground arith

holds_idle : (i : ℕ) (w : Worker) → is_busy w ≡ 0 → holds i w ≡ 0
holds_idle i created h = refl
holds_idle i returned h = refl
holds_idle i raised h = refl
holds_idle i (busy j) h = absurd (omega (arith, h))

pub same_row :
    (i j : ℕ) (rows : List Row) {st : Status}
    → status_at i rows ≡ some st
    → (j == i) ≡ true
    → status_at j rows ≡ some st
same_row i j rows at same = let e : j ≡ i = ground (arith, same) in rw e at

-- A worker that lets go of `v`, for a state in which it holds nothing.
pub set_worker-Consistent :
    (k : ℕ) (v w : Worker) (s : State)
    → is_busy w ≡ 0
    → worker_at k s.workers ≡ some v
    → Loose v s
    → Consistent (record s { workers = set_worker k w s.workers })
set_worker-Consistent k v w s idle at l = record {
  rows_held =
      λ i. ground (arith, holders-set i k v w s.workers at, l.rows_held i, holds_idle i w idle);
  rows_queued = l.rows_queued;
  counts = ground (arith, count_busy-set k v w s.workers at, l.counts, idle);
}

start_row-Consistent :
    (k : ℕ) (v : Worker) (r : Option ℕ × State)
    → worker_at k r.1.workers ≡ some v
    → Taken v r
    → Consistent (start_row k r)
start_row-Consistent k v (none, s) at l = set_worker-Consistent k v returned s refl at l
start_row-Consistent k v (some i, s) at o = record {
  rows_held = λ j. ground (
    arith,
    holders-set j k v (busy i) s.workers at,
    o.rows_held j,
    status_at-set j i running s.rows,
    o.is_pending,
    same_row i j s.rows o.is_pending,
  );
  rows_queued = λ j.
      ground (
        arith,
        o.rows_queued j,
        status_at-set j i running s.rows,
        same_row i j s.rows o.is_pending,
      );
  counts = ground (
    arith,
    count_busy-set k v (busy i) s.workers at,
    o.counts,
    count_running-set i pending running s.rows o.is_pending,
  );
}

pub turn-Consistent :
    (plan : Plan) (k now : ℕ) (v : Worker) (s : State)
    → worker_at k s.workers ≡ some v
    → Loose v s
    → Consistent (turn plan k now s)
unfolding turn
turn-Consistent plan k now v s at l =
    start_row-Consistent k v (next_row plan now s)
      (ap (worker_at k) (next_row-workers plan now s) ∙ at) (next_row-Taken plan now v s l)
