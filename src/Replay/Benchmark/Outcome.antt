-- ===== src/Replay/Benchmark/Outcome.antt =====
-- How the rows of src/agenttrace/replay/benchmark.py stand when its gather returns.
use atcr_agent_trace_collect.Prelude.{
  ℕ, zero, suc, ◌==◌, Bool, true, false, ◌||◌, Option, none, some, List, [], ◌∷◌, ◌≡◌, sym, ap, ◌∙◌,
  ◌⊎◌, inl, inr, arith, Bool-cases,
}
use atcr_agent_trace_collect.Replay.Benchmark.{
  Status, failed, cancelled, Row, Worker, raised, Plan, State, Main, set_status, set_worker,
  worker_at, is_raised, is_returned, any_worker,
}
use atcr_agent_trace_collect.Replay.Benchmark.Tables.{status_at, replace, status_at-set}
use atcr_agent_trace_collect.Replay.Benchmark.Admissions.{is_empty, is_timed}

-- What the flag, the queue, and the rows tell of the workers.
pub record Sound (plan : Plan) (s : State) : Type 0 where
  pub failure_raised : s.has_failed ≡ true → any_worker is_raised s.workers ≡ true
  pub returned_late :
      any_worker is_returned s.workers ≡ true → (s.has_failed || is_empty s.queue) ≡ true
  pub timed_queue : is_timed plan.deadline ≡ true → is_empty s.queue ≡ true
  pub cancelled_raised :
      (i : ℕ) → status_at i s.rows ≡ some cancelled → any_worker is_raised s.workers ≡ true
  pub failed_raised :
      (i : ℕ)
      → status_at i s.rows ≡ some failed
      → (plan.continue_on_http_error || any_worker is_raised s.workers) ≡ true

pub any-set :
    (test : Worker → Bool) (k : ℕ) (v w : Worker) (ws : List Worker)
    → worker_at k ws ≡ some v
    → test v ≡ false
    → any_worker test (set_worker k w ws) ≡ (test w || any_worker test ws)
unfolding any_worker set_worker worker_at
any-set test k v w [] at h = cc
any-set test zero v w (u ∷ rest) at h = let same : u ≡ v = cc in ground (arith, ap test same, h)
any-set test (suc k) v w (u ∷ rest) at h = ground (arith, any-set test k v w rest at h)

-- A status that is read was there, or is the one that was written.
pub status-was :
    (j i : ℕ) (st new : Status) (rows : List Row)
    → status_at j (set_status i new rows) ≡ some st
    → (status_at j rows ≡ some st) ⊎ (st ≡ new)
status-was j i st new rows h = elim (Bool-cases (j == i)) [
  | inl same ↦ inr (written (status_at j rows) (sym (read same) ∙ h))
  | inr other ↦ inl (ground (arith, other, h, status_at-set j i new rows))
]
  where
    written : (o : Option Status) → replace new o ≡ some st → st ≡ new
    written none e = cc
    written (some _) e = cc

    read : (j == i) ≡ true → status_at j (set_status i new rows) ≡ replace new (status_at j rows)
    read same = ground (arith, same, status_at-set j i new rows)

module _ (plan : Plan) where
  pub main-Sound : (s : State) (m : Main) → Sound plan s → Sound plan (record s { main = m })
  main-Sound s m h = record {
    failure_raised = h.failure_raised;
    returned_late = h.returned_late;
    timed_queue = h.timed_queue;
    cancelled_raised = h.cancelled_raised;
    failed_raised = h.failed_raised;
  }

  -- A status is written that is neither a cancellation nor a failure that stops the benchmark.
  pub set-Sound :
      (i : ℕ) (new : Status) (s : State)
      → Sound plan s
      → (cancelled ≡ new → any_worker is_raised s.workers ≡ true)
      → (failed ≡ new → (plan.continue_on_http_error || any_worker is_raised s.workers) ≡ true)
      → Sound plan (record s { rows = set_status i new s.rows })
  set-Sound i new s h on_cancel on_fail = record {
    failure_raised = h.failure_raised;
    returned_late = h.returned_late;
    timed_queue = h.timed_queue;
    cancelled_raised = λ j e. elim (status-was j i cancelled new s.rows e) [
      | inl old ↦ h.cancelled_raised j old
      | inr now ↦ on_cancel now
    ];
    failed_raised = λ j e. elim (status-was j i failed new s.rows e) [
      | inl old ↦ h.failed_raised j old
      | inr now ↦ on_fail now
    ];
  }

  -- A worker that was created or busy raises: whatever the rows are, it accounts for them.
  pub raise-Sound :
      (k : ℕ) (v : Worker) (s : State)
      → worker_at k s.workers ≡ some v
      → is_raised v ≡ false
      → is_returned v ≡ false
      → (any_worker is_returned s.workers ≡ true → (s.has_failed || is_empty s.queue) ≡ true)
      → (is_timed plan.deadline ≡ true → is_empty s.queue ≡ true)
      → Sound plan (record s { workers = set_worker k raised s.workers })
  raise-Sound k v s at r1 r2 late timed =
      let now = any-set is_raised k v raised s.workers at r1 in
      record {
        failure_raised = λ e. now;
        returned_late = λ e. late (sym (any-set is_returned k v raised s.workers at r2) ∙ e);
        timed_queue = timed;
        cancelled_raised = λ i e. now;
        failed_raised = λ i e. ground (arith, now);
      }
