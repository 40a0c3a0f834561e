-- ===== src/Replay/Benchmark/Rounds.antt =====
-- Every step of src/agenttrace/replay/benchmark.py keeps what the flag, the queue and the rows tell of
-- the workers.
use atcr_agent_trace_collect.Prelude.{
  ℕ, Bool, true, false, ◌||◌, ◌&&◌, Option, none, some, ◌≡◌, refl, sym, subst, ap, ◌∙◌, inl, inr,
  arith, Bool-cases,
}
use atcr_agent_trace_collect.Replay.Benchmark.{
  running, completed, failed, cancelled, Worker, created, returned, busy, Plan, State, set_status,
  set_worker, worker_at, next_row, start_row, turn, settle, Exit, success, broken, failure, is_http,
  is_raised, is_returned, any_worker,
}
use atcr_agent_trace_collect.Replay.Benchmark.Tables.{status_at}
use atcr_agent_trace_collect.Replay.Benchmark.Moves.{
  Moved, began, exited, dropped, interrupted, gave_up, returned_all,
}
use atcr_agent_trace_collect.Replay.Benchmark.Admissions.{Known, Asked, next_row-Asked}
use atcr_agent_trace_collect.Replay.Benchmark.Outcome.{
  Sound, any-set, status-was, set-Sound, raise-Sound, main-Sound,
}

module _ (plan : Plan) where
  module _ (k : ℕ) (v : Worker) (s t : State) (at : worker_at k s.workers ≡ some v)
      (r1 : is_raised v ≡ false) (r2 : is_returned v ≡ false) (same : t.workers ≡ s.workers) where
    kept :
        (test : Worker → Bool) (w : Worker)
        → test v ≡ false
        → test w ≡ false
        → any_worker test (set_worker k w t.workers) ≡ any_worker test s.workers
    kept test w was is =
        any-set test k v w t.workers (ap (worker_at k) same ∙ at) was
        ∙ ap (λ b. b || any_worker test t.workers) is
        ∙ ap (any_worker test) same

  still_cancelled :
      (s t : State) (i : ℕ)
      → Known s t
      → Sound plan s
      → status_at i t.rows ≡ some cancelled
      → any_worker is_raised s.workers ≡ true
  still_cancelled s t i known h e = elim (known i cancelled e) [
    | inl old ↦ h.cancelled_raised i old
    | inr new ↦ absurd (cc new)
  ]

  still_failed :
      (s t : State) (i : ℕ)
      → Known s t
      → Sound plan s
      → status_at i t.rows ≡ some failed
      → (plan.continue_on_http_error || any_worker is_raised s.workers) ≡ true
  still_failed s t i known h e = elim (known i failed e) [
    | inl old ↦ h.failed_raised i old
    | inr new ↦ absurd (cc new)
  ]

  start_row-Sound :
      (k : ℕ) (v : Worker) (s : State) (r : Option ℕ × State)
      → worker_at k s.workers ≡ some v
      → is_raised v ≡ false
      → is_returned v ≡ false
      → Asked plan.deadline s r
      → Sound plan s
      → Sound plan (start_row k r)
  start_row-Sound k v s (none, t) at r1 r2 a h =
      let raised_same = kept k v s t at r1 r2 a.workers_same is_raised returned r1 refl in
      record {
        failure_raised = λ e. raised_same ∙ h.failure_raised (sym a.failed_same ∙ e);
        returned_late =
            λ e. ground (arith, a.refused refl, a.failed_same, a.emptied, h.timed_queue);
        timed_queue = λ e. a.emptied (h.timed_queue e);
        cancelled_raised = λ i e. raised_same ∙ still_cancelled s t i a.known h e;
        failed_raised = λ i e. ground (arith, raised_same, still_failed s t i a.known h e);
      }
  start_row-Sound k v s (some i, t) at r1 r2 a h =
      let raised_same = kept k v s t at r1 r2 a.workers_same is_raised (busy i) r1 refl in
      let returned_same = kept k v s t at r1 r2 a.workers_same is_returned (busy i) r2 refl in
      record {
        failure_raised = λ e. raised_same ∙ h.failure_raised (sym a.failed_same ∙ e);
        returned_late =
            λ e. ground (arith, h.returned_late (sym returned_same ∙ e), a.failed_same, a.emptied);
        timed_queue = λ e. a.emptied (h.timed_queue e);
        cancelled_raised = λ j e. elim (status-was j i cancelled running t.rows e) [
          | inl old ↦ raised_same ∙ still_cancelled s t j a.known h old
          | inr new ↦ absurd (cc new)
        ];
        failed_raised = λ j e. elim (status-was j i failed running t.rows e) [
          | inl old ↦ ground (arith, raised_same, still_failed s t j a.known h old)
          | inr new ↦ absurd (cc new)
        ];
      }

  turn-Sound :
      (k now : ℕ) (v : Worker) (s : State)
      → worker_at k s.workers ≡ some v
      → is_raised v ≡ false
      → is_returned v ≡ false
      → Sound plan s
      → Sound plan (turn plan k now s)
  unfolding turn
  turn-Sound k now v s at r1 r2 h =
      start_row-Sound k v s (next_row plan now s) at r1 r2 (next_row-Asked plan now s) h

  settle-Sound :
      (k i now : ℕ) (e : Exit) (s : State)
      → worker_at k s.workers ≡ some (busy i)
      → Sound plan s
      → Sound plan (settle plan k i now e s)
  unfolding settle
  settle-Sound k i now success s at h =
      turn-Sound k now (busy i) _ at refl refl
        (set-Sound plan i completed s h (λ e. absurd (cc e)) (λ e. absurd (cc e)))
  settle-Sound k i now broken s at h =
      raise-Sound plan k (busy i) (record s { rows = set_status i cancelled s.rows }) at refl refl
        h.returned_late h.timed_queue
  settle-Sound k i now (failure kind) s at h =
      elim (Bool-cases (plan.continue_on_http_error && is_http kind)) [
        | inl goes_on ↦ rw goes_on (
            turn-Sound k now (busy i) _ at refl refl
              (set-Sound plan i failed s h (λ e. absurd (cc e)) (λ e. ground (arith, goes_on))))
        | inr stops ↦ rw stops (
            raise-Sound plan k (busy i)
              (record s { has_failed = true; rows = set_status i failed s.rows }) at refl refl
              (λ e. refl) h.timed_queue)
      ]

  pub step-Sound : (s t : State) → Sound plan s → Moved plan s t → Sound plan t
  step-Sound s t h (began k now at e) =
      subst (Sound plan) (sym e) (turn-Sound k now created s at refl refl h)
  step-Sound s t h (exited k i now x at e) =
      subst (Sound plan) (sym e) (settle-Sound k i now x s at h)
  step-Sound s t h (dropped k at e) =
      subst (Sound plan) (sym e)
        (raise-Sound plan k created s at refl refl h.returned_late h.timed_queue)
  step-Sound s t h (interrupted k i at e) = subst (Sound plan) (sym e) (
      raise-Sound plan k (busy i) (record s { rows = set_status i cancelled s.rows }) at refl refl
        h.returned_late h.timed_queue)
  step-Sound s t h (gave_up m e) = subst (Sound plan) (sym e) (main-Sound plan s m h)
  step-Sound s t h (returned_all _ e) = subst (Sound plan) (sym e) (main-Sound plan s _ h)
