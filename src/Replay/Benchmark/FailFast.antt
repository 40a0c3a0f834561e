-- ===== src/Replay/Benchmark/FailFast.antt =====
-- Once a task of src/agenttrace/replay/benchmark.py has failed for good, no other is admitted.
use atcr_agent_trace_collect.Prelude.{
  ℕ, true, ◌&&◌, some, List, ◌≡◌, refl, sym, subst, ap, ◌∙◌, inl, inr, length, Bool-cases,
}
use atcr_agent_trace_collect.Replay.Benchmark.{
  Status, running, completed, failed, cancelled, Worker, returned, Plan, State, set_status,
  set_worker, start_row, turn, settle, Exit, success, broken, failure, is_http, Choice, run,
}
use atcr_agent_trace_collect.Replay.Benchmark.Tables.{status_at, length-set_status}
use atcr_agent_trace_collect.Replay.Benchmark.Moves.{
  Moved, began, exited, dropped, interrupted, gave_up, returned_all, run-induction,
}
use atcr_agent_trace_collect.Replay.Benchmark.Admissions.{next_row-failed}
use atcr_agent_trace_collect.Replay.Benchmark.Outcome.{status-was}

-- Since `s` the flag is set, no row has been added, and none has begun to run.
pub record Closed (s t : State) : Type 0 where
  pub set : t.has_failed ≡ true
  pub no_new : length t.rows ≡ length s.rows
  pub no_start : (i : ℕ) → status_at i t.rows ≡ some running → status_at i s.rows ≡ some running

module _ (plan : Plan) (s : State) where
  put-Closed :
      (i : ℕ) (st : Status) (t : State)
      → (running ≡ st → ⊥)
      → Closed s t
      → Closed s (record t { rows = set_status i st t.rows })
  put-Closed i st t other c = record {
    set = c.set;
    no_new = length-set_status i st t.rows ∙ c.no_new;
    no_start = λ j e. elim (status-was j i running st t.rows e) [
      | inl old ↦ c.no_start j old
      | inr new ↦ absurd (other new)
    ];
  }

  workers-Closed :
      (t : State) (ws : List Worker) → Closed s t → Closed s (record t { workers = ws })
  workers-Closed t ws c = record { set = c.set; no_new = c.no_new; no_start = c.no_start }

  turn-Closed : (k now : ℕ) (t : State) → Closed s t → Closed s (turn plan k now t)
  unfolding turn
  turn-Closed k now t c =
      subst (Closed s) (sym (ap (start_row k) (next_row-failed plan now t c.set)))
        (workers-Closed t (set_worker k returned t.workers) c)

  settle-Closed :
      (k i now : ℕ) (e : Exit) (t : State) → Closed s t → Closed s (settle plan k i now e t)
  unfolding settle
  settle-Closed k i now success t c = turn-Closed k now _ (put-Closed i completed t (λ e. cc e) c)
  settle-Closed k i now broken t c =
      workers-Closed (record t { rows = set_status i cancelled t.rows }) _
        (put-Closed i cancelled t (λ e. cc e) c)
  settle-Closed k i now (failure kind) t c =
      elim (Bool-cases (plan.continue_on_http_error && is_http kind)) [
        | inl goes_on ↦ rw goes_on (turn-Closed k now _ (put-Closed i failed t (λ e. cc e) c))
        | inr stops ↦ rw stops (
            let f = put-Closed i failed t (λ e. cc e) c in
            record { set = refl; no_new = f.no_new; no_start = f.no_start })
      ]

  step-Closed : (t u : State) → Closed s t → Moved plan t u → Closed s u
  step-Closed t u c (began k now at e) = subst (Closed s) (sym e) (turn-Closed k now t c)
  step-Closed t u c (exited k i now x at e) = subst (Closed s) (sym e) (settle-Closed k i now x t c)
  step-Closed t u c (dropped k at e) = subst (Closed s) (sym e) (workers-Closed t _ c)
  step-Closed t u c (interrupted k i at e) = subst (Closed s) (sym e) (
      workers-Closed (record t { rows = set_status i cancelled t.rows }) _
        (put-Closed i cancelled t (λ e'. cc e') c))
  step-Closed t u c (gave_up m e) =
      subst (Closed s) (sym e) (record { set = c.set; no_new = c.no_new; no_start = c.no_start })
  step-Closed t u c (returned_all _ e) =
      subst (Closed s) (sym e) (record { set = c.set; no_new = c.no_new; no_start = c.no_start })

-- From a state in which `failed` is set, whatever follows: it stays set, no row is added, and a row
-- that runs later was running already.
pub run-Closed :
    (plan : Plan) (choices : List Choice) (s t : State)
    → s.has_failed ≡ true
    → run plan choices s ≡ some t
    → Closed s t
run-Closed plan choices s t h =
    run-induction plan (Closed s) (step-Closed plan s) choices s t
      (record { set = h; no_new = refl; no_start = λ i e. e })
