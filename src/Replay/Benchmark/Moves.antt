-- ===== src/Replay/Benchmark/Moves.antt =====
-- The kinds of step of src/agenttrace/replay/benchmark.py, and induction over a run.
use atcr_agent_trace_collect.Prelude.{
  ℕ, Bool, true, false, ◌&&◌, Option, some, List, [], ◌∷◌, ◌≡◌, refl, subst, inl, inr, Option-cases,
}
use atcr_agent_trace_collect.Replay.Benchmark.{
  cancelled, Worker, created, raised, busy, Plan, State, Main, cancelling, stopped, ended,
  set_worker, worker_at, turn, Exit, settle, close_row, is_returned, all_workers, any_failed, when,
  begin_worker, exit_worker, cancel_worker, Choice, begin, exit, stop, interrupt, cancel, reraise,
  finish, step, run, is_gathering,
}

-- What one step has done.
pub data Moved (plan : Plan) (s t : State) : Type 0 where
  began :
      (k now : ℕ) → worker_at k s.workers ≡ some created → t ≡ turn plan k now s → Moved plan s t
  exited :
      (k i now : ℕ) (e : Exit)
      → worker_at k s.workers ≡ some (busy i)
      → t ≡ settle plan k i now e s
      → Moved plan s t
  dropped :
      (k : ℕ)
      → worker_at k s.workers ≡ some created
      → t ≡ record s { workers = set_worker k raised s.workers }
      → Moved plan s t
  interrupted :
      (k i : ℕ)
      → worker_at k s.workers ≡ some (busy i)
      → t ≡ close_row k i cancelled raised s
      → Moved plan s t
  gave_up : (m : Main) → t ≡ record s { main = m } → Moved plan s t
  returned_all :
      all_workers is_returned s.workers ≡ true
      → t ≡ record s { main = ended (any_failed s.rows) }
      → Moved plan s t

pub when-eq : (b : Bool) (s t : State) → when b s ≡ some t → t ≡ s
when-eq true s t h = cc
when-eq false s t h = cc

pub when-holds : (a b : Bool) (s t : State) → when (a && b) s ≡ some t → b ≡ true
when-holds true true s t h = refl
when-holds true false s t h = cc
when-holds false b s t h = cc

begin-Moved :
    (plan : Plan) (k now : ℕ) (s t : State) (w : Option Worker)
    → worker_at k s.workers ≡ w
    → begin_worker plan k now s w ≡ some t
    → Moved plan s t
begin-Moved plan k now s t (some created) at h = began k now at (when-eq _ _ t h)
begin-Moved plan k now s t _ at h = cc

exit-Moved :
    (plan : Plan) (k now : ℕ) (e : Exit) (s t : State) (w : Option Worker)
    → worker_at k s.workers ≡ w
    → exit_worker plan k now e s w ≡ some t
    → Moved plan s t
exit-Moved plan k now e s t (some (busy i)) at h = exited k i now e at (when-eq _ _ t h)
exit-Moved plan k now e s t _ at h = cc

cancel-Moved :
    (plan : Plan) (k : ℕ) (s t : State) (w : Option Worker)
    → worker_at k s.workers ≡ w
    → cancel_worker k s w ≡ some t
    → Moved plan s t
cancel-Moved plan k s t (some created) at h = dropped k at (when-eq _ _ t h)
cancel-Moved plan k s t (some (busy i)) at h = interrupted k i at (when-eq _ _ t h)
cancel-Moved plan k s t _ at h = cc

pub step-Moved :
    (plan : Plan) (choice : Choice) (s t : State) → step plan choice s ≡ some t → Moved plan s t
unfolding step
step-Moved plan (begin k now) s t h = begin-Moved plan k now s t (worker_at k s.workers) refl h
step-Moved plan (exit k now e) s t h = exit-Moved plan k now e s t (worker_at k s.workers) refl h
step-Moved plan stop s t h = gave_up cancelling (when-eq _ _ t h)
step-Moved plan interrupt s t h = gave_up cancelling (when-eq _ _ t h)
step-Moved plan (cancel k) s t h = cancel-Moved plan k s t (worker_at k s.workers) refl h
step-Moved plan reraise s t h = gave_up stopped (when-eq _ _ t h)
step-Moved plan finish s t h =
    returned_all (when-holds (is_gathering s.main) _ _ t h) (when-eq _ _ t h)

-- What every step keeps, a run keeps.
pub run-induction {ℓ} :
    (plan : Plan) (P : State → Type ℓ)
    → ((s t : State) → P s → Moved plan s t → P t)
    → (choices : List Choice) (s t : State) → P s
    → run plan choices s ≡ some t
    → P t
unfolding run
run-induction plan P keeps [] s t p h = let same : s ≡ t = cc in subst P same p
run-induction plan P keeps (choice ∷ rest) s t p h = elim (Option-cases (step plan choice s)) [
  | inl refused ↦ absurd (cc (rw (refused, run) at h))
  | inr (s', moved) ↦
      run-induction plan P keeps rest s' t (keeps s s' p (step-Moved plan choice s s' moved))
        (rw (moved, run) at h)
]
