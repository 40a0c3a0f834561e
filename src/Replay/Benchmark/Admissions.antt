-- ===== src/Replay/Benchmark/Admissions.antt =====
-- What `next_row` of src/agenttrace/replay/benchmark.py gives, and what it leaves as it was.
use atcr_agent_trace_collect.Prelude.{
  ℕ, ◌==◌, leb, String, Bool, true, false, ◌||◌, Option, none, some, List, [], ◌∷◌, ◌++◌, ◌≡◌, refl,
  ap, ◌⊎◌, inl, inr, if◌then◌else◌, length, arith, Bool-cases,
}
use atcr_agent_trace_collect.Replay.Benchmark.{
  Status, pending, Row, Plan, State, refill, draw, take_queued, refill_by, draw_by, take_by, admit,
  next_row,
}
use atcr_agent_trace_collect.Replay.Benchmark.Tables.{status_at, status_at-append}

abbrev pub is_empty : List ℕ → Bool
is_empty [] = true
is_empty (_ ∷ _) = false

abbrev pub is_timed : Option ℕ → Bool
is_timed none = false
is_timed (some _) = true

-- A row that was drawn is pending; the statuses of the others are as before.
abbrev pub Known : State → State → Type 0
Known s t =
    (i : ℕ) (st : Status)
    → status_at i t.rows ≡ some st
    → (status_at i s.rows ≡ some st) ⊎ (st ≡ pending)

-- A worker that gets no row leaves an empty queue, a deadline passed, or a failure.
pub record Asked (by : Option ℕ) (s : State) (r : Option ℕ × State) : Type 0 where
  pub failed_same : r.1.has_failed ≡ s.has_failed
  pub workers_same : r.1.workers ≡ s.workers
  pub emptied : is_empty s.queue ≡ true → is_empty r.1.queue ≡ true
  pub refused : r.0 ≡ none → (s.has_failed || is_timed by || is_empty s.queue) ≡ true
  pub known : Known s r.1

nothing-Asked :
    (by : Option ℕ) (s : State)
    → (s.has_failed || is_timed by || is_empty s.queue) ≡ true
    → Asked by s (none, s)
nothing-Asked by s why = record {
  failed_same = refl;
  workers_same = refl;
  emptied = λ h. h;
  refused = λ h. why;
  known = λ i st h. inl h;
}

take-Asked : (s : State) (q : List ℕ) → s.queue ≡ q → Asked none s (take_by s q)
take-Asked s [] h = nothing-Asked none s (ground (arith, ap is_empty h))
take-Asked s (i ∷ rest) h = record {
  failed_same = refl;
  workers_same = refl;
  emptied = λ e. cc (h, e);
  refused = λ e. cc;
  known = λ j st e. inl e;
}

known-append :
    (s : State) (row : Row) (i : ℕ) (st : Status)
    → row.status ≡ pending
    → status_at i (s.rows ++ row ∷ []) ≡ some st
    → (status_at i s.rows ≡ some st) ⊎ (st ≡ pending)
known-append s row i st new h = elim (Bool-cases (i == length s.rows)) [
  | inl last ↦ inr (ground (arith, last, new, h, status_at-append i s.rows row))
  | inr other ↦ inl (ground (arith, other, h, status_at-append i s.rows row))
]

draw-Asked :
    (plan : Plan) (d : ℕ) (s : State) (c1 c2 : List String)
    → Asked (some d) s (draw_by (refill_by plan s c1) c2)
draw-Asked plan d s [] [] = record {
  failed_same = refl;
  workers_same = refl;
  emptied = λ h. h;
  refused = λ h. ground arith;
  known = λ i st h. inl h;
}
draw-Asked plan d s (x ∷ c1) [] = nothing-Asked (some d) s (ground arith)
draw-Asked plan d s [] (path ∷ rest) = record {
  failed_same = refl;
  workers_same = refl;
  emptied = λ h. h;
  refused = λ h. cc;
  known = λ i st h. known-append s _ i st refl h;
}
draw-Asked plan d s (x ∷ c1) (path ∷ rest) = record {
  failed_same = refl;
  workers_same = refl;
  emptied = λ h. h;
  refused = λ h. cc;
  known = λ i st h. known-append s _ i st refl h;
}

if-Asked :
    (by : Option ℕ) (s : State) (b : Bool) (x y : Option ℕ × State)
    → (b ≡ true → Asked by s x)
    → Asked by s y
    → Asked by s (if b then x else y)
if-Asked by s true x y hx hy = hx refl
if-Asked by s false x y hx hy = hy

admit-Asked : (plan : Plan) (now : ℕ) (s : State) (by : Option ℕ) → Asked by s (admit plan now s by)
unfolding take_queued draw refill
admit-Asked plan now s none = take-Asked s s.queue refl
admit-Asked plan now s (some d) =
    if-Asked (some d) s (leb d now) _ _ (λ late. nothing-Asked (some d) s (ground arith))
      (draw-Asked plan d s s.cycle _)

pub next_row-Asked :
    (plan : Plan) (now : ℕ) (s : State) → Asked plan.deadline s (next_row plan now s)
unfolding next_row
next_row-Asked plan now s =
    if-Asked plan.deadline s s.has_failed _ _
      (λ failed. nothing-Asked plan.deadline s (ground (arith, failed)))
      (admit-Asked plan now s plan.deadline)

-- After a failure no row is given.
pub next_row-failed :
    (plan : Plan) (now : ℕ) (s : State) → s.has_failed ≡ true → next_row plan now s ≡ (none, s)
unfolding next_row
next_row-failed plan now s h = ap (λ b. if b then (none, s) else admit plan now s plan.deadline) h
