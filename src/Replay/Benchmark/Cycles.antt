-- ===== src/Replay/Benchmark/Cycles.antt =====
-- The traces that a timed benchmark of src/agenttrace/replay/benchmark.py draws: each as often as the
-- others, up to the last round.
use atcr_agent_trace_collect.Prelude.{
  ℕ, zero, suc, ◌+◌, ◌*◌, ◌≤◌, leb, String, str_eq, Bool, true, false, ◌&&◌, Option, none, some,
  List, [], ◌∷◌, ◌++◌, ◌≡◌, refl, sym, subst, if◌then◌else◌, length, arith,
}
use atcr_agent_trace_collect.Replay.Benchmark.{
  refill_by, draw_by, Status, completed, failed, cancelled, pending, running, Row, Plan, State,
  set_status, refill, draw, admit, next_row, start_row, turn, settle, Exit, success, broken,
  failure, is_http, Choice, run, initial,
}
use atcr_agent_trace_collect.Replay.Benchmark.Moves.{
  Moved, began, exited, dropped, interrupted, gave_up, returned_all, run-induction,
}

-- How often a path stands in a list, and in the rows.
unfoldable pub occurrences : String → List String → ℕ
occurrences p [] = 0
occurrences p (x ∷ rest) = (if str_eq p x then 1 else 0) + occurrences p rest

unfoldable pub drawn : String → List Row → ℕ
drawn p [] = 0
drawn p (row ∷ rest) = (if str_eq p row.trace_path then 1 else 0) + drawn p rest

drawn-append :
    (p : String) (rows : List Row) (row : Row)
    → drawn p (rows ++ row ∷ []) ≡ drawn p rows + (if str_eq p row.trace_path then 1 else 0)
unfolding drawn
drawn-append p [] row = ground arith
drawn-append p (r ∷ rest) row = ground (arith, drawn-append p rest row)

drawn-set :
    (p : String) (i : ℕ) (st : Status) (rows : List Row)
    → drawn p (set_status i st rows) ≡ drawn p rows
unfolding drawn set_status
drawn-set p i st [] = refl
drawn-set p zero st (row ∷ rest) = refl
drawn-set p (suc i) st (row ∷ rest) = ground (arith, drawn-set p i st rest)

no_more : (p : String) (l : List String) → l ≡ [] → occurrences p l ≡ 0
unfolding occurrences
no_more p l h = rw h refl

one_more :
    (p x : String) (rest l : List String)
    → l ≡ x ∷ rest
    → occurrences p l ≡ (if str_eq p x then 1 else 0) + occurrences p rest
unfolding occurrences
one_more p x rest l h = rw h refl

-- With the paths left of the round, every round has drawn each path as often as it is given.
abbrev Fair : String → Plan → State → Type 0
Fair p plan s =
    (drawn p s.rows + occurrences p s.cycle ≡ s.cycle_number * occurrences p plan.paths)
    × (occurrences p s.cycle ≤ occurrences p plan.paths)

if-Fair :
    (p : String) (plan : Plan) (b : Bool) (x y : Option ℕ × State)
    → Fair p plan x.1
    → Fair p plan y.1
    → Fair p plan (if b then x else y).1
if-Fair p plan true x y hx hy = hx
if-Fair p plan false x y hx hy = hy

either-Fair :
    (p : String) (plan : Plan) (b : Bool) (x y : State)
    → Fair p plan x
    → Fair p plan y
    → Fair p plan (if b then x else y)
either-Fair p plan true x y hx hy = hx
either-Fair p plan false x y hx hy = hy

module _ (p : String) (plan : Plan)
    (permutes : (n : ℕ)
      → occurrences p (plan.shuffle n plan.paths) ≡ occurrences p plan.paths) where
  refill-Fair :
      (s : State) (c : List String) → s.cycle ≡ c → Fair p plan s → Fair p plan (refill_by plan s c)
  refill-Fair s [] empty f = ground (arith, permutes s.cycle_number, f, no_more p s.cycle empty)
  refill-Fair s (path ∷ rest) more f = f

  draw-Fair :
      (s : State) (c : List String) → s.cycle ≡ c → Fair p plan s → Fair p plan (draw_by s c).1
  draw-Fair s [] empty f = f
  draw-Fair s (path ∷ rest) more f =
      let row : Row = record {
        task = length s.rows + 1;
        trace_path = path;
        cycle = some s.cycle_number;
        status = pending;
      } in
      ground (arith, f, one_more p path rest s.cycle more, drawn-append p s.rows row)

  admit-Fair :
      (now : ℕ) (s : State) (by : Option ℕ) {deadline : ℕ}
      → by ≡ some deadline
      → Fair p plan s
      → Fair p plan (admit plan now s by).1
  unfolding draw refill
  admit-Fair now s none h f = cc
  admit-Fair now s (some deadline) h f =
      if-Fair p plan (leb deadline now) _ _ f
        (draw-Fair (refill_by plan s s.cycle) _ refl (refill-Fair s s.cycle refl f))

  start_row-Fair : (k : ℕ) (r : Option ℕ × State) → Fair p plan r.1 → Fair p plan (start_row k r)
  start_row-Fair k (none, s) f = f
  start_row-Fair k (some i, s) f = ground (arith, f, drawn-set p i running s.rows)

  set-Fair :
      (i : ℕ) (st : Status) (s : State)
      → Fair p plan s
      → Fair p plan (record s { rows = set_status i st s.rows })
  set-Fair i st s f = ground (arith, f, drawn-set p i st s.rows)

  module _ (deadline : ℕ) (timed : plan.deadline ≡ some deadline) where
    turn-Fair : (k now : ℕ) (s : State) → Fair p plan s → Fair p plan (turn plan k now s)
    unfolding turn
    turn-Fair k now s f =
        start_row-Fair k (next_row plan now s)
          (if-Fair p plan s.has_failed _ _ f (admit-Fair now s plan.deadline timed f))

    settle-Fair :
        (k i now : ℕ) (e : Exit) (s : State) → Fair p plan s → Fair p plan (settle plan k i now e s)
    unfolding settle
    settle-Fair k i now success s f = turn-Fair k now _ (set-Fair i completed s f)
    settle-Fair k i now broken s f = set-Fair i cancelled s f
    settle-Fair k i now (failure kind) s f =
        either-Fair p plan (plan.continue_on_http_error && is_http kind) _ _
          (turn-Fair k now _ (set-Fair i failed s f)) (set-Fair i failed s f)

    step-Fair : (s t : State) → Fair p plan s → Moved plan s t → Fair p plan t
    step-Fair s t f (began k now at e) = subst (Fair p plan) (sym e) (turn-Fair k now s f)
    step-Fair s t f (exited k i now x at e) =
        subst (Fair p plan) (sym e) (settle-Fair k i now x s f)
    step-Fair s t f (dropped k at e) = subst (Fair p plan) (sym e) f
    step-Fair s t f (interrupted k i at e) = subst (Fair p plan) (sym e) (set-Fair i cancelled s f)
    step-Fair s t f (gave_up m e) = subst (Fair p plan) (sym e) f
    step-Fair s t f (returned_all _ e) = subst (Fair p plan) (sym e) f

    initial-Fair : Fair p plan (initial plan)
    unfolding initial drawn occurrences
    initial-Fair = rw timed (ground arith)

-- In a timed benchmark whose `shuffle` permutes, a path is drawn once for each time that it is given in
-- every finished round, and in the last round at most so often: a run of `n` rounds draws it at most
-- `n` times its number in the list, and at least `n - 1` times.
pub drawn-bounds :
    (plan : Plan) (deadline : ℕ) (p : String) (choices : List Choice) (s : State)
    → plan.deadline ≡ some deadline
    → ((n : ℕ) → occurrences p (plan.shuffle n plan.paths) ≡ occurrences p plan.paths)
    → run plan choices (initial plan) ≡ some s
    → (drawn p s.rows ≤ s.cycle_number * occurrences p plan.paths)
      × (s.cycle_number * occurrences p plan.paths ≤ drawn p s.rows + occurrences p plan.paths)
drawn-bounds plan deadline p choices s timed permutes h =
    let f =
      run-induction plan (Fair p plan) (step-Fair p plan permutes deadline timed) choices
        (initial plan) s (initial-Fair p plan permutes deadline timed) h in
    ground (arith, f)
