-- ===== src/Backend.antt =====
-- `union_seconds` of src/agenttrace/vllm_backend.py. A time is a whole number of ticks: the rounding of the
-- floats is not modelled. Union holds proofs.
pub mod Union
use atcr_agent_trace_collect.Prelude.{
  ℕ, ◌+◌, ◌-◌, max, ltb, leb, ◌==◌, Bool, true, false, ◌&&◌, ◌||◌, Option, none, some, List, [],
  ◌∷◌, if◌then◌else◌,
}

abbrev pub Interval : Type 0
Interval = ℕ × ℕ

-- The order of tuples.
abbrev pub is_before : Interval → Interval → Bool
is_before a b = ltb a.0 b.0 || ((a.0 == b.0) && leb a.1 b.1)

-- `sorted`
unfoldable pub insert_interval : Interval → List Interval → List Interval
insert_interval a [] = a ∷ []
insert_interval a (b ∷ rest) = if is_before a b then a ∷ b ∷ rest else b ∷ insert_interval a rest

unfoldable pub sort_intervals : List Interval → List Interval
unfolding insert_interval
sort_intervals [] = []
sort_intervals (a ∷ rest) = insert_interval a (sort_intervals rest)

-- `max(value, end)`, where `end` is minus infinity at first
abbrev pub later : ℕ → Option ℕ → ℕ
later value none = value
later value (some e) = max value e

-- The loop, with its variables `total` and `end`. The difference is 0 where it would be negative, as in
-- `max(0.0, ...)`.
unfoldable pub add_intervals : ℕ → Option ℕ → List Interval → ℕ
add_intervals total e [] = total
add_intervals total e ((start, stop) ∷ rest) =
    add_intervals (total + (stop - later start e)) (some (later stop e)) rest

unfoldable pub union_seconds : List Interval → ℕ
unfolding sort_intervals add_intervals
union_seconds intervals = add_intervals 0 none (sort_intervals intervals)
