-- ===== src/Tests/Backend.antt =====
-- src/agenttrace/vllm_backend.py on three intervals.
use atcr_agent_trace_collect.Prelude.{List, [], ◌∷◌, ◌≡◌, refl, arith}
use atcr_agent_trace_collect.Backend.{
  Interval, insert_interval, sort_intervals, add_intervals, union_seconds,
}
use atcr_agent_trace_collect.Backend.Union.{is_covered, count, union_seconds-count}

-- Two that overlap, one of them in front, and one apart.
abbrev intervals : List Interval
intervals = (4, 7) ∷ (10, 12) ∷ (3, 5) ∷ []

union_seconds-intervals : union_seconds intervals ≡ 6
unfolding union_seconds sort_intervals insert_interval add_intervals
union_seconds-intervals = refl

union_seconds-count_example : union_seconds intervals ≡ count (λ t. is_covered t intervals) 12
union_seconds-count_example =
    union_seconds-count intervals 12 (omega arith, (omega arith, (omega arith, tt)))
