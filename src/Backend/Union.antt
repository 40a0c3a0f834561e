-- ===== src/Backend/Union.antt =====
-- `union_seconds` of src/agenttrace/vllm_backend.py measures the union of the intervals.
use atcr_agent_trace_collect.Prelude.{
  ℕ, zero, suc, ◌+◌, ◌-◌, ◌≤◌, max, min, ltb, leb, Bool, true, false, ◌&&◌, ◌||◌, Option, none,
  some, List, [], ◌∷◌, ◌≡◌, refl, if◌then◌else◌, All, arith, Bool-cases, inl, inr,
}
use atcr_agent_trace_collect.Backend.{
  Interval, is_before, insert_interval, sort_intervals, later, add_intervals, union_seconds,
}

-- A tick lies in some interval: the intervals hold their start and not their end.
unfoldable pub is_covered : ℕ → List Interval → Bool
is_covered t [] = false
is_covered t ((start, stop) ∷ rest) = (leb start t && ltb t stop) || is_covered t rest

-- How many of the first n ticks pass a test.
unfoldable pub count : (ℕ → Bool) → ℕ → ℕ
count test zero = 0
count test (suc n) = count test n + (if test n then 1 else 0)

count-eq : (f g : ℕ → Bool) (n : ℕ) → ((t : ℕ) → f t ≡ g t) → count f n ≡ count g n
unfolding count
count-eq f g zero h = refl
count-eq f g (suc n) h = ground (arith, h n, count-eq f g n h)

-- No interval starts before s.
abbrev StartsFrom : ℕ → List Interval → Type 0
StartsFrom s l = All (λ (a : Interval). s ≤ a.0) l

abbrev IsSorted : List Interval → Type 0
IsSorted [] = Unit
IsSorted (a ∷ rest) = StartsFrom a.0 rest × IsSorted rest

covered_from : (s t : ℕ) (l : List Interval) → StartsFrom s l → is_covered t l ≡ true → s ≤ t
unfolding is_covered
covered_from s t [] h c = absurd (cc c)
covered_from s t ((start, stop) ∷ rest) (first, others) c = elim (Bool-cases (is_covered t rest)) [
  | inl behind ↦ covered_from s t rest others behind
  | inr not_behind ↦ ground (arith, c, not_behind, first)
]

-- What the loop still has to add: the ticks from e on that are covered.
abbrev remaining : Option ℕ → List Interval → ℕ → Bool
remaining e l t = leb (later 0 e) t && is_covered t l

count-step :
    (s p n : ℕ) (e : Option ℕ) (rest : List Interval)
    → StartsFrom s rest
    → count (remaining e ((s, p) ∷ rest)) n
      ≡ (min p n - later s e) + count (remaining (some (later p e)) rest) n
unfolding count is_covered
count-step s p zero e rest h = ground arith
count-step s p (suc n) none rest h = elim (Bool-cases (is_covered n rest)) [
  | inl there ↦ ground (arith, there, covered_from s n rest h there, count-step s p n none rest h)
  | inr not_there ↦ ground (arith, not_there, count-step s p n none rest h)
]
count-step s p (suc n) (some e) rest h = elim (Bool-cases (is_covered n rest)) [
  | inl there ↦
      ground (arith, there, covered_from s n rest h there, count-step s p n (some e) rest h)
  | inr not_there ↦ ground (arith, not_there, count-step s p n (some e) rest h)
]

abbrev EndsBy : ℕ → List Interval → Type 0
EndsBy n l = All (λ (a : Interval). a.1 ≤ n) l

count-none : (test : ℕ → Bool) (n : ℕ) → ((t : ℕ) → test t ≡ false) → count test n ≡ 0
unfolding count
count-none test zero h = refl
count-none test (suc n) h = ground (arith, h n, count-none test n h)

no_interval : (e : Option ℕ) (t : ℕ) → remaining e [] t ≡ false
unfolding is_covered
no_interval e t = ground arith

add_intervals-count :
    (total : ℕ) (e : Option ℕ) (l : List Interval) (n : ℕ)
    → IsSorted l
    → EndsBy n l
    → add_intervals total e l ≡ total + count (remaining e l) n
unfolding add_intervals
add_intervals-count total e [] n sorted ends =
    ground (arith, count-none (remaining e []) n (no_interval e))
add_intervals-count total none ((s, p) ∷ rest) n (from, sorted) (last, ends) = ground (
  arith,
  last,
  count-step s p n none rest from,
  add_intervals-count (total + (p - s)) (some p) rest n sorted ends,
)
add_intervals-count total (some e) ((s, p) ∷ rest) n (from, sorted) (last, ends) = ground (
  arith,
  last,
  count-step s p n (some e) rest from,
  add_intervals-count (total + (p - max s e)) (some (max p e)) rest n sorted ends,
)

-- Sorting keeps what holds of all intervals, and what is covered.
All-insert :
    (P : Interval → Type 0) (a : Interval) (l : List Interval)
    → P a
    → All P l
    → All P (insert_interval a l)
unfolding insert_interval
All-insert P a [] h all = (h, tt)
All-insert P a (b ∷ rest) h (first, others) = elim (Bool-cases (is_before a b)) [
  | inl before ↦ rw before (h, (first, others))
  | inr behind ↦ rw behind (first, All-insert P a rest h others)
]

All-sort : (P : Interval → Type 0) (l : List Interval) → All P l → All P (sort_intervals l)
unfolding sort_intervals
All-sort P [] h = tt
All-sort P (a ∷ rest) (first, others) =
    All-insert P a (sort_intervals rest) first (All-sort P rest others)

starts_earlier : (s t : ℕ) (l : List Interval) → s ≤ t → StartsFrom t l → StartsFrom s l
starts_earlier s t [] lt h = tt
starts_earlier s t (a ∷ rest) lt (first, others) =
    (omega (arith, lt, first), starts_earlier s t rest lt others)

insert-IsSorted : (a : Interval) (l : List Interval) → IsSorted l → IsSorted (insert_interval a l)
unfolding insert_interval
insert-IsSorted a [] h = (tt, tt)
insert-IsSorted a (b ∷ rest) (from, sorted) = elim (Bool-cases (is_before a b)) [
  | inl before ↦
      let le : a.0 ≤ b.0 = ground (arith, before) in
      rw before ((le, starts_earlier a.0 b.0 rest le from), (from, sorted))
  | inr behind ↦
      let ge : b.0 ≤ a.0 = ground (arith, behind) in
      rw behind
        (All-insert (λ (c : Interval). b.0 ≤ c.0) a rest ge from, insert-IsSorted a rest sorted)
]

sort-IsSorted : (l : List Interval) → IsSorted (sort_intervals l)
unfolding sort_intervals
sort-IsSorted [] = tt
sort-IsSorted (a ∷ rest) = insert-IsSorted a (sort_intervals rest) (sort-IsSorted rest)

covered-insert :
    (t : ℕ) (a : Interval) (l : List Interval)
    → is_covered t (insert_interval a l) ≡ is_covered t (a ∷ l)
unfolding is_covered insert_interval
covered-insert t a [] = refl
covered-insert t a (b ∷ rest) = ground (arith, covered-insert t a rest)

covered-sort : (t : ℕ) (l : List Interval) → is_covered t (sort_intervals l) ≡ is_covered t l
unfolding is_covered sort_intervals
covered-sort t [] = refl
covered-sort t (a ∷ rest) =
    ground (arith, covered-insert t a (sort_intervals rest), covered-sort t rest)

remaining-sort : (l : List Interval) (t : ℕ) → remaining none (sort_intervals l) t ≡ is_covered t l
remaining-sort l t = ground (arith, covered-sort t l)

-- The seconds of a list of intervals in any order are the ticks that lie in at least one of them: a tick
-- in several counts once, and an interval that ends before it starts counts nothing.
pub union_seconds-count :
    (l : List Interval) (n : ℕ)
    → All (λ (a : Interval). a.1 ≤ n) l
    → union_seconds l ≡ count (λ t. is_covered t l) n
unfolding union_seconds
union_seconds-count l n ends = omega (
  arith,
  add_intervals-count 0 none (sort_intervals l) n (sort-IsSorted l) (All-sort _ l ends),
  count-eq (remaining none (sort_intervals l)) (λ t. is_covered t l) n (remaining-sort l),
)
