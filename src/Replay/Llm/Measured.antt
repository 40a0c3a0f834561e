-- ===== src/Replay/Llm/Measured.antt =====
-- What a call that returns from `execute` of src/agenttrace/replay/llm.py has measured.
use atcr_agent_trace_collect.Prelude.Texts.{Text}
use atcr_agent_trace_collect.Prelude.{
  ℕ, ◌+◌, ◌≤◌, Bool, true, false, ◌≡◌, refl, sym, ap, subst, ◌∙◌, ◌⊎◌, inl, inr, Option, none, some,
  List, [], ◌∷◌, length, arith, Bool-cases, Option-cases, Result, ok, >>=-eq-ok,
}
use atcr_agent_trace_collect.Prelude.Int.{ℤ, int_eq}
use atcr_agent_trace_collect.Json.{Value, integer}
use atcr_agent_trace_collect.Replay.Llm.Events.{
  StreamEvent, output_times, first_of, last_or, last_integer, AreRead, read_line-IsNoted,
  read_lines-IsMeasured,
}
use atcr_agent_trace_collect.Replay.Llm.{
  Error, Stream, empty, note_output, note_usage, finish, read_line, read_lines, consume,
}

int_eq-eq : (a b : ℤ) → int_eq a b ≡ true → a ≡ b
int_eq-eq a b h = ground arith

-- A line leaves the measurements alone, or is one event that is noted.
abbrev Noted : ℕ → Stream → Stream → Type 0
Noted now s t =
    (s ≡ t)
    ⊎ ((usage : Value) × (output : Bool) × (t ≡ note_usage usage (note_output now output s)))

ok-eq : {s t : Stream} → ◌≡◌ {A = Result Error Stream} (ok s) (ok t) → s ≡ t
ok-eq h = cc

read_line-Noted :
    (loads : Text → Option Value) (now : ℕ) (line : Text) (s t : Stream)
    → read_line loads now line s ≡ ok t
    → Noted now s t
read_line-Noted loads now line s t h = elim (read_line-IsNoted loads now line s t h) [
  | inl (_, same) ↦ inl same
  | inr (usage, output, _, e) ↦ inr (usage, output, e)
]

-- The times and the count of chunks of output fit: no chunk and no time, or a first time between
-- `start` and the last, which is not after `now`.
abbrev pub Span : Option ℕ → Option ℕ → ℕ → ℕ → ℕ → Type 0
Span none none chunks start now = (chunks ≡ 0) × (start ≤ now)
Span (some first) (some last) chunks start now =
    (start ≤ first) × (first ≤ last) × (last ≤ now) × (1 ≤ chunks)
Span _ _ chunks start now = ⊥

abbrev pub HasSpan : ℕ → Stream → ℕ → Type 0
HasSpan start s now = Span s.first_output s.last_output s.output_chunks start now

Span-later :
    (f l : Option ℕ) (c start now later : ℕ)
    → now ≤ later
    → Span f l c start now
    → Span f l c start later
Span-later f l c start now later h s = ground (arith, s)

note_output-HasSpan :
    (start now later : ℕ) (output : Bool) (s : Stream)
    → now ≤ later
    → HasSpan start s now
    → HasSpan start (note_output later output s) later
unfolding note_output
note_output-HasSpan start now later false s h sp = Span-later _ _ _ start now later h sp
note_output-HasSpan start now later true s h sp = ground (arith, sp)

note_usage-HasSpan :
    (usage : Value) (s : Stream) (start now : ℕ)
    → HasSpan start s now
    → HasSpan start (note_usage usage s) now
unfolding note_usage
note_usage-HasSpan usage s start now sp = elim (Option-cases (integer usage)) [
  | inl no_number ↦ rw (no_number, note_usage) sp
  | inr (n, number) ↦ rw (number, note_usage) sp
]

note_output-chunks :
    (now : ℕ) (output : Bool) (s : Stream)
    → (note_output now output s).output_chunks ≤ s.output_chunks + 1
unfolding note_output
note_output-chunks now false s = ground arith
note_output-chunks now true s = ground arith

note_usage-chunks :
    (usage : Value) (s : Stream) → (note_usage usage s).output_chunks ≡ s.output_chunks
unfolding note_usage
note_usage-chunks usage s = elim (Option-cases (integer usage)) [
  | inl no_number ↦ rw (no_number, note_usage) refl
  | inr (n, number) ↦ rw (number, note_usage) refl
]

-- The times of the lines do not go back.
abbrev pub Ascending : ℕ → List (ℕ × Text) → Type 0
Ascending now [] = Unit {0}
Ascending now ((later, _) ∷ rest) = (now ≤ later) × Ascending later rest

abbrev pub end_time : ℕ → List (ℕ × Text) → ℕ
end_time now [] = now
end_time now ((later, _) ∷ rest) = end_time later rest

Noted-HasSpan :
    (start now later : ℕ) (s t : Stream)
    → now ≤ later
    → Noted later s t
    → HasSpan start s now
    → HasSpan start t later
Noted-HasSpan start now later s t h (inl same) sp =
    subst (λ u. HasSpan start u later) same (Span-later _ _ _ start now later h sp)
Noted-HasSpan start now later s t h (inr (usage, output, e)) sp =
    subst (λ u. HasSpan start u later) (sym e)
      (note_usage-HasSpan usage (note_output later output s) start later
        (note_output-HasSpan start now later output s h sp))

Noted-chunks : (now : ℕ) (s t : Stream) → Noted now s t → t.output_chunks ≤ s.output_chunks + 1
Noted-chunks now s t (inl same) =
    subst (λ u. u.output_chunks ≤ s.output_chunks + 1) same (ground arith)
Noted-chunks now s t (inr (usage, output, e)) =
    subst (λ u. u.output_chunks ≤ s.output_chunks + 1) (sym e)
      (ground (
        arith,
        note_usage-chunks usage (note_output now output s),
        note_output-chunks now output s,
      ))

module _ (loads : Text → Option Value) where
  read_lines-HasSpan :
      (lines : List (ℕ × Text)) (start now : ℕ) (s t : Stream)
      → Ascending now lines
      → HasSpan start s now
      → read_lines loads lines s ≡ ok t
      → HasSpan start t (end_time now lines)
  unfolding read_lines
  read_lines-HasSpan [] start now s t order sp h = subst (λ u. HasSpan start u now) (ok-eq h) sp
  read_lines-HasSpan ((later, line) ∷ rest) start now s t (h, order) sp done =
      let (s', one, more) = >>=-eq-ok _ _ done in
      read_lines-HasSpan rest start later s' t order
        (Noted-HasSpan start now later s s' h (read_line-Noted loads later line s s' one) sp) more

  read_lines-chunks :
      (lines : List (ℕ × Text)) (s t : Stream)
      → read_lines loads lines s ≡ ok t
      → t.output_chunks ≤ s.output_chunks + length lines
  unfolding read_lines
  read_lines-chunks [] s t h =
      subst (λ u. u.output_chunks ≤ s.output_chunks + 0) (ok-eq h) (ground arith)
  read_lines-chunks ((now, line) ∷ rest) s t h =
      let (s', one, more) = >>=-eq-ok _ _ h in
      ground (
        arith,
        read_lines-chunks rest s' t more,
        Noted-chunks now s s' (read_line-Noted loads now line s s' one),
      )

  finish-actual :
      (target : ℤ) (s t : Stream) → finish target s ≡ ok t → (s ≡ t) × (t.actual ≡ some target)
  unfolding finish
  finish-actual target s t h = elim (Option-cases s.actual) [
    | inl missing ↦ absurd (cc (rw (missing, finish) at h))
    | inr (n, found) ↦ elim (Bool-cases (int_eq n target)) [
      | inr other ↦ absurd (cc (rw (found, other, finish) at h))
      | inl same ↦
          let s-t = ok-eq (rw (found, same, finish) at h) in
          (
            s-t,
            subst (λ u. u.actual ≡ some target) s-t
                (found ∙ ap (λ m. some m) (int_eq-eq n target same)),
          )
    ]
  ]

  -- A call that returns has read the lines as events, in order: a line has none if it has no data, or
  -- nothing but the marker of the end, and else its data is the JSON of an object. The first and the last
  -- time of output are those of the first and the last event with output, the chunks are counted by these
  -- events, and the last integer number of tokens among the events is there and is the recorded one. If
  -- the lines' times do not go back from `start` on, then there are at most as many chunks as lines, and
  -- either no chunk and no time of output, or a first time between `start` and the last time, which is not
  -- after the last line.
  pub consume-IsMeasured :
      (target : ℤ) (start : ℕ) (lines : List (ℕ × Text)) (t : Stream)
      → Ascending start lines
      → consume loads target lines ≡ ok t
      → ((events : List StreamEvent) × AreRead loads lines events
          × (t.first_output ≡ first_of (output_times events))
          × (t.last_output ≡ last_or none (output_times events))
          × (t.output_chunks ≡ length (output_times events))
          × (last_integer none events ≡ some target))
        × (t.actual ≡ some target)
        × HasSpan start t (end_time start lines)
        × (t.output_chunks ≤ length lines)
  unfolding consume
  consume-IsMeasured target start lines t order h =
      let (s, all, last) = >>=-eq-ok _ _ h in
      let (s-t, actual) = finish-actual target s t last in
      let (events, read, (first, final, chunks, tokens)) =
        read_lines-IsMeasured loads lines t (all ∙ ap (λ (u : Stream). ok u) s-t) in
      (
        (events, read, first, final, chunks, sym tokens ∙ actual),
        actual,
        subst (λ u. HasSpan start u (end_time start lines)) s-t
            (read_lines-HasSpan lines start start empty s order (refl, ground arith) all),
        subst (λ u. u.output_chunks ≤ length lines) s-t
            (ground (arith, read_lines-chunks lines empty s all)),
      )
