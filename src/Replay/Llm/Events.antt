-- ===== src/Replay/Llm/Events.antt =====
-- The events of a stream, as `execute` of src/agenttrace/replay/llm.py reads them from its lines, apart
-- from what it counts on the way.
use atcr_agent_trace_collect.Prelude.Texts.{Text}
use atcr_agent_trace_collect.Prelude.{
  ℕ, ◌+◌, Bool, true, false, ◌≡◌, refl, sym, subst, ◌∙◌, ◌⊎◌, inl, inr, Option, none, some, List,
  [], ◌∷◌, length, arith, Bool-cases, Option-cases, Result, ok, >>=-eq-ok,
}
use atcr_agent_trace_collect.Prelude.Int.{ℤ}
use atcr_agent_trace_collect.Json.{
  Value, Fields, list, nil, dict, end, lookup, get, integer, or_else, or_default,
}
use atcr_agent_trace_collect.Replay.Llm.{
  Error, Stream, empty, first_time, note_output, note_usage, read_event, data_of, strip, is_done,
  iterate, any_of, get_of, choice_has_output, read_data, read_line, read_lines,
}

ok-eq : {s t : Stream} → ◌≡◌ {A = Result Error Stream} (ok s) (ok t) → s ≡ t
ok-eq h = cc

-- An event: when its line is read, whether a choice of it has output, and its number of tokens.
pub record StreamEvent : Type 0 where
  pub time : ℕ
  pub output : Bool
  pub usage : Value

abbrev with_time : Bool → ℕ → List ℕ → List ℕ
with_time true now times = now ∷ times
with_time false now times = times

-- The times of the events with output.
abbrev pub output_times : List StreamEvent → List ℕ
output_times [] = []
output_times (e ∷ rest) = with_time e.output e.time (output_times rest)

abbrev pub first_of : List ℕ → Option ℕ
first_of [] = none
first_of (now ∷ rest) = some now

-- The last of them, or what there was before.
abbrev pub last_or : Option ℕ → List ℕ → Option ℕ
last_or before [] = before
last_or before (now ∷ rest) = last_or (some now) rest

abbrev integer_or : Option ℤ → Option ℤ → Option ℤ
integer_or before none = before
integer_or before (some n) = some n

-- The last number of tokens that is an integer, or what there was before.
abbrev pub last_integer : Option ℤ → List StreamEvent → Option ℤ
last_integer before [] = before
last_integer before (e ∷ rest) = last_integer (integer_or before (integer e.usage)) rest

abbrev first_or : Option ℕ → List ℕ → Option ℕ
first_or (some now) times = some now
first_or none times = first_of times

-- What is measured from `s` to `t`.
record IsTallied (s : Stream) (events : List StreamEvent) (t : Stream) : Type 0 where
  first : t.first_output ≡ first_or s.first_output (output_times events)
  last : t.last_output ≡ last_or s.last_output (output_times events)
  chunks : t.output_chunks ≡ s.output_chunks + length (output_times events)
  actual : t.actual ≡ last_integer s.actual events

abbrev with_usage : Value → Stream → Stream
with_usage tokens s = record s { actual = integer_or s.actual (integer tokens) }

note_usage-with_usage : (tokens : Value) (s : Stream) → note_usage tokens s ≡ with_usage tokens s
unfolding note_usage
note_usage-with_usage tokens s = elim (Option-cases (integer tokens)) [
  | inl no_number ↦ rw (no_number, note_usage) refl
  | inr (n, number) ↦ rw (number, note_usage) refl
]

IsTallied-output :
    (o : Bool) (now : ℕ) (tokens : Value) (events : List StreamEvent) (s t : Stream)
    → IsTallied (with_usage tokens (note_output now o s)) events t
    → IsTallied s (record { time = now; output = o; usage = tokens } ∷ events) t
unfolding note_output
IsTallied-output false now tokens events s t r = record {
  first = r.first;
  last = r.last;
  chunks = r.chunks;
  actual = r.actual;
}
IsTallied-output true now tokens events s t r = record {
  first = r.first ∙ seen s.first_output;
  last = r.last;
  chunks = omega (arith, r.chunks);
  actual = r.actual;
}
  where
    seen :
        (before : Option ℕ)
        → first_or (first_time before now) (output_times events)
          ≡ first_or before (now ∷ output_times events)
    seen none = refl
    seen (some first) = refl

module _ (loads : Text → Option Value) where
  -- A line without data, or with an empty text or the marker of the end as its data.
  abbrev pub HasNoEvent : Text → Type 0
  HasNoEvent line =
      (data_of line ≡ none)
      ⊎ ((rest : Text) × (data_of line ≡ some rest) × (is_done (strip rest) ≡ true))

  -- The data of the line is the JSON of an object, and that is the event.
  abbrev pub IsEvent : Text → StreamEvent → Type 0
  IsEvent line e =
      (rest : Text) × (value : Fields) × (choices : List Value) × (data_of line ≡ some rest)
      × (is_done (strip rest) ≡ false)
      × (loads (strip rest) ≡ some (dict value))
      × (iterate (or_default (list nil) (lookup "choices" value)) ≡ ok choices)
      × (any_of choice_has_output choices ≡ ok e.output)
      × (get_of "completion_tokens" (or_else (get "usage" value) (dict end)) ≡ ok e.usage)

  -- The events of the lines, in order, each at the time of its line.
  pub data AreRead : List (ℕ × Text) → List StreamEvent → Type 0 where
    ended : AreRead [] []
    skipped :
        (now : ℕ) (line : Text) {lines : List (ℕ × Text)} {events : List StreamEvent}
        → HasNoEvent line
        → AreRead lines events
        → AreRead ((now, line) ∷ lines) events
    noted :
        (line : Text) (e : StreamEvent) {lines : List (ℕ × Text)} {events : List StreamEvent}
        → IsEvent line e
        → AreRead lines events
        → AreRead ((e.time, line) ∷ lines) (e ∷ events)

  -- A line leaves the measurements alone, or is one event that is noted.
  abbrev pub IsNoted : ℕ → Text → Stream → Stream → Type 0
  IsNoted now line s t =
      (HasNoEvent line × (s ≡ t))
      ⊎ ((usage : Value) × (output : Bool) × IsEvent line
            (record { time = now; output = output; usage = usage })
          × (t ≡ note_usage usage (note_output now output s)))

  read_event-IsNoted :
      (now : ℕ) (line rest : Text) (v : Value) (s t : Stream)
      → data_of line ≡ some rest
      → is_done (strip rest) ≡ false
      → loads (strip rest) ≡ some v
      → read_event now v s ≡ ok t
      → IsNoted now line s t
  unfolding read_event
  read_event-IsNoted now line rest (dict value) s t found more good h =
      let (choices, c, h1) = >>=-eq-ok _ _ h in
      let (output, o, h2) = >>=-eq-ok _ _ h1 in
      let (usage, u, h3) = >>=-eq-ok _ _ h2 in
      inr (usage, output, (rest, value, choices, found, more, good, c, o, u), sym (ok-eq h3))
  read_event-IsNoted now line rest _ s t found more good h = absurd (cc h)

  pub read_line-IsNoted :
      (now : ℕ) (line : Text) (s t : Stream)
      → read_line loads now line s ≡ ok t
      → IsNoted now line s t
  unfolding read_line read_data
  read_line-IsNoted now line s t h = elim (Option-cases (data_of line)) [
    | inl other ↦ inl (inl other, ok-eq (rw (other, read_line) at h))
    | inr (rest, found) ↦
        let h' : read_data loads now (strip rest) s ≡ ok t = rw (found, read_line) at h in
        elim (Bool-cases (is_done (strip rest))) [
          | inl done ↦ inl (inr (rest, found, done), ok-eq (rw (done, read_data) at h'))
          | inr more ↦ elim (Option-cases (loads (strip rest))) [
            | inl bad ↦ absurd (cc (rw (more, bad, read_data) at h'))
            | inr (v, good) ↦
                read_event-IsNoted now line rest v s t found more good
                  (rw (more, good, read_data) at h')
          ]
        ]
  ]

  read_lines-IsTallied :
      (lines : List (ℕ × Text)) (s t : Stream)
      → read_lines loads lines s ≡ ok t
      → (events : List StreamEvent) × AreRead lines events × IsTallied s events t
  unfolding read_lines
  read_lines-IsTallied [] s t h =
      ([], ended, subst (IsTallied s []) (ok-eq h) (nothing s s.first_output refl))
    where
      nothing : (u : Stream) (o : Option ℕ) → u.first_output ≡ o → IsTallied u [] u
      nothing u none e = record {
        first = rw e refl;
        last = refl;
        chunks = omega arith;
        actual = refl;
      }
      nothing u (some first) e = record {
        first = rw e refl;
        last = refl;
        chunks = omega arith;
        actual = refl;
      }
  read_lines-IsTallied ((now, line) ∷ rest) s t h =
      let (s', one, more) = >>=-eq-ok _ _ h in
      let (events, read, tallied) = read_lines-IsTallied rest s' t more in
      elim (read_line-IsNoted now line s s' one) [
        | inl (no_event, same) ↦ (
          events,
          skipped now line no_event read,
          subst (λ u. IsTallied u events t) (sym same) tallied,
        )
        | inr (usage, output, is, e) ↦ (
          record { time = now; output = output; usage = usage } ∷ events,
          noted line (record { time = now; output = output; usage = usage }) is read,
          IsTallied-output output now usage events s t (
              subst (λ u. IsTallied u events t)
                (e ∙ note_usage-with_usage usage (note_output now output s)) tallied),
        )
      ]

  -- What a run from the start has measured, by the events.
  abbrev pub IsMeasured : List StreamEvent → Stream → Type 0
  IsMeasured events t =
      (t.first_output ≡ first_of (output_times events))
      × (t.last_output ≡ last_or none (output_times events))
      × (t.output_chunks ≡ length (output_times events))
      × (t.actual ≡ last_integer none events)

  pub read_lines-IsMeasured :
      (lines : List (ℕ × Text)) (t : Stream)
      → read_lines loads lines empty ≡ ok t
      → (events : List StreamEvent) × AreRead lines events × IsMeasured events t
  read_lines-IsMeasured lines t h =
      let (events, read, r) = read_lines-IsTallied lines empty t h in
      (events, read, (r.first, r.last, omega (arith, r.chunks), r.actual))
