-- ===== src/Experiments/Walltime/Rendered.antt =====
-- What `walltime_seconds` of src/agenttrace/experiments/multi/config.py reads of a rendered time.
use atcr_agent_trace_collect.Prelude.{
  ℕ, ◌+◌, ◌*◌, ◌/◌, ◌%◌, ◌<◌, ltb, Option, some, [], ◌∷◌, ◌++◌, ◌≡◌, refl, ap, ◌∙◌, if◌then◌else◌,
  arith, Bool, true, false, ◌&&◌, ok, err,
}
use Prim.Native.Char.{Char, char}
use atcr_agent_trace_collect.Prelude.Texts.{Text, string_of, digit, chars-string_of}
use atcr_agent_trace_collect.Json.Access.{problem}
use atcr_agent_trace_collect.Experiments.{bad_walltime}
use atcr_agent_trace_collect.Experiments.Walltime.{
  in_range, number_from, match_walltime, walltime_seconds,
}

abbrev pub two_digits : ℕ → Text
two_digits n = digit (n / 10) ∷ digit (n % 10) ∷ []

-- At least two digits, of a number below 1000.
abbrev pub hour_digits : ℕ → Text
hour_digits n = if ltb n 100 then two_digits n else digit (n / 100) ∷ two_digits (n % 100)

-- HH:MM:SS
abbrev pub rendered : (hours minutes seconds : ℕ) → Text
rendered h m s = hour_digits h ++ char 58 tt ∷ two_digits m ++ char 58 tt ∷ two_digits s

-- What is taken of Python's digits: the ten ASCII digits have their numbers.
abbrev pub ReadsDigits : (Char → Option ℕ) → Type 0
ReadsDigits digit_of = (d : ℕ) → d < 10 → digit_of (digit d) ≡ some d

range_lem :
    (h m s : ℕ)
    → in_range h m s ≡ (
        if ltb m 60 && ltb s 60 && ltb 0 (h * 3600 + m * 60 + s)
        then ok (h * 3600 + m * 60 + s)
        else err (problem bad_walltime))
range_lem h m s = ground arith

module _ (digit_of : Char → Option ℕ) (reads : ReadsDigits digit_of) where
  number-digit :
      (n d : ℕ) (t : Text)
      → d < 10
      → number_from digit_of n (digit d ∷ t) ≡ number_from digit_of (n * 10 + d) t
  unfolding number_from
  number-digit n d t h = rw (reads d h, number_from) refl

  number-digits : (n k : ℕ) → k < 100 → number_from digit_of n (two_digits k) ≡ some (n * 100 + k)
  unfolding number_from
  number-digits n k h =
      number-digit n (k / 10) (digit (k % 10) ∷ []) (omega (arith, h))
      ∙ number-digit (n * 10 + k / 10) (k % 10) [] (omega arith)
      ∙ ap some (omega arith)

  number-two : (n : ℕ) → n < 100 → number_from digit_of 0 (two_digits n) ≡ some n
  number-two n h = number-digits 0 n h ∙ ap some (omega arith)

  number-three :
      (n : ℕ) → n < 1000 → number_from digit_of 0 (digit (n / 100) ∷ two_digits (n % 100)) ≡ some n
  number-three n h =
      number-digit 0 (n / 100) (two_digits (n % 100)) (omega (arith, h))
      ∙ number-digits (0 * 10 + n / 100) (n % 100) (omega arith)
      ∙ ap some (omega arith)

  match-rendered :
      (b : Bool) (h m s : ℕ)
      → ltb h 100 ≡ b
      → h < 1000
      → m < 100
      → s < 100
      → match_walltime digit_of (
          (if b then two_digits h else digit (h / 100) ∷ two_digits (h % 100))
          ++ char 58 tt ∷ two_digits m
          ++ char 58 tt ∷ two_digits s)
        ≡ in_range h m s
  match-rendered true h m s short hours minutes seconds =
      rw (number-two h (ground (arith, short)), number-two m minutes, number-two s seconds) refl
  match-rendered false h m s long hours minutes seconds =
      rw (number-three h hours, number-two m minutes, number-two s seconds) refl

  -- Where `int` reads the ASCII digits, a time that is written HH:MM:SS with at most three digits of hours
  -- is read as its seconds, and refused exactly if its minutes or seconds are 60 or more or it is zero.
  pub walltime_seconds-rendered :
      (h m s : ℕ)
      → h < 1000
      → m < 100
      → s < 100
      → walltime_seconds digit_of (string_of (rendered h m s)) ≡ (
          if ltb m 60 && ltb s 60 && ltb 0 (h * 3600 + m * 60 + s)
          then ok (h * 3600 + m * 60 + s)
          else err (problem bad_walltime))
  unfolding walltime_seconds
  walltime_seconds-rendered h m s hours minutes seconds =
      rw (chars-string_of (rendered h m s))
        (match-rendered (ltb h 100) h m s refl hours minutes seconds ∙ range_lem h m s)
