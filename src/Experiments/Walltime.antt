-- ===== src/Experiments/Walltime.antt =====
-- `walltime_seconds` of src/agenttrace/experiments/multi/config.py. `digit_of` is the number of a decimal digit,
-- which `\d` matches and `int` reads.
pub mod Rendered
use atcr_agent_trace_collect.Prelude.{
  ℕ, ◌+◌, ◌*◌, ◌==◌, leb, ltb, String, Bool, true, false, ◌&&◌, ◌||◌, Option, none, some, List, [],
  ◌∷◌, if◌then◌else◌, ok, err,
}
use Prim.Native.Char.{Char, code}
use atcr_agent_trace_collect.Prelude.Texts.{Text, chars}
use atcr_agent_trace_collect.Json.Access.{problem}
use atcr_agent_trace_collect.Experiments.{Outcome, bad_walltime_format, bad_walltime}

abbrev pub is_colon : Char → Bool
is_colon c = code c == 58

abbrev pub total_seconds : (hours minutes seconds : ℕ) → ℕ
total_seconds hours minutes seconds = hours * 3600 + minutes * 60 + seconds

abbrev pub in_range : (hours minutes seconds : ℕ) → Outcome ℕ
in_range hours minutes seconds =
    if leb 60 minutes || leb 60 seconds || ltb (total_seconds hours minutes seconds) 1
    then err (problem bad_walltime)
    else ok (total_seconds hours minutes seconds)

-- The three groups of the match, which fails without one of them.
abbrev pub time_of : Bool → (hours minutes seconds : Option ℕ) → Outcome ℕ
time_of true (some h) (some m) (some s) = in_range h m s
time_of _ _ _ _ = err (problem bad_walltime_format)

module _ (digit_of : Char → Option ℕ) where
  -- `int` of a row of digits
  unfoldable pub number_from : ℕ → Text → Option ℕ
  number_from n [] = some n
  number_from n (c ∷ t) = elim (digit_of c) [ none ↦ none | some d ↦ number_from (n * 10 + d) t ]

  -- `re.fullmatch(r"\d{2,3}:\d{2}:\d{2}", value)`
  abbrev pub match_walltime : Text → Outcome ℕ
  match_walltime (a ∷ b ∷ x ∷ c ∷ d ∷ y ∷ e ∷ f ∷ []) =
      time_of (is_colon x && is_colon y) (number_from 0 (a ∷ b ∷ [])) (number_from 0 (c ∷ d ∷ []))
        (number_from 0 (e ∷ f ∷ []))
  match_walltime (a ∷ b ∷ h ∷ x ∷ c ∷ d ∷ y ∷ e ∷ f ∷ []) =
      time_of (is_colon x && is_colon y) (number_from 0 (a ∷ b ∷ h ∷ []))
        (number_from 0 (c ∷ d ∷ [])) (number_from 0 (e ∷ f ∷ []))
  match_walltime _ = err (problem bad_walltime_format)

  unfoldable pub walltime_seconds : String → Outcome ℕ
  unfolding number_from
  walltime_seconds value = match_walltime (chars value)
