-- ===== src/Prelude/Actions.antt =====
-- Statements that change a state and may raise. What was done before an exception stays done, so the
-- state comes back beside the exception.
use mathlib.Core.Bool.{Bool, true, false}
use atcr_agent_trace_collect.Prelude.Results.{Result, ok, err}

abbrev pub Action : Type 0 → Type 0 → Type 0 → Type 0
Action E S A = S → Result E A × S

module _ {E S : Type 0} where
  abbrev pub pure : {A : Type 0} → A → Action E S A
  pure a s = (ok a, s)

  abbrev pub throw : {A : Type 0} → E → Action E S A
  throw e s = (err e, s)

  abbrev pub modify : (S → S) → Action E S (Unit {0})
  modify f s = (ok tt, f s)

  abbrev pub gets : {A : Type 0} → (S → A) → Action E S A
  gets f s = (ok (f s), s)

  abbrev pub and_then : {A B : Type 0} → Result E A → (A → Action E S B) → Action E S B
  and_then (ok a) f s = f a s
  and_then (err e) f s = (err e, s)

  infixl 5 ◌>>=◌ ◌>>◌
  abbrev pub ◌>>=◌ : {A B : Type 0} → Action E S A → (A → Action E S B) → Action E S B
  (m >>= f) s = let (r, s') = m s in and_then r f s'

  abbrev pub ◌>>◌ : {A B : Type 0} → Action E S A → Action E S B → Action E S B
  m >> k = m >>= λ _. k

  -- `if test: m`
  abbrev pub only_if : Bool → Action E S (Unit {0}) → Action E S (Unit {0})
  only_if true m = m
  only_if false m = pure tt

  -- `except BaseException as error: handler; raise`
  abbrev pub on_error : {A : Type 0} → (E → S → S) → Result E A × S → Result E A × S
  on_error handler (ok a, s) = (ok a, s)
  on_error handler (err e, s) = (err e, handler e s)

  -- What a `finally` block leaves: its own exception replaces the one that was raised.
  abbrev pub replace_error : {A : Type 0} → Result E A → Result E (Unit {0}) × S → Result E A × S
  replace_error r (ok _, s) = (r, s)
  replace_error r (err e, s) = (err e, s)

  -- `try: body` / `finally: cleanup`
  abbrev pub try_finally : {A : Type 0} → Action E S A → Action E S (Unit {0}) → Action E S A
  try_finally body cleanup s = let (r, s') = body s in replace_error r (cleanup s')
