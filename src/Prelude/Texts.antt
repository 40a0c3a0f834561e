-- ===== src/Prelude/Texts.antt =====
-- Texts as lists of characters, and the numbers that Python's f-strings print.
use Prim.Native.Nat.{ℕ, zero, suc, ◌+◌, ◌-◌, ◌*◌, ◌/◌, ◌%◌, ◌≤◌, ◌<◌}
use Prim.Native.Char.{Char, char, code}
use Prim.Native.String.{String}
use mathlib.Core.Path.{◌≡◌, refl, sym, ap, ◌∙◌}
use mathlib.Core.Logic.{inl, inr}
use mathlib.Core.Bool.{false}
use mathlib.Core.List.{List, [], ◌∷◌, ◌++◌}
use native.Mathlib.Omega.{arith}
use atcr_agent_trace_collect.Prelude.Tests.{ltb, ◌==◌, if◌then◌else◌, Bool-cases}
use atcr_agent_trace_collect.Prelude.Lists.{length}

-- The characters of a text. A `String` is the same list by its own constructors.
abbrev pub Text : Type 0
Text = List Char

abbrev pub chars : String → Text
chars String.[] = []
chars (String.◌∷◌ c s) = c ∷ chars s

abbrev pub string_of : Text → String
string_of [] = String.[]
string_of (c ∷ t) = String.◌∷◌ c (string_of t)

-- An f-string of two parts.
abbrev pub joined : String → String → String
joined s t = string_of (chars s ++ chars t)

pub string_of-chars : (s : String) → string_of (chars s) ≡ s
string_of-chars String.[] = refl
string_of-chars (String.◌∷◌ c s) = ap (λ t. String.◌∷◌ c t) (string_of-chars s)

pub chars-string_of : (t : Text) → chars (string_of t) ≡ t
chars-string_of [] = refl
chars-string_of (c ∷ t) = ap (λ x. c ∷ x) (chars-string_of t)

pub chars_inj : (s t : String) → chars s ≡ chars t → s ≡ t
chars_inj s t h = sym (string_of-chars s) ∙ ap string_of h ∙ string_of-chars t

pub string_of_inj : (s t : Text) → string_of s ≡ string_of t → s ≡ t
string_of_inj s t h = sym (chars-string_of s) ∙ ap chars h ∙ chars-string_of t

pub append_cancel : (p s t : Text) → p ++ s ≡ p ++ t → s ≡ t
append_cancel [] s t h = h
append_cancel (c ∷ p) s t h = append_cancel p s t cc

-- The character of a digit.
abbrev pub digit : ℕ → Char
digit n =
    if n == 0
    then char 48 tt
    else if n == 1
    then char 49 tt
    else if n == 2
    then char 50 tt
    else if n == 3
    then char 51 tt
    else if n == 4
    then char 52 tt
    else if n == 5
    then char 53 tt
    else if n == 6
    then char 54 tt
    else if n == 7
    then char 55 tt
    else if n == 8
    then char 56 tt
    else char 57 tt

-- `str(n)`, on fuel: each round takes the last digit off.
unfoldable pub digits : ℕ → ℕ → Text
digits zero n = []
digits (suc fuel) n =
    let rest = digits fuel (n / 10) in
    if ltb n 10 then digit n ∷ [] else rest ++ digit (n % 10) ∷ []

unfoldable pub decimal : ℕ → Text
unfolding digits
decimal n = digits (suc n) n

abbrev pub zeros : ℕ → Text
zeros zero = []
zeros (suc n) = digit 0 ∷ zeros n

-- f"{n:03d}" and the like: at least `width` digits
unfoldable pub padded : ℕ → ℕ → Text
unfolding decimal
padded width n = zeros (width - length (decimal n)) ++ decimal n

-- f"{prefix}{n:03d}"
unfoldable pub numbered_name : String → ℕ → String
unfolding padded
numbered_name prefix n = string_of (chars prefix ++ padded 3 n)

-- The number that a row of digits stands for, after the digits of `n`.
read : ℕ → Text → ℕ
read n [] = n
read n (c ∷ t) = read (n * 10 + (code c - 48)) t

read-append : (n : ℕ) (s t : Text) → read n (s ++ t) ≡ read (read n s) t
unfolding read
read-append n [] t = refl
read-append n (c ∷ s) t = read-append (n * 10 + (code c - 48)) s t

ltb-large : (n : ℕ) → ltb n 10 ≡ false → 10 ≤ n
ltb-large n h = ground arith

pub code-digit : (n : ℕ) → n < 10 → code (digit n) ≡ 48 + n
code-digit zero h = refl
code-digit (suc zero) h = refl
code-digit (suc (suc zero)) h = refl
code-digit (suc (suc (suc zero))) h = refl
code-digit (suc (suc (suc (suc zero)))) h = refl
code-digit (suc (suc (suc (suc (suc zero))))) h = refl
code-digit (suc (suc (suc (suc (suc (suc zero)))))) h = refl
code-digit (suc (suc (suc (suc (suc (suc (suc zero))))))) h = refl
code-digit (suc (suc (suc (suc (suc (suc (suc (suc zero)))))))) h = refl
code-digit (suc (suc (suc (suc (suc (suc (suc (suc (suc zero))))))))) h = refl
code-digit (suc (suc (suc (suc (suc (suc (suc (suc (suc (suc n)))))))))) h =
    absurd (omega (arith, h))

read-digits : (fuel n : ℕ) → n < fuel → read 0 (digits fuel n) ≡ n
unfolding digits read
read-digits zero n h = absurd (omega (arith, h))
read-digits (suc fuel) n h = elim (Bool-cases (ltb n 10)) [
  | inl small ↦ rw small (ground (arith, small, code-digit n))
  | inr large ↦ rw large (
      read-append 0 (digits fuel (n / 10)) (digit (n % 10) ∷ [])
      ∙ ground (
        arith,
        large,
        h,
        code-digit (n % 10),
        read-digits fuel (n / 10) (omega (arith, h, ltb-large n large)),
      ))
]

read-zeros : (k : ℕ) (t : Text) → read 0 (zeros k ++ t) ≡ read 0 t
unfolding read
read-zeros zero t = refl
read-zeros (suc k) t = read-zeros k t

read-padded : (width n : ℕ) → read 0 (padded width n) ≡ n
unfolding padded
read-padded width n =
    read-zeros (width - length (decimal n)) (decimal n) ∙ read-digits (suc n) n (omega arith)

-- Names with one prefix are told apart by their numbers.
pub numbered_name_inj :
    (prefix : String) (m n : ℕ) → numbered_name prefix m ≡ numbered_name prefix n → m ≡ n
unfolding numbered_name
numbered_name_inj prefix m n h =
    let same : padded 3 m ≡ padded 3 n = append_cancel (chars prefix) _ _ (string_of_inj _ _ h) in
    sym (read-padded 3 m) ∙ ap (read 0) same ∙ read-padded 3 n
