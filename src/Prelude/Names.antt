-- ===== src/Prelude/Names.antt =====
-- Python's sets of names, as lists of texts: membership, removal, and how they meet.
use Prim.Native.String.{String}
use mathlib.Core.Path.{◌≡◌, refl}
use mathlib.Core.Bool.{Bool, true, false, ◌||◌, ◌&&◌, not}
use mathlib.Core.List.{List, [], ◌∷◌, ◌++◌}
use native.Mathlib.Omega.{arith}
use text.Mathlib.TextEquality.{eq_iff}
use text.Mathlib.TextPositions.{eq_refl}
use atcr_agent_trace_collect.Prelude.Tests.{str_eq, if◌then◌else◌}

-- `name in names`
unfoldable pub contains : String → List String → Bool
contains a [] = false
contains a (x ∷ xs) = str_eq a x || contains a xs

-- `names.remove(name)`: a set holds each name once, so every copy goes.
unfoldable pub remove : String → List String → List String
remove a [] = []
remove a (x ∷ xs) = let rest = remove a xs in if str_eq a x then rest else x ∷ rest

-- `len(names) == len(set(names))`
unfoldable pub distinct : List String → Bool
unfolding contains
distinct [] = true
distinct (x ∷ xs) = not (contains x xs) && distinct xs

pub contains-cons_self : (a : String) (xs : List String) → contains a (a ∷ xs) ≡ true
unfolding contains
contains-cons_self a xs = ground (arith, eq_refl a)

pub contains-cons :
    (a b : String) (xs : List String) → contains a (b ∷ xs) ≡ (str_eq a b || contains a xs)
unfolding contains
contains-cons a b xs = refl

pub contains-append :
    (a : String) (xs ys : List String) → contains a (xs ++ ys) ≡ (contains a xs || contains a ys)
unfolding contains
contains-append a [] ys = refl
contains-append a (x ∷ xs) ys = ground (arith, contains-append a xs ys)

pub contains-remove :
    (a b : String) (xs : List String)
    → contains a (remove b xs) ≡ (not (str_eq a b) && contains a xs)
unfolding contains remove
contains-remove a b [] = ground arith
contains-remove a b (x ∷ xs) =
    ground (arith, contains-remove a b xs, eq_iff a b, eq_iff b x, eq_iff a x)

pub distinct-snoc :
    (a : String) (xs : List String) → distinct (xs ++ a ∷ []) ≡ (distinct xs && not (contains a xs))
unfolding distinct
distinct-snoc a [] = ground arith
distinct-snoc a (x ∷ xs) =
    ground (arith, distinct-snoc a xs, contains-append x xs (a ∷ []), eq_iff a x, eq_iff x a)
