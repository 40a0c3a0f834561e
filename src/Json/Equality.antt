-- ===== src/Json/Equality.antt =====
-- `==` of JSON values: numbers compare by value, with `True` as 1, and dictionaries without order.
use atcr_agent_trace_collect.Prelude.{
  ℕ, suc, ◌+◌, ◌*◌, ◌^◌, ◌==◌, str_eq, Bool, true, false, ◌&&◌, ◌||◌, Option, none, some,
}
use atcr_agent_trace_collect.Prelude.Int.{ℤ, pos, negsuc}
use atcr_agent_trace_collect.Json.{
  Value, Items, Fields, finite, null, bool, int, float, str, list, dict, nil, cons, end, entry,
  lookup,
}

-- A number, as mantissa / 2 ^ halvings with its sign. A float that is not finite equals no other value
-- in the model; whether it is the same object is not modelled.
pub record Number : Type 0 where
  pub negative : Bool
  pub mantissa : ℕ
  pub halvings : ℕ

abbrev whole : ℤ → Number
whole (pos n) = record { negative = false; mantissa = n; halvings = 0 }
whole (negsuc n) = record { negative = true; mantissa = n + 1; halvings = 0 }

abbrev pub number : Value → Option Number
number (bool true) = some (whole (pos 1))
number (bool false) = some (whole (pos 0))
number (int n) = some (whole n)
number (float (finite s m k)) = some (record { negative = s; mantissa = m; halvings = k })
number _ = none

abbrev same_sign : Bool → Bool → Bool
same_sign true b = b
same_sign false true = false
same_sign false false = true

abbrev number_eq : Number → Number → Bool
number_eq a b =
    (a.mantissa * 2 ^ b.halvings == b.mantissa * 2 ^ a.halvings)
    && (same_sign a.negative b.negative || (a.mantissa == 0))

abbrev numbers_eq : Option Number → Option Number → Bool
numbers_eq (some a) (some b) = number_eq a b
numbers_eq _ _ = false

abbrev pub size : Fields → ℕ
size end = 0
size (entry _ _ rest) = suc (size rest)

-- The entry that is there passes the test.
abbrev is_found : Option Value → (Value → Bool) → Bool
is_found none test = false
is_found (some w) test = test w

unfoldable mutual
  -- `value == other`
  pub value_eq : Value → Value → Bool
  value_eq (str s) (str t) = str_eq s t
  value_eq (list xs) (list ys) = items_eq xs ys
  value_eq (dict d) (dict e) = (size d == size e) && fields_eq d e
  value_eq null null = true
  value_eq v w = numbers_eq (number v) (number w)

  pub items_eq : Items → Items → Bool
  items_eq nil nil = true
  items_eq (cons x xs) (cons y ys) = value_eq x y && items_eq xs ys
  items_eq _ _ = false

  -- Every entry has an equal one in the other dictionary.
  pub fields_eq : Fields → Fields → Bool
  fields_eq end e = true
  fields_eq (entry k v rest) e = is_found (lookup k e) (λ w. value_eq v w) && fields_eq rest e

-- `d == e` of dictionaries
abbrev pub dict_eq : Fields → Fields → Bool
dict_eq d e = (size d == size e) && fields_eq d e
