-- ===== src/Json.antt =====
-- The values that `json.loads` returns and the schema, engine and bindings code inspects with
-- `isinstance`, `.get` and `in`: src/agenttrace/schema.py, src/agenttrace/replay/.
-- A float is the exact number that the double holds: mantissa / 2 ^ halvings, or not finite.
pub mod Access
pub mod Equality
use atcr_agent_trace_collect.Prelude.{
  ℕ, ◌*◌, ◌^◌, ◌==◌, String, str_eq, Bool, true, false, ◌&&◌, ◌||◌, not, Option, none, some, List,
  [], ◌∷◌, if◌then◌else◌, ◌≡◌, refl, arith, eq_iff,
}
use atcr_agent_trace_collect.Prelude.Int.{ℤ, pos, negsuc}

pub data Float : Type 0 where
  finite : (negative : Bool) (mantissa halvings : ℕ) → Float
  not_finite : Float

mutual
  pub data Value : Type 0 where
    null : Value
    bool : Bool → Value
    int : ℤ → Value
    float : Float → Value
    str : String → Value
    list : Items → Value
    dict : Fields → Value

  pub data Items : Type 0 where
    nil : Items
    cons : Value → Items → Items

  -- a dictionary's entries, in insertion order
  pub data Fields : Type 0 where
    end : Fields
    entry : String → Value → Fields → Fields

abbrev pub elements : Items → List Value
elements nil = []
elements (cons x xs) = x ∷ elements xs

-- `d.get(key)`, and with `none` the test `key in d`
unfoldable pub lookup : String → Fields → Option Value
lookup key end = none
lookup key (entry k v rest) = if str_eq key k then some v else lookup key rest

abbrev pub or_default : Value → Option Value → Value
or_default d none = d
or_default d (some v) = v

-- `d.get(key)`: a missing key reads as `None`
unfoldable pub get : String → Fields → Value
unfolding lookup
get key d = or_default null (lookup key d)

-- `value is None`
abbrev pub is_none : Value → Bool
is_none null = true
is_none _ = false

-- `value == n` for a natural number `n`: Python's numbers compare by value, `True` as 1 and
-- `False` as 0.
unfoldable pub equals_number : ℕ → Value → Bool
equals_number n (bool true) = n == 1
equals_number n (bool false) = n == 0
equals_number n (int (pos m)) = m == n
equals_number n (float (finite negative m k)) = (m == n * 2 ^ k) && (not negative || (m == 0))
equals_number n _ = false

-- `hash(value)` is refused for a list and for a dictionary.
abbrev pub is_hashable : Value → Bool
is_hashable (list _) = false
is_hashable (dict _) = false
is_hashable _ = true

-- `d[key] = value`
unfoldable pub assign : String → Value → Fields → Fields
assign key value end = entry key value end
assign key value (entry k v rest) =
    if str_eq key k then entry k value rest else entry k v (assign key value rest)

pub lookup-assign :
    (key other : String) (value : Value) (d : Fields)
    → lookup other (assign key value d) ≡ (if str_eq other key then some value else lookup other d)
unfolding lookup assign
lookup-assign key other value end = refl
lookup-assign key other value (entry k v rest) =
    ground
      (arith, eq_iff key k, eq_iff other k, eq_iff other key, lookup-assign key other value rest)

-- `bool(value)`
abbrev pub is_truthy : Value → Bool
is_truthy null = false
is_truthy (bool b) = b
is_truthy (int (pos n)) = not (n == 0)
is_truthy (int (negsuc n)) = true
is_truthy (float (finite _ m _)) = not (m == 0)
is_truthy (float not_finite) = true
is_truthy (str s) = not (str_eq s "")
is_truthy (list nil) = false
is_truthy (list (cons _ _)) = true
is_truthy (dict end) = false
is_truthy (dict (entry _ _ _)) = true

-- `value or default`
abbrev pub or_else : Value → Value → Value
or_else value default = if is_truthy value then value else default

-- The integer of a value for which `isinstance(value, int)` holds: a Boolean is one.
abbrev pub integer : Value → Option ℤ
integer (int n) = some n
integer (bool true) = some (pos 1)
integer (bool false) = some (pos 0)
integer _ = none
