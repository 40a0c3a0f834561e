-- ===== src/Json/Access.antt =====
-- What Python raises on a JSON value that has not the shape that the code expects, and the accesses
-- that raise it: the adapters and the experiments read their records with these.
use atcr_agent_trace_collect.Prelude.{
  String, str_eq, Bool, false, none, some, List, [], ◌∷◌, Result, ok, err, ◌>>=◌,
}
use atcr_agent_trace_collect.Json.{
  Value, Fields, str, list, dict, end, entry, lookup, get, elements, or_else,
}

-- `P` are the problems that the code itself reports.
pub data Exception (P : Type 0) : Type 0 where
  attribute_error type_error index_error json_error : Exception P
  key_error : String → Exception P
  problem : P → Exception P

abbrev characters : String → List Value
characters String.[] = []
characters (String.◌∷◌ c s) = str (String.◌∷◌ c String.[]) ∷ characters s

abbrev keys : Fields → List Value
keys end = []
keys (entry k _ rest) = str k ∷ keys rest

module _ {P : Type 0} where
  -- `value.get(key)`
  unfoldable pub get_from : String → Value → Result (Exception P) Value
  get_from key (dict d) = ok (get key d)
  get_from key _ = err attribute_error

  -- `d[key]`
  unfoldable pub item : String → Fields → Result (Exception P) Value
  item key d = elim (lookup key d) [ none ↦ err (key_error key) | some v ↦ ok v ]

  -- `value[key]`
  unfoldable pub item_of : String → Value → Result (Exception P) Value
  unfolding item
  item_of key (dict d) = item key d
  item_of key _ = err type_error

  -- `(value.get(key) or {})`
  unfoldable pub object_from : String → Value → Result (Exception P) Value
  object_from key value = do inner ← get_from key value; ok (or_else inner (dict end))

  -- `for element in value`
  unfoldable pub iterate : Value → Result (Exception P) (List Value)
  iterate (list items) = ok (elements items)
  iterate (str s) = ok (characters s)
  iterate (dict d) = ok (keys d)
  iterate _ = err type_error

  -- `hash(value)`
  unfoldable pub hash : Value → Result (Exception P) (Unit {0})
  hash (list _) = err type_error
  hash (dict _) = err type_error
  hash _ = ok tt

-- `value == "..."`
abbrev pub is_text : String → Value → Bool
is_text s (str t) = str_eq s t
is_text s _ = false
