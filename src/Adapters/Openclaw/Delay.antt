-- ===== src/Adapters/Openclaw/Delay.antt =====
-- `_recorded_search_delay` of src/agenttrace/adapters/openclaw.py. `loads` is `json.loads`. An integer
-- too large for a double, for which `math.isfinite` raises, is not modelled.
pub mod Parts
pub mod Sources
use atcr_agent_trace_collect.Prelude.{
  ℕ, suc, ◌==◌, String, str_eq, Bool, true, false, not, ◌&&◌, ◌||◌, Option, none, some, List, [],
  ◌∷◌, if◌then◌else◌, Result, ok, err, ◌>>=◌, ◌>>◌,
}
use atcr_agent_trace_collect.Json.{
  Value, Items, Fields, null, bool, int, float, str, list, dict, nil, cons, end, entry, lookup, get,
  is_truthy, or_default,
}
use atcr_agent_trace_collect.Json.Access.{
  Exception, attribute_error, type_error, problem, item, item_of, get_from, iterate, is_text,
}
use atcr_agent_trace_collect.Json.Equality.{Number, number}
use atcr_agent_trace_collect.Adapters.Problems.{Problem, bad_delay, Outcome}

-- `source`, before it is formatted.
pub data Source : Type 0 where
  in_details : Source
  in_content : ℕ → Source

-- The delay in milliseconds: the code divides it by 1000.
pub record Delay : Type 0 where
  pub milliseconds : Number
  pub source : Source
  pub cached : Bool

abbrev pub is_bool : Value → Bool
is_bool (bool _) = true
is_bool _ = false

abbrev pub has_key : String → Fields → Bool
has_key key d = elim (lookup key d) [ none ↦ false | some _ ↦ true ]

-- A finite number that is not negative, and no Boolean.
unfoldable pub duration : Value → Option Number
duration value = elim (number value) [
  | none ↦ none
  | some n ↦ if is_bool value || (n.negative && not (n.mantissa == 0)) then none else some n
]

-- `result["details"]`: `validate_trace` has seen that it is a dictionary
abbrev pub dictionary : Value → Outcome Fields
dictionary (dict d) = ok d
dictionary _ = err type_error

module _ (loads : String → Option Value) where
  -- `isinstance(value, dict) and "tookMs" in value`
  abbrev pub timed : Option Value → Option Fields
  timed (some (dict d)) = if has_key "tookMs" d then some d else none
  timed _ = none

  abbrev pub parse : Value → Option Value
  parse (str s) = loads s
  parse _ = none

  -- One part of the content: the payload in its text.
  unfoldable pub payload_of : Value → Option Fields
  unfolding lookup get
  payload_of (dict part) =
      if is_text "text" (get "type" part)
      then timed (parse (or_default (str "") (lookup "text" part)))
      else none
  payload_of _ = none

  -- The loop, with the index of the part.
  unfoldable pub find_payload : ℕ → List Value → Option (ℕ × Fields)
  unfolding payload_of
  find_payload index [] = none
  find_payload index (part ∷ rest) =
      let later = find_payload (suc index) rest in
      elim (payload_of part) [ none ↦ later | some payload ↦ some (index, payload) ]

  -- The payload that counts, and where it is.
  abbrev pub choose : Fields → Option (ℕ × Fields) → Fields × Source
  choose details none = (details, in_details)
  choose details (some (index, payload)) = (payload, in_content index)

  unfoldable pub find_delay : Fields → List Value → Fields × Source
  unfolding find_payload
  find_delay details parts =
      if has_key "tookMs" details
      then (details, in_details)
      else choose details (find_payload 0 parts)

  unfoldable pub delay_of : Fields → Fields → Fields × Source → Outcome Delay
  unfolding duration
  delay_of node details (payload, source) = elim (duration (get "tookMs" payload)) [
    | none ↦ (do id ← item "id" node; err (problem (bad_delay id)))
    | some n ↦ ok (record {
      milliseconds = n;
      source = source;
      cached = is_truthy (get "cached" payload) || is_truthy (get "cached" details);
    })
  ]

  -- The content is read only where the details have no time.
  unfoldable pub recorded_search_delay : Fields → Outcome Delay
  unfolding find_delay delay_of
  recorded_search_delay node = do
    result ← item "recorded_result" node
    value ← item_of "details" result
    details ← dictionary value
    parts ← if has_key "tookMs" details then ok [] else item_of "content" result >>= iterate
    delay_of node details (find_delay details parts)
