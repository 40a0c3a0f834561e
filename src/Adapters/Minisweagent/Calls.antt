-- ===== src/Adapters/Minisweagent/Calls.antt =====
-- The captured calls of `build_minisweagent_trace` in src/agenttrace/adapters/minisweagent.py, in the order of
-- the trajectory's responses. The sorting, `by_response_id` and one round of the loop are the statements
-- of `_ordered_calls` in openclaw.py.
pub mod Pairing
use atcr_agent_trace_collect.Prelude.{
  ℕ, suc, ◌*◌, ◌^◌, ◌==◌, leb, ltb, String, str_eq, Bool, true, false, not, ◌&&◌, Option, none,
  some, List, [], ◌∷◌, if◌then◌else◌, length, Result, ok, err, ◌>>=◌, ◌>>◌,
}
use atcr_agent_trace_collect.Json.{
  Value, Fields, null, float, str, dict, integer, is_none, get, not_finite,
}
use atcr_agent_trace_collect.Json.Access.{
  Exception, type_error, problem, get_from, object_from, is_text,
}
use atcr_agent_trace_collect.Json.Equality.{Number, number}
use atcr_agent_trace_collect.Adapters.Problems.{Problem, call_mismatch, Outcome}
use atcr_agent_trace_collect.Adapters.Openclaw.Calls.{
  with_sequence, sort_calls, without_sequence, ResponseIds, index_calls, find_call, take_call,
}

-- `(message.get("extra") or {}).get("response")`
unfoldable pub response_of : Fields → Outcome Value
response_of message = do extra ← object_from "extra" (dict message); get_from "response" extra

abbrev pub is_dict : Value → Bool
is_dict (dict _) = true
is_dict _ = false

-- `_response_id`, with `None` as the value that no response has.
abbrev pub id_in : Value → Value
id_in (str id) = str id
id_in _ = null

abbrev pub response_id_in : Value → Value
response_id_in (dict response) = id_in (get "id" response)
response_id_in _ = null

unfoldable pub response_id : Fields → Outcome Value
unfolding response_of
response_id message = do response ← response_of message; ok (response_id_in response)

-- A message with its index.
abbrev pub Indexed : Type 0
Indexed = ℕ × Fields

-- `response_events`
unfoldable pub response_events : ℕ → List Value → Outcome (List Indexed)
unfolding response_of
response_events index [] = ok []
response_events index (dict message ∷ rest) = do
  response ← response_of message
  more ← response_events (suc index) rest
  ok (if is_dict response then (index, message) ∷ more else more)
response_events index (_ ∷ rest) = response_events (suc index) rest

-- `200 <= status < 300`
abbrev pub in_range : Number → Bool
in_range n =
    not n.negative && leb (200 * 2 ^ n.halvings) n.mantissa && ltb n.mantissa (300 * 2 ^ n.halvings)

-- `call.get("status") is None or 200 <= call["status"] < 300`
unfoldable pub is_success : Value → Outcome Bool
is_success null = ok true
is_success (float not_finite) = ok false
is_success value = elim (number value) [ none ↦ err type_error | some n ↦ ok (in_range n) ]

abbrev pub has_tokens : Fields → Bool
has_tokens call = elim (integer (get "output_tokens" call)) [ none ↦ false | some _ ↦ true ]

-- Which of the rows are calls of the trace. `_read_jsonl` keeps the objects alone.
unfoldable pub is_call : String → Fields → Outcome Bool
unfolding is_success
is_call trace_id call =
    if is_text trace_id (get "trace_id" call) && has_tokens call
    then is_success (get "status" call)
    else ok false

unfoldable pub matching_rows : String → List Value → Outcome (List Fields)
unfolding is_call
matching_rows trace_id [] = ok []
matching_rows trace_id (dict call ∷ rest) = do
  wanted ← is_call trace_id call
  more ← matching_rows trace_id rest
  ok (if wanted then call ∷ more else more)
matching_rows trace_id (_ ∷ rest) = matching_rows trace_id rest

unfoldable pub order_events : ResponseIds → List Indexed → List Fields → Outcome (List Fields)
order_events by_response_id [] unused = ok []
order_events by_response_id ((_, message) ∷ rest) unused = do
  id ← response_id message
  (call, left) ← take_call (find_call id by_response_id) unused
  more ← order_events by_response_id rest left
  ok (call ∷ more)

-- The responses, and a call for each.
unfoldable pub paired_calls :
    String → List Value → List Value → Outcome (List Indexed × List Fields)
paired_calls trace_id messages rows = do
  events ← response_events 0 messages
  wanted ← matching_rows trace_id rows
  keyed ← with_sequence wanted
  let calls = without_sequence (sort_calls keyed)
  if length calls == length events
      then ok tt
      else err (problem (call_mismatch (length calls) (length events)))
  by_response_id ← index_calls calls
  ordered ← order_events by_response_id events calls
  ok (events, ordered)
