-- ===== src/Adapters/Openclaw/Calls.antt =====
-- `_ordered_calls` of src/agenttrace/adapters/openclaw.py: the captured calls in the order of the
-- assistant's messages.
pub mod Pairing
use atcr_agent_trace_collect.Prelude.{
  ℕ, leb, ◌+◌, ◌==◌, String, str_eq, Bool, true, false, not, Option, none, some, List, [], ◌∷◌,
  if◌then◌else◌, ◌||◌, length, Result, ok, err, ◌>>=◌, ◌>>◌,
}
use atcr_agent_trace_collect.Prelude.Int.{ℤ, pos_part, neg_part}
use atcr_agent_trace_collect.Json.{Value, Fields, dict, integer, is_truthy, get}
use atcr_agent_trace_collect.Json.Access.{
  Exception, attribute_error, type_error, index_error, problem, get_from, object_from, item, hash,
  is_text,
}
use atcr_agent_trace_collect.Json.Equality.{value_eq, dict_eq}
use atcr_agent_trace_collect.Adapters.Problems.{Problem, call_mismatch, Outcome}

-- `(event.get("message") or {}).get("role") == role`
unfoldable pub has_role : String → Value → Outcome Bool
has_role role event = do
  message ← object_from "message" event
  found ← get_from "role" message
  ok (is_text role found)

-- `event.get("type") == "message" and (event.get("message") or {}).get("role") == "assistant"`
unfoldable pub is_assistant : Value → Outcome Bool
is_assistant event = do
  type ← get_from "type" event
  if is_text "message" type then has_role "assistant" event else ok false

unfoldable pub assistants_of : List Value → Outcome (List Value)
assistants_of [] = ok []
assistants_of (event ∷ rest) = do
  wanted ← is_assistant event
  more ← assistants_of rest
  ok (if wanted then event ∷ more else more)

-- `call for call in calls if call.get("trace_id") == trace_id`
unfoldable pub matching_calls : String → List Value → Outcome (List Fields)
matching_calls trace_id [] = ok []
matching_calls trace_id (dict call ∷ rest) = do
  more ← matching_calls trace_id rest
  ok (if is_text trace_id (get "trace_id" call) then call ∷ more else more)
matching_calls trace_id (_ ∷ rest) = err attribute_error

-- `key=lambda call: call["sequence"]`: the capture proxy numbers its calls, so the keys are integers;
-- the model refuses another key.
unfoldable pub with_sequence : List Fields → Outcome (List (ℤ × Fields))
with_sequence [] = ok []
with_sequence (call ∷ rest) = do
  sequence ← item "sequence" call
  more ← with_sequence rest
  elim (integer sequence) [ none ↦ err type_error | some n ↦ ok ((n, call) ∷ more) ]

abbrev pub not_after : ℤ → ℤ → Bool
not_after m n = leb (pos_part m + neg_part n) (pos_part n + neg_part m)

-- `sorted`: equal keys keep their order.
unfoldable pub insert_call : ℤ × Fields → List (ℤ × Fields) → List (ℤ × Fields)
insert_call call [] = call ∷ []
insert_call call (other ∷ rest) =
    if not_after call.0 other.0 then call ∷ other ∷ rest else other ∷ insert_call call rest

unfoldable pub sort_calls : List (ℤ × Fields) → List (ℤ × Fields)
unfolding insert_call
sort_calls [] = []
sort_calls (call ∷ rest) = insert_call call (sort_calls rest)

abbrev pub without_sequence : List (ℤ × Fields) → List Fields
without_sequence [] = []
without_sequence ((_, call) ∷ rest) = call ∷ without_sequence rest

-- `by_response_id`, in the order of the assignments: the last one counts.
abbrev pub ResponseIds : Type 0
ResponseIds = List (Value × Fields)

unfoldable pub index_calls : List Fields → Outcome ResponseIds
index_calls [] = ok []
index_calls (call ∷ rest) = do
  let response_id = get "response_id" call
  if is_truthy response_id then hash response_id else ok tt
  more ← index_calls rest
  ok (if is_truthy response_id then (response_id, call) ∷ more else more)

unfoldable pub find_call : Value → ResponseIds → Option Fields
find_call response_id [] = none
find_call response_id ((key, call) ∷ rest) = elim (find_call response_id rest) [
  | some later ↦ some later
  | none ↦ if value_eq response_id key then some call else none
]

-- `call in unused`
unfoldable pub is_unused : Fields → List Fields → Bool
is_unused call [] = false
is_unused call (other ∷ rest) = dict_eq call other || is_unused call rest

-- `unused.remove(call)`
unfoldable pub remove_call : Fields → List Fields → List Fields
remove_call call [] = []
remove_call call (other ∷ rest) = if dict_eq call other then rest else other ∷ remove_call call rest

-- `call = unused[0]`, and its removal
abbrev pub take_first : List Fields → Outcome (Fields × List Fields)
take_first [] = err index_error
take_first (call ∷ rest) = ok (call, rest)

-- One round: the call by its response, if it is still unused, or the first one.
unfoldable pub take_call : Option Fields → List Fields → Outcome (Fields × List Fields)
unfolding is_unused remove_call
take_call none unused = take_first unused
take_call (some call) unused =
    if is_unused call unused then ok (call, remove_call call unused) else take_first unused

unfoldable pub order_calls : ResponseIds → List Value → List Fields → Outcome (List Fields)
unfolding take_call find_call
order_calls by_response_id [] unused = ok []
order_calls by_response_id (assistant ∷ rest) unused = do
  message ← object_from "message" assistant
  response_id ← get_from "responseId" message
  hash response_id
  (call, left) ← take_call (find_call response_id by_response_id) unused
  more ← order_calls by_response_id rest left
  ok (call ∷ more)

unfoldable pub ordered_calls : String → List Value → List Value → Outcome (List Value × List Fields)
ordered_calls trace_id events calls = do
  assistants ← assistants_of events
  wanted ← matching_calls trace_id calls
  keyed ← with_sequence wanted
  let matching = without_sequence (sort_calls keyed)
  if length matching == length assistants
      then ok tt
      else err (problem (call_mismatch (length matching) (length assistants)))
  by_response_id ← index_calls matching
  ordered ← order_calls by_response_id assistants matching
  ok (assistants, ordered)
