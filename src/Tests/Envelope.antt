-- ===== src/Tests/Envelope.antt =====
-- src/agenttrace/routing_envelope.py on a small payload.
use mathlib.Core.List.{Memᴰ}
use atcr_agent_trace_collect.Prelude.{
  ℕ, String, Bool, true, false, Option, some, List, [], ◌∷◌, ◌++◌, ◌≡◌, ◌≢◌, refl, length, ok,
  ◌>>=◌, arith, eq_iff,
}
use atcr_agent_trace_collect.Prelude.Int.{pos}
use atcr_agent_trace_collect.Prelude.Texts.{string_of, decimal, digits}
use atcr_agent_trace_collect.Json.{
  Value, Fields, bool, int, str, list, dict, nil, end, entry, lookup, get,
}
use atcr_agent_trace_collect.Json.Access.{get_from, item}
use atcr_agent_trace_collect.Envelope.Wrap.{payload_field, selected, wrap_chat}
use atcr_agent_trace_collect.Envelope.Middleware.{
  Bytes, Headers, Scope, part, read_body, without_length, restored_scope, find_header, payload_of,
  restore,
}
use atcr_agent_trace_collect.Envelope.Serving.{
  completed, Entry, start, content_part, Act, receives, sends, State, is_success, restored_receive,
  observed_send, act, run, returned, Opening, first_entry, served, open_call, call_middleware,
}
use atcr_agent_trace_collect.Envelope.Transport.{parts, whole, entries_of, open_call-restores}
use atcr_agent_trace_collect.Envelope.Recording.{call_middleware-completed}

abbrev payload : Fields
payload = entry "model" (str "m") (
    entry "messages" (list nil)
      (entry "max_tokens" (int (pos 16)) (entry "stream" (bool true) end)))

abbrev dumps_sorted : Value → String
dumps_sorted _ = "{}"

abbrev envelope : Fields
envelope = entry "model" (str "m") (
    entry "prompt" (str "{}\n{}") (
      entry "max_tokens" (int (pos 16)) (
        entry "stream" (bool true)
          (entry "stream_options" (dict end) (entry payload_field (dict payload) end)))))

abbrev lower : String → String
lower name = name

-- Two bytes for every value, and the envelope for every body.
abbrev loads : Bytes → Option Value
loads _ = some (dict envelope)

abbrev dumps : Value → Bytes
dumps _ = 123 ∷ 125 ∷ []

abbrev scope : Scope
scope = record {
  type = "http";
  path = "/v1/completions";
  raw_path = "/v1/completions";
  headers =
      ("content-length", "900") ∷ ("x-agenttrace-task", "t") ∷ ("x-agenttrace-call", "c") ∷ [];
}

middleware : Unit {0}
unfolding selected wrap_chat lookup get item get_from ◌>>=◌ read_body without_length restored_scope
    find_header payload_of restore restored_receive observed_send act run open_call call_middleware
    decimal digits
middleware = tt

wrap_chat-case : wrap_chat dumps_sorted payload ≡ ok envelope
unfolding middleware
wrap_chat-case = refl

other_name : ◌≢◌ {A = String} "x-agenttrace-task" "content-length"
other_name = ground (arith, eq_iff "x-agenttrace-task" "content-length")

open_call-restores_example :
    (o : Opening) × (read_body (parts (123 ∷ []) ((125 ∷ []) ∷ []) ++ [])
      ≡ some (whole (123 ∷ []) ((125 ∷ []) ∷ []), []))
    × (open_call lower loads dumps "r0" scope (whole (123 ∷ []) ((125 ∷ []) ∷ [])) [] ≡ ok o)
    × (o.scope.path ≡ "/v1/chat/completions")
    × (o.body ≡ dumps (dict payload))
    × (o.state.pending ≡ [])
    × (entries_of lower "content-length" o.scope.headers
        ≡ ("content-length", string_of (decimal (length (dumps (dict payload))))) ∷ [])
    × (entries_of lower "x-agenttrace-task" o.scope.headers
        ≡ entries_of lower "x-agenttrace-task" scope.headers)
open_call-restores_example =
    open_call-restores lower dumps_sorted loads dumps "r0" scope payload envelope (123 ∷ [])
      ((125 ∷ []) ∷ []) [] "x-agenttrace-task" refl refl wrap_chat-case refl other_name

abbrev acts : List Act
acts = receives ∷ sends (start 200 []) false ∷ sends (content_part [] false) false ∷ []

abbrev opening : Opening
opening = record {
  scope = record {
    type = "http";
    path = "/v1/chat/completions";
    raw_path = "/v1/chat/completions";
    headers =
        ("x-agenttrace-task", "t") ∷ ("x-agenttrace-call", "c") ∷ ("content-length", "2") ∷ [];
  };
  body = 123 ∷ 125 ∷ [];
  state = record {
    delivered = false;
    pending = [];
    entry =
        first_entry lower "r0"
          (("x-agenttrace-task", "t") ∷ ("x-agenttrace-call", "c") ∷ ("content-length", "2") ∷ [])
          (some (int (pos 16)));
    received = [];
    sent = [];
  };
}

abbrev last_entry : Entry
last_entry = record opening.state.entry { status = completed; http_status = some 200 }

abbrev final : State
final = record {
  delivered = true;
  pending = [];
  entry = last_entry;
  received = part (123 ∷ 125 ∷ []) false ∷ [];
  sent = start 200 (("x-agenttrace-replica", "r0") ∷ []) ∷ content_part [] false ∷ [];
}

call_middleware-case :
    call_middleware lower loads dumps "r0" scope (part (123 ∷ 125 ∷ []) false ∷ []) acts returned
    ≡ served opening final (last_entry ∷ [])
unfolding middleware
call_middleware-case = refl

call_middleware-completed_example :
    (returned ≡ returned)
    × ((content : Bytes) × Memᴰ (sends (content_part content false) false) acts)
    × ((status : ℕ) × (headers : Headers) × (raises : Bool) × (is_success (some status) ≡ true)
        × Memᴰ (sends (start status headers) raises) acts)
call_middleware-completed_example =
    call_middleware-completed lower loads dumps "r0" scope (part (123 ∷ 125 ∷ []) false ∷ []) acts
      returned opening final (last_entry ∷ []) call_middleware-case refl
