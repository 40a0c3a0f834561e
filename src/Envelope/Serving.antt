-- ===== src/Envelope/Serving.antt =====
-- What the application of `RoutingEnvelopeMiddleware` in src/agenttrace/routing_envelope.py receives and
-- sends, and the record of the call. The application is the list of what it does.
use atcr_agent_trace_collect.Prelude.{
  ℕ, leb, ltb, String, str_eq, Bool, true, false, not, ◌&&◌, Option, none, some, List, [], ◌∷◌,
  ◌++◌, if◌then◌else◌, ok, err, ◌>>=◌,
}
use atcr_agent_trace_collect.Json.{Value, is_none}
use atcr_agent_trace_collect.Json.Access.{Exception, get_from}
use atcr_agent_trace_collect.Envelope.Wrap.{Problem, Outcome}
use atcr_agent_trace_collect.Envelope.Middleware.{
  Bytes, Headers, Scope, Message, part, is_foreign, read_body, find_header, payload_of, restore,
}

pub data Status : Type 0 where
  failed completed http_error : Status

-- The dictionary `record` without its times: `none` where there is no key.
pub record Entry : Type 0 where
  pub task_instance_id : Option String
  pub node_id : Option String
  pub home : Option String
  pub destination : String
  pub target_output_tokens : Option Value
  pub status : Status
  pub http_status : Option ℕ
  pub error_type : Option String

-- A message that is sent.
pub data Sent : Type 0 where
  start : (status : ℕ) (headers : Headers) → Sent
  content_part : (content : Bytes) (more_body : Bool) → Sent
  other_message : Sent

-- What the application does: it receives, or sends, where the server's `send` may raise.
pub data Act : Type 0 where
  receives : Act
  sends : (message : Sent) (raises : Bool) → Act

-- `delivered`, the messages that are still to come, the record, and what the application has received and
-- the server has been sent.
pub record State : Type 0 where
  pub delivered : Bool
  pub pending : List Message
  pub entry : Entry
  pub received : List Message
  pub sent : List Sent

abbrev take_pending : List Message → State → State
take_pending [] s = s
take_pending (message ∷ rest) s = record s { pending = rest; received = s.received ++ message ∷ [] }

-- `restored_receive`: a receive with no message to come waits.
unfoldable pub restored_receive : Bytes → State → State
restored_receive body s =
    if s.delivered
    then take_pending s.pending s
    else record s { delivered = true; received = s.received ++ part body false ∷ [] }

abbrev pub is_success : Option ℕ → Bool
is_success none = false
is_success (some status) = leb 200 status && ltb status 300

abbrev with_status : ℕ → Entry → Entry
with_status status e = record e { http_status = some status }

-- `observed_send` before its `await send(message)`
abbrev note_start : Sent → Entry → Entry
note_start (start status headers) e = with_status status e
note_start _ e = e

abbrev named : String → Sent → Sent
named replica (start status headers) =
    start status (headers ++ ("x-agenttrace-replica", replica) ∷ [])
named replica message = message

-- and after it
abbrev note_end : Sent → Entry → Entry
note_end (content_part content false) e = record e {
  status = if is_success e.http_status then completed else http_error;
}
note_end _ e = e

unfoldable pub observed_send : String → Sent → Bool → State → State
observed_send replica message raises s =
    let e = note_start message s.entry in
    record s {
      entry = if raises then e else note_end message e;
      sent = s.sent ++ named replica message ∷ [];
    }

unfoldable pub act : String → Bytes → Act → State → State
unfolding restored_receive observed_send
act replica body receives s = restored_receive body s
act replica body (sends message raises) s = observed_send replica message raises s

unfoldable pub run : String → Bytes → List Act → State → State
unfolding act
run replica body [] s = s
run replica body (a ∷ rest) s = run replica body rest (act replica body a s)

-- How the application ends: it returns, or raises an error of a type.
pub data Ending : Type 0 where
  returned : Ending
  raised : (error_type : String) → Ending

abbrev pub close_entry : Ending → Entry → Entry
close_entry returned e = e
close_entry (raised name) e = record e { status = failed; error_type = some name }

abbrev is_named : Option String → Bool
is_named none = false
is_named (some s) = not (str_eq s "")

-- `if task and call:` the line of the ledger
abbrev pub ledger_of : Entry → List Entry
ledger_of e = if is_named e.task_instance_id && is_named e.node_id then e ∷ [] else []

-- What the application is called with, and the record before it.
pub record Opening : Type 0 where
  pub scope : Scope
  pub body : Bytes
  pub state : State

-- `__call__` as a whole. `unfinished` is a body whose end has not come.
pub data Call : Type 0 where
  foreign unfinished : Call
  refused : Exception Problem → Call
  served : (opening : Opening) (final : State) (ledger : List Entry) → Call

abbrev pub serve : String → List Act → Ending → Outcome Opening → Call
serve replica acts ending (err e) = refused e
serve replica acts ending (ok o) =
    let final = run replica o.body acts o.state in
    let closed = record final { entry = close_entry ending final.entry } in
    served o closed (ledger_of closed.entry)

module _ (lower : String → String) where
  abbrev pub first_entry : String → Headers → Option Value → Entry
  first_entry replica headers tokens = record {
    task_instance_id = find_header lower "x-agenttrace-task" headers;
    node_id = find_header lower "x-agenttrace-call" headers;
    home = find_header lower "x-agenttrace-home" headers;
    destination = replica;
    target_output_tokens = tokens;
    status = failed;
    http_status = none;
    error_type = none;
  }

  abbrev pub tokens_of : Value → Outcome (Option Value)
  tokens_of payload = do tokens ← get_from "max_tokens" payload; ok (some tokens)

  module _ (loads : Bytes → Option Value) (dumps : Value → Bytes) where
    unfoldable pub open_call : String → Scope → Bytes → List Message → Outcome Opening
    unfolding restore
    open_call replica scope body rest = do
      payload ← payload_of loads body
      (scope', body') ← restore lower loads dumps scope body
      tokens ← if is_none payload then ok none else tokens_of payload
      ok (record {
        scope = scope';
        body = body';
        state = record {
          delivered = false;
          pending = rest;
          entry = first_entry replica scope'.headers tokens;
          received = [];
          sent = [];
        };
      })

    abbrev pub serve_body :
        String → Scope → List Act → Ending → Option (Bytes × List Message) → Call
    serve_body replica scope acts ending none = unfinished
    serve_body replica scope acts ending (some (body, rest)) =
        serve replica acts ending (open_call replica scope body rest)

    unfoldable pub call_middleware : String → Scope → List Message → List Act → Ending → Call
    unfolding open_call
    call_middleware replica scope messages acts ending =
        if is_foreign scope
        then foreign
        else serve_body replica scope acts ending (read_body messages)
