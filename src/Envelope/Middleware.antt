-- ===== src/Envelope/Middleware.antt =====
-- What `RoutingEnvelopeMiddleware.__call__` of src/agenttrace/routing_envelope.py reads, and the request
-- that it passes on. `lower` is `bytes.lower`; `loads` and `dumps` are `json.loads` and `json.dumps` with
-- `.encode()`.
use atcr_agent_trace_collect.Prelude.{
  ℕ, String, str_eq, Bool, not, ◌&&◌, Option, none, some, List, [], ◌∷◌, ◌++◌, if◌then◌else◌,
  length, ok, err, ◌>>=◌,
}
use atcr_agent_trace_collect.Prelude.Texts.{decimal, string_of}
use atcr_agent_trace_collect.Json.{Value, is_none}
use atcr_agent_trace_collect.Json.Access.{json_error, get_from}
use atcr_agent_trace_collect.Envelope.Wrap.{Outcome, payload_field}

abbrev pub Bytes : Type 0
Bytes = List ℕ

abbrev pub Headers : Type 0
Headers = List (String × String)

-- The keys of the scope that the middleware uses.
pub record Scope : Type 0 where
  pub type : String
  pub path : String
  pub raw_path : String
  pub headers : Headers

-- A message that is received: a disconnect, or one with `body` and `more_body`.
pub data Message : Type 0 where
  disconnect : Message
  part : (body : Bytes) (more_body : Bool) → Message

-- `scope["type"] != "http" or scope["path"] != "/v1/completions"`: the application serves it alone
abbrev pub is_foreign : Scope → Bool
is_foreign scope = not (str_eq scope.type "http" && str_eq scope.path "/v1/completions")

-- What the reading loop leaves: the body and the messages after it. A client that has gone, or a list
-- that ends before the body does, leaves nothing.
abbrev pub with_chunk : Bytes → Option (Bytes × List Message) → Option (Bytes × List Message)
with_chunk chunk none = none
with_chunk chunk (some (body, rest)) = some (chunk ++ body, rest)

unfoldable pub read_body : List Message → Option (Bytes × List Message)
read_body [] = none
read_body (disconnect ∷ rest) = none
read_body (part chunk more ∷ rest) =
    let later = read_body rest in if more then with_chunk chunk later else some (chunk, rest)

-- The payload, if the body is an envelope.
unfoldable pub payload_of : (Bytes → Option Value) → Bytes → Outcome Value
payload_of loads body = elim (loads body) [
  | none ↦ err json_error
  | some envelope ↦ get_from payload_field envelope
]

module _ (lower : String → String) where
  -- `[(k, v) for k, v in headers if k.lower() != b"content-length"]`
  unfoldable pub without_length : Headers → Headers
  without_length [] = []
  without_length ((k, v) ∷ rest) =
      if str_eq (lower k) "content-length"
      then without_length rest
      else (k, v) ∷ without_length rest

  unfoldable pub restored_scope : Bytes → Scope → Scope
  unfolding without_length
  restored_scope body scope = record {
    type = scope.type;
    path = "/v1/chat/completions";
    raw_path = "/v1/chat/completions";
    headers =
        without_length scope.headers ++ ("content-length", string_of (decimal (length body))) ∷ [];
  }

  -- `headers.get(name)` of the dictionary of the headers: the last one counts.
  unfoldable pub find_header : String → Headers → Option String
  find_header name [] = none
  find_header name ((k, v) ∷ rest) = elim (find_header name rest) [
    | some later ↦ some later
    | none ↦ if str_eq name (lower k) then some v else none
  ]

  module _ (loads : Bytes → Option Value) (dumps : Value → Bytes) where
    -- The scope and the body that the application gets.
    unfoldable pub restore : Scope → Bytes → Outcome (Scope × Bytes)
    unfolding payload_of restored_scope
    restore scope body = do
      payload ← payload_of loads body
      ok (
          if is_none payload
          then (scope, body)
          else (restored_scope (dumps payload) scope, dumps payload))
