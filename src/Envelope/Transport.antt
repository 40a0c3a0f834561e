-- ===== src/Envelope/Transport.antt =====
-- A payload that `wrap_chat` of src/agenttrace/routing_envelope.py has wrapped reaches the application as it
-- was.
use atcr_agent_trace_collect.Prelude.{
  String, str_eq, true, false, Option, some, List, [], ◌∷◌, ◌++◌, ◌≡◌, ◌≢◌, refl, sym, ap, ◌∙◌,
  if◌then◌else◌, length, ok, ◌>>=◌, >>=-eq-ok, Bool-cases, inl, inr, arith, eq_iff,
}
use atcr_agent_trace_collect.Prelude.Texts.{decimal, string_of}
use atcr_agent_trace_collect.Json.{Value, Fields, dict, lookup, get}
use atcr_agent_trace_collect.Json.Access.{get_from}
use atcr_agent_trace_collect.Envelope.Wrap.{Outcome, payload_field, wrap_chat}
use atcr_agent_trace_collect.Envelope.Serving.{Opening, first_entry, open_call}
use atcr_agent_trace_collect.Envelope.Middleware.{
  Bytes, Headers, Scope, Message, part, read_body, without_length, restored_scope, payload_of,
  restore,
}

ok-eq : {A : Type 0} {a b : A} → ◌≡◌ {A = Outcome A} (ok a) (ok b) → a ≡ b
ok-eq h = cc

append_nil : (headers : Headers) → headers ++ [] ≡ headers
append_nil [] = refl
append_nil (h ∷ rest) = ap (λ (l : Headers). h ∷ l) (append_nil rest)

-- The messages of a body in chunks, the last one without `more_body`.
abbrev pub parts : Bytes → List Bytes → List Message
parts chunk [] = part chunk false ∷ []
parts chunk (next ∷ rest) = part chunk true ∷ parts next rest

abbrev pub whole : Bytes → List Bytes → Bytes
whole chunk [] = chunk
whole chunk (next ∷ rest) = chunk ++ whole next rest

-- The chunks are put together, and no later message is read.
read_body-parts :
    (chunk : Bytes) (rest : List Bytes) (later : List Message)
    → read_body (parts chunk rest ++ later) ≡ some (whole chunk rest, later)
unfolding read_body
read_body-parts chunk [] later = refl
read_body-parts chunk (next ∷ rest) later = rw (read_body-parts next rest later) refl

wrap_chat-payload :
    (dumps_sorted : Value → String) (payload envelope : Fields)
    → wrap_chat dumps_sorted payload ≡ ok envelope
    → get payload_field envelope ≡ dict payload
unfolding wrap_chat get lookup
wrap_chat-payload dumps_sorted payload envelope h =
    let (messages, _, h1) = >>=-eq-ok _ _ h in
    let (model, _, h2) = >>=-eq-ok _ _ h1 in
    let (max_tokens, _, h3) = >>=-eq-ok _ _ h2 in
    let (stream, _, h4) = >>=-eq-ok _ _ h3 in ap (get payload_field) (sym (ok-eq h4))

payload_of-wrapped :
    (loads : Bytes → Option Value) (dumps : Value → Bytes) (dumps_sorted : Value → String)
    (payload envelope : Fields)
    → loads (dumps (dict envelope)) ≡ some (dict envelope)
    → wrap_chat dumps_sorted payload ≡ ok envelope
    → payload_of loads (dumps (dict envelope)) ≡ ok (dict payload)
unfolding payload_of get_from
payload_of-wrapped loads dumps dumps_sorted payload envelope json h =
    rw (json, payload_of) (ap ok (wrap_chat-payload dumps_sorted payload envelope h))

module _ (lower : String → String) where
  -- Every header of that name, in order.
  unfoldable pub entries_of : String → Headers → Headers
  entries_of name [] = []
  entries_of name ((k, v) ∷ rest) =
      if str_eq name (lower k) then (k, v) ∷ entries_of name rest else entries_of name rest

  without_length-other :
      (name : String) (headers : Headers)
      → name ≢ "content-length"
      → entries_of name (without_length lower headers) ≡ entries_of name headers
  unfolding entries_of without_length
  without_length-other name [] h = refl
  without_length-other name ((k, v) ∷ rest) h =
      elim (Bool-cases (str_eq (lower k) "content-length")) [
        | inl is ↦ ground (
          arith,
          is,
          h,
          eq_iff (lower k) "content-length",
          eq_iff name (lower k),
          without_length-other name rest h,
        )
        | inr other ↦ ground (arith, other, without_length-other name rest h)
      ]

  without_length-none :
      (headers : Headers) → entries_of "content-length" (without_length lower headers) ≡ []
  unfolding entries_of without_length
  without_length-none [] = refl
  without_length-none ((k, v) ∷ rest) = elim (Bool-cases (str_eq (lower k) "content-length")) [
    | inl is ↦ ground (arith, is, without_length-none rest)
    | inr other ↦ ground (
      arith,
      other,
      eq_iff (lower k) "content-length",
      eq_iff "content-length" (lower k),
      without_length-none rest,
    )
  ]

  entries_of-snoc :
      (name k v : String) (headers : Headers)
      → entries_of name (headers ++ (k, v) ∷ [])
        ≡ entries_of name headers ++ (if str_eq name (lower k) then (k, v) ∷ [] else [])
  unfolding entries_of
  entries_of-snoc name k v [] = ground (arith)
  entries_of-snoc name k v ((k', v') ∷ rest) = ground (arith, entries_of-snoc name k v rest)

not_same : (name : String) → name ≢ "content-length" → str_eq name "content-length" ≡ false
not_same name h = ground (arith, eq_iff name "content-length", h)

-- A chat payload that `wrap_chat` has wrapped and that comes in any chunks is restored, where
-- `json.loads` reads the envelope that `json.dumps` has written and `lower` leaves the name of the length as it is:
-- the application is called on the chat route, with the payload's own text as its body, with exactly one
-- content length, that of this text, and with every header of any other name, in order, as it was;
-- what comes after the body is still there to be received.
pub open_call-restores :
    (lower : String → String) (dumps_sorted : Value → String) (loads : Bytes → Option Value)
    (dumps : Value → Bytes) (replica : String) (scope : Scope) (payload envelope : Fields)
    (chunk : Bytes) (chunks : List Bytes) (later : List Message) (name : String)
    → loads (dumps (dict envelope)) ≡ some (dict envelope)
    → lower "content-length" ≡ "content-length"
    → wrap_chat dumps_sorted payload ≡ ok envelope
    → whole chunk chunks ≡ dumps (dict envelope)
    → name ≢ "content-length"
    → (o : Opening) × (read_body (parts chunk chunks ++ later) ≡ some (whole chunk chunks, later))
      × (open_call lower loads dumps replica scope (whole chunk chunks) later ≡ ok o)
      × (o.scope.path ≡ "/v1/chat/completions")
      × (o.body ≡ dumps (dict payload))
      × (o.state.pending ≡ later)
      × (entries_of lower "content-length" o.scope.headers
          ≡ ("content-length", string_of (decimal (length (dumps (dict payload))))) ∷ [])
      × (entries_of lower name o.scope.headers ≡ entries_of lower name scope.headers)
unfolding open_call restore restored_scope ◌>>=◌ get_from
open_call-restores lower dumps_sorted loads dumps replica scope payload envelope chunk chunks later
      name json low wrapped sent other =
    let body : Bytes = dumps (dict payload) in
    let scope' : Scope = restored_scope lower body scope in
    let read = payload_of-wrapped loads dumps dumps_sorted payload envelope json wrapped in
    let got : payload_of loads (whole chunk chunks) ≡ ok (dict payload) =
      ap (payload_of loads) sent ∙ read in
    (
      record {
        scope = scope';
        body = body;
        state = record {
          delivered = false;
          pending = later;
          entry = first_entry lower replica scope'.headers (some (get "max_tokens" payload));
          received = [];
          sent = [];
        };
      },
      read_body-parts chunk chunks later,
      rw got refl,
      refl,
      refl,
      refl,
      entries_of-snoc lower "content-length" "content-length" _ (without_length lower scope.headers)
          ∙ rw (low, without_length-none lower scope.headers) refl,
      entries_of-snoc lower name "content-length" _ (without_length lower scope.headers)
          ∙ rw (low, not_same name other)
              (append_nil (entries_of lower name (without_length lower scope.headers))
                ∙ without_length-other lower name scope.headers other),
    )
