-- ===== src/Envelope/Wrap.antt =====
-- `wrap_chat` of src/agenttrace/routing_envelope.py. `dumps_sorted` is `json.dumps` with sorted keys.
use atcr_agent_trace_collect.Prelude.{String, Option, none, some, List, [], ◌∷◌, Result, ok, ◌>>=◌}
use atcr_agent_trace_collect.Prelude.Texts.{joined}
use atcr_agent_trace_collect.Json.{Value, Fields, str, dict, end, entry, lookup, or_default}
use atcr_agent_trace_collect.Json.Access.{Exception, item}

-- No problem is reported by the code itself.
pub data Problem : Type 0 where

abbrev pub Outcome : Type 0 → Type 0
Outcome = Result (Exception Problem)

-- `PAYLOAD_FIELD`
abbrev pub payload_field : String
payload_field = "agenttrace_chat_payload"

abbrev pub context_keys : List String
context_keys =
    "model" ∷ "tools" ∷ "tool_choice" ∷ "parallel_tool_calls" ∷ "functions" ∷ "function_call"
    ∷ "chat_template" ∷ "chat_template_kwargs" ∷ "add_generation_prompt" ∷ "continue_final_message"
    ∷ "documents" ∷ []

abbrev with_key : String → Option Value → Fields → Fields
with_key key none rest = rest
with_key key (some v) rest = entry key v rest

-- `{key: payload[key] for key in keys if key in payload}`
unfoldable pub selected : List String → Fields → Fields
selected [] payload = end
selected (key ∷ rest) payload = with_key key (lookup key payload) (selected rest payload)

unfoldable pub wrap_chat : (Value → String) → Fields → Outcome Fields
unfolding selected
wrap_chat dumps_sorted payload = do
  let context = dumps_sorted (dict (selected context_keys payload))
  messages ← item "messages" payload
  let prefix = joined (joined context "\n") (dumps_sorted messages)
  model ← item "model" payload
  max_tokens ← item "max_tokens" payload
  stream ← item "stream" payload
  ok (
      entry "model" model (
        entry "prompt" (str prefix) (
          entry "max_tokens" max_tokens (
            entry "stream" stream (
              entry "stream_options" (or_default (dict end) (lookup "stream_options" payload))
                (entry payload_field (dict payload) end))))))
