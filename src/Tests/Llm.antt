-- ===== src/Tests/Llm.antt =====
-- `execute` of src/agenttrace/replay/llm.py: a payload, and a stream of two events.
use atcr_agent_trace_collect.Prelude.Texts.{Text, chars, string_of}
use atcr_agent_trace_collect.Prelude.{
  str_eq, ◌≡◌, ◌≤◌, refl, true, Option, none, some, List, [], ◌∷◌, length, arith, ok, ◌>>=◌,
  if◌then◌else◌, ℕ,
}
use atcr_agent_trace_collect.Prelude.Int.{pos}
use atcr_agent_trace_collect.Json.{
  Value, Fields, bool, int, str, list, dict, nil, cons, end, entry, lookup, assign, get,
}
use atcr_agent_trace_collect.Replay.Llm.{
  Settings, Stream, build_payload, consume, strip, iterate, any_of, get_of, choice_has_output,
  has_output,
}
use atcr_agent_trace_collect.Replay.Llm.Events.{
  StreamEvent, output_times, first_of, last_or, last_integer, AreRead,
}
use atcr_agent_trace_collect.Replay.Llm.Payload.{IsPayload, build_payload-IsPayload}
use atcr_agent_trace_collect.Replay.Llm.Measured.{HasSpan, end_time, consume-IsMeasured}

abbrev settings : Settings
settings = record { ignore_eos = true; max_tokens_field = "max_tokens"; model_override = some "m" }

abbrev recorded : Fields
recorded =
    entry "model" (str "gpt") (entry "stream_options" (dict end) (entry "seed" (int (pos 7)) end))

abbrev sent : Fields
sent = entry "model" (str "m") (
    entry "stream_options" (dict (entry "include_usage" (bool true) end)) (
      entry "seed" (int (pos 7)) (
        entry "max_tokens" (int (pos 128))
          (entry "ignore_eos" (bool true) (entry "stream" (bool true) end)))))

is_sent : build_payload settings (pos 128) recorded ≡ ok sent
unfolding build_payload lookup assign
is_sent = refl

build_payload-IsPayload_example : IsPayload settings (pos 128) recorded sent
build_payload-IsPayload_example =
    build_payload-IsPayload settings (pos 128) recorded sent refl is_sent

-- A parser that knows two events: a role with no output, and a text with the usage.
abbrev delta : Fields → Value
delta fields = list (cons (dict (entry "delta" (dict fields) end)) nil)

abbrev parse : Text → Option Value
parse t =
    if str_eq (string_of t) "{1}"
    then some (dict (entry "choices" (delta (entry "role" (str "assistant") end)) end))
    else if str_eq (string_of t) "{2}"
    then some (
        dict (
          entry "choices" (delta (entry "content" (str "hi") end))
            (entry "usage" (dict (entry "completion_tokens" (int (pos 128)) end)) end)))
    else none

abbrev lines : List (ℕ × Text)
lines =
    (5, chars "data: {1}")
    ∷ (6, [])
    ∷ (9, chars "data: {2}")
    ∷ (9, chars ": ping")
    ∷ (11, chars "data: [DONE]")
    ∷ []

abbrev measured : Stream
measured = record {
  actual = some (pos 128);
  first_output = some 9;
  last_output = some 9;
  output_chunks = 1;
}

is_measured : consume parse (pos 128) lines ≡ ok measured
unfolding consume ◌>>=◌ lookup get choice_has_output strip iterate any_of get_of has_output
is_measured = refl

consume-IsMeasured_example :
    ((events : List StreamEvent) × AreRead parse lines events
      × (measured.first_output ≡ first_of (output_times events))
      × (measured.last_output ≡ last_or none (output_times events))
      × (measured.output_chunks ≡ length (output_times events))
      × (last_integer none events ≡ some (pos 128)))
    × (measured.actual ≡ some (pos 128))
    × HasSpan 5 measured (end_time 5 lines)
    × (measured.output_chunks ≤ length lines)
consume-IsMeasured_example =
    consume-IsMeasured parse (pos 128) 5 lines measured (ground arith) is_measured
