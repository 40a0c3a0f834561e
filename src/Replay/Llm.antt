-- ===== src/Replay/Llm.antt =====
-- `OpenAICompatibleExecutor.execute` of src/agenttrace/replay/llm.py: the payload that is sent, and
-- the loop over the lines of the stream. The HTTP client and the JSON parser are parameters: a line
-- comes with the time at which it is read, and `loads` is `json.loads`.
pub mod Events
pub mod Measured
pub mod Payload
use Prim.Native.Char.{Char, code}
use mathlib.Core.List.{reverse}
use atcr_agent_trace_collect.Prelude.Texts.{Text, string_of}
use atcr_agent_trace_collect.Prelude.{
  ℕ, zero, suc, ◌+◌, ◌==◌, leb, String, str_eq, Bool, true, false, not, ◌&&◌, ◌||◌, Option, none,
  some, List, [], ◌∷◌, if◌then◌else◌, Result, ok, err, ◌>>=◌, ◌>>◌,
}
use atcr_agent_trace_collect.Prelude.Int.{ℤ, int_eq}
use atcr_agent_trace_collect.Json.{
  Value, Items, Fields, null, bool, int, float, str, list, dict, nil, cons, end, entry, lookup, get,
  elements, assign, is_truthy, or_else, or_default, integer,
}

-- The executor's settings that shape the payload.
pub record Settings : Type 0 where
  pub ignore_eos : Bool
  pub max_tokens_field : String
  pub model_override : Option String

pub data Error : Type 0 where
  -- AttributeError: `.get` of a value that is no dictionary
  no_attribute : Error
  -- TypeError: a loop over a value that is not iterable, or an assignment into one that is no dictionary
  not_iterable not_assignable : Error
  -- json.JSONDecodeError
  bad_json : Error
  -- RuntimeError
  no_usage token_mismatch : Error

-- `value.get(key)`
unfoldable pub get_of : String → Value → Result Error Value
get_of key (dict d) = ok (get key d)
get_of key _ = err no_attribute

abbrev characters : String → List Value
characters String.[] = []
characters (String.◌∷◌ c s) = str (String.◌∷◌ c String.[]) ∷ characters s

abbrev keys : Fields → List Value
keys end = []
keys (entry k _ rest) = str k ∷ keys rest

-- `for item in value`
unfoldable pub iterate : Value → Result Error (List Value)
iterate (list items) = ok (elements items)
iterate (str s) = ok (characters s)
iterate (dict d) = ok (keys d)
iterate _ = err not_iterable

-- `any(test(item) for item in items)`: the first that holds ends it.
unfoldable pub any_of : (Value → Result Error Bool) → List Value → Result Error Bool
any_of test [] = ok false
any_of test (x ∷ rest) = do found ← test x; elim found [ true ↦ ok true | false ↦ any_of test rest ]

-- `(call.get("function") or {}).get("arguments")`, as a truth value
unfoldable pub has_arguments : Value → Result Error Bool
has_arguments call = do
  function ← get_of "function" call
  arguments ← get_of "arguments" (or_else function (dict end))
  ok (is_truthy arguments)

-- `_has_output`
unfoldable pub has_output : Value → Result Error Bool
has_output (dict delta) =
    if is_truthy (get "content" delta)
      || is_truthy (get "reasoning" delta)
      || is_truthy (get "reasoning_content" delta)
    then ok true
    else (do
      calls ← iterate (or_else (get "tool_calls" delta) (list nil))
      any_of has_arguments calls)
has_output _ = err no_attribute

-- `_has_output(choice.get("delta") or {})`
unfoldable pub choice_has_output : Value → Result Error Bool
choice_has_output choice = do delta ← get_of "delta" choice; has_output (or_else delta (dict end))

-- `actual`, `first_output`, `last_output`, `output_chunks`
pub record Stream : Type 0 where
  pub actual : Option ℤ
  pub first_output : Option ℕ
  pub last_output : Option ℕ
  pub output_chunks : ℕ

abbrev pub empty : Stream
empty = record { actual = none; first_output = none; last_output = none; output_chunks = 0 }

abbrev pub first_time : Option ℕ → ℕ → Option ℕ
first_time none now = some now
first_time (some t) now = some t

-- An event with output, at time `now`.
unfoldable pub note_output : ℕ → Bool → Stream → Stream
note_output now false s = s
note_output now true s = record s {
  first_output = first_time s.first_output now;
  last_output = some now;
  output_chunks = s.output_chunks + 1;
}

-- `if isinstance(usage.get("completion_tokens"), int): actual = ...`
unfoldable pub note_usage : Value → Stream → Stream
note_usage tokens s = elim (integer tokens) [ none ↦ s | some n ↦ record s { actual = some n } ]

-- `if self.model_override: payload["model"] = self.model_override`
unfoldable pub override_model : Option String → Fields → Fields
override_model none p = p
override_model (some m) p = if str_eq m "" then p else assign "model" (str m) p

unfoldable pub set_ignore_eos : Bool → Fields → Fields
set_ignore_eos true p = assign "ignore_eos" (bool true) p
set_ignore_eos false p = p

-- `payload.setdefault("stream_options", {})["include_usage"] = True`
unfoldable pub include_usage : Option Value → Fields → Result Error Fields
include_usage none p = ok (assign "stream_options" (dict (entry "include_usage" (bool true) end)) p)
include_usage (some (dict d)) p =
    ok (assign "stream_options" (dict (assign "include_usage" (bool true) d)) p)
include_usage (some _) p = err not_assignable

-- The payload before the options of the stream.
unfoldable pub fixed_fields : Settings → ℤ → Fields → Fields
unfolding override_model set_ignore_eos
fixed_fields c target recorded = assign "stream" (bool true) (
    set_ignore_eos c.ignore_eos
      (assign c.max_tokens_field (int target) (override_model c.model_override recorded)))

unfoldable pub build_payload : Settings → ℤ → Fields → Result Error Fields
unfolding include_usage fixed_fields
build_payload c target recorded =
    let p = fixed_fields c target recorded in include_usage (lookup "stream_options" p) p

-- What is done with one event of the stream.
unfoldable pub read_event : ℕ → Value → Stream → Result Error Stream
unfolding note_output note_usage
read_event now (dict value) s = do
  choices ← iterate (or_default (list nil) (lookup "choices" value))
  output ← any_of choice_has_output choices
  usage ← get_of "completion_tokens" (or_else (get "usage" value) (dict end))
  ok (note_usage usage (note_output now output s))
read_event now _ s = err no_attribute

-- `str.isspace` of a character
unfoldable pub is_space : Char → Bool
is_space ch =
    let c = code ch in
    leb 9 c && leb c 13
    || leb 28 c && leb c 32
    || c == 133
    || c == 160
    || c == 5760
    || leb 8192 c && leb c 8202
    || c == 8232
    || c == 8233
    || c == 8239
    || c == 8287
    || c == 12288

-- `str.lstrip`
unfoldable pub strip_left : Text → Text
unfolding is_space
strip_left [] = []
strip_left (c ∷ t) = let rest = strip_left t in if is_space c then rest else c ∷ t

-- `str.strip`
unfoldable pub strip : Text → Text
unfolding strip_left
strip t = reverse (strip_left (reverse (strip_left t)))

-- `line.startswith("data:")`, and `line[5:]`
unfoldable pub data_of : Text → Option Text
data_of (a ∷ b ∷ c ∷ d ∷ e ∷ rest) =
    if code a == b'd' && code b == b'a' && code c == b't' && code d == b'a' && code e == b':'
    then some rest
    else none
data_of _ = none

-- A line of an event with no data, or with the marker at the end of the stream.
abbrev pub is_done : Text → Bool
is_done t = str_eq (string_of t) "" || str_eq (string_of t) "[DONE]"

-- The end of `execute`: the number of tokens is the recorded one, or the call fails.
unfoldable pub finish : ℤ → Stream → Result Error Stream
finish target s = elim s.actual [
  | none ↦ err no_usage
  | some n ↦ if int_eq n target then ok s else err token_mismatch
]

module _ (loads : Text → Option Value) where
  -- The event of a line that has one.
  unfoldable pub read_data : ℕ → Text → Stream → Result Error Stream
  unfolding read_event
  read_data now data_text s =
      if is_done data_text
      then ok s
      else elim (loads data_text) [ none ↦ err bad_json | some value ↦ read_event now value s ]

  -- One round of `async for line in response.aiter_lines()`
  unfoldable pub read_line : ℕ → Text → Stream → Result Error Stream
  unfolding data_of read_data
  read_line now line s = elim (data_of line) [
    | none ↦ ok s
    | some rest ↦ read_data now (strip rest) s
  ]

  unfoldable pub read_lines : List (ℕ × Text) → Stream → Result Error Stream
  unfolding read_line
  read_lines [] s = ok s
  read_lines ((now, line) ∷ rest) s = do s' ← read_line now line s; read_lines rest s'

  unfoldable pub consume : ℤ → List (ℕ × Text) → Result Error Stream
  unfolding read_lines finish
  consume target lines = do s ← read_lines lines empty; finish target s
