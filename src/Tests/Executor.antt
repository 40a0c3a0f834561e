-- ===== src/Tests/Executor.antt =====
-- `OpenClawToolExecutor` of src/agenttrace/adapters/openclaw.py on small inputs.
use mathlib.Core.List.{Memᴰ}
use mathlib.Core.List.Memᴰ
use atcr_agent_trace_collect.Prelude.{
  ℕ, ◌<◌, ◌≤◌, ◌==◌, String, true, false, Option, none, some, [], ◌∷◌, ◌≡◌, ◌≢◌, refl, ◌⊎◌, inl,
  inr, length, if◌then◌else◌, ok, err, ◌>>=◌, arith,
}
use atcr_agent_trace_collect.Prelude.Int.{pos}
use atcr_agent_trace_collect.Prelude.Names.{contains}
use atcr_agent_trace_collect.Json.{
  Value, Fields, bool, int, str, list, dict, nil, cons, end, entry, lookup, get, assign,
}
use atcr_agent_trace_collect.Json.Access.{problem, get_from, item, item_of, iterate, hash}
use atcr_agent_trace_collect.Json.Equality.{value_eq, items_eq, fields_eq}
use atcr_agent_trace_collect.Adapters.Problems.{Problem, still_waiting}
use atcr_agent_trace_collect.Adapters.Openclaw.Delay.{
  in_details, Delay, duration, payload_of, find_payload, find_delay, delay_of,
  recorded_search_delay,
}
use atcr_agent_trace_collect.Adapters.Openclaw.Executor.{
  native, recorded_delay, sleep, Options, Delays, ToolExecutor, fresh, do_deed,
}
use atcr_agent_trace_collect.Adapters.Openclaw.Executor.Machine.{
  Reply, no_connection, answered, Round, Machine,
}
use atcr_agent_trace_collect.Adapters.Openclaw.Executor.Requests.{
  tool_nodes, nodes_of_tools, is_search, find_delay_of, assign_delay, add_delay, read_delays,
}
use atcr_agent_trace_collect.Adapters.Openclaw.Executor.Setup.{
  expected_error, is_ready, send_probe, read_health, pause_round, await_ready, prepare_delays,
  setup,
}
use atcr_agent_trace_collect.Adapters.Openclaw.Executor.Close.{Ending, close}
use atcr_agent_trace_collect.Adapters.Openclaw.Executor.Invoke.{
  supported, read_request, known_delay, read_payload, read_reply,
}
use atcr_agent_trace_collect.Adapters.Openclaw.Executor.Execute.{Answer, execute}
use atcr_agent_trace_collect.Adapters.Openclaw.Executor.Recorded.{IsSearch, IsTimed}
use atcr_agent_trace_collect.Adapters.Openclaw.Executor.Replayed.{setup-replays}
use atcr_agent_trace_collect.Adapters.Openclaw.Executor.Readiness.{
  IsPending, IsAnswered, await_ready-IsAnswered, await_ready-ends,
}
use atcr_agent_trace_collect.Adapters.Openclaw.Executor.Posts.{IsDone, execute-IsDone}
use atcr_agent_trace_collect.Adapters.Openclaw.Executor.Replies.{IsResult, read_reply-IsResult}
use atcr_agent_trace_collect.Adapters.Openclaw.Executor.Prepared.{setup-IsValidated}
use atcr_agent_trace_collect.Adapters.Openclaw.Executor.Released.{
  closed_from, released, close-released,
}

abbrev request : String → Value
request name = dict (
    entry "protocol" (str "openclaw-tools-invoke")
      (entry "name" (str name) (entry "arguments" (dict end) end)))

abbrev recorded : Value
recorded =
    dict (
      entry "toolCallId" (str "t1")
        (entry "details" (dict (entry "tookMs" (int (pos 40)) end)) end))

abbrev tool_node : String → String → Fields
tool_node id name = entry "id" (str id) (
    entry "type" (str "tool")
      (entry "request" (request name) (entry "recorded_result" recorded end)))

abbrev search : Fields
search = tool_node "tool-001" "web_search"

abbrev trace : Fields
trace = entry "trace_id" (str "case") (entry "nodes" (list (cons (dict search) nil)) end)

abbrev show : Value → String
show _ = "?"

abbrev loads : String → Option Value
loads _ = none

-- The gateway answers from the second round on, and the deadline comes in the sixth.
abbrev ready_reply : Reply
ready_reply = record {
  status = 400;
  body = some (dict (entry "error" expected_error end));
  refused = some 400;
}

abbrev round : ℕ → Round
round n = record {
  returncode = none;
  health = if n == 0 then no_connection else answered true;
  probe = ready_reply;
  probe_raises = none;
  is_late = n == 5;
}

abbrev machine : Machine
machine = record {
  environ = λ _. none;
  random_token = "secret";
  workspace = "/run/workspace";
  run_root = "/run";
  child = λ directory name. name;
  staged = [];
  port = 4711;
  raises = λ _. none;
  rounds = round;
}

abbrev options : Options
options = record {
  web_search_mode = recorded_delay;
  openclaw_bin = "openclaw";
  token_env = none;
  has_plugin_state_dir = false;
}

abbrev delay : Delay
delay = record {
  milliseconds = record { negative = false; mantissa = 40; halvings = 0 };
  source = in_details;
  cached = false;
}

abbrev after_setup : ToolExecutor
after_setup = record (fresh none) {
  session_key = "agenttrace-case";
  search_delays = ("tool-001", delay) ∷ [];
}

-- What these runs compute with.
executor : Unit {0}
unfolding recorded_search_delay find_delay find_payload payload_of delay_of duration lookup get
    assign item item_of get_from iterate hash ◌>>=◌ value_eq items_eq fields_eq contains tool_nodes
    nodes_of_tools is_search find_delay_of assign_delay add_delay read_delays is_ready send_probe
    read_health pause_round await_ready prepare_delays setup supported read_request known_delay
    read_payload read_reply
executor = tt

nodes_of_tools-case : nodes_of_tools trace ≡ ok (search ∷ [])
unfolding executor
nodes_of_tools-case = refl

setup-case : setup show loads machine options 9 trace (fresh none) ≡ (ok tt, after_setup)
unfolding executor
setup-case = refl

search-IsSearch : IsSearch "tool-001" search
unfolding executor
search-IsSearch = record { is = refl; named = refl }

read_request-case : read_request search ≡ ok (request "web_search", "web_search")
unfolding executor
read_request-case = refl

only_one : (other : Fields) → Memᴰ other (search ∷ []) → IsSearch "tool-001" other → other ≡ search
only_one other m is = elim (Memᴰ.cases_cons m) [
  | inl same ↦ same
  | inr later ↦ absurd (Memᴰ.not-nil later)
]

abbrev answer : Answer
answer = record { raises = none; reply = ready_reply }

setup-replays_example :
    (d : Delay) × (value : Value) × (recorded_search_delay loads search ≡ ok d)
    × (item {P = Problem} "recorded_result" search ≡ ok value)
    × (execute recorded_delay answer search after_setup
        ≡ (ok (record { result = value; replay_metadata = some d }), do_deed (sleep d) after_setup))
setup-replays_example =
    setup-replays show loads machine options 9 trace (fresh none) after_setup (search ∷ [])
      "tool-001" search (request "web_search") answer refl nodes_of_tools-case setup-case
      (Memᴰ.head refl) search-IsSearch only_one read_request-case

setup-IsValidated_example :
    ((setup show loads machine options 9 trace (fresh none)).1.deeds ≡ [])
    ⊎ ((delays : Delays) × (read_delays loads (search ∷ []) [] ≡ ok delays)
        × ((node : Fields) → Memᴰ node (search ∷ []) → IsTimed loads delays node)
        × ((length (search ∷ []) ≡ 0) ⊎ (length delays ≢ length (search ∷ []))))
setup-IsValidated_example =
    setup-IsValidated show loads machine options 9 trace (fresh none) (search ∷ []) refl
      nodes_of_tools-case

abbrev with_gateway : ToolExecutor
with_gateway = record (fresh (some "http://127.0.0.1:4711")) {
  use_coding_bridge = true;
  has_client = true;
  has_process = true;
  has_lease = true;
  has_stdout = true;
  has_stderr = true;
}

execute-IsDone_example :
    IsDone native [] (execute native answer (tool_node "tool-002" "read") with_gateway).1.deeds
execute-IsDone_example =
    execute-IsDone native answer (tool_node "tool-002" "read") with_gateway refl

abbrev success : Reply
success = record {
  status = 200;
  body = some (dict (entry "ok" (bool true) (entry "result" (dict end) end)));
  refused = none;
}

read_reply-success : read_reply "read" success ≡ ok (entry "isError" (bool false) end)
unfolding executor
read_reply-success = refl

read_reply-IsResult_example :
    (payload : Fields) × (success.body ≡ some (dict payload))
    × IsResult "read" none payload (entry "isError" (bool false) end)
read_reply-IsResult_example =
    read_reply-IsResult "read" success (entry "isError" (bool false) end) read_reply-success

await_ready-case : (await_ready machine 9 0 with_gateway).0 ≡ ok tt
unfolding executor
await_ready-case = refl

await_ready-IsAnswered_example :
    (k : ℕ) × (0 ≤ k) × IsAnswered (round k) × ((i : ℕ) → 0 ≤ i → i < k → IsPending (round i))
await_ready-IsAnswered_example = await_ready-IsAnswered machine 9 0 with_gateway await_ready-case

await_ready-ends_example : (await_ready machine 6 0 with_gateway).0 ≢ err (problem still_waiting)
await_ready-ends_example = await_ready-ends machine 6 0 5 with_gateway refl (omega arith)

abbrev ending : Ending
ending = record { is_running = true; ends_in_time = false; raises = λ _. none }

close-released_example :
    close ending with_gateway ≡ (ok tt, released (closed_from ending with_gateway) with_gateway)
close-released_example = close-released ending with_gateway (λ _. refl)
