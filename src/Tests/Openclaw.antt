-- ===== src/Tests/Openclaw.antt =====
-- src/agenttrace/adapters/openclaw.py on a case of two messages with one tool call.
use atcr_agent_trace_collect.Prelude.{
  ℕ, String, true, false, Option, none, some, List, [], ◌∷◌, ◌≡◌, refl, ◌⊎◌, ok, err, ◌>>=◌, length,
  str_eq, All, subst,
}
use atcr_agent_trace_collect.Prelude.Int.{ℤ, pos}
use atcr_agent_trace_collect.Prelude.Names.{contains, remove, distinct}
use atcr_agent_trace_collect.Prelude.Texts.{joined, numbered_name, padded, decimal, digits}
use atcr_agent_trace_collect.Json.{
  Value, Fields, bool, int, str, list, dict, nil, cons, end, entry, lookup, get, equals_number,
}
use atcr_agent_trace_collect.Json.Access.{
  problem, get_from, item, item_of, object_from, iterate, hash,
}
use atcr_agent_trace_collect.Json.Equality.{value_eq, items_eq, fields_eq}
use atcr_agent_trace_collect.Schema.Types.{Error, no_nodes}
use atcr_agent_trace_collect.Schema.Fields.{
  object, string, optional_string, check_source, check_context, check_artifact, check_artifacts,
  check_header,
}
use atcr_agent_trace_collect.Schema.Nodes.{check_node, check_nodes}
use atcr_agent_trace_collect.Schema.Graph.{depends_on, check_dependencies, visit, search_nodes}
use atcr_agent_trace_collect.Schema.Validate.{check_graph, validate_trace}
use atcr_agent_trace_collect.Schema.Validate.Raises.{IsOfFields}
use atcr_agent_trace_collect.Schema.Validate.Structure.{IsValid}
use atcr_agent_trace_collect.Adapters.Openclaw.Calls.{
  has_role, is_assistant, assistants_of, matching_calls, with_sequence, insert_call, sort_calls,
  without_sequence, index_calls, find_call, is_unused, remove_call, take_call, order_calls,
  ordered_calls,
}
use atcr_agent_trace_collect.Adapters.Openclaw.Calls.Pairing.{Pairing, ordered_calls-Pairing}
use atcr_agent_trace_collect.Adapters.Problems.{Outcome, refused}
use atcr_agent_trace_collect.Adapters.Built.{Built, llm_node, tool_node}
use atcr_agent_trace_collect.Adapters.Openclaw.Nodes.{
  find_result, read_results, read_part, read_parts, tokens_of, add_turn, add_turns,
}
use atcr_agent_trace_collect.Adapters.Openclaw.Trace.{
  Settings, trace_fields, build_nodes, build_openclaw_trace,
}
use atcr_agent_trace_collect.Adapters.Built.Graph.{to_nodes}
use atcr_agent_trace_collect.Adapters.Openclaw.Trace.Returned.{
  build_openclaw_trace-built, outcome-eq,
}
use atcr_agent_trace_collect.Adapters.Openclaw.Spills.{
  Files, Artifact, recorded_path, add_artifact, capture_from, capture_spill_artifacts,
}
use atcr_agent_trace_collect.Adapters.Openclaw.Spills.Entries.{captured_paths, values_of}
use atcr_agent_trace_collect.Adapters.Openclaw.Spills.Accepted.{
  IsSystem, capture_spill_artifacts-accepted,
}
use atcr_agent_trace_collect.Adapters.Openclaw.Delay.{
  in_content, Delay, duration, payload_of, find_payload, find_delay, delay_of,
  recorded_search_delay,
}
use atcr_agent_trace_collect.Adapters.Openclaw.Delay.Sources.{
  IsPlaced, IsDuration, recorded_search_delay-IsPlaced,
}

abbrev message : Fields → Value
message fields = dict (entry "type" (str "message") (entry "message" (dict fields) end))

abbrev arguments : Value
arguments = dict (entry "path" (str "a.txt") end)

abbrev asks : Value
asks = message (
    entry "role" (str "assistant") (
      entry "responseId" (str "r1") (
        entry "content"
          (list (
            cons
              (dict (
                entry "type" (str "toolCall") (
                  entry "id" (str "t1")
                    (entry "name" (str "read") (entry "arguments" arguments end)))))
              nil))
          end)))

abbrev answers : Value
answers = message (
    entry "role" (str "toolResult")
      (entry "toolCallId" (str "t1") (entry "toolName" (str "read") end)))

abbrev ends : Value
ends = message (entry "role" (str "assistant") end)

abbrev events : List Value
events = asks ∷ answers ∷ ends ∷ []

abbrev call : ℕ → String → Fields
call n response_id = entry "trace_id" (str "case") (
    entry "sequence" (int (pos n)) (
      entry "response_id" (str response_id) (
        entry "protocol" (str "openai-chat-completions") (
          entry "endpoint" (str "/chat/completions")
            (entry "request" (dict end) (entry "output_tokens" (int (pos 7)) end))))))

-- The call of the first message was captured last.
abbrev calls : List Value
calls = dict (call 2 "r1") ∷ dict (call 1 "r0") ∷ []

abbrev show : Value → String
show _ = "?"

abbrev settings : Settings
settings = record {
  trace_id = "case";
  workload = "GAIA";
  framework_version = "";
  captured_workspace_root = "/w";
  workspace_seed = none;
  artifacts = nil;
}

-- What a run of the adapter computes with.
adapter : Unit {0}
unfolding validate_trace check_header check_source check_context check_artifacts check_artifact
    object string optional_string check_nodes check_node check_graph check_dependencies search_nodes
    visit depends_on contains remove distinct lookup get equals_number ◌>>=◌ get_from item item_of
    object_from iterate hash value_eq items_eq fields_eq has_role is_assistant assistants_of
    matching_calls with_sequence insert_call sort_calls index_calls find_call is_unused remove_call
    take_call order_calls ordered_calls find_result read_results read_part read_parts tokens_of
    add_turn add_turns build_nodes build_openclaw_trace numbered_name padded decimal digits
adapter = tt

ordered_calls-case :
    ordered_calls "case" events calls ≡ ok (asks ∷ ends ∷ [], call 2 "r1" ∷ call 1 "r0" ∷ [])
unfolding adapter
ordered_calls-case = refl

ordered_calls-Pairing_example :
    (captured : List Fields) × (keyed : List (ℤ × Fields)) × (assistants_of events
      ≡ ok (asks ∷ ends ∷ []))
    × (matching_calls "case" calls ≡ ok captured)
    × (with_sequence captured ≡ ok keyed)
    × Pairing (call 2 "r1" ∷ call 1 "r0" ∷ []) (without_sequence (sort_calls keyed))
    × (length (call 2 "r1" ∷ call 1 "r0" ∷ []) ≡ length (asks ∷ ends ∷ []))
ordered_calls-Pairing_example =
    ordered_calls-Pairing "case" events calls (asks ∷ ends ∷ []) (call 2 "r1" ∷ call 1 "r0" ∷ [])
      ordered_calls-case

abbrev built : List Built
built =
    llm_node "llm-001" [] (str "openai-chat-completions") (str "/chat/completions") (dict end)
      (int (pos 7))
    ∷ tool_node "tool-001" "llm-001" "openclaw-tools-invoke" "read" arguments (record {
      tool_call_id = "t1";
      tool_name = "read";
      content = list nil;
      details = dict end;
      is_error = false;
    })
    ∷ llm_node "llm-002" ("tool-001" ∷ []) (str "openai-chat-completions") (str "/chat/completions")
        (dict end) (int (pos 7))
    ∷ []

build_nodes-case : build_nodes show "case" events calls ≡ ok built
unfolding adapter
build_nodes-case = refl

build_openclaw_trace-case :
    build_openclaw_trace show settings events calls ≡ ok (trace_fields settings built)
unfolding adapter
build_openclaw_trace-case = refl

build_openclaw_trace-built_example :
    ((build_openclaw_trace show settings events calls ≡ ok (trace_fields settings built))
      × (validate_trace (trace_fields settings built) ≡ ok (to_nodes built))
      × IsValid (to_nodes built))
    ⊎ ((e : Error) × (build_openclaw_trace show settings events calls ≡ err (problem (refused e)))
        × (IsOfFields e ⊎ (e ≡ no_nodes)))
build_openclaw_trace-built_example =
    build_openclaw_trace-built show settings events calls built build_nodes-case

-- A search whose time stands in the text of the second part of its content.
abbrev search_node : Fields
search_node = entry "id" (str "tool-001") (
    entry "recorded_result"
      (dict (
        entry "details" (dict (entry "cached" (bool true) end)) (
          entry "content"
            (list (
              cons (str "part")
                (cons (dict (entry "type" (str "text") (entry "text" (str "{}") end))) nil)))
            end)))
      end)

-- Every text is an object with a time.
abbrev loads : String → Option Value
loads _ = some (dict (entry "tookMs" (int (pos 250)) end))

abbrev search_delay : Delay
search_delay = record {
  milliseconds = record { negative = false; mantissa = 250; halvings = 0 };
  source = in_content 1;
  cached = true;
}

searcher : Unit {0}
unfolding recorded_search_delay find_delay find_payload payload_of delay_of duration lookup get item
    item_of iterate ◌>>=◌
searcher = tt

recorded_search_delay-case : recorded_search_delay loads search_node ≡ ok search_delay
unfolding searcher
recorded_search_delay-case = refl

recorded_search_delay-IsPlaced_example :
    (result : Fields) × (details : Fields) × (payload : Fields) × (lookup "recorded_result"
        search_node
      ≡ some (dict result))
    × (lookup "details" result ≡ some (dict details))
    × IsPlaced loads result details (in_content 1) payload
    × IsDuration (get "tookMs" payload) search_delay.milliseconds
recorded_search_delay-IsPlaced_example =
    recorded_search_delay-IsPlaced loads search_node search_delay recorded_search_delay-case

-- Two results that name the same spilled file, and one whose file is gone.
abbrev spill : String → Value
spill path = dict (
    entry "message"
      (dict (
        entry "role" (str "toolResult")
          (entry "details" (dict (entry "fullOutputPath" (str path) end)) end)))
      end)

abbrev spills : List Value
spills = spill "/tmp/a.log" ∷ asks ∷ spill "/tmp/gone.log" ∷ spill "/tmp/a.log" ∷ []

abbrev files : Files
files = record {
  is_file = λ path. str_eq path "/tmp/a.log";
  name_of = λ _. "a.log";
  child = λ name. joined "/out/" name;
  relative = λ _. ok "artifacts/spill-001-a.log";
  digest = λ _. "00";
  copy_raises = λ _ _. none;
}

placed :
    (relative : String)
    → ◌≡◌ {A = Outcome String} (ok "artifacts/spill-001-a.log") (ok relative)
    → str_eq relative "" ≡ false
placed relative h = subst (λ r. str_eq r "" ≡ false) (outcome-eq h) refl

files-IsSystem : IsSystem files
files-IsSystem = record {
  no_empty_file = refl;
  no_empty_path = λ path relative h. placed relative h;
  no_empty_digest = λ _. refl;
}

abbrev spilled : List Artifact
spilled =
    record {
      id = "tool-output-001";
      captured_path = "/tmp/a.log";
      path = "artifacts/spill-001-a.log";
      sha256 = some "00";
    }
    ∷ []

captures : capture_spill_artifacts files true spills ≡ ok spilled
unfolding adapter capture_spill_artifacts capture_from add_artifact recorded_path
captures = refl

capture_spill_artifacts-accepted_example :
    All (λ a. files.is_file a.captured_path ≡ true) spilled
    × (distinct (captured_paths spilled) ≡ true)
    × (ids : List String) × (check_artifacts 0 [] (values_of spilled) ≡ ok ids)
capture_spill_artifacts-accepted_example =
    capture_spill_artifacts-accepted files files-IsSystem true spills spilled captures
