-- ===== src/Tests/Minisweagent.antt =====
-- The conversion of src/agenttrace/adapters/minisweagent.py on a trajectory of one command.
use atcr_agent_trace_collect.Prelude.{
  String, true, List, [], ◌∷◌, ◌≡◌, ◌≢◌, refl, ◌⊎◌, ok, err, ◌>>=◌, length,
}
use atcr_agent_trace_collect.Prelude.Int.{ℤ, pos}
use atcr_agent_trace_collect.Prelude.Texts.{numbered_name, padded, decimal, digits}
use atcr_agent_trace_collect.Json.{
  Value, Fields, int, str, list, dict, nil, cons, end, entry, lookup, get, equals_number,
}
use atcr_agent_trace_collect.Json.Access.{problem, get_from, item, object_from, hash}
use atcr_agent_trace_collect.Json.Equality.{value_eq, items_eq, fields_eq}
use atcr_agent_trace_collect.Schema.Types.{Error, no_nodes}
use atcr_agent_trace_collect.Schema.Validate.{validate_trace}
use atcr_agent_trace_collect.Schema.Validate.Raises.{IsOfFields}
use atcr_agent_trace_collect.Schema.Validate.Structure.{IsValid}
use atcr_agent_trace_collect.Replay.Bindings.{rewrite}
use atcr_agent_trace_collect.Adapters.Problems.{refused}
use atcr_agent_trace_collect.Adapters.Built.{Built, llm_node, tool_node}
use atcr_agent_trace_collect.Adapters.Built.Graph.{to_nodes}
use atcr_agent_trace_collect.Adapters.Openclaw.Calls.{
  with_sequence, insert_call, sort_calls, without_sequence, index_calls, find_call, is_unused,
  remove_call, take_call,
}
use atcr_agent_trace_collect.Adapters.Openclaw.Calls.Pairing.{Pairing}
use atcr_agent_trace_collect.Adapters.Openclaw.Nodes.{tokens_of}
use atcr_agent_trace_collect.Adapters.Minisweagent.Replace.{
  replace_from, interleave, replace, replace_text, replace_string,
}
use atcr_agent_trace_collect.Adapters.Minisweagent.Replace.Single.{rewrite-replace_string}
use atcr_agent_trace_collect.Adapters.Minisweagent.Calls.{
  Indexed, response_of, response_id, response_events, is_success, is_call, matching_rows,
  order_events, paired_calls,
}
use atcr_agent_trace_collect.Adapters.Minisweagent.Calls.Pairing.{paired_calls-Pairing}
use atcr_agent_trace_collect.Adapters.Minisweagent.Results.{recorded_result}
use atcr_agent_trace_collect.Adapters.Minisweagent.Nodes.{
  find_result, exit_messages, next_exit, read_action, read_actions, add_turn, add_turns,
}
use atcr_agent_trace_collect.Adapters.Minisweagent.Trace.{
  Settings, swebench_container_image, trace_fields, build_nodes, build_minisweagent_trace,
}
use atcr_agent_trace_collect.Adapters.Minisweagent.Trace.Returned.{build_minisweagent_trace-IsValid}

abbrev pub show : Value → String
show _ = "?"

abbrev action : Value
action = dict (entry "tool_call_id" (str "t1") (entry "command" (str "ls") end))

abbrev asks : Fields
asks = entry "role" (str "assistant") (
    entry "extra"
      (dict (
        entry "response" (dict (entry "id" (str "r1") end))
          (entry "actions" (list (cons action nil)) end)))
      end)

abbrev pub extra : Fields
extra = entry "returncode" (int (pos 2)) (entry "exception_info" (str "") end)

abbrev pub answer : Fields
answer = entry "role" (str "tool") (
    entry "tool_call_id" (str "t1")
      (entry "content" (str "no such file") (entry "extra" (dict extra) end)))

abbrev trajectory : Value
trajectory = dict (entry "messages" (list (cons (dict asks) (cons (dict answer) nil))) end)

abbrev call : Fields
call = entry "trace_id" (str "case") (
    entry "sequence" (int (pos 1)) (
      entry "response_id" (str "r1") (
        entry "protocol" (str "openai-chat-completions") (
          entry "endpoint" (str "/chat/completions")
            (entry "request" (dict end) (entry "output_tokens" (int (pos 7)) end))))))

abbrev settings : Settings
settings = record {
  trace_id = "case";
  workload = "SWE-bench";
  framework_version = "2";
  captured_workspace_root = "/testbed";
  source_repository = "a/b";
  base_commit = "0";
  instance_id = "a__b-1";
}

abbrev built : List Built
built =
    llm_node "llm-001" [] (str "openai-chat-completions") (str "/chat/completions") (dict end)
      (int (pos 7))
    ∷ tool_node "tool-001" "llm-001" "minisweagent-singularity" "bash"
        (dict (entry "command" (str "ls") end))
        (record {
          tool_call_id = "t1";
          tool_name = "bash";
          content =
              list (
                cons (dict (entry "type" (str "text") (entry "text" (str "no such file") end)))
                  nil);
          details = dict (entry "returncode" (int (pos 2)) end);
          is_error = true;
        })
    ∷ []

-- What a run of the adapter computes with.
adapter : Unit {0}
unfolding lookup get equals_number ◌>>=◌ get_from item object_from hash value_eq items_eq fields_eq
    with_sequence insert_call sort_calls index_calls find_call is_unused remove_call take_call
    tokens_of response_of response_id response_events is_success is_call matching_rows order_events
    paired_calls recorded_result find_result exit_messages next_exit read_action read_actions
    add_turn add_turns build_nodes numbered_name padded decimal digits
adapter = tt

pairs :
    paired_calls "case" (dict asks ∷ dict answer ∷ []) (dict call ∷ [])
    ≡ ok ((0, asks) ∷ [], call ∷ [])
unfolding adapter
pairs = refl

paired_calls-Pairing_example :
    (captured : List Fields) × (keyed : List (ℤ × Fields)) × (response_events 0
        (dict asks ∷ dict answer ∷ [])
      ≡ ok ((0, asks) ∷ []))
    × (matching_rows "case" (dict call ∷ []) ≡ ok captured)
    × (with_sequence captured ≡ ok keyed)
    × Pairing (call ∷ []) (without_sequence (sort_calls keyed))
    × (length (call ∷ []) ≡ length {A = Indexed} ((0, asks) ∷ []))
paired_calls-Pairing_example =
    paired_calls-Pairing "case" (dict asks ∷ dict answer ∷ []) (dict call ∷ []) ((0, asks) ∷ [])
      (call ∷ []) pairs

builds : build_nodes show "case" trajectory (dict call ∷ []) ≡ ok built
unfolding adapter
builds = refl

build_minisweagent_trace-IsValid_example :
    ((build_minisweagent_trace show (λ s. s) settings trajectory (dict call ∷ [])
        ≡ ok (trace_fields (λ s. s) settings built))
      × (validate_trace (trace_fields (λ s. s) settings built) ≡ ok (to_nodes built))
      × IsValid (to_nodes built))
    ⊎ ((e : Error) × (build_minisweagent_trace show (λ s. s) settings trajectory (dict call ∷ [])
          ≡ err (problem (refused e)))
        × (IsOfFields e ⊎ (e ≡ no_nodes)))
build_minisweagent_trace-IsValid_example =
    build_minisweagent_trace-IsValid show (λ s. s) settings trajectory (dict call ∷ []) built builds

image_name :
    swebench_container_image (λ s. s) "a__b-1"
    ≡ "docker://docker.io/swebench/sweb.eval.x86_64.a_1776_b-1:latest"
unfolding swebench_container_image replace_text replace replace_from
image_name = refl

between_all : replace_text "" "-" "ab" ≡ "-a-b-"
unfolding replace_text replace interleave
between_all = refl

abbrev command : Value
command = dict (entry "command" (str "ls /w /w/a") end)

named : ◌≢◌ {A = String} "/w" ""
named = cc

rewrite-replace_string_example :
    rewrite (("/w", "/testbed") ∷ []) command ≡ replace_string "/w" "/testbed" command
rewrite-replace_string_example = rewrite-replace_string "/w" "/testbed" command named
