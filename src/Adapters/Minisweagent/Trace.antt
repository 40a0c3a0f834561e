-- ===== src/Adapters/Minisweagent/Trace.antt =====
-- `build_minisweagent_trace` of src/agenttrace/adapters/minisweagent.py: the trace, checked by `validate_trace`.
-- The files are read before: `trajectory` is the value of the one, `rows` are the values of the other's
-- lines. `lower` is Python's `str.lower`.
pub mod Returned
use atcr_agent_trace_collect.Prelude.{String, List, [], Result, ok, err, ◌>>=◌}
use atcr_agent_trace_collect.Prelude.Int.{pos}
use atcr_agent_trace_collect.Prelude.Texts.{joined}
use atcr_agent_trace_collect.Json.{
  Value, Fields, null, int, str, list, dict, nil, end, entry, get, elements,
}
use atcr_agent_trace_collect.Json.Access.{problem}
use atcr_agent_trace_collect.Schema.Validate.{validate_trace}
use atcr_agent_trace_collect.Adapters.Problems.{Outcome, not_an_object, no_messages}
use atcr_agent_trace_collect.Adapters.Built.{Built, nodes_of}
use atcr_agent_trace_collect.Adapters.Openclaw.Trace.{accept}
use atcr_agent_trace_collect.Adapters.Minisweagent.Replace.{replace_text}
use atcr_agent_trace_collect.Adapters.Minisweagent.Calls.{paired_calls}
use atcr_agent_trace_collect.Adapters.Minisweagent.Nodes.{initial, exit_messages, add_turns}

-- The keyword arguments besides the two files.
pub record Settings : Type 0 where
  pub trace_id : String
  pub workload : String
  pub framework_version : String
  pub captured_workspace_root : String
  pub source_repository : String
  pub base_commit : String
  pub instance_id : String

unfoldable pub swebench_container_image : (String → String) → String → String
swebench_container_image lower instance_id =
    let docker_id = replace_text "__" "_1776_" instance_id in
    lower (
      joined "docker://docker.io/swebench/"
        (joined "sweb.eval.x86_64." (joined docker_id ":latest")))

abbrev pub source_fields : Settings → Fields
source_fields c =
    entry "framework" (str "mini-swe-agent")
      (entry "workload" (str c.workload) (entry "version" (str c.framework_version) end))

abbrev pub context_fields : (String → String) → Settings → Fields
context_fields lower c = entry "captured_workspace_root" (str c.captured_workspace_root) (
    entry "captured_tmp_root" (str "/tmp") (
      entry "workspace_seed" null (
        entry "source_repository" (str c.source_repository) (
          entry "base_commit" (str c.base_commit) (
            entry "instance_id" (str c.instance_id) (
              entry "container_image" (str (swebench_container_image lower c.instance_id))
                (entry "container_cwd" (str "/testbed") end)))))))

abbrev pub trace_fields : (String → String) → Settings → List Built → Fields
trace_fields lower c nodes = entry "schema_version" (int (pos 2)) (
    entry "trace_id" (str c.trace_id) (
      entry "source" (dict (source_fields c)) (
        entry "context" (dict (context_fields lower c))
          (entry "artifacts" (list nil) (entry "nodes" (list (nodes_of nodes)) end)))))

-- `messages`, which must be a list.
abbrev pub message_list : Value → Outcome (List Value)
message_list (list items) = ok (elements items)
message_list _ = err (problem no_messages)

-- `_load_object(...)`, and its messages.
abbrev pub messages_of : Value → Outcome (List Value)
messages_of (dict trajectory) = message_list (get "messages" trajectory)
messages_of _ = err (problem not_an_object)

module _ (show : Value → String) where
  -- The nodes, before the trace is made.
  unfoldable pub build_nodes : String → Value → List Value → Outcome (List Built)
  build_nodes trace_id trajectory rows = do
    messages ← messages_of trajectory
    (events, calls) ← paired_calls trace_id messages rows
    s ← add_turns show messages (exit_messages 0 messages) 1 events calls initial
    ok s.nodes

  unfoldable pub build_minisweagent_trace :
      (String → String) → Settings → Value → List Value → Outcome Fields
  unfolding build_nodes
  build_minisweagent_trace lower c trajectory rows = do
    nodes ← build_nodes c.trace_id trajectory rows
    let trace = trace_fields lower c nodes
    accept trace (validate_trace trace)
