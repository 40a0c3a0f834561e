-- ===== src/Adapters/Openclaw/Trace.antt =====
-- `build_openclaw_trace` of src/agenttrace/adapters/openclaw.py: the trace, checked by `validate_trace`.
-- The files are read before: `events` and `calls` are the values of their lines.
pub mod Returned
use atcr_agent_trace_collect.Prelude.{
  String, str_eq, Option, none, some, List, [], ◌∷◌, if◌then◌else◌, Result, ok, err, ◌>>=◌, ◌>>◌,
}
use atcr_agent_trace_collect.Prelude.Int.{pos}
use atcr_agent_trace_collect.Json.{
  Value, Items, Fields, null, int, str, list, dict, nil, cons, end, entry,
}
use atcr_agent_trace_collect.Json.Access.{Exception, problem}
use atcr_agent_trace_collect.Schema.Types
use atcr_agent_trace_collect.Schema.Types.{Node}
use atcr_agent_trace_collect.Schema.Validate.{validate_trace}
use atcr_agent_trace_collect.Adapters.Problems.{Problem, unpaired_results, refused, Outcome}
use atcr_agent_trace_collect.Adapters.Openclaw.Calls.{ordered_calls}
use atcr_agent_trace_collect.Adapters.Openclaw.Nodes.{
  State, initial, read_results, add_turns, all_used,
}
use atcr_agent_trace_collect.Adapters.Built.{ToolResult, Built, node_fields, nodes_of}

-- The keyword arguments besides the two files.
pub record Settings : Type 0 where
  pub trace_id : String
  pub workload : String
  pub framework_version : String
  pub captured_workspace_root : String
  pub workspace_seed : Option String
  pub artifacts : Items

abbrev pub optional_text : Option String → Value
optional_text none = null
optional_text (some s) = str s

abbrev pub source_fields : Settings → Fields
source_fields c = entry "framework" (str "openclaw") (
    entry "workload" (str c.workload) (
      entry "version"
        (str (if str_eq c.framework_version "" then "unknown" else c.framework_version)) end))

abbrev pub context_fields : Settings → Fields
context_fields c = entry "captured_workspace_root" (str c.captured_workspace_root) (
    entry "captured_tmp_root" (str "/tmp")
      (entry "workspace_seed" (optional_text c.workspace_seed) end))

abbrev pub trace_fields : Settings → List Built → Fields
trace_fields c nodes = entry "schema_version" (int (pos 2)) (
    entry "trace_id" (str c.trace_id) (
      entry "source" (dict (source_fields c)) (
        entry "context" (dict (context_fields c))
          (entry "artifacts" (list c.artifacts) (entry "nodes" (list (nodes_of nodes)) end)))))

-- `validate_trace(trace)`, whose exceptions pass through.
abbrev pub accept : Fields → Result Types.Error (List Node) → Outcome Fields
accept trace (ok _) = ok trace
accept trace (err e) = err (problem (refused e))

module _ (show : Value → String) where
  -- The nodes, before the trace is made.
  unfoldable pub build_nodes : String → List Value → List Value → Outcome (List Built)
  build_nodes trace_id events calls = do
    (assistants, ordered) ← ordered_calls trace_id events calls
    results ← read_results show events []
    s ← add_turns show results 1 assistants ordered initial
    if all_used results s.used_results then ok s.nodes else err (problem unpaired_results)

  unfoldable pub build_openclaw_trace : Settings → List Value → List Value → Outcome Fields
  unfolding build_nodes
  build_openclaw_trace c events calls = do
    nodes ← build_nodes c.trace_id events calls
    let trace = trace_fields c nodes
    accept trace (validate_trace trace)
