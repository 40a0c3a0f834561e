-- ===== src/Tests/Traces.antt =====
-- A trace of three nodes, as `json.loads` returns it: an LLM call and two tool calls that depend on it,
-- the second also on the first.
use atcr_agent_trace_collect.Prelude.{String, false, List, [], ◌∷◌}
use atcr_agent_trace_collect.Prelude.Int.{pos}
use atcr_agent_trace_collect.Json.{Items, Fields, bool, int, str, list, dict, nil, cons, end, entry}
use atcr_agent_trace_collect.Schema.Types.{llm, tool, Node}

abbrev names : List String → Items
names [] = nil
names (s ∷ l) = cons (str s) (names l)

abbrev pub llm_fields : String → List String → Fields
llm_fields id deps = entry "id" (str id) (
    entry "type" (str "llm") (
      entry "depends_on" (list (names deps)) (
        entry "request"
          (dict (
            entry "protocol" (str "openai-chat-completions")
              (entry "endpoint" (str "/chat/completions") (entry "payload" (dict end) end))))
          (entry "output_tokens" (int (pos 128)) end))))

abbrev pub tool_fields : String → List String → Fields
tool_fields id deps = entry "id" (str id) (
    entry "type" (str "tool") (
      entry "depends_on" (list (names deps)) (
        entry "request"
          (dict (
            entry "protocol" (str "openclaw-tools-invoke")
              (entry "name" (str "web_fetch") (entry "arguments" (dict end) end))))
          (entry "recorded_result"
            (dict (
              entry "toolCallId" (str "call") (
                entry "toolName" (str "web_fetch") (
                  entry "content" (list nil)
                    (entry "details" (dict end) (entry "isError" (bool false) end))))))
            end))))

abbrev pub trace_of : Items → Fields
trace_of nodes = entry "schema_version" (int (pos 2)) (
    entry "trace_id" (str "task") (
      entry "source"
        (dict (
          entry "framework" (str "openclaw")
            (entry "workload" (str "GAIA") (entry "version" (str "1") end))))
        (entry "context" (dict (entry "captured_workspace_root" (str "/w") end))
          (entry "artifacts" (list nil) (entry "nodes" (list nodes) end)))))

abbrev pub sample : Fields
sample = trace_of (
    cons (dict (llm_fields "a" [])) (
      cons (dict (tool_fields "b" ("a" ∷ [])))
        (cons (dict (tool_fields "c" ("a" ∷ "b" ∷ []))) nil)))

abbrev pub sample_nodes : List Node
sample_nodes =
    record { id = "a"; type = llm; depends_on = []; fields = llm_fields "a" [] }
    ∷ record { id = "b"; type = tool; depends_on = "a" ∷ []; fields = tool_fields "b" ("a" ∷ []) }
    ∷ record {
      id = "c";
      type = tool;
      depends_on = "a" ∷ "b" ∷ [];
      fields = tool_fields "c" ("a" ∷ "b" ∷ []);
    }
    ∷ []

-- Two tool calls that wait for one another.
abbrev pub cyclic : Fields
cyclic =
    trace_of
      (cons (dict (tool_fields "b" ("c" ∷ []))) (cons (dict (tool_fields "c" ("b" ∷ []))) nil))
