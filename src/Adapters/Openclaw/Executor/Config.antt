-- ===== src/Adapters/Openclaw/Executor/Config.antt =====
-- The files that `setup` of src/agenttrace/adapters/openclaw.py writes for the gateway. The JavaScript
-- text of the bridge is not modelled.
use atcr_agent_trace_collect.Prelude.{
  ℕ, String, str_eq, Bool, true, false, List, [], ◌∷◌, ◌++◌, if◌then◌else◌,
}
use atcr_agent_trace_collect.Prelude.Int.{pos}
use atcr_agent_trace_collect.Json.{
  Value, Items, Fields, bool, int, str, list, dict, nil, cons, end, entry,
}
use atcr_agent_trace_collect.Adapters.Openclaw.Executor.{Mode, native, recorded_delay}

-- `SUPPORTED_TOOLS`
abbrev pub supported_tools : List String
supported_tools = "web_search" ∷ "web_fetch" ∷ "exec" ∷ "read" ∷ "write" ∷ "edit" ∷ []

-- `CODING_TOOL_BRIDGE.get(name, name)`
unfoldable pub bridged : String → String
bridged name =
    if str_eq name "read"
    then "agenttrace_read"
    else if str_eq name "write"
    then "agenttrace_write"
    else if str_eq name "edit"
    then "agenttrace_edit"
    else if str_eq name "exec"
    then "agenttrace_exec"
    else name

-- `sorted(CODING_TOOL_BRIDGE.values())`
abbrev pub bridge_tools : List String
bridge_tools = "agenttrace_edit" ∷ "agenttrace_exec" ∷ "agenttrace_read" ∷ "agenttrace_write" ∷ []

-- The tools of "allow": all of these names sort before "web_fetch".
abbrev pub allowed_tools : Mode → List String
allowed_tools native = bridge_tools ++ "web_fetch" ∷ "web_search" ∷ []
allowed_tools recorded_delay = bridge_tools ++ "web_fetch" ∷ []

abbrev pub texts : List String → Items
texts [] = nil
texts (s ∷ rest) = cons (str s) (texts rest)

abbrev pub object_of : List (String × Value) → Fields
object_of [] = end
object_of ((k, v) ∷ rest) = entry k v (object_of rest)

abbrev pub record_of : List (String × Value) → Value
record_of entries = dict (object_of entries)

abbrev pub number_of : ℕ → Value
number_of n = int (pos n)

-- openclaw.plugin.json
unfoldable pub bridge_manifest : Value
bridge_manifest = record_of (
    ("id", str "agenttrace-replay")
    ∷ ("name", str "AgentTrace replay bridge")
    ∷ ("description", str "Replay-only aliases for native OpenClaw coding tools")
    ∷ ("contracts", record_of (("tools", list (texts bridge_tools)) ∷ []))
    ∷ (
      "configSchema",
      record_of (
          ("type", str "object")
          ∷ ("additionalProperties", bool false)
          ∷ ("properties", dict end)
          ∷ []),
    )
    ∷ [])

-- package.json
unfoldable pub bridge_package : Value
bridge_package = record_of (
    ("name", str "agenttrace-openclaw-replay")
    ∷ ("version", str "0.1.0")
    ∷ ("private", bool true)
    ∷ ("type", str "module")
    ∷ ("openclaw", record_of (("extensions", list (texts ("./index.js" ∷ []))) ∷ []))
    ∷ [])

abbrev is_empty : List String → Bool
is_empty [] = true
is_empty (_ ∷ _) = false

abbrev enabled : Value
enabled = record_of (("enabled", bool true) ∷ [])

abbrev pub plugin_ids : List String → List String
plugin_ids paths =
    if is_empty paths then "agenttrace-replay" ∷ [] else "agenttrace-replay" ∷ "brave" ∷ []

abbrev pub plugin_entries : List String → List (String × Value)
plugin_entries paths =
    if is_empty paths
    then ("agenttrace-replay", enabled) ∷ []
    else ("agenttrace-replay", enabled) ∷ ("brave", enabled) ∷ []

abbrev pub plugin_config : String → List String → Value
plugin_config bridge_dir paths = record_of (
    ("allow", list (texts (plugin_ids paths)))
    ∷ ("load", record_of (("paths", list (texts (bridge_dir ∷ paths))) ∷ []))
    ∷ ("entries", record_of (plugin_entries paths))
    ∷ [])

abbrev pub search_config : Bool → Value
search_config true = record_of (
    ("enabled", bool true)
    ∷ ("provider", str "brave")
    ∷ ("apiKey", str "${BRAVE_API_KEY}")
    ∷ ("maxResults", number_of 10)
    ∷ ("timeoutSeconds", number_of 30)
    ∷ [])
search_config false = record_of (("enabled", bool false) ∷ [])

abbrev pub tools_config : Mode → Bool → Value
tools_config mode needs_brave = record_of (
    ("profile", str "full")
    ∷ ("allow", list (texts (allowed_tools mode)))
    ∷ ("exec", record_of (("host", str "gateway") ∷ ("mode", str "full") ∷ []))
    ∷ (
      "web",
      record_of (
          ("fetch", record_of (("useTrustedEnvProxy", bool true) ∷ []))
          ∷ ("search", search_config needs_brave)
          ∷ []),
    )
    ∷ [])

abbrev pub model_config : Value
model_config = record_of (
    ("id", str "replay-tools")
    ∷ ("name", str "AgentTrace tool replay")
    ∷ ("input", list (texts ("text" ∷ [])))
    ∷ ("contextWindow", number_of 1024)
    ∷ ("maxTokens", number_of 1)
    ∷ (
      "cost",
      record_of (
          ("input", number_of 0)
          ∷ ("output", number_of 0)
          ∷ ("cacheRead", number_of 0)
          ∷ ("cacheWrite", number_of 0)
          ∷ []),
    )
    ∷ ("compat", record_of (("supportsTools", bool true) ∷ []))
    ∷ [])

-- openclaw.json
unfoldable pub gateway_config : Mode → Bool → String → String → List String → Value
gateway_config mode needs_brave workspace bridge_dir paths = record_of (
    (
      "agents",
      record_of (
          (
            "defaults",
            record_of (
                ("workspace", str workspace)
                ∷ ("model", record_of (("primary", str "agenttrace/replay-tools") ∷ []))
                ∷ []),
          )
          ∷ []),
    )
    ∷ (
      "models",
      record_of (
          ("mode", str "merge")
          ∷ (
            "providers",
            record_of (
                (
                  "agenttrace",
                  record_of (
                      ("baseUrl", str "http://127.0.0.1:1/v1")
                      ∷ ("apiKey", str "not-used-by-tools-invoke")
                      ∷ ("api", str "openai-completions")
                      ∷ ("models", list (cons model_config nil))
                      ∷ []),
                )
                ∷ []),
          )
          ∷ []),
    )
    ∷ (
      "gateway",
      record_of (
          ("mode", str "local")
          ∷ ("bind", str "loopback")
          ∷ ("auth", record_of (("mode", str "token") ∷ []))
          ∷ ("tools", record_of (("allow", list (texts ("exec" ∷ []))) ∷ []))
          ∷ []),
    )
    ∷ ("tools", tools_config mode needs_brave)
    ∷ ("plugins", plugin_config bridge_dir paths)
    ∷ [])

-- exec-approvals.json
unfoldable pub approvals : Value
approvals = record_of (
    ("version", number_of 1)
    ∷ (
      "defaults",
      record_of (("security", str "full") ∷ ("ask", str "off") ∷ ("askFallback", str "full") ∷ []),
    )
    ∷ [])
