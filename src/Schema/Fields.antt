-- ===== src/Schema/Fields.antt =====
-- `_object`, `_string` and the checks of the header, the source, the context and the artifacts in
-- `validate_trace` of src/agenttrace/schema.py.
use atcr_agent_trace_collect.Prelude.{
  ℕ, ◌+◌, String, str_eq, not, Option, none, some, List, [], ◌∷◌, if◌then◌else◌, Result, ok, err,
  ◌>>=◌, ◌>>◌, require,
}
use atcr_agent_trace_collect.Prelude.Names.{contains}
use atcr_agent_trace_collect.Json.{
  Value, Fields, str, list, dict, lookup, get, or_default, elements, is_none, equals_number,
}
use atcr_agent_trace_collect.Schema.Types.{
  Label, named, element, Error, unsupported_version, not_object, not_string, artifacts_not_list,
  duplicate_artifact,
}

abbrev pub schema_version : ℕ
schema_version = 2

unfoldable pub object : Value → Label → Result Error Fields
object (dict d) label = ok d
object _ label = err (not_object label)

unfoldable pub string : Value → Label → Result Error String
string (str s) label = if str_eq s "" then err (not_string label) else ok s
string _ label = err (not_string label)

-- `if value is not None: _string(value, label)`
unfoldable pub optional_string : Value → Label → Result Error (Unit {0})
unfolding string
optional_string value label = if is_none value then ok tt else string value label >> ok tt

unfoldable pub check_source : Fields → Result Error (Unit {0})
check_source trace = do
  source ← object (get "source" trace) (named "source")
  string (get "framework" source) (named "source.framework")
  string (get "workload" source) (named "source.workload")
  string (get "version" source) (named "source.version")
  ok tt

unfoldable pub check_context : Fields → Result Error (Unit {0})
check_context trace = do
  context ← object (get "context" trace) (named "context")
  string (get "captured_workspace_root" context) (named "context.captured_workspace_root")
  optional_string (get "workspace_seed" context) (named "context.workspace_seed")
  let tmp_root = or_default (str "/tmp") (lookup "captured_tmp_root" context)
  string tmp_root (named "context.captured_tmp_root")
  ok tt

-- `if "sha256" in artifact: _string(artifact["sha256"], ...)`
unfoldable pub check_sha256 : ℕ → Option Value → Result Error (Unit {0})
check_sha256 index none = ok tt
check_sha256 index (some value) = string value (element "artifacts" index "sha256") >> ok tt

-- One round of the loop over the artifacts: the identifier that it adds.
unfoldable pub check_artifact : ℕ → List String → Value → Result Error String
unfolding check_sha256
check_artifact index seen value = do
  artifact ← object value (element "artifacts" index "")
  artifact_id ← string (get "id" artifact) (element "artifacts" index "id")
  require (not (contains artifact_id seen)) (duplicate_artifact artifact_id)
  string (get "kind" artifact) (element "artifacts" index "kind")
  string (get "captured_path" artifact) (element "artifacts" index "captured_path")
  string (get "path" artifact) (element "artifacts" index "path")
  check_sha256 index (lookup "sha256" artifact)
  optional_string (get "workspace_path" artifact) (element "artifacts" index "workspace_path")
  ok artifact_id

-- The loop; `seen` is the set `artifact_ids`, which it returns.
unfoldable pub check_artifacts : ℕ → List String → List Value → Result Error (List String)
check_artifacts index seen [] = ok seen
check_artifacts index seen (value ∷ rest) = do
  artifact_id ← check_artifact index seen value
  check_artifacts (index + 1) (artifact_id ∷ seen) rest

-- `isinstance(artifacts, list)`
abbrev pub artifact_list : Value → Result Error (List Value)
artifact_list (list items) = ok (elements items)
artifact_list _ = err artifacts_not_list

-- `validate_trace` up to the nodes.
unfoldable pub check_header : Fields → Result Error (Unit {0})
check_header trace = do
  let version = get "schema_version" trace
  require (equals_number schema_version version) (unsupported_version version)
  string (get "trace_id" trace) (named "trace_id")
  check_source trace
  check_context trace
  artifacts ← artifact_list (get "artifacts" trace)
  check_artifacts 0 [] artifacts
  ok tt
