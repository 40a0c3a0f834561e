-- ===== src/Adapters/Openclaw/Spills.antt =====
-- `capture_spill_artifacts` of src/agenttrace/adapters/openclaw.py. The lines of the trajectory are read before.
pub mod Entries
pub mod Accepted
use atcr_agent_trace_collect.Prelude.{
  ℕ, ◌+◌, String, Bool, true, false, Option, none, some, List, [], ◌∷◌, ◌++◌, if◌then◌else◌, length,
  ok, err, ◌>>=◌, ◌>>◌,
}
use atcr_agent_trace_collect.Prelude.Names.{contains}
use atcr_agent_trace_collect.Prelude.Texts.{joined, numbered_name}
use atcr_agent_trace_collect.Json.{Value, Fields, str, dict, end, entry}
use atcr_agent_trace_collect.Json.Access.{problem, get_from, object_from, is_text}
use atcr_agent_trace_collect.Adapters.Problems.{Outcome, external}

-- The file system: `name_of` is `Path(...).name`, `child` is `artifact_dir / name`, `relative` is
-- `path.relative_to(trace_parent).as_posix()` where that raises nothing, `digest` is `sha256` of the file,
-- and `copy_raises` is what the directory or the copy of a file raises.
pub record Files : Type 0 where
  pub is_file : String → Bool
  pub name_of : String → String
  pub child : String → String
  pub relative : String → Outcome String
  pub digest : String → String
  pub copy_raises : (source destination : String) → Option ℕ

pub record Artifact : Type 0 where
  pub id : String
  pub captured_path : String
  pub path : String
  pub sha256 : Option String

abbrev pub checksum_fields : Option String → Fields
checksum_fields none = end
checksum_fields (some sha256) = entry "sha256" (str sha256) end

abbrev pub artifact_fields : Artifact → Fields
artifact_fields a = entry "id" (str a.id) (
    entry "kind" (str "tool_output") (
      entry "captured_path" (str a.captured_path)
        (entry "path" (str a.path) (checksum_fields a.sha256))))

abbrev text_in : Value → Option String
text_in (str s) = some s
text_in _ = none

abbrev path_in : Bool → Value → Outcome (Option String)
path_in false message = ok none
path_in true message = do
  details ← object_from "details" message
  path ← get_from "fullOutputPath" details
  ok (text_in path)

-- `recorded_path` of an event, if it is a text.
unfoldable pub recorded_path : Value → Outcome (Option String)
recorded_path event = do
  message ← object_from "message" event
  role ← get_from "role" message
  path_in (is_text "toolResult" role) message

abbrev pub copied : Option ℕ → Outcome (Unit {0})
copied none = ok tt
copied (some code) = err (problem (external code))

module _ (fs : Files) (include_checksums : Bool) where
  -- The copy of a file, and its entry.
  unfoldable pub add_artifact : String → List Artifact → Outcome (List Artifact)
  add_artifact source found = do
    let number = length found + 1
    let destination =
        fs.child (joined (numbered_name "spill-" number) (joined "-" (fs.name_of source)))
    copied (fs.copy_raises source destination)
    path ← fs.relative destination
    ok (
        found
        ++ record {
          id = numbered_name "tool-output-" number;
          captured_path = source;
          path = path;
          sha256 = if include_checksums then some (fs.digest destination) else none;
        }
          ∷ [])

  abbrev pub add_file : String → List Artifact → Outcome (List Artifact)
  add_file source found = if fs.is_file source then add_artifact source found else ok found

  -- The rest of a round: `seen` and the artifacts after it.
  abbrev pub add_path :
      Option String → List String → List Artifact → Outcome (List String × List Artifact)
  add_path none seen found = ok (seen, found)
  add_path (some source) seen found =
      if contains source seen
      then ok (seen, found)
      else (do more ← add_file source found; ok (source ∷ seen, more))

  unfoldable pub capture_from : List Value → List String → List Artifact → Outcome (List Artifact)
  unfolding add_artifact recorded_path
  capture_from [] seen found = ok found
  capture_from (event ∷ rest) seen found = do
    path ← recorded_path event
    (seen', found') ← add_path path seen found
    capture_from rest seen' found'

  unfoldable pub capture_spill_artifacts : List Value → Outcome (List Artifact)
  unfolding capture_from
  capture_spill_artifacts events = capture_from events [] []
