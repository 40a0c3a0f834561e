-- ===== src/Adapters/Minisweagent/Images.antt =====
-- `cached_image` of src/agenttrace/miniswe_images.py.
pub mod Accepted
use atcr_agent_trace_collect.Prelude.{
  ℕ, ◌==◌, String, str_eq, Bool, not, ◌&&◌, Option, none, some, if◌then◌else◌, ok, err, ◌>>=◌, ◌>>◌,
}
use atcr_agent_trace_collect.Json.{
  Value, null, str, list, dict, nil, end, get, lookup, or_default, is_truthy,
}
use atcr_agent_trace_collect.Json.Access.{type_error, attribute_error, json_error, problem, item_of}
use atcr_agent_trace_collect.Adapters.Problems.{
  Outcome, unprepared_cache, uncached_image, incomplete_image,
}

-- The file system. `child` is `directory / name`, `name_of` is `Path(...).name`, and `read_json` is the value
-- of a file's text, which `json.loads` may refuse.
pub record Files : Type 0 where
  pub is_file : String → Bool
  pub size_of : String → ℕ
  pub read_json : String → Option Value
  pub child : String → String → String
  pub name_of : String → String
  pub resolved : String → String

abbrev pub loaded : Option Value → Outcome Value
loaded none = err json_error
loaded (some v) = ok v

-- `value.get("images", {})`
abbrev pub images_of : Value → Outcome Value
images_of (dict index) = ok (or_default (dict end) (lookup "images" index))
images_of _ = err attribute_error

-- `images.get(source)`: a list or a dictionary is no key, and a value that is not a text is none of its keys.
abbrev pub entry_at : Value → Value → Outcome Value
entry_at (dict images) (str source) = ok (get source images)
entry_at (dict images) (list _) = err type_error
entry_at (dict images) (dict _) = err type_error
entry_at (dict images) _ = ok null
entry_at _ _ = err attribute_error

-- `Path(file).name != file`
abbrev pub file_name : Files → Value → Outcome String
file_name fs (str file) =
    if str_eq (fs.name_of file) file then ok file else err (problem uncached_image)
file_name fs _ = err type_error

-- The file of an index entry.
unfoldable pub file_of : Files → Value → Outcome String
file_of fs found = do
  if is_truthy found then ok tt else err (problem uncached_image)
  file ← item_of "file" found
  file_name fs file

unfoldable pub cached_image : Files → String → Value → Outcome String
unfolding file_of
cached_image fs cache source = do
  let index = fs.child cache "index.json"
  if fs.is_file index then ok tt else err (problem unprepared_cache)
  value ← loaded (fs.read_json index)
  images ← images_of value
  found ← entry_at images source
  file ← file_of fs found
  let image = fs.child cache file
  if fs.is_file image && not (fs.size_of image == 0)
      then ok (fs.resolved image)
      else err (problem incomplete_image)
