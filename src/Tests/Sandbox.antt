-- ===== src/Tests/Sandbox.antt =====
-- The tool executor of src/agenttrace/adapters/minisweagent.py, and `cached_image` of
-- src/agenttrace/miniswe_images.py on a cache of one image.
use atcr_agent_trace_collect.Prelude.{
  ℕ, String, true, false, Option, none, some, [], ◌∷◌, ◌++◌, ◌≡◌, refl, ok, err, ◌>>=◌,
}
use atcr_agent_trace_collect.Prelude.Int.{ℤ, pos}
use atcr_agent_trace_collect.Json.{
  Value, Fields, null, int, str, dict, end, entry, lookup, get, integer, equals_number,
}
use atcr_agent_trace_collect.Json.Access.{type_error, problem, item, item_of}
use atcr_agent_trace_collect.Adapters.Problems.{
  Outcome, not_set_up, unsupported_request, bad_retries, no_lock_directory,
}
use atcr_agent_trace_collect.Adapters.Built.{ToolResult}
use atcr_agent_trace_collect.Adapters.Minisweagent.Replace.{
  replace_from, replace, replace_text, replace_string,
}
use atcr_agent_trace_collect.Adapters.Minisweagent.Results.{recorded_result}
use atcr_agent_trace_collect.Adapters.Minisweagent.Images.{Files, file_of, cached_image}
use atcr_agent_trace_collect.Adapters.Minisweagent.Executor.{
  run_arguments, Deed, take_slot, create, ToolExecutor, raised, new_executor,
}
use atcr_agent_trace_collect.Adapters.Minisweagent.Executor.Environment.{create_environment}
use atcr_agent_trace_collect.Adapters.Minisweagent.Executor.Slots.{
  or_later, first_raised, deeds_after, create_environment-slot,
}
use atcr_agent_trace_collect.Adapters.Minisweagent.Executor.Execute.{
  execute, check_request, rewrite_arguments, output_content, returned, execution, details_of,
  read_answer,
}
use atcr_agent_trace_collect.Adapters.Minisweagent.Executor.Agreement.{
  SameOutcome, recorded_result-read_answer,
}
use atcr_agent_trace_collect.Tests.Minisweagent.{show, answer, extra}

abbrev result : Fields
result = entry "output" (str "no such file") (entry "returncode" (int (pos 2)) end)

same_outcome : SameOutcome answer result "no such file"
unfolding lookup get
same_outcome = record {
  content_held = refl;
  output_held = refl;
  exit_status = null;
  not_submitted = refl;
  recorded = record { extra = extra; held = refl; code = refl; info = refl; status = refl };
}

returns_two : ◌≡◌ {A = Option ℤ} (integer (get "returncode" result)) (some (pos 2))
unfolding lookup get
returns_two = refl

abbrev from_config : Fields → Outcome ToolExecutor
from_config config =
    new_executor (λ v. elim (integer v) [ some z ↦ ok z | none ↦ err type_error ]) (λ _. none)
      config

abbrev bounded : Fields
bounded =
    entry "max_parallel_sandbox_builds" (int (pos 2))
      (entry "sandbox_build_lock_dir" (str "/locks") end)

-- No retry, and a bound without a directory for its locks, are refused.
no_retry : from_config (entry "sandbox_build_retries" (int (pos 0)) end) ≡ err (problem bad_retries)
unfolding new_executor lookup get ◌>>=◌
no_retry = refl

no_locks :
    from_config (entry "max_parallel_sandbox_builds" (int (pos 2)) end)
    ≡ err (problem no_lock_directory)
unfolding new_executor lookup get ◌>>=◌
no_locks = refl

abbrev idle : ToolExecutor
idle = record {
  timeout = pos 60;
  sandbox_build_retries = pos 1;
  executable = null;
  image_cache_dir = null;
  max_parallel_sandbox_builds = 2;
  sandbox_build_lock_dir = str "/locks";
  has_environment = false;
  replay_workspace = "";
  replay_tmp = "";
  container_cwd = str "/testbed";
  deeds = [];
}

starts_idle : from_config bounded ≡ ok idle
unfolding new_executor lookup get ◌>>=◌
starts_idle = refl

recorded_result-read_answer_example :
    (r : ToolResult) × (recorded_result show "t1" (some answer) ≡ ok r)
    × (read_answer show (returned result) idle
        ≡ (ok (execution r.content (details_of show result) r.is_error), idle))
recorded_result-read_answer_example =
    recorded_result-read_answer show "t1" answer result "no such file" (pos 2) idle same_outcome
      returns_two

-- The constructor of the environment raises.
abbrev no_image : Deed → Option ℕ
no_image (create _) = some 1
no_image _ = none

create_environment-slot_example : create_environment no_image end idle ≡ (
  raised (first_raised none (or_later (or_later (some 1) none) none)),
  record idle { deeds = [] ++ take_slot "/locks" 2 ∷ deeds_after none end 2 },
)
create_environment-slot_example = create_environment-slot no_image end "/locks" 1 idle refl refl

abbrev cache : Files
cache = record {
  is_file = λ _. true;
  size_of = λ _. 8;
  read_json = λ _.
      some
        (dict (entry "images" (dict (entry "a" (dict (entry "file" (str "a.sif") end)) end)) end));
  child = λ directory name. name;
  name_of = λ name. name;
  resolved = λ path. path;
}

finds_image : cached_image cache "/c" (str "a") ≡ ok "a.sif"
unfolding cached_image file_of item_of item lookup get ◌>>=◌
finds_image = refl

abbrev ready : ToolExecutor
ready = record idle {
  has_environment = true;
  replay_workspace = "/runs/1/w";
  replay_tmp = "/runs/1/tmp";
}

abbrev tool_call : String → Fields
tool_call name =
    entry "request"
      (dict (
        entry "protocol" (str "minisweagent-singularity") (
          entry "name" (str name) (
            entry "arguments" (dict (entry "command" (str "cp /runs/1/w/a /runs/1/tmp") end))
              end))))
      end

abbrev rewritten : Value
rewritten = dict (entry "command" (str "cp /testbed/a /tmp") end)

executes : execute show (λ _. returned result) (tool_call "bash") ready ≡ (
  ok (execution (output_content show result) (details_of show result) true),
  record ready { deeds = run_arguments rewritten ∷ [] },
)
unfolding execute check_request rewrite_arguments read_answer replace_string replace_text replace
    replace_from item item_of lookup get equals_number
executes = refl

refuses :
    execute show (λ _. returned result) (tool_call "python") ready
    ≡ (err (problem unsupported_request), ready)
unfolding execute check_request item item_of lookup
refuses = refl

before_setup :
    execute show (λ _. returned result) (tool_call "bash") idle ≡ (err (problem not_set_up), idle)
unfolding execute
before_setup = refl
