-- ===== src/Adapters/Minisweagent/Executor.antt =====
-- `MiniSWEAgentToolExecutor` of src/agenttrace/adapters/minisweagent.py: what it holds, and the calls that it
-- makes into the system and into mini-SWE-agent. What these raise is a parameter.
pub mod Environment
pub mod Slots
pub mod Execute
pub mod Agreement
use atcr_agent_trace_collect.Prelude.{
  ℕ, ◌==◌, String, Bool, true, false, not, ◌&&◌, Option, none, some, List, [], ◌∷◌, ◌++◌,
  if◌then◌else◌, ok, err, ◌>>=◌, ◌>>◌,
}
use atcr_agent_trace_collect.Prelude.Int.{ℤ, pos, negsuc}
use atcr_agent_trace_collect.Prelude.Actions.{Action}
use atcr_agent_trace_collect.Json.{
  Value, Fields, null, int, str, get, lookup, or_default, or_else, is_truthy,
}
use atcr_agent_trace_collect.Json.Access.{Exception, problem}
use atcr_agent_trace_collect.Adapters.Problems.{
  Problem, Outcome, external, bad_retries, bad_parallel_builds, no_lock_directory,
}

pub data Deed : Type 0 where
  -- `sandbox_build_slot(...)`, entered and left
  take_slot : (directory : String) (limit : ℕ) → Deed
  leave_slot : Deed
  -- `SingularityEnvironment(**options)`
  create : (options : Fields) → Deed
  -- sandbox-setup.json; the two times are not modelled
  write_setup : (max_parallel_builds : ℕ) → Deed
  run_arguments : Value → Deed
  clean_up : Deed

-- The attributes, and what has been done. `environment` is only tested for `None`, and otherwise called.
pub record ToolExecutor : Type 0 where
  pub timeout : ℤ
  pub sandbox_build_retries : ℤ
  pub executable : Value
  pub image_cache_dir : Value
  pub max_parallel_sandbox_builds : ℕ
  pub sandbox_build_lock_dir : Value
  pub has_environment : Bool
  pub replay_workspace : String
  pub replay_tmp : String
  pub container_cwd : Value
  pub deeds : List Deed

abbrev pub Statement : Type 0 → Type 0
Statement = Action (Exception Problem) ToolExecutor

-- An expression, or a raise of the code itself.
abbrev pub lift : {A : Type 0} → Outcome A → Statement A
lift r s = (r, s)

abbrev pub raised : Option ℕ → Outcome (Unit {0})
raised none = ok tt
raised (some code) = err (problem (external code))

-- A call that may raise.
abbrev pub call : (Deed → Option ℕ) → Deed → Statement (Unit {0})
call raises d s = (raised (raises d), record s { deeds = s.deeds ++ d ∷ [] })

-- `sandbox_build_retries < 1`
abbrev pub is_below_one : ℤ → Bool
is_below_one (pos n) = n == 0
is_below_one (negsuc n) = true

-- `type(value) is not int or value < 0`: a Boolean is not one.
abbrev pub parallel_builds : Value → Outcome ℕ
parallel_builds (int (pos n)) = ok n
parallel_builds _ = err (problem bad_parallel_builds)

-- `os.environ.get(name)`
abbrev pub text_or_null : Option String → Value
text_or_null none = null
text_or_null (some s) = str s

-- `MiniSWEAgentToolExecutor(config)`. `to_int` is Python's `int` of a value.
unfoldable pub new_executor :
    (to_int : Value → Outcome ℤ)
    → (environ : String → Option String) → Fields
    → Outcome ToolExecutor
new_executor to_int environ config = do
  timeout ← to_int (or_default (int (pos 60)) (lookup "timeout" config))
  retries ← to_int (or_default (int (pos 1)) (lookup "sandbox_build_retries" config))
  if is_below_one retries then err (problem bad_retries) else ok tt
  let cache =
      or_else (get "image_cache_dir" config)
        (text_or_null (environ "AGENTTRACE_MINISWE_IMAGE_CACHE"))
  builds ← parallel_builds (or_default (int (pos 0)) (lookup "max_parallel_sandbox_builds" config))
  let lock_dir = get "sandbox_build_lock_dir" config
  if not (builds == 0) && not (is_truthy lock_dir) then err (problem no_lock_directory) else ok tt
  ok (record {
    timeout = timeout;
    sandbox_build_retries = retries;
    executable = get "executable" config;
    image_cache_dir = cache;
    max_parallel_sandbox_builds = builds;
    sandbox_build_lock_dir = lock_dir;
    has_environment = false;
    replay_workspace = "";
    replay_tmp = "";
    container_cwd = str "/testbed";
    deeds = [];
  })
