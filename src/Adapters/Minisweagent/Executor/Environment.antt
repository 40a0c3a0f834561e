-- ===== src/Adapters/Minisweagent/Executor/Environment.antt =====
-- `setup` and `close` of `MiniSWEAgentToolExecutor` in src/agenttrace/adapters/minisweagent.py.
use atcr_agent_trace_collect.Prelude.{
  ℕ, ◌==◌, String, true, false, Option, [], ◌∷◌, ok, err, if◌then◌else◌,
}
use atcr_agent_trace_collect.Prelude.Actions.{pure, modify, gets, ◌>>=◌, ◌>>◌, only_if, try_finally}
use atcr_agent_trace_collect.Prelude.Texts.{joined}
use atcr_agent_trace_collect.Json.{
  Value, Fields, int, str, list, dict, lookup, or_default, is_truthy,
}
use atcr_agent_trace_collect.Json.Access.{type_error, item, item_of, get_from}
use atcr_agent_trace_collect.Adapters.Problems.{Outcome}
use atcr_agent_trace_collect.Adapters.Openclaw.Executor.Config.{texts, object_of, record_of}
use atcr_agent_trace_collect.Adapters.Minisweagent.Images.{Files, cached_image}
use atcr_agent_trace_collect.Adapters.Minisweagent.Executor.{
  Deed, take_slot, leave_slot, create, write_setup, clean_up, ToolExecutor, Statement, lift, call,
}

-- `Path(value)`
abbrev pub path_of : Value → Outcome String
path_of (str s) = ok s
path_of _ = err type_error

-- `context.get("container_cwd", "/testbed")`
abbrev pub cwd_of : Value → Outcome Value
cwd_of (dict context) = ok (or_default (str "/testbed") (lookup "container_cwd" context))
cwd_of value = get_from "container_cwd" value

unfoldable pub base_options : ToolExecutor → Value → Fields
base_options s image = object_of (
    ("image", image)
    ∷ ("cwd", s.container_cwd)
    ∷ ("timeout", int s.timeout)
    ∷ ("sandbox_build_retries", int s.sandbox_build_retries)
    ∷ (
      "exec_args",
      list (
          texts (
            "--contain"
            ∷ "--cleanenv"
            ∷ "--fakeroot"
            ∷ "--bind"
            ∷ joined s.replay_tmp ":/tmp"
            ∷ [])),
    )
    ∷ (
      "forward_env",
      list (
          texts (
            "HTTP_PROXY" ∷ "HTTPS_PROXY" ∷ "http_proxy" ∷ "https_proxy" ∷ "NO_PROXY" ∷ "no_proxy"
            ∷ [])),
    )
    ∷ (
      "env",
      record_of (
          ("PAGER", str "cat")
          ∷ ("MANPAGER", str "cat")
          ∷ ("PIP_PROGRESS_BAR", str "off")
          ∷ ("BASH_ENV", str "/root/.bashrc")
          ∷ []),
    )
    ∷ (if is_truthy s.executable then ("executable", s.executable) ∷ [] else []))

-- The image under the cache directory
abbrev pub image_in : Files → Value → Value → Statement Value
image_in files cache image = do
  directory ← lift (path_of cache)
  path ← lift (cached_image files directory image)
  pure (str path)

-- `image`, from the cache if there is one
unfoldable pub find_image : Files → Value → Statement Value
find_image files image = do
  cache ← gets (λ s. s.image_cache_dir)
  if is_truthy cache then image_in files cache image else pure image

-- What the constructor, the files and the kernel's locks raise.
module _ (raises : Deed → Option ℕ) where
  -- `try: SingularityEnvironment(**options)`, whose `finally` writes sandbox-setup.json
  unfoldable pub build_and_record : Fields → ℕ → Statement (Unit {0})
  build_and_record options limit =
      try_finally (call raises (create options)) (call raises (write_setup limit))

  -- The block under `with sandbox_build_slot(...)`
  unfoldable pub build_in_slot : Fields → String → ℕ → Statement (Unit {0})
  unfolding build_and_record
  build_in_slot options directory limit = do
    call raises (take_slot directory limit)
    try_finally (build_and_record options limit) (call raises leave_slot)

  unfoldable pub create_environment : Fields → Statement (Unit {0})
  unfolding build_in_slot
  create_environment options = do
    limit ← gets (λ s. s.max_parallel_sandbox_builds)
    let bounded = (do
      lock_dir ← gets (λ s. s.sandbox_build_lock_dir)
      directory ← lift (path_of lock_dir)
      build_in_slot options directory limit)
    if limit == 0 then call raises (create options) else bounded

  -- `setup(trace, workspace)`. The environment is kept once it is created; `tmp` is
  -- `str(workspace.parent / "tmp")`.
  unfoldable pub setup : Files → (workspace tmp : String) → Fields → Statement (Unit {0})
  unfolding create_environment find_image
  setup files workspace tmp trace = do
    context ← lift (item "context" trace)
    requested ← lift (item_of "container_image" context)
    image ← find_image files requested
    cwd ← lift (cwd_of context)
    modify (λ s. record s { replay_workspace = workspace; replay_tmp = tmp; container_cwd = cwd })
    options ← gets (λ s. base_options s image)
    create_environment options
    modify (λ s. record s { has_environment = true })

  -- `close`
  unfoldable pub close : Statement (Unit {0})
  close = do
    held ← gets (λ s. s.has_environment)
    only_if held (call raises clean_up)
    modify (λ s. record s { has_environment = false })
