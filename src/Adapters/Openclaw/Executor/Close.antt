-- ===== src/Adapters/Openclaw/Executor/Close.antt =====
-- `close` of `OpenClawToolExecutor` in src/agenttrace/adapters/openclaw.py.
use atcr_agent_trace_collect.Prelude.{ℕ, Bool, false, not, ◌&&◌, Option, []}
use atcr_agent_trace_collect.Prelude.Actions.{modify, ◌>>◌, only_if}
use atcr_agent_trace_collect.Adapters.Openclaw.Executor.{
  Resource, http_client, port_lease, stdout_log, stderr_log, Deed, close_resource, terminate, kill,
  wait, Statement, call,
}
use atcr_agent_trace_collect.Adapters.Openclaw.Executor.Machine.{hold}

-- What `close` finds: whether the gateway still runs, whether it ends within five seconds of SIGTERM, and
-- what the calls raise.
pub record Ending : Type 0 where
  pub is_running : Bool
  pub ends_in_time : Bool
  pub raises : Deed → Option ℕ

-- A resource is not held any more once it is closed.
unfoldable pub release : Ending → Resource → Statement (Unit {0})
release e r = do call e.raises (close_resource r); modify (hold r false)

-- SIGTERM, `wait_for(process.wait(), timeout=5)`, and after a timeout SIGKILL and another wait
unfoldable pub stop_gateway : Ending → Statement (Unit {0})
stop_gateway e = do
  call e.raises terminate
  call e.raises wait
  only_if (not e.ends_in_time) (call e.raises kill >> call e.raises wait)

-- The two logs are closed before either attribute is cleared.
unfoldable pub close_logs : Ending → Statement (Unit {0})
close_logs e = do
  (λ s. only_if s.has_stdout (call e.raises (close_resource stdout_log)) s)
  (λ s. only_if s.has_stderr (call e.raises (close_resource stderr_log)) s)
  modify (λ s. record s { has_stdout = false; has_stderr = false })

unfoldable pub close : Ending → Statement (Unit {0})
unfolding release stop_gateway close_logs
close e = do
  modify (λ s. record s { search_delays = [] })
  (λ s. only_if s.has_client (release e http_client) s)
  (λ s. only_if (s.has_process && e.is_running) (stop_gateway e) s)
  modify (λ s. record s { has_process = false })
  (λ s. only_if s.has_lease (release e port_lease) s)
  close_logs e
