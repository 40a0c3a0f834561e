-- ===== src/Adapters/Openclaw/Executor/Released.antt =====
-- What `close` of `OpenClawToolExecutor` in src/agenttrace/adapters/openclaw.py leaves.
use atcr_agent_trace_collect.Prelude.{
  Bool, true, false, ◌&&◌, none, List, [], ◌∷◌, ◌++◌, ◌≡◌, refl, if◌then◌else◌, ok, arith,
}
use atcr_agent_trace_collect.Prelude.Actions.{only_if}
use atcr_agent_trace_collect.Adapters.Openclaw.Executor.{
  http_client, port_lease, stdout_log, stderr_log, Deed, close_resource, terminate, kill, wait,
  ToolExecutor,
}
use atcr_agent_trace_collect.Adapters.Openclaw.Executor.Close.{
  Ending, release, stop_gateway, close_logs, close,
}

-- One more call, where it is needed.
abbrev add : Bool → Deed → List Deed → List Deed
add true d deeds = deeds ++ d ∷ []
add false d deeds = deeds

abbrev stopped : Ending → List Deed → List Deed
stopped e deeds =
    let waited = add true wait (add true terminate deeds) in
    if e.ends_in_time then waited else add true wait (add true kill waited)

-- The calls that a state needs after those that were made: for each thing that it holds, once.
abbrev pub closed_from : Ending → ToolExecutor → List Deed
closed_from e s =
    let with_client = add s.has_client (close_resource http_client) s.deeds in
    let with_gateway =
      if s.has_process && e.is_running then stopped e with_client else with_client in
    let with_lease = add s.has_lease (close_resource port_lease) with_gateway in
    add s.has_stderr (close_resource stderr_log)
      (add s.has_stdout (close_resource stdout_log) with_lease)

-- Nothing is held.
abbrev pub released : List Deed → ToolExecutor → ToolExecutor
released deeds s = record s {
  search_delays = [];
  has_client = false;
  has_process = false;
  has_lease = false;
  has_stdout = false;
  has_stderr = false;
  deeds = deeds;
}

module _ (e : Ending) (raises_nothing : (d : Deed) → e.raises d ≡ none) where
  client_released :
      (s : ToolExecutor)
      → only_if s.has_client (release e http_client) s ≡ (
        ok tt,
        record s {
          has_client = false;
          deeds = add s.has_client (close_resource http_client) s.deeds;
        },
      )
  unfolding release
  client_released s = ground (arith, raises_nothing (close_resource http_client))

  gateway_stopped :
      (s : ToolExecutor)
      → only_if (s.has_process && e.is_running) (stop_gateway e) s ≡ (
        ok tt,
        record s { deeds = if s.has_process && e.is_running then stopped e s.deeds else s.deeds },
      )
  unfolding stop_gateway
  gateway_stopped s =
      ground (arith, raises_nothing terminate, raises_nothing kill, raises_nothing wait)

  lease_released :
      (s : ToolExecutor)
      → only_if s.has_lease (release e port_lease) s ≡ (
        ok tt,
        record s { has_lease = false; deeds = add s.has_lease (close_resource port_lease) s.deeds },
      )
  unfolding release
  lease_released s = ground (arith, raises_nothing (close_resource port_lease))

  logs_closed :
      (s : ToolExecutor)
      → close_logs e s ≡ (
        ok tt,
        record s {
          has_stdout = false;
          has_stderr = false;
          deeds =
              add s.has_stderr
                (close_resource stderr_log)
                (add s.has_stdout (close_resource stdout_log) s.deeds);
        },
      )
  unfolding close_logs
  logs_closed s = ground (
    arith,
    raises_nothing (close_resource stdout_log),
    raises_nothing (close_resource stderr_log),
  )

-- Where its calls raise nothing, `close` returns, and makes one call for each thing that is held, in
-- this order: the client; the gateway if it runs, with SIGKILL where it does not end in time; the lease
-- of the port; the logs. After it nothing is held.
pub close-released :
    (e : Ending) (s : ToolExecutor)
    → ((d : Deed) → e.raises d ≡ none)
    → close e s ≡ (ok tt, released (closed_from e s) s)
unfolding close
close-released e s h =
    let s1 : ToolExecutor = record s { search_delays = [] } in
    let s2 : ToolExecutor = record s1 {
      has_client = false;
      deeds = add s.has_client (close_resource http_client) s.deeds;
    } in
    let s3 : ToolExecutor = record s2 {
      deeds = if s.has_process && e.is_running then stopped e s2.deeds else s2.deeds;
    } in
    let s4 : ToolExecutor = record s3 { has_process = false } in
    let s5 : ToolExecutor = record s4 {
      has_lease = false;
      deeds = add s.has_lease (close_resource port_lease) s4.deeds;
    } in
    rw (client_released e h s1, gateway_stopped e h s2, lease_released e h s4, logs_closed e h s5)
      refl
