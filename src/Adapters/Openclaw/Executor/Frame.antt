-- ===== src/Adapters/Openclaw/Executor/Frame.antt =====
-- What `setup` of `OpenClawToolExecutor` in src/agenttrace/adapters/openclaw.py leaves as it is while it
-- starts the gateway and waits for it.
use atcr_agent_trace_collect.Prelude.{ℕ, zero, suc, String, Bool, List, ◌≡◌, refl, arith}
use atcr_agent_trace_collect.Json.{Fields}
use atcr_agent_trace_collect.Adapters.Openclaw.Executor.{
  Resource, http_client, Options, ToolExecutor,
}
use atcr_agent_trace_collect.Adapters.Openclaw.Executor.Machine.{Health, Round, Machine, acquire}
use atcr_agent_trace_collect.Adapters.Openclaw.Executor.Launch.{
  write_tool_bridge, find_plugins, launch_gateway,
}
use atcr_agent_trace_collect.Adapters.Openclaw.Executor.Setup.{
  send_probe, read_health, pause_round, await_ready, token_for, open_client, connect,
}

module _ (m : Machine) where
  acquire_delays :
      (r : Resource) (s : ToolExecutor) → (acquire m r s).1.search_delays ≡ s.search_delays
  unfolding acquire
  acquire_delays r s = ground arith

  bridge_delays :
      (dir : String) (s : ToolExecutor)
      → (write_tool_bridge m dir s).1.search_delays ≡ s.search_delays
  unfolding write_tool_bridge
  bridge_delays dir s = ground arith

  plugins_delays :
      (o : Options) (b : Bool) (s : ToolExecutor)
      → (find_plugins m o b s).1.search_delays ≡ s.search_delays
  unfolding find_plugins
  plugins_delays o b s = ground arith

  launch_delays :
      (o : Options) (nodes : List Fields) (s : ToolExecutor)
      → (launch_gateway m o nodes s).1.search_delays ≡ s.search_delays
  unfolding launch_gateway
  launch_delays o nodes s = grind (arith, acquire_delays, bridge_delays, plugins_delays)

  probe_delays : (r : Round) (s : ToolExecutor) → (send_probe r s).1.search_delays ≡ s.search_delays
  unfolding send_probe
  probe_delays r s = ground arith

  health_delays :
      (h : Health) (s : ToolExecutor) → (read_health h s).1.search_delays ≡ s.search_delays
  unfolding read_health
  health_delays h s = ground arith

  pause_delays :
      (r : Round) (s : ToolExecutor) → (pause_round m r s).1.search_delays ≡ s.search_delays
  unfolding pause_round
  pause_delays r s = ground arith

  await_delays :
      (fuel n : ℕ) (s : ToolExecutor) → (await_ready m fuel n s).1.search_delays ≡ s.search_delays
  unfolding await_ready
  await_delays zero n s = refl
  await_delays (suc fuel) n s =
      grind (arith, probe_delays, health_delays, pause_delays, await_delays fuel (suc n))

  client_delays :
      (fuel : ℕ) (s : ToolExecutor) → (open_client m fuel s).1.search_delays ≡ s.search_delays
  unfolding open_client
  client_delays fuel s =
      let s1 : ToolExecutor = (acquire m http_client s).1 in
      ground (arith, acquire_delays http_client s, await_delays fuel 0 s1)

  pub connect_delays :
      (o : Options) (fuel : ℕ) (nodes : List Fields) (s : ToolExecutor)
      → (connect m o fuel nodes s).1.search_delays ≡ s.search_delays
  unfolding connect
  connect_delays o fuel nodes s =
      let s1 : ToolExecutor = record s { token = token_for m o } in
      let s2 : ToolExecutor = (launch_gateway m o nodes s1).1 in
      ground (arith, launch_delays o nodes s1, client_delays fuel s1, client_delays fuel s2)
