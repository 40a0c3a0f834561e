-- ===== src/Adapters/Openclaw/Executor/Prepared.antt =====
-- What `setup` of `OpenClawToolExecutor` in src/agenttrace/adapters/openclaw.py checks before it launches.
use mathlib.Core.List.{Memᴰ}
use atcr_agent_trace_collect.Prelude.{
  ℕ, String, Option, List, [], ◌≡◌, ◌≢◌, ◌⊎◌, inl, inr, length, ok, Result-cases, Bool-cases, not,
  ◌&&◌, ◌==◌, arith,
}
use atcr_agent_trace_collect.Json.{Value, Fields}
use atcr_agent_trace_collect.Json.Access.{item}
use atcr_agent_trace_collect.Adapters.Problems.{Problem}
use atcr_agent_trace_collect.Adapters.Openclaw.Executor.{
  recorded_delay, Options, Delays, ToolExecutor,
}
use atcr_agent_trace_collect.Adapters.Openclaw.Executor.Machine.{Machine}
use atcr_agent_trace_collect.Adapters.Openclaw.Executor.Recorded.{IsTimed, read_delays-IsTimed}
use atcr_agent_trace_collect.Adapters.Openclaw.Executor.Requests.{nodes_of_tools, read_delays}
use atcr_agent_trace_collect.Adapters.Openclaw.Executor.Setup.{prepare_delays, setup}

-- In the mode of recorded delays nothing is written, launched or sent unless every tool node has been
-- read, and each of them that is a search has a recorded time that can be read and a time in the table
-- under its identifier; nor where each tool node, one at least, has a time of its own in the table.
pub setup-IsValidated :
    (show : Value → String) (loads : String → Option Value) (m : Machine) (o : Options) (fuel : ℕ)
    (trace : Fields) (s : ToolExecutor) (nodes : List Fields)
    → o.web_search_mode ≡ recorded_delay
    → nodes_of_tools trace ≡ ok nodes
    → ((setup show loads m o fuel trace s).1.deeds ≡ s.deeds)
      ⊎ ((delays : Delays) × (read_delays loads nodes [] ≡ ok delays)
          × ((node : Fields) → Memᴰ node nodes → IsTimed loads delays node)
          × ((length nodes ≡ 0) ⊎ (length delays ≢ length nodes)))
unfolding setup prepare_delays
setup-IsValidated show loads m o fuel trace s nodes mode tools =
    elim (Result-cases (item {P = Problem} "trace_id" trace)) [
      | inr (e, missing) ↦ inl (ground (arith, missing))
      | inl (id, there) ↦ elim (Result-cases (read_delays loads nodes [])) [
        | inr (e, failed) ↦ inl (ground (arith, there, failed, tools, mode))
        | inl (delays, read) ↦
            elim (Bool-cases (not (length nodes == 0) && (length delays == length nodes))) [
              | inl all ↦ inl (ground (arith, there, read, tools, mode, all))
              | inr some_other ↦ inr (
                delays,
                read,
                (λ node. read_delays-IsTimed loads nodes [] delays node read),
                ground (arith, some_other),
              )
            ]
      ]
    ]
