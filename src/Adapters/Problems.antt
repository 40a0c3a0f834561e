-- ===== src/Adapters/Problems.antt =====
-- What src/agenttrace/adapters/ raises itself, before a message is formatted.
use atcr_agent_trace_collect.Prelude.{ℕ, String, Result}
use atcr_agent_trace_collect.Prelude.Int.{ℤ}
use atcr_agent_trace_collect.Json.{Value}
use atcr_agent_trace_collect.Json.Access.{Exception}
use atcr_agent_trace_collect.Schema.Types

pub data Problem : Type 0 where
  -- ValueError
  call_mismatch : (captured assistants : ℕ) → Problem
  bad_result_id missing_result : Value → Problem
  missing_output_tokens : Value → Problem
  name_mismatch : String → Problem
  unpaired_results : Problem
  not_an_object no_messages : Problem
  bad_actions bad_action bad_command : (llm_id : String) → Problem
  bad_retries bad_parallel_builds no_lock_directory : Problem
  unsupported_request : Problem
  -- FileNotFoundError
  unprepared_cache uncached_image incomplete_image : Problem
  -- from `validate_trace`
  refused : Types.Error → Problem
  unsupported_protocol unsupported_tool : Value → Problem
  bad_delay : Value → Problem
  bad_mode : Problem
  -- RuntimeError
  no_brave_plugin delay_not_validated not_set_up failed_probe : Problem
  gateway_exited : ℤ → Problem
  invocation_failed : Value → Problem
  not_object_result : Problem
  -- TimeoutError
  not_ready : Problem
  -- raised by a call into the system or a library
  external : ℕ → Problem
  -- no exception: the observed rounds of a loop are over, and it goes on
  still_waiting : Problem

abbrev pub Outcome : Type 0 → Type 0
Outcome = Result (Exception Problem)
