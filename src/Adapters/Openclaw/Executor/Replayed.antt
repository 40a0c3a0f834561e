-- ===== src/Adapters/Openclaw/Executor/Replayed.antt =====
-- After `setup` of `OpenClawToolExecutor` in src/agenttrace/adapters/openclaw.py, `execute` replays every
-- recorded search.
use mathlib.Core.List.{Memᴰ}
use atcr_agent_trace_collect.Prelude.{
  ℕ, String, Bool, true, false, Option, some, List, [], ◌≡◌, refl, sym, ap, ◌∙◌, inl, inr, ok,
  arith, ◌>>=◌, >>=-eq-ok, Result-cases,
}
use atcr_agent_trace_collect.Prelude.Actions.{only_if}
use atcr_agent_trace_collect.Prelude.Texts.{joined}
use atcr_agent_trace_collect.Adapters.Problems.{Problem}
use atcr_agent_trace_collect.Adapters.Openclaw.Nodes.{text_of}
use atcr_agent_trace_collect.Json.{Value, Fields, str}
use atcr_agent_trace_collect.Json.Access.{item, hash}
use atcr_agent_trace_collect.Adapters.Openclaw.Delay.{Delay, recorded_search_delay}
use atcr_agent_trace_collect.Adapters.Openclaw.Executor.{
  recorded_delay, sleep, Options, Delays, ToolExecutor, do_deed,
}
use atcr_agent_trace_collect.Adapters.Openclaw.Executor.Machine.{Machine}
use atcr_agent_trace_collect.Adapters.Openclaw.Executor.Requests.{
  nodes_of_tools, node_id, find_delay_of, read_delays,
}
use atcr_agent_trace_collect.Adapters.Openclaw.Executor.Invoke.{read_request, known_delay}
use atcr_agent_trace_collect.Adapters.Openclaw.Executor.Setup.{prepare_delays, connect, setup}
use atcr_agent_trace_collect.Adapters.Openclaw.Executor.Execute.{Answer, execute}
use atcr_agent_trace_collect.Adapters.Openclaw.Executor.Frame.{connect_delays}
use atcr_agent_trace_collect.Adapters.Openclaw.Executor.Recorded.{
  IsSearch, IsOrigin, read_delays-IsOrigin, read_delays-there,
}

some-eq : {A : Type 0} {a b : A} → ◌≡◌ {A = Option A} (some a) (some b) → a ≡ b
some-eq h = cc

-- The last statement changes no time.
finish_delays :
    (m : Machine) (o : Options) (fuel : ℕ) (nodes : List Fields) (b : Bool) (s : ToolExecutor)
    → (only_if b (connect m o fuel nodes) s).1.search_delays ≡ s.search_delays
finish_delays m o fuel nodes true s = connect_delays m o fuel nodes s
finish_delays m o fuel nodes false s = refl

-- What `setup` holds: the times of the trace's searches.
pub setup-delays :
    (show : Value → String) (loads : String → Option Value) (m : Machine) (o : Options) (fuel : ℕ)
    (trace : Fields) (s s' : ToolExecutor) (nodes : List Fields)
    → o.web_search_mode ≡ recorded_delay
    → nodes_of_tools trace ≡ ok nodes
    → setup show loads m o fuel trace s ≡ (ok tt, s')
    → read_delays loads nodes [] ≡ ok s'.search_delays
unfolding setup prepare_delays
setup-delays show loads m o fuel trace s s' nodes mode tools h =
    elim (Result-cases (item {P = Problem} "trace_id" trace)) [
      | inr (e, missing) ↦ absurd (ground (arith, ap (λ p. p.0) h, missing))
      | inl (id, there) ↦ elim (Result-cases (read_delays loads nodes [])) [
        | inr (e, failed) ↦ absurd (ground (arith, ap (λ p. p.0) h, there, failed, tools, mode))
        | inl (delays, read) ↦
            let s1 : ToolExecutor = record s {
              session_key = joined "agenttrace-" (text_of show id);
              search_delays = delays;
            } in
            ground (
              arith,
              ap (λ p. p.1.search_delays) h,
              there,
              read,
              tools,
              mode,
              connect_delays m o fuel nodes s1,
            )
      ]
    ]

known_delay-there :
    (node : Fields) (key : String) (delays : Delays) (d : Delay)
    → node_id node ≡ ok (str key)
    → find_delay_of key delays ≡ some d
    → known_delay node delays ≡ ok d
unfolding known_delay hash ◌>>=◌
known_delay-there node key delays d named there = rw (named, there) refl

execute-replays :
    (answer : Answer) (node : Fields) (request recorded : Value) (d : Delay) (s : ToolExecutor)
    → read_request node ≡ ok (request, "web_search")
    → known_delay node s.search_delays ≡ ok d
    → item {P = Problem} "recorded_result" node ≡ ok recorded
    → execute recorded_delay answer node s
      ≡ (ok (record { result = recorded; replay_metadata = some d }), do_deed (sleep d) s)
unfolding execute
execute-replays answer node request recorded d s asked known result =
    ground (arith, asked, known, result)

own_delay :
    (loads : String → Option Value) (nodes : List Fields) (key : String) (node : Fields) (d : Delay)
    → ((other : Fields) → Memᴰ other nodes → IsSearch key other → other ≡ node)
    → IsOrigin loads nodes [] key d
    → recorded_search_delay loads node ≡ ok d
unfolding find_delay_of
own_delay loads nodes key node d unique (inl before) = absurd (cc before)
own_delay loads nodes key node d unique (inr (other, m, is, read)) =
    ap (recorded_search_delay loads) (sym (unique other m is)) ∙ read

recorded_of :
    (loads : String → Option Value) (node : Fields) (d : Delay)
    → recorded_search_delay loads node ≡ ok d
    → (recorded : Value) × (item {P = Problem} "recorded_result" node ≡ ok recorded)
unfolding recorded_search_delay
recorded_of loads node d h = let (recorded, is, _) = >>=-eq-ok _ _ h in (recorded, is)

-- Where `setup` returns in the mode of recorded delays, each web search of the trace whose identifier no
-- other search has is replayed, whatever the gateway would answer: `execute` waits for the time that
-- `_recorded_search_delay` reads from that node, returns the recorded result, and does nothing else.
pub setup-replays :
    (show : Value → String) (loads : String → Option Value) (m : Machine) (o : Options) (fuel : ℕ)
    (trace : Fields) (s s' : ToolExecutor) (nodes : List Fields) (key : String) (node : Fields)
    (request : Value) (answer : Answer)
    → o.web_search_mode ≡ recorded_delay
    → nodes_of_tools trace ≡ ok nodes
    → setup show loads m o fuel trace s ≡ (ok tt, s')
    → Memᴰ node nodes
    → IsSearch key node
    → ((other : Fields) → Memᴰ other nodes → IsSearch key other → other ≡ node)
    → read_request node ≡ ok (request, "web_search")
    → (d : Delay) × (recorded : Value) × (recorded_search_delay loads node ≡ ok d)
      × (item {P = Problem} "recorded_result" node ≡ ok recorded)
      × (execute recorded_delay answer node s'
          ≡ (ok (record { result = recorded; replay_metadata = some d }), do_deed (sleep d) s'))
setup-replays show loads m o fuel trace s s' nodes key node request answer mode tools h member is
      unique asked =
    let held = setup-delays show loads m o fuel trace s s' nodes mode tools h in
    let (d, there) = read_delays-there loads nodes [] s'.search_delays key node held member is in
    let read =
      own_delay loads nodes key node d unique
        (read_delays-IsOrigin loads nodes [] s'.search_delays key d held there) in
    let (recorded, result) = recorded_of loads node d read in
    (
      d,
      recorded,
      read,
      result,
      execute-replays answer node request recorded d s' asked
          (known_delay-there node key s'.search_delays d is.named there) result,
    )
