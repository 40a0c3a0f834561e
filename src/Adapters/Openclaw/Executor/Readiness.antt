-- ===== src/Adapters/Openclaw/Executor/Readiness.antt =====
-- The readiness loop in `setup` of `OpenClawToolExecutor` in src/agenttrace/adapters/openclaw.py.
use atcr_agent_trace_collect.Prelude.{
  ℕ, zero, suc, ◌+◌, ◌<◌, ◌≤◌, ◌==◌, true, false, none, ◌≡◌, ◌≢◌, subst, ok, err, arith, Bool-cases,
  ◌⊎◌, inl, inr,
}
use atcr_agent_trace_collect.Adapters.Problems.{still_waiting}
use atcr_agent_trace_collect.Json.Access.{problem, get_from}
use atcr_agent_trace_collect.Adapters.Openclaw.Executor.{get_health, pause, ToolExecutor, do_deed}
use atcr_agent_trace_collect.Adapters.Openclaw.Executor.Machine.{Reply, answered, Round, Machine}
use atcr_agent_trace_collect.Adapters.Openclaw.Executor.Setup.{
  is_ready, send_probe, read_health, pause_round, await_ready,
}

-- A round that is over without an answer: the gateway runs, and there is time.
abbrev pub IsPending : Round → Type 0
IsPending r = (r.returncode ≡ none) × (r.is_late ≡ false)

-- A round that ends the wait: the gateway runs, is healthy, and knows the token.
abbrev pub IsAnswered : Round → Type 0
IsAnswered r =
    (r.returncode ≡ none)
    × (r.health ≡ answered true)
    × (r.probe_raises ≡ none)
    × (is_ready r.probe ≡ ok true)

module _ (m : Machine) where
  -- The state after a round that is over without an answer.
  abbrev paused : ToolExecutor → ToolExecutor
  paused s = do_deed pause (do_deed get_health s)

  round-ok :
      (fuel n : ℕ) (s : ToolExecutor)
      → (await_ready m (suc fuel) n s).0 ≡ ok tt
      → IsAnswered (m.rounds n)
        ⊎ (IsPending (m.rounds n) × ((await_ready m fuel (suc n) (paused s)).0 ≡ ok tt))
  unfolding await_ready send_probe read_health pause_round
  round-ok fuel n s h = ground (arith, h)

  not_waiting : (r : Reply) → is_ready r ≢ err (problem still_waiting)
  unfolding is_ready get_from
  not_waiting r h = ground (arith, h)

  round-waiting :
      (fuel n : ℕ) (s : ToolExecutor)
      → (await_ready m (suc fuel) n s).0 ≡ err (problem still_waiting)
      → ((m.rounds n).is_late ≡ false)
        × ((await_ready m fuel (suc n) (paused s)).0 ≡ err (problem still_waiting))
  unfolding await_ready send_probe read_health pause_round
  round-waiting fuel n s h = ground (arith, h, not_waiting (m.rounds n).probe)

  -- Where the loop ends without an exception, some round has found a gateway that runs, answers, and
  -- refuses the probe as a gateway does that has accepted the token; in each round before, it ran, and
  -- the deadline had not come.
  pub await_ready-IsAnswered :
      (fuel n : ℕ) (s : ToolExecutor)
      → (await_ready m fuel n s).0 ≡ ok tt
      → (k : ℕ) × (n ≤ k)
        × IsAnswered (m.rounds k)
        × ((i : ℕ) → n ≤ i → i < k → IsPending (m.rounds i))
  unfolding await_ready
  await_ready-IsAnswered zero n s h = absurd (cc h)
  await_ready-IsAnswered (suc fuel) n s h = elim (round-ok fuel n s h) [
    | inl now ↦ (n, omega arith, now, λ i a b. absurd (omega (arith, a, b)))
    | inr (pending, later) ↦
        let (k, at, is, before) = await_ready-IsAnswered fuel (suc n) (paused s) later in
        (
          k,
          omega (arith, at),
          is,
          λ i a b. elim (Bool-cases (i == n)) [
            | inl same ↦ subst (λ j. IsPending (m.rounds j)) (ground (arith, same)) pending
            | inr other ↦ before i (ground (arith, a, other)) b
          ],
        )
  ]

  -- A loop whose deadline comes in round n ends by then.
  pub await_ready-ends :
      (fuel n k : ℕ) (s : ToolExecutor)
      → (m.rounds (n + k)).is_late ≡ true
      → k < fuel
      → (await_ready m fuel n s).0 ≢ err (problem still_waiting)
  await_ready-ends zero n k s late lt h = absurd (omega (arith, lt))
  await_ready-ends (suc fuel) n zero s late lt h =
      let (in_time, _) = round-waiting fuel n s h in
      let here : (m.rounds n).is_late ≡ true =
        subst (λ j. (m.rounds j).is_late ≡ true) (omega arith) late in
      absurd (cc (in_time, here))
  await_ready-ends (suc fuel) n (suc k) s late lt h =
      let (_, later) = round-waiting fuel n s h in
      await_ready-ends fuel (suc n) k (paused s)
        (subst (λ j. (m.rounds j).is_late ≡ true) (omega arith) late) (omega (arith, lt)) later
