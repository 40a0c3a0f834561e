-- ===== src/Adapters/Minisweagent/Calls/Pairing.antt =====
-- `build_minisweagent_trace` of src/agenttrace/adapters/minisweagent.py hands every captured call to one response.
use atcr_agent_trace_collect.Prelude.{
  suc, ◌==◌, String, List, [], ◌∷◌, ◌≡◌, refl, sym, ◌∙◌, ap, subst, length, ok, >>=-eq-ok, arith,
}
use atcr_agent_trace_collect.Prelude.Int.{ℤ}
use atcr_agent_trace_collect.Json.{Value, Fields}
use atcr_agent_trace_collect.Adapters.Problems.{call_mismatch, Outcome}
use atcr_agent_trace_collect.Adapters.Openclaw.Calls.{
  with_sequence, sort_calls, without_sequence, ResponseIds, find_call,
}
use atcr_agent_trace_collect.Adapters.Openclaw.Calls.Pairing.{
  Pairing, done, pair, take_call-Taken, Removed-length, check-eq,
}
use atcr_agent_trace_collect.Adapters.Minisweagent.Calls.{
  Indexed, response_events, matching_rows, order_events, paired_calls,
}

ok-eq : {A : Type 0} {a b : A} → ◌≡◌ {A = Outcome A} (ok a) (ok b) → a ≡ b
ok-eq h = cc

order_events-Pairing :
    (ids : ResponseIds) (events : List Indexed) (unused ordered : List Fields)
    → length unused ≡ length events
    → order_events ids events unused ≡ ok ordered
    → Pairing ordered unused × (length ordered ≡ length events)
unfolding order_events
order_events-Pairing ids [] [] ordered same h =
    subst (λ o. Pairing o [] × (length o ≡ 0)) (ok-eq h) (done refl, refl)
order_events-Pairing ids [] (c ∷ unused) ordered same h = absurd (ground (arith, same))
order_events-Pairing ids ((index, message) ∷ events) unused ordered same h =
    let (id, _, h1) = >>=-eq-ok _ _ h in
    let ((call, left), taken, h2) = >>=-eq-ok _ _ h1 in
    let (more, rest, h3) = >>=-eq-ok _ _ h2 in
    let t = take_call-Taken (find_call id ids) unused call left taken in
    let (pairs, len) =
      order_events-Pairing ids events left more (ground (arith, same, Removed-length t.removed))
        rest in
    subst (λ o. Pairing o unused × (length o ≡ suc (length events))) (ok-eq h3)
      (pair t.removed t.equal pairs, ap suc len)

-- Where the calls are paired, there is one for each message with a response, and these are the captured
-- calls of the trace that count tokens and whose status is no error: each is taken once.
pub paired_calls-Pairing :
    (trace_id : String) (messages rows : List Value) (events : List Indexed) (ordered : List Fields)
    → paired_calls trace_id messages rows ≡ ok (events, ordered)
    → (captured : List Fields) × (keyed : List (ℤ × Fields)) × (response_events 0 messages
        ≡ ok events)
      × (matching_rows trace_id rows ≡ ok captured)
      × (with_sequence captured ≡ ok keyed)
      × Pairing ordered (without_sequence (sort_calls keyed))
      × (length ordered ≡ length events)
unfolding paired_calls
paired_calls-Pairing trace_id messages rows events ordered h =
    let (found, f, h1) = >>=-eq-ok _ _ h in
    let (captured, c, h2) = >>=-eq-ok _ _ h1 in
    let (keyed, k, h3) = >>=-eq-ok _ _ h2 in
    let calls : List Fields = without_sequence (sort_calls keyed) in
    let (_, lengths, h4) = >>=-eq-ok _ _ h3 in
    let (ids, _, h5) = >>=-eq-ok _ _ h4 in
    let (order, o, h6) = >>=-eq-ok _ _ h5 in
    let both : (found, order) ≡ (events, ordered) = ok-eq h6 in
    let same =
      check-eq (length calls == length found) (call_mismatch (length calls) (length found))
        lengths in
    let (pairs, len) = order_events-Pairing ids found calls order (ground (arith, same)) o in
    (
      captured,
      keyed,
      f ∙ ap (λ p. ok p.0) both,
      c,
      k,
      subst (λ l. Pairing l calls) (ap (λ p. p.1) both) pairs,
      ap (λ p. length p.1) (sym both) ∙ len ∙ ap (λ p. length p.0) both,
    )
