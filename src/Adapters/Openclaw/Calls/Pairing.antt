-- ===== src/Adapters/Openclaw/Calls/Pairing.antt =====
-- `_ordered_calls` of src/agenttrace/adapters/openclaw.py hands every captured call to one assistant.
use atcr_agent_trace_collect.Prelude.{
  suc, String, Bool, true, false, Option, none, some, List, [], ◌∷◌, ◌≡◌, refl, ap, ◌∙◌, subst, ◌⊎◌,
  inl, inr, if◌then◌else◌, length, ok, err, >>=-eq-ok, Bool-cases, arith,
}
use atcr_agent_trace_collect.Prelude.Int.{ℤ}
use atcr_agent_trace_collect.Json.{Value, Fields}
use atcr_agent_trace_collect.Json.Access.{problem}
use atcr_agent_trace_collect.Json.Equality.{dict_eq}
use atcr_agent_trace_collect.Adapters.Problems.{Problem, Outcome}
use atcr_agent_trace_collect.Adapters.Openclaw.Calls.{
  ResponseIds, find_call, is_unused, remove_call, take_first, take_call, order_calls, ordered_calls,
  without_sequence, sort_calls, assistants_of, matching_calls, with_sequence,
}

-- `rest` is `calls` without one `call`.
pub data Removed (call : Fields) : List Fields → List Fields → Type 0 where
  here : {rest : List Fields} → Removed call (call ∷ rest) rest
  there :
      {other : Fields} {calls rest : List Fields}
      → Removed call calls rest
      → Removed call (other ∷ calls) (other ∷ rest)

-- Each of the ordered calls stands for another one of the captured calls, and equals it.
pub data Pairing : List Fields → List Fields → Type 0 where
  done : {captured : List Fields} → captured ≡ [] → Pairing [] captured
  pair :
      {call captured_call : Fields} {ordered captured rest : List Fields}
      → Removed captured_call captured rest
      → (call ≡ captured_call) ⊎ (dict_eq call captured_call ≡ true)
      → Pairing ordered rest
      → Pairing (call ∷ ordered) captured

-- What one round takes.
pub record Taken (unused : List Fields) (call : Fields) (left : List Fields) : Type 0 where
  pub captured_call : Fields
  pub removed : Removed captured_call unused left
  pub equal : (call ≡ captured_call) ⊎ (dict_eq call captured_call ≡ true)

ok-eq : {A : Type 0} {a b : A} → ◌≡◌ {A = Outcome A} (ok a) (ok b) → a ≡ b
ok-eq h = cc

take_first-Taken :
    (unused : List Fields) (call : Fields) (left : List Fields)
    → take_first unused ≡ ok (call, left)
    → Taken unused call left
take_first-Taken [] call left h = cc
take_first-Taken (c ∷ rest) call left h =
    let same : (c, rest) ≡ (call, left) = ok-eq h in
    subst (λ p. Taken (c ∷ rest) p.0 p.1) same
      (record { captured_call = c; removed = here; equal = inl refl })

remove_call-Taken :
    (call : Fields) (unused : List Fields)
    → is_unused call unused ≡ true
    → Taken unused call (remove_call call unused)
unfolding is_unused remove_call
remove_call-Taken call [] h = cc
remove_call-Taken call (c ∷ rest) h = elim (Bool-cases (dict_eq call c)) [
  | inl same ↦ rw same (record { captured_call = c; removed = here; equal = inr same })
  | inr other ↦
      let t = remove_call-Taken call rest (ground (arith, h, other)) in
      rw other
        (record { captured_call = t.captured_call; removed = there t.removed; equal = t.equal })
]

pub take_call-Taken :
    (found : Option Fields) (unused : List Fields) (call : Fields) (left : List Fields)
    → take_call found unused ≡ ok (call, left)
    → Taken unused call left
unfolding take_call
take_call-Taken none unused call left h = take_first-Taken unused call left h
take_call-Taken (some c) unused call left h = elim (Bool-cases (is_unused c unused)) [
  | inl free ↦
      let same : (c, remove_call c unused) ≡ (call, left) = ok-eq (rw (free, take_call) at h) in
      subst (λ p. Taken unused p.0 p.1) same (remove_call-Taken c unused free)
  | inr gone ↦ take_first-Taken unused call left (rw (gone, take_call) at h)
]

pub Removed-length :
    {call : Fields} {calls rest : List Fields}
    → Removed call calls rest
    → length calls ≡ suc (length rest)
Removed-length here = refl
Removed-length (there r) = ap suc (Removed-length r)

order_calls-Pairing :
    (ids : ResponseIds) (assistants : List Value) (unused ordered : List Fields)
    → length unused ≡ length assistants
    → order_calls ids assistants unused ≡ ok ordered
    → Pairing ordered unused × (length ordered ≡ length assistants)
unfolding order_calls
order_calls-Pairing ids [] [] ordered same h =
    subst (λ o. Pairing o [] × (length o ≡ 0)) (ok-eq h) (done refl, refl)
order_calls-Pairing ids [] (c ∷ unused) ordered same h = absurd (ground (arith, same))
order_calls-Pairing ids (a ∷ assistants) unused ordered same h =
    let (message, _, h1) = >>=-eq-ok _ _ h in
    let (response_id, _, h2) = >>=-eq-ok _ _ h1 in
    let (_, _, h3) = >>=-eq-ok _ _ h2 in
    let ((call, left), taken, h4) = >>=-eq-ok _ _ h3 in
    let (more, rest, h5) = >>=-eq-ok _ _ h4 in
    let t = take_call-Taken (find_call response_id ids) unused call left taken in
    let (pairs, len) =
      order_calls-Pairing ids assistants left more (ground (arith, same, Removed-length t.removed))
        rest in
    subst (λ o. Pairing o unused × (length o ≡ suc (length assistants))) (ok-eq h5)
      (pair t.removed t.equal pairs, ap suc len)

pub check-eq :
    (b : Bool) (p : Problem) {u : Unit {0}}
    → ◌≡◌ {A = Outcome (Unit {0})} (if b then ok tt else err (problem p)) (ok u)
    → b ≡ true
check-eq true p h = refl
check-eq false p h = cc

-- Where the order is found, it has one call for each of the assistant's messages, and these are
-- the captured calls of the trace: each is taken once.
pub ordered_calls-Pairing :
    (trace_id : String) (events calls assistants : List Value) (ordered : List Fields)
    → ordered_calls trace_id events calls ≡ ok (assistants, ordered)
    → (captured : List Fields) × (keyed : List (ℤ × Fields)) × (assistants_of events
        ≡ ok assistants)
      × (matching_calls trace_id calls ≡ ok captured)
      × (with_sequence captured ≡ ok keyed)
      × Pairing ordered (without_sequence (sort_calls keyed))
      × (length ordered ≡ length assistants)
unfolding ordered_calls
ordered_calls-Pairing trace_id events calls assistants ordered h =
    let (found, f, h1) = >>=-eq-ok _ _ h in
    let (captured, c, h2) = >>=-eq-ok _ _ h1 in
    let (keyed, k, h3) = >>=-eq-ok _ _ h2 in
    let (_, same, h4) = >>=-eq-ok _ _ h3 in
    let (ids, _, h5) = >>=-eq-ok _ _ h4 in
    let (order, o, h6) = >>=-eq-ok _ _ h5 in
    let both : (found, order) ≡ (assistants, ordered) = ok-eq h6 in
    let (pairs, len) =
      order_calls-Pairing ids found _ order (ground (arith, check-eq _ _ same)) o in
    (
      captured,
      keyed,
      f ∙ ap (λ p. ok p.0) both,
      c,
      k,
      subst (λ p. Pairing p.1 (without_sequence (sort_calls keyed))) both pairs,
      subst (λ p. length p.1 ≡ length p.0) both len,
    )
