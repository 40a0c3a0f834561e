-- ===== src/Envelope/Recording.antt =====
-- What the ledger of src/agenttrace/routing_envelope.py says of a call that is completed.
use mathlib.Core.List.{Memᴰ}
use atcr_agent_trace_collect.Prelude.{
  ℕ, String, Bool, true, false, Option, none, some, List, [], ◌∷◌, ◌≡◌, refl, sym, ap, ◌∙◌, subst,
  ◌⊎◌, inl, inr, ok, err, >>=-eq-ok, Bool-cases, Option-cases, arith,
}
use atcr_agent_trace_collect.Json.{Value}
use atcr_agent_trace_collect.Envelope.Wrap.{Outcome}
use atcr_agent_trace_collect.Envelope.Middleware.{
  Bytes, Headers, Scope, Message, is_foreign, read_body,
}
use atcr_agent_trace_collect.Envelope.Serving.{
  failed, completed, Entry, start, content_part, other_message, Act, receives, sends, State,
  is_success, restored_receive, observed_send, run, Ending, returned, raised, close_entry, Opening,
  Call, served, serve, open_call, call_middleware,
}

ok-eq : {A : Type 0} {a b : A} → ◌≡◌ {A = Outcome A} (ok a) (ok b) → a ≡ b
ok-eq h = cc

-- The end of the body was sent.
abbrev IsEnded : List Act → Type 0
IsEnded acts = (content : Bytes) × Memᴰ (sends (content_part content false) false) acts

-- The status was there, or is sent.
abbrev IsStatus : List Act → State → ℕ → Type 0
IsStatus acts s status =
    (s.entry.http_status ≡ some status)
    ⊎ ((headers : Headers) × (raises : Bool) × Memᴰ (sends (start status headers) raises) acts)

abbrev IsSuccess : List Act → State → Type 0
IsSuccess acts s =
    IsEnded acts × ((status : ℕ) × (is_success (some status) ≡ true) × IsStatus acts s status)

receive_entry : (body : Bytes) (s : State) → (restored_receive body s).entry ≡ s.entry
unfolding restored_receive
receive_entry body s = ground arith

IsSuccess-later :
    (a : Act) (rest : List Act) (s : State) → IsSuccess rest s → IsSuccess (a ∷ rest) s
IsSuccess-later a rest s ((content, m), (status, good, inl there)) =
    ((content, Memᴰ.tail m), (status, good, inl there))
IsSuccess-later a rest s ((content, m), (status, good, inr (headers, raises, sent))) =
    ((content, Memᴰ.tail m), (status, good, inr (headers, raises, Memᴰ.tail sent)))

-- A status that is new after a start is the one that is sent.
IsSuccess-started :
    (status : ℕ) (headers : Headers) (raises : Bool) (rest : List Act) (s s1 : State)
    → s1.entry.http_status ≡ some status
    → IsSuccess rest s1
    → IsSuccess (sends (start status headers) raises ∷ rest) s
IsSuccess-started status headers raises rest s s1 is ((content, m), (other, good, inl there)) =
    let same : other ≡ status = ground (arith, is, there) in
    (
      (content, Memᴰ.tail m),
      (
        status,
        subst (λ k. is_success (some k) ≡ true) same good,
        inr (headers, raises, Memᴰ.head refl),
      ),
    )
IsSuccess-started status headers raises rest s s1 is
      ((content, m), (other, good, inr (h, r, sent))) =
    ((content, Memᴰ.tail m), (other, good, inr (h, r, Memᴰ.tail sent)))

IsSuccess-same :
    (rest : List Act) (s s1 : State)
    → s1.entry.http_status ≡ s.entry.http_status
    → IsSuccess rest s1
    → IsSuccess rest s
IsSuccess-same rest s s1 same (ended, (status, good, inl there)) =
    (ended, (status, good, inl (sym same ∙ there)))
IsSuccess-same rest s s1 same (ended, (status, good, inr sent)) = (ended, (status, good, inr sent))

-- The end of a body makes the call a success if its status is one.
ended_now :
    (replica : String) (content : Bytes) (rest : List Act) (s : State)
    → (observed_send replica (content_part content false) false s).entry.status ≡ completed
    → IsSuccess (sends (content_part content false) false ∷ rest) s
unfolding observed_send
ended_now replica content rest s h = elim (Option-cases s.entry.http_status) [
  | inl no_status ↦ absurd (ground (arith, h, no_status))
  | inr (status, there) ↦ ((content, Memᴰ.head refl), (status, ground (arith, h, there), inl there))
]

run-completed :
    (replica : String) (body : Bytes) (acts : List Act) (s : State)
    → (run replica body acts s).entry.status ≡ completed
    → (s.entry.status ≡ completed) ⊎ IsSuccess acts s
unfolding run observed_send
run-completed replica body [] s h = inl h
run-completed replica body (receives ∷ rest) s h =
    elim (run-completed replica body rest (restored_receive body s) h) [
      | inl before ↦ inl (ap (λ (e : Entry). e.status) (sym (receive_entry body s)) ∙ before)
      | inr later ↦ inr (
          IsSuccess-later receives rest s (
            IsSuccess-same rest s (restored_receive body s)
              (ap (λ (e : Entry). e.http_status) (receive_entry body s)) later))
    ]
run-completed replica body (sends (start status headers) raises ∷ rest) s h =
    let s1 = observed_send replica (start status headers) raises s in
    elim (run-completed replica body rest s1 h) [
      | inl before ↦ inl (ground (arith, before))
      | inr later ↦ inr (IsSuccess-started status headers raises rest s s1 (ground arith) later)
    ]
run-completed replica body (sends (content_part content true) raises ∷ rest) s h =
    let s1 = observed_send replica (content_part content true) raises s in
    elim (run-completed replica body rest s1 h) [
      | inl before ↦ inl (ground (arith, before))
      | inr later ↦ inr (IsSuccess-later _ rest s (IsSuccess-same rest s s1 (ground arith) later))
    ]
run-completed replica body (sends (content_part content false) true ∷ rest) s h =
    let s1 = observed_send replica (content_part content false) true s in
    elim (run-completed replica body rest s1 h) [
      | inl before ↦ inl (ground (arith, before))
      | inr later ↦ inr (IsSuccess-later _ rest s (IsSuccess-same rest s s1 (ground arith) later))
    ]
run-completed replica body (sends (content_part content false) false ∷ rest) s h =
    let s1 = observed_send replica (content_part content false) false s in
    elim (run-completed replica body rest s1 h) [
      | inl before ↦ inr (ended_now replica content rest s before)
      | inr later ↦ inr (IsSuccess-later _ rest s (IsSuccess-same rest s s1 (ground arith) later))
    ]
run-completed replica body (sends other_message raises ∷ rest) s h =
    let s1 = observed_send replica other_message raises s in
    elim (run-completed replica body rest s1 h) [
      | inl before ↦ inl (ground (arith, before))
      | inr later ↦ inr (IsSuccess-later _ rest s (IsSuccess-same rest s s1 (ground arith) later))
    ]

-- What a served call consists of.
serve-served :
    (replica : String) (acts : List Act) (ending : Ending) (r : Outcome Opening) (o : Opening)
    (final : State) (ledger : List Entry)
    → serve replica acts ending r ≡ served o final ledger
    → (r ≡ ok o) × (final.entry ≡ close_entry ending (run replica o.body acts o.state).entry)
serve-served replica acts ending (err e) o final ledger h = absurd (cc h)
serve-served replica acts ending (ok p) o final ledger h =
    let same : p ≡ o = ap opening_of h in
    let last : close_entry ending (run replica p.body acts p.state).entry ≡ final.entry =
      ap entry_of h in
    (
      ap ok same,
      sym last
          ∙ ap (λ (q : Opening). close_entry ending (run replica q.body acts q.state).entry) same,
    )
  where
    opening_of : Call → Opening
    opening_of (served q _ _) = q
    opening_of _ = p

    entry_of : Call → Entry
    entry_of (served _ s _) = s.entry
    entry_of _ = p.state.entry

-- The record before the application is called.
open_call-fresh :
    (lower : String → String) (loads : Bytes → Option Value) (dumps : Value → Bytes)
    (replica : String) (scope : Scope) (body : Bytes) (rest : List Message) (o : Opening)
    → open_call lower loads dumps replica scope body rest ≡ ok o
    → (o.state.entry.status ≡ failed) × (o.state.entry.http_status ≡ none)
unfolding open_call
open_call-fresh lower loads dumps replica scope body rest o h =
    let (payload, _, h1) = >>=-eq-ok _ _ h in
    let ((scope', body'), _, h2) = >>=-eq-ok _ _ h1 in
    let (tokens, _, h3) = >>=-eq-ok _ _ h2 in
    let same = ok-eq h3 in
    (
      ap (λ (q : Opening). q.state.entry.status) (sym same),
      ap (λ (q : Opening). q.state.entry.http_status) (sym same),
    )

close_entry-completed :
    (ending : Ending) (e : Entry)
    → (close_entry ending e).status ≡ completed
    → (ending ≡ returned) × (e.status ≡ completed)
close_entry-completed returned e h = (refl, h)
close_entry-completed (raised name) e h = absurd (cc h)

IsSuccess-only :
    (acts : List Act) (s : State)
    → (s.entry.status ≡ completed) ⊎ IsSuccess acts s
    → s.entry.status ≡ failed
    → IsSuccess acts s
IsSuccess-only acts s (inl before) h = absurd (cc (before, h))
IsSuccess-only acts s (inr success) h = success

sent_success :
    (acts : List Act) (s : State)
    → s.entry.http_status ≡ none
    → IsSuccess acts s
    → IsEnded acts
      × ((status : ℕ) × (headers : Headers) × (raises : Bool) × (is_success (some status) ≡ true)
          × Memᴰ (sends (start status headers) raises) acts)
sent_success acts s h (ended, (status, good, inl there)) = absurd (cc (h, there))
sent_success acts s h (ended, (status, good, inr (headers, raises, sent))) =
    (ended, (status, headers, raises, good, sent))

-- Where the record of a call says that it is completed, the application has returned, the end of the
-- body was sent without an exception, and a start with a status from 200 to 299 was sent.
pub call_middleware-completed :
    (lower : String → String) (loads : Bytes → Option Value) (dumps : Value → Bytes)
    (replica : String) (scope : Scope) (messages : List Message) (acts : List Act) (ending : Ending)
    (o : Opening) (final : State) (ledger : List Entry)
    → call_middleware lower loads dumps replica scope messages acts ending ≡ served o final ledger
    → final.entry.status ≡ completed
    → (ending ≡ returned)
      × ((content : Bytes) × Memᴰ (sends (content_part content false) false) acts)
      × ((status : ℕ) × (headers : Headers) × (raises : Bool) × (is_success (some status) ≡ true)
          × Memᴰ (sends (start status headers) raises) acts)
unfolding call_middleware
call_middleware-completed lower loads dumps replica scope messages acts ending o final ledger h
      done =
    elim (Bool-cases (is_foreign scope)) [
      | inl other ↦ absurd (cc (rw (other, call_middleware) at h))
      | inr own ↦ elim (Option-cases (read_body messages)) [
        | inl gone ↦ absurd (cc (rw (own, gone, call_middleware) at h))
        | inr ((body, rest), read) ↦
            let opened = open_call lower loads dumps replica scope body rest in
            let (is, last) =
              serve-served replica acts ending opened o final ledger
                (rw (own, read, call_middleware) at h) in
            let (fresh_status, no_status) =
              open_call-fresh lower loads dumps replica scope body rest o is in
            let entry = (run replica o.body acts o.state).entry in
            let (ends, status) =
              close_entry-completed ending entry (ap (λ (e : Entry). e.status) (sym last) ∙ done) in
            let (ended, started) = sent_success acts o.state no_status (
              IsSuccess-only acts o.state (run-completed replica o.body acts o.state status)
                fresh_status) in
            (ends, ended, started)
      ]
    ]
