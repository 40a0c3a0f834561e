-- ===== src/Adapters/Openclaw/Executor/Replies.antt =====
-- The results that `execute` of `OpenClawToolExecutor` in src/agenttrace/adapters/openclaw.py makes of the
-- gateway's replies.
use atcr_agent_trace_collect.Prelude.{
  ℕ, String, str_eq, true, false, Option, none, some, ◌≡◌, if◌then◌else◌, refl, sym, ap, subst, ◌∙◌,
  ◌⊎◌, inl, inr, ok, >>=-eq-ok, Bool-cases, Option-cases, arith, eq_iff,
}
use atcr_agent_trace_collect.Json.{
  Value, Fields, bool, str, list, nil, entry, end, or_default, dict, lookup, get, is_truthy,
  lookup-assign,
}
use atcr_agent_trace_collect.Json.Access.{is_text}
use atcr_agent_trace_collect.Adapters.Problems.{Outcome}
use atcr_agent_trace_collect.Adapters.Openclaw.Delay.{has_key}
use atcr_agent_trace_collect.Adapters.Openclaw.Executor.{raised}
use atcr_agent_trace_collect.Adapters.Openclaw.Executor.Machine.{Reply}
use atcr_agent_trace_collect.Adapters.Openclaw.Executor.Invoke.{
  tool_error, error_result, default_error, accepted_result, object_result, read_payload, read_reply,
}

some-eq : {A : Type 0} {a b : A} → ◌≡◌ {A = Option A} (some a) (some b) → a ≡ b
some-eq h = cc

ok-eq : {A : Type 0} {a b : A} → ◌≡◌ {A = Outcome A} (ok a) (ok b) → a ≡ b
ok-eq h = cc

-- What `result` is after the default: "isError" is there, false where it was not, and no other entry has
-- changed.
abbrev pub IsCompleted : Fields → Fields → Type 0
IsCompleted result after =
    (key : String)
    → lookup key after ≡ (
        if str_eq key "isError"
        then some (or_default (bool false) (lookup "isError" result))
        else lookup key result)

absent-lookup : (key : String) (d : Fields) → has_key key d ≡ false → lookup key d ≡ none
absent-lookup key d h = elim (Option-cases (lookup key d)) [
  | inl none_there ↦ none_there
  | inr (v, there) ↦ absurd (cc (rw (there, has_key) at h))
]

present-lookup :
    (key : String) (d : Fields) (v : Value)
    → has_key key d ≡ true
    → lookup key d ≡ some (or_default v (lookup key d))
present-lookup key d v h = elim (Option-cases (lookup key d)) [
  | inl none_there ↦ absurd (cc (rw (none_there, has_key) at h))
  | inr (w, there) ↦ rw there refl
]

kept_by_default : (result : Fields) → has_key "isError" result ≡ true → IsCompleted result result
kept_by_default result there key = elim (Bool-cases (str_eq key "isError")) [
  | inl is ↦
      let same : key ≡ "isError" = ground (arith, eq_iff key "isError", is) in
      rw is (ap (λ k. lookup k result) same ∙ present-lookup "isError" result (bool false) there)
  | inr other ↦ rw other refl
]

default_error-IsCompleted : (result : Fields) → IsCompleted result (default_error result)
default_error-IsCompleted result key = elim (Bool-cases (has_key "isError" result)) [
  | inl there ↦ rw there (kept_by_default result there key)
  | inr absent ↦
      rw (absent, absent-lookup "isError" result absent)
        (lookup-assign "isError" key (bool false) result)
]

-- The gateway reports that the tool raised.
abbrev pub IsToolError : Fields → Fields → Type 0
IsToolError payload error =
    (get "ok" payload ≡ bool false)
    × (get "error" payload ≡ dict error)
    × (get "type" error ≡ str "tool_error")

-- The result of a tool that raised, with its name and the message.
abbrev pub IsErrorResult : String → Fields → Fields → Type 0
IsErrorResult name error after =
    (lookup "isError" after ≡ some (bool true))
    × (lookup "content" after ≡ some (list nil))
    × ((details : Fields) × (lookup "details" after ≡ some (dict details))
        × (lookup "status" details ≡ some (str "error"))
        × (lookup "tool" details ≡ some (str name))
        × (lookup "error" details ≡ some (get "message" error)))

-- A tool that raised, or a result that the gateway reports.
abbrev pub IsResult : String → Option ℕ → Fields → Fields → Type 0
IsResult name refused payload after =
    ((error : Fields) × IsToolError payload error × IsErrorResult name error after)
    ⊎ ((result : Fields) × ((error : Fields) → ¬ IsToolError payload error)
        × (refused ≡ none)
        × (is_truthy (get "ok" payload) ≡ true)
        × (get "result" payload ≡ dict result)
        × IsCompleted result after)

error_result-IsErrorResult :
    (name : String) (error : Fields) → IsErrorResult name error (error_result name error)
unfolding lookup
error_result-IsErrorResult name error = (
  refl,
  refl,
  (
    entry "status" (str "error")
        (entry "tool" (str name) (entry "error" (get "message" error) end)),
    refl,
    refl,
    refl,
    refl,
  ),
)

is_text-eq : (text : String) (v : Value) → is_text text v ≡ true → v ≡ str text
is_text-eq text (str s) h =
    let same : s ≡ text = ground (arith, eq_iff s text, eq_iff text s, h) in ap str same
is_text-eq text v h = absurd (cc h)

tool_error-some :
    (is_ok value : Value) (error : Fields)
    → tool_error is_ok value ≡ some error
    → (is_ok ≡ bool false) × (value ≡ dict error) × (get "type" error ≡ str "tool_error")
tool_error-some (bool false) (dict e) error h =
    elim (Bool-cases (is_text "tool_error" (get "type" e))) [
      | inl is ↦
          let same : e ≡ error = some-eq (rw is at h) in
          (
            refl,
            ap dict same,
            ap (get "type") (sym same) ∙ is_text-eq "tool_error" (get "type" e) is,
          )
      | inr other ↦ absurd (cc (rw other at h))
    ]
tool_error-some is_ok value error h = absurd (cc h)

tool_error-none :
    (is_ok value : Value) (error : Fields)
    → tool_error is_ok value ≡ none
    → ¬ ((is_ok ≡ bool false) × (value ≡ dict error) × (get "type" error ≡ str "tool_error"))
tool_error-none is_ok value error h (failed, is, type) = cc (rw (failed, is, type) at h)

raised-ok : (code : Option ℕ) {u : Unit {0}} → raised code ≡ ok u → code ≡ none
raised-ok none h = refl
raised-ok (some code) h = absurd (cc h)

object_result-ok :
    (value : Value) (after : Fields)
    → object_result value ≡ ok after
    → (result : Fields) × (value ≡ dict result) × IsCompleted result after
object_result-ok (dict result) after h =
    (result, refl, subst (IsCompleted result) (ok-eq h) (default_error-IsCompleted result))
object_result-ok value after h = absurd (cc h)

accepted_result-ok :
    (payload after : Fields)
    → accepted_result payload ≡ ok after
    → (is_truthy (get "ok" payload) ≡ true) × (object_result (get "result" payload) ≡ ok after)
accepted_result-ok payload after h = elim (Bool-cases (is_truthy (get "ok" payload))) [
  | inl is ↦ (is, rw is at h)
  | inr other ↦ absurd (cc (rw other at h))
]

payload-IsResult :
    (name : String) (refused : Option ℕ) (payload after : Fields)
    → read_payload name refused (dict payload) ≡ ok after
    → IsResult name refused payload after
unfolding read_payload
payload-IsResult name refused payload after h =
    elim (Option-cases (tool_error (get "ok" payload) (get "error" payload))) [
      | inr (error, is) ↦ inl (
        error,
        tool_error-some (get "ok" payload) (get "error" payload) error is,
        subst (IsErrorResult name error) (ok-eq (rw (is, read_payload) at h))
            (error_result-IsErrorResult name error),
      )
      | inl other ↦
          let (_, fine, h1) = >>=-eq-ok _ _ (rw (other, read_payload) at h) in
          let (truthy, made) = accepted_result-ok payload after h1 in
          let (result, is, completed) = object_result-ok (get "result" payload) after made in
          inr (
            result,
            λ error. tool_error-none (get "ok" payload) (get "error" payload) error other,
            raised-ok refused fine,
            truthy,
            is,
            completed,
          )
    ]

-- Where a reply becomes a result, its body is an object. Either the gateway reports there that the tool
-- has raised, whatever the status of the reply: then the result is an error, without content, whose
-- details have the tool's name and the message. Or it reports none, the status is no error, the gateway
-- reports success, and the result is its object with "isError", false where the object has none, and
-- with every other entry as it is and no further one.
pub read_reply-IsResult :
    (name : String) (r : Reply) (after : Fields)
    → read_reply name r ≡ ok after
    → (payload : Fields) × (r.body ≡ some (dict payload)) × IsResult name r.refused payload after
unfolding read_reply
read_reply-IsResult name r after h = elim (Option-cases r.body) [
  | inl no_body ↦
      let (_, _, never) = >>=-eq-ok _ _ (rw (no_body, read_reply) at h) in absurd (cc never)
  | inr (body, there) ↦ of_body body there (rw (there, read_reply) at h)
]
  where
    of_body :
        (body : Value)
        → r.body ≡ some body
        → read_payload name r.refused body ≡ ok after
        → (payload : Fields) × (r.body ≡ some (dict payload))
          × IsResult name r.refused payload after
    of_body (dict payload) there h' =
        (payload, there, payload-IsResult name r.refused payload after h')
    of_body value there h' = absurd (cc h')
