-- ===== src/Adapters/Openclaw/Executor/Posts.antt =====
-- What `execute` of `OpenClawToolExecutor` in src/agenttrace/adapters/openclaw.py sends.
use atcr_agent_trace_collect.Prelude.{
  String, str_eq, true, false, not, ◌&&◌, List, [], ◌∷◌, ◌++◌, ◌≡◌, refl, sym, ap, ◌∙◌, subst, ◌⊎◌,
  inl, inr, ok, >>=-eq-ok, Result-cases, Bool-cases, arith, eq_iff,
}
use atcr_agent_trace_collect.Prelude.Names.{contains}
use atcr_agent_trace_collect.Json.{Value, Fields, str, lookup, get}
use atcr_agent_trace_collect.Adapters.Problems.{Outcome}
use atcr_agent_trace_collect.Adapters.Openclaw.Delay.{Delay}
use atcr_agent_trace_collect.Adapters.Openclaw.Executor.{
  Mode, native, recorded_delay, is_native, post, sleep, Deed, ToolExecutor,
}
use atcr_agent_trace_collect.Adapters.Openclaw.Executor.Config.{
  supported_tools, bridged, allowed_tools,
}
use atcr_agent_trace_collect.Adapters.Openclaw.Executor.Invoke.{
  supported, read_request, known_delay, request_body,
}
use atcr_agent_trace_collect.Adapters.Openclaw.Executor.Execute.{
  Answer, replay_search, invoke, is_set_up, execute,
}

ok-eq : {A : Type 0} {a b : A} → ◌≡◌ {A = Outcome A} (ok a) (ok b) → a ≡ b
ok-eq h = cc

supported-cases :
    (name : String)
    → contains name supported_tools ≡ true
    → (name ≡ "web_search")
      ⊎ (name ≡ "web_fetch")
      ⊎ (name ≡ "exec")
      ⊎ (name ≡ "read")
      ⊎ (name ≡ "write")
      ⊎ (name ≡ "edit")
unfolding contains
supported-cases name h = ground (
  arith,
  h,
  eq_iff name "web_search",
  eq_iff name "web_fetch",
  eq_iff name "exec",
  eq_iff name "read",
  eq_iff name "write",
  eq_iff name "edit",
)

abbrev IsAllowed : Mode → String → Type 0
IsAllowed mode name =
    (str_eq name "web_search" && not (is_native mode)) ≡ false
    → contains (bridged name) (allowed_tools mode) ≡ true

search-IsAllowed : (mode : Mode) → IsAllowed mode "web_search"
unfolding contains bridged
search-IsAllowed native h = refl
search-IsAllowed recorded_delay h = absurd (cc h)

fetch-IsAllowed : (mode : Mode) → IsAllowed mode "web_fetch"
unfolding contains bridged
fetch-IsAllowed native h = refl
fetch-IsAllowed recorded_delay h = refl

exec-IsAllowed : (mode : Mode) → IsAllowed mode "exec"
unfolding contains bridged
exec-IsAllowed native h = refl
exec-IsAllowed recorded_delay h = refl

read-IsAllowed : (mode : Mode) → IsAllowed mode "read"
unfolding contains bridged
read-IsAllowed native h = refl
read-IsAllowed recorded_delay h = refl

write-IsAllowed : (mode : Mode) → IsAllowed mode "write"
unfolding contains bridged
write-IsAllowed native h = refl
write-IsAllowed recorded_delay h = refl

edit-IsAllowed : (mode : Mode) → IsAllowed mode "edit"
unfolding contains bridged
edit-IsAllowed native h = refl
edit-IsAllowed recorded_delay h = refl

-- Every supported tool that is invoked goes by a name that the gateway's configuration allows.
bridged-IsAllowed :
    (mode : Mode) (name : String) → contains name supported_tools ≡ true → IsAllowed mode name
bridged-IsAllowed mode name h = elim (supported-cases name h) [
  | inl is ↦ subst (IsAllowed mode) (sym is) (search-IsAllowed mode)
  | inr (inl is) ↦ subst (IsAllowed mode) (sym is) (fetch-IsAllowed mode)
  | inr (inr (inl is)) ↦ subst (IsAllowed mode) (sym is) (exec-IsAllowed mode)
  | inr (inr (inr (inl is))) ↦ subst (IsAllowed mode) (sym is) (read-IsAllowed mode)
  | inr (inr (inr (inr (inl is)))) ↦ subst (IsAllowed mode) (sym is) (write-IsAllowed mode)
  | inr (inr (inr (inr (inr is)))) ↦ subst (IsAllowed mode) (sym is) (edit-IsAllowed mode)
]

supported-ok :
    (value : Value) (name : String)
    → supported value ≡ ok name
    → contains name supported_tools ≡ true
unfolding supported
supported-ok (str s) name h = elim (Bool-cases (contains s supported_tools)) [
  | inl is ↦ ground (arith, rw is at h, is)
  | inr other ↦ absurd (cc (rw other at h))
]
supported-ok value name h = absurd (cc h)

read_request-supported :
    (node : Fields) (request : Value) (name : String)
    → read_request node ≡ ok (request, name)
    → contains name supported_tools ≡ true
unfolding read_request
read_request-supported node request name h =
    let (_, _, h1) = >>=-eq-ok _ _ h in
    let (_, _, h2) = >>=-eq-ok _ _ h1 in
    let (_, _, h3) = >>=-eq-ok _ _ h2 in
    let (value, _, h4) = >>=-eq-ok _ _ h3 in
    let (found, is, h5) = >>=-eq-ok _ _ h4 in
    let same : found ≡ name = cc in supported-ok value name (is ∙ ap ok same)

request_body-tool :
    (tool session_key : String) (node : Fields) (request : Value) (body : Fields)
    → request_body tool session_key node request ≡ ok body
    → get "tool" body ≡ str tool
unfolding request_body get lookup
request_body-tool tool session_key node request body h =
    let (arguments, _, h1) = >>=-eq-ok _ _ h in
    let (recorded, _, h2) = >>=-eq-ok _ _ h1 in
    let (call_id, _, h3) = >>=-eq-ok _ _ h2 in ap (get "tool") (sym (ok-eq h3))

-- Nothing, a pause, or one post of an allowed tool.
abbrev pub IsDone : Mode → List Deed → List Deed → Type 0
IsDone mode before after =
    (after ≡ before)
    ⊎ ((d : Delay) × (after ≡ before ++ sleep d ∷ []))
    ⊎ ((body : Fields) × (tool : String) × (after ≡ before ++ post body ∷ [])
        × (get "tool" body ≡ str tool)
        × (contains tool (allowed_tools mode) ≡ true))

replay-IsDone :
    (mode : Mode) (node : Fields) (s : ToolExecutor)
    → IsDone mode s.deeds (replay_search node s).1.deeds
unfolding replay_search
replay-IsDone mode node s = elim (Result-cases (known_delay node s.search_delays)) [
  | inr (e, failed) ↦ inl (rw failed refl)
  | inl (d, known) ↦ inr (inl (d, ground (arith, known)))
]

invoke-IsDone :
    (mode : Mode) (answer : Answer) (node : Fields) (request : Value) (name : String)
    (s : ToolExecutor)
    → s.use_coding_bridge ≡ true
    → contains (bridged name) (allowed_tools mode) ≡ true
    → IsDone mode s.deeds (invoke answer node request name s).1.deeds
unfolding invoke
invoke-IsDone mode answer node request name s bridge allowed = elim (Bool-cases (is_set_up s)) [
  | inr no_client ↦ inl (ground (arith, no_client))
  | inl ready ↦ elim (Result-cases (request_body (bridged name) s.session_key node request)) [
    | inr (e, failed) ↦ inl (ground (arith, ready, bridge, failed))
    | inl (body, built) ↦ inr (
        inr (
          body,
          bridged name,
          ground (arith, ready, bridge, built),
          request_body-tool (bridged name) s.session_key node request body built,
          allowed,
        ))
  ]
]

-- With the gateway that `setup` has started, `execute` sends at most one request, whatever comes back:
-- it changes nothing, or waits for one recorded time, or posts one tool, under a name that the
-- configuration of that gateway allows.
pub execute-IsDone :
    (mode : Mode) (answer : Answer) (node : Fields) (s : ToolExecutor)
    → s.use_coding_bridge ≡ true
    → IsDone mode s.deeds (execute mode answer node s).1.deeds
unfolding execute
execute-IsDone mode answer node s bridge = elim (Result-cases (read_request node)) [
  | inr (e, failed) ↦ inl (rw failed refl)
  | inl ((request, name), asked) ↦
      elim (Bool-cases (str_eq name "web_search" && not (is_native mode))) [
        | inl recorded ↦ rw (asked, recorded) (replay-IsDone mode node s)
        | inr run ↦
            rw (asked, run)
              (invoke-IsDone mode answer node request name s bridge
                (bridged-IsAllowed mode name (read_request-supported node request name asked) run))
      ]
]
