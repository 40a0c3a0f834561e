-- ===== src/Replay/Engine/Liveness.antt =====
-- The scheduler of src/agenttrace/replay/engine.py over a validated trace: some task or the
-- gathering coroutine can always go on, so that a replay whose executors return or raise ends.
use atcr_agent_trace_collect.Prelude.{
  ℕ, suc, ◌<◌, zero, String, Bool, true, false, ◌||◌, ◌≡◌, refl, ◌⊎◌, inl, inr, Option, none, some,
  List, [], ◌∷◌, arith, Bool-cases,
}
use atcr_agent_trace_collect.Prelude.Names.{contains, contains-cons_self}
use atcr_agent_trace_collect.Schema.Types.{Node}
use atcr_agent_trace_collect.Schema.Nodes.{ids}
use atcr_agent_trace_collect.Schema.Graph.{depends_on}
use atcr_agent_trace_collect.Schema.Graph.Paths.{
  Edge, Ordered, Ordered-key, contains_rest, contains_tail,
}
use atcr_agent_trace_collect.Schema.Graph.Acyclicity.{IsOrder, IsOrder-of_acyclic}
use atcr_agent_trace_collect.Schema.Validate.Structure.{IsValid}
use atcr_agent_trace_collect.Replay.Engine.{
  Phase, Main, State, initial, is_waiting, is_running, is_completed, is_raised, is_done,
  is_gathering, is_cancelling, all_in, any_in, or_empty, parents, when, Choice, start, complete,
  stop, cancel, reraise, finish, step, run,
}
use atcr_agent_trace_collect.Replay.Engine.Phases.{all_in_cases, any_in_none, all_in_every}
use atcr_agent_trace_collect.Replay.Engine.Progress.{steps_left, step-lt}

Edge-of_parent :
    (g : List Node) (x p : String) (o : Option (List String))
    → depends_on g x ≡ o
    → contains p (or_empty o) ≡ true
    → Edge g x p
unfolding contains
Edge-of_parent g x p none e m = absurd (cc)
Edge-of_parent g x p (some ps) e m = record { parents = ps; listed = e; parent = m }

-- Of the nodes in an order, either all have completed, or one has not and its dependencies have.
first_open :
    (g : List Node) (s : State) (l : List String)
    → Ordered g l
    → ((n : String) → contains n l ≡ true → is_completed (s.phase n) ≡ true)
      ⊎ ((n : String) × (contains n l ≡ true)
          × (is_completed (s.phase n) ≡ false)
          × (all_in is_completed s (parents g n) ≡ true))
unfolding contains
first_open g s [] o = inl (λ n h. absurd (cc))
first_open g s (x ∷ l) o = elim (first_open g s l o.2) [
  | inr (n, here, open_, done) ↦ inr (n, contains_tail n x l here, open_, done)
  | inl behind ↦ elim (Bool-cases (is_completed (s.phase x))) [
    | inl now ↦
        inl
          λ n h. elim (contains_rest n x l h) [ inl same ↦ rw same now | inr rest ↦ behind n rest ]
    | inr not_yet ↦ inr (
      x,
      contains-cons_self x l,
      not_yet,
      all_in_every is_completed s (parents g x)
          (λ p m. behind p (o.1 p (Edge-of_parent g x p (depends_on g x) refl m))),
    )
  ]
]

-- The gathering coroutine has neither returned nor raised.
abbrev pub is_live : Main → Bool
is_live m = is_gathering m || is_cancelling m

abbrev pub CanGoOn : List Node → State → Type 0
CanGoOn g s = (c : Choice) × (s' : State) × (step g c s ≡ some s')

allowed :
    (g : List Node) (s : State) (c : Choice) (test : Bool) (s' : State)
    → step g c s ≡ when test s'
    → test ≡ true
    → CanGoOn g s
allowed g s c test s' e t = (c, s', rw (e, t))

not_done : (p : Phase) → is_done p ≡ false → (is_waiting p || is_running p) ≡ true
not_done p h = ground arith

cancelling-goes_on : (g : List Node) (s : State) → is_cancelling s.main ≡ true → CanGoOn g s
unfolding step
cancelling-goes_on g s now = elim (all_in_cases is_done s (ids g)) [
  | inl all ↦ allowed g s reraise _ _ refl (rw (now, all))
  | inr (n, here, open_) ↦
      allowed g s (cancel n) _ _ refl (rw (here, now, not_done (s.phase n) open_))
]

open_phase :
    (p : Phase)
    → is_raised p ≡ false
    → is_completed p ≡ false
    → (is_waiting p ≡ true) ⊎ (is_running p ≡ true)
open_phase p a b = ground arith

-- A node that is open, with its dependencies completed, goes on itself.
open_node-goes_on :
    (g : List Node) (s : State) (n : String)
    → is_gathering s.main ≡ true
    → contains n (ids g) ≡ true
    → all_in is_completed s (parents g n) ≡ true
    → (is_waiting (s.phase n) ≡ true) ⊎ (is_running (s.phase n) ≡ true)
    → CanGoOn g s
unfolding step
open_node-goes_on g s n now key ready (inl w) =
    allowed g s (start n) _ _ refl (rw (key, w, now, ready))
open_node-goes_on g s n now key ready (inr r) = allowed g s (complete n) _ _ refl (rw (key, r))

gathering-goes_on :
    (g : List Node) (l : List String) (s : State)
    → IsOrder g l
    → is_gathering s.main ≡ true
    → CanGoOn g s
unfolding step
gathering-goes_on g l s order now = elim (Bool-cases (any_in is_raised s (ids g))) [
  | inl some_raised ↦ allowed g s stop _ _ refl (rw (now, some_raised))
  | inr none_raised ↦ elim (first_open g s l order.ordered) [
    | inl all ↦
        allowed g s finish _ _ refl
          (rw (now, all_in_every is_completed s (ids g) (λ n m. all n (order.every n m))))
    | inr (n, here, not_yet, ready) ↦
        let key = Ordered-key g n l order.ordered here in
        open_node-goes_on g s n now key ready
          (open_phase (s.phase n) (any_in_none is_raised s n (ids g) none_raised key) not_yet)
  ]
]

-- Over a validated trace the replay is never stuck: until the gathering coroutine has returned or
-- raised, a task that waits can start, an executor that runs can return, or the coroutine goes on.
pub replay_goes_on : (g : List Node) (s : State) → IsValid g → is_live s.main ≡ true → CanGoOn g s
replay_goes_on g s v live =
    let (l, order) = IsOrder-of_acyclic g v.known v.acyclic in
    elim (Bool-cases (is_gathering s.main)) [
      | inl now ↦ gathering-goes_on g l s order now
      | inr other ↦ cancelling-goes_on g s (ground arith)
    ]

run_from_ends :
    (g : List Node) (s : State) (n : ℕ)
    → IsValid g
    → steps_left g s < n
    → (more : List Choice) × (t : State) × (run g more s ≡ some t) × (is_live t.main ≡ false)
unfolding run
run_from_ends g s zero v bound = absurd (omega arith)
run_from_ends g s (suc n) v bound = elim (Bool-cases (is_live s.main)) [
  | inr ended ↦ ([], s, refl, ended)
  | inl live ↦
      let (c, s', e) = replay_goes_on g s v live in
      let (more, t, r, ended) = run_from_ends g s' n v (omega (arith, bound, step-lt g c s s' e)) in
      (c ∷ more, t, rw (e, run) r, ended)
]

-- From every state that a replay of a validated trace reaches, it can be brought to its end: with
-- the report returned, or with an exception raised.
pub replay_ends :
    (g : List Node) (choices : List Choice) (s : State)
    → IsValid g
    → run g choices initial ≡ some s
    → (more : List Choice) × (t : State) × (run g more s ≡ some t) × (is_live t.main ≡ false)
replay_ends g choices s v r = run_from_ends g s (suc (steps_left g s)) v (omega arith)
