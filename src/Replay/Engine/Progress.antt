-- ===== src/Replay/Engine/Progress.antt =====
-- The scheduler of src/agenttrace/replay/engine.py never waits for ever: over a validated trace some
-- task or the gathering coroutine can always go on, and each choice brings the end nearer.
use native.Mathlib.Nat.{le_refl}
use atcr_agent_trace_collect.Prelude.{
  ℕ, ◌+◌, ◌*◌, ◌≤◌, ◌<◌, String, str_eq, true, ◌||◌, ◌≡◌, subst, inl, inr, some, List, [], ◌∷◌,
  arith, eq_iff, eq_refl, if◌then◌else◌, Bool-cases, Option-cases, length, length-map,
}
use atcr_agent_trace_collect.Prelude.Names.{contains}
use atcr_agent_trace_collect.Replay.Engine.Phases.{when-eq-some, and-eq-true}
use atcr_agent_trace_collect.Schema.Types.{Node}
use atcr_agent_trace_collect.Schema.Nodes.{ids}
use atcr_agent_trace_collect.Replay.Engine.{
  Event, Phase, waiting, running, completed, raised, Main, gathering, cancelling, returned, failed,
  State, initial, move, is_waiting, is_running, is_gathering, is_cancelling, Choice, start,
  complete, fail, propagate, stop, cancel, reraise, finish, step, run,
}

-- The steps that a task, and the gathering coroutine, may still take.
unfoldable pub left : Phase → ℕ
left waiting = 2
left running = 1
left _ = 0

unfoldable pub left_main : Main → ℕ
left_main gathering = 2
left_main cancelling = 1
left_main _ = 0

unfoldable pub left_all : State → List String → ℕ
unfolding left
left_all s [] = 0
left_all s (n ∷ l) = left (s.phase n) + left_all s l

unfoldable pub steps_left : List Node → State → ℕ
unfolding left_main left_all
steps_left g s = left_main s.main + left_all s (ids g)

left_all-le :
    (s t : State) (l : List String)
    → ((m : String) → left (t.phase m) ≤ left (s.phase m))
    → left_all t l ≤ left_all s l
unfolding left_all
left_all-le s t [] h = omega arith
left_all-le s t (n ∷ l) h = omega (arith, h n, left_all-le s t l h)

left_all-lt :
    (s t : State) (n : String) (l : List String)
    → ((m : String) → left (t.phase m) ≤ left (s.phase m))
    → left (t.phase n) < left (s.phase n)
    → contains n l ≡ true
    → left_all t l < left_all s l
unfolding left_all contains
left_all-lt s t n [] h less m = absurd (cc)
left_all-lt s t n (x ∷ l) h less m = elim (Bool-cases (str_eq n x)) [
  | inl same ↦
      let now : left (t.phase x) < left (s.phase x) =
        subst (λ y. left (t.phase y) < left (s.phase y)) ((eq_iff n x).0 same) less in
      omega (arith, now, left_all-le s t l h)
  | inr other ↦ omega (arith, h x, left_all-lt s t n l h less (rw other at m))
]

move-lt :
    (g : List Node) (s : State) (n : String) (phase : Phase) (e : Event)
    → contains n (ids g) ≡ true
    → left phase < left (s.phase n)
    → steps_left g (move n phase e s) < steps_left g s
unfolding steps_left
move-lt g s n phase e key less =
    omega (arith, left_all-lt s (move n phase e s) n (ids g) no_more (rw (eq_refl n) less) key)
  where
    no_more : (m : String) → left (if str_eq m n then phase else s.phase m) ≤ left (s.phase m)
    no_more m = elim (Bool-cases (str_eq m n)) [
      | inl same ↦ rw (same, (eq_iff m n).0 same) (omega (arith, less))
      | inr other ↦ rw other (omega arith)
    ]

main-lt :
    (g : List Node) (s : State) (main : Main) (events : List Event)
    → left_main main < left_main s.main
    → steps_left g (record s { main = main; events = events }) < steps_left g s
unfolding steps_left
main-lt g s main events less =
    omega
      (arith, left_all-le s (record s { main = main; events = events }) (ids g) (λ m. le_refl _))

gathering-left : (m : Main) → is_gathering m ≡ true → left_main m ≡ 2
unfolding left_main
gathering-left m h = ground arith

cancelling-left : (m : Main) → is_cancelling m ≡ true → left_main m ≡ 1
unfolding left_main
cancelling-left m h = ground arith

waiting-left : (p : Phase) → is_waiting p ≡ true → left p ≡ 2
unfolding left
waiting-left p h = ground arith

running-left : (p : Phase) → is_running p ≡ true → left p ≡ 1
unfolding left
running-left p h = ground arith

live-left : (p : Phase) → (is_waiting p || is_running p) ≡ true → 0 < left p
unfolding left
live-left p h = ground arith

-- Every choice that the code allows brings the end nearer.
pub step-lt :
    (g : List Node) (c : Choice) (s s' : State)
    → step g c s ≡ some s'
    → steps_left g s' < steps_left g s
unfolding step left left_main
step-lt g (start n) s s' h =
    let (t, same) = when-eq-some _ _ h in
    let (t1, _) = and-eq-true _ _ t in
    let (t2, _) = and-eq-true _ _ t1 in
    let (key, w) = and-eq-true _ _ t2 in
    subst (λ u. steps_left g u < steps_left g s) same
      (move-lt g s n running _ key (omega (arith, waiting-left _ w)))
step-lt g (complete n) s s' h =
    let (t, same) = when-eq-some _ _ h in
    let (key, r) = and-eq-true _ _ t in
    subst (λ u. steps_left g u < steps_left g s) same
      (move-lt g s n completed _ key (omega (arith, running-left _ r)))
step-lt g (fail n cancelled) s s' h =
    let (t, same) = when-eq-some _ _ h in
    let (key, r) = and-eq-true _ _ t in
    subst (λ u. steps_left g u < steps_left g s) same
      (move-lt g s n raised _ key (omega (arith, running-left _ r)))
step-lt g (propagate n cancelled) s s' h =
    let (t, same) = when-eq-some _ _ h in
    let (t1, _) = and-eq-true _ _ t in
    let (t2, _) = and-eq-true _ _ t1 in
    let (key, w) = and-eq-true _ _ t2 in
    subst (λ u. steps_left g u < steps_left g s) same
      (move-lt g s n raised _ key (omega (arith, waiting-left _ w)))
step-lt g (cancel n) s s' h =
    let (t, same) = when-eq-some _ _ h in
    let (t1, live) = and-eq-true _ _ t in
    let (key, _) = and-eq-true _ _ t1 in
    subst (λ u. steps_left g u < steps_left g s) same
      (move-lt g s n raised _ key (omega (arith, live-left _ live)))
step-lt g stop s s' h =
    let (t, same) = when-eq-some _ _ h in
    let (now, _) = and-eq-true _ _ t in
    subst (λ u. steps_left g u < steps_left g s) same
      (main-lt g s cancelling _ (omega (arith, gathering-left s.main now)))
step-lt g reraise s s' h =
    let (t, same) = when-eq-some _ _ h in
    let (now, _) = and-eq-true _ _ t in
    subst (λ u. steps_left g u < steps_left g s) same
      (main-lt g s failed s.events (omega (arith, cancelling-left s.main now)))
step-lt g finish s s' h =
    let (t, same) = when-eq-some _ _ h in
    let (now, _) = and-eq-true _ _ t in
    subst (λ u. steps_left g u < steps_left g s) same
      (main-lt g s returned _ (omega (arith, gathering-left s.main now)))

left_all-initial : (l : List String) → left_all initial l ≡ 2 * length l
unfolding left_all
left_all-initial [] = omega arith
left_all-initial (n ∷ l) = omega (arith, left_all-initial l)

run-le :
    (g : List Node) (choices : List Choice) (s s' : State)
    → run g choices s ≡ some s'
    → length choices + steps_left g s' ≤ steps_left g s
unfolding run
run-le g [] s s' h = let same : s ≡ s' = cc in rw same (omega arith)
run-le g (c ∷ rest) s s' h = elim (Option-cases (step g c s)) [
  | inl stuck ↦ absurd (cc (rw (stuck, run) at h))
  | inr (t, e) ↦ omega (arith, step-lt g c s t e, run-le g rest t s' (rw (e, run) at h))
]

-- No run of a trace with `n` nodes is longer than 2 * n + 2 choices.
pub run_bound :
    (g : List Node) (choices : List Choice) (s : State)
    → run g choices initial ≡ some s
    → length choices ≤ 2 * length g + 2
unfolding steps_left
run_bound g choices s r =
    omega (arith, run-le g choices initial s r, left_all-initial (ids g), length-map g (λ n. n.id))
