-- ===== src/Replay/Engine/Invariant.antt =====
-- The invariant of a run of src/agenttrace/replay/engine.py's scheduler: the log fits the phases of the
-- tasks, and every event was justified by the log before it.
use atcr_agent_trace_collect.Prelude.{
  String, str_eq, Bool, true, false, ◌||◌, ◌≡◌, ◌≢◌, refl, subst, inl, inr, some, List, [], ◌∷◌,
  ◌++◌, arith, eq_iff, eq_refl, if◌then◌else◌, Bool-cases, Option-cases,
}
use atcr_agent_trace_collect.Prelude.Names.{contains}
use atcr_agent_trace_collect.Schema.Types.{Node}
use atcr_agent_trace_collect.Schema.Nodes.{ids}
use atcr_agent_trace_collect.Replay.Engine.{
  Phase, waiting, running, completed, raised, Event, node_started, node_completed, node_failed,
  node_cancelled, replay_failed, replay_completed, Main, cancelling, returned, State, initial, move,
  failure, is_waiting, is_running, is_completed, all_in, parents, Choice, start, complete, fail,
  propagate, stop, cancel, reraise, finish, step, run,
}
use atcr_agent_trace_collect.Replay.Engine.Log.{
  logs_start, logs_completion, any_event, any_event-snoc, is_start_of, is_completion_of, last,
  earlier, in_snoc,
}
use atcr_agent_trace_collect.Replay.Engine.Phases.{when-eq-some, and-eq-true}

-- What the code guarantees of an event at the time it is written, from the log before it.
abbrev pub Justified : List Node → List Event → Event → Type 0
Justified g before (node_started n) =
    ((p : String) → contains p (parents g n) ≡ true → logs_completion p before ≡ true)
    × (logs_start n before ≡ false)
Justified g before (node_completed n) =
    (logs_start n before ≡ true) × (logs_completion n before ≡ false)
Justified g before (node_failed n started) =
    (logs_start n before ≡ started) × (logs_completion n before ≡ false)
Justified g before (node_cancelled n started) =
    (logs_start n before ≡ started) × (logs_completion n before ≡ false)
Justified g before replay_completed =
    (n : String) → contains n (ids g) ≡ true → logs_completion n before ≡ true
Justified g before replay_failed = Unit

-- The log that belongs to a phase.
abbrev pub Told : Phase → Bool → Bool → Type 0
Told waiting started ended = (started ≡ false) × (ended ≡ false)
Told running started ended = (started ≡ true) × (ended ≡ false)
Told completed started ended = (started ≡ true) × (ended ≡ true)
Told raised started ended = ended ≡ false

pub record Inv (g : List Node) (s : State) : Type 0 where
  pub told : (n : String) → Told (s.phase n) (logs_start n s.events) (logs_completion n s.events)
  pub justified :
      (before : List Event) (x : Event) (after : List Event)
      → s.events ≡ before ++ x ∷ after
      → Justified g before x

pub Inv-initial : (g : List Node) → Inv g initial
unfolding any_event
Inv-initial g = record {
  told = λ n. (refl, refl);
  justified = λ before x after h. absurd (nil≢ before x after h);
}
  where
    nil≢ : (b : List Event) (x : Event) (a : List Event) → [] ≢ b ++ x ∷ a
    nil≢ [] x a h = cc
    nil≢ (c ∷ b) x a h = cc

-- One more event, justified by the log so far.
Justified-snoc :
    (g : List Node) (s : State) (e : Event)
    → Inv g s
    → Justified g s.events e
    → (before : List Event) (x : Event) (after : List Event)
    → s.events ++ e ∷ [] ≡ before ++ x ∷ after
    → Justified g before x
Justified-snoc g s e inv j before x after h = elim (in_snoc s.events e before x after h) [
  | last p q r ↦ rw (p, q) j
  | earlier rest p ↦ inv.justified before x rest p
]

or_false : (b : Bool) → (b || false) ≡ b
or_false b = ground arith

-- An event that is about one node only.
abbrev About : String → Event → Type 0
About n e =
    (m : String) → str_eq m n ≡ false → (is_start_of m e ≡ false) × (is_completion_of m e ≡ false)

move-Inv :
    (g : List Node) (s : State) (n : String) (phase : Phase) (e : Event)
    → Inv g s
    → Justified g s.events e
    → About n e
    → Told phase
        (logs_start n s.events || is_start_of n e)
        (logs_completion n s.events || is_completion_of n e)
    → Inv g (move n phase e s)
move-Inv g s n phase e inv j about told = record {
  told = told_at;
  justified = Justified-snoc g s e inv j;
}
  where
    told_at :
        (m : String)
        → Told
            (if str_eq m n then phase else s.phase m)
            (logs_start m (s.events ++ e ∷ []))
            (logs_completion m (s.events ++ e ∷ []))
    told_at m =
        rw
          (
            any_event-snoc (is_start_of m) s.events e,
            any_event-snoc (is_completion_of m) s.events e,
          )
          (elim (Bool-cases (str_eq m n)) [
            | inl same ↦ rw (same, (eq_iff m n).0 same) told
            | inr other ↦
                rw (other, (about m other).0, (about m other).1, or_false, or_false) (inv.told m)
          ])

all_in-completed :
    (g : List Node) (s : State) (l : List String) (p : String)
    → Inv g s
    → all_in is_completed s l ≡ true
    → contains p l ≡ true
    → logs_completion p s.events ≡ true
unfolding all_in contains
all_in-completed g s [] p inv h m = cc
all_in-completed g s (n ∷ l) p inv h m =
    ground (arith, eq_iff p n, inv.told n, all_in-completed g s l p inv)

-- An event that starts and completes no node.
quiet-Inv :
    (g : List Node) (s : State) (main : Main) (e : Event)
    → Inv g s
    → Justified g s.events e
    → ((m : String) → (is_start_of m e ≡ false) × (is_completion_of m e ≡ false))
    → Inv g (record s { main = main; events = s.events ++ e ∷ [] })
quiet-Inv g s main e inv j quiet = record {
  told = λ m.
      rw
        (
          any_event-snoc (is_start_of m) s.events e,
          any_event-snoc (is_completion_of m) s.events e,
          (quiet m).0,
          (quiet m).1,
          or_false,
          or_false,
        )
        (inv.told m);
  justified = Justified-snoc g s e inv j;
}

failure-Inv :
    (g : List Node) (s : State) (n : String) (cancelled started : Bool)
    → Inv g s
    → logs_start n s.events ≡ started
    → logs_completion n s.events ≡ false
    → Inv g (move n raised (failure n cancelled started) s)
failure-Inv g s n true started inv a b =
    move-Inv g s n raised (node_cancelled n started) inv (a, b) (λ m h. (refl, refl)) (rw b)
failure-Inv g s n false started inv a b =
    move-Inv g s n raised (node_failed n started) inv (a, b) (λ m h. (refl, refl)) (rw b)

-- A task that waits has logged nothing; one that runs has logged its start.
waiting_told :
    (g : List Node) (s : State) (n : String)
    → Inv g s
    → is_waiting (s.phase n) ≡ true
    → (logs_start n s.events ≡ false) × (logs_completion n s.events ≡ false)
waiting_told g s n inv h = ground (arith, inv.told n)

running_told :
    (g : List Node) (s : State) (n : String)
    → Inv g s
    → is_running (s.phase n) ≡ true
    → (logs_start n s.events ≡ true) × (logs_completion n s.events ≡ false)
running_told g s n inv h = ground (arith, inv.told n)

live_told :
    (g : List Node) (s : State) (n : String)
    → Inv g s
    → (is_waiting (s.phase n) || is_running (s.phase n)) ≡ true
    → (logs_start n s.events ≡ is_running (s.phase n)) × (logs_completion n s.events ≡ false)
live_told g s n inv h = ground (arith, inv.told n)

step-Inv : (g : List Node) (c : Choice) (s s' : State) → Inv g s → step g c s ≡ some s' → Inv g s'
unfolding step
step-Inv g (start n) s s' inv h =
    let (t, same) = when-eq-some _ _ h in
    let (t1, ready) = and-eq-true _ _ t in
    let (t2, _) = and-eq-true _ _ t1 in
    let (_, w) = and-eq-true _ _ t2 in
    let (a, b) = waiting_told g s n inv w in
    subst (Inv g) same (
      move-Inv g s n running (node_started n) inv
        (λ p m. all_in-completed g s (parents g n) p inv ready m, a) (λ m o. (o, refl))
        (rw (a, b, eq_refl n) (refl, refl)))
step-Inv g (complete n) s s' inv h =
    let (t, same) = when-eq-some _ _ h in
    let (_, r) = and-eq-true _ _ t in
    let (a, b) = running_told g s n inv r in
    subst (Inv g) same (
      move-Inv g s n completed (node_completed n) inv (a, b) (λ m o. (refl, o))
        (rw (a, b, eq_refl n) (refl, refl)))
step-Inv g (fail n cancelled) s s' inv h =
    let (t, same) = when-eq-some _ _ h in
    let (_, r) = and-eq-true _ _ t in
    let (a, b) = running_told g s n inv r in
    subst (Inv g) same (failure-Inv g s n cancelled true inv a b)
step-Inv g (propagate n cancelled) s s' inv h =
    let (t, same) = when-eq-some _ _ h in
    let (t1, _) = and-eq-true _ _ t in
    let (t2, _) = and-eq-true _ _ t1 in
    let (_, w) = and-eq-true _ _ t2 in
    let (a, b) = waiting_told g s n inv w in
    subst (Inv g) same (failure-Inv g s n cancelled false inv a b)
step-Inv g stop s s' inv h =
    let (_, same) = when-eq-some _ _ h in
    subst (Inv g) same (quiet-Inv g s cancelling replay_failed inv tt (λ m. (refl, refl)))
step-Inv g (cancel n) s s' inv h =
    let (t, same) = when-eq-some _ _ h in
    let (_, live) = and-eq-true _ _ t in
    let (a, b) = live_told g s n inv live in
    subst (Inv g) same (failure-Inv g s n true (is_running (s.phase n)) inv a b)
step-Inv g reraise s s' inv h =
    let (_, same) = when-eq-some _ _ h in
    subst (Inv g) same (record { told = inv.told; justified = inv.justified })
step-Inv g finish s s' inv h =
    let (t, same) = when-eq-some _ _ h in
    let (_, all) = and-eq-true _ _ t in
    subst (Inv g) same (
      quiet-Inv g s returned replay_completed inv (λ n m. all_in-completed g s (ids g) n inv all m)
        (λ m. (refl, refl)))

pub run-Inv :
    (g : List Node) (choices : List Choice) (s s' : State)
    → Inv g s
    → run g choices s ≡ some s'
    → Inv g s'
unfolding run
run-Inv g [] s s' inv h = subst (Inv g) (cc) inv
run-Inv g (c ∷ rest) s s' inv h = elim (Option-cases (step g c s)) [
  | inl stuck ↦ absurd (cc (rw (stuck, run) at h))
  | inr (t, e) ↦ run-Inv g rest t s' (step-Inv g c s t inv e) (rw (e, run) at h)
]
