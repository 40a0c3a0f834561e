-- ===== src/Replay/Engine/Outcome.antt =====
-- How a replay of src/agenttrace/replay/engine.py ends: it returns its report exactly when no
-- executor raised, and then every node has completed.
use atcr_agent_trace_collect.Prelude.{
  String, Bool, true, false, ◌||◌, ◌≡◌, refl, subst, ◌⊎◌, inl, inr, some, List, [], ◌∷◌, ◌++◌,
  arith, Option-cases,
}
use atcr_agent_trace_collect.Prelude.Names.{contains}
use atcr_agent_trace_collect.Schema.Types.{Node}
use atcr_agent_trace_collect.Schema.Nodes.{ids}
use atcr_agent_trace_collect.Replay.Engine.{
  Event, replay_completed, Phase, running, completed, Main, gathering, returned, State, initial,
  move, is_running, is_completed, is_raised, is_gathering, is_cancelling, all_in, parents, Choice,
  start, complete, fail, propagate, stop, cancel, reraise, finish, step, run,
}
use atcr_agent_trace_collect.Replay.Engine.Phases.{
  all_in_every, all_in_at, any_in_calm, when-eq-some, and-eq-true,
}

-- The executor of a node raises.
abbrev pub is_failure : Choice → Bool
is_failure (fail _ _) = true
is_failure _ = false

unfoldable pub any_failure : List Choice → Bool
any_failure [] = false
any_failure (c ∷ rest) = is_failure c || any_failure rest

-- No exception is about, and a return comes after all nodes.
record IsClean (g : List Node) (s : State) : Type 0 where
  calm : (n : String) → is_raised (s.phase n) ≡ false
  main_calm : (s.main ≡ gathering) ⊎ (s.main ≡ returned) × (all_in is_completed s (ids g) ≡ true)

move-IsClean :
    (g : List Node) (s : State) (n : String) (phase : Phase) (e : Event)
    → is_raised phase ≡ false
    → IsClean g s
    → s.main ≡ gathering
    → IsClean g (move n phase e s)
move-IsClean g s n phase e quiet c now = record {
  calm = λ m. ground (arith, c.calm m);
  main_calm = inl now;
}

gathering_if_open :
    (g : List Node) (s : State) (n : String)
    → IsClean g s
    → contains n (ids g) ≡ true
    → is_completed (s.phase n) ≡ false
    → s.main ≡ gathering
gathering_if_open g s n c key not_yet = elim c.main_calm [
  | inl now ↦ now
  | inr (_, all) ↦ absurd (cc (all_in_at is_completed s n (ids g) all key))
]

running-not_completed : (p : Phase) → is_running p ≡ true → is_completed p ≡ false
running-not_completed p h = ground arith

gathering-eq : (m : Main) → is_gathering m ≡ true → m ≡ gathering
gathering-eq m h = ground arith

not_cancelling : {g : List Node} (s : State) → IsClean g s → is_cancelling s.main ≡ true → ⊥
not_cancelling s c h = elim c.main_calm [ inl e ↦ cc (rw e at h) | inr (e, _) ↦ cc (rw e at h) ]

clash {ℓ} : {A : Type ℓ} (b : Bool) → b ≡ true → b ≡ false → A
clash b h k = absurd (cc)

step-IsClean :
    (g : List Node) (c : Choice) (s s' : State)
    → is_failure c ≡ false
    → IsClean g s
    → step g c s ≡ some s'
    → IsClean g s'
unfolding step
step-IsClean g (start n) s s' f c h =
    let (t, same) = when-eq-some _ _ h in
    let (t1, _) = and-eq-true _ _ t in
    let (_, now) = and-eq-true _ _ t1 in
    subst (IsClean g) same (move-IsClean g s n running _ refl c (gathering-eq s.main now))
step-IsClean g (complete n) s s' f c h =
    let (t, same) = when-eq-some _ _ h in
    let (key, r) = and-eq-true _ _ t in
    subst (IsClean g) same (
      move-IsClean g s n completed _ refl c
        (gathering_if_open g s n c key (running-not_completed _ r)))
step-IsClean g (fail n x) s s' f c h = absurd (cc)
step-IsClean g (propagate n x) s s' f c h =
    let (t, _) = when-eq-some _ _ h in
    let (_, some_raised) = and-eq-true _ _ t in
    clash _ some_raised (any_in_calm is_raised s (parents g n) c.calm)
step-IsClean g stop s s' f c h =
    let (t, _) = when-eq-some _ _ h in
    let (_, some_raised) = and-eq-true _ _ t in
    clash _ some_raised (any_in_calm is_raised s (ids g) c.calm)
step-IsClean g (cancel n) s s' f c h =
    let (t, _) = when-eq-some _ _ h in
    let (t1, _) = and-eq-true _ _ t in
    let (_, now) = and-eq-true _ _ t1 in absurd (not_cancelling s c now)
step-IsClean g reraise s s' f c h =
    let (t, _) = when-eq-some _ _ h in
    let (now, _) = and-eq-true _ _ t in absurd (not_cancelling s c now)
step-IsClean g finish s s' f c h =
    let (t, same) = when-eq-some _ _ h in
    let (_, all) = and-eq-true _ _ t in
    let end = record s { main = returned; events = s.events ++ replay_completed ∷ [] } in
    subst (IsClean g) same (record {
      calm = c.calm;
      main_calm = inr (
        refl,
        all_in_every is_completed end (ids g) (λ n m. all_in_at is_completed s n (ids g) all m),
      );
    })

run-IsClean :
    (g : List Node) (choices : List Choice) (s t : State)
    → any_failure choices ≡ false
    → IsClean g s
    → run g choices s ≡ some t
    → IsClean g t
unfolding run any_failure
run-IsClean g [] s t f c h = subst (IsClean g) (cc) c
run-IsClean g (x ∷ rest) s t f c h = elim (Option-cases (step g x s)) [
  | inl stuck ↦ absurd (cc (rw (stuck, run) at h))
  | inr (u, e) ↦
      run-IsClean g rest u t (ground arith) (step-IsClean g x s u (ground arith) c e)
        (rw (e, run) at h)
]

-- If no executor raises, the replay raises nothing: it is still gathering, or it has returned and
-- every node has completed.
pub replay_without_failure :
    (g : List Node) (choices : List Choice) (s : State)
    → run g choices initial ≡ some s
    → any_failure choices ≡ false
    → (s.main ≡ gathering)
      ⊎ (s.main ≡ returned)
        × ((n : String) → contains n (ids g) ≡ true → is_completed (s.phase n) ≡ true)
replay_without_failure g choices s r f =
    elim (run-IsClean g choices initial s f (record { calm = λ n. refl; main_calm = inl refl })
      r).main_calm [
        | inl now ↦ inl now
        | inr (e, all) ↦ inr (e, λ n m. all_in_at is_completed s n (ids g) all m)
      ]
