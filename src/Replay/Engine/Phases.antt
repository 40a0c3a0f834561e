-- ===== src/Replay/Engine/Phases.antt =====
-- The tests on phases of src/agenttrace/replay/engine.py's model, and the guard of a choice.
use atcr_agent_trace_collect.Prelude.{
  String, Bool, true, false, ◌&&◌, ◌≡◌, refl, ◌⊎◌, inl, inr, some, List, [], ◌∷◌, arith, eq_iff,
  Bool-cases,
}
use atcr_agent_trace_collect.Prelude.Names.{contains, contains-cons_self}
use atcr_agent_trace_collect.Schema.Graph.Paths.{contains_tail}
use atcr_agent_trace_collect.Replay.Engine.{Phase, State, all_in, any_in, when}

pub when-eq-some :
    (test : Bool) (s : State) {s' : State} → when test s ≡ some s' → (test ≡ true) × (s ≡ s')
when-eq-some true s h = (refl, cc)
when-eq-some false s h = absurd (cc)

-- The parts of a test.
pub and-eq-true : (a b : Bool) → (a && b) ≡ true → (a ≡ true) × (b ≡ true)
and-eq-true a b h = ground arith

-- Every member passes the test, or one is found that does not.
pub all_in_cases :
    (test : Phase → Bool) (s : State) (l : List String)
    → (all_in test s l ≡ true) ⊎ ((n : String) × (contains n l ≡ true) × (test (s.phase n) ≡ false))
unfolding all_in
all_in_cases test s [] = inl refl
all_in_cases test s (n ∷ l) = elim (Bool-cases (test (s.phase n))) [
  | inr fails ↦ inr (n, contains-cons_self n l, fails)
  | inl passes ↦ elim (all_in_cases test s l) [
    | inl rest ↦ inl (rw (passes, rest))
    | inr (m, here, fails) ↦ inr (m, contains_tail m n l here, fails)
  ]
]

pub any_in_none :
    (test : Phase → Bool) (s : State) (n : String) (l : List String)
    → any_in test s l ≡ false
    → contains n l ≡ true
    → test (s.phase n) ≡ false
unfolding any_in contains
any_in_none test s n [] h m = absurd (cc)
any_in_none test s n (x ∷ l) h m = ground (arith, eq_iff n x, any_in_none test s n l)

pub all_in_every :
    (test : Phase → Bool) (s : State) (l : List String)
    → ((n : String) → contains n l ≡ true → test (s.phase n) ≡ true)
    → all_in test s l ≡ true
unfolding all_in
all_in_every test s [] h = refl
all_in_every test s (n ∷ l) h =
    rw (h n (contains-cons_self n l), all_in_every test s l (λ m u. h m (contains_tail m n l u)))

pub all_in_at :
    (test : Phase → Bool) (s : State) (n : String) (l : List String)
    → all_in test s l ≡ true
    → contains n l ≡ true
    → test (s.phase n) ≡ true
unfolding all_in contains
all_in_at test s n [] h m = absurd (cc)
all_in_at test s n (x ∷ l) h m = ground (arith, eq_iff n x, all_in_at test s n l)

pub any_in_calm :
    (test : Phase → Bool) (s : State) (l : List String)
    → ((n : String) → test (s.phase n) ≡ false)
    → any_in test s l ≡ false
unfolding any_in
any_in_calm test s [] calm = refl
any_in_calm test s (n ∷ l) calm = rw (calm n, any_in_calm test s l calm)
