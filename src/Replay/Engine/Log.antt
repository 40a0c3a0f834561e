-- ===== src/Replay/Engine/Log.antt =====
-- Questions about the event log of src/agenttrace/replay/engine.py.
use atcr_agent_trace_collect.Prelude.{
  String, str_eq, Bool, false, ◌||◌, ◌≡◌, ◌≢◌, refl, List, [], ◌∷◌, ◌++◌, arith,
}
use atcr_agent_trace_collect.Replay.Engine.{Event, node_started, node_completed}

abbrev pub is_start_of : String → Event → Bool
is_start_of n (node_started m) = str_eq n m
is_start_of n _ = false

abbrev pub is_completion_of : String → Event → Bool
is_completion_of n (node_completed m) = str_eq n m
is_completion_of n _ = false

unfoldable pub any_event : (Event → Bool) → List Event → Bool
any_event test [] = false
any_event test (e ∷ rest) = test e || any_event test rest

-- `node_started`, `node_completed` of the node is in the log.
abbrev pub logs_start : String → List Event → Bool
logs_start n = any_event (is_start_of n)

abbrev pub logs_completion : String → List Event → Bool
logs_completion n = any_event (is_completion_of n)

pub any_event-snoc :
    (test : Event → Bool) (l : List Event) (e : Event)
    → any_event test (l ++ e ∷ []) ≡ (any_event test l || test e)
unfolding any_event
any_event-snoc test [] e = ground arith
any_event-snoc test (x ∷ l) e = ground (arith, any_event-snoc test l e)

-- An event of a log with one more event is the last, or stands in the log.
pub data InSnoc (l : List Event) (e : Event) (before : List Event) (x : Event) (after : List Event)
    : Type 0 where
  last : before ≡ l → x ≡ e → after ≡ [] → InSnoc l e before x after
  earlier : (rest : List Event) → l ≡ before ++ x ∷ rest → InSnoc l e before x after

pub in_snoc :
    (l : List Event) (e : Event) (before : List Event) (x : Event) (after : List Event)
    → l ++ e ∷ [] ≡ before ++ x ∷ after
    → InSnoc l e before x after
in_snoc [] e [] x after h = last refl (cc) (cc)
in_snoc [] e (b ∷ before) x after h = absurd (snoc≢nil before x after (cc))
  where
    snoc≢nil : (b : List Event) (x : Event) (a : List Event) → [] ≢ b ++ x ∷ a
    snoc≢nil [] x a h = cc
    snoc≢nil (c ∷ b) x a h = cc
in_snoc (y ∷ l) e [] x after h = earlier l (cc)
in_snoc (y ∷ l) e (b ∷ before) x after h = elim (in_snoc l e before x after (cc)) [
  | last p q r ↦ last (cc) q r
  | earlier rest p ↦ earlier rest (cc)
]
