-- ===== src/Replay/Bindings/Taught.antt =====
-- What two results teach, and what it is to learn it, for `learn_from_results` of
-- src/agenttrace/replay/bindings.py.
use atcr_agent_trace_collect.Prelude.{
  ℕ, String, str_eq, true, false, not, ◌&&◌, Option, none, some, [], ◌∷◌, ◌≡◌, ◌≢◌, refl, ◌∙◌, ◌⊎◌,
  inl, inr, if◌then◌else◌, get_elem?, arith, eq_iff, Bool-cases,
}
use atcr_agent_trace_collect.Json.{Value, Items, Fields, str, list, dict, lookup, elements}
use atcr_agent_trace_collect.Replay.Bindings.{Bindings, assign, add}
use atcr_agent_trace_collect.Replay.Bindings.Learning.{is_dynamic}

-- The replayed text that the dictionary has for a recorded one.
unfoldable pub find : String → Bindings → Option String
find r [] = none
find r ((k, v) ∷ rest) = if str_eq r k then some v else find r rest

find-assign :
    (other r p : String) (b : Bindings)
    → find other (assign r p b) ≡ (if str_eq other r then some p else find other b)
unfolding find assign
find-assign other r p [] = refl
find-assign other r p ((k, v) ∷ rest) =
    ground (arith, eq_iff r k, eq_iff other k, eq_iff other r, find-assign other r p rest)

-- Two texts under a key that is dynamic, neither empty, and not the same.
abbrev pub IsLesson : String → String → String → Type 0
IsLesson key r p = (is_dynamic key ≡ true) × (r ≢ "") × (p ≢ "") × (r ≢ p)

-- At the same place of the recorded and the replayed value, by the positions of lists and the keys of
-- dictionaries, stands a lesson. A text in a list stands under the key of the list.
pub data Teaches : Value → Value → String → String → String → Type 0 where
  by_text :
      {v w : Value} {key r p : String}
      → v ≡ str r
      → w ≡ str p
      → IsLesson key r p
      → Teaches v w key r p
  by_item :
      {v w : Value} {key r p : String} (xs ys : Items) (i : ℕ) (x y : Value)
      → v ≡ list xs
      → w ≡ list ys
      → get_elem? (elements xs) i ≡ some x
      → get_elem? (elements ys) i ≡ some y
      → Teaches x y key r p
      → Teaches v w key r p
  by_field :
      {v w : Value} {key r p : String} (f g : Fields) (k : String) (x y : Value)
      → v ≡ dict f
      → w ≡ dict g
      → lookup k f ≡ some x
      → lookup k g ≡ some y
      → Teaches x y k r p
      → Teaches v w key r p

-- A text that is taught is found with one that it is taught with, and any other as before.
abbrev pub HasLearned : (String → String → Type 0) → Bindings → Bindings → Type 0
HasLearned T b after =
    (r : String)
    → ((find r after ≡ find r b) × ((p : String) → ¬ T r p))
      ⊎ ((p : String) × T r p × (find r after ≡ some p))

pub HasLearned-none :
    (T : String → String → Type 0) (b : Bindings) → ((r p : String) → ¬ T r p) → HasLearned T b b
HasLearned-none T b never r = inl (refl, never r)

pub HasLearned-same :
    (T U : String → String → Type 0) (b after : Bindings)
    → ((r p : String) → T r p → U r p)
    → ((r p : String) → U r p → T r p)
    → HasLearned T b after
    → HasLearned U b after
HasLearned-same T U b after to from h r = elim (h r) [
  | inl (same, never) ↦ inl (same, λ p u. never p (from r p u))
  | inr (p, taught, found) ↦ inr (p, to r p taught, found)
]

pub HasLearned-both :
    (T U : String → String → Type 0) (b middle after : Bindings)
    → HasLearned T b middle
    → HasLearned U middle after
    → HasLearned (λ r p. T r p ⊎ U r p) b after
HasLearned-both T U b middle after h k r = elim (k r) [
  | inr (p, taught, found) ↦ inr (p, inr taught, found)
  | inl (same, never) ↦ elim (h r) [
    | inr (p, taught, found) ↦ inr (p, inl taught, same ∙ found)
    | inl (before, never_before) ↦ inl (
      same ∙ before,
      λ p. (λ (t : T r p ⊎ U r p). elim t [ inl t1 ↦ never_before p t1 | inr t2 ↦ never p t2 ]),
    )
  ]
]

abbrev pub TextLesson : String → String → String → String → String → Type 0
TextLesson s t key r p = (s ≡ r) × (t ≡ p) × IsLesson key r p

pub add-HasLearned :
    (s t key : String) (b : Bindings)
    → is_dynamic key ≡ true
    → HasLearned (TextLesson s t key) b (add s t b)
unfolding add
add-HasLearned s t key b dynamic r =
    elim (Bool-cases (not (str_eq s "") && not (str_eq t "") && not (str_eq s t))) [
      | inr refused ↦ rw refused (inl (refl, never refused))
      | inl taken ↦ rw taken (elim (Bool-cases (str_eq r s)) [
        | inl here ↦
            let same : s ≡ r = ground (arith, eq_iff r s, here) in
            inr (
              t,
              (
                same,
                refl,
                (
                  dynamic,
                  (ground (arith, same, taken, eq_iff s "")),
                  (ground (arith, taken, eq_iff t "")),
                  (ground (arith, same, taken, eq_iff s t)),
                ),
              ),
              find-assign r s t b ∙ rw here refl,
            )
        | inr other ↦ inl (
          find-assign r s t b ∙ rw other refl,
          λ p (same, _, _). ground (arith, eq_iff r s, other, same),
        )
      ])
    ]
  where
    never :
        (not (str_eq s "") && not (str_eq t "") && not (str_eq s t)) ≡ false
        → (p : String) → ¬ TextLesson s t key r p
    never refused p (same, same', (_, h1, h2, h3)) =
        ground (arith, refused, same, same', h1, h2, h3, eq_iff s "", eq_iff t "", eq_iff s t)
