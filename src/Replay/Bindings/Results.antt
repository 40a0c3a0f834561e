-- ===== src/Replay/Bindings/Results.antt =====
-- `learn_from_results` of src/agenttrace/replay/bindings.py learns what two results teach.
use atcr_agent_trace_collect.Prelude.{
  String, str_eq, true, false, none, some, List, [], ◌∷◌, ◌≡◌, refl, sym, ap, ◌∙◌, subst, ◌⊎◌, inl,
  inr, arith, eq_iff, Bool-cases, Option-cases,
}
use atcr_agent_trace_collect.Prelude.Names.{contains}
use atcr_agent_trace_collect.Json.{
  Value, Items, Fields, str, list, dict, nil, cons, end, entry, lookup,
}
use atcr_agent_trace_collect.Replay.Bindings.{Bindings}
use atcr_agent_trace_collect.Replay.Bindings.Learning.{
  is_dynamic, Lessons, shared_keys, apply_lesson, apply_lessons, learn_from_results,
  learn_from_results-IsUsable, learn_items, lessons_of, add_lesson,
}
use atcr_agent_trace_collect.Replay.Bindings.Taught.{
  Teaches, HasLearned, HasLearned-none, HasLearned-same, HasLearned-both, TextLesson,
  add-HasLearned, by_text, by_item, by_field,
}
use atcr_agent_trace_collect.Replay.Bindings.Places.{
  ItemLesson, FieldLesson, Teaches-text, Teaches-items, Teaches-fields, Teaches-none,
  ItemLesson-cons, ItemLesson-either, FieldLesson-here, FieldLesson-later, FieldLesson-first,
  FieldLesson-rest, FieldLesson-absent,
}
use atcr_agent_trace_collect.Replay.Bindings.Learned.{IsUsable}

-- One after the other, what the keys teach is learnt.
apply_lessons-HasLearned :
    (T : String → String → String → Type 0) (lessons : Lessons) (order : List String) (b : Bindings)
    → ((k : String) (c : Bindings) → HasLearned (T k) c (apply_lesson k lessons c))
    → HasLearned
        (λ r p. (k : String) × (contains k order ≡ true) × T k r p)
        b
        (apply_lessons order lessons b)
unfolding apply_lessons contains
apply_lessons-HasLearned T lessons [] b each =
    HasLearned-none _ b (λ r p (k, here, _). absurd (cc (here)))
apply_lessons-HasLearned T lessons (key ∷ rest) b each =
    HasLearned-same _ _ b (apply_lessons rest lessons (apply_lesson key lessons b)) to from (
      HasLearned-both _ _ b (apply_lesson key lessons b) _ (each key b)
        (apply_lessons-HasLearned T lessons rest (apply_lesson key lessons b) each))
  where
    to :
        (r p : String)
        → (T key r p ⊎ ((k : String) × (contains k rest ≡ true) × T k r p))
        → (k : String) × (contains k (key ∷ rest) ≡ true) × T k r p
    to r p (inl t) = (key, ground (arith, eq_iff key key), t)
    to r p (inr (k, there, t)) = (k, ground (arith, there), t)

    from :
        (r p : String)
        → ((k : String) × (contains k (key ∷ rest) ≡ true) × T k r p)
        → T key r p ⊎ ((k : String) × (contains k rest ≡ true) × T k r p)
    from r p (k, there, t) = elim (Bool-cases (str_eq k key)) [
      | inl here ↦ inl (subst (λ j. T j r p) ((eq_iff k key).0 here) t)
      | inr other ↦ inr (k, ground (arith, other, there), t)
    ]

entry-HasLearned :
    (key k : String) (v : Value) (rest g : Fields) (b : Bindings) (lessons : Lessons)
    (learn : Value → Bindings → Bindings)
    → ((w : Value) → HasLearned (Teaches v w k) b (learn w b))
    → HasLearned (FieldLesson rest g key) b (apply_lesson key lessons b)
    → HasLearned
        (FieldLesson (entry k v rest) g key)
        b
        (apply_lesson key (add_lesson k (lookup k g) learn lessons) b)
unfolding apply_lesson
entry-HasLearned key k v rest g b lessons learn here later = elim (Bool-cases (str_eq key k)) [
  | inr other ↦ elim (Option-cases (lookup k g)) [
    | inl absent ↦ rw absent (beyond other)
    | inr (w, there) ↦ rw (there, other) (beyond other)
  ]
  | inl is ↦ elim (Option-cases (lookup k g)) [
    | inl absent ↦
        let not_there : lookup key g ≡ none = ap (λ j. lookup j g) ((eq_iff key k).0 is) ∙ absent in
        rw absent (
          HasLearned-same (FieldLesson rest g key) (FieldLesson (entry k v rest) g key) b _
            (λ r p t. absurd (FieldLesson-absent rest g key r p not_there t))
            (λ r p t. absurd (FieldLesson-absent (entry k v rest) g key r p not_there t)) later)
    | inr (w, there) ↦
        rw (there, is)
          (subst (λ j. HasLearned (FieldLesson (entry k v rest) g j) b (learn w b))
            (sym ((eq_iff key k).0 is))
            (HasLearned-same (Teaches v w k) (FieldLesson (entry k v rest) g k) b _
              (λ r p. FieldLesson-here k v w rest g r p there)
              (λ r p. FieldLesson-first k v w rest g r p there) (here w)))
  ]
]
  where
    beyond :
        str_eq key k ≡ false
        → HasLearned (FieldLesson (entry k v rest) g key) b (apply_lesson key lessons b)
    beyond other =
        HasLearned-same (FieldLesson rest g key) (FieldLesson (entry k v rest) g key) b _
          (λ r p. FieldLesson-later key k v rest g r p other)
          (λ r p. FieldLesson-rest key k v rest g r p other) later

module _ (arrange : List String → List String) where
  contains-shared_keys :
      (f g : Fields) (k : String) (x y : Value)
      → lookup k f ≡ some x
      → lookup k g ≡ some y
      → contains k (shared_keys (lessons_of arrange f g)) ≡ true
  unfolding learn_from_results lookup contains
  contains-shared_keys end g k x y h at = absurd (cc h)
  contains-shared_keys (entry j v rest) g k x y h at = elim (Bool-cases (str_eq k j)) [
    | inl here ↦
        let there : lookup j g ≡ some y = ap (λ i. lookup i g) (sym ((eq_iff k j).0 here)) ∙ at in
        rw (there, here) refl
    | inr other ↦
        let later = contains-shared_keys rest g k x y (rw other at h) at in
        elim (Option-cases (lookup j g)) [
          | inl absent ↦ rw absent later
          | inr (w, there) ↦ rw (there, other) later
        ]
  ]

  end-HasLearned :
      (g : Fields) (key : String) (b : Bindings) → HasLearned (FieldLesson end g key) b b
  unfolding lookup
  end-HasLearned g key b = HasLearned-none _ b (λ r p (x, y, at, _, _). absurd (cc (at)))

  text-HasLearned :
      (s t key : String) (b : Bindings)
      → HasLearned
          (Teaches (str s) (str t) key)
          b
          (learn_from_results arrange (str s) (str t) key b)
  unfolding learn_from_results
  text-HasLearned s t key b = elim (Bool-cases (is_dynamic key)) [
    | inl dynamic ↦ rw dynamic (
        HasLearned-same (TextLesson s t key) (Teaches (str s) (str t) key) b _
          (λ r p (e, f, l). by_text (ap str e) (ap str f) l) (λ r p. Teaches-text s t key r p)
          (add-HasLearned s t key b dynamic))
    | inr other ↦ rw other (
        HasLearned-none (Teaches (str s) (str t) key) b
          (λ r p l. never other r p (Teaches-text s t key r p l)))
  ]
    where
      never : is_dynamic key ≡ false → (r p : String) → ¬ TextLesson s t key r p
      never other r p (_, _, (dynamic, _, _, _)) = absurd (cc (sym dynamic ∙ other))

  module _ (keeps : (k : String) (l : List String) → contains k (arrange l) ≡ contains k l) where
    shared :
        (f g : Fields) (r p : String)
        → ((k : String) × FieldLesson f g k r p)
        → (k : String) × (contains k (arrange (shared_keys (lessons_of arrange f g))) ≡ true)
          × FieldLesson f g k r p
    shared f g r p (k, (x, y, at, at', t)) = (
      k,
      keeps k (shared_keys (lessons_of arrange f g)) ∙ contains-shared_keys f g k x y at at',
      (x, y, at, at', t),
    )

    mutual
      unfolding learn_from_results

      learn-HasLearned :
          (v w : Value) (key : String) (b : Bindings)
          → HasLearned (Teaches v w key) b (learn_from_results arrange v w key b)
      learn-HasLearned (dict f) (dict g) key b =
          HasLearned-same _ (Teaches (dict f) (dict g) key) b _
            (λ r p (k, _, (x, y, at, at', t)). by_field f g k x y refl refl at at' t)
            (λ r p t. shared f g r p (Teaches-fields f g key r p t))
            (apply_lessons-HasLearned (FieldLesson f g) (lessons_of arrange f g)
              (arrange (shared_keys (lessons_of arrange f g))) b (λ k c. field-HasLearned f g k c))
      learn-HasLearned (list xs) (list ys) key b =
          HasLearned-same (ItemLesson xs ys key) (Teaches (list xs) (list ys) key) b _
            (λ r p (i, x, y, at, at', t). by_item xs ys i x y refl refl at at' t)
            (λ r p. Teaches-items xs ys key r p) (items-HasLearned xs ys key b)
      learn-HasLearned (str s) (str t) key b = text-HasLearned s t key b
      learn-HasLearned v w key b =
          HasLearned-none (Teaches v w key) b
            (Teaches-none v w key (λ r p e f. cc) (λ xs ys e f. cc) (λ f g e e'. cc))

      items-HasLearned :
          (xs ys : Items) (key : String) (b : Bindings)
          → HasLearned (ItemLesson xs ys key) b (learn_items arrange xs ys key b)
      items-HasLearned nil ys key b =
          HasLearned-none _ b (λ r p (i, x, y, at, _, _). absurd (cc (at)))
      items-HasLearned (cons x xs) nil key b =
          HasLearned-none _ b (λ r p (i, x', y, _, at, _). absurd (cc (at)))
      items-HasLearned (cons x xs) (cons y ys) key b =
          HasLearned-same _ (ItemLesson (cons x xs) (cons y ys) key) b _
            (λ r p. ItemLesson-either x y xs ys key r p) (λ r p. ItemLesson-cons x y xs ys key r p)
            (HasLearned-both (Teaches x y key) (ItemLesson xs ys key) b
              (learn_from_results arrange x y key b) _ (learn-HasLearned x y key b)
              (items-HasLearned xs ys key (learn_from_results arrange x y key b)))

      field-HasLearned :
          (f g : Fields) (key : String) (b : Bindings)
          → HasLearned (FieldLesson f g key) b (apply_lesson key (lessons_of arrange f g) b)
      field-HasLearned end g key b = end-HasLearned g key b
      field-HasLearned (entry k v rest) g key b =
          entry-HasLearned key k v rest g b (lessons_of arrange rest g)
            (λ w. learn_from_results arrange v w k) (λ w. learn-HasLearned v w k b)
            (field-HasLearned rest g key b)

    -- From a dictionary that keeps each recorded text once and none empty, learning from two results
    -- leads to another such. A text is taught with another one where the two stand at the same place of
    -- the recorded and the replayed result, by the positions of lists and the keys of dictionaries,
    -- under a dynamic key, neither empty, and not the same. Each text that is taught is then found with
    -- one that it is taught with, and each other text with what it was found with before. The order in
    -- which the shared keys are visited only has to have the same keys.
    pub learn_from_results-learns :
        (recorded replayed : Value) (key : String) (b : Bindings)
        → IsUsable b
        → IsUsable (learn_from_results arrange recorded replayed key b)
          × HasLearned
              (Teaches recorded replayed key)
              b
              (learn_from_results arrange recorded replayed key b)
    learn_from_results-learns recorded replayed key b u = (
      learn_from_results-IsUsable arrange recorded replayed key b u,
      learn-HasLearned recorded replayed key b,
    )
