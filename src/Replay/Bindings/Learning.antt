-- ===== src/Replay/Bindings/Learning.antt =====
-- `learn_from_results` of src/agenttrace/replay/bindings.py. The keys that two dictionaries share are
-- a set, which Python visits in an order that it does not state: `arrange` is that order.
use atcr_agent_trace_collect.Prelude.{
  String, str_eq, Bool, ◌||◌, Option, none, some, List, [], ◌∷◌, if◌then◌else◌, All, Bool-cases,
  inl, inr,
}
use atcr_agent_trace_collect.Json.{
  Value, Items, Fields, str, list, dict, nil, cons, end, entry, lookup,
}
use atcr_agent_trace_collect.Replay.Bindings.{Bindings, add}
use atcr_agent_trace_collect.Replay.Bindings.Learned.{IsUsable, add-IsUsable}

-- `dynamic_keys`
abbrev pub is_dynamic : String → Bool
is_dynamic key =
    str_eq key "fullOutputPath"
    || str_eq key "sessionId"
    || str_eq key "resourceId"
    || str_eq key "processId"

-- What one child of a dictionary teaches, by its key.
abbrev pub Lessons : Type 0
Lessons = List (String × (Bindings → Bindings))

abbrev pub shared_keys : Lessons → List String
shared_keys [] = []
shared_keys ((k, _) ∷ rest) = k ∷ shared_keys rest

unfoldable pub apply_lesson : String → Lessons → Bindings → Bindings
apply_lesson key [] b = b
apply_lesson key ((k, lesson) ∷ rest) b = if str_eq key k then lesson b else apply_lesson key rest b

-- `for child_key in ...: self.learn_from_results(...)`
unfoldable pub apply_lessons : List String → Lessons → Bindings → Bindings
unfolding apply_lesson
apply_lessons [] lessons b = b
apply_lessons (key ∷ rest) lessons b = apply_lessons rest lessons (apply_lesson key lessons b)

-- A key of both dictionaries has a lesson.
abbrev pub add_lesson : String → Option Value → (Value → Bindings → Bindings) → Lessons → Lessons
add_lesson key none learn rest = rest
add_lesson key (some replayed) learn rest = (key, learn replayed) ∷ rest

module _ (arrange : List String → List String) where
  unfoldable mutual
    unfolding apply_lessons

    pub learn_from_results : Value → Value → String → Bindings → Bindings
    learn_from_results (dict recorded) (dict replayed) key b =
        let lessons = lessons_of recorded replayed in
        apply_lessons (arrange (shared_keys lessons)) lessons b
    learn_from_results (list recorded) (list replayed) key b = learn_items recorded replayed key b
    learn_from_results (str recorded) (str replayed) key b =
        if is_dynamic key then add recorded replayed b else b
    learn_from_results _ _ key b = b

    -- `for left, right in zip(recorded, replayed)`
    pub learn_items : Items → Items → String → Bindings → Bindings
    learn_items nil ys key b = b
    learn_items (cons x xs) nil key b = b
    learn_items (cons x xs) (cons y ys) key b = learn_items xs ys key (learn_from_results x y key b)

    -- The children under the keys of both.
    pub lessons_of : Fields → Fields → Lessons
    lessons_of end replayed = []
    lessons_of (entry k v rest) replayed =
        add_lesson k (lookup k replayed) (λ w. learn_from_results v w k) (lessons_of rest replayed)

-- Every lesson keeps the dictionary usable.
abbrev AreSafe : Lessons → Type 0
AreSafe =
    All (λ (l : String × (Bindings → Bindings)). (b : Bindings) → IsUsable b → IsUsable (l.1 b))

apply_lesson-IsUsable :
    (key : String) (lessons : Lessons) (b : Bindings)
    → AreSafe lessons
    → IsUsable b
    → IsUsable (apply_lesson key lessons b)
unfolding apply_lesson
apply_lesson-IsUsable key [] b safe u = u
apply_lesson-IsUsable key ((k, lesson) ∷ rest) b safe u = elim (Bool-cases (str_eq key k)) [
  | inl same ↦ rw same (safe.0 b u)
  | inr other ↦ rw other (apply_lesson-IsUsable key rest b safe.1 u)
]

apply_lessons-IsUsable :
    (order : List String) (lessons : Lessons) (b : Bindings)
    → AreSafe lessons
    → IsUsable b
    → IsUsable (apply_lessons order lessons b)
unfolding apply_lessons
apply_lessons-IsUsable [] lessons b safe u = u
apply_lessons-IsUsable (key ∷ rest) lessons b safe u =
    apply_lessons-IsUsable rest lessons (apply_lesson key lessons b) safe
      (apply_lesson-IsUsable key lessons b safe u)

add_lesson-AreSafe :
    (key : String) (o : Option Value) (learn : Value → Bindings → Bindings) (rest : Lessons)
    → ((w : Value) (b : Bindings) → IsUsable b → IsUsable (learn w b))
    → AreSafe rest
    → AreSafe (add_lesson key o learn rest)
add_lesson-AreSafe key none learn rest h safe = safe
add_lesson-AreSafe key (some w) learn rest h safe = (h w, safe)

module _ (arrange : List String → List String) where
  mutual
    unfolding learn_from_results

    learn-IsUsable :
        (recorded replayed : Value) (key : String) (b : Bindings)
        → IsUsable b
        → IsUsable (learn_from_results arrange recorded replayed key b)
    learn-IsUsable (dict f) (dict g) key b u =
        apply_lessons-IsUsable (arrange (shared_keys (lessons_of arrange f g)))
          (lessons_of arrange f g) b (lessons-AreSafe f g) u
    learn-IsUsable (list xs) (list ys) key b u = learn_items-IsUsable xs ys key b u
    learn-IsUsable (str r) (str p) key b u = elim (Bool-cases (is_dynamic key)) [
      | inl now ↦ rw now (add-IsUsable r p b u)
      | inr other ↦ rw other u
    ]
    learn-IsUsable _ _ key b u = u

    learn_items-IsUsable :
        (xs ys : Items) (key : String) (b : Bindings)
        → IsUsable b
        → IsUsable (learn_items arrange xs ys key b)
    learn_items-IsUsable nil ys key b u = u
    learn_items-IsUsable (cons x xs) nil key b u = u
    learn_items-IsUsable (cons x xs) (cons y ys) key b u =
        learn_items-IsUsable xs ys key (learn_from_results arrange x y key b)
          (learn-IsUsable x y key b u)

    lessons-AreSafe : (f g : Fields) → AreSafe (lessons_of arrange f g)
    lessons-AreSafe end g = tt
    lessons-AreSafe (entry k v rest) g =
        add_lesson-AreSafe k (lookup k g) (λ w. learn_from_results arrange v w k)
          (lessons_of arrange rest g) (λ w b u. learn-IsUsable v w k b u) (lessons-AreSafe rest g)

  pub learn_from_results-IsUsable :
      (recorded replayed : Value) (key : String) (b : Bindings)
      → IsUsable b
      → IsUsable (learn_from_results arrange recorded replayed key b)
  learn_from_results-IsUsable = learn-IsUsable
