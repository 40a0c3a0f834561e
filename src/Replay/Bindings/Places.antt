-- ===== src/Replay/Bindings/Places.antt =====
-- The places of two results at which something is taught, for `learn_from_results` of
-- src/agenttrace/replay/bindings.py.
use atcr_agent_trace_collect.Prelude.{
  ℕ, zero, suc, String, str_eq, false, Option, none, some, ◌≡◌, refl, sym, ap, ◌∙◌, subst, ◌⊎◌, inl,
  inr, get_elem?, arith, eq_iff,
}
use atcr_agent_trace_collect.Json.{
  Value, Items, Fields, str, list, dict, cons, entry, lookup, elements,
}
use atcr_agent_trace_collect.Replay.Bindings.Taught.{
  Teaches, TextLesson, by_text, by_item, by_field,
}

abbrev pub ItemLesson : Items → Items → String → String → String → Type 0
ItemLesson xs ys key r p =
    (i : ℕ) × (x : Value) × (y : Value) × (get_elem? (elements xs) i ≡ some x)
    × (get_elem? (elements ys) i ≡ some y)
    × Teaches x y key r p

abbrev pub FieldLesson : Fields → Fields → String → String → String → Type 0
FieldLesson f g k r p =
    (x : Value) × (y : Value) × (lookup k f ≡ some x) × (lookup k g ≡ some y) × Teaches x y k r p

some-eq : {A : Type 0} {a b : A} → ◌≡◌ {A = Option A} (some a) (some b) → a ≡ b
some-eq h = cc

str-eq : {a b : String} → ◌≡◌ {A = Value} (str a) (str b) → a ≡ b
str-eq h = cc

list-eq : {a b : Items} → ◌≡◌ {A = Value} (list a) (list b) → a ≡ b
list-eq h = cc

dict-eq : {a b : Fields} → ◌≡◌ {A = Value} (dict a) (dict b) → a ≡ b
dict-eq h = cc

pub Teaches-text : (s t key r p : String) → Teaches (str s) (str t) key r p → TextLesson s t key r p
Teaches-text s t key r p (by_text e f l) = (str-eq e, str-eq f, l)
Teaches-text s t key r p (by_item xs ys i x y e f _ _ _) = absurd (cc (e))
Teaches-text s t key r p (by_field f g k x y e _ _ _ _) = absurd (cc (e))

pub Teaches-items :
    (xs ys : Items) (key r p : String)
    → Teaches (list xs) (list ys) key r p
    → ItemLesson xs ys key r p
Teaches-items xs ys key r p (by_text e f l) = absurd (cc (e))
Teaches-items xs ys key r p (by_item xs' ys' i x y e f at at' t) = (
  i,
  x,
  y,
  ap (λ l. get_elem? (elements l) i) (list-eq e) ∙ at,
  ap (λ l. get_elem? (elements l) i) (list-eq f) ∙ at',
  t,
)
Teaches-items xs ys key r p (by_field f g k x y e _ _ _ _) = absurd (cc (e))

pub Teaches-fields :
    (f g : Fields) (key r p : String)
    → Teaches (dict f) (dict g) key r p
    → (k : String) × FieldLesson f g k r p
Teaches-fields f g key r p (by_text e _ l) = absurd (cc (e))
Teaches-fields f g key r p (by_item xs ys i x y e _ _ _ _) = absurd (cc (e))
Teaches-fields f g key r p (by_field f' g' k x y e e' at at' t) =
    (k, (x, y, ap (lookup k) (dict-eq e) ∙ at, ap (lookup k) (dict-eq e') ∙ at', t))

pub Teaches-none :
    (v w : Value) (key : String)
    → ((r p : String) → v ≡ str r → w ≡ str p → ⊥)
    → ((xs ys : Items) → v ≡ list xs → w ≡ list ys → ⊥)
    → ((f g : Fields) → v ≡ dict f → w ≡ dict g → ⊥)
    → (r p : String) → ¬ Teaches v w key r p
Teaches-none v w key a b c r p (by_text e f l) = a r p e f
Teaches-none v w key a b c r p (by_item xs ys i x y e f _ _ _) = b xs ys e f
Teaches-none v w key a b c r p (by_field f g k x y e e' _ _ _) = c f g e e'

pub ItemLesson-cons :
    (x y : Value) (xs ys : Items) (key r p : String)
    → ItemLesson (cons x xs) (cons y ys) key r p
    → Teaches x y key r p ⊎ ItemLesson xs ys key r p
ItemLesson-cons x y xs ys key r p (zero, v, w, at, at', t) = inl (
    subst (λ u. Teaches u y key r p) (sym (some-eq at))
      (subst (λ u. Teaches v u key r p) (sym (some-eq at')) t))
ItemLesson-cons x y xs ys key r p (suc i, v, w, at, at', t) = inr (i, v, w, at, at', t)

pub ItemLesson-either :
    (x y : Value) (xs ys : Items) (key r p : String)
    → (Teaches x y key r p ⊎ ItemLesson xs ys key r p)
    → ItemLesson (cons x xs) (cons y ys) key r p
ItemLesson-either x y xs ys key r p (inl t) = (0, x, y, refl, refl, t)
ItemLesson-either x y xs ys key r p (inr (i, v, w, at, at', t)) = (suc i, v, w, at, at', t)

pub FieldLesson-here :
    (k : String) (v w : Value) (rest g : Fields) (r p : String)
    → lookup k g ≡ some w
    → Teaches v w k r p
    → FieldLesson (entry k v rest) g k r p
unfolding lookup
FieldLesson-here k v w rest g r p at t = (v, w, ground (arith, eq_iff k k), at, t)

pub FieldLesson-later :
    (key k : String) (v : Value) (rest g : Fields) (r p : String)
    → str_eq key k ≡ false
    → FieldLesson rest g key r p
    → FieldLesson (entry k v rest) g key r p
unfolding lookup
FieldLesson-later key k v rest g r p other (x, y, at, at', t) = (x, y, rw other at, at', t)

pub FieldLesson-first :
    (k : String) (v w : Value) (rest g : Fields) (r p : String)
    → lookup k g ≡ some w
    → FieldLesson (entry k v rest) g k r p
    → Teaches v w k r p
unfolding lookup
FieldLesson-first k v w rest g r p there (x, y, at, at', t) =
    let first : v ≡ x = ground (arith, at, eq_iff k k) in
    let second : w ≡ y = some-eq (sym there ∙ at') in
    subst (λ u. Teaches u w k r p) (sym first) (subst (λ u. Teaches x u k r p) (sym second) t)

pub FieldLesson-rest :
    (key k : String) (v : Value) (rest g : Fields) (r p : String)
    → str_eq key k ≡ false
    → FieldLesson (entry k v rest) g key r p
    → FieldLesson rest g key r p
unfolding lookup
FieldLesson-rest key k v rest g r p other (x, y, at, at', t) = (x, y, rw other at at, at', t)

-- A key that the replayed dictionary has not teaches nothing.
pub FieldLesson-absent :
    (f g : Fields) (k r p : String) → lookup k g ≡ none → ¬ FieldLesson f g k r p
FieldLesson-absent f g k r p absent (x, y, at, at', t) = cc
