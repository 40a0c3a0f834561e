-- ===== src/Replay/Bindings/Learned.antt =====
-- A binding that was learnt is used: src/agenttrace/replay/bindings.py replaces a recorded text by
-- the text that it was last bound to.
use mathlib.Core.List.{Memᴰ, append-nil}
use mathlib.Core.List.Memᴰ
use atcr_agent_trace_collect.Prelude.Texts.{Text, chars, chars_inj}
use atcr_agent_trace_collect.Prelude.{
  ◌≤◌, ◌<◌, String, str_eq, true, false, not, ◌&&◌, ◌||◌, ◌≡◌, ◌≢◌, refl, sym, ap, subst, ◌∙◌, inl,
  inr, List, [], ◌∷◌, ◌++◌, length, length-append, arith, eq_iff, Bool-cases,
}
use atcr_agent_trace_collect.Prelude.Names.{contains, distinct}
use atcr_agent_trace_collect.Replay.Bindings.{
  Bindings, Alternatives, alternatives, is_prefix, assign, add, rewrite_text,
}
use atcr_agent_trace_collect.Replay.Bindings.Rewriting.{
  NoEmpty, Rewritten, end, keep, replace, mem_All, rewrite_text-Rewritten,
}

-- The keys of the dictionary.
abbrev pub keys : Bindings → List String
keys [] = []
keys ((k, _) ∷ b) = k ∷ keys b

chars_pos : (s : String) → s ≢ "" → 0 < length (chars s)
chars_pos String.[] h = absurd (h refl)
chars_pos (String.◌∷◌ c s) h = omega arith

-- The dictionary keeps each key once, and no empty key.
pub record IsUsable (b : Bindings) : Type 0 where
  pub unique : distinct (keys b) ≡ true
  pub no_empty : NoEmpty (alternatives b)

contains-assign :
    (a r p : String) (b : Bindings)
    → contains a (keys (assign r p b)) ≡ (str_eq a r || contains a (keys b))
unfolding contains assign
contains-assign a r p [] = refl
contains-assign a r p ((k, v) ∷ b) =
    ground (arith, contains-assign a r p b, eq_iff r k, eq_iff a r, eq_iff a k)

distinct-assign :
    (r p : String) (b : Bindings) → distinct (keys b) ≡ true → distinct (keys (assign r p b)) ≡ true
unfolding distinct assign
distinct-assign r p [] h = unfold contains in refl
distinct-assign r p ((k, v) ∷ b) h =
    ground (arith, distinct-assign r p b, contains-assign k r p b, eq_iff r k, eq_iff k r)

NoEmpty-assign :
    (r p : String) (b : Bindings)
    → r ≢ ""
    → NoEmpty (alternatives b)
    → NoEmpty (alternatives (assign r p b))
unfolding assign
NoEmpty-assign r p [] pos h = (chars_pos r pos, tt)
NoEmpty-assign r p ((k, v) ∷ b) pos h = elim (Bool-cases (str_eq r k)) [
  | inl same ↦ rw same h
  | inr other ↦ rw other (h.0, NoEmpty-assign r p b pos h.1)
]

-- `add` keeps the dictionary usable, whatever texts it is given.
pub add-IsUsable : (r p : String) (b : Bindings) → IsUsable b → IsUsable (add r p b)
unfolding add
add-IsUsable r p b u =
    elim (Bool-cases (not (str_eq r "") && not (str_eq p "") && not (str_eq r p))) [
      | inr no_change ↦ rw no_change u
      | inl change ↦ rw change (record {
        unique = distinct-assign r p b u.unique;
        no_empty = NoEmpty-assign r p b (λ e. ground (arith, change, eq_iff r "", e)) u.no_empty;
      })
    ]

mem_keys :
    (k : String) (b : Bindings) (e : Text × Text)
    → Memᴰ e (alternatives b)
    → e.0 ≡ chars k
    → contains k (keys b) ≡ true
unfolding contains
mem_keys k [] e m h = absurd (Memᴰ.not-nil m)
mem_keys k ((j, v) ∷ b) e m h = elim (Memᴰ.cases_cons m) [
  | inl now ↦
      let same : k ≡ j = chars_inj k j (sym h ∙ ap (λ (x : Text × Text). x.0) now) in
      ground (arith, eq_iff k j, same)
  | inr later ↦ ground (arith, mem_keys k b e later h)
]

-- The recorded text is bound to the replayed one, and to no other.
value_of_assign :
    (r p : String) (b : Bindings) (e : Text × Text)
    → distinct (keys b) ≡ true
    → Memᴰ e (alternatives (assign r p b))
    → e.0 ≡ chars r
    → e.1 ≡ chars p
unfolding assign distinct
value_of_assign r p [] e u m h = elim (Memᴰ.cases_cons m) [
  | inl now ↦ ap (λ (x : Text × Text). x.1) now
  | inr later ↦ absurd (Memᴰ.not-nil later)
]
value_of_assign r p ((k, v) ∷ b) e u m h = elim (Bool-cases (str_eq r k)) [
  | inl same ↦ elim (Memᴰ.cases_cons (rw (same, alternatives) at m)) [
    | inl now ↦ ap (λ (x : Text × Text). x.1) now
    | inr later ↦
        let twice : contains k (keys b) ≡ true =
          mem_keys k b e later (h ∙ ap chars ((eq_iff r k).0 same)) in
        absurd (ground (arith, u, twice))
  ]
  | inr other ↦ elim (Memᴰ.cases_cons (rw (other, alternatives) at m)) [
    | inl now ↦
        let again : r ≡ k = chars_inj r k (sym h ∙ ap (λ (x : Text × Text). x.0) now) in
        absurd (ground (arith, eq_iff r k, again, other))
    | inr later ↦ value_of_assign r p b e (ground (arith, u)) later h
  ]
]

mem_of_assign :
    (r p : String) (b : Bindings) → Memᴰ (chars r, chars p) (alternatives (assign r p b))
unfolding assign
mem_of_assign r p [] = Memᴰ.head refl
mem_of_assign r p ((k, v) ∷ b) = elim (Bool-cases (str_eq r k)) [
  | inl same ↦ rw (same, (eq_iff r k).0 same) (Memᴰ.head refl)
  | inr other ↦ rw other (Memᴰ.tail (mem_of_assign r p b))
]

is_prefix_self : (t : Text) → is_prefix t t ≡ true
is_prefix_self [] = refl
is_prefix_self (c ∷ t) = rw (is_prefix_self t) (ground arith)

-- A text of no characters.
Rewritten-nil :
    (alts : Alternatives) (t u : Text) → NoEmpty alts → t ≡ [] → Rewritten alts t u → u ≡ []
Rewritten-nil alts t u h e (end _ done) = done
Rewritten-nil alts t u h e (keep c t' u' split _ _ _) = absurd (cc)
Rewritten-nil alts t u h e (replace f t' u' split _ longest _) =
    let pos : 0 < length f.0 = mem_All _ f alts h longest.member in
    absurd (omega (arith, pos, length-append f.0 t', ap length (sym e ∙ split)))

nil_of_length : (t : Text) → length t ≤ 0 → t ≡ []
nil_of_length [] h = refl
nil_of_length (c ∷ t) h = absurd (omega arith)

-- A text that is bound as a whole is replaced as a whole.
Rewritten-whole :
    (r p : String) (b : Bindings) (t u : Text)
    → r ≢ ""
    → IsUsable b
    → t ≡ chars r
    → Rewritten (alternatives (assign r p b)) t u
    → u ≡ chars p
Rewritten-whole r p b t u pos usable whole (end empty _) =
    absurd (omega (arith, chars_pos r pos, ap length (sym whole ∙ empty)))
Rewritten-whole r p b t u pos usable whole (keep c t' u' _ _ none_here _) =
    let no : is_prefix (chars r) t ≡ false =
      mem_All (λ (f : Text × Text). is_prefix f.0 t ≡ false) (chars r, chars p)
        (alternatives (assign r p b)) none_here (mem_of_assign r p b) in
    absurd (cc (no, whole, is_prefix_self (chars r)))
Rewritten-whole r p b t u pos usable whole (replace e t' u' split out longest rest) =
    let fits : length (chars r) ≤ length e.0 =
      mem_All (λ (f : Text × Text). is_prefix f.0 t ≡ true → length f.0 ≤ length e.0)
        (chars r, chars p) (alternatives (assign r p b)) longest.longest (mem_of_assign r p b)
        (subst (λ x. is_prefix (chars r) x ≡ true) (sym whole) (is_prefix_self (chars r))) in
    let nothing_left : t' ≡ [] =
      nil_of_length t' (omega (arith, fits, length-append e.0 t', ap length (sym whole ∙ split))) in
    let key : e.0 ≡ chars r =
      sym (append-nil e.0) ∙ ap (λ x. e.0 ++ x) (sym nothing_left) ∙ sym split ∙ whole in
    let value : e.1 ≡ chars p = value_of_assign r p b e usable.unique longest.member key in
    let done : u' ≡ [] =
      Rewritten-nil (alternatives (assign r p b)) t' u' (NoEmpty-assign r p b pos usable.no_empty)
        nothing_left rest in
    out ∙ ap (λ x. e.1 ++ x) done ∙ append-nil e.1 ∙ value

-- In a dictionary that keeps each key once and no empty key: once a recorded text is bound to another,
-- both not empty, rewriting that text gives exactly the other one, whatever else is bound.
pub rewrite_text-add :
    (r p : String) (b : Bindings)
    → IsUsable b
    → r ≢ ""
    → p ≢ ""
    → r ≢ p
    → rewrite_text (add r p b) r ≡ p
unfolding add
rewrite_text-add r p b usable r_pos p_pos differ = rw (added r p r_pos p_pos differ) (
    chars_inj _ p (
      Rewritten-whole r p b (chars r) _ r_pos usable refl
        (rewrite_text-Rewritten (assign r p b) r (NoEmpty-assign r p b r_pos usable.no_empty))))
  where
    added :
        (r p : String)
        → r ≢ ""
        → p ≢ ""
        → r ≢ p
        → (not (str_eq r "") && not (str_eq p "") && not (str_eq r p)) ≡ true
    added r p a b c = ground (arith, eq_iff r "", eq_iff p "", eq_iff r p)
