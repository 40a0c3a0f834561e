-- ===== src/Replay/Bindings/Longest.antt =====
-- The pattern of src/agenttrace/replay/bindings.py matches the longest binding at a position: its
-- alternatives stand from the longest to the shortest.
use mathlib.Core.List.{Memᴰ}
use mathlib.Core.List.Memᴰ
use text.Mathlib.TextEquality.{Char-path}
use atcr_agent_trace_collect.Prelude.Texts.{Text}
use atcr_agent_trace_collect.Prelude.{
  ◌≤◌, leb, leb→le, true, false, ◌≡◌, refl, sym, ap₂, subst, inl, inr, none, some, [], ◌∷◌, ◌++◌,
  length, All, All-map, arith, Bool-cases,
}
use atcr_agent_trace_collect.Replay.Bindings.{
  Alternatives, insert_longest, sort_longest, is_prefix, first_match,
}

-- No later alternative is longer.
abbrev pub IsDescending : Alternatives → Type 0
IsDescending [] = Unit
IsDescending (e ∷ rest) =
    All (λ (f : Text × Text). length f.0 ≤ length e.0) rest × IsDescending rest

All-insert :
    (P : Text × Text → Type 0) (e : Text × Text) (l : Alternatives)
    → P e
    → All P l
    → All P (insert_longest e l)
unfolding insert_longest
All-insert P e [] p h = (p, tt)
All-insert P e (f ∷ l) p h = elim (Bool-cases (leb (length f.0) (length e.0))) [
  | inl longer ↦ rw longer (p, h)
  | inr shorter ↦ rw shorter (h.0, All-insert P e l p h.1)
]

insert-IsDescending :
    (e : Text × Text) (l : Alternatives) → IsDescending l → IsDescending (insert_longest e l)
unfolding insert_longest
insert-IsDescending e [] h = (tt, tt)
insert-IsDescending e (f ∷ l) h = elim (Bool-cases (leb (length f.0) (length e.0))) [
  | inl longer ↦
      let le = leb→le (length f.0) (length e.0) longer in
      rw longer (
        (
          le,
          All-map (λ (x : Text × Text). length x.0 ≤ length f.0)
              (λ (x : Text × Text). length x.0 ≤ length e.0) l (λ x m. omega (arith, m, le)) h.0,
        ),
        h,
      )
  | inr shorter ↦
      let lt : length e.0 ≤ length f.0 = ground (arith, shorter) in
      rw shorter (
        All-insert (λ (x : Text × Text). length x.0 ≤ length f.0) e l lt h.0,
        insert-IsDescending e l h.1,
      )
]

pub sort-IsDescending : (l : Alternatives) → IsDescending (sort_longest l)
unfolding sort_longest
sort-IsDescending [] = tt
sort-IsDescending (e ∷ l) = insert-IsDescending e (sort_longest l) (sort-IsDescending l)

-- Sorting changes no member.
mem_of_insert :
    {x : Text × Text} (e : Text × Text) (l : Alternatives)
    → Memᴰ x (insert_longest e l)
    → Memᴰ x (e ∷ l)
unfolding insert_longest
mem_of_insert e [] m = m
mem_of_insert e (f ∷ l) m = elim (Bool-cases (leb (length f.0) (length e.0))) [
  | inl longer ↦ rw longer at m
  | inr shorter ↦ elim (Memᴰ.cases_cons (rw shorter at m)) [
    | inl now ↦ Memᴰ.tail (Memᴰ.head now)
    | inr later ↦ elim (Memᴰ.cases_cons (mem_of_insert e l later)) [
      | inl now ↦ Memᴰ.head now
      | inr behind ↦ Memᴰ.tail (Memᴰ.tail behind)
    ]
  ]
]

pub mem_of_sort : {x : Text × Text} (l : Alternatives) → Memᴰ x (sort_longest l) → Memᴰ x l
unfolding sort_longest
mem_of_sort [] m = m
mem_of_sort (e ∷ l) m = elim (Memᴰ.cases_cons (mem_of_insert e (sort_longest l) m)) [
  | inl now ↦ Memᴰ.head now
  | inr later ↦ Memᴰ.tail (mem_of_sort l later)
]

All-of_insert :
    (P : Text × Text → Type 0) (e : Text × Text) (l : Alternatives)
    → All P (insert_longest e l)
    → P e × All P l
unfolding insert_longest
All-of_insert P e [] h = (h.0, tt)
All-of_insert P e (f ∷ l) h = elim (Bool-cases (leb (length f.0) (length e.0))) [
  | inl longer ↦ rw longer at h
  | inr shorter ↦
      let g : P f × All P (insert_longest e l) = rw shorter at h in
      let (p, rest) = All-of_insert P e l g.1 in (p, (g.0, rest))
]

pub All-of_sort : (P : Text × Text → Type 0) (l : Alternatives) → All P (sort_longest l) → All P l
unfolding sort_longest
All-of_sort P [] h = tt
All-of_sort P (e ∷ l) h =
    let (p, rest) = All-of_insert P e (sort_longest l) h in (p, All-of_sort P l rest)

pub is_prefix-split : (k t : Text) → is_prefix k t ≡ true → (r : Text) × (t ≡ k ++ r)
is_prefix-split [] t h = (t, refl)
is_prefix-split (a ∷ k) [] h = absurd (cc)
is_prefix-split (a ∷ k) (c ∷ t) h =
    let (r, e) = is_prefix-split k t (ground arith) in
    (r, ap₂ (λ x y. x ∷ y) (sym (Char-path a c (ground arith))) e)

pub is_prefix-append : (k r : Text) → is_prefix k (k ++ r) ≡ true
is_prefix-append [] r = refl
is_prefix-append (a ∷ k) r = rw (is_prefix-append k r) (ground arith)

-- What the first match is: a member that matches, and no member that matches is longer.
pub record IsLongest (alts : Alternatives) (t : Text) (e : Text × Text) : Type 0 where
  pub member : Memᴰ e alts
  pub matches : is_prefix e.0 t ≡ true
  pub longest : All (λ (f : Text × Text). is_prefix f.0 t ≡ true → length f.0 ≤ length e.0) alts

pub first_match-IsLongest :
    (alts : Alternatives) (t : Text) (e : Text × Text)
    → IsDescending alts
    → first_match alts t ≡ some e
    → IsLongest alts t e
unfolding first_match
first_match-IsLongest [] t e d h = absurd (cc)
first_match-IsLongest ((k, v) ∷ rest) t e d h = elim (Bool-cases (is_prefix k t)) [
  | inl matches ↦ subst (IsLongest ((k, v) ∷ rest) t) (first matches) (record {
    member = Memᴰ.head refl;
    matches = matches;
    longest = (λ _. omega arith, All-map _ _ rest (λ f m _. m) d.0);
  })
  | inr fails ↦
      let b = first_match-IsLongest rest t e d.1 (rw fails at h) in
      record {
        member = Memᴰ.tail b.member;
        matches = b.matches;
        longest = (λ m. absurd (cc (m, fails)), b.longest);
      }
]
  where
    first : is_prefix k t ≡ true → (k, v) ≡ e
    first m = cc (rw m at h)

pub first_match-none :
    (alts : Alternatives) (t : Text)
    → first_match alts t ≡ none
    → All (λ (f : Text × Text). is_prefix f.0 t ≡ false) alts
unfolding first_match
first_match-none [] t h = tt
first_match-none ((k, v) ∷ rest) t h = elim (Bool-cases (is_prefix k t)) [
  | inl m ↦ absurd (cc (rw m at h))
  | inr fails ↦ (fails, first_match-none rest t (rw fails at h))
]
