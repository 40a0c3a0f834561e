-- ===== src/Replay/Bindings/Rewriting.antt =====
-- What `rewrite` of src/agenttrace/replay/bindings.py does to a text: one pass from left to right
-- that replaces the longest binding at each position and keeps every other character.
use Prim.Native.Char.{Char}
use mathlib.Core.List.{Memᴰ}
use mathlib.Core.List.Memᴰ
use atcr_agent_trace_collect.Prelude.Texts.{Text, chars, chars-string_of}
use atcr_agent_trace_collect.Prelude.{
  ℕ, zero, suc, ◌-◌, ◌≤◌, ◌<◌, String, true, false, ◌≡◌, refl, sym, ap, subst, inl, inr, some, List,
  [], ◌∷◌, ◌++◌, length, length-append, All, arith, Option-cases,
}
use atcr_agent_trace_collect.Replay.Bindings.{
  Bindings, Alternatives, alternatives, sort_longest, is_prefix, first_match, scan, rewrite_text,
}
use atcr_agent_trace_collect.Replay.Bindings.Longest.{
  IsLongest, sort-IsDescending, mem_of_sort, All-of_sort, is_prefix-split, first_match-IsLongest,
  first_match-none,
}

-- Every recorded text is non-empty.
abbrev pub NoEmpty : Alternatives → Type 0
NoEmpty = All (λ (e : Text × Text). 0 < length e.0)

-- `u` is `t` with its bindings replaced.
pub data Rewritten (alts : Alternatives) : Text → Text → Type 0 where
  end : {t u : Text} → t ≡ [] → u ≡ [] → Rewritten alts t u
  -- no binding begins here: the character stays
  keep :
      {t u : Text} (c : Char) (t' u' : Text)
      → t ≡ c ∷ t'
      → u ≡ c ∷ u'
      → All (λ (f : Text × Text). is_prefix f.0 t ≡ false) alts
      → Rewritten alts t' u'
      → Rewritten alts t u
  -- a binding begins here, and no longer one does: its text is replaced
  replace :
      {t u : Text} (e : Text × Text) (t' u' : Text)
      → t ≡ e.0 ++ t'
      → u ≡ e.1 ++ u'
      → IsLongest alts t e
      → Rewritten alts t' u'
      → Rewritten alts t u

scan_skip : (alts : Alternatives) (k t : Text) → scan alts (length k) (k ++ t) ≡ scan alts 0 t
unfolding scan
scan_skip alts [] t = refl
scan_skip alts (c ∷ k) t = scan_skip alts k t

-- Past a match of a non-empty text.
scan_past :
    (alts : Alternatives) (c : Char) (t k r : Text)
    → 0 < length k
    → c ∷ t ≡ k ++ r
    → scan alts (length k - 1) t ≡ scan alts 0 r
scan_past alts c t [] r pos e = absurd (omega arith)
scan_past alts c t (a ∷ k) r pos e =
    let same : t ≡ k ++ r = cc in
    let count : suc (length k) - 1 ≡ length k = omega arith in rw (count, same) (scan_skip alts k r)

pub mem_All {ℓ} : {A : Type 0} (P : A → Type ℓ) (x : A) (l : List A) → All P l → Memᴰ x l → P x
mem_All P x (y ∷ l) h (Memᴰ.head e) = subst P (sym e) h.0
mem_All P x (y ∷ l) h (Memᴰ.tail m) = mem_All P x l h.1 m
mem_All P x [] h m = absurd (Memᴰ.not-nil m)

module _ (l : Alternatives) (no_empty : NoEmpty l) where
  IsLongest-of_sort :
      (t : Text) (e : Text × Text) → IsLongest (sort_longest l) t e → IsLongest l t e
  IsLongest-of_sort t e b = record {
    member = mem_of_sort l b.member;
    matches = b.matches;
    longest =
        All-of_sort (λ (f : Text × Text). is_prefix f.0 t ≡ true → length f.0 ≤ length e.0) l
          b.longest;
  }

  replaced :
      (bound : ℕ) (c : Char) (t : Text)
      → suc (length t) ≤ suc bound
      → (e : Text × Text) → first_match (sort_longest l) (c ∷ t) ≡ some e
      → ((r : Text) → length r ≤ bound → Rewritten l r (scan (sort_longest l) 0 r))
      → Rewritten l (c ∷ t) (scan (sort_longest l) 0 (c ∷ t))
  unfolding scan
  replaced bound c t h e found rest =
      let b =
        IsLongest-of_sort (c ∷ t) e
          (first_match-IsLongest (sort_longest l) (c ∷ t) e (sort-IsDescending l) found) in
      let (r, split) = is_prefix-split e.0 (c ∷ t) b.matches in
      let pos : 0 < length e.0 = mem_All _ e l no_empty b.member in
      replace e r (scan (sort_longest l) 0 r) split
        (rw (found, scan) (ap (λ x. e.1 ++ x) (scan_past (sort_longest l) c t e.0 r pos split))) b
        (rest r (omega (arith, pos, ap length split, length-append e.0 r)))

  pub scan-Rewritten :
      (bound : ℕ) (t : Text) → length t ≤ bound → Rewritten l t (scan (sort_longest l) 0 t)
  unfolding scan
  scan-Rewritten bound [] h = end refl refl
  scan-Rewritten zero (c ∷ t) h = absurd (omega arith)
  scan-Rewritten (suc bound) (c ∷ t) h =
      elim (Option-cases (first_match (sort_longest l) (c ∷ t))) [
        | inl none_here ↦
            keep c t (scan (sort_longest l) 0 t) refl (rw (none_here, scan))
              (All-of_sort _ l (first_match-none (sort_longest l) (c ∷ t) none_here))
              (scan-Rewritten bound t (omega arith))
        | inr (e, found) ↦ replaced bound c t h e found (λ r fits. scan-Rewritten bound r fits)
      ]

unchanged : (t : Text) → Rewritten [] t t
unchanged [] = end refl refl
unchanged (c ∷ t) = keep c t t refl refl tt (unchanged t)

-- Over bindings of non-empty texts, rewriting a text is one pass from left to right: the longest
-- binding that begins at a position is replaced, and where none begins the character stays.
pub rewrite_text-Rewritten :
    (b : Bindings) (s : String)
    → NoEmpty (alternatives b)
    → Rewritten (alternatives b) (chars s) (chars (rewrite_text b s))
unfolding rewrite_text
rewrite_text-Rewritten [] s h = unchanged (chars s)
rewrite_text-Rewritten ((k, v) ∷ b) s h =
    rw chars-string_of
      (scan-Rewritten (alternatives ((k, v) ∷ b)) h (length (chars s)) (chars s) (omega arith))
