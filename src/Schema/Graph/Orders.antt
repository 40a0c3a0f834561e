-- ===== src/Schema/Graph/Orders.antt =====
-- What a successful `visit` of src/agenttrace/schema.py leaves behind: `visited` lists nodes with
-- their dependencies behind them, and `visiting` is as before.
use atcr_agent_trace_collect.Prelude.{
  ℕ, zero, suc, String, true, false, ◌≡◌, refl, ◌∙◌, sym, subst, ◌⊎◌, inl, inr, some, List, [], ◌∷◌,
  arith, eq_iff, Result, ok, ◌>>=◌, >>=-eq-ok,
}
use atcr_agent_trace_collect.Prelude.Names.{
  contains, contains-cons, contains-cons_self, contains-remove,
}
use atcr_agent_trace_collect.Schema.Types.{Error, Node}
use atcr_agent_trace_collect.Schema.Graph.{
  depends_on, Search, enter, leave, visit_all, visit_with, visit,
}
use atcr_agent_trace_collect.Schema.Graph.Fuel.{key_of_depends_on}
use atcr_agent_trace_collect.Schema.Graph.Paths.{Edge, Ordered, contains_tail}

pub record Extends (g : List Node) (s s' : Search) : Type 0 where
  pub ordered : Ordered g s'.visited
  pub kept : (a : String) → contains a s.visited ≡ true → contains a s'.visited ≡ true
  pub same : (a : String) → contains a s'.visiting ≡ contains a s.visiting
  pub untouched :
      (a : String) → contains a s.visiting ≡ true → contains a s'.visited ≡ contains a s.visited

Extends-refl : {g : List Node} (s : Search) → Ordered g s.visited → Extends g s s
Extends-refl s o = record {
  ordered = o;
  kept = λ a h. h;
  same = λ a. refl;
  untouched = λ a h. refl;
}

Extends-trans : {g : List Node} {s t u : Search} → Extends g s t → Extends g t u → Extends g s u
Extends-trans x y = record {
  ordered = y.ordered;
  kept = λ a h. y.kept a (x.kept a h);
  same = λ a. y.same a ∙ x.same a;
  untouched = λ a h. y.untouched a (x.same a ∙ h) ∙ x.untouched a h;
}

-- What a successful call of the body did.
visit_with-eq-ok :
    (call : String → Search → Result Error Search) (g : List Node) (a : String) (s s' : Search)
    → visit_with call g a s ≡ ok s'
    → (contains a s.visited ≡ true) × (s ≡ s')
      ⊎ ((contains a s.visiting ≡ false)
          × (contains a s.visited ≡ false)
          × (parents : List String) × (depends_on g a ≡ some parents)
          × (t : Search) × (visit_all call parents (enter a s) ≡ ok t)
          × (s' ≡ leave a t))
unfolding visit_with ◌>>=◌
visit_with-eq-ok call g a s s' h = ground arith

-- A call keeps the order and marks the node that it is made on.
abbrev pub Marks : List Node → (String → Search → Result Error Search) → Type 0
Marks g call =
    (a : String) (s s' : Search)
    → Ordered g s.visited
    → call a s ≡ ok s'
    → Extends g s s' × (contains a s'.visited ≡ true)

module _ (g : List Node) (call : String → Search → Result Error Search) (marks : Marks g call) where
  abbrev AllVisited : List String → Search → Type 0
  AllVisited parents s = (b : String) → contains b parents ≡ true → contains b s.visited ≡ true

  pub visit_all-Extends :
      (parents : List String) (s s' : Search)
      → Ordered g s.visited
      → visit_all call parents s ≡ ok s'
      → Extends g s s' × AllVisited parents s'
  unfolding visit_all contains ◌>>=◌
  visit_all-Extends [] s s' o h =
      let same : s ≡ s' = cc in (subst (Extends g s) same (Extends-refl s o), λ b m. cc)
  visit_all-Extends (p ∷ rest) s s' o h =
      let (t, first, then_rest) = >>=-eq-ok (call p s) (visit_all call rest) h in
      let (x, marked) = marks p s t o first in
      let (y, others) = visit_all-Extends rest t s' x.ordered then_rest in
      (Extends-trans x y, λ b m. ground (arith, eq_iff b p, y.kept p marked, others b))

  -- The node entered lies under visit until its dependencies are visited.
  leave-Extends :
      (a : String) (parents : List String) (s t : Search)
      → contains a s.visiting ≡ false
      → contains a s.visited ≡ false
      → depends_on g a ≡ some parents
      → Extends g (enter a s) t
      → AllVisited parents t
      → Extends g s (leave a t)
  leave-Extends a parents s t fresh unseen listed x all = record {
    ordered = (
      x.untouched a (contains-cons_self a s.visiting) ∙ unseen,
      λ b e. all b (subst (λ l. contains b l ≡ true) (parents_of e) e.parent),
      x.ordered,
      key_of_depends_on g a parents listed,
    );
    kept = λ b h. contains_tail b a t.visited (x.kept b h);
    same = λ b.
        contains-remove b a t.visiting
        ∙ ground (arith, x.same b, contains-cons b a s.visiting, eq_iff b a, fresh);
    untouched = λ b h. ground (
      arith,
      contains-cons b a t.visited,
      contains-cons b a s.visiting,
      x.untouched b,
      eq_iff b a,
      fresh,
    );
  }
    where
      parents_of : {b : String} (e : Edge g a b) → e.parents ≡ parents
      parents_of e = cc (e.listed, listed)

  visit_with-Marks : Marks g (visit_with call g)
  visit_with-Marks a s s' o h = elim (visit_with-eq-ok call g a s s' h) [
    | inl (seen, same) ↦
        subst (λ t. Extends g s t × (contains a t.visited ≡ true)) same (Extends-refl s o, seen)
    | inr (fresh, unseen, parents, listed, t, searched, same) ↦
        let (x, all) = visit_all-Extends parents (enter a s) t o searched in
        subst (λ u. Extends g s u × (contains a u.visited ≡ true)) (sym same)
          (leave-Extends a parents s t fresh unseen listed x all, contains-cons_self a t.visited)
  ]

pub visit-Marks : (fuel : ℕ) (g : List Node) → Marks g (visit fuel g)
unfolding visit
visit-Marks zero g a s s' o h = cc
visit-Marks (suc fuel) g a s s' o h =
    visit_with-Marks g (visit fuel g) (visit-Marks fuel g) a s s' o h
