-- ===== src/Schema/Graph/Cycles.antt =====
-- `visit` of src/agenttrace/schema.py ends on every graph whose dependencies are known, and raises
-- only where it has found a cycle.
use atcr_agent_trace_collect.Prelude.{
  ℕ, zero, suc, ◌<◌, String, true, false, ◌≡◌, refl, ◌∙◌, sym, subst, inl, inr, some, List, [], ◌∷◌,
  arith, eq_iff, Bool-cases, Result, ok, err, ◌>>=◌,
}
use atcr_agent_trace_collect.Prelude.Names.{
  contains, contains-cons, contains-cons_self, contains-remove,
}
use atcr_agent_trace_collect.Schema.Types.{Error, dependency_cycle, Node}
use atcr_agent_trace_collect.Schema.Nodes.{ids}
use atcr_agent_trace_collect.Schema.Graph.{
  depends_on, Search, enter, leave, visit_all, visit_with, visit,
}
use atcr_agent_trace_collect.Schema.Graph.Paths.{Edge, Reaches, edge, Reaches-snoc, contains_rest}
use atcr_agent_trace_collect.Schema.Graph.Fuel.{free, free-cons_lt, free-same, depends_on_of_key}

-- Every dependency is a node.
abbrev pub Known : List Node → Type 0
Known g = (a b : String) → Edge g a b → contains b (ids g) ≡ true

abbrev pub SameVisiting : Search → Search → Type 0
SameVisiting s t = (a : String) → contains a t.visiting ≡ contains a s.visiting

-- A call returns with `visiting` as it was, or raises the cycle error over a cycle.
pub data Outcome (g : List Node) (s : Search) (r : Result Error Search) : Type 0 where
  returned : (t : Search) → r ≡ ok t → SameVisiting s t → Outcome g s r
  looped : (a : String) → r ≡ err dependency_cycle → Reaches g a a → Outcome g s r

-- Every node under visit leads to `a`.
abbrev pub LeadTo : List Node → Search → String → Type 0
LeadTo g s a = (v : String) → contains v s.visiting ≡ true → Reaches g v a

abbrev pub Room : ℕ → List Node → Search → Type 0
Room n g s = free s.visiting (ids g) < n

abbrev pub Decides : ℕ → List Node → (String → Search → Result Error Search) → Type 0
Decides n g call =
    (a : String) (s : Search)
    → contains a (ids g) ≡ true
    → Room n g s
    → LeadTo g s a
    → Outcome g s (call a s)

module _ (n : ℕ) (g : List Node) (call : String → Search → Result Error Search)
    (decides : Decides n g call) where
  pub visit_all-Outcome :
      (parents : List String) (s : Search)
      → ((b : String) → contains b parents ≡ true → contains b (ids g) ≡ true)
      → Room n g s
      → ((b : String) → contains b parents ≡ true → LeadTo g s b)
      → Outcome g s (visit_all call parents s)
  unfolding visit_all ◌>>=◌
  visit_all-Outcome [] s keys room lead = returned s refl (λ a. refl)
  visit_all-Outcome (p ∷ rest) s keys room lead =
      elim (decides p s (keys p here) room (lead p here)) [
        | looped a e loop ↦ looped a (rw e) loop
        | returned t e same ↦ after t e same (
            visit_all-Outcome rest t (λ b m. keys b (there b m)) (room' t same)
              (λ b m v u. lead b (there b m) v (sym (same v) ∙ u)))
      ]
    where
      here : contains p (p ∷ rest) ≡ true
      here = contains-cons_self p rest

      there : (b : String) → contains b rest ≡ true → contains b (p ∷ rest) ≡ true
      there b m = ground (arith, contains-cons b p rest)

      room' : (t : Search) → SameVisiting s t → Room n g t
      room' t same = omega (arith, free-same t.visiting s.visiting (ids g) same)

      after :
          (t : Search)
          → call p s ≡ ok t
          → SameVisiting s t
          → Outcome g t (visit_all call rest t)
          → Outcome g s (call p s >>= visit_all call rest)
      after t e same (looped a f loop) = looped a (rw e f) loop
      after t e same (returned u f same') = returned u (rw e f) (λ a. same' a ∙ same a)

  -- The search of the dependencies of a node that is entered, and its end.
  entered-Outcome :
      (known : Known g) (a : String) (parents : List String) (s : Search)
      → contains a (ids g) ≡ true
      → contains a s.visiting ≡ false
      → depends_on g a ≡ some parents
      → Room (suc n) g s
      → LeadTo g s a
      → Outcome g s (visit_all call parents (enter a s) >>= λ t. ok (leave a t))
  unfolding ◌>>=◌
  entered-Outcome known a parents s key fresh listed room lead = finish (
      visit_all-Outcome parents (enter a s) (λ b m. known a b (to b m))
        (omega (arith, free-cons_lt a s.visiting (ids g) key fresh)) leads)
    where
      to : (b : String) → contains b parents ≡ true → Edge g a b
      to b m = record { parents = parents; listed = listed; parent = m }

      leads : (b : String) → contains b parents ≡ true → LeadTo g (enter a s) b
      leads b m v u = elim (contains_rest v a s.visiting u) [
        | inl same ↦ subst (λ w. Reaches g w b) (sym same) (edge (to b m))
        | inr under ↦ Reaches-snoc (lead v under) (to b m)
      ]

      finish :
          Outcome g (enter a s) (visit_all call parents (enter a s))
          → Outcome g s (visit_all call parents (enter a s) >>= λ t. ok (leave a t))
      finish (looped c e loop) = looped c (rw e) loop
      finish (returned t e same) = returned (leave a t) (rw e) λ b.
          contains-remove b a t.visiting
          ∙ ground (arith, same b, contains-cons b a s.visiting, eq_iff b a, fresh)

  visit_with-Outcome :
      Known g
      → (a : String) (s : Search) → contains a (ids g) ≡ true
      → Room (suc n) g s
      → LeadTo g s a
      → Outcome g s (visit_with call g a s)
  unfolding visit_with
  visit_with-Outcome known a s key room lead =
      let (parents, listed) = depends_on_of_key g a key in
      elim (Bool-cases (contains a s.visiting)) [
        | inl under ↦ looped a (rw under) (lead a under)
        | inr fresh ↦ elim (Bool-cases (contains a s.visited)) [
          | inl seen ↦ returned s (rw (fresh, seen)) (λ b. refl)
          | inr unseen ↦
              rw (fresh, unseen, listed)
                (entered-Outcome known a parents s key fresh listed room lead)
        ]
      ]

pub visit-Outcome : (fuel : ℕ) (g : List Node) → Known g → Decides fuel g (visit fuel g)
unfolding visit
visit-Outcome zero g known a s key room lead = absurd (omega arith)
visit-Outcome (suc fuel) g known a s key room lead =
    visit_with-Outcome fuel g (visit fuel g) (visit-Outcome fuel g known) known a s key room lead
