-- ===== src/Experiments/Matrix/Sizes.antt =====
-- The numbers of nodes of the points that `matrix` of src/agenttrace/experiments/multi/config.py lists.
use atcr_agent_trace_collect.Prelude.{
  ℕ, ◌+◌, ◌≤◌, String, Bool, true, false, List, [], ◌∷◌, ◌++◌, ◌≡◌, subst, ◌⊎◌, inl, ok, >>=-eq-ok,
  arith, if◌then◌else◌, All, All-append_right,
}
use atcr_agent_trace_collect.Experiments.{Outcome}
use atcr_agent_trace_collect.Experiments.Config.{
  Topology, balanced, fixed_frontend, Group, Config, pbs_for_point,
}
use atcr_agent_trace_collect.Experiments.Matrix.{
  Spec, Point, frontends_of, physical_of, is_in, points_of, routed, is_routing, matrix,
}

-- Every inference replica and every frontend has a node of its own, and there is a frontend unless there
-- is no node.
pub record IsSized (p : Point) : Type 0 where
  pub sum : p.frontend_nodes + p.inference_replicas ≡ p.physical_nodes
  pub served : (1 ≤ p.frontend_nodes) ⊎ (p.physical_nodes ≡ 0)

served_lem : (t : Topology) (n : ℕ) → (1 ≤ frontends_of t n) ⊎ (physical_of t n ≡ 0)
served_lem balanced n = ground arith
served_lem fixed_frontend n = inl (ground arith)

sum_lem : (t : Topology) (n : ℕ) → frontends_of t n + n ≡ physical_of t n
sum_lem balanced n = omega arith
sum_lem fixed_frontend n = omega arith

points_of-IsSized :
    (c : Config) (smoke official : Bool) (specs : List Spec)
    → All IsSized (points_of c smoke official specs)
unfolding points_of
points_of-IsSized c smoke official [] = tt
points_of-IsSized c smoke official (s ∷ rest) =
    let sum = sum_lem s.topology s.replicas in
    let served = served_lem s.topology s.replicas in
    (
      record { sum = sum; served = served },
      (record { sum = sum; served = served }, points_of-IsSized c smoke official rest),
    )

kept-IsSized :
    (b : Bool) (p : Point) (rest : List Point)
    → IsSized p
    → All IsSized rest
    → All IsSized (if b then p ∷ rest else rest)
kept-IsSized true p rest h later = (h, later)
kept-IsSized false p rest h later = later

routed-IsSized :
    (c : Config) (group : Group) (ps : List Point)
    → All IsSized ps
    → All IsSized (routed c group ps)
unfolding routed
routed-IsSized c group [] h = tt
routed-IsSized c group (p ∷ rest) h =
    kept-IsSized (is_in group p) (record p { pbs = pbs_for_point c p.physical_nodes })
      (routed c group rest) (record { sum = h.0.sum; served = h.0.served })
      (routed-IsSized c group rest h.1)

outcome-eq : {A : Type 0} {a b : A} → ◌≡◌ {A = Outcome A} (ok a) (ok b) → a ≡ b
outcome-eq h = cc

pub matrix-IsSized :
    (c : Config) (smoke : Bool) (name : String) (before after : List Point) (p : Point)
    → matrix c smoke name ≡ ok (before ++ p ∷ after)
    → IsSized p
unfolding matrix
matrix-IsSized c smoke name before after p h =
    let (group, _, h1) = >>=-eq-ok _ _ h in
    let (specs, _, h2) = >>=-eq-ok _ _ h1 in
    (All-append_right IsSized before (p ∷ after) (
      subst (All IsSized) (outcome-eq h2) (
        routed-IsSized c group (points_of c smoke (is_routing group) specs)
          (points_of-IsSized c smoke (is_routing group) specs)))).0
