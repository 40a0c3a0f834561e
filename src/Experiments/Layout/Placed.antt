-- ===== src/Experiments/Layout/Placed.antt =====
-- What `node_layout` of src/agenttrace/experiments/multi/config.py makes of the nodes that are allocated.
use atcr_agent_trace_collect.Prelude.{
  ℕ, zero, suc, ◌%◌, ◌≤◌, ◌==◌, String, Bool, true, false, ◌&&◌, some, List, [], ◌∷◌, ◌++◌, ◌≡◌,
  refl, sym, ap, subst, ◌∙◌, ◌⊎◌, inl, inr, length, get_elem?, length-append, ok, err, ◌>>=◌,
  eq_iff, eq_refl, arith, Bool-cases,
}
use atcr_agent_trace_collect.Prelude.Names.{contains, remove, distinct, contains-remove}
use atcr_agent_trace_collect.Json.Access.{problem}
use atcr_agent_trace_collect.Experiments.{wrong_allocation}
use atcr_agent_trace_collect.Experiments.Config.{Config}
use atcr_agent_trace_collect.Experiments.Matrix.{Point, matrix}
use atcr_agent_trace_collect.Experiments.Matrix.Sizes.{IsSized, matrix-IsSized}
use atcr_agent_trace_collect.Experiments.Layout.{
  short_name, short_names, unseen, take_names, drop_names, Replica, replica_of, Layout, frontend_at,
  replicas_from, layout_of, node_layout,
}
use atcr_agent_trace_collect.Experiments.Layout.Hosts.{
  contains-unseen, unseen-distinct, remove-distinct, length-remove, take-append-drop, length-take,
  host_lem,
}

-- The replicas of the hosts from the i-th on: each has its host and its place, and the frontends in turn.
pub data IsServed (frontends : List String) (f : ℕ) : ℕ → List String → List Replica → Type 0 where
  all_served : (i : ℕ) → IsServed frontends f i [] []
  next_served :
      (i : ℕ) (host : String) (hosts : List String) (r : Replica) (rest : List Replica)
      → r.index ≡ i
      → r.inference_host ≡ host
      → get_elem? frontends (i % f) ≡ some r.frontend_host
      → IsServed frontends f (suc i) hosts rest
      → IsServed frontends f i (host ∷ hosts) (r ∷ rest)

-- The layout of a point: the frontends and the inference nodes are the allocated nodes, each once, in
-- the numbers of the point, with the batch host as the first frontend.
pub record IsPlaced (p : Point) (allocated : List String) (batch_host : String) (l : Layout)
    : Type 0 where
  pub once : distinct (l.frontends ++ l.inference) ≡ true
  pub same_nodes :
      (h : String) → contains h (l.frontends ++ l.inference) ≡ contains h (short_names allocated)
  pub frontend_count : length l.frontends ≡ p.frontend_nodes
  pub inference_count : length l.inference ≡ p.inference_replicas
  pub first : get_elem? l.frontends 0 ≡ some (short_name batch_host)
  pub served : IsServed l.frontends p.frontend_nodes 0 l.inference l.replicas

module _ (frontends : List String) (f : ℕ) (filled : length frontends ≡ suc f) where
  frontend_lem :
      (i : ℕ)
      → (host : String) × (get_elem? frontends (i % suc f) ≡ some host)
        × (frontend_at frontends (suc f) i ≡ ok host)
  unfolding frontend_at
  frontend_lem i =
      let (host, found, at) = host_lem frontends (i % suc f) (omega (arith, filled)) in
      let positive : (suc f == 0) ≡ false = ground arith in (host, found, rw positive at)

  replicas_from-IsServed :
      (i : ℕ) (hosts : List String)
      → (rs : List Replica) × (replicas_from frontends (suc f) i hosts ≡ ok rs)
        × IsServed frontends (suc f) i hosts rs
  unfolding replicas_from ◌>>=◌
  replicas_from-IsServed i [] = ([], refl, all_served i)
  replicas_from-IsServed i (host ∷ rest) =
      let (frontend, found, at) = frontend_lem i in
      let (rs, made, later) = replicas_from-IsServed (suc i) rest in
      (
        replica_of i host frontend ∷ rs,
        rw (at, made) refl,
        next_served i host rest (replica_of i host frontend) rs refl refl found later,
      )

-- The layout of a list with the batch host in front.
layout_of-made :
    (f : ℕ) (nodes : List String)
    → suc f ≤ length nodes
    → (l : Layout) × (layout_of (suc f) nodes ≡ ok l)
      × (l.frontends ≡ take_names (suc f) nodes)
      × (l.inference ≡ drop_names (suc f) nodes)
      × IsServed l.frontends (suc f) 0 l.inference l.replicas
unfolding layout_of ◌>>=◌
layout_of-made f nodes h =
    let frontends = take_names (suc f) nodes in
    let inference = drop_names (suc f) nodes in
    let (rs, made, served) =
      replicas_from-IsServed frontends f (length-take (suc f) nodes h) 0 inference in
    (
      record { frontends = frontends; inference = inference; replicas = rs },
      rw made refl,
      refl,
      refl,
      served,
    )

abbrev pub unique_hosts : List String → List String
unique_hosts allocated = unseen [] (short_names allocated)

module _ (p : Point) (allocated : List String) (batch_host : String) where
  -- The test that the allocation fits.
  abbrev pub fits : Bool
  fits =
      length (unique_hosts allocated) == p.physical_nodes
      && contains (short_name batch_host) (unique_hosts allocated)

  abbrev ordered : List String
  ordered = short_name batch_host ∷ remove (short_name batch_host) (unique_hosts allocated)

  ordered-distinct : distinct ordered ≡ true
  unfolding distinct
  ordered-distinct = ground (
    arith,
    remove-distinct (short_name batch_host) (unique_hosts allocated)
        (unseen-distinct [] (short_names allocated)),
    contains-remove (short_name batch_host) (short_name batch_host) (unique_hosts allocated),
    eq_refl (short_name batch_host),
  )

  contains-ordered :
      (h : String)
      → contains (short_name batch_host) (unique_hosts allocated) ≡ true
      → contains h ordered ≡ contains h (short_names allocated)
  unfolding contains
  contains-ordered h there = ground (
    arith,
    contains-remove h (short_name batch_host) (unique_hosts allocated),
    contains-unseen h [] (short_names allocated),
    eq_iff h (short_name batch_host),
    there,
  )

  length-ordered :
      contains (short_name batch_host) (unique_hosts allocated) ≡ true
      → length ordered ≡ length (unique_hosts allocated)
  length-ordered there =
      length-remove (short_name batch_host) (unique_hosts allocated)
        (unseen-distinct [] (short_names allocated)) there

  layout_of-IsPlaced :
      (f : ℕ)
      → p.frontend_nodes ≡ f
      → IsSized p
      → length (unique_hosts allocated) ≡ p.physical_nodes
      → contains (short_name batch_host) (unique_hosts allocated) ≡ true
      → (l : Layout) × (layout_of f ordered ≡ ok l) × IsPlaced p allocated batch_host l
  unfolding take_names
  layout_of-IsPlaced zero same sized count there = elim sized.served [
    | inl some_frontend ↦ absurd (omega (arith, same, some_frontend))
    | inr empty ↦ absurd (omega (arith, empty, count, length-ordered there))
  ]
  layout_of-IsPlaced (suc f) same sized count there =
      let long : suc f ≤ length ordered =
        omega (arith, same, sized.sum, count, length-ordered there) in
      let (l, made, front, inferred, served) = layout_of-made f ordered long in
      let parts : l.frontends ++ l.inference ≡ ordered =
        rw (front, inferred) (take-append-drop (suc f) ordered) in
      let fronts : length l.frontends ≡ suc f = rw front (length-take (suc f) ordered long) in
      (
        l,
        made,
        record {
          once = rw parts ordered-distinct;
          same_nodes = λ h. rw parts (contains-ordered h there);
          frontend_count = fronts ∙ sym same;
          inference_count = omega (
            arith,
            same,
            sized.sum,
            count,
            length-ordered there,
            fronts,
            length-append l.frontends l.inference,
            ap length parts,
          );
          first = rw front refl;
          served = subst (λ k. IsServed l.frontends k 0 l.inference l.replicas) (sym same) served;
        },
      )

both_lem : (n k : ℕ) (b : Bool) → (n == k && b) ≡ true → (n ≡ k) × (b ≡ true)
both_lem n k b h = ground arith

-- For every point that `matrix` lists, whatever is allocated: either it does not fit the point's topology,
-- and is refused; or the nodes are laid out, each once, as the frontends and the inference nodes in the
-- numbers of the point, with the batch host as the first frontend, and one replica for each inference
-- node in order, the frontends taken in turn.
pub node_layout-IsPlaced :
    (c : Config) (smoke : Bool) (name : String) (before after : List Point) (p : Point)
    (allocated : List String) (batch_host : String)
    → matrix c smoke name ≡ ok (before ++ p ∷ after)
    → ((fits p allocated batch_host ≡ true)
        × (l : Layout) × (node_layout p allocated batch_host ≡ ok l)
        × IsPlaced p allocated batch_host l)
      ⊎ ((fits p allocated batch_host ≡ false)
          × (node_layout p allocated batch_host ≡ err (problem wrong_allocation)))
unfolding node_layout
node_layout-IsPlaced c smoke name before after p allocated batch_host h =
    let nodes = unique_hosts allocated in
    elim (Bool-cases (fits p allocated batch_host)) [
      | inl fit ↦
          let (count, there) =
            both_lem (length nodes) p.physical_nodes (contains (short_name batch_host) nodes) fit in
          let (l, made, placed) =
            layout_of-IsPlaced p allocated batch_host p.frontend_nodes refl
              (matrix-IsSized c smoke name before after p h) count there in
          inl (fit, l, rw fit made, placed)
      | inr misfit ↦ inr (misfit, rw misfit refl)
    ]
