-- ===== src/Experiments/Layout.antt =====
-- `node_layout` of src/agenttrace/experiments/multi/config.py.
pub mod Hosts
pub mod Placed
use atcr_agent_trace_collect.Prelude.{
  ℕ, zero, suc, ◌%◌, ◌==◌, String, Bool, ◌&&◌, Option, none, some, List, [], ◌∷◌, if◌then◌else◌,
  length, get_elem?, ok, err, ◌>>=◌,
}
use atcr_agent_trace_collect.Prelude.Names.{contains, remove}
use Prim.Native.Char.{code}
use atcr_agent_trace_collect.Prelude.Texts.{Text, chars, string_of, joined, padded}
use atcr_agent_trace_collect.Json.Access.{index_error, problem}
use atcr_agent_trace_collect.Experiments.{Outcome, wrong_allocation, no_frontends}
use atcr_agent_trace_collect.Experiments.Matrix.{Point}

-- `n.split(".")[0]`
unfoldable pub before_dot : Text → Text
before_dot [] = []
before_dot (c ∷ t) = let rest = before_dot t in if code c == 46 then [] else c ∷ rest

unfoldable pub short_name : String → String
unfolding before_dot
short_name host = string_of (before_dot (chars host))

unfoldable pub short_names : List String → List String
unfolding short_name
short_names [] = []
short_names (host ∷ rest) = short_name host ∷ short_names rest

-- `dict.fromkeys(names)`: the names that have been seen are passed over.
unfoldable pub unseen : List String → List String → List String
unseen seen [] = []
unseen seen (a ∷ rest) =
    let same = unseen seen rest in
    let more = unseen (a ∷ seen) rest in if contains a seen then same else a ∷ more

-- `names[:f]` and `names[f:]`
unfoldable pub take_names : ℕ → List String → List String
take_names (suc f) (a ∷ rest) = a ∷ take_names f rest
take_names _ _ = []

unfoldable pub drop_names : ℕ → List String → List String
drop_names zero names = names
drop_names (suc f) [] = []
drop_names (suc f) (a ∷ rest) = drop_names f rest

pub record Replica : Type 0 where
  pub id : String
  pub index : ℕ
  pub inference_host : String
  pub frontend_host : String

pub record Layout : Type 0 where
  pub frontends : List String
  pub inference : List String
  pub replicas : List Replica

-- `frontends[i]`
abbrev pub host_at : List String → ℕ → Outcome String
host_at frontends i = elim (get_elem? frontends i) [ none ↦ err index_error | some host ↦ ok host ]

-- `frontends[i % f]`
unfoldable pub frontend_at : List String → (f i : ℕ) → Outcome String
frontend_at frontends f i = if f == 0 then err (problem no_frontends) else host_at frontends (i % f)

abbrev pub replica_of : ℕ → (inference_host frontend_host : String) → Replica
replica_of i inference_host frontend_host = record {
  id = joined "r" (string_of (padded 2 i));
  index = i;
  inference_host = inference_host;
  frontend_host = frontend_host;
}

unfoldable pub replicas_from : List String → (f i : ℕ) → List String → Outcome (List Replica)
unfolding frontend_at
replicas_from frontends f i [] = ok []
replicas_from frontends f i (host ∷ rest) = do
  frontend ← frontend_at frontends f i
  more ← replicas_from frontends f (suc i) rest
  ok (replica_of i host frontend ∷ more)

-- The layout of the nodes, the batch host first.
unfoldable pub layout_of : ℕ → List String → Outcome Layout
unfolding take_names drop_names replicas_from
layout_of f nodes = do
  let frontends = take_names f nodes
  let inference = drop_names f nodes
  replicas ← replicas_from frontends f 0 inference
  ok (record { frontends = frontends; inference = inference; replicas = replicas })

-- `nodes.remove(batch_host)` takes the one copy out.
unfoldable pub node_layout : Point → List String → String → Outcome Layout
unfolding short_names unseen layout_of
node_layout p allocated batch_host =
    let nodes = unseen [] (short_names allocated) in
    let host = short_name batch_host in
    if length nodes == p.physical_nodes && contains host nodes
    then layout_of p.frontend_nodes (host ∷ remove host nodes)
    else err (problem wrong_allocation)
