-- ===== src/Experiments/Layout/Hosts.antt =====
-- The lists of names in `node_layout` of src/agenttrace/experiments/multi/config.py.
use atcr_agent_trace_collect.Prelude.{
  ℕ, zero, suc, ◌≤◌, ◌<◌, String, true, false, not, ◌&&◌, some, List, [], ◌∷◌, ◌++◌, ◌≡◌, refl, ap,
  length, get_elem?, ok, eq_iff, eq_refl, arith,
}
use atcr_agent_trace_collect.Prelude.Names.{contains, remove, distinct, contains-remove}
use atcr_agent_trace_collect.Experiments.Layout.{unseen, take_names, drop_names, host_at}

pub contains-unseen :
    (a : String) (seen names : List String)
    → contains a (unseen seen names) ≡ (contains a names && not (contains a seen))
unfolding contains unseen
contains-unseen a seen [] = refl
contains-unseen a seen (x ∷ rest) =
    ground (arith, contains-unseen a seen rest, contains-unseen a (x ∷ seen) rest, eq_iff a x)

pub unseen-distinct : (seen names : List String) → distinct (unseen seen names) ≡ true
unfolding distinct contains unseen
unseen-distinct seen [] = refl
unseen-distinct seen (x ∷ rest) = ground (
  arith,
  unseen-distinct seen rest,
  unseen-distinct (x ∷ seen) rest,
  contains-unseen x (x ∷ seen) rest,
  eq_refl x,
)

pub remove-distinct :
    (a : String) (names : List String) → distinct names ≡ true → distinct (remove a names) ≡ true
unfolding distinct remove
remove-distinct a [] h = refl
remove-distinct a (x ∷ rest) h = ground (arith, remove-distinct a rest, contains-remove x a rest, h)

length-remove_other :
    (a : String) (names : List String)
    → contains a names ≡ false
    → length (remove a names) ≡ length names
unfolding contains remove
length-remove_other a [] h = refl
length-remove_other a (x ∷ rest) h = ground (arith, length-remove_other a rest, h)

pub length-remove :
    (a : String) (names : List String)
    → distinct names ≡ true
    → contains a names ≡ true
    → suc (length (remove a names)) ≡ length names
unfolding contains remove distinct
length-remove a [] d h = absurd (cc h)
length-remove a (x ∷ rest) d h =
    ground (arith, length-remove a rest, length-remove_other a rest, eq_iff a x, d, h)

pub take-append-drop :
    (f : ℕ) (names : List String) → take_names f names ++ drop_names f names ≡ names
unfolding take_names drop_names
take-append-drop zero [] = refl
take-append-drop zero (a ∷ rest) = refl
take-append-drop (suc f) [] = refl
take-append-drop (suc f) (a ∷ rest) = ap (λ t. a ∷ t) (take-append-drop f rest)

pub length-take : (f : ℕ) (names : List String) → f ≤ length names → length (take_names f names) ≡ f
unfolding take_names
length-take zero [] h = refl
length-take zero (a ∷ rest) h = refl
length-take (suc f) [] h = absurd (omega (arith, h))
length-take (suc f) (a ∷ rest) h = ap suc (length-take f rest (omega (arith, h)))

pub host_lem :
    (frontends : List String) (i : ℕ)
    → i < length frontends
    → (host : String) × (get_elem? frontends i ≡ some host) × (host_at frontends i ≡ ok host)
host_lem [] i h = absurd (omega (arith, h))
host_lem (a ∷ rest) zero h = (a, refl, refl)
host_lem (a ∷ rest) (suc i) h = host_lem rest i (omega (arith, h))
