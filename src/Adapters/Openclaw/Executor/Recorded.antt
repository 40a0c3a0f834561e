-- ===== src/Adapters/Openclaw/Executor/Recorded.antt =====
-- The recorded times that `setup` of `OpenClawToolExecutor` in src/agenttrace/adapters/openclaw.py reads.
use mathlib.Core.List.{Memᴰ}
use mathlib.Core.List.Memᴰ
use atcr_agent_trace_collect.Prelude.{
  String, str_eq, true, false, Option, some, List, [], ◌∷◌, ◌≡◌, refl, sym, ap, ◌∙◌, subst, ◌⊎◌,
  inl, inr, if◌then◌else◌, ok, >>=-eq-ok, arith, eq_iff, Bool-cases,
}
use atcr_agent_trace_collect.Json.{Value, Fields, str}
use atcr_agent_trace_collect.Adapters.Openclaw.Delay.{Delay, recorded_search_delay}
use atcr_agent_trace_collect.Adapters.Openclaw.Executor.{Delays}
use atcr_agent_trace_collect.Adapters.Openclaw.Executor.Requests.{
  node_id, is_search, find_delay_of, assign_delay, text_key, add_delay, read_delays,
}

find-assign :
    (other key : String) (d : Delay) (delays : Delays)
    → find_delay_of other (assign_delay key d delays)
      ≡ (if str_eq other key then some d else find_delay_of other delays)
unfolding find_delay_of assign_delay
find-assign other key d [] = refl
find-assign other key d ((k, old) ∷ rest) =
    ground (arith, eq_iff key k, eq_iff other k, eq_iff other key, find-assign other key d rest)

text_key-ok : (id : Value) (key : String) → text_key id ≡ ok key → id ≡ str key
text_key-ok (str s) key h = cc
text_key-ok id key h = absurd cc

-- The node is a search, under its identifier.
pub record IsSearch (key : String) (node : Fields) : Type 0 where
  pub is : is_search node ≡ ok true
  pub named : node_id node ≡ ok (str key)

module _ (loads : String → Option Value) where
  add_delay-ok :
      (node : Fields) (delays after : Delays)
      → add_delay loads node delays ≡ ok after
      → (key : String) × (d : Delay) × (node_id node ≡ ok (str key))
        × (recorded_search_delay loads node ≡ ok d)
        × (after ≡ assign_delay key d delays)
  unfolding add_delay
  add_delay-ok node delays after h =
      let (id, named, h1) = >>=-eq-ok _ _ h in
      let (d, found, h2) = >>=-eq-ok _ _ h1 in
      let (key, text, h3) = >>=-eq-ok _ _ h2 in
      (key, d, named ∙ ap ok (text_key-ok id key text), found, cc)

  -- A time that is found for an identifier is one of those that were there, or of a search with it.
  abbrev pub IsOrigin : List Fields → Delays → String → Delay → Type 0
  IsOrigin nodes delays key d =
      (find_delay_of key delays ≡ some d)
      ⊎ ((node : Fields) × Memᴰ node nodes
          × IsSearch key node
          × (recorded_search_delay loads node ≡ ok d))

  IsOrigin-later :
      (node : Fields) (rest : List Fields) (delays : Delays) (key : String) (d : Delay)
      → IsOrigin rest delays key d
      → IsOrigin (node ∷ rest) delays key d
  IsOrigin-later node rest delays key d (inl before) = inl before
  IsOrigin-later node rest delays key d (inr (other, m, is, found)) =
      inr (other, Memᴰ.tail m, is, found)

  -- The step over a search.
  IsOrigin-added :
      (node : Fields) (rest : List Fields) (delays after : Delays) (key : String) (d : Delay)
      → is_search node ≡ ok true
      → add_delay loads node delays ≡ ok after
      → IsOrigin rest after key d
      → IsOrigin (node ∷ rest) delays key d
  IsOrigin-added node rest delays after key d search added (inr later) =
      IsOrigin-later node rest delays key d (inr later)
  IsOrigin-added node rest delays after key d search added (inl before) =
      let (own, found, named, recorded, same) = add_delay-ok node delays after added in
      let at : (if str_eq key own then some found else find_delay_of key delays) ≡ some d =
        sym (find-assign key own found delays) ∙ ap (find_delay_of key) (sym same) ∙ before in
      elim (Bool-cases (str_eq key own)) [
        | inl here ↦
            let is : own ≡ key = ground (arith, eq_iff key own, here) in
            let equal : found ≡ d = ground (arith, rw here at at) in
            inr (
              node,
              Memᴰ.head refl,
              record { is = search; named = subst (λ k. node_id node ≡ ok (str k)) is named },
              recorded ∙ ap ok equal,
            )
        | inr other ↦ inl (rw other at at)
      ]

  pub read_delays-IsOrigin :
      (nodes : List Fields) (delays after : Delays) (key : String) (d : Delay)
      → read_delays loads nodes delays ≡ ok after
      → find_delay_of key after ≡ some d
      → IsOrigin nodes delays key d
  unfolding read_delays
  read_delays-IsOrigin [] delays after key d h found = inl (ground (arith, h, found))
  read_delays-IsOrigin (node ∷ rest) delays after key d h found =
      let (wanted, search, h1) = >>=-eq-ok _ _ h in
      let (next, added, h2) = >>=-eq-ok _ _ h1 in
      let later : IsOrigin rest next key d = read_delays-IsOrigin rest next after key d h2 found in
      elim (Bool-cases wanted) [
        | inl is ↦
            IsOrigin-added node rest delays next key d (search ∙ ap ok is) (rw is at added) later
        | inr not_is ↦
            let same : delays ≡ next = ground (arith, rw not_is at added) in
            IsOrigin-later node rest delays key d
              (subst (λ l. IsOrigin rest l key d) (sym same) later)
      ]

  -- A time stays there.
  kept_by_add :
      (node : Fields) (delays after : Delays) (key : String) (d : Delay)
      → add_delay loads node delays ≡ ok after
      → find_delay_of key delays ≡ some d
      → (e : Delay) × (find_delay_of key after ≡ some e)
  kept_by_add node delays after key d added before =
      let (own, found, named, recorded, same) = add_delay-ok node delays after added in
      let at : find_delay_of key after
          ≡ (if str_eq key own then some found else find_delay_of key delays) =
        ap (find_delay_of key) same ∙ find-assign key own found delays in
      elim (Bool-cases (str_eq key own)) [
        | inl here ↦ (found, rw here at at)
        | inr other ↦ (d, (rw other at at) ∙ before)
      ]

  kept :
      (nodes : List Fields) (delays after : Delays) (key : String) (d : Delay)
      → read_delays loads nodes delays ≡ ok after
      → find_delay_of key delays ≡ some d
      → (e : Delay) × (find_delay_of key after ≡ some e)
  unfolding read_delays
  kept [] delays after key d h before = (d, ground (arith, h, before))
  kept (node ∷ rest) delays after key d h before =
      let (wanted, search, h1) = >>=-eq-ok _ _ h in
      let (next, added, h2) = >>=-eq-ok _ _ h1 in
      elim (Bool-cases wanted) [
        | inl is ↦
            let (e, there) = kept_by_add node delays next key d (rw is at added) before in
            kept rest next after key e h2 there
        | inr not_is ↦
            let same : delays ≡ next = ground (arith, rw not_is at added) in
            kept rest next after key d h2 (ap (find_delay_of key) (sym same) ∙ before)
      ]

  -- Every search has its time.
  pub read_delays-there :
      (nodes : List Fields) (delays after : Delays) (key : String) (node : Fields)
      → read_delays loads nodes delays ≡ ok after
      → Memᴰ node nodes
      → IsSearch key node
      → (d : Delay) × (find_delay_of key after ≡ some d)
  unfolding read_delays
  read_delays-there [] delays after key node h m is = absurd (Memᴰ.not-nil m)
  read_delays-there (first ∷ rest) delays after key node h m is =
      let (wanted, search, h1) = >>=-eq-ok _ _ h in
      let (next, added, h2) = >>=-eq-ok _ _ h1 in
      elim (Memᴰ.cases_cons m) [
        | inr later ↦ read_delays-there rest next after key node h2 later is
        | inl now ↦
            let yes_is : wanted ≡ true = ground (arith, ap is_search now, search, is.is) in
            let (own, found, named, recorded, same) =
              add_delay-ok first delays next (rw yes_is at added) in
            let own_is : own ≡ key = ground (arith, ap node_id now, named, is.named) in
            let there : find_delay_of key next ≡ some found =
              ap (find_delay_of key) same
              ∙ find-assign key own found delays
              ∙ ground (arith, eq_iff key own, own_is) in
            kept rest next after key found h2 there
      ]

  -- The node is no search, or its own recorded time can be read and a time stands under its identifier.
  abbrev pub IsTimed : Delays → Fields → Type 0
  IsTimed delays node =
      (is_search node ≡ ok false)
      ⊎ ((key : String) × (own : Delay) × (d : Delay) × (node_id node ≡ ok (str key))
          × (recorded_search_delay loads node ≡ ok own)
          × (find_delay_of key delays ≡ some d))

  pub read_delays-IsTimed :
      (nodes : List Fields) (delays after : Delays) (node : Fields)
      → read_delays loads nodes delays ≡ ok after
      → Memᴰ node nodes
      → IsTimed after node
  unfolding read_delays
  read_delays-IsTimed [] delays after node h m = absurd (Memᴰ.not-nil m)
  read_delays-IsTimed (first ∷ rest) delays after node h m =
      let (wanted, search, h1) = >>=-eq-ok _ _ h in
      let (next, added, h2) = >>=-eq-ok _ _ h1 in
      elim (Memᴰ.cases_cons m) [
        | inr later ↦ read_delays-IsTimed rest next after node h2 later
        | inl now ↦ elim (Bool-cases wanted) [
          | inr not_is ↦ inl (ap is_search now ∙ search ∙ ap ok not_is)
          | inl is ↦
              let (key, found, named, recorded, same) =
                add_delay-ok first delays next (rw is at added) in
              let own_named : node_id node ≡ ok (str key) = ap node_id now ∙ named in
              let (d, there) =
                read_delays-there (first ∷ rest) delays after key node h m
                  (record { is = ap is_search now ∙ search ∙ ap ok is; named = own_named }) in
              inr (key, found, d, own_named, ap (recorded_search_delay loads) now ∙ recorded, there)
        ]
      ]
