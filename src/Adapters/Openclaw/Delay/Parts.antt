-- ===== src/Adapters/Openclaw/Delay/Parts.antt =====
-- The search of `_recorded_search_delay` in src/agenttrace/adapters/openclaw.py for a part with a time.
use atcr_agent_trace_collect.Prelude.{
  ℕ, zero, suc, ◌+◌, ◌<◌, String, true, false, Option, none, some, List, [], ◌∷◌, ◌≡◌, refl, sym,
  ap, ◌∙◌, subst, inl, inr, get_elem?, ok, arith, Bool-cases, Option-cases, eq_iff,
}
use atcr_agent_trace_collect.Json.{Value, Fields, str, dict, lookup, get, or_default}
use atcr_agent_trace_collect.Json.Access.{item, item_of, is_text}
use atcr_agent_trace_collect.Json.Equality.{Number}
use atcr_agent_trace_collect.Adapters.Problems.{Problem, Outcome}
use atcr_agent_trace_collect.Adapters.Openclaw.Delay.{
  Source, in_details, in_content, has_key, duration, dictionary, timed, parse, payload_of,
  find_payload, choose, find_delay,
}

pub some-eq : {A : Type 0} {a b : A} → ◌≡◌ {A = Option A} (some a) (some b) → a ≡ b
some-eq h = cc

pub ok-eq : {A : Type 0} {a b : A} → ◌≡◌ {A = Outcome A} (ok a) (ok b) → a ≡ b
ok-eq h = cc

no_duration :
    (d : Fields)
    → has_key "tookMs" d ≡ false
    → (n : Number) → duration (get "tookMs" d) ≡ some n
    → ⊥
unfolding get
no_duration d absent n h = elim (Option-cases (lookup "tookMs" d)) [
  | inl none_there ↦ unfold duration in absurd (cc (rw (none_there, get) at h))
  | inr (v, there) ↦ absurd (cc (rw (there, has_key) at absent))
]

pub dict-eq : {c d : Fields} → dict c ≡ dict d → c ≡ d
dict-eq h = cc

pub item-ok :
    (key : String) (d : Fields) (v : Value)
    → item {P = Problem} key d ≡ ok v
    → lookup key d ≡ some v
unfolding item
item-ok key d v h = elim (Option-cases (lookup key d)) [
  | inl none_there ↦ absurd (cc (rw (none_there, item) at h))
  | inr (w, there) ↦ there ∙ ap some (ok-eq (rw (there, item) at h))
]

pub item_of-ok :
    (key : String) (value v : Value)
    → item_of {P = Problem} key value ≡ ok v
    → (d : Fields) × (value ≡ dict d) × (lookup key d ≡ some v)
unfolding item_of
item_of-ok key (dict d) v h = (d, refl, item-ok key d v h)
item_of-ok key value v h = absurd (cc h)

pub dictionary-ok : (value : Value) (d : Fields) → dictionary value ≡ ok d → value ≡ dict d
dictionary-ok (dict e) d h = ap dict (ok-eq h)
dictionary-ok value d h = absurd (cc h)

is_text-eq : (text : String) (v : Value) → is_text text v ≡ true → v ≡ str text
is_text-eq text (str s) h = ap str (ground (arith, eq_iff text s, eq_iff s text, h))
is_text-eq text v h = absurd (cc h)

module _ (loads : String → Option Value) where
  earlier :
      (part : Value) (rest : List Value) (n : ℕ)
      → payload_of loads part ≡ none
      → ((i : ℕ) (v : Value) → i < n → get_elem? rest i ≡ some v → payload_of loads v ≡ none)
      → (i : ℕ) (v : Value) → i < suc n
      → get_elem? (part ∷ rest) i ≡ some v
      → payload_of loads v ≡ none
  earlier part rest n h all zero v lt at = ap (payload_of loads) (sym (some-eq at)) ∙ h
  earlier part rest n h all (suc i) v lt at = all i v (omega (arith, lt)) at

  -- The part is a text whose JSON is an object with a time.
  abbrev pub HasTime : Value → Fields → Type 0
  HasTime part payload =
      (p : Fields) × (text : String) × (part ≡ dict p)
      × (get "type" p ≡ str "text")
      × (or_default (str "") (lookup "text" p) ≡ str text)
      × (loads text ≡ some (dict payload))
      × (has_key "tookMs" payload ≡ true)

  timed-some :
      (value : Option Value) (payload : Fields)
      → timed loads value ≡ some payload
      → (value ≡ some (dict payload)) × (has_key "tookMs" payload ≡ true)
  timed-some (some (dict d)) payload h = elim (Bool-cases (has_key "tookMs" d)) [
    | inl there ↦
        let same : d ≡ payload = some-eq (rw there at h) in
        (ap (λ (k : Fields). some (dict k)) same, ap (has_key "tookMs") (sym same) ∙ there)
    | inr absent ↦ absurd (cc (rw absent at h))
  ]
  timed-some value payload h = absurd (cc h)

  parse-some :
      (value v : Value)
      → parse loads value ≡ some v
      → (text : String) × (value ≡ str text) × (loads text ≡ some v)
  parse-some (str text) v h = (text, refl, h)
  parse-some value v h = absurd (cc h)

  payload_of-HasTime :
      (part : Value) (payload : Fields)
      → payload_of loads part ≡ some payload
      → HasTime part payload
  unfolding payload_of
  payload_of-HasTime (dict p) payload h = elim (Bool-cases (is_text "text" (get "type" p))) [
    | inl is ↦
        let (read, timed_is) = timed-some _ payload (rw is at h) in
        let (text, is_str, loaded) = parse-some _ (dict payload) read in
        (p, text, refl, is_text-eq "text" (get "type" p) is, is_str, loaded, timed_is)
    | inr other ↦ absurd (cc (rw other at h))
  ]
  payload_of-HasTime part payload h = absurd (cc h)

  HasTime-payload_of :
      (part : Value) (payload : Fields)
      → HasTime part payload
      → payload_of loads part ≡ some payload
  unfolding payload_of
  HasTime-payload_of part payload (p, text, is, type, is_str, loaded, timed_is) =
      rw (is, type, is_str, loaded, timed_is) refl

  -- The first part that has a time.
  pub record IsFirst (parts : List Value) (index : ℕ) (payload : Fields) : Type 0 where
    pub part : Value
    pub at : get_elem? parts index ≡ some part
    pub timed : HasTime part payload
    pub first :
        (i : ℕ) (other : Value)
        → i < index
        → get_elem? parts i ≡ some other
        → (p : Fields) → ¬ HasTime other p

  -- The first part that is read.
  pub record IsRead (parts : List Value) (index : ℕ) (payload : Fields) : Type 0 where
    pub part : Value
    pub at : get_elem? parts index ≡ some part
    pub timed : payload_of loads part ≡ some payload
    pub first :
        (i : ℕ) (other : Value)
        → i < index
        → get_elem? parts i ≡ some other
        → payload_of loads other ≡ none

  find_payload-IsRead :
      (start index : ℕ) (parts : List Value) (payload : Fields)
      → find_payload loads start parts ≡ some (index, payload)
      → (i : ℕ) × (index ≡ start + i) × IsRead parts i payload
  unfolding find_payload
  find_payload-IsRead start index [] payload h = absurd (cc h)
  find_payload-IsRead start index (part ∷ rest) payload h =
      elim (Option-cases (payload_of loads part)) [
        | inr (found, here) ↦
            let both : ◌≡◌ {A = ℕ × Fields} (start, found) (index, payload) =
              some-eq (rw (here, find_payload) at h) in
            (
              0,
              ground (arith, ap (λ p. p.0) both),
              record {
                part = part;
                at = refl;
                timed = here ∙ ap (λ p. some p.1) both;
                first = λ i other lt. absurd (omega (arith, lt));
              },
            )
        | inl other ↦
            let (i, e, f) =
              find_payload-IsRead (suc start) index rest payload (rw (other, find_payload) at h) in
            (
              suc i,
              ground (arith, e),
              record {
                part = f.part;
                at = f.at;
                timed = f.timed;
                first = earlier part rest i other f.first;
              },
            )
      ]

  -- The place of the delay, by what is read of a part.
  abbrev pub IsFound : Fields → List Value → Source → Fields → Type 0
  IsFound details parts in_details payload = (payload ≡ details) × (has_key "tookMs" details ≡ true)
  IsFound details parts (in_content i) payload =
      (has_key "tookMs" details ≡ false) × IsRead parts i payload

  choose-IsFound :
      (details : Fields) (parts : List Value) (found : Option (ℕ × Fields))
      → has_key "tookMs" details ≡ false
      → find_payload loads 0 parts ≡ found
      → (n : Number) → duration (get "tookMs" (choose loads details found).0) ≡ some n
      → IsFound details parts (choose loads details found).1 (choose loads details found).0
  choose-IsFound details parts none absent e n h = absurd (no_duration details absent n h)
  choose-IsFound details parts (some (index, payload)) absent e n h =
      let (i, same, first) = find_payload-IsRead 0 index parts payload e in
      let is : i ≡ index = omega (arith, same) in
      (absent, subst (λ j. IsRead parts j payload) is first)

  pub find_delay-IsFound :
      (details : Fields) (parts : List Value) (n : Number)
      → duration (get "tookMs" (find_delay loads details parts).0) ≡ some n
      → IsFound details parts (find_delay loads details parts).1 (find_delay loads details parts).0
  unfolding find_delay
  find_delay-IsFound details parts n = elim (Bool-cases (has_key "tookMs" details)) [
    | inl here ↦ rw (here, find_delay) (λ h. (refl, here))
    | inr absent ↦
        rw (absent, find_delay)
          (choose-IsFound details parts (find_payload loads 0 parts) absent refl n)
  ]

  pub IsRead-IsFirst :
      (parts : List Value) (index : ℕ) (payload : Fields)
      → IsRead parts index payload
      → IsFirst parts index payload
  IsRead-IsFirst parts index payload r = record {
    part = r.part;
    at = r.at;
    timed = payload_of-HasTime r.part payload r.timed;
    first = λ i other lt at p has.
        absurd (cc (sym (HasTime-payload_of other p has) ∙ r.first i other lt at));
  }
