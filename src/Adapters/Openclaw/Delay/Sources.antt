-- ===== src/Adapters/Openclaw/Delay/Sources.antt =====
-- Where `_recorded_search_delay` of src/agenttrace/adapters/openclaw.py finds the time.
use atcr_agent_trace_collect.Prelude.{
  ◌==◌, String, Bool, true, false, not, ◌&&◌, ◌||◌, Option, some, List, [], ◌≡◌, refl, sym, ap, ◌∙◌,
  subst, ◌⊎◌, inl, inr, ok, >>=-eq-ok, arith, Bool-cases, Option-cases, ◌>>=◌, if◌then◌else◌,
}
use atcr_agent_trace_collect.Json.{Value, Fields, dict, lookup, get}
use atcr_agent_trace_collect.Json.Access.{item_of, iterate}
use atcr_agent_trace_collect.Json.Equality.{Number, number}
use atcr_agent_trace_collect.Adapters.Problems.{Problem}
use atcr_agent_trace_collect.Adapters.Openclaw.Delay.{
  Source, in_details, in_content, Delay, is_bool, has_key, duration, find_delay, delay_of,
  recorded_search_delay,
}
use atcr_agent_trace_collect.Adapters.Openclaw.Delay.Parts.{
  some-eq, ok-eq, dict-eq, item-ok, item_of-ok, dictionary-ok, IsFirst, IsFound, find_delay-IsFound,
  IsRead-IsFirst,
}

module _ (loads : String → Option Value) where
  -- The place of the delay: the details where they have a time, else the first part of the content
  -- whose text has one.
  abbrev pub IsPlaced : Fields → Fields → Source → Fields → Type 0
  IsPlaced result details in_details payload =
      (payload ≡ details) × (has_key "tookMs" details ≡ true)
  IsPlaced result details (in_content i) payload =
      (has_key "tookMs" details ≡ false)
      × ((content : Value) × (parts : List Value) × (lookup "content" result ≡ some content)
          × (iterate {P = Problem} content ≡ ok parts)
          × IsFirst loads parts i payload)

  IsFound-IsPlaced :
      (result details : Fields) (parts : List Value) (source : Source) (payload : Fields)
      → (if has_key "tookMs" details
          then ok []
          else item_of {P = Problem} "content" (dict result) >>= iterate {P = Problem})
        ≡ ok parts
      → IsFound loads details parts source payload
      → IsPlaced result details source payload
  IsFound-IsPlaced result details parts in_details payload read found = found
  IsFound-IsPlaced result details parts (in_content i) payload read (absent, found) =
      let (content, taken, listed) = >>=-eq-ok _ _ (rw absent at read) in
      let (d, is, there) = item_of-ok "content" (dict result) content taken in
      (
        absent,
        (
          content,
          parts,
          subst (λ k. lookup "content" k ≡ some content) (dict-eq (sym is)) there,
          listed,
          IsRead-IsFirst loads parts i payload found,
        ),
      )

-- A duration is a number that is not negative.
abbrev pub IsDuration : Value → Number → Type 0
IsDuration value n =
    (number value ≡ some n) × (is_bool value ≡ false) × ((n.negative ≡ false) ⊎ (n.mantissa ≡ 0))

duration-IsDuration : (value : Value) (n : Number) → duration value ≡ some n → IsDuration value n
unfolding duration
duration-IsDuration value n h = elim (Option-cases (number value)) [
  | inl other ↦ absurd (cc (rw (other, duration) at h))
  | inr (m, is) ↦ elim (Bool-cases (is_bool value || (m.negative && not (m.mantissa == 0)))) [
    | inl refused ↦ absurd (cc (rw (is, refused, duration) at h))
    | inr fine ↦
        let same : m ≡ n = some-eq (rw (is, fine, duration) at h) in
        (
          is ∙ ap some same,
          no_bool (is_bool value) _ fine,
          subst (λ k. (k.negative ≡ false) ⊎ (k.mantissa ≡ 0)) same (not_negative m _ fine),
        )
  ]
]
  where
    no_bool : (a b : Bool) → (a || b) ≡ false → a ≡ false
    no_bool false b h = refl
    no_bool true b h = cc

    not_negative :
        (m : Number) (a : Bool)
        → (a || (m.negative && not (m.mantissa == 0))) ≡ false
        → (m.negative ≡ false) ⊎ (m.mantissa ≡ 0)
    not_negative m a h = elim (Bool-cases m.negative) [
      | inr positive ↦ inl positive
      | inl negative ↦ inr (ground (arith, h, negative))
    ]

module _ (loads : String → Option Value) where
  delay_of-ok :
      (node details : Fields) (found : Fields × Source) (d : Delay)
      → delay_of loads node details found ≡ ok d
      → (duration (get "tookMs" found.0) ≡ some d.milliseconds) × (d.source ≡ found.1)
  unfolding delay_of
  delay_of-ok node details (payload, source) d h =
      elim (Option-cases (duration (get "tookMs" payload))) [
        | inr (n, is) ↦
            let same = ok-eq (rw (is, delay_of) at h) in
            (
              is ∙ ap (λ (x : Delay). some x.milliseconds) same,
              ap (λ (x : Delay). x.source) (sym same),
            )
        | inl other ↦
            let (_, _, never) = >>=-eq-ok _ _ (rw (other, delay_of) at h) in absurd (cc never)
      ]

  -- A delay that is found is a finite number of milliseconds that is not negative. It is taken from the
  -- details of the node's recorded result where they have a time, and else from the first part of that
  -- result's content that is a text whose JSON is an object with one.
  pub recorded_search_delay-IsPlaced :
      (node : Fields) (d : Delay)
      → recorded_search_delay loads node ≡ ok d
      → (result : Fields) × (details : Fields) × (payload : Fields) × (lookup "recorded_result" node
          ≡ some (dict result))
        × (lookup "details" result ≡ some (dict details))
        × IsPlaced loads result details d.source payload
        × IsDuration (get "tookMs" payload) d.milliseconds
  unfolding recorded_search_delay
  recorded_search_delay-IsPlaced node d h =
      let (value, taken, h1) = >>=-eq-ok _ _ h in
      let (inner, read, h2) = >>=-eq-ok _ _ h1 in
      let (details, is_dict, h3) = >>=-eq-ok _ _ h2 in
      let (parts, listed, h4) = >>=-eq-ok _ _ h3 in
      let (result, is_result, there) = item_of-ok "details" value inner read in
      let found = find_delay loads details parts in
      let (is, from) = delay_of-ok node details found d h4 in
      (
        result,
        details,
        found.0,
        item-ok "recorded_result" node value taken ∙ ap some is_result,
        there ∙ ap some (dictionary-ok inner details is_dict),
        IsFound-IsPlaced loads result details parts d.source found.0
            (subst
              (λ v.
                (if has_key "tookMs" details
                  then ok []
                  else item_of {P = Problem} "content" v >>= iterate {P = Problem})
                ≡ ok parts)
              is_result listed)
            (subst (λ s. IsFound loads details parts s found.0) (sym from)
              (find_delay-IsFound loads details parts d.milliseconds is)),
        duration-IsDuration (get "tookMs" found.0) d.milliseconds is,
      )
