-- ===== src/Replay/Llm/Payload.antt =====
-- The payload that `execute` of src/agenttrace/replay/llm.py sends, against the recorded one.
use atcr_agent_trace_collect.Prelude.{
  String, str_eq, Bool, true, false, ◌&&◌, ◌||◌, ◌≡◌, sym, ◌∙◌, ap, Option, none, some, arith,
  eq_iff, eq_refl, subst, Result, ok, if◌then◌else◌,
}
use atcr_agent_trace_collect.Prelude.Int.{ℤ}
use atcr_agent_trace_collect.Json.{
  Value, Fields, dict, bool, int, end, lookup, assign, lookup-assign, str,
}
use atcr_agent_trace_collect.Replay.Llm.{
  Settings, Error, include_usage, override_model, set_ignore_eos, fixed_fields, build_payload,
}

-- The keys that `execute` sets besides the one for the number of tokens.
abbrev pub is_flag : String → Bool
is_flag key =
    str_eq key "stream"
    || str_eq key "stream_options"
    || str_eq key "model"
    || str_eq key "ignore_eos"

-- `payload["model"]`: the recorded model, or the executor's.
abbrev pub model_of : Option String → Option Value → Option Value
model_of none recorded = recorded
model_of (some m) recorded = if str_eq m "" then recorded else some (str m)

-- The options of the stream: they ask for the usage and keep the other recorded options.
abbrev pub AsksUsage : Option Value → Option Value → Type 0
AsksUsage none (some (dict options)) = lookup "include_usage" options ≡ some (bool true)
AsksUsage (some (dict old)) (some (dict options)) =
    (lookup "include_usage" options ≡ some (bool true))
    × ((key : String) → str_eq key "include_usage" ≡ false → lookup key options ≡ lookup key old)
AsksUsage _ _ = ⊥

-- `p` is `recorded` with exactly the executor's settings changed.
pub record IsPayload (c : Settings) (target : ℤ) (recorded p : Fields) : Type 0 where
  pub streamed : lookup "stream" p ≡ some (bool true)
  pub limited : lookup c.max_tokens_field p ≡ some (int target)
  pub model : lookup "model" p ≡ model_of c.model_override (lookup "model" recorded)
  pub eos :
      lookup "ignore_eos" p
      ≡ (if c.ignore_eos then some (bool true) else lookup "ignore_eos" recorded)
  pub options : AsksUsage (lookup "stream_options" recorded) (lookup "stream_options" p)
  pub kept :
      (key : String)
      → is_flag key ≡ false
      → str_eq key c.max_tokens_field ≡ false
      → lookup key p ≡ lookup key recorded

ok-eq : {s t : Fields} → ◌≡◌ {A = Result Error Fields} (ok s) (ok t) → s ≡ t
ok-eq h = cc

override_model-lookup :
    (m : Option String) (key : String) (p : Fields)
    → lookup key (override_model m p)
      ≡ (if str_eq key "model" then model_of m (lookup "model" p) else lookup key p)
unfolding override_model
override_model-lookup none key p = ground (arith, eq_iff key "model")
override_model-lookup (some m) key p =
    ground (arith, eq_iff key "model", lookup-assign "model" key (str m) p)

set_ignore_eos-lookup :
    (b : Bool) (key : String) (p : Fields)
    → lookup key (set_ignore_eos b p) ≡ (
        if str_eq key "ignore_eos"
        then (if b then some (bool true) else lookup "ignore_eos" p)
        else lookup key p)
unfolding set_ignore_eos
set_ignore_eos-lookup true key p =
    ground (arith, eq_iff key "ignore_eos", lookup-assign "ignore_eos" key (bool true) p)
set_ignore_eos-lookup false key p = ground (arith, eq_iff key "ignore_eos")

module _ (c : Settings) (target : ℤ) (recorded : Fields) where
  abbrev limit : String
  limit = c.max_tokens_field

  fixed_fields-lookup :
      (key : String)
      → lookup key (fixed_fields c target recorded) ≡ (
          if str_eq key "stream"
          then some (bool true)
          else if str_eq key "ignore_eos" && c.ignore_eos
          then some (bool true)
          else if str_eq key limit
          then some (int target)
          else if str_eq key "model"
          then model_of c.model_override (lookup "model" recorded)
          else lookup key recorded)
  unfolding fixed_fields
  fixed_fields-lookup key =
      let overridden = override_model c.model_override recorded in
      let limited = assign limit (int target) overridden in
      ground (
        arith,
        eq_iff key "stream",
        eq_iff key "ignore_eos",
        lookup-assign "stream" key (bool true) (set_ignore_eos c.ignore_eos limited),
        set_ignore_eos-lookup c.ignore_eos key limited,
        lookup-assign limit key (int target) overridden,
        lookup-assign limit "ignore_eos" (int target) overridden,
        override_model-lookup c.model_override key recorded,
      )

assign-lookup : (key : String) (v : Value) (d : Fields) → lookup key (assign key v d) ≡ some v
assign-lookup key v d = ground (arith, eq_iff key key, lookup-assign key key v d)

include_usage-options :
    (found : Option Value) (p q : Fields)
    → include_usage found p ≡ ok q
    → (options : Fields) × AsksUsage found (some (dict options))
      × (q ≡ assign "stream_options" (dict options) p)
unfolding include_usage assign
include_usage-options none p q h =
    (assign "include_usage" (bool true) end, assign-lookup "include_usage" (bool true) end, cc)
include_usage-options (some (dict d)) p q h = (
  assign "include_usage" (bool true) d,
  (
    assign-lookup "include_usage" (bool true) d,
    λ key other.
        lookup-assign "include_usage" key (bool true) d
        ∙ ap (λ b. if b then some (bool true) else lookup key d) other,
  ),
  sym (ok-eq h),
)
include_usage-options (some _) p q h = cc

-- If the field for the number of tokens is none of the other four keys, a payload that is built is
-- the recorded one with the executor's settings: it is streamed, it asks for the recorded number of
-- tokens and for the usage, its model and `ignore_eos` are the executor's where those are set, and
-- every other key, also of the recorded stream options, is as recorded.
pub build_payload-IsPayload :
    (c : Settings) (target : ℤ) (recorded p : Fields)
    → is_flag c.max_tokens_field ≡ false
    → build_payload c target recorded ≡ ok p
    → IsPayload c target recorded p
unfolding build_payload
build_payload-IsPayload c target recorded p plain h =
    let f = fixed_fields c target recorded in
    let (options, asks, p-eq) = include_usage-options (lookup "stream_options" f) f p h in
    let at = λ (key : String).
      ap (lookup key) p-eq ∙ lookup-assign "stream_options" key (dict options) f in
    let fixed = fixed_fields-lookup c target recorded in
    let limit = c.max_tokens_field in
    let unchanged : lookup "stream_options" f ≡ lookup "stream_options" recorded =
      ground (arith, fixed "stream_options", plain, eq_iff "stream_options" limit) in
    record {
      streamed = ground (arith, at "stream", fixed "stream");
      limited = ground (arith, at limit, fixed limit, plain, eq_refl limit);
      model = ground (arith, at "model", fixed "model", plain, eq_iff "model" limit);
      eos = ground (arith, at "ignore_eos", fixed "ignore_eos", plain, eq_iff "ignore_eos" limit);
      options =
          subst (λ old. AsksUsage old (lookup "stream_options" p)) unchanged
            (subst (λ new. AsksUsage (lookup "stream_options" f) new) (sym (at "stream_options"))
              asks);
      kept = λ key no_flag no_limit. ground (arith, at key, fixed key, no_flag, no_limit);
    }
