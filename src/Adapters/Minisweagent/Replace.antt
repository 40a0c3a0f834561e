-- ===== src/Adapters/Minisweagent/Replace.antt =====
-- `str.replace` and `_replace_string` of src/agenttrace/adapters/minisweagent.py.
pub mod Single
use atcr_agent_trace_collect.Prelude.{
  ℕ, zero, suc, ◌-◌, String, Bool, true, false, List, [], ◌∷◌, ◌++◌, if◌then◌else◌, length,
}
use atcr_agent_trace_collect.Prelude.Texts.{Text, chars, string_of}
use atcr_agent_trace_collect.Json.{
  Value, Items, Fields, null, bool, int, float, str, list, dict, nil, cons, end, entry,
}
use atcr_agent_trace_collect.Replay.Bindings.{is_prefix}

-- From left to right: `skip` characters of the last occurrence are left to pass over.
unfoldable pub replace_from : (old new : Text) → ℕ → Text → Text
replace_from old new skip [] = []
replace_from old new (suc skip) (c ∷ t) = replace_from old new skip t
replace_from old new zero (c ∷ t) =
    let kept = c ∷ replace_from old new 0 t in
    let replaced = new ++ replace_from old new (length old - 1) t in
    if is_prefix old (c ∷ t) then replaced else kept

-- An empty text stands in front of every character and at the end.
unfoldable pub interleave : Text → Text → Text
interleave new [] = new
interleave new (c ∷ t) = new ++ c ∷ interleave new t

unfoldable pub replace : (old new : Text) → Text → Text
unfolding replace_from interleave
replace [] new t = interleave new t
replace (c ∷ old) new t = replace_from (c ∷ old) new 0 t

-- `value.replace(old, new)`
unfoldable pub replace_text : (old new : String) → String → String
unfolding replace
replace_text old new s = string_of (replace (chars old) (chars new) (chars s))

unfoldable mutual
  unfolding replace_text

  pub replace_string : (old new : String) → Value → Value
  replace_string old new (str s) = str (replace_text old new s)
  replace_string old new (list items) = list (replace_items old new items)
  replace_string old new (dict fields) = dict (replace_fields old new fields)
  replace_string old new null = null
  replace_string old new (bool b) = bool b
  replace_string old new (int n) = int n
  replace_string old new (float x) = float x

  pub replace_items : (old new : String) → Items → Items
  replace_items old new nil = nil
  replace_items old new (cons v rest) = cons (replace_string old new v) (replace_items old new rest)

  pub replace_fields : (old new : String) → Fields → Fields
  replace_fields old new end = end
  replace_fields old new (entry k v rest) =
      entry k (replace_string old new v) (replace_fields old new rest)
