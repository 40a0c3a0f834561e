-- ===== src/Adapters/Minisweagent/Replace/Single.antt =====
-- `_replace_string` of src/agenttrace/adapters/minisweagent.py and `Bindings.rewrite` of
-- src/agenttrace/replay/bindings.py, where there is one binding.
use atcr_agent_trace_collect.Prelude.{
  ℕ, zero, suc, ◌-◌, String, [], ◌∷◌, ◌++◌, ◌≡◌, ◌≢◌, refl, sym, ap, ap₂, ◌∙◌, length, inl, inr,
  Bool-cases,
}
use atcr_agent_trace_collect.Prelude.Texts.{Text, chars, string_of}
use atcr_agent_trace_collect.Json.{
  Value, Items, Fields, null, bool, int, float, str, list, dict, nil, cons, end, entry,
}
use atcr_agent_trace_collect.Replay.Bindings.{
  is_prefix, first_match, scan, insert_longest, sort_longest, rewrite_text, rewrite, rewrite_items,
  rewrite_fields,
}
use atcr_agent_trace_collect.Adapters.Minisweagent.Replace.{
  replace_from, replace, replace_text, replace_string, replace_items, replace_fields,
}

scan-replace_from :
    (old new : Text) (skip : ℕ) (t : Text)
    → scan ((old, new) ∷ []) skip t ≡ replace_from old new skip t
unfolding scan first_match replace_from
scan-replace_from old new skip [] = refl
scan-replace_from old new (suc skip) (c ∷ t) = scan-replace_from old new skip t
scan-replace_from old new zero (c ∷ t) = elim (Bool-cases (is_prefix old (c ∷ t))) [
  | inl here ↦ rw (here, scan) (ap (λ l. new ++ l) (scan-replace_from old new (length old - 1) t))
  | inr other ↦ rw (other, scan) (ap (λ l. c ∷ l) (scan-replace_from old new 0 t))
]

replace-replace_from : (old new t : Text) → old ≢ [] → replace old new t ≡ replace_from old new 0 t
unfolding replace
replace-replace_from [] new t h = absurd (h refl)
replace-replace_from (c ∷ old) new t h = refl

chars_ne : (old : String) → old ≢ "" → chars old ≢ []
chars_ne String.[] h = absurd (h refl)
chars_ne (String.◌∷◌ c s) h = λ e. cc

rewrite_text-replace_text :
    (old new s : String) → old ≢ "" → rewrite_text ((old, new) ∷ []) s ≡ replace_text old new s
unfolding rewrite_text sort_longest insert_longest replace_text
rewrite_text-replace_text old new s h = ap string_of (
    scan-replace_from (chars old) (chars new) 0 (chars s)
    ∙ sym (replace-replace_from (chars old) (chars new) (chars s) (chars_ne old h)))

module _ (old new : String) (named : old ≢ "") where
  mutual
    unfolding rewrite rewrite_items rewrite_fields replace_string replace_items replace_fields

    rewrite-replace_value : (v : Value) → rewrite ((old, new) ∷ []) v ≡ replace_string old new v
    rewrite-replace_value (str s) = ap (λ t. str t) (rewrite_text-replace_text old new s named)
    rewrite-replace_value (list items) = ap (λ l. list l) (rewrite-replace_items items)
    rewrite-replace_value (dict fields) = ap (λ d. dict d) (rewrite-replace_fields fields)
    rewrite-replace_value null = refl
    rewrite-replace_value (bool b) = refl
    rewrite-replace_value (int n) = refl
    rewrite-replace_value (float x) = refl

    rewrite-replace_items :
        (items : Items) → rewrite_items ((old, new) ∷ []) items ≡ replace_items old new items
    rewrite-replace_items nil = refl
    rewrite-replace_items (cons v rest) =
        ap₂ (λ w l. cons w l) (rewrite-replace_value v) (rewrite-replace_items rest)

    rewrite-replace_fields :
        (fields : Fields) → rewrite_fields ((old, new) ∷ []) fields ≡ replace_fields old new fields
    rewrite-replace_fields end = refl
    rewrite-replace_fields (entry k v rest) =
        ap₂ (λ w l. entry k w l) (rewrite-replace_value v) (rewrite-replace_fields rest)

-- One replacement of the mini-SWE-agent executor, for a text that is not empty, is the rewriting of the
-- replay bindings with that one binding, on every argument.
pub rewrite-replace_string :
    (old new : String) (v : Value)
    → old ≢ ""
    → rewrite ((old, new) ∷ []) v ≡ replace_string old new v
rewrite-replace_string old new v named = rewrite-replace_value old new named v
