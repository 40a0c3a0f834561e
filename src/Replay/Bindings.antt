-- ===== src/Replay/Bindings.antt =====
-- src/agenttrace/replay/bindings.py: the dictionary from recorded to replayed texts, the rewriting of
-- arguments, and what is learnt from results.
pub mod Longest
pub mod Rewriting
pub mod Learned
pub mod Learning
pub mod Taught
pub mod Places
pub mod Results
use Prim.Native.Char.{Char, code}
use atcr_agent_trace_collect.Prelude.Texts.{Text, chars, string_of}
use atcr_agent_trace_collect.Prelude.{
  ℕ, zero, suc, ◌-◌, ◌==◌, leb, String, str_eq, Bool, true, false, not, ◌&&◌, Option, none, some,
  List, [], ◌∷◌, ◌++◌, map, if◌then◌else◌, length, ◌||◌,
}
use atcr_agent_trace_collect.Json.{
  Value, Items, Fields, null, bool, int, float, str, list, dict, nil, cons, end, entry, lookup,
}

-- `self._values`, in insertion order
abbrev pub Bindings : Type 0
Bindings = List (String × String)

-- `self._values[recorded] = replayed`
unfoldable pub assign : String → String → Bindings → Bindings
assign recorded replayed [] = (recorded, replayed) ∷ []
assign recorded replayed ((k, v) ∷ rest) =
    if str_eq recorded k then (k, replayed) ∷ rest else (k, v) ∷ assign recorded replayed rest

-- `if recorded and replayed and recorded != replayed`
unfoldable pub add : String → String → Bindings → Bindings
unfolding assign
add recorded replayed b =
    if not (str_eq recorded "") && not (str_eq replayed "") && not (str_eq recorded replayed)
    then assign recorded replayed b
    else b

-- `Bindings(initial)`: a dictionary display assigns its entries in turn.
unfoldable pub assign_all : Bindings → List (String × String) → Bindings
unfolding assign
assign_all b [] = b
assign_all b ((k, v) ∷ rest) = assign_all (assign k v b) rest

-- `self._values` as the alternatives of the pattern, before they are sorted.
abbrev pub Alternatives : Type 0
Alternatives = List (Text × Text)

abbrev pub alternatives : Bindings → Alternatives
alternatives [] = []
alternatives ((k, v) ∷ b) = (chars k, chars v) ∷ alternatives b

-- `sorted(self._values, key=len, reverse=True)`: equal lengths keep their order.
unfoldable pub insert_longest : Text × Text → Alternatives → Alternatives
insert_longest e [] = e ∷ []
insert_longest e (f ∷ rest) =
    if leb (length f.0) (length e.0) then e ∷ f ∷ rest else f ∷ insert_longest e rest

unfoldable pub sort_longest : Alternatives → Alternatives
unfolding insert_longest
sort_longest [] = []
sort_longest (e ∷ rest) = insert_longest e (sort_longest rest)

abbrev pub is_prefix : Text → Text → Bool
is_prefix [] t = true
is_prefix (a ∷ k) [] = false
is_prefix (a ∷ k) (c ∷ t) = (code a == code c) && is_prefix k t

-- `"|".join(re.escape(item) ...)`: the first alternative that matches at a position.
unfoldable pub first_match : Alternatives → Text → Option (Text × Text)
first_match [] t = none
first_match ((k, v) ∷ rest) t = if is_prefix k t then some (k, v) else first_match rest t

-- `pattern.sub`: `skip` characters of the last match are left to pass over. Replaced text is not
-- searched again.
unfoldable pub scan : Alternatives → ℕ → Text → Text
unfolding first_match
scan alts skip [] = []
scan alts (suc skip) (c ∷ t) = scan alts skip t
scan alts zero (c ∷ t) = elim (first_match alts (c ∷ t)) [
  | none ↦ c ∷ scan alts 0 t
  | some (k, v) ↦ v ++ scan alts (length k - 1) t
]

-- `rewrite` on a text
unfoldable pub rewrite_text : Bindings → String → String
unfolding scan sort_longest
rewrite_text [] s = s
rewrite_text b s = string_of (scan (sort_longest (alternatives b)) 0 (chars s))

unfoldable mutual
  unfolding rewrite_text

  pub rewrite : Bindings → Value → Value
  rewrite b (str s) = str (rewrite_text b s)
  rewrite b (list items) = list (rewrite_items b items)
  rewrite b (dict fields) = dict (rewrite_fields b fields)
  rewrite b null = null
  rewrite b (bool x) = bool x
  rewrite b (int n) = int n
  rewrite b (float x) = float x

  pub rewrite_items : Bindings → Items → Items
  rewrite_items b nil = nil
  rewrite_items b (cons v rest) = cons (rewrite b v) (rewrite_items b rest)

  pub rewrite_fields : Bindings → Fields → Fields
  rewrite_fields b end = end
  rewrite_fields b (entry k v rest) = entry k (rewrite b v) (rewrite_fields b rest)
