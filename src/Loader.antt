-- ===== src/Loader.antt =====
-- src/agenttrace/loader.py. The import of a module's attribute and the call of a factory are parameters,
-- and so is `str` of a value that is no text. Parsing holds proofs.
pub mod Parsing
use Prim.Native.Char.{code}
use atcr_agent_trace_collect.Prelude.{
  ℕ, ◌==◌, String, Option, none, some, List, [], ◌∷◌, if◌then◌else◌, Result, ok, err, ◌>>=◌,
}
use atcr_agent_trace_collect.Prelude.Texts.{Text, chars, string_of}
use atcr_agent_trace_collect.Json.{Value, Fields, str, dict, end, lookup, or_default}

pub data LoadError : Type 0 where
  -- ValueError
  bad_reference bad_profile bad_spec bad_config : LoadError
  -- what the import or the factory raises
  raised : ℕ → LoadError

-- `reference.split(":", 1)`, where there is a colon
unfoldable pub split_reference : Text → Option (Text × Text)
split_reference [] = none
split_reference (c ∷ rest) =
    let later = split_reference rest in
    if code c == 58
    then some ([], rest)
    else elim later [ none ↦ none | some (front, behind) ↦ some (c ∷ front, behind) ]

abbrev pub both_named : Text × Text → Result LoadError (String × String)
both_named ([], _) = err bad_reference
both_named (_ ∷ _, []) = err bad_reference
both_named (c ∷ front, d ∷ behind) = ok (string_of (c ∷ front), string_of (d ∷ behind))

-- The names of the module and of the symbol.
unfoldable pub parse_reference : String → Result LoadError (String × String)
unfolding split_reference
parse_reference reference = elim (split_reference (chars reference)) [
  | none ↦ err bad_reference
  | some parts ↦ both_named parts
]

-- `load_profile` on the value of the file
abbrev pub load_profile : Value → Result LoadError Fields
load_profile (dict d) = ok d
load_profile _ = err bad_profile

unfoldable pub load_symbol :
    {A : Type 0} → (String → String → Result LoadError A) → String → Result LoadError A
unfolding parse_reference
load_symbol import_symbol reference = do
  (module_name, symbol_name) ← parse_reference reference
  import_symbol module_name symbol_name

-- `str(value)`
abbrev pub text_of : (Value → String) → Value → String
text_of show (str s) = s
text_of show value = show value

-- `factory(config)`, for a configuration that is an object
abbrev pub configured : {B : Type 0} → (Fields → Result LoadError B) → Value → Result LoadError B
configured factory (dict config) = factory config
configured factory _ = err bad_config

unfoldable pub create_from_spec :
    {B : Type 0}
    → (Value → String)
    → (String → String → Result LoadError (Fields → Result LoadError B))
    → Value
    → Result LoadError B
unfolding load_symbol
create_from_spec show import_symbol (dict spec) = do
  factory ← load_symbol import_symbol (text_of show (or_default (str "") (lookup "factory" spec)))
  configured factory (or_default (dict end) (lookup "config" spec))
create_from_spec show import_symbol _ = err bad_spec
