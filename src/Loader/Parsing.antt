-- ===== src/Loader/Parsing.antt =====
-- Which references src/agenttrace/loader.py takes.
use Prim.Native.Char.{Char, code}
use atcr_agent_trace_collect.Prelude.{
  ◌==◌, String, true, false, some, [], ◌∷◌, ◌++◌, ◌≡◌, refl, ap, ◌∙◌, All, Result, ok, err, ◌>>=◌,
  ◌≢◌, ◌⊎◌, inl, inr, arith,
}
use atcr_agent_trace_collect.Prelude.Texts.{Text, chars, string_of, chars-string_of}
use atcr_agent_trace_collect.Json.{Value, Fields, str, dict, end, lookup, or_default}
use atcr_agent_trace_collect.Loader.{
  split_reference, parse_reference, both_named, load_symbol, create_from_spec, LoadError,
  configured, bad_config,
}

split_reference-joined :
    (front behind : Text) (colon : Char)
    → (code colon == 58) ≡ true
    → All (λ c. (code c == 58) ≡ false) front
    → split_reference (front ++ colon ∷ behind) ≡ some (front, behind)
unfolding split_reference
split_reference-joined [] behind colon is none_in = ground (arith, is)
split_reference-joined (c ∷ front) behind colon is (first, others) =
    rw (first, split_reference-joined front behind colon is others) refl

parse_reference-split :
    (s : String) (names : Text × Text)
    → split_reference (chars s) ≡ some names
    → parse_reference s ≡ both_named names
unfolding parse_reference
parse_reference-split s names h = rw (h, parse_reference) refl

parse_reference-joined :
    (c d : Char) (front behind : Text) (colon : Char)
    → (code colon == 58) ≡ true
    → All (λ x. (code x == 58) ≡ false) (c ∷ front)
    → parse_reference (string_of ((c ∷ front) ++ colon ∷ d ∷ behind))
      ≡ ok (string_of (c ∷ front), string_of (d ∷ behind))
parse_reference-joined c d front behind colon is no_colon =
    parse_reference-split (string_of ((c ∷ front) ++ colon ∷ d ∷ behind)) (c ∷ front, d ∷ behind)
      (ap split_reference (chars-string_of ((c ∷ front) ++ colon ∷ d ∷ behind))
        ∙ split_reference-joined (c ∷ front) (d ∷ behind) colon is no_colon)

-- The configuration that a factory is given: the entry "config", an empty object where there is none.
abbrev pub config_of : Fields → Value
config_of spec = or_default (dict end) (lookup "config" spec)

configured-cases :
    {B : Type 0} (r : Result LoadError (Fields → Result LoadError B)) (value : Value)
    → ((config : Fields) × (value ≡ dict config)
        × ((r >>= λ factory. configured factory value) ≡ (r >>= λ factory. factory config)))
      ⊎ (((config : Fields) → value ≢ dict config)
          × ((r >>= λ factory. configured factory value) ≡ (r >>= λ _. err bad_config)))
configured-cases r (dict config) = inl (config, refl, refl)
configured-cases r value = inr ((λ config h. cc), refl)

-- A profile whose factory is named by a module without a colon, a colon and a symbol, neither name
-- empty, imports that symbol of that module and no other. Where its entry "config" is an object, or
-- there is no such entry, the factory is called with that object, or with an empty one; with any other
-- configuration the profile is refused for it, once the import has succeeded.
pub create_from_spec-imports :
    {B : Type 0} (show : Value → String)
    (import_symbol : String → String → Result LoadError (Fields → Result LoadError B))
    (spec : Fields) (c d : Char) (front behind : Text) (colon : Char)
    → (code colon == 58) ≡ true
    → All (λ x. (code x == 58) ≡ false) (c ∷ front)
    → lookup "factory" spec ≡ some (str (string_of ((c ∷ front) ++ colon ∷ d ∷ behind)))
    → ((config : Fields) × (config_of spec ≡ dict config)
        × (create_from_spec show import_symbol (dict spec) ≡ (
            import_symbol (string_of (c ∷ front)) (string_of (d ∷ behind)) >>= λ factory.
            factory config)))
      ⊎ (((config : Fields) → config_of spec ≢ dict config)
          × (create_from_spec show import_symbol (dict spec) ≡ (
              import_symbol (string_of (c ∷ front)) (string_of (d ∷ behind)) >>= λ _.
              err bad_config)))
unfolding create_from_spec load_symbol ◌>>=◌
create_from_spec-imports show import_symbol spec c d front behind colon is no_colon there =
    rw (there, parse_reference-joined c d front behind colon is no_colon)
      (configured-cases (import_symbol (string_of (c ∷ front)) (string_of (d ∷ behind)))
        (config_of spec))
