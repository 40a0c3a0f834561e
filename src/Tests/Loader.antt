-- ===== src/Tests/Loader.antt =====
-- src/agenttrace/loader.py on one profile.
use Prim.Native.Char.{char}
use atcr_agent_trace_collect.Prelude.{String, some, [], ◌≡◌, ◌≢◌, ◌⊎◌, refl, Result, ok, err, ◌>>=◌}
use atcr_agent_trace_collect.Json.{Fields, str, dict, end, entry, lookup}
use atcr_agent_trace_collect.Loader.{LoadError, bad_config, create_from_spec}
use atcr_agent_trace_collect.Loader.Parsing.{config_of, create_from_spec-imports}

abbrev spec : Fields
spec = entry "factory" (str "m:f") (entry "config" (dict end) end)

abbrev import_symbol : String → String → Result LoadError (Fields → Result LoadError String)
import_symbol module_name symbol_name = ok (λ config. ok symbol_name)

factory-case : lookup "factory" spec ≡ some (str "m:f")
unfolding lookup
factory-case = refl

create_from_spec-imports_example :
    ((config : Fields) × (config_of spec ≡ dict config)
      × (create_from_spec (λ _. "?") import_symbol (dict spec)
          ≡ (import_symbol "m" "f" >>= λ factory. factory config)))
    ⊎ (((config : Fields) → config_of spec ≢ dict config)
        × (create_from_spec (λ _. "?") import_symbol (dict spec)
            ≡ (import_symbol "m" "f" >>= λ _. err bad_config)))
create_from_spec-imports_example =
    create_from_spec-imports (λ _. "?") import_symbol spec (char 109 tt) (char 102 tt) [] []
      (char 58 tt) refl (refl, tt) factory-case
