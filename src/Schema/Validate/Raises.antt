-- ===== src/Schema/Validate/Raises.antt =====
-- What `validate_trace` of src/agenttrace/schema.py raises, by rules; and what its checks of the fields
-- raise.
use atcr_agent_trace_collect.Prelude.{
  ℕ, ◌+◌, String, Bool, true, false, ◌≡◌, subst, inl, inr, List, [], ◌∷◌, Result, ok, err, ◌>>=◌,
  >>=-eq-err, require, Option, none, some, if◌then◌else◌,
}
use atcr_agent_trace_collect.Json.{Value, Fields, int, str, list, dict}
use atcr_agent_trace_collect.Schema.Types.{
  Label, Error, no_nodes, duplicate_node, invalid_type, unhashable, missing_key, bad_depends_on,
  duplicate_dependency, dependency_cycle, unknown_dependency, out_of_fuel, NodeType, llm, tool,
}
use atcr_agent_trace_collect.Schema.Fields.{
  object, string, optional_string, check_source, check_context, check_sha256, check_artifact,
  check_artifacts, artifact_list, check_header,
}
use atcr_agent_trace_collect.Schema.Nodes.{check_output_tokens, check_body}

-- What is raised over the header, or over what a node holds besides its identifier, its type and its
-- dependencies.
abbrev pub IsOfFields : Error → Type 0
IsOfFields no_nodes = ⊥
IsOfFields (duplicate_node _) = ⊥
IsOfFields (invalid_type _ _) = ⊥
IsOfFields unhashable = ⊥
IsOfFields (bad_depends_on _) = ⊥
IsOfFields (duplicate_dependency _) = ⊥
IsOfFields (unknown_dependency _ _) = ⊥
IsOfFields dependency_cycle = ⊥
IsOfFields (missing_key _) = ⊥
IsOfFields out_of_fuel = ⊥
IsOfFields _ = Unit

-- What is raised meets `P`.
pub record Raises (P : Error → Type 0) {A : Type 0} (m : Result Error A) : Type 0 where
  pub at : (e : Error) → m ≡ err e → P e

module _ {P : Error → Type 0} {A : Type 0} where
  pub Raises-weaken :
      (Q : Error → Type 0) (m : Result Error A)
      → ((e : Error) → P e → Q e)
      → Raises P m
      → Raises Q m
  Raises-weaken Q m f h = record { at = λ e x. f e (h.at e x) }

  pub Raises-ok : (a : A) → Raises P {A = A} (ok a)
  Raises-ok a = record { at = λ e h. absurd (cc) }

  pub Raises-err : (e : Error) → P e → Raises P {A = A} (err e)
  Raises-err e r = record { at = λ f h. subst P (err-injective h) r }
    where
      err-injective : {f : Error} → ◌≡◌ {A = Result Error A} (err e) (err f) → e ≡ f
      err-injective h = cc

  pub Raises-if :
      (b : Bool) (m n : Result Error A) → Raises P m → Raises P n → Raises P (if b then m else n)
  Raises-if true m n h k = h
  Raises-if false m n h k = k

module _ {P : Error → Type 0} {A B : Type 0} where
  pub Raises-bind :
      (m : Result Error A) (f : A → Result Error B)
      → Raises P m
      → ((a : A) → Raises P (f a))
      → Raises P (m >>= f)
  Raises-bind m f h k = record {
    at = λ e x. elim (>>=-eq-err m f x) [
      | inl now ↦ h.at e now
      | inr (a, _, later) ↦ (k a).at e later
    ];
  }

  -- The rest may use that the first step returned.
  pub Raises-bind_of_ok :
      (m : Result Error A) (f : A → Result Error B)
      → Raises P m
      → ((a : A) → m ≡ ok a → Raises P (f a))
      → Raises P (m >>= f)
  Raises-bind_of_ok m f h k = record {
    at = λ e x. elim (>>=-eq-err m f x) [
      | inl now ↦ h.at e now
      | inr (a, done, later) ↦ (k a done).at e later
    ];
  }

pub Raises-require : {P : Error → Type 0} (b : Bool) (e : Error) → P e → Raises P (require b e)
Raises-require true e r = Raises-ok tt
Raises-require false e r = Raises-err e r

pub Raises-object : (v : Value) (l : Label) → Raises IsOfFields (object v l)
unfolding object
Raises-object (dict d) l = Raises-ok d
Raises-object _ l = Raises-err _ tt

pub Raises-string : (v : Value) (l : Label) → Raises IsOfFields (string v l)
unfolding string
Raises-string (str s) l = Raises-if _ _ _ (Raises-err _ tt) (Raises-ok s)
Raises-string _ l = Raises-err _ tt

ruleset basic_rules = (
  Raises-ok, Raises-err, Raises-if, Raises-bind, Raises-require, Raises-object, Raises-string, tt,
)

Raises-optional_string : (v : Value) (l : Label) → Raises IsOfFields (optional_string v l)
unfolding optional_string
Raises-optional_string v l = search basic_rules

Raises-check_sha256 : (index : ℕ) (o : Option Value) → Raises IsOfFields (check_sha256 index o)
unfolding check_sha256
Raises-check_sha256 index none = Raises-ok tt
Raises-check_sha256 index (some v) = search basic_rules

Raises-check_artifact :
    (index : ℕ) (seen : List String) (v : Value) → Raises IsOfFields (check_artifact index seen v)
unfolding check_artifact
Raises-check_artifact index seen v =
    search (basic_rules, Raises-optional_string, Raises-check_sha256) depth 14

Raises-check_artifacts :
    (index : ℕ) (seen : List String) (l : List Value)
    → Raises IsOfFields (check_artifacts index seen l)
unfolding check_artifacts
Raises-check_artifacts index seen [] = Raises-ok seen
Raises-check_artifacts index seen (v ∷ l) =
    Raises-bind _ _ (Raises-check_artifact index seen v)
      (λ a. Raises-check_artifacts (index + 1) (a ∷ seen) l)

Raises-artifact_list : (v : Value) → Raises IsOfFields (artifact_list v)
Raises-artifact_list (list items) = Raises-ok _
Raises-artifact_list _ = Raises-err _ tt

pub Raises-check_header : (trace : Fields) → Raises IsOfFields (check_header trace)
unfolding check_header check_source check_context
Raises-check_header trace =
    search (basic_rules, Raises-optional_string, Raises-check_artifacts, Raises-artifact_list) depth
      14

Raises-check_output_tokens :
    (node_id : String) (v : Value) → Raises IsOfFields (check_output_tokens node_id v)
unfolding check_output_tokens
Raises-check_output_tokens node_id (int n) = search basic_rules
Raises-check_output_tokens node_id _ = Raises-err _ tt

pub Raises-check_body :
    (type : NodeType) (node_id : String) (node request : Fields)
    → Raises IsOfFields (check_body type node_id node request)
unfolding check_body
Raises-check_body llm node_id node request =
    search (basic_rules, Raises-check_output_tokens) depth 14
Raises-check_body tool node_id node request = search basic_rules depth 14
