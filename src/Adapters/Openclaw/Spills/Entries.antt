-- ===== src/Adapters/Openclaw/Spills/Entries.antt =====
-- The entries of `capture_spill_artifacts` in src/agenttrace/adapters/openclaw.py, as `validate_trace` of
-- src/agenttrace/schema.py reads them.
use atcr_agent_trace_collect.Prelude.{
  ℕ, ◌+◌, ◌<◌, String, str_eq, Bool, true, false, not, Option, none, some, List, [], ◌∷◌, ◌++◌, ◌≡◌,
  ◌≢◌, refl, ap, sym, subst, length, ok, ◌>>=◌, eq_iff, arith,
}
use atcr_agent_trace_collect.Prelude.Names.{contains}
use atcr_agent_trace_collect.Prelude.Texts.{numbered_name, numbered_name_inj}
use atcr_agent_trace_collect.Json.{Value, dict, get, lookup}
use atcr_agent_trace_collect.Schema.Fields.{
  object, string, optional_string, check_artifact, check_artifacts,
}
use atcr_agent_trace_collect.Adapters.Openclaw.Spills.{Artifact, artifact_fields}

abbrev pub captured_paths : List Artifact → List String
captured_paths [] = []
captured_paths (a ∷ rest) = a.captured_path ∷ captured_paths rest

abbrev pub values_of : List Artifact → List Value
values_of [] = []
values_of (a ∷ rest) = dict (artifact_fields a) ∷ values_of rest

abbrev pub is_filled : Option String → Bool
is_filled none = true
is_filled (some s) = not (str_eq s "")

pub record IsEntry (k : ℕ) (a : Artifact) : Type 0 where
  pub numbered : a.id ≡ numbered_name "tool-output-" k
  pub captured : str_eq a.captured_path "" ≡ false
  pub placed : str_eq a.path "" ≡ false
  pub checksum : is_filled a.sha256 ≡ true

abbrev pub AreEntries : ℕ → List Artifact → Type 0
AreEntries k [] = Unit {0}
AreEntries k (a ∷ rest) = IsEntry (k + 1) a × AreEntries (k + 1) rest

pub AreEntries-snoc :
    (k : ℕ) (found : List Artifact) (a : Artifact)
    → AreEntries k found
    → IsEntry (k + length found + 1) a
    → AreEntries k (found ++ a ∷ [])
AreEntries-snoc k [] a h e = (subst (λ n. IsEntry n a) (omega arith) e, tt)
AreEntries-snoc k (b ∷ rest) a h e =
    (h.0, AreEntries-snoc (k + 1) rest a h.1 (subst (λ n. IsEntry n a) (omega arith) e))

pub captured_paths-snoc :
    (found : List Artifact) (a : Artifact)
    → captured_paths (found ++ a ∷ []) ≡ captured_paths found ++ a.captured_path ∷ []
captured_paths-snoc [] a = refl
captured_paths-snoc (b ∷ rest) a = ap (λ t. b.captured_path ∷ t) (captured_paths-snoc rest a)

-- One entry passes, if its identifier is new.
check_artifact-entry :
    (index : ℕ) (seen : List String) (id captured path : String) (sha256 : Option String)
    → str_eq id "" ≡ false
    → contains id seen ≡ false
    → str_eq captured "" ≡ false
    → str_eq path "" ≡ false
    → is_filled sha256 ≡ true
    → check_artifact index seen (
        dict (
          artifact_fields
            (record { id = id; captured_path = captured; path = path; sha256 = sha256 })))
      ≡ ok id
unfolding check_artifact object string optional_string get lookup ◌>>=◌
check_artifact-entry index seen id captured path none named new c p s = rw (named, new, c, p) refl
check_artifact-entry index seen id captured path (some sha256) named new c p s =
    let filled : str_eq sha256 "" ≡ false = ground (arith, s) in rw (named, new, c, p, filled) refl

-- No later number has been seen.
abbrev AreEarlier : ℕ → List String → Type 0
AreEarlier k seen = (n : ℕ) → k < n → contains (numbered_name "tool-output-" n) seen ≡ false

AreEarlier-next :
    (k : ℕ) (seen : List String)
    → AreEarlier k seen
    → AreEarlier (k + 1) (numbered_name "tool-output-" (k + 1) ∷ seen)
unfolding contains
AreEarlier-next k seen h n later = ground (
  arith,
  h n (omega (arith, later)),
  eq_iff (numbered_name "tool-output-" n) (numbered_name "tool-output-" (k + 1)),
  numbered_name_inj "tool-output-" n (k + 1),
  later,
)

name_begins : (n : ℕ) → ◌≢◌ {A = String} (numbered_name "tool-output-" n) ""
unfolding numbered_name
name_begins n = cc

name_filled : (n : ℕ) → str_eq (numbered_name "tool-output-" n) "" ≡ false
name_filled n = ground (arith, eq_iff (numbered_name "tool-output-" n) "", name_begins n)

pub check_artifacts-entries :
    (k : ℕ) (seen : List String) (found : List Artifact)
    → AreEntries k found
    → AreEarlier k seen
    → (ids : List String) × (check_artifacts k seen (values_of found) ≡ ok ids)
unfolding check_artifacts ◌>>=◌
check_artifacts-entries k seen [] h e = (seen, refl)
check_artifacts-entries k seen (a ∷ rest) h e =
    let one = h.0 in
    let id_is : numbered_name "tool-output-" (k + 1) ≡ a.id = sym one.numbered in
    let (ids, checked) =
      check_artifacts-entries (k + 1) (a.id ∷ seen) rest h.1
        (subst (λ i. AreEarlier (k + 1) (i ∷ seen)) id_is (AreEarlier-next k seen e)) in
    let passed =
      check_artifact-entry k seen a.id a.captured_path a.path a.sha256
        (subst (λ i. str_eq i "" ≡ false) id_is (name_filled (k + 1)))
        (subst (λ i. contains i seen ≡ false) id_is (e (k + 1) (omega arith))) one.captured
        one.placed one.checksum in
    (ids, rw (passed, checked) refl)
