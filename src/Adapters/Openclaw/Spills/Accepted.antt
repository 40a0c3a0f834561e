-- ===== src/Adapters/Openclaw/Spills/Accepted.antt =====
-- The artifacts of `capture_spill_artifacts` in src/agenttrace/adapters/openclaw.py, as `validate_trace` of
-- src/agenttrace/schema.py reads them.
use atcr_agent_trace_collect.Prelude.{
  ◌+◌, String, str_eq, Bool, true, false, Option, none, some, List, [], ◌∷◌, ◌++◌, ◌≡◌, refl, ap,
  subst, if◌then◌else◌, length, All, All-append, ok, ◌>>=◌, >>=-eq-ok, eq_iff, arith, Bool-cases,
  inl, inr,
}
use atcr_agent_trace_collect.Prelude.Names.{contains, distinct, distinct-snoc, contains-append}
use atcr_agent_trace_collect.Json.{Value}
use atcr_agent_trace_collect.Schema.Fields.{check_artifacts}
use atcr_agent_trace_collect.Adapters.Problems.{Outcome}
use atcr_agent_trace_collect.Adapters.Openclaw.Spills.{
  Files, Artifact, add_artifact, add_file, add_path, capture_from, capture_spill_artifacts,
}
use atcr_agent_trace_collect.Adapters.Openclaw.Spills.Entries.{
  captured_paths, values_of, is_filled, IsEntry, AreEntries, AreEntries-snoc, captured_paths-snoc,
  check_artifacts-entries,
}

-- What is taken of the system: no file has the empty path, and neither a relative path nor a checksum is
-- empty.
pub record IsSystem (fs : Files) : Type 0 where
  pub no_empty_file : fs.is_file "" ≡ false
  pub no_empty_path :
      (path relative : String) → fs.relative path ≡ ok relative → str_eq relative "" ≡ false
  pub no_empty_digest : (path : String) → str_eq (fs.digest path) "" ≡ false

-- What holds between two events.
record Kept (fs : Files) (seen : List String) (found : List Artifact) : Type 0 where
  entries : AreEntries 0 found
  once : distinct (captured_paths found) ≡ true
  known :
      (path : String) → contains path seen ≡ false → contains path (captured_paths found) ≡ false
  files : All (λ a. fs.is_file a.captured_path ≡ true) found

outcome-eq : {A : Type 0} {a b : A} → ◌≡◌ {A = Outcome A} (ok a) (ok b) → a ≡ b
outcome-eq h = cc

Kept-snoc :
    (fs : Files) (seen : List String) (found : List Artifact) (a : Artifact)
    → fs.is_file a.captured_path ≡ true
    → contains a.captured_path seen ≡ false
    → IsEntry (length found + 1) a
    → Kept fs seen found
    → Kept fs (a.captured_path ∷ seen) (found ++ a ∷ [])
unfolding contains
Kept-snoc fs seen found a there new e k =
    let path = a.captured_path in
    let paths = captured_paths found in
    record {
      entries = AreEntries-snoc 0 found a k.entries (subst (λ n. IsEntry n a) (omega arith) e);
      once =
          rw (captured_paths-snoc found a)
            (ground (arith, distinct-snoc path paths, k.once, k.known path new));
      known = λ p h.
          rw (captured_paths-snoc found a)
            (ground (arith, contains-append p paths (path ∷ []), k.known p, h));
      files =
          All-append (λ b. fs.is_file b.captured_path ≡ true) found (a ∷ []) k.files (there, tt);
    }

Kept-seen :
    (fs : Files) (path : String) (seen : List String) (found : List Artifact)
    → Kept fs seen found
    → Kept fs (path ∷ seen) found
unfolding contains
Kept-seen fs path seen found k = record {
  entries = k.entries;
  once = k.once;
  known = λ p h. ground (arith, k.known p, h);
  files = k.files;
}

module _ (fs : Files) (sys : IsSystem fs) (include_checksums : Bool) where
  filled_lem :
      (b : Bool) (path : String) → is_filled (if b then some (fs.digest path) else none) ≡ true
  filled_lem true path = ground (arith, sys.no_empty_digest path)
  filled_lem false path = refl

  named_file : (source : String) → fs.is_file source ≡ true → str_eq source "" ≡ false
  named_file source h = elim (Bool-cases (str_eq source "")) [
    | inl empty ↦ absurd (cc (h, sys.no_empty_file, ap fs.is_file ((eq_iff source "").0 empty)))
    | inr filled ↦ filled
  ]

  add_artifact-Kept :
      (source : String) (seen : List String) (found more : List Artifact)
      → fs.is_file source ≡ true
      → contains source seen ≡ false
      → Kept fs seen found
      → add_artifact fs include_checksums source found ≡ ok more
      → Kept fs (source ∷ seen) more
  unfolding add_artifact
  add_artifact-Kept source seen found more there new k h =
      let (_, _, h1) = >>=-eq-ok _ _ h in
      let (path, placed, h2) = >>=-eq-ok _ _ h1 in
      subst (Kept fs (source ∷ seen)) (outcome-eq h2) (
        Kept-snoc fs seen found _ there new
          (record {
            numbered = refl;
            captured = named_file source there;
            placed = sys.no_empty_path _ path placed;
            checksum = filled_lem include_checksums _;
          })
          k)

  add_file-Kept :
      (b : Bool) (source : String) (seen : List String) (found more : List Artifact)
      → fs.is_file source ≡ b
      → contains source seen ≡ false
      → Kept fs seen found
      → (if b then add_artifact fs include_checksums source found else ok found) ≡ ok more
      → Kept fs (source ∷ seen) more
  add_file-Kept true source seen found more there new k h =
      add_artifact-Kept source seen found more there new k h
  add_file-Kept false source seen found more there new k h =
      subst (Kept fs (source ∷ seen)) (outcome-eq h) (Kept-seen fs source seen found k)

  add_path-Kept :
      (path : Option String) (seen seen' : List String) (found found' : List Artifact)
      → Kept fs seen found
      → add_path fs include_checksums path seen found ≡ ok (seen', found')
      → Kept fs seen' found'
  add_path-Kept none seen seen' found found' k h = subst (λ p. Kept fs p.0 p.1) (outcome-eq h) k
  add_path-Kept (some source) seen seen' found found' k h = by_seen (contains source seen) refl h
    where
      by_seen :
          (b : Bool)
          → contains source seen ≡ b
          → if◌then◌else◌ {A = Outcome (List String × List Artifact)} b
              (ok (seen, found))
              (do more ← add_file fs include_checksums source found; ok (source ∷ seen, more))
            ≡ ok (seen', found')
          → Kept fs seen' found'
      by_seen true known e = subst (λ p. Kept fs p.0 p.1) (outcome-eq e) k
      by_seen false new e =
          let (more, added, e1) = >>=-eq-ok _ _ e in
          subst (λ p. Kept fs p.0 p.1) (outcome-eq e1)
            (add_file-Kept (fs.is_file source) source seen found more refl new k added)

  capture_from-Kept :
      (events : List Value) (seen : List String) (found all : List Artifact)
      → Kept fs seen found
      → capture_from fs include_checksums events seen found ≡ ok all
      → (seen' : List String) × Kept fs seen' all
  unfolding capture_from
  capture_from-Kept [] seen found all k h = (seen, subst (Kept fs seen) (outcome-eq h) k)
  capture_from-Kept (event ∷ rest) seen found all k h =
      let (path, _, h1) = >>=-eq-ok _ _ h in
      let ((seen', found'), added, h2) = >>=-eq-ok _ _ h1 in
      capture_from-Kept rest seen' found' all (add_path-Kept path seen seen' found found' k added)
        h2

  -- The captured artifacts are files, each captured once, and `validate_trace` accepts them: their
  -- identifiers are distinct, and no field is empty.
  pub capture_spill_artifacts-accepted :
      (events : List Value) (found : List Artifact)
      → capture_spill_artifacts fs include_checksums events ≡ ok found
      → All (λ a. fs.is_file a.captured_path ≡ true) found
        × (distinct (captured_paths found) ≡ true)
        × (ids : List String) × (check_artifacts 0 [] (values_of found) ≡ ok ids)
  unfolding capture_spill_artifacts contains distinct
  capture_spill_artifacts-accepted events found h =
      let (_, k) = capture_from-Kept events [] [] found nothing h in
      let (ids, checked) = check_artifacts-entries 0 [] found k.entries (λ n _. refl) in
      (k.files, k.once, ids, checked)
    where
      nothing : Kept fs [] []
      nothing = record { entries = tt; once = refl; known = λ path _. refl; files = tt }
