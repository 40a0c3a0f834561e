-- ===== src/Adapters/Minisweagent/Images/Accepted.antt =====
-- Which image `cached_image` of src/agenttrace/miniswe_images.py accepts.
use atcr_agent_trace_collect.Prelude.{
  ◌==◌, String, str_eq, Bool, true, false, not, ◌&&◌, Option, none, some, ◌≡◌, refl, ap, subst, ◌∙◌,
  ◌↔◌, if◌then◌else◌, ok, err, ◌>>=◌, >>=-eq-ok, eq_iff, arith,
}
use atcr_agent_trace_collect.Json.{
  Value, Fields, str, dict, end, entry, get, lookup, or_default, is_truthy,
}
use atcr_agent_trace_collect.Json.Access.{Exception, key_error, item_of, item}
use atcr_agent_trace_collect.Adapters.Problems.{Problem, Outcome}
use atcr_agent_trace_collect.Adapters.Minisweagent.Images.{
  Files, loaded, images_of, entry_at, file_name, file_of, cached_image,
}

-- The index of the cache names, for exactly this source, a file of the cache directory itself that is there
-- and not empty, and `path` is its resolved path.
pub record IsCached (fs : Files) (cache source path : String) : Type 0 where
  pub index : Fields
  pub images : Fields
  pub found : Fields
  pub file : String
  pub prepared : fs.is_file (fs.child cache "index.json") ≡ true
  pub read : fs.read_json (fs.child cache "index.json") ≡ some (dict index)
  pub listed : or_default (dict end) (lookup "images" index) ≡ dict images
  pub same_source : get source images ≡ dict found
  pub named : lookup "file" found ≡ some (str file)
  pub own_name : fs.name_of file ≡ file
  pub there : fs.is_file (fs.child cache file) ≡ true
  pub not_empty : (fs.size_of (fs.child cache file) == 0) ≡ false
  pub resolved : fs.resolved (fs.child cache file) ≡ path

outcome_eq : {A : Type 0} {a b : A} → ◌≡◌ {A = Outcome A} (ok a) (ok b) → a ≡ b
outcome_eq h = cc

guard-ok :
    {A : Type 0} (b : Bool) (x y : A) (e : Exception Problem)
    → ◌≡◌ {A = Outcome A} (if b then ok x else err e) (ok y)
    → (b ≡ true) × (x ≡ y)
guard-ok true x y e h = (refl, outcome_eq h)
guard-ok false x y e h = absurd (cc h)

loaded-ok : (v : Option Value) (x : Value) → loaded v ≡ ok x → v ≡ some x
loaded-ok none x h = absurd (cc h)
loaded-ok (some v) x h = cc h

images_of-ok :
    (v x : Value)
    → images_of v ≡ ok x
    → (index : Fields) × (v ≡ dict index) × (or_default (dict end) (lookup "images" index) ≡ x)
images_of-ok (dict index) x h = (index, refl, outcome_eq h)
images_of-ok v x h = absurd (cc h)

entry_at-ok :
    (images : Value) (source : String) (x : Value)
    → entry_at images (str source) ≡ ok x
    → (d : Fields) × (images ≡ dict d) × (get source d ≡ x)
entry_at-ok (dict d) source x h = (d, refl, outcome_eq h)
entry_at-ok v source x h = absurd (cc h)

file_name-ok :
    (fs : Files) (v : Value) (file : String)
    → file_name fs v ≡ ok file
    → (v ≡ str file) × (fs.name_of file ≡ file)
file_name-ok fs (str name) file h =
    let (own, same) = guard-ok (str_eq (fs.name_of name) name) name file _ h in
    (ap str same, subst (λ f. fs.name_of f ≡ f) same ((eq_iff (fs.name_of name) name).0 own))
file_name-ok fs v file h = absurd (cc h)

lookup_lem :
    (found : Option Value) (x : Value)
    → ◌≡◌ {A = Outcome Value} (elim found [ none ↦ err (key_error "file") | some v ↦ ok v ]) (ok x)
    → found ≡ some x
lookup_lem none x h = absurd (cc h)
lookup_lem (some v) x h = ap some (outcome_eq h)

item_of-ok :
    (v x : Value)
    → ◌≡◌ {A = Outcome Value} (item_of "file" v) (ok x)
    → (d : Fields) × (v ≡ dict d) × (lookup "file" d ≡ some x)
unfolding item_of item
item_of-ok (dict d) x h = (d, refl, lookup_lem (lookup "file" d) x h)
item_of-ok v x h = absurd (cc h)

file_of-ok :
    (fs : Files) (found : Value) (file : String)
    → file_of fs found ≡ ok file
    → (d : Fields) × (found ≡ dict d)
      × (lookup "file" d ≡ some (str file))
      × (fs.name_of file ≡ file)
unfolding file_of
file_of-ok fs found file h =
    let (_, _, h1) = >>=-eq-ok _ _ h in
    let (v, taken, h2) = >>=-eq-ok _ _ h1 in
    let (d, is, held) = item_of-ok found v taken in
    let (named, own) = file_name-ok fs v file h2 in (d, is, held ∙ ap some named, own)

both-true : (a b : Bool) → (a && not b) ≡ true → (a ≡ true) × (b ≡ false)
both-true a b h = ground arith

to_cached :
    (fs : Files) (cache source path : String)
    → cached_image fs cache (str source) ≡ ok path
    → IsCached fs cache source path
unfolding cached_image
to_cached fs cache source path h =
    let (_, asked, h1) = >>=-eq-ok _ _ h in
    let (value, read, h2) = >>=-eq-ok _ _ h1 in
    let (images, listed, h3) = >>=-eq-ok _ _ h2 in
    let (found, placed, h4) = >>=-eq-ok _ _ h3 in
    let (file, named, h5) = >>=-eq-ok _ _ h4 in
    let (prepared, _) = guard-ok (fs.is_file (fs.child cache "index.json")) tt tt _ asked in
    let (index, value_is, images_is) = images_of-ok value images listed in
    let (table, table_is, found_is) = entry_at-ok images source found placed in
    let (row, entry_is, file_is, own) = file_of-ok fs found file named in
    let image = fs.child cache file in
    let (fit, resolved) =
      guard-ok (fs.is_file image && not (fs.size_of image == 0)) (fs.resolved image) path _ h5 in
    let (there, not_empty) = both-true (fs.is_file image) (fs.size_of image == 0) fit in
    record {
      index = index;
      images = table;
      found = row;
      file = file;
      prepared = prepared;
      read = loaded-ok (fs.read_json (fs.child cache "index.json")) value read ∙ ap some value_is;
      listed = images_is ∙ table_is;
      same_source = found_is ∙ entry_is;
      named = file_is;
      own_name = own;
      there = there;
      not_empty = not_empty;
      resolved = resolved;
    }

truthy_lem : (d : Fields) (v : Value) → lookup "file" d ≡ some v → is_truthy (dict d) ≡ true
unfolding lookup
truthy_lem end v h = absurd (cc h)
truthy_lem (entry k w rest) v h = refl

item_lem :
    (d : Fields) (v : Value)
    → lookup "file" d ≡ some v
    → ◌≡◌ {A = Outcome Value} (item_of "file" (dict d)) (ok v)
unfolding item_of item
item_lem d v h = rw (h, item_of, item) refl

from_cached :
    (fs : Files) (cache source path : String)
    → IsCached fs cache source path
    → cached_image fs cache (str source) ≡ ok path
unfolding cached_image file_of ◌>>=◌
from_cached fs cache source path c =
    let own : str_eq (fs.name_of c.file) c.file ≡ true =
      (eq_iff (fs.name_of c.file) c.file).1 c.own_name in
    let truthy = truthy_lem c.found (str c.file) c.named in
    rw
      (
        c.prepared,
        c.read,
        c.listed,
        c.same_source,
        truthy,
        item_lem c.found (str c.file) c.named,
        own,
        c.there,
        c.not_empty,
        c.resolved,
      )
      refl

-- `cached_image` returns a path exactly where the index names, for this source, a non-empty file of the
-- cache directory itself whose resolved path it is.
pub cached_image-IsCached :
    (fs : Files) (cache source path : String)
    → (cached_image fs cache (str source) ≡ ok path) ↔ IsCached fs cache source path
cached_image-IsCached fs cache source path =
    (to_cached fs cache source path, from_cached fs cache source path)
