-- ===== src/Fleet/Artifacts.antt =====
-- `receive_artifact_export` of src/kernel_infra/fleet.py. An archive is the list of its members, and the
-- workspace the files that were written below `artifacts`, by the parts of their paths. What `json.loads`
-- makes of the manifest and the digest of the files are arguments.
use gpu_infra.Prelude.{
  ℕ, ◌+◌, String, Bool, true, false, not, ◌&&◌, Option, none, some, List, [], ◌∷◌, map, get, ltb,
  eqb, mem, any, all, subset, sort_by, text_lt, Result, ok, err, ◌>>=◌, ◌>>◌, guard, ◌==◌,
}
use gpu_infra.Json.{Json, Floats}
use gpu_infra.Fault.{Fault, runtime_error, os_error}
use gpu_infra.Fleet.Paths.{safe_artifact_archive_path, as_posix}
use gpu_infra.Fleet.Manifest.{Manifest, max_artifact_files, validate_artifact_manifest}

-- `MAX_ARTIFACT_MANIFEST_BYTES`
abbrev pub max_manifest_bytes : ℕ
max_manifest_bytes = 16777216

-- a member of the archive; `extractfile` returns None where it is not readable
pub record Member : Type 0 where
  pub name : String
  pub size : ℕ
  pub is_file : Bool
  pub is_readable : Bool
  pub content : String

-- a file that was written
pub record Written : Type 0 where
  pub parts : List String
  pub size : ℕ
  pub content : String

pub record Extracted : Type 0 where
  pub member_count : ℕ
  pub seen : List String
  pub artifact_bytes : ℕ
  pub manifest : Option String
  pub files : List Written

abbrev pub nothing : Extracted
nothing = record { member_count = 0; seen = []; artifact_bytes = 0; manifest = none; files = [] }

-- one path leads to the other or below it
unfoldable pub overlaps : List String → List String → Bool
overlaps [] parts = true
overlaps (w ∷ ws) [] = true
overlaps (w ∷ ws) (v ∷ vs) = w == v && overlaps ws vs

-- `mkdir` of the parents and `open("xb")`: a file stands in the way, or a directory
unfoldable pub write_file : Member → List String → Extracted → Result Fault Extracted
write_file m parts x = do
  guard m.is_readable (runtime_error "cannot read artifact archive member")
  guard (not (any (λ f. overlaps f.parts parts) x.files)) (os_error "File exists")
  ok (record x { files = (record { parts = parts; size = m.size; content = m.content }) ∷ x.files })

-- the manifest has to come first
unfoldable pub extract_manifest : Member → Extracted → Result Fault Extracted
extract_manifest m x = do
  guard (eqb x.member_count 1) (runtime_error "artifact manifest must be the first member")
  guard (not (ltb max_manifest_bytes m.size)) (runtime_error "artifact manifest exceeds byte limit")
  guard m.is_readable (runtime_error "cannot read artifact archive member")
  ok (record x { manifest = some m.content })

unfoldable pub extract_artifact : ℕ → Member → List String → Extracted → Result Fault Extracted
extract_artifact max_bytes m parts x = do
  guard (not (ltb max_bytes (x.artifact_bytes + m.size)))
      (runtime_error "artifact archive exceeds extracted byte limit")
  write_file m parts (record x { artifact_bytes = x.artifact_bytes + m.size })

unfoldable pub extract_at : ℕ → Member → Option (List String) → Extracted → Result Fault Extracted
extract_at max_bytes m none x = extract_manifest m x
extract_at max_bytes m (some parts) x = extract_artifact max_bytes m parts x

-- the body of the loop
unfoldable pub extract : ℕ → Member → Extracted → Result Fault Extracted
extract max_bytes m x = do
  guard (not (ltb (max_artifact_files + 1) (x.member_count + 1)))
      (runtime_error "artifact archive exceeds member limit")
  place ← safe_artifact_archive_path m.name
  guard (not (mem m.name x.seen)) (runtime_error "duplicate artifact archive path")
  guard m.is_file (runtime_error "artifact archive contains non-file")
  extract_at max_bytes m place
      (record x { member_count = x.member_count + 1; seen = m.name ∷ x.seen })

unfoldable pub extract_all : ℕ → List Member → Extracted → Result Fault Extracted
extract_all max_bytes [] x = ok x
extract_all max_bytes (m ∷ members) x = do
  next ← extract max_bytes m x
  extract_all max_bytes members next

-- What reading the manifest makes of its content: a value, `JSONDecodeError`, or what is not caught,
-- such as bytes that are not UTF-8.
pub data Loading (F : Type 0) : Type 0 where
  loads_value : Json F → Loading F
  not_json : Loading F
  fails : Fault → Loading F

unfoldable pub read_manifest : {F : Type 0} → Loading F → Result Fault (Json F)
read_manifest (loads_value v) = ok v
read_manifest not_json = err (runtime_error "invalid artifact manifest")
read_manifest (fails e) = err e

-- the error of a file that is missing
abbrev pub loaded : {A : Type 0} → Option A → Result Fault A
loaded none = err (runtime_error "invalid artifact manifest")
loaded (some a) = ok a

-- the path of a file below `artifacts`
unfoldable pub path_of : Written → String
path_of f = as_posix f.parts

-- the size is that of the row
unfoldable pub has_size : Option ℕ → ℕ → Bool
has_size none size = false
has_size (some n) size = eqb n size

unfoldable pub compare_files :
    (List (String × String) → String) → Manifest → Extracted → Result Fault Manifest
compare_files set_sha256 manifest x = do
  let observed = map path_of x.files
  let expected = map (λ r. r.0) manifest.files
  guard (subset observed expected && subset expected observed)
      (runtime_error "artifact archive file set disagrees with manifest")
  guard (all (λ f. has_size (get manifest.files (path_of f)) f.size) x.files)
      (runtime_error "artifact archive size drift")
  guard (eqb x.artifact_bytes manifest.total_bytes)
      (runtime_error "artifact archive byte total disagrees with manifest")
  guard
      (set_sha256 (sort_by (λ a b. text_lt a.0 b.0) (map (λ f. (path_of f, f.content)) x.files))
        == manifest.artifact_set_sha256)
      (runtime_error "artifact archive content drift")
  ok manifest

unfoldable pub receive_artifact_export :
    {F : Type 0} ⦃fl : Floats F⦄
    → (String → Loading F)
    → (List (String × String) → String)
    → Bool
    → ℕ
    → List Member
    → Result Fault (Manifest × Extracted)
receive_artifact_export loads set_sha256 is_empty_workspace max_bytes members = do
  guard (not (ltb max_bytes 1)) (runtime_error "artifact receive byte limit must be positive")
  guard is_empty_workspace (runtime_error "artifact receive workspace must be empty")
  x ← extract_all max_bytes members nothing
  text ← loaded x.manifest
  raw ← read_manifest (loads text)
  manifest ← validate_artifact_manifest raw max_bytes
  checked ← compare_files set_sha256 manifest x
  ok (checked, x)
