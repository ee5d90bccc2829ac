-- ===== src/Fleet/Paths.antt =====
-- The paths in archives, `_safe_archive_path`, `_safe_artifact_relative` and
-- `_safe_artifact_archive_path` of src/kernel_infra/fleet.py. `PurePosixPath` splits at slashes and drops
-- what is empty or a dot.
use Prim.Native.Char.{Char, code}
use Prim.Native.String
use gpu_infra.Prelude.{
  String, Bool, false, not, ◌&&◌, ◌||◌, Option, none, some, List, [], ◌∷◌, eqb, is_empty, mem, all,
  filter_by, if◌then◌else◌, Result, ok, err, ◌>>=◌, ◌>>◌, guard, ◌==◌,
}
use gpu_infra.Fault.{Fault, runtime_error}

-- a character before the first word
abbrev pub glue : Char → List String → List String
glue c [] = String.◌∷◌ c "" ∷ []
glue c (w ∷ ws) = String.◌∷◌ c w ∷ ws

-- `name.split("/")`; 47 is the code of the slash
unfoldable pub split_path : String → List String
split_path String.[] = "" ∷ []
split_path (String.◌∷◌ c s) =
    let rest = split_path s in if eqb (code c) 47 then "" ∷ rest else glue c rest

-- a part that `PurePosixPath` keeps
unfoldable pub is_part : String → Bool
is_part w = not (w == "" || w == ".")

-- `PurePosixPath(name).parts`, less the root of an absolute path
unfoldable pub path_parts : String → List String
path_parts name = filter_by is_part (split_path name)

-- `path.is_absolute()`
unfoldable pub is_absolute : String → Bool
is_absolute String.[] = false
is_absolute (String.◌∷◌ c s) = eqb (code c) 47

-- `path.as_posix()` of a relative path
unfoldable pub as_posix : List String → String
as_posix [] = "."
as_posix (w ∷ []) = w
as_posix (w ∷ v ∷ ws) = String.◌++◌ w (String.◌++◌ "/" (as_posix (v ∷ ws)))

-- `part in {"", ".", ".."}`
unfoldable pub is_dots : String → Bool
is_dots w = w == "" || (w == "." || w == "..")

unfoldable pub safe_parts : Fault → String → Result Fault (List String)
safe_parts e name = do
  let parts = path_parts name
  guard (not (is_absolute name) && (not (is_empty parts) && all (λ w. not (is_dots w)) parts)) e
  ok parts

-- `_safe_artifact_relative`
unfoldable pub safe_artifact_relative : String → Result Fault (List String)
safe_artifact_relative name = safe_parts (runtime_error "unsafe artifact path") name

-- what stands at the root of a bundle
unfoldable pub bundle_path : List String → Result Fault (List String)
bundle_path [] = err (runtime_error "unexpected fleet archive path")
bundle_path (root ∷ rest) = do
  guard (mem root ("manifest.json" ∷ "task.json" ∷ "candidate" ∷ []))
      (runtime_error "unexpected fleet archive path")
  guard (not (mem root ("manifest.json" ∷ "task.json" ∷ []) && not (is_empty rest)))
      (runtime_error "invalid fleet archive root file")
  ok (root ∷ rest)

-- `_safe_archive_path`
unfoldable pub safe_archive_path : String → Result Fault (List String)
safe_archive_path name = do
  parts ← safe_parts (runtime_error "unsafe fleet archive path") name
  bundle_path parts

-- the path below `artifacts`
unfoldable pub below_artifacts : List String → Result Fault (Option (List String))
below_artifacts (root ∷ w ∷ ws) =
    if root == "artifacts"
    then ok (some (w ∷ ws))
    else err (runtime_error "unexpected artifact archive path")
below_artifacts _ = err (runtime_error "unexpected artifact archive path")

-- `_safe_artifact_archive_path`
unfoldable pub safe_artifact_archive_path : String → Result Fault (Option (List String))
safe_artifact_archive_path name = do
  parts ← safe_artifact_relative name
  if as_posix parts == "artifact-manifest.json" then ok none else below_artifacts parts
