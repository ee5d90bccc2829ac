-- ===== src/Fleet/PathsSafe.antt =====
-- No member of an archive is written outside the directory, src/kernel_infra/fleet.py.
use Prim.Native.Char.{Char, code}
use gpu_infra.Prelude.{
  append_assoc, append_nil, String, true, false, not, ◌&&◌, ◌||◌, Option, some, List, [], ◌∷◌, ◌++◌,
  ◌≡◌, refl, sym, ap, ◌∙◌, eqb, is_empty, mem, all, all-All, All, All-of_In, filter_by,
  filter_by-In, All-at, if◌then◌else◌, Bool-cases, inl, inr, ok, >>=-eq-ok, guard-bind-eq-ok,
  ok-injective, if-eq-ok, arith, ◌==◌,
}
use mathlib.Core.Path.{subst}
use gpu_infra.Fault.{Fault, runtime_error}
use gpu_infra.Contracts.Values.{codes}
use gpu_infra.Fleet.Fits.{some-injective}
use gpu_infra.Fleet.Paths.{
  glue, split_path, is_part, path_parts, is_absolute, is_dots, safe_parts, safe_artifact_relative,
  bundle_path, safe_archive_path, below_artifacts, safe_artifact_archive_path, as_posix,
}

-- A name in one directory: not a way up, and without a slash.
pub record PartOk (w : String) : Type 0 where
  pub no_dots : is_dots w ≡ false
  pub no_slash : all (λ c. not (eqb c 47)) (codes w) ≡ true

-- Where a path leads from a directory, part by part, as the file system reads it.
abbrev pub drop_last : List String → List String
drop_last [] = []
drop_last (w ∷ []) = []
drop_last (w ∷ v ∷ ws) = w ∷ drop_last (v ∷ ws)

abbrev pub enter : List String → String → List String
enter place w =
    if w == ".." then drop_last place else if w == "" || w == "." then place else place ++ (w ∷ [])

unfoldable pub walk : List String → List String → List String
walk place [] = place
walk place (w ∷ ws) = walk (enter place w) ws

-- A path that leads below every directory from which it starts.
pub record SafePath (parts : List String) : Type 0 where
  pub there : is_empty parts ≡ false
  pub parts_ok : All PartOk parts
  pub below : (place : List String) → walk place parts ≡ place ++ parts

abbrev NoSlash : String → Type 0
NoSlash w = all (λ c. not (eqb c 47)) (codes w) ≡ true

glue-NoSlash :
    (c : Char) (ws : List String)
    → eqb (code c) 47 ≡ false
    → All NoSlash ws
    → All NoSlash (glue c ws)
unfolding all
glue-NoSlash c [] h k = (ground arith, tt)
glue-NoSlash c (w ∷ ws) h k = (let first = k.0 in ground arith, k.1)

split_path-NoSlash : (s : String) → All NoSlash (split_path s)
unfolding split_path all
split_path-NoSlash String.[] = (refl, tt)
split_path-NoSlash (String.◌∷◌ c s) =
    let rest = split_path-NoSlash s in
    elim (Bool-cases (eqb (code c) 47)) [
      | inl e ↦ rw e (refl, rest)
      | inr e ↦ rw e (glue-NoSlash c (split_path s) e rest)
    ]

enter-plain :
    (place : List String) (w : String) → is_dots w ≡ false → enter place w ≡ place ++ (w ∷ [])
unfolding is_dots
enter-plain place w h = ground (arith, h)

walk-below :
    (parts : List String)
    → All PartOk parts
    → (place : List String) → walk place parts ≡ place ++ parts
unfolding walk
walk-below [] h place = sym (append_nil place)
walk-below (w ∷ ws) h place =
    ap (λ p. walk p ws) (enter-plain place w h.0.no_dots)
    ∙ (walk-below ws h.1 (place ++ (w ∷ [])) ∙ append_assoc place (w ∷ []) ws)

pub safe_parts-SafePath :
    (e : Fault) (name : String) (parts : List String)
    → safe_parts e name ≡ ok parts
    → SafePath parts
unfolding safe_parts path_parts
safe_parts-SafePath e name parts h =
    let found = filter_by is_part (split_path name) in
    let (good, q) =
      guard-bind-eq-ok
        (not (is_absolute name) && (not (is_empty found) && all (λ w. not (is_dots w)) found)) _ _
        h in
    let there_is : is_empty found ≡ false = ground (arith, good) in
    let dotless : all (λ w. not (is_dots w)) found ≡ true = ground (arith, good) in
    let sound : All PartOk found = All-of_In PartOk found (λ w m. record {
      no_dots =
          (let d =
              All-at (λ w. not (is_dots w) ≡ true) (all-All (λ w. not (is_dots w)) found dotless)
                m in
            ground (arith, d));
      no_slash =
          All-at NoSlash (split_path-NoSlash name) (filter_by-In is_part (split_path name) m).0;
    }) in
    subst SafePath (ok-injective q)
      (record { there = there_is; parts_ok = sound; below = walk-below found sound })

bundle_path-eq-ok : (parts out : List String) → bundle_path parts ≡ ok out → parts ≡ out
unfolding bundle_path
bundle_path-eq-ok [] out h = cc
bundle_path-eq-ok (root ∷ rest) out h =
    let (known, h1) =
      guard-bind-eq-ok (mem root ("manifest.json" ∷ "task.json" ∷ "candidate" ∷ [])) _ _ h in
    let (alone, h2) =
      guard-bind-eq-ok (not (mem root ("manifest.json" ∷ "task.json" ∷ []) && not (is_empty rest)))
        _ _ h1 in
    ok-injective h2

-- A path that a bundle may hold leads below the directory into which the bundle is unpacked, and no
-- part of it is empty, a dot, two dots or has a slash.
pub safe_archive_path-SafePath :
    (name : String) (parts : List String) → safe_archive_path name ≡ ok parts → SafePath parts
unfolding safe_archive_path
safe_archive_path-SafePath name parts h =
    let (found, e, q) =
      >>=-eq-ok (safe_parts (runtime_error "unsafe fleet archive path") name) _ h in
    subst SafePath (bundle_path-eq-ok found parts q) (safe_parts-SafePath _ name found e)

below_artifacts-SafePath :
    (found : List String) (out : Option (List String)) (parts : List String)
    → SafePath found
    → below_artifacts found ≡ ok out
    → out ≡ some parts
    → SafePath parts
unfolding below_artifacts
below_artifacts-SafePath [] out parts safe h e = cc
below_artifacts-SafePath (root ∷ []) out parts safe h e = cc
below_artifacts-SafePath (root ∷ w ∷ ws) out parts safe h e =
    elim (if-eq-ok (root == "artifacts") _ _ h) [
      | inl (is_root, q) ↦
          let same : ◌≡◌ {A = Option (List String)} (some (w ∷ ws)) (some parts) =
            ok-injective q ∙ e in
          subst SafePath (some-injective same) (record {
            there = refl;
            parts_ok = safe.parts_ok.1;
            below = walk-below (w ∷ ws) safe.parts_ok.1;
          })
      | inr (other, q) ↦ absurd cc
    ]

-- The place of an artifact in an archive leads below the directory of the artifacts, and no part of
-- it is empty, a dot, two dots or has a slash.
pub safe_artifact_archive_path-SafePath :
    (name : String) (parts : List String)
    → safe_artifact_archive_path name ≡ ok (some parts)
    → SafePath parts
unfolding safe_artifact_archive_path safe_artifact_relative
safe_artifact_archive_path-SafePath name parts h =
    let (found, e, q) = >>=-eq-ok (safe_parts (runtime_error "unsafe artifact path") name) _ h in
    elim (if-eq-ok (as_posix found == "artifact-manifest.json") _ _ q) [
      | inl (is_manifest, r) ↦ absurd cc
      | inr (other, r) ↦
          below_artifacts-SafePath found (some parts) parts (safe_parts-SafePath _ name found e) r
            refl
    ]
