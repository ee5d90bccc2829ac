-- ===== src/Fleet/ArtifactsSound.antt =====
-- What `receive_artifact_export` of src/kernel_infra/fleet.py accepts.
use gpu_infra.Prelude.{
  ℕ, ◌+◌, ◌≤◌, String, Bool, true, not, ◌&&◌, Option, none, some, List, [], ◌∷◌, map, Dict, get,
  In-get, ◌≡◌, refl, sym, ap, ◌∙◌, ltb, eqb, mem, In, In-map, In-map_rev, All, All-at, All-of_In,
  any, all, all-All, subset, subset-All, sort_by, text_lt, Option-cases, inl, inr, ok, >>=-eq-ok,
  guard-bind-eq-ok, ok-injective, arith, eq_iff, ◌==◌,
}
use mathlib.Core.Path.{subst}
use gpu_infra.Json.{Floats}
use gpu_infra.Fleet.Paths.{safe_artifact_archive_path}
use gpu_infra.Fleet.PathsSafe.{SafePath, safe_artifact_archive_path-SafePath}
use gpu_infra.Fleet.Manifest.{Manifest, max_artifact_files, validate_artifact_manifest}
use gpu_infra.Fleet.ManifestSound.{ManifestOk, validate_artifact_manifest-ManifestOk}
use gpu_infra.Fleet.Artifacts.{
  max_manifest_bytes, Member, Written, Extracted, nothing, overlaps, write_file, extract_manifest,
  extract_artifact, extract_at, extract, extract_all, Loading, read_manifest, loaded, path_of,
  has_size, compare_files, receive_artifact_export,
}

-- The sum of the sizes of the files.
abbrev pub written_bytes : List Written → ℕ
written_bytes [] = 0
written_bytes (f ∷ fs) = f.size + written_bytes fs

-- What holds of the workspace while an archive is unpacked.
pub record Unpacked (max_bytes : ℕ) (x : Extracted) : Type 0 where
  pub below : All (λ f. SafePath f.parts) x.files
  pub counted : x.artifact_bytes ≡ written_bytes x.files
  pub within : x.artifact_bytes ≤ max_bytes

write_file-files :
    (m : Member) (parts : List String) (x y : Extracted)
    → write_file m parts x ≡ ok y
    → (y.artifact_bytes ≡ x.artifact_bytes)
      × (y.files ≡ (record { parts = parts; size = m.size; content = m.content }) ∷ x.files)
unfolding write_file
write_file-files m parts x y h =
    let (readable, h1) = guard-bind-eq-ok m.is_readable _ _ h in
    let (free, h2) = guard-bind-eq-ok (not (any (λ f. overlaps f.parts parts) x.files)) _ _ h1 in
    subst
      (λ y.
        (y.artifact_bytes ≡ x.artifact_bytes)
        × (y.files ≡ (record { parts = parts; size = m.size; content = m.content }) ∷ x.files))
      (ok-injective h2) (refl, refl)

extract_artifact-Unpacked :
    (max_bytes : ℕ) (m : Member) (parts : List String) (x y : Extracted)
    → SafePath parts
    → Unpacked max_bytes x
    → extract_artifact max_bytes m parts x ≡ ok y
    → Unpacked max_bytes y
unfolding extract_artifact
extract_artifact-Unpacked max_bytes m parts x y safe u h =
    let (small, h1) = guard-bind-eq-ok (not (ltb max_bytes (x.artifact_bytes + m.size))) _ _ h in
    let (bytes, files) = write_file-files m parts _ y h1 in
    let counted = u.counted in
    record {
      below = subst (All (λ f. SafePath f.parts)) (sym files) (safe, u.below);
      counted = (let sums = ap written_bytes files in omega (arith, bytes, sums, counted));
      within =
          (let fits : x.artifact_bytes + m.size ≤ max_bytes = ground (arith, small) in
            omega (arith, bytes, fits));
    }

extract_manifest-Unpacked :
    (max_bytes : ℕ) (m : Member) (x y : Extracted)
    → Unpacked max_bytes x
    → extract_manifest m x ≡ ok y
    → Unpacked max_bytes y
unfolding extract_manifest
extract_manifest-Unpacked max_bytes m x y u h =
    let (first, h1) = guard-bind-eq-ok (eqb x.member_count 1) _ _ h in
    let (small, h2) = guard-bind-eq-ok (not (ltb max_manifest_bytes m.size)) _ _ h1 in
    let (readable, h3) = guard-bind-eq-ok m.is_readable _ _ h2 in
    subst (Unpacked max_bytes) (ok-injective h3)
      (record { below = u.below; counted = u.counted; within = u.within })

extract_at-Unpacked :
    (max_bytes : ℕ) (m : Member) (place : Option (List String)) (x y : Extracted)
    → ((parts : List String) → place ≡ some parts → SafePath parts)
    → Unpacked max_bytes x
    → extract_at max_bytes m place x ≡ ok y
    → Unpacked max_bytes y
unfolding extract_at
extract_at-Unpacked max_bytes m none x y safe u h = extract_manifest-Unpacked max_bytes m x y u h
extract_at-Unpacked max_bytes m (some parts) x y safe u h =
    extract_artifact-Unpacked max_bytes m parts x y (safe parts refl) u h

extract-Unpacked :
    (max_bytes : ℕ) (m : Member) (x y : Extracted)
    → Unpacked max_bytes x
    → extract max_bytes m x ≡ ok y
    → Unpacked max_bytes y
unfolding extract
extract-Unpacked max_bytes m x y u h =
    let (few, h1) =
      guard-bind-eq-ok (not (ltb (max_artifact_files + 1) (x.member_count + 1))) _ _ h in
    let (place, e, h2) = >>=-eq-ok (safe_artifact_archive_path m.name) _ h1 in
    let (new, h3) = guard-bind-eq-ok (not (mem m.name x.seen)) _ _ h2 in
    let (file, h4) = guard-bind-eq-ok m.is_file _ _ h3 in
    extract_at-Unpacked max_bytes m place _ y
      (λ parts q. safe_artifact_archive_path-SafePath m.name parts (e ∙ ap ok q))
      (record { below = u.below; counted = u.counted; within = u.within }) h4

extract_all-Unpacked :
    (max_bytes : ℕ) (members : List Member) (x y : Extracted)
    → Unpacked max_bytes x
    → extract_all max_bytes members x ≡ ok y
    → Unpacked max_bytes y
unfolding extract_all
extract_all-Unpacked max_bytes [] x y u h = subst (Unpacked max_bytes) (ok-injective h) u
extract_all-Unpacked max_bytes (m ∷ members) x y u h =
    let (next, e, h1) = >>=-eq-ok (extract max_bytes m x) _ h in
    extract_all-Unpacked max_bytes members next y (extract-Unpacked max_bytes m x next u e) h1

-- The files that were written are those of the manifest, with their sizes and the digest of the set.
pub record Matches (set_sha256 : List (String × String) → String) (m : Manifest) (x : Extracted)
    : Type 0 where
  pub listed : All (λ f. In (path_of f, f.size) m.files) x.files
  pub written :
      (path : String) (size : ℕ)
      → In (path, size) m.files
      → (f : Written) × In f x.files × (path_of f ≡ path)
  pub sums : x.artifact_bytes ≡ m.total_bytes
  pub digest :
      set_sha256 (sort_by (λ a b. text_lt a.0 b.0) (map (λ f. (path_of f, f.content)) x.files))
      ≡ m.artifact_set_sha256

has_size-In :
    (rows : Dict ℕ) (path : String) (size : ℕ)
    → has_size (get rows path) size ≡ true
    → In (path, size) rows
unfolding has_size
has_size-In rows path size h = elim (Option-cases (get rows path)) [
  | inl e ↦ absurd (ground (arith, e, h))
  | inr (n, e) ↦
      let same : n ≡ size = ground (arith, e, h) in In-get rows path size (e ∙ ap some same)
]

compare_files-Matches :
    (set_sha256 : List (String × String) → String) (m out : Manifest) (x : Extracted)
    → compare_files set_sha256 m x ≡ ok out
    → (m ≡ out) × Matches set_sha256 m x
unfolding compare_files
compare_files-Matches set_sha256 m out x h =
    let observed = map path_of x.files in
    let expected = map (λ r. r.0) m.files in
    let (sets, h1) =
      guard-bind-eq-ok (subset observed expected && subset expected observed) _ _ h in
    let (sizes, h2) =
      guard-bind-eq-ok (all (λ f. has_size (get m.files (path_of f)) f.size) x.files) _ _ h1 in
    let (bytes, h3) = guard-bind-eq-ok (eqb x.artifact_bytes m.total_bytes) _ _ h2 in
    let (same, h4) =
      guard-bind-eq-ok
        (set_sha256 (sort_by (λ a b. text_lt a.0 b.0) (map (λ f. (path_of f, f.content)) x.files))
          == m.artifact_set_sha256)
        _ _ h3 in
    let onto : All (λ p. In p observed) expected =
      subset-All expected observed (ground (arith, sets)) in
    (
      ok-injective h4,
      record {
        listed =
            All-of_In (λ f. In (path_of f, f.size) m.files) x.files
              (λ f i. has_size-In m.files (path_of f) f.size (
                All-at _ (all-All (λ f. has_size (get m.files (path_of f)) f.size) x.files sizes)
                  i));
        written = λ path size i.
            In-map_rev path_of x.files (All-at (λ p. In p observed) onto (In-map (λ r. r.0) i));
        sums = ground (arith, bytes);
        digest = (eq_iff _ _).0 same;
      },
    )

-- An export that is received has a sound manifest; every file was written below the directory of the
-- artifacts; the files are those of the manifest, with their sizes and the digest of the set; and
-- their bytes are the total of the manifest, within the limit.
pub receive_artifact_export-Received :
    {F : Type 0} ⦃fl : Floats F⦄ (loads : String → Loading F)
    (set_sha256 : List (String × String) → String) (is_clean : Bool) (max_bytes : ℕ)
    (members : List Member) (out : Manifest × Extracted)
    → receive_artifact_export loads set_sha256 is_clean max_bytes members ≡ ok out
    → ManifestOk max_bytes out.0 × Unpacked max_bytes out.1 × Matches set_sha256 out.0 out.1
unfolding receive_artifact_export
receive_artifact_export-Received loads set_sha256 is_clean max_bytes members out h =
    let (positive, h1) = guard-bind-eq-ok (not (ltb max_bytes 1)) _ _ h in
    let (clean, h2) = guard-bind-eq-ok is_clean _ _ h1 in
    let (x, unpacked, h3) = >>=-eq-ok (extract_all max_bytes members nothing) _ h2 in
    let (text, there_is, h4) = >>=-eq-ok (loaded x.manifest) _ h3 in
    let (raw, read, h5) = >>=-eq-ok (read_manifest (loads text)) _ h4 in
    let (m, valid, h6) = >>=-eq-ok (validate_artifact_manifest raw max_bytes) _ h5 in
    let (checked, compared, h7) = >>=-eq-ok (compare_files set_sha256 m x) _ h6 in
    let (same, matches) = compare_files-Matches set_sha256 m checked x compared in
    let empty : Unpacked max_bytes nothing = record {
      below = tt;
      counted = refl;
      within = omega arith;
    } in
    subst
      (λ out.
        ManifestOk max_bytes out.0 × Unpacked max_bytes out.1 × Matches set_sha256 out.0 out.1)
      (ok-injective h7)
      (subst (λ m. ManifestOk max_bytes m × Unpacked max_bytes x × Matches set_sha256 m x) same
        (
          validate_artifact_manifest-ManifestOk raw max_bytes m valid,
          extract_all-Unpacked max_bytes members nothing x empty unpacked,
          matches,
        ))
