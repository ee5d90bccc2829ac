-- ===== src/Fleet/ManifestSound.antt =====
-- What a manifest that passes `_validate_artifact_manifest` of src/kernel_infra/fleet.py has.
use gpu_infra.Prelude.{
  ℕ, ◌≤◌, String, true, not, ◌&&◌, suc, List, [], ◌∷◌, map, ◌≡◌, refl, sym, ap, ltb, eqb, length,
  mem, In, In-mem, here, there, All, All-each, Distinct, Distinct-sort_by, each, sort_by, text_lt,
  Bool-cases, inl, inr, Result, ok, >>=-eq-ok, guard-bind-eq-ok, ok-injective, arith, eq_iff, ◌==◌,
}
use mathlib.Core.Path.{subst}
use gpu_infra.Json.{Json, null, bool, num, str, arr, obj, Floats}
use gpu_infra.Fault.{Fault}
use gpu_infra.Contracts.Values.{item}
use gpu_infra.Contracts.Task.{is_text}
use gpu_infra.Fleet.Catalog.{exact_keys, object_or}
use gpu_infra.Fleet.Paths.{safe_artifact_relative, as_posix}
use gpu_infra.Fleet.PathsSafe.{SafePath, safe_parts-SafePath}
use gpu_infra.Fleet.Manifest.{
  Manifest, max_artifact_files, manifest_keys, unique, same_texts, total_size, row_path, natural,
  parse_row, short_list, manifest_rows, bounded, manifest_head, validate_artifact_manifest,
}

same_texts-eq : (xs ys : List String) → same_texts xs ys ≡ true → xs ≡ ys
unfolding same_texts
same_texts-eq [] [] h = refl
same_texts-eq [] (y ∷ ys) h = cc
same_texts-eq (x ∷ xs) [] h = cc
same_texts-eq (x ∷ xs) (y ∷ ys) h =
    let first : x ≡ y = (eq_iff x y).0 (ground arith) in
    let rest = same_texts-eq xs ys (ground arith) in cc

In-unique : {x : String} (xs : List String) → In x (unique xs) → In x xs
unfolding unique
In-unique [] m = m
In-unique (y ∷ xs) m = elim (Bool-cases (mem y (unique xs))) [
  | inl e ↦ there (In-unique xs (rw e at m))
  | inr e ↦ keep (In-unique xs) (rw e at m)
]
  where
    keep :
        {x y : String} {xs ys : List String} → (In x xs → In x ys) → In x (y ∷ xs) → In x (y ∷ ys)
    keep f here = here
    keep f (there n) = there (f n)

Distinct-unique : (xs : List String) → Distinct (unique xs)
unfolding unique
Distinct-unique [] = tt
Distinct-unique (x ∷ xs) = elim (Bool-cases (mem x (unique xs))) [
  | inl e ↦ rw e (Distinct-unique xs)
  | inr e ↦
      rw e (λ m. let found = In-mem x (unique xs) m in ground (arith, e, found), Distinct-unique xs)
]

map_id : (xs : List String) → map (λ x. x) xs ≡ xs
map_id [] = refl
map_id (x ∷ xs) = ap (λ l. x ∷ l) (map_id xs)

Distinct-sorted : (xs : List String) → Distinct xs → Distinct (sort_by text_lt xs)
Distinct-sorted xs h =
    subst Distinct (map_id (sort_by text_lt xs))
      (Distinct-sort_by text_lt (λ x. x) xs (subst Distinct (sym (map_id xs)) h))

-- A path of a manifest: written as its parts, which lead below the directory.
pub record NormalPath (path : String) : Type 0 where
  pub parts : List String
  pub safe : SafePath parts
  pub same : as_posix parts ≡ path

pub record ManifestOk (max_bytes : ℕ) (m : Manifest) : Type 0 where
  pub within : m.total_bytes ≤ max_bytes
  pub total : total_size m.files ≡ m.total_bytes
  pub few : length m.files ≤ max_artifact_files
  pub paths_distinct : Distinct (map (λ r. r.0) m.files)
  pub paths_normal : All (λ r. NormalPath r.0) m.files

-- What the rows have.
pub record RowsOk (rows : List (String × ℕ)) (total : ℕ) : Type 0 where
  pub adds_up : total_size rows ≡ total
  pub few : length rows ≤ max_artifact_files
  pub paths_distinct : Distinct (map (λ r. r.0) rows)
  pub paths_normal : All (λ r. NormalPath r.0) rows

module _ {F : Type 0} where
  row_path-NormalPath : (raw : Json F) (s : String) → row_path raw ≡ ok s → NormalPath s
  unfolding row_path safe_artifact_relative
  row_path-NormalPath (str t) s h =
      let (parts, e, h1) = >>=-eq-ok (safe_artifact_relative t) _ h in
      let (same, h2) = guard-bind-eq-ok (as_posix parts == t) _ _ h1 in
      subst NormalPath (ok-injective h2) (record {
        parts = parts;
        safe = safe_parts-SafePath _ t parts e;
        same = (eq_iff _ t).0 same;
      })
  row_path-NormalPath null s h = cc
  row_path-NormalPath (bool b) s h = cc
  row_path-NormalPath (num n) s h = cc
  row_path-NormalPath (arr vs) s h = cc
  row_path-NormalPath (obj fs) s h = cc

  parse_row-NormalPath : (raw : Json F) (r : String × ℕ) → parse_row raw ≡ ok r → NormalPath r.0
  unfolding parse_row
  parse_row-NormalPath raw r h =
      let (row, found, h1) = >>=-eq-ok (object_or _ raw) _ h in
      let (exact, h2) = guard-bind-eq-ok _ _ _ h1 in
      let (path, hp, h3) = >>=-eq-ok (row_path (item row "path")) _ h2 in
      let (size, hs, h4) = >>=-eq-ok (natural _ (item row "size")) _ h3 in
      subst (λ r. NormalPath r.0) (ok-injective h4) (row_path-NormalPath (item row "path") path hp)

  short_list-few :
      (e : Fault) (raw : Json F) (vs : List (Json F))
      → short_list e raw ≡ ok vs
      → length vs ≤ max_artifact_files
  unfolding short_list
  short_list-few e (arr xs) vs h = ground (arith, h)
  short_list-few e null vs h = cc
  short_list-few e (bool b) vs h = cc
  short_list-few e (num n) vs h = cc
  short_list-few e (str t) vs h = cc
  short_list-few e (obj fs) vs h = cc

  length-each :
      {B : Type 0} (f : Json F → Result Fault B) (vs : List (Json F)) (out : List B)
      → each f vs ≡ ok out
      → length out ≡ length vs
  unfolding each
  length-each f [] out h = subst (λ out. length out ≡ 0) (ok-injective h) refl
  length-each f (v ∷ vs) out h =
      let (y, first, h1) = >>=-eq-ok (f v) _ h in
      let (ys, later, h2) = >>=-eq-ok (each f vs) _ h1 in
      subst (λ out. length out ≡ suc (length vs)) (ok-injective h2)
        (ap suc (length-each f vs ys later))

  manifest_rows-RowsOk :
      (raw : Json F) (total : ℕ) (rows : List (String × ℕ))
      → manifest_rows raw total ≡ ok rows
      → RowsOk rows total
  unfolding manifest_rows
  manifest_rows-RowsOk raw total rows h =
      let (values, few, h1) = >>=-eq-ok (short_list _ raw) _ h in
      let (found, parsed, h2) = >>=-eq-ok (each parse_row values) _ h1 in
      let paths = map (λ r. r.0) found in
      let (sorted, h3) =
        guard-bind-eq-ok (same_texts paths (sort_by text_lt (unique paths))) _ _ h2 in
      let (sum, h4) = guard-bind-eq-ok (eqb (total_size found) total) _ _ h3 in
      let same = same_texts-eq paths (sort_by text_lt (unique paths)) sorted in
      subst (λ rows. RowsOk rows total) (ok-injective h4)
        (record {
          adds_up = ground (arith, sum);
          few =
              (let count = length-each parse_row values found parsed in
                let short = short_list-few _ raw values few in omega arith);
          paths_distinct =
              subst Distinct (sym same) (Distinct-sorted (unique paths) (Distinct-unique paths));
          paths_normal =
              All-each parse_row (λ r. NormalPath r.0) parse_row-NormalPath values found parsed;
        })

  bounded-le : (max_bytes : ℕ) (raw : Json F) (n : ℕ) → bounded max_bytes raw ≡ ok n → n ≤ max_bytes
  unfolding bounded
  bounded-le max_bytes raw n h =
      let (total, read, h1) = >>=-eq-ok (natural _ raw) _ h in
      let (small, h2) = guard-bind-eq-ok (not (ltb max_bytes total)) _ _ h1 in
      ground (arith, small, h2)

module _ {F : Type 0} ⦃fl : Floats F⦄ where
  pub validate_artifact_manifest-ManifestOk :
      (raw : Json F) (max_bytes : ℕ) (m : Manifest)
      → validate_artifact_manifest raw max_bytes ≡ ok m
      → ManifestOk max_bytes m
  unfolding validate_artifact_manifest
  validate_artifact_manifest-ManifestOk raw max_bytes m h =
      let (value, found, h1) = >>=-eq-ok (object_or _ raw) _ h in
      let (exact, h2) = guard-bind-eq-ok (exact_keys value manifest_keys) _ _ h1 in
      let (owned, h3) =
        guard-bind-eq-ok
          (is_text (item value "schema") "kernelinfra.artifact-manifest.v1"
            && is_text (item value "authority") "node-run")
          _ _ h2 in
      let (head, read, h4) = >>=-eq-ok (manifest_head value) _ h3 in
      let (total, bound, h5) = >>=-eq-ok (bounded max_bytes (item value "total_bytes")) _ h4 in
      let (files, rows, h6) = >>=-eq-ok (manifest_rows (item value "files") total) _ h5 in
      let r = manifest_rows-RowsOk (item value "files") total files rows in
      subst (ManifestOk max_bytes) (ok-injective h6) (record {
        within = bounded-le max_bytes (item value "total_bytes") total bound;
        total = r.adds_up;
        few = r.few;
        paths_distinct = r.paths_distinct;
        paths_normal = r.paths_normal;
      })
