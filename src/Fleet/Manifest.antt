-- ===== src/Fleet/Manifest.antt =====
-- `_validate_artifact_manifest` of src/kernel_infra/fleet.py, cut where its blocks end.
use gpu_infra.Prelude.{
  ℕ, ◌+◌, pos, String, Bool, true, false, not, ◌&&◌, ◌||◌, List, [], ◌∷◌, map, Dict, leb, ltb, eqb,
  length, mem, all, each, sort_by, text_lt, if◌then◌else◌, Result, ok, err, ◌>>=◌, ◌>>◌, guard,
  ◌==◌,
}
use gpu_infra.Json.{Json, num, int, str, arr, obj, Floats, items}
use gpu_infra.Fault.{Fault, runtime_error, type_error}
use gpu_infra.Contracts.Values.{is_identifier, item}
use gpu_infra.Contracts.Task.{is_text}
use gpu_infra.Fleet.Types.{is_run_name}
use gpu_infra.Fleet.Catalog.{exact_keys, matched, object_or}
use gpu_infra.Fleet.Paths.{safe_artifact_relative, as_posix, is_absolute}

-- `MAX_ARTIFACT_FILES`
abbrev pub max_artifact_files : ℕ
max_artifact_files = 10000

-- What the code reads of a manifest.
pub record Manifest : Type 0 where
  pub run_id : String
  pub task_id : String
  pub task_sha256 : String
  pub candidate_sha256 : String
  pub terminal_state : String
  pub terminal_at : String
  pub run_dir : String
  pub total_bytes : ℕ
  pub files : List (String × ℕ)
  pub artifact_set_sha256 : String

abbrev pub manifest_keys : List String
manifest_keys =
    "schema" ∷ "authority" ∷ "terminal_at" ∷ "run_id" ∷ "task_id" ∷ "task_sha256"
    ∷ "candidate_sha256" ∷ "terminal_state" ∷ "run_dir" ∷ "total_bytes" ∷ "files"
    ∷ "artifact_set_sha256" ∷ []

abbrev pub terminal_states : List String
terminal_states = "completed" ∷ "rejected" ∷ "infra_error" ∷ "cancelled" ∷ "interrupted" ∷ []

-- `[0-9a-f]`
abbrev pub hex_char : ℕ → Bool
hex_char c = (leb 48 c && leb c 57) || (leb 97 c && leb c 102)

-- `re.fullmatch(r"[0-9a-f]{64}", ...)`
unfoldable pub is_sha256 : List ℕ → Bool
is_sha256 cs = eqb (length cs) 64 && all hex_char cs

-- `set(texts)`
unfoldable pub unique : List String → List String
unique [] = []
unique (x ∷ xs) = let rest = unique xs in if mem x rest then rest else x ∷ rest

-- `xs == ys`
unfoldable pub same_texts : List String → List String → Bool
same_texts [] [] = true
same_texts (x ∷ xs) (y ∷ ys) = x == y && same_texts xs ys
same_texts _ _ = false

-- `sum` of the sizes
unfoldable pub total_size : List (String × ℕ) → ℕ
total_size [] = 0
total_size (row ∷ rows) = row.1 + total_size rows

module _ {F : Type 0} where
  -- `value["terminal_state"] in {...}`, which raises for what has no hash
  unfoldable pub terminal_text : Json F → Result Fault String
  terminal_text (str s) =
      if mem s terminal_states
      then ok s
      else err (runtime_error "artifact manifest is not terminal")
  terminal_text (arr vs) = err (type_error "unhashable type")
  terminal_text (obj fs) = err (type_error "unhashable type")
  terminal_text _ = err (runtime_error "artifact manifest is not terminal")

  unfoldable pub full_text : Fault → Json F → Result Fault String
  full_text e (str s) = if s == "" then err e else ok s
  full_text e _ = err e

  unfoldable pub absolute_text : Fault → Json F → Result Fault String
  absolute_text e (str s) = if is_absolute s then ok s else err e
  absolute_text e _ = err e

  unfoldable pub natural : Fault → Json F → Result Fault ℕ
  natural e (num (int (pos n))) = ok n
  natural e _ = err e

  unfoldable pub row_path : Json F → Result Fault String
  row_path (str s) = do
    parts ← safe_artifact_relative s
    guard (as_posix parts == s) (runtime_error "artifact manifest file path is not normalized")
    ok s
  row_path _ = err (runtime_error "artifact manifest file path is invalid")

  unfoldable pub parse_row : Json F → Result Fault (String × ℕ)
  parse_row raw = do
    row ← object_or (runtime_error "artifact manifest file row is invalid") raw
    guard (exact_keys row ("path" ∷ "size" ∷ []))
        (runtime_error "artifact manifest file row is invalid")
    path ← row_path (item row "path")
    size ← natural (runtime_error "artifact manifest file size is invalid") (item row "size")
    ok (path, size)

  unfoldable pub short_list : Fault → Json F → Result Fault (List (Json F))
  short_list e (arr vs) =
      if ltb max_artifact_files (length (items vs)) then err e else ok (items vs)
  short_list e _ = err e

  -- the rows, and that they are sorted, distinct and have the total
  unfoldable pub manifest_rows : Json F → ℕ → Result Fault (List (String × ℕ))
  manifest_rows raw total = do
    values ← short_list (runtime_error "artifact manifest file list is invalid") raw
    rows ← each parse_row values
    let paths = map (λ r. r.0) rows
    guard (same_texts paths (sort_by text_lt (unique paths)))
        (runtime_error "artifact manifest paths must be sorted and unique")
    guard (eqb (total_size rows) total)
        (runtime_error "artifact manifest byte total disagrees with files")
    ok rows

  unfoldable pub bounded : ℕ → Json F → Result Fault ℕ
  bounded max_bytes raw = do
    total ← natural (runtime_error "artifact manifest byte total is invalid") raw
    guard (not (ltb max_bytes total)) (runtime_error "artifact manifest byte total is invalid")
    ok total

  -- the values before the total and the files
  unfoldable pub manifest_head : Dict (Json F) → Result Fault Manifest
  manifest_head value = do
    set_sha ←
        matched is_sha256 (runtime_error "artifact manifest set identity is invalid")
          (item value "artifact_set_sha256")
    run_id ←
        matched is_run_name (runtime_error "artifact manifest has invalid run/task identity")
          (item value "run_id")
    task_id ←
        matched is_identifier (runtime_error "artifact manifest has invalid run/task identity")
          (item value "task_id")
    task_sha ←
        matched is_sha256 (runtime_error "artifact manifest has invalid task_sha256")
          (item value "task_sha256")
    candidate_sha ←
        matched is_sha256 (runtime_error "artifact manifest has invalid candidate_sha256")
          (item value "candidate_sha256")
    state ← terminal_text (item value "terminal_state")
    terminal_at ←
        full_text (runtime_error "artifact manifest has no terminal timestamp")
          (item value "terminal_at")
    run_dir ←
        absolute_text (runtime_error "artifact manifest run directory is invalid")
          (item value "run_dir")
    ok (record {
      run_id = run_id;
      task_id = task_id;
      task_sha256 = task_sha;
      candidate_sha256 = candidate_sha;
      terminal_state = state;
      terminal_at = terminal_at;
      run_dir = run_dir;
      total_bytes = 0;
      files = [];
      artifact_set_sha256 = set_sha;
    })

module _ {F : Type 0} ⦃fl : Floats F⦄ where
  unfoldable pub validate_artifact_manifest : Json F → ℕ → Result Fault Manifest
  validate_artifact_manifest raw max_bytes = do
    value ← object_or (runtime_error "artifact manifest has invalid fields") raw
    guard (exact_keys value manifest_keys) (runtime_error "artifact manifest has invalid fields")
    guard
        (is_text (item value "schema") "kernelinfra.artifact-manifest.v1"
          && is_text (item value "authority") "node-run")
        (runtime_error "artifact manifest authority drift")
    manifest ← manifest_head value
    total ← bounded max_bytes (item value "total_bytes")
    files ← manifest_rows (item value "files") total
    ok (record manifest { total_bytes = total; files = files })
