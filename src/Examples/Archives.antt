-- ===== src/Examples/Archives.antt =====
-- An export of one artifact, and the paths of archives.
use gpu_infra.Prelude.{
  ℕ, ◌≡◌, refl, ◌==◌, true, String, some, List, [], ◌∷◌, if◌then◌else◌, ok, get, mem, any, all,
  each, subset, filter_by, sort_by, insert_by,
}
use gpu_infra.Json.{Json, str, arr, obj}
use gpu_infra.Contracts.Values.{is_identifier, item}
use gpu_infra.Contracts.Task.{is_text}
use gpu_infra.Fleet.Types.{is_run_name}
use gpu_infra.Fleet.Catalog.{only_keys, exact_keys, matched, object_or}
use gpu_infra.Fleet.Paths.{
  split_path, is_part, path_parts, is_absolute, as_posix, is_dots, safe_parts,
  safe_artifact_relative, bundle_path, safe_archive_path, below_artifacts,
  safe_artifact_archive_path,
}
use gpu_infra.Fleet.PathsSafe.{
  SafePath, safe_archive_path-SafePath, safe_artifact_archive_path-SafePath,
}
use gpu_infra.Fleet.Manifest.{
  Manifest, is_sha256, unique, same_texts, total_size, terminal_text, full_text, absolute_text,
  natural, row_path, parse_row, short_list, manifest_rows, bounded, manifest_head,
  validate_artifact_manifest,
}
use gpu_infra.Fleet.ManifestSound.{ManifestOk}
use gpu_infra.Fleet.Artifacts.{
  Member, Extracted, Loading, loads_value, not_json, read_manifest, overlaps, write_file,
  extract_manifest, extract_artifact, extract_at, extract, extract_all, path_of, has_size,
  compare_files, receive_artifact_export,
}
use gpu_infra.Fleet.ArtifactsSound.{Unpacked, Matches, receive_artifact_export-Received}
use gpu_infra.Examples.Data.{whole_floats, array, object, number as whole}

safe_archive_path-SafePath_example : SafePath ("candidate" ∷ "kernel.cu" ∷ [])
unfolding safe_archive_path safe_parts bundle_path path_parts split_path is_part is_absolute is_dots
    mem all filter_by
safe_archive_path-SafePath_example =
    safe_archive_path-SafePath "candidate//./kernel.cu" ("candidate" ∷ "kernel.cu" ∷ []) refl

safe_artifact_archive_path-SafePath_example : SafePath ("stages" ∷ "0.json" ∷ [])
unfolding safe_artifact_archive_path safe_artifact_relative below_artifacts as_posix safe_parts
    path_parts split_path is_part is_absolute is_dots mem all filter_by
safe_artifact_archive_path-SafePath_example =
    safe_artifact_archive_path-SafePath "artifacts/stages/0.json" ("stages" ∷ "0.json" ∷ []) refl

abbrev sha : String
sha = "0123456789abcdef0123456789abcdef0123456789abcdef0123456789abcdef"

abbrev manifest_json : Json ℕ
manifest_json = obj (
    object (
      ("schema", str "kernelinfra.artifact-manifest.v1")
      ∷ ("authority", str "node-run")
      ∷ ("terminal_at", str "12:30")
      ∷ ("run_id", str "gemm-1")
      ∷ ("task_id", str "gemm")
      ∷ ("task_sha256", str sha)
      ∷ ("candidate_sha256", str sha)
      ∷ ("terminal_state", str "completed")
      ∷ ("run_dir", str "/runs/gemm-1")
      ∷ ("total_bytes", whole 3)
      ∷ (
        "files",
        arr (array (obj (object (("path", str "stages/0.json") ∷ ("size", whole 3) ∷ [])) ∷ [])),
      )
      ∷ ("artifact_set_sha256", str sha)
      ∷ []))

abbrev manifest : Manifest
manifest = record {
  run_id = "gemm-1";
  task_id = "gemm";
  task_sha256 = sha;
  candidate_sha256 = sha;
  terminal_state = "completed";
  terminal_at = "12:30";
  run_dir = "/runs/gemm-1";
  total_bytes = 3;
  files = ("stages/0.json", 3) ∷ [];
  artifact_set_sha256 = sha;
}

abbrev members : List Member
members =
    (record {
      name = "artifact-manifest.json";
      size = 40;
      is_file = true;
      is_readable = true;
      content = "manifest";
    })
    ∷ (record {
      name = "artifacts/stages/0.json";
      size = 3;
      is_file = true;
      is_readable = true;
      content = "{}\n";
    })
    ∷ []

abbrev unpacked : Extracted
unpacked = record {
  member_count = 2;
  seen = "artifacts/stages/0.json" ∷ "artifact-manifest.json" ∷ [];
  artifact_bytes = 3;
  manifest = some "manifest";
  files = (record { parts = "stages" ∷ "0.json" ∷ []; size = 3; content = "{}\n" }) ∷ [];
}

abbrev loads : String → Loading ℕ
loads text = if text == "manifest" then loads_value manifest_json else not_json

abbrev digest : List (String × String) → String
digest files = sha

receives : receive_artifact_export loads digest true 10 members ≡ ok (manifest, unpacked)
unfolding receive_artifact_export read_manifest extract_all extract extract_at extract_manifest
    extract_artifact write_file overlaps compare_files path_of has_size validate_artifact_manifest
    manifest_head bounded manifest_rows short_list parse_row row_path natural absolute_text
    full_text terminal_text total_size same_texts unique is_sha256 safe_artifact_archive_path
    safe_artifact_relative below_artifacts as_posix safe_parts path_parts split_path is_part
    is_absolute is_dots only_keys exact_keys matched object_or is_run_name is_identifier is_text
    item get mem any all each subset filter_by sort_by insert_by
receives = refl

receive_artifact_export-Received_example :
    ManifestOk 10 manifest × Unpacked 10 unpacked × Matches digest manifest unpacked
receive_artifact_export-Received_example =
    receive_artifact_export-Received loads digest true 10 members (manifest, unpacked) receives
