-- ===== src/Examples/Extract.antt =====
-- internal/deploy/archive.go and daemon.go: an archive of one playbook, its manifest, and its task.
use dibra.Prelude.{
  ℕ, ◌+◌, Bool, true, false, String, ◌≡◌, refl, arith, none, List, [], ◌∷◌, if◌then◌else◌, leb,
  is_empty, Result, ok, All,
}
use dibra.Tasks.{FilePath}
use dibra.Paths.{split_slash, clean, clean_parts, join_slash, join, is_abs}
use dibra.Deploy.Names.{safe_project_path, has_windows_drive_prefix, climbs}
use dibra.Deploy.Extract.{Entry, Disk, regular, extract_archive}
use dibra.Deploy.Extract.Bounds.{RespectsLimit, AllInside, Bounded, extract_archive_lem}
use dibra.Deploy.Manifest.{
  Manifest, is_yaml, extension, check_manifest_playbooks, accept_manifest, load_manifest,
}
use dibra.Deploy.Manifest.Playbooks.{IsPlaybook, distinct_paths, load_manifest_lem}
use dibra.Deploy.Daemon.{Services}

abbrev site : FilePath
site = b's' ∷ b'.' ∷ b'y' ∷ b'm' ∷ b'l' ∷ []

-- The world counts the operations.
abbrev disk : Disk String ℕ
disk = record {
  make_dirs = λ path mode w. (ok tt, w + 1);
  open_entry = λ entry w. (ok tt, w + 1);
  create = λ path mode w. (ok tt, w + 1);
  copy = λ entry path limit w.
      ((if leb entry.uncompressed_size limit then entry.uncompressed_size else limit, none), w + 1);
  close_output = λ path w. (none, w + 1);
  close_input = λ entry w. (none, w + 1);
}

disk-RespectsLimit : RespectsLimit disk
disk-RespectsLimit entry path limit w = ground arith

abbrev entries : List Entry
entries = record { name = site; kind = regular; permissions = 420; uncompressed_size = 5 } ∷ []

extract_archive_lem_example :
    AllInside (extract_archive disk (b'p' ∷ []) entries 0).1.written
    × Bounded
        (extract_archive disk (b'p' ∷ []) entries 0).0
        (extract_archive disk (b'p' ∷ []) entries 0).1
extract_archive_lem_example = extract_archive_lem disk (b'p' ∷ []) disk-RespectsLimit entries 0

abbrev one_playbook : Manifest
one_playbook = record { version = "1"; playbooks = site ∷ [] }

abbrev no_walk : FilePath → Result String (List (FilePath × Bool))
no_walk path = ok []

abbrev read_one : FilePath → Result String Manifest
read_one path = ok one_playbook

abbrev all_regular : FilePath → Result String Bool
all_regular path = ok true

one_playbook_loads :
    load_manifest no_walk no_walk read_one all_regular [] (b'p' ∷ []) ≡ ok one_playbook
unfolding load_manifest accept_manifest check_manifest_playbooks is_yaml extension safe_project_path
    split_slash clean clean_parts join_slash join is_abs has_windows_drive_prefix climbs
one_playbook_loads = refl

load_manifest_lem_example :
    (one_playbook.version ≡ "1")
    × (is_empty one_playbook.playbooks ≡ false)
    × All (IsPlaybook (b'p' ∷ []) all_regular) one_playbook.playbooks
    × (distinct_paths one_playbook.playbooks ≡ true)
load_manifest_lem_example =
    load_manifest_lem no_walk no_walk read_one all_regular [] (b'p' ∷ []) one_playbook
      one_playbook_loads

-- A server with one task, whose project reboots.
abbrev services : Services String ℕ
services = record {
  fetch = λ w. (ok (record { status = 200; task_id = b't' ∷ []; content_length = none }), w + 1);
  make_job = λ w. (ok (b'j' ∷ []), w + 1);
  save = λ job limit w. (ok 5, w + 1);
  extract = λ job w. (ok (record { root = job; playbooks = site ∷ [] }), w + 1);
  execute = λ project w. (ok true, w + 1);
  remove_job = λ job w. w + 1;
  report = λ outcome w. (none, w + 1);
  archive_too_large = "too large";
}
