-- ===== src/Deploy/Manifest.antt =====
-- internal/deploy/archive.go: the manifest of an extracted archive, `locateManifest` and `loadManifest`,
-- and `ExtractProject` as a whole. A walk lists what is below a directory, each with its path from there
-- and whether it is a directory.

pub mod Playbooks
use dibra.Prelude.{
  ℕ, zero, suc, ◌+◌, Bool, true, false, String, Option, none, some, List, [], ◌∷◌, ◌++◌, ◌||◌, ◌&&◌,
  ◌==◌, not, if◌then◌else◌, eqb, leb, is_empty, length, Result, ok, err, ◌>>=◌,
}
use dibra.Tasks.{FilePath}
use dibra.Paths.{slash, bytes_eq, join, split_slash, contains_path}
use dibra.Deploy.Names.{NameError, safe_project_path}
use dibra.Deploy.Project.{Project}
use dibra.Deploy.Extract.{Entry, ExtractError, Disk, Progress, Step, extract_archive}

-- "dibra-deploy.yaml"
abbrev pub manifest_name : FilePath
manifest_name =
    b'd' ∷ b'i' ∷ b'b' ∷ b'r' ∷ b'a' ∷ b'-' ∷ b'd' ∷ b'e' ∷ b'p' ∷ b'l' ∷ b'o' ∷ b'y' ∷ b'.' ∷ b'y'
    ∷ b'a' ∷ b'm' ∷ b'l' ∷ []

-- The version is the literal of its number.
pub record Manifest : Type 0 where
  pub version : String
  pub playbooks : List FilePath

pub data ManifestError (E : Type 0) : Type 0 where
  cannot_scan cannot_inspect cannot_read : E → ManifestError E
  not_one_manifest : ℕ → ManifestError E
  not_enclosed_alone too_deep no_playbooks : ManifestError E
  unsupported_version : String → ManifestError E
  bad_playbook : ℕ → NameError → ManifestError E
  bad_extension repeated_playbook not_regular : FilePath → ManifestError E
  cannot_stat : FilePath → E → ManifestError E

-- The last component, which is a directory entry's Name().
abbrev pub base_name : List FilePath → FilePath
base_name [] = []
base_name (part ∷ []) = part
base_name (part ∷ next ∷ parts) = base_name (next ∷ parts)

unfoldable pub manifests_in : List (FilePath × Bool) → List FilePath
manifests_in [] = []
manifests_in ((path, is_dir) ∷ found) =
    let rest = manifests_in found in
    if not is_dir && bytes_eq (base_name (split_slash path)) manifest_name
    then path ∷ rest
    else rest

abbrev pub has_slash_in : FilePath → Bool
has_slash_in [] = false
has_slash_in (c ∷ p) = eqb c slash || has_slash_in p

-- filepath.Ext
unfoldable pub extension : FilePath → FilePath
extension [] = []
extension (c ∷ p) =
    let rest = extension p in
    if not (is_empty rest) then rest else if eqb c b'.' && not (has_slash_in p) then c ∷ p else []

-- strings.ToLower, on the letters of ASCII; no other character becomes a letter of ".yaml".
abbrev lower : FilePath → FilePath
lower [] = []
lower (c ∷ p) = (if leb b'A' c && leb c b'Z' then c + 32 else c) ∷ lower p

-- ".yaml" and ".yml"
unfoldable pub is_yaml : FilePath → Bool
unfolding extension
is_yaml name =
    bytes_eq (lower (extension name)) (b'.' ∷ b'y' ∷ b'a' ∷ b'm' ∷ b'l' ∷ [])
    || bytes_eq (lower (extension name)) (b'.' ∷ b'y' ∷ b'm' ∷ b'l' ∷ [])

abbrev pub regular_playbook :
    {E : Type 0} → FilePath → FilePath → Result E Bool → Result (ManifestError E) FilePath
regular_playbook playbook name (err e) = err (cannot_stat playbook e)
regular_playbook playbook name (ok regular) =
    if regular then ok name else err (not_regular playbook)

abbrev pub mapped : {E A : Type 0} → (E → ManifestError E) → Result E A → Result (ManifestError E) A
mapped failure (ok a) = ok a
mapped failure (err e) = err (failure e)

module _ {E : Type 0} (walk : FilePath → Result E (List (FilePath × Bool)))
    (read_dir : FilePath → Result E (List (FilePath × Bool)))
    (read_manifest : FilePath → Result E Manifest) (is_regular : FilePath → Result E Bool) where
  abbrev enclosed_in : FilePath → List (FilePath × Bool) → Bool
  enclosed_in top ((name, is_dir) ∷ []) = is_dir && bytes_eq name top
  enclosed_in top _ = false

  -- The root of the project and the manifest, given the components of the manifest's path.
  unfoldable pub project_root :
      FilePath → FilePath → List FilePath → Result (ManifestError E) (FilePath × FilePath)
  project_root destination path (file ∷ []) = ok (destination, join destination path)
  project_root destination path (top ∷ file ∷ []) = do
    entries ← mapped cannot_inspect (read_dir destination)
    if enclosed_in top entries
        then ok (join destination top, join destination path)
        else err not_enclosed_alone
  project_root destination path _ = err too_deep

  abbrev only_manifest : FilePath → List FilePath → Result (ManifestError E) (FilePath × FilePath)
  only_manifest destination (path ∷ []) = project_root destination path (split_slash path)
  only_manifest destination paths = err (not_one_manifest (length paths))

  unfoldable pub locate_manifest : FilePath → Result (ManifestError E) (FilePath × FilePath)
  locate_manifest destination = do
    found ← mapped cannot_scan (walk destination)
    only_manifest destination (manifests_in found)

  abbrev pub accept_playbook :
      FilePath
      → ℕ
      → List FilePath
      → FilePath
      → Result NameError FilePath
      → Result (ManifestError E) FilePath
  accept_playbook root index seen playbook (err e) = err (bad_playbook index e)
  accept_playbook root index seen playbook (ok name) =
      if not (is_yaml name)
      then err (bad_extension playbook)
      else if contains_path seen name
      then err (repeated_playbook playbook)
      else regular_playbook playbook name (is_regular (join root name))

  -- The loop over the playbooks; it gives each its clean name.
  unfoldable pub check_manifest_playbooks :
      FilePath → ℕ → List FilePath → List FilePath → Result (ManifestError E) (List FilePath)
  check_manifest_playbooks root index seen [] = ok []
  check_manifest_playbooks root index seen (playbook ∷ playbooks) = do
    name ← accept_playbook root index seen playbook (safe_project_path playbook)
    names ← check_manifest_playbooks root (index + 1) (seen ++ name ∷ []) playbooks
    ok (name ∷ names)

  unfoldable pub accept_manifest : FilePath → Manifest → Result (ManifestError E) Manifest
  unfolding check_manifest_playbooks
  accept_manifest root manifest =
      if not (manifest.version == "1")
      then err (unsupported_version manifest.version)
      else if is_empty manifest.playbooks
      then err no_playbooks
      else do
        names ← check_manifest_playbooks root 0 [] manifest.playbooks
        ok (record { version = manifest.version; playbooks = names })

  unfoldable pub load_manifest : FilePath → FilePath → Result (ManifestError E) Manifest
  unfolding accept_manifest
  load_manifest path root = do
    manifest ← mapped cannot_read (read_manifest path)
    accept_manifest root manifest

  unfoldable pub find_project : FilePath → Result (ManifestError E) Project
  find_project destination = do
    (root, path) ← locate_manifest destination
    manifest ← load_manifest path root
    ok (record { root = root; playbooks = manifest.playbooks })

pub data ProjectError (E : Type 0) : Type 0 where
  not_extracted : ExtractError E → ProjectError E
  bad_manifest : ManifestError E → ProjectError E

module _ {E W : Type 0} (disk : Disk E W) (walk : W → FilePath → Result E (List (FilePath × Bool)))
    (read_dir : W → FilePath → Result E (List (FilePath × Bool)))
    (read_manifest : W → FilePath → Result E Manifest)
    (is_regular : W → FilePath → Result E Bool) where
  abbrev found_project : Result (ManifestError E) Project → Result (ProjectError E) Project
  found_project (ok project) = ok project
  found_project (err e) = err (bad_manifest e)

  abbrev after_extraction : FilePath → Step E W → Result (ProjectError E) Project × W
  after_extraction destination (some e, p) = (err (not_extracted e), p.world)
  after_extraction destination (none, p) = (
    found_project (
        find_project (walk p.world) (read_dir p.world) (read_manifest p.world) (is_regular p.world)
          destination),
    p.world,
  )

  -- ExtractProject, on the entries of an archive that opens.
  unfoldable pub extract_project : FilePath → List Entry → W → Result (ProjectError E) Project × W
  extract_project destination entries w =
      after_extraction destination (extract_archive disk destination entries w)
