-- ===== src/Deploy/Names.antt =====
-- internal/deploy/archive.go: `safeArchiveName` and `safeProjectPath`, which decide the names of
-- archive entries and of playbooks.
pub mod Safety
use dibra.Prelude.{
  ℕ, Bool, true, false, List, [], ◌∷◌, ◌||◌, ◌&&◌, if◌then◌else◌, eqb, leb, is_empty, contains_num,
  Result, ok, err,
}
use dibra.Tasks.{FilePath}
use dibra.Paths.{slash, bytes_eq, dot, dot_dot, split_slash, is_abs, clean}

-- invalid_name: "invalid entry name", or "path is empty or invalid"
pub data NameError : Type 0 where
  invalid_name path_traversal escapes_root : NameError

abbrev backslash : ℕ
backslash = 92

-- The loop over the components.
abbrev pub any_dot_dot : List FilePath → Bool
any_dot_dot [] = false
any_dot_dot (part ∷ parts) = bytes_eq part dot_dot || any_dot_dot parts

unfoldable pub has_windows_drive_prefix : FilePath → Bool
has_windows_drive_prefix (c ∷ d ∷ p) =
    ((leb b'a' c && leb c b'z') || (leb b'A' c && leb c b'Z')) && eqb d b':'
has_windows_drive_prefix _ = false

-- strings.HasPrefix(p, "../")
unfoldable pub climbs : FilePath → Bool
climbs (a ∷ b ∷ c ∷ p) = eqb a b'.' && eqb b b'.' && eqb c slash
climbs _ = false

unfoldable pub safe_archive_name : FilePath → Result NameError FilePath
unfolding has_windows_drive_prefix climbs
safe_archive_name name =
    if is_empty name || contains_num name 0 || contains_num name backslash
    then err invalid_name
    else if any_dot_dot (split_slash name)
    then err path_traversal
    else let clean_name = clean name in
      if is_abs name
        || has_windows_drive_prefix name
        || bytes_eq clean_name dot_dot
        || climbs clean_name
      then err escapes_root
      else ok clean_name

unfoldable pub safe_project_path : FilePath → Result NameError FilePath
unfolding has_windows_drive_prefix climbs
safe_project_path name =
    if is_empty name || contains_num name backslash
    then err invalid_name
    else if any_dot_dot (split_slash name)
    then err path_traversal
    else let clean_name = clean name in
      if is_abs name
        || has_windows_drive_prefix name
        || bytes_eq clean_name dot
        || bytes_eq clean_name dot_dot
        || climbs clean_name
      then err escapes_root
      else ok clean_name
