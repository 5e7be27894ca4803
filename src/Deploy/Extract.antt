-- ===== src/Deploy/Extract.antt =====
-- internal/deploy/archive.go: the extraction of an archive, `ExtractProject` up to the search for the
-- manifest. The file system and the reading of ZIP entries are a record of operations.
pub mod Bounds
use dibra.Prelude.{
  ℕ, zero, suc, ◌+◌, ◌-◌, Bool, true, false, Option, none, some, List, [], ◌∷◌, ◌++◌, ◌||◌,
  if◌then◌else◌, eqb, ltb, length, Result, ok, err,
}
use dibra.Tasks.{FilePath}
use dibra.Paths.{dot, bytes_eq, join, dir, contains_path}
use dibra.Deploy.Names.{NameError, safe_archive_name}

abbrev pub max_archive_entries : ℕ
max_archive_entries = 100000

-- 2 << 30
abbrev pub max_expanded_size : ℕ
max_expanded_size = 2147483648

-- What the mode bits of an entry say: a symbolic link is `special`, like all that is neither a regular
-- file nor a directory.
pub data EntryKind : Type 0 where
  regular directory special : EntryKind

pub record Entry : Type 0 where
  pub name : FilePath
  pub kind : EntryKind
  pub permissions : ℕ
  pub uncompressed_size : ℕ

pub data ExtractError (E : Type 0) : Type 0 where
  too_many_entries : ℕ → ExtractError E
  cannot_make_destination : E → ExtractError E
  bad_name : NameError → ExtractError E
  duplicate_entry unsupported_type : FilePath → ExtractError E
  too_large : ExtractError E
  cannot_make_directory cannot_make_parent cannot_open cannot_create : FilePath → E → ExtractError E
  cannot_copy cannot_close_output cannot_close_input : FilePath → E → ExtractError E

-- `copy` is io.Copy into the created file from a reader that is limited to a number of bytes; it
-- returns the bytes written and, maybe, an error.
pub record Disk (E W : Type 0) : Type 0 where
  pub make_dirs : FilePath → ℕ → W → Result E (Unit {0}) × W
  pub open_entry : Entry → W → Result E (Unit {0}) × W
  pub create : FilePath → ℕ → W → Result E (Unit {0}) × W
  pub copy : Entry → FilePath → ℕ → W → (ℕ × Option E) × W
  pub close_output : FilePath → W → Option E × W
  pub close_input : Entry → W → Option E × W

-- The variables of the loop, and what was written so far: each file with the bytes written to it.
pub record Progress (W : Type 0) : Type 0 where
  pub seen : List FilePath
  pub expanded : ℕ
  pub written : List (FilePath × ℕ)
  pub world : W

abbrev pub extraction_start : {W : Type 0} → W → Progress W
extraction_start w = record { seen = []; expanded = 0; written = []; world = w }

-- `none` where the loop goes on.
abbrev pub Step : Type 0 → Type 0 → Type 0
Step E W = Option (ExtractError E) × Progress W

abbrev pub file_mode : ℕ → ℕ
file_mode permissions = if eqb permissions 0 then 420 else permissions

abbrev pub is_special : EntryKind → Bool
is_special special = true
is_special _ = false

module _ {E W : Type 0} where
  -- The loop goes on where a round has not stopped it.
  abbrev pub after_entry : (Progress W → Step E W) → Step E W → Step E W
  after_entry rest (some e, p) = (some e, p)
  after_entry rest (none, p) = rest p

  abbrev pub stop : ExtractError E → Progress W → W → Step E W
  stop e p w = (some e, record p { world = w })

  -- The tests after the copy, in their order.
  unfoldable pub after_copy : FilePath → ℕ → Option E → Option E → Option E → Progress W → Step E W
  after_copy name n (some e) output input p = (some (cannot_copy name e), p)
  after_copy name n none (some e) input p = (some (cannot_close_output name e), p)
  after_copy name n none none (some e) p = (some (cannot_close_input name e), p)
  after_copy name n none none none p =
      if ltb (max_expanded_size - p.expanded) n
      then (some too_large, p)
      else (none, record p { expanded = p.expanded + n })

module _ {E W : Type 0} (disk : Disk E W) (destination : FilePath) where
  -- The copy of an opened entry to its created file, and both closes.
  unfoldable pub copy_entry : Entry → FilePath → Progress W → Step E W
  unfolding after_copy
  copy_entry entry name p =
      let target = join destination name in
      let ((n, copied), w1) = disk.copy entry target (max_expanded_size - p.expanded + 1) p.world in
      let (output, w2) = disk.close_output target w1 in
      let (input, w3) = disk.close_input entry w2 in
      after_copy name n copied output input
        (record p { written = p.written ++ (name, n) ∷ []; world = w3 })

  abbrev pub create_target : Entry → FilePath → Progress W → Result E (Unit {0}) × W → Step E W
  create_target entry name p (err e, w) = stop (cannot_create name e) p w
  create_target entry name p (ok _, w) = copy_entry entry name (record p { world = w })

  abbrev pub open_input : Entry → FilePath → Progress W → Result E (Unit {0}) × W → Step E W
  open_input entry name p (err e, w) = stop (cannot_open name e) p w
  open_input entry name p (ok _, w) =
      create_target entry name p
        (disk.create (join destination name) (file_mode entry.permissions) w)

  abbrev pub parent_made : Entry → FilePath → Progress W → Result E (Unit {0}) × W → Step E W
  parent_made entry name p (err e, w) = stop (cannot_make_parent name e) p w
  parent_made entry name p (ok _, w) = open_input entry name p (disk.open_entry entry w)

  abbrev pub directory_made : FilePath → Progress W → Result E (Unit {0}) × W → Step E W
  directory_made name p (err e, w) = stop (cannot_make_directory name e) p w
  directory_made name p (ok _, w) = (none, record p { world = w })

  -- An entry whose size was accepted, by its kind.
  unfoldable pub place_entry : EntryKind → Entry → FilePath → Progress W → Step E W
  unfolding copy_entry
  place_entry directory entry name p =
      directory_made name p (disk.make_dirs (join destination name) 493 p.world)
  place_entry regular entry name p =
      parent_made entry name p (disk.make_dirs (dir (join destination name)) 493 p.world)
  place_entry special entry name p = (some (unsupported_type entry.name), p)

  -- The tests on an entry whose name is new.
  unfoldable pub admit_entry : Entry → FilePath → Progress W → Step E W
  unfolding place_entry
  admit_entry entry name p =
      if is_special entry.kind
      then (some (unsupported_type entry.name), p)
      else if ltb max_expanded_size entry.uncompressed_size
          || ltb (max_expanded_size - entry.uncompressed_size) p.expanded
      then (some too_large, p)
      else place_entry entry.kind entry name p

  abbrev pub named_entry : Entry → Result NameError FilePath → Progress W → Step E W
  named_entry entry (err e) p = (some (bad_name e), p)
  named_entry entry (ok name) p =
      if bytes_eq name dot
      then (none, p)
      else if contains_path p.seen name
      then (some (duplicate_entry name), p)
      else admit_entry entry name (record p { seen = p.seen ++ name ∷ [] })

  -- One round of the loop.
  unfoldable pub extract_entry : Entry → Progress W → Step E W
  unfolding admit_entry
  extract_entry entry p = named_entry entry (safe_archive_name entry.name) p

  unfoldable pub extract_entries : List Entry → Progress W → Step E W
  unfolding extract_entry
  extract_entries [] p = (none, p)
  extract_entries (entry ∷ entries) p =
      after_entry (extract_entries entries) (extract_entry entry p)

  abbrev pub destination_made : List Entry → Result E (Unit {0}) × W → Step E W
  destination_made entries (err e, w) = (some (cannot_make_destination e), extraction_start w)
  destination_made entries (ok _, w) = extract_entries entries (extraction_start w)

  unfoldable pub extract_archive : List Entry → W → Step E W
  unfolding extract_entries
  extract_archive entries w =
      if ltb max_archive_entries (length entries)
      then (some (too_many_entries (length entries)), extraction_start w)
      else destination_made entries (disk.make_dirs destination 448 w)
