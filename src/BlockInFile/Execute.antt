-- ===== src/BlockInFile/Execute.antt =====
-- internal/modules/blockinfile/executor.go: `Execute`, from the guards to the response. What it does to
-- the target is a record of operations on a state of its own.
pub mod Settled
use dibra.Prelude.{
  Bool, true, false, Option, none, some, [], ◌∷◌, ◌&&◌, not, if◌then◌else◌, is_empty, Result, ok,
  err,
}
use dibra.Paths.{bytes_eq}
use dibra.LineInFile.Text.{Bytes, line_separator}
use dibra.LineInFile.Execute.{FileState, present, absent, Stat, missing, unreadable, found}
use dibra.BlockInFile.Lines.{Finder, BlockEdit, marker_line, lines_of_block, put_content}

-- State, after an empty one was set to "present"; another one is `none`.
pub record Request : Type 0 where
  pub path : Bytes
  pub state : Option FileState
  pub block : Bytes
  pub marker : Bytes
  pub marker_begin : Bytes
  pub marker_end : Bytes
  pub insert_after : Bytes
  pub insert_before : Bytes
  pub create : Bool
  pub backup : Bool
  pub validate : Bytes
  pub prepend_newline : Bool
  pub append_newline : Bool
  pub owner : Bytes
  pub group : Bytes
  pub mode : Bytes

pub data Report : Type 0 where
  file_missing already_present already_absent : Report
  file_created block_inserted block_removed : Report

pub record Response : Type 0 where
  pub changed : Bool
  pub msg : Report
  pub backup_file : Bytes
  pub diff : Option (Bytes × Bytes)

pub data Failure (E : Type 0) : Type 0 where
  path_required invalid_state two_positions path_missing path_is_directory : Failure E
  read_failed parent_failed attributes_failed validation_failed : E → Failure E
  backup_failed write_failed : E → Failure E

-- What the module calls of the operating system and of regexp; `found true` is a directory.
pub record Target (E W : Type 0) : Type 0 where
  pub stat : Bytes → W → Stat E
  pub read_file : Bytes → W → Result E Bytes
  pub make_parent : Bytes → W → Result E (Unit {0}) × W
  pub compile : Bytes → Option Finder
  pub run_validation : Bytes → Bytes → W → Result E (Unit {0}) × W
  pub make_backup : Bytes → W → Result E Bytes × W
  pub write : Bytes → Bytes → W → Result E (Unit {0}) × W
  pub set_attributes : Bytes → Bytes → Bytes → Bytes → W → Result E Bool × W

-- The guards before the file is looked at.
unfoldable pub check : {E : Type 0} → Request → Result (Failure E) FileState
check req = if is_empty req.path then err path_required else elim req.state [
  | none ↦ err invalid_state
  | some state ↦
      if not (is_empty req.insert_after) && not (is_empty req.insert_before)
      then err two_positions
      else ok state
]

-- "# {mark} DIBRA MANAGED BLOCK"
abbrev pub default_marker : Bytes
default_marker =
    b'#' ∷ b' ' ∷ b'{' ∷ b'm' ∷ b'a' ∷ b'r' ∷ b'k' ∷ b'}' ∷ b' ' ∷ b'D' ∷ b'I' ∷ b'B' ∷ b'R' ∷ b'A'
    ∷ b' ' ∷ b'M' ∷ b'A' ∷ b'N' ∷ b'A' ∷ b'G' ∷ b'E' ∷ b'D' ∷ b' ' ∷ b'B' ∷ b'L' ∷ b'O' ∷ b'C'
    ∷ b'K' ∷ []

-- "BEGIN"
abbrev pub default_begin : Bytes
default_begin = b'B' ∷ b'E' ∷ b'G' ∷ b'I' ∷ b'N' ∷ []

-- "END"
abbrev pub default_end : Bytes
default_end = b'E' ∷ b'N' ∷ b'D' ∷ []

abbrev pub or_default : Bytes → Bytes → Bytes
or_default value default = if is_empty value then default else value

abbrev pub is_present : FileState → Bool
is_present present = true
is_present absent = false

-- present := state == "present" && block != ""
abbrev pub has_block : Request → FileState → Bool
has_block req state = is_present state && not (is_empty req.block)

-- What the request says about the lines of a content.
unfoldable pub block_edit : (Bytes → Option Finder) → Request → FileState → Bytes → BlockEdit
block_edit compile req state content =
    let sep = line_separator content in
    let marker = or_default req.marker default_marker in
    let marker0 = marker_line marker (or_default req.marker_begin default_begin) sep in
    let marker1 = marker_line marker (or_default req.marker_end default_end) sep in
    record {
      compile = compile;
      marker0 = marker0;
      marker1 = marker1;
      block_lines = lines_of_block (has_block req state) marker0 marker1 req.block sep;
      present = has_block req state;
      insert_after = req.insert_after;
      insert_before = req.insert_before;
      separator = sep;
      prepend_newline = req.prepend_newline;
      append_newline = req.append_newline;
    }

abbrev pub settled_report : FileState → Report
settled_report present = already_present
settled_report absent = already_absent

abbrev pub written_report : Bool → Bool → Report
written_report exists has =
    if not exists then file_created else if has then block_inserted else block_removed

module _ {E W : Type 0} (target : Target E W) where
  abbrev pub attempt :
      {A B : Type 0}
      → (E → Failure E)
      → Result E A × W
      → (A → W → Result (Failure E) B × W)
      → Result (Failure E) B × W
  attempt failure (ok a, w) rest = rest a w
  attempt failure (err e, w) rest = (err (failure e), w)

  -- The end for a content that stays.
  unfoldable pub keep_content : Request → FileState → W → Result (Failure E) Response × W
  keep_content req state w =
      attempt attributes_failed (target.set_attributes req.path req.owner req.group req.mode w)
        (λ changed w'. (
          ok (record {
            changed = changed;
            msg = settled_report state;
            backup_file = [];
            diff = none;
          }),
          w',
        ))

  abbrev pub back_up : Bool → Bytes → W → Result E Bytes × W
  back_up wanted path w = if wanted then target.make_backup path w else (ok [], w)

  -- Validation, backup, write and attributes, in this order.
  unfoldable pub store_content :
      Request → FileState → Bool → Bytes → Bytes → W → Result (Failure E) Response × W
  store_content req state exists before content w =
      attempt validation_failed
        (if is_empty req.validate then (ok tt, w) else target.run_validation req.validate content w)
        (λ _ w1.
          attempt backup_failed (back_up (req.backup && exists) req.path w1) (λ backup_file w2.
            attempt write_failed (target.write req.path content w2) (λ _ w3.
              attempt attributes_failed
                (target.set_attributes req.path req.owner req.group req.mode w3)
                (λ _ w4. (
                  ok (record {
                    changed = true;
                    msg = written_report exists (has_block req state);
                    backup_file = backup_file;
                    diff = some (before, content);
                  }),
                  w4,
                )))))

  -- From the content of the file on.
  unfoldable pub edit_content :
      Request → FileState → Bool → Bytes → W → Result (Failure E) Response × W
  unfolding store_content
  edit_content req state exists content w =
      let new = put_content (block_edit target.compile req state content) content in
      if bytes_eq content new
      then keep_content req state w
      else store_content req state exists content new w

  unfoldable pub edit_missing : Request → FileState → W → Result (Failure E) Response × W
  unfolding edit_content
  edit_missing req state w =
      if not (is_present state)
      then (ok (record { changed = false; msg = file_missing; backup_file = []; diff = none }), w)
      else if not req.create
      then (err path_missing, w)
      else attempt parent_failed (target.make_parent req.path w)
          (λ _ w'. edit_content req state false [] w')

  -- Any error of Stat counts as a file that does not exist.
  unfoldable pub edit_file : Request → FileState → W → Result (Failure E) Response × W
  unfolding edit_missing
  edit_file req state w = elim (target.stat req.path w) [
    | missing ↦ edit_missing req state w
    | unreadable e ↦ edit_missing req state w
    | found is_dir ↦
        if is_dir
        then (err path_is_directory, w)
        else attempt read_failed (target.read_file req.path w, w)
            (λ content w'. edit_content req state true content w')
  ]

  -- Execute
  unfoldable pub execute : Request → W → Result (Failure E) Response × W
  unfolding edit_file
  execute req w = elim (check req) [ err e ↦ (err e, w) | ok state ↦ edit_file req state w ]
