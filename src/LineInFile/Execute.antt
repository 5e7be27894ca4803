-- ===== src/LineInFile/Execute.antt =====
-- internal/modules/lineinfile/executor.go: `Execute` with `present` and `absent`. What they do to the
-- target is a record of operations on a state of its own.

use dibra.Prelude.{
  ℕ, Bool, true, false, Option, none, some, [], ◌||◌, ◌&&◌, not, if◌then◌else◌, eqb, is_empty,
  ◌or_else◌, Result, ok, err, ◌>>=◌,
}
use dibra.Paths.{bytes_eq}
use dibra.LineInFile.Text.{Bytes, line_separator, split_lines, join_lines}
use dibra.LineInFile.Edit.{Regexp, LineEdit, Message, bof, eof, edit_lines, removes, remove_lines}

pub data FileState : Type 0 where
  present absent : FileState

-- State, after an empty one was set to "present"; another one is `none`.
pub record Request : Type 0 where
  pub path : Bytes
  pub state : Option FileState
  pub regexp : Bytes
  pub search_string : Bytes
  pub line : Bytes
  pub backrefs : Bool
  pub first_match : Bool
  pub insert_after : Bytes
  pub insert_before : Bytes
  pub create : Bool
  pub backup : Bool
  pub validate : Bytes
  pub owner : Bytes
  pub group : Bytes
  pub mode : Bytes

pub data Report : Type 0 where
  edit_message : Message → Report
  file_missing no_match : Report
  removed : ℕ → Report

pub record Response : Type 0 where
  pub changed : Bool
  pub msg : Report
  pub backup_file : Bytes
  pub diff : Option (Bytes × Bytes)

pub data Failure (E : Type 0) : Type 0 where
  path_required invalid_state backrefs_and_search regexp_and_search : Failure E
  two_positions backrefs_and_position line_required regexp_required selector_required : Failure E
  path_missing path_is_directory : Failure E
  stat_failed read_failed parent_failed bad_regexp bad_after bad_before : E → Failure E
  validation_failed backup_failed write_failed attributes_failed : E → Failure E

pub data Stat (E : Type 0) : Type 0 where
  missing : Stat E
  unreadable : E → Stat E
  found : Bool → Stat E

-- What the module calls of the operating system; `found true` is a directory.
pub record Target (E W : Type 0) : Type 0 where
  pub stat : Bytes → W → Stat E
  pub read_file : Bytes → W → Result E Bytes
  pub make_parent : Bytes → W → Result E (Unit {0}) × W
  pub compile : Bytes → Result E Regexp
  pub run_validation : Bytes → Bytes → W → Result E (Unit {0}) × W
  pub make_backup : Bytes → W → Result E Bytes × W
  pub write : Bytes → Bytes → W → Result E (Unit {0}) × W
  pub set_attributes : Bytes → Bytes → Bytes → Bytes → W → Result E Bool × W

-- The guards of `Execute`.
unfoldable pub check : {E : Type 0} → Request → Result (Failure E) FileState
check req = if is_empty req.path then err path_required else elim req.state [
  | none ↦ err invalid_state
  | some state ↦
      if req.backrefs && not (is_empty req.search_string)
      then err backrefs_and_search
      else if not (is_empty req.regexp) && not (is_empty req.search_string)
      then err regexp_and_search
      else if not (is_empty req.insert_after) && not (is_empty req.insert_before)
      then err two_positions
      else if req.backrefs && (not (is_empty req.insert_after) || not (is_empty req.insert_before))
      then err backrefs_and_position
      else elim state [
        | present ↦
            if is_empty req.line
            then err line_required
            else if req.backrefs && is_empty req.regexp
            then err regexp_required
            else ok present
        | absent ↦
            if is_empty req.regexp && is_empty req.search_string && is_empty req.line
            then err selector_required
            else ok absent
      ]
]

module _ {E W : Type 0} (target : Target E W) where
  -- An operation on the target, whose error becomes one of the module's.
  abbrev pub attempt :
      {A B : Type 0}
      → (E → Failure E)
      → Result E A × W
      → (A → W → Result (Failure E) B × W)
      → Result (Failure E) B × W
  attempt failure (ok a, w) rest = rest a w
  attempt failure (err e, w) rest = (err (failure e), w)

  abbrev pub compiled : (E → Failure E) → Result E Regexp → Result (Failure E) (Option Regexp)
  compiled failure (ok find) = ok (some find)
  compiled failure (err e) = err (failure e)

  unfoldable pub compile_regexp : Bytes → Result (Failure E) (Option Regexp)
  compile_regexp expression =
      if is_empty expression then ok none else compiled bad_regexp (target.compile expression)

  unfoldable pub compile_position : (E → Failure E) → Bytes → Result (Failure E) (Option Regexp)
  compile_position failure position =
      if is_empty position || bytes_eq position eof || bytes_eq position bof
      then ok none
      else compiled failure (target.compile position)

  unfoldable pub compile_edit : Request → Bytes → Result (Failure E) LineEdit
  compile_edit req content = do
    find ← compile_regexp req.regexp
    after ← compile_position bad_after req.insert_after
    before ← compile_position bad_before req.insert_before
    ok (record {
      find = find;
      search_string = req.search_string;
      line = req.line;
      backrefs = req.backrefs;
      first_match = req.first_match;
      insert_after =
          if is_empty req.insert_after && is_empty req.insert_before then eof else req.insert_after;
      insert_before = req.insert_before;
      insert_find = before or_else after;
      separator = line_separator content;
    })

  -- setAttributesIfDifferent on an unchanged file.
  unfoldable pub keep_content : Request → Message → W → Result (Failure E) Response × W
  keep_content req msg w =
      attempt attributes_failed (target.set_attributes req.path req.owner req.group req.mode w)
        (λ changed w'. (
          ok (record { changed = changed; msg = edit_message msg; backup_file = []; diff = none }),
          w',
        ))

  abbrev pub back_up : Bool → Bytes → W → Result E Bytes × W
  back_up wanted path w = if wanted then target.make_backup path w else (ok [], w)

  -- Validation, backup, write and attributes, in this order.
  unfoldable pub store :
      Request → Bool → Bytes → Bytes → Message → W → Result (Failure E) Response × W
  store req exists before content msg w =
      attempt validation_failed
        (if is_empty req.validate then (ok tt, w) else target.run_validation req.validate content w)
        (λ _ w1.
          attempt backup_failed (back_up (req.backup && exists) req.path w1) (λ backup_file w2.
            attempt write_failed (target.write req.path content w2) (λ _ w3.
              attempt attributes_failed
                (target.set_attributes req.path req.owner req.group req.mode w3)
                (λ _ w4. (
                  ok (record {
                    changed = true;
                    msg = edit_message msg;
                    backup_file = backup_file;
                    diff = some (before, content);
                  }),
                  w4,
                )))))

  unfoldable pub apply_edit :
      Request → Bool → Bytes → LineEdit → W → Result (Failure E) Response × W
  apply_edit req exists content e w =
      let r = edit_lines e (split_lines content) in
      if r.changed
      then store req exists content (join_lines e.separator r.lines) r.msg w
      else keep_content req r.msg w

  unfoldable pub edit_content : Request → Bool → Bytes → W → Result (Failure E) Response × W
  edit_content req exists content w = elim (compile_edit req content) [
    | err e ↦ (err e, w)
    | ok e ↦ apply_edit req exists content e w
  ]

  abbrev pub create_file : Request → W → Result (Failure E) Response × W
  create_file req w =
      if req.create
      then attempt parent_failed (target.make_parent req.path w)
          (λ _ w'. edit_content req false [] w')
      else (err path_missing, w)

  unfoldable pub ensure_present : Request → W → Result (Failure E) Response × W
  ensure_present req w = elim (target.stat req.path w) [
    | missing ↦ create_file req w
    | unreadable e ↦ create_file req w
    | found is_dir ↦
        if is_dir
        then (err path_is_directory, w)
        else attempt read_failed (target.read_file req.path w, w)
            (λ content w'. edit_content req true content w')
  ]

  abbrev pub unchanged_as : Report → Response
  unchanged_as report = record { changed = false; msg = report; backup_file = []; diff = none }

  unfoldable pub drop_lines : Request → Bytes → Option Regexp → W → Result (Failure E) Response × W
  drop_lines req content find w =
      let (kept_ones, count) =
        remove_lines (removes find req.search_string req.line) (split_lines content) in
      let new = join_lines (line_separator content) kept_ones in
      if eqb count 0
      then (ok (unchanged_as no_match), w)
      else attempt backup_failed (back_up req.backup req.path w) (λ backup_file w1.
        attempt write_failed (target.write req.path new w1) (λ _ w2. (
          ok (record {
            changed = true;
            msg = removed count;
            backup_file = backup_file;
            diff = some (content, new);
          }),
          w2,
        )))

  unfoldable pub ensure_absent : Request → W → Result (Failure E) Response × W
  ensure_absent req w = elim (target.stat req.path w) [
    | missing ↦ (ok (unchanged_as file_missing), w)
    | unreadable e ↦ (err (stat_failed e), w)
    | found is_dir ↦
        if is_dir
        then (err path_is_directory, w)
        else attempt read_failed (target.read_file req.path w, w)
            (λ content w'. elim (compile_regexp req.regexp) [
              | err e ↦ (err e, w')
              | ok find ↦ drop_lines req content find w'
            ])
  ]

  -- Execute
  unfoldable pub execute : Request → W → Result (Failure E) Response × W
  execute req w = elim (check req) [
    | err e ↦ (err e, w)
    | ok present ↦ ensure_present req w
    | ok absent ↦ ensure_absent req w
  ]
