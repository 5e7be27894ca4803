-- ===== src/Examples/BlockInFile.antt =====
-- internal/modules/blockinfile/executor.go on a file of one line.
use dibra.Prelude.{true, false, ◌≡◌, refl, sym, ap, none, some, List, [], ◌∷◌, inl, Result, ok}
use dibra.LineInFile.Text.{Bytes, line_separator, has_crlf, after_prefix, has_suffix, trim_suffix}
use dibra.LineInFile.Edit.{find_last, insert_at}
use dibra.LineInFile.Execute.{present, found}
use dibra.BlockInFile.Lines.{
  BlockEdit, split_keeping, concat, replace_once, marker_line, plain, is_ended, ended_block,
  lines_of_block, find_markers, take, drop, insert_position, cut, end_previous, is_text_at,
  prepend_blank, insert_block_at, append_blank, put_block, put_content,
}
use dibra.BlockInFile.Lines.Again.{IsUsable}
use dibra.BlockInFile.Execute.{
  Request, Target, check, block_edit, store_content, keep_content, edit_content, execute,
  block_inserted,
}
use dibra.BlockInFile.Execute.Settled.{IsFileSystem, execute_again}

abbrev one_line : Bytes
one_line = b'a' ∷ 10 ∷ []

-- A file system of one file, as its content.
abbrev one_file : Target (Unit {0}) Bytes
one_file = record {
  stat = λ path w. found false;
  read_file = λ path w. ok w;
  make_parent = λ path w. (ok tt, w);
  compile = λ pattern. none;
  run_validation = λ command content w. (ok tt, w);
  make_backup = λ path w. (ok path, w);
  write = λ path content w. (ok tt, content);
  set_attributes = λ path owner group mode w. (ok false, w);
}

one_file-IsFileSystem : IsFileSystem one_file
one_file-IsFileSystem = record {
  stat-write = λ path content w w' h. refl;
  read-write =
      λ path content w w' h. ap (λ (x : Result (Unit {0}) (Unit {0}) × Bytes). ok x.1) (sym h);
  stat-set_attributes = λ path owner group mode w. refl;
  read-set_attributes = λ path owner group mode w. refl;
}

-- The block of one line that is put after the first line, with a blank line before it.
abbrev add_block : Request
add_block = record {
  path = b'f' ∷ [];
  state = some present;
  block = b'x' ∷ [];
  marker = b'#' ∷ b'{' ∷ b'm' ∷ b'a' ∷ b'r' ∷ b'k' ∷ b'}' ∷ [];
  marker_begin = b'B' ∷ [];
  marker_end = b'E' ∷ [];
  insert_after = [];
  insert_before = [];
  create = false;
  backup = true;
  validate = [];
  prepend_newline = true;
  append_newline = false;
  owner = [];
  group = [];
  mode = [];
}

abbrev edit : BlockEdit
edit = block_edit one_file.compile add_block present one_line

abbrev edited : Bytes
edited = b'a' ∷ 10 ∷ 10 ∷ b'#' ∷ b'B' ∷ 10 ∷ b'x' ∷ 10 ∷ b'#' ∷ b'E' ∷ 10 ∷ []

abbrev body : List Bytes
body = (b'x' ∷ 10 ∷ []) ∷ []

edit-IsUsable : IsUsable edit body
unfolding block_edit line_separator has_crlf marker_line replace_once after_prefix lines_of_block
    split_keeping ended_block has_suffix trim_suffix plain
edit-IsUsable = record {
  separator_end = inl refl;
  block_shape = refl;
  begin_once = refl;
  begin_blank = refl;
  end_blank = refl;
}

put_edited : put_content edit one_line ≡ edited
unfolding block_edit line_separator has_crlf marker_line replace_once after_prefix lines_of_block
    split_keeping ended_block has_suffix trim_suffix plain put_content put_block find_markers
    find_last insert_position cut end_previous is_ended is_text_at prepend_blank insert_at
    insert_block_at take drop append_blank concat
put_edited = refl

first_run : edit_content one_file add_block present true one_line one_line ≡ (
  ok (record {
    changed = true;
    msg = block_inserted;
    backup_file = b'f' ∷ [];
    diff = some (one_line, edited);
  }),
  edited,
)
unfolding edit_content store_content
first_run = rw put_edited refl

execute_again_example :
    execute one_file add_block edited ≡ keep_content one_file add_block present edited
unfolding block_edit line_separator has_crlf marker_line replace_once after_prefix lines_of_block
    split_keeping ended_block has_suffix check
execute_again_example =
    execute_again one_file add_block present true one_line edited body one_line edited
      (record {
        changed = true;
        msg = block_inserted;
        backup_file = b'f' ∷ [];
        diff = some (one_line, edited);
      })
      one_file-IsFileSystem refl edit-IsUsable refl put_edited refl refl first_run
