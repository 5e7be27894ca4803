-- ===== src/Examples/LineInFile.antt =====
-- internal/modules/lineinfile/executor.go on a file of two settings.
use dibra.Prelude.{
  ◌+◌, if◌then◌else◌, true, false, ◌≡◌, refl, none, some, List, [], ◌∷◌, eqb, length, inl, ◌⊎◌,
}
use dibra.LineInFile.Text.{Bytes, lf, ended_line, trim_suffix, has_suffix}
use dibra.LineInFile.Text.{split_lines, join_lines}
use dibra.LineInFile.Text.RoundTrip.{split_lines-join_lines}
use dibra.LineInFile.Edit.{
  LineEdit, Regexp, contains_line, line_content, edit_lines, removes, remove_lines, find_last,
  set_line, replacement, replace_line, eof,
}
use dibra.LineInFile.Edit.Laws.{Touches, edit_lines-Touches, selects}
use dibra.LineInFile.Edit.Repeat.{contains_line-edit_lines, edit_lines_again}
use dibra.LineInFile.Edit.Removal.{Selected, remove_lines_lem}

-- The expression ^p.*
abbrev port_lines : Regexp
port_lines [] = none
port_lines (c ∷ l) = if eqb c b'p' then some ((c ∷ l) ∷ []) else none

abbrev old_port : Bytes
old_port = b'p' ∷ b'=' ∷ b'1' ∷ []

abbrev new_port : Bytes
new_port = b'p' ∷ b'=' ∷ b'2' ∷ []

abbrev host : Bytes
host = b'h' ∷ []

abbrev settings : List Bytes
settings = old_port ∷ host ∷ []

abbrev set_port : LineEdit
set_port = record {
  find = some port_lines;
  search_string = [];
  line = new_port;
  backrefs = false;
  first_match = false;
  insert_after = eof;
  insert_before = [];
  insert_find = none;
  separator = lf;
}

set_port_content : line_content set_port ≡ new_port
unfolding line_content ended_line trim_suffix has_suffix
set_port_content = refl

edited_settings : (edit_lines set_port settings).lines ≡ new_port ∷ host ∷ []
unfolding line_content ended_line trim_suffix has_suffix edit_lines find_last set_line replacement
    replace_line
edited_settings = refl

edit_lines-Touches_example : Touches set_port settings (edit_lines set_port settings).lines
edit_lines-Touches_example = edit_lines-Touches set_port settings

contains_line-edit_lines_example :
    contains_line (edit_lines set_port settings).lines (line_content set_port) ≡ true
contains_line-edit_lines_example = contains_line-edit_lines set_port settings refl

selects_new_port : selects set_port (line_content set_port) ≡ true
unfolding line_content ended_line trim_suffix has_suffix
selects_new_port = refl

edit_lines_again_example :
    (edit_lines set_port (edit_lines set_port settings).lines).changed ≡ false
edit_lines_again_example = edit_lines_again set_port settings refl (inl selects_new_port)

remove_lines_lem_example :
    ((Selected (some port_lines) [] [] host
        × (contains_line (remove_lines (removes (some port_lines) [] []) settings).0 host ≡ false))
      ⊎ ((¬ Selected (some port_lines) [] [] host)
          × (contains_line (remove_lines (removes (some port_lines) [] []) settings).0 host
              ≡ contains_line settings host)))
    × (length (remove_lines (removes (some port_lines) [] []) settings).0
          + (remove_lines (removes (some port_lines) [] []) settings).1
        ≡ length settings)
    × (remove_lines
          (removes (some port_lines) [] [])
          (remove_lines (removes (some port_lines) [] []) settings).0
        ≡ ((remove_lines (removes (some port_lines) [] []) settings).0, 0))
remove_lines_lem_example = remove_lines_lem (some port_lines) [] [] settings host

split_lines-join_lines_example : split_lines (join_lines lf settings) ≡ settings
split_lines-join_lines_example = split_lines-join_lines settings (refl, (refl, tt))
