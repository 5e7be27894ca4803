-- ===== src/LineInFile/Edit.antt =====
-- internal/modules/lineinfile/executor.go: which line is replaced, where a line is inserted, and which
-- lines are removed. A compiled regular expression is the function that finds its groups in a line,
-- the whole match first.
mod Search
pub mod Laws
pub mod Repeat
pub mod Removal
use dibra.Prelude.{
  ℕ, zero, suc, ◌+◌, ◌-◌, Bool, true, false, Option, none, some, List, [], ◌∷◌, ◌++◌, ◌||◌, ◌&&◌,
  not, if◌then◌else◌, is_empty, is_some, length, ◌or_else◌,
}
use mathlib.Core.List.{reverse}
use dibra.Paths.{bytes_eq}
use dibra.LineInFile.Text.{Bytes, after_prefix, has_suffix, trim_suffix, ended_line, expand_groups}

abbrev pub Regexp : Type 0
Regexp = Bytes → Option (List Bytes)

-- "BOF" and "EOF"
abbrev pub bof : Bytes
bof = b'B' ∷ b'O' ∷ b'F' ∷ []

abbrev pub eof : Bytes
eof = b'E' ∷ b'O' ∷ b'F' ∷ []

-- What the request says about lines, with its expressions compiled. The two insert positions are as
-- after the default that makes both empty ones "EOF" after.
pub record LineEdit : Type 0 where
  pub find : Option Regexp
  pub search_string : Bytes
  pub line : Bytes
  pub backrefs : Bool
  pub first_match : Bool
  pub insert_after : Bytes
  pub insert_before : Bytes
  pub insert_find : Option Regexp
  pub separator : Bytes

-- strings.Contains(line, s)
unfoldable pub contains_bytes : Bytes → Bytes → Bool
unfolding after_prefix
contains_bytes [] s = is_empty s
contains_bytes (c ∷ line) s = is_some (after_prefix s (c ∷ line)) || contains_bytes line s

abbrev pub is_match : Option Regexp → Bytes → Bytes → Bool
is_match (some find) search line = is_some (find line)
is_match none search line = if is_empty search then false else contains_bytes line search

abbrev pub later : Option ℕ → Option ℕ
later none = none
later (some i) = some (suc i)

unfoldable pub find_first : (Bytes → Bool) → List Bytes → Option ℕ
find_first p [] = none
find_first p (l ∷ ls) = let rest = later (find_first p ls) in if p l then some 0 else rest

unfoldable pub find_last : (Bytes → Bool) → List Bytes → Option ℕ
find_last p [] = none
find_last p (l ∷ ls) = later (find_last p ls) or_else (if p l then some 0 else none)

-- The two search loops, forwards with firstmatch and else backwards.
abbrev pub find_line : Bool → (Bytes → Bool) → List Bytes → Option ℕ
find_line first p ls = if first then find_first p ls else find_last p ls

-- lines[i] = line
unfoldable pub set_line : List Bytes → ℕ → Bytes → List Bytes
set_line [] i v = []
set_line (l ∷ ls) zero v = v ∷ ls
set_line (l ∷ ls) (suc i) v = l ∷ set_line ls i v

-- insertAt, for an index that is not negative: append(lines[:index], line, lines[index:]...)
unfoldable pub insert_at : List Bytes → ℕ → Bytes → List Bytes
insert_at ls zero line = line ∷ ls
insert_at [] (suc i) line = line ∷ []
insert_at (l ∷ ls) (suc i) line = l ∷ insert_at ls i line

abbrev pub contains_line : List Bytes → Bytes → Bool
contains_line [] line = false
contains_line (l ∷ ls) line = bytes_eq l line || contains_line ls line

pub data Message : Type 0 where
  nothing_to_say line_replaced backrefs_skipped line_already_present line_added : Message

pub record Edited : Type 0 where
  pub lines : List Bytes
  pub changed : Bool
  pub msg : Message

-- The content of the line without its end, as it is compared and stored.
unfoldable pub line_content : LineEdit → Bytes
line_content e = trim_suffix (ended_line e.line e.separator) e.separator

abbrev pub groups_of : Option Regexp → Bytes → List Bytes
groups_of none line = []
groups_of (some find) line = elim (find line) [ none ↦ [] | some groups ↦ groups ]

-- A line with the groups put in, with one line end, which is then taken off.
unfoldable pub expanded_line : LineEdit → List Bytes → Bytes
unfolding expand_groups
expanded_line e groups =
    let expanded = expand_groups (reverse groups) (length groups - 1) e.line in
    trim_suffix (if has_suffix expanded e.separator then expanded else expanded ++ e.separator)
      e.separator

-- The replacement of a matched line: with the groups put in, where backrefs are asked for.
unfoldable pub replacement : LineEdit → Bytes → Bytes
unfolding expanded_line line_content
replacement e old =
    let groups = groups_of e.find old in
    if e.backrefs && not (is_empty groups) then expanded_line e groups else line_content e

unfoldable pub replace_line : LineEdit → List Bytes → ℕ → Bytes → Edited
replace_line e ls i old =
    if bytes_eq old (replacement e old)
    then record { lines = ls; changed = false; msg = nothing_to_say }
    else record { lines = set_line ls i (replacement e old); changed = true; msg = line_replaced }

-- Where the new line goes, given the line that the insert expression finds.
unfoldable pub place_line : LineEdit → List Bytes → Option ℕ → Bytes → List Bytes
place_line e ls none line = if bytes_eq e.insert_before bof then line ∷ ls else ls ++ line ∷ []
place_line e ls (some i) line =
    if bytes_eq e.insert_before bof
    then line ∷ ls
    else if bytes_eq e.insert_after eof
    then ls ++ line ∷ []
    else if not (is_empty e.insert_before)
    then insert_at ls i line
    else if not (is_empty e.insert_after)
    then insert_at ls (i + 1) line
    else ls ++ line ∷ []

abbrev pub insert_index : LineEdit → List Bytes → Option ℕ
insert_index e ls = elim e.insert_find [
  | none ↦ none
  | some find ↦ find_line e.first_match (λ l. is_some (find l)) ls
]

unfoldable pub add_line : LineEdit → List Bytes → Edited
unfolding place_line
add_line e ls =
    if e.backrefs
    then record { lines = ls; changed = false; msg = backrefs_skipped }
    else if contains_line ls (line_content e)
    then record { lines = ls; changed = false; msg = line_already_present }
    else record {
      lines = place_line e ls (insert_index e ls) (line_content e);
      changed = true;
      msg = line_added;
    }

abbrev pub old_line : List Bytes → ℕ → Bytes
old_line [] i = []
old_line (l ∷ ls) zero = l
old_line (l ∷ ls) (suc i) = old_line ls i

abbrev pub edit_at : LineEdit → List Bytes → Option ℕ → Edited
edit_at e ls none = add_line e ls
edit_at e ls (some i) = replace_line e ls i (old_line ls i)

-- What `present` does to the lines of the file.
unfoldable pub edit_lines : LineEdit → List Bytes → Edited
edit_lines e ls = edit_at e ls (find_line e.first_match (is_match e.find e.search_string) ls)

-- Whether `absent` removes a line; an empty line of the request removes none.
unfoldable pub removes : Option Regexp → Bytes → Bytes → Bytes → Bool
removes (some find) search line l = is_some (find l)
removes none search line l =
    if not (is_empty search)
    then contains_bytes l search
    else if not (is_empty line)
    then bytes_eq l line
    else false

-- The loop of `absent`: the lines that are kept, and how many are not.
unfoldable pub remove_lines : (Bytes → Bool) → List Bytes → List Bytes × ℕ
remove_lines p [] = ([], 0)
remove_lines p (l ∷ ls) =
    let (kept, removed) = remove_lines p ls in
    if p l then (kept, removed + 1) else (l ∷ kept, removed)
