-- ===== src/BlockInFile/Lines.antt =====
-- internal/modules/blockinfile/executor.go: lines with their ends, the search for the markers and for
-- the place of the block, and the edit of the lines. An index of -1 is `none`.
pub mod Parts
pub mod Splitting
pub mod Places
pub mod Again
pub mod Contents
use dibra.Prelude.{
  ℕ, zero, suc, ◌+◌, ◌-◌, Bool, true, false, Option, none, some, List, [], ◌∷◌, ◌++◌, ◌||◌, ◌&&◌,
  not, if◌then◌else◌, eqb, ltb, leb, is_empty, is_some, length,
}
use dibra.Paths.{bytes_eq}
use dibra.LineInFile.Text.{
  Bytes, newline, return, lf, crlf, add_to_first, has_suffix, trim_suffix, after_prefix,
}
use dibra.LineInFile.Edit.{bof, eof, contains_bytes, later, find_last, insert_at}

-- FindStringIndex of a compiled expression: where the first match starts and ends. MatchString is
-- whether there is one.
abbrev pub Finder : Type 0
Finder = Bytes → Option (ℕ × ℕ)

-- splitLinesKeepEndings; its branch for "\r\n" ends a line at the same newline as the other one.
unfoldable pub split_keeping : Bytes → List Bytes
split_keeping [] = []
split_keeping (c ∷ s) =
    let ls = split_keeping s in if eqb c newline then (c ∷ []) ∷ ls else add_to_first c ls

-- strings.Join(lines, "")
unfoldable pub concat : List Bytes → Bytes
concat [] = []
concat (l ∷ ls) = l ++ concat ls

-- strings.Replace(s, old, new, 1) at an `old` that is not empty
unfoldable pub replace_once : Bytes → Bytes → Bytes → Bytes
replace_once old new [] = []
replace_once old new (c ∷ s) = elim (after_prefix old (c ∷ s)) [
  | some rest ↦ new ++ rest
  | none ↦ c ∷ replace_once old new s
]

-- "{mark}"
abbrev pub mark : Bytes
mark = b'{' ∷ b'm' ∷ b'a' ∷ b'r' ∷ b'k' ∷ b'}' ∷ []

-- A marker line.
unfoldable pub marker_line : Bytes → Bytes → Bytes → Bytes
marker_line marker word sep = replace_once mark word marker ++ sep

-- The line without its end.
unfoldable pub plain : Bytes → Bytes
plain l = trim_suffix (trim_suffix l lf) (return ∷ [])

unfoldable pub is_ended : Bytes → Bool
is_ended l = has_suffix l lf || has_suffix l crlf

-- The block of the request, with an end that is one of the file's kind.
unfoldable pub ended_block : Bytes → Bytes → Bytes
ended_block block sep =
    if not (has_suffix block lf) && not (has_suffix block crlf)
    then block ++ sep
    else if bytes_eq sep crlf && has_suffix block lf && not (has_suffix block crlf)
    then trim_suffix block lf ++ sep
    else block

-- blockLines; `present` is whether the state is so and the block is not empty.
unfoldable pub lines_of_block : Bool → Bytes → Bytes → Bytes → Bytes → List Bytes
lines_of_block present marker0 marker1 block sep =
    if present then marker0 ∷ (split_keeping (ended_block block sep) ++ marker1 ∷ []) else []

abbrev pub is_marker : Bytes → Bytes → Bool
is_marker marker l = bytes_eq (plain l) (plain marker)

-- findMarkers: each index is that of the last such line.
unfoldable pub find_markers : List Bytes → Bytes → Bytes → Option ℕ × Option ℕ
find_markers ls marker0 marker1 =
    (find_last (is_marker marker0) ls, find_last (is_marker marker1) ls)

-- lines[:n] and lines[n:]
unfoldable pub take : ℕ → List Bytes → List Bytes
take zero ls = []
take (suc n) [] = []
take (suc n) (l ∷ ls) = l ∷ take n ls

unfoldable pub drop : ℕ → List Bytes → List Bytes
drop zero ls = ls
drop (suc n) [] = []
drop (suc n) (l ∷ ls) = drop n ls

-- "(?m)"
abbrev pub multiline_flag : Bytes
multiline_flag = b'(' ∷ b'?' ∷ b'm' ∷ b')' ∷ []

-- The loop over the lines that counts their bytes.
unfoldable pub line_at : ℕ → ℕ → List Bytes → Option ℕ
line_at target position [] = none
line_at target position (l ∷ ls) =
    let rest = later (line_at target (position + length l) ls) in
    if leb target (position + length l) then some 0 else rest

abbrev pub beside : Bool → List Bytes → Option ℕ → ℕ
beside is_after ls none = length ls
beside is_after ls (some i) = if is_after then suc i else i

abbrev pub line_of_match : Bool → List Bytes → Option (ℕ × ℕ) → Option ℕ
line_of_match is_after ls none = none
line_of_match is_after ls (some (start, end)) = line_at (if is_after then end else start) 0 ls

-- The search for an expression that was compiled; another one puts the block at the end.
unfoldable pub position_of : Bool → List Bytes → Bytes → Option Finder → ℕ
position_of is_after ls pattern none = length ls
position_of is_after ls pattern (some find) =
    if contains_bytes pattern multiline_flag
    then beside is_after ls (line_of_match is_after ls (find (concat ls)))
    else beside is_after ls (find_last (λ l. is_some (find (plain l))) ls)

-- What the request says about lines. `compile` is regexp.Compile.
pub record BlockEdit : Type 0 where
  pub compile : Bytes → Option Finder
  pub marker0 : Bytes
  pub marker1 : Bytes
  pub block_lines : List Bytes
  pub present : Bool
  pub insert_after : Bytes
  pub insert_before : Bytes
  pub separator : Bytes
  pub prepend_newline : Bool
  pub append_newline : Bool

-- calculateInsertPosition
unfoldable pub insert_position : BlockEdit → List Bytes → ℕ
unfolding position_of
insert_position e ls =
    if bytes_eq e.insert_before bof
    then 0
    else if (is_empty e.insert_after && is_empty e.insert_before) || bytes_eq e.insert_after eof
    then length ls
    else if not (is_empty e.insert_after)
    then position_of true ls e.insert_after (e.compile e.insert_after)
    else position_of false ls e.insert_before (e.compile e.insert_before)

-- The lines without the old block, and the place for the new one.
unfoldable pub cut : BlockEdit → List Bytes → Option ℕ × Option ℕ → List Bytes × ℕ
cut e ls (some n0, some n1) =
    if ltb n0 n1 then (take n0 ls ++ drop (suc n1) ls, n0) else (take n1 ls ++ drop (suc n0) ls, n1)
cut e ls (some n0, none) = (take n0 ls ++ drop (suc n0) ls, n0)
cut e ls (none, some n1) = (take n1 ls ++ drop (suc n1) ls, n1)
cut e ls (none, none) = (ls, insert_position e ls)

abbrev pub ended_with : Bytes → Bytes → Bytes
ended_with sep l = if is_ended l then l else l ++ sep

-- The line before place n gets an end, if there is such a line.
unfoldable pub end_previous : Bytes → ℕ → List Bytes → List Bytes
end_previous sep zero ls = ls
end_previous sep (suc n) [] = []
end_previous sep (suc zero) (l ∷ ls) = ended_with sep l ∷ ls
end_previous sep (suc (suc n)) (l ∷ ls) = l ∷ end_previous sep (suc n) ls

-- Whether there is a line at place n, and it is not blank.
unfoldable pub is_text_at : ℕ → List Bytes → Bool
is_text_at n [] = false
is_text_at zero (l ∷ ls) = not (is_empty (plain l))
is_text_at (suc n) (l ∷ ls) = is_text_at n ls

-- The blank line before the block.
unfoldable pub prepend_blank : BlockEdit → List Bytes × ℕ → List Bytes × ℕ
prepend_blank e (ls, n) =
    if e.prepend_newline && e.present && not (eqb n 0) && is_text_at (n - 1) ls
    then (insert_at ls n e.separator, suc n)
    else (ls, n)

-- insertBlockAt
unfoldable pub insert_block_at : List Bytes → ℕ → List Bytes → List Bytes
insert_block_at ls n block =
    if is_empty block
    then ls
    else if leb (length ls) n
    then ls ++ block
    else if eqb n 0
    then block ++ ls
    else take n ls ++ (block ++ drop n ls)

-- The blank line after the block.
unfoldable pub append_blank : BlockEdit → ℕ → List Bytes → List Bytes
append_blank e n ls =
    if e.append_newline && e.present && is_text_at n ls then insert_at ls n e.separator else ls

abbrev pub place_block : BlockEdit → List Bytes × ℕ → List Bytes
place_block e (ls, n) =
    append_blank e (n + length e.block_lines) (insert_block_at ls n e.block_lines)

abbrev pub put_at : BlockEdit → List Bytes × ℕ → List Bytes
put_at e (ls, n) = place_block e (prepend_blank e (end_previous e.separator n ls, n))

-- The edit of the lines of the file.
unfoldable pub put_block : BlockEdit → List Bytes → List Bytes
unfolding cut
put_block e ls = put_at e (cut e ls (find_markers ls e.marker0 e.marker1))

-- The edit of the content, its lines split and joined.
unfoldable pub put_content : BlockEdit → Bytes → Bytes
unfolding put_block
put_content e content = concat (put_block e (split_keeping content))
