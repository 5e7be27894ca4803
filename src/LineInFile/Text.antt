-- ===== src/LineInFile/Text.antt =====
-- internal/modules/lineinfile/executor.go: lines and line ends.
pub mod RoundTrip
use dibra.Prelude.{
  ℕ, zero, suc, ◌+◌, ◌-◌, Bool, false, Option, none, some, List, [], ◌∷◌, ◌++◌, ◌||◌, ◌&&◌, not,
  if◌then◌else◌, eqb, ltb, is_empty, length,
}
use Prim.Native.Nat.{◌/◌, ◌%◌}
use dibra.Paths.{bytes_eq}

abbrev pub Bytes : Type 0
Bytes = List ℕ

abbrev pub newline : ℕ
newline = 10

abbrev pub return : ℕ
return = 13

abbrev pub lf : Bytes
lf = newline ∷ []

abbrev pub crlf : Bytes
crlf = return ∷ newline ∷ []

-- bytes.Contains(content, []byte("\r\n"))
unfoldable pub has_crlf : Bytes → Bool
has_crlf [] = false
has_crlf (c ∷ []) = false
has_crlf (c ∷ d ∷ s) = (eqb c return && eqb d newline) || has_crlf (d ∷ s)

unfoldable pub line_separator : Bytes → Bytes
unfolding has_crlf
line_separator content = if has_crlf content then crlf else lf

-- strings.ReplaceAll(content, "\r\n", "\n")
unfoldable pub drop_returns : Bytes → Bytes
drop_returns [] = []
drop_returns (c ∷ []) = c ∷ []
drop_returns (c ∷ d ∷ s) =
    let rest = drop_returns (d ∷ s) in if eqb c return && eqb d newline then rest else c ∷ rest

abbrev pub add_to_first : ℕ → List Bytes → List Bytes
add_to_first c [] = (c ∷ []) ∷ []
add_to_first c (l ∷ ls) = (c ∷ l) ∷ ls

-- strings.Split(content, "\n")
unfoldable pub split_newlines : Bytes → List Bytes
split_newlines [] = [] ∷ []
split_newlines (c ∷ s) =
    let ls = split_newlines s in if eqb c newline then [] ∷ ls else add_to_first c ls

-- The last line is dropped if it is empty.
unfoldable pub drop_last_empty : List Bytes → List Bytes
drop_last_empty [] = []
drop_last_empty (l ∷ []) = if is_empty l then [] else l ∷ []
drop_last_empty (l ∷ m ∷ ls) = l ∷ drop_last_empty (m ∷ ls)

-- splitLines
unfoldable pub split_lines : Bytes → List Bytes
unfolding drop_returns split_newlines drop_last_empty
split_lines content =
    if is_empty content then [] else drop_last_empty (split_newlines (drop_returns content))

-- strings.Join(lines, lineSep), with lineSep after the last line, if there is one.
unfoldable pub join_lines : Bytes → List Bytes → Bytes
join_lines sep [] = []
join_lines sep (l ∷ ls) = l ++ (sep ++ join_lines sep ls)

-- strings.HasSuffix(s, suffix)
unfoldable pub has_suffix : Bytes → Bytes → Bool
has_suffix [] suffix = is_empty suffix
has_suffix (c ∷ s) suffix = bytes_eq (c ∷ s) suffix || has_suffix s suffix

-- strings.TrimSuffix(s, suffix)
unfoldable pub trim_suffix : Bytes → Bytes → Bytes
trim_suffix [] suffix = []
trim_suffix (c ∷ s) suffix =
    let rest = c ∷ trim_suffix s suffix in if bytes_eq (c ∷ s) suffix then [] else rest

-- The line of the request, with one line end of the file's kind.
unfoldable pub ended_line : Bytes → Bytes → Bytes
ended_line line sep =
    if not (has_suffix line lf) && not (has_suffix line crlf)
    then line ++ sep
    else if bytes_eq sep crlf && has_suffix line lf && not (has_suffix line crlf)
    then trim_suffix line lf ++ sep
    else line

-- What follows a prefix.
unfoldable pub after_prefix : Bytes → Bytes → Option Bytes
after_prefix [] s = some s
after_prefix (p ∷ ps) [] = none
after_prefix (p ∷ ps) (c ∷ s) = if eqb p c then after_prefix ps s else none

-- strings.ReplaceAll(s, old, new) at an `old` that is not empty; the length of the text is fuel enough,
-- since every round reads a byte of it at least.
unfoldable pub replace_from : ℕ → Bytes → Bytes → Bytes → Bytes
unfolding after_prefix
replace_from zero old new s = s
replace_from (suc fuel) old new [] = []
replace_from (suc fuel) old new (c ∷ s) = elim (after_prefix old (c ∷ s)) [
  | some rest ↦ new ++ replace_from fuel old new rest
  | none ↦ c ∷ replace_from fuel old new s
]

-- A number in decimal digits; a number is fuel enough for its own digits.
unfoldable pub decimal : ℕ → ℕ → Bytes
decimal zero n = (48 + n % 10) ∷ []
decimal (suc fuel) n =
    let more = decimal fuel (n / 10) ++ (48 + n % 10) ∷ [] in
    if ltb n 10 then (48 + n) ∷ [] else more

abbrev backslash : ℕ
backslash = 92

-- The loop of expandBackrefs, from the last group down; the groups come last first.
unfoldable pub expand_groups : List Bytes → ℕ → Bytes → Bytes
unfolding replace_from decimal
expand_groups [] i line = line
expand_groups (group ∷ groups) i line =
    expand_groups groups (i - 1) (replace_from (length line) (backslash ∷ decimal i i) group line)
