-- ===== src/Paths.antt =====
-- Slash-separated paths, by their bytes: what the program uses of Go's packages `path` and
-- `filepath` on Unix, where the two agree. `Clean` is written over the components of a path.
pub mod Laws
use dibra.Prelude.{
  ℕ, Bool, true, false, List, [], ◌∷◌, ◌++◌, ◌||◌, ◌&&◌, if◌then◌else◌, eqb, is_empty,
}
use mathlib.Core.List.{reverse}
use dibra.Tasks.{FilePath}

abbrev pub slash : ℕ
slash = b'/'

abbrev pub bytes_eq : List ℕ → List ℕ → Bool
bytes_eq [] [] = true
bytes_eq (a ∷ p) (b ∷ q) = eqb a b && bytes_eq p q
bytes_eq _ _ = false

-- "." and ".."
abbrev pub dot : FilePath
dot = b'.' ∷ []

abbrev pub dot_dot : FilePath
dot_dot = b'.' ∷ b'.' ∷ []

abbrev add_byte : ℕ → List FilePath → List FilePath
add_byte c [] = (c ∷ []) ∷ []
add_byte c (part ∷ parts) = (c ∷ part) ∷ parts

-- strings.Split(p, "/")
unfoldable pub split_slash : FilePath → List FilePath
split_slash [] = [] ∷ []
split_slash (c ∷ p) =
    let parts = split_slash p in if eqb c slash then [] ∷ parts else add_byte c parts

-- strings.Join(parts, "/")
unfoldable pub join_slash : List FilePath → FilePath
join_slash [] = []
join_slash (part ∷ []) = part
join_slash (part ∷ next ∷ parts) = part ++ (slash ∷ join_slash (next ∷ parts))

unfoldable pub is_abs : FilePath → Bool
is_abs [] = false
is_abs (c ∷ p) = eqb c slash

-- A ".." drops the component before it, if there is one that is not ".." itself.
abbrev pub go_up : Bool → List FilePath → List FilePath
go_up rooted [] = if rooted then [] else dot_dot ∷ []
go_up rooted (part ∷ out) = if bytes_eq part dot_dot then dot_dot ∷ part ∷ out else out

-- The components that are left of a path, the last first.
unfoldable pub clean_parts : Bool → List FilePath → List FilePath → List FilePath
clean_parts rooted [] out = out
clean_parts rooted (part ∷ parts) out = clean_parts rooted parts (
    if is_empty part || bytes_eq part dot
    then out
    else if bytes_eq part dot_dot
    then go_up rooted out
    else part ∷ out)

abbrev pub or_dot : FilePath → FilePath
or_dot [] = dot
or_dot p = p

-- path.Clean
unfoldable pub clean : FilePath → FilePath
unfolding is_abs split_slash join_slash clean_parts
clean p =
    let parts = join_slash (reverse (clean_parts (is_abs p) (split_slash p) [])) in
    if is_abs p then slash ∷ parts else or_dot parts

-- filepath.Join of two elements, of which empty ones are left out.
unfoldable pub join : FilePath → FilePath → FilePath
unfolding clean
join [] [] = []
join [] b = clean b
join (x ∷ a) [] = clean (x ∷ a)
join (x ∷ a) b = clean ((x ∷ a) ++ (slash ∷ b))

-- What stands before the last slash, with it.
unfoldable pub upto_slash : FilePath → FilePath
upto_slash [] = []
upto_slash (c ∷ p) =
    let rest = upto_slash p in
    if is_empty rest then (if eqb c slash then c ∷ [] else []) else c ∷ rest

-- filepath.Dir
unfoldable pub dir : FilePath → FilePath
unfolding clean upto_slash
dir p = clean (upto_slash p)

-- filepath.Abs, in a working directory.
unfoldable pub absolute : FilePath → FilePath → FilePath
unfolding clean join is_abs
absolute cwd p = if is_abs p then clean p else join cwd p

-- Membership of a path in a set of paths.
abbrev pub contains_path : List FilePath → FilePath → Bool
contains_path [] p = false
contains_path (q ∷ paths) p = bytes_eq q p || contains_path paths p
