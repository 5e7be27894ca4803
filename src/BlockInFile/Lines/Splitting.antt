-- ===== src/BlockInFile/Lines/Splitting.antt =====
-- internal/modules/blockinfile/executor.go: lines with their ends, split and joined.
use dibra.Prelude.{
  ℕ, Bool, true, false, ◌≡◌, refl, ap, ◌∙◌, List, [], ◌∷◌, ◌++◌, ◌||◌, ◌&&◌, not, arith, inl, inr,
  eqb, is_empty, contains_num, Bool-cases,
}
use mathlib.Core.List.{append-nil}
use dibra.LineInFile.Text.{Bytes, newline, add_to_first}
use dibra.BlockInFile.Lines.{split_keeping, concat}

-- A line with one newline, at its end.
abbrev pub is_closed : Bytes → Bool
is_closed [] = false
is_closed (c ∷ []) = eqb c newline
is_closed (c ∷ d ∷ s) = not (eqb c newline) && is_closed (d ∷ s)

-- A line that has no end.
abbrev pub is_open : Bytes → Bool
is_open l = not (is_empty l) && not (contains_num l newline)

-- The lines of a file: all are closed, but the last one may be open.
abbrev pub is_split : List Bytes → Bool
is_split [] = true
is_split (l ∷ []) = is_closed l || is_open l
is_split (l ∷ m ∷ ls) = is_closed l && is_split (m ∷ ls)

is_split-add :
    (c : ℕ) (ls : List Bytes)
    → eqb c newline ≡ false
    → is_split ls ≡ true
    → is_split (add_to_first c ls) ≡ true
is_split-add c [] f h = ground (arith, f)
is_split-add c ([] ∷ []) f h = ground (arith, h)
is_split-add c ((d ∷ l) ∷ []) f h = ground (arith, f, h)
is_split-add c ([] ∷ m ∷ ls) f h = ground (arith, h)
is_split-add c ((d ∷ l) ∷ m ∷ ls) f h = ground (arith, f, h)

is_split-newline :
    (c : ℕ)
    → eqb c newline ≡ true
    → (ls : List Bytes) → is_split ls ≡ true
    → is_split ((c ∷ []) ∷ ls) ≡ true
is_split-newline c t [] h = ground (arith, t)
is_split-newline c t (l ∷ ls) h = ground (arith, t, h)

concat-add : (c : ℕ) (ls : List Bytes) → concat (add_to_first c ls) ≡ c ∷ concat ls
unfolding concat
concat-add c [] = refl
concat-add c (l ∷ ls) = refl

split_keeping-is_split : (s : Bytes) → is_split (split_keeping s) ≡ true
unfolding split_keeping
split_keeping-is_split [] = refl
split_keeping-is_split (c ∷ s) = elim (Bool-cases (eqb c newline)) [
  | inl t ↦ rw t (is_split-newline c t (split_keeping s) (split_keeping-is_split s))
  | inr f ↦ rw f (is_split-add c (split_keeping s) f (split_keeping-is_split s))
]

concat-split_keeping : (s : Bytes) → concat (split_keeping s) ≡ s
unfolding split_keeping concat
concat-split_keeping [] = refl
concat-split_keeping (c ∷ s) = elim (Bool-cases (eqb c newline)) [
  | inl t ↦ rw t (ap (λ (r : Bytes). c ∷ r) (concat-split_keeping s))
  | inr f ↦
      rw f (concat-add c (split_keeping s) ∙ ap (λ (r : Bytes). c ∷ r) (concat-split_keeping s))
]

split_closed : (l s : Bytes) → is_closed l ≡ true → split_keeping (l ++ s) ≡ l ∷ split_keeping s
unfolding split_keeping
split_closed [] s h = ground (arith, h)
split_closed (c ∷ []) s h = rw h refl
split_closed (c ∷ d ∷ l) s h =
    let f : eqb c newline ≡ false = ground (arith, h) in
    rw f (ap (λ (ls : List Bytes). add_to_first c ls) (split_closed (d ∷ l) s (ground (arith, h))))

split_open : (l : Bytes) → is_open l ≡ true → split_keeping l ≡ l ∷ []
unfolding split_keeping
split_open [] h = ground (arith, h)
split_open (c ∷ []) h = let f : eqb c newline ≡ false = ground (arith, h) in rw f refl
split_open (c ∷ d ∷ l) h =
    let f : eqb c newline ≡ false = ground (arith, h) in
    rw f (ap (λ (ls : List Bytes). add_to_first c ls) (split_open (d ∷ l) (ground (arith, h))))

pub split_keeping-concat : (ls : List Bytes) → is_split ls ≡ true → split_keeping (concat ls) ≡ ls
unfolding concat split_keeping
split_keeping-concat [] h = refl
split_keeping-concat (l ∷ []) h = elim (Bool-cases (is_closed l)) [
  | inl t ↦ split_closed l [] t
  | inr f ↦ ap (λ (s : Bytes). split_keeping s) (append-nil l) ∙ split_open l (ground (arith, h, f))
]
split_keeping-concat (l ∷ m ∷ ls) h =
    split_closed l (concat (m ∷ ls)) (ground (arith, h))
    ∙ ap (λ (xs : List Bytes). l ∷ xs) (split_keeping-concat (m ∷ ls) (ground (arith, h)))

-- A text is the concatenation of its lines, which are lines of a file.
pub split_keeping_lem :
    (s : Bytes) → (concat (split_keeping s) ≡ s) × (is_split (split_keeping s) ≡ true)
split_keeping_lem s = (concat-split_keeping s, split_keeping-is_split s)
