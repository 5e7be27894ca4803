-- ===== src/LineInFile/Text/RoundTrip.antt =====
-- internal/modules/lineinfile/executor.go: lines that are joined and split again.
use dibra.Prelude.{
  Bool, true, false, ◌≡◌, refl, ◌∙◌, ap, List, [], ◌∷◌, ◌++◌, arith, ◌&&◌, not, eqb, is_empty,
  contains_num, contains_num-append, All, Bool-cases, inl, inr,
}
use dibra.LineInFile.Text.{
  Bytes, newline, return, lf, add_to_first, drop_returns, split_newlines, drop_last_empty,
  split_lines, join_lines,
}

-- A line without line ends.
abbrev pub is_line : Bytes → Bool
is_line l = not (contains_num l newline) && not (contains_num l return)

drop_none : (s : Bytes) → contains_num s return ≡ false → drop_returns s ≡ s
unfolding drop_returns
drop_none [] h = refl
drop_none (c ∷ []) h = refl
drop_none (c ∷ d ∷ s) h = ground (arith, h, drop_none (d ∷ s))

join-no_return :
    (ls : List Bytes)
    → All (λ l. is_line l ≡ true) ls
    → contains_num (join_lines lf ls) return ≡ false
unfolding join_lines
join-no_return [] h = refl
join-no_return (l ∷ ls) (p, h) =
    contains_num-append l (lf ++ join_lines lf ls) return ∙ ground (arith, p, join-no_return ls h)

split_line :
    (l rest : Bytes)
    → contains_num l newline ≡ false
    → split_newlines (l ++ newline ∷ rest) ≡ l ∷ split_newlines rest
unfolding split_newlines
split_line [] rest h = refl
split_line (c ∷ l) rest h = elim (Bool-cases (eqb c newline)) [
  | inl t ↦ ground (arith, h, t)
  | inr f ↦
      rw f (ap (λ (xs : List Bytes). add_to_first c xs) (split_line l rest (ground (arith, h))))
]

split_joined :
    (ls : List Bytes)
    → All (λ l. is_line l ≡ true) ls
    → split_newlines (join_lines lf ls) ≡ ls ++ [] ∷ []
unfolding join_lines split_newlines
split_joined [] h = refl
split_joined (l ∷ ls) (p, h) =
    split_line l (join_lines lf ls) (ground (arith, p))
    ∙ ap (λ (xs : List Bytes). l ∷ xs) (split_joined ls h)

drop_end : (l : Bytes) (ls : List Bytes) → drop_last_empty (ls ++ [] ∷ []) ≡ ls
unfolding drop_last_empty
drop_end l [] = refl
drop_end l (m ∷ []) = refl
drop_end l (m ∷ n ∷ ls) = ap (λ (xs : List Bytes). m ∷ xs) (drop_end l (n ∷ ls))

join_nil : join_lines lf [] ≡ []
unfolding join_lines
join_nil = refl

join_empty : (l : Bytes) (ls : List Bytes) → is_empty (join_lines lf (l ∷ ls)) ≡ false
unfolding join_lines
join_empty [] ls = refl
join_empty (c ∷ l) ls = refl

-- Lines without line ends that are joined with newlines are read back as they were.
pub split_lines-join_lines :
    (ls : List Bytes) → All (λ l. is_line l ≡ true) ls → split_lines (join_lines lf ls) ≡ ls
unfolding split_lines
split_lines-join_lines [] h = rw join_nil refl
split_lines-join_lines (l ∷ ls) h =
    rw
      (
        join_empty l ls,
        drop_none (join_lines lf (l ∷ ls)) (join-no_return (l ∷ ls) h),
        split_joined (l ∷ ls) h,
      )
      (drop_end l (l ∷ ls))
