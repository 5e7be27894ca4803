-- ===== src/BlockInFile/Lines/Parts.antt =====
-- internal/modules/blockinfile/executor.go: the operations of the edit on lines that come in two parts.
use dibra.Prelude.{
  ℕ, zero, suc, ◌+◌, Bool, true, false, ◌≡◌, refl, sym, ap, Option, none, some, is_some, List, [],
  ◌∷◌, ◌++◌, ◌&&◌, not, if◌then◌else◌, ◌<◌, ◌≤◌, arith, inl, inr, eqb, leb, is_empty, length,
  length-append, Bool-cases, Option-cases,
}
use mathlib.Core.List.{append-nil}
use dibra.LineInFile.Text.{Bytes}
use dibra.LineInFile.Edit.{find_last, insert_at, contains_bytes}
use dibra.BlockInFile.Lines.{
  BlockEdit, Finder, concat, beside, line_at, line_of_match, position_of, insert_position,
  multiline_flag, take, drop, ended_with, end_previous, is_text_at, plain, insert_block_at,
}

-- No line passes the test.
abbrev pub none_of : (Bytes → Bool) → List Bytes → Bool
none_of p [] = true
none_of p (l ∷ ls) = not (p l) && none_of p ls

pub take-append : (a b : List Bytes) → take (length a) (a ++ b) ≡ a
unfolding take
take-append [] b = refl
take-append (l ∷ a) b = ap (λ (xs : List Bytes). l ∷ xs) (take-append a b)

pub drop-append : (a b : List Bytes) → drop (length a) (a ++ b) ≡ b
unfolding drop
drop-append [] b = refl
drop-append (l ∷ a) b = drop-append a b

pub take-drop : (n : ℕ) (ls : List Bytes) → take n ls ++ drop n ls ≡ ls
unfolding take drop
take-drop zero ls = refl
take-drop (suc n) [] = refl
take-drop (suc n) (l ∷ ls) = ap (λ (xs : List Bytes). l ∷ xs) (take-drop n ls)

pub length-take : (n : ℕ) (ls : List Bytes) → n ≤ length ls → length (take n ls) ≡ n
unfolding take
length-take zero ls h = refl
length-take (suc n) [] h = omega (arith, h)
length-take (suc n) (l ∷ ls) h = ap (λ (k : ℕ). suc k) (length-take n ls (omega (arith, h)))

module _ (p : Bytes → Bool) where
  pub none_of-append : (a b : List Bytes) → none_of p (a ++ b) ≡ (none_of p a && none_of p b)
  none_of-append [] b = refl
  none_of-append (l ∷ a) b = ground (arith, none_of-append a b)

  pub none_of-drop : (n : ℕ) (ls : List Bytes) → none_of p ls ≡ true → none_of p (drop n ls) ≡ true
  unfolding drop
  none_of-drop zero ls h = h
  none_of-drop (suc n) [] h = refl
  none_of-drop (suc n) (l ∷ ls) h = none_of-drop n ls (ground (arith, h))

  pub find_last-none : (ls : List Bytes) → find_last p ls ≡ none → none_of p ls ≡ true
  unfolding find_last
  find_last-none [] h = refl
  find_last-none (l ∷ ls) h = elim (Option-cases (find_last p ls)) [
    | inl n ↦ ground (arith, h, n, find_last-none ls)
    | inr (j, q) ↦ ground (arith, h, q)
  ]

  -- After the last line that passes there is none.
  pub none_of-after :
      (ls : List Bytes) (i j : ℕ)
      → find_last p ls ≡ some i
      → i ≤ j
      → none_of p (drop (suc j) ls) ≡ true
  unfolding find_last drop
  none_of-after [] i j h k = refl
  none_of-after (l ∷ ls) i zero h k = elim (Option-cases (find_last p ls)) [
    | inl n ↦ find_last-none ls n
    | inr (m, q) ↦ ground (arith, h, q, k)
  ]
  none_of-after (l ∷ ls) i (suc j) h k = elim (Option-cases (find_last p ls)) [
    | inl n ↦ none_of-drop (suc j) ls (find_last-none ls n)
    | inr (m, q) ↦ none_of-after ls m j q (ground (arith, h, q, k))
  ]

  pub find_last_in_range : (ls : List Bytes) (i : ℕ) → find_last p ls ≡ some i → i < length ls
  unfolding find_last
  find_last_in_range [] i h = ground (arith, h)
  find_last_in_range (l ∷ ls) i h = elim (Option-cases (find_last p ls)) [
    | inl n ↦ elim (Bool-cases (p l)) [
      | inl t ↦ ground (arith, h, n, t)
      | inr f ↦ ground (arith, h, n, f)
    ]
    | inr (j, q) ↦ ground (arith, h, q, find_last_in_range ls j)
  ]

  none_of-find : (ls : List Bytes) → none_of p ls ≡ true → find_last p ls ≡ none
  unfolding find_last
  none_of-find [] h = refl
  none_of-find (l ∷ ls) h = rw (none_of-find ls (ground (arith, h))) (ground (arith, h))

  -- The last line that passes, where it is known.
  pub find_last_at :
      (a : List Bytes) (l : Bytes) (b : List Bytes)
      → p l ≡ true
      → none_of p b ≡ true
      → find_last p (a ++ l ∷ b) ≡ some (length a)
  unfolding find_last
  find_last_at [] l b t h = rw (none_of-find b h, t) refl
  find_last_at (x ∷ a) l b t h = rw (find_last_at a l b t h) refl

beside_in_range :
    (is_after : Bool) (ls : List Bytes) (o : Option ℕ)
    → ((i : ℕ) → o ≡ some i → i < length ls)
    → beside is_after ls o ≤ length ls
beside_in_range is_after ls none h = omega arith
beside_in_range true ls (some i) h = omega (arith, h i refl)
beside_in_range false ls (some i) h = omega (arith, h i refl)

line_at_in_range :
    (target position : ℕ) (ls : List Bytes) (i : ℕ)
    → line_at target position ls ≡ some i
    → i < length ls
unfolding line_at
line_at_in_range target position [] i h = ground (arith, h)
line_at_in_range target position (l ∷ ls) i h =
    let rest = line_at target (position + length l) ls in
    elim (Bool-cases (leb target (position + length l))) [
      | inl t ↦ ground (arith, h, t)
      | inr f ↦ elim (Option-cases rest) [
        | inl n ↦ ground (arith, h, f, n)
        | inr (j, q) ↦ ground (arith, h, f, q, line_at_in_range target (position + length l) ls j)
      ]
    ]

position_of_in_range :
    (is_after : Bool) (ls : List Bytes) (pattern : Bytes) (o : Option Finder)
    → position_of is_after ls pattern o ≤ length ls
unfolding position_of
position_of_in_range is_after ls pattern none = omega arith
position_of_in_range is_after ls pattern (some find) =
    elim (Bool-cases (contains_bytes pattern multiline_flag)) [
      | inl t ↦ rw t (
          beside_in_range is_after ls (line_of_match is_after ls (find (concat ls)))
            (matched (find (concat ls))))
      | inr f ↦ rw f (
          beside_in_range is_after ls (find_last (λ l. is_some (find (plain l))) ls)
            (find_last_in_range (λ l. is_some (find (plain l))) ls))
    ]
  where
    matched : (m : Option (ℕ × ℕ)) (i : ℕ) → line_of_match is_after ls m ≡ some i → i < length ls
    matched none i h = ground (arith, h)
    matched (some (start, end)) i h = line_at_in_range (if is_after then end else start) 0 ls i h

-- The place of a new block is one in the file.
pub insert_position_in_range : (e : BlockEdit) (ls : List Bytes) → insert_position e ls ≤ length ls
unfolding insert_position
insert_position_in_range e ls = ground (
  arith,
  position_of_in_range true ls e.insert_after (e.compile e.insert_after),
  position_of_in_range false ls e.insert_before (e.compile e.insert_before),
)

-- The last line of a part with an end.
abbrev pub end_last : Bytes → List Bytes → List Bytes
end_last sep [] = []
end_last sep (l ∷ []) = ended_with sep l ∷ []
end_last sep (l ∷ m ∷ ls) = l ∷ end_last sep (m ∷ ls)

pub end_previous-append :
    (sep : Bytes) (a b : List Bytes) → end_previous sep (length a) (a ++ b) ≡ end_last sep a ++ b
unfolding end_previous
end_previous-append sep [] b = refl
end_previous-append sep (l ∷ []) b = refl
end_previous-append sep (l ∷ m ∷ a) b =
    ap (λ (xs : List Bytes). l ∷ xs) (end_previous-append sep (m ∷ a) b)

pub length-end_last : (sep : Bytes) (a : List Bytes) → length (end_last sep a) ≡ length a
length-end_last sep [] = refl
length-end_last sep (l ∷ []) = refl
length-end_last sep (l ∷ m ∷ a) = ap (λ (k : ℕ). suc k) (length-end_last sep (m ∷ a))

-- Whether a part ends, or starts, with a line that is not blank.
abbrev pub ends_with_text : List Bytes → Bool
ends_with_text [] = false
ends_with_text (l ∷ []) = not (is_empty (plain l))
ends_with_text (l ∷ m ∷ ls) = ends_with_text (m ∷ ls)

abbrev pub starts_with_text : List Bytes → Bool
starts_with_text [] = false
starts_with_text (l ∷ ls) = not (is_empty (plain l))

pub is_text_at-append : (a b : List Bytes) → is_text_at (length a) (a ++ b) ≡ starts_with_text b
unfolding is_text_at
is_text_at-append [] [] = refl
is_text_at-append [] (l ∷ b) = refl
is_text_at-append (l ∷ a) b = is_text_at-append a b

pub is_text_at-last :
    (l : Bytes) (a b : List Bytes) → is_text_at (length a) (l ∷ (a ++ b)) ≡ ends_with_text (l ∷ a)
unfolding is_text_at
is_text_at-last l [] b = refl
is_text_at-last l (m ∷ a) b = is_text_at-last m a b

pub insert_at-append : (a b : List Bytes) (v : Bytes) → insert_at (a ++ b) (length a) v ≡ a ++ v ∷ b
unfolding insert_at
insert_at-append [] [] v = refl
insert_at-append [] (l ∷ b) v = refl
insert_at-append (l ∷ a) b v = ap (λ (xs : List Bytes). l ∷ xs) (insert_at-append a b v)

pub insert_block_at-append :
    (a b block : List Bytes) → insert_block_at (a ++ b) (length a) block ≡ a ++ (block ++ b)
unfolding insert_block_at
insert_block_at-append a b [] = refl
insert_block_at-append [] [] (l ∷ block) = ap (λ (xs : List Bytes). l ∷ xs) (sym (append-nil block))
insert_block_at-append [] (m ∷ b) (l ∷ block) =
    let more : leb (suc (length b)) 0 ≡ false = ground arith in rw more refl
insert_block_at-append (x ∷ a) [] (l ∷ block) =
    let enough : leb (suc (length a)) (suc (length a)) ≡ true = ground arith in
    rw (append-nil a, enough, append-nil block) refl
insert_block_at-append (x ∷ a) (m ∷ b) (l ∷ block) =
    let short : leb (suc (length (a ++ m ∷ b))) (suc (length a)) ≡ false =
      ground (arith, length-append a (m ∷ b)) in
    let inside : eqb (suc (length a)) 0 ≡ false = ground arith in
    rw (short, inside, take-append (x ∷ a) (m ∷ b), drop-append (x ∷ a) (m ∷ b)) refl
