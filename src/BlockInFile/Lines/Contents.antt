-- ===== src/BlockInFile/Lines/Contents.antt =====
-- internal/modules/blockinfile/executor.go: the edited content, read again.
use dibra.Prelude.{
  ℕ, zero, suc, Bool, true, false, ◌≡◌, refl, ap, ◌∙◌, List, [], ◌∷◌, ◌++◌, ◌||◌, ◌&&◌, arith, inl,
  inr, contains_num, Bool-cases,
}
use dibra.LineInFile.Text.{Bytes, newline, lf, crlf, has_suffix}
use dibra.BlockInFile.Lines.{
  BlockEdit, split_keeping, concat, put_block, put_content, take, drop, is_ended, ended_with,
}
use dibra.BlockInFile.Lines.Splitting.{
  is_closed, is_open, is_split, split_keeping-concat, split_keeping_lem,
}
use dibra.BlockInFile.Lines.Parts.{end_last, ends_with_text, starts_with_text}
use dibra.BlockInFile.Lines.Places.{lines_before, lines_after, put_block-parts}
use dibra.BlockInFile.Lines.Again.{IsUsable, put_block_again}

-- All lines have their ends.
abbrev pub all_closed : List Bytes → Bool
all_closed [] = true
all_closed (l ∷ ls) = is_closed l && all_closed ls

is_split-take : (n : ℕ) (ls : List Bytes) → is_split ls ≡ true → is_split (take n ls) ≡ true
unfolding take
is_split-take zero ls h = refl
is_split-take (suc n) [] h = refl
is_split-take (suc zero) (l ∷ []) h = h
is_split-take (suc (suc n)) (l ∷ []) h = h
is_split-take (suc zero) (l ∷ m ∷ ls) h = ground (arith, h)
is_split-take (suc (suc n)) (l ∷ m ∷ ls) h = ground (arith, h, is_split-take (suc n) (m ∷ ls))

is_split-drop : (n : ℕ) (ls : List Bytes) → is_split ls ≡ true → is_split (drop n ls) ≡ true
unfolding drop
is_split-drop zero ls h = h
is_split-drop (suc n) [] h = refl
is_split-drop (suc zero) (l ∷ []) h = refl
is_split-drop (suc (suc n)) (l ∷ []) h = refl
is_split-drop (suc n) (l ∷ m ∷ ls) h = is_split-drop n (m ∷ ls) (ground (arith, h))

is_split-after :
    (a b : List Bytes) → all_closed a ≡ true → is_split b ≡ true → is_split (a ++ b) ≡ true
is_split-after [] b h k = k
is_split-after (l ∷ []) [] h k = ground (arith, h)
is_split-after (l ∷ []) (m ∷ b) h k = ground (arith, h, k)
is_split-after (l ∷ m ∷ a) b h k = ground (arith, h, is_split-after (m ∷ a) b (ground (arith, h)) k)

all_closed-append :
    (a b : List Bytes) → all_closed a ≡ true → all_closed b ≡ true → all_closed (a ++ b) ≡ true
all_closed-append [] b h k = k
all_closed-append (l ∷ a) b h k = ground (arith, h, all_closed-append a b (ground (arith, h)) k)

no_lf : (l : Bytes) → contains_num l newline ≡ false → has_suffix l lf ≡ false
unfolding has_suffix
no_lf [] h = refl
no_lf (c ∷ l) h = ground (arith, h, no_lf l)

no_crlf : (l : Bytes) → contains_num l newline ≡ false → has_suffix l crlf ≡ false
unfolding has_suffix
no_crlf [] h = refl
no_crlf (c ∷ []) h = ground (arith, h)
no_crlf (c ∷ d ∷ l) h = ground (arith, h, no_crlf (d ∷ l))

-- An open line has no end, a closed one has.
is_ended-open : (l : Bytes) → is_open l ≡ true → is_ended l ≡ false
unfolding is_ended
is_ended-open l h = ground (arith, no_lf l (ground (arith, h)), no_crlf l (ground (arith, h)))

closed_lf : (l : Bytes) → is_closed l ≡ true → has_suffix l lf ≡ true
unfolding has_suffix
closed_lf [] h = ground (arith, h)
closed_lf (c ∷ []) h = ground (arith, h)
closed_lf (c ∷ d ∷ l) h = ground (arith, h, closed_lf (d ∷ l))

is_ended-closed : (l : Bytes) → is_closed l ≡ true → is_ended l ≡ true
unfolding is_ended
is_ended-closed l h = ground (arith, closed_lf l h)

is_closed-lf : (l : Bytes) → contains_num l newline ≡ false → is_closed (l ++ lf) ≡ true
is_closed-lf [] h = refl
is_closed-lf (c ∷ []) h = ground (arith, h)
is_closed-lf (c ∷ d ∷ l) h = ground (arith, h, is_closed-lf (d ∷ l))

is_closed-crlf : (l : Bytes) → contains_num l newline ≡ false → is_closed (l ++ crlf) ≡ true
is_closed-crlf [] h = refl
is_closed-crlf (c ∷ []) h = ground (arith, h)
is_closed-crlf (c ∷ d ∷ l) h = ground (arith, h, is_closed-crlf (d ∷ l))

module _ (e : BlockEdit) (body : List Bytes) (usable : IsUsable e body) where
  is_closed-separator :
      (l : Bytes) → contains_num l newline ≡ false → is_closed (l ++ e.separator) ≡ true
  is_closed-separator l h = elim usable.separator_end [
    | inl q ↦ rw q (is_closed-lf l h)
    | inr q ↦ rw q (is_closed-crlf l h)
  ]

  is_closed-ended_with :
      (l : Bytes) → (is_closed l || is_open l) ≡ true → is_closed (ended_with e.separator l) ≡ true
  is_closed-ended_with l h = elim (Bool-cases (is_closed l)) [
    | inl t ↦ simp (is_ended-closed l t, t)
    | inr f ↦
        let o : is_open l ≡ true = ground (arith, h, f) in
        simp (is_ended-open l o) (is_closed-separator l (ground (arith, o)))
  ]

  all_closed-end_last :
      (a : List Bytes) → is_split a ≡ true → all_closed (end_last e.separator a) ≡ true
  all_closed-end_last [] h = refl
  all_closed-end_last (l ∷ []) h = ground (arith, is_closed-ended_with l (ground (arith, h)))
  all_closed-end_last (l ∷ m ∷ a) h =
      ground (arith, h, all_closed-end_last (m ∷ a) (ground (arith, h)))

  all_closed-lines_before :
      (a : List Bytes) → is_split a ≡ true → all_closed (lines_before e a) ≡ true
  all_closed-lines_before a h =
      let x = end_last e.separator a in
      elim (Bool-cases (e.prepend_newline && e.present && ends_with_text x)) [
        | inl c ↦ simp c (
            all_closed-append x (e.separator ∷ []) (all_closed-end_last a h)
              (ground (arith, is_closed-separator [] refl)))
        | inr c ↦ simp c (all_closed-end_last a h)
      ]

  is_split-lines_after : (b : List Bytes) → is_split b ≡ true → is_split (lines_after e b) ≡ true
  is_split-lines_after b h =
      elim (Bool-cases (e.append_newline && e.present && starts_with_text b)) [
        | inl c ↦
            simp c
              (is_split-after (e.separator ∷ []) b (ground (arith, is_closed-separator [] refl)) h)
        | inr c ↦ simp c h
      ]

  is_split-put_block :
      (ls : List Bytes)
      → all_closed e.block_lines ≡ true
      → is_split ls ≡ true
      → is_split (put_block e ls) ≡ true
  is_split-put_block ls closed h =
      let (n, m, q, _, _) = put_block-parts e ls in
      ap (λ (xs : List Bytes). is_split xs) q
      ∙ is_split-after (lines_before e (take n ls)) (e.block_lines ++ lines_after e (drop m ls))
          (all_closed-lines_before (take n ls) (is_split-take n ls h))
          (is_split-after e.block_lines (lines_after e (drop m ls)) closed
            (is_split-lines_after (drop m ls) (is_split-drop m ls h)))

-- The edit of a content that it has already edited changes nothing. The request has one of the two
-- line ends and a block of lines with their ends, between markers that are neither blank nor, for
-- the one that begins, a later line of the block.
pub put_content_again :
    (e : BlockEdit) (body : List Bytes) (content : Bytes)
    → IsUsable e body
    → all_closed e.block_lines ≡ true
    → put_content e (put_content e content) ≡ put_content e content
unfolding put_content
put_content_again e body content usable closed =
    let ls = split_keeping content in
    let read =
      split_keeping-concat (put_block e ls)
        (is_split-put_block e body usable ls closed (split_keeping_lem content).1) in
    ap (λ (xs : List Bytes). concat (put_block e xs)) read
    ∙ ap (λ (xs : List Bytes). concat xs) (put_block_again e body usable ls)
