-- ===== src/BlockInFile/Lines/Again.antt =====
-- internal/modules/blockinfile/executor.go: an edit that is made again.
use dibra.Prelude.{
  ℕ, suc, Bool, true, false, ◌≡◌, refl, sym, ap, ◌∙◌, some, List, [], ◌∷◌, ◌++◌, ◌&&◌, arith, ◌⊎◌,
  inl, inr, ltb, is_empty, length, length-append, Bool-cases,
}
use mathlib.Core.List.{append_assoc}
use dibra.Paths.Laws.{bytes_eq_refl}
use dibra.LineInFile.Text.{Bytes, lf, crlf, has_suffix, trim_suffix}
use dibra.LineInFile.Edit.{find_last}
use dibra.BlockInFile.Lines.{
  BlockEdit, take, drop, cut, is_ended, plain, is_marker, find_markers, put_at, put_block,
}
use dibra.BlockInFile.Lines.Parts.{
  none_of, take-append, none_of-append, find_last_at, end_last, ends_with_text, starts_with_text,
}
use dibra.BlockInFile.Lines.Places.{lines_before, lines_after, put_at-append, put_block-parts}

suffix_append : (l s : Bytes) → has_suffix (l ++ s) s ≡ true
unfolding has_suffix
suffix_append [] [] = refl
suffix_append [] (c ∷ s) = simp (bytes_eq_refl (c ∷ s))
suffix_append (c ∷ l) s = ground (arith, suffix_append l s)

drop_past : (x : List Bytes) (v : Bytes) (b : List Bytes) → drop (suc (length x)) (x ++ v ∷ b) ≡ b
unfolding drop
drop_past [] v b = refl
drop_past (l ∷ x) v b = drop_past x v b

-- What a usable request says: one of the two line ends, a block between two marker lines, the begin
-- marker on no later line of the block, and markers that are not blank.
pub record IsUsable (e : BlockEdit) (body : List Bytes) : Type 0 where
  pub separator_end : (e.separator ≡ lf) ⊎ (e.separator ≡ crlf)
  pub block_shape : e.block_lines ≡ e.marker0 ∷ (body ++ e.marker1 ∷ [])
  pub begin_once : none_of (is_marker e.marker0) (body ++ e.marker1 ∷ []) ≡ true
  pub begin_blank : is_marker e.marker0 e.separator ≡ false
  pub end_blank : is_marker e.marker1 e.separator ≡ false

module _ (e : BlockEdit) (body : List Bytes) (usable : IsUsable e body) where
  separator_ended : (l : Bytes) → is_ended (l ++ e.separator) ≡ true
  unfolding is_ended
  separator_ended l = elim usable.separator_end [
    | inl q ↦ rw q (ground (arith, suffix_append l lf))
    | inr q ↦ rw q (ground (arith, suffix_append l crlf))
  ]

  separator_blank : is_empty (plain e.separator) ≡ true
  unfolding plain trim_suffix
  separator_blank = elim usable.separator_end [ inl q ↦ rw q refl | inr q ↦ rw q refl ]

  end_last_again :
      (a : List Bytes) → end_last e.separator (end_last e.separator a) ≡ end_last e.separator a
  end_last_again [] = refl
  end_last_again (l ∷ []) = elim (Bool-cases (is_ended l)) [
    | inl t ↦ simp t
    | inr f ↦ simp (f, separator_ended l)
  ]
  end_last_again (l ∷ m ∷ []) = ap (λ (xs : List Bytes). l ∷ xs) (end_last_again (m ∷ []))
  end_last_again (l ∷ m ∷ n ∷ a) = ap (λ (xs : List Bytes). l ∷ xs) (end_last_again (m ∷ n ∷ a))

  end_last-separator :
      (a : List Bytes) → end_last e.separator (a ++ e.separator ∷ []) ≡ a ++ e.separator ∷ []
  end_last-separator [] = simp (separator_ended [])
  end_last-separator (l ∷ []) = simp (separator_ended [])
  end_last-separator (l ∷ m ∷ a) = ap (λ (xs : List Bytes). l ∷ xs) (end_last-separator (m ∷ a))

  ends_with_text-separator : (a : List Bytes) → ends_with_text (a ++ e.separator ∷ []) ≡ false
  ends_with_text-separator [] = simp separator_blank
  ends_with_text-separator (l ∷ []) = simp separator_blank
  ends_with_text-separator (l ∷ m ∷ a) = ends_with_text-separator (m ∷ a)

  lines_before_again : (a : List Bytes) → lines_before e (lines_before e a) ≡ lines_before e a
  lines_before_again a =
      let x = end_last e.separator a in
      let never : (e.prepend_newline && e.present && false) ≡ false = ground arith in
      elim (Bool-cases (e.prepend_newline && e.present && ends_with_text x)) [
        | inl c ↦ simp (c, end_last-separator x, ends_with_text-separator x, never)
        | inr c ↦ simp (c, end_last_again a)
      ]

  lines_after_again : (b : List Bytes) → lines_after e (lines_after e b) ≡ lines_after e b
  lines_after_again b =
      let never : (e.append_newline && e.present && false) ≡ false = ground arith in
      elim (Bool-cases (e.append_newline && e.present && starts_with_text b)) [
        | inl c ↦ simp (c, separator_blank, never)
        | inr c ↦ simp c
      ]

  none_of-lines_after :
      (p : Bytes → Bool) (b : List Bytes)
      → p e.separator ≡ false
      → none_of p b ≡ true
      → none_of p (lines_after e b) ≡ true
  none_of-lines_after p b h k =
      elim (Bool-cases (e.append_newline && e.present && starts_with_text b)) [
        | inl c ↦ simp (c, h, k)
        | inr c ↦ simp (c, k)
      ]

  -- The block that is found again is cut out.
  cut-block :
      (a b : List Bytes)
      → none_of (is_marker e.marker0) b ≡ true
      → none_of (is_marker e.marker1) b ≡ true
      → cut e
          (a ++ (e.block_lines ++ b))
          (find_markers (a ++ (e.block_lines ++ b)) e.marker0 e.marker1)
        ≡ (a ++ b, length a)
  unfolding cut find_markers
  cut-block a b h k =
      let p0 = is_marker e.marker0 in
      let p1 = is_marker e.marker1 in
      let front = a ++ e.marker0 ∷ body in
      let whole = a ++ (e.block_lines ++ b) in
      let rest = (body ++ e.marker1 ∷ []) ++ b in
      let by_begin : whole ≡ a ++ e.marker0 ∷ rest =
        ap (λ (xs : List Bytes). a ++ (xs ++ b)) usable.block_shape in
      let by_end : whole ≡ front ++ e.marker1 ∷ b =
        by_begin
        ∙ ap (λ (xs : List Bytes). a ++ e.marker0 ∷ xs) (append_assoc body (e.marker1 ∷ []) b)
        ∙ sym (append_assoc a (e.marker0 ∷ body) (e.marker1 ∷ b)) in
      let no_begin : none_of p0 rest ≡ true =
        none_of-append p0 (body ++ e.marker1 ∷ []) b ∙ ground (arith, usable.begin_once, h) in
      let begin_at : find_last p0 whole ≡ some (length a) =
        ap (λ (xs : List Bytes). find_last p0 xs) by_begin
        ∙ find_last_at p0 a e.marker0 rest (bytes_eq_refl (plain e.marker0)) no_begin in
      let end_at : find_last p1 whole ≡ some (length front) =
        ap (λ (xs : List Bytes). find_last p1 xs) by_end
        ∙ find_last_at p1 front e.marker1 b (bytes_eq_refl (plain e.marker1)) k in
      let order : ltb (length a) (length front) ≡ true =
        ground (arith, length-append a (e.marker0 ∷ body)) in
      let kept : take (length a) whole ≡ a = take-append a (e.block_lines ++ b) in
      let left : drop (suc (length front)) whole ≡ b =
        ap (λ (xs : List Bytes). drop (suc (length front)) xs) by_end
        ∙ drop_past front e.marker1 b in
      simp (begin_at, end_at, order, kept, left)

  -- An edit made again changes nothing.
  pub put_block_again : (ls : List Bytes) → put_block e (put_block e ls) ≡ put_block e ls
  unfolding put_block
  put_block_again ls =
      let (n, m, q, h, k) = put_block-parts e ls in
      let a = take n ls in
      let b = drop m ls in
      let x = lines_before e a in
      let y = lines_after e b in
      ap (λ (xs : List Bytes). put_block e xs) q
      ∙ ap (λ (r : List Bytes × ℕ). put_at e r)
          (cut-block x y (none_of-lines_after (is_marker e.marker0) b usable.begin_blank h)
            (none_of-lines_after (is_marker e.marker1) b usable.end_blank k))
      ∙ put_at-append e x y
      ∙ ap (λ (xs : List Bytes). xs ++ (e.block_lines ++ lines_after e y)) (lines_before_again a)
      ∙ ap (λ (ys : List Bytes). x ++ (e.block_lines ++ ys)) (lines_after_again b)
      ∙ sym q
