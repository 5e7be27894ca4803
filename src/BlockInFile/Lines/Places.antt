-- ===== src/BlockInFile/Lines/Places.antt =====
-- internal/modules/blockinfile/executor.go: where the block ends up in the file.
use dibra.Prelude.{
  ℕ, suc, ◌+◌, ◌-◌, true, false, ◌≡◌, refl, sym, ap, ◌∙◌, Option, none, some, List, [], ◌∷◌, ◌++◌,
  ◌&&◌, if◌then◌else◌, ◌≤◌, arith, ◌⊎◌, inl, inr, eqb, ltb, length, length-append, Bool-cases,
}
use mathlib.Core.List.{append_assoc}
use dibra.LineInFile.Text.{Bytes}
use dibra.LineInFile.Edit.{find_last}
use dibra.BlockInFile.Lines.{
  BlockEdit, take, drop, cut, is_marker, find_markers, insert_position, prepend_blank, append_blank,
  place_block, put_at, put_block,
}
use dibra.BlockInFile.Lines.Parts.{
  none_of, take-drop, length-take, none_of-drop, find_last-none, none_of-after, find_last_in_range,
  insert_position_in_range, end_last, end_previous-append, length-end_last, ends_with_text,
  starts_with_text, is_text_at-append, is_text_at-last, insert_at-append, insert_block_at-append,
}

module _ (e : BlockEdit) where
  -- What stands before the block: the lines before it, the last one with an end, and a blank line
  -- where one is asked for.
  abbrev pub spaced : List Bytes → List Bytes
  spaced a = if e.prepend_newline && e.present && ends_with_text a then a ++ e.separator ∷ [] else a

  abbrev pub lines_before : List Bytes → List Bytes
  lines_before a = spaced (end_last e.separator a)

  -- What stands after the block.
  abbrev pub lines_after : List Bytes → List Bytes
  lines_after b = if e.append_newline && e.present && starts_with_text b then e.separator ∷ b else b

  abbrev pub placed : List Bytes → List Bytes → List Bytes
  placed a b = lines_before a ++ (e.block_lines ++ lines_after b)

  spaced-cases :
      (a : List Bytes)
      → ((e.prepend_newline && e.present && ends_with_text a) ≡ true)
        ⊎ ((e.prepend_newline && e.present && ends_with_text a) ≡ false)
  spaced-cases a = Bool-cases (e.prepend_newline && e.present && ends_with_text a)

  prepend_blank-append :
      (a b : List Bytes) → prepend_blank e (a ++ b, length a) ≡ (spaced a ++ b, length (spaced a))
  unfolding prepend_blank
  prepend_blank-append [] b =
      let never : (e.prepend_newline && e.present && false) ≡ false = ground arith in simp never
  prepend_blank-append (l ∷ a) b =
      let before : suc (length a) - 1 ≡ length a = omega arith in
      let inside : eqb (suc (length a)) 0 ≡ false = ground arith in
      let asked = e.prepend_newline && e.present in
      let skip : (asked && true && ends_with_text (l ∷ a)) ≡ (asked && ends_with_text (l ∷ a)) =
        ground arith in
      elim (spaced-cases (l ∷ a)) [
        | inl c ↦
            simp
              (
                before,
                inside,
                is_text_at-last l a b,
                skip,
                c,
                insert_at-append (l ∷ a) b e.separator,
                append_assoc a (e.separator ∷ []) b,
                length-append a (e.separator ∷ []),
              )
              (ap (λ (n : ℕ). (l ∷ (a ++ e.separator ∷ b), n)) (omega arith))
        | inr c ↦ simp (before, inside, is_text_at-last l a b, skip, c)
      ]

  append_blank-front : (a b : List Bytes) → append_blank e (length a) (a ++ b) ≡ a ++ lines_after b
  unfolding append_blank
  append_blank-front a b = elim (Bool-cases (e.append_newline && e.present && starts_with_text b)) [
    | inl c ↦ simp (is_text_at-append a b, c, insert_at-append a b e.separator)
    | inr c ↦ simp (is_text_at-append a b, c)
  ]

  append_blank-append :
      (a b : List Bytes)
      → append_blank e (length a + length e.block_lines) (a ++ (e.block_lines ++ b))
        ≡ a ++ (e.block_lines ++ lines_after b)
  append_blank-append a b =
      let block = e.block_lines in
      ap (λ (n : ℕ). append_blank e n (a ++ (block ++ b))) (sym (length-append a block))
      ∙ ap (λ (xs : List Bytes). append_blank e (length (a ++ block)) xs)
          (sym (append_assoc a block b))
      ∙ append_blank-front (a ++ block) b
      ∙ append_assoc a block (lines_after b)

  pub put_at-append : (a b : List Bytes) → put_at e (a ++ b, length a) ≡ placed a b
  put_at-append a b =
      let a1 = end_last e.separator a in
      let a2 = spaced a1 in
      let step : List Bytes × ℕ → List Bytes = λ r. place_block e (prepend_blank e r) in
      ap (λ (xs : List Bytes). step (xs, length a)) (end_previous-append e.separator a b)
      ∙ ap (λ (n : ℕ). step (a1 ++ b, n)) (sym (length-end_last e.separator a))
      ∙ ap (λ (r : List Bytes × ℕ). place_block e r) (prepend_blank-append a1 b)
      ∙ ap (λ (xs : List Bytes). append_blank e (length a2 + length e.block_lines) xs)
          (insert_block_at-append a2 b e.block_lines)
      ∙ append_blank-append a2 b

  -- A file without the old block is a front and a back of the file, of which the back has no marker.
  abbrev Parted : List Bytes → List Bytes × ℕ → Type 0
  Parted ls r =
      (n : ℕ) × (m : ℕ) × (r ≡ (take n ls ++ drop m ls, length (take n ls)))
      × (none_of (is_marker e.marker0) (drop m ls) ≡ true)
      × (none_of (is_marker e.marker1) (drop m ls) ≡ true)

  taken :
      (ls rest : List Bytes) (n : ℕ)
      → n ≤ length ls
      → ◌≡◌ {A = List Bytes × ℕ} (take n ls ++ rest, n) (take n ls ++ rest, length (take n ls))
  taken ls rest n h = ap (λ (k : ℕ). (take n ls ++ rest, k)) (sym (length-take n ls h))

  cut_found :
      (ls : List Bytes) (o0 o1 : Option ℕ)
      → find_last (is_marker e.marker0) ls ≡ o0
      → find_last (is_marker e.marker1) ls ≡ o1
      → Parted ls (cut e ls (o0, o1))
  unfolding cut
  cut_found ls (some i) (some j) h k =
      let p0 = is_marker e.marker0 in
      let p1 = is_marker e.marker1 in
      let ri = find_last_in_range p0 ls i h in
      let rj = find_last_in_range p1 ls j k in
      elim (Bool-cases (ltb i j)) [
        | inl t ↦ rw t (
          i,
          suc j,
          taken ls (drop (suc j) ls) i (omega (arith, ri)),
          none_of-after p0 ls i j h (ground (arith, t)),
          none_of-after p1 ls j j k (omega arith),
        )
        | inr f ↦ rw f (
          j,
          suc i,
          taken ls (drop (suc i) ls) j (omega (arith, rj)),
          none_of-after p0 ls i i h (omega arith),
          none_of-after p1 ls j i k (ground (arith, f)),
        )
      ]
  cut_found ls (some i) none h k =
      let p0 = is_marker e.marker0 in
      let p1 = is_marker e.marker1 in
      let ri = find_last_in_range p0 ls i h in
      (
        i,
        suc i,
        taken ls (drop (suc i) ls) i (omega (arith, ri)),
        none_of-after p0 ls i i h (omega arith),
        none_of-drop p1 (suc i) ls (find_last-none p1 ls k),
      )
  cut_found ls none (some j) h k =
      let p0 = is_marker e.marker0 in
      let p1 = is_marker e.marker1 in
      let rj = find_last_in_range p1 ls j k in
      (
        j,
        suc j,
        taken ls (drop (suc j) ls) j (omega (arith, rj)),
        none_of-drop p0 (suc j) ls (find_last-none p0 ls h),
        none_of-after p1 ls j j k (omega arith),
      )
  cut_found ls none none h k =
      let p0 = is_marker e.marker0 in
      let p1 = is_marker e.marker1 in
      let n = insert_position e ls in
      (
        n,
        n,
        ap (λ (xs : List Bytes). (xs, n)) (sym (take-drop n ls))
            ∙ taken ls (drop n ls) n (insert_position_in_range e ls),
        none_of-drop p0 n ls (find_last-none p0 ls h),
        none_of-drop p1 n ls (find_last-none p1 ls k),
      )

  cut-Parted : (ls : List Bytes) → Parted ls (cut e ls (find_markers ls e.marker0 e.marker1))
  unfolding find_markers
  cut-Parted ls =
      cut_found ls (find_last (is_marker e.marker0) ls) (find_last (is_marker e.marker1) ls) refl
        refl

  -- The edited file is the block between a front and a back of the file, the back without markers.
  pub put_block-parts :
      (ls : List Bytes)
      → (n : ℕ) × (m : ℕ) × (put_block e ls ≡ placed (take n ls) (drop m ls))
        × (none_of (is_marker e.marker0) (drop m ls) ≡ true)
        × (none_of (is_marker e.marker1) (drop m ls) ≡ true)
  unfolding put_block
  put_block-parts ls =
      let (n, m, q, h, k) = cut-Parted ls in
      (
        n,
        m,
        ap (λ (r : List Bytes × ℕ). put_at e r) q ∙ put_at-append (take n ls) (drop m ls),
        h,
        k,
      )
