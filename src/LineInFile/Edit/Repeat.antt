-- ===== src/LineInFile/Edit/Repeat.antt =====
-- internal/modules/lineinfile/executor.go: an edit that is made again.
use dibra.Prelude.{
  ℕ, zero, suc, ◌<◌, true, false, ◌≡◌, sym, ◌∙◌, ap, none, some, List, [], ◌∷◌, ◌++◌, arith, ◌⊎◌,
  inl, inr, length, Bool-cases, Option-cases,
}
use dibra.Paths.{bytes_eq}
use dibra.Paths.Laws.{bytes_eq_refl, bytes_eq-eq}
use dibra.LineInFile.Text.{Bytes}
use dibra.LineInFile.Edit.{
  LineEdit, Edited, find_line, set_line, contains_line, line_content, replacement, replace_line,
  insert_index, add_line, old_line, edit_lines,
}
use dibra.LineInFile.Edit.Search.{
  find_line-set, find_line-insert, old_line_found, old_line-insert, find_line_in_range,
  find_line-none,
}
use dibra.LineInFile.Edit.Laws.{place_line-Adds, contains_line-insert, selects, Adds}

contains_line-old :
    (ls : List Bytes) (i : ℕ) → i < length ls → contains_line ls (old_line ls i) ≡ true
contains_line-old [] i h = ground (arith, h)
contains_line-old (l ∷ ls) zero h = simp (bytes_eq_refl l)
contains_line-old (l ∷ ls) (suc i) h = ground (arith, contains_line-old ls i, h)

contains_line-set :
    (ls : List Bytes) (i : ℕ) (v : Bytes) → i < length ls → contains_line (set_line ls i v) v ≡ true
unfolding set_line
contains_line-set [] i v h = ground (arith, h)
contains_line-set (l ∷ ls) zero v h = simp (bytes_eq_refl v)
contains_line-set (l ∷ ls) (suc i) v h = ground (arith, contains_line-set ls i v, h)

replacement_plain :
    (e : LineEdit) (old : Bytes) → e.backrefs ≡ false → replacement e old ≡ line_content e
unfolding replacement
replacement_plain e old h = simp h

-- The result of an edit without backrefs: unchanged lines that hold the line of the request, or the
-- line put in place of a match, or the line added where none matches.
replaced_lines :
    (e : LineEdit) (ls : List Bytes) (i : ℕ)
    → e.backrefs ≡ false
    → ((old_line ls i ≡ line_content e)
        × ((replace_line e ls i (old_line ls i)).lines ≡ ls)
        × ((replace_line e ls i (old_line ls i)).changed ≡ false))
      ⊎ ((replace_line e ls i (old_line ls i)).lines ≡ set_line ls i (line_content e))
unfolding replace_line
replaced_lines e ls i h =
    let old = old_line ls i in
    let plain = replacement_plain e old h in
    elim (Bool-cases (bytes_eq old (line_content e))) [
      | inl t ↦ inl (bytes_eq-eq old (line_content e) t, simp (plain, t), simp (plain, t))
      | inr f ↦ inr (simp (plain, f))
    ]

added_lines :
    (e : LineEdit) (ls : List Bytes)
    → e.backrefs ≡ false
    → ((contains_line ls (line_content e) ≡ true)
        × ((add_line e ls).lines ≡ ls)
        × ((add_line e ls).changed ≡ false))
      ⊎ Adds (line_content e) ls (add_line e ls).lines
unfolding add_line
added_lines e ls h = elim (Bool-cases (contains_line ls (line_content e))) [
  | inl c ↦ inl (c, simp (h, c), simp (h, c))
  | inr c ↦ inr (simp (h, c) (place_line-Adds e ls (insert_index e ls) (line_content e)))
]

-- After an edit without backrefs, the line of the request is one of the lines.
pub contains_line-edit_lines :
    (e : LineEdit) (ls : List Bytes)
    → e.backrefs ≡ false
    → contains_line (edit_lines e ls).lines (line_content e) ≡ true
unfolding edit_lines
contains_line-edit_lines e ls h = elim (Option-cases (find_line e.first_match (selects e) ls)) [
  | inl n ↦ elim (added_lines e ls h) [
    | inl (c, q, _) ↦ simp (n, q, c)
    | inr (a, b, p, q) ↦ simp (n, q, contains_line-insert a b (line_content e))
  ]
  | inr (i, q) ↦
      let r = find_line_in_range (selects e) e.first_match ls i q in
      elim (replaced_lines e ls i h) [
        | inl (o, l, _) ↦ simp (q, l, sym o, contains_line-old ls i r)
        | inr l ↦ simp (q, l, contains_line-set ls i (line_content e) r)
      ]
]

again_found :
    (e : LineEdit) (ls : List Bytes) (i : ℕ)
    → e.backrefs ≡ false
    → find_line e.first_match (selects e) ls ≡ some i
    → old_line ls i ≡ line_content e
    → (edit_lines e ls).changed ≡ false
unfolding edit_lines replace_line
again_found e ls i h q o =
    simp (q, o, replacement_plain e (line_content e) h, bytes_eq_refl (line_content e))

again_contained :
    (e : LineEdit) (ls : List Bytes)
    → e.backrefs ≡ false
    → find_line e.first_match (selects e) ls ≡ none
    → contains_line ls (line_content e) ≡ true
    → (edit_lines e ls).changed ≡ false
unfolding edit_lines add_line
again_contained e ls h n c = simp (n, h, c)

-- An edit of the lines changes nothing.
Settled : LineEdit → List Bytes → Type 0
Settled e ls = (edit_lines e ls).changed ≡ false

Settled-at :
    (e : LineEdit) (ls xs : List Bytes)
    → (edit_lines e ls).lines ≡ xs
    → Settled e xs
    → Settled e (edit_lines e ls).lines
Settled-at e ls xs l s = rw l s

edit_lines-none :
    (e : LineEdit) (ls : List Bytes)
    → find_line e.first_match (selects e) ls ≡ none
    → edit_lines e ls ≡ add_line e ls
unfolding edit_lines
edit_lines-none e ls n = simp n

edit_lines-some :
    (e : LineEdit) (ls : List Bytes) (i : ℕ)
    → find_line e.first_match (selects e) ls ≡ some i
    → edit_lines e ls ≡ replace_line e ls i (old_line ls i)
unfolding edit_lines
edit_lines-some e ls i q = simp q

lines_of : Edited → List Bytes
lines_of r = r.lines

again_matching :
    (e : LineEdit) (ls : List Bytes)
    → e.backrefs ≡ false
    → selects e (line_content e) ≡ true
    → Settled e (edit_lines e ls).lines
unfolding Settled lines_of
again_matching e ls h m =
    let v = line_content e in
    let first = e.first_match in
    elim (Option-cases (find_line first (selects e) ls)) [
      | inl n ↦
          let step = ap lines_of (edit_lines-none e ls n) in
          elim (added_lines e ls h) [
            | inl (c, q, _) ↦ Settled-at e ls ls (step ∙ q) (again_contained e ls h n c)
            | inr (a, b, p, q) ↦
                let n' = ap (λ (xs : List Bytes). find_line first (selects e) xs) (sym p) ∙ n in
                Settled-at e ls (a ++ v ∷ b) (step ∙ q) (
                  again_found e (a ++ v ∷ b) (length a) h
                    (find_line-insert (selects e) v m first a b n') (old_line-insert a b v))
          ]
      | inr (i, q) ↦
          let step = ap lines_of (edit_lines-some e ls i q) in
          elim (replaced_lines e ls i h) [
            | inl (o, l, _) ↦ Settled-at e ls ls (step ∙ l) (again_found e ls i h q o)
            | inr l ↦ Settled-at e ls (set_line ls i v) (step ∙ l) (
                again_found e (set_line ls i v) i h (find_line-set (selects e) v m first ls i q)
                  (old_line_found (selects e) v first ls i q))
          ]
    ]

again_unselective :
    (e : LineEdit) (ls : List Bytes)
    → e.backrefs ≡ false
    → e.find ≡ none
    → e.search_string ≡ []
    → Settled e (edit_lines e ls).lines
unfolding Settled
again_unselective e ls h f s =
    again_contained e (edit_lines e ls).lines h
      (find_line-none (selects e) (λ l. simp (f, s)) e.first_match (edit_lines e ls).lines)
      (contains_line-edit_lines e ls h)

-- An edit without backrefs, whose search accepts the line that it puts in or that has no search at
-- all, changes nothing when it is made a second time.
pub edit_lines_again :
    (e : LineEdit) (ls : List Bytes)
    → e.backrefs ≡ false
    → (selects e (line_content e) ≡ true) ⊎ ((e.find ≡ none) × (e.search_string ≡ []))
    → (edit_lines e (edit_lines e ls).lines).changed ≡ false
unfolding Settled
edit_lines_again e ls h (inl m) = again_matching e ls h m
edit_lines_again e ls h (inr (f, s)) = again_unselective e ls h f s
