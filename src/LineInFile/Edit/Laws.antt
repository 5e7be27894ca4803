-- ===== src/LineInFile/Edit/Laws.antt =====
-- What an edit of internal/modules/lineinfile/executor.go leaves in the file.
use dibra.LineInFile.Edit.Search.{find_line-matches}
use dibra.Prelude.{
  ℕ, zero, suc, ◌+◌, Bool, true, ◌≡◌, refl, ap, Option, none, some, List, [], ◌∷◌, ◌++◌, arith, ◌⊎◌,
  inl, inr, is_empty, Bool-cases, Option-cases,
}
use dibra.Paths.{bytes_eq}
use dibra.Paths.Laws.{bytes_eq_refl}
use dibra.LineInFile.Text.{Bytes}
use dibra.LineInFile.Edit.{
  LineEdit, is_match, find_line, set_line, insert_at, contains_line, line_content, replacement,
  replace_line, place_line, insert_index, add_line, old_line, edit_lines, bof, eof,
}

-- One line more, at some place.
abbrev pub Adds : Bytes → List Bytes → List Bytes → Type 0
Adds v ls ls' = (a : List Bytes) × (b : List Bytes) × (ls ≡ a ++ b) × (ls' ≡ a ++ v ∷ b)

-- One line for another, at some place.
abbrev pub Replaces : Bytes → Bytes → List Bytes → List Bytes → Type 0
Replaces old v ls ls' =
    (a : List Bytes) × (b : List Bytes) × (ls ≡ a ++ old ∷ b) × (ls' ≡ a ++ v ∷ b)

Adds-cons : (l v : Bytes) (ls ls' : List Bytes) → Adds v ls ls' → Adds v (l ∷ ls) (l ∷ ls')
Adds-cons l v ls ls' (a, b, p, q) =
    (l ∷ a, b, ap (λ (xs : List Bytes). l ∷ xs) p, ap (λ (xs : List Bytes). l ∷ xs) q)

insert_at-Adds : (ls : List Bytes) (i : ℕ) (v : Bytes) → Adds v ls (insert_at ls i v)
unfolding insert_at
insert_at-Adds ls zero v = ([], ls, refl, refl)
insert_at-Adds [] (suc i) v = ([], [], refl, refl)
insert_at-Adds (l ∷ ls) (suc i) v = Adds-cons l v ls (insert_at ls i v) (insert_at-Adds ls i v)

end-Adds : (ls : List Bytes) (v : Bytes) → Adds v ls (ls ++ v ∷ [])
end-Adds [] v = ([], [], refl, refl)
end-Adds (l ∷ ls) v = Adds-cons l v ls (ls ++ v ∷ []) (end-Adds ls v)

pub place_line-Adds :
    (e : LineEdit) (ls : List Bytes) (o : Option ℕ) (v : Bytes) → Adds v ls (place_line e ls o v)
unfolding place_line
place_line-Adds e ls none v = elim (Bool-cases (bytes_eq e.insert_before bof)) [
  | inl s ↦ rw s ([], ls, refl, refl)
  | inr s ↦ rw s (end-Adds ls v)
]
place_line-Adds e ls (some i) v = elim (Bool-cases (bytes_eq e.insert_before bof)) [
  | inl s ↦ ([], ls, refl, simp s)
  | inr s ↦ elim (Bool-cases (bytes_eq e.insert_after eof)) [
    | inl f ↦ simp (s, f) (end-Adds ls v)
    | inr f ↦ elim (Bool-cases (is_empty e.insert_before)) [
      | inr b ↦ simp (s, f, b) (insert_at-Adds ls i v)
      | inl b ↦ elim (Bool-cases (is_empty e.insert_after)) [
        | inr a ↦ simp (s, f, b, a) (insert_at-Adds ls (i + 1) v)
        | inl a ↦ simp (s, f, b, a) (end-Adds ls v)
      ]
    ]
  ]
]

pub contains_line-insert : (a b : List Bytes) (v : Bytes) → contains_line (a ++ v ∷ b) v ≡ true
contains_line-insert [] b v = simp (bytes_eq_refl v)
contains_line-insert (l ∷ a) b v = ground (arith, contains_line-insert a b v)

set_line-Replaces :
    (ls : List Bytes) (i : ℕ) (v : Bytes)
    → (set_line ls i v ≡ ls) ⊎ Replaces (old_line ls i) v ls (set_line ls i v)
unfolding set_line
set_line-Replaces [] i v = inl refl
set_line-Replaces (l ∷ ls) zero v = inr ([], ls, refl, refl)
set_line-Replaces (l ∷ ls) (suc i) v = elim (set_line-Replaces ls i v) [
  | inl e ↦ inl (ap (λ (xs : List Bytes). l ∷ xs) e)
  | inr (a, b, p, q) ↦
      inr (l ∷ a, b, ap (λ (xs : List Bytes). l ∷ xs) p, ap (λ (xs : List Bytes). l ∷ xs) q)
]

-- The line is one that the search of the request accepts.
abbrev pub selects : LineEdit → Bytes → Bool
selects e = is_match e.find e.search_string

-- What became of the lines: nothing, one more line, or one line for another that the search accepts.
abbrev pub Touches : LineEdit → List Bytes → List Bytes → Type 0
Touches e ls ls' =
    (ls' ≡ ls)
    ⊎ Adds (line_content e) ls ls'
    ⊎ ((old : Bytes) × (selects e old ≡ true) × Replaces old (replacement e old) ls ls')

add_line-Touches : (e : LineEdit) (ls : List Bytes) → Touches e ls (add_line e ls).lines
unfolding add_line
add_line-Touches e ls = elim (Bool-cases e.backrefs) [
  | inl b ↦ inl (simp b)
  | inr b ↦ elim (Bool-cases (contains_line ls (line_content e))) [
    | inl c ↦ inl (simp (b, c))
    | inr c ↦ inr (inl (simp (b, c) (place_line-Adds e ls (insert_index e ls) (line_content e))))
  ]
]

replace_line-Touches :
    (e : LineEdit) (ls : List Bytes) (i : ℕ)
    → selects e (old_line ls i) ≡ true
    → Touches e ls (replace_line e ls i (old_line ls i)).lines
unfolding replace_line
replace_line-Touches e ls i m =
    let old = old_line ls i in
    elim (Bool-cases (bytes_eq old (replacement e old))) [
      | inl t ↦ inl (simp t)
      | inr f ↦ elim (set_line-Replaces ls i (replacement e old)) [
        | inl q ↦ inl (simp f q)
        | inr r ↦ inr (inr (old, m, simp f r))
      ]
    ]

-- An edit leaves the lines as they are, or adds the line of the request at one place, or puts the
-- replacement in place of one line that the search of the request accepts.
pub edit_lines-Touches : (e : LineEdit) (ls : List Bytes) → Touches e ls (edit_lines e ls).lines
unfolding edit_lines
edit_lines-Touches e ls = elim (Option-cases (find_line e.first_match (selects e) ls)) [
  | inl n ↦ rw n (add_line-Touches e ls)
  | inr (i, q) ↦
      rw q (replace_line-Touches e ls i (find_line-matches (selects e) e.first_match ls i q))
]
