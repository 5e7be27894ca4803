-- ===== src/LineInFile/Edit/Search.antt =====
-- internal/modules/lineinfile/executor.go: what the search loops find, also on lines that an edit has
-- changed.
use dibra.Prelude.{
  ℕ, zero, suc, Bool, true, false, ◌≡◌, refl, none, some, List, [], ◌∷◌, ◌++◌, ◌<◌, arith, inl, inr,
  length, Bool-cases, Option-cases,
}
use dibra.LineInFile.Text.{Bytes}
use dibra.LineInFile.Edit.{find_first, find_last, find_line, set_line, old_line}

module _ (p : Bytes → Bool) (v : Bytes) (pv : p v ≡ true) where
  find_first-set :
      (ls : List Bytes) (i : ℕ) → find_first p ls ≡ some i → find_first p (set_line ls i v) ≡ some i
  unfolding set_line find_first
  find_first-set [] i e = ground (arith, e)
  find_first-set (l ∷ ls) zero e = simp pv
  find_first-set (l ∷ ls) (suc i) e = elim (Bool-cases (p l)) [
    | inl t ↦ ground (arith, e, t)
    | inr f ↦ elim (Option-cases (find_first p ls)) [
      | inl n ↦ ground (arith, e, f, n)
      | inr (j, q) ↦ ground (arith, e, f, q, find_first-set ls i)
    ]
  ]

  find_last-set :
      (ls : List Bytes) (i : ℕ) → find_last p ls ≡ some i → find_last p (set_line ls i v) ≡ some i
  unfolding set_line find_last
  find_last-set [] i e = ground (arith, e)
  find_last-set (l ∷ ls) zero e = elim (Option-cases (find_last p ls)) [
    | inl n ↦ simp (n, pv)
    | inr (j, q) ↦ ground (arith, e, q)
  ]
  find_last-set (l ∷ ls) (suc i) e = elim (Option-cases (find_last p ls)) [
    | inl n ↦ ground (arith, e, n)
    | inr (j, q) ↦ ground (arith, e, q, find_last-set ls i)
  ]

  find_first-insert :
      (a b : List Bytes)
      → find_first p (a ++ b) ≡ none
      → find_first p (a ++ v ∷ b) ≡ some (length a)
  unfolding find_first
  find_first-insert [] b e = simp pv
  find_first-insert (l ∷ a) b e = elim (Option-cases (find_first p (a ++ b))) [
    | inl n ↦ ground (arith, e, n, find_first-insert a b)
    | inr (j, q) ↦ ground (arith, e, q)
  ]

  find_last-insert :
      (a b : List Bytes) → find_last p (a ++ b) ≡ none → find_last p (a ++ v ∷ b) ≡ some (length a)
  unfolding find_last
  find_last-insert [] b e = simp (e, pv)
  find_last-insert (l ∷ a) b e = elim (Option-cases (find_last p (a ++ b))) [
    | inl n ↦ ground (arith, e, n, find_last-insert a b)
    | inr (j, q) ↦ ground (arith, e, q)
  ]

  pub find_line-set :
      (b : Bool) (ls : List Bytes) (i : ℕ)
      → find_line b p ls ≡ some i
      → find_line b p (set_line ls i v) ≡ some i
  find_line-set true = find_first-set
  find_line-set false = find_last-set

  pub find_line-insert :
      (b : Bool) (xs ys : List Bytes)
      → find_line b p (xs ++ ys) ≡ none
      → find_line b p (xs ++ v ∷ ys) ≡ some (length xs)
  find_line-insert true = find_first-insert
  find_line-insert false = find_last-insert

module _ (p : Bytes → Bool) (v : Bytes) where
  old_line_first :
      (ls : List Bytes) (i : ℕ) → find_first p ls ≡ some i → old_line (set_line ls i v) i ≡ v
  unfolding set_line find_first
  old_line_first [] i e = ground (arith, e)
  old_line_first (l ∷ ls) zero e = refl
  old_line_first (l ∷ ls) (suc i) e = elim (Option-cases (find_first p ls)) [
    | inl n ↦ ground (arith, e, n)
    | inr (j, q) ↦ ground (arith, e, q, old_line_first ls i)
  ]

  old_line_last :
      (ls : List Bytes) (i : ℕ) → find_last p ls ≡ some i → old_line (set_line ls i v) i ≡ v
  unfolding set_line find_last
  old_line_last [] i e = ground (arith, e)
  old_line_last (l ∷ ls) zero e = refl
  old_line_last (l ∷ ls) (suc i) e = elim (Option-cases (find_last p ls)) [
    | inl n ↦ ground (arith, e, n)
    | inr (j, q) ↦ ground (arith, e, q, old_line_last ls i)
  ]

  pub old_line_found :
      (b : Bool) (ls : List Bytes) (i : ℕ)
      → find_line b p ls ≡ some i
      → old_line (set_line ls i v) i ≡ v
  old_line_found true = old_line_first
  old_line_found false = old_line_last

module _ (p : Bytes → Bool) where
  first_match_lem : (ls : List Bytes) (i : ℕ) → find_first p ls ≡ some i → p (old_line ls i) ≡ true
  unfolding find_first
  first_match_lem [] i e = ground (arith, e)
  first_match_lem (l ∷ ls) zero e = elim (Option-cases (find_first p ls)) [
    | inl n ↦ ground (arith, e, n)
    | inr (j, q) ↦ ground (arith, e, q)
  ]
  first_match_lem (l ∷ ls) (suc i) e = elim (Option-cases (find_first p ls)) [
    | inl n ↦ ground (arith, e, n)
    | inr (j, q) ↦ ground (arith, e, q, first_match_lem ls i)
  ]

  last_match_lem : (ls : List Bytes) (i : ℕ) → find_last p ls ≡ some i → p (old_line ls i) ≡ true
  unfolding find_last
  last_match_lem [] i e = ground (arith, e)
  last_match_lem (l ∷ ls) zero e = elim (Option-cases (find_last p ls)) [
    | inl n ↦ ground (arith, e, n)
    | inr (j, q) ↦ ground (arith, e, q)
  ]
  last_match_lem (l ∷ ls) (suc i) e = elim (Option-cases (find_last p ls)) [
    | inl n ↦ ground (arith, e, n)
    | inr (j, q) ↦ ground (arith, e, q, last_match_lem ls i)
  ]

  first_in_range : (ls : List Bytes) (i : ℕ) → find_first p ls ≡ some i → i < length ls
  unfolding find_first
  first_in_range [] i e = ground (arith, e)
  first_in_range (l ∷ ls) zero e = omega arith
  first_in_range (l ∷ ls) (suc i) e = elim (Option-cases (find_first p ls)) [
    | inl n ↦ ground (arith, e, n)
    | inr (j, q) ↦ ground (arith, e, q, first_in_range ls i)
  ]

  last_in_range : (ls : List Bytes) (i : ℕ) → find_last p ls ≡ some i → i < length ls
  unfolding find_last
  last_in_range [] i e = ground (arith, e)
  last_in_range (l ∷ ls) zero e = omega arith
  last_in_range (l ∷ ls) (suc i) e = elim (Option-cases (find_last p ls)) [
    | inl n ↦ ground (arith, e, n)
    | inr (j, q) ↦ ground (arith, e, q, last_in_range ls i)
  ]

  pub find_line_in_range :
      (b : Bool) (ls : List Bytes) (i : ℕ) → find_line b p ls ≡ some i → i < length ls
  find_line_in_range true = first_in_range
  find_line_in_range false = last_in_range

  pub find_line-matches :
      (b : Bool) (ls : List Bytes) (i : ℕ) → find_line b p ls ≡ some i → p (old_line ls i) ≡ true
  find_line-matches true = first_match_lem
  find_line-matches false = last_match_lem

module _ (p : Bytes → Bool) (h : (l : Bytes) → p l ≡ false) where
  no_first : (ls : List Bytes) → find_first p ls ≡ none
  unfolding find_first
  no_first [] = refl
  no_first (l ∷ ls) = simp (h l, no_first ls)

  no_last : (ls : List Bytes) → find_last p ls ≡ none
  unfolding find_last
  no_last [] = refl
  no_last (l ∷ ls) = simp (h l, no_last ls)

  pub find_line-none : (b : Bool) (ls : List Bytes) → find_line b p ls ≡ none
  find_line-none true = no_first
  find_line-none false = no_last

pub old_line-insert : (a b : List Bytes) (v : Bytes) → old_line (a ++ v ∷ b) (length a) ≡ v
old_line-insert [] b v = refl
old_line-insert (l ∷ a) b v = old_line-insert a b v
