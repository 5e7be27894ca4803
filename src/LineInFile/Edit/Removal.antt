-- ===== src/LineInFile/Edit/Removal.antt =====
-- internal/modules/lineinfile/executor.go: the lines that `absent` keeps.
use dibra.Prelude.{
  ℕ, ◌+◌, Bool, true, false, ◌≡◌, refl, sym, ◌∙◌, ap, List, [], ◌∷◌, arith, ◌||◌, ◌&&◌, inl, inr,
  not, length, Bool-cases, Option, some, none, ◌++◌, is_some, eqb, ◌⊎◌,
}
use mathlib.Core.Bool.{false≢true}
use dibra.Paths.{bytes_eq}
use dibra.Paths.Laws.{bytes_eq-eq, bytes_eq_refl}
use dibra.LineInFile.Text.{Bytes, after_prefix}
use dibra.LineInFile.Edit.{Regexp, contains_bytes, contains_line, removes, remove_lines}

dropped : (a b c : Bool) → (a ≡ true → c ≡ true) → (b && not c) ≡ ((a || b) && not c)
dropped false b c h = refl
dropped true false c h = simp (h refl)
dropped true true c h = simp (h refl)

kept_or : (a b c : Bool) → (a ≡ true → c ≡ false) → (a || (b && not c)) ≡ ((a || b) && not c)
kept_or false b c h = refl
kept_or true b c h = simp (h refl)

module _ (p : Bytes → Bool) where
  nothing_step : remove_lines p [] ≡ ([], 0)
  unfolding remove_lines
  nothing_step = refl

  drop_step :
      (l : Bytes) (ls : List Bytes)
      → p l ≡ true
      → remove_lines p (l ∷ ls) ≡ ((remove_lines p ls).0, (remove_lines p ls).1 + 1)
  unfolding remove_lines
  drop_step l ls h = simp h

  keep_step :
      (l : Bytes) (ls : List Bytes)
      → p l ≡ false
      → remove_lines p (l ∷ ls) ≡ (l ∷ (remove_lines p ls).0, (remove_lines p ls).1)
  unfolding remove_lines
  keep_step l ls h = simp h

  contains_line-cong : (l v : Bytes) → bytes_eq l v ≡ true → p l ≡ p v
  contains_line-cong l v h = ap p (bytes_eq-eq l v h)

  kept_lines :
      (ls : List Bytes) (v : Bytes)
      → contains_line (remove_lines p ls).0 v ≡ (contains_line ls v && not (p v))
  kept_lines [] v = simp nothing_step
  kept_lines (l ∷ ls) v = elim (Bool-cases (p l)) [
    | inl t ↦ rw (drop_step l ls t) (
        kept_lines ls v
        ∙ dropped (bytes_eq l v) (contains_line ls v) (p v)
            (λ e. sym (contains_line-cong l v e) ∙ t))
    | inr f ↦ rw (keep_step l ls f) (
        ap (λ (b : Bool). bytes_eq l v || b) (kept_lines ls v)
        ∙ kept_or (bytes_eq l v) (contains_line ls v) (p v)
            (λ e. sym (contains_line-cong l v e) ∙ f))
  ]

  removed_count :
      (ls : List Bytes) → length (remove_lines p ls).0 + (remove_lines p ls).1 ≡ length ls
  removed_count [] = simp nothing_step
  removed_count (l ∷ ls) = elim (Bool-cases (p l)) [
    | inl t ↦ rw (drop_step l ls t) (omega (arith, removed_count ls))
    | inr f ↦ rw (keep_step l ls f) (omega (arith, removed_count ls))
  ]

  remove_lines_twice :
      (ls : List Bytes) → remove_lines p (remove_lines p ls).0 ≡ ((remove_lines p ls).0, 0)
  remove_lines_twice [] = rw (nothing_step, nothing_step) refl
  remove_lines_twice (l ∷ ls) = elim (Bool-cases (p l)) [
    | inl t ↦ rw (drop_step l ls t) (remove_lines_twice ls)
    | inr f ↦ rw (keep_step l ls f) (
        keep_step l (remove_lines p ls).0 f
        ∙ ap (λ (r : List Bytes × ℕ). (l ∷ r.0, r.1)) (remove_lines_twice ls))
  ]

-- The text holds the other one, somewhere.
abbrev pub Holds : Bytes → Bytes → Type 0
Holds l s = (a : Bytes) × (b : Bytes) × (l ≡ a ++ (s ++ b))

-- What the request selects: what its expression matches, or else what holds its search string, or else
-- what is its line.
abbrev pub Selected : Option Regexp → Bytes → Bytes → Bytes → Type 0
Selected (some find) search line v = is_some (find v) ≡ true
Selected none (c ∷ search) line v = Holds v (c ∷ search)
Selected none [] (c ∷ line) v = v ≡ c ∷ line
Selected none [] [] v = ⊥

after_prefix-append : (p r : Bytes) → after_prefix p (p ++ r) ≡ some r
unfolding after_prefix
after_prefix-append [] r = refl
after_prefix-append (c ∷ p) r =
    let same : eqb c c ≡ true = ground arith in rw same (after_prefix-append p r)

after_prefix-splits : (p s : Bytes) → is_some (after_prefix p s) ≡ true → (r : Bytes) × (s ≡ p ++ r)
unfolding after_prefix
after_prefix-splits [] s h = (s, refl)
after_prefix-splits (c ∷ p) [] h = ground (arith, h)
after_prefix-splits (c ∷ p) (d ∷ s) h = elim (Bool-cases (eqb c d)) [
  | inl e ↦
      let (r, q) = after_prefix-splits p s (rw e at h) in
      let same : c ≡ d = ground (arith, e) in
      (r, ap (λ (x : ℕ). x ∷ s) (sym same) ∙ ap (λ (xs : Bytes). c ∷ xs) q)
  | inr e ↦ ground (arith, h, e)
]

contains_bytes-Holds : (l s : Bytes) → contains_bytes l s ≡ true → Holds l s
unfolding contains_bytes
contains_bytes-Holds [] [] h = ([], [], refl)
contains_bytes-Holds [] (c ∷ s) h = ground (arith, h)
contains_bytes-Holds (c ∷ l) s h = elim (Bool-cases (is_some (after_prefix s (c ∷ l)))) [
  | inl e ↦ let (r, q) = after_prefix-splits s (c ∷ l) e in ([], r, q)
  | inr e ↦
      let (a, b, q) = contains_bytes-Holds l s (ground (arith, h, e)) in
      (c ∷ a, b, ap (λ (xs : Bytes). c ∷ xs) q)
]

contains_bytes-append : (a s b : Bytes) → contains_bytes (a ++ (s ++ b)) s ≡ true
unfolding contains_bytes after_prefix
contains_bytes-append [] [] [] = refl
contains_bytes-append [] [] (c ∷ b) = refl
contains_bytes-append [] (c ∷ s) b = let starts = after_prefix-append (c ∷ s) b in simp starts
contains_bytes-append (c ∷ a) s b = ground (arith, contains_bytes-append a s b)

-- The test of the loop.
removes-Selected :
    (find : Option Regexp) (search line v : Bytes)
    → ((removes find search line v ≡ true) × Selected find search line v)
      ⊎ ((removes find search line v ≡ false) × ¬ Selected find search line v)
unfolding removes
removes-Selected (some find) search line v = elim (Bool-cases (is_some (find v))) [
  | inl t ↦ inl (t, t)
  | inr f ↦ inr (f, λ t. absurd (false≢true (sym f ∙ t)))
]
removes-Selected none (c ∷ search) line v = elim (Bool-cases (contains_bytes v (c ∷ search))) [
  | inl t ↦ inl (t, contains_bytes-Holds v (c ∷ search) t)
  | inr f ↦ inr (
    f,
    λ h. absurd (
        false≢true (
          sym f
          ∙ ap (λ (x : Bytes). contains_bytes x (c ∷ search)) h.2
          ∙ contains_bytes-append h.0 (c ∷ search) h.1)),
  )
]
removes-Selected none [] (c ∷ line) v = elim (Bool-cases (bytes_eq v (c ∷ line))) [
  | inl t ↦ inl (t, bytes_eq-eq v (c ∷ line) t)
  | inr f ↦ inr (
    f,
    λ q. absurd (
        false≢true
          (sym f ∙ ap (λ (x : Bytes). bytes_eq x (c ∷ line)) q ∙ bytes_eq_refl (c ∷ line))),
  )
]
removes-Selected none [] [] v = inr (refl, λ h. h)

-- `absent` keeps no line that its expression matches, or, without one, that holds its search string, or,
-- without both, that is its line; a line of any other text is kept if the file has it. The lines kept
-- and the lines counted are all there were, and a second run removes none.
pub remove_lines_lem :
    (find : Option Regexp) (search line : Bytes) (ls : List Bytes) (v : Bytes)
    → ((Selected find search line v
          × (contains_line (remove_lines (removes find search line) ls).0 v ≡ false))
        ⊎ ((¬ Selected find search line v)
            × (contains_line (remove_lines (removes find search line) ls).0 v
                ≡ contains_line ls v)))
      × (length (remove_lines (removes find search line) ls).0
            + (remove_lines (removes find search line) ls).1
          ≡ length ls)
      × (remove_lines (removes find search line) (remove_lines (removes find search line) ls).0
          ≡ ((remove_lines (removes find search line) ls).0, 0))
remove_lines_lem find search line ls v =
    let p = removes find search line in
    let kept = kept_lines p ls v in
    (
      elim (removes-Selected find search line v) [
        | inl (t, s) ↦ inl (s, kept ∙ ground (arith, t))
        | inr (f, s) ↦ inr (s, kept ∙ ground (arith, f))
      ],
      removed_count p ls,
      remove_lines_twice p ls,
    )
