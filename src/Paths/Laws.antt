-- ===== src/Paths/Laws.antt =====
-- The components of a cleaned path.
use dibra.Prelude.{
  ℕ, Bool, true, false, ◌≡◌, refl, sym, ◌∙◌, ap, List, [], ◌∷◌, ◌++◌, arith, ◌||◌, if◌then◌else◌,
  eqb, is_empty, All, All-append, Bool-cases, inl, inr, ◌⊎◌,
}
use mathlib.Core.List.{reverse, reverse-append, append_assoc}
use dibra.Tasks.{FilePath}
use dibra.Paths.{
  slash, bytes_eq, dot, dot_dot, add_byte, split_slash, join_slash, is_abs, go_up, clean_parts,
  or_dot, clean,
}

pub bytes_eq_refl : (p : List ℕ) → bytes_eq p p ≡ true
bytes_eq_refl [] = refl
bytes_eq_refl (a ∷ p) = ground (arith, bytes_eq_refl p)

pub bytes_eq-eq : (p q : List ℕ) → bytes_eq p q ≡ true → p ≡ q
bytes_eq-eq [] [] h = refl
bytes_eq-eq [] (b ∷ q) h = cc
bytes_eq-eq (a ∷ p) [] h = cc
bytes_eq-eq (a ∷ p) (b ∷ q) h = ground (arith, bytes_eq-eq p q)

abbrev pub has_slash : FilePath → Bool
has_slash [] = false
has_slash (c ∷ p) = eqb c slash || has_slash p

-- No component of these has a slash in it.
abbrev pub AllSlashFree : List FilePath → Type 0
AllSlashFree = All (λ part. has_slash part ≡ false)

add_byte-AllSlashFree :
    (c : ℕ) (parts : List FilePath)
    → eqb c slash ≡ false
    → AllSlashFree parts
    → AllSlashFree (add_byte c parts)
add_byte-AllSlashFree c [] h k = (ground arith, tt)
add_byte-AllSlashFree c (part ∷ parts) h k = (ground arith, k.1)

pub split_slash-AllSlashFree : (p : FilePath) → AllSlashFree (split_slash p)
unfolding split_slash
split_slash-AllSlashFree [] = (refl, tt)
split_slash-AllSlashFree (c ∷ p) = elim (Bool-cases (eqb c slash)) [
  | inl e ↦ rw e (refl, split_slash-AllSlashFree p)
  | inr e ↦ rw e (add_byte-AllSlashFree c (split_slash p) e (split_slash-AllSlashFree p))
]

split_slash-free : (p : FilePath) → has_slash p ≡ false → split_slash p ≡ p ∷ []
unfolding split_slash
split_slash-free [] h = refl
split_slash-free (c ∷ p) h = ground (arith, split_slash-free p)

split_slash-append :
    (p q : FilePath) → has_slash p ≡ false → split_slash (p ++ (slash ∷ q)) ≡ p ∷ split_slash q
unfolding split_slash
split_slash-append [] q h = refl
split_slash-append (c ∷ p) q h = ground (arith, split_slash-append p q)

-- Splitting what was joined gives the components back.
pub split-join :
    (part : FilePath) (parts : List FilePath)
    → AllSlashFree (part ∷ parts)
    → split_slash (join_slash (part ∷ parts)) ≡ part ∷ parts
unfolding join_slash
split-join part [] h = split_slash-free part h.0
split-join part (next ∷ parts) h =
    split_slash-append part (join_slash (next ∷ parts)) h.0
    ∙ ap (λ (ps : List FilePath). part ∷ ps) (split-join next parts h.1)

-- A component that leads down: a name.
abbrev pub IsName : FilePath → Type 0
IsName part =
    (is_empty part ≡ false)
    × (bytes_eq part dot ≡ false)
    × (bytes_eq part dot_dot ≡ false)
    × (has_slash part ≡ false)

clean_parts-AllNames :
    (rooted : Bool) (parts out : List FilePath)
    → All (λ part. bytes_eq part dot_dot ≡ false) parts
    → AllSlashFree parts
    → All IsName out
    → All IsName (clean_parts rooted parts out)
unfolding clean_parts
clean_parts-AllNames rooted [] out h k o = o
clean_parts-AllNames rooted (part ∷ parts) out h k o =
    clean_parts-AllNames rooted parts _ h.1 k.1 kept
  where
    kept : All IsName (
        if is_empty part || bytes_eq part dot
        then out
        else if bytes_eq part dot_dot
        then go_up rooted out
        else part ∷ out)
    kept = elim (Bool-cases (is_empty part || bytes_eq part dot)) [
      | inl e ↦ rw e o
      | inr e ↦ rw (e, h.0) ((ground arith, ground arith, h.0, k.0), o)
    ]

pub All-reverse {ℓ κ} : {A : Type ℓ} (P : A → Type κ) (xs : List A) → All P xs → All P (reverse xs)
All-reverse P [] h = tt
All-reverse P (x ∷ xs) h =
    rw (reverse-append (x ∷ []) xs)
      (All-append P (reverse xs) (x ∷ []) (All-reverse P xs h.1) (h.0, tt))

All-IsName-AllSlashFree : (parts : List FilePath) → All IsName parts → AllSlashFree parts
All-IsName-AllSlashFree [] h = tt
All-IsName-AllSlashFree (part ∷ parts) h = ((h.0).3, All-IsName-AllSlashFree parts h.1)

-- A relative path that is made of names.
pub record IsInside (p : FilePath) : Type 0 where
  pub names : All IsName (split_slash p)

clean_parts-names :
    (parts out : List FilePath)
    → All IsName parts
    → clean_parts false parts out ≡ reverse parts ++ out
unfolding clean_parts
clean_parts-names [] out h = refl
clean_parts-names (part ∷ parts) out h =
    rw ((h.0).0, (h.0).1, (h.0).2)
      (clean_parts-names parts (part ∷ out) h.1
        ∙ rw (reverse-append (part ∷ []) parts)
            (sym (append_assoc (reverse parts) (part ∷ []) out)))

join_slash-names :
    (parts : List FilePath)
    → All IsName parts
    → (or_dot (join_slash parts) ≡ dot) ⊎ IsInside (or_dot (join_slash parts))
unfolding join_slash
join_slash-names [] h = inl refl
join_slash-names ([] ∷ parts) h = cc ((h.0).0)
join_slash-names ((c ∷ part) ∷ []) h =
    inr (record { names = rw (split_slash-free (c ∷ part) (h.0).3) h })
join_slash-names ((c ∷ part) ∷ next ∷ parts) h = inr (record {
  names =
      rw
        (split-join (c ∷ part) (next ∷ parts)
          (All-IsName-AllSlashFree ((c ∷ part) ∷ next ∷ parts) h))
        h;
})

-- Cleaning a relative path without ".." gives ".", or a path made of names.
pub clean-IsInside :
    (p : FilePath)
    → is_abs p ≡ false
    → All (λ part. bytes_eq part dot_dot ≡ false) (split_slash p)
    → (clean p ≡ dot) ⊎ IsInside (clean p)
unfolding clean
clean-IsInside p a h = rw a (
    join_slash-names (reverse (clean_parts false (split_slash p) [])) (
      All-reverse IsName (clean_parts false (split_slash p) [])
        (clean_parts-AllNames false (split_slash p) [] h (split_slash-AllSlashFree p) tt)))
