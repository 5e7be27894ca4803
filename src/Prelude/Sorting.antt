-- ===== src/Prelude/Sorting.antt =====
-- `sort.Strings` and the `map[string]struct{}` that the program uses as a set of names: the sorted
-- list of a set of names depends on nothing but the set.
use Prim.Native.Char.{code}
use Prim.Native.String.{String}
use mathlib.Core.Path.{◌≡◌, refl, sym, ◌∙◌, ap, ap₂}
use mathlib.Core.Bool.{Bool, true, false, ◌||◌}
use mathlib.Core.Logic.{inl, inr}
use mathlib.Core.List.{List, [], ◌∷◌}
use native.Mathlib.Omega.{arith}
use text.Mathlib.Text.{◌==◌}
use text.Mathlib.TextEquality.{eq_iff, codes_equal}
use text.Mathlib.TextPositions.{eq_refl}
use dibra.Prelude.Tests.{ltb, if◌then◌else◌, Bool-cases}
use dibra.Prelude.Lists.{All, contains, distinct}

-- Go's `s <= t` on strings, in the order of code points, which is that of the UTF-8 bytes.
unfoldable pub text_leb : String → String → Bool
text_leb String.[] t = true
text_leb (String.◌∷◌ c s) String.[] = false
text_leb (String.◌∷◌ c s) (String.◌∷◌ d t) =
    if ltb (code c) (code d) then true else if ltb (code d) (code c) then false else text_leb s t

pub text_leb_total : (s t : String) → text_leb s t ≡ false → text_leb t s ≡ true
unfolding text_leb
text_leb_total String.[] t h = ground arith
text_leb_total (String.◌∷◌ c s) String.[] h = refl
text_leb_total (String.◌∷◌ c s) (String.◌∷◌ d t) h = ground (arith, text_leb_total s t)

pub text_leb_trans :
    (s t u : String) → text_leb s t ≡ true → text_leb t u ≡ true → text_leb s u ≡ true
unfolding text_leb
text_leb_trans String.[] t u h k = refl
text_leb_trans (String.◌∷◌ c s) String.[] u h k = cc
text_leb_trans (String.◌∷◌ c s) (String.◌∷◌ d t) String.[] h k = cc
text_leb_trans (String.◌∷◌ c s) (String.◌∷◌ d t) (String.◌∷◌ e u) h k =
    ground (arith, text_leb_trans s t u)

pub text_leb_antisymm : (s t : String) → text_leb s t ≡ true → text_leb t s ≡ true → s ≡ t
unfolding text_leb
text_leb_antisymm String.[] String.[] h k = refl
text_leb_antisymm String.[] (String.◌∷◌ d t) h k = cc
text_leb_antisymm (String.◌∷◌ c s) String.[] h k = cc
text_leb_antisymm (String.◌∷◌ c s) (String.◌∷◌ d t) h k =
    ap₂ String.◌∷◌ (codes_equal c d (ground arith))
      (text_leb_antisymm s t (ground arith) (ground arith))

text_leb_refl : (s : String) → text_leb s s ≡ true
unfolding text_leb
text_leb_refl String.[] = refl
text_leb_refl (String.◌∷◌ c s) = ground (arith, text_leb_refl s)

insert_text : String → List String → List String
insert_text s [] = s ∷ []
insert_text s (x ∷ xs) = if text_leb s x then s ∷ x ∷ xs else x ∷ insert_text s xs

-- sort.Strings
unfoldable pub sort_strings : List String → List String
unfolding insert_text
sort_strings [] = []
sort_strings (x ∷ xs) = insert_text x (sort_strings xs)

-- The keys of a set that was filled from a list, in the order of first insertion.
unfoldable pub unique : List String → List String
unique [] = []
unique (x ∷ xs) = let rest = unique xs in if contains xs x then rest else x ∷ rest

abbrev pub IsSorted : List String → Type 0
IsSorted [] = Unit
IsSorted (x ∷ xs) = All (λ y. text_leb x y ≡ true) xs × IsSorted xs

contains-insert_text :
    (s t : String) (xs : List String) → contains (insert_text s xs) t ≡ (s == t) || contains xs t
unfolding insert_text
contains-insert_text s t [] = refl
contains-insert_text s t (x ∷ xs) =
    ground (arith, contains-insert_text s t xs, eq_iff s t, eq_iff x t)

pub contains-sort_strings :
    (t : String) (xs : List String) → contains (sort_strings xs) t ≡ contains xs t
unfolding sort_strings
contains-sort_strings t [] = refl
contains-sort_strings t (x ∷ xs) =
    ground (arith, contains-insert_text x t (sort_strings xs), contains-sort_strings t xs)

All-leb_mono :
    (s x : String) (xs : List String)
    → text_leb s x ≡ true
    → All (λ y. text_leb x y ≡ true) xs
    → All (λ y. text_leb s y ≡ true) xs
All-leb_mono s x [] h k = tt
All-leb_mono s x (y ∷ ys) h k = (text_leb_trans s x y h k.0, All-leb_mono s x ys h k.1)

All-insert_text :
    (x s : String) (xs : List String)
    → text_leb x s ≡ true
    → All (λ y. text_leb x y ≡ true) xs
    → All (λ y. text_leb x y ≡ true) (insert_text s xs)
unfolding insert_text
All-insert_text x s [] h k = (h, tt)
All-insert_text x s (y ∷ ys) h k = elim (Bool-cases (text_leb s y)) [
  | inl e ↦ rw e (h, k)
  | inr e ↦ rw e (k.0, All-insert_text x s ys h k.1)
]

insert_text-IsSorted : (s : String) (xs : List String) → IsSorted xs → IsSorted (insert_text s xs)
unfolding insert_text
insert_text-IsSorted s [] h = (tt, tt)
insert_text-IsSorted s (x ∷ xs) h = elim (Bool-cases (text_leb s x)) [
  | inl e ↦ rw e ((e, All-leb_mono s x xs e h.0), h)
  | inr e ↦ rw e (All-insert_text x s xs (text_leb_total s x e) h.0, insert_text-IsSorted s xs h.1)
]

pub sort_strings-IsSorted : (xs : List String) → IsSorted (sort_strings xs)
unfolding sort_strings
sort_strings-IsSorted [] = tt
sort_strings-IsSorted (x ∷ xs) = insert_text-IsSorted x (sort_strings xs) (sort_strings-IsSorted xs)

distinct-insert_text :
    (s : String) (xs : List String)
    → contains xs s ≡ false
    → distinct xs ≡ true
    → distinct (insert_text s xs) ≡ true
unfolding insert_text
distinct-insert_text s [] h k = refl
distinct-insert_text s (x ∷ xs) h k =
    ground (arith, distinct-insert_text s xs, contains-insert_text s x xs, eq_iff x s, eq_iff s x)

pub distinct-sort_strings :
    (xs : List String) → distinct xs ≡ true → distinct (sort_strings xs) ≡ true
unfolding sort_strings
distinct-sort_strings [] h = refl
distinct-sort_strings (x ∷ xs) h =
    distinct-insert_text x (sort_strings xs) (contains-sort_strings x xs ∙ ground arith)
      (distinct-sort_strings xs (ground arith))

pub contains-unique : (t : String) (xs : List String) → contains (unique xs) t ≡ contains xs t
unfolding unique
contains-unique t [] = refl
contains-unique t (x ∷ xs) = ground (arith, contains-unique t xs, eq_iff x t)

pub distinct-unique : (xs : List String) → distinct (unique xs) ≡ true
unfolding unique
distinct-unique [] = refl
distinct-unique (x ∷ xs) = ground (arith, distinct-unique xs, contains-unique x xs)

leb_of_contains :
    (x t : String) (xs : List String)
    → All (λ y. text_leb x y ≡ true) xs
    → contains xs t ≡ true
    → text_leb x t ≡ true
leb_of_contains x t [] h m = cc
leb_of_contains x t (y ∷ ys) h m = elim (Bool-cases (y == t)) [
  | inl e ↦ rw (← (eq_iff y t).0 e) (h.0)
  | inr e ↦ leb_of_contains x t ys h.1 (ground arith)
]

-- Two lists with the same members: the tails have them too, when the heads are equal.
tails_agree :
    (x : String) (xs ys : List String)
    → contains xs x ≡ false
    → contains ys x ≡ false
    → ((t : String) → contains (x ∷ xs) t ≡ contains (x ∷ ys) t)
    → (t : String) → contains xs t ≡ contains ys t
tails_agree x xs ys h k same t = elim (Bool-cases (x == t)) [
  | inl e ↦ rw (← (eq_iff x t).0 e) (h ∙ sym k)
  | inr e ↦ ground (arith, same t)
]

-- The head of a sorted list is below every member.
head_leb :
    (x t : String) (xs : List String)
    → IsSorted (x ∷ xs)
    → contains (x ∷ xs) t ≡ true
    → text_leb x t ≡ true
unfolding text_leb
head_leb x t xs h m = elim (Bool-cases (x == t)) [
  | inl e ↦ rw (← (eq_iff x t).0 e) (text_leb_refl x)
  | inr e ↦ leb_of_contains x t xs h.0 (ground arith)
]

heads_agree :
    (x y : String) (xs ys : List String)
    → IsSorted (x ∷ xs)
    → IsSorted (y ∷ ys)
    → ((t : String) → contains (x ∷ xs) t ≡ contains (y ∷ ys) t)
    → x ≡ y
heads_agree x y xs ys h k same =
    text_leb_antisymm x y (head_leb x y xs h (same y ∙ ground (arith, eq_refl y)))
      (head_leb y x ys k (sym (same x) ∙ ground (arith, eq_refl x)))

pub sorted_ext :
    (xs ys : List String)
    → IsSorted xs
    → IsSorted ys
    → distinct xs ≡ true
    → distinct ys ≡ true
    → ((t : String) → contains xs t ≡ contains ys t)
    → xs ≡ ys
sorted_ext [] [] h k d e same = refl
sorted_ext [] (y ∷ ys) h k d e same = ground (arith, same y, eq_refl y)
sorted_ext (x ∷ xs) [] h k d e same = ground (arith, same x, eq_refl x)
sorted_ext (x ∷ xs) (y ∷ ys) h k d e same =
    let heads : x ≡ y = heads_agree x y xs ys h k same in
    ap₂ ◌∷◌ heads (
      sorted_ext xs ys h.1 k.1 (ground arith) (ground arith) (
        tails_agree x xs ys (ground arith) (rw heads (ground arith))
          (λ t. same t ∙ ap (λ (z : String). contains (z ∷ ys) t) (sym heads))))

-- The sorted list of a set of names is determined by the set.
pub sort_unique-ext :
    (xs ys : List String)
    → ((t : String) → contains xs t ≡ contains ys t)
    → sort_strings (unique xs) ≡ sort_strings (unique ys)
sort_unique-ext xs ys same =
    sorted_ext (sort_strings (unique xs)) (sort_strings (unique ys))
      (sort_strings-IsSorted (unique xs)) (sort_strings-IsSorted (unique ys))
      (distinct-sort_strings (unique xs) (distinct-unique xs))
      (distinct-sort_strings (unique ys) (distinct-unique ys))
      λ t.
        contains-sort_strings t (unique xs)
        ∙ contains-unique t xs
        ∙ same t
        ∙ sym (contains-sort_strings t (unique ys) ∙ contains-unique t ys)
