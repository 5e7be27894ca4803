-- ===== src/Prelude/Lists.antt =====
-- Lists measured and indexed by native numbers, membership tests on texts, and predicates by
-- recursion.
use Prim.Native.Nat.{ℕ, zero, suc, ◌+◌}
use Prim.Native.String.{String}
use mathlib.Core.Path.{◌≡◌, refl}
use mathlib.Core.Bool.{Bool, true, false, ◌||◌}
use mathlib.Core.List.{List, [], ◌∷◌, ◌++◌}
use mathlib.Core.Option.{Option, none, some}
use native.Mathlib.Omega.{arith}
use text.Mathlib.Text.{◌==◌}
use text.Mathlib.TextEquality.{eq_iff}
use dibra.Prelude.Tests.{if◌then◌else◌, eqb}

module _ {ℓ} {A : Type ℓ} where
  abbrev pub length : List A → ℕ
  length [] = 0
  length (x ∷ xs) = suc (length xs)

  abbrev pub is_empty : List A → Bool
  is_empty [] = true
  is_empty (x ∷ xs) = false

  abbrev pub get_elem? : List A → ℕ → Option A
  get_elem? [] i = none
  get_elem? (x ∷ xs) zero = some x
  get_elem? (x ∷ xs) (suc i) = get_elem? xs i

  pub length-append : (xs ys : List A) → length (xs ++ ys) ≡ length xs + length ys
  length-append [] ys = omega arith
  length-append (x ∷ xs) ys = omega (arith, length-append xs ys)

-- Predicates by recursion, which the tactics read.
abbrev pub All {ℓ κ} : {A : Type ℓ} → (A → Type κ) → List A → Type κ
All Q [] = Unit
All Q (a ∷ rest) = Q a × All Q rest

pub All-append {ℓ κ} :
    {A : Type ℓ} (Q : A → Type κ) (front back : List A)
    → All Q front
    → All Q back
    → All Q (front ++ back)
All-append Q [] back h k = k
All-append Q (a ∷ front) back h k = (h.0, All-append Q front back h.1 k)

-- Membership of a text in a list, as a test.
abbrev pub contains : List String → String → Bool
contains [] s = false
contains (x ∷ xs) s = (x == s) || contains xs s

pub eq_text : (s t : String) → (s == t) ≡ true → s ≡ t
eq_text s t e = ground (arith, e, eq_iff s t)

-- Membership of a number in a list, as a test.
abbrev pub contains_num : List ℕ → ℕ → Bool
contains_num [] n = false
contains_num (x ∷ xs) n = eqb x n || contains_num xs n

-- No text twice.
abbrev pub distinct : List String → Bool
distinct [] = true
distinct (x ∷ xs) = if contains xs x then false else distinct xs

-- A statement on the members of a list is one on all its places.
pub All-of-contains {κ} :
    (P : String → Type κ) (xs : List String)
    → ((x : String) → contains xs x ≡ true → P x)
    → All P xs
All-of-contains P [] h = tt
All-of-contains P (x ∷ xs) h =
    (h x (ground (arith, eq_iff x x)), All-of-contains P xs (λ y k. h y (ground (arith, k))))

pub contains-append :
    (xs ys : List String) (s : String) → contains (xs ++ ys) s ≡ (contains xs s || contains ys s)
contains-append [] ys s = refl
contains-append (x ∷ xs) ys s = ground (arith, contains-append xs ys s, eq_iff x s)

pub contains_num-append :
    (xs ys : List ℕ) (n : ℕ) → contains_num (xs ++ ys) n ≡ (contains_num xs n || contains_num ys n)
contains_num-append [] ys n = refl
contains_num-append (x ∷ xs) ys n = ground (arith, contains_num-append xs ys n)
