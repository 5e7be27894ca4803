-- ===== src/Loops/Sequence/Range.antt =====
-- internal/controller/runner.go: a sequence with an end stays within it and reaches as far as it can.
use dibra.Prelude.{
  map, if◌then◌else◌, Bool-cases, ◌⊎◌, inl, inr, ℕ, zero, suc, ◌+◌, ◌-◌, ◌*◌, ◌≤◌, ◌<◌, ◌≡◌, refl,
  true, false, List, [], ◌∷◌, arith, All, ok, eqb,
}
use Prim.Native.Nat.{◌/◌, ◌%◌}
use native.Mathlib.Nat.{div-le_self, lt-div-mul-add, le-div_iff_mul-le}
use dibra.Loops.Sequence.{
  Word64, word, half, is_negative, plus, minus, times, quotient, SequenceSpec, complete_spec,
  sequence_values,
}

-- A Go int above the least one: it orders the ints as Go does, those that are negative first.
abbrev pub above_least : Word64 → ℕ
above_least a = if is_negative a then a - half else a + half

-- The number of items from start to last.
abbrev pub steps : SequenceSpec → ℕ
steps spec = (above_least spec.last - above_least spec.start) / spec.stride + 1

-- The items without wrapping around, from index i on, as they stand above the least int.
abbrev pub progression : ℕ → ℕ → ℕ → ℕ → List ℕ
progression start stride i zero = []
progression start stride i (suc n) = (start + i * stride) ∷ progression start stride (suc i) n

-- A rising sequence, from the start to an end that is not before it, over a distance that is less than
-- the greatest int.
pub record IsRising (spec : SequenceSpec) : Type 0 where
  pub no_count : spec.has_count ≡ false
  pub bounded : spec.has_end ≡ true
  pub start_word : spec.start < word
  pub end_word : spec.last < word
  pub ordered : above_least spec.start ≤ above_least spec.last
  pub distance_small : above_least spec.last - above_least spec.start + 1 < half
  pub stride_positive : 0 < spec.stride
  pub stride_small : spec.stride < half

above_least-cases :
    (a : Word64)
    → ((half ≤ a) × (above_least a ≡ a - half)) ⊎ ((a < half) × (above_least a ≡ a + half))
above_least-cases a = elim (Bool-cases (is_negative a)) [
  | inl n ↦ inl (ground (arith, n), simp n)
  | inr n ↦ inr (ground (arith, n), simp n)
]

minus_above :
    (a b : Word64)
    → a < word
    → b < word
    → above_least b ≤ above_least a
    → minus a b ≡ above_least a - above_least b
unfolding minus
minus_above a b h k l = elim (above_least-cases a) [
  | inl (p, q) ↦ elim (above_least-cases b) [
    | inl (r, s) ↦ omega (arith, h, k, l, p, q, r, s)
    | inr (r, s) ↦ omega (arith, h, k, l, p, q, r, s)
  ]
  | inr (p, q) ↦ elim (above_least-cases b) [
    | inl (r, s) ↦ omega (arith, h, k, l, p, q, r, s)
    | inr (r, s) ↦ omega (arith, h, k, l, p, q, r, s)
  ]
]

plus_above :
    (a n : Word64)
    → a < word
    → above_least a + n < word
    → above_least (plus a n) ≡ above_least a + n
unfolding plus
plus_above a n h l = elim (above_least-cases a) [
  | inl (p, q) ↦ elim (above_least-cases ((a + n) % word)) [
    | inl (r, s) ↦ omega (arith, h, l, p, q, r, s)
    | inr (r, s) ↦ omega (arith, h, l, p, q, r, s)
  ]
  | inr (p, q) ↦ elim (above_least-cases ((a + n) % word)) [
    | inl (r, s) ↦ omega (arith, h, l, p, q, r, s)
    | inr (r, s) ↦ omega (arith, h, l, p, q, r, s)
  ]
]

above_least_bound : (a : Word64) → a < word → above_least a < word
above_least_bound a h = elim (above_least-cases a) [
  | inl (p, q) ↦ omega (arith, h, p, q)
  | inr (p, q) ↦ omega (arith, h, p, q)
]

plus_small : (a b : Word64) → a + b < word → plus a b ≡ a + b
unfolding plus
plus_small a b h = omega (arith, h)

times_small : (a b : Word64) → a * b < word → times a b ≡ a * b
unfolding times
times_small a b h = grind (arith, h)

quotient_small : (a b : Word64) → a < half → b < half → 0 < b → quotient a b ≡ a / b
unfolding quotient
quotient_small a b h k l =
    let non_negative : is_negative a ≡ false = ground (arith, h) in
    let positive : is_negative b ≡ false = ground (arith, k) in
    let fits : a / b ≤ a = div-le_self a b in simp (non_negative, positive) (omega (arith, h, fits))

module _ (spec : SequenceSpec) (rising : IsRising spec) where
  abbrev distance : ℕ
  distance = above_least spec.last - above_least spec.start

  complete_rising : complete_spec spec ≡ ok (record spec { count = steps spec; has_count = true })
  unfolding complete_spec
  complete_rising =
      let fewer = div-le_self distance spec.stride in
      let difference =
        minus_above spec.last spec.start rising.end_word rising.start_word rising.ordered in
      let whole =
        quotient_small distance spec.stride (omega (arith, rising.distance_small))
          rising.stride_small rising.stride_positive in
      let more =
        plus_small (distance / spec.stride) 1 (omega (arith, rising.distance_small, fewer)) in
      let moving : eqb spec.stride 0 ≡ false = ground (arith, rising.stride_positive) in
      let natural : is_negative (steps spec) ≡ false =
        ground (arith, rising.distance_small, fewer) in
      simp (moving, rising.no_count, rising.bounded, difference, whole, more, natural)

  value_at : (i : ℕ) → i < steps spec → i * spec.stride ≤ distance
  value_at i h = (le-div_iff_mul-le rising.stride_positive).0 (omega (arith, h))

  values_exact :
      (i n : ℕ)
      → i + n ≤ steps spec
      → (map above_least (sequence_values spec.start spec.stride i n)
          ≡ progression (above_least spec.start) spec.stride i n)
        × All
            (λ v.
              (above_least spec.start ≤ above_least v) × (above_least v ≤ above_least spec.last))
            (sequence_values spec.start spec.stride i n)
  unfolding sequence_values
  values_exact i zero h = (refl, tt)
  values_exact i (suc n) h =
      let inside = value_at i (omega (arith, h)) in
      let product = times_small i spec.stride (omega (arith, inside, rising.distance_small)) in
      let bound = above_least_bound spec.last rising.end_word in
      let sum =
        plus_above spec.start (i * spec.stride) rising.start_word
          (omega (arith, inside, bound, rising.ordered)) in
      let (same, within) = values_exact (suc i) n (omega (arith, h)) in
      (
        rw (product, sum, same) refl,
        (rw (product, sum) (omega arith, omega (arith, inside, rising.ordered)), within),
      )

-- A sequence that has no count and an end that is not before its start, and whose stride is positive,
-- is accepted; from the start on, each item is one stride above the one before it, none is wrapped
-- around or outside the bounds, and one more would be past the end. The start and the end may be
-- negative; the distance between them is less than the greatest Go int, and the stride at most that.
pub complete_spec_lem :
    (spec : SequenceSpec)
    → IsRising spec
    → (complete_spec spec ≡ ok (record spec { count = steps spec; has_count = true }))
      × (map above_least (sequence_values spec.start spec.stride 0 (steps spec))
          ≡ progression (above_least spec.start) spec.stride 0 (steps spec))
      × All
          (λ v. (above_least spec.start ≤ above_least v) × (above_least v ≤ above_least spec.last))
          (sequence_values spec.start spec.stride 0 (steps spec))
      × (above_least spec.last < above_least spec.start + steps spec * spec.stride)
complete_spec_lem spec rising =
    let (same, within) = values_exact spec rising 0 (steps spec) (omega arith) in
    let far = above_least spec.last - above_least spec.start in
    let past : far < far / spec.stride * spec.stride + spec.stride =
      lt-div-mul-add rising.stride_positive in
    (complete_rising spec rising, same, within, grind (arith, past, rising.ordered))
