-- ===== src/Handlers/Flush/Indexes.antt =====
-- The lists of indexes that a flush of internal/controller/runner.go goes through: the handlers that
-- have run, those that have not, and those that are due.
use dibra.Prelude.{
  ℕ, zero, suc, ◌+◌, ◌<◌, ◌≤◌, Bool, true, false, ◌≡◌, refl, List, [], ◌∷◌, ◌++◌, inl, inr, arith,
  ◌&&◌, not, if◌then◌else◌, eqb, ltb, leb, contains_num, contains_num-append, Bool-cases,
}
use dibra.Handlers.{Pending}

-- How many of the indexes k, …, k + m - 1 have not run.
abbrev pub unran : ℕ → ℕ → List ℕ → ℕ
unran k zero ran = 0
unran k (suc m) ran = (if contains_num ran k then 0 else 1) + unran (k + 1) m ran

unran_more : (k m i : ℕ) (ran : List ℕ) → unran k m (ran ++ i ∷ []) ≤ unran k m ran
unran_more k zero i ran = omega arith
unran_more k (suc m) i ran =
    ground (arith, unran_more (k + 1) m i ran, contains_num-append ran (i ∷ []) k)

pub unran_less :
    (k m i : ℕ) (ran : List ℕ)
    → k ≤ i
    → i < k + m
    → contains_num ran i ≡ false
    → unran k m (ran ++ i ∷ []) < unran k m ran
unran_less k zero i ran h l e = absurd (omega arith)
unran_less k (suc m) i ran h l e = ground (
  arith,
  unran_less (k + 1) m i ran,
  unran_more (k + 1) m i ran,
  contains_num-append ran (i ∷ []) k,
)

pub unran_le : (k m : ℕ) (ran : List ℕ) → unran k m ran ≤ m
unran_le k zero ran = omega arith
unran_le k (suc m) ran = ground (arith, unran_le (k + 1) m ran)

-- No index twice.
abbrev pub distinct_nums : List ℕ → Bool
distinct_nums [] = true
distinct_nums (i ∷ is) = not (contains_num is i) && distinct_nums is

pub distinct_nums-append :
    (is : List ℕ) (i : ℕ)
    → distinct_nums is ≡ true
    → contains_num is i ≡ false
    → distinct_nums (is ++ i ∷ []) ≡ true
distinct_nums-append [] i h e = refl
distinct_nums-append (j ∷ js) i h e =
    ground (arith, distinct_nums-append js i, contains_num-append js (i ∷ []) j)

-- The indexes k, …, k + m - 1 that are scheduled and have not run, in order.
abbrev pub due : Pending → List ℕ → ℕ → ℕ → List ℕ
due scheduled ran k zero = []
due scheduled ran k (suc m) =
    let rest = due scheduled ran (k + 1) m in
    if contains_num scheduled k && not (contains_num ran k) then k ∷ rest else rest

pub due_later :
    (scheduled : Pending) (ran : List ℕ) (i k m : ℕ)
    → i < k
    → due scheduled (ran ++ i ∷ []) k m ≡ due scheduled ran k m
due_later scheduled ran i k zero h = refl
due_later scheduled ran i k (suc m) h =
    ground (arith, due_later scheduled ran i (k + 1) m, contains_num-append ran (i ∷ []) k)

pub contains_num-due :
    (scheduled : Pending) (ran : List ℕ) (k m j : ℕ)
    → contains_num (due scheduled ran k m) j
      ≡ (leb k j && ltb j (k + m) && contains_num scheduled j && not (contains_num ran j))
contains_num-due scheduled ran k zero j = ground arith
contains_num-due scheduled ran k (suc m) j = elim (Bool-cases (eqb k j)) [
  | inl e ↦
      let q : k ≡ j = ground arith in
      rw (← q) (ground (arith, contains_num-due scheduled ran (k + 1) m k))
  | inr e ↦ ground (arith, contains_num-due scheduled ran (k + 1) m j)
]
