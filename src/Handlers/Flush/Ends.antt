-- ===== src/Handlers/Flush/Ends.antt =====
-- How a flush of internal/controller/runner.go ends, and what its rounds run.
use dibra.Prelude.{
  ℕ, zero, suc, ◌+◌, ◌<◌, ◌≤◌, true, false, ◌≡◌, refl, sym, ◌∙◌, ap, Option, some, ◌⊎◌, List, [],
  ◌∷◌, ◌++◌, inl, inr, arith, ◌||◌, length, contains_num, contains_num-append, is_empty, Bool-cases,
}
use mathlib.Core.Bool.{false≢true}
use mathlib.Core.List.{append_assoc, append-nil}
use dibra.Handlers.{HandlerDefinition, Pending}
use dibra.Handlers.Flush.{Ran, Flushing, and_then, visit_all, flush_rounds, flush_handlers}
use dibra.Handlers.Flush.Indexes.{unran, unran_le, distinct_nums, due, due_later, contains_num-due}
use dibra.Handlers.Flush.Laws.{
  is_due, and_then-some, visit_failed, visit_cases, visit_all_cons, visit_all_nil, visit_all_fewer,
  visit_all-distinct, visit_all_ends, AllEnd,
}

some_eq {ℓ} : {A : Type ℓ} {a b : A} → some a ≡ some b → a ≡ b
some_eq h = cc

pub ran_of_empty :
    (pending ran : List ℕ) (j : ℕ)
    → is_empty pending ≡ true
    → (contains_num pending j || contains_num ran j) ≡ true
    → contains_num ran j ≡ true
ran_of_empty [] ran j n h = h
ran_of_empty (i ∷ is) ran j n h = cc

absurd_of : {A : Type 0} → false ≡ true → A
absurd_of h = absurd (false≢true h)

module _ {W : Type 0} (run : ℕ → HandlerDefinition → Pending → W → Option (Ran W)) where
  visit_all_failed :
      (scheduled : Pending) (i : ℕ) (ds : List HandlerDefinition) (s r : Flushing W)
      → s.failed ≡ true
      → visit_all run scheduled i ds s ≡ some r
      → r ≡ s
  visit_all_failed scheduled i [] s r h e = visit_all_nil run scheduled i s r e
  visit_all_failed scheduled i (d ∷ ds) s r h e =
      let (t, p, q) = visit_all_cons run scheduled i d ds s r e in
      let same : t ≡ s = some_eq (sym p ∙ visit_failed run scheduled i d s h) in
      visit_all_failed scheduled (i + 1) ds t r (ap (λ (x : Flushing W). x.failed) same ∙ h) q
      ∙ same

  not_due :
      (scheduled : Pending) (i m : ℕ) (s : Flushing W)
      → is_due scheduled i s ≡ false
      → due scheduled s.ran i (suc m) ≡ due scheduled s.ran (i + 1) m
  not_due scheduled i m s h = simp h

  due_first :
      (scheduled : Pending) (i m : ℕ) (s : Flushing W)
      → is_due scheduled i s ≡ true
      → (s.ran ++ i ∷ []) ++ due scheduled (s.ran ++ i ∷ []) (i + 1) m
        ≡ s.ran ++ due scheduled s.ran i (suc m)
  due_first scheduled i m s h =
      append_assoc s.ran (i ∷ []) (due scheduled (s.ran ++ i ∷ []) (i + 1) m)
      ∙ rw (due_later scheduled s.ran i (i + 1) m (omega arith), h) refl

  -- A round in which every handler's run ends and none fails runs exactly the handlers that are
  -- scheduled and have not run, in the order of the definitions.
  pub visit_all_ran :
      (scheduled : Pending) (i : ℕ) (ds : List HandlerDefinition) (s r : Flushing W)
      → visit_all run scheduled i ds s ≡ some r
      → r.failed ≡ false
      → r.ran ≡ s.ran ++ due scheduled s.ran i (length ds)
  visit_all_ran scheduled i [] s r e h =
      ap (λ (x : Flushing W). x.ran) (visit_all_nil run scheduled i s r e) ∙ sym (append-nil s.ran)
  visit_all_ran scheduled i (d ∷ ds) s r e h =
      let (t, p, q) = visit_all_cons run scheduled i d ds s r e in
      let rest = visit_all_ran scheduled (i + 1) ds t r q h in
      let n = length ds in
      let later : List ℕ → List ℕ = λ xs. xs ++ due scheduled xs (i + 1) n in
      elim (visit_cases run scheduled i d s t p) [
        | inl (a, inl f) ↦ absurd_of (
            sym h
            ∙ ap (λ (x : Flushing W). x.failed) (visit_all_failed scheduled i (d ∷ ds) s r f e)
            ∙ f)
        | inl (a, inr u) ↦
            rest
            ∙ ap (λ (x : Flushing W). later x.ran) a
            ∙ ap (λ (xs : List ℕ). s.ran ++ xs) (sym (not_due scheduled i n s u))
        | inr (y, o, _, a) ↦
            rest ∙ ap (λ (x : Flushing W). later x.ran) a ∙ due_first scheduled i n s y
      ]

  -- The state at the start of a round.
  abbrev pub cleared : Flushing W → Flushing W
  cleared s = record s { pending = [] }

  module _ (f : ℕ) (ds : List HandlerDefinition) (s : Flushing W) where
    flush_rounds_stop_failed : s.failed ≡ true → flush_rounds run (suc f) ds s ≡ some s
    unfolding flush_rounds
    flush_rounds_stop_failed e = simp e

    flush_rounds_stop : is_empty s.pending ≡ true → flush_rounds run (suc f) ds s ≡ some s
    unfolding flush_rounds
    flush_rounds_stop n = elim (Bool-cases s.failed) [ inl e ↦ simp e | inr e ↦ simp (e, n) ]

    flush_rounds_step :
        s.failed ≡ false
        → is_empty s.pending ≡ false
        → flush_rounds run (suc f) ds s
          ≡ and_then (flush_rounds run f ds) (visit_all run s.pending 0 ds (cleared s))
    unfolding flush_rounds
    flush_rounds_step e n = simp (e, n)

  -- A flush that ends with no failure is over, or makes a round that ends and goes on from there.
  pub flush_rounds_cases :
      (fuel : ℕ) (ds : List HandlerDefinition) (s r : Flushing W)
      → flush_rounds run (suc fuel) ds s ≡ some r
      → r.failed ≡ false
      → ((r ≡ s) × (is_empty s.pending ≡ true))
        ⊎ ((t : Flushing W) × (visit_all run s.pending 0 ds (cleared s) ≡ some t)
            × (flush_rounds run fuel ds t ≡ some r))
  flush_rounds_cases fuel ds s r e h = elim (Bool-cases s.failed) [
    | inl f ↦
        let q : s ≡ r = some_eq (sym (flush_rounds_stop_failed fuel ds s f) ∙ e) in
        absurd_of (sym h ∙ ap (λ (x : Flushing W). x.failed) (sym q) ∙ f)
    | inr f ↦ elim (Bool-cases (is_empty s.pending)) [
      | inl n ↦ inl (some_eq (sym e ∙ flush_rounds_stop fuel ds s n), n)
      | inr n ↦ inr (
          and_then-some (flush_rounds run fuel ds) (visit_all run s.pending 0 ds (cleared s)) r
            (sym (flush_rounds_step fuel ds s f n) ∙ e))
    ]
  ]

  pub flush_rounds_failed :
      (fuel : ℕ) (ds : List HandlerDefinition) (s r : Flushing W)
      → flush_rounds run fuel ds s ≡ some r
      → r.failed ≡ false
      → s.failed ≡ false
  flush_rounds_failed zero ds s r e f = unfold flush_rounds in absurd (cc e)
  flush_rounds_failed (suc fuel) ds s r e f = elim (Bool-cases s.failed) [
    | inl g ↦
        let q : s ≡ r = some_eq (sym (flush_rounds_stop_failed fuel ds s g) ∙ e) in
        absurd_of (sym f ∙ ap (λ (t : Flushing W). t.failed) (sym q) ∙ g)
    | inr g ↦ g
  ]

  flush_rounds-distinct :
      (fuel : ℕ) (ds : List HandlerDefinition) (s r : Flushing W)
      → flush_rounds run fuel ds s ≡ some r
      → distinct_nums s.ran ≡ true
      → distinct_nums r.ran ≡ true
  flush_rounds-distinct zero ds s r e h = unfold flush_rounds in absurd (cc e)
  flush_rounds-distinct (suc fuel) ds s r e h = elim (Bool-cases s.failed) [
    | inl f ↦
        let q : r ≡ s = some_eq (sym e ∙ flush_rounds_stop_failed fuel ds s f) in
        ap (λ (x : Flushing W). distinct_nums x.ran) q ∙ h
    | inr f ↦ elim (Bool-cases (is_empty s.pending)) [
      | inl n ↦
          let q : r ≡ s = some_eq (sym e ∙ flush_rounds_stop fuel ds s n) in
          ap (λ (x : Flushing W). distinct_nums x.ran) q ∙ h
      | inr n ↦
          let (t, p, q) =
            and_then-some (flush_rounds run fuel ds) (visit_all run s.pending 0 ds (cleared s)) r
              (sym (flush_rounds_step fuel ds s f n) ∙ e) in
          flush_rounds-distinct fuel ds t r q
            (visit_all-distinct run s.pending 0 ds (cleared s) t p h)
    ]
  ]

  flush_rounds_total :
      AllEnd run
      → (fuel : ℕ) (ds : List HandlerDefinition) (s : Flushing W)
      → unran 0 (length ds) s.ran + 2 ≤ fuel
      → (r : Flushing W) × (flush_rounds run fuel ds s ≡ some r)
  flush_rounds_total k zero ds s h = absurd (omega (arith, h))
  flush_rounds_total k (suc zero) ds s h = absurd (omega (arith, h))
  flush_rounds_total k (suc (suc f)) ds s h = elim (Bool-cases s.failed) [
    | inl e ↦ (s, flush_rounds_stop_failed (suc f) ds s e)
    | inr e ↦ elim (Bool-cases (is_empty s.pending)) [
      | inl n ↦ (s, flush_rounds_stop (suc f) ds s n)
      | inr n ↦
          let (t, p) = visit_all_ends run k s.pending 0 ds (cleared s) in
          let next = flush_rounds run (suc f) ds in
          let step = flush_rounds_step (suc f) ds s e n ∙ ap (and_then next) p in
          elim (visit_all_fewer run (length ds) s.pending 0 ds (cleared s) t (omega arith) p) [
            | inl same ↦ (
              t,
              step ∙ flush_rounds_stop f ds t (ap (λ (x : Flushing W). is_empty x.pending) same),
            )
            | inr less ↦
                let (r, q) = flush_rounds_total k (suc f) ds t (omega (arith, h, less)) in
                (r, step ∙ q)
          ]
    ]
  ]

  -- A flush ends if each run of a handler ends, whichever handlers it notifies, and runs no handler
  -- twice.
  pub flush_handlers_total :
      (ds : List HandlerDefinition) (pending : Pending) (w : W)
      → AllEnd run
      → (r : Flushing W) × (flush_handlers run ds pending w ≡ some r) × (distinct_nums r.ran ≡ true)
  unfolding flush_handlers
  flush_handlers_total ds pending w k =
      let start : Flushing W = record { failed = false; pending = pending; ran = []; world = w } in
      let (r, e) =
        flush_rounds_total k (length ds + 2) ds start (omega (arith, unran_le 0 (length ds) [])) in
      (r, e, flush_rounds-distinct (length ds + 2) ds start r e refl)

  -- After a round in which no handler failed, what was scheduled or had run has run.
  pub round_covers :
      (ds : List HandlerDefinition) (s t : Flushing W) (j : ℕ)
      → visit_all run s.pending 0 ds (cleared s) ≡ some t
      → t.failed ≡ false
      → j < length ds
      → (contains_num s.pending j || contains_num s.ran j) ≡ true
      → contains_num t.ran j ≡ true
  round_covers ds s t j e f l h =
      rw (visit_all_ran s.pending 0 ds (cleared s) t e f, contains_num-append)
        (ground (arith, contains_num-due s.pending s.ran 0 (length ds) j, h, l))
