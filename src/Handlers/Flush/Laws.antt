-- ===== src/Handlers/Flush/Laws.antt =====
-- `flushHandlers` of internal/controller/runner.go ends where each handler's run ends, and runs no
-- handler twice.
use dibra.Prelude.{
  ℕ, ◌+◌, ◌<◌, ◌≤◌, Bool, true, false, ◌≡◌, refl, sym, ◌∙◌, ap, Option, none, some, List, [], ◌∷◌,
  ◌⊎◌, inl, inr, arith, ◌&&◌, not, length, contains_num, Bool-cases,
}
use mathlib.Core.Path.{subst}
use dibra.Handlers.{HandlerDefinition, Pending}
use dibra.Handlers.Flush.Indexes.{unran, unran_less, distinct_nums, distinct_nums-append}
use dibra.Handlers.Flush.{
  Ran, Flushing, and_then, handler_ran, after_handler, run_definition, visit, visit_all,
}

-- A scheduled handler that has not run.
abbrev pub is_due : {W : Type 0} → Pending → ℕ → Flushing W → Bool
is_due scheduled i s = contains_num scheduled i && not (contains_num s.ran i)

pub and_then-some :
    {A : Type 0} (next : A → Option A) (o : Option A) (b : A)
    → and_then next o ≡ some b
    → (a : A) × (o ≡ some a) × (next a ≡ some b)
and_then-some next none b h = cc
and_then-some next (some a) b h = (a, refl, h)

module _ {W : Type 0} (run : ℕ → HandlerDefinition → Pending → W → Option (Ran W)) where
  -- A visit that changes nothing, and one that runs the handler.
  abbrev pub Passed : Pending → ℕ → Flushing W → Flushing W → Type 0
  Passed scheduled i s t = (t ≡ s) × ((s.failed ≡ true) ⊎ (is_due scheduled i s ≡ false))

  abbrev pub RunOnce : Pending → ℕ → HandlerDefinition → Flushing W → Flushing W → Type 0
  RunOnce scheduled i d s t =
      (is_due scheduled i s ≡ true)
      × (r : Ran W) × (run i d s.pending s.world ≡ some r)
      × (t ≡ handler_ran i s r)

  after_handler-some :
      (i : ℕ) (s t : Flushing W) (o : Option (Ran W))
      → after_handler i s o ≡ some t
      → (r : Ran W) × (o ≡ some r) × (t ≡ handler_ran i s r)
  after_handler-some i s t none h = cc
  after_handler-some i s t (some r) h = (r, refl, cc)

  some_inj : {A : Type 0} {a b : A} → ◌≡◌ {A = Option A} (some a) (some b) → b ≡ a
  some_inj h = cc

  module _ (scheduled : Pending) (i : ℕ) (d : HandlerDefinition) (s : Flushing W) where
    pub visit_failed : s.failed ≡ true → visit run scheduled i d s ≡ some s
    unfolding visit
    visit_failed f = simp f

    visit_unscheduled :
        s.failed ≡ false → contains_num scheduled i ≡ false → visit run scheduled i d s ≡ some s
    unfolding visit
    visit_unscheduled f n = simp (f, n)

    visit_repeated :
        s.failed ≡ false
        → contains_num scheduled i ≡ true
        → contains_num s.ran i ≡ true
        → visit run scheduled i d s ≡ some s
    unfolding visit
    visit_repeated f y r = simp (f, y, r)

    visit_runs :
        s.failed ≡ false
        → contains_num scheduled i ≡ true
        → contains_num s.ran i ≡ false
        → visit run scheduled i d s ≡ after_handler i s (run i d s.pending s.world)
    unfolding visit run_definition
    visit_runs f y r = simp (f, y, r)

  pub visit_cases :
      (scheduled : Pending) (i : ℕ) (d : HandlerDefinition) (s t : Flushing W)
      → visit run scheduled i d s ≡ some t
      → Passed scheduled i s t ⊎ RunOnce scheduled i d s t
  visit_cases scheduled i d s t h = elim (Bool-cases s.failed) [
    | inl f ↦ inl (some_inj (sym (visit_failed scheduled i d s f) ∙ h), inl f)
    | inr f ↦ elim (Bool-cases (contains_num scheduled i)) [
      | inr n ↦
          inl (some_inj (sym (visit_unscheduled scheduled i d s f n) ∙ h), inr (ground (arith, n)))
      | inl y ↦ elim (Bool-cases (contains_num s.ran i)) [
        | inl r ↦
            inl (
              some_inj (sym (visit_repeated scheduled i d s f y r) ∙ h),
              inr (ground (arith, y, r)),
            )
        | inr r ↦
            let (o, p, q) =
              after_handler-some i s t (run i d s.pending s.world)
                (sym (visit_runs scheduled i d s f y r) ∙ h) in
            inr (ground (arith, y, r), o, p, q)
      ]
    ]
  ]

  pub visit_all_cons :
      (scheduled : Pending) (i : ℕ) (d : HandlerDefinition) (ds : List HandlerDefinition)
      (s r : Flushing W)
      → visit_all run scheduled i (d ∷ ds) s ≡ some r
      → (t : Flushing W) × (visit run scheduled i d s ≡ some t)
        × (visit_all run scheduled (i + 1) ds t ≡ some r)
  unfolding visit_all
  visit_all_cons scheduled i d ds s r h =
      and_then-some (visit_all run scheduled (i + 1) ds) (visit run scheduled i d s) r h

  pub visit_all_nil :
      (scheduled : Pending) (i : ℕ) (s r : Flushing W)
      → visit_all run scheduled i [] s ≡ some r
      → r ≡ s
  unfolding visit_all
  visit_all_nil scheduled i s r h = some_inj h

  visit_fewer :
      (n : ℕ) (scheduled : Pending) (i : ℕ) (d : HandlerDefinition) (s t : Flushing W)
      → i < n
      → visit run scheduled i d s ≡ some t
      → (t ≡ s) ⊎ (unran 0 n t.ran < unran 0 n s.ran)
  visit_fewer n scheduled i d s t h e = elim (visit_cases scheduled i d s t e) [
    | inl (q, _) ↦ inl q
    | inr (y, r, _, q) ↦ inr (
        subst (λ (x : Flushing W). unran 0 n x.ran < unran 0 n s.ran) (sym q)
          (unran_less 0 n i s.ran (omega arith) (omega (arith, h)) (ground (arith, y))))
  ]

  visit-distinct :
      (scheduled : Pending) (i : ℕ) (d : HandlerDefinition) (s t : Flushing W)
      → visit run scheduled i d s ≡ some t
      → distinct_nums s.ran ≡ true
      → distinct_nums t.ran ≡ true
  visit-distinct scheduled i d s t e h = elim (visit_cases scheduled i d s t e) [
    | inl (q, _) ↦ ap (λ (x : Flushing W). distinct_nums x.ran) q ∙ h
    | inr (y, r, _, q) ↦
        ap (λ (x : Flushing W). distinct_nums x.ran) q
        ∙ distinct_nums-append s.ran i h (ground (arith, y))
  ]

  fewer_trans :
      (n : ℕ) (s t r : Flushing W)
      → (t ≡ s) ⊎ (unran 0 n t.ran < unran 0 n s.ran)
      → (r ≡ t) ⊎ (unran 0 n r.ran < unran 0 n t.ran)
      → (r ≡ s) ⊎ (unran 0 n r.ran < unran 0 n s.ran)
  fewer_trans n s t r (inl a) (inl b) = inl (b ∙ a)
  fewer_trans n s t r (inl a) (inr b) =
      inr (subst (λ (x : Flushing W). unran 0 n r.ran < unran 0 n x.ran) a b)
  fewer_trans n s t r (inr a) (inl b) =
      inr (subst (λ (x : Flushing W). unran 0 n x.ran < unran 0 n s.ran) (sym b) a)
  fewer_trans n s t r (inr a) (inr b) = inr (omega (arith, a, b))

  -- A round that changes anything leaves fewer handlers that have not run.
  pub visit_all_fewer :
      (n : ℕ) (scheduled : Pending) (i : ℕ) (ds : List HandlerDefinition) (s r : Flushing W)
      → i + length ds ≤ n
      → visit_all run scheduled i ds s ≡ some r
      → (r ≡ s) ⊎ (unran 0 n r.ran < unran 0 n s.ran)
  visit_all_fewer n scheduled i [] s r h e = inl (visit_all_nil scheduled i s r e)
  visit_all_fewer n scheduled i (d ∷ ds) s r h e =
      let (t, p, q) = visit_all_cons scheduled i d ds s r e in
      fewer_trans n s t r (visit_fewer n scheduled i d s t (omega (arith, h)) p)
        (visit_all_fewer n scheduled (i + 1) ds t r (omega (arith, h)) q)

  pub visit_all-distinct :
      (scheduled : Pending) (i : ℕ) (ds : List HandlerDefinition) (s r : Flushing W)
      → visit_all run scheduled i ds s ≡ some r
      → distinct_nums s.ran ≡ true
      → distinct_nums r.ran ≡ true
  visit_all-distinct scheduled i [] s r e h =
      ap (λ (x : Flushing W). distinct_nums x.ran) (visit_all_nil scheduled i s r e) ∙ h
  visit_all-distinct scheduled i (d ∷ ds) s r e h =
      let (t, p, q) = visit_all_cons scheduled i d ds s r e in
      visit_all-distinct scheduled (i + 1) ds t r q (visit-distinct scheduled i d s t p h)

  -- Every run of a handler ends.
  abbrev pub AllEnd : Type 0
  AllEnd =
      (i : ℕ) (d : HandlerDefinition) (p : Pending) (w : W) → (r : Ran W) × (run i d p w ≡ some r)

  module _ (all_end : AllEnd) where
    visit_ends :
        (scheduled : Pending) (i : ℕ) (d : HandlerDefinition) (s : Flushing W)
        → (t : Flushing W) × (visit run scheduled i d s ≡ some t)
    unfolding visit run_definition
    visit_ends scheduled i d s =
        let (r, q) = all_end i d s.pending s.world in
        elim (Bool-cases s.failed) [
          | inl f ↦ (s, simp f)
          | inr f ↦ elim (Bool-cases (contains_num scheduled i)) [
            | inr n ↦ (s, simp (f, n))
            | inl y ↦ elim (Bool-cases (contains_num s.ran i)) [
              | inl e ↦ (s, simp (f, y, e))
              | inr e ↦ (handler_ran i s r, simp (f, y, e, q))
            ]
          ]
        ]

    pub visit_all_ends :
        (scheduled : Pending) (i : ℕ) (ds : List HandlerDefinition) (s : Flushing W)
        → (r : Flushing W) × (visit_all run scheduled i ds s ≡ some r)
    unfolding visit_all
    visit_all_ends scheduled i [] s = (s, refl)
    visit_all_ends scheduled i (d ∷ ds) s =
        let (t, p) = visit_ends scheduled i d s in
        let (r, q) = visit_all_ends scheduled (i + 1) ds t in
        (r, ap (and_then (visit_all run scheduled (i + 1) ds)) p ∙ q)
