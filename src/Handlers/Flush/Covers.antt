-- ===== src/Handlers/Flush/Covers.antt =====
-- What a flush of internal/controller/runner.go has run when it ends: a log beside the world notes
-- each notification that the runs of the handlers leave.
use dibra.Prelude.{
  ℕ, zero, suc, ◌<◌, Bool, true, false, ◌≡◌, refl, sym, ◌∙◌, ap, Option, none, some, List, [], ◌∷◌,
  ◌++◌, inl, inr, arith, ◌||◌, length, contains_num, contains_num-append, is_empty, ◌+◌, Bool-cases,
}
use mathlib.Core.Path.{subst}
use dibra.Handlers.{HandlerDefinition, Pending}
use dibra.Handlers.Flush.{
  Ran, Flushing, handler_ran, visit, visit_all, flush_rounds, flush_handlers,
}
use dibra.Handlers.Flush.Laws.{visit_cases, visit_all_cons, visit_all_nil}
use dibra.Handlers.Flush.Ends.{
  cleared, flush_rounds_cases, flush_rounds_failed, ran_of_empty, round_covers,
}

abbrev note : {W : Type 0} → List ℕ → Option (Ran W) → Option (Ran (W × List ℕ))
note log none = none
note log (some r) =
    some (record { failed = r.failed; pending = r.pending; world = (r.world, log ++ r.pending) })

abbrev pub Run : Type 0 → Type 0
Run W = ℕ → HandlerDefinition → Pending → W → Option (Ran W)

-- The same runs, with a log of the handlers that are pending after each of them.
abbrev pub logged : {W : Type 0} → Run W → Run (W × List ℕ)
logged run i d pending w = note w.1 (run i d pending w.0)

-- A run may add pending handlers and takes none away, as `queueTaskNotifications` does.
abbrev pub Keeps : {W : Type 0} → Run W → Type 0
Keeps {W} run =
    (i : ℕ) (d : HandlerDefinition) (pending : Pending) (w : W) (r : Ran W) (j : ℕ)
    → run i d pending w ≡ some r
    → contains_num pending j ≡ true
    → contains_num r.pending j ≡ true

some_same : {A : Type 0} {a b : A} → ◌≡◌ {A = Option A} (some a) (some b) → b ≡ a
some_same h = cc

note-some :
    {W : Type 0} (log : List ℕ) (o : Option (Ran W)) (r : Ran (W × List ℕ))
    → note log o ≡ some r
    → (q : Ran W) × (o ≡ some q) × (r.pending ≡ q.pending) × (r.world.1 ≡ log ++ q.pending)
note-some log none r h = cc
note-some {W} log (some q) r h =
    let e = some_same h in
    (
      q,
      refl,
      ap (λ (x : Ran (W × List ℕ)). x.pending) e,
      ap (λ (x : Ran (W × List ℕ)). x.world.1) e,
    )

kept_step :
    (f l s p r n z : Bool)
    → ((f || l) ≡ true → (s || (p || r)) ≡ true)
    → (p ≡ true → n ≡ true)
    → (f || (l || n)) ≡ true
    → (s || (n || (r || z))) ≡ true
kept_step f l true p r n z h m k = refl
kept_step f l false p r true z h m k = refl
kept_step f l false true r false z h m k = absurd (cc (m refl))
kept_step true l false false r false z h m k = ground (arith, h refl)
kept_step false true false false r false z h m k = ground (arith, h refl)
kept_step false false false false r false z h m k = absurd (cc k)

module _ {W : Type 0} (run : Run W) (keeps : Keeps run) (first : Pending) (j : ℕ) where
  -- Pending at the start of the flush, or notified since.
  abbrev known : Flushing (W × List ℕ) → Bool
  known s = contains_num first j || contains_num s.world.1 j

  -- Handler j, if known, is scheduled in this round, pending or has run.
  abbrev Kept : Pending → Flushing (W × List ℕ) → Type 0
  Kept scheduled s =
      known s ≡ true
      → (contains_num scheduled j || (contains_num s.pending j || contains_num s.ran j)) ≡ true

  run-Kept :
      (scheduled : Pending) (i : ℕ) (d : HandlerDefinition) (s : Flushing (W × List ℕ))
      (r : Ran (W × List ℕ))
      → logged run i d s.pending s.world ≡ some r
      → Kept scheduled s
      → Kept scheduled (handler_ran i s r)
  run-Kept scheduled i d s r e h k =
      let (q, o, p, l) = note-some s.world.1 (run i d s.pending s.world.0) r e in
      rw (p, contains_num-append s.ran (i ∷ []) j)
        (kept_step (contains_num first j) (contains_num s.world.1 j) (contains_num scheduled j)
          (contains_num s.pending j) (contains_num s.ran j) (contains_num q.pending j)
          (contains_num (i ∷ []) j) h (keeps i d s.pending s.world.0 q j o)
          (ap (λ b. contains_num first j || b) (sym (contains_num-append s.world.1 q.pending j))
            ∙ ap (λ xs. contains_num first j || contains_num xs j) (sym l)
            ∙ k))

  visit-Kept :
      (scheduled : Pending) (i : ℕ) (d : HandlerDefinition) (s t : Flushing (W × List ℕ))
      → visit (logged run) scheduled i d s ≡ some t
      → Kept scheduled s
      → Kept scheduled t
  visit-Kept scheduled i d s t e h = elim (visit_cases (logged run) scheduled i d s t e) [
    | inl (q, _) ↦ subst (Kept scheduled) (sym q) h
    | inr (_, r, o, q) ↦ subst (Kept scheduled) (sym q) (run-Kept scheduled i d s r o h)
  ]

  visit_all-Kept :
      (scheduled : Pending) (i : ℕ) (ds : List HandlerDefinition) (s t : Flushing (W × List ℕ))
      → visit_all (logged run) scheduled i ds s ≡ some t
      → Kept scheduled s
      → Kept scheduled t
  visit_all-Kept scheduled i [] s t e h =
      subst (Kept scheduled) (sym (visit_all_nil (logged run) scheduled i s t e)) h
  visit_all-Kept scheduled i (d ∷ ds) s t e h =
      let (u, p, q) = visit_all_cons (logged run) scheduled i d ds s t e in
      visit_all-Kept scheduled (i + 1) ds u t q (visit-Kept scheduled i d s u p h)

  -- Handler j, if known, is pending or has run.
  abbrev Covered : Flushing (W × List ℕ) → Type 0
  Covered s = known s ≡ true → (contains_num s.pending j || contains_num s.ran j) ≡ true

  round-Covered :
      (ds : List HandlerDefinition) (s t : Flushing (W × List ℕ))
      → visit_all (logged run) s.pending 0 ds (cleared (logged run) s) ≡ some t
      → t.failed ≡ false
      → j < length ds
      → Covered s
      → Covered t
  round-Covered ds s t e f l h k =
      let covers = round_covers (logged run) ds s t j e f l in
      let kept = visit_all-Kept s.pending 0 ds (cleared (logged run) s) t e (λ x. h x) k in
      elim (Bool-cases (contains_num t.pending j)) [
        | inl y ↦ ground (arith, y)
        | inr n ↦ elim (Bool-cases (contains_num s.pending j)) [
          | inl y ↦ ground (arith, covers (ground (arith, y)))
          | inr u ↦ ground (arith, kept, n, u)
        ]
      ]

  flush_rounds-Covered :
      (fuel : ℕ) (ds : List HandlerDefinition) (s r : Flushing (W × List ℕ))
      → flush_rounds (logged run) fuel ds s ≡ some r
      → r.failed ≡ false
      → j < length ds
      → Covered s
      → Covered r × (is_empty r.pending ≡ true)
  flush_rounds-Covered zero ds s r e f l h = unfold flush_rounds in absurd (cc e)
  flush_rounds-Covered (suc fuel) ds s r e f l h =
      elim (flush_rounds_cases (logged run) fuel ds s r e f) [
        | inl (q, n) ↦
            (subst Covered (sym q) h, ap (λ (x : Flushing (W × List ℕ)). is_empty x.pending) q ∙ n)
        | inr (t, p, q) ↦
            flush_rounds-Covered fuel ds t r q f l
              (round-Covered ds s t p (flush_rounds_failed (logged run) fuel ds t r q f) l h)
      ]

  -- When a flush has ended with no failure, each handler that was pending at its start, and each that
  -- was pending after any of the runs, has run, and none is left pending; a run may add pending
  -- handlers and takes none away.
  pub flush_handlers_covers :
      (ds : List HandlerDefinition) (w : W) (r : Flushing (W × List ℕ))
      → flush_handlers (logged run) ds first (w, []) ≡ some r
      → r.failed ≡ false
      → j < length ds
      → (contains_num first j || contains_num r.world.1 j) ≡ true
      → (contains_num r.ran j ≡ true) × (is_empty r.pending ≡ true)
  unfolding flush_handlers
  flush_handlers_covers ds w r e f l k =
      let start : Flushing (W × List ℕ) = record {
        failed = false;
        pending = first;
        ran = [];
        world = (w, []);
      } in
      let (covered, n) = flush_rounds-Covered (length ds + 2) ds start r e f l (λ x. x) in
      (ran_of_empty r.pending r.ran j n (covered k), n)
