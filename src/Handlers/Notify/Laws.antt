-- ===== src/Handlers/Notify/Laws.antt =====
-- Which handlers the notifications of internal/controller/handlers.go mark.
use dibra.Prelude.{
  ℕ, Bool, true, false, String, ◌≡◌, refl, sym, ◌∙◌, Option, none, some, not, if◌then◌else◌, List,
  [], ◌∷◌, arith, ◌||◌, ◌&&◌, Bool-cases, inl, inr, is_empty, get_elem?, contains_num, distinct,
  Result, ok,
}
use dibra.Value.{Value, Fields, null, bool, num, str, list, dict, get, truth}
use dibra.Tasks.{Task}
use dibra.Handlers.{HandlerDefinition, HandlerIndex}
use dibra.Handlers.Index.{IsIndexed}
use dibra.Handlers.Queue.{answers, definition_names, contains_num-queue}
use dibra.Handlers.Notify.{
  Notified, notifies, notify_target, notify_targets, queue_task_notifications,
}

-- The definition answers to one of the targets.
abbrev pub answers_any : List String → Option HandlerDefinition → Bool
answers_any [] d = false
answers_any (t ∷ ts) d = answers t d || answers_any ts d

abbrev pub is_true : Option Value → Bool
is_true (some (bool b)) = b
is_true _ = false

truth-is_true : (o : Option Value) → truth o ≡ is_true o
truth-is_true none = refl
truth-is_true (some null) = refl
truth-is_true (some (bool b)) = refl
truth-is_true (some (num n)) = refl
truth-is_true (some (str s)) = refl
truth-is_true (some (list items)) = refl
truth-is_true (some (dict m)) = refl

-- The result has this field, and it is true.
abbrev pub is_flagged : String → Option Fields → Bool
is_flagged key none = false
is_flagged key (some result) = is_true (get key result)

-- A change that neither failed nor was skipped.
abbrev pub is_change : Option Fields → Bool
is_change result =
    is_flagged "changed" result
    && not (is_flagged "failed" result)
    && not (is_flagged "skipped" result)

notifies-is_change : (result : Option Fields) → notifies result ≡ is_change result
unfolding notifies
notifies-is_change none = refl
notifies-is_change (some result) =
    split (get "changed" result) (get "failed" result) (get "skipped" result)
  where
    split :
        (c f s : Option Value)
        → (if truth f then false else if truth s then false else truth c)
          ≡ (is_true c && not (is_true f) && not (is_true s))
    split c f s = rw (truth-is_true c, truth-is_true f, truth-is_true s) (ground arith)

module _ {E : Type 0} (render : String → Fields → Result E String) where
  -- The raw targets render to the given ones.
  abbrev pub Renders : Fields → List String → List String → Type 0
  Renders context [] [] = Unit
  Renders context (raw ∷ raws) (t ∷ ts) = (render raw context ≡ ok t) × Renders context raws ts
  Renders context _ _ = ⊥

  no_targets :
      (context : Fields) (raws targets : List String)
      → is_empty raws ≡ true
      → Renders context raws targets
      → targets ≡ []
  no_targets context [] [] e h = refl
  no_targets context [] (t ∷ ts) e h = absurd h
  no_targets context (raw ∷ raws) targets e h = cc

  notify_targets_step :
      (index : HandlerIndex) (context : Fields) (raw : String) (raws : List String) (t : String)
      (n : Notified E)
      → render raw context ≡ ok t
      → notify_targets render index context (raw ∷ raws) n
        ≡ notify_targets render index context raws (notify_target render index t n)
  unfolding notify_targets
  notify_targets_step index context raw raws t n h = rw (h, notify_targets)

  module _ (index : HandlerIndex) (sound : IsIndexed index)
      (unequal : distinct (definition_names index.definitions) ≡ true) where
    notify_targets_lem :
        (context : Fields) (raws targets : List String) (n : Notified E) (i : ℕ)
        → Renders context raws targets
        → (contains_num (notify_targets render index context raws n).pending i
            ≡ (contains_num n.pending i || answers_any targets (get_elem? index.definitions i)))
          × ((notify_targets render index context raws n).error ≡ n.error)
    unfolding notify_targets
    notify_targets_lem context [] [] n i h = (ground arith, refl)
    notify_targets_lem context [] (t ∷ ts) n i h = absurd h
    notify_targets_lem context (raw ∷ raws) [] n i h = absurd h
    notify_targets_lem context (raw ∷ raws) (t ∷ ts) n i h =
        let (e, q) = notify_targets_lem context raws ts (notify_target render index t n) i h.1 in
        rw (notify_targets_step index context raw raws t n h.0) (
          e
              ∙ unfold notify_target in
                ground (arith, contains_num-queue index t n.pending i sound unequal),
          q ∙ unfold notify_target in refl,
        )

    -- A task whose targets render marks, besides what is pending, the handlers that answer to one of
    -- them, if its result has "changed" true and neither "failed" nor "skipped" true, and else none; and
    -- no error comes of it. The index is well formed, with handlers of different names.
    pub queue_task_notifications_lem :
        (task : Task) (result : Option Fields) (context : Fields) (targets : List String)
        (n : Notified E) (i : ℕ)
        → Renders context task.notify targets
        → (contains_num (queue_task_notifications render task result context index n).pending i ≡ (
            contains_num n.pending i
            || (is_change result && answers_any targets (get_elem? index.definitions i))))
          × ((queue_task_notifications render task result context index n).error ≡ n.error)
    unfolding queue_task_notifications
    queue_task_notifications_lem task result context targets n i h =
        elim (Bool-cases (is_empty task.notify)) [
          | inl e ↦ rw e (rw (no_targets context task.notify targets e h) (ground arith, refl))
          | inr e ↦ elim (Bool-cases (notifies result)) [
            | inl y ↦
                rw (e, y, sym (notifies-is_change result) ∙ y)
                  (notify_targets_lem context task.notify targets n i h)
            | inr y ↦ rw (e, y, sym (notifies-is_change result) ∙ y) (ground arith, refl)
          ]
        ]
