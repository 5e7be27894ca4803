-- ===== src/Handlers/Notify.antt =====
-- internal/controller/handlers.go: `applyChangedWhen`, `queueTaskNotifications` and
-- `queueNotificationsForChangedLoop`. A result is `none` where the source has a nil map.
pub mod Laws
use dibra.Prelude.{
  Bool, true, false, String, Option, none, some, List, [], ◌∷◌, ◌++◌, ◌==◌, if◌then◌else◌, is_empty,
  not, ◌||◌, ◌&&◌, Result, ok, err,
}
use dibra.Value.{Value, Fields, bool, dict, end, field, get, put, copy_onto, truth}
use dibra.Tasks.{Task}
use dibra.Handlers.{HandlerIndex, Pending, queue}

-- The context of a changed_when: with the result under the name that the task registers.
unfoldable pub changed_context : Task → Fields → Fields → Fields
changed_context task result context =
    if task.register == "" then context else put task.register (dict result) (copy_onto context end)

module _ {E : Type 0} (evaluate_when : List Value → Fields → Result E Bool) where
  unfoldable pub changed_by : Fields → Result E Bool → Result E (Option Fields)
  changed_by result (ok changed) = ok (some (put "changed" (bool changed) result))
  changed_by result (err e) = err e

  -- The result with its "changed" field decided, or the error; the result is then as it was.
  unfoldable pub apply_changed_when : Task → Option Fields → Fields → Result E (Option Fields)
  unfolding changed_by changed_context
  apply_changed_when task none context = ok none
  apply_changed_when task (some result) context =
      if is_empty task.changed_when
      then ok (some result)
      else if truth (get "skipped" result)
      then ok (some result)
      else changed_by result (evaluate_when task.changed_when (changed_context task result context))

-- What notifying leaves: the pending set, the targets of which the user was warned, and the error
-- at which it stopped, if any, with the target that did not render.
pub record Notified (E : Type 0) : Type 0 where
  pub pending : Pending
  pub warned : List String
  pub error : Option (String × E)

-- Whether a result notifies: changed, and neither failed nor skipped.
unfoldable pub notifies : Option Fields → Bool
notifies none = false
notifies (some result) =
    if truth (get "failed" result)
    then false
    else if truth (get "skipped" result)
    then false
    else truth (get "changed" result)

module _ {E : Type 0} (render : String → Fields → Result E String) where
  -- One target that rendered: the call of `queue`, and the warning.
  unfoldable pub notify_target : HandlerIndex → String → Notified E → Notified E
  notify_target index target n =
      let (resolved, pending) = queue index target n.pending in
      record n {
        pending = pending;
        warned = if resolved then n.warned else n.warned ++ target ∷ [];
      }

  -- The loop over task.Notify, which stops at a target that does not render.
  unfoldable pub notify_targets : HandlerIndex → Fields → List String → Notified E → Notified E
  notify_targets index context [] n = n
  notify_targets index context (raw ∷ targets) n = elim (render raw context) [
    | ok target ↦ notify_targets index context targets (notify_target index target n)
    | err e ↦ record n { error = some (raw, e) }
  ]

  unfoldable pub queue_task_notifications :
      Task → Option Fields → Fields → HandlerIndex → Notified E → Notified E
  queue_task_notifications task result context index n =
      if is_empty task.notify
      then n
      else if notifies result
      then notify_targets index context task.notify n
      else n

  abbrev changed_result : Option Fields
  changed_result = some (field "changed" (bool true) (field "failed" (bool false) end))

  -- The iterations of a loop, of which the first error ends the function.
  unfoldable pub notify_iterations : Task → List Fields → HandlerIndex → Notified E → Notified E
  notify_iterations task [] index n = n
  notify_iterations task (context ∷ contexts) index n =
      let next = queue_task_notifications task changed_result context index n in
      elim next.error [ none ↦ notify_iterations task contexts index next | some e ↦ next ]

  -- The source clears the loop fields of the task, which the notifications do not read.
  unfoldable pub queue_notifications_for_changed_loop :
      Task → List Fields → Bool → Bool → HandlerIndex → Notified E → Notified E
  queue_notifications_for_changed_loop task contexts loop_changed loop_failed index n =
      if not loop_changed || loop_failed || is_empty task.notify
      then n
      else notify_iterations
          (record task {
            loop = none;
            with_items = none;
            with_list = none;
            with_dict = none;
            with_sequence = none;
          })
          contexts index n
