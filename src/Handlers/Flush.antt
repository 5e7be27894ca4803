-- ===== src/Handlers/Flush.antt =====
-- `flushHandlers` in internal/controller/runner.go: the loop that runs the pending handlers. What
-- running one handler does is a parameter here, an operation on the rest of the state that may notify
-- handlers, may fail and may not end: a handler's queue of tasks grows where a task includes a file.
pub mod Indexes
pub mod Laws
pub mod Ends
pub mod Covers
use dibra.Prelude.{
  ℕ, zero, suc, ◌+◌, Bool, true, false, Option, none, some, List, [], ◌∷◌, ◌++◌, if◌then◌else◌,
  length, contains_num, is_empty, not, ◌&&◌,
}
use dibra.Handlers.{HandlerDefinition, Pending}

-- What one handler's run leaves: whether it failed, the pending set and the world.
pub record Ran (W : Type 0) : Type 0 where
  pub failed : Bool
  pub pending : Pending
  pub world : W

-- `ran` holds the indexes of the handlers in the order in which they were run.
pub record Flushing (W : Type 0) : Type 0 where
  pub failed : Bool
  pub pending : Pending
  pub ran : List ℕ
  pub world : W

abbrev pub and_then : {A : Type 0} → (A → Option A) → Option A → Option A
and_then next none = none
and_then next (some a) = next a

-- ran[definitionIndex] = struct{}{}, and what the handler's run leaves.
abbrev pub handler_ran : {W : Type 0} → ℕ → Flushing W → Ran W → Flushing W
handler_ran i s r = record {
  failed = r.failed;
  pending = r.pending;
  ran = s.ran ++ i ∷ [];
  world = r.world;
}

abbrev pub after_handler : {W : Type 0} → ℕ → Flushing W → Option (Ran W) → Option (Flushing W)
after_handler i s none = none
after_handler i s (some r) = some (handler_ran i s r)

-- `run` is `none` where the handler's run does not end; then neither does what runs it.
module _ {W : Type 0} (run : ℕ → HandlerDefinition → Pending → W → Option (Ran W)) where
  unfoldable pub run_definition : ℕ → HandlerDefinition → Flushing W → Option (Flushing W)
  run_definition i d s = after_handler i s (run i d s.pending s.world)

  -- The tests of the inner loop on one definition; after a failure the function has returned.
  unfoldable pub visit : Pending → ℕ → HandlerDefinition → Flushing W → Option (Flushing W)
  unfolding run_definition
  visit scheduled i d s =
      if s.failed
      then some s
      else if contains_num scheduled i
      then (if contains_num s.ran i then some s else run_definition i d s)
      else some s

  -- The inner loop, over the definitions in their order.
  unfoldable pub visit_all : Pending → ℕ → List HandlerDefinition → Flushing W → Option (Flushing W)
  unfolding visit
  visit_all scheduled i [] s = some s
  visit_all scheduled i (d ∷ ds) s =
      and_then (visit_all scheduled (i + 1) ds) (visit scheduled i d s)

  -- The outer loop, on fuel, which may also run out.
  unfoldable pub flush_rounds : ℕ → List HandlerDefinition → Flushing W → Option (Flushing W)
  unfolding visit_all
  flush_rounds zero ds s = none
  flush_rounds (suc fuel) ds s =
      if s.failed
      then some s
      else if is_empty s.pending
      then some s
      else and_then (flush_rounds fuel ds) (visit_all s.pending 0 ds (record s { pending = [] }))

  -- flushHandlers()
  unfoldable pub flush_handlers : List HandlerDefinition → Pending → W → Option (Flushing W)
  unfolding flush_rounds
  flush_handlers ds pending w =
      flush_rounds (length ds + 2) ds
        (record { failed = false; pending = pending; ran = []; world = w })
