-- ===== src/Loops/Resolve/Sources.antt =====
-- internal/controller/runner.go: what a resolved loop has been checked for.
use dibra.Prelude.{
  ℕ, ◌+◌, ◌≤◌, length-append, ◌++◌, Bool, true, String, Option, none, some, List, [], ◌∷◌, ◌==◌,
  ◌||◌, ◌&&◌, ◌≡◌, refl, sym, ap, ◌∙◌, arith, length, Result, ok, err, ◌>>=◌, >>=-eq-ok, ok_inj,
}
use dibra.Value.{Value, Fields}
use dibra.Tasks.{Task}
use dibra.Loops.{LoopSpec}
use dibra.Loops.Sequence.{TextTools}
use dibra.Loops.Resolve.{
  LoopSource, LoopControl, LoopError, Renderer, loop_sources, source_of, is_var_name, read_control,
  check_names, items_of, resolve_source, only_source, resolve_loop_spec, loop, with_items,
  with_list, with_dict, with_sequence,
}

-- A name for the item that is one of a variable, and none for the index, or one of a variable.
abbrev pub has_names : LoopSpec → Bool
has_names spec = is_var_name spec.loop_var && (spec.index_var == "" || is_var_name spec.index_var)

abbrev pub present : Option Value → ℕ
present none = 0
present (some v) = 1

-- How many loop keywords the task has.
abbrev pub keyword_count : Task → ℕ
keyword_count task =
    present task.loop
    + present task.with_items
    + present task.with_list
    + present task.with_dict
    + present task.with_sequence

-- What a result says of the task: no loop keyword for no loop, exactly one for a loop with valid
-- names, and some for an error.
abbrev pub Sound : {E : Type 0} → Task → Result (LoopError E) (Option (LoopSpec × String)) → Type 0
Sound task (ok none) = keyword_count task ≡ 0
Sound task (ok (some (spec, label))) = (keyword_count task ≡ 1) × (has_names spec ≡ true)
Sound task (err e) = 1 ≤ keyword_count task

length-source_of :
    (source : LoopSource) (o : Option Value) → length (source_of source o) ≡ present o
length-source_of source none = refl
length-source_of source (some v) = refl

length-loop_sources : (task : Task) → length (loop_sources task) ≡ keyword_count task
unfolding loop_sources
length-loop_sources task =
    let a = source_of loop task.loop in
    let b = source_of with_items task.with_items in
    let c = source_of with_list task.with_list in
    let d = source_of with_dict task.with_dict in
    let e = source_of with_sequence task.with_sequence in
    omega (
      arith,
      length-append a (b ++ (c ++ (d ++ e))),
      length-append b (c ++ (d ++ e)),
      length-append c (d ++ e),
      length-append d e,
      length-source_of loop task.loop,
      length-source_of with_items task.with_items,
      length-source_of with_list task.with_list,
      length-source_of with_dict task.with_dict,
      length-source_of with_sequence task.with_sequence,
    )

module _ {E : Type 0} (renderer : Renderer E) (tools : TextTools) where
  check_names-ok :
      (names : LoopControl)
      → check_names renderer tools names ≡ ok tt
      → (is_var_name names.loop_var ≡ true)
        × ((names.index_var == "" || is_var_name names.index_var) ≡ true)
  unfolding check_names
  check_names-ok names h = (ground (arith, h), ground (arith, h))

  resolve_source-names :
      (source : LoopSource × Value) (control : Option LoopControl) (context : Fields)
      (r : LoopSpec × String)
      → resolve_source renderer tools source control context ≡ ok r
      → has_names r.0 ≡ true
  unfolding resolve_source
  resolve_source-names source control context r h =
      let (names, p, h1) = >>=-eq-ok (read_control renderer tools control context) _ h in
      let (_, q, h2) = >>=-eq-ok (check_names renderer tools names) _ h1 in
      let (items, _, h3) = >>=-eq-ok (items_of renderer tools source context) _ h2 in
      let (x, y) = check_names-ok names q in
      ap (λ (s : LoopSpec × String). has_names s.0) (sym (ok_inj h3)) ∙ ground (arith, x, y)

  only_source-Sound :
      (task : Task) (sources : List (LoopSource × Value)) (control : Option LoopControl)
      (context : Fields)
      → keyword_count task ≡ length sources
      → Sound task (only_source renderer tools sources control context)
  only_source-Sound task [] control context q = q
  only_source-Sound task (source ∷ []) control context q =
      resolved (resolve_source renderer tools source control context)
        (resolve_source-names source control context)
    where
      resolved :
          (r : Result (LoopError E) (LoopSpec × String))
          → ((x : LoopSpec × String) → r ≡ ok x → has_names x.0 ≡ true)
          → Sound task (r >>= (λ spec. ok (some spec)))
      resolved (err e) h = omega (arith, q)
      resolved (ok (spec, label)) h = (q, h (spec, label) refl)
  only_source-Sound task (source ∷ another ∷ sources) control context q = omega (arith, q)

  -- A task is given no loop only where it has no loop keyword, and a loop only where it has exactly
  -- one; the names of the loop's variables are then valid, where the one of the index is not empty.
  -- The resolution fails only for a task with a loop keyword.
  pub resolve_loop_spec-Sound :
      (task : Task) (control : Option LoopControl) (context : Fields)
      → Sound task (resolve_loop_spec renderer tools task control context)
  unfolding resolve_loop_spec
  resolve_loop_spec-Sound task control context =
      only_source-Sound task (loop_sources task) control context (sym (length-loop_sources task))
