-- ===== src/ImportTasks/Laws.antt =====
-- What an expansion by internal/config/import_tasks.go yields.
use dibra.Prelude.{
  ℕ, zero, suc, Bool, true, false, ◌≡◌, refl, Option, none, some, List, [], ◌∷◌, ◌++◌, map,
  if◌then◌else◌, is_empty, All, All-append, Result, ok, err, >>=-eq-ok,
}
use mathlib.Core.Path.{subst}
use dibra.Tasks.{FilePath, Task}
use dibra.Paths.{dir, absolute}
use dibra.ImportTasks.{
  ImportError, inherit, on_stack, render_import, load_tasks_file, import_path, import_one,
  expand_task, expand_list, expand_levels, expand_import_tasks, max_import_depth,
}

ok_eq {ℓ κ} : {E : Type ℓ} {A : Type κ} {a b : A} → ◌≡◌ {A = Result E A} (ok a) (ok b) → a ≡ b
ok_eq h = cc

module _ {E : Type 0} (cwd : FilePath) (render_path : Option (FilePath → Result E FilePath))
    (load : FilePath → Result E (Option (List Task))) where
  abbrev Expand : Type 0
  Expand = List Task → FilePath → List FilePath → Result (ImportError E) (List Task)

  -- What the recursive call of a successful import was given.
  record Imported (expand : Expand) (base : FilePath) (stack : List FilePath) (task : Task)
      (file : FilePath) (r : List Task) : Type 0 where
    abs_path : FilePath
    tasks : List Task
    not_circular : on_stack abs_path stack ≡ false
    result : expand (map (inherit task) tasks) (dir abs_path) (stack ++ abs_path ∷ []) ≡ ok r

  if_ok :
      {A : Type 0} (b : Bool) (e : ImportError E) (m : Result (ImportError E) A) (r : A)
      → (if b then err e else m) ≡ ok r
      → (b ≡ false) × (m ≡ ok r)
  if_ok true e m r h = cc
  if_ok false e m r h = (refl, h)

  import_one-Imported :
      (expand : Expand) (base : FilePath) (stack : List FilePath) (task : Task) (file : FilePath)
      (r : List Task)
      → import_one cwd render_path load expand base stack task file ≡ ok r
      → Imported expand base stack task file r
  unfolding import_one
  import_one-Imported expand base stack task file r h =
      let (n, h1) = if_ok (is_empty file) _ _ r h in
      let (p, e, h2) = >>=-eq-ok (render_import cwd render_path load file) _ h1 in
      let (c, h3) =
        if_ok (on_stack (absolute cwd (import_path cwd render_path load base p)) stack) _ _ r h2 in
      let (ts, l, h4) =
        >>=-eq-ok
          (load_tasks_file cwd render_path load (import_path cwd render_path load base p)
            (absolute cwd (import_path cwd render_path load base p)) task.name)
          _ h3 in
      record {
        abs_path = absolute cwd (import_path cwd render_path load base p);
        tasks = ts;
        not_circular = c;
        result = h4;
      }

  module _ (P : Task → Type 0) (inherited : (t c : Task) → P t → P (inherit t c)) where
    abbrev Final : Task → Type 0
    Final t = P t × (t.import_tasks ≡ none)

    inherit-All : (t : Task) (cs : List Task) → P t → All P (map (inherit t) cs)
    inherit-All t [] h = tt
    inherit-All t (c ∷ cs) h = (inherited t c h, inherit-All t cs h)

    -- The recursive call keeps what every inherited task has.
    abbrev Keeps : Expand → Type 0
    Keeps expand =
        (ts : List Task) (b : FilePath) (st : List FilePath) (r : List Task)
        → All P ts
        → expand ts b st ≡ ok r
        → All Final r

    expand_task-All :
        (expand : Expand) (base : FilePath) (stack : List FilePath) (t : Task) (o : Option FilePath)
        (r : List Task)
        → Keeps expand
        → t.import_tasks ≡ o
        → P t
        → expand_task cwd render_path load expand base stack t o ≡ ok r
        → All Final r
    unfolding expand_task
    expand_task-All expand base stack t none r rec i h e = subst (All Final) (ok_eq e) ((h, i), tt)
    expand_task-All expand base stack t (some file) r rec i h e =
        let m = import_one-Imported expand base stack t file r e in
        rec (map (inherit t) m.tasks) (dir m.abs_path) (stack ++ m.abs_path ∷ []) r
          (inherit-All t m.tasks h) m.result

    expand_list-All :
        (expand : Expand) (base : FilePath) (stack : List FilePath) (tasks r : List Task)
        → Keeps expand
        → All P tasks
        → expand_list cwd render_path load expand base stack tasks ≡ ok r
        → All Final r
    unfolding expand_list
    expand_list-All expand base stack [] r rec h e = subst (All Final) (ok_eq e) tt
    expand_list-All expand base stack (t ∷ ts) r rec h e =
        let (x, e1, e2) =
          >>=-eq-ok (expand_task cwd render_path load expand base stack t t.import_tasks) _ e in
        let (y, e3, e4) = >>=-eq-ok (expand_list cwd render_path load expand base stack ts) _ e2 in
        subst (All Final) (ok_eq e4) (
          All-append Final x y
            (expand_task-All expand base stack t t.import_tasks x rec refl h.0 e1)
            (expand_list-All expand base stack ts y rec h.1 e3))

    expand_levels-All : (levels : ℕ) → Keeps (expand_levels cwd render_path load levels)
    unfolding expand_levels
    expand_levels-All zero ts b st r h e = cc
    expand_levels-All (suc levels) ts b st r h e =
        expand_list-All (expand_levels cwd render_path load levels) b st ts r
          (expand_levels-All levels) h e

    -- A property that an import hands down to the tasks it imports holds of every task of a
    -- successful expansion, and none of these imports a file any more.
    pub expand_import_tasks-All :
        (tasks : List Task) (base : FilePath) (r : List Task)
        → All P tasks
        → expand_import_tasks cwd render_path load tasks base ≡ ok r
        → All Final r
    unfolding expand_import_tasks
    expand_import_tasks-All tasks base r h e =
        expand_levels-All (suc max_import_depth) tasks base [] r h e
