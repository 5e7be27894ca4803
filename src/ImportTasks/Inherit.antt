-- ===== src/ImportTasks/Inherit.antt =====
-- What imported tasks inherit: the conditions and the variables of the tasks that import them,
-- through every level (internal/config/import_tasks.go).
use dibra.Prelude.{
  true, ◌≡◌, refl, sym, ◌∙◌, ap, Option, none, List, [], ◌∷◌, ◌++◌, is_empty, All, Bool-cases, inl,
  inr, Result, ok,
}
use mathlib.Core.List.{append_assoc, append-nil}
use dibra.Value.{Value}
use dibra.Tasks.{FilePath, Task}
use dibra.ImportTasks.{
  merge_when, inherit_vars, inherit_when, inherit, no_fields, expand_import_tasks,
}
use dibra.ImportTasks.Laws.{expand_import_tasks-All}

-- The conditions begin with the given ones: the task runs only where they all hold.
abbrev pub StartsWith : List Value → List Value → Type 0
StartsWith cs ds = (rest : List Value) × (ds ≡ cs ++ rest)

merge_when_lem : (parent child : List Value) → merge_when parent child ≡ parent ++ child
unfolding merge_when
merge_when_lem [] child = refl
merge_when_lem (c ∷ parent) [] = sym (append-nil (c ∷ parent))
merge_when_lem (c ∷ parent) (d ∷ child) = refl

is_empty-eq {ℓ} : {A : Type ℓ} (xs : List A) → is_empty xs ≡ true → xs ≡ []
is_empty-eq [] h = refl
is_empty-eq (x ∷ xs) h = cc

conditions-inherit_when :
    (t c : Task) → (inherit_when t c).conditions ≡ t.conditions ++ c.conditions
unfolding inherit_when
conditions-inherit_when t c = elim (Bool-cases (is_empty t.conditions)) [
  | inl e ↦ simp e (ap (λ (cs : List Value). cs ++ c.conditions) (sym (is_empty-eq t.conditions e)))
  | inr e ↦ simp e (merge_when_lem t.conditions c.conditions)
]

conditions-inherit_vars : (t c : Task) → (inherit_vars t c).conditions ≡ c.conditions
unfolding inherit_vars
conditions-inherit_vars t c = elim (Bool-cases (no_fields t.vars)) [
  | inl e ↦ simp e
  | inr e ↦ simp e
]

StartsWith-inherit :
    (cs : List Value) (t c : Task)
    → StartsWith cs t.conditions
    → StartsWith cs (inherit t c).conditions
unfolding inherit
StartsWith-inherit cs t c (rest, e) = (
  rest ++ c.conditions,
  conditions-inherit_when t (inherit_vars t c)
      ∙ ap (λ (ds : List Value). t.conditions ++ ds) (conditions-inherit_vars t c)
      ∙ ap (λ (ds : List Value). ds ++ c.conditions) e
      ∙ append_assoc cs rest c.conditions,
)

vars-inherit_when : (t c : Task) → (inherit_when t c).vars ≡ c.vars
unfolding inherit_when
vars-inherit_when t c = elim (Bool-cases (is_empty t.conditions)) [
  | inl e ↦ simp e
  | inr e ↦ simp e
]

module _ {E : Type 0} (cwd : FilePath) (render_path : Option (FilePath → Result E FilePath))
    (load : FilePath → Result E (Option (List Task))) where
  -- Where all the tasks that are expanded carry some conditions, so do all the tasks of a successful
  -- expansion, first in their lists, at whatever depth they were imported, and none of them imports
  -- a file any more.
  pub conditions-expand_import_tasks :
      (cs : List Value) (tasks : List Task) (base : FilePath) (r : List Task)
      → All (λ t. StartsWith cs t.conditions) tasks
      → expand_import_tasks cwd render_path load tasks base ≡ ok r
      → All (λ t. StartsWith cs t.conditions × (t.import_tasks ≡ none)) r
  conditions-expand_import_tasks cs tasks base r h e =
      expand_import_tasks-All cwd render_path load (λ t. StartsWith cs t.conditions)
        (StartsWith-inherit cs) tasks base r h e
