-- ===== src/Deploy/Project/Placement.antt =====
-- What `validateRebootPlacement` of internal/deploy/project.go accepts.
use dibra.Prelude.{
  ℕ, Option, ◌+◌, ◌≤◌, Bool, true, false, String, ◌≡◌, refl, List, [], ◌∷◌, arith, ◌&&◌, not, ltb,
  if◌then◌else◌, Result, ok, err, ◌>>=◌,
}
use dibra.Value.{Fields}
use dibra.Vars.Merge.{MergeStrategy}
use dibra.Tasks.{FilePath, Task, has_task_loop}
use dibra.Deploy.Project.{
  RebootError, check_tasks, check_playbooks, Project, PlayConfig, preflight_tasks,
  validate_reboot_placement, too_many_reboots,
}

abbrev pub no_reboot : List Task → Bool
no_reboot [] = true
no_reboot (t ∷ ts) = not t.reboot && no_reboot ts

-- Of the last playbook only the last task may reboot, and not in a loop.
abbrev pub placed_last : List Task → Bool
placed_last [] = true
placed_last (t ∷ []) = not (t.reboot && has_task_loop t)
placed_last (t ∷ u ∷ ts) = not t.reboot && placed_last (u ∷ ts)

-- No playbook but the last has a reboot task.
abbrev pub placed : List (List Task) → Bool
placed [] = true
placed (ts ∷ []) = placed_last ts
placed (ts ∷ us ∷ rest) = no_reboot ts && placed (us ∷ rest)

abbrev pub accepts : {E A : Type 0} → Result E A → Bool
accepts (ok a) = true
accepts (err e) = false

abbrev pub Counts : {E : Type 0} → ℕ → Result E ℕ → Type 0
Counts n (ok m) = m ≤ n
Counts n (err e) = Unit

module _ (E : Type 0) where
  check_tasks_not_final :
      (ts : List Task) (n : ℕ)
      → (accepts (check_tasks {E = E} false ts n) ≡ no_reboot ts)
        × Counts n (check_tasks {E = E} false ts n)
  unfolding check_tasks
  check_tasks_not_final [] n = (refl, omega arith)
  check_tasks_not_final (t ∷ ts) n = ground (arith, check_tasks_not_final ts n)

  check_tasks_final :
      (ts : List Task) (n : ℕ)
      → (accepts (check_tasks {E = E} true ts n) ≡ placed_last ts)
        × Counts (n + 1) (check_tasks {E = E} true ts n)
  unfolding check_tasks
  check_tasks_final [] n = (refl, omega arith)
  check_tasks_final (t ∷ []) n = ground arith
  check_tasks_final (t ∷ u ∷ ts) n = ground (arith, check_tasks_final (u ∷ ts) n)

  -- Every playbook loads, as the given tasks.
  module _ (load_tasks : FilePath → Result (RebootError E) (List Task)) where
    abbrev pub Loads : List FilePath → List (List Task) → Type 0
    Loads [] [] = Unit
    Loads (p ∷ ps) (ts ∷ tss) = (load_tasks p ≡ ok ts) × Loads ps tss
    Loads _ _ = ⊥

    and_true : (b : Bool) → (b && true) ≡ b
    and_true b = ground arith

    Counts-more :
        {A : Type 0} (x n : ℕ) (m : Result (RebootError E) ℕ)
        → x ≤ n
        → A × Counts (x + 1) m
        → A × Counts (n + 1) m
    Counts-more x n (ok k) l h = (h.0, omega arith)
    Counts-more x n (err e) l h = h

    bind-Counts :
        (m : Result (RebootError E) ℕ) (f : ℕ → Result (RebootError E) ℕ) (b c : Bool) (n k : ℕ)
        → (accepts m ≡ b) × Counts n m
        → ((x : ℕ) → x ≤ n → (accepts (f x) ≡ c) × Counts k (f x))
        → (accepts (m >>= f) ≡ (b && c)) × Counts k (m >>= f)
    bind-Counts (ok x) f b c n k h r = rw (← h.0) (r x h.1)
    bind-Counts (err e) f b c n k h r = rw (← h.0) (refl, tt)

    check_playbooks_lem :
        (ps : List FilePath) (tss : List (List Task)) (n : ℕ)
        → Loads ps tss
        → (accepts (check_playbooks load_tasks ps n) ≡ placed tss)
          × Counts (n + 1) (check_playbooks load_tasks ps n)
    unfolding check_playbooks
    check_playbooks_lem [] [] n h = (refl, omega arith)
    check_playbooks_lem [] (ts ∷ tss) n h = absurd h
    check_playbooks_lem (p ∷ ps) [] n h = absurd h
    check_playbooks_lem (p ∷ []) (ts ∷ []) n h = rw h.0 (
        rw (and_true (placed_last ts)) at (
          bind-Counts (check_tasks true ts n) (λ x. ok x) (placed_last ts) true (n + 1) (n + 1)
            (check_tasks_final ts n) (λ x l. (refl, l))))
    check_playbooks_lem (p ∷ []) (ts ∷ us ∷ tss) n h = absurd h.1
    check_playbooks_lem (p ∷ q ∷ ps) (ts ∷ []) n h = absurd h.1
    check_playbooks_lem (p ∷ q ∷ ps) (ts ∷ us ∷ tss) n h = rw h.0 (
        bind-Counts (check_tasks false ts n) (check_playbooks load_tasks (q ∷ ps)) (no_reboot ts)
          (placed (us ∷ tss)) n (n + 1) (check_tasks_not_final ts n)
          (λ x l.
            Counts-more x n (check_playbooks load_tasks (q ∷ ps) x) l
              (check_playbooks_lem (q ∷ ps) (us ∷ tss) x h.1)))

module _ {E : Type 0} (cwd : FilePath) (load_config : FilePath → Result E PlayConfig)
    (read_vars_files : FilePath → List String → MergeStrategy → Result E Fields)
    (render : Fields → FilePath → Result E FilePath)
    (load : FilePath → Result E (Option (List Task))) where
  at_most_one :
      (m : Result (RebootError E) ℕ) (b : Bool)
      → (accepts m ≡ b) × Counts 1 m
      → accepts (m >>= (λ count. if ltb 1 count then err too_many_reboots else ok tt)) ≡ b
  at_most_one (ok n) b h = ground arith
  at_most_one (err e) b h = h.0

  -- Where every playbook loads and expands, the preflight accepts the project exactly if no playbook
  -- but the last has a reboot task, and the last has one at most, as its last task and not in a loop.
  pub validate_reboot_placement_lem :
      (project : Project) (tss : List (List Task))
      → Loads E
          (preflight_tasks cwd load_config read_vars_files render load project.root)
          project.playbooks
          tss
      → accepts (validate_reboot_placement cwd load_config read_vars_files render load project)
        ≡ placed tss
  unfolding validate_reboot_placement
  validate_reboot_placement_lem project tss h = at_most_one _ (placed tss) (
      check_playbooks_lem E
        (preflight_tasks cwd load_config read_vars_files render load project.root) project.playbooks
        tss 0 h)
