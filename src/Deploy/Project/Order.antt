-- ===== src/Deploy/Project/Order.antt =====
-- In which order `executeProject` of internal/deploy/daemon.go runs the playbooks.
use dibra.Prelude.{
  Bool, ◌≡◌, refl, sym, ◌∙◌, ap, List, [], ◌∷◌, ◌++◌, arith, is_empty, Bool-cases, inl, inr, Result,
  ok, err,
}
use dibra.Tasks.{FilePath}
use dibra.Deploy.Project.{RunResult, RebootError, after_run, execute_playbooks, execute_project}

-- Every playbook once, in order, and the last one alone with leave to reboot.
abbrev pub plan : List FilePath → List (FilePath × Bool)
plan [] = []
plan (p ∷ ps) = (p, is_empty ps) ∷ plan ps

module _ {E W : Type 0} (run : FilePath → Bool → W → Result E RunResult × W) where
  outcome_step :
      (p : FilePath) (ps : List FilePath) (w : W)
      → (execute_playbooks run (p ∷ ps) w).outcome
        ≡ (after_run run p (is_empty ps) (execute_playbooks run ps) (run p (is_empty ps) w)).outcome
  unfolding execute_playbooks
  outcome_step p ps w = refl

  runs_step :
      (p : FilePath) (ps : List FilePath) (w : W)
      → (execute_playbooks run (p ∷ ps) w).runs
        ≡ (p, is_empty ps)
          ∷ (after_run run p (is_empty ps) (execute_playbooks run ps) (run p (is_empty ps) w)).runs
  unfolding execute_playbooks
  runs_step p ps w = refl

  abbrev FirstPart : List (FilePath × Bool) → List (FilePath × Bool) → Type 0
  FirstPart rs all = (rest : List (FilePath × Bool)) × (all ≡ rs ++ rest)

  after_run_prefix :
      (p : FilePath) (ps : List FilePath) (r : Result E RunResult × W)
      → ((w : W) → FirstPart (execute_playbooks run ps w).runs (plan ps))
      → FirstPart (after_run run p (is_empty ps) (execute_playbooks run ps) r).runs (plan ps)
  unfolding after_run
  after_run_prefix p ps (err e, w) h = (plan ps, refl)
  after_run_prefix p ps (ok result, w) h = elim (Bool-cases result.failed) [
    | inl f ↦ (plan ps, simp f)
    | inr f ↦ elim (Bool-cases result.reboot_initiated) [
      | inr n ↦ ((h w).0, simp (f, n) (h w).1)
      | inl y ↦ elim (Bool-cases (is_empty ps)) [
        | inl e ↦ (plan ps, simp (f, y, e))
        | inr e ↦ (plan ps, simp (f, y, e))
      ]
    ]
  ]

  execute_playbooks_prefix :
      (ps : List FilePath) (w : W) → FirstPart (execute_playbooks run ps w).runs (plan ps)
  execute_playbooks_prefix [] w = ([], unfold execute_playbooks in refl)
  execute_playbooks_prefix (p ∷ ps) w =
      let (rest, e) = after_run_prefix p ps (run p (is_empty ps) w) (execute_playbooks_prefix ps) in
      (
        rest,
        ap (λ (rs : List (FilePath × Bool)). (p, is_empty ps) ∷ rs) e
            ∙ ap (λ (rs : List (FilePath × Bool)). rs ++ rest) (sym (runs_step p ps w)),
      )

  -- What follows one run, given what the runs after it make.
  after_run-plan :
      (p : FilePath) (ps : List FilePath) (r : Result E RunResult × W) (b : Bool)
      → ((w : W)
          → (execute_playbooks run ps w).outcome ≡ ok b
          → (execute_playbooks run ps w).runs ≡ plan ps)
      → (after_run run p (is_empty ps) (execute_playbooks run ps) r).outcome ≡ ok b
      → (after_run run p (is_empty ps) (execute_playbooks run ps) r).runs ≡ plan ps
  unfolding after_run
  after_run-plan p ps (err e, w) b h o = cc
  after_run-plan p [] (ok result, w) b h o = ground (arith, h w)
  after_run-plan p (q ∷ ps) (ok result, w) b h o = ground (arith, h w)

  execute_playbooks-plan :
      (ps : List FilePath) (w : W) (b : Bool)
      → (execute_playbooks run ps w).outcome ≡ ok b
      → (execute_playbooks run ps w).runs ≡ plan ps
  execute_playbooks-plan [] w b h = unfold execute_playbooks in refl
  execute_playbooks-plan (p ∷ ps) w b h =
      runs_step p ps w
      ∙ ap (λ (rs : List (FilePath × Bool)). (p, is_empty ps) ∷ rs)
          (after_run-plan p ps (run p (is_empty ps) w) b (λ v. execute_playbooks-plan ps v b)
            (sym (outcome_step p ps w) ∙ h))

  -- An execution that reports success has run every playbook once, in the order of the manifest, and
  -- only the last one with leave to reboot.
  pub execute_project-plan :
      (preflight : Result (RebootError E) (Unit {0})) (ps : List FilePath) (w : W) (b : Bool)
      → (execute_project run preflight ps w).outcome ≡ ok b
      → (execute_project run preflight ps w).runs ≡ plan ps
  unfolding execute_project
  execute_project-plan (err e) ps w b h = cc
  execute_project-plan (ok u) ps w b h = execute_playbooks-plan ps w b h

  -- Whatever the outcome, the runs made are a first part of that plan.
  pub execute_project_prefix :
      (preflight : Result (RebootError E) (Unit {0})) (ps : List FilePath) (w : W)
      → (rest : List (FilePath × Bool)) × (plan ps
          ≡ (execute_project run preflight ps w).runs ++ rest)
  unfolding execute_project
  execute_project_prefix (err e) ps w = (plan ps, refl)
  execute_project_prefix (ok u) ps w = execute_playbooks_prefix ps w
