-- ===== src/Deploy/Names/Safety.antt =====
-- What the names accepted by internal/deploy/archive.go can lead to.
use dibra.Prelude.{false, ◌≡◌, ap, List, [], ◌∷◌, arith, ◌⊎◌, inl, inr, All, ok}
use dibra.Tasks.{FilePath}
use dibra.Paths.{bytes_eq, dot, dot_dot, split_slash, is_abs, clean}
use dibra.Paths.Laws.{IsInside, clean-IsInside}
use dibra.Deploy.Names.{any_dot_dot, safe_archive_name, safe_project_path}

none_dot_dot :
    (parts : List FilePath)
    → any_dot_dot parts ≡ false
    → All (λ part. bytes_eq part dot_dot ≡ false) parts
none_dot_dot [] h = tt
none_dot_dot (part ∷ parts) h = (ground arith, none_dot_dot parts (ground arith))

-- What an accepted name has passed.
record Passed (name clean_name : FilePath) : Type 0 where
  relative : is_abs name ≡ false
  no_dot_dot : any_dot_dot (split_slash name) ≡ false
  cleaned : clean name ≡ clean_name

safe_archive_name-Passed : (name c : FilePath) → safe_archive_name name ≡ ok c → Passed name c
unfolding safe_archive_name
safe_archive_name-Passed name c h = ground arith

-- The clean name of an archive entry that is accepted is "." or a relative path of one or more names,
-- none of them empty, "." or "..".
pub safe_archive_name-IsInside :
    (name c : FilePath) → safe_archive_name name ≡ ok c → (c ≡ dot) ⊎ IsInside c
safe_archive_name-IsInside name c h =
    let p = safe_archive_name-Passed name c h in
    rw (← p.cleaned) (clean-IsInside name p.relative (none_dot_dot (split_slash name) p.no_dot_dot))

safe_project_path-Passed :
    (name c : FilePath) → safe_project_path name ≡ ok c → Passed name c × (bytes_eq c dot ≡ false)
unfolding safe_project_path
safe_project_path-Passed name c h = (
  record { relative = ground arith; no_dot_dot = ground arith; cleaned = ground arith },
  ground arith,
)

-- A playbook of a manifest that is accepted lies below the project root: its path is made of one or
-- more names, none of them empty, "." or "..".
pub safe_project_path-IsInside : (name c : FilePath) → safe_project_path name ≡ ok c → IsInside c
safe_project_path-IsInside name c h =
    let (p, not_dot) = safe_project_path-Passed name c h in
    not_dot_inside c not_dot (
      rw (← p.cleaned)
        (clean-IsInside name p.relative (none_dot_dot (split_slash name) p.no_dot_dot)))
  where
    not_dot_inside : (c : FilePath) → bytes_eq c dot ≡ false → (c ≡ dot) ⊎ IsInside c → IsInside c
    not_dot_inside c n (inl e) = cc (ap (λ (x : FilePath). bytes_eq x dot) e)
    not_dot_inside c n (inr i) = i
