-- ===== src/Deploy/Manifest/Playbooks.antt =====
-- internal/deploy/archive.go: the playbooks of a manifest that is accepted.
use dibra.Prelude.{
  ok_inj, ℕ, ◌+◌, Bool, true, false, ◌≡◌, refl, ◌∙◌, List, [], ◌∷◌, ◌++◌, ◌||◌, ◌&&◌, arith, ◌==◌,
  eq_iff, not, if◌then◌else◌, is_empty, Result, ok, err, >>=-eq-ok, All, Bool-cases, ◌⊎◌, inl, inr,
}
use dibra.Tasks.{FilePath}
use dibra.Paths.{bytes_eq, join, contains_path}
use dibra.Paths.Laws.{IsInside}
use dibra.Deploy.Names.{NameError, safe_project_path}
use dibra.Deploy.Names.Safety.{safe_project_path-IsInside}
use dibra.Deploy.Manifest.{
  Manifest, is_yaml, mapped, accept_playbook, check_manifest_playbooks, load_manifest,
  accept_manifest, cannot_read, bad_extension, repeated_playbook, regular_playbook,
}

-- No path twice.
abbrev pub distinct_paths : List FilePath → Bool
distinct_paths [] = true
distinct_paths (p ∷ ps) = not (contains_path ps p) && distinct_paths ps

-- What is known of an accepted playbook.
pub record IsPlaybook (root : FilePath) {E : Type 0} (is_regular : FilePath → Result E Bool)
    (name : FilePath) : Type 0 where
  pub inside : IsInside name
  pub yaml : is_yaml name ≡ true
  pub regular : is_regular (join root name) ≡ ok true

bytes_eq_sym : (p q : FilePath) → bytes_eq p q ≡ bytes_eq q p
bytes_eq_sym [] [] = refl
bytes_eq_sym [] (b ∷ q) = refl
bytes_eq_sym (a ∷ p) [] = refl
bytes_eq_sym (a ∷ p) (b ∷ q) = ground (arith, bytes_eq_sym p q)

contains_path-append :
    (ps qs : List FilePath) (p : FilePath)
    → contains_path (ps ++ qs) p ≡ (contains_path ps p || contains_path qs p)
contains_path-append [] qs p = refl
contains_path-append (q ∷ ps) qs p = ground (arith, contains_path-append ps qs p)

module _ {E : Type 0} (walk : FilePath → Result E (List (FilePath × Bool)))
    (read_dir : FilePath → Result E (List (FilePath × Bool)))
    (read_manifest : FilePath → Result E Manifest) (is_regular : FilePath → Result E Bool) where
  record IsAccepted (root : FilePath) (seen : List FilePath) (playbook name : FilePath)
      : Type 0 where
    named : safe_project_path playbook ≡ ok name
    yaml : is_yaml name ≡ true
    unseen : contains_path seen name ≡ false
    regular : is_regular (join root name) ≡ ok true

  accepted_tests :
      (y c : Bool) (r : Result E Bool) (playbook n name : FilePath)
      → (if not y
          then err (bad_extension playbook)
          else if c
          then err (repeated_playbook playbook)
          else regular_playbook playbook n r)
        ≡ ok name
      → (y ≡ true) × (c ≡ false) × (r ≡ ok true) × (n ≡ name)
  accepted_tests false c r playbook n name h = ground (arith, h)
  accepted_tests true true r playbook n name h = ground (arith, h)
  accepted_tests true false (err e) playbook n name h = ground (arith, h)
  accepted_tests true false (ok false) playbook n name h = ground (arith, h)
  accepted_tests true false (ok true) playbook n name h = (refl, refl, refl, ground (arith, h))

  accept_playbook-IsAccepted :
      (root : FilePath) (index : ℕ) (seen : List FilePath) (playbook name : FilePath)
      (r : Result NameError FilePath)
      → safe_project_path playbook ≡ r
      → accept_playbook walk read_dir read_manifest is_regular root index seen playbook r ≡ ok name
      → IsAccepted root seen playbook name
  accept_playbook-IsAccepted root index seen playbook name (err e) g h = ground (arith, h)
  accept_playbook-IsAccepted root index seen playbook name (ok n) g h =
      let (y, c, r, e) =
        accepted_tests (is_yaml n) (contains_path seen n) (is_regular (join root n)) playbook n name
          h in
      rw (← e) (record { named = g; yaml = y; unseen = c; regular = r })

  -- No name that follows was seen.
  abbrev AllUnseen : List FilePath → List FilePath → Type 0
  AllUnseen seen = All (λ name. contains_path seen name ≡ false)

  unseen_after :
      (seen : List FilePath) (name : FilePath) (names : List FilePath)
      → AllUnseen (seen ++ name ∷ []) names
      → AllUnseen seen names × (contains_path names name ≡ false)
  unseen_after seen name [] h = (tt, refl)
  unseen_after seen name (n ∷ names) h =
      let (all_unseen, other) = unseen_after seen name names h.1 in
      let first = contains_path-append seen (name ∷ []) n in
      (
        (ground (arith, h.0, first), all_unseen),
        ground (arith, h.0, first, other, bytes_eq_sym name n),
      )

  record AreAccepted (root : FilePath) (seen given names : List FilePath) : Type 0 where
    playbooks : All (IsPlaybook root is_regular) names
    unseen : AllUnseen seen names
    distinct : distinct_paths names ≡ true
    sized : is_empty names ≡ is_empty given

  check-AreAccepted :
      (root : FilePath) (index : ℕ) (seen playbooks names : List FilePath)
      → check_manifest_playbooks walk read_dir read_manifest is_regular root index seen playbooks
        ≡ ok names
      → AreAccepted root seen playbooks names
  unfolding check_manifest_playbooks
  check-AreAccepted root index seen [] names h =
      rw (← ok_inj h) (record { playbooks = tt; unseen = tt; distinct = refl; sized = refl })
  check-AreAccepted root index seen (playbook ∷ playbooks) names h =
      let (name, g, h') = >>=-eq-ok _ _ h in
      let (rest, k, e) = >>=-eq-ok _ _ h' in
      let first = accept_playbook-IsAccepted root index seen playbook name _ refl g in
      let more = check-AreAccepted root (index + 1) (seen ++ name ∷ []) playbooks rest k in
      let (all_unseen, other) = unseen_after seen name rest more.unseen in
      rw (← ok_inj e) (record {
        playbooks = (
          record {
            inside = safe_project_path-IsInside playbook name first.named;
            yaml = first.yaml;
            regular = first.regular;
          },
          more.playbooks,
        );
        unseen = (first.unseen, all_unseen);
        distinct = ground (arith, other, more.distinct);
        sized = refl;
      })

  accepted_manifest :
      (root : FilePath) (read m : Manifest)
      → ((read.version == "1") ≡ true) ⊎ ((read.version == "1") ≡ false)
      → (is_empty read.playbooks ≡ true) ⊎ (is_empty read.playbooks ≡ false)
      → accept_manifest walk read_dir read_manifest is_regular root read ≡ ok m
      → (m.version ≡ "1")
        × (is_empty m.playbooks ≡ false)
        × All (IsPlaybook root is_regular) m.playbooks
        × (distinct_paths m.playbooks ≡ true)
  unfolding accept_manifest
  accepted_manifest root read m (inr v) e h = ground (arith, h, v)
  accepted_manifest root read m (inl v) (inl e) h = ground (arith, h, v, e)
  accepted_manifest root read m (inl v) (inr e) h =
      let (names, g, h') = >>=-eq-ok _ _ (rw (v, e) at h) in
      let all = check-AreAccepted root 0 [] read.playbooks names g in
      rw (← ok_inj h')
        (ground (arith, v, eq_iff read.version "1"), all.sized ∙ e, all.playbooks, all.distinct)

  -- A manifest that is accepted has version 1 and at least one playbook; its playbooks are different,
  -- and each is a regular file below the root of the project, with the extension of a YAML file.
  pub load_manifest_lem :
      (path root : FilePath) (m : Manifest)
      → load_manifest walk read_dir read_manifest is_regular path root ≡ ok m
      → (m.version ≡ "1")
        × (is_empty m.playbooks ≡ false)
        × All (IsPlaybook root is_regular) m.playbooks
        × (distinct_paths m.playbooks ≡ true)
  unfolding load_manifest
  load_manifest_lem path root m h =
      let (read, g, h') = >>=-eq-ok (mapped cannot_read (read_manifest path)) _ h in
      accepted_manifest root read m (Bool-cases (read.version == "1"))
        (Bool-cases (is_empty read.playbooks)) h'
