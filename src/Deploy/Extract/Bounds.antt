-- ===== src/Deploy/Extract/Bounds.antt =====
-- internal/deploy/archive.go: how much an extraction writes, and where.
use dibra.Prelude.{
  ℕ, ◌+◌, ◌-◌, ◌≤◌, false, ◌≡◌, refl, Option, none, some, List, [], ◌∷◌, ◌++◌, ◌||◌, arith, ltb,
  length, Result, ok, err, All, All-append, Bool-cases, inl, inr,
}
use dibra.Tasks.{FilePath}
use dibra.Paths.{dot, bytes_eq, join, contains_path}
use dibra.Paths.Laws.{IsInside}
use dibra.Deploy.Names.{NameError, safe_archive_name}
use dibra.Deploy.Names.Safety.{safe_archive_name-IsInside}
use dibra.Deploy.Extract.{
  max_expanded_size, max_archive_entries, after_entry, Entry, EntryKind, ExtractError, Disk,
  Progress, Step, regular, directory, special, after_copy, copy_entry, place_entry, admit_entry,
  extract_entry, extract_entries, extract_archive, extraction_start, create_target, open_input,
  parent_made, directory_made, named_entry, destination_made, is_special,
}

-- The bytes written to all files.
abbrev pub total : List (FilePath × ℕ) → ℕ
total [] = 0
total ((name, n) ∷ written) = n + total written

total-append :
    (xs : List (FilePath × ℕ)) (name : FilePath) (n : ℕ)
    → total (xs ++ (name, n) ∷ []) ≡ total xs + n
total-append [] name n = omega arith
total-append ((m, k) ∷ xs) name n = omega (arith, total-append xs name n)

-- A copy from a limited reader writes no more than the limit.
abbrev pub RespectsLimit : {E W : Type 0} → Disk E W → Type 0
RespectsLimit {E} {W} disk =
    (entry : Entry) (target : FilePath) (limit : ℕ) (w : W)
    → (disk.copy entry target limit w).0.0 ≤ limit

-- All the files that were written have names below the destination.
abbrev pub AllInside : List (FilePath × ℕ) → Type 0
AllInside = All (λ f. IsInside f.0)

-- Where the loop goes on, all that was written is counted, and within the bound; where it stopped, at
-- most one byte more was written.
abbrev pub Bounded : {E W : Type 0} → Option (ExtractError E) → Progress W → Type 0
Bounded none p = (total p.written ≡ p.expanded) × (p.expanded ≤ max_expanded_size)
Bounded (some e) p = total p.written ≤ max_expanded_size + 1

record IsSound {E W : Type 0} (s : Step E W) : Type 0 where
  bounded : Bounded s.0 s.1
  inside : AllInside (s.1).written

-- What holds before a step.
record IsReady {W : Type 0} (p : Progress W) : Type 0 where
  counted : total p.written ≡ p.expanded
  within : p.expanded ≤ max_expanded_size
  inside : AllInside p.written

module _ {E W : Type 0} where
  IsReady-IsSound : (p : Progress W) → IsReady p → IsSound {E = E} (none, p)
  IsReady-IsSound p r = record { bounded = (r.counted, r.within); inside = r.inside }

  stop-IsSound :
      (e : ExtractError E) (p : Progress W) (w : W)
      → IsReady p
      → IsSound {E = E} (some e, record p { world = w })
  stop-IsSound e p w r = record { bounded = omega (arith, r.counted, r.within); inside = r.inside }

  after_copy-Bounded :
      (name : FilePath) (n : ℕ) (copied output input : Option E) (p : Progress W)
      → total p.written ≡ p.expanded + n
      → p.expanded ≤ max_expanded_size
      → n ≤ max_expanded_size - p.expanded + 1
      → Bounded
          (after_copy name n copied output input p).0
          (after_copy name n copied output input p).1
  unfolding after_copy
  after_copy-Bounded name n (some e) output input p t b l = omega (arith, t, b, l)
  after_copy-Bounded name n none (some e) input p t b l = omega (arith, t, b, l)
  after_copy-Bounded name n none none (some e) p t b l = omega (arith, t, b, l)
  after_copy-Bounded name n none none none p t b l =
      elim (Bool-cases (ltb (max_expanded_size - p.expanded) n)) [
        | inl e ↦ rw e (omega (arith, t, b, l))
        | inr e ↦ rw e (t, ground (arith, t, b, l, e))
      ]

  after_copy-written :
      (name : FilePath) (n : ℕ) (copied output input : Option E) (p : Progress W)
      → (after_copy name n copied output input p).1.written ≡ p.written
  unfolding after_copy
  after_copy-written name n (some e) output input p = refl
  after_copy-written name n none (some e) input p = refl
  after_copy-written name n none none (some e) p = refl
  after_copy-written name n none none none p =
      elim (Bool-cases (ltb (max_expanded_size - p.expanded) n)) [
        | inl e ↦ rw e refl
        | inr e ↦ rw e refl
      ]

IsInside-of :
    (name c : FilePath) → safe_archive_name name ≡ ok c → bytes_eq c dot ≡ false → IsInside c
IsInside-of name c g e = elim (safe_archive_name-IsInside name c g) [
  | inl d ↦ ground (arith, e, d)
  | inr i ↦ i
]

module _ {E W : Type 0} (disk : Disk E W) (destination : FilePath)
    (limited : RespectsLimit disk) where
  module _ (entry : Entry) (name : FilePath) (n : IsInside name) where
    copy_entry-IsSound :
        (p : Progress W) → IsReady p → IsSound (copy_entry disk destination entry name p)
    unfolding copy_entry
    copy_entry-IsSound p r =
        let limit = max_expanded_size - p.expanded + 1 in
        let copied = disk.copy entry (join destination name) limit p.world in
        let output = disk.close_output (join destination name) copied.1 in
        let input = disk.close_input entry output.1 in
        let q = record p { written = p.written ++ (name, (copied.0).0) ∷ []; world = input.1 } in
        record {
          bounded =
              after_copy-Bounded name (copied.0).0 (copied.0).1 output.0 input.0 q
                (omega (arith, total-append p.written name (copied.0).0, r.counted)) r.within
                (limited entry (join destination name) limit p.world);
          inside = rw (after_copy-written name (copied.0).0 (copied.0).1 output.0 input.0 q) (
              All-append (λ (f : FilePath × ℕ). IsInside f.0) p.written ((name, (copied.0).0) ∷ [])
                r.inside (n, tt));
        }

    IsReady-at : (p : Progress W) (w : W) → IsReady p → IsReady (record p { world = w })
    IsReady-at p w r = record { counted = r.counted; within = r.within; inside = r.inside }

    create_target-IsSound :
        (p : Progress W) (r : Result E (Unit {0}) × W)
        → IsReady p
        → IsSound (create_target disk destination entry name p r)
    create_target-IsSound p (err e, w) h = stop-IsSound _ p w h
    create_target-IsSound p (ok _, w) h =
        copy_entry-IsSound (record p { world = w }) (IsReady-at p w h)

    open_input-IsSound :
        (p : Progress W) (r : Result E (Unit {0}) × W)
        → IsReady p
        → IsSound (open_input disk destination entry name p r)
    open_input-IsSound p (err e, w) h = stop-IsSound _ p w h
    open_input-IsSound p (ok _, w) h = create_target-IsSound p _ h

    parent_made-IsSound :
        (p : Progress W) (r : Result E (Unit {0}) × W)
        → IsReady p
        → IsSound (parent_made disk destination entry name p r)
    parent_made-IsSound p (err e, w) h = stop-IsSound _ p w h
    parent_made-IsSound p (ok _, w) h = open_input-IsSound p _ h

    directory_made-IsSound :
        (p : Progress W) (r : Result E (Unit {0}) × W)
        → IsReady p
        → IsSound (directory_made disk destination name p r)
    directory_made-IsSound p (err e, w) h = stop-IsSound _ p w h
    directory_made-IsSound p (ok _, w) h =
        IsReady-IsSound (record p { world = w }) (IsReady-at p w h)

    place_entry-IsSound :
        (kind : EntryKind) (p : Progress W)
        → IsReady p
        → IsSound (place_entry disk destination kind entry name p)
    unfolding place_entry
    place_entry-IsSound directory p h = directory_made-IsSound p _ h
    place_entry-IsSound regular p h = parent_made-IsSound p _ h
    place_entry-IsSound special p h = stop-IsSound _ p p.world h

    admit_entry-IsSound :
        (p : Progress W) → IsReady p → IsSound (admit_entry disk destination entry name p)
    unfolding admit_entry
    admit_entry-IsSound p h = elim (Bool-cases (is_special entry.kind)) [
      | inl e ↦ rw e (stop-IsSound _ p p.world h)
      | inr e ↦
          elim (Bool-cases (
            ltb max_expanded_size entry.uncompressed_size
            || ltb (max_expanded_size - entry.uncompressed_size) p.expanded)) [
              | inl f ↦ rw (e, f) (stop-IsSound _ p p.world h)
              | inr f ↦ rw (e, f) (place_entry-IsSound entry.kind p h)
            ]
    ]

  named_entry-IsSound :
      (entry : Entry) (r : Result NameError FilePath) (p : Progress W)
      → safe_archive_name entry.name ≡ r
      → IsReady p
      → IsSound (named_entry disk destination entry r p)
  named_entry-IsSound entry (err e) p g h = stop-IsSound _ p p.world h
  named_entry-IsSound entry (ok name) p g h = elim (Bool-cases (bytes_eq name dot)) [
    | inl e ↦ rw e (IsReady-IsSound p h)
    | inr e ↦ elim (Bool-cases (contains_path p.seen name)) [
      | inl f ↦ rw (e, f) (stop-IsSound _ p p.world h)
      | inr f ↦
          rw (e, f)
            (admit_entry-IsSound entry name (IsInside-of entry.name name g e)
              (record p { seen = p.seen ++ name ∷ [] })
              (record { counted = h.counted; within = h.within; inside = h.inside }))
    ]
  ]

  after_entry-IsSound :
      (rest : Progress W → Step E W) (s : Step E W)
      → ((p : Progress W) → IsReady p → IsSound (rest p))
      → IsSound s
      → IsSound (after_entry rest s)
  after_entry-IsSound rest (some e, p) k h = h
  after_entry-IsSound rest (none, p) k h =
      k p (record { counted = (h.bounded).0; within = (h.bounded).1; inside = h.inside })

  extract_entries-IsSound :
      (entries : List Entry) (p : Progress W)
      → IsReady p
      → IsSound (extract_entries disk destination entries p)
  unfolding extract_entries extract_entry
  extract_entries-IsSound [] p h = IsReady-IsSound p h
  extract_entries-IsSound (entry ∷ entries) p h =
      after_entry-IsSound (extract_entries disk destination entries)
        (extract_entry disk destination entry p) (extract_entries-IsSound entries)
        (named_entry-IsSound entry (safe_archive_name entry.name) p refl h)

  start-IsReady : (w : W) → IsReady (extraction_start w)
  start-IsReady w = record { counted = refl; within = omega arith; inside = tt }

  destination_made-IsSound :
      (entries : List Entry) (r : Result E (Unit {0}) × W)
      → IsSound (destination_made disk destination entries r)
  destination_made-IsSound entries (err e, w) =
      stop-IsSound _ (extraction_start w) w (start-IsReady w)
  destination_made-IsSound entries (ok _, w) =
      extract_entries-IsSound entries (extraction_start w) (start-IsReady w)

  archive-IsSound :
      (entries : List Entry) (w : W) → IsSound (extract_archive disk destination entries w)
  unfolding extract_archive
  archive-IsSound entries w = elim (Bool-cases (ltb max_archive_entries (length entries))) [
    | inl e ↦ rw e (stop-IsSound _ (extraction_start w) w (start-IsReady w))
    | inr e ↦ rw e (destination_made-IsSound entries (disk.make_dirs destination 448 w))
  ]

  -- Whatever the archive holds and however its extraction ends, every file that was written has a name
  -- below the destination, and all files together got at most one byte more than the bound; and no more
  -- than the bound where the extraction succeeded.
  pub extract_archive_lem :
      (entries : List Entry) (w : W)
      → AllInside (extract_archive disk destination entries w).1.written
        × Bounded
            (extract_archive disk destination entries w).0
            (extract_archive disk destination entries w).1
  extract_archive_lem entries w = let s = archive-IsSound entries w in (s.inside, s.bounded)
