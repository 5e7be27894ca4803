-- ===== src/Handlers/Build.antt =====
-- `buildHandlerIndex` of internal/controller/handlers.go as a whole, against its description in
-- `Handlers.Index`.
use dibra.Prelude.{
  ℕ, ◌+◌, ◌≤◌, Bool, true, false, String, ◌≡◌, refl, sym, ◌∙◌, Option, none, some, List, [], ◌∷◌,
  ◌++◌, arith, eq_iff, ◌==◌, not, ◌or_else◌, or_else_none, if◌then◌else◌, contains, Map, lookup,
  lookup_or, insert, lookup-insert, Result, ok, ◌≢◌,
}
use mathlib.Core.List.{append_assoc, append-nil}
use text.Mathlib.TextPositions.{eq_refl}
use dibra.Tasks.{Task}
use dibra.Handlers.{
  HandlerDefinition, HandlerIndex, render_names, add_definition, at_position, index_tasks,
  empty_index, build_handler_index,
}
use dibra.Handlers.Index.{last_named, IsIndexed, add_definition-IsIndexed}

-- The last position of a name, counted from p.
abbrev last_position : ℕ → List String → String → Option ℕ
last_position p [] name = none
last_position p (n ∷ ns) name =
    last_position (p + 1) ns name or_else (if n == name then some p else none)

-- Absent names have no position, the others one that is not below the start.
abbrev IsFrom : Bool → ℕ → Option ℕ → Type 0
IsFrom false p o = o ≡ none
IsFrom true p none = ⊥
IsFrom true p (some q) = p ≤ q

last_position-IsFrom :
    (p : ℕ) (ns : List String) (name : String)
    → IsFrom (contains ns name) p (last_position p ns name)
last_position-IsFrom p [] name = refl
last_position-IsFrom p (n ∷ ns) name = ground (arith, last_position-IsFrom (p + 1) ns name)

not_empty : (s : String) → s ≢ "" → (s == "") ≡ false
not_empty s h = ground (arith, eq_iff s "")

-- The tasks have the names, and none is empty.
module _ {E : Type 0} (render_name : Task → Result E String) where
  abbrev pub HasNames : List Task → List String → Type 0
  HasNames [] [] = Unit
  HasNames (task ∷ tasks) (name ∷ names) =
      (task.name ≢ "") × (render_name task ≡ ok name) × HasNames tasks names
  HasNames _ _ = ⊥

  -- What the first loop leaves in lastByName.
  record Recorded (p : ℕ) (names : List String) (m m' : Map ℕ) : Type 0 where
    at_name : (n : String) → lookup n m' ≡ last_position p names n or_else lookup n m

  render_names_lem :
      (p : ℕ) (tasks : List Task) (names : List String) (m : Map ℕ)
      → HasNames tasks names
      → (m' : Map ℕ) × (render_names render_name p tasks m ≡ ok (names, m')) × Recorded p names m m'
  unfolding render_names
  render_names_lem p [] [] m h = (m, refl, record { at_name = λ n. refl })
  render_names_lem p [] (n ∷ ns) m h = absurd h
  render_names_lem p (t ∷ ts) [] m h = absurd h
  render_names_lem p (t ∷ ts) (name ∷ names) m h =
      let (m', e, r) = render_names_lem (p + 1) ts names (insert name p m) h.2 in
      (
        m',
        rw (not_empty t.name h.0, h.1, e) refl,
        record { at_name = λ n. r.at_name n ∙ ground (arith, lookup-insert name n p m) },
      )

-- Every name that is left has its last position recorded.
abbrev RecordedFrom : Map ℕ → ℕ → List String → Type 0
RecordedFrom last p names =
    (n : String) → contains names n ≡ true → lookup n last ≡ last_position p names n

Recorded_tail :
    (last : Map ℕ) (p : ℕ) (name : String) (names : List String)
    → RecordedFrom last p (name ∷ names)
    → RecordedFrom last (p + 1) names
Recorded_tail last p name names h n m = ground (arith, h n, last_position-IsFrom (p + 1) names n)

-- The test of the second loop finds the last task of a name.
at_position-last :
    (last : Map ℕ) (p : ℕ) (name : String) (names : List String)
    → RecordedFrom last p (name ∷ names)
    → at_position (lookup name last) p ≡ not (contains names name)
at_position-last last p name names h =
    rw (h name (ground (arith, eq_refl name)))
      (ground (arith, last_position-IsFrom (p + 1) names name, eq_refl name))

if-IsIndexed :
    (b : Bool) (x y : HandlerIndex) → IsIndexed x → IsIndexed y → IsIndexed (if b then x else y)
if-IsIndexed true x y h k = h
if-IsIndexed false x y h k = k

-- One round of the second loop against one round of the description.
definitions_step :
    (b : Bool) (p : ℕ) (t : Task) (name : String) (index : HandlerIndex)
    (later : List HandlerDefinition)
    → (if not b then add_definition p t name index else index).definitions ++ later
      ≡ index.definitions
        ++ (if b then later else record { task = t; name = name; position = p } ∷ later)
unfolding add_definition
definitions_step true p t name index later = refl
definitions_step false p t name index later = append_assoc index.definitions _ later

-- The second loop appends the last task of each name, and keeps the index sound.
index_tasks_lem :
    (last : Map ℕ) (p : ℕ) (tasks : List Task) (names : List String) (index : HandlerIndex)
    → RecordedFrom last p names
    → IsIndexed index
    → ((index_tasks last p tasks names index).definitions
        ≡ index.definitions ++ last_named p tasks names)
      × IsIndexed (index_tasks last p tasks names index)
unfolding index_tasks
index_tasks_lem last p [] names index r h = (sym (append-nil index.definitions), h)
index_tasks_lem last p (t ∷ ts) [] index r h = (sym (append-nil index.definitions), h)
index_tasks_lem last p (t ∷ ts) (name ∷ names) index r h =
    let next = if at_position (lookup name last) p then add_definition p t name index else index in
    let kept : IsIndexed next =
      if-IsIndexed (at_position (lookup name last) p) (add_definition p t name index) index
        (add_definition-IsIndexed p t name index h) h in
    let (e, k) =
      index_tasks_lem last (p + 1) ts names next (Recorded_tail last p name names r) kept in
    (
      e
          ∙ rw (at_position-last last p name names r)
              (definitions_step (contains names name) p t name index (last_named (p + 1) ts names)),
      k,
    )

empty-IsIndexed : IsIndexed empty_index
unfolding lookup lookup_or
empty-IsIndexed = record { names = λ n. refl; topics = λ t. refl }

-- Where every handler has a name that renders, the index is built: it holds, in the order of the
-- play, the handlers that are the last of their rendered name, and finds each by its name and by
-- every topic that it listens to.
pub build_handler_index_lem :
    {E : Type 0} (render_name : Task → Result E String) (tasks : List Task) (names : List String)
    → HasNames render_name tasks names
    → (index : HandlerIndex) × (build_handler_index render_name tasks ≡ ok index)
      × (index.definitions ≡ last_named 0 tasks names)
      × IsIndexed index
unfolding build_handler_index
build_handler_index_lem render_name tasks names h =
    let (last, e, r) = render_names_lem render_name 0 tasks names [] h in
    let (d, k) =
      index_tasks_lem last 0 tasks names empty_index
        (λ n m. r.at_name n ∙ unfold lookup in or_else_none _) empty-IsIndexed in
    (index_tasks last 0 tasks names empty_index, rw e refl, d, k)
