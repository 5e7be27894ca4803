-- ===== src/Handlers/Queue.antt =====
-- `handlerIndex.queue` of internal/controller/handlers.go: which handlers a notified target marks.
use dibra.Prelude.{
  ℕ, zero, suc, ◌+◌, ◌<◌, ◌≤◌, Bool, true, false, String, ◌≡◌, refl, ◌∙◌, Option, none, some, List,
  [], ◌∷◌, arith, eq_iff, ◌==◌, ◌||◌, if◌then◌else◌, eqb, get_elem?, contains, contains_num,
  contains_num-append, distinct, lookup, lookup_or, is_some,
}
use dibra.Handlers.{HandlerDefinition, HandlerIndex, Pending, mark, mark_all, mark_named, queue}
use dibra.Handlers.Index.{named_at, once_for_each, listeners, IsIndexed}

abbrev holds : Option ℕ → ℕ → Bool
holds none i = false
holds (some j) i = eqb j i

contains_num-mark :
    (i j : ℕ) (p : Pending) → contains_num (mark j p) i ≡ (contains_num p i || eqb j i)
unfolding mark
contains_num-mark i j p = ground arith

contains_num-mark_all :
    (i : ℕ) (is p : List ℕ)
    → contains_num (mark_all is p) i ≡ (contains_num p i || contains_num is i)
unfolding mark_all
contains_num-mark_all i [] p = ground arith
contains_num-mark_all i (j ∷ js) p =
    ground (arith, contains_num-mark_all i js (mark j p), contains_num-mark i j p)

contains_num-mark_named :
    (i : ℕ) (o : Option ℕ) (p : Pending)
    → contains_num (mark_named o p).1 i ≡ (contains_num p i || holds o i)
unfolding mark_named
contains_num-mark_named i none p = ground arith
contains_num-mark_named i (some j) p = contains_num-mark i j p

-- A definition answers to its name and to the topics that it listens to.
abbrev pub answers : String → Option HandlerDefinition → Bool
answers target none = false
answers target (some d) = d.name == target || contains d.task.listen target

abbrev pub any_answers : String → List HandlerDefinition → Bool
any_answers target [] = false
any_answers target (d ∷ ds) = answers target (some d) || any_answers target ds

abbrev pub definition_names : List HandlerDefinition → List String
definition_names [] = []
definition_names (d ∷ ds) = d.name ∷ definition_names ds

abbrev is_named : String → Option HandlerDefinition → Bool
is_named target none = false
is_named target (some d) = d.name == target

abbrev listens : String → Option HandlerDefinition → Bool
listens target none = false
listens target (some d) = contains d.task.listen target

abbrev AtLeast : ℕ → Option ℕ → Type 0
AtLeast k none = Unit
AtLeast k (some i) = k ≤ i

named_at-AtLeast :
    (k : ℕ) (ds : List HandlerDefinition) (name : String) → AtLeast k (named_at k ds name)
named_at-AtLeast k [] name = tt
named_at-AtLeast k (d ∷ ds) name = ground (arith, named_at-AtLeast (k + 1) ds name)

is_some-named_at :
    (k : ℕ) (ds : List HandlerDefinition) (name : String)
    → is_some (named_at k ds name) ≡ contains (definition_names ds) name
is_some-named_at k [] name = refl
is_some-named_at k (d ∷ ds) name = ground (arith, is_some-named_at (k + 1) ds name)

is_named-contains :
    (ds : List HandlerDefinition) (i : ℕ) (name : String)
    → is_named name (get_elem? ds i) ≡ true
    → contains (definition_names ds) name ≡ true
is_named-contains [] i name h = cc
is_named-contains (d ∷ ds) zero name h = ground arith
is_named-contains (d ∷ ds) (suc i) name h = ground (arith, is_named-contains ds i name h)

holds-named_at :
    (k i : ℕ) (ds : List HandlerDefinition) (name : String)
    → distinct (definition_names ds) ≡ true
    → holds (named_at k ds name) (k + i) ≡ is_named name (get_elem? ds i)
holds-named_at k i [] name h = refl
holds-named_at k zero (d ∷ ds) name h =
    ground (
      arith,
      named_at-AtLeast (k + 1) ds name,
      is_some-named_at (k + 1) ds name,
      eq_iff d.name name,
    )
holds-named_at k (suc i) (d ∷ ds) name h = ground (
  arith,
  holds-named_at (k + 1) i ds name,
  is_some-named_at (k + 1) ds name,
  is_named-contains ds i name,
  eq_iff d.name name,
)

once_for_each_lem :
    (k i : ℕ) (ts : List String) (topic : String)
    → contains_num (once_for_each k ts topic) i ≡ (if eqb k i then contains ts topic else false)
once_for_each_lem k i [] topic = ground arith
once_for_each_lem k i (t ∷ ts) topic = ground (arith, once_for_each_lem k i ts topic)

listeners_below :
    (k i : ℕ) (ds : List HandlerDefinition) (topic : String)
    → i < k
    → contains_num (listeners k ds topic) i ≡ false
listeners_below k i [] topic h = refl
listeners_below k i (d ∷ ds) topic h =
    contains_num-append (once_for_each k d.task.listen topic) (listeners (k + 1) ds topic) i
    ∙ ground (arith, once_for_each_lem k i d.task.listen topic, listeners_below (k + 1) i ds topic)

contains_num-listeners :
    (k i : ℕ) (ds : List HandlerDefinition) (topic : String)
    → contains_num (listeners k ds topic) (k + i) ≡ listens topic (get_elem? ds i)
contains_num-listeners k i [] topic = refl
contains_num-listeners k zero (d ∷ ds) topic =
    contains_num-append (once_for_each k d.task.listen topic) (listeners (k + 1) ds topic) (k + 0)
    ∙ ground (
      arith,
      once_for_each_lem k (k + 0) d.task.listen topic,
      listeners_below (k + 1) (k + 0) ds topic,
    )
contains_num-listeners k (suc i) (d ∷ ds) topic =
    contains_num-append (once_for_each k d.task.listen topic) (listeners (k + 1) ds topic)
      (k + suc i)
    ∙ ground (
      arith,
      once_for_each_lem k (k + suc i) d.task.listen topic,
      contains_num-listeners (k + 1) i ds topic,
    )

-- Queueing a target marks, besides what is pending, exactly the definitions that answer to it, each
-- at its own index; the definitions have different names.
pub contains_num-queue :
    (index : HandlerIndex) (target : String) (pending : Pending) (i : ℕ)
    → IsIndexed index
    → distinct (definition_names index.definitions) ≡ true
    → contains_num (queue index target pending).1 i
      ≡ (contains_num pending i || answers target (get_elem? index.definitions i))
unfolding queue
contains_num-queue index target pending i h d = ground (
  arith,
  contains_num-mark_all i (lookup_or [] target index.by_topic)
      (mark_named (lookup target index.by_name) pending).1,
  contains_num-mark_named i (lookup target index.by_name) pending,
  h.names target,
  h.topics target,
  holds-named_at 0 i index.definitions target d,
  contains_num-listeners 0 i index.definitions target,
)
