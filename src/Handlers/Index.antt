-- ===== src/Handlers/Index.antt =====
-- What `buildHandlerIndex` of internal/controller/handlers.go builds: of the handlers with one name
-- the last, in the order of the play, each found by its name and by the topics that it listens to.
use dibra.Prelude.{
  ℕ, suc, ◌+◌, String, ◌≡◌, refl, sym, ◌∙◌, Option, none, some, List, [], ◌∷◌, ◌++◌, arith, eq_iff,
  ◌==◌, ◌or_else◌, inl, inr, if◌then◌else◌, length, contains, Map, lookup, lookup_or, insert,
  lookup-insert, Bool-cases,
}
use mathlib.Core.List.{append_assoc, append-nil}
use native.Mathlib.Nat.{zero-add}
use dibra.Tasks.{Task}
use dibra.Handlers.{HandlerDefinition, HandlerIndex, add_topics, add_definition}

-- The handlers that are the last of their name, in order.
abbrev pub last_named : ℕ → List Task → List String → List HandlerDefinition
last_named position (task ∷ tasks) (name ∷ names) =
    let later = last_named (position + 1) tasks names in
    if contains names name
    then later
    else record { task = task; name = name; position = position } ∷ later
last_named position _ _ = []

-- The index of the definition of a name, counted from i.
abbrev pub named_at : ℕ → List HandlerDefinition → String → Option ℕ
named_at i [] name = none
named_at i (d ∷ ds) name =
    named_at (i + 1) ds name or_else (if d.name == name then some i else none)

abbrev pub once_for_each : ℕ → List String → String → List ℕ
once_for_each i [] topic = []
once_for_each i (t ∷ ts) topic =
    let rest = once_for_each i ts topic in if t == topic then i ∷ rest else rest

-- The indexes of the definitions that listen to a topic, counted from i, once for each mention.
abbrev pub listeners : ℕ → List HandlerDefinition → String → List ℕ
listeners i [] topic = []
listeners i (d ∷ ds) topic = once_for_each i d.task.listen topic ++ listeners (i + 1) ds topic

-- Every name and topic leads to the definitions that have it.
pub record IsIndexed (index : HandlerIndex) : Type 0 where
  pub names : (name : String) → lookup name index.by_name ≡ named_at 0 index.definitions name
  pub topics :
      (topic : String) → lookup_or [] topic index.by_topic ≡ listeners 0 index.definitions topic

lookup_or-insert :
    (k j : String) (v : List ℕ) (m : Map (List ℕ))
    → lookup_or [] j (insert k v m) ≡ (if k == j then v else lookup_or [] j m)
unfolding lookup_or
lookup_or-insert k j v m = ground (arith, lookup-insert k j v m)

lookup_or-add_topics :
    (i : ℕ) (ts : List String) (m : Map (List ℕ)) (topic : String)
    → lookup_or [] topic (add_topics i ts m) ≡ lookup_or [] topic m ++ once_for_each i ts topic
unfolding add_topics
lookup_or-add_topics i [] m topic = sym (append-nil (lookup_or [] topic m))
lookup_or-add_topics i (t ∷ ts) m topic =
    lookup_or-add_topics i ts (insert t (lookup_or [] t m ++ i ∷ []) m) topic
    ∙ rw lookup_or-insert (elim (Bool-cases (t == topic)) [
      | inl e ↦
          rw (e, (eq_iff t topic).0 e)
            (append_assoc (lookup_or [] topic m) (i ∷ []) (once_for_each i ts topic))
      | inr e ↦ rw e
    ])

named_at-append :
    (i : ℕ) (ds : List HandlerDefinition) (d : HandlerDefinition) (name : String)
    → named_at i (ds ++ d ∷ []) name
      ≡ (if d.name == name then some (i + length ds) else named_at i ds name)
named_at-append i [] d name = ground arith
named_at-append i (e ∷ ds) d name = ground (arith, named_at-append (i + 1) ds d name)

listeners-append :
    (i : ℕ) (ds : List HandlerDefinition) (d : HandlerDefinition) (topic : String)
    → listeners i (ds ++ d ∷ []) topic
      ≡ listeners i ds topic ++ once_for_each (i + length ds) d.task.listen topic
listeners-append i [] d topic = rw (zero_right i) (append-nil (once_for_each i d.task.listen topic))
  where
    zero_right : (n : ℕ) → n + 0 ≡ n
    zero_right n = omega arith
listeners-append i (e ∷ ds) d topic =
    rw (listeners-append (i + 1) ds d topic, shift)
      (sym (append_assoc (once_for_each i e.task.listen topic) (listeners (i + 1) ds topic) _))
  where
    shift : i + 1 + length ds ≡ i + suc (length ds)
    shift = omega arith

pub add_definition-IsIndexed :
    (position : ℕ) (task : Task) (name : String) (index : HandlerIndex)
    → IsIndexed index
    → IsIndexed (add_definition position task name index)
unfolding add_definition
add_definition-IsIndexed position task name index h = record {
  names = λ n. ground (
    arith,
    lookup-insert name n (length index.definitions) index.by_name,
    h.names n,
    named_at-append 0 index.definitions (record { task = task; name = name; position = position })
        n,
  );
  topics = λ t.
      lookup_or-add_topics (length index.definitions) task.listen index.by_topic t
      ∙ rw (h.topics t, listeners-append, zero-add) refl;
}
