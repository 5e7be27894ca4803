-- ===== src/Loops/Context.antt =====
-- internal/controller/runner.go: what an iteration of a loop reads.
use dibra.Prelude.{
  ℕ, Bool, true, false, String, ◌≡◌, refl, ◌∙◌, ap, Option, none, some, ◌==◌, if◌then◌else◌,
  distinct, ◌or_else◌, or_else_none, Bool-cases, inl, inr,
}
use dibra.Value.{Value, Fields, str, dict, end, field, get, put, keys, copy_onto}
use dibra.Value.Laws.{get-put, get-copy_onto, distinct-keys-put}
use dibra.Loops.{LoopSpec, merge_context, put_index, put_info, build_loop_vars}

get-merge_context :
    (k : String) (base overrides : Fields)
    → distinct (keys base) ≡ true
    → distinct (keys overrides) ≡ true
    → get k (merge_context base overrides) ≡ get k overrides or_else get k base
unfolding merge_context get
get-merge_context k base end d e = refl
get-merge_context k base (field j v m) d e =
    get-copy_onto k (field j v m) (copy_onto base end) e
    ∙ ap (λ (o : Option Value). get k (field j v m) or_else o)
        (get-copy_onto k base end d ∙ or_else_none (get k base))

item_or_else :
    (b : Bool) (item : Value) (k : String) (o : Option Value)
    → (if b then some item else get k end) or_else o ≡ (if b then some item else o)
unfolding get
item_or_else true item k o = refl
item_or_else false item k o = refl

module _ (int_value : ℕ → Value) (spec : LoopSpec) (item : Value) (idx : ℕ)
    (info : Option Fields) where
  distinct-put_index :
      (m : Fields)
      → distinct (keys m) ≡ true
      → distinct (keys (put_index int_value spec.index_var idx m)) ≡ true
  unfolding put_index
  distinct-put_index m d = elim (Bool-cases (spec.index_var == "")) [
    | inl e ↦ simp (e, d)
    | inr e ↦ simp e (distinct-keys-put spec.index_var (int_value idx) m d)
  ]

  distinct-put_info :
      (o : Option Fields) (m : Fields)
      → distinct (keys m) ≡ true
      → distinct (keys (put_info int_value o m)) ≡ true
  unfolding put_info
  distinct-put_info none m d = d
  distinct-put_info (some i) m d = distinct-keys-put "ansible_loop" (dict i) m d

  distinct-build_loop_vars : distinct (keys (build_loop_vars int_value spec item idx info)) ≡ true
  unfolding build_loop_vars
  distinct-build_loop_vars = distinct-put_info info _ (
      distinct-put_index _ (
        distinct-keys-put "ansible_loop_var" (str spec.loop_var) _
          (distinct-keys-put spec.loop_var item end refl)))

  get-put_info :
      (k : String) (o : Option Fields) (m : Fields)
      → ("ansible_loop" == k) ≡ false
      → get k (put_info int_value o m) ≡ get k m
  unfolding put_info
  get-put_info k none m n = refl
  get-put_info k (some i) m n = get-put "ansible_loop" k (dict i) m ∙ simp n

  get-put_index :
      (k : String) (m : Fields)
      → (spec.index_var == k) ≡ false
      → get k (put_index int_value spec.index_var idx m) ≡ get k m
  unfolding put_index
  get-put_index k m n = elim (Bool-cases (spec.index_var == "")) [
    | inl e ↦ simp e
    | inr e ↦ simp e (get-put spec.index_var k (int_value idx) m ∙ simp n)
  ]

  get-build_loop_vars :
      (k : String)
      → ("ansible_loop" == k) ≡ false
      → (spec.index_var == k) ≡ false
      → ("ansible_loop_var" == k) ≡ false
      → get k (build_loop_vars int_value spec item idx info)
        ≡ (if spec.loop_var == k then some item else get k end)
  unfolding build_loop_vars
  get-build_loop_vars k a b c =
      get-put_info k info _ a
      ∙ get-put_index k _ b
      ∙ get-put "ansible_loop_var" k (str spec.loop_var) (put spec.loop_var item end)
      ∙ simp c (get-put spec.loop_var k item end)

  -- A name that is neither the index variable nor one of the two fixed names of a loop reads, in the
  -- context of an iteration, as the item if it is the loop variable, and else as in the context of the
  -- task.
  pub loop_context_lem :
      (context : Fields) (k : String)
      → distinct (keys context) ≡ true
      → ("ansible_loop" == k) ≡ false
      → (spec.index_var == k) ≡ false
      → ("ansible_loop_var" == k) ≡ false
      → get k (merge_context context (build_loop_vars int_value spec item idx info))
        ≡ (if spec.loop_var == k then some item else get k context)
  loop_context_lem context k d a b c =
      get-merge_context k context (build_loop_vars int_value spec item idx info) d
        distinct-build_loop_vars
      ∙ ap (λ (o : Option Value). o or_else get k context) (get-build_loop_vars k a b c)
      ∙ item_or_else (spec.loop_var == k) item k (get k context)
