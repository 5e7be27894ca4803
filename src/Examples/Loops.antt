-- ===== src/Examples/Loops.antt =====
-- internal/controller/runner.go on the second iteration of a loop.
use dibra.Prelude.{ℕ, zero, suc, false, ◌≡◌, refl, some, none, [], ◌∷◌, ◌==◌, if◌then◌else◌}
use dibra.Value.{Value, Fields, num, str, end, field, get}
use dibra.Loops.{LoopSpec, merge_context, build_loop_vars}
use dibra.Loops.Context.{loop_context_lem}

abbrev int_value : ℕ → Value
int_value zero = num "0"
int_value (suc i) = num "1"

abbrev two_packages : LoopSpec
two_packages = record {
  items = str "git" ∷ str "vim" ∷ [];
  loop_var = "item";
  index_var = "i";
  extended = false;
}

abbrev host_context : Fields
host_context = field "item" (str "old") (field "user" (str "a") end)

loop_context_lem_example :
    get "item"
      (merge_context host_context (build_loop_vars int_value two_packages (str "vim") 1 none))
    ≡ (if "item" == "item" then some (str "vim") else get "item" host_context)
loop_context_lem_example =
    loop_context_lem int_value two_packages (str "vim") 1 none host_context "item" refl refl refl
      refl
