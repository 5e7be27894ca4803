-- ===== src/Examples/LoopItems.antt =====
-- internal/controller/runner.go: the items of a sequence, and the loop of a task.
use dibra.Prelude.{
  ◌+◌, ◌*◌, ◌≤◌, ◌<◌, true, false, ◌≡◌, refl, none, some, [], ◌∷◌, ◌==◌, if◌then◌else◌, arith, All,
  map, ok,
}
use dibra.Value.{null, num, str, list, nil, cons, end}
use dibra.Tasks.{Task}
use dibra.Loops.Sequence.{
  SequenceSpec, TextTools, complete_spec, sequence_values, quotient, minus, plus, times,
}
use dibra.Loops.Sequence.Range.{IsRising, above_least, steps, progression, complete_spec_lem}
use dibra.Loops.Resolve.{Renderer, resolve_loop_spec}
use dibra.Loops.Resolve.Sources.{Sound, resolve_loop_spec-Sound}

-- start=-1 end=7 stride=3
abbrev by_three : SequenceSpec
by_three = record {
  start = 18446744073709551615;
  last = 7;
  count = 0;
  stride = 3;
  format = "";
  has_end = true;
  has_count = false;
}

by_three-IsRising : IsRising by_three
by_three-IsRising = record {
  no_count = refl;
  bounded = refl;
  start_word = omega arith;
  end_word = omega arith;
  ordered = omega arith;
  distance_small = omega arith;
  stride_positive = omega arith;
  stride_small = omega arith;
}

complete_spec_lem_example :
    (complete_spec by_three ≡ ok (record by_three { count = steps by_three; has_count = true }))
    × (map above_least (sequence_values by_three.start 3 0 (steps by_three))
        ≡ progression (above_least by_three.start) 3 0 (steps by_three))
    × All
        (λ v.
          (above_least by_three.start ≤ above_least v)
          × (above_least v ≤ above_least by_three.last))
        (sequence_values by_three.start 3 0 (steps by_three))
    × (above_least by_three.last < above_least by_three.start + steps by_three * 3)
complete_spec_lem_example = complete_spec_lem by_three by_three-IsRising

-- start=1 end=0 stride=2, which has the item 1
abbrev backwards : SequenceSpec
backwards = record by_three { start = 1; last = 0; stride = 2 }

complete_backwards : complete_spec backwards ≡ ok (record backwards { count = 1; has_count = true })
unfolding complete_spec quotient minus plus
complete_backwards = refl

backwards_values : sequence_values 1 2 0 1 ≡ 1 ∷ []
unfolding sequence_values plus times
backwards_values = refl

abbrev plain_tools : TextTools
plain_tools = record {
  atoi = λ s. if s == "2" then some 2 else none;
  sprint = λ v. "2";
  sprintf = λ format n. format;
  split_fields = λ s. s ∷ [];
  int_value = λ n. num "2";
}

abbrev plain_renderer : Renderer (Unit {0})
plain_renderer = record {
  render_string = λ s context. ok s;
  render_template_value = λ s context. ok (str s);
  render_value = λ v context. ok v;
}

abbrev install_each : Task
install_each = record {
  name = "install";
  vars = end;
  conditions = [];
  loop = some (list (cons (str "git") (cons (str "vim") nil)));
  with_items = none;
  with_list = none;
  with_dict = none;
  with_sequence = none;
  import_tasks = none;
  include_tasks = none;
  source_dir = [];
  register = "";
  notify = [];
  listen = [];
  changed_when = [];
  meta = none;
  set_fact = false;
  include_vars = false;
  reboot = false;
  action = null;
}

resolve_loop_spec-Sound_example :
    Sound install_each (resolve_loop_spec plain_renderer plain_tools install_each none end)
resolve_loop_spec-Sound_example =
    resolve_loop_spec-Sound plain_renderer plain_tools install_each none end
