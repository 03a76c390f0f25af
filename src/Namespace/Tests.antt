-- ===== src/Namespace/Tests.antt =====
-- The theorems at concrete spaces.
use dekit.Prelude.{◌≡◌, false, List, [], ◌∷◌, ◌==◌, if◌then◌else◌}
use dekit.Prelude.Text.{codes}
use dekit.TaskPath.{TaskPath}
use dekit.SubTrie
use dekit.SubTrie.{subtree}
use dekit.SubTrie.Run
use dekit.PathTrie
use dekit.PathTrie.{last}
use dekit.PathTrie.Leaves
use dekit.Namespace.{TaskKey, new, is_subscribed, remove_subscriber}
use dekit.Namespace.Slots.{slot}
use dekit.Namespace.Spaces.{
  Op, inserts, removes, subscribes, run, path_ops, sub_ops, run-slot,
  is_subscribed-remove_everywhere,
}

abbrev web : TaskPath
web = record { text = codes "web" }

abbrev here : TaskKey
here = record { space = []; path = web }

abbrev there : TaskKey
there = record { space = codes "dekit"; path = web }

abbrev test_ops : List Op
test_ops =
    inserts here 5 last
    ∷ inserts there 6 last
    ∷ subscribes 5 there subtree
    ∷ subscribes 7 here subtree
    ∷ removes there
    ∷ []

run-slot_example :
    ((slot (codes "dekit") (run test_ops new)).paths
      ≡ PathTrie.Leaves.run (path_ops (codes "dekit") test_ops) PathTrie.new)
    × ((slot (codes "dekit") (run test_ops new)).subs
        ≡ SubTrie.Run.run (sub_ops (codes "dekit") test_ops) SubTrie.new)
run-slot_example = run-slot (codes "dekit") test_ops

is_subscribed-remove_everywhere_example :
    is_subscribed (remove_subscriber (run test_ops new) 5) 7 [] web
    ≡ (if 5 == 7 then false else is_subscribed (run test_ops new) 7 [] web)
is_subscribed-remove_everywhere_example = is_subscribed-remove_everywhere test_ops 5 7 [] web
