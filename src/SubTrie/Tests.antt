-- ===== src/SubTrie/Tests.antt =====
-- The cases of the tests of src/kernel/sub_trie.rs, and the theorems at concrete subscriptions.
use dekit.Prelude.{◌≡◌, false, ◌&&◌, ◌||◌, List, [], ◌∷◌, contains, ◌==◌, if◌then◌else◌}
use dekit.Prelude.Text.{codes}
use dekit.TaskPath.{TaskPath, components}
use dekit.SubTrie.{
  exact, subtree, mode_eq, SubTrie, new, subscribe, unsubscribe, remove_subscriber, is_subscribed,
  collect,
}
use dekit.SubTrie.Registry.{
  holds, told, path_eq, holds-subscribe-unsubscribe, is_subscribed-told, contains-collect,
}
use dekit.SubTrie.Run.{Op, subscribes, unsubscribes, run, is_subscribed-remove_subscriber}

abbrev web : TaskPath
web = record { text = codes "web" }

abbrev web_api : TaskPath
web_api = record { text = codes "web/api" }

-- 1 listens at `web` and below, 2 at `web/api` alone.
abbrev test_ops : List Op
test_ops = subscribes 1 web subtree ∷ subscribes 2 web_api exact ∷ unsubscribes 2 web exact ∷ []

abbrev test_trie : SubTrie
test_trie = run test_ops new

contains-collect_example :
    contains 1 (collect test_trie web_api []) ≡ (contains 1 [] || is_subscribed test_trie 1 web_api)
contains-collect_example = contains-collect test_trie 1 web_api []

is_subscribed-told_example :
    is_subscribed test_trie 1 web_api ≡ told (λ ds m. holds test_trie ds m 1) (components web_api)
is_subscribed-told_example = is_subscribed-told test_trie 1 web_api

holds-subscribe-unsubscribe_example :
    (holds (subscribe test_trie 3 web exact) (codes "web" ∷ []) exact 3 ≡ (
      path_eq (components web) (codes "web" ∷ []) && mode_eq exact exact && (3 == 3)
      || holds test_trie (codes "web" ∷ []) exact 3))
    × (holds (unsubscribe test_trie 3 web exact) (codes "web" ∷ []) exact 3 ≡ (
        if path_eq (components web) (codes "web" ∷ []) && mode_eq exact exact && (3 == 3)
        then false
        else holds test_trie (codes "web" ∷ []) exact 3))
holds-subscribe-unsubscribe_example =
    holds-subscribe-unsubscribe test_trie 3 3 web exact exact (codes "web" ∷ [])

is_subscribed-remove_subscriber_example :
    is_subscribed (remove_subscriber (run test_ops new) 1) 2 web_api
    ≡ (if 1 == 2 then false else is_subscribed (run test_ops new) 2 web_api)
is_subscribed-remove_subscriber_example = is_subscribed-remove_subscriber test_ops 1 2 web_api
