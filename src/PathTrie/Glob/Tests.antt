-- ===== src/PathTrie/Glob/Tests.antt =====
-- The answers of globs at a concrete trie.
use dekit.Prelude.{◌≡◌, ◌↔◌, refl, true, some, none, is_some, List, [], ◌∷◌, All}
use dekit.Prelude.Text.{Text, codes, text_eq}
use dekit.TaskPath
use dekit.TaskPath.{
  TaskPath, split, components, is_valid_component_char, join, check_components, cmp, components_cmp,
  text_cmp,
}
use dekit.TaskPath.Render.{IsComponent, render, path_of}
use dekit.PathTrie.{PathTrie, node, nil, child, get_child, new, last, walk_from}
use dekit.PathTrie.Above.{IsPath}
use dekit.PathTrie.Entries.{task_in}
use dekit.PathTrie.Leaves.{Op, inserts, run}
use dekit.PathTrie.Glob.{
  glob, glob_nodes, glob_matches, glob_walk, star_node, each_child, sort, insert_sorted,
  dedup_after,
}
use dekit.PathTrie.Glob.Ordered.{IsIn}
use dekit.PathTrie.Glob.Matches.{matches}
use dekit.PathTrie.Glob.Answers.{parts, glob_iff}

abbrev web_api : List Text
web_api = codes "web" ∷ codes "api" ∷ []

web_api-All : All IsComponent web_api
unfolding is_valid_component_char
web_api-All =
    (((λ e. cc), (refl, (refl, (refl, tt)))), (((λ e. cc), (refl, (refl, (refl, tt)))), tt))

abbrev web_api_path : TaskPath
web_api_path = record { text = codes "web/api" }

web_api-IsPath : IsPath web_api_path
unfolding components split render
web_api-IsPath = (web_api-All, refl)

abbrev test_ops : List Op
test_ops = inserts web_api_path 8 last ∷ []

abbrev test_trie : PathTrie
test_trie = record {
  root = node none none (
      child (codes "web") (node none (some 7) (child (codes "api") (node (some 8) none nil) nil))
        (child (codes "db") (node (some 9) none nil) nil));
}

glob_tests :
    (glob test_trie (codes "**") ≡ (record { text = codes "db" }, 9) ∷ (web_api_path, 8) ∷ [])
    × (glob test_trie (codes "*") ≡ (record { text = codes "db" }, 9) ∷ [])
    × (glob test_trie (codes "**/**/api") ≡ (web_api_path, 8) ∷ [])
    × (glob_nodes test_trie (codes "web") ≡ record { text = codes "web" } ∷ [])
unfolding glob glob_nodes glob_matches glob_walk star_node each_child sort insert_sorted dedup_after
    split get_child TaskPath.new check_components join text_eq cmp components_cmp text_cmp
    components
glob_tests = (refl, refl, refl, refl)

glob_iff_example :
    (IsIn (path_of web_api, 8) (glob (run test_ops new) (codes "**/api")) ↔ (
      (task_in web_api (run test_ops new).root ≡ some 8)
      × (matches (parts (codes "**/api")) web_api ≡ true)))
    × (IsIn (path_of web_api) (glob_nodes (run test_ops new) (codes "**/api")) ↔ (
        (is_some (walk_from web_api (run test_ops new).root) ≡ true)
        × (matches (parts (codes "**/api")) web_api ≡ true)))
glob_iff_example =
    glob_iff test_ops (web_api-IsPath, tt) (codes "**/api") web_api web_api-All (λ e. cc) 8
