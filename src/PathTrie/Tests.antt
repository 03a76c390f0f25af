-- ===== src/PathTrie/Tests.antt =====
-- The cases of the tests of src/kernel/path_trie.rs, and the theorems at concrete tries.
use dekit.Prelude.{◌≢◌, ℕ, ◌≡◌, refl, true, some, none, List, [], ◌∷◌, ◌++◌, All, is_some}
use dekit.Prelude.Text.{codes, Text, text_eq}
use dekit.Prelude.Result.{ok, err}
use dekit.TaskPath
use dekit.TaskPath.{
  TaskPath, components, is_valid_component_char, split, parent, rfind, check_components, join,
}
use dekit.TaskPath.Render.{IsComponent, render}
use dekit.PathTrie.{
  before, PathTrie, TrieNode, node, nil, child, taken, last, insert, insert_folder, remove,
  remove_folder, task_above, paths_above, find_task, resolve, walk_to, walk_from, get_child,
  any_node, make, new, nodes, collect_nodes, spot_of, insert_at, put_id, same_id, no_id, put_child,
  count, prune, prune_from, change, shift_remove, get_index_of, position, position_from,
}
use dekit.PathTrie.Above.{IsPath}
use dekit.PathTrie.Under.{id_in}
use dekit.PathTrie.Entries.{task_in, folder_in}
use dekit.PathTrie.Updates.{
  Updates, NoneAbove, insert-Updates, insert_folder-Updates, remove-Updates,
}
use dekit.PathTrie.Leaves.{Op, inserts, removes, inserts_folder, run, IsLeafy, run-IsLeafy}
use dekit.PathTrie.Order.{list_node, last_or}
use dekit.PathTrie.Listing.{ids_listed, IsEntry, before-nodes}
use dekit.PathTrie.Groups.{run-walk}

abbrev web : TaskPath
web = record { text = codes "web" }

abbrev web_api : TaskPath
web_api = record { text = codes "web/api" }

web-IsPath : IsPath web
unfolding components split render is_valid_component_char
web-IsPath = ((((λ e. cc), (refl, (refl, (refl, tt)))), tt), refl)

web_api-IsPath : IsPath web_api
unfolding components split render is_valid_component_char
web_api-IsPath =
    ((((λ e. cc), (refl, (refl, (refl, tt)))), (((λ e. cc), (refl, (refl, (refl, tt)))), tt)), refl)

-- A folder `web` with a task `api` in it.
abbrev api_node : TrieNode
api_node = node (some 8) none nil

abbrev test_trie : PathTrie
test_trie = record {
  root =
      node none none
        (child (codes "web") (node none (some 7) (child (codes "api") api_node nil)) nil);
}

abbrev test_ops : List Op
test_ops = inserts_folder web 7 last ∷ inserts web_api 8 last ∷ removes web_api ∷ []

abbrev folder_trie : PathTrie
folder_trie = record { root = node none none (child (codes "web") (node none (some 7) nil) nil) }

steps :
    (insert_folder new web 7 last ≡ ok folder_trie)
    × (insert folder_trie web_api 8 last ≡ ok test_trie)
    × (insert test_trie web_api 9 last ≡ err (taken 8))
    × (insert test_trie web 9 last ≡ err (taken 7))
    × (remove test_trie web_api ≡ (some 8, folder_trie))
    × (remove_folder folder_trie web ≡ (some 7, new))
unfolding insert insert_folder remove remove_folder task_above paths_above find_task resolve walk_to
    walk_from get_child any_node make spot_of insert_at put_child prune prune_from change
    shift_remove components split parent rfind text_eq count
steps = (refl, refl, refl, refl, refl, refl)

insert-Updates_example :
    NoneAbove folder_trie (components web_api)
    × ((ds : List Text)
        → All IsComponent ds
        → id_in (components web_api ++ ds) folder_trie.root ≡ none)
    × Updates folder_trie.root (components web_api) (put_id 8) same_id test_trie.root
insert-Updates_example = insert-Updates folder_trie test_trie web_api 8 last web_api-IsPath steps.1

insert_folder-Updates_example :
    NoneAbove new (components web)
    × (id_in (components web) new.root ≡ none)
    × Updates new.root (components web) same_id (put_id 7) folder_trie.root
insert_folder-Updates_example = insert_folder-Updates new folder_trie web 7 last web-IsPath steps.0

remove-Updates_example :
    ((remove test_trie web_api).0 ≡ task_in (components web_api) test_trie.root)
    × Updates test_trie.root (components web_api) no_id same_id ((remove test_trie web_api).1).root
    × ((remove_folder test_trie web_api).0 ≡ folder_in (components web_api) test_trie.root)
    × Updates test_trie.root
        (components web_api)
        same_id
        no_id
        ((remove_folder test_trie web_api).1).root
remove-Updates_example = remove-Updates test_trie web_api

run-IsLeafy_example : IsLeafy (run test_ops new)
run-IsLeafy_example = run-IsLeafy test_ops (web-IsPath, (web_api-IsPath, (web_api-IsPath, tt)))

after_ops : walk_from (codes "web" ∷ []) (run test_ops new).root ≡ some (node none (some 7) nil)
unfolding run insert insert_folder remove task_above paths_above find_task resolve walk_to walk_from
    get_child any_node make spot_of insert_at put_child prune prune_from change shift_remove
    components split parent rfind text_eq count
after_ops = refl

run-walk_example :
    (ds : List Text) × (is_some (id_in (codes "web" ∷ [] ++ ds) (run test_ops new).root) ≡ true)
run-walk_example =
    run-walk test_ops (codes "web") [] (node none (some 7) nil) (refl, (refl, (refl, tt))) after_ops

order_tests :
    (position test_trie web_api ≡ some (0 ∷ 0 ∷ []))
    × (nodes test_trie web ≡ (web, 7) ∷ (web_api, 8) ∷ [])
unfolding position position_from nodes walk_to walk_from get_child get_index_of collect_nodes
    components split text_eq TaskPath.new check_components join
order_tests = (refl, refl)

abbrev two_ops : List Op
two_ops = inserts_folder web 7 last ∷ inserts web_api 8 last ∷ []

api_there : walk_to (run two_ops new) web_api ≡ some api_node
unfolding run insert insert_folder task_above paths_above find_task resolve walk_to walk_from
    get_child any_node make spot_of insert_at put_child components split parent rfind text_eq count
api_there = refl

some_components : components web_api ≢ []
unfolding components split
some_components = λ e. cc

before-nodes_example :
    (ids_listed (nodes (run two_ops new) web_api) ≡ list_node api_node)
    × All (IsEntry (components web_api) api_node) (nodes (run two_ops new) web_api)
    × (earlier : List ℕ) × (later : List ℕ) × (list_node (run two_ops new).root
        ≡ (earlier ++ list_node api_node) ++ later)
    × (before (run two_ops new) web_api ≡ last_or earlier none)
before-nodes_example =
    before-nodes two_ops web_api api_node (web-IsPath, (web_api-IsPath, tt)) web_api-IsPath
      some_components api_there refl
