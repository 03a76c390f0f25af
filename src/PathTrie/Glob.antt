-- ===== src/PathTrie/Glob.antt =====
-- `glob` and `glob_nodes` of src/kernel/path_trie.rs: the paths that a pattern matches.
pub mod Matches
pub mod Ordered
pub mod Sound
pub mod Answers
mod Tests
use Prim.Native.Nat.{compare, Ordering}
use dekit.Prelude.{
  ℕ, Bool, true, false, ◌&&◌, ◌||◌, Option, none, some, List, [], ◌∷◌, ◌++◌, ◌==◌, if◌then◌else◌,
  is_some,
}
use dekit.Prelude.Text.{Text, codes, text_eq}
use dekit.TaskPath.{TaskPath, join, split, cmp, filter_nonempty}
use dekit.PathTrie.{PathTrie, TrieNode, node, Children, nil, child, get_child, path_at, task_of}

-- A match: the path and the task that is there, if any.
abbrev pub Match : Type 0
Match = TaskPath × Option ℕ

abbrev pub Walk : Type 0
Walk = TrieNode → Text → List Match

abbrev pub children_of : TrieNode → Children
children_of (node t fo ch) = ch

-- `**`: the rest of the pattern at the node, and the pattern again at each child.
mutual
  pub star_node : Walk → TrieNode → Text → List Match
  star_node rest (node t fo ch) prefix = rest (node t fo ch) prefix ++ star_children rest ch prefix

  pub star_children : Walk → Children → Text → List Match
  star_children rest nil prefix = []
  star_children rest (child c n ch) prefix =
      star_node rest n (join prefix c) ++ star_children rest ch prefix

-- `*`: the rest of the pattern at each child.
unfoldable pub each_child : Walk → Children → Text → List Match
each_child rest nil prefix = []
each_child rest (child c n ch) prefix = rest n (join prefix c) ++ each_child rest ch prefix

abbrev pub match_at : Option TaskPath → Option ℕ → List Match
match_at none id = []
match_at (some path) id = (path, id) ∷ []

unfoldable pub glob_walk : Bool → List Text → Walk
glob_walk groups [] n prefix =
    if groups || is_some (task_of n) then match_at (path_at prefix) (task_of n) else []
glob_walk groups (pat ∷ rest) n prefix =
    let walk_rest = glob_walk groups rest in
    if text_eq pat (codes "**")
    then star_node walk_rest n prefix
    else if text_eq pat (codes "*")
    then each_child walk_rest (children_of n) prefix
    else elim (get_child pat (children_of n)) [ none ↦ [] | some m ↦ walk_rest m (join prefix pat) ]

-- `Ord` of a pair of a path and an optional id.
abbrev pub option_cmp : Option ℕ → Option ℕ → Ordering
option_cmp none none = Ordering.eq
option_cmp none (some b) = Ordering.lt
option_cmp (some a) none = Ordering.gt
option_cmp (some a) (some b) = compare a b

abbrev pub goes_after : Match → Match → Bool
goes_after (p, a) (q, b) = elim (cmp p q) [
  | Ordering.lt ↦ false
  | Ordering.eq ↦ elim (option_cmp a b) [
    | Ordering.gt ↦ true
    | Ordering.lt ↦ false
    | Ordering.eq ↦ false
  ]
  | Ordering.gt ↦ true
]

-- `Vec::sort`, by insertion, and `Vec::dedup`.
unfoldable pub insert_sorted : Match → List Match → List Match
insert_sorted a [] = a ∷ []
insert_sorted a (b ∷ bs) =
    let rest = insert_sorted a bs in if goes_after a b then b ∷ rest else a ∷ b ∷ bs

unfoldable pub sort : List Match → List Match
sort [] = []
sort (a ∷ as') = insert_sorted a (sort as')

abbrev pub same_option : Option ℕ → Option ℕ → Bool
same_option none none = true
same_option (some a) (some b) = a == b
same_option _ _ = false

abbrev pub same_match : Match → Match → Bool
same_match (p, a) (q, b) = text_eq p.text q.text && same_option a b

-- The last kept, and what is left.
unfoldable pub dedup_after : Match → List Match → List Match
dedup_after a [] = []
dedup_after a (b ∷ bs) = if same_match a b then dedup_after a bs else b ∷ dedup_after b bs

abbrev pub dedup : List Match → List Match
dedup [] = []
dedup (a ∷ as') = a ∷ dedup_after a as'

unfoldable pub glob_matches : Bool → PathTrie → Text → List Match
glob_matches groups t pattern =
    dedup (sort (glob_walk groups (filter_nonempty (split pattern)) t.root []))

-- The tasks among the matches, and the paths of the matches.
abbrev pub with_tasks : List Match → List (TaskPath × ℕ)
with_tasks [] = []
with_tasks ((p, none) ∷ rest) = with_tasks rest
with_tasks ((p, some id) ∷ rest) = (p, id) ∷ with_tasks rest

abbrev pub paths_of : List Match → List TaskPath
paths_of [] = []
paths_of ((p, id) ∷ rest) = p ∷ paths_of rest

unfoldable pub glob : PathTrie → Text → List (TaskPath × ℕ)
glob t pattern = with_tasks (glob_matches false t pattern)

unfoldable pub glob_nodes : PathTrie → Text → List TaskPath
glob_nodes t pattern = paths_of (glob_matches true t pattern)
