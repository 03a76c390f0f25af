-- ===== src/PathTrie/Entries.antt =====
-- The trie as the two maps that it stands for: which task, and which folder, is at a path.
use dekit.Prelude.{
  ℕ, zero, suc, ◌≡◌, refl, true, ◌&&◌, Option, none, some, Option-cases, inl, inr, List, [], ◌∷◌,
  arith, if◌then◌else◌, is_some,
}
use dekit.Prelude.Text.{Text, text_eq, text_eq_iff}
use dekit.SubTrie.Registry.{path_eq}
use dekit.PathTrie.{
  TrieNode, node, Children, nil, child, Spot, empty_node, task_of, folder_of, is_empty, bind_option,
  get_child, put_child, insert_at, shift_remove, walk_from, make_index, make, edit, change,
  prune_from,
}

pub get_child-put_child :
    (c d : Text) (n : TrieNode) (ch : Children)
    → get_child d (put_child c n ch)
      ≡ (if text_eq c d && is_some (get_child c ch) then some n else get_child d ch)
unfolding get_child put_child
get_child-put_child c d n nil = ground arith
get_child-put_child c d n (child e m ch) =
    ground (arith, get_child-put_child c d n ch, text_eq_iff c d, text_eq_iff e c, text_eq_iff e d)

pub get_child-insert_at :
    (i : ℕ) (c d : Text) (n : TrieNode) (ch : Children)
    → get_child c ch ≡ none
    → get_child d (insert_at i c n ch) ≡ (if text_eq c d then some n else get_child d ch)
unfolding get_child insert_at
get_child-insert_at zero c d n ch g = refl
get_child-insert_at (suc i) c d n nil g = refl
get_child-insert_at (suc i) c d n (child e m ch) g =
    ground
      (arith, get_child-insert_at i c d n ch, text_eq_iff c d, text_eq_iff e c, text_eq_iff e d)

pub get_child-shift_remove :
    (c d : Text) (ch : Children)
    → get_child d (shift_remove c ch) ≡ (if text_eq c d then none else get_child d ch)
unfolding get_child shift_remove
get_child-shift_remove c d nil = ground arith
get_child-shift_remove c d (child e m ch) =
    ground (arith, get_child-shift_remove c d ch, text_eq_iff c d, text_eq_iff e c, text_eq_iff e d)

-- The task and the folder at a path of names.
unfoldable pub task_in : List Text → TrieNode → Option ℕ
task_in [] (node t fo ch) = t
task_in (c ∷ cs) (node t fo ch) = elim (get_child c ch) [ none ↦ none | some n ↦ task_in cs n ]

unfoldable pub folder_in : List Text → TrieNode → Option ℕ
folder_in [] (node t fo ch) = fo
folder_in (c ∷ cs) (node t fo ch) = elim (get_child c ch) [ none ↦ none | some n ↦ folder_in cs n ]

pub task_in-walk :
    (cs : List Text) (n : TrieNode) → bind_option (walk_from cs n) task_of ≡ task_in cs n
unfolding task_in walk_from
task_in-walk [] (node t fo ch) = refl
task_in-walk (c ∷ cs) (node t fo ch) = elim (Option-cases (get_child c ch)) [
  | inl gone ↦ ground arith
  | inr (n, at) ↦ ground (arith, task_in-walk cs n)
]

pub folder_in-walk :
    (cs : List Text) (n : TrieNode) → bind_option (walk_from cs n) folder_of ≡ folder_in cs n
unfolding folder_in walk_from
folder_in-walk [] (node t fo ch) = refl
folder_in-walk (c ∷ cs) (node t fo ch) = elim (Option-cases (get_child c ch)) [
  | inl gone ↦ ground arith
  | inr (n, at) ↦ ground (arith, folder_in-walk cs n)
]

pub task_in-empty : (cs : List Text) → task_in cs empty_node ≡ none
unfolding task_in get_child
task_in-empty [] = refl
task_in-empty (c ∷ cs) = refl

folder_in-empty : (cs : List Text) → folder_in cs empty_node ≡ none
unfolding folder_in get_child
folder_in-empty [] = refl
folder_in-empty (c ∷ cs) = refl

module _ (ft ff : Option ℕ → Option ℕ) where
  -- The entries after a change at a path, made if it was not there.
  pub task_in-make :
      (cs ds : List Text) (spot : Spot) (n : TrieNode)
      → task_in ds (make cs spot (edit ft ff) n)
        ≡ (if path_eq cs ds then ft (task_in cs n) else task_in ds n)
  unfolding task_in make path_eq
  task_in-make [] [] spot (node t fo ch) = refl
  task_in-make [] (d ∷ ds) spot (node t fo ch) = refl
  task_in-make (c ∷ cs) [] spot (node t fo ch) = ground arith
  task_in-make (c ∷ cs) (d ∷ ds) spot (node t fo ch) = elim (Option-cases (get_child c ch)) [
    | inl gone ↦ ground (
      arith,
      text_eq_iff c d,
      task_in-make cs ds spot empty_node,
      task_in-empty ds,
      task_in-empty cs,
      get_child-insert_at (make_index cs spot ch) c d (make cs spot (edit ft ff) empty_node) ch,
    )
    | inr (n, at) ↦ ground (
      arith,
      text_eq_iff c d,
      task_in-make cs ds spot n,
      get_child-put_child c d (make cs spot (edit ft ff) n) ch,
    )
  ]

  pub folder_in-make :
      (cs ds : List Text) (spot : Spot) (n : TrieNode)
      → folder_in ds (make cs spot (edit ft ff) n)
        ≡ (if path_eq cs ds then ff (folder_in cs n) else folder_in ds n)
  unfolding folder_in make path_eq
  folder_in-make [] [] spot (node t fo ch) = refl
  folder_in-make [] (d ∷ ds) spot (node t fo ch) = refl
  folder_in-make (c ∷ cs) [] spot (node t fo ch) = ground arith
  folder_in-make (c ∷ cs) (d ∷ ds) spot (node t fo ch) = elim (Option-cases (get_child c ch)) [
    | inl gone ↦ ground (
      arith,
      text_eq_iff c d,
      folder_in-make cs ds spot empty_node,
      folder_in-empty ds,
      folder_in-empty cs,
      get_child-insert_at (make_index cs spot ch) c d (make cs spot (edit ft ff) empty_node) ch,
    )
    | inr (n, at) ↦ ground (
      arith,
      text_eq_iff c d,
      folder_in-make cs ds spot n,
      get_child-put_child c d (make cs spot (edit ft ff) n) ch,
    )
  ]

  -- The entries after a change of the node at a path, where it is there.
  pub task_in-change :
      (cs ds : List Text) (n : TrieNode)
      → ft none ≡ none
      → task_in ds (change cs (edit ft ff) n)
        ≡ (if path_eq cs ds then ft (task_in cs n) else task_in ds n)
  unfolding task_in change path_eq
  task_in-change [] [] (node t fo ch) z = refl
  task_in-change [] (d ∷ ds) (node t fo ch) z = refl
  task_in-change (c ∷ cs) [] (node t fo ch) z = ground arith
  task_in-change (c ∷ cs) (d ∷ ds) (node t fo ch) z = elim (Option-cases (get_child c ch)) [
    | inl gone ↦ ground (arith, text_eq_iff c d)
    | inr (n, at) ↦ ground (
      arith,
      text_eq_iff c d,
      task_in-change cs ds n z,
      get_child-put_child c d (change cs (edit ft ff) n) ch,
    )
  ]

  pub folder_in-change :
      (cs ds : List Text) (n : TrieNode)
      → ff none ≡ none
      → folder_in ds (change cs (edit ft ff) n)
        ≡ (if path_eq cs ds then ff (folder_in cs n) else folder_in ds n)
  unfolding folder_in change path_eq
  folder_in-change [] [] (node t fo ch) z = refl
  folder_in-change [] (d ∷ ds) (node t fo ch) z = refl
  folder_in-change (c ∷ cs) [] (node t fo ch) z = ground arith
  folder_in-change (c ∷ cs) (d ∷ ds) (node t fo ch) z = elim (Option-cases (get_child c ch)) [
    | inl gone ↦ ground (arith, text_eq_iff c d)
    | inr (n, at) ↦ ground (
      arith,
      text_eq_iff c d,
      folder_in-change cs ds n z,
      get_child-put_child c d (change cs (edit ft ff) n) ch,
    )
  ]

task_in-is_empty : (ds : List Text) (n : TrieNode) → is_empty n ≡ true → task_in ds n ≡ none
unfolding task_in get_child
task_in-is_empty [] (node none fo ch) e = refl
task_in-is_empty [] (node (some t) fo ch) e = ground arith
task_in-is_empty (d ∷ ds) (node t fo nil) e = refl
task_in-is_empty (d ∷ ds) (node t fo (child c m ch)) e = ground arith

folder_in-is_empty : (ds : List Text) (n : TrieNode) → is_empty n ≡ true → folder_in ds n ≡ none
unfolding folder_in get_child
folder_in-is_empty [] (node t none ch) e = refl
folder_in-is_empty [] (node none (some fo) ch) e = ground arith
folder_in-is_empty [] (node (some t) (some fo) ch) e = ground arith
folder_in-is_empty (d ∷ ds) (node t fo nil) e = refl
folder_in-is_empty (d ∷ ds) (node t fo (child c m ch)) e = ground arith

-- Pruning changes no entry.
pub task_in-prune : (cs ds : List Text) (n : TrieNode) → task_in ds (prune_from cs n) ≡ task_in ds n
unfolding task_in prune_from
task_in-prune [] ds n = refl
task_in-prune (c ∷ cs) [] (node t fo ch) = ground arith
task_in-prune (c ∷ cs) (d ∷ ds) (node t fo ch) = elim (Option-cases (get_child c ch)) [
  | inl gone ↦ ground arith
  | inr (n, at) ↦ ground (
    arith,
    text_eq_iff c d,
    task_in-prune cs ds n,
    task_in-is_empty ds (prune_from cs n),
    get_child-shift_remove c d ch,
    get_child-put_child c d (prune_from cs n) ch,
  )
]

pub folder_in-prune :
    (cs ds : List Text) (n : TrieNode) → folder_in ds (prune_from cs n) ≡ folder_in ds n
unfolding folder_in prune_from
folder_in-prune [] ds n = refl
folder_in-prune (c ∷ cs) [] (node t fo ch) = ground arith
folder_in-prune (c ∷ cs) (d ∷ ds) (node t fo ch) = elim (Option-cases (get_child c ch)) [
  | inl gone ↦ ground arith
  | inr (n, at) ↦ ground (
    arith,
    text_eq_iff c d,
    folder_in-prune cs ds n,
    folder_in-is_empty ds (prune_from cs n),
    get_child-shift_remove c d ch,
    get_child-put_child c d (prune_from cs n) ch,
  )
]
