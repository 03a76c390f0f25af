-- ===== src/PathTrie/Childless.antt =====
-- A node with a task lists nothing else, in a trie whose maps say that tasks are the leaves.
use dekit.Prelude.{
  ℕ, ◌≡◌, ◌≢◌, refl, sym, ap, ◌∙◌, true, false, Option, none, Bool-cases, inl, inr, List, [], ◌∷◌,
  ◌++◌, All, arith, is_some,
}
use dekit.Prelude.Text.{Text, text_eq, text_eq_iff, text_eq_refl}
use dekit.TaskPath.Render.{IsComponent}
use dekit.PathTrie.{TrieNode, node, Children, nil, child, or_option, get_child}
use dekit.PathTrie.Entries.{task_in, folder_in}
use dekit.PathTrie.Under.{id_in, id_in-first, id_in-rest}
use dekit.PathTrie.Updates.{id_in-entries}
use dekit.PathTrie.Names.{IsNamed, AreNamed}
use dekit.PathTrie.Order.{list_node, list_children, IsLeafNode, AreLeafNodes, one_id}

pub id_in-gone :
    (t fo : Option ℕ) (d : Text) (ch : Children) (ds : List Text)
    → get_child d ch ≡ none
    → id_in (d ∷ ds) (node t fo ch) ≡ none
unfolding id_in
id_in-gone t fo d ch ds e = ground arith

task_in-gone :
    (t fo : Option ℕ) (d : Text) (ch : Children) (ds : List Text)
    → get_child d ch ≡ none
    → task_in (d ∷ ds) (node t fo ch) ≡ none
unfolding task_in
task_in-gone t fo d ch ds e = ground arith

-- What the later children say of a path, where the first is of another name.
id_in-later :
    (t fo : Option ℕ) (c d : Text) (n : TrieNode) (ch : Children) (ds : List Text)
    → get_child c ch ≡ none
    → id_in (d ∷ ds) (node t fo (child c n ch)) ≡ none
    → id_in (d ∷ ds) (node t fo ch) ≡ none
id_in-later t fo c d n ch ds gone e = elim (Bool-cases (text_eq c d)) [
  | inl is ↦
      id_in-gone t fo d ch ds (ap (λ k. get_child k ch) (sym ((text_eq_iff c d).0 is)) ∙ gone)
  | inr other ↦ sym (id_in-rest t fo c d n ch ds other) ∙ e
]

mutual
  unfolding list_node list_children IsNamed AreNamed id_in

  none_listed :
      (n : TrieNode)
      → IsNamed n
      → ((ds : List Text) → All IsComponent ds → id_in ds n ≡ none)
      → list_node n ≡ []
  none_listed (node t fo ch) a h =
      ap (λ o. one_id o ++ list_children ch) (h [] tt)
      ∙ none_listed_children t fo ch a (λ d ds v. h (d ∷ ds) v)

  none_listed_children :
      (t fo : Option ℕ) (ch : Children)
      → AreNamed ch
      → ((d : Text) (ds : List Text)
          → All IsComponent (d ∷ ds)
          → id_in (d ∷ ds) (node t fo ch) ≡ none)
      → list_children ch ≡ []
  none_listed_children t fo nil a h = refl
  none_listed_children t fo (child c n ch) a h =
      ap (λ ids. ids ++ list_children ch)
        (none_listed n a.2
          (λ ds v. sym (id_in-first t fo c c n ch ds (text_eq_refl c)) ∙ h c ds (a.0, v)))
      ∙ none_listed_children t fo ch a.3 (λ d ds v. id_in-later t fo c d n ch ds a.1 (h d ds v))

-- At a path with a task there is no folder, and nothing is under it.
abbrev AreTasksLeaves : (List Text → Option ℕ) → (List Text → Option ℕ) → Type 0
AreTasksLeaves tasks folders =
    (cs ds : List Text)
    → All IsComponent (cs ++ ds)
    → is_some (tasks cs) ≡ true
    → (folders (cs ++ ds) ≡ none) × (ds ≢ [] → tasks (cs ++ ds) ≡ none)

task_in-first :
    (t fo : Option ℕ) (c : Text) (n : TrieNode) (ch : Children) (ds : List Text)
    → (task_in (c ∷ ds) (node t fo (child c n ch)) ≡ task_in ds n)
      × (folder_in (c ∷ ds) (node t fo (child c n ch)) ≡ folder_in ds n)
unfolding task_in folder_in get_child
task_in-first t fo c n ch ds = (ground (arith, text_eq_refl c), ground (arith, text_eq_refl c))

task_in-rest :
    (t fo : Option ℕ) (c d : Text) (n : TrieNode) (ch : Children) (ds : List Text)
    → text_eq c d ≡ false
    → (task_in (d ∷ ds) (node t fo (child c n ch)) ≡ task_in (d ∷ ds) (node t fo ch))
      × (folder_in (d ∷ ds) (node t fo (child c n ch)) ≡ folder_in (d ∷ ds) (node t fo ch))
unfolding task_in folder_in get_child
task_in-rest t fo c d n ch ds other = (ground arith, ground arith)

-- The same of paths with a first name.
abbrev AreTasksLeavesUnder : Children → Type 0
AreTasksLeavesUnder ch =
    (c : Text) (cs ds : List Text)
    → All IsComponent (c ∷ cs ++ ds)
    → is_some (task_in (c ∷ cs) (node none none ch)) ≡ true
    → (folder_in (c ∷ cs ++ ds) (node none none ch) ≡ none)
      × (ds ≢ [] → task_in (c ∷ cs ++ ds) (node none none ch) ≡ none)

first-AreTasksLeaves :
    (c : Text) (n : TrieNode) (ch : Children)
    → IsComponent c
    → AreTasksLeavesUnder (child c n ch)
    → AreTasksLeaves (λ cs. task_in cs n) (λ cs. folder_in cs n)
first-AreTasksLeaves c n ch vc h cs ds v has =
    let first = task_in-first none none c n ch in
    let (no_folder, no_task) = h c cs ds (vc, v) (ap is_some (first cs).0 ∙ has) in
    (sym (first (cs ++ ds)).1 ∙ no_folder, λ e. sym (first (cs ++ ds)).0 ∙ no_task e)

rest-AreTasksLeavesUnder :
    (c : Text) (n : TrieNode) (ch : Children)
    → get_child c ch ≡ none
    → AreTasksLeavesUnder (child c n ch)
    → AreTasksLeavesUnder ch
rest-AreTasksLeavesUnder c n ch gone h d cs ds v has = elim (Bool-cases (text_eq c d)) [
  | inl is ↦ absurd (
      cc (
        has,
        ap is_some (
            task_in-gone none none d ch cs
              (ap (λ k. get_child k ch) (sym ((text_eq_iff c d).0 is)) ∙ gone)),
      ))
  | inr other ↦
      let rest = λ (es : List Text). task_in-rest none none c d n ch es other in
      let (no_folder, no_task) = h d cs ds v (ap is_some (rest cs).0 ∙ has) in
      (sym (rest (cs ++ ds)).1 ∙ no_folder, λ e. sym (rest (cs ++ ds)).0 ∙ no_task e)
]

mutual
  unfolding IsLeafNode AreLeafNodes IsNamed AreNamed task_in folder_in

  pub leaf_node :
      (n : TrieNode)
      → IsNamed n
      → AreTasksLeaves (λ cs. task_in cs n) (λ cs. folder_in cs n)
      → IsLeafNode n
  leaf_node (node t fo ch) a h = (
    (λ is. (
      (h [] [] tt is).0,
      none_listed_children t fo ch a (λ d ds v.
          let (no_folder, no_task) = h [] (d ∷ ds) v is in
          id_in-entries (d ∷ ds) (node t fo ch)
          ∙ ap (λ o. or_option o (folder_in (d ∷ ds) (node t fo ch))) (no_task (λ e. cc))
          ∙ no_folder),
    )),
    leaf_children ch a (λ c cs ds v has. h (c ∷ cs) ds v has),
  )

  leaf_children : (ch : Children) → AreNamed ch → AreTasksLeavesUnder ch → AreLeafNodes ch
  leaf_children nil a h = tt
  leaf_children (child c n ch) a h = (
    leaf_node n a.2 (first-AreTasksLeaves c n ch a.0 h),
    leaf_children ch a.3 (rest-AreTasksLeavesUnder c n ch a.1 h),
  )
