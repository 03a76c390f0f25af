-- ===== src/PathTrie/Updates.antt =====
-- What `insert`, `insert_folder`, `remove` and `remove_folder` do to the tasks and folders of a trie.
use mathlib.Core.List.{append-nil}
use dekit.Prelude.{
  ℕ, ◌<◌, ◌≡◌, refl, sym, ap, ◌∙◌, true, Option, none, some, Option-cases, inl, inr, List, [], ◌∷◌,
  ◌++◌, All, length, take, arith, Bool-cases, if◌then◌else◌, subst, option_elim_eq,
}
use dekit.Prelude.Text.{Text, text_eq_iff}
use dekit.Prelude.Result.{ok}
use dekit.TaskPath.{TaskPath, components}
use dekit.TaskPath.Render.{IsComponent}
use dekit.SubTrie.Registry.{path_eq}
use dekit.PathTrie.{
  PathTrie, TrieNode, Children, node, Place, PathConflict, or_option, bind_option, id_of, task_of,
  folder_of, walk_from, walk_to, any_node, any_child, task_above, conflict_at, folder_conflict_at,
  put_at, spot_of, make, edit, put_id, same_id, no_id, change, prune, prune_from, Spot, insert,
  insert_folder, remove, remove_folder, get_child,
}
use dekit.PathTrie.Entries.{
  task_in, folder_in, task_in-walk, folder_in-walk, task_in-make, folder_in-make, task_in-change,
  folder_in-change, task_in-prune, folder_in-prune,
}
use dekit.PathTrie.Above.{IsPath, task_above-none}
use dekit.PathTrie.Under.{id_in, any_child-none}

pub id_in-entries :
    (ds : List Text) (n : TrieNode) → id_in ds n ≡ or_option (task_in ds n) (folder_in ds n)
unfolding id_in task_in folder_in
id_in-entries [] (node t fo ch) = refl
id_in-entries (d ∷ ds) (node t fo ch) = elim (Option-cases (get_child d ch)) [
  | inl gone ↦ ground arith
  | inr (n, at) ↦ ground (arith, id_in-entries ds n)
]

pub id_in-walk :
    (cs ds : List Text) (n m : TrieNode) → walk_from cs n ≡ some m → id_in (cs ++ ds) n ≡ id_in ds m
unfolding id_in walk_from
id_in-walk [] ds n m e = ground arith
id_in-walk (c ∷ cs) ds (node t fo ch) m e = elim (Option-cases (get_child c ch)) [
  | inl gone ↦ absurd (ground arith)
  | inr (n, at) ↦ ground (arith, id_in-walk cs ds n m)
]

id_in-gone : (cs ds : List Text) (n : TrieNode) → walk_from cs n ≡ none → id_in (cs ++ ds) n ≡ none
unfolding id_in walk_from
id_in-gone [] ds n e = absurd (ground arith)
id_in-gone (c ∷ cs) ds (node t fo ch) e = elim (Option-cases (get_child c ch)) [
  | inl gone ↦ ground arith
  | inr (n, at) ↦ ground (arith, id_in-gone cs ds n)
]

-- A change goes through when nothing stops it.
pub put_at-ok :
    (o : Option PathConflict) (f : TrieNode → TrieNode) (t t' : PathTrie) (p : TaskPath)
    (place : Place)
    → put_at o f t p place ≡ ok t'
    → (o ≡ none) × (t'.root ≡ make (components p) (spot_of p place) f t.root)
put_at-ok (some x) f t t' p place e = absurd (cc)
put_at-ok none f t t' p place e = (refl, ground arith)

conflict_at-none_id : (n : TrieNode) (s : Text) → conflict_at (some n) s ≡ none → id_of n ≡ none
conflict_at-none_id n s e = elim (Option-cases (id_of n)) [
  | inl gone ↦ gone
  | inr (x, at) ↦ absurd (ground arith)
]

conflict_at-none_under :
    (t fo : Option ℕ) (ch : Children) (s : Text)
    → conflict_at (some (node t fo ch)) s ≡ none
    → any_child ch s ≡ none
unfolding any_node any_child
conflict_at-none_under none none ch s e = elim (Option-cases (any_child ch s)) [
  | inl gone ↦ gone
  | inr (x, at) ↦ absurd (ground arith)
]
conflict_at-none_under none (some fo) ch s e = absurd (cc)
conflict_at-none_under (some t) fo ch s e = absurd (cc)

node_clear :
    (n : TrieNode) (p : TaskPath) (ds : List Text)
    → IsPath p
    → All IsComponent ds
    → conflict_at (some n) p.text ≡ none
    → id_in ds n ≡ none
node_clear n p [] v w e = unfold id_in in conflict_at-none_id n p.text e
node_clear (node t fo ch) p (d ∷ ds) v w e =
    any_child-none t fo ch (components p) d ds v.0 w
      (ap (λ (q : TaskPath). any_child ch q.text) v.1 ∙ conflict_at-none_under t fo ch p.text e)

-- Nothing is at or under a path that has no conflict.
conflict_at-none :
    (t : PathTrie) (p : TaskPath) (ds : List Text)
    → IsPath p
    → All IsComponent ds
    → conflict_at (walk_to t p) p.text ≡ none
    → id_in (components p ++ ds) t.root ≡ none
unfolding walk_to
conflict_at-none t p ds v w e = elim (Option-cases (walk_from (components p) t.root)) [
  | inl gone ↦ id_in-gone (components p) ds t.root gone
  | inr (n, at) ↦
      id_in-walk (components p) ds t.root n at
      ∙ node_clear n p ds v w (sym (ap (λ o. conflict_at o p.text) at) ∙ e)
]

folder_clear : (n : TrieNode) → folder_conflict_at (some n) ≡ none → id_in [] n ≡ none
unfolding id_in
folder_clear n e = elim (Option-cases (id_of n)) [
  | inl gone ↦ gone
  | inr (x, at) ↦ absurd (ground arith)
]

folder_conflict_at-none :
    (t : PathTrie) (p : TaskPath)
    → folder_conflict_at (walk_to t p) ≡ none
    → id_in (components p) t.root ≡ none
unfolding walk_to
folder_conflict_at-none t p e =
    sym (ap (λ l. id_in l t.root) (append-nil (components p)))
    ∙ elim (Option-cases (walk_from (components p) t.root)) [
      | inl gone ↦ id_in-gone (components p) [] t.root gone
      | inr (n, at) ↦
          id_in-walk (components p) [] t.root n at
          ∙ folder_clear n (sym (ap folder_conflict_at at) ∙ e)
    ]

-- What is at the paths of a node, with the task and the folder at one path changed.
abbrev pub Updates :
    TrieNode → List Text → (Option ℕ → Option ℕ) → (Option ℕ → Option ℕ) → TrieNode → Type 0
Updates n cs ft ff n' =
    (ds : List Text)
    → (task_in ds n' ≡ (if path_eq cs ds then ft (task_in cs n) else task_in ds n))
      × (folder_in ds n' ≡ (if path_eq cs ds then ff (folder_in cs n) else folder_in ds n))

module _ (ft ff : Option ℕ → Option ℕ) (cs : List Text) (n : TrieNode) where
  pub make-Updates : (spot : Spot) → Updates n cs ft ff (make cs spot (edit ft ff) n)
  make-Updates spot ds = (task_in-make ft ff cs ds spot n, folder_in-make ft ff cs ds spot n)

  change-Updates :
      ft none ≡ none
      → ff none ≡ none
      → Updates n cs ft ff (prune_from cs (change cs (edit ft ff) n))
  change-Updates zt zf ds = (
    task_in-prune cs ds (change cs (edit ft ff) n) ∙ task_in-change ft ff cs ds n zt,
    folder_in-prune cs ds (change cs (edit ft ff) n) ∙ folder_in-change ft ff cs ds n zf,
  )

-- No task is at a path above.
abbrev pub NoneAbove : PathTrie → List Text → Type 0
NoneAbove t cs = (k : ℕ) → k < length cs → task_in (take k cs) t.root ≡ none

module _ (t t' : PathTrie) (p : TaskPath) (id : ℕ) (place : Place) (v : IsPath p) where
  -- A task goes in only where no task is above the path and nothing is at or under it. Then the
  -- task is at the path, and every other task and every folder is where it was.
  pub insert-Updates :
      insert t p id place ≡ ok t'
      → NoneAbove t (components p)
        × ((ds : List Text) → All IsComponent ds → id_in (components p ++ ds) t.root ≡ none)
        × Updates t.root (components p) (put_id id) same_id t'.root
  unfolding insert
  insert-Updates e = elim (Option-cases (task_above t p)) [
    | inl gone ↦
        let (clear, is) =
          put_at-ok (conflict_at (walk_to t p) p.text) (edit (put_id id) same_id) t t' p place
            (ground arith) in
        (
          task_above-none t p v gone,
          (λ ds w. conflict_at-none t p ds v w clear),
          subst (Updates t.root (components p) (put_id id) same_id) (sym is)
              (make-Updates (put_id id) same_id (components p) t.root (spot_of p place)),
        )
    | inr (q, at) ↦ absurd (ground arith)
  ]

  -- A folder goes in only where no task is above the path and no task or folder is at it. Then
  -- the folder is at the path, and every task and every other folder is where it was.
  pub insert_folder-Updates :
      insert_folder t p id place ≡ ok t'
      → NoneAbove t (components p)
        × (id_in (components p) t.root ≡ none)
        × Updates t.root (components p) same_id (put_id id) t'.root
  unfolding insert_folder
  insert_folder-Updates e = elim (Option-cases (task_above t p)) [
    | inl gone ↦
        let (clear, is) =
          put_at-ok (folder_conflict_at (walk_to t p)) (edit same_id (put_id id)) t t' p place
            (ground arith) in
        (
          task_above-none t p v gone,
          folder_conflict_at-none t p clear,
          subst (Updates t.root (components p) same_id (put_id id)) (sym is)
              (make-Updates same_id (put_id id) (components p) t.root (spot_of p place)),
        )
    | inr (q, at) ↦ absurd (ground arith)
  ]

pub path_eq→≡ : (cs ds : List Text) → path_eq cs ds ≡ true → cs ≡ ds
unfolding path_eq
path_eq→≡ [] [] h = refl
path_eq→≡ [] (d ∷ ds) h = absurd (cc)
path_eq→≡ (c ∷ cs) [] h = absurd (cc)
path_eq→≡ (c ∷ cs) (d ∷ ds) h = ground (arith, text_eq_iff c d, path_eq→≡ cs ds)

same-entry :
    (f : List Text → Option ℕ) (g : Option ℕ → Option ℕ) (cs ds : List Text)
    → f cs ≡ none
    → g none ≡ none
    → f ds ≡ (if path_eq cs ds then g (f cs) else f ds)
same-entry f g cs ds e z = elim (Bool-cases (path_eq cs ds)) [
  | inl is ↦ rw is (ap f (sym (path_eq→≡ cs ds is)) ∙ e ∙ sym z ∙ ap g (sym e))
  | inr other ↦ rw other refl
]

-- A path that is not there changes nothing.
absent-Updates :
    (ft ff : Option ℕ → Option ℕ) (cs : List Text) (n : TrieNode)
    → ft none ≡ none
    → ff none ≡ none
    → walk_from cs n ≡ none
    → (task_in cs n ≡ none) × (folder_in cs n ≡ none) × Updates n cs ft ff n
absent-Updates ft ff cs n zt zf e =
    let no_task = sym (task_in-walk cs n) ∙ ap (λ o. bind_option o task_of) e in
    let no_folder = sym (folder_in-walk cs n) ∙ ap (λ o. bind_option o folder_of) e in
    (
      no_task,
      no_folder,
      λ ds. (
        same-entry (λ cs. task_in cs n) ft cs ds no_task zt,
        same-entry (λ cs. folder_in cs n) ff cs ds no_folder zf,
      ),
    )

remove_task :
    (t : PathTrie) (p : TaskPath)
    → ((remove t p).0 ≡ task_in (components p) t.root)
      × Updates t.root (components p) no_id same_id ((remove t p).1).root
unfolding remove prune walk_to
remove_task t p =
    let cs = components p in
    option_elim_eq
      (λ (r : Option ℕ × PathTrie).
        (r.0 ≡ task_in cs t.root) × Updates t.root cs no_id same_id (r.1).root)
      (walk_from cs t.root)
      (λ gone.
        let (no_task, no_folder, same) = absent-Updates no_id same_id cs t.root refl refl gone in
        (sym no_task, same))
      (λ n at. (
        sym (ap (λ o. bind_option o task_of) at) ∙ task_in-walk cs t.root,
        change-Updates no_id same_id cs t.root refl refl,
      ))

remove_folder_only :
    (t : PathTrie) (p : TaskPath)
    → ((remove_folder t p).0 ≡ folder_in (components p) t.root)
      × Updates t.root (components p) same_id no_id ((remove_folder t p).1).root
unfolding remove_folder prune walk_to
remove_folder_only t p =
    let cs = components p in
    option_elim_eq
      (λ (r : Option ℕ × PathTrie).
        (r.0 ≡ folder_in cs t.root) × Updates t.root cs same_id no_id (r.1).root)
      (walk_from cs t.root)
      (λ gone.
        let (no_task, no_folder, same) = absent-Updates same_id no_id cs t.root refl refl gone in
        (sym no_folder, same))
      (λ n at. (
        sym (ap (λ o. bind_option o folder_of) at) ∙ folder_in-walk cs t.root,
        change-Updates same_id no_id cs t.root refl refl,
      ))

-- `remove` gives back the task that was at the path, and takes it and nothing else away, the
-- folder at the path included; `remove_folder` does the same for the folder.
pub remove-Updates :
    (t : PathTrie) (p : TaskPath)
    → ((remove t p).0 ≡ task_in (components p) t.root)
      × Updates t.root (components p) no_id same_id ((remove t p).1).root
      × ((remove_folder t p).0 ≡ folder_in (components p) t.root)
      × Updates t.root (components p) same_id no_id ((remove_folder t p).1).root
remove-Updates t p =
    let (task, tasks) = remove_task t p in
    let (folder, folders) = remove_folder_only t p in (task, tasks, folder, folders)
