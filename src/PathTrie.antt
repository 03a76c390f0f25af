-- ===== src/PathTrie.antt =====
-- src/kernel/path_trie.rs: which task or folder is at a path, and in which order the names under a
-- path are listed. An `IndexMap` is a list of its entries in order. `move_node` is left out.
pub mod Entries
pub mod Above
pub mod Under
pub mod Updates
pub mod Leaves
pub mod Groups
pub mod Glob
pub mod Names
pub mod Order
pub mod Childless
pub mod Listing
mod Tests
use dekit.Prelude.{
  ℕ, zero, suc, ◌-◌, Bool, true, false, not, ◌&&◌, ◌||◌, Option, none, some, List, [], ◌∷◌, ◌++◌,
  ltb, ◌==◌, if◌then◌else◌, is_some, length,
}
use dekit.Prelude.Result.{Result, ok, err}
use dekit.Prelude.Text.{Text, text_eq, codes}
use dekit.TaskPath
use dekit.TaskPath.{TaskPath, components, join, parent, name, split, filter_nonempty}

mutual
  -- The task, the folder and the children.
  pub data TrieNode : Type 0 where
    node : Option ℕ → Option ℕ → Children → TrieNode

  pub data Children : Type 0 where
    nil : Children
    child : Text → TrieNode → Children → Children

pub data Place : Type 0 where
  keep first last : Place
  after : TaskPath → Place

-- `out_of_bounds` is the panic of `move_index`, for a new path that is to go after itself.
pub data PathConflict : Type 0 where
  taken : ℕ → PathConflict
  nested : TaskPath → PathConflict
  out_of_bounds : PathConflict

pub record PathTrie : Type 0 where
  pub root : TrieNode

abbrev pub or_option : {A : Type 0} → Option A → Option A → Option A
or_option (some a) b = some a
or_option none b = b

abbrev pub empty_node : TrieNode
empty_node = node none none nil

abbrev pub new : PathTrie
new = record { root = empty_node }

abbrev pub no_children : Children → Bool
no_children nil = true
no_children (child c n ch) = false

abbrev pub task_of : TrieNode → Option ℕ
task_of (node t fo ch) = t

abbrev pub folder_of : TrieNode → Option ℕ
folder_of (node t fo ch) = fo

abbrev pub id_of : TrieNode → Option ℕ
id_of (node t fo ch) = or_option t fo

abbrev pub is_empty : TrieNode → Bool
is_empty (node t fo ch) = not (is_some (or_option t fo)) && no_children ch

-- `IndexMap`: `get`, `get_index_of`, `len`, and a value changed under its key.
unfoldable pub get_child : Text → Children → Option TrieNode
get_child c nil = none
get_child c (child d n ch) = let rest = get_child c ch in if text_eq d c then some n else rest

abbrev pub shift_index : Option ℕ → Option ℕ
shift_index none = none
shift_index (some i) = some (suc i)

unfoldable pub get_index_of : Text → Children → Option ℕ
get_index_of c nil = none
get_index_of c (child d n ch) =
    let rest = get_index_of c ch in if text_eq d c then some 0 else shift_index rest

unfoldable pub count : Children → ℕ
count nil = 0
count (child c n ch) = suc (count ch)

unfoldable pub put_child : Text → TrieNode → Children → Children
put_child c n nil = nil
put_child c n (child d m ch) =
    let rest = put_child c n ch in if text_eq d c then child c n ch else child d m rest

-- `insert` of a new key, which lists it last, then `move_index` from there.
unfoldable pub insert_at : ℕ → Text → TrieNode → Children → Children
insert_at zero c n ch = child c n ch
insert_at (suc i) c n nil = child c n nil
insert_at (suc i) c n (child d m ch) = child d m (insert_at i c n ch)

unfoldable pub shift_remove : Text → Children → Children
shift_remove c nil = nil
shift_remove c (child d m ch) =
    let rest = shift_remove c ch in if text_eq d c then rest else child d m rest

unfoldable pub walk_from : List Text → TrieNode → Option TrieNode
walk_from [] n = some n
walk_from (c ∷ cs) (node t fo ch) = elim (get_child c ch) [ none ↦ none | some n ↦ walk_from cs n ]

unfoldable pub walk_to : PathTrie → TaskPath → Option TrieNode
walk_to t path = walk_from (components path) t.root

abbrev pub bind_option : {A B : Type 0} → Option A → (A → Option B) → Option B
bind_option none f = none
bind_option (some a) f = f a

unfoldable pub resolve : PathTrie → TaskPath → Option ℕ
resolve t path = bind_option (walk_to t path) task_of

-- What goes at an `index`: a new name is listed there.
abbrev pub index_or : Option ℕ → ℕ → ℕ
index_or none l = l
index_or (some i) l = suc i

-- Where the last name of a path is listed: the name to go after, if it is beside the path.
pub data Spot : Type 0 where
  at_first at_last : Spot
  at_after : Text → Spot

abbrev pub spot_index : Spot → Children → ℕ
spot_index at_first ch = 0
spot_index at_last ch = count ch
spot_index (at_after c) ch = index_or (get_index_of c ch) (count ch)

abbrev pub same_parent : Option TaskPath → Option TaskPath → Bool
same_parent none none = true
same_parent (some p) (some q) = text_eq p.text q.text
same_parent _ _ = false

unfoldable pub spot_of : TaskPath → Place → Spot
spot_of path first = at_first
spot_of path (after p) = if same_parent (parent p) (parent path) then at_after (name p) else at_last
spot_of path keep = at_last
spot_of path last = at_last

-- The place is the path's; the groups it makes go last.
abbrev pub make_index : List Text → Spot → Children → ℕ
make_index [] spot ch = spot_index spot ch
make_index (c ∷ cs) spot ch = count ch

-- The node at the path, made with the groups on the way, and changed.
unfoldable pub make : List Text → Spot → (TrieNode → TrieNode) → TrieNode → TrieNode
make [] spot f n = f n
make (c ∷ cs) spot f (node t fo ch) = elim (get_child c ch) [
  | some n ↦ node t fo (put_child c (make cs spot f n) ch)
  | none ↦ node t fo (insert_at (make_index cs spot ch) c (make cs spot f empty_node) ch)
]

-- A change of a node's task and folder.
abbrev pub edit : (Option ℕ → Option ℕ) → (Option ℕ → Option ℕ) → TrieNode → TrieNode
edit ft ff (node t fo ch) = node (ft t) (ff fo) ch

abbrev pub put_id : ℕ → Option ℕ → Option ℕ
put_id id o = some id

abbrev pub same_id : Option ℕ → Option ℕ
same_id o = o

abbrev pub no_id : Option ℕ → Option ℕ
no_id o = none

-- The node at the path, if it is there, changed.
unfoldable pub change : List Text → (TrieNode → TrieNode) → TrieNode → TrieNode
change [] f n = f n
change (c ∷ cs) f (node t fo ch) = elim (get_child c ch) [
  | some n ↦ node t fo (put_child c (change cs f n) ch)
  | none ↦ node t fo ch
]

unfoldable pub prune_from : List Text → TrieNode → TrieNode
prune_from [] n = n
prune_from (c ∷ cs) (node t fo ch) = elim (get_child c ch) [
  | none ↦ node t fo ch
  | some n ↦
      (let n' = prune_from cs n in
        node t fo (if is_empty n' then shift_remove c ch else put_child c n' ch))
]

unfoldable pub prune : PathTrie → TaskPath → PathTrie
prune t path = record { root = prune_from (components path) t.root }

-- `iter::successors(path.parent(), TaskPath::parent)`: the paths above a path, nearest first. Each
-- is shorter than the one before, so the length of the text is enough fuel.
unfoldable pub paths_above : ℕ → TaskPath → List TaskPath
paths_above zero p = []
paths_above (suc fuel) p = elim (parent p) [ none ↦ [] | some q ↦ q ∷ paths_above fuel q ]

unfoldable pub find_task : PathTrie → List TaskPath → Option TaskPath
find_task t [] = none
find_task t (p ∷ ps) = let rest = find_task t ps in if is_some (resolve t p) then some p else rest

unfoldable pub task_above : PathTrie → TaskPath → Option TaskPath
task_above t path = find_task t (paths_above (suc (length path.text)) path)

-- `TaskPath::new(prefix).ok()`
abbrev pub path_at : Text → Option TaskPath
path_at prefix = elim (TaskPath.new prefix) [ ok p ↦ some p | err e ↦ none ]

-- A task or folder at or under a node, and the last that is listed there.
mutual
  pub any_node : TrieNode → Text → Option TaskPath
  any_node (node t fo ch) prefix =
      if is_some (or_option t fo) then path_at prefix else any_child ch prefix

  pub any_child : Children → Text → Option TaskPath
  any_child nil prefix = none
  any_child (child c n ch) prefix = or_option (any_node n (join prefix c)) (any_child ch prefix)

mutual
  pub last_node : TrieNode → Option ℕ
  last_node (node t fo ch) = or_option t (or_option (last_child ch) fo)

  pub last_child : Children → Option ℕ
  last_child nil = none
  last_child (child c n ch) = or_option (last_child ch) (last_node n)

-- Every task and folder at or under a node, in list order.
abbrev pub listed_at : Option ℕ → Text → List (TaskPath × ℕ)
listed_at none prefix = []
listed_at (some id) prefix = elim (path_at prefix) [ none ↦ [] | some p ↦ (p, id) ∷ [] ]

mutual
  pub collect_nodes : TrieNode → Text → List (TaskPath × ℕ)
  collect_nodes (node t fo ch) prefix =
      listed_at (or_option t fo) prefix ++ collect_children ch prefix

  pub collect_children : Children → Text → List (TaskPath × ℕ)
  collect_children nil prefix = []
  collect_children (child c n ch) prefix =
      collect_nodes n (join prefix c) ++ collect_children ch prefix

-- A new name is told to go after itself.
abbrev pub after_itself : TaskPath → Place → Bool
after_itself path (after p) = same_parent (parent p) (parent path) && text_eq (name p) (name path)
after_itself path _ = false

-- What is at or under a node stops a task from going there.
abbrev pub conflict_at : Option TrieNode → Text → Option PathConflict
conflict_at none prefix = none
conflict_at (some n) prefix = elim (id_of n) [
  | some id ↦ some (taken id)
  | none ↦ elim (any_node n prefix) [ none ↦ none | some p ↦ some (nested p) ]
]

abbrev pub folder_conflict_at : Option TrieNode → Option PathConflict
folder_conflict_at none = none
folder_conflict_at (some n) = elim (id_of n) [ none ↦ none | some id ↦ some (taken id) ]

-- The node is made and changed, if nothing stops it.
abbrev pub put_at :
    Option PathConflict
    → (TrieNode → TrieNode)
    → PathTrie
    → TaskPath
    → Place
    → Result PathConflict PathTrie
put_at (some conflict) f t path place = err conflict
put_at none f t path place =
    if not (is_some (walk_to t path)) && after_itself path place
    then err out_of_bounds
    else ok (record { root = make (components path) (spot_of path place) f t.root })

unfoldable pub insert : PathTrie → TaskPath → ℕ → Place → Result PathConflict PathTrie
insert t path id place = elim (task_above t path) [
  | some above ↦ err (nested above)
  | none ↦ put_at (conflict_at (walk_to t path) path.text) (edit (put_id id) same_id) t path place
]

unfoldable pub insert_folder : PathTrie → TaskPath → ℕ → Place → Result PathConflict PathTrie
insert_folder t path id place = elim (task_above t path) [
  | some above ↦ err (nested above)
  | none ↦ put_at (folder_conflict_at (walk_to t path)) (edit same_id (put_id id)) t path place
]

-- Nothing is held below a task. `none` is the panic of `move_index`.
unfoldable pub place : PathTrie → TaskPath → Place → Option PathTrie
place t path at = elim (task_above t path) [
  | some above ↦ some t
  | none ↦
      if not (is_some (walk_to t path)) && after_itself path at
      then none
      else some
          (record { root = make (components path) (spot_of path at) (edit same_id same_id) t.root })
]

-- What was there, and the trie after; a path that is not there changes nothing.
unfoldable pub remove : PathTrie → TaskPath → Option ℕ × PathTrie
remove t path = elim (walk_to t path) [
  | none ↦ (none, t)
  | some n ↦ (
    task_of n,
    prune (record { root = change (components path) (edit no_id same_id) t.root }) path,
  )
]

unfoldable pub remove_folder : PathTrie → TaskPath → Option ℕ × PathTrie
remove_folder t path = elim (walk_to t path) [
  | none ↦ (none, t)
  | some n ↦ (
    folder_of n,
    prune (record { root = change (components path) (edit same_id no_id) t.root }) path,
  )
]

unfoldable pub nodes : PathTrie → TaskPath → List (TaskPath × ℕ)
nodes t path = elim (walk_to t path) [ none ↦ [] | some n ↦ collect_nodes n path.text ]

-- Where the names of a path are listed, each among the names beside it.
unfoldable pub position_from : List Text → TrieNode → Option (List ℕ)
position_from [] n = some []
position_from (c ∷ cs) (node t fo ch) = elim (get_child c ch) [
  | none ↦ none
  | some n ↦ elim (get_index_of c ch) [
    | none ↦ none
    | some i ↦ elim (position_from cs n) [ none ↦ none | some is ↦ some (i ∷ is) ]
  ]
]

unfoldable pub position : PathTrie → TaskPath → Option (List ℕ)
position t path = position_from (components path) t.root

-- The last that is listed among the children before one.
unfoldable pub last_before : Text → Children → Option ℕ
last_before c nil = none
last_before c (child d n ch) =
    let rest = last_before c ch in if text_eq d c then none else or_option rest (last_node n)

unfoldable pub before_from : List Text → TrieNode → Option ℕ → Option ℕ
before_from [] n earlier = earlier
before_from (c ∷ cs) (node t fo ch) earlier = elim (get_child c ch) [
  | none ↦ none
  | some n ↦ before_from cs n (or_option (last_before c ch) (or_option fo earlier))
]

-- The task or folder that is listed just before a path.
unfoldable pub before : PathTrie → TaskPath → Option ℕ
before t path = before_from (components path) t.root none
