-- ===== src/Namespace.antt =====
-- src/kernel/namespace.rs and src/kernel/task_key.rs: for each space a trie of paths and one of
-- subscriptions. The `HashMap` of spaces is a list, in one of the orders it may be gone through in.
-- `move_node` is left out, as in PathTrie.antt.
pub mod Slots
pub mod Fresh
pub mod Spaces
mod Tests
use dekit.Prelude.{ℕ, Bool, true, false, Option, none, some, List, [], ◌∷◌, ◌++◌, if◌then◌else◌}
use dekit.Prelude.Text.{Text, text_eq}
use dekit.Prelude.Result.{Result, ok, err}
use dekit.TaskPath.{TaskPath}
use dekit.SubTrie
use dekit.SubTrie.{SubTrie, SubMode, exact, subtree}
use dekit.PathTrie
use dekit.PathTrie.{PathTrie, Place, PathConflict}
use dekit.PathTrie.Glob

-- `TaskSpaceId(String)` is its text.
pub record TaskKey : Type 0 where
  pub space : Text
  pub path : TaskPath

pub record SpaceNamespace : Type 0 where
  pub paths : PathTrie
  pub subs : SubTrie

-- `Namespace { spaces }`
abbrev pub Namespace : Type 0
Namespace = List (Text × SpaceNamespace)

pub data SpaceSelector : Type 0 where
  one : Text → SpaceSelector
  any : SpaceSelector

abbrev pub new_space : SpaceNamespace
new_space = record { paths = PathTrie.new; subs = SubTrie.new }

abbrev pub new : Namespace
new = []

-- `get`
unfoldable pub space_of : Text → Namespace → Option SpaceNamespace
space_of space [] = none
space_of space ((s, n) ∷ ns) =
    let rest = space_of space ns in if text_eq s space then some n else rest

-- `space_mut`, with what is done to the space: it is made if it was not there.
unfoldable pub space_mut : Text → (SpaceNamespace → SpaceNamespace) → Namespace → Namespace
space_mut space f [] = (space, f new_space) ∷ []
space_mut space f ((s, n) ∷ ns) =
    let rest = space_mut space f ns in if text_eq s space then (s, f n) ∷ ns else (s, n) ∷ rest

-- `get_mut`, with what is done to the space, if it is there.
unfoldable pub get_mut : Text → (SpaceNamespace → SpaceNamespace) → Namespace → Namespace
get_mut space f [] = []
get_mut space f ((s, n) ∷ ns) =
    let rest = get_mut space f ns in if text_eq s space then (s, f n) ∷ ns else (s, n) ∷ rest

abbrev pub or_new : Option SpaceNamespace → SpaceNamespace
or_new none = new_space
or_new (some n) = n

abbrev pub with_paths : PathTrie → SpaceNamespace → SpaceNamespace
with_paths t n = record n { paths = t }

abbrev pub with_subs : SubTrie → SpaceNamespace → SpaceNamespace
with_subs t n = record n { subs = t }

-- What the operation on the trie answers; the space is made even when it is refused.
abbrev pub claimed :
    Text → Namespace → Result PathConflict PathTrie → Namespace × Option PathConflict
claimed space ns (ok t) = (space_mut space (with_paths t) ns, none)
claimed space ns (err e) = (space_mut space (λ n. n) ns, some e)

unfoldable pub insert : Namespace → TaskKey → ℕ → Place → Namespace × Option PathConflict
insert ns key id place =
    claimed key.space ns (PathTrie.insert (or_new (space_of key.space ns)).paths key.path id place)

unfoldable pub insert_folder : Namespace → TaskKey → ℕ → Place → Namespace × Option PathConflict
insert_folder ns key id place =
    claimed key.space ns
      (PathTrie.insert_folder (or_new (space_of key.space ns)).paths key.path id place)

unfoldable pub remove : Namespace → TaskKey → Option ℕ × Namespace
remove ns key = elim (space_of key.space ns) [
  | none ↦ (none, ns)
  | some n ↦
      (let (id, t) = PathTrie.remove n.paths key.path in (id, get_mut key.space (with_paths t) ns))
]

unfoldable pub remove_folder : Namespace → TaskKey → Option ℕ × Namespace
remove_folder ns key = elim (space_of key.space ns) [
  | none ↦ (none, ns)
  | some n ↦
      (let (id, t) = PathTrie.remove_folder n.paths key.path in
        (id, get_mut key.space (with_paths t) ns))
]

-- `none` is the panic of `PathTrie::place`.
abbrev pub held : Text → Namespace → Option PathTrie → Option Namespace
held space ns none = none
held space ns (some t) = some (space_mut space (with_paths t) ns)

unfoldable pub place : Namespace → TaskKey → Place → Option Namespace
place ns key at =
    held key.space ns (PathTrie.place (or_new (space_of key.space ns)).paths key.path at)

unfoldable pub prune : Namespace → TaskKey → Namespace
prune ns key = get_mut key.space (λ n. with_paths (PathTrie.prune n.paths key.path) n) ns

abbrev pub nodes_in : Option SpaceNamespace → TaskPath → List (TaskPath × ℕ)
nodes_in none path = []
nodes_in (some n) path = PathTrie.nodes n.paths path

unfoldable pub nodes : Namespace → TaskKey → List (TaskPath × ℕ)
nodes ns key = nodes_in (space_of key.space ns) key.path

unfoldable pub before : Namespace → TaskKey → Option ℕ
before ns key = elim (space_of key.space ns) [
  | none ↦ none
  | some n ↦ PathTrie.before n.paths key.path
]

unfoldable pub position : Namespace → Text → TaskPath → Option (List ℕ)
position ns space path = elim (space_of space ns) [
  | none ↦ none
  | some n ↦ PathTrie.position n.paths path
]

-- The spaces that a selector means.
abbrev pub selected : Namespace → SpaceSelector → Namespace
selected ns (one space) = elim (space_of space ns) [ none ↦ [] | some n ↦ (space, n) ∷ [] ]
selected ns any = ns

unfoldable pub ids_of : List (TaskPath × ℕ) → List ℕ
ids_of [] = []
ids_of ((path, id) ∷ rest) = id ∷ ids_of rest

unfoldable pub glob_in : Namespace → Text → List ℕ
glob_in [] pattern = []
glob_in ((s, n) ∷ ns) pattern = ids_of (PathTrie.Glob.glob n.paths pattern) ++ glob_in ns pattern

unfoldable pub glob : Namespace → SpaceSelector → Text → List ℕ
glob ns selector pattern = glob_in (selected ns selector) pattern

unfoldable pub keys_of : Text → List TaskPath → List TaskKey
keys_of space [] = []
keys_of space (path ∷ rest) = record { space = space; path = path } ∷ keys_of space rest

unfoldable pub glob_nodes_in : Namespace → Text → List TaskKey
glob_nodes_in [] pattern = []
glob_nodes_in ((s, n) ∷ ns) pattern =
    keys_of s (PathTrie.Glob.glob_nodes n.paths pattern) ++ glob_nodes_in ns pattern

unfoldable pub glob_nodes : Namespace → SpaceSelector → Text → List TaskKey
glob_nodes ns selector pattern = glob_nodes_in (selected ns selector) pattern

-- `retain` of the path itself
unfoldable pub retain_path : TaskPath → List (TaskPath × ℕ) → List (TaskPath × ℕ)
retain_path path [] = []
retain_path path ((q, id) ∷ rest) =
    let kept = retain_path path rest in if text_eq q.text path.text then (q, id) ∷ kept else kept

unfoldable pub in_scope : Namespace → TaskKey → SubMode → List (TaskPath × ℕ)
in_scope ns key exact = retain_path key.path (nodes ns key)
in_scope ns key subtree = nodes ns key

unfoldable pub subscribe : Namespace → ℕ → TaskKey → SubMode → Namespace
subscribe ns subscriber key mode =
    space_mut key.space (λ n. with_subs (SubTrie.subscribe n.subs subscriber key.path mode) n) ns

unfoldable pub unsubscribe : Namespace → ℕ → TaskKey → SubMode → Namespace
unsubscribe ns subscriber key mode =
    get_mut key.space (λ n. with_subs (SubTrie.unsubscribe n.subs subscriber key.path mode) n) ns

unfoldable pub remove_subscriber : Namespace → ℕ → Namespace
remove_subscriber [] subscriber = []
remove_subscriber ((s, n) ∷ ns) subscriber =
    (s, with_subs (SubTrie.remove_subscriber n.subs subscriber) n) ∷ remove_subscriber ns subscriber

unfoldable pub is_subscribed : Namespace → ℕ → Text → TaskPath → Bool
is_subscribed ns subscriber space path = elim (space_of space ns) [
  | none ↦ false
  | some n ↦ SubTrie.is_subscribed n.subs subscriber path
]

unfoldable pub collect : Namespace → TaskKey → List ℕ → List ℕ
collect ns key out = elim (space_of key.space ns) [
  | none ↦ out
  | some n ↦ SubTrie.collect n.subs key.path out
]
