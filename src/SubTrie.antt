-- ===== src/SubTrie.antt =====
-- src/kernel/sub_trie.rs: which tasks are told of what happens at a path. A `HashSet` is a list
-- of ids, and a `BTreeMap` of children a list of them: the code never lists the children.
pub mod Children
pub mod Registry
pub mod Covered
pub mod Run
mod Tests
use dekit.Prelude.{
  ℕ, Bool, true, false, ◌&&◌, ◌||◌, Option, none, some, List, [], ◌∷◌, ◌++◌, contains, set_insert,
  set_remove, ◌==◌, if◌then◌else◌,
}
use dekit.Prelude.Maps
use dekit.Prelude.Maps.{Map}
use dekit.Prelude.Text.{Text, text_eq}
use dekit.TaskPath.{TaskPath, components}

pub data SubMode : Type 0 where
  exact subtree : SubMode

mutual
  -- The two sets of subscribers, and the children.
  pub data SubNode : Type 0 where
    node : List ℕ → List ℕ → SubChildren → SubNode

  pub data SubChildren : Type 0 where
    nil : SubChildren
    child : Text → SubNode → SubChildren → SubChildren

abbrev pub default : SubNode
default = node [] [] nil

abbrev pub no_ids : List ℕ → Bool
no_ids [] = true
no_ids (x ∷ xs) = false

abbrev pub no_children : SubChildren → Bool
no_children nil = true
no_children (child c n ch) = false

abbrev pub is_empty : SubNode → Bool
is_empty (node e s ch) = no_ids e && no_ids s && no_children ch

-- `BTreeMap`'s `get`, `insert` and `remove`.
unfoldable pub get_child : Text → SubChildren → Option SubNode
get_child c nil = none
get_child c (child d n ch) = let rest = get_child c ch in if text_eq d c then some n else rest

unfoldable pub set_child : Text → SubNode → SubChildren → SubChildren
set_child c n nil = child c n nil
set_child c n (child d m ch) =
    let rest = set_child c n ch in if text_eq d c then child c n ch else child d m rest

unfoldable pub remove_child : Text → SubChildren → SubChildren
remove_child c nil = nil
remove_child c (child d m ch) =
    let rest = remove_child c ch in if text_eq d c then rest else child d m rest

abbrev pub mode_eq : SubMode → SubMode → Bool
mode_eq exact exact = true
mode_eq subtree subtree = true
mode_eq _ _ = false

abbrev pub or_default : Option SubNode → SubNode
or_default none = default
or_default (some n) = n

abbrev pub add_here : ℕ → SubMode → SubNode → SubNode
add_here x exact (node e s ch) = node (set_insert x e) s ch
add_here x subtree (node e s ch) = node e (set_insert x s) ch

-- The loop of `subscribe` down the trie.
unfoldable pub subscribe_at : List Text → ℕ → SubMode → SubNode → SubNode
subscribe_at [] x m n = add_here x m n
subscribe_at (c ∷ cs) x m (node e s ch) =
    node e s (set_child c (subscribe_at cs x m (or_default (get_child c ch))) ch)

abbrev pub remove_here : ℕ → SubMode → SubNode → SubNode
remove_here x exact (node e s ch) = node (set_remove x e) s ch
remove_here x subtree (node e s ch) = node e (set_remove x s) ch

unfoldable pub remove_one : List Text → ℕ → SubMode → SubNode → SubNode
remove_one [] x m n = remove_here x m n
remove_one (c ∷ cs) x m (node e s ch) = elim (get_child c ch) [
  | none ↦ node e s ch
  | some n ↦
      (let n' = remove_one cs x m n in
        if is_empty n' then node e s (remove_child c ch) else node e s (set_child c n' ch))
]

-- A subscription as `by_subscriber` keeps it.
abbrev pub Subscription : Type 0
Subscription = TaskPath × SubMode

abbrev pub same_subscription : Subscription → Subscription → Bool
same_subscription a b = text_eq (a.0).text (b.0).text && mode_eq a.1 b.1

unfoldable pub has_subscription : Subscription → List Subscription → Bool
has_subscription a [] = false
has_subscription a (b ∷ bs) = same_subscription b a || has_subscription a bs

unfoldable pub add_subscription : Subscription → List Subscription → List Subscription
unfolding has_subscription
add_subscription a bs = if has_subscription a bs then bs else bs ++ a ∷ []

unfoldable pub drop_subscription : Subscription → List Subscription → List Subscription
drop_subscription a [] = []
drop_subscription a (b ∷ bs) =
    let rest = drop_subscription a bs in if same_subscription b a then rest else b ∷ rest

pub record SubTrie : Type 0 where
  pub root : SubNode
  pub by_subscriber : Map (List Subscription)

abbrev pub new : SubTrie
new = record { root = default; by_subscriber = [] }

abbrev pub entry : Option (List Subscription) → List Subscription
entry none = []
entry (some subs) = subs

unfoldable pub subscribe : SubTrie → ℕ → TaskPath → SubMode → SubTrie
subscribe t subscriber path mode = record {
  root = subscribe_at (components path) subscriber mode t.root;
  by_subscriber =
      Maps.insert subscriber
        (add_subscription (path, mode) (entry (Maps.lookup subscriber t.by_subscriber)))
        t.by_subscriber;
}

-- The set without the subscription; dropped when that empties it.
abbrev pub unrecord : ℕ → List Subscription → Map (List Subscription) → Map (List Subscription)
unrecord subscriber [] m = Maps.remove subscriber m
unrecord subscriber (b ∷ bs) m = Maps.insert subscriber (b ∷ bs) m

unfoldable pub unsubscribe : SubTrie → ℕ → TaskPath → SubMode → SubTrie
unsubscribe t subscriber path mode = record {
  root = remove_one (components path) subscriber mode t.root;
  by_subscriber = elim (Maps.lookup subscriber t.by_subscriber) [
    | none ↦ t.by_subscriber
    | some subs ↦ unrecord subscriber (drop_subscription (path, mode) subs) t.by_subscriber
  ];
}

-- The loop of `remove_subscriber`.
unfoldable pub remove_all : List Subscription → ℕ → SubNode → SubNode
remove_all [] x n = n
remove_all ((path, mode) ∷ subs) x n = remove_all subs x (remove_one (components path) x mode n)

unfoldable pub remove_subscriber : SubTrie → ℕ → SubTrie
remove_subscriber t subscriber = elim (Maps.lookup subscriber t.by_subscriber) [
  | none ↦ t
  | some subs ↦ record {
    root = remove_all subs subscriber t.root;
    by_subscriber = Maps.remove subscriber t.by_subscriber;
  }
]

-- `HashSet::extend`
unfoldable pub extend : List ℕ → List ℕ → List ℕ
extend [] out = out
extend (x ∷ xs) out = extend xs (set_insert x out)

unfoldable pub collect_from : List Text → SubNode → List ℕ → List ℕ
collect_from [] (node e s ch) out = extend e (extend s out)
collect_from (c ∷ cs) (node e s ch) out = elim (get_child c ch) [
  | none ↦ extend s out
  | some n ↦ collect_from cs n (extend s out)
]

unfoldable pub collect : SubTrie → TaskPath → List ℕ → List ℕ
collect t path out = collect_from (components path) t.root out

unfoldable pub is_subscribed_from : List Text → SubNode → ℕ → Bool
is_subscribed_from [] (node e s ch) x = if contains x s then true else contains x e
is_subscribed_from (c ∷ cs) (node e s ch) x =
    if contains x s
    then true
    else elim (get_child c ch) [ none ↦ false | some n ↦ is_subscribed_from cs n x ]

unfoldable pub is_subscribed : SubTrie → ℕ → TaskPath → Bool
is_subscribed t subscriber path = is_subscribed_from (components path) t.root subscriber
