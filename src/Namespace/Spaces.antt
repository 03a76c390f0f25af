-- ===== src/Namespace/Spaces.antt =====
-- Each space of a namespace is a trie of paths and one of subscriptions of its own.
use dekit.Prelude.{
  ℕ, ◌≡◌, refl, sym, ap, ◌∙◌, subst, false, Bool-cases, inl, inr, List, [], ◌∷◌, ◌++◌,
  if◌then◌else◌, option_elim_eq, ◌==◌,
}
use dekit.Prelude.Text.{Text, text_eq, text_eq_iff}
use dekit.TaskPath.{TaskPath, components}
use dekit.SubTrie
use dekit.SubTrie.{SubTrie, SubMode, exact, subtree}
use dekit.SubTrie.Run
use dekit.SubTrie.Covered
use dekit.PathTrie
use dekit.PathTrie.{PathTrie, Place, PathConflict}
use dekit.PathTrie.Leaves
use dekit.Namespace.{
  TaskKey, SpaceNamespace, Namespace, new, new_space, or_new, space_of, with_paths, with_subs,
  insert, insert_folder, remove, remove_folder, place, prune, subscribe, unsubscribe,
  remove_subscriber, is_subscribed,
}
use dekit.Namespace.Slots.{
  or_unplaced, space_of-remove_subscriber, slot, slot-space_mut, slot-get_mut, slot-claimed,
  slot-held, slot-some, or_new_map, slot-removed,
}
use dekit.Namespace.Fresh.{
  remove-new, remove_folder-new, prune-new, unsubscribe-new, remove_subscriber-new,
  is_subscribed_empty,
}

pub data Op : Type 0 where
  inserts inserts_folder : TaskKey → ℕ → Place → Op
  places : TaskKey → Place → Op
  removes removes_folder prunes : TaskKey → Op
  subscribes unsubscribes : ℕ → TaskKey → SubMode → Op
  removes_subscriber : ℕ → Op

abbrev pub step : Namespace → Op → Namespace
step ns (inserts key id at) = (insert ns key id at).0
step ns (inserts_folder key id at) = (insert_folder ns key id at).0
step ns (places key at) = or_unplaced ns (place ns key at)
step ns (removes key) = (remove ns key).1
step ns (removes_folder key) = (remove_folder ns key).1
step ns (prunes key) = prune ns key
step ns (subscribes x key mode) = subscribe ns x key mode
step ns (unsubscribes x key mode) = unsubscribe ns x key mode
step ns (removes_subscriber x) = remove_subscriber ns x

unfoldable pub run : List Op → Namespace → Namespace
run [] ns = ns
run (op ∷ ops) ns = run ops (step ns op)

-- What an operation is to the trie of paths of a space, and to its trie of subscriptions.
abbrev pub only_in : {A : Type 0} → Text → Text → A → List A
only_in space at a = if text_eq at space then a ∷ [] else []

abbrev pub path_op : Text → Op → List PathTrie.Leaves.Op
path_op space (inserts key id at) = only_in space key.space (PathTrie.Leaves.inserts key.path id at)
path_op space (inserts_folder key id at) =
    only_in space key.space (PathTrie.Leaves.inserts_folder key.path id at)
path_op space (places key at) = only_in space key.space (PathTrie.Leaves.places key.path at)
path_op space (removes key) = only_in space key.space (PathTrie.Leaves.removes key.path)
path_op space (removes_folder key) =
    only_in space key.space (PathTrie.Leaves.removes_folder key.path)
path_op space (prunes key) = only_in space key.space (PathTrie.Leaves.prunes key.path)
path_op space _ = []

abbrev pub sub_op : Text → Op → List SubTrie.Run.Op
sub_op space (subscribes x key mode) =
    only_in space key.space (SubTrie.Run.subscribes x key.path mode)
sub_op space (unsubscribes x key mode) =
    only_in space key.space (SubTrie.Run.unsubscribes x key.path mode)
sub_op space (removes_subscriber x) = SubTrie.Run.removes x ∷ []
sub_op space _ = []

unfoldable pub path_ops : Text → List Op → List PathTrie.Leaves.Op
path_ops space [] = []
path_ops space (op ∷ ops) = path_op space op ++ path_ops space ops

unfoldable pub sub_ops : Text → List Op → List SubTrie.Run.Op
sub_ops space [] = []
sub_ops space (op ∷ ops) = sub_op space op ++ sub_ops space ops

-- A change of a trie of paths, as that trie's step.
lift_path :
    (k s : Text) (ns : Namespace) (op : PathTrie.Leaves.Op) (n : SpaceNamespace)
    → n ≡ (
        if text_eq k s
        then with_paths (PathTrie.Leaves.step (slot k ns).paths op) (slot k ns)
        else slot s ns)
    → (n.paths ≡ PathTrie.Leaves.run (only_in s k op) (slot s ns).paths)
      × (n.subs ≡ (slot s ns).subs)
unfolding PathTrie.Leaves.run
lift_path k s ns op n e = elim (Bool-cases (text_eq k s)) [
  | inl is ↦
      let same = (text_eq_iff k s).0 is in
      let e' =
        e
        ∙ ap
            (λ b.
              if b
              then with_paths (PathTrie.Leaves.step (slot k ns).paths op) (slot k ns)
              else slot s ns)
            is in
      rw is (
        ap (λ (m : SpaceNamespace). m.paths) e'
            ∙ ap (λ l. PathTrie.Leaves.step (slot l ns).paths op) same,
        ap (λ (m : SpaceNamespace). m.subs) e' ∙ ap (λ l. (slot l ns).subs) same,
      )
  | inr other ↦
      let e' =
        e
        ∙ ap
            (λ b.
              if b
              then with_paths (PathTrie.Leaves.step (slot k ns).paths op) (slot k ns)
              else slot s ns)
            other in
      rw other (ap (λ (m : SpaceNamespace). m.paths) e', ap (λ (m : SpaceNamespace). m.subs) e')
]

lift_sub :
    (k s : Text) (ns : Namespace) (op : SubTrie.Run.Op) (n : SpaceNamespace)
    → n ≡ (
        if text_eq k s
        then with_subs (SubTrie.Run.step (slot k ns).subs op) (slot k ns)
        else slot s ns)
    → (n.paths ≡ (slot s ns).paths) × (n.subs ≡ SubTrie.Run.run (only_in s k op) (slot s ns).subs)
unfolding SubTrie.Run.run
lift_sub k s ns op n e = elim (Bool-cases (text_eq k s)) [
  | inl is ↦
      let same = (text_eq_iff k s).0 is in
      let e' =
        e
        ∙ ap
            (λ b.
              if b then with_subs (SubTrie.Run.step (slot k ns).subs op) (slot k ns) else slot s ns)
            is in
      rw is (
        ap (λ (m : SpaceNamespace). m.paths) e' ∙ ap (λ l. (slot l ns).paths) same,
        ap (λ (m : SpaceNamespace). m.subs) e'
            ∙ ap (λ l. SubTrie.Run.step (slot l ns).subs op) same,
      )
  | inr other ↦
      let e' =
        e
        ∙ ap
            (λ b.
              if b then with_subs (SubTrie.Run.step (slot k ns).subs op) (slot k ns) else slot s ns)
            other in
      rw other (ap (λ (m : SpaceNamespace). m.paths) e', ap (λ (m : SpaceNamespace). m.subs) e')
]

step-slot :
    (s : Text) (ns : Namespace) (op : Op)
    → ((slot s (step ns op)).paths ≡ PathTrie.Leaves.run (path_op s op) (slot s ns).paths)
      × ((slot s (step ns op)).subs ≡ SubTrie.Run.run (sub_op s op) (slot s ns).subs)
unfolding PathTrie.Leaves.run SubTrie.Run.run insert insert_folder remove remove_folder place prune
    subscribe unsubscribe
step-slot s ns (inserts key id at) =
    lift_path key.space s ns (PathTrie.Leaves.inserts key.path id at) _
      (slot-claimed key.space s ns (PathTrie.insert (slot key.space ns).paths key.path id at))
step-slot s ns (inserts_folder key id at) =
    lift_path key.space s ns (PathTrie.Leaves.inserts_folder key.path id at) _ (
      slot-claimed key.space s ns (PathTrie.insert_folder (slot key.space ns).paths key.path id at))
step-slot s ns (places key at) =
    lift_path key.space s ns (PathTrie.Leaves.places key.path at) _
      (slot-held key.space s ns (PathTrie.place (slot key.space ns).paths key.path at))
step-slot s ns (removes key) =
    lift_path key.space s ns (PathTrie.Leaves.removes key.path) _
      (slot-removed key.space s ns (λ t. PathTrie.remove t key.path) (remove-new key.path))
step-slot s ns (removes_folder key) =
    lift_path key.space s ns (PathTrie.Leaves.removes_folder key.path) _ (
      slot-removed key.space s ns (λ t. PathTrie.remove_folder t key.path)
        (remove_folder-new key.path))
step-slot s ns (prunes key) = lift_path key.space s ns (PathTrie.Leaves.prunes key.path) _ (
    slot-get_mut key.space s (λ n. with_paths (PathTrie.prune n.paths key.path) n) ns
      (ap (λ t. with_paths t new_space) (prune-new key.path)))
step-slot s ns (subscribes x key mode) =
    lift_sub key.space s ns (SubTrie.Run.subscribes x key.path mode) _
      (slot-space_mut key.space s (λ n. with_subs (SubTrie.subscribe n.subs x key.path mode) n) ns)
step-slot s ns (unsubscribes x key mode) =
    lift_sub key.space s ns (SubTrie.Run.unsubscribes x key.path mode) _ (
      slot-get_mut key.space s (λ n. with_subs (SubTrie.unsubscribe n.subs x key.path mode) n) ns
        (ap (λ t. with_subs t new_space) (unsubscribe-new x key.path mode)))
step-slot s ns (removes_subscriber x) =
    let leave : SpaceNamespace → SpaceNamespace =
      λ n. with_subs (SubTrie.remove_subscriber n.subs x) n in
    let is =
      ap or_new (space_of-remove_subscriber x s ns)
      ∙ or_new_map leave (space_of s ns)
          (ap (λ t. with_subs t new_space) (remove_subscriber-new x)) in
    (ap (λ (m : SpaceNamespace). m.paths) is, ap (λ (m : SpaceNamespace). m.subs) is)

path_run-append :
    (a b : List PathTrie.Leaves.Op) (t : PathTrie)
    → PathTrie.Leaves.run (a ++ b) t ≡ PathTrie.Leaves.run b (PathTrie.Leaves.run a t)
unfolding PathTrie.Leaves.run
path_run-append [] b t = refl
path_run-append (op ∷ a) b t = path_run-append a b (PathTrie.Leaves.step t op)

sub_run-append :
    (a b : List SubTrie.Run.Op) (t : SubTrie)
    → SubTrie.Run.run (a ++ b) t ≡ SubTrie.Run.run b (SubTrie.Run.run a t)
unfolding SubTrie.Run.run
sub_run-append [] b t = refl
sub_run-append (op ∷ a) b t = sub_run-append a b (SubTrie.Run.step t op)

run-slot_from :
    (s : Text) (ops : List Op) (ns : Namespace)
    → ((slot s (run ops ns)).paths ≡ PathTrie.Leaves.run (path_ops s ops) (slot s ns).paths)
      × ((slot s (run ops ns)).subs ≡ SubTrie.Run.run (sub_ops s ops) (slot s ns).subs)
unfolding run path_ops sub_ops
run-slot_from s [] ns = unfold PathTrie.Leaves.run SubTrie.Run.run in (refl, refl)
run-slot_from s (op ∷ ops) ns =
    let (paths, subs) = step-slot s ns op in
    let (paths', subs') = run-slot_from s ops (step ns op) in
    (
      paths'
          ∙ ap (PathTrie.Leaves.run (path_ops s ops)) paths
          ∙ sym (path_run-append (path_op s op) (path_ops s ops) (slot s ns).paths),
      subs'
          ∙ ap (SubTrie.Run.run (sub_ops s ops)) subs
          ∙ sym (sub_run-append (sub_op s op) (sub_ops s ops) (slot s ns).subs),
    )

-- Whatever operations made the namespace, the tries of a space are those that the operations at
-- keys of that space, and the removals of subscribers, make by themselves: no operation at a key
-- of another space shows, and none is lost.
pub run-slot :
    (s : Text) (ops : List Op)
    → ((slot s (run ops new)).paths ≡ PathTrie.Leaves.run (path_ops s ops) PathTrie.new)
      × ((slot s (run ops new)).subs ≡ SubTrie.Run.run (sub_ops s ops) SubTrie.new)
unfolding space_of
run-slot s ops = let (paths, subs) = run-slot_from s ops new in (paths, subs)

is_subscribed-slot :
    (ns : Namespace) (y : ℕ) (s : Text) (p : TaskPath)
    → is_subscribed ns y s p ≡ SubTrie.is_subscribed (slot s ns).subs y p
unfolding is_subscribed
is_subscribed-slot ns y s p =
    option_elim_eq (λ b. b ≡ SubTrie.is_subscribed (slot s ns).subs y p) (space_of s ns)
      (λ gone. sym (
        ap (λ (n : SpaceNamespace). SubTrie.is_subscribed n.subs y p) (ap or_new gone)
        ∙ (unfold SubTrie.is_subscribed in is_subscribed_empty (components p) y)))
      (λ n at.
        ap (λ (m : SpaceNamespace). SubTrie.is_subscribed m.subs y p) (sym (slot-some s ns n at)))

removed-slot :
    (s : Text) (ns : Namespace) (x : ℕ)
    → (slot s (remove_subscriber ns x)).subs ≡ SubTrie.remove_subscriber (slot s ns).subs x
unfolding SubTrie.Run.run
removed-slot s ns x = (step-slot s ns (removes_subscriber x)).1

-- After any operations, a subscriber that is removed is told of no path of any space, and every
-- other subscriber is told of exactly the keys that it was told of.
pub is_subscribed-remove_everywhere :
    (ops : List Op) (x y : ℕ) (s : Text) (p : TaskPath)
    → is_subscribed (remove_subscriber (run ops new) x) y s p
      ≡ (if x == y then false else is_subscribed (run ops new) y s p)
is_subscribed-remove_everywhere ops x y s p =
    let ns = run ops new in
    let covered =
      subst SubTrie.Covered.IsCovered (sym (run-slot s ops).1)
        (SubTrie.Run.run-IsCovered (sub_ops s ops) SubTrie.new SubTrie.Covered.new-IsCovered) in
    is_subscribed-slot (remove_subscriber ns x) y s p
    ∙ ap (λ t. SubTrie.is_subscribed t y p) (removed-slot s ns x)
    ∙ SubTrie.Run.is_subscribed-remove_covered (slot s ns).subs x y p covered
    ∙ ap (λ b. if x == y then false else b) (sym (is_subscribed-slot ns y s p))
