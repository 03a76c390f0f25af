-- ===== src/PathTrie/Groups.antt =====
-- No group is left without a task or a folder under it: what `prune` is for.
use dekit.Prelude.{
  ℕ, zero, suc, ◌≡◌, refl, sym, ap, ◌∙◌, Bool, true, false, not, ◌&&◌, Option, none, some,
  Option-cases, inl, inr, List, [], ◌∷◌, ◌++◌, All, arith, is_some, Bool-cases, if◌then◌else◌,
  subst, option_elim_eq, if_elim,
}
use dekit.Prelude.Text.{Text, text_eq, text_eq_refl, text_eq_iff}
use dekit.Prelude.Result.{ok, err}
use dekit.Prelude.Maps.{some_injective}
use dekit.TaskPath.{TaskPath, components}
use dekit.PathTrie.{
  TrieNode, node, Children, nil, child, PathTrie, Place, Spot, PathConflict, new, empty_node,
  is_empty, no_children, walk_from, get_child, put_child, insert_at, shift_remove, make, make_index,
  change, edit, put_id, same_id, no_id, prune_from, insert, insert_folder, remove, remove_folder,
  put_at, out_of_bounds, walk_to, after_itself, spot_of, task_above, prune,
}
use dekit.PathTrie.Under.{id_in, id_in-first}
use dekit.PathTrie.Updates.{id_in-walk}
use dekit.PathTrie.Leaves.{
  Op, inserts, inserts_folder, places, removes, removes_folder, prunes, or_same, step, run,
}
use dekit.PathTrie.Entries.{get_child-put_child}

mutual
  -- Every node under this one has a task, a folder or a child.
  pub HasLiveGroups : TrieNode → Type 0
  HasLiveGroups (node t fo ch) = AreLive ch

  pub AreLive : Children → Type 0
  AreLive nil = Unit
  AreLive (child c n ch) = (is_empty n ≡ false) × HasLiveGroups n × AreLive ch

-- A node that is not empty has a task or a folder at or under it.
id_under :
    (n : TrieNode)
    → is_empty n ≡ false
    → HasLiveGroups n
    → (ds : List Text) × (is_some (id_in ds n) ≡ true)
unfolding HasLiveGroups id_in get_child
id_under (node (some t) fo ch) e l = ([], refl)
id_under (node none (some fo) ch) e l = ([], refl)
id_under (node none none nil) e l = absurd (cc)
id_under (node none none (child c n ch)) e l =
    let (ds, has) = id_under n l.0 l.1 in
    (c ∷ ds, ap is_some (id_in-first none none c c n ch ds (text_eq_refl c)) ∙ has)

child_of :
    (c : Text) (ch : Children) (n : TrieNode)
    → AreLive ch
    → get_child c ch ≡ some n
    → (is_empty n ≡ false) × HasLiveGroups n
unfolding AreLive HasLiveGroups get_child
child_of c nil n l e = absurd (cc)
child_of c (child d m ch) n l e = elim (Bool-cases (text_eq d c)) [
  | inl is ↦
      let same : m ≡ n = some_injective (rw is at e) in
      (subst (λ k. is_empty k ≡ false) same l.0, subst HasLiveGroups same l.1)
  | inr other ↦ child_of c ch n l.2 (rw other at e)
]

put_child-AreLive :
    (c : Text) (n : TrieNode) (ch : Children)
    → is_empty n ≡ false
    → HasLiveGroups n
    → AreLive ch
    → AreLive (put_child c n ch)
unfolding AreLive HasLiveGroups put_child
put_child-AreLive c n nil e ln l = tt
put_child-AreLive c n (child d m ch) e ln l = elim (Bool-cases (text_eq d c)) [
  | inl is ↦ rw is (e, ln, l.2)
  | inr other ↦ rw other (l.0, l.1, put_child-AreLive c n ch e ln l.2)
]

insert_at-AreLive :
    (i : ℕ) (c : Text) (n : TrieNode) (ch : Children)
    → is_empty n ≡ false
    → HasLiveGroups n
    → AreLive ch
    → AreLive (insert_at i c n ch)
unfolding AreLive HasLiveGroups insert_at
insert_at-AreLive zero c n ch e ln l = (e, ln, l)
insert_at-AreLive (suc i) c n nil e ln l = (e, ln, tt)
insert_at-AreLive (suc i) c n (child d m ch) e ln l =
    (l.0, l.1, insert_at-AreLive i c n ch e ln l.2)

shift_remove-AreLive : (c : Text) (ch : Children) → AreLive ch → AreLive (shift_remove c ch)
unfolding AreLive HasLiveGroups shift_remove
shift_remove-AreLive c nil l = tt
shift_remove-AreLive c (child d m ch) l = elim (Bool-cases (text_eq d c)) [
  | inl is ↦ rw is (shift_remove-AreLive c ch l.2)
  | inr other ↦ rw other (l.0, l.1, shift_remove-AreLive c ch l.2)
]

no_children-insert_at :
    (i : ℕ) (c : Text) (n : TrieNode) (ch : Children) → no_children (insert_at i c n ch) ≡ false
unfolding insert_at
no_children-insert_at zero c n ch = refl
no_children-insert_at (suc i) c n nil = refl
no_children-insert_at (suc i) c n (child d m ch) = refl

no_children-put_child :
    (c : Text) (m n : TrieNode) (ch : Children)
    → get_child c ch ≡ some n
    → no_children (put_child c m ch) ≡ false
unfolding put_child get_child
no_children-put_child c m n nil e = absurd (cc)
no_children-put_child c m n (child d k ch) e = ground arith

shift_remove-put_child :
    (c : Text) (m : TrieNode) (ch : Children)
    → shift_remove c (put_child c m ch) ≡ shift_remove c ch
unfolding shift_remove put_child
shift_remove-put_child c m nil = refl
shift_remove-put_child c m (child d k ch) =
    ground (arith, text_eq_refl c, shift_remove-put_child c m ch)

put_child-put_child :
    (c : Text) (m n : TrieNode) (ch : Children)
    → put_child c n (put_child c m ch) ≡ put_child c n ch
unfolding put_child
put_child-put_child c m n nil = refl
put_child-put_child c m n (child d k ch) =
    ground (arith, text_eq_refl c, put_child-put_child c m n ch)

has_children-is_empty :
    (t fo : Option ℕ) (ch : Children) → no_children ch ≡ false → is_empty (node t fo ch) ≡ false
has_children-is_empty t fo ch e = ground arith

module _ (ft ff : Option ℕ → Option ℕ) where
  -- Where the change leaves something, `make` leaves no empty group.
  make-is_empty :
      (cs : List Text) (spot : Spot) (n : TrieNode)
      → ((n : TrieNode) → is_empty (edit ft ff n) ≡ false)
      → is_empty (make cs spot (edit ft ff) n) ≡ false
  unfolding make
  make-is_empty [] spot n h = h n
  make-is_empty (c ∷ cs) spot (node t fo ch) h =
      option_elim_eq (λ n. is_empty n ≡ false) (get_child c ch)
        (λ gone.
          has_children-is_empty t fo _ (no_children-insert_at (make_index cs spot ch) c _ ch))
        (λ n at. has_children-is_empty t fo _ (no_children-put_child c _ n ch at))

  make-HasLiveGroups :
      (cs : List Text) (spot : Spot) (n : TrieNode)
      → ((n : TrieNode) → is_empty (edit ft ff n) ≡ false)
      → HasLiveGroups n
      → HasLiveGroups (make cs spot (edit ft ff) n)
  unfolding HasLiveGroups AreLive make
  make-HasLiveGroups [] spot (node t fo ch) h l = l
  make-HasLiveGroups (c ∷ cs) spot (node t fo ch) h l =
      option_elim_eq HasLiveGroups (get_child c ch)
        (λ gone.
          insert_at-AreLive (make_index cs spot ch) c _ ch (make-is_empty cs spot empty_node h)
            (make-HasLiveGroups cs spot empty_node h tt) l)
        (λ n at.
          put_child-AreLive c _ ch (make-is_empty cs spot n h)
            (make-HasLiveGroups cs spot n h (child_of c ch n l at).1) l)

  prune-change :
      (c : Text) (cs : List Text) (t fo : Option ℕ) (ch : Children) (n : TrieNode)
      → get_child c ch ≡ some n
      → prune_from (c ∷ cs) (change (c ∷ cs) (edit ft ff) (node t fo ch)) ≡ (
          let n' = prune_from cs (change cs (edit ft ff) n) in
          node t fo (if is_empty n' then shift_remove c ch else put_child c n' ch))
  unfolding prune_from change
  prune-change c cs t fo ch n at =
      let m = change cs (edit ft ff) n in
      ground (
        arith,
        text_eq_refl c,
        get_child-put_child c c m ch,
        shift_remove-put_child c m ch,
        put_child-put_child c m (prune_from cs m) ch,
      )

  prune-gone :
      (c : Text) (cs : List Text) (t fo : Option ℕ) (ch : Children)
      → get_child c ch ≡ none
      → prune_from (c ∷ cs) (change (c ∷ cs) (edit ft ff) (node t fo ch)) ≡ node t fo ch
  unfolding prune_from change
  prune-gone c cs t fo ch gone = ground arith

  -- A change may empty the node at the path; pruning the path drops it, and the groups above it
  -- that it empties.
  prune-HasLiveGroups :
      (cs : List Text) (n : TrieNode)
      → HasLiveGroups n
      → HasLiveGroups (prune_from cs (change cs (edit ft ff) n))
  unfolding HasLiveGroups AreLive
  prune-HasLiveGroups [] (node t fo ch) l = unfold prune_from change in l
  prune-HasLiveGroups (c ∷ cs) (node t fo ch) l = elim (Option-cases (get_child c ch)) [
    | inl gone ↦ subst HasLiveGroups (sym (prune-gone c cs t fo ch gone)) l
    | inr (n, at) ↦
        let n' = prune_from cs (change cs (edit ft ff) n) in
        let below = prune-HasLiveGroups cs n (child_of c ch n l at).1 in
        subst HasLiveGroups (sym (prune-change c cs t fo ch n at)) (
          if_elim AreLive (is_empty n') (λ dead. shift_remove-AreLive c ch l)
            (λ alive. put_child-AreLive c n' ch alive below l))
  ]

put_child_same :
    (c : Text) (n : TrieNode) (ch : Children) → get_child c ch ≡ some n → put_child c n ch ≡ ch
unfolding put_child get_child
put_child_same c n nil e = refl
put_child_same c n (child d m ch) e = elim (Bool-cases (text_eq d c)) [
  | inl is ↦
      let same : m ≡ n = some_injective (rw is at e) in rw (is, same, (text_eq_iff d c).0 is) refl
  | inr other ↦ rw (other, put_child_same c n ch (rw other at e)) refl
]

change_same : (cs : List Text) (n : TrieNode) → change cs (edit same_id same_id) n ≡ n
unfolding change
change_same [] (node t fo ch) = refl
change_same (c ∷ cs) (node t fo ch) =
    option_elim_eq (λ m. m ≡ node t fo ch) (get_child c ch) (λ gone. refl)
      (λ n at.
        ap (node t fo) (ap (λ m. put_child c m ch) (change_same cs n) ∙ put_child_same c n ch at))

put_at-HasLiveGroups :
    (ft ff : Option ℕ → Option ℕ) (t : PathTrie) (o : Option PathConflict) (p : TaskPath)
    (at : Place)
    → ((n : TrieNode) → is_empty (edit ft ff n) ≡ false)
    → HasLiveGroups t.root
    → HasLiveGroups (or_same t (put_at o (edit ft ff) t p at)).root
put_at-HasLiveGroups ft ff t (some x) p at h l = l
put_at-HasLiveGroups ft ff t none p at h l =
    if_elim (λ r. HasLiveGroups (or_same t r).root)
      (not (is_some (walk_to t p)) && after_itself p at) {x = err out_of_bounds}
      {y = ok (record { root = make (components p) (spot_of p at) (edit ft ff) t.root })}
      (λ panics. l) (λ goes. make-HasLiveGroups ft ff (components p) (spot_of p at) t.root h l)

put_task-is_empty : (id : ℕ) (n : TrieNode) → is_empty (edit (put_id id) same_id n) ≡ false
put_task-is_empty id (node t fo ch) = refl

put_folder-is_empty : (id : ℕ) (n : TrieNode) → is_empty (edit same_id (put_id id) n) ≡ false
put_folder-is_empty id (node none fo ch) = refl
put_folder-is_empty id (node (some t) fo ch) = refl

-- Every operation but the one that holds places.
abbrev pub holds_no_place : Op → Bool
holds_no_place (places p at) = false
holds_no_place _ = true

step-HasLiveGroups :
    (t : PathTrie) (op : Op)
    → holds_no_place op ≡ true
    → HasLiveGroups t.root
    → HasLiveGroups (step t op).root
unfolding insert insert_folder remove remove_folder prune
step-HasLiveGroups t (inserts p id at) v l =
    option_elim_eq (λ r. HasLiveGroups (or_same t r).root) (task_above t p)
      (λ gone. put_at-HasLiveGroups (put_id id) same_id t _ p at (put_task-is_empty id) l)
      (λ q found. l)
step-HasLiveGroups t (inserts_folder p id at) v l =
    option_elim_eq (λ r. HasLiveGroups (or_same t r).root) (task_above t p)
      (λ gone. put_at-HasLiveGroups same_id (put_id id) t _ p at (put_folder-is_empty id) l)
      (λ q found. l)
step-HasLiveGroups t (places p at) v l = absurd (cc)
step-HasLiveGroups t (removes p) v l =
    option_elim_eq (λ (r : Option ℕ × PathTrie). HasLiveGroups (r.1).root) (walk_to t p) (λ gone. l)
      (λ n at. prune-HasLiveGroups no_id same_id (components p) t.root l)
step-HasLiveGroups t (removes_folder p) v l =
    option_elim_eq (λ (r : Option ℕ × PathTrie). HasLiveGroups (r.1).root) (walk_to t p) (λ gone. l)
      (λ n at. prune-HasLiveGroups same_id no_id (components p) t.root l)
step-HasLiveGroups t (prunes p) v l =
    subst HasLiveGroups (ap (prune_from (components p)) (change_same (components p) t.root))
      (prune-HasLiveGroups same_id same_id (components p) t.root l)

run-HasLiveGroups :
    (ops : List Op) (t : PathTrie)
    → All (λ op. holds_no_place op ≡ true) ops
    → HasLiveGroups t.root
    → HasLiveGroups (run ops t).root
unfolding run
run-HasLiveGroups [] t v l = l
run-HasLiveGroups (op ∷ ops) t v l =
    run-HasLiveGroups ops (step t op) v.1 (step-HasLiveGroups t op v.0 l)

walk-HasLiveGroups :
    (c : Text) (cs : List Text) (n m : TrieNode)
    → HasLiveGroups n
    → walk_from (c ∷ cs) n ≡ some m
    → (is_empty m ≡ false) × HasLiveGroups m
unfolding walk_from HasLiveGroups
walk-HasLiveGroups c [] (node t fo ch) m l e = elim (Option-cases (get_child c ch)) [
  | inl gone ↦ absurd (ground arith)
  | inr (n, at) ↦ child_of c ch m l (ground arith)
]
walk-HasLiveGroups c (d ∷ cs) (node t fo ch) m l e = elim (Option-cases (get_child c ch)) [
  | inl gone ↦ absurd (ground arith)
  | inr (n, at) ↦ walk-HasLiveGroups d cs n m (child_of c ch n l at).1 (ground arith)
]

-- Whatever inserts, removals and prunes made the trie, there is a task or a folder at or under
-- every path that has a node, but the root: no group is left over.
pub run-walk :
    (ops : List Op) (c : Text) (cs : List Text) (n : TrieNode)
    → All (λ op. holds_no_place op ≡ true) ops
    → walk_from (c ∷ cs) (run ops new).root ≡ some n
    → (ds : List Text) × (is_some (id_in (c ∷ cs ++ ds) (run ops new).root) ≡ true)
run-walk ops c cs n v e =
    let all_live = run-HasLiveGroups ops new v (unfold HasLiveGroups AreLive in tt) in
    let (some_left, below) = walk-HasLiveGroups c cs (run ops new).root n all_live e in
    let (ds, has) = id_under n some_left below in
    (ds, ap is_some (id_in-walk (c ∷ cs) ds (run ops new).root n e) ∙ has)
