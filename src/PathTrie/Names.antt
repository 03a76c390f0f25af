-- ===== src/PathTrie/Names.antt =====
-- The names in a trie are components, and no node has two children of one name.
use dekit.Prelude.{
  ℕ, zero, suc, ◌≡◌, refl, ◌∙◌, subst, false, not, ◌&&◌, Option, none, some, Bool-cases, inl, inr,
  List, [], ◌∷◌, All, arith, if_elim, option_elim_eq, is_some,
}
use dekit.Prelude.Text.{Text, text_eq, text_eq_iff}
use dekit.Prelude.Maps.{some_injective}
use dekit.Prelude.Result.{ok, err}
use dekit.TaskPath.{TaskPath, components}
use dekit.TaskPath.Render.{IsComponent}
use dekit.PathTrie.{
  TrieNode, node, Children, nil, child, PathTrie, Place, Spot, PathConflict, out_of_bounds, new,
  empty_node, get_child, put_child, insert_at, shift_remove, is_empty, make, make_index, change,
  edit, put_id, same_id, no_id, prune_from, prune, put_at, insert, insert_folder, remove,
  remove_folder, place, task_above, walk_to, after_itself, spot_of,
}
use dekit.PathTrie.Entries.{get_child-put_child, get_child-insert_at, get_child-shift_remove}
use dekit.PathTrie.Above.{IsPath}
use dekit.PathTrie.Leaves.{
  Op, inserts, inserts_folder, places, removes, removes_folder, prunes, or_same, or_unplaced, step,
  run, path_of_op,
}

unfoldable mutual
  pub IsNamed : TrieNode → Type 0
  IsNamed (node t fo ch) = AreNamed ch

  pub AreNamed : Children → Type 0
  AreNamed nil = Unit
  AreNamed (child c n ch) = IsComponent c × (get_child c ch ≡ none) × IsNamed n × AreNamed ch

pub child-IsNamed :
    (c : Text) (ch : Children) (n : TrieNode) → AreNamed ch → get_child c ch ≡ some n → IsNamed n
unfolding AreNamed IsNamed get_child
child-IsNamed c nil n a e = absurd (cc)
child-IsNamed c (child d m ch) n a e = elim (Bool-cases (text_eq d c)) [
  | inl is ↦ subst IsNamed (some_injective (rw is at e)) a.2
  | inr other ↦ child-IsNamed c ch n a.3 (rw other at e)
]

pub child-IsComponent :
    (c : Text) (ch : Children) (n : TrieNode)
    → AreNamed ch
    → get_child c ch ≡ some n
    → IsComponent c
unfolding AreNamed IsNamed get_child
child-IsComponent c nil n a e = absurd (cc)
child-IsComponent c (child d m ch) n a e = elim (Bool-cases (text_eq d c)) [
  | inl is ↦ subst IsComponent ((text_eq_iff d c).0 is) a.0
  | inr other ↦ child-IsComponent c ch n a.3 (rw other at e)
]

-- What is not there is not put there.
put_child-none :
    (c d : Text) (n : TrieNode) (ch : Children)
    → get_child d ch ≡ none
    → get_child d (put_child c n ch) ≡ none
put_child-none c d n ch e = get_child-put_child c d n ch ∙ ground (arith, text_eq_iff c d)

put_child-AreNamed :
    (c : Text) (n : TrieNode) (ch : Children)
    → IsNamed n
    → AreNamed ch
    → AreNamed (put_child c n ch)
unfolding AreNamed IsNamed put_child
put_child-AreNamed c n nil w a = tt
put_child-AreNamed c n (child d m ch) w a = elim (Bool-cases (text_eq d c)) [
  | inl is ↦
      let same = (text_eq_iff d c).0 is in
      rw is (subst IsComponent same a.0, subst (λ k. get_child k ch ≡ none) same a.1, w, a.3)
  | inr other ↦ rw other (a.0, put_child-none c d n ch a.1, a.2, put_child-AreNamed c n ch w a.3)
]

insert_at-AreNamed :
    (i : ℕ) (c : Text) (n : TrieNode) (ch : Children)
    → IsComponent c
    → get_child c ch ≡ none
    → IsNamed n
    → AreNamed ch
    → AreNamed (insert_at i c n ch)
unfolding AreNamed IsNamed insert_at get_child
insert_at-AreNamed zero c n ch v gone w a = (v, gone, w, a)
insert_at-AreNamed (suc i) c n nil v gone w a = (v, refl, w, tt)
insert_at-AreNamed (suc i) c n (child d m ch) v gone w a =
    let differ : text_eq d c ≡ false = ground arith in
    let gone' : get_child c ch ≡ none = ground arith in
    (
      a.0,
      get_child-insert_at i c d n ch gone' ∙ ground (arith, text_eq_iff c d, text_eq_iff d c),
      a.2,
      insert_at-AreNamed i c n ch v gone' w a.3,
    )

shift_remove-AreNamed : (c : Text) (ch : Children) → AreNamed ch → AreNamed (shift_remove c ch)
unfolding AreNamed IsNamed shift_remove
shift_remove-AreNamed c nil a = tt
shift_remove-AreNamed c (child d m ch) a = elim (Bool-cases (text_eq d c)) [
  | inl is ↦ rw is (shift_remove-AreNamed c ch a.3)
  | inr other ↦
      rw other
        (a.0, get_child-shift_remove c d ch ∙ ground arith, a.2, shift_remove-AreNamed c ch a.3)
]

module _ (ft ff : Option ℕ → Option ℕ) where
  make-IsNamed :
      (cs : List Text) (spot : Spot) (n : TrieNode)
      → All IsComponent cs
      → IsNamed n
      → IsNamed (make cs spot (edit ft ff) n)
  unfolding IsNamed AreNamed make
  make-IsNamed [] spot (node t fo ch) v a = a
  make-IsNamed (c ∷ cs) spot (node t fo ch) v a =
      option_elim_eq IsNamed (get_child c ch)
        (λ gone.
          insert_at-AreNamed (make_index cs spot ch) c _ ch v.0 gone
            (make-IsNamed cs spot empty_node v.1 tt) a)
        (λ n at.
          put_child-AreNamed c _ ch (make-IsNamed cs spot n v.1 (child-IsNamed c ch n a at)) a)

  change-IsNamed : (cs : List Text) (n : TrieNode) → IsNamed n → IsNamed (change cs (edit ft ff) n)
  unfolding IsNamed AreNamed change
  change-IsNamed [] (node t fo ch) a = a
  change-IsNamed (c ∷ cs) (node t fo ch) a =
      option_elim_eq IsNamed (get_child c ch) (λ gone. a)
        (λ n at. put_child-AreNamed c _ ch (change-IsNamed cs n (child-IsNamed c ch n a at)) a)

  put_at-IsNamed :
      (t : PathTrie) (o : Option PathConflict) (p : TaskPath) (at : Place)
      → IsPath p
      → IsNamed t.root
      → IsNamed (or_same t (put_at o (edit ft ff) t p at)).root
  put_at-IsNamed t (some x) p at v a = a
  put_at-IsNamed t none p at v a =
      if_elim (λ r. IsNamed (or_same t r).root) (not (is_some (walk_to t p)) && after_itself p at)
        {x = err out_of_bounds}
        {y = ok (record { root = make (components p) (spot_of p at) (edit ft ff) t.root })}
        (λ panics. a) (λ goes. make-IsNamed (components p) (spot_of p at) t.root v.0 a)

prune-IsNamed : (cs : List Text) (n : TrieNode) → IsNamed n → IsNamed (prune_from cs n)
unfolding IsNamed AreNamed prune_from
prune-IsNamed [] n a = a
prune-IsNamed (c ∷ cs) (node t fo ch) a =
    option_elim_eq IsNamed (get_child c ch) (λ gone. a)
      (λ n at.
        if_elim AreNamed (is_empty (prune_from cs n)) (λ dead. shift_remove-AreNamed c ch a)
          (λ alive. put_child-AreNamed c _ ch (prune-IsNamed cs n (child-IsNamed c ch n a at)) a))

place-IsNamed :
    (t : PathTrie) (p : TaskPath) (at : Place)
    → IsPath p
    → IsNamed t.root
    → IsNamed (or_unplaced t (place t p at)).root
unfolding place
place-IsNamed t p at v a =
    option_elim_eq (λ o. IsNamed (or_unplaced t o).root) (task_above t p)
      (λ gone.
        if_elim (λ o. IsNamed (or_unplaced t o).root)
          (not (is_some (walk_to t p)) && after_itself p at) {x = none}
          {y = some
            (record { root = make (components p) (spot_of p at) (edit same_id same_id) t.root })}
          (λ panics. a)
          (λ goes. make-IsNamed same_id same_id (components p) (spot_of p at) t.root v.0 a))
      (λ q found. a)

step-IsNamed :
    (t : PathTrie) (op : Op) → IsPath (path_of_op op) → IsNamed t.root → IsNamed (step t op).root
unfolding insert insert_folder remove remove_folder prune
step-IsNamed t (inserts p id at) v a =
    option_elim_eq (λ r. IsNamed (or_same t r).root) (task_above t p)
      (λ gone. put_at-IsNamed (put_id id) same_id t _ p at v a) (λ q found. a)
step-IsNamed t (inserts_folder p id at) v a =
    option_elim_eq (λ r. IsNamed (or_same t r).root) (task_above t p)
      (λ gone. put_at-IsNamed same_id (put_id id) t _ p at v a) (λ q found. a)
step-IsNamed t (places p at) v a = place-IsNamed t p at v a
step-IsNamed t (removes p) v a =
    option_elim_eq (λ (r : Option ℕ × PathTrie). IsNamed (r.1).root) (walk_to t p) (λ gone. a)
      (λ n at.
        prune-IsNamed (components p) _ (change-IsNamed no_id same_id (components p) t.root a))
step-IsNamed t (removes_folder p) v a =
    option_elim_eq (λ (r : Option ℕ × PathTrie). IsNamed (r.1).root) (walk_to t p) (λ gone. a)
      (λ n at.
        prune-IsNamed (components p) _ (change-IsNamed same_id no_id (components p) t.root a))
step-IsNamed t (prunes p) v a = prune-IsNamed (components p) t.root a

run-IsNamed_from :
    (ops : List Op) (t : PathTrie)
    → All (λ op. IsPath (path_of_op op)) ops
    → IsNamed t.root
    → IsNamed (run ops t).root
unfolding run
run-IsNamed_from [] t v a = a
run-IsNamed_from (op ∷ ops) t v a = run-IsNamed_from ops (step t op) v.1 (step-IsNamed t op v.0 a)

pub run-IsNamed :
    (ops : List Op) → All (λ op. IsPath (path_of_op op)) ops → IsNamed (run ops new).root
run-IsNamed ops v = run-IsNamed_from ops new v (unfold IsNamed AreNamed in tt)
