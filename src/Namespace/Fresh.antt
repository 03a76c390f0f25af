-- ===== src/Namespace/Fresh.antt =====
-- Nothing is in new tries, and nothing can be taken out of them.
use dekit.Prelude.{ℕ, ◌≡◌, refl, ap, false, Option, none, List, [], ◌∷◌, option_elim_eq}
use dekit.Prelude.Text.{Text}
use dekit.TaskPath.{TaskPath, components}
use dekit.Prelude.Maps
use dekit.SubTrie
use dekit.SubTrie.{SubTrie, SubMode, exact, subtree}
use dekit.PathTrie
use dekit.PathTrie.{PathTrie, Place, PathConflict}
use dekit.Namespace.{}

-- Nothing is there to take out of new tries.
pub change_empty :
    (ft ff : Option ℕ → Option ℕ) (cs : List Text)
    → ft none ≡ none
    → ff none ≡ none
    → PathTrie.prune_from cs (PathTrie.change cs (PathTrie.edit ft ff) PathTrie.empty_node)
      ≡ PathTrie.empty_node
unfolding PathTrie.get_child PathTrie.change PathTrie.prune_from
change_empty ft ff [] zt zf = rw (zt, zf) refl
change_empty ft ff (c ∷ cs) zt zf = refl

pub remove-new : (p : TaskPath) → (PathTrie.remove PathTrie.new p).1 ≡ PathTrie.new
unfolding PathTrie.remove PathTrie.prune
remove-new p =
    option_elim_eq (λ (r : Option ℕ × PathTrie). r.1 ≡ PathTrie.new)
      (PathTrie.walk_to PathTrie.new p) (λ gone. refl)
      (λ n at.
        ap (λ (m : PathTrie.TrieNode). record { root = m })
          (change_empty PathTrie.no_id PathTrie.same_id (components p) refl refl))

pub remove_folder-new : (p : TaskPath) → (PathTrie.remove_folder PathTrie.new p).1 ≡ PathTrie.new
unfolding PathTrie.remove_folder PathTrie.prune
remove_folder-new p =
    option_elim_eq (λ (r : Option ℕ × PathTrie). r.1 ≡ PathTrie.new)
      (PathTrie.walk_to PathTrie.new p) (λ gone. refl)
      (λ n at.
        ap (λ (m : PathTrie.TrieNode). record { root = m })
          (change_empty PathTrie.same_id PathTrie.no_id (components p) refl refl))

pub prune_empty :
    (cs : List Text) → PathTrie.prune_from cs PathTrie.empty_node ≡ PathTrie.empty_node
unfolding PathTrie.get_child PathTrie.prune_from
prune_empty [] = refl
prune_empty (c ∷ cs) = refl

pub prune-new : (p : TaskPath) → PathTrie.prune PathTrie.new p ≡ PathTrie.new
unfolding PathTrie.prune
prune-new p = ap (λ (m : PathTrie.TrieNode). record { root = m }) (prune_empty (components p))

pub remove_one_empty :
    (cs : List Text) (x : ℕ) (m : SubMode)
    → SubTrie.remove_one cs x m SubTrie.default ≡ SubTrie.default
unfolding SubTrie.get_child SubTrie.remove_one
remove_one_empty [] x exact = refl
remove_one_empty [] x subtree = refl
remove_one_empty (c ∷ cs) x m = refl

pub unsubscribe-new :
    (x : ℕ) (p : TaskPath) (m : SubMode) → SubTrie.unsubscribe SubTrie.new x p m ≡ SubTrie.new
unfolding SubTrie.unsubscribe Maps.lookup
unsubscribe-new x p m =
    ap (λ (n : SubTrie.SubNode). record { root = n; by_subscriber = [] })
      (remove_one_empty (components p) x m)

pub remove_subscriber-new : (x : ℕ) → SubTrie.remove_subscriber SubTrie.new x ≡ SubTrie.new
unfolding SubTrie.remove_subscriber Maps.lookup
remove_subscriber-new x = refl

pub is_subscribed_empty :
    (cs : List Text) (y : ℕ) → SubTrie.is_subscribed_from cs SubTrie.default y ≡ false
unfolding SubTrie.is_subscribed_from SubTrie.get_child
is_subscribed_empty [] y = refl
is_subscribed_empty (c ∷ cs) y = refl
