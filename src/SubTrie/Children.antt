-- ===== src/SubTrie/Children.antt =====
-- The children of a node, read after each change.
use dekit.Prelude.{◌≡◌, refl, none, some, arith, if◌then◌else◌}
use dekit.Prelude.Text.{Text, text_eq, text_eq_iff}
use dekit.SubTrie.{SubNode, SubChildren, nil, child, get_child, set_child, remove_child}

pub get_child-set_child :
    (c d : Text) (n : SubNode) (ch : SubChildren)
    → get_child d (set_child c n ch) ≡ (if text_eq c d then some n else get_child d ch)
unfolding get_child set_child
get_child-set_child c d n nil = refl
get_child-set_child c d n (child e m ch) =
    ground (arith, get_child-set_child c d n ch, text_eq_iff c d, text_eq_iff e c, text_eq_iff e d)

pub get_child-remove_child :
    (c d : Text) (ch : SubChildren)
    → get_child d (remove_child c ch) ≡ (if text_eq c d then none else get_child d ch)
unfolding get_child remove_child
get_child-remove_child c d nil = ground arith
get_child-remove_child c d (child e m ch) =
    ground (arith, get_child-remove_child c d ch, text_eq_iff c d, text_eq_iff e c, text_eq_iff e d)
