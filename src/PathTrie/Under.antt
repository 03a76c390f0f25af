-- ===== src/PathTrie/Under.antt =====
-- `TrieNode::any_node`: whether anything is at or under a path.
use dekit.Prelude.{
  ℕ, ◌≡◌, ◌≢◌, refl, sym, ap, ◌∙◌, true, false, Option, none, some, inl, inr, List, [], ◌∷◌, ◌++◌,
  All, All-append, arith, Bool-cases, subst,
}
use dekit.Prelude.Text.{Text, text_eq, text_eq_iff}
use dekit.TaskPath.{join}
use dekit.TaskPath.Render.{IsComponent, render, path_of}
use dekit.TaskPath.Refines.{new_complete, join-render}
use dekit.PathTrie.{
  TrieNode, Children, node, nil, child, or_option, id_of, get_child, any_node, any_child, path_at,
}

-- The task or folder at a path of names.
unfoldable pub id_in : List Text → TrieNode → Option ℕ
id_in [] n = id_of n
id_in (c ∷ cs) (node t fo ch) = elim (get_child c ch) [ none ↦ none | some n ↦ id_in cs n ]

pub path_at-render :
    (cs : List Text) → All IsComponent cs → cs ≢ [] → path_at (render cs) ≡ some (path_of cs)
path_at-render [] v n = absurd (n refl)
path_at-render (c ∷ cs) v n = rw (path_at, new_complete c cs v) refl

render-one : (c : Text) → render (c ∷ []) ≡ c
unfolding render
render-one c = refl

pub join-render_snoc :
    (cs : List Text) (c : Text)
    → All IsComponent cs
    → IsComponent c
    → join (render cs) c ≡ render (cs ++ c ∷ [])
join-render_snoc cs c v vc =
    sym (ap (join (render cs)) (render-one c)) ∙ join-render cs (c ∷ []) v (vc, tt)

pub snoc-ne-nil : (cs : List Text) (c : Text) → cs ++ c ∷ [] ≢ []
snoc-ne-nil [] c e = cc
snoc-ne-nil (d ∷ cs) c e = cc

pub or_option-none : {A : Type 0} (a b : Option A) → or_option a b ≡ none → (a ≡ none) × (b ≡ none)
or_option-none none b e = (refl, e)
or_option-none (some x) b e = absurd (cc)

any_node-none_inv :
    (t fo : Option ℕ) (ch : Children) (cs : List Text)
    → All IsComponent cs
    → cs ≢ []
    → any_node (node t fo ch) (render cs) ≡ none
    → (or_option t fo ≡ none) × (any_child ch (render cs) ≡ none)
unfolding any_node any_child
any_node-none_inv none none ch cs v m e = (refl, e)
any_node-none_inv none (some f) ch cs v m e = absurd (cc (e, path_at-render cs v m))
any_node-none_inv (some t) fo ch cs v m e = absurd (cc (e, path_at-render cs v m))

pub id_in-first :
    (t fo : Option ℕ) (c d : Text) (n : TrieNode) (ch : Children) (ds : List Text)
    → text_eq c d ≡ true
    → id_in (d ∷ ds) (node t fo (child c n ch)) ≡ id_in ds n
unfolding id_in get_child
id_in-first t fo c d n ch ds is = ground arith

pub id_in-rest :
    (t fo : Option ℕ) (c d : Text) (n : TrieNode) (ch : Children) (ds : List Text)
    → text_eq c d ≡ false
    → id_in (d ∷ ds) (node t fo (child c n ch)) ≡ id_in (d ∷ ds) (node t fo ch)
unfolding id_in get_child
id_in-rest t fo c d n ch ds other = ground arith

mutual
  unfolding id_in any_node any_child get_child

  -- Nothing is found: no task and no folder is there.
  any_node-none :
      (n : TrieNode) (cs ds : List Text)
      → All IsComponent cs
      → cs ≢ []
      → All IsComponent ds
      → any_node n (render cs) ≡ none
      → id_in ds n ≡ none
  any_node-none (node t fo ch) cs [] v m w e = (any_node-none_inv t fo ch cs v m e).0
  any_node-none (node t fo ch) cs (d ∷ ds) v m w e =
      any_child-none t fo ch cs d ds v w (any_node-none_inv t fo ch cs v m e).1

  pub any_child-none :
      (t fo : Option ℕ) (ch : Children) (cs : List Text) (d : Text) (ds : List Text)
      → All IsComponent cs
      → All IsComponent (d ∷ ds)
      → any_child ch (render cs) ≡ none
      → id_in (d ∷ ds) (node t fo ch) ≡ none
  any_child-none t fo nil cs d ds v w e = refl
  any_child-none t fo (child c n ch) cs d ds v w e =
      let (first, rest) = or_option-none _ _ e in
      elim (Bool-cases (text_eq c d)) [
        | inl is ↦
            let same = (text_eq_iff c d).0 is in
            let vc = subst IsComponent (sym same) w.0 in
            id_in-first t fo c d n ch ds is
            ∙ (any_node-none n (cs ++ c ∷ []) ds (All-append IsComponent cs (c ∷ []) v (vc, tt))
                (snoc-ne-nil cs c) w.1 (ap (any_node n) (sym (join-render_snoc cs c v vc)) ∙ first))
        | inr other ↦ id_in-rest t fo c d n ch ds other ∙ any_child-none t fo ch cs d ds v w rest
      ]
