-- ===== src/PathTrie/Listing.antt =====
-- What `nodes` lists, and `before`: the order of the list, in any trie that the operations make.
use mathlib.Core.List.{append-nil, append_assoc}
use dekit.Prelude.{
  ℕ, ◌≡◌, ◌≢◌, refl, sym, ap, ◌∙◌, subst, true, Option, none, some, Bool-cases, Option-cases, inl,
  inr, List, [], ◌∷◌, ◌++◌, All, All-append, arith, is_some,
}
use dekit.Prelude.Text.{Text, text_eq, text_eq_iff, text_eq_refl}
use dekit.Prelude.Maps.{some_injective}
use dekit.TaskPath.{TaskPath, components, join}
use dekit.TaskPath.Render.{IsComponent, render}
use dekit.PathTrie.{
  PathTrie, TrieNode, node, Children, nil, child, or_option, id_of, get_child, walk_to, walk_from,
  new, before, nodes, collect_nodes, collect_children, listed_at,
}
use dekit.PathTrie.Under.{
  id_in, id_in-first, id_in-rest, path_at-render, join-render_snoc, snoc-ne-nil,
}
use dekit.PathTrie.Leaves.{Op, run, path_of_op, run-IsLeafy}
use dekit.PathTrie.Above.{IsPath}
use dekit.PathTrie.Names.{IsNamed, AreNamed, child-IsNamed, run-IsNamed}
use dekit.PathTrie.Order.{list_node, list_children, last_or, one_id, before-last_or}
use dekit.TaskPath.Render.{path_of}
use dekit.PathTrie.Childless.{id_in-gone, leaf_node}

-- The ids of what `nodes` lists.
unfoldable pub ids_listed : List (TaskPath × ℕ) → List ℕ
ids_listed [] = []
ids_listed ((path, id) ∷ rest) = id ∷ ids_listed rest

ids_listed-append : (a b : List (TaskPath × ℕ)) → ids_listed (a ++ b) ≡ ids_listed a ++ ids_listed b
unfolding ids_listed
ids_listed-append [] b = refl
ids_listed-append ((path, id) ∷ a) b = ap (λ l. id ∷ l) (ids_listed-append a b)

ids_listed-one :
    (o : Option ℕ) (cs : List Text)
    → All IsComponent cs
    → cs ≢ []
    → ids_listed (listed_at o (render cs)) ≡ one_id o
unfolding ids_listed
ids_listed-one none cs v n = refl
ids_listed-one (some id) cs v n =
    ap (λ (q : Option TaskPath). ids_listed (elim q [ none ↦ [] | some p ↦ (p, id) ∷ [] ]))
      (path_at-render cs v n)

All-listed_at :
    (P : TaskPath × ℕ → Type 0) (o : Option ℕ) (cs : List Text)
    → All IsComponent cs
    → cs ≢ []
    → ((id : ℕ) → o ≡ some id → P (path_of cs, id))
    → All P (listed_at o (render cs))
All-listed_at P none cs v n h = tt
All-listed_at P (some id) cs v n h =
    subst (λ (q : Option TaskPath). All P (elim q [ none ↦ [] | some p ↦ (p, id) ∷ [] ]))
      (sym (path_at-render cs v n)) (h id refl, tt)

mutual
  unfolding list_node list_children IsNamed AreNamed collect_nodes collect_children ids_listed

  ids-collect_nodes :
      (n : TrieNode) (cs : List Text)
      → IsNamed n
      → All IsComponent cs
      → cs ≢ []
      → ids_listed (collect_nodes n (render cs)) ≡ list_node n
  ids-collect_nodes (node t fo ch) cs a v e =
      ids_listed-append (listed_at (or_option t fo) (render cs)) (collect_children ch (render cs))
      ∙ ap (λ l. l ++ ids_listed (collect_children ch (render cs)))
          (ids_listed-one (or_option t fo) cs v e)
      ∙ ap (λ l. one_id (or_option t fo) ++ l) (ids-collect_children ch cs a v)

  ids-collect_children :
      (ch : Children) (cs : List Text)
      → AreNamed ch
      → All IsComponent cs
      → ids_listed (collect_children ch (render cs)) ≡ list_children ch
  ids-collect_children nil cs a v = refl
  ids-collect_children (child c n ch) cs a v =
      ids_listed-append (collect_nodes n (join (render cs) c)) (collect_children ch (render cs))
      ∙ ap (λ l. l ++ ids_listed (collect_children ch (render cs)))
          (ap (λ u. ids_listed (collect_nodes n u)) (join-render_snoc cs c v a.0)
            ∙ ids-collect_nodes n (cs ++ c ∷ []) a.2
                (All-append IsComponent cs (c ∷ []) v (a.0, tt)) (snoc-ne-nil cs c))
      ∙ ap (λ l. list_node n ++ l) (ids-collect_children ch cs a.3 v)

-- An entry of what is at and under a path: the path of a task or folder there, and its id.
abbrev pub IsEntry : List Text → TrieNode → TaskPath × ℕ → Type 0
IsEntry cs n (path, id) =
    (ds : List Text) × All IsComponent ds × (path ≡ path_of (cs ++ ds)) × (id_in ds n ≡ some id)

-- What is at a path of the later children is there, as the first is of another name.
id_in-kept :
    (c d : Text) (n : TrieNode) (ch : Children) (ds : List Text) (id : ℕ)
    → get_child c ch ≡ none
    → id_in (d ∷ ds) (node none none ch) ≡ some id
    → id_in (d ∷ ds) (node none none (child c n ch)) ≡ some id
id_in-kept c d n ch ds id gone e = elim (Bool-cases (text_eq c d)) [
  | inl is ↦ absurd (
      cc (
        e,
        id_in-gone none none d ch ds
            (ap (λ k. get_child k ch) (sym ((text_eq_iff c d).0 is)) ∙ gone),
      ))
  | inr other ↦ id_in-rest none none c d n ch ds other ∙ e
]

-- What holds of every task and folder there is at and under a path holds of all that is listed.
mutual
  unfolding IsNamed AreNamed id_in collect_nodes collect_children

  All-collect_nodes :
      (P : TaskPath × ℕ → Type 0) (n : TrieNode) (cs : List Text)
      → IsNamed n
      → All IsComponent cs
      → cs ≢ []
      → ((ds : List Text) (id : ℕ)
          → All IsComponent ds
          → id_in ds n ≡ some id
          → P (path_of (cs ++ ds), id))
      → All P (collect_nodes n (render cs))
  All-collect_nodes P (node t fo ch) cs a v e h =
      All-append P (listed_at (or_option t fo) (render cs)) (collect_children ch (render cs))
        (All-listed_at P (or_option t fo) cs v e
          (λ id is. subst (λ l. P (path_of l, id)) (append-nil cs) (h [] id tt is)))
        (All-collect_children P ch cs a v (λ d ds id w is. h (d ∷ ds) id w is))

  All-collect_children :
      (P : TaskPath × ℕ → Type 0) (ch : Children) (cs : List Text)
      → AreNamed ch
      → All IsComponent cs
      → ((d : Text) (ds : List Text) (id : ℕ)
          → All IsComponent (d ∷ ds)
          → id_in (d ∷ ds) (node none none ch) ≡ some id
          → P (path_of (cs ++ d ∷ ds), id))
      → All P (collect_children ch (render cs))
  All-collect_children P nil cs a v h = tt
  All-collect_children P (child c n ch) cs a v h =
      All-append P (collect_nodes n (join (render cs) c)) (collect_children ch (render cs))
        (subst (λ u. All P (collect_nodes n u)) (sym (join-render_snoc cs c v a.0))
          (All-collect_nodes P n (cs ++ c ∷ []) a.2 (All-append IsComponent cs (c ∷ []) v (a.0, tt))
            (snoc-ne-nil cs c)
            (λ ds id w is.
              subst (λ l. P (path_of l, id)) (sym (append_assoc cs (c ∷ []) ds))
                (h c ds id (a.0, w) (id_in-first none none c c n ch ds (text_eq_refl c) ∙ is)))))
        (All-collect_children P ch cs a.3 v
          (λ d ds id w is. h d ds id w (id_in-kept c d n ch ds id a.1 is)))

walk-IsNamed : (cs : List Text) (n m : TrieNode) → IsNamed n → walk_from cs n ≡ some m → IsNamed m
unfolding walk_from
walk-IsNamed [] n m a e = subst IsNamed (some_injective e) a
walk-IsNamed (c ∷ cs) (node t fo ch) m a e = elim (Option-cases (get_child c ch)) [
  | inl gone ↦ absurd (ground arith)
  | inr (k, at) ↦ walk-IsNamed cs k m (child-IsNamed c ch k (unfold IsNamed in a) at) (ground arith)
]

ids-nodes :
    (t : PathTrie) (p : TaskPath) (m : TrieNode)
    → IsNamed t.root
    → IsPath p
    → components p ≢ []
    → walk_to t p ≡ some m
    → ids_listed (nodes t p) ≡ list_node m
unfolding nodes walk_to
ids-nodes t p m a v some_path e =
    ap
      (λ (o : Option TrieNode). ids_listed (elim o [ none ↦ [] | some n ↦ collect_nodes n p.text ]))
      e
    ∙ ap (λ (q : TaskPath). ids_listed (collect_nodes m q.text)) (sym v.1)
    ∙ ids-collect_nodes m (components p) (walk-IsNamed (components p) t.root m a e) v.0 some_path

nodes-IsEntry :
    (t : PathTrie) (p : TaskPath) (m : TrieNode)
    → IsNamed t.root
    → IsPath p
    → components p ≢ []
    → walk_to t p ≡ some m
    → All (IsEntry (components p) m) (nodes t p)
unfolding nodes walk_to
nodes-IsEntry t p m a v some_path e =
    subst
      (λ (o : Option TrieNode).
        All (IsEntry (components p) m) (elim o [ none ↦ [] | some n ↦ collect_nodes n p.text ]))
      (sym e)
      (subst (λ (q : TaskPath). All (IsEntry (components p) m) (collect_nodes m q.text)) v.1
        (All-collect_nodes (IsEntry (components p) m) m (components p)
          (walk-IsNamed (components p) t.root m a e) v.0 some_path
          (λ ds id w is. (ds, w, refl, is))))

-- Whatever operations made the trie, `nodes` answers for the path of a task or folder, other than
-- the root, with the tasks and folders at and under it, each with its path, in the order in which
-- their ids stand together in the list of all tasks and folders, and `before` answers with the one
-- that is listed just before them, and with none for the first.
pub before-nodes :
    (ops : List Op) (p : TaskPath) (m : TrieNode)
    → All (λ op. IsPath (path_of_op op)) ops
    → IsPath p
    → components p ≢ []
    → walk_to (run ops new) p ≡ some m
    → is_some (id_of m) ≡ true
    → (ids_listed (nodes (run ops new) p) ≡ list_node m)
      × All (IsEntry (components p) m) (nodes (run ops new) p)
      × (earlier : List ℕ) × (later : List ℕ) × (list_node (run ops new).root
          ≡ (earlier ++ list_node m) ++ later)
      × (before (run ops new) p ≡ last_or earlier none)
before-nodes ops p m v w some_path e has =
    let t = run ops new in
    let named = run-IsNamed ops v in
    let (earlier, later, all, last) =
      before-last_or t p m (leaf_node t.root named (run-IsLeafy ops v)) e has in
    (
      ids-nodes t p m named w some_path e,
      nodes-IsEntry t p m named w some_path e,
      earlier,
      later,
      all,
      last,
    )
