-- ===== src/PathTrie/Glob/Matches.antt =====
-- What a pattern means, and that the walk finds every node that it matches and no other.
use mathlib.Core.List.{append-nil, append_assoc}
use dekit.Prelude.{
  ℕ, ◌≡◌, ◌≢◌, inl, inr, refl, sym, ap, ◌∙◌, subst, Bool, true, false, ◌&&◌, ◌||◌, Option, none,
  some, Option-cases, Bool-cases, List, [], ◌∷◌, ◌++◌, All, All-append, arith, if◌then◌else◌,
  is_some,
}
use dekit.Prelude.Text.{text_eq, text_eq_iff, Text, codes}
use dekit.TaskPath.{join}
use dekit.TaskPath.Render.{IsComponent, render, path_of}
use dekit.PathTrie.{TrieNode, node, Children, nil, child, get_child, walk_from, task_of, path_at}
use dekit.PathTrie.Under.{path_at-render, join-render_snoc}
use dekit.PathTrie.Glob.{
  Match, Walk, children_of, star_node, star_children, each_child, match_at, glob_walk,
}
use dekit.PathTrie.Glob.Ordered.{IsIn, IsIn-append}

-- `P` of the components after some of the first ones.
unfoldable pub some_suffix : (List Text → Bool) → List Text → Bool
some_suffix p [] = p []
some_suffix p (c ∷ cs) = p (c ∷ cs) || some_suffix p cs

abbrev pub on_tail : (List Text → Bool) → List Text → Bool
on_tail p [] = false
on_tail p (c ∷ cs) = p cs

abbrev pub on_name : Text → (List Text → Bool) → List Text → Bool
on_name pat p [] = false
on_name pat p (c ∷ cs) = text_eq pat c && p cs

-- The components of a path match those of a pattern: `**` any number of them, `*` any one.
unfoldable pub matches : List Text → List Text → Bool
matches [] [] = true
matches [] (c ∷ cs) = false
matches (pat ∷ rest) cs =
    if text_eq pat (codes "**")
    then some_suffix (matches rest) cs
    else if text_eq pat (codes "*")
    then on_tail (matches rest) cs
    else on_name pat (matches rest) cs

-- A walk from the node at `pre` finds the node at `ds` under it where `p` holds of `ds`.
abbrev Finds : (TrieNode → Bool) → Walk → (List Text → Bool) → Type 0
Finds keeps walk p =
    (n m : TrieNode) (pre ds : List Text)
    → All IsComponent pre
    → All IsComponent ds
    → pre ++ ds ≢ []
    → walk_from ds n ≡ some m
    → keeps m ≡ true
    → p ds ≡ true
    → IsIn (path_of (pre ++ ds), task_of m) (walk n (render pre))

star_child :
    (walk : Walk) (x : Match) (c : Text) (n : TrieNode) (ch : Children) (prefix : Text)
    → get_child c ch ≡ some n
    → IsIn x (star_node walk n (join prefix c))
    → IsIn x (star_children walk ch prefix)
unfolding get_child star_node star_children
star_child walk x c n nil prefix e i = absurd (cc)
star_child walk x c n (child d m ch) prefix e i =
    IsIn-append x (star_node walk m (join prefix d)) (star_children walk ch prefix)
      (elim (Bool-cases (text_eq d c)) [
        | inl is ↦
            let same : m ≡ n = ground arith in
            inl (
              subst (λ k. IsIn x (star_node walk k (join prefix d))) (sym same)
                (subst (λ k. IsIn x (star_node walk n (join prefix k)))
                  (sym ((text_eq_iff d c).0 is)) i))
        | inr other ↦ inr (star_child walk x c n ch prefix (ground arith) i)
      ])

each_child-IsIn :
    (walk : Walk) (x : Match) (c : Text) (n : TrieNode) (ch : Children) (prefix : Text)
    → get_child c ch ≡ some n
    → IsIn x (walk n (join prefix c))
    → IsIn x (each_child walk ch prefix)
unfolding get_child each_child
each_child-IsIn walk x c n nil prefix e i = absurd (cc)
each_child-IsIn walk x c n (child d m ch) prefix e i =
    IsIn-append x (walk m (join prefix d)) (each_child walk ch prefix)
      (elim (Bool-cases (text_eq d c)) [
        | inl is ↦
            let same : m ≡ n = ground arith in
            inl (
              subst (λ k. IsIn x (walk k (join prefix d))) (sym same)
                (subst (λ k. IsIn x (walk n (join prefix k))) (sym ((text_eq_iff d c).0 is)) i))
        | inr other ↦ inr (each_child-IsIn walk x c n ch prefix (ground arith) i)
      ])

-- The first step of a walk that arrives.
pub walk-step :
    (c : Text) (ds : List Text) (n m : TrieNode)
    → walk_from (c ∷ ds) n ≡ some m
    → (k : TrieNode) × (get_child c (children_of n) ≡ some k) × (walk_from ds k ≡ some m)
unfolding walk_from
walk-step c ds (node t fo ch) m e = elim (Option-cases (get_child c ch)) [
  | inl gone ↦ absurd (ground arith)
  | inr (k, at) ↦ (k, at, ground arith)
]

-- A walk from a child, as its node's walk sees it.
descend :
    (walk : Walk) (n : TrieNode) (id : Option ℕ) (pre : List Text) (c : Text) (cs : List Text)
    → All IsComponent pre
    → IsComponent c
    → IsIn (path_of ((pre ++ c ∷ []) ++ cs), id) (walk n (render (pre ++ c ∷ [])))
    → IsIn (path_of (pre ++ c ∷ cs), id) (walk n (join (render pre) c))
descend walk n id pre c cs v vc i =
    subst (λ l. IsIn (path_of l, id) (walk n (join (render pre) c))) (append_assoc pre (c ∷ []) cs)
      (subst (λ s. IsIn (path_of ((pre ++ c ∷ []) ++ cs), id) (walk n s))
        (sym (join-render_snoc pre c v vc)) i)

pub append-ne_nil : (pre : List Text) (c : Text) (cs : List Text) → (pre ++ c ∷ []) ++ cs ≢ []
append-ne_nil [] c cs e = cc
append-ne_nil (d ∷ pre) c cs e = cc

star_here :
    (walk : Walk) (x : Match) (n : TrieNode) (prefix : Text)
    → IsIn x (walk n prefix)
    → IsIn x (star_node walk n prefix)
unfolding star_node star_children
star_here walk x (node t fo ch) prefix i =
    IsIn-append x (walk (node t fo ch) prefix) (star_children walk ch prefix) (inl i)

star_below :
    (walk : Walk) (x : Match) (c : Text) (k n : TrieNode) (prefix : Text)
    → get_child c (children_of n) ≡ some k
    → IsIn x (star_node walk k (join prefix c))
    → IsIn x (star_node walk n prefix)
star_below walk x c k (node t fo ch) prefix at i =
    unfold star_node star_children in
    IsIn-append x (walk (node t fo ch) prefix) (star_children walk ch prefix)
      (inr (star_child walk x c k ch prefix at i))

module _ (keeps : TrieNode → Bool) (walk : Walk) (p : List Text → Bool)
    (finds : Finds keeps walk p) where
  -- The walk from a child of the node.
  below :
      (k m : TrieNode) (pre : List Text) (c : Text) (cs : List Text)
      → All IsComponent pre
      → All IsComponent (c ∷ cs)
      → walk_from cs k ≡ some m
      → keeps m ≡ true
      → p cs ≡ true
      → IsIn (path_of (pre ++ c ∷ cs), task_of m) (walk k (join (render pre) c))
  below k m pre c cs v w to kept holds = descend walk k (task_of m) pre c cs v w.0 (
      finds k m (pre ++ c ∷ []) cs (All-append IsComponent pre (c ∷ []) v (w.0, tt)) w.1
        (append-ne_nil pre c cs) to kept holds)

  star-Finds : Finds keeps (star_node walk) (some_suffix p)
  unfolding some_suffix
  star-Finds n m pre [] v w some_path to kept holds =
      star_here walk _ n (render pre) (finds n m pre [] v w some_path to kept holds)
  star-Finds n m pre (c ∷ cs) v w some_path to kept holds = elim (Bool-cases (p (c ∷ cs))) [
    | inl here ↦ star_here walk _ n (render pre) (finds n m pre (c ∷ cs) v w some_path to kept here)
    | inr later ↦
        let (k, at, to') = walk-step c cs n m to in
        star_below walk _ c k n (render pre) at (
          descend (star_node walk) k (task_of m) pre c cs v w.0 (
            star-Finds k m (pre ++ c ∷ []) cs (All-append IsComponent pre (c ∷ []) v (w.0, tt)) w.1
              (append-ne_nil pre c cs) to' kept (ground arith)))
  ]

  each-Finds : Finds keeps (λ n prefix. each_child walk (children_of n) prefix) (on_tail p)
  each-Finds n m pre [] v w some_path to kept holds = absurd (cc)
  each-Finds n m pre (c ∷ cs) v w some_path to kept holds =
      let (k, at, to') = walk-step c cs n m to in
      each_child-IsIn walk _ c k (children_of n) (render pre) at
        (below k m pre c cs v w to' kept holds)

  name-Finds :
      (pat : Text)
      → Finds keeps
          (λ n prefix. elim (get_child pat (children_of n)) [
            | none ↦ []
            | some m ↦ walk m (join prefix pat)
          ])
          (on_name pat p)
  name-Finds pat n m pre [] v w some_path to kept holds = absurd (cc)
  name-Finds pat n m pre (c ∷ cs) v w some_path to kept holds =
      let same : pat ≡ c = ground (arith, text_eq_iff pat c) in
      let (k, at, to') = walk-step c cs n m to in
      let there = below k m pre c cs v w to' kept (ground arith) in
      subst
        (λ q.
          IsIn (path_of (pre ++ c ∷ cs), task_of m)
            (elim (get_child q (children_of n)) [
              | none ↦ []
              | some m ↦ walk m (join (render pre) q)
            ]))
        (sym same)
        (subst
          (λ o.
            IsIn (path_of (pre ++ c ∷ cs), task_of m)
              (elim o [ none ↦ [] | some m ↦ walk m (join (render pre) c) ]))
          (sym at) there)

pick-Finds :
    (keeps : TrieNode → Bool) (b : Bool) (walk walk' : Walk) (p p' : List Text → Bool)
    → Finds keeps walk p
    → Finds keeps walk' p'
    → Finds keeps
        (λ n prefix. if b then walk n prefix else walk' n prefix)
        (λ ds. if b then p ds else p' ds)
pick-Finds keeps true walk walk' p p' f f' = f
pick-Finds keeps false walk walk' p p' f f' = f'

-- What the walk keeps of the nodes that match.
abbrev pub keeps_node : Bool → TrieNode → Bool
keeps_node groups n = groups || is_some (task_of n)

match_here :
    (groups : Bool) (n : TrieNode) (pre : List Text)
    → All IsComponent pre
    → pre ≢ []
    → keeps_node groups n ≡ true
    → IsIn
        (path_of pre, task_of n)
        (if groups || is_some (task_of n) then match_at (path_at (render pre)) (task_of n) else [])
match_here groups n pre v some_path kept =
    subst
      (λ b.
        IsIn (path_of pre, task_of n)
          (if b then match_at (path_at (render pre)) (task_of n) else []))
      (sym kept)
      (subst (λ o. IsIn (path_of pre, task_of n) (match_at o (task_of n)))
        (sym (path_at-render pre v some_path)) (inl refl))

pub arrived : (n m : TrieNode) → walk_from [] n ≡ some m → n ≡ m
unfolding walk_from
arrived n m e = ground arith

-- Every node that the pattern matches is found.
pub glob_walk-Finds :
    (groups : Bool) (pats : List Text)
    → Finds (keeps_node groups) (glob_walk groups pats) (matches pats)
unfolding matches glob_walk
glob_walk-Finds groups [] n m pre [] v w some_path to kept holds =
    let same = arrived n m to in
    subst (λ l. IsIn (path_of l, task_of m) (glob_walk groups [] n (render pre)))
      (sym (append-nil pre))
      (subst (λ k. IsIn (path_of pre, task_of k) (glob_walk groups [] n (render pre))) same
        (match_here groups n pre v (λ e. some_path (append-nil pre ∙ e))
          (ap (keeps_node groups) same ∙ kept)))
glob_walk-Finds groups [] n m pre (c ∷ cs) v w some_path to kept holds = absurd (cc)
glob_walk-Finds groups (pat ∷ rest) n m pre ds v w some_path to kept holds =
    let keeps = keeps_node groups in
    let walk = glob_walk groups rest in
    let p = matches rest in
    let finds = glob_walk-Finds groups rest in
    let named : Walk = λ n prefix. elim (get_child pat (children_of n)) [
      | none ↦ []
      | some k ↦ walk k (join prefix pat)
    ] in
    let each : Walk = λ n prefix. each_child walk (children_of n) prefix in
    let one : Walk =
      λ n prefix. if text_eq pat (codes "*") then each n prefix else named n prefix in
    let of_one =
      λ (ds : List Text). if text_eq pat (codes "*") then on_tail p ds else on_name pat p ds in
    pick-Finds keeps (text_eq pat (codes "**")) (star_node walk) one (some_suffix p) of_one
      (star-Finds keeps walk p finds)
      (pick-Finds keeps (text_eq pat (codes "*")) each named (on_tail p) (on_name pat p)
        (each-Finds keeps walk p finds) (name-Finds keeps walk p finds pat))
      n m pre ds v w some_path to kept holds
