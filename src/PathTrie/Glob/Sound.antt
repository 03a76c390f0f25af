-- ===== src/PathTrie/Glob/Sound.antt =====
-- What the walk of a pattern finds is matched by it.
use mathlib.Core.List.{append-nil, append_assoc}
use dekit.Prelude.{
  ℕ, ◌≡◌, inl, inr, refl, sym, ap, ◌∙◌, subst, Bool, true, false, ◌&&◌, ◌||◌, Option, none, some,
  Bool-cases, List, [], ◌∷◌, ◌++◌, All, All-append, arith, if◌then◌else◌, if_elim, is_some,
  option_elim_eq,
}
use dekit.Prelude.Text.{text_eq, text_eq_iff, text_eq_refl, Text, codes}
use dekit.TaskPath
use dekit.TaskPath.{TaskPath, join}
use dekit.TaskPath.Render.{IsComponent, render, path_of}
use dekit.PathTrie.{TrieNode, node, Children, nil, child, get_child, walk_from, task_of, path_at}
use dekit.PathTrie.Under.{path_at-render, join-render_snoc}
use dekit.PathTrie.Names.{IsNamed, AreNamed, child-IsNamed, child-IsComponent}
use dekit.PathTrie.Glob.{
  Match, Walk, children_of, star_node, star_children, each_child, match_at, glob_walk,
}
use dekit.PathTrie.Glob.Ordered.{IsIn, append-IsIn}
use dekit.PathTrie.Glob.Matches.{some_suffix, on_tail, on_name, matches, keeps_node}

-- Where under a node a match is.
abbrev pub FoundAt : (TrieNode → Bool) → (List Text → Bool) → TrieNode → List Text → Match → Type 0
FoundAt keeps p n pre x =
    (ds : List Text) × (m : TrieNode) × All IsComponent ds
    × (walk_from ds n ≡ some m)
    × (keeps m ≡ true)
    × (p ds ≡ true)
    × (x ≡ (path_of (pre ++ ds), task_of m))

-- Where under its children.
abbrev FoundUnder : (TrieNode → Bool) → (List Text → Bool) → Children → List Text → Match → Type 0
FoundUnder keeps p ch pre x =
    (c : Text) × (k : TrieNode) × (get_child c ch ≡ some k)
    × IsComponent c
    × FoundAt keeps p k (pre ++ c ∷ []) x

abbrev pub IsSound : (TrieNode → Bool) → Walk → (List Text → Bool) → Type 0
IsSound keeps walk p =
    (n : TrieNode) (pre : List Text) (x : Match)
    → IsNamed n
    → All IsComponent pre
    → IsIn x (walk n (render pre))
    → FoundAt keeps p n pre x

-- A child found among the later ones is the node's child of its name.
later_child :
    (c d : Text) (k n : TrieNode) (ch : Children)
    → get_child d ch ≡ none
    → get_child c ch ≡ some k
    → get_child c (child d n ch) ≡ some k
unfolding get_child
later_child c d k n ch gone at = elim (Bool-cases (text_eq d c)) [
  | inl is ↦ absurd (cc (gone, at, (text_eq_iff d c).0 is))
  | inr other ↦ rw other at
]

first_child : (c : Text) (n : TrieNode) (ch : Children) → get_child c (child c n ch) ≡ some n
unfolding get_child
first_child c n ch = rw (text_eq_refl c) refl

walk_child :
    (c : Text) (ds : List Text) (t fo : Option ℕ) (ch : Children) (k m : TrieNode)
    → get_child c ch ≡ some k
    → walk_from ds k ≡ some m
    → walk_from (c ∷ ds) (node t fo ch) ≡ some m
unfolding walk_from
walk_child c ds t fo ch k m at to = ground arith

module _ (keeps : TrieNode → Bool) (walk : Walk) (p : List Text → Bool)
    (sound : IsSound keeps walk p) where
  -- From a child to its node, for any meaning of the pattern that holds there.
  above_child :
      (q q' : List Text → Bool) (t fo : Option ℕ) (ch : Children) (pre : List Text) (x : Match)
      → ((c : Text) (ds : List Text) → q ds ≡ true → q' (c ∷ ds) ≡ true)
      → FoundUnder keeps q ch pre x
      → FoundAt keeps q' (node t fo ch) pre x
  above_child q q' t fo ch pre x lift (c, k, at, vc, (ds, m, v, to, kept, holds, is)) = (
    c ∷ ds,
    m,
    (vc, v),
    walk_child c ds t fo ch k m at to,
    kept,
    lift c ds holds,
    is ∙ ap (λ l. (path_of l, task_of m)) (append_assoc pre (c ∷ []) ds),
  )

  each_child_sound :
      (ch : Children) (pre : List Text) (x : Match)
      → AreNamed ch
      → All IsComponent pre
      → IsIn x (each_child walk ch (render pre))
      → FoundUnder keeps p ch pre x
  unfolding each_child AreNamed IsNamed
  each_child_sound nil pre x a v i = absurd i
  each_child_sound (child c n ch) pre x a v i =
      elim (append-IsIn x (walk n (join (render pre) c)) (each_child walk ch (render pre)) i) [
        | inl here ↦ (
          c,
          n,
          first_child c n ch,
          a.0,
          sound n (pre ++ c ∷ []) x a.2 (All-append IsComponent pre (c ∷ []) v (a.0, tt))
              (subst (λ s. IsIn x (walk n s)) (join-render_snoc pre c v a.0) here),
        )
        | inr later ↦
            let (d, k, at, vd, found) = each_child_sound ch pre x a.3 v later in
            (d, k, later_child d c k n ch a.1 at, vd, found)
      ]

  some_suffix_here : (ds : List Text) → p ds ≡ true → some_suffix p ds ≡ true
  unfolding some_suffix
  some_suffix_here [] h = h
  some_suffix_here (d ∷ ds) h = ground arith

  some_suffix_later :
      (c : Text) (ds : List Text) → some_suffix p ds ≡ true → some_suffix p (c ∷ ds) ≡ true
  unfolding some_suffix
  some_suffix_later c ds h = ground arith

  mutual
    unfolding star_node star_children AreNamed IsNamed some_suffix

    star_node-IsSound : IsSound keeps (star_node walk) (some_suffix p)
    star_node-IsSound (node t fo ch) pre x a v i =
        elim (append-IsIn x (walk (node t fo ch) (render pre)) (star_children walk ch (render pre))
          i) [
            | inl here ↦
                let (ds, m, w, to, kept, holds, is) = sound (node t fo ch) pre x a v here in
                (ds, m, w, to, kept, some_suffix_here ds holds, is)
            | inr under ↦
                above_child (some_suffix p) (some_suffix p) t fo ch pre x some_suffix_later
                  (star_children_sound ch pre x a v under)
          ]

    star_children_sound :
        (ch : Children) (pre : List Text) (x : Match)
        → AreNamed ch
        → All IsComponent pre
        → IsIn x (star_children walk ch (render pre))
        → FoundUnder keeps (some_suffix p) ch pre x
    star_children_sound nil pre x a v i = absurd i
    star_children_sound (child c n ch) pre x a v i =
        elim (append-IsIn x (star_node walk n (join (render pre) c))
          (star_children walk ch (render pre)) i) [
            | inl here ↦ (
              c,
              n,
              first_child c n ch,
              a.0,
              star_node-IsSound n (pre ++ c ∷ []) x a.2
                  (All-append IsComponent pre (c ∷ []) v (a.0, tt))
                  (subst (λ s. IsIn x (star_node walk n s)) (join-render_snoc pre c v a.0) here),
            )
            | inr later ↦
                let (d, k, at, vd, found) = star_children_sound ch pre x a.3 v later in
                (d, k, later_child d c k n ch a.1 at, vd, found)
          ]

  lift_tail : (c : Text) (ds : List Text) → p ds ≡ true → on_tail p (c ∷ ds) ≡ true
  lift_tail c ds h = h

  each-IsSound : IsSound keeps (λ n prefix. each_child walk (children_of n) prefix) (on_tail p)
  unfolding IsNamed
  each-IsSound (node t fo ch) pre x a v i =
      above_child p (on_tail p) t fo ch pre x lift_tail (each_child_sound ch pre x a v i)

  name-IsSound :
      (pat : Text)
      → IsSound keeps
          (λ n prefix. elim (get_child pat (children_of n)) [
            | none ↦ []
            | some m ↦ walk m (join prefix pat)
          ])
          (on_name pat p)
  unfolding IsNamed
  name-IsSound pat (node t fo ch) pre x a v =
      option_elim_eq (λ l. IsIn x l → FoundAt keeps (on_name pat p) (node t fo ch) pre x)
        (get_child pat ch) (λ gone i. absurd i)
        (λ k at i.
          let vc = child-IsComponent pat ch k a at in
          let (ds, m, w, to, kept, holds, is) =
            sound k (pre ++ pat ∷ []) x (child-IsNamed pat ch k a at)
              (All-append IsComponent pre (pat ∷ []) v (vc, tt))
              (subst (λ s. IsIn x (walk k s)) (join-render_snoc pre pat v vc) i) in
          (
            pat ∷ ds,
            m,
            (vc, w),
            walk_child pat ds t fo ch k m at to,
            kept,
            ap (λ b. b && p ds) (text_eq_refl pat) ∙ holds,
            is ∙ ap (λ l. (path_of l, task_of m)) (append_assoc pre (pat ∷ []) ds),
          ))

pick-IsSound :
    (keeps : TrieNode → Bool) (b : Bool) (walk walk' : Walk) (p p' : List Text → Bool)
    → IsSound keeps walk p
    → IsSound keeps walk' p'
    → IsSound keeps
        (λ n prefix. if b then walk n prefix else walk' n prefix)
        (λ ds. if b then p ds else p' ds)
pick-IsSound keeps true walk walk' p p' s s' = s
pick-IsSound keeps false walk walk' p p' s s' = s'

path_at-root : path_at (render []) ≡ none
unfolding render TaskPath.new
path_at-root = refl

found_here :
    (groups : Bool) (n : TrieNode) (pre : List Text) (x : Match)
    → All IsComponent pre
    → keeps_node groups n ≡ true
    → IsIn x (match_at (path_at (render pre)) (task_of n))
    → x ≡ (path_of (pre ++ []), task_of n)
found_here groups n [] x v kept i =
    absurd (subst (λ o. IsIn x (match_at o (task_of n))) path_at-root i)
found_here groups n (c ∷ pre) x v kept i =
    elim (subst (λ o. IsIn x (match_at o (task_of n))) (path_at-render (c ∷ pre) v (λ e. cc)) i) [
      | inl is ↦ sym is ∙ ap (λ l. (path_of l, task_of n)) (sym (append-nil (c ∷ pre)))
      | inr never ↦ absurd never
    ]

-- What the walk finds is a node that the pattern matches.
pub glob_walk-IsSound :
    (groups : Bool) (pats : List Text)
    → IsSound (keeps_node groups) (glob_walk groups pats) (matches pats)
unfolding matches glob_walk walk_from
glob_walk-IsSound groups [] n pre x a v i =
    (if_elim (λ l. IsIn x l → FoundAt (keeps_node groups) (matches []) n pre x)
        (groups || is_some (task_of n)) {x = match_at (path_at (render pre)) (task_of n)} {y = []}
        (λ kept i. ([], n, tt, refl, kept, refl, found_here groups n pre x v kept i))
        (λ dropped i. absurd i))
      i
glob_walk-IsSound groups (pat ∷ rest) n pre x a v i =
    let keeps = keeps_node groups in
    let walk = glob_walk groups rest in
    let p = matches rest in
    let sound = glob_walk-IsSound groups rest in
    let named : Walk = λ n prefix. elim (get_child pat (children_of n)) [
      | none ↦ []
      | some k ↦ walk k (join prefix pat)
    ] in
    let each : Walk = λ n prefix. each_child walk (children_of n) prefix in
    let one : Walk =
      λ n prefix. if text_eq pat (codes "*") then each n prefix else named n prefix in
    let of_one =
      λ (ds : List Text). if text_eq pat (codes "*") then on_tail p ds else on_name pat p ds in
    pick-IsSound keeps (text_eq pat (codes "**")) (star_node walk) one (some_suffix p) of_one
      (star_node-IsSound keeps walk p sound)
      (pick-IsSound keeps (text_eq pat (codes "*")) each named (on_tail p) (on_name pat p)
        (each-IsSound keeps walk p sound) (name-IsSound keeps walk p sound pat))
      n pre x a v i
