-- ===== src/PathTrie/Order.antt =====
-- The order of the list: what `before` answers.
use mathlib.Core.List.{append-nil, append_assoc}
use dekit.Prelude.{
  ℕ, ◌≡◌, ◌≢◌, refl, sym, ap, ◌∙◌, true, Option, none, some, Option-cases, Bool-cases, inl, inr,
  List, [], ◌∷◌, ◌++◌, arith, is_some, if◌then◌else◌, subst,
}
use dekit.Prelude.Text.{Text, text_eq}
use dekit.Prelude.Maps.{some_injective}
use dekit.TaskPath.{TaskPath, components}
use dekit.PathTrie.{
  PathTrie, TrieNode, node, Children, nil, child, or_option, id_of, get_child, walk_from, walk_to,
  last_node, last_child, last_before, before_from, before,
}

abbrev pub one_id : Option ℕ → List ℕ
one_id none = []
one_id (some id) = id ∷ []

unfoldable mutual
  -- The tasks and folders in list order: each node before what is under it.
  pub list_node : TrieNode → List ℕ
  list_node (node t fo ch) = one_id (or_option t fo) ++ list_children ch

  pub list_children : Children → List ℕ
  list_children nil = []
  list_children (child c n ch) = list_node n ++ list_children ch

unfoldable mutual
  -- At a node with a task nothing else is listed.
  pub IsLeafNode : TrieNode → Type 0
  IsLeafNode (node t fo ch) =
      (is_some t ≡ true → (fo ≡ none) × (list_children ch ≡ [])) × AreLeafNodes ch

  pub AreLeafNodes : Children → Type 0
  AreLeafNodes nil = Unit
  AreLeafNodes (child c n ch) = IsLeafNode n × AreLeafNodes ch

-- The last of a list.
unfoldable pub last_or : List ℕ → Option ℕ → Option ℕ
last_or [] d = d
last_or (x ∷ xs) d = last_or xs (some x)

last_or-append : (xs ys : List ℕ) (d : Option ℕ) → last_or (xs ++ ys) d ≡ last_or ys (last_or xs d)
unfolding last_or
last_or-append [] ys d = refl
last_or-append (x ∷ xs) ys d = last_or-append xs ys (some x)

or_option_assoc : (a b c : Option ℕ) → or_option (or_option a b) c ≡ or_option a (or_option b c)
or_option_assoc none b c = refl
or_option_assoc (some x) b c = refl

last_or-one_id : (o d : Option ℕ) → last_or (one_id o) d ≡ or_option o d
unfolding last_or
last_or-one_id none d = refl
last_or-one_id (some x) d = refl

mutual
  unfolding list_node list_children IsLeafNode AreLeafNodes last_node last_child last_or

  last_node_lem :
      (n : TrieNode) (d : Option ℕ)
      → IsLeafNode n
      → or_option (last_node n) d ≡ last_or (list_node n) d
  last_node_lem (node (some t) fo ch) d l = sym (ap (λ ids. last_or (t ∷ ids) d) (l.0 refl).1)
  last_node_lem (node none fo ch) d l =
      or_option_assoc (last_child ch) fo d
      ∙ last_child_lem ch (or_option fo d) l.1
      ∙ ap (last_or (list_children ch)) (sym (last_or-one_id fo d))
      ∙ sym (last_or-append (one_id fo) (list_children ch) d)

  last_child_lem :
      (ch : Children) (d : Option ℕ)
      → AreLeafNodes ch
      → or_option (last_child ch) d ≡ last_or (list_children ch) d
  last_child_lem nil d l = refl
  last_child_lem (child c n ch) d l =
      or_option_assoc (last_child ch) (last_node n) d
      ∙ last_child_lem ch (or_option (last_node n) d) l.1
      ∙ ap (last_or (list_children ch)) (last_node_lem n d l.0)
      ∙ sym (last_or-append (list_node n) (list_children ch) d)

-- Where a node is in the list that another is of, and what was last before it.
abbrev pub ListedAfter : List ℕ → List ℕ → (Option ℕ → Option ℕ) → Type 0
ListedAfter ids all last =
    (earlier : List ℕ) × (later : List ℕ) × (all ≡ (earlier ++ ids) ++ later)
    × ((d : Option ℕ) → last d ≡ last_or earlier d)

child-ListedAfter :
    (c : Text) (ch : Children) (n : TrieNode)
    → AreLeafNodes ch
    → get_child c ch ≡ some n
    → ListedAfter (list_node n) (list_children ch) (or_option (last_before c ch)) × IsLeafNode n
unfolding get_child last_before list_children AreLeafNodes last_or
child-ListedAfter c nil n l e = absurd (cc)
child-ListedAfter c (child d m ch) n l e = elim (Bool-cases (text_eq d c)) [
  | inl is ↦
      let same : m ≡ n = some_injective (rw is at e) in
      (
        (
          [],
          list_children ch,
          ap (λ k. list_node k ++ list_children ch) same,
          λ o.
              ap (λ b. or_option (if b then none else or_option (last_before c ch) (last_node m)) o)
                is,
        ),
        subst IsLeafNode same l.0,
      )
  | inr other ↦
      let ((earlier, later, all, last), leaf) = child-ListedAfter c ch n l.1 (rw other at e) in
      (
        (
          list_node m ++ earlier,
          later,
          ap (λ ids. list_node m ++ ids) all
              ∙ sym (append_assoc (list_node m) (earlier ++ list_node n) later)
              ∙ ap (λ ids. ids ++ later) (sym (append_assoc (list_node m) earlier (list_node n))),
          λ o.
              ap (λ b. or_option (if b then none else or_option (last_before c ch) (last_node m)) o)
                other
              ∙ or_option_assoc (last_before c ch) (last_node m) o
              ∙ last (or_option (last_node m) o)
              ∙ ap (last_or earlier) (last_node_lem m o l.0)
              ∙ sym (last_or-append (list_node m) earlier o),
        ),
        leaf,
      )
]

nested_lists :
    (h e e' i l' l : List ℕ)
    → h ++ ((e ++ ((e' ++ i) ++ l')) ++ l) ≡ (((h ++ e) ++ e') ++ i) ++ (l' ++ l)
nested_lists [] [] [] i l' l = append_assoc i l' l
nested_lists [] [] (x ∷ e') i l' l = ap (λ r. x ∷ r) (nested_lists [] [] e' i l' l)
nested_lists [] (x ∷ e) e' i l' l = ap (λ r. x ∷ r) (nested_lists [] e e' i l' l)
nested_lists (x ∷ h) e e' i l' l = ap (λ r. x ∷ r) (nested_lists h e e' i l' l)

middle-ne-nil : (e i l : List ℕ) → i ≢ [] → (e ++ i) ++ l ≢ []
middle-ne-nil [] [] l n = λ h. absurd (n refl)
middle-ne-nil [] (x ∷ i) l n = λ h. cc
middle-ne-nil (x ∷ e) i l n = λ h. cc

list_node-ne-nil : (n : TrieNode) → is_some (id_of n) ≡ true → list_node n ≢ []
unfolding list_node
list_node-ne-nil (node none none ch) has = λ h. cc
list_node-ne-nil (node none (some f) ch) has = λ h. cc
list_node-ne-nil (node (some t) fo ch) has = λ h. cc

before_from-child :
    (c : Text) (cs : List Text) (t fo : Option ℕ) (ch : Children) (k : TrieNode) (o : Option ℕ)
    → get_child c ch ≡ some k
    → before_from (c ∷ cs) (node t fo ch) o
      ≡ before_from cs k (or_option (last_before c ch) (or_option fo o))
unfolding before_from
before_from-child c cs t fo ch k o at = ground arith

walk_from-nil : (n m : TrieNode) → walk_from [] n ≡ some m → n ≡ m
unfolding walk_from
walk_from-nil n m e = some_injective e

before_from-nil : (n : TrieNode) (o : Option ℕ) → before_from [] n o ≡ last_or [] o
unfolding before_from last_or
before_from-nil n o = refl

walk_from-child :
    (c : Text) (cs : List Text) (t fo : Option ℕ) (ch : Children) (m : TrieNode)
    → walk_from (c ∷ cs) (node t fo ch) ≡ some m
    → (k : TrieNode) × (get_child c ch ≡ some k) × (walk_from cs k ≡ some m)
unfolding walk_from
walk_from-child c cs t fo ch m e = elim (Option-cases (get_child c ch)) [
  | inl gone ↦ absurd (ground arith)
  | inr (k, at) ↦ (k, at, ground arith)
]

-- Where a node with a task or a folder is listed, and that `before` is what is listed just before.
before_from-ListedAfter :
    (cs : List Text) (n m : TrieNode)
    → IsLeafNode n
    → is_some (id_of m) ≡ true
    → walk_from cs n ≡ some m
    → ListedAfter (list_node m) (list_node n) (before_from cs n)
unfolding list_node IsLeafNode
before_from-ListedAfter [] n m l has e =
    ([], [], ap list_node (walk_from-nil n m e) ∙ sym (append-nil (list_node m)), before_from-nil n)
before_from-ListedAfter (c ∷ cs) (node t fo ch) m l has e =
    let (k, at, to) = walk_from-child c cs t fo ch m e in
    let ((earlier, later, all, last), leaf) = child-ListedAfter c ch k l.1 at in
    let (earlier', later', all', last') = before_from-ListedAfter cs k m leaf has to in
    let here = one_id (or_option t fo) in
    let under = all ∙ ap (λ ids. (earlier ++ ids) ++ later) all' in
    let no_task : t ≡ none = elim (Option-cases t) [
      | inl gone ↦ gone
      | inr (id, is) ↦ absurd (
          middle-ne-nil earlier (list_node k) later
            (λ empty.
              middle-ne-nil earlier' (list_node m) later' (list_node-ne-nil m has)
                (sym all' ∙ empty))
            (sym all ∙ (l.0 (ap is_some is)).1))
    ] in
    (
      (here ++ earlier) ++ earlier',
      later' ++ later,
      ap (λ ids. here ++ ids) under ∙ nested_lists here earlier earlier' (list_node m) later' later,
      λ o.
          before_from-child c cs t fo ch k o at
          ∙ last' (or_option (last_before c ch) (or_option fo o))
          ∙ ap (last_or earlier') (
              last (or_option fo o)
              ∙ ap (last_or earlier) (
                  sym (last_or-one_id fo o)
                  ∙ ap (λ u. last_or (one_id (or_option u fo)) o) (sym no_task))
              ∙ sym (last_or-append here earlier o))
          ∙ sym (last_or-append (here ++ earlier) earlier' o),
    )

-- Where tasks are the leaves, `before` answers for the path of a task or folder with the one that is
-- listed just before it, and with none for the first.
pub before-last_or :
    (t : PathTrie) (p : TaskPath) (m : TrieNode)
    → IsLeafNode t.root
    → walk_to t p ≡ some m
    → is_some (id_of m) ≡ true
    → (earlier : List ℕ) × (later : List ℕ) × (list_node t.root ≡ (earlier ++ list_node m) ++ later)
      × (before t p ≡ last_or earlier none)
unfolding before walk_to
before-last_or t p m l e has =
    let (earlier, later, all, last) = before_from-ListedAfter (components p) t.root m l has e in
    (earlier, later, all, last none)
