-- ===== src/PathTrie/Glob/Answers.antt =====
-- What `glob` and `glob_nodes` answer.
use dekit.Prelude.{
  ℕ, ◌≡◌, ◌≢◌, ◌↔◌, inl, inr, refl, sym, ap, ◌∙◌, subst, Bool, true, false, Option, none, some,
  Option-cases, List, [], ◌∷◌, All, is_some, is_some→some,
}
use dekit.Prelude.Text.{Text}
use dekit.TaskPath.{TaskPath, components, split, filter_nonempty}
use dekit.TaskPath.Render.{IsComponent, render, path_of}
use dekit.TaskPath.Refines.{components-render}
use dekit.PathTrie.{PathTrie, TrieNode, new, walk_from, task_of, bind_option}
use dekit.PathTrie.Entries.{task_in, task_in-walk}
use dekit.PathTrie.Leaves.{Op, run, path_of_op}
use dekit.PathTrie.Above.{IsPath}
use dekit.PathTrie.Names.{IsNamed, run-IsNamed}
use dekit.PathTrie.Glob.{Match, glob_matches, glob_walk, glob, glob_nodes, with_tasks, paths_of}
use dekit.PathTrie.Glob.Ordered.{IsIn, IsIn-dedup-sort}
use dekit.PathTrie.Glob.Matches.{matches, keeps_node, glob_walk-Finds}
use dekit.PathTrie.Glob.Sound.{glob_walk-IsSound}

abbrev or_zero : Option ℕ → ℕ
or_zero none = 0
or_zero (some id) = id

IsIn-with_tasks :
    (p : TaskPath) (id : ℕ) (l : List Match) → IsIn (p, some id) l → IsIn (p, id) (with_tasks l)
IsIn-with_tasks p id [] i = i
IsIn-with_tasks p id ((q, none) ∷ l) (inl e) = absurd (cc (ap (λ (m : Match). m.1) e))
IsIn-with_tasks p id ((q, none) ∷ l) (inr i) = IsIn-with_tasks p id l i
IsIn-with_tasks p id ((q, some j) ∷ l) (inl e) = inl (ap (λ (m : Match). (m.0, or_zero m.1)) e)
IsIn-with_tasks p id ((q, some j) ∷ l) (inr i) = inr (IsIn-with_tasks p id l i)

with_tasks-IsIn :
    (p : TaskPath) (id : ℕ) (l : List Match) → IsIn (p, id) (with_tasks l) → IsIn (p, some id) l
with_tasks-IsIn p id [] i = i
with_tasks-IsIn p id ((q, none) ∷ l) i = inr (with_tasks-IsIn p id l i)
with_tasks-IsIn p id ((q, some j) ∷ l) (inl e) = inl (ap (λ (m : TaskPath × ℕ). (m.0, some m.1)) e)
with_tasks-IsIn p id ((q, some j) ∷ l) (inr i) = inr (with_tasks-IsIn p id l i)

IsIn-paths_of :
    (p : TaskPath) (id : Option ℕ) (l : List Match) → IsIn (p, id) l → IsIn p (paths_of l)
IsIn-paths_of p id [] i = i
IsIn-paths_of p id ((q, j) ∷ l) (inl e) = inl (ap (λ (m : Match). m.0) e)
IsIn-paths_of p id ((q, j) ∷ l) (inr i) = inr (IsIn-paths_of p id l i)

paths_of-IsIn :
    (p : TaskPath) (l : List Match) → IsIn p (paths_of l) → (id : Option ℕ) × IsIn (p, id) l
paths_of-IsIn p [] i = absurd i
paths_of-IsIn p ((q, j) ∷ l) (inl e) = (j, inl (ap (λ r. (r, j)) e))
paths_of-IsIn p ((q, j) ∷ l) (inr i) = let (id, k) = paths_of-IsIn p l i in (id, inr k)

-- The components of a pattern.
abbrev pub parts : Text → List Text
parts pattern = filter_nonempty (split pattern)

module _ (groups : Bool) (t : PathTrie) (pattern : Text) (cs : List Text)
    (v : All IsComponent cs) where
  IsIn-matches :
      (m : TrieNode)
      → cs ≢ []
      → walk_from cs t.root ≡ some m
      → keeps_node groups m ≡ true
      → matches (parts pattern) cs ≡ true
      → IsIn (path_of cs, task_of m) (glob_matches groups t pattern)
  unfolding glob_matches render
  IsIn-matches m some_path to kept holds =
      (IsIn-dedup-sort (path_of cs, task_of m) (glob_walk groups (parts pattern) t.root [])).0
        (glob_walk-Finds groups (parts pattern) t.root m [] cs tt v some_path to kept holds)

  same_path : (ds : List Text) → All IsComponent ds → path_of cs ≡ path_of ds → cs ≡ ds
  same_path ds w e = sym (components-render cs v) ∙ ap components e ∙ components-render ds w

  matches-IsIn :
      (id : Option ℕ)
      → IsNamed t.root
      → IsIn (path_of cs, id) (glob_matches groups t pattern)
      → (m : TrieNode) × (walk_from cs t.root ≡ some m)
        × (task_of m ≡ id)
        × (keeps_node groups m ≡ true)
        × (matches (parts pattern) cs ≡ true)
  unfolding glob_matches render
  matches-IsIn id a i =
      let (ds, m, w, to, kept, holds, is) =
        glob_walk-IsSound groups (parts pattern) t.root [] (path_of cs, id) a tt
          ((IsIn-dedup-sort (path_of cs, id) (glob_walk groups (parts pattern) t.root [])).1 i) in
      let same = same_path ds w (ap (λ (x : Match). x.0) is) in
      (
        m,
        ap (λ l. walk_from l t.root) same ∙ to,
        sym (ap (λ (x : Match). x.1) is),
        kept,
        ap (matches (parts pattern)) same ∙ holds,
      )

task_at : (cs : List Text) (n m : TrieNode) → walk_from cs n ≡ some m → task_of m ≡ task_in cs n
task_at cs n m to = sym (ap (λ o. bind_option o task_of) to) ∙ task_in-walk cs n

walk_to_task :
    (cs : List Text) (n : TrieNode) (id : ℕ)
    → task_in cs n ≡ some id
    → (m : TrieNode) × (walk_from cs n ≡ some m)
walk_to_task cs n id e = elim (Option-cases (walk_from cs n)) [
  | inl gone ↦ absurd (cc (ap (λ o. bind_option o task_of) gone, task_in-walk cs n, e))
  | inr found ↦ found
]

module _ (ops : List Op) (v : All (λ op. IsPath (path_of_op op)) ops) (pattern : Text)
    (cs : List Text) (w : All IsComponent cs) (some_path : cs ≢ []) where
  -- Whatever operations made the trie, `glob` answers with exactly the tasks at the paths whose
  -- components match the components of the pattern, and `glob_nodes` with exactly the paths that
  -- match and have a node, a path being one of at least one component.
  pub glob_iff :
      (id : ℕ)
      → (IsIn (path_of cs, id) (glob (run ops new) pattern)
          ↔ ((task_in cs (run ops new).root ≡ some id) × (matches (parts pattern) cs ≡ true)))
        × (IsIn (path_of cs) (glob_nodes (run ops new) pattern) ↔ (
            (is_some (walk_from cs (run ops new).root) ≡ true)
            × (matches (parts pattern) cs ≡ true)))
  unfolding glob glob_nodes
  glob_iff id =
      let t = run ops new in
      let named = run-IsNamed ops v in
      (
        (
          (λ i.
              let (m, to, is, kept, holds) =
                matches-IsIn false t pattern cs w (some id) named
                  (with_tasks-IsIn (path_of cs) id (glob_matches false t pattern) i) in
              (sym (task_at cs t.root m to) ∙ is, holds)),
          (λ (e, holds).
              let (m, to) = walk_to_task cs t.root id e in
              let is = task_at cs t.root m to ∙ e in
              IsIn-with_tasks (path_of cs) id (glob_matches false t pattern) (
                subst (λ o. IsIn (path_of cs, o) (glob_matches false t pattern)) is
                  (IsIn-matches false t pattern cs w m some_path to (ap is_some is) holds))),
        ),
        (
          (λ i.
              let (id', j) = paths_of-IsIn (path_of cs) (glob_matches true t pattern) i in
              let (m, to, is, kept, holds) = matches-IsIn true t pattern cs w id' named j in
              (ap is_some to, holds)),
          (λ (there, holds).
              let (m, to) = is_some→some (walk_from cs t.root) there in
              IsIn-paths_of (path_of cs) (task_of m) (glob_matches true t pattern)
                (IsIn-matches true t pattern cs w m some_path to refl holds)),
        ),
      )
