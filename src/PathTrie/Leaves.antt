-- ===== src/PathTrie/Leaves.antt =====
-- Tasks are the leaves of the trie, whatever the operations were.
use mathlib.Core.List.{append-nil}
use dekit.Prelude.{
  ℕ, ◌≡◌, ◌≢◌, refl, sym, ap, ◌∙◌, Bool, true, false, not, ◌&&◌, Option, none, some, inl, inr, List,
  [], ◌∷◌, ◌++◌, All, length, length-append, take, arith, is_some, Bool-cases, if◌then◌else◌, subst,
  option_elim_eq, if_elim,
}
use dekit.Prelude.Text.{Text, text_eq_iff}
use dekit.Prelude.Result.{Result, ok, err}
use dekit.TaskPath.{TaskPath, components}
use dekit.TaskPath.Render.{IsComponent}
use dekit.SubTrie.Registry.{path_eq}
use dekit.PathTrie.{
  PathTrie, Place, PathConflict, new, put_id, same_id, prune, insert, insert_folder, remove,
  remove_folder, place, task_above, spot_of, walk_to, after_itself, make, edit,
}
use dekit.PathTrie.Entries.{task_in, folder_in, task_in-prune, task_in-empty, folder_in-prune}
use dekit.PathTrie.Above.{IsPath, All-prefix}
use dekit.PathTrie.Under.{id_in, or_option-none}
use dekit.PathTrie.Updates.{
  Updates, NoneAbove, id_in-entries, path_eq→≡, make-Updates, insert-Updates, insert_folder-Updates,
  remove-Updates,
}

-- No folder is at a path with a task, and nothing is under one.
abbrev pub IsLeafy : PathTrie → Type 0
IsLeafy t =
    (cs ds : List Text)
    → All IsComponent (cs ++ ds)
    → is_some (task_in cs t.root) ≡ true
    → (folder_in (cs ++ ds) t.root ≡ none) × (ds ≢ [] → task_in (cs ++ ds) t.root ≡ none)

-- What changes, and in what operation.
pub data Op : Type 0 where
  inserts inserts_folder : TaskPath → ℕ → Place → Op
  places : TaskPath → Place → Op
  removes removes_folder prunes : TaskPath → Op

abbrev pub or_same : PathTrie → Result PathConflict PathTrie → PathTrie
or_same t (ok t') = t'
or_same t (err e) = t

abbrev pub or_unplaced : PathTrie → Option PathTrie → PathTrie
or_unplaced t none = t
or_unplaced t (some t') = t'

abbrev pub step : PathTrie → Op → PathTrie
step t (inserts p id at) = or_same t (insert t p id at)
step t (inserts_folder p id at) = or_same t (insert_folder t p id at)
step t (places p at) = or_unplaced t (place t p at)
step t (removes p) = (remove t p).1
step t (removes_folder p) = (remove_folder t p).1
step t (prunes p) = prune t p

unfoldable pub run : List Op → PathTrie → PathTrie
run [] t = t
run (op ∷ ops) t = run ops (step t op)

abbrev pub path_of_op : Op → TaskPath
path_of_op (inserts p id at) = p
path_of_op (inserts_folder p id at) = p
path_of_op (places p at) = p
path_of_op (removes p) = p
path_of_op (removes_folder p) = p
path_of_op (prunes p) = p

path_eq_refl : (cs : List Text) → path_eq cs cs ≡ true
unfolding path_eq
path_eq_refl [] = refl
path_eq_refl (c ∷ cs) = ground (arith, text_eq_iff c c, path_eq_refl cs)

take-append : (cs ds : List Text) → take (length cs) (cs ++ ds) ≡ cs
take-append [] ds = refl
take-append (c ∷ cs) ds = ap (λ l. c ∷ l) (take-append cs ds)

-- A path above one with no task above it has no task.
NoneAbove-append :
    (t : PathTrie) (cs ds : List Text) → ds ≢ [] → NoneAbove t (cs ++ ds) → task_in cs t.root ≡ none
NoneAbove-append t cs [] n h = absurd (n refl)
NoneAbove-append t cs (d ∷ ds) n h =
    sym (ap (λ l. task_in l t.root) (take-append cs (d ∷ ds)))
    ∙ h (length cs) (omega (arith, length-append cs (d ∷ ds)))

append-ne : (cs ds : List Text) → path_eq cs (cs ++ ds) ≡ true → ds ≡ []
unfolding path_eq
append-ne [] [] e = refl
append-ne [] (d ∷ ds) e = absurd (cc)
append-ne (c ∷ cs) ds e = append-ne cs ds (ground (arith, text_eq_iff c c))

-- An entry that an update keeps.
keep :
    (f : List Text → Option ℕ) (cs ds : List Text) → (if path_eq cs ds then f cs else f ds) ≡ f ds
keep f cs ds = elim (Bool-cases (path_eq cs ds)) [
  | inl is ↦ rw is (ap f (path_eq→≡ cs ds is))
  | inr other ↦ rw other refl
]

some-none : (o : Option ℕ) → is_some o ≡ true → o ≢ none
some-none none h e = cc
some-none (some x) h e = cc

clear_entries :
    (cs : List Text) (t : PathTrie)
    → id_in cs t.root ≡ none
    → (task_in cs t.root ≡ none) × (folder_in cs t.root ≡ none)
clear_entries cs t e = or_option-none _ _ (sym (id_in-entries cs t.root) ∙ e)

module _ (t t' : PathTrie) (c0 : List Text) (id : ℕ) (l : IsLeafy t) (above : NoneAbove t c0) where
  put_task-IsLeafy :
      ((ds : List Text) → All IsComponent ds → id_in (c0 ++ ds) t.root ≡ none)
      → Updates t.root c0 (put_id id) same_id t'.root
      → IsLeafy t'
  put_task-IsLeafy clear entries cs ds w has =
      let folder = (entries (cs ++ ds)).1 ∙ keep (λ ds. folder_in ds t.root) c0 (cs ++ ds) in
      let task = (entries (cs ++ ds)).0 in
      elim (Bool-cases (path_eq c0 cs)) [
        | inl is ↦
            let same = path_eq→≡ c0 cs is in
            let none_here =
              clear_entries (cs ++ ds) t
                (ap (λ l. id_in (l ++ ds) t.root) (sym same) ∙ clear ds (All-prefix cs ds w).1) in
            (
              folder ∙ none_here.1,
              λ n. task ∙ elim (Bool-cases (path_eq c0 (cs ++ ds))) [
                | inl at ↦
                    absurd (n (append-ne cs ds (subst (λ l. path_eq l (cs ++ ds) ≡ true) same at)))
                | inr other ↦ rw other none_here.0
              ],
            )
        | inr other ↦
            let has' =
              sym (
                ap is_some
                  ((entries cs).0 ∙ ap (λ b. if b then some id else task_in cs t.root) other))
              ∙ has in
            let none_here = l cs ds w has' in
            (
              folder ∙ none_here.0,
              λ n. task ∙ elim (Bool-cases (path_eq c0 (cs ++ ds))) [
                | inl at ↦ absurd (
                    some-none (task_in cs t.root) has' (
                      NoneAbove-append t cs ds n
                        (subst (NoneAbove t) (path_eq→≡ c0 (cs ++ ds) at) above)))
                | inr past ↦ rw past (none_here.1 n)
              ],
            )
      ]

  none_to : id_in c0 t.root ≡ none → (cs ds : List Text) → c0 ≡ cs ++ ds → task_in cs t.root ≡ none
  none_to clear cs [] e =
      ap (λ l. task_in l t.root) (sym (e ∙ append-nil cs)) ∙ (clear_entries c0 t clear).0
  none_to clear cs (d ∷ ds) e =
      NoneAbove-append t cs (d ∷ ds) (λ n. cc) (subst (NoneAbove t) e above)

  put_folder-IsLeafy :
      id_in c0 t.root ≡ none → Updates t.root c0 same_id (put_id id) t'.root → IsLeafy t'
  put_folder-IsLeafy clear entries cs ds w has =
      let task = λ (es : List Text). (entries es).0 ∙ keep (λ ds. task_in ds t.root) c0 es in
      let has' = sym (ap is_some (task cs)) ∙ has in
      let none_here = l cs ds w has' in
      let not_at = some-none (task_in cs t.root) has' in
      (
        (entries (cs ++ ds)).1 ∙ elim (Bool-cases (path_eq c0 (cs ++ ds))) [
          | inl at ↦ absurd (not_at (none_to clear cs ds (path_eq→≡ c0 (cs ++ ds) at)))
          | inr other ↦ rw other none_here.0
        ],
        λ n. task (cs ++ ds) ∙ none_here.1 n,
      )

-- Entries that are all kept or taken away.
fewer-IsLeafy :
    (t t' : PathTrie)
    → IsLeafy t
    → ((cs : List Text) → is_some (task_in cs t'.root) ≡ true → is_some (task_in cs t.root) ≡ true)
    → ((cs : List Text) → task_in cs t.root ≡ none → task_in cs t'.root ≡ none)
    → ((cs : List Text) → folder_in cs t.root ≡ none → folder_in cs t'.root ≡ none)
    → IsLeafy t'
fewer-IsLeafy t t' l tasks no_task no_folder cs ds w has =
    let none_here = l cs ds w (tasks cs has) in
    (no_folder (cs ++ ds) none_here.0, λ n. no_task (cs ++ ds) (none_here.1 n))

if_none-none : (b : Bool) (o : Option ℕ) → o ≡ none → (if b then none else o) ≡ none
if_none-none true o e = refl
if_none-none false o e = e

if_none-some : (b : Bool) (o : Option ℕ) → is_some (if b then none else o) ≡ true → is_some o ≡ true
if_none-some true o e = absurd (cc)
if_none-some false o e = e

same-IsLeafy :
    (t t' : PathTrie)
    → IsLeafy t
    → ((cs : List Text) → task_in cs t'.root ≡ task_in cs t.root)
    → ((cs : List Text) → folder_in cs t'.root ≡ folder_in cs t.root)
    → IsLeafy t'
same-IsLeafy t t' l tasks folders =
    fewer-IsLeafy t t' l (λ cs has. sym (ap is_some (tasks cs)) ∙ has) (λ cs e. tasks cs ∙ e)
      (λ cs e. folders cs ∙ e)

remove-IsLeafy : (t : PathTrie) (p : TaskPath) → IsLeafy t → IsLeafy (remove t p).1
remove-IsLeafy t p l =
    let (gone, entries, gone', entries') = remove-Updates t p in
    let c0 = components p in
    fewer-IsLeafy t (remove t p).1 l
      (λ cs has. if_none-some (path_eq c0 cs) _ (sym (ap is_some (entries cs).0) ∙ has))
      (λ cs e. (entries cs).0 ∙ if_none-none (path_eq c0 cs) _ e)
      (λ cs e. (entries cs).1 ∙ keep (λ ds. folder_in ds t.root) c0 cs ∙ e)

remove_folder-IsLeafy : (t : PathTrie) (p : TaskPath) → IsLeafy t → IsLeafy (remove_folder t p).1
remove_folder-IsLeafy t p l =
    let (gone, entries, gone', entries') = remove-Updates t p in
    let c0 = components p in
    fewer-IsLeafy t (remove_folder t p).1 l
      (λ cs has. sym (ap is_some ((entries' cs).0 ∙ keep (λ ds. task_in ds t.root) c0 cs)) ∙ has)
      (λ cs e. (entries' cs).0 ∙ keep (λ ds. task_in ds t.root) c0 cs ∙ e)
      (λ cs e. (entries' cs).1 ∙ if_none-none (path_eq c0 cs) _ e)

prune-IsLeafy : (t : PathTrie) (p : TaskPath) → IsLeafy t → IsLeafy (prune t p)
unfolding prune
prune-IsLeafy t p l =
    same-IsLeafy t (prune t p) l (λ cs. task_in-prune (components p) cs t.root)
      (λ cs. folder_in-prune (components p) cs t.root)

or_same-IsLeafy :
    (t : PathTrie) (r : Result PathConflict PathTrie)
    → IsLeafy t
    → ((t' : PathTrie) → r ≡ ok t' → IsLeafy t')
    → IsLeafy (or_same t r)
or_same-IsLeafy t (ok t') l h = h t' refl
or_same-IsLeafy t (err e) l h = l

place-IsLeafy :
    (t : PathTrie) (p : TaskPath) (at : Place) → IsLeafy t → IsLeafy (or_unplaced t (place t p at))
unfolding place
place-IsLeafy t p at l =
    option_elim_eq (λ o. IsLeafy (or_unplaced t o)) (task_above t p)
      (λ gone.
        let c0 = components p in
        let placed : PathTrie = record {
          root = make c0 (spot_of p at) (edit same_id same_id) t.root;
        } in
        let entries = make-Updates same_id same_id c0 t.root (spot_of p at) in
        if_elim (λ o. IsLeafy (or_unplaced t o)) (not (is_some (walk_to t p)) && after_itself p at)
          {x = none} {y = some placed} (λ h. l)
          (λ h.
            same-IsLeafy t placed l (λ cs. (entries cs).0 ∙ keep (λ ds. task_in ds t.root) c0 cs)
              (λ cs. (entries cs).1 ∙ keep (λ ds. folder_in ds t.root) c0 cs)))
      (λ q found. l)

step-IsLeafy : (t : PathTrie) (op : Op) → IsPath (path_of_op op) → IsLeafy t → IsLeafy (step t op)
step-IsLeafy t (inserts p id at) v l = or_same-IsLeafy t (insert t p id at) l (λ t' e.
    let (above, clear, entries) = insert-Updates t t' p id at v e in
    put_task-IsLeafy t t' (components p) id l above clear entries)
step-IsLeafy t (inserts_folder p id at) v l = or_same-IsLeafy t (insert_folder t p id at) l (λ t' e.
    let (above, clear, entries) = insert_folder-Updates t t' p id at v e in
    put_folder-IsLeafy t t' (components p) id l above clear entries)
step-IsLeafy t (places p at) v l = place-IsLeafy t p at l
step-IsLeafy t (removes p) v l = remove-IsLeafy t p l
step-IsLeafy t (removes_folder p) v l = remove_folder-IsLeafy t p l
step-IsLeafy t (prunes p) v l = prune-IsLeafy t p l

new-IsLeafy : IsLeafy new
new-IsLeafy cs ds w has = absurd (some-none (task_in cs new.root) has (task_in-empty cs))

run-IsLeafy_from :
    (ops : List Op) (t : PathTrie)
    → All (λ op. IsPath (path_of_op op)) ops
    → IsLeafy t
    → IsLeafy (run ops t)
unfolding run
run-IsLeafy_from [] t v l = l
run-IsLeafy_from (op ∷ ops) t v l = run-IsLeafy_from ops (step t op) v.1 (step-IsLeafy t op v.0 l)

-- Whatever inserts, removals, held places and prunes made the trie, there is no folder at a path
-- with a task, and no task or folder is under one: tasks are the leaves.
pub run-IsLeafy : (ops : List Op) → All (λ op. IsPath (path_of_op op)) ops → IsLeafy (run ops new)
run-IsLeafy ops v = run-IsLeafy_from ops new v new-IsLeafy
