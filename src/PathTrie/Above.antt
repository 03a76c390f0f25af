-- ===== src/PathTrie/Above.antt =====
-- `PathTrie::task_above`: the walk up from a path meets every path above it.
use dekit.Prelude.{
  ℕ, zero, suc, ◌<◌, ◌≤◌, ◌≡◌, refl, sym, ap, ◌∙◌, subst, true, Option, none, some, Option-cases,
  inl, inr, ◌⊎◌, List, [], ◌∷◌, ◌++◌, All, length, length-append, take, arith, is_some, Bool-cases,
  ◌==◌, ==_iff,
}
use dekit.Prelude.Text.{Text}
use dekit.TaskPath.{TaskPath, components, parent, slash}
use dekit.TaskPath.Render.{IsComponent, render, path_of}
use dekit.TaskPath.Refines.{components-render}
use dekit.TaskPath.Tree.{parent-render}
use dekit.PathTrie.{PathTrie, resolve, paths_above, find_task, task_above, walk_to}
use dekit.PathTrie.Entries.{task_in, task_in-walk}

-- A path that `TaskPath::new` made, or the root.
abbrev pub IsPath : TaskPath → Type 0
IsPath p = All IsComponent (components p) × (path_of (components p) ≡ p)

pub resolve-task_in : (t : PathTrie) (p : TaskPath) → resolve t p ≡ task_in (components p) t.root
unfolding resolve
resolve-task_in t p = unfold walk_to in task_in-walk (components p) t.root

last_of : (cs : List Text) → (cs ≡ []) ⊎ ((bs : List Text) × (c : Text) × (cs ≡ bs ++ c ∷ []))
last_of [] = inl refl
last_of (c ∷ cs) = elim (last_of cs) [
  | inl e ↦ inr ([], c, ap (λ l. c ∷ l) e)
  | inr (bs, b, e) ↦ inr (c ∷ bs, b, ap (λ l. c ∷ l) e)
]

pub All-prefix :
    (bs cs : List Text) → All IsComponent (bs ++ cs) → All IsComponent bs × All IsComponent cs
All-prefix [] cs h = (tt, h)
All-prefix (b ∷ bs) cs h = let (hb, hc) = All-prefix bs cs h.1 in ((h.0, hb), hc)

length_component : (c : Text) → IsComponent c → 0 < length c
length_component [] h = absurd (h.0 refl)
length_component (x ∷ c) h = omega arith

-- A path has a character for each of its components.
length-render : (cs : List Text) → All IsComponent cs → length cs ≤ length (render cs)
unfolding render
length-render [] h = omega arith
length-render (c ∷ []) h = omega (arith, length_component c h.0)
length-render (c ∷ d ∷ cs) h = omega (
  arith,
  length_component c h.0,
  length-append c (slash ∷ render (d ∷ cs)),
  length-render (d ∷ cs) h.1,
)

take-snoc : (k : ℕ) (bs : List Text) (c : Text) → k ≤ length bs → take k (bs ++ c ∷ []) ≡ take k bs
take-snoc zero bs c h = refl
take-snoc (suc k) [] c h = absurd (omega arith)
take-snoc (suc k) (b ∷ bs) c h = ap (λ l. b ∷ l) (take-snoc k bs c (omega arith))

take_whole : (bs : List Text) → take (length bs) bs ≡ bs
take_whole [] = refl
take_whole (b ∷ bs) = ap (λ l. b ∷ l) (take_whole bs)

length-snoc : (bs : List Text) (c : Text) → length (bs ++ c ∷ []) ≡ suc (length bs)
length-snoc bs c = omega (arith, length-append bs (c ∷ []))

paths_above-snoc :
    (fuel : ℕ) (bs : List Text) (c : Text)
    → All IsComponent bs
    → IsComponent c
    → paths_above (suc fuel) (path_of (bs ++ c ∷ [])) ≡ path_of bs ∷ paths_above fuel (path_of bs)
unfolding paths_above
paths_above-snoc fuel bs c hb hc =
    ap (λ (o : Option TaskPath). elim o [ none ↦ [] | some q ↦ q ∷ paths_above fuel q ])
      (parent-render bs c hb hc)

take_upto :
    (k : ℕ) (bs : List Text) (c : Text)
    → k < length (bs ++ c ∷ [])
    → ((k ≡ length bs) × (take k (bs ++ c ∷ []) ≡ bs))
      ⊎ ((k < length bs) × (take k (bs ++ c ∷ []) ≡ take k bs))
take_upto k bs c h = elim (Bool-cases (k == length bs)) [
  | inl is ↦
      let at = (==_iff k (length bs)).0 is in
      inl (
        at,
        take-snoc k bs c (omega (arith, length-snoc bs c, at))
            ∙ ap (λ j. take j bs) at
            ∙ take_whole bs,
      )
  | inr other ↦
      let below : k < length bs = ground (arith, length-snoc bs c) in
      inr (below, take-snoc k bs c (omega (arith, below)))
]

module _ (t : PathTrie) where
  find_task_cons-none :
      (p : TaskPath) (ps : List TaskPath)
      → find_task t (p ∷ ps) ≡ none
      → (resolve t p ≡ none) × (find_task t ps ≡ none)
  unfolding find_task
  find_task_cons-none p ps e = elim (Option-cases (resolve t p)) [
    | inl gone ↦ (gone, ground arith)
    | inr (id, at) ↦ absurd (ground arith)
  ]

  find_task_cons-some :
      (p q : TaskPath) (ps : List TaskPath)
      → find_task t (p ∷ ps) ≡ some q
      → ((q ≡ p) × (is_some (resolve t p) ≡ true)) ⊎ (find_task t ps ≡ some q)
  unfolding find_task
  find_task_cons-some p q ps e = elim (Option-cases (resolve t p)) [
    | inl gone ↦ inr (ground arith)
    | inr (id, at) ↦ inl (ground arith, ground arith)
  ]

  resolve-render :
      (cs : List Text) → All IsComponent cs → resolve t (path_of cs) ≡ task_in cs t.root
  resolve-render cs v =
      resolve-task_in t (path_of cs) ∙ ap (λ l. task_in l t.root) (components-render cs v)

  -- The walk up finds nothing: no task is at a path above.
  find_task-none :
      (fuel : ℕ) (cs : List Text)
      → All IsComponent cs
      → length cs < fuel
      → find_task t (paths_above fuel (path_of cs)) ≡ none
      → (k : ℕ) → k < length cs
      → task_in (take k cs) t.root ≡ none
  find_task-none zero cs v f e k h = absurd (omega arith)
  find_task-none (suc fuel) cs v f e k h = elim (last_of cs) [
    | inl empty ↦ absurd (omega (arith, ap (λ (l : List Text). length l) empty))
    | inr (bs, c, is) ↦
        let (vb, vc) = All-prefix bs (c ∷ []) (subst (All IsComponent) is v) in
        let size = ap (λ (l : List Text). length l) is ∙ length-snoc bs c in
        let above =
          ap (λ l. paths_above (suc fuel) (path_of l)) is ∙ paths_above-snoc fuel bs c vb vc.0 in
        let (here, rest) =
          find_task_cons-none (path_of bs) (paths_above fuel (path_of bs))
            (sym (ap (find_task t) above) ∙ e) in
        elim (take_upto k bs c (subst (λ (l : List Text). k < length l) is h)) [
          | inl (at, upto) ↦
              ap (λ l. task_in (take k l) t.root) is
              ∙ ap (λ l. task_in l t.root) upto
              ∙ sym (resolve-render bs vb)
              ∙ here
          | inr (below, upto) ↦
              ap (λ l. task_in (take k l) t.root) is
              ∙ ap (λ l. task_in l t.root) upto
              ∙ find_task-none fuel bs vb (omega (arith, f, size)) rest k below
        ]
  ]

  find_task-root : (fuel : ℕ) → find_task t (paths_above (suc fuel) (path_of [])) ≡ none
  unfolding find_task paths_above parent render
  find_task-root fuel = refl

  -- What the walk up finds is a path above, and a task is there.
  find_task-some :
      (fuel : ℕ) (cs : List Text) (q : TaskPath)
      → All IsComponent cs
      → find_task t (paths_above fuel (path_of cs)) ≡ some q
      → (k : ℕ) × (k < length cs)
        × (q ≡ path_of (take k cs))
        × (is_some (task_in (take k cs) t.root) ≡ true)
  find_task-some zero cs q v e = absurd (unfold find_task paths_above in cc)
  find_task-some (suc fuel) cs q v e = elim (last_of cs) [
    | inl empty ↦ absurd (
        cc (
          e,
          ap (λ l. find_task t (paths_above (suc fuel) (path_of l))) empty,
          find_task-root fuel,
        ))
    | inr (bs, c, is) ↦
        let (vb, vc) = All-prefix bs (c ∷ []) (subst (All IsComponent) is v) in
        let size = ap (λ (l : List Text). length l) is ∙ length-snoc bs c in
        let above =
          ap (λ l. paths_above (suc fuel) (path_of l)) is ∙ paths_above-snoc fuel bs c vb vc.0 in
        let to = λ (k : ℕ) (ds : List Text) (u : take k (bs ++ c ∷ []) ≡ ds).
          ap (λ (l : List Text). take k l) is ∙ u in
        elim (find_task_cons-some (path_of bs) q (paths_above fuel (path_of bs))
          (sym (ap (find_task t) above) ∙ e)) [
            | inl (same, here) ↦
                let upto =
                  to (length bs) bs (take-snoc (length bs) bs c (omega arith) ∙ take_whole bs) in
                (
                  length bs,
                  omega (arith, size),
                  same ∙ ap path_of (sym upto),
                  ap (λ l. is_some (task_in l t.root)) upto
                      ∙ ap is_some (sym (resolve-render bs vb))
                      ∙ here,
                )
            | inr rest ↦
                let (k, below, same, here) = find_task-some fuel bs q vb rest in
                let upto = to k (take k bs) (take-snoc k bs c (omega (arith, below))) in
                (
                  k,
                  omega (arith, size, below),
                  same ∙ ap path_of (sym upto),
                  ap (λ l. is_some (task_in l t.root)) upto ∙ here,
                )
          ]
  ]

  -- No path above the path has a task, if the walk finds none.
  pub task_above-none :
      (p : TaskPath)
      → IsPath p
      → task_above t p ≡ none
      → (k : ℕ) → k < length (components p)
      → task_in (take k (components p)) t.root ≡ none
  unfolding task_above
  task_above-none p v e =
      let size = length-render (components p) v.0 in
      let text = ap (λ (q : TaskPath). length q.text) v.1 in
      find_task-none (suc (length p.text)) (components p) v.0 (omega (arith, size, text))
        (ap (λ q. find_task t (paths_above (suc (length p.text)) q)) v.1 ∙ e)

  pub task_above-some :
      (p q : TaskPath)
      → IsPath p
      → task_above t p ≡ some q
      → (k : ℕ) × (k < length (components p))
        × (q ≡ path_of (take k (components p)))
        × (is_some (task_in (take k (components p)) t.root) ≡ true)
  unfolding task_above
  task_above-some p q v e =
      find_task-some (suc (length p.text)) (components p) q v.0
        (ap (λ r. find_task t (paths_above (suc (length p.text)) r)) v.1 ∙ e)
