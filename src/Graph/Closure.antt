-- ===== src/Graph/Closure.antt =====
-- `Graph::closure` and `Graph::requires` of src/kernel/kernel.rs against what a task reaches by the
-- edges of the graph.
use dekit.Prelude.{
  ℕ, zero, suc, ◌+◌, ◌≤◌, ◌≡◌, ◌↔◌, ◌⊎◌, inl, inr, refl, ap, ◌∙◌, true, ◌||◌, Bool-cases,
  Option-cases, List, [], ◌∷◌, ◌++◌, All, All-append, arith, contains, contains-append, length,
  length-append, set_remove, Distinct, Distinct-set_remove, All-set_remove, subst, ◌==◌, ==_iff,
  ==_refl,
}
use dekit.Prelude.Maps
use dekit.Prelude.Maps.{Map, AllValues, AllValues-lookup}
use dekit.Graph.State.{Graph, is_registered, deps_of}
use dekit.Graph.Intent.{fresh, closure_loop, closure, requires}
use dekit.Graph.Fresh.{length-set_remove, length-keys, Distinct-fresh, contains-fresh, All-fresh}

-- A task needs another directly, or one that does.
pub data Reaches {S T N : Type 0} (g : Graph S T N) : ℕ → ℕ → Type 0 where
  here : (a : ℕ) → Reaches g a a
  by_dep : (a b c : ℕ) → contains b (deps_of g a) ≡ true → Reaches g b c → Reaches g a c

-- No task has a dep that is not registered.
abbrev pub AreDepsRegistered : {S T N : Type 0} → Graph S T N → Type 0
AreDepsRegistered g = AllValues (λ deps. All (λ dep. is_registered g dep ≡ true) deps) g.edges

All-contains : (P : ℕ → Type 0) (y : ℕ) (l : List ℕ) → All P l → contains y l ≡ true → P y
All-contains P y [] a h = absurd (cc)
All-contains P y (x ∷ l) a h = elim (Bool-cases (x == y)) [
  | inl same ↦ subst P ((==_iff x y).0 same) a.0
  | inr other ↦ All-contains P y l a.1 (ground (arith, h, other))
]

module _ {S T N : Type 0} (g : Graph S T N) where
  Reaches_snoc : {a b : ℕ} (c : ℕ) → Reaches g a b → contains c (deps_of g b) ≡ true → Reaches g a c
  Reaches_snoc c (here a) h = by_dep a c c h (here c)
  Reaches_snoc c (by_dep a b d e r) h = by_dep a b c e (Reaches_snoc c r h)

  dep-is_registered :
      (x y : ℕ) → AreDepsRegistered g → contains y (deps_of g x) ≡ true → is_registered g y ≡ true
  dep-is_registered x y r h = elim (Option-cases (Maps.lookup x g.edges)) [
    | inl none' ↦ absurd (ground (arith, h, none'))
    | inr (deps, at) ↦
        All-contains (λ dep. is_registered g dep ≡ true) y deps
          (AllValues-lookup _ x deps g.edges r at) (ground (arith, h, at))
  ]

  -- The task that the list is of, or one that is registered.
  abbrev IsListable : ℕ → ℕ → Type 0
  IsListable from x = (x ≡ from) ⊎ (is_registered g x ≡ true)

  length-listed :
      (from : ℕ) (l : List ℕ)
      → Distinct l
      → All (IsListable from) l
      → length l ≤ suc (length g.tasks)
  length-listed from l d a = omega (
    arith,
    length-set_remove from l d,
    length-keys g.tasks (set_remove from l) (Distinct-set_remove from l d) (
        All-set_remove {P = IsListable from} from
          (λ x other h. elim h [
            | inl is ↦ absurd (cc (other, (==_iff x from).1 is))
            | inr there ↦ there
          ])
          l a),
  )

  todo-listed :
      (fuel : ℕ) (todo seen : List ℕ) (x : ℕ)
      → contains x todo ≡ true
      → contains x (closure_loop fuel g todo seen) ≡ true
  unfolding closure_loop
  todo-listed zero todo seen x h = h
  todo-listed (suc fuel) [] seen x h = h
  todo-listed (suc fuel) (id ∷ todo) seen x h =
      let more = fresh seen (deps_of g id) in
      elim (Bool-cases (id == x)) [
        | inl same ↦ ground (arith, same)
        | inr other ↦
            let kept : contains x (todo ++ more) ≡ true =
              ground (arith, h, other, contains-append x todo more) in
            ground (arith, todo-listed fuel (todo ++ more) (more ++ seen) x kept)
      ]

  All-closure_loop :
      (from fuel : ℕ) (todo seen : List ℕ)
      → All (Reaches g from) todo
      → All (Reaches g from) (closure_loop fuel g todo seen)
  unfolding closure_loop
  All-closure_loop from zero todo seen a = a
  All-closure_loop from (suc fuel) [] seen a = tt
  All-closure_loop from (suc fuel) (id ∷ todo) seen a =
      let more = fresh seen (deps_of g id) in
      (
        a.0,
        All-closure_loop from fuel (todo ++ more) (more ++ seen) (
            All-append (Reaches g from) todo more a.1
              (All-fresh (Reaches g from) seen (deps_of g id) (λ y h. Reaches_snoc y a.0 h))),
      )

  -- The fuel is enough for what is listed, and the deps of what is listed are listed.
  closure_loop-deps :
      (from fuel : ℕ) (todo seen : List ℕ)
      → AreDepsRegistered g
      → Distinct seen
      → All (IsListable from) seen
      → fuel + length seen ≡ suc (length g.tasks) + length todo
      → (x y : ℕ) → contains x (closure_loop fuel g todo seen) ≡ true
      → contains y (deps_of g x) ≡ true
      → (contains y seen || contains y (closure_loop fuel g todo seen)) ≡ true
  unfolding closure_loop
  closure_loop-deps from zero [] seen r d a e x y h k = absurd (cc (h))
  closure_loop-deps from zero (id ∷ todo) seen r d a e x y h k =
      absurd (omega (arith, e, length-listed from seen d a))
  closure_loop-deps from (suc fuel) [] seen r d a e x y h k = absurd (cc (h))
  closure_loop-deps from (suc fuel) (id ∷ todo) seen r d a e x y h k =
      let more = fresh seen (deps_of g id) in
      let rest = closure_loop fuel g (todo ++ more) (more ++ seen) in
      let listed : contains y more ≡ true → contains y rest ≡ true = λ i.
        todo-listed fuel (todo ++ more) (more ++ seen) y
          (ground (arith, i, contains-append y todo more)) in
      let known : (contains y more || contains y seen) ≡ true
          → (contains y seen || contains y (id ∷ rest)) ≡ true =
        λ i. elim (Bool-cases (contains y more)) [
          | inl is ↦ ground (arith, listed is)
          | inr other ↦ ground (arith, i, other)
        ] in
      elim (Bool-cases (id == x)) [
        | inl same ↦ known (
            contains-fresh y seen (deps_of g id)
              (ap (λ j. contains y (deps_of g j)) ((==_iff id x).0 same) ∙ k))
        | inr other ↦
            let both : (contains y (more ++ seen) || contains y rest) ≡ true =
              closure_loop-deps from fuel (todo ++ more) (more ++ seen) r
                (Distinct-fresh seen (deps_of g id) d)
                (All-append (IsListable from) more seen
                  (All-fresh (IsListable from) seen (deps_of g id)
                    (λ z i. inr (dep-is_registered id z r i)))
                  a)
                (omega (arith, e, length-append todo more, length-append more seen)) x y
                (ground (arith, h, other)) k in
            elim (Bool-cases (contains y rest)) [
              | inl is ↦ ground (arith, is)
              | inr not_yet ↦ known (ground (arith, both, not_yet, contains-append y more seen))
            ]
      ]

  closure-deps :
      (from x y : ℕ)
      → AreDepsRegistered g
      → contains x (closure g from) ≡ true
      → contains y (deps_of g x) ≡ true
      → contains y (closure g from) ≡ true
  unfolding closure
  closure-deps from x y r h k =
      let n = suc (length g.tasks) in
      let either =
        closure_loop-deps from n (from ∷ []) (from ∷ []) r (refl, tt) (inl refl, tt) refl x y h k in
      elim (Bool-cases (from == y)) [
        | inl same ↦ todo-listed n (from ∷ []) (from ∷ []) y (ground (arith, same))
        | inr other ↦ ground (arith, either, other)
      ]

  Reaches-closure :
      (from x c : ℕ)
      → AreDepsRegistered g
      → Reaches g x c
      → contains x (closure g from) ≡ true
      → contains c (closure g from) ≡ true
  Reaches-closure from _ _ r (here x) h = h
  Reaches-closure from _ _ r (by_dep x b c e k) h =
      Reaches-closure from b c r k (closure-deps from x b r h e)

  -- The code finds that a task needs another exactly when the edges lead from it to the other, in
  -- any number of steps, none included: if every dep is registered.
  pub requires_iff :
      (from to : ℕ) → AreDepsRegistered g → (requires g from to ≡ true) ↔ Reaches g from to
  unfolding requires closure
  requires_iff from to r = (
    (λ h.
        All-contains (Reaches g from) to _
          (All-closure_loop from (suc (length g.tasks)) (from ∷ []) (from ∷ []) (here from, tt)) h),
    (λ k. Reaches-closure from from to r k (
        todo-listed (suc (length g.tasks)) (from ∷ []) (from ∷ []) from
          (ground (arith, ==_refl from)))),
  )
