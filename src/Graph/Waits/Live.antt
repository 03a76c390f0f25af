-- ===== src/Graph/Waits/Live.antt =====
-- What `is_live` of src/kernel/kernel.rs decides: the least property that a task has when it is
-- wanted, its run has not ended, and each dep is satisfied or has the property itself.
use dekit.Prelude.{
  ℕ, zero, suc, ◌+◌, ◌≡◌, refl, Bool, true, false, not, ◌&&◌, Bool-cases, inl, inr, some,
  Option-cases, List, [], ◌∷◌, contains, arith, subst, ◌==◌, ==_refl, ==_iff,
}
use dekit.Task.{TaskHandle, has_ended}
use dekit.Graph.State.{Graph, get_task, deps_of}
use dekit.Graph.Waits.{satisfied_task, deps_serve, is_live}

pub data Live {S T N : Type 0} (g : Graph S T N) : ℕ → Type 0 where
  live :
      (id : ℕ) (t : TaskHandle S T)
      → get_task g id ≡ some t
      → t.wanted ≡ true
      → has_ended t ≡ false
      → ((dep : ℕ)
          → contains dep (deps_of g id) ≡ true
          → satisfied_task (get_task g dep) ≡ false
          → Live g dep)
      → Live g id

module _ {S T N : Type 0} (g : Graph S T N) where
  deps_serve_sound :
      (p : ℕ → Bool)
      → ((dep : ℕ) → p dep ≡ true → Live g dep)
      → (deps : List ℕ) → deps_serve p g deps ≡ true
      → (dep : ℕ) → contains dep deps ≡ true
      → satisfied_task (get_task g dep) ≡ false
      → Live g dep
  deps_serve_sound p sound [] e dep m n = absurd (cc)
  deps_serve_sound p sound (d ∷ deps) e dep m n = elim (Bool-cases (d == dep)) [
    | inl same ↦
        (let is : d ≡ dep = (==_iff d dep).0 same in
          let unsat : satisfied_task (get_task g d) ≡ false = rw is n in
          subst (Live g) is (sound d (ground arith)))
    | inr other ↦ deps_serve_sound p sound deps (ground arith) dep (rw other at m) n
  ]

  is_live_sound : (fuel : ℕ) (id : ℕ) → is_live fuel g id ≡ true → Live g id
  unfolding is_live
  is_live_sound zero id e = absurd (cc)
  is_live_sound (suc fuel) id e = elim (Option-cases (get_task g id)) [
    | inl gone ↦ absurd (let no = rw (is_live, gone) at e in cc)
    | inr (t, at) ↦
        (let all = rw (is_live, at) at e in
          live id t at (ground arith) (ground arith)
            (deps_serve_sound (is_live fuel g) (is_live_sound fuel) (deps_of g id) (ground arith)))
  ]

  deps_serve_complete :
      (p : ℕ → Bool) (deps : List ℕ)
      → ((dep : ℕ)
          → contains dep deps ≡ true
          → satisfied_task (get_task g dep) ≡ false
          → p dep ≡ true)
      → deps_serve p g deps ≡ true
  deps_serve_complete p [] c = refl
  deps_serve_complete p (d ∷ deps) c =
      let rest = deps_serve_complete p deps (λ dep m. c dep (ground arith)) in
      elim (Bool-cases (satisfied_task (get_task g d))) [
        | inl sat ↦ rw (sat, rest) refl
        | inr unsat ↦ rw (unsat, c d (rw (==_refl d) refl) unsat, rest) refl
      ]

  deps_serve_more :
      (p q : ℕ → Bool)
      → ((dep : ℕ) → p dep ≡ true → q dep ≡ true)
      → (deps : List ℕ) → deps_serve p g deps ≡ true
      → deps_serve q g deps ≡ true
  deps_serve_more p q more [] e = refl
  deps_serve_more p q more (d ∷ deps) e = ground (arith, more d, deps_serve_more p q more deps)

  is_live_step :
      (fuel : ℕ) (id : ℕ) (t : TaskHandle S T)
      → get_task g id ≡ some t
      → is_live (suc fuel) g id
        ≡ (t.wanted && not (has_ended t) && deps_serve (is_live fuel g) g (deps_of g id))
  unfolding is_live
  is_live_step fuel id t at = rw (is_live, at) refl

  -- More fuel finds no less.
  is_live_more : (fuel k : ℕ) (id : ℕ) → is_live fuel g id ≡ true → is_live (fuel + k) g id ≡ true
  unfolding is_live
  is_live_more zero k id e = absurd (cc)
  is_live_more (suc fuel) k id e = elim (Option-cases (get_task g id)) [
    | inl gone ↦ absurd (let no = rw (is_live, gone) at e in cc)
    | inr (t, at) ↦
        (let sum : suc fuel + k ≡ suc (fuel + k) = omega arith in
          let was = rw (is_live_step fuel id t at) at e in
          let serve =
            deps_serve_more (is_live fuel g) (is_live (fuel + k) g) (is_live_more fuel k)
              (deps_of g id) (ground arith) in
          rw (sum, is_live_step (fuel + k) id t at) (ground arith))
  ]

  gather :
      (deps : List ℕ)
      → ((dep : ℕ)
          → contains dep deps ≡ true
          → satisfied_task (get_task g dep) ≡ false
          → (n : ℕ) × (is_live n g dep ≡ true))
      → (n : ℕ) × (deps_serve (is_live n g) g deps ≡ true)
  gather [] f = (0, refl)
  gather (d ∷ deps) f =
      let (n, rest) = gather deps (λ dep m. f dep (ground arith)) in
      elim (Bool-cases (satisfied_task (get_task g d))) [
        | inl sat ↦ (n, rw (sat, rest) refl)
        | inr unsat ↦
            (let (k, found) = f d (rw (==_refl d) refl) unsat in
              let here : is_live (k + n) g d ≡ true = is_live_more k n d found in
              let swap : n + k ≡ k + n = omega arith in
              let there : deps_serve (is_live (k + n) g) g deps ≡ true =
                deps_serve_more (is_live n g) (is_live (k + n) g)
                  (λ dep e. subst (λ m. is_live m g dep ≡ true) swap (is_live_more n k dep e)) deps
                  rest in
              (k + n, rw (unsat, here, there) refl))
      ]

  is_live_complete : (id : ℕ) → Live g id → (n : ℕ) × (is_live n g id ≡ true)
  is_live_complete _ (live id t at w e f) =
      let (n, serve) = gather (deps_of g id) (λ dep m u. is_live_complete dep (f dep m u)) in
      (suc n, rw (is_live_step n id t at) (ground arith))

  -- The code finds a task live exactly when it is: what it says is so, whatever the depth that it
  -- looks to; for a live task some depth is enough, and so is every greater one.
  pub is_live_iff :
      (id : ℕ)
      → ((fuel : ℕ) → is_live fuel g id ≡ true → Live g id)
        × (Live g id → (n : ℕ) × ((k : ℕ) → is_live (n + k) g id ≡ true))
  is_live_iff id = (
    (λ fuel. is_live_sound fuel id),
    (λ l. let (n, e) = is_live_complete id l in (n, λ k. is_live_more n k id e)),
  )
