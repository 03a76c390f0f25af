-- ===== src/Graph/Invariant/Settle.antt =====
-- Reconciling and settling keep the invariant, on any fuel.
use dekit.Prelude.{
  ℕ, zero, suc, ◌≡◌, refl, Bool, true, false, Option, some, List, [], ◌∷◌, ◌++◌, All, All-append,
  contains, if◌then◌else◌, if_elim, option_elim, option_elim_eq, list_elim, subst,
}
use dekit.Prelude.Maps.{some_injective}
use dekit.Task.{TaskHandle, TaskState, idle, starting, running, ready, backoff, bool_eq, TaskEffect}
use dekit.Task.Legal.{legal_transition, IsFlagged}
use dekit.Graph.State.{Host, Graph, get_task, deps_of, popped, pop_dirty}
use dekit.Graph.Reports.{apply_effect}
use dekit.Graph.Reconcile.{
  compute_wanted, refresh_wanted, compute_supported, refresh_supported, recompute_caches, propagate,
  drive_up, drive_down, drive_task, drive_all, has_active_dependent, reconcile_round, is_clean,
  settle_loop, settle, settle_budget,
}
use dekit.Graph.Invariant.{
  IsPlain, IsPlainHost, Inv, put_task-Inv, IsFlagged-at, mark_changed-Inv, count_wanted-Inv,
  enqueue_parents-Inv, popped-Inv, Inv-tail,
}
use dekit.Graph.Invariant.States.{state_at}
use dekit.Graph.Invariant.Moves.{state_of_get, set_state_from}
use dekit.Graph.Invariant.Drives.{start_task-Inv, stop_task-Inv}
use dekit.Graph.Invariant.Landing.{apply_effect-Inv}

module _ {S T N : Type 0} where
  refresh_wanted-Inv :
      {ids : List ℕ} (id : ℕ) (t : TaskHandle S T) (g : Graph S T N)
      → IsFlagged t
      → Inv ids g
      → Inv ids (refresh_wanted id t g)
  refresh_wanted-Inv {ids} id t g f v =
      if_elim (Inv ids) (bool_eq t.wanted (compute_wanted g t)) (λ e. v)
        (λ e. count_wanted-Inv _ (deps_of g id) _ (mark_changed-Inv _ (put_task-Inv id _ g f v)))

  -- The task of a listed id is there.
  refresh_supported-Inv :
      {ids : List ℕ} (id : ℕ) (g : Graph S T N)
      → Inv (id ∷ ids) g
      → Inv (id ∷ ids) (refresh_supported id g)
  unfolding refresh_supported
  refresh_supported-Inv {ids} id g v =
      option_elim_eq (Inv (id ∷ ids)) (get_task g id)
        (λ gone. absurd (let there = v.listed.0 in cc))
        (λ t at.
          if_elim (Inv (id ∷ ids)) (bool_eq t.supported (compute_supported g id t)) (λ e. v)
            (λ e. enqueue_parents-Inv id _ (put_task-Inv id _ g (IsFlagged-at g id t v at) v)))

  recompute_caches-Inv :
      {ids : List ℕ} (id : ℕ) (g : Graph S T N)
      → Inv (id ∷ ids) g
      → Inv (id ∷ ids) (recompute_caches id g)
  unfolding recompute_caches
  recompute_caches-Inv {ids} id g v =
      option_elim (Inv (id ∷ ids)) (get_task g id) v (λ t at.
        refresh_supported-Inv id _ (refresh_wanted-Inv id t g (IsFlagged-at g id t v at) v))

  pop_dirty-Inv :
      {ids : List ℕ} (g : Graph S T N) (r : ℕ × Graph S T N)
      → pop_dirty g ≡ some r
      → Inv ids g
      → Inv (r.0 ∷ ids) r.1
  unfolding pop_dirty
  pop_dirty-Inv {ids} g r e v =
      list_elim (λ (o : Option (ℕ × Graph S T N)). o ≡ some r → Inv (r.0 ∷ ids) r.1) g.dirty
        (λ n. absurd (cc))
        (λ id rest d e'.
          let same : (id, popped id rest g) ≡ r = some_injective e' in
          subst (λ (q : ℕ × Graph S T N). Inv (q.0 ∷ ids) q.1) same (popped-Inv g id rest d v))
        e

  -- What was popped joins the list.
  relist :
      (id : ℕ) (seen : List ℕ) (g : Graph S T N)
      → Inv (id ∷ seen) g
      → Inv (if contains id seen then seen else seen ++ id ∷ []) g
  relist id seen g v =
      if_elim (λ l. Inv l g) (contains id seen) (λ e. Inv-tail g v)
        (λ e. record {
          flags = v.flags;
          legal = v.legal;
          queued = v.queued;
          listed = All-append _ seen (id ∷ []) v.listed.1 (v.listed.0, tt);
          lined = v.lined;
          distinct = v.distinct;
          calm = v.calm;
          plain = v.plain;
        })

  propagate-Inv :
      (fuel : ℕ) (seen : List ℕ) (g : Graph S T N)
      → Inv seen g
      → Inv (propagate fuel seen g).0 (propagate fuel seen g).1
  unfolding propagate
  propagate-Inv zero seen g v = v
  propagate-Inv (suc fuel) seen g v =
      option_elim (λ (r : List ℕ × Graph S T N). Inv r.0 r.1) (pop_dirty g) v
        (λ r e.
          propagate-Inv fuel _ _
            (relist r.0 seen _ (recompute_caches-Inv r.0 _ (pop_dirty-Inv g r e v))))

module _ {S T N : Type 0} (h : Host S T N) (p : IsPlainHost h) where
  drive_up-Inv :
      {ids : List ℕ} (s : TaskState) (id : ℕ) (g : Graph S T N)
      → state_at g id ≡ some s
      → Inv ids g
      → Inv ids (drive_up h s id g)
  drive_up-Inv idle id g e v = start_task-Inv h p id g e v
  drive_up-Inv _ id g e v = v

  drive_down-Inv :
      {ids : List ℕ} (s : TaskState) (id : ℕ) (g : Graph S T N)
      → state_at g id ≡ some s
      → Inv ids g
      → Inv ids (drive_down h s id g)
  drive_down-Inv {ids} starting id g e v =
      if_elim (Inv ids) (has_active_dependent g id) (λ y. v)
        (λ n. stop_task-Inv h p id false starting g refl e v)
  drive_down-Inv {ids} running id g e v =
      if_elim (Inv ids) (has_active_dependent g id) (λ y. v)
        (λ n. stop_task-Inv h p id false running g refl e v)
  drive_down-Inv {ids} ready id g e v =
      if_elim (Inv ids) (has_active_dependent g id) (λ y. v)
        (λ n. stop_task-Inv h p id false ready g refl e v)
  drive_down-Inv (backoff info) id g e v =
      set_state_from h p id (backoff info) idle g refl (unfold legal_transition in refl) e v
  drive_down-Inv _ id g e v = v

  drive_task-Inv :
      {ids : List ℕ} (id : ℕ) (g : Graph S T N)
      → Inv (id ∷ ids) g
      → Inv (id ∷ ids) (drive_task h id g)
  unfolding drive_task
  drive_task-Inv {ids} id g v =
      option_elim_eq (Inv (id ∷ ids)) (get_task g id)
        (λ gone. absurd (let there = v.listed.0 in cc))
        (λ t at.
          if_elim (Inv (id ∷ ids)) t.supported
            (λ y. drive_up-Inv t.state id g (state_of_get g id t at) v)
            (λ n. drive_down-Inv t.state id g (state_of_get g id t at) v))

  drive_all-Inv : (ids : List ℕ) (g : Graph S T N) → Inv ids g → Inv [] (drive_all h ids g)
  unfolding drive_all
  drive_all-Inv [] g v = v
  drive_all-Inv (id ∷ ids) g v = drive_all-Inv ids _ (Inv-tail _ (drive_task-Inv id g v))

  pub reconcile_round-Inv :
      (fuel : ℕ) (g : Graph S T N) → Inv [] g → Inv [] (reconcile_round h fuel g)
  unfolding reconcile_round
  reconcile_round-Inv fuel g v = drive_all-Inv _ _ (propagate-Inv fuel [] g v)

  -- The front report, taken off.
  report_first-Inv :
      (id : ℕ) (e : TaskEffect) (rest : List (ℕ × TaskEffect)) (g : Graph S T N)
      → g.pending_effects ≡ (id, e) ∷ rest
      → Inv [] g
      → Inv [] (apply_effect h id e (record g { pending_effects = rest }))
  report_first-Inv id e rest g at v =
      let all : All IsPlain ((id, e) ∷ rest) = subst (All IsPlain) at v.plain in
      apply_effect-Inv h p id e _ all.0 (record {
        flags = v.flags;
        legal = v.legal;
        queued = v.queued;
        listed = tt;
        lined = v.lined;
        distinct = v.distinct;
        calm = v.calm;
        plain = all.1;
      })

  settle_loop-Inv :
      (fuel steps : ℕ) (g : Graph S T N) → Inv [] g → Inv [] (settle_loop h fuel steps g)
  unfolding settle_loop
  settle_loop-Inv fuel zero g v = v
  settle_loop-Inv fuel (suc steps) g v =
      list_elim (Inv []) g.pending_effects
        (Bool_elim (is_clean g) v (settle_loop-Inv fuel steps _ (reconcile_round-Inv fuel g v)))
        (λ r rest at. settle_loop-Inv fuel steps _ (report_first-Inv r.0 r.1 rest g at v))
    where
      Bool_elim :
          {x y : Graph S T N} (b : Bool)
          → Inv [] x
          → Inv [] y
          → Inv [] (elim b [ true ↦ x | false ↦ y ])
      Bool_elim true px py = px
      Bool_elim false px py = py

  pub settle-Inv : (fuel : ℕ) (g : Graph S T N) → Inv [] g → Inv [] (settle h fuel g)
  unfolding settle
  settle-Inv fuel g v = settle_loop-Inv fuel (suc (settle_budget g)) g v
