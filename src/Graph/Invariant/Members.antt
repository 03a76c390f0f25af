-- ===== src/Graph/Invariant/Members.antt =====
-- Tasks that come and go: registering and removing keep the invariant.
use dekit.Prelude.{
  ℕ, ◌≡◌, refl, sym, ap, ◌∙◌, Bool, true, false, not, ◌||◌, Option, none, some, List, [], ◌∷◌,
  arith, is_some, contains, ◌==◌, if◌then◌else◌, if_elim, option_elim, set_remove,
  set_remove-absent, Distinct-set_remove, All-set_remove, Bool-cases, inl, inr,
}
use dekit.Prelude.Maps
use dekit.Prelude.Maps.{Map, AllValues, AllValues-remove, lookup-remove}
use dekit.Prelude.Result.{Result, ok, err}
use dekit.TaskPath.{TaskPath}
use dekit.Task.{
  TaskHandle, TaskState, idle, starting, running, ready, stopping, backoff, done, exited,
  init_task_id,
}
use dekit.Task.Legal.{flags_fit, IsFlagged, is_stopping}
use dekit.Graph.State.{Host, Graph, get_task, is_registered, push_timer_change, mark_changed}
use dekit.Graph.Register.{
  TaskDef, SavedTask, RegisterError, new_handle, restored_state, restored, place_task, add_edges,
  register_task, map_ok, claim_path, path_conflict,
}
use dekit.Graph.Remove.{unlist, drop_deps, drop_dependents, unlink_task, remove_task, begin_quit}
use dekit.Graph.Messages.{kept}
use dekit.Graph.Invariant.{
  IsPlainHost, Inv, put_task-Inv, with_task-Inv, mark_changed-Inv, enqueue-Inv, enqueue_all-Inv,
  add_edge-Inv, notify_subscribers-Inv,
}
use dekit.Graph.Invariant.Moves.{schedule-Inv}

-- A snapshot has a hard kill under way only of a task that is stopping.
unfoldable pub IsSaved : Option SavedTask → Type 0
IsSaved none = Unit
IsSaved (some s) = (not s.killed || is_stopping s.state) ≡ true

module _ {S T : Type 0} where
  restored_stopping :
      (s : TaskState) (t : TaskHandle S T) → is_stopping s ≡ true → restored_state s t ≡ stopping
  unfolding restored_state
  restored_stopping stopping t e = refl
  restored_stopping idle t e = absurd (cc)
  restored_stopping starting t e = absurd (cc)
  restored_stopping running t e = absurd (cc)
  restored_stopping ready t e = absurd (cc)
  restored_stopping (backoff i) t e = absurd (cc)
  restored_stopping (done i) t e = absurd (cc)
  restored_stopping (exited i) t e = absurd (cc)

  pub restored-IsFlagged :
      (now : ℕ) (saved : Option SavedTask) (t : TaskHandle S T)
      → IsSaved saved
      → IsFlagged t
      → IsFlagged (restored now saved t)
  unfolding IsSaved restored flags_fit
  restored-IsFlagged now none t s f = f
  restored-IsFlagged now (some s) t fit f = let keeps = restored_stopping s.state t in ground arith

registered-remove :
    {S T : Type 0} (id j : ℕ) (m : Map (TaskHandle S T))
    → (j == id) ≡ false
    → is_some (Maps.lookup j m) ≡ true
    → is_some (Maps.lookup j (Maps.remove id m)) ≡ true
registered-remove id j m n h = ground (arith, lookup-remove id j m)

-- The queue is filtered only if its set has the id, which comes to the same.
filtered :
    (id : ℕ) (q d : List ℕ)
    → q ≡ d
    → (if contains id q then set_remove id d else d) ≡ set_remove id d
filtered id q d e =
    if_elim (λ l. l ≡ set_remove id d) (contains id q) (λ y. refl)
      (λ n. sym (set_remove-absent id d (rw (sym e) n)))

module _ {S T N : Type 0} {ids : List ℕ} where
  add_edges-Inv :
      (id : ℕ) (deps : List ℕ) (g : Graph S T N) → Inv ids g → Inv ids (add_edges id deps g)
  unfolding add_edges
  add_edges-Inv id [] g v = v
  add_edges-Inv id (dep ∷ deps) g v = add_edges-Inv id deps _ (add_edge-Inv id dep g v)

module _ {S T N : Type 0} where
  -- The graph without the task: what follows from the invariant with the task.
  removed-Inv :
      (id : ℕ) (g g' : Graph S T N)
      → Inv [] g
      → g'.tasks ≡ Maps.remove id g.tasks
      → g'.transitions ≡ g.transitions
      → g'.in_queue ≡ set_remove id g.in_queue
      → g'.dirty ≡ set_remove id g.dirty
      → g'.panicked ≡ g.panicked
      → g'.pending_effects ≡ g.pending_effects
      → Inv [] g'
  removed-Inv id g g' v et el eq ed ec ep = record {
    flags = rw et (AllValues-remove IsFlagged id g.tasks v.flags);
    legal = rw el v.legal;
    queued =
        rw (ed, et) (All-set_remove id (λ j n. registered-remove id j g.tasks n) g.dirty v.queued);
    listed = tt;
    lined = rw (eq, ed) (ap (set_remove id) v.lined);
    distinct = rw ed (Distinct-set_remove id g.dirty v.distinct);
    calm = ec ∙ v.calm;
    plain = rw ep v.plain;
  }

  unlist-Inv : (id : ℕ) (t : TaskHandle S T) (g : Graph S T N) → Inv [] g → Inv [] (unlist id t g)
  unfolding unlist mark_changed push_timer_change
  unlist-Inv id t g v = elim (Bool-cases (is_some t.deadline)) [
    | inl e ↦
        removed-Inv id g _ v (rw e refl) (rw e refl) (rw e refl)
          (rw e (filtered id g.in_queue g.dirty v.lined)) (rw e refl) (rw e refl)
    | inr e ↦
        removed-Inv id g _ v (rw e refl) (rw e refl) (rw e refl)
          (rw e (filtered id g.in_queue g.dirty v.lined)) (rw e refl) (rw e refl)
  ]

  drop_deps-Inv :
      (id : ℕ) (was_wanted was_active : Bool) (deps : List ℕ) (g : Graph S T N)
      → Inv [] g
      → Inv [] (drop_deps id was_wanted was_active deps g)
  unfolding drop_deps
  drop_deps-Inv id w a [] g v = v
  drop_deps-Inv id w a (dep ∷ deps) g v = drop_deps-Inv id w a deps _ (
      enqueue-Inv dep _ (
        with_task-Inv dep _ _ (λ t f. f)
          (record {
            flags = v.flags;
            legal = v.legal;
            queued = v.queued;
            listed = tt;
            lined = v.lined;
            distinct = v.distinct;
            calm = v.calm;
            plain = v.plain;
          })))

  drop_dependents-Inv :
      (id : ℕ) (froms : List ℕ) (g : Graph S T N) → Inv [] g → Inv [] (drop_dependents id froms g)
  unfolding drop_dependents
  drop_dependents-Inv id [] g v = v
  drop_dependents-Inv id (from ∷ froms) g v = drop_dependents-Inv id froms _ (
      enqueue-Inv from _ (record {
        flags = v.flags;
        legal = v.legal;
        queued = v.queued;
        listed = tt;
        lined = v.lined;
        distinct = v.distinct;
        calm = v.calm;
        plain = v.plain;
      }))

  unlink_task-Inv :
      (id : ℕ) (t : TaskHandle S T) (g : Graph S T N) → Inv [] g → Inv [] (unlink_task id t g)
  unfolding unlink_task
  unlink_task-Inv id t g v =
      let v1 = drop_deps-Inv id _ _ _ _ (record {
        flags = v.flags;
        legal = v.legal;
        queued = v.queued;
        listed = tt;
        lined = v.lined;
        distinct = v.distinct;
        calm = v.calm;
        plain = v.plain;
      }) in
      drop_dependents-Inv id _ _ (record {
        flags = v1.flags;
        legal = v1.legal;
        queued = v1.queued;
        listed = tt;
        lined = v1.lined;
        distinct = v1.distinct;
        calm = v1.calm;
        plain = v1.plain;
      })

  pub begin_quit-Inv : (g : Graph S T N) → Inv [] g → Inv [] (begin_quit g).1
  unfolding begin_quit
  begin_quit-Inv g v =
      if_elim (λ (r : Bool × Graph S T N). Inv [] r.1) g.quitting (λ e. v)
        (λ e. enqueue_all-Inv _ _ (record {
          flags = v.flags;
          legal = v.legal;
          queued = v.queued;
          listed = tt;
          lined = v.lined;
          distinct = v.distinct;
          calm = v.calm;
          plain = v.plain;
        }))

module _ {S T N : Type 0} (h : Host S T N) (p : IsPlainHost h) where
  pub remove_task-Inv : (id : ℕ) (g : Graph S T N) → Inv [] g → Inv [] (remove_task h id g)
  unfolding remove_task
  remove_task-Inv id g v = option_elim (Inv []) (get_task g id) v (λ t at.
      let v1 = unlink_task-Inv id t _ (unlist-Inv id t g v) in
      notify_subscribers-Inv h p id t.space t.path _ _ (record {
        flags = v1.flags;
        legal = v1.legal;
        queued = v1.queued;
        listed = tt;
        lined = v1.lined;
        distinct = v1.distinct;
        calm = v1.calm;
        plain = v1.plain;
      }))

  place_task-Inv :
      (id : ℕ) (def : TaskDef S) (saved : Option SavedTask) (deps : List ℕ) (g : Graph S T N)
      → IsSaved saved
      → Inv [] g
      → Inv [] (place_task h id def saved deps g)
  unfolding place_task
  place_task-Inv id def saved deps g s v =
      let fits =
        restored-IsFlagged g.now saved (new_handle h id def) s (unfold flags_fit in refl) in
      let v1 =
        add_edges-Inv id deps _
          (schedule-Inv id _ _ (mark_changed-Inv _ (put_task-Inv id _ g fits v))) in
      notify_subscribers-Inv h p id def.space def.path _ _ (
        enqueue-Inv id _
          (if_elim (Inv []) def.pinned (λ y. add_edge-Inv init_task_id id _ v1) (λ n. v1)))

  claimed-Inv :
      (id : ℕ) (def : TaskDef S) (saved : Option SavedTask) (deps : List ℕ) (path : Option TaskPath)
      (g : Graph S T N)
      → IsSaved saved
      → Inv [] g
      → Inv [] (kept g (map_ok (place_task h id def saved deps) (claim_path h id def.space path g)))
  claimed-Inv id def saved deps none g s v = place_task-Inv id def saved deps g s v
  claimed-Inv id def saved deps (some path) g s v = claimed (h.claim g.ns id def.space path)
    where
      claimed :
          (o : Option N)
          → Inv [] (
              kept g (
                map_ok
                  (place_task h id def saved deps)
                  (elim o [ none ↦ err path_conflict | some ns ↦ ok (record g { ns = ns }) ])))
      claimed none = v
      claimed (some ns) = place_task-Inv id def saved deps _ s (record {
        flags = v.flags;
        legal = v.legal;
        queued = v.queued;
        listed = tt;
        lined = v.lined;
        distinct = v.distinct;
        calm = v.calm;
        plain = v.plain;
      })

  pub register_task-Inv :
      (id : ℕ) (def : TaskDef S) (saved : Option SavedTask) (deps : Option (List ℕ))
      (g : Graph S T N)
      → IsSaved saved
      → Inv [] g
      → Inv [] (kept g (register_task h id def saved deps g))
  unfolding register_task
  register_task-Inv id def saved none g s v =
      if_elim (λ (r : Result RegisterError (Graph S T N)). Inv [] (kept g r)) (is_registered g id)
        (λ y. v) (λ n. v)
  register_task-Inv id def saved (some deps) g s v =
      if_elim (λ (r : Result RegisterError (Graph S T N)). Inv [] (kept g r)) (is_registered g id)
        (λ y. v) (λ n. claimed-Inv id def saved deps def.path g s v)
