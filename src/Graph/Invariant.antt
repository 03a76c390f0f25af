-- ===== src/Graph/Invariant.antt =====
-- The invariant of the graph, kept by every operation of the children's modules, and the proofs
-- for the operations that change no task's state.
pub mod States
pub mod Moves
pub mod Drives
pub mod Landing
pub mod Verbs
pub mod Settle
pub mod Members
pub mod Kernel
use dekit.Prelude.{
  ℕ, ◌≡◌, refl, sym, ap, ◌∙◌, Bool, true, false, not, ◌&&◌, ◌||◌, Bool-cases, inl, inr, Option,
  none, some, Option-cases, List, [], ◌∷◌, ◌++◌, All, All-append, All-imp, arith, is_some, contains,
  ◌==◌, if◌then◌else◌, if_elim, option_elim, subst, Distinct, Distinct-append, set_remove,
  set_remove-absent, ==_refl,
}
use dekit.Prelude.Maps
use dekit.Prelude.Maps.{Map, AllValues, AllValues-insert, AllValues-lookup, lookup-insert}
use dekit.Prelude.Text.{Text}
use dekit.TaskPath.{TaskPath}
use dekit.Task.{TaskHandle, TaskState, TaskCmd, TaskEffect, TaskNotify, msg, init_task_id}
use dekit.Task.Legal.{legal_transition, flags_fit, IsFlagged, IsPlainEffect}
use dekit.Graph.State.{
  Host, Graph, Transition, get_task, is_registered, put_task, with_task, mark_changed,
  push_timer_change, log_transition, deps_of, parents_of, enqueue, enqueue_all, enqueue_parents,
  popped, queue_effects, tag_effects, send_cmd, deliver, notify_subscribers, notify_changed,
}
use dekit.Graph.Edges.{
  count_up, count_down, count_active, count_wanted, link, unlink, add_edge, remove_edge,
  parent_wanted, parent_active,
}

abbrev pub IsLegal : Transition → Type 0
IsLegal tr = legal_transition tr.from tr.to tr.start_failed ≡ true

abbrev pub IsPlain : ℕ × TaskEffect → Type 0
IsPlain e = IsPlainEffect e.1

-- The tasks of a host never report a ready timeout.
pub record IsPlainHost {S T N : Type 0} (h : Host S T N) : Type 0 where
  pub plain : (t : T) (cmd : TaskCmd S) → All IsPlainEffect (h.handle_cmd t cmd).1

-- Every task's flags fit its state, every logged transition is legal, every queued id and every
-- id of `ids` is registered, the queue and its set agree and repeat no id, no `expect` has failed, and no pending report is of a ready timeout.
pub record Inv {S T N : Type 0} (ids : List ℕ) (g : Graph S T N) : Type 0 where
  pub flags : AllValues IsFlagged g.tasks
  pub legal : All IsLegal g.transitions
  pub queued : All (λ id. is_registered g id ≡ true) g.dirty
  pub listed : All (λ id. is_registered g id ≡ true) ids
  pub lined : g.in_queue ≡ g.dirty
  pub distinct : Distinct g.dirty
  pub calm : g.panicked ≡ false
  pub plain : All IsPlain g.pending_effects

registered-put :
    {S T : Type 0} (id j : ℕ) (t : TaskHandle S T) (m : Map (TaskHandle S T))
    → is_some (Maps.lookup j m) ≡ true
    → is_some (Maps.lookup j (Maps.insert id t m)) ≡ true
registered-put id j t m h = ground (arith, lookup-insert id j t m)

tag_effects-IsPlain :
    (id : ℕ) (fx : List TaskEffect) → All IsPlainEffect fx → All IsPlain (tag_effects id fx)
tag_effects-IsPlain id [] p = tt
tag_effects-IsPlain id (e ∷ es) p = (p.0, tag_effects-IsPlain id es p.1)

module _ {S T N : Type 0} {ids : List ℕ} where
  pub put_task-Inv :
      (id : ℕ) (t : TaskHandle S T) (g : Graph S T N)
      → IsFlagged t
      → Inv ids g
      → Inv ids (put_task id t g)
  unfolding put_task
  put_task-Inv id t g ft v = record {
    flags = AllValues-insert IsFlagged id t g.tasks ft v.flags;
    legal = v.legal;
    queued = All-imp (λ j. registered-put id j t g.tasks) g.dirty v.queued;
    listed = All-imp (λ j. registered-put id j t g.tasks) ids v.listed;
    lined = v.lined;
    distinct = v.distinct;
    calm = v.calm;
    plain = v.plain;
  }

  pub IsFlagged-at :
      (g : Graph S T N) (id : ℕ) (t : TaskHandle S T)
      → Inv ids g
      → get_task g id ≡ some t
      → IsFlagged t
  IsFlagged-at g id t v e = AllValues-lookup IsFlagged id t g.tasks v.flags e

  pub with_task-Inv :
      (id : ℕ) (f : TaskHandle S T → TaskHandle S T) (g : Graph S T N)
      → ((t : TaskHandle S T) → IsFlagged t → IsFlagged (f t))
      → Inv ids g
      → Inv ids (with_task id f g)
  unfolding with_task
  with_task-Inv id f g keep v =
      option_elim (Inv ids) (get_task g id) v
        (λ t at. put_task-Inv id (f t) g (keep t (IsFlagged-at g id t v at)) v)

  pub mark_changed-Inv : (g : Graph S T N) → Inv ids g → Inv ids (mark_changed g)
  unfolding mark_changed
  mark_changed-Inv g v = record {
    flags = v.flags;
    legal = v.legal;
    queued = v.queued;
    listed = v.listed;
    lined = v.lined;
    distinct = v.distinct;
    calm = v.calm;
    plain = v.plain;
  }

  pub push_timer_change-Inv :
      (id : ℕ) (g : Graph S T N) → Inv ids g → Inv ids (push_timer_change id g)
  unfolding push_timer_change
  push_timer_change-Inv id g v = record {
    flags = v.flags;
    legal = v.legal;
    queued = v.queued;
    listed = v.listed;
    lined = v.lined;
    distinct = v.distinct;
    calm = v.calm;
    plain = v.plain;
  }

  pub log_transition-Inv :
      (tr : Transition) (g : Graph S T N) → IsLegal tr → Inv ids g → Inv ids (log_transition tr g)
  unfolding log_transition
  log_transition-Inv tr g l v = record {
    flags = v.flags;
    legal = All-append IsLegal g.transitions (tr ∷ []) v.legal (l, tt);
    queued = v.queued;
    listed = v.listed;
    lined = v.lined;
    distinct = v.distinct;
    calm = v.calm;
    plain = v.plain;
  }

  pub enqueue-Inv : (id : ℕ) (g : Graph S T N) → Inv ids g → Inv ids (enqueue id g)
  unfolding enqueue
  enqueue-Inv id g v =
      if_elim (Inv ids)
        (not (id == init_task_id) && is_registered g id && not (contains id g.in_queue))
        (λ new. record {
          flags = v.flags;
          legal = v.legal;
          queued = All-append _ g.dirty (id ∷ []) v.queued (ground arith, tt);
          listed = v.listed;
          lined = ap (λ l. l ++ id ∷ []) v.lined;
          distinct = Distinct-append id g.dirty (unqueued new) v.distinct;
          calm = v.calm;
          plain = v.plain;
        })
        (λ old. v)
    where
      unqueued :
          (not (id == init_task_id) && is_registered g id && not (contains id g.in_queue)) ≡ true
          → contains id g.dirty ≡ false
      unqueued new = let out : contains id g.in_queue ≡ false = ground arith in rw (sym v.lined) out

  pub enqueue_all-Inv : (js : List ℕ) (g : Graph S T N) → Inv ids g → Inv ids (enqueue_all js g)
  unfolding enqueue_all
  enqueue_all-Inv [] g v = v
  enqueue_all-Inv (j ∷ js) g v = enqueue_all-Inv js (enqueue j g) (enqueue-Inv j g v)

  pub enqueue_parents-Inv : (id : ℕ) (g : Graph S T N) → Inv ids g → Inv ids (enqueue_parents id g)
  unfolding enqueue_parents
  enqueue_parents-Inv id g v = enqueue_all-Inv (parents_of g id) g v

  pub queue_effects-Inv :
      (id : ℕ) (fx : List TaskEffect) (g : Graph S T N)
      → All IsPlainEffect fx
      → Inv ids g
      → Inv ids (queue_effects id fx g)
  unfolding queue_effects
  queue_effects-Inv id fx g p v = record {
    flags = v.flags;
    legal = v.legal;
    queued = v.queued;
    listed = v.listed;
    lined = v.lined;
    distinct = v.distinct;
    calm = v.calm;
    plain =
        All-append IsPlain g.pending_effects (tag_effects id fx) v.plain
          (tag_effects-IsPlain id fx p);
  }

  -- Popping takes a registered id off the queue, and lists it.
  pub popped-Inv :
      (g : Graph S T N) (id : ℕ) (rest : List ℕ)
      → g.dirty ≡ id ∷ rest
      → Inv ids g
      → Inv (id ∷ ids) (popped id rest g)
  popped-Inv g id rest e v =
      let queued : All (λ j. is_registered g j ≡ true) (id ∷ rest) =
        subst (All (λ j. is_registered g j ≡ true)) e v.queued in
      let distinct : Distinct (id ∷ rest) = subst Distinct e v.distinct in
      record {
        flags = v.flags;
        legal = v.legal;
        queued = queued.1;
        listed = (queued.0, v.listed);
        lined = ap (set_remove id) (v.lined ∙ e) ∙ head_out ∙ set_remove-absent id rest distinct.0;
        distinct = distinct.1;
        calm = v.calm;
        plain = v.plain;
      }
    where
      head_out : set_remove id (id ∷ rest) ≡ set_remove id rest
      head_out = rw (==_refl id) refl

  -- What is listed may be forgotten.
  pub Inv-tail : {id : ℕ} (g : Graph S T N) → Inv (id ∷ ids) g → Inv ids g
  Inv-tail g v = record {
    flags = v.flags;
    legal = v.legal;
    queued = v.queued;
    listed = v.listed.1;
    lined = v.lined;
    distinct = v.distinct;
    calm = v.calm;
    plain = v.plain;
  }

  pub link-Inv : (from to : ℕ) (g : Graph S T N) → Inv ids g → Inv ids (link from to g)
  link-Inv from to g v = record {
    flags = v.flags;
    legal = v.legal;
    queued = v.queued;
    listed = v.listed;
    lined = v.lined;
    distinct = v.distinct;
    calm = v.calm;
    plain = v.plain;
  }

  pub unlink-Inv : (from to : ℕ) (g : Graph S T N) → Inv ids g → Inv ids (unlink from to g)
  unlink-Inv from to g v = record {
    flags = v.flags;
    legal = v.legal;
    queued = v.queued;
    listed = v.listed;
    lined = v.lined;
    distinct = v.distinct;
    calm = v.calm;
    plain = v.plain;
  }

  pub add_edge-Inv : (from to : ℕ) (g : Graph S T N) → Inv ids g → Inv ids (add_edge from to g)
  unfolding add_edge
  add_edge-Inv from to g v =
      if_elim (Inv ids) (from == to || to == init_task_id) (λ e. v)
        (λ n.
          if_elim (Inv ids)
            (not (is_registered g to) || not (from == init_task_id) && not (is_registered g from))
            (λ e. v)
            (λ r. enqueue-Inv from _ (
              enqueue-Inv to _ (
                if_elim (Inv ids) (contains to (deps_of g from)) (λ old. v)
                  (λ new.
                    with_task-Inv to _ _ (λ t f. f) (mark_changed-Inv _ (link-Inv from to g v)))))))

  pub remove_edge-Inv :
      (from to : ℕ) (g : Graph S T N) → Inv ids g → Inv ids (remove_edge from to g)
  unfolding remove_edge
  remove_edge-Inv from to g v = enqueue-Inv from _ (
      enqueue-Inv to _ (
        if_elim (Inv ids) (contains to (deps_of g from))
          (λ there. with_task-Inv to _ _ (λ t f. f) (mark_changed-Inv _ (unlink-Inv from to g v)))
          (λ gone. v)))

  pub count_active-Inv :
      (up : Bool) (deps : List ℕ) (g : Graph S T N) → Inv ids g → Inv ids (count_active up deps g)
  unfolding count_active
  count_active-Inv up [] g v = v
  count_active-Inv true (d ∷ deps) g v =
      count_active-Inv true deps _ (enqueue-Inv d _ (with_task-Inv d _ g (λ t f. f) v))
  count_active-Inv false (d ∷ deps) g v =
      count_active-Inv false deps _ (enqueue-Inv d _ (with_task-Inv d _ g (λ t f. f) v))

  pub count_wanted-Inv :
      (up : Bool) (deps : List ℕ) (g : Graph S T N) → Inv ids g → Inv ids (count_wanted up deps g)
  unfolding count_wanted
  count_wanted-Inv up [] g v = v
  count_wanted-Inv true (d ∷ deps) g v =
      count_wanted-Inv true deps _ (enqueue-Inv d _ (with_task-Inv d _ g (λ t f. f) v))
  count_wanted-Inv false (d ∷ deps) g v =
      count_wanted-Inv false deps _ (enqueue-Inv d _ (with_task-Inv d _ g (λ t f. f) v))

module _ {S T N : Type 0} (h : Host S T N) (p : IsPlainHost h) {ids : List ℕ} where
  pub send_cmd-Inv :
      (id : ℕ) (cmd : TaskCmd S) (g : Graph S T N) → Inv ids g → Inv ids (send_cmd h id cmd g)
  unfolding send_cmd
  send_cmd-Inv id cmd g v = option_elim (Inv ids) (get_task g id) v (λ t at.
      queue_effects-Inv id _ _ (p.plain t.task cmd)
        (put_task-Inv id _ g (IsFlagged-at g id t v at) v))

  pub deliver-Inv :
      (from : ℕ) (notify : TaskNotify) (to : List ℕ) (g : Graph S T N)
      → Inv ids g
      → Inv ids (deliver h from notify to g)
  unfolding deliver
  deliver-Inv from notify [] g v = v
  deliver-Inv from notify (id ∷ to) g v =
      deliver-Inv from notify to _ (send_cmd-Inv id (msg from notify) g v)

  pub notify_subscribers-Inv :
      (from : ℕ) (space : Text) (path : Option TaskPath) (notify : TaskNotify) (g : Graph S T N)
      → Inv ids g
      → Inv ids (notify_subscribers h from space path notify g)
  unfolding notify_subscribers
  notify_subscribers-Inv from space none notify g v = deliver-Inv from notify [] g v
  notify_subscribers-Inv from space (some path) notify g v = deliver-Inv from notify _ g v

  pub notify_changed-Inv : (id : ℕ) (g : Graph S T N) → Inv ids g → Inv ids (notify_changed h id g)
  unfolding notify_changed
  notify_changed-Inv id g v =
      option_elim (Inv ids) (get_task g id) v (λ t at. notify_subscribers-Inv id _ _ _ g v)
