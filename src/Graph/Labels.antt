-- ===== src/Graph/Labels.antt =====
-- `set_task_label` of src/kernel/kernel.rs: a task under another label.
use dekit.Prelude.{ℕ, Bool, true, false, Option, none, some, if◌then◌else◌}
use dekit.Prelude.Text.{Text, text_eq}
use dekit.Task.{TaskHandle, NextRun}
use dekit.Graph.State.{Host, Graph, get_task, put_task, mark_changed, notify_changed}
use dekit.Graph.Register.{map_some}

-- `task.label == label`
abbrev pub label_eq : Option Text → Option Text → Bool
label_eq none none = true
label_eq (some a) (some b) = text_eq a b
label_eq _ _ = false

module _ {S T N : Type 0} (h : Host S T N) where
  abbrev relabelled_next : Option Text → NextRun S → NextRun S
  relabelled_next label n = record n { spec = map_some (h.set_label label) n.spec }

  -- The definitions, of this run and of the next one, get the label too.
  abbrev pub relabelled : Option Text → TaskHandle S T → TaskHandle S T
  relabelled label t = record t {
    next = map_some (relabelled_next label) t.next;
    spec = map_some (h.set_label label) t.spec;
    label = label;
  }

  unfoldable pub set_task_label : ℕ → Option Text → Graph S T N → Graph S T N
  set_task_label id label g = elim (get_task g id) [
    | none ↦ g
    | some t ↦
        if label_eq t.label label
        then g
        else notify_changed h id (mark_changed (put_task id (relabelled label t) g))
  ]
