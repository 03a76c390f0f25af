-- ===== src/Lib.antt =====
-- The core of dekit, a runner of processes: the kernel's graph of tasks, the paths that name tasks,
-- and the subscriptions by which tasks hear of each other.
--
-- src/kernel/task_path.rs is TaskPath.antt. A path is its text, a list of code points. TaskPath/Render
-- writes a list of components as a text, and TaskPath/Refines and TaskPath/Tree compare each
-- operation on texts with one on lists of components.
--
-- src/kernel/sub_trie.rs is SubTrie.antt: a trie of nodes with two sets of listeners. SubTrie/Registry
-- reads it as a set of subscriptions, SubTrie/Covered relates it to the index by subscriber, and
-- SubTrie/Run runs any operations from the empty trie.
--
-- src/kernel/path_trie.rs is PathTrie.antt, and PathTrie/Entries reads the trie as two maps, of the
-- tasks and of the folders at paths. PathTrie/Above and PathTrie/Under are about what is above and
-- under a path, PathTrie/Updates about what goes in and out, PathTrie/Leaves, PathTrie/Groups and
-- PathTrie/Names about any operations from the empty trie, PathTrie/Glob about patterns, and
-- PathTrie/Order, PathTrie/Childless and PathTrie/Listing about the order of the list.
--
-- src/kernel/namespace.rs is Namespace.antt, a pair of these tries for each space; Namespace/Spaces
-- takes any of its operations apart into those of the tries.
--
-- src/kernel/task.rs is Task.antt: states, exits, modes and the record of a task. Task/Legal is the
-- diagram of legal state changes of src/kernel/kernel_prop.rs, Task/Outcome how runs end.
--
-- src/kernel/kernel.rs is Graph.antt and the files under Graph/. `Graph` there is the record of
-- Graph/State, and each method takes it and gives it back: Edges has `add_edge` and `remove_edge`,
-- SetState `set_state`, Driving the starts, stops and timers, Reports what tasks report, Intent the
-- verbs, Reconcile `settle` and what it calls, Register and Remove how tasks come and go, and
-- Messages the kernel's loop, where each message is dispatched and then the graph settles.
-- Graph/Invariant has the invariant and, in its children, that every operation keeps it.
--
-- Graph/Labels has `set_task_label`. Graph/Fresh and Graph/Closure are about what a task needs,
-- Graph/Timers about the epochs of the graph's timers, and Graph/Backoff about its delays.
-- Graph/Waits has where the tasks of a wait stand and its verdict.
--
-- src/parse_shell.rs and `join_argv` of src/spec.rs are Shell.antt: lines into words and back.
--
-- src/config/duration.rs and `format_duration` of src/spec.rs are Duration.antt: durations as text.
--
-- src/kernel/copy_mode.rs is CopyMode.antt: CopyMode/Cursor is about the cursor under keys and clicks,
-- CopyMode/Selection about the positions that are selected.
--
-- src/protocol/wire.rs is Wire.antt, the frame codec on buffers of bytes.
--
-- What the graph asks of others is the record `Host`: the tasks' own `handle_cmd`, the factory of a
-- task's object, and `Namespace`'s operations on paths. Nothing is assumed of them but, where a
-- theorem says so, that a task reports no ready timeout, which only the kernel marks an exit with.
-- `panicked` is set where the code would fail an `expect` or an index; `transitions` is the log
-- that the code keeps under test.
--
-- Time is a number of milliseconds. The counters of 32 and 64 bits wrap as in a release build, and
-- so do copy mode's casts to `i32` and what it computes with them. A HashMap is an association list
-- and a HashSet a list without repetition, so the order of the code's iterations over them is one
-- of those it may have. `settle` makes at most as many steps as its budget allows, as in the code;
-- the loop of one round over the dirty queue runs on fuel of its own, and `closure` on one step for
-- each task and one more, which is enough where every dep is registered. What holds of the loop holds for every fuel.
--
-- Prelude.antt and its children have what all files share: tests on numbers, lists as sets, maps,
-- texts and results. The files named Tests apply the theorems at concrete inputs.
--
-- The walk up from a path takes at most as many steps as its text has characters, each parent being
-- shorter. A panic of `move_index` in `PathTrie::make` is a result of its own.
--
-- Not modelled: of the graph, folders, tags, watches, the events of waits, queries, subscriptions,
-- registrations in a batch, duplicates, updates of definitions, origins, moves, the quits that save
-- and the freeze for an upgrade, whose messages Graph/Messages names; how selectors and the rights
-- of a sender give the ids of a message; `check_active_watches` and `check_waits` after each
-- dispatch; and its run over this namespace, which it takes as `Host`; `move_node` of the trie of
-- paths; the text that copy mode reads out of the grid; and the terminal emulator, the console, the
-- rest of the configuration and of the protocol, and what calls the operating system.
pub mod Prelude
pub mod Task
pub mod TaskPath
pub mod SubTrie
pub mod Graph
pub mod Wire
pub mod PathTrie
pub mod Namespace
pub mod Shell
pub mod Duration
pub mod CopyMode
