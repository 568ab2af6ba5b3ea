-- ===== src/Lifecycle.antt =====
-- The end of an instance: cleanup_instance_runtime and auto_cleanup_instance of
-- backend/services/instance_lifecycle.py, and the job `_run_stop` of backend/services/scheduler.py
-- behind its execute_dag_stop. `World` has the columns that the executor writes of one instance
-- (`store`), the keys of all rows (`tables`) and the release events. An exception of the database is
-- not modelled; one of an agent call is.
pub mod Runtime
pub mod Ending
mod Samples
use manage_deploy.Common.{
  Bool, List, Option, [], contains, false, if◌then◌else◌, none, not, select, some, true, ℕ, ◌==◌,
  ◌||◌, ◌∷◌,
}
use manage_deploy.Dag.Graph.{Graph, NodeRow, get_all_instance_nodes}
use manage_deploy.Dag.Messages.{
  AgentResult, Message, TaskEvent, auto_cleanup_error, cleanup_failed, note, of_task, or_else,
  unknown_error,
}
use manage_deploy.Dag.Nodes.{NodeState, Store, remove_node}
use manage_deploy.Enums.{NodeStatus}
use manage_deploy.Orders.Sync.{mark_orders_completed_for_instance, purge_order_instance_artifacts}
use manage_deploy.Orders.Tables.{Tables, exists}
use manage_deploy.Releases.{Order, ResourceEvent, emit_release_events_for_instance}

-- What becomes of an agent call.
pub data AgentReply : Type 0 where
  answered : AgentResult → AgentReply
  raised : List ℕ → AgentReply

-- A node stands for its name in the text of its warning.
pub data Warning : Type 0 where
  of_node : ℕ → Message → Warning
  runtime_cleanup_failed : List ℕ → Warning

pub data Cleanup : Type 0 where
  finished : Store → List Warning → Cleanup
  failed : Store → List ℕ → Cleanup

abbrev pub may_have_runtime : NodeStatus → Bool
may_have_runtime NodeStatus.starting = true
may_have_runtime NodeStatus.running = true
may_have_runtime NodeStatus.ready = true
may_have_runtime NodeStatus.stopping = true
may_have_runtime _ = false

abbrev pub has_container : NodeState → Bool
has_container s = elim s.container_id [
  | some c ↦ true
  | none ↦ elim s.container_name [ some c ↦ true | none ↦ false ]
]

abbrev pub has_runtime : NodeState → Bool
has_runtime s = has_container s || may_have_runtime s.status

abbrev pub with_warning : ℕ → Option Message → Cleanup → Cleanup
with_warning k none c = c
with_warning k (some m) (finished st ws) =
    finished st (of_node k (or_else (some m) unknown_error) ∷ ws)
with_warning k (some m) (failed st e) = failed st e

-- What became of one node: the store with the error of `remove_node`, or an exception.
pub data Removal : Type 0 where
  returned : Store → Option Message → Removal
  broke : List ℕ → Removal

-- The body of the loop; the agent is called only where the machine is known.
unfoldable pub remove_one : Graph → (ℕ → AgentReply) → NodeRow → Store → Removal
remove_one g replies n st =
    if not (has_runtime (st.node_state n.id))
    then returned st none
    else if not (contains n.node_id g.machines)
    then returned st none
    else elim (replies n.id) [
      | raised e ↦ broke e
      | answered r ↦ returned (remove_node g n r st).0 (remove_node g n r st).1
    ]

-- The loop of `cleanup_instance_runtime`.
unfoldable pub cleanup_nodes : Graph → (ℕ → AgentReply) → List NodeRow → Store → Cleanup
cleanup_nodes g replies [] st = finished st []
cleanup_nodes g replies (n ∷ ns) st = elim (remove_one g replies n st) [
  | broke e ↦ failed st e
  | returned after m ↦ with_warning n.id m (cleanup_nodes g replies ns after)
]

unfoldable pub cleanup_instance_runtime : Graph → ℕ → (ℕ → AgentReply) → Store → Cleanup
unfolding cleanup_nodes
cleanup_instance_runtime g i replies st = cleanup_nodes g replies (get_all_instance_nodes g i) st

pub record World : Type 0 where
  pub store : Store
  pub tables : Tables
  pub releases : List ResourceEvent

-- The event of a clean-up that raised.
abbrev pub cleanup_error : ℕ → List ℕ → Store → TaskEvent
cleanup_error i e st = record {
  instance_id = i;
  node_id = none;
  event_type = auto_cleanup_error;
  old_status = elim st.instance_row [ none ↦ none | some t ↦ some (of_task t.status) ];
  new_status = cleanup_failed;
  message = note e;
}

-- The first `try` of `auto_cleanup_instance`.
unfoldable pub after_cleanup : ℕ → Cleanup → Store × List Warning
after_cleanup i (finished st ws) = (st, ws)
after_cleanup i (failed st e) =
    (record st { events = cleanup_error i e st ∷ st.events }, runtime_cleanup_failed e ∷ [])

-- `purge_order_instance_artifacts`, on both views of the rows.
unfoldable pub purge_world : ℕ → World → World
purge_world i w = record w {
  tables = purge_order_instance_artifacts (some i) w.tables;
  store = record w.store {
    instance_row = if exists w.tables i then none else w.store.instance_row;
    events = select (λ e. not (e.instance_id == i)) w.store.events;
  };
}

module _ (g : Graph) (i : ℕ) (replies : ℕ → AgentReply) (pending : List ResourceEvent)
    (conflicts : ℕ → ℕ → ℕ → Bool) (orders : List Order) where
  -- `emit_release_events_for_instance` with the reason.
  unfoldable pub release : ℕ → World → World
  release reason w = record w {
    releases =
        (emit_release_events_for_instance pending conflicts reason (some i) orders w.releases).0;
  }

  unfoldable pub auto_cleanup_instance : ℕ → World → World × List Warning
  unfolding release purge_world
  auto_cleanup_instance reason w =
      let (st, warnings) = after_cleanup i (cleanup_instance_runtime g i replies w.store) in
      (purge_world i (release reason (record w { store = st })), warnings)

  -- `_run_stop` behind the stop of the nodes: `scheduled_stop` and `auto_cleanup` are the reasons.
  unfoldable pub run_stop : ℕ → ℕ → Bool → World → World
  unfolding release auto_cleanup_instance
  run_stop scheduled_stop auto_cleanup keep_after_stop w =
      if not (exists w.tables i)
      then w
      else let completed = record w {
        tables = (mark_orders_completed_for_instance i w.tables).0;
      } in
        let released = release scheduled_stop completed in
        if keep_after_stop then released else (auto_cleanup_instance auto_cleanup released).0
