-- ===== src/Dag/Start/Loop.antt =====
-- The `while` loop of `execute_dag_start` (backend/services/dag_executor.py). A step runs it up to
-- its next await. What the event loop chooses (the element that `set.pop` takes, the order of
-- `done`) and what the agent answers are arguments of a step.
use manage_deploy.Common.{
  ℕ, Bool, true, false, not, ◌&&◌, ◌++◌, Option, none, some, List, [], ◌∷◌, ltb, if◌then◌else◌,
  contains, add, remove, all_in, put, delete, length, is_empty,
}
use manage_deploy.Enums.{TaskStatus}
use manage_deploy.Dag.Graph.{Graph, NodeRow, get_downstream_nodes, get_node_by_id, upstream_ids}
use manage_deploy.Dag.Messages.{nodes_failed, AgentResult}
use manage_deploy.Dag.Nodes.{Store, set_instance, remove_node}
use manage_deploy.Dag.Start.State.{
  created, Pc, head, fill, waiting, process, visit, rollback, finished, Run, union, task_result,
  done_tasks, find_key,
}

-- The code behind the loop, up to its first await.
unfoldable pub leave : ℕ → Run → Run
leave now r =
    if not (is_empty r.failed)
    then record r { pc = rollback (union r.started r.failed) }
    else record r {
      store =
          set_instance r.store
            (λ t. record t { status = TaskStatus.running; start_time = some now });
      pc = finished true;
    }

unfoldable pub at_head : ℕ → Run → Run
unfolding leave
at_head now r =
    if not (is_empty r.failed)
    then leave now r
    else if is_empty r.pending && is_empty r.running
    then leave now r
    else record r { pc = fill }

-- `pending_nodes.pop()` takes `k`; `create_task` puts the new task under its node's key.
unfoldable pub launch : Graph → ℕ → Run → Run
launch g k r = elim (get_node_by_id g k) [
  | none ↦ record r { pending = remove k r.pending }
  | some n ↦ record r {
    pending = remove k r.pending;
    tasks = r.tasks ++ record { node = n; phase = created } ∷ [];
    running = put k (length r.tasks) r.running;
  }
]

unfoldable pub at_fill : Graph → ℕ → ℕ → Run → Option Run
unfolding launch leave
at_fill g now choice r =
    if not (is_empty r.pending) && ltb (length r.running) 10
    then if contains choice r.pending then some (launch g choice r) else none
    else some (if is_empty r.running then leave now r else record r { pc = waiting })

unfoldable pub at_wait : Run → Option Run
at_wait r =
    let ds = done_tasks r.tasks r.running in
    if is_empty ds then none else some (record r { pc = process ds })

-- One round of the `for` over `done`, up to the query of the downstream nodes.
unfoldable pub at_done : Graph → ℕ → ℕ → Bool → List ℕ → Run → Run
at_done g i choice success rest r = elim (find_key choice r.running) [
  | none ↦ record r { pc = process rest }
  | some k ↦ record r {
    running = delete k r.running;
    pc = if success then visit (get_downstream_nodes g i k) rest else process rest;
  }
]

unfoldable pub at_process : Graph → ℕ → ℕ → List ℕ → Run → Option Run
unfolding at_done
at_process g i choice ds r =
    if is_empty ds
    then some (record r { pc = head })
    else if contains choice ds
    then elim (task_result r.tasks choice) [
      | none ↦ none
      | some success ↦ some (at_done g i choice success (remove choice ds) r)
    ]
    else none

unfoldable pub at_visit : Graph → ℕ → NodeRow → List NodeRow → List ℕ → Run → Run
at_visit g i d ds rest r =
    if all_in (upstream_ids g i d.id) r.started && not (contains d.id r.started)
    then record r { pending = add d.id r.pending; pc = visit ds rest }
    else record r { pc = visit ds rest }

-- One node of `_rollback_started_nodes`; the set gives them in any order.
unfoldable pub roll_back : Graph → AgentResult → ℕ → Store → Store
roll_back g reply k st = elim (get_node_by_id g k) [
  | none ↦ st
  | some n ↦ (remove_node g n reply st).0
]

unfoldable pub at_rollback : Graph → AgentResult → ℕ → List ℕ → Run → Run
unfolding roll_back
at_rollback g reply choice [] r = record r {
  store =
      set_instance r.store (λ t. record t {
        status = TaskStatus.failed;
        error_message = some (nodes_failed r.failed);
      });
  pc = finished false;
}
at_rollback g reply choice (k ∷ ks) r = record r {
  store = roll_back g reply choice r.store;
  pc = rollback (remove choice (k ∷ ks));
}

-- One step of the loop itself; `none` where it is blocked or the choice is not possible.
unfoldable pub at_pc : Graph → ℕ → ℕ → ℕ → AgentResult → Pc → Run → Option Run
unfolding at_head at_fill at_wait at_process at_visit at_rollback
at_pc g i now choice reply head r = some (at_head now r)
at_pc g i now choice reply fill r = at_fill g now choice r
at_pc g i now choice reply waiting r = at_wait r
at_pc g i now choice reply (process ds) r = at_process g i choice ds r
at_pc g i now choice reply (visit [] rest) r = some (record r { pc = process rest })
at_pc g i now choice reply (visit (d ∷ ds) rest) r = some (at_visit g i d ds rest r)
at_pc g i now choice reply (rollback []) r = some (at_rollback g reply choice [] r)
at_pc g i now choice reply (rollback (k ∷ ks)) r =
    if contains choice (k ∷ ks) then some (at_rollback g reply choice (k ∷ ks) r) else none
at_pc g i now choice reply (finished b) r = none

unfoldable pub advance : Graph → ℕ → ℕ → ℕ → AgentResult → Run → Option Run
unfolding at_pc
advance g i now choice reply r = at_pc g i now choice reply r.pc r
