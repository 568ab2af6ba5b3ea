-- ===== src/Dag/Stop/Loop.antt =====
-- `execute_dag_stop` and `_stop_node_async` (backend/services/dag_executor.py) as steps, each up to
-- the next await. What the event loop chooses and the agent answers are arguments of a step.
use manage_deploy.Common.{
  Bool, List, Option, [], add, all_in, contains, delete, false, get_elem?, if◌then◌else◌, is_empty,
  length, ltb, none, not, put, remove, set, some, true, ℕ, ◌&&◌, ◌++◌, ◌||◌, ◌∷◌, ◌≡◌,
}
use manage_deploy.Dag.Graph.{
  Graph, NodeRow, downstream_ids, get_leaf_nodes, get_node_by_id, get_upstream_nodes, ids,
}
use manage_deploy.Dag.Messages.{AgentResult, Message, instance_not_found}
use manage_deploy.Dag.Nodes.{Store, set_instance, stop_node, update_node_status, update_task_status}
use manage_deploy.Dag.Start.State.{find_key, to_set}
use manage_deploy.Enums.{NodeStatus, TaskStatus, is_pending, is_stopped}

pub data StopPhase : Type 0 where
  created calling over : StopPhase

pub record StopTask : Type 0 where
  pub node : NodeRow
  pub phase : StopPhase

pub data StopPc : Type 0 where
  head fill waiting finished : StopPc
  process : List ℕ → StopPc
  visit : List NodeRow → List ℕ → StopPc

-- `running` maps a node to the number of its task in `tasks`, which keeps every task ever made.
pub record StopRun : Type 0 where
  pub store : Store
  pub stopped : List ℕ
  pub pending : List ℕ
  pub tasks : List StopTask
  pub running : List (ℕ × ℕ)
  pub pc : StopPc

abbrev pub is_over : List StopTask → ℕ → Bool
is_over tasks k = elim (get_elem? tasks k) [
  | none ↦ false
  | some t ↦ elim t.phase [ over ↦ true | _ ↦ false ]
]

abbrev pub over_tasks : List StopTask → List (ℕ × ℕ) → List ℕ
over_tasks tasks [] = []
over_tasks tasks ((k, t) ∷ m) =
    let rest = over_tasks tasks m in if is_over tasks t then t ∷ rest else rest

-- Behind the loop.
unfoldable pub finish_stop : ℕ → StopRun → StopRun
finish_stop now r = record r {
  store = set_instance r.store (λ t. record t { status = TaskStatus.stopped; end_time = some now });
  pc = finished;
}

unfoldable pub launch_stop : Graph → ℕ → StopRun → StopRun
launch_stop g k r = elim (get_node_by_id g k) [
  | none ↦ record r { pending = remove k r.pending }
  | some n ↦ record r {
    pending = remove k r.pending;
    tasks = r.tasks ++ record { node = n; phase = created } ∷ [];
    running = put k (length r.tasks) r.running;
  }
]

unfoldable pub stop_fill : Graph → ℕ → ℕ → StopRun → Option StopRun
unfolding launch_stop finish_stop
stop_fill g now choice r =
    if not (is_empty r.pending) && ltb (length r.running) 10
    then if contains choice r.pending then some (launch_stop g choice r) else none
    else some (if is_empty r.running then finish_stop now r else record r { pc = waiting })

unfoldable pub stop_wait : StopRun → Option StopRun
stop_wait r =
    let ds = over_tasks r.tasks r.running in
    if is_empty ds then none else some (record r { pc = process ds })

-- One round of the `for` over `done`, up to the query of the upstream nodes.
unfoldable pub stop_done : Graph → ℕ → ℕ → List ℕ → StopRun → StopRun
stop_done g i choice rest r = elim (find_key choice r.running) [
  | none ↦ record r { pc = process rest }
  | some k ↦ record r {
    running = delete k r.running;
    stopped = add k r.stopped;
    pc = visit (get_upstream_nodes g i k) rest;
  }
]

unfoldable pub stop_process : Graph → ℕ → ℕ → List ℕ → StopRun → Option StopRun
unfolding stop_done
stop_process g i choice ds r =
    if is_empty ds
    then some (record r { pc = head })
    else if contains choice ds
    then some (stop_done g i choice (remove choice ds) r)
    else none

unfoldable pub stop_visit : Graph → ℕ → NodeRow → List NodeRow → List ℕ → StopRun → StopRun
stop_visit g i u us rest r =
    if all_in (downstream_ids g i u.id) r.stopped && not (contains u.id r.stopped)
    then record r { pending = add u.id r.pending; pc = visit us rest }
    else record r { pc = visit us rest }

unfoldable pub stop_at : Graph → ℕ → ℕ → ℕ → StopPc → StopRun → Option StopRun
unfolding finish_stop stop_fill stop_wait stop_process stop_visit
stop_at g i now choice head r =
    some (
      if is_empty r.pending && is_empty r.running
      then finish_stop now r
      else record r { pc = fill })
stop_at g i now choice fill r = stop_fill g now choice r
stop_at g i now choice waiting r = stop_wait r
stop_at g i now choice (process ds) r = stop_process g i choice ds r
stop_at g i now choice (visit [] rest) r = some (record r { pc = process rest })
stop_at g i now choice (visit (u ∷ us) rest) r = some (stop_visit g i u us rest r)
stop_at g i now choice finished r = none

-- One step of the loop; `none` where it is blocked, or the choice is not possible.
unfoldable pub stop_advance : Graph → ℕ → ℕ → ℕ → StopRun → Option StopRun
unfolding stop_at
stop_advance g i now choice r = stop_at g i now choice r.pc r

-- The stop call is behind: a node that is stopped gets its status.
unfoldable pub after_stop : StopRun → ℕ → StopTask → Store × Option Message → StopRun
after_stop r k t (st, none) = record r {
  store = update_node_status st t.node.id NodeStatus.stopped none;
  tasks = set r.tasks k (record t { phase = over });
}
after_stop r k t (st, some m) = record r {
  store = st;
  tasks = set r.tasks k (record t { phase = over });
}

unfoldable pub stop_node_at :
    Graph → ℕ → AgentResult → StopRun → StopTask → StopPhase → Option StopRun
unfolding after_stop
stop_node_at g k reply r t created =
    some (record r { tasks = set r.tasks k (record t { phase = calling }) })
stop_node_at g k reply r t calling = some (after_stop r k t (stop_node g t.node reply r.store))
stop_node_at g k reply r t over = none

-- One step of the coroutine with number `k`.
unfoldable pub stop_node_async : Graph → ℕ → AgentResult → StopRun → Option StopRun
unfolding stop_node_at
stop_node_async g k reply r = elim (get_elem? r.tasks k) [
  | none ↦ none
  | some t ↦ stop_node_at g k reply r t t.phase
]

pub data StopBegin : Type 0 where
  returned : Store → Bool → Option Message → StopBegin
  loop : StopRun → StopBegin

abbrev pub first_stop : Graph → ℕ → Store → StopRun
first_stop g i st = record {
  store = st;
  stopped = [];
  pending = to_set (ids (get_leaf_nodes g i));
  tasks = [];
  running = [];
  pc = head;
}

-- `execute_dag_stop` up to its loop.
unfoldable pub execute_dag_stop : Graph → ℕ → Store → StopBegin
unfolding update_task_status
execute_dag_stop g i st = elim st.instance_row [
  | none ↦ returned st false (some instance_not_found)
  | some t ↦
      if is_stopped t.status || is_pending t.status
      then returned st true none
      else loop (first_stop g i (update_task_status st TaskStatus.stopping))
]

pub data StopStep (g : Graph) (i : ℕ) (r s : StopRun) : Type 0 where
  main : (now choice : ℕ) → stop_advance g i now choice r ≡ some s → StopStep g i r s
  task : (k : ℕ) (reply : AgentResult) → stop_node_async g k reply r ≡ some s → StopStep g i r s

pub data StopReach (g : Graph) (i : ℕ) (r : StopRun) : StopRun → Type 0 where
  here : StopReach g i r r
  next : {s t : StopRun} → StopReach g i r s → StopStep g i s t → StopReach g i r t
